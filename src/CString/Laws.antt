-- ===== src/CString/Laws.antt =====
-- Laws of the functions on lines and tokens: what they make of a text that is put together from
-- parts without the delimiter.
use furikup.CString.Numbers.{digits}
use furikup.Prelude.{
  ℕ, zero, suc, ◌≤◌, ◌<◌, false, List, [], ◌∷◌, ◌++◌, some, ◌≡◌, ◌≢◌, refl, ap, ap₂, ◌∙◌, arith,
  Bytes, ◌==◌, length, length-append, ◌/◌, ◌%◌, ◌+◌,
}
use furikup.CString.Tokens.{cut, after, skip, token, strtok, fgets, read_lines, file_lines}

-- The byte does not occur in the text.
abbrev pub Free : ℕ → Bytes → Type 0
Free d [] = Unit {0}
Free d (c ∷ s) = ((c == d) ≡ false) × Free d s

pub Free-append : (d : ℕ) (s t : Bytes) → Free d s → Free d t → Free d (s ++ t)
Free-append d [] t f g = g
Free-append d (c ∷ s) t (n, f) g = (n, Free-append d s t f g)

pub cut-Free : (d : ℕ) (s : Bytes) → Free d s → cut d s ≡ s
unfolding cut
cut-Free d [] f = refl
cut-Free d (c ∷ s) (n, f) = rw n (ap (◌∷◌ c) (cut-Free d s f))

pub cut-append : (d : ℕ) (s t : Bytes) → Free d s → cut d (s ++ d ∷ t) ≡ s
unfolding cut
cut-append d [] t f = ground arith
cut-append d (c ∷ s) t (n, f) = rw n (ap (◌∷◌ c) (cut-append d s t f))

after-Free : (d : ℕ) (s : Bytes) → Free d s → after d s ≡ []
unfolding after
after-Free d [] f = refl
after-Free d (c ∷ s) (n, f) = rw n (after-Free d s f)

after-append : (d : ℕ) (s t : Bytes) → Free d s → after d (s ++ d ∷ t) ≡ t
unfolding after
after-append d [] t f = ground arith
after-append d (c ∷ s) t (n, f) = rw n (after-append d s t f)

-- Nothing is skipped in front of a token.
skip-Free : (d c : ℕ) (s : Bytes) → (c == d) ≡ false → skip d (c ∷ s) ≡ c ∷ s
unfolding skip
skip-Free d c s n = rw n

strtok-token :
    (d c : ℕ) (s : Bytes)
    → (c == d) ≡ false
    → strtok d (c ∷ s) ≡ some (cut d (c ∷ s), after d (c ∷ s))
unfolding strtok
strtok-token d c s n = ap (token d) (skip-Free d c s n)

-- The first token of a text is the part in front of the first delimiter, and the search goes on
-- behind it.
pub strtok-append : (d : ℕ) (s t : Bytes) → s ≢ [] → Free d s → strtok d (s ++ d ∷ t) ≡ some (s, t)
strtok-append d [] t e f = absurd (e refl)
strtok-append d (c ∷ s) t e f =
    strtok-token d c (s ++ d ∷ t) f.0
    ∙ ap₂ (λ x y. some (x, y)) (cut-append d (c ∷ s) t f) (after-append d (c ∷ s) t f)

-- A text without the delimiter is its own only token.
pub strtok-Free : (d : ℕ) (s : Bytes) → s ≢ [] → Free d s → strtok d s ≡ some (s, [])
strtok-Free d [] e f = absurd (e refl)
strtok-Free d (c ∷ s) e f =
    strtok-token d c s f.0
    ∙ ap₂ (λ x y. some (x, y)) (cut-Free d (c ∷ s) f) (after-Free d (c ∷ s) f)

-- A line that fits into the buffer is read whole.
pub fgets-append :
    (n : ℕ) (line rest : Bytes)
    → Free b'\n' line
    → length line < n
    → fgets n (line ++ b'\n' ∷ rest) ≡ (line ++ b'\n' ∷ [], rest)
unfolding fgets
fgets-append zero line rest f h = elim h [ ]
fgets-append (suc n) [] rest f h = refl
fgets-append (suc n) (c ∷ line) rest (m, f) h = rw m (rw (fgets-append n line rest f (omega arith)))

-- The lines of a file, each with its newline.
abbrev pub print_lines : List Bytes → Bytes
print_lines [] = []
print_lines (l ∷ ls) = l ++ b'\n' ∷ print_lines ls

-- Lines that `fgets` reads whole.
abbrev pub AreLines : ℕ → List Bytes → Type 0
AreLines n [] = Unit {0}
AreLines n (l ∷ ls) = Free b'\n' l × (length l < n) × AreLines n ls

abbrev pub end_lines : List Bytes → List Bytes
end_lines [] = []
end_lines (l ∷ ls) = (l ++ b'\n' ∷ []) ∷ end_lines ls

read_lines-line :
    (fuel n : ℕ) (l rest : Bytes)
    → Free b'\n' l
    → length l < n
    → read_lines (suc fuel) n (l ++ b'\n' ∷ rest) ≡ (l ++ b'\n' ∷ []) ∷ read_lines fuel n rest
unfolding read_lines
read_lines-line fuel n [] rest f h = rw (fgets-append n [] rest f h)
read_lines-line fuel n (c ∷ l) rest f h = rw (fgets-append n (c ∷ l) rest f h)

-- A file of lines that fit into the buffer is read line by line.
read_lines-print_lines :
    (fuel n : ℕ) (ls : List Bytes)
    → AreLines n ls
    → length (print_lines ls) ≤ fuel
    → read_lines fuel n (print_lines ls) ≡ end_lines ls
read_lines-print_lines zero n [] a h = unfold read_lines in refl
read_lines-print_lines (suc fuel) n [] a h = unfold read_lines in refl
read_lines-print_lines zero n (l ∷ ls) a h =
    absurd (omega (arith, length-append l (b'\n' ∷ print_lines ls)))
read_lines-print_lines (suc fuel) n (l ∷ ls) (f, m, a) h =
    read_lines-line fuel n l (print_lines ls) f m
    ∙ ap (◌∷◌ (l ++ b'\n' ∷ [])) (
        read_lines-print_lines fuel n ls a
          (omega (arith, length-append l (b'\n' ∷ print_lines ls))))

pub file_lines-print_lines :
    (n : ℕ) (ls : List Bytes) → AreLines n ls → file_lines n (print_lines ls) ≡ end_lines ls
file_lines-print_lines n ls a =
    read_lines-print_lines (length (print_lines ls)) n ls a (omega arith)

-- A printed number has at most as many digits as its fuel.
pub length-digits_le : (fuel n : ℕ) → length (digits fuel n) ≤ fuel
unfolding digits
length-digits_le zero n = omega arith
length-digits_le (suc fuel) n = ground (
  arith,
  length-digits_le fuel (n / 10),
  length-append (digits fuel (n / 10)) ((n % 10 + b'0') ∷ []),
)

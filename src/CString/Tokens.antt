-- ===== src/CString/Tokens.antt =====
-- Lines of a file and tokens of a line.
use furikup.Prelude.{
  ℕ, zero, suc, List, [], ◌∷◌, Option, none, some, Bytes, ◌==◌, if◌then◌else◌, length,
}

-- `c = strchr(s, d); if (c) *c = 0;`
unfoldable pub cut : ℕ → Bytes → Bytes
cut d [] = []
cut d (c ∷ s) = if c == d then [] else c ∷ cut d s

-- What stands behind the first `d`.
unfoldable pub after : ℕ → Bytes → Bytes
after d [] = []
after d (c ∷ s) = let rest = after d s in if c == d then s else rest

unfoldable pub skip : ℕ → Bytes → Bytes
skip d [] = []
skip d (c ∷ s) = let rest = skip d s in if c == d then rest else c ∷ s

-- `strtok` with one delimiter: leading delimiters are skipped, and an empty rest gives NULL. The
-- second part is what the next `strtok(NULL, d)` goes on with.
abbrev pub token : ℕ → Bytes → Option (Bytes × Bytes)
token d [] = none
token d (c ∷ s) = some (cut d (c ∷ s), after d (c ∷ s))

unfoldable pub strtok : ℕ → Bytes → Option (Bytes × Bytes)
unfolding cut after skip
strtok d s = token d (skip d s)

abbrev pub prepend : ℕ → Bytes × Bytes → Bytes × Bytes
prepend c (line, rest) = (c ∷ line, rest)

-- `fgets` of up to n bytes: the line with its newline, and the rest of the file.
unfoldable pub fgets : ℕ → Bytes → Bytes × Bytes
fgets zero s = ([], s)
fgets (suc n) [] = ([], [])
fgets (suc n) (c ∷ s) = let more = prepend c (fgets n s) in if c == b'\n' then (c ∷ [], s) else more

-- `while (fgets(buffer, n + 1, fd))`: the lines that the loop sees, on fuel.
unfoldable pub read_lines : ℕ → ℕ → Bytes → List Bytes
unfolding fgets
read_lines zero n s = []
read_lines (suc fuel) n [] = []
read_lines (suc fuel) n (c ∷ s) =
    let (line, rest) = fgets n (c ∷ s) in line ∷ read_lines fuel n rest

abbrev pub file_lines : ℕ → Bytes → List Bytes
file_lines n s = read_lines (length s) n s

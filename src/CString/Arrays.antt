-- ===== src/CString/Arrays.antt =====
-- Laws of the copies into arrays of a fixed size.
use furikup.Prelude.{
  ℕ, zero, suc, ◌≤◌, ◌<◌, false, [], ◌∷◌, Option, none, some, ◌≡◌, refl, ap, ◌∙◌, arith, Bytes,
  ◌==◌, if◌then◌else◌, ltb, length,
}
use furikup.CString.Copy.{strncpy, c_string, push, strcpy}
use furikup.CString.Laws.{Free}

c_string-cons : (c : ℕ) (s : Bytes) → (c == 0) ≡ false → c_string (c ∷ s) ≡ push c (c_string s)
unfolding c_string
c_string-cons c s h = rw h

-- A string shorter than the array is read back as it was written.
pub c_string-strncpy :
    (n : ℕ) (s : Bytes) → Free 0 s → length s < n → c_string (strncpy n s) ≡ some s
unfolding strncpy c_string
c_string-strncpy zero s f h = absurd (omega arith)
c_string-strncpy (suc n) [] f h = refl
c_string-strncpy (suc n) (c ∷ s) (m, f) h =
    c_string-cons c (strncpy n s) m ∙ ap (push c) (c_string-strncpy n s f (omega arith))

-- A string as long as the array or longer leaves no string in it.
pub c_string-strncpy_long :
    (n : ℕ) (s : Bytes) → Free 0 s → n ≤ length s → c_string (strncpy n s) ≡ none
unfolding strncpy c_string
c_string-strncpy_long zero s f h = refl
c_string-strncpy_long (suc n) [] f h = absurd (omega arith)
c_string-strncpy_long (suc n) (c ∷ s) (m, f) h =
    c_string-cons c (strncpy n s) m ∙ ap (push c) (c_string-strncpy_long n s f (omega arith))

-- The string that a `char[n]` holds behind the copy.
abbrev pub kept : ℕ → Bytes → Option Bytes
kept n s = if ltb (length s) n then some s else none

pub c_string-strncpy-kept : (n : ℕ) (s : Bytes) → Free 0 s → c_string (strncpy n s) ≡ kept n s
c_string-strncpy-kept n s f = ground (arith, c_string-strncpy n s f, c_string-strncpy_long n s f)

pub strcpy-fits : (n : ℕ) (s : Bytes) → length s < n → strcpy n s ≡ some s
strcpy-fits n s h = ground arith

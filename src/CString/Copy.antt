-- ===== src/CString/Copy.antt =====
-- Copies into arrays of a fixed size, and comparisons.
use furikup.Prelude.{
  ℕ, zero, suc, ◌+◌, Bool, true, false, ◌&&◌, [], ◌∷◌, Option, none, some, Bytes, ltb, leb, ◌==◌,
  if◌then◌else◌, length, map,
}

-- `strncpy(dest, src, n)`: exactly n bytes, padded with NULs, with no NUL at all if `src` is long.
unfoldable pub strncpy : ℕ → Bytes → Bytes
strncpy zero s = []
strncpy (suc n) [] = 0 ∷ strncpy n []
strncpy (suc n) (c ∷ s) = c ∷ strncpy n s

abbrev pub push : ℕ → Option Bytes → Option Bytes
push c none = none
push c (some s) = some (c ∷ s)

-- The string that an array holds, `none` if no NUL ends it inside the array.
unfoldable pub c_string : Bytes → Option Bytes
c_string [] = none
c_string (c ∷ buf) = let rest = push c (c_string buf) in if c == 0 then some [] else rest

-- `strcpy` or `sprintf` into a `char[n]`: the string, and `none` for a write past the end.
abbrev pub strcpy : ℕ → Bytes → Option Bytes
strcpy n s = if ltb (length s) n then some s else none

-- `strcmp(s, t) == 0`.
unfoldable pub str_eq : Bytes → Bytes → Bool
str_eq [] [] = true
str_eq (a ∷ s) (b ∷ t) = a == b && str_eq s t
str_eq _ _ = false

abbrev pub to_lower : ℕ → ℕ
to_lower c = if leb b'A' c && leb c b'Z' then c + 32 else c

-- `strcasecmp(s, t) == 0`.
unfoldable pub strcase_eq : Bytes → Bytes → Bool
unfolding str_eq
strcase_eq s t = str_eq (map to_lower s) (map to_lower t)

-- `strncmp(s, p, strlen(p)) == 0`.
unfoldable pub has_prefix : Bytes → Bytes → Bool
has_prefix s [] = true
has_prefix [] (b ∷ p) = false
has_prefix (a ∷ s) (b ∷ p) = a == b && has_prefix s p

-- `strncasecmp(s, p, strlen(p)) == 0`.
unfoldable pub has_prefix_ignore_case : Bytes → Bytes → Bool
unfolding has_prefix
has_prefix_ignore_case s p = has_prefix (map to_lower s) (map to_lower p)

-- ===== src/Gui/Percent.antt =====
-- Texts of SIPTextGUI/text_gui.c that hold no percent sign, which printf prints as they are.
use furikup.Prelude.{
  ℕ, zero, suc, ◌+◌, ◌/◌, ◌%◌, ◌==◌, false, List, [], ◌∷◌, ◌++◌, map, Bytes, ◌≡◌, refl, arith,
}
use furikup.CString.{digits}
use furikup.Gui.Status.{has_percent}
use furikup.Gui.Boot.{hex_digit, hex8}

pub free_cons :
    (c : ℕ) (s : Bytes) → (c == b'%') ≡ false → has_percent s ≡ false → has_percent (c ∷ s) ≡ false
free_cons c s h k = rw h k

free_first : (c : ℕ) (s : Bytes) → has_percent (c ∷ s) ≡ false → (c == b'%') ≡ false
free_first c s h = ground arith

free_rest : (c : ℕ) (s : Bytes) → has_percent (c ∷ s) ≡ false → has_percent s ≡ false
free_rest c s h = ground arith

pub has_percent-append :
    (s t : Bytes) → has_percent s ≡ false → has_percent t ≡ false → has_percent (s ++ t) ≡ false
has_percent-append [] t h k = k
has_percent-append (c ∷ s) t h k =
    free_cons c (s ++ t) (free_first c s h) (has_percent-append s t (free_rest c s h) k)

pub has_percent-digits : (fuel n : ℕ) → has_percent (digits fuel n) ≡ false
unfolding digits
has_percent-digits zero n = refl
has_percent-digits (suc fuel) n =
    let more : has_percent (digits fuel (n / 10) ++ (n % 10 + 48) ∷ []) ≡ false =
      has_percent-append (digits fuel (n / 10)) ((n % 10 + 48) ∷ [])
        (has_percent-digits fuel (n / 10)) (free_cons (n % 10 + 48) [] (ground arith) refl) in
    ground arith

digit_free : (d : ℕ) → (hex_digit d == b'%') ≡ false
digit_free d = ground arith

map_free : (ds : List ℕ) → has_percent (map hex_digit ds) ≡ false
map_free [] = refl
map_free (d ∷ ds) = free_cons (hex_digit d) (map hex_digit ds) (digit_free d) (map_free ds)

pub has_percent-hex8 : (n : ℕ) → has_percent (hex8 n) ≡ false
has_percent-hex8 n = map_free (
    n / 268435456 % 16
    ∷ n / 16777216 % 16
    ∷ n / 1048576 % 16
    ∷ n / 65536 % 16
    ∷ n / 4096 % 16
    ∷ n / 256 % 16
    ∷ n / 16 % 16
    ∷ n % 16
    ∷ [])

-- ===== src/Filter/Back.antt =====
-- Lists read from the last element, as `fir_shuffle` and `fir_circular` of SIPEngine/FirAlgs.c do.
use furikup.Prelude.{
  List, [], ◌∷◌, ◌++◌, some, ◌≡◌, refl, sym, ap, ap₂, ◌∙◌, arith, append_assoc, append-nil, length,
  length-append, get_elem?, set,
}
use furikup.Filter.Lists.{front, last, front-last, length-front}

pub get_elem-append {ℓ} :
    {A : Type ℓ} (xs ys : List A) (a : A) → get_elem? (xs ++ a ∷ ys) (length xs) ≡ some a
get_elem-append [] ys a = refl
get_elem-append (x ∷ xs) ys a = get_elem-append xs ys a

set_behind {ℓ} :
    {A : Type ℓ} (xs ys : List A) (a : A) → set (xs ++ ys) (length xs) a ≡ xs ++ set ys 0 a
set_behind [] ys a = refl
set_behind (x ∷ xs) ys a = ap (◌∷◌ x) (set_behind xs ys a)

-- A list cut in front of its last element, with more behind it.
pub cut_last {ℓ} :
    {A : Type ℓ} (x : A) (xs ys : List A) → (x ∷ xs) ++ ys ≡ front x xs ++ last x xs ∷ ys
cut_last x xs ys =
    ap (λ l. l ++ ys) (sym (front-last x xs)) ∙ append_assoc (front x xs) (last x xs ∷ []) ys

pub get_last {ℓ} :
    {A : Type ℓ} (x : A) (xs ys : List A)
    → get_elem? ((x ∷ xs) ++ ys) (length xs) ≡ some (last x xs)
get_last x xs ys =
    ap₂ get_elem? (cut_last x xs ys) (sym (length-front x xs))
    ∙ get_elem-append (front x xs) ys (last x xs)

module _ {ℓ} {A : Type ℓ} where
  -- From the last element to the first.
  abbrev pub back : List A → List A
  back [] = []
  back (x ∷ xs) = back xs ++ x ∷ []

  pub back-append : (xs ys : List A) → back (xs ++ ys) ≡ back ys ++ back xs
  back-append [] ys = sym (append-nil (back ys))
  back-append (x ∷ xs) ys =
      ap (λ l. l ++ x ∷ []) (back-append xs ys) ∙ append_assoc (back ys) (back xs) (x ∷ [])

  pub length-back : (xs : List A) → length (back xs) ≡ length xs
  length-back [] = refl
  length-back (x ∷ xs) = omega (arith, length-append (back xs) (x ∷ []), length-back xs)

  -- The last element stands first.
  pub back-last : (x : A) (xs : List A) → back (x ∷ xs) ≡ last x xs ∷ back (front x xs)
  back-last x xs = ap back (sym (front-last x xs)) ∙ back-append (front x xs) (last x xs ∷ [])

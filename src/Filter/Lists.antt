-- ===== src/Filter/Lists.antt =====
-- Lists cut at a place, for the delay lines of SIPEngine/FirAlgs.c.
use furikup.Prelude.{suc, List, [], ◌∷◌, ◌++◌, ◌≡◌, refl, ap, length, set, drop, take}

module _ {ℓ} {A : Type ℓ} where
  pub set-append : (xs ys : List A) (a b : A) → set (xs ++ a ∷ ys) (length xs) b ≡ xs ++ b ∷ ys
  set-append [] ys a b = refl
  set-append (x ∷ xs) ys a b = ap (◌∷◌ x) (set-append xs ys a b)

  pub drop-append : (xs ys : List A) → drop (length xs) (xs ++ ys) ≡ ys
  drop-append [] ys = refl
  drop-append (x ∷ xs) ys = drop-append xs ys

  pub take-append : (xs ys : List A) → take (length xs) (xs ++ ys) ≡ xs
  take-append [] ys = refl
  take-append (x ∷ xs) ys = ap (◌∷◌ x) (take-append xs ys)

  -- The last element, split off.
  abbrev pub front : A → List A → List A
  front x [] = []
  front x (y ∷ ys) = x ∷ front y ys

  abbrev pub last : A → List A → A
  last x [] = x
  last x (y ∷ ys) = last y ys

  pub front-last : (x : A) (ys : List A) → front x ys ++ last x ys ∷ [] ≡ x ∷ ys
  front-last x [] = refl
  front-last x (y ∷ ys) = ap (◌∷◌ x) (front-last y ys)

  pub length-front : (x : A) (ys : List A) → length (front x ys) ≡ length ys
  length-front x [] = refl
  length-front x (y ∷ ys) = ap suc (length-front y ys)

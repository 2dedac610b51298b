-- ===== src/Filter/Shift.antt =====
-- The delay line of `fir_basic` in SIPEngine/FirAlgs.c, which is shifted at each input.
use furikup.Prelude.{
  ℕ, zero, suc, ◌+◌, ◌-◌, List, [], ◌∷◌, ◌++◌, Option, ◌≡◌, refl, sym, ap, ap₂, ◌∙◌, arith,
  append_assoc, append-nil, length, get_or, set, take, replicate,
}
use furikup.Filter.Defs.{accumulate, shift, fir_basic}
use furikup.Filter.Lists.{set-append, front, last, front-last, length-front}
use furikup.Filter.Window.{outputs, outputs_related, window_step}

get_or-last {ℓ} :
    {A : Type ℓ} (x : A) (u t : List A) (d : A) → get_or (x ∷ (u ++ t)) (length u) d ≡ last x u
get_or-last x [] t d = refl
get_or-last x (y ∷ u) t d = get_or-last y u t d

take-front {ℓ} : {A : Type ℓ} (x : A) (u : List A) → take (length u) (x ∷ u) ≡ front x u
take-front x [] = refl
take-front x (y ∷ u) = ap (◌∷◌ x) (take-front y u)

module _ {S : Type 0} (nought : S) (plus times : S → S → S) where
  -- The loop moves what stands in front of the last place it writes by one place.
  shift-front :
      (k : ℕ) (x : S) (u t : List S)
      → length u ≡ k
      → shift nought plus times k (x ∷ (u ++ t)) ≡ x ∷ (front x u ++ t)
  unfolding shift
  shift-front zero x [] t e = refl
  shift-front zero x (d ∷ ds) t e = absurd (omega arith)
  shift-front (suc k) x [] t e = absurd (omega arith)
  shift-front (suc k) x (d ∷ ds) t e =
      let u = front d ds in
      let b = last d ds in
      let l : k ≡ length u = omega (arith, length-front d ds) in
      let z : x ∷ ((d ∷ ds) ++ t) ≡ x ∷ (u ++ b ∷ t) =
        ap (λ r. x ∷ (r ++ t)) (sym (front-last d ds)) ∙ ap (◌∷◌ x) (append_assoc u (b ∷ []) t) in
      ap (λ r. shift nought plus times k (set r (suc k) (get_or r k nought))) z
      ∙ ap (λ v. shift nought plus times k (x ∷ set (u ++ b ∷ t) k v))
          (ap (λ i. get_or (x ∷ (u ++ b ∷ t)) i nought) l ∙ get_or-last x u (b ∷ t) nought)
      ∙ ap (λ r. shift nought plus times k (x ∷ r))
          (ap (λ i. set (u ++ b ∷ t) i (last x u)) l ∙ set-append u t b (last x u))
      ∙ shift-front k x u (last x u ∷ t) (sym l)
      ∙ ap (◌∷◌ x) (sym (append_assoc (front x u) (last x u ∷ []) t))
      ∙ ap (λ r. x ∷ (r ++ t)) (front-last x u ∙ ap (◌∷◌ x) refl)

  -- The line holds the window behind its first place, which the next input overwrites.
  pub record Lags (n : ℕ) (z w : List S) : Type 0 where
    pub first : S
    pub rest : List S
    pub line : z ≡ first ∷ rest
    pub window : rest ≡ take (length w - 1) w
    pub wide : n ≡ length w
    pub long : n ≡ length rest + 1

  module _ (n : ℕ) (h : List S) where
    abbrev pub basic_step : S → List S → Option S × List S
    basic_step x z = fir_basic nought plus times x n h z

    pub basic_keeps :
        (x : S) (z w : List S)
        → Lags n z w
        → ((basic_step x z).0 ≡ (window_step nought plus times h x w).0)
          × Lags n (basic_step x z).1 (window_step nought plus times h x w).1
    unfolding fir_basic
    basic_keeps x z w r =
        let v = r.rest in
        let l : n - 1 ≡ length v = omega (arith, r.long) in
        let k : length v ≡ suc (length (take (length w - 1) w)) - 1 =
          omega (arith, ap length r.window) in
        (
          ap (λ y. accumulate nought plus times n nought h (set y 0 x)) r.line
              ∙ ap₂ (λ k y. accumulate nought plus times k nought h (x ∷ y)) r.wide r.window,
          record {
            first = x;
            rest = front x v;
            line =
                ap (λ y. shift nought plus times (n - 1) (set y 0 x)) r.line
                ∙ ap₂ (λ k y. shift nought plus times k (x ∷ y)) l (sym (append-nil v))
                ∙ shift-front (length v) x v [] refl
                ∙ ap (◌∷◌ x) (append-nil (front x v));
            window = sym (take-front x v) ∙ ap₂ (λ i y. take i (x ∷ y)) k r.window;
            wide = omega (arith, r.long, ap length r.window);
            long = omega (arith, length-front x v, r.long);
          },
        )

    pub outputs-basic_step :
        (xs z w : List S)
        → Lags n z w
        → outputs basic_step xs z ≡ outputs (window_step nought plus times h) xs w
    outputs-basic_step xs z w r =
        outputs_related (Lags n) basic_step (window_step nought plus times h) basic_keeps xs z w r

pub replicate-snoc {ℓ} :
    {A : Type ℓ} (m : ℕ) (a : A) → replicate (suc m) a ≡ replicate m a ++ a ∷ []
replicate-snoc zero a = refl
replicate-snoc (suc m) a = ap (◌∷◌ a) (replicate-snoc m a)

pub length-replicate {ℓ} : {A : Type ℓ} (m : ℕ) (a : A) → length (replicate m a) ≡ m
length-replicate zero a = refl
length-replicate (suc m) a = ap suc (length-replicate m a)

pub take-replicate {ℓ} : {A : Type ℓ} (m : ℕ) (a : A) → take m (replicate (suc m) a) ≡ replicate m a
take-replicate zero a = refl
take-replicate (suc m) a = ap (◌∷◌ a) (take-replicate m a)

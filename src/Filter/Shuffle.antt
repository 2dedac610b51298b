-- ===== src/Filter/Shuffle.antt =====
-- `fir_shuffle` of SIPEngine/FirAlgs.c, which shifts its delay line inside the loop that adds up.
use furikup.Prelude.{
  ℕ, zero, suc, ◌+◌, ◌-◌, List, [], ◌∷◌, ◌++◌, Option, none, some, ◌≡◌, refl, sym, ap, ap₂, ◌∙◌,
  arith, length, get_elem?, get_or, set,
}
use mathlib.Core.Path.{subst}
use furikup.Filter.Defs.{
  accumulate, add_product, shift, fir_basic, shuffle_loop, product, fir_shuffle, clear,
}
use furikup.Filter.Lists.{front, last, front-last, length-front}
use furikup.Filter.Back.{get_elem-append, cut_last, get_last, back, back-last}
use furikup.Filter.Window.{outputs, outputs_related, slide}
use furikup.Filter.Shift.{Lags, basic_step, basic_keeps}
use furikup.Filter.Exact.{clear-Lags}

set_behind {ℓ} :
    {A : Type ℓ} (xs ys : List A) (a : A) → set (xs ++ ys) (length xs) a ≡ xs ++ set ys 0 a
set_behind [] ys a = refl
set_behind (x ∷ xs) ys a = ap (◌∷◌ x) (set_behind xs ys a)

module _ {S : Type 0} (nought : S) (plus times : S → S → S) where
  abbrev loop : ℕ → S → List S → List S → Option S × List S
  loop = shuffle_loop nought plus times

  loop_step :
      (k : ℕ) (accum a b : S) (h z : List S)
      → get_elem? h k ≡ some a
      → get_elem? z k ≡ some b
      → loop (suc k) accum h z
        ≡ loop k (plus accum (times a b)) h (set z (suc k) (get_or z k nought))
  unfolding shuffle_loop
  loop_step k accum a b h z e f =
      ap
        (λ o. elim o [
          | none ↦ (none, z)
          | some sum ↦ loop k sum h (set z (suc k) (get_or z k nought))
        ])
        (ap₂ (add_product nought plus times accum) e f)

  shuffle_loop_lem :
      (k : ℕ) (accum : S) (h g u v : List S)
      → length h ≡ k
      → length u ≡ k
      → loop k accum (h ++ g) (u ++ v) ≡ (
        accumulate nought plus times k accum (back h) (back u),
        shift nought plus times k (u ++ v),
      )
  unfolding shuffle_loop shift accumulate
  shuffle_loop_lem zero accum [] g [] v e f = refl
  shuffle_loop_lem zero accum (a ∷ h) g u v e f = absurd (omega arith)
  shuffle_loop_lem zero accum h g (b ∷ u) v e f = absurd (omega arith)
  shuffle_loop_lem (suc k) accum [] g u v e f = absurd (omega arith)
  shuffle_loop_lem (suc k) accum h g [] v e f = absurd (omega arith)
  shuffle_loop_lem (suc k) accum (a ∷ h) g (b ∷ u) v e f =
      let z = (b ∷ u) ++ v in
      let moved = get_or z k nought in
      let sum = plus accum (times (last a h) (last b u)) in
      let line : set z (suc k) moved ≡ front b u ++ last b u ∷ set v 0 moved =
        ap (λ i. set z i moved) {x = suc k} {y = length (b ∷ u)} (omega arith)
        ∙ set_behind (b ∷ u) v moved
        ∙ cut_last b u (set v 0 moved) in
      loop_step k accum (last a h) (last b u) ((a ∷ h) ++ g) z
        (ap (get_elem? ((a ∷ h) ++ g)) (omega arith) ∙ get_last a h g)
        (ap (get_elem? z) (omega arith) ∙ get_last b u v)
      ∙ ap₂ (loop k sum) (cut_last a h g) line
      ∙ shuffle_loop_lem k sum (front a h) (last a h ∷ g) (front b u) (last b u ∷ set v 0 moved)
          (omega (arith, length-front a h)) (omega (arith, length-front b u))
      ∙ ap₂ (λ s y. (s, shift nought plus times k y))
          (ap₂ (accumulate nought plus times (suc k) accum) (sym (back-last a h))
            (sym (back-last b u)))
          (sym line)

  -- The calculation from the k-th tap down.
  abbrev from_last : S → S → List S → List S → ℕ → Option S × List S
  from_last a x h z k =
      elim (product nought plus times (get_elem? (a ∷ h) k) (get_elem? (x ∷ z) k)) [
        | none ↦ (none, x ∷ z)
        | some sum ↦ loop k sum (a ∷ h) (x ∷ z)
      ]

  -- The sum that begins with a first product in place of 0.
  abbrev pub from_first : ℕ → List S → List S → Option S
  from_first n (a ∷ h) (b ∷ u) = accumulate nought plus times (n - 1) (times a b) h u
  from_first n _ _ = none

  fir_shuffle_lem :
      (m : ℕ) (x a c : S) (h z : List S)
      → length h ≡ m
      → length z ≡ m
      → fir_shuffle nought plus times x (suc m) (a ∷ h) (c ∷ z) ≡ (
        from_first (suc m) (back (a ∷ h)) (back (x ∷ z)),
        (fir_basic nought plus times x (suc m) (a ∷ h) (c ∷ z)).1,
      )
  unfolding fir_shuffle fir_basic
  fir_shuffle_lem m x a c h z e f =
      let la = last a h in
      let lz = last x z in
      let d : suc m - 1 ≡ m = omega arith in
      let i : m ≡ length (front a h) = omega (arith, length-front a h) in
      let j : m ≡ length (front x z) = omega (arith, length-front x z) in
      ap (from_last a x h z) d
      ∙ ap₂
          (λ o p. elim (product nought plus times o p) [
            | none ↦ (none, x ∷ z)
            | some sum ↦ loop m sum (a ∷ h) (x ∷ z)
          ])
          (ap₂ get_elem? (sym (front-last a h)) i ∙ get_elem-append (front a h) [] la)
          (ap₂ get_elem? (sym (front-last x z)) j ∙ get_elem-append (front x z) [] lz)
      ∙ ap₂ (loop m (times la lz)) (sym (front-last a h)) (sym (front-last x z))
      ∙ shuffle_loop_lem m (times la lz) (front a h) (la ∷ []) (front x z) (lz ∷ []) (sym i) (sym j)
      ∙ ap₂
          (λ k y. (
            accumulate nought plus times k (times la lz) (back (front a h)) (back (front x z)),
            shift nought plus times k y,
          ))
          (sym d) (front-last x z)
      ∙ ap₂ (λ p q. (from_first (suc m) p q, shift nought plus times (suc m - 1) (x ∷ z)))
          (sym (back-last a h)) (sym (back-last x z))

  -- `fir_shuffle` as a step on the delay line.
  abbrev pub shuffle_step : ℕ → List S → S → List S → Option S × List S
  shuffle_step n h x z = fir_shuffle nought plus times x n h z

  -- The sum over the latest inputs that begins with the product of the oldest.
  abbrev pub from_oldest : ℕ → List S → S → List S → Option S × List S
  from_oldest n h x w = let v = slide nought plus times x w in (from_first n (back h) (back v), v)

  shuffle_written :
      (m : ℕ) (h : List S) (x c : S) (z : List S)
      → length h ≡ suc m
      → suc m ≡ length z + 1
      → shuffle_step (suc m) h x (c ∷ z) ≡ (
        from_first (suc m) (back h) (back (x ∷ z)),
        (basic_step nought plus times (suc m) h x (c ∷ z)).1,
      )
  shuffle_written m [] x c z e f = absurd (omega arith)
  shuffle_written m (a ∷ h) x c z e f = fir_shuffle_lem m x a c h z (omega arith) (omega arith)

  shuffle_keeps :
      (m : ℕ) (h : List S) (taps : length h ≡ suc m) (x : S) (z w : List S)
      → Lags nought plus times (suc m) z w
      → ((shuffle_step (suc m) h x z).0 ≡ (from_oldest (suc m) h x w).0)
        × Lags nought plus times
            (suc m)
            (shuffle_step (suc m) h x z).1
            (from_oldest (suc m) h x w).1
  shuffle_keeps m h taps x z w r =
      let both = shuffle_written m h x r.first r.rest taps r.long in
      (
        ap (λ y. (shuffle_step (suc m) h x y).0) r.line
            ∙ ap (λ u. u.0) both
            ∙ ap (λ v. from_first (suc m) (back h) (back (x ∷ v))) r.window,
        subst (λ y. Lags nought plus times (suc m) y (slide nought plus times x w))
            (ap (λ y. (basic_step nought plus times (suc m) h x y).1) r.line
              ∙ sym (ap (λ u. u.1) both)
              ∙ ap (λ y. (shuffle_step (suc m) h x y).1) (sym r.line))
            (basic_keeps nought plus times (suc m) h x z w r).1,
      )

  pub shuffle_step-from_oldest :
      (m : ℕ) (h xs : List S)
      → length h ≡ suc m
      → outputs (shuffle_step (suc m) h) xs (clear nought plus times (suc m))
        ≡ outputs (from_oldest (suc m) h) xs (clear nought plus times (suc m))
  shuffle_step-from_oldest m h xs taps =
      let z = clear nought plus times (suc m) in
      outputs_related (Lags nought plus times (suc m)) (shuffle_step (suc m) h)
        (from_oldest (suc m) h) (shuffle_keeps m h taps) xs z z (clear-Lags nought plus times m)

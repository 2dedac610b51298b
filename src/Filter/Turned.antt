-- ===== src/Filter/Turned.antt =====
-- `fir_double_h` of SIPEngine/FirAlgs.c, the filter that `ResampleAudio` uses: its coefficients stand
-- twice in a row, and it begins its sum at the first place of the delay line.
use furikup.Prelude.{
  ℕ, zero, suc, ◌+◌, ◌-◌, ◌≤◌, List, [], ◌∷◌, ◌++◌, Option, ◌≡◌, refl, sym, ap, ap₂, ◌∙◌, arith,
  append_assoc, length, length-append, drop, take,
}
use furikup.Filter.Defs.{accumulate, step_down, fir_double_h, resample_audio_init, clear}
use furikup.Filter.Lists.{set-append, drop-append, take-append}
use furikup.Filter.Window.{outputs, outputs_related, slide}
use furikup.Filter.Circle.{Holds, next-Holds, slide-circle}
use furikup.Filter.Exact.{clear-Holds}

-- Turned: the first `k` go to the end.
abbrev pub turn_by {ℓ} : {A : Type ℓ} → ℕ → List A → List A
turn_by k xs = drop k xs ++ take k xs

pub turn_by-append {ℓ} : {A : Type ℓ} (xs ys : List A) → turn_by (length xs) (xs ++ ys) ≡ ys ++ xs
turn_by-append xs ys = ap₂ ◌++◌ (drop-append xs ys) (take-append xs ys)

cut_at {ℓ} : {A : Type ℓ} (k : ℕ) (h : List A) → take k h ++ drop k h ≡ h
cut_at zero h = refl
cut_at (suc k) [] = refl
cut_at (suc k) (x ∷ h) = ap (◌∷◌ x) (cut_at k h)

length-take_eq {ℓ} : {A : Type ℓ} (k : ℕ) (h : List A) → k ≤ length h → length (take k h) ≡ k
length-take_eq zero h l = refl
length-take_eq (suc k) [] l = absurd (omega arith)
length-take_eq (suc k) (x ∷ h) l = ap suc (length-take_eq k h (omega arith))

module _ {S : Type 0} (nought : S) (plus times : S → S → S) where
  -- A sum reads no further taps than inputs.
  taps-prefix :
      (n : ℕ) (s : S) (h g u : List S)
      → n ≡ length h
      → accumulate nought plus times n s (h ++ g) u ≡ accumulate nought plus times n s h u
  unfolding accumulate
  taps-prefix zero s h g u e = refl
  taps-prefix (suc n) s [] g u e = absurd (omega arith)
  taps-prefix (suc n) s (a ∷ h) g [] e = refl
  taps-prefix (suc n) s (a ∷ h) g (b ∷ u) e = taps-prefix n (plus s (times a b)) h g u (omega arith)

  -- The sum over the latest inputs, in another order: taps and inputs are turned by the same places.
  -- The second part of the state is the place of the newest input in its circle.
  abbrev pub turned_step : ℕ → List S → S → List S × ℕ → Option S × (List S × ℕ)
  turned_step n h x (w, state) =
      let v = slide nought plus times x w in
      (
        accumulate nought plus times n nought (turn_by (n - state) h) (turn_by (n - state) v),
        (v, step_down nought plus times n state),
      )

  abbrev pub double_step : ℕ → List S → S → List S × ℕ → Option S × (List S × ℕ)
  double_step n h x (y, state) =
      let (o, z, next) =
        fir_double_h nought plus times x n (resample_audio_init nought plus times h) y state in
      (o, (z, next))

  module _ (n : ℕ) (h : List S) (taps : length h ≡ n) where
    double_output :
        (x c : S) (p q : List S)
        → n ≡ length q + (length p + 1)
        → (fir_double_h nought plus times x n
            (resample_audio_init nought plus times h)
            (p ++ c ∷ q)
            (length p)).0
          ≡ accumulate nought plus times n nought
              (turn_by (n - length p) h)
              (turn_by (n - length p) (x ∷ (q ++ p)))
    unfolding fir_double_h resample_audio_init
    double_output x c p q e =
        let k = n - length p in
        let g = take k h in
        let t = drop k h in
        let lg : length g ≡ k = length-take_eq k h (omega arith) in
        let lq : k ≡ length (x ∷ q) = omega arith in
        let two : drop k (h ++ h) ≡ (t ++ g) ++ t =
          ap₂ drop (sym lg) (ap (λ l. l ++ l) (sym (cut_at k h)) ∙ append_assoc g t (g ++ t))
          ∙ drop-append g (t ++ (g ++ t))
          ∙ sym (append_assoc t g t) in
        let window : turn_by k (x ∷ (q ++ p)) ≡ p ++ x ∷ q =
          ap (λ i. turn_by i (x ∷ (q ++ p))) lq ∙ turn_by-append (x ∷ q) p in
        ap₂ (λ a z. accumulate nought plus times n nought a z) two (set-append p q c x)
        ∙ taps-prefix n nought (t ++ g) t (p ++ x ∷ q)
            (omega (arith, length-append t g, length-append g t, ap length (cut_at k h)))
        ∙ ap (λ z. accumulate nought plus times n nought (t ++ g) z) (sym window)

    double_keeps :
        (x : S) (z w : List S × ℕ)
        → Holds nought plus times n z.0 z.1 w.0 × (z.1 ≡ w.1)
        → ((double_step n h x z).0 ≡ (turned_step n h x w).0)
          × (Holds nought plus times n
                (double_step n h x z).1.0
                (double_step n h x z).1.1
                (turned_step n h x w).1.0
              × ((double_step n h x z).1.1 ≡ (turned_step n h x w).1.1))
    unfolding fir_double_h
    double_keeps x (y, state) (w, state') (r, s) = (
      ap₂
            (λ z s.
              (fir_double_h nought plus times x n (resample_audio_init nought plus times h) z s).0)
            r.line r.place
          ∙ double_output x r.oldest r.before r.behind r.size
          ∙ ap₂
              (λ k v. accumulate nought plus times n nought (turn_by (n - k) h) (turn_by (n - k) v))
              (sym r.place ∙ s)
              (sym (
                ap (slide nought plus times x) r.window
                ∙ slide-circle nought plus times x r.oldest r.before r.behind)),
      (next-Holds nought plus times n h x y w state r, ap (step_down nought plus times n) s),
    )

  pub double_step-turned_step :
      (m : ℕ) (h xs : List S)
      → length h ≡ suc m
      → outputs (double_step (suc m) h) xs (clear nought plus times (suc m), 0)
        ≡ outputs (turned_step (suc m) h) xs (clear nought plus times (suc m), 0)
  double_step-turned_step m h xs taps =
      let z = clear nought plus times (suc m) in
      outputs_related (λ y v. Holds nought plus times (suc m) y.0 y.1 v.0 × (y.1 ≡ v.1))
        (double_step (suc m) h) (turned_step (suc m) h) (double_keeps (suc m) h taps) xs (z, 0)
        (z, 0) (clear-Holds nought plus times m, refl)

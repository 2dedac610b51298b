-- ===== src/Filter/Twice.antt =====
-- `fir_double_z` of SIPEngine/FirAlgs.c, whose delay line holds every input twice.
use furikup.Prelude.{
  ℕ, zero, suc, ◌+◌, List, ◌∷◌, ◌++◌, Option, ◌≡◌, sym, ap, ap₂, ◌∙◌, arith, append_assoc, length,
  length-append, set, drop, replicate,
}
use furikup.Filter.Defs.{accumulate, step_down, fir_double_z, clear}
use furikup.Filter.Lists.{set-append, drop-append}
use furikup.Filter.Sums.{accumulate-prefix}
use furikup.Filter.Window.{outputs, outputs_related, slide, window_step}
use furikup.Filter.Shift.{basic_step, outputs-basic_step}
use furikup.Filter.Circle.{Holds, next-Holds, window_output, split_step}
use furikup.Filter.Exact.{clear-Holds, clear-Lags, split_step-basic_step}

replicate-add {ℓ} :
    {A : Type ℓ} (m n : ℕ) (a : A) → replicate (m + n) a ≡ replicate m a ++ replicate n a
replicate-add zero n a = let e : 0 + n ≡ n = omega arith in ap (λ k. replicate k a) e
replicate-add (suc m) n a =
    let e : suc m + n ≡ suc (m + n) = omega arith in
    ap (λ k. replicate k a) e ∙ ap (◌∷◌ a) (replicate-add m n a)

-- Writing at a place of both halves.
set_halves {ℓ} :
    {A : Type ℓ} (p q : List A) (c x : A) (k : ℕ)
    → k ≡ length (p ++ c ∷ q)
    → set (set ((p ++ c ∷ q) ++ (p ++ c ∷ q)) (length p + k) x) (length p) x
      ≡ (p ++ x ∷ q) ++ (p ++ x ∷ q)
set_halves p q c x k e =
    let y = p ++ c ∷ q in
    ap (λ z. set z (length p) x)
      (ap₂ (λ z i. set z i x) (sym (append_assoc y p (c ∷ q))) (omega (arith, length-append y p))
        ∙ set-append (y ++ p) q c x
        ∙ append_assoc y p (x ∷ q)
        ∙ append_assoc p (c ∷ q) (p ++ x ∷ q))
    ∙ set-append p (q ++ (p ++ x ∷ q)) c x
    ∙ sym (append_assoc p (x ∷ q) (p ++ x ∷ q))

module _ {S : Type 0} (nought : S) (plus times : S → S → S) where
  -- Two equal halves, of which one is a circle that holds the window.
  record HoldsTwice (n : ℕ) (y : List S) (state : ℕ) (w : List S) : Type 0 where
    half : List S
    twice : y ≡ half ++ half
    holds : Holds nought plus times n half state w

  module _ (n : ℕ) (h : List S) where
    -- `fir_double_z` as a step on the delay line and the state.
    abbrev pub double_z_step : S → List S × ℕ → Option S × (List S × ℕ)
    double_z_step x (y, state) =
        let (o, z, next) = fir_double_z nought plus times x n h y state in (o, (z, next))

    -- The line behind a step.
    halves :
        (x : S) (y w : List S) (state : ℕ) (r : HoldsTwice n y state w)
        → set (set y (state + n) x) state x
          ≡ (r.holds.before ++ x ∷ r.holds.behind) ++ (r.holds.before ++ x ∷ r.holds.behind)
    halves x y w state r =
        let c = r.holds in
        ap₂ (λ z s. set (set z (s + n) x) s x) (r.twice ∙ ap (λ l. l ++ l) c.line) c.place
        ∙ set_halves c.before c.behind c.oldest x n
            (omega (arith, c.size, length-append c.before (c.oldest ∷ c.behind)))

    twice_output :
        (x : S) (y w : List S) (state : ℕ) (r : HoldsTwice n y state w)
        → accumulate nought plus times n nought h (drop state (set (set y (state + n) x) state x))
          ≡ accumulate nought plus times n nought h (x ∷ (r.holds.behind ++ r.holds.before))
    twice_output x y w state r =
        let c = r.holds in
        let p = c.before in
        let q = c.behind in
        ap (accumulate nought plus times n nought h) (
          ap₂ drop c.place (halves x y w state r ∙ append_assoc p (x ∷ q) (p ++ x ∷ q))
          ∙ drop-append p (x ∷ (q ++ (p ++ x ∷ q)))
          ∙ ap (◌∷◌ x) (sym (append_assoc q p (x ∷ q))))
        ∙ accumulate-prefix nought plus times n nought h (x ∷ (q ++ p)) (x ∷ q)
            (omega (arith, c.size, length-append q p))

    next-HoldsTwice :
        (x : S) (y w : List S) (state : ℕ)
        → HoldsTwice n y state w
        → HoldsTwice n
            (set (set y (state + n) x) state x)
            (step_down nought plus times n state)
            (slide nought plus times x w)
    next-HoldsTwice x y w state r =
        let c = r.holds in
        record {
          half = set r.half state x;
          twice =
              halves x y w state r
              ∙ ap (λ l. l ++ l)
                  (sym (
                    ap₂ (λ z s. set z s x) c.line c.place
                    ∙ set-append c.before c.behind c.oldest x));
          holds = next-Holds nought plus times n h x r.half w state c;
        }

    double_z_keeps :
        (x : S) (z : List S × ℕ) (w : List S)
        → HoldsTwice n z.0 z.1 w
        → ((double_z_step x z).0 ≡ (window_step nought plus times h x w).0)
          × HoldsTwice n
              (double_z_step x z).1.0
              (double_z_step x z).1.1
              (window_step nought plus times h x w).1
    unfolding fir_double_z
    double_z_keeps x (y, state) w r = (
      twice_output x y w state r
          ∙ sym (window_output nought plus times n h x r.half w state r.holds),
      next-HoldsTwice x y w state r,
    )

  clear-HoldsTwice :
      (m : ℕ)
      → HoldsTwice
          (suc m)
          (clear nought plus times (suc m + suc m))
          0
          (clear nought plus times (suc m))
  unfolding clear
  clear-HoldsTwice m = record {
    half = replicate (suc m) nought;
    twice = replicate-add (suc m) (suc m) nought;
    holds = clear-Holds nought plus times m;
  }

  double_z_step-basic_step :
      (m : ℕ) (h xs : List S)
      → outputs (double_z_step (suc m) h) xs (clear nought plus times (suc m + suc m), 0)
        ≡ outputs (basic_step nought plus times (suc m) h) xs (clear nought plus times (suc m))
  double_z_step-basic_step m h xs =
      let z = clear nought plus times (suc m) in
      outputs_related (λ y v. HoldsTwice (suc m) y.0 y.1 v) (double_z_step (suc m) h)
        (window_step nought plus times h) (double_z_keeps (suc m) h) xs
        (clear nought plus times (suc m + suc m), 0) z (clear-HoldsTwice m)
      ∙ sym (outputs-basic_step nought plus times (suc m) h xs z z (clear-Lags nought plus times m))

  -- With one tap or more, from cleared delay lines, and whatever the two operations on samples are:
  -- `fir_split`, which goes round in a circle, and `fir_double_z`, on a line of twice the length, both
  -- give for every sequence of inputs the outputs of `fir_basic`, which shifts its line.
  pub split_and_double_z :
      (m : ℕ) (h xs : List S)
      → (outputs (split_step nought plus times (suc m) h) xs (clear nought plus times (suc m), 0)
          ≡ outputs (basic_step nought plus times (suc m) h) xs (clear nought plus times (suc m)))
        × (outputs (double_z_step (suc m) h) xs (clear nought plus times (suc m + suc m), 0)
            ≡ outputs (basic_step nought plus times (suc m) h) xs (clear nought plus times (suc m)))
  split_and_double_z m h xs =
      (split_step-basic_step nought plus times m h xs, double_z_step-basic_step m h xs)

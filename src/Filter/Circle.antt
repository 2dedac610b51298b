-- ===== src/Filter/Circle.antt =====
-- The delay lines of SIPEngine/FirAlgs.c that go round in a circle: `fir_split` and `fir_double_z`.
use furikup.Prelude.{
  ℕ, ◌+◌, ◌-◌, List, [], ◌∷◌, ◌++◌, Option, ◌≡◌, refl, sym, ap, ap₂, ◌∙◌, arith, append-nil,
  append_assoc, length, length-append, set, drop, take,
}
use furikup.Filter.Defs.{accumulate, begin_part, step_down, fir_split}
use furikup.Filter.Lists.{
  set-append, drop-append, take-append, front, last, front-last, length-front,
}
use furikup.Filter.Sums.{accumulate-append, begin_part-prefix}
use furikup.Filter.Window.{outputs, outputs_related, slide, window_step}

module _ {S : Type 0} (nought : S) (plus times : S → S → S) where
  -- The circle of n places with its state holds the window: in front of the state, at it the oldest
  -- input, and behind it the newest.
  pub record Holds (n : ℕ) (y : List S) (state : ℕ) (w : List S) : Type 0 where
    pub before : List S
    pub oldest : S
    pub behind : List S
    pub line : y ≡ before ++ oldest ∷ behind
    pub place : state ≡ length before
    pub window : w ≡ behind ++ (before ++ oldest ∷ [])
    pub size : n ≡ length behind + (length before + 1)

  pub slide-circle :
      (x c : S) (p q : List S) → slide nought plus times x (q ++ (p ++ c ∷ [])) ≡ x ∷ (q ++ p)
  slide-circle x c p q =
      let l : length (q ++ (p ++ c ∷ [])) - 1 ≡ length (q ++ p) =
        omega (arith, length-append q (p ++ c ∷ []), length-append p (c ∷ []), length-append q p) in
      ap (◌∷◌ x) (ap₂ take l (sym (append_assoc q p (c ∷ []))) ∙ take-append (q ++ p) (c ∷ []))

  -- The newest input written in place of the oldest, and the state moved on.
  next_circle :
      (n : ℕ) (x : S) (p q : List S)
      → n ≡ length q + (length p + 1)
      → Holds n (p ++ x ∷ q) (step_down nought plus times n (length p)) (x ∷ (q ++ p))
  next_circle n x [] q e = record {
    before = front x q;
    oldest = last x q;
    behind = [];
    line = sym (front-last x q);
    place = omega (arith, length-front x q);
    window = ap (◌∷◌ x) (append-nil q) ∙ sym (front-last x q);
    size = omega (arith, length-front x q);
  }
  next_circle n x (d ∷ ds) q e = record {
    before = front d ds;
    oldest = last d ds;
    behind = x ∷ q;
    line =
        ap (λ p. p ++ x ∷ q) (sym (front-last d ds))
        ∙ append_assoc (front d ds) (last d ds ∷ []) (x ∷ q);
    place = sym (length-front d ds);
    window = ap (λ p. x ∷ (q ++ p)) (sym (front-last d ds));
    size = omega (arith, length-front d ds);
  }

  module _ (n : ℕ) (h : List S) where
    -- The output for a circle that is written out.
    split_output :
        (x c : S) (p q : List S)
        → n ≡ length q + (length p + 1)
        → (fir_split nought plus times x n h (p ++ c ∷ q) (length p)).0
          ≡ accumulate nought plus times n nought h (x ∷ (q ++ p))
    unfolding fir_split
    split_output x c p q e =
        let m : n - length p ≡ length (x ∷ q) = omega arith in
        let line = p ++ x ∷ q in
        ap
          (λ y.
            begin_part nought plus times (length p)
              (accumulate nought plus times (n - length p) nought h (drop (length p) y))
              (drop (n - length p) h) y)
          (set-append p q c x)
        ∙ ap₂
            (λ k z.
              begin_part nought plus times (length p) (accumulate nought plus times k nought h z)
                (drop k h) line)
            m (drop-append p (x ∷ q))
        ∙ begin_part-prefix nought plus times (length p)
            (accumulate nought plus times (length (x ∷ q)) nought h (x ∷ q))
            (drop (length (x ∷ q)) h) p (x ∷ q) refl
        ∙ sym (accumulate-append nought plus times n (length p) nought h (x ∷ q) p (omega arith))

    -- The sum over the window, for a circle that holds it.
    pub window_output :
        (x : S) (y w : List S) (state : ℕ) (r : Holds n y state w)
        → (window_step nought plus times h x w).0
          ≡ accumulate nought plus times n nought h (x ∷ (r.behind ++ r.before))
    window_output x y w state r =
        let p = r.before in
        let q = r.behind in
        let c = r.oldest in
        let full = q ++ (p ++ c ∷ []) in
        ap (λ v. accumulate nought plus times (length v) nought h (slide nought plus times x v))
          r.window
        ∙ ap₂ (λ k v. accumulate nought plus times k nought h v)
            (omega (arith, length-append q (p ++ c ∷ []), length-append p (c ∷ []), r.size))
            (slide-circle x c p q)

    pub next-Holds :
        (x : S) (y w : List S) (state : ℕ)
        → Holds n y state w
        → Holds n
            (set y state x)
            (step_down nought plus times n state)
            (slide nought plus times x w)
    next-Holds x y w state r =
        let moved = next_circle n x r.before r.behind r.size in
        record {
          before = moved.before;
          oldest = moved.oldest;
          behind = moved.behind;
          line =
              ap₂ (λ z s. set z s x) r.line r.place
              ∙ set-append r.before r.behind r.oldest x
              ∙ moved.line;
          place = ap (step_down nought plus times n) r.place ∙ moved.place;
          window =
              ap (slide nought plus times x) r.window
              ∙ slide-circle x r.oldest r.before r.behind
              ∙ moved.window;
          size = moved.size;
        }

    -- `fir_split` as a step on the delay line and the state.
    abbrev pub split_step : S → List S × ℕ → Option S × (List S × ℕ)
    split_step x (y, state) =
        let (o, z, next) = fir_split nought plus times x n h y state in (o, (z, next))

    split_keeps :
        (x : S) (z : List S × ℕ) (w : List S)
        → Holds n z.0 z.1 w
        → ((split_step x z).0 ≡ (window_step nought plus times h x w).0)
          × Holds n
              (split_step x z).1.0
              (split_step x z).1.1
              (window_step nought plus times h x w).1
    unfolding fir_split
    split_keeps x (y, state) w r = (
      ap₂ (λ z s. (fir_split nought plus times x n h z s).0) r.line r.place
          ∙ split_output x r.oldest r.before r.behind r.size
          ∙ sym (window_output x y w state r),
      next-Holds x y w state r,
    )

    -- `fir_split` from a circle that holds a window gives the sums over the window.
    pub outputs-split_step :
        (xs : List S) (y w : List S) (state : ℕ)
        → Holds n y state w
        → outputs split_step xs (y, state) ≡ outputs (window_step nought plus times h) xs w
    outputs-split_step xs y w state r =
        outputs_related (λ z v. Holds n z.0 z.1 v) split_step (window_step nought plus times h)
          split_keeps xs (y, state) w r

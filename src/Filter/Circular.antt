-- ===== src/Filter/Circular.antt =====
-- `fir_circular` of SIPEngine/FirAlgs.c against `fir_basic`.
use furikup.Prelude.{
  ℕ, zero, suc, ◌+◌, ◌-◌, List, [], ◌∷◌, ◌++◌, Option, ◌≡◌, refl, sym, ap, ap₂, ◌∙◌, arith,
  append_assoc, append-nil, length, length-append, set, take, replicate,
}
use furikup.Filter.Defs.{accumulate, step_up, circle_loop, fir_circular, clear}
use furikup.Filter.Lists.{set-append, take-append}
use furikup.Filter.Window.{outputs, outputs_related, slide}
use furikup.Filter.Shift.{replicate-snoc, length-replicate}
use furikup.Filter.Back.{back, back-append}
use furikup.Filter.Round.{step_inside, step_wraps, around, circle_loop_lem}

back_twice {ℓ} : {A : Type ℓ} (xs : List A) → back (back xs) ≡ xs
back_twice [] = refl
back_twice (x ∷ xs) = back-append (back xs) (x ∷ []) ∙ ap (◌∷◌ x) (back_twice xs)

module _ {S : Type 0} (nought : S) (plus times : S → S → S) where
  -- The sum over the latest inputs, the oldest first.
  abbrev pub oldest_first : ℕ → List S → S → List S → Option S × List S
  oldest_first n h x w =
      let v = slide nought plus times x w in
      (accumulate nought plus times n nought (back h) (back v), v)

  -- The circle of n places with its state holds the window: in front of the state the newest inputs,
  -- at it the oldest.
  pub record Rounds (n : ℕ) (y : List S) (state : ℕ) (w : List S) : Type 0 where
    pub before : List S
    pub oldest : S
    pub behind : List S
    pub line : y ≡ before ++ oldest ∷ behind
    pub place : state ≡ length before
    pub window : w ≡ back before ++ (back behind ++ oldest ∷ [])
    pub size : n ≡ length behind + (length before + 1)

  slide-round :
      (x c : S) (p q : List S)
      → slide nought plus times x (back p ++ (back q ++ c ∷ [])) ≡ x ∷ (back p ++ back q)
  slide-round x c p q =
      let l : length (back p ++ (back q ++ c ∷ [])) - 1 ≡ length (back p ++ back q) = omega (
        arith,
        length-append (back p) (back q ++ c ∷ []),
        length-append (back q) (c ∷ []),
        length-append (back p) (back q),
      ) in
      ap (◌∷◌ x) (
        ap₂ take l (sym (append_assoc (back p) (back q) (c ∷ [])))
        ∙ take-append (back p ++ back q) (c ∷ []))

  -- The newest input written in place of the oldest, and the state moved on.
  next_round :
      (n : ℕ) (x : S) (p q : List S)
      → n ≡ length q + (length p + 1)
      → Rounds n (p ++ x ∷ q) (step_up n (length p)) (x ∷ (back p ++ back q))
  next_round n x p (d ∷ ds) e = record {
    before = p ++ x ∷ [];
    oldest = d;
    behind = ds;
    line = sym (append_assoc p (x ∷ []) (d ∷ ds));
    place = step_inside n (length p) (omega arith) ∙ sym (length-snoc p x);
    window = ap (λ l. l ++ (back ds ++ d ∷ [])) (sym (back-append p (x ∷ [])));
    size = omega (arith, length-snoc p x);
  }
    where
      length-snoc : (p : List S) (x : S) → length (p ++ x ∷ []) ≡ suc (length p)
      length-snoc p x = omega (arith, length-append p (x ∷ []))
  next_round n x [] [] e = record {
    before = [];
    oldest = x;
    behind = [];
    line = refl;
    place = step_wraps n 0 (omega arith);
    window = refl;
    size = e;
  }
  next_round n x (d ∷ ds) [] e = record {
    before = [];
    oldest = d;
    behind = ds ++ x ∷ [];
    line = refl;
    place = step_wraps n (suc (length ds)) (omega arith);
    window =
        ap (◌∷◌ x) (append-nil (back ds ++ d ∷ []))
        ∙ ap (λ l. l ++ d ∷ []) (sym (back-append ds (x ∷ [])));
    size = omega (arith, length-append ds (x ∷ []));
  }

  -- `fir_circular` as a step on the delay line and the state.
  abbrev pub circular_step : ℕ → List S → S → List S × ℕ → Option S × (List S × ℕ)
  circular_step n h x (y, state) =
      let (o, z, next) = fir_circular nought plus times x n h y state in (o, (z, next))

  module _ (n : ℕ) (h : List S) (taps : length h ≡ n) where
    -- The loop, for a circle that is written out.
    loop_output :
        (x : S) (p q : List S)
        → n ≡ length q + (length p + 1)
        → circle_loop nought plus times n n nought h (p ++ x ∷ q) (step_up n (length p)) ≡ (
          accumulate nought plus times n nought (back h) (back (x ∷ (back p ++ back q))),
          step_up n (length p),
        )
    loop_output x p q e =
        let next = step_up n (length p) in
        ap (λ g. circle_loop nought plus times n n nought g (p ++ x ∷ q) next) (sym (append-nil h))
        ∙ circle_loop_lem nought plus times n n nought h [] (p ++ x ∷ q) (q ++ (p ++ x ∷ [])) taps
            (omega (arith, e, length-append q (p ++ x ∷ []), length-append p (x ∷ [])))
            (around n p q x (omega (arith, e, length-append p (x ∷ q))))
        ∙ ap (λ v. (accumulate nought plus times n nought (back h) v, next))
            (sym (append_assoc q p (x ∷ []))
              ∙ ap (λ l. l ++ x ∷ [])
                  (sym (back-append (back p) (back q) ∙ ap₂ ◌++◌ (back_twice q) (back_twice p))))

    circular_keeps :
        (x : S) (z : List S × ℕ) (w : List S)
        → Rounds n z.0 z.1 w
        → ((circular_step n h x z).0 ≡ (oldest_first n h x w).0)
          × Rounds n
              (circular_step n h x z).1.0
              (circular_step n h x z).1.1
              (oldest_first n h x w).1
    unfolding fir_circular
    circular_keeps x (y, state) w r =
        let p = r.before in
        let q = r.behind in
        let line : set y state x ≡ p ++ x ∷ q =
          ap₂ (λ l s. set l s x) r.line r.place ∙ set-append p q r.oldest x in
        let looped =
          ap₂ (λ l s. circle_loop nought plus times n n nought h l (step_up n s)) line r.place
          ∙ loop_output x p q r.size in
        let next = next_round n x p q r.size in
        (
          ap (λ u. u.0) looped
              ∙ ap (λ v. accumulate nought plus times n nought (back h) (back v))
                  (sym (ap (slide nought plus times x) r.window ∙ slide-round x r.oldest p q)),
          record {
            before = next.before;
            oldest = next.oldest;
            behind = next.behind;
            line = line ∙ next.line;
            place = ap (λ u. u.1) looped ∙ next.place;
            window =
                ap (slide nought plus times x) r.window ∙ slide-round x r.oldest p q ∙ next.window;
            size = next.size;
          },
        )

  back-replicate : (m : ℕ) (a : S) → back (replicate m a) ≡ replicate m a
  back-replicate zero a = refl
  back-replicate (suc m) a = ap (λ l. l ++ a ∷ []) (back-replicate m a) ∙ sym (replicate-snoc m a)

  clear-Rounds :
      (m : ℕ) → Rounds (suc m) (clear nought plus times (suc m)) 0 (clear nought plus times (suc m))
  unfolding clear
  clear-Rounds m = record {
    before = [];
    oldest = nought;
    behind = replicate m nought;
    line = refl;
    place = refl;
    window = replicate-snoc m nought ∙ ap (λ l. l ++ nought ∷ []) (sym (back-replicate m nought));
    size = omega (arith, length-replicate m nought);
  }

  pub circular_step-oldest_first :
      (m : ℕ) (h xs : List S) (taps : length h ≡ suc m)
      → outputs (circular_step (suc m) h) xs (clear nought plus times (suc m), 0)
        ≡ outputs (oldest_first (suc m) h) xs (clear nought plus times (suc m))
  circular_step-oldest_first m h xs taps =
      let z = clear nought plus times (suc m) in
      outputs_related (λ y v. Rounds (suc m) y.0 y.1 v) (circular_step (suc m) h)
        (oldest_first (suc m) h) (circular_keeps (suc m) h taps) xs (z, 0) z (clear-Rounds m)

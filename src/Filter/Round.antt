-- ===== src/Filter/Round.antt =====
-- `fir_circular` of SIPEngine/FirAlgs.c, whose state goes up and whose sum begins with the oldest
-- input.
use furikup.Prelude.{
  ℕ, zero, suc, ◌+◌, ◌<◌, List, [], ◌∷◌, ◌++◌, none, some, ◌≡◌, refl, sym, ap, ap₂, ◌∙◌, arith,
  append_assoc, length, length-append, get_elem?,
}
use mathlib.Core.Path.{subst}
use furikup.Filter.Defs.{accumulate, add_product, step_up, circle_loop}
use furikup.Filter.Lists.{front, last, front-last, length-front}
use furikup.Filter.Back.{get_elem-append, cut_last, get_last, back, back-last}

-- From one state to another, reading what stands at each on the way.
pub data Walk {S : Type 0} (n : ℕ) (z : List S) : ℕ → List S → ℕ → Type 0 where
  stay : {s : ℕ} → Walk n z s [] s
  go :
      {s e : ℕ} {x : S} {r : List S}
      → get_elem? z s ≡ some x
      → Walk n z (step_up n s) r e
      → Walk n z s (x ∷ r) e

pub step_inside : (n s : ℕ) → suc s < n → step_up n s ≡ suc s
step_inside n s h = ground arith

pub step_wraps : (n s : ℕ) → suc s ≡ n → step_up n s ≡ 0
step_wraps n s h = ground arith

module _ {S : Type 0} (n : ℕ) where
  as_Walk :
      {y z q r : List S} {s t d e : ℕ}
      → y ≡ z
      → s ≡ t
      → q ≡ r
      → d ≡ e
      → Walk n y s q d
      → Walk n z t r e
  as_Walk {y} {z} {q} {r} {s} {t} {d} {e} f g i j w =
      subst (λ l. Walk n l t r e) f
        (subst (λ m. Walk n y m r e) g
          (subst (λ l. Walk n y s l e) i (subst (λ m. Walk n y s q m) j w)))

  append-Walk :
      (z : List S) {s m e : ℕ} {q r : List S}
      → Walk n z s q m
      → Walk n z m r e
      → Walk n z s (q ++ r) e
  append-Walk z stay v = v
  append-Walk z (go g w) v = go g (append-Walk z w v)

  -- Up to a place in front of the end.
  straight :
      (l m t : List S) (b : S)
      → length (l ++ (m ++ b ∷ t)) ≡ n
      → Walk n (l ++ (m ++ b ∷ t)) (length l) m (length l + length m)
  straight l [] t b e = subst (Walk n (l ++ b ∷ t) (length l) []) (omega arith) stay
  straight l (x ∷ m) t b e = go (get_elem-append l (m ++ b ∷ t) x) (
      as_Walk (append_assoc l (x ∷ []) (m ++ b ∷ t))
        (omega (arith, length-append l (x ∷ []))
          ∙ sym (
              step_inside n (length l)
                (omega (arith, e, length-append l (x ∷ (m ++ b ∷ t)), length-append m (b ∷ t)))))
        refl (omega (arith, length-append l (x ∷ [])))
        (straight (l ++ x ∷ []) m t b (ap length (append_assoc l (x ∷ []) (m ++ b ∷ t)) ∙ e)))

  -- Around the circle, from behind the newest input to it.
  pub around :
      (p q : List S) (x : S)
      → length (p ++ x ∷ q) ≡ n
      → Walk n (p ++ x ∷ q) (step_up n (length p)) (q ++ (p ++ x ∷ [])) (step_up n (length p))
  around p [] x e =
      as_Walk refl (sym (step_wraps n (length p) (omega (arith, e, length-append p (x ∷ []))))) refl
        refl
        (append-Walk (p ++ x ∷ []) (as_Walk refl refl refl (omega arith) (straight [] p [] x e))
          (go (get_elem-append p [] x) stay))
  around p (d ∷ ds) x e =
      let z = p ++ x ∷ d ∷ ds in
      let f = front d ds in
      let b = last d ds in
      let i : length f ≡ length ds = length-front d ds in
      let cut : (p ++ x ∷ []) ++ (f ++ b ∷ []) ≡ z =
        ap (λ l. (p ++ x ∷ []) ++ l) (front-last d ds) ∙ append_assoc p (x ∷ []) (d ∷ ds) in
      let j : length (p ++ x ∷ []) ≡ suc (length p) = omega (arith, length-append p (x ∷ [])) in
      let m : length p + suc (suc (length ds)) ≡ n =
        omega (arith, e, length-append p (x ∷ d ∷ ds)) in
      let first : Walk n z (step_up n (length p)) f (suc (length p) + length f) =
        as_Walk cut (j ∙ sym (step_inside n (length p) (omega arith))) refl
          (ap (λ k. k + length f) j) (straight (p ++ x ∷ []) f [] b (ap length cut ∙ e)) in
      let k : suc (length p) + length f ≡ length ((p ++ x ∷ []) ++ f) =
        omega (arith, j, length-append (p ++ x ∷ []) f) in
      let end : get_elem? z (suc (length p) + length f) ≡ some b =
        ap₂ get_elem? (sym cut ∙ sym (append_assoc (p ++ x ∷ []) f (b ∷ []))) k
        ∙ get_elem-append ((p ++ x ∷ []) ++ f) [] b in
      let over : step_up n (suc (length p) + length f) ≡ 0 = step_wraps n _ (omega arith) in
      let second : Walk n z 0 p (length p) =
        as_Walk refl refl refl (omega arith) (straight [] p (d ∷ ds) x e) in
      as_Walk refl refl
        (sym (append_assoc f (b ∷ []) (p ++ x ∷ []))
          ∙ ap (λ l. l ++ (p ++ x ∷ [])) (front-last d ds))
        refl
        (append-Walk z first (
          go end (
            as_Walk refl (sym over) refl refl
              (append-Walk z second (go (get_elem-append p (d ∷ ds) x) stay)))))

module _ {S : Type 0} (nought : S) (plus times : S → S → S) where
  -- The loop adds up what it meets on its walk, from the last tap on.
  pub circle_loop_lem :
      (n k : ℕ) (accum : S) (h g z r : List S) {s e : ℕ}
      → length h ≡ k
      → length r ≡ k
      → Walk n z s r e
      → circle_loop nought plus times n k accum (h ++ g) z s
        ≡ (accumulate nought plus times k accum (back h) r, e)
  unfolding circle_loop accumulate
  circle_loop_lem n zero accum [] g z [] a b stay = refl
  circle_loop_lem n zero accum (c ∷ h) g z r a b w = absurd (omega arith)
  circle_loop_lem n zero accum h g z (x ∷ r) a b w = absurd (omega arith)
  circle_loop_lem n (suc k) accum [] g z r a b w = absurd (omega arith)
  circle_loop_lem n (suc k) accum h g z [] a b w = absurd (omega arith)
  circle_loop_lem n (suc k) accum (c ∷ h) g z (x ∷ r) {s} {e} a b (go f w) =
      let sum = plus accum (times (last c h) x) in
      ap
        (λ o. elim o [
          | none ↦ (none, s)
          | some sum ↦ circle_loop nought plus times n k sum ((c ∷ h) ++ g) z (step_up n s)
        ])
        (ap₂ (add_product nought plus times accum)
          (ap (get_elem? ((c ∷ h) ++ g)) {x = k} {y = length h} (omega arith) ∙ get_last c h g) f)
      ∙ ap (λ y. circle_loop nought plus times n k sum y z (step_up n s)) (cut_last c h g)
      ∙ circle_loop_lem n k sum (front c h) (last c h ∷ g) z r (omega (arith, length-front c h))
          (omega arith) w
      ∙ ap (λ y. (accumulate nought plus times (suc k) accum y (x ∷ r), e)) (sym (back-last c h))

-- ===== src/Filter/Sums.antt =====
-- The sums of SIPEngine/FirAlgs.c, taken in parts.
use furikup.Prelude.{
  ℕ, zero, suc, ◌+◌, List, [], ◌∷◌, ◌++◌, Option, none, some, ◌≡◌, refl, sym, ap, ◌∙◌, arith,
  length, drop,
}
use furikup.Filter.Defs.{accumulate, begin_part}

module _ {S : Type 0} (nought : S) (plus times : S → S → S) where
  -- A sum over two parts is the sum over the first, gone on with over the second.
  pub accumulate-append :
      (n k : ℕ) (s : S) (h u v : List S)
      → n ≡ length u + k
      → accumulate nought plus times n s h (u ++ v)
        ≡ begin_part nought plus times k
            (accumulate nought plus times (length u) s h u)
            (drop (length u) h)
            v
  unfolding accumulate
  accumulate-append n k s h [] v e = ap (λ m. accumulate nought plus times m s h v) (omega arith)
  accumulate-append zero k s h (c ∷ u) v e = absurd (omega arith)
  accumulate-append (suc n) k s [] (c ∷ u) v e = refl
  accumulate-append (suc n) k s (a ∷ h) (c ∷ u) v e =
      accumulate-append n k (plus s (times a c)) h u v (omega arith)

  nothing_more : (o : Option S) (h v : List S) → begin_part nought plus times 0 o h v ≡ o
  unfolding accumulate
  nothing_more none h v = refl
  nothing_more (some s) h v = refl

  -- A sum reads no further than its length.
  pub accumulate-prefix :
      (n : ℕ) (s : S) (h u v : List S)
      → n ≡ length u
      → accumulate nought plus times n s h (u ++ v) ≡ accumulate nought plus times n s h u
  accumulate-prefix n s h u v e =
      accumulate-append n 0 s h u v (omega arith)
      ∙ nothing_more (accumulate nought plus times (length u) s h u) (drop (length u) h) v
      ∙ ap (λ m. accumulate nought plus times m s h u) (sym e)

  pub begin_part-prefix :
      (k : ℕ) (o : Option S) (h u v : List S)
      → k ≡ length u
      → begin_part nought plus times k o h (u ++ v) ≡ begin_part nought plus times k o h u
  begin_part-prefix k none h u v e = refl
  begin_part-prefix k (some s) h u v e = accumulate-prefix k s h u v e

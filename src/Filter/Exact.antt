-- ===== src/Filter/Exact.antt =====
-- The filters of SIPEngine/FirAlgs.c against one another.
use furikup.Prelude.{ℕ, suc, List, [], ◌∷◌, ◌≡◌, refl, sym, ap, ◌∙◌, arith, take, replicate}
use furikup.Filter.Defs.{clear}
use furikup.Filter.Window.{outputs}
use furikup.Filter.Shift.{
  Lags, basic_step, outputs-basic_step, replicate-snoc, length-replicate, take-replicate,
}
use furikup.Filter.Circle.{Holds, split_step, outputs-split_step}

module _ {S : Type 0} (nought : S) (plus times : S → S → S) where
  pub clear-Holds :
      (m : ℕ)
      → Holds nought plus times
          (suc m)
          (clear nought plus times (suc m))
          0
          (clear nought plus times (suc m))
  unfolding clear
  clear-Holds m = record {
    before = [];
    oldest = nought;
    behind = replicate m nought;
    line = refl;
    place = refl;
    window = replicate-snoc m nought;
    size = omega (arith, length-replicate m nought);
  }

  pub clear-Lags :
      (m : ℕ)
      → Lags nought plus times
          (suc m)
          (clear nought plus times (suc m))
          (clear nought plus times (suc m))
  unfolding clear
  clear-Lags m = record {
    first = nought;
    rest = replicate m nought;
    line = refl;
    window =
        sym (take-replicate m nought)
        ∙ ap (λ k. take k (nought ∷ replicate m nought)) (omega (arith, length-replicate m nought));
    wide = omega (arith, length-replicate m nought);
    long = omega (arith, length-replicate m nought);
  }

  pub split_step-basic_step :
      (m : ℕ) (h xs : List S)
      → outputs (split_step nought plus times (suc m) h) xs (clear nought plus times (suc m), 0)
        ≡ outputs (basic_step nought plus times (suc m) h) xs (clear nought plus times (suc m))
  split_step-basic_step m h xs =
      let z = clear nought plus times (suc m) in
      outputs-split_step nought plus times (suc m) h xs z z 0 (clear-Holds m)
      ∙ sym (outputs-basic_step nought plus times (suc m) h xs z z (clear-Lags m))

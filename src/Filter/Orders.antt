-- ===== src/Filter/Orders.antt =====
-- The filters of SIPEngine/FirAlgs.c that add up in an order of their own.
use furikup.Prelude.{ℕ, suc, List, ◌≡◌, length}
use furikup.Filter.Defs.{clear}
use furikup.Filter.Window.{outputs}
use furikup.Filter.Turned.{double_step, turned_step, double_step-turned_step}
use furikup.Filter.Shuffle.{shuffle_step, from_oldest, shuffle_step-from_oldest}
use furikup.Filter.Circular.{circular_step, oldest_first, circular_step-oldest_first}

module _ {S : Type 0} (nought : S) (plus times : S → S → S) where
  -- From cleared delay lines, and whatever the two operations on samples are, `fir_double_h` (with the
  -- coefficients that `ResampleAudioInit` has doubled), `fir_circular` and `fir_shuffle` give for
  -- every sequence of inputs the sums of the coefficients' products with the latest inputs, the first
  -- coefficient with the newest. `fir_circular` begins each sum with 0 and the oldest input, and
  -- `fir_shuffle` with the product of the oldest input; `fir_double_h` begins with 0 and at a place that
  -- moves on by one at each input, and comes round after as many inputs as there are coefficients.
  -- Condition: there are as many coefficients as places in a line, at least one.
  pub orders_of_sums :
      (m : ℕ) (h xs : List S)
      → length h ≡ suc m
      → (outputs (double_step nought plus times (suc m) h) xs (clear nought plus times (suc m), 0)
          ≡ outputs
              (turned_step nought plus times (suc m) h)
              xs
              (clear nought plus times (suc m), 0))
        × (outputs
              (circular_step nought plus times (suc m) h)
              xs
              (clear nought plus times (suc m), 0)
            ≡ outputs
                (oldest_first nought plus times (suc m) h)
                xs
                (clear nought plus times (suc m)))
        × (outputs (shuffle_step nought plus times (suc m) h) xs (clear nought plus times (suc m))
            ≡ outputs
                (from_oldest nought plus times (suc m) h)
                xs
                (clear nought plus times (suc m)))
  orders_of_sums m h xs taps = (
    double_step-turned_step nought plus times m h xs taps,
    circular_step-oldest_first nought plus times m h xs taps,
    shuffle_step-from_oldest nought plus times m h xs taps,
  )

-- ===== src/Tests/Filter.antt =====
-- SIPEngine/FirAlgs.c on natural numbers, with two taps.
use furikup.Prelude.{◌+◌, ◌*◌, [], ◌∷◌, some, ◌≡◌, refl}
use furikup.Filter.{clear, fir_basic, fir_circular, fir_shuffle, fir_double_h, resample_audio_init}
use furikup.Filter.Window.{outputs}
use furikup.Filter.Shift.{basic_step}
use furikup.Filter.Circle.{split_step}
use furikup.Filter.Turned.{double_step, turned_step}
use furikup.Filter.Circular.{circular_step, oldest_first}
use furikup.Filter.Shuffle.{shuffle_step, from_oldest}
use furikup.Filter.Orders.{orders_of_sums}
use furikup.Filter.Twice.{double_z_step, split_and_double_z}

-- 3 * 1, then 3 * 2 + 5 * 1, then 3 * 4 + 5 * 2.
outputs_of_basic :
    outputs (basic_step 0 ◌+◌ ◌*◌ 2 (3 ∷ 5 ∷ [])) (1 ∷ 2 ∷ 4 ∷ []) (0 ∷ 0 ∷ [])
    ≡ some 3 ∷ some 11 ∷ some 22 ∷ []
unfolding fir_basic
outputs_of_basic = refl

split_and_double_z_example :
    (outputs (split_step 0 ◌+◌ ◌*◌ 2 (3 ∷ 5 ∷ [])) (1 ∷ 2 ∷ 4 ∷ []) (clear 0 ◌+◌ ◌*◌ 2, 0)
      ≡ outputs (basic_step 0 ◌+◌ ◌*◌ 2 (3 ∷ 5 ∷ [])) (1 ∷ 2 ∷ 4 ∷ []) (clear 0 ◌+◌ ◌*◌ 2))
    × (outputs (double_z_step 0 ◌+◌ ◌*◌ 2 (3 ∷ 5 ∷ [])) (1 ∷ 2 ∷ 4 ∷ []) (clear 0 ◌+◌ ◌*◌ 4, 0)
        ≡ outputs (basic_step 0 ◌+◌ ◌*◌ 2 (3 ∷ 5 ∷ [])) (1 ∷ 2 ∷ 4 ∷ []) (clear 0 ◌+◌ ◌*◌ 2))
split_and_double_z_example = split_and_double_z 0 ◌+◌ ◌*◌ 1 (3 ∷ 5 ∷ []) (1 ∷ 2 ∷ 4 ∷ [])

-- The first outputs of the filters that add up in another order: those of `outputs_of_basic`.
other_orders :
    ((fir_circular 0 ◌+◌ ◌*◌ 2 2 (3 ∷ 5 ∷ []) (1 ∷ 0 ∷ []) 1).0 ≡ some 11)
    × ((fir_shuffle 0 ◌+◌ ◌*◌ 2 2 (3 ∷ 5 ∷ []) (0 ∷ 1 ∷ [])).0 ≡ some 11)
    × ((fir_double_h 0 ◌+◌ ◌*◌ 2 2 (resample_audio_init 0 ◌+◌ ◌*◌ (3 ∷ 5 ∷ [])) (1 ∷ 0 ∷ []) 1).0
        ≡ some 11)
unfolding fir_circular fir_shuffle fir_double_h resample_audio_init
other_orders = (refl, refl, refl)

orders_of_sums_example :
    (outputs (double_step 0 ◌+◌ ◌*◌ 2 (3 ∷ 5 ∷ [])) (1 ∷ 2 ∷ 4 ∷ []) (clear 0 ◌+◌ ◌*◌ 2, 0)
      ≡ outputs (turned_step 0 ◌+◌ ◌*◌ 2 (3 ∷ 5 ∷ [])) (1 ∷ 2 ∷ 4 ∷ []) (clear 0 ◌+◌ ◌*◌ 2, 0))
    × (outputs (circular_step 0 ◌+◌ ◌*◌ 2 (3 ∷ 5 ∷ [])) (1 ∷ 2 ∷ 4 ∷ []) (clear 0 ◌+◌ ◌*◌ 2, 0)
        ≡ outputs (oldest_first 0 ◌+◌ ◌*◌ 2 (3 ∷ 5 ∷ [])) (1 ∷ 2 ∷ 4 ∷ []) (clear 0 ◌+◌ ◌*◌ 2))
    × (outputs (shuffle_step 0 ◌+◌ ◌*◌ 2 (3 ∷ 5 ∷ [])) (1 ∷ 2 ∷ 4 ∷ []) (clear 0 ◌+◌ ◌*◌ 2)
        ≡ outputs (from_oldest 0 ◌+◌ ◌*◌ 2 (3 ∷ 5 ∷ [])) (1 ∷ 2 ∷ 4 ∷ []) (clear 0 ◌+◌ ◌*◌ 2))
orders_of_sums_example = orders_of_sums 0 ◌+◌ ◌*◌ 1 (3 ∷ 5 ∷ []) (1 ∷ 2 ∷ 4 ∷ []) refl

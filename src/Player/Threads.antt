-- ===== src/Player/Threads.antt =====
-- The threads of SIPEngine/audio.c and SIPTextGUI/text_gui.c that play a file: how they end, and how
-- many there can be.
use furikup.Prelude.{
  ℕ, zero, suc, ◌+◌, ◌≤◌, ℤ, pos, Bool, true, false, List, [], ◌∷◌, ◌≡◌, refl, arith, length,
  replicate,
}
use furikup.Player.Defs.{
  Place, head, reading, got_data, file_ended, pausing, exited, advance, plays_block, Players,
  silent, play, stop, played, stopped, moved, Reach, here, next,
}

-- The thread runs on while the flag stays unset; the list says which reads give data.
abbrev pub wind_down : List Bool → Place → Place
wind_down [] p = p
wind_down (more ∷ ds) p = wind_down ds (advance false more p)

-- The blocks that it still plays.
abbrev pub blocks_played : List Bool → Place → ℕ
blocks_played [] p = 0
blocks_played (more ∷ ds) p =
    (elim (plays_block false p) [ true ↦ 1 | false ↦ 0 ]) + blocks_played ds (advance false more p)

exited_stays : (ds : List Bool) → wind_down ds exited ≡ exited
unfolding advance
exited_stays [] = refl
exited_stays (d ∷ ds) = exited_stays ds

nothing_played : (ds : List Bool) (p : Place) → blocks_played ds p ≡ 0
unfolding plays_block
nothing_played [] p = refl
nothing_played (d ∷ ds) head = omega (arith, nothing_played ds (advance false d head))
nothing_played (d ∷ ds) reading = omega (arith, nothing_played ds (advance false d reading))
nothing_played (d ∷ ds) got_data = omega (arith, nothing_played ds (advance false d got_data))
nothing_played (d ∷ ds) file_ended = omega (arith, nothing_played ds (advance false d file_ended))
nothing_played (d ∷ ds) pausing = omega (arith, nothing_played ds (advance false d pausing))
nothing_played (d ∷ ds) exited = omega (arith, nothing_played ds (advance false d exited))

four_steps :
    (a b c d : Bool) (ds : List Bool) (p : Place) → wind_down (a ∷ b ∷ c ∷ d ∷ ds) p ≡ exited
unfolding advance
four_steps a b c d ds head = exited_stays ds
four_steps true b c d ds reading = exited_stays ds
four_steps false b c d ds reading = exited_stays ds
four_steps a b c d ds got_data = exited_stays ds
four_steps a b c d ds file_ended = exited_stays ds
four_steps a b c d ds pausing = exited_stays ds
four_steps a b c d ds exited = exited_stays ds

-- Wherever a thread stands when the flag is reset: if it stays so, the thread has left its function
-- after four steps, whatever its reads give, and plays no further block.
pub wind_down-exited :
    (ds : List Bool) (p : Place)
    → 4 ≤ length ds
    → (wind_down ds p ≡ exited) × (blocks_played ds p ≡ 0)
wind_down-exited (a ∷ b ∷ c ∷ d ∷ ds) p h =
    (four_steps a b c d ds p, nothing_played (a ∷ b ∷ c ∷ d ∷ ds) p)
wind_down-exited [] p h = absurd (omega arith)
wind_down-exited (a ∷ []) p h = absurd (omega arith)
wind_down-exited (a ∷ b ∷ []) p h = absurd (omega arith)
wind_down-exited (a ∷ b ∷ c ∷ []) p h = absurd (omega arith)

append_Reach : {s t u : Players} → Reach s t → Reach t u → Reach s u
append_Reach r here = r
append_Reach r (next q st) = next (append_Reach r q) st

-- The players in the pause between two rounds of the file.
abbrev pub resting : ℤ → ℕ → Players
resting file n = record { ringing = true; file = file; threads = replicate n pausing }

one_more : (f n : ℕ) → Reach (resting (pos f) n) (resting (pos f) (suc n))
unfolding play stop advance
one_more f n =
    next
      (next (next (next (next here stopped) played) (moved 0 false head refl))
        (moved 0 false reading refl))
      (moved 0 false file_ended refl)

-- With a file that can be opened, `playRingback` and `stopRingback` in turn lead to any number of
-- threads in the loop at once: a thread in its pause does not see that it was told to stop.
pub many_players : (f n : ℕ) → Reach (silent (pos f)) (resting (pos f) (suc n))
unfolding play advance
many_players f zero =
    next (next (next (next here played) (moved 0 false head refl)) (moved 0 false reading refl))
      (moved 0 false file_ended refl)
many_players f (suc n) = append_Reach (many_players f n) (one_more f (suc n))

-- ===== src/Audio/Receive.antt =====
-- SIPEngine/audio.c: `rtpAudioRecv`. The `float` of the machine is a parameter. `none` is a read
-- outside the buffer that was received into.
use furikup.Prelude.{
  ℕ, zero, suc, ◌+◌, ◌*◌, ◌/◌, ◌%◌, ℤ, pos, is_nat, is_pos, List, [], ◌∷◌, Option, none, some,
  Bytes, ◌==◌, if◌then◌else◌, get_elem?,
}
use furikup.SoundConv.{ulaw_to_s16, alaw_to_s16}

-- `float`, with what the code does to it: the conversion from `int`, `(endval - startval) / 6.0`
-- rounded to a `float`, `+=`, and the conversion to `short`.
pub record Floats : Type 1 where
  pub Float : Type 0
  pub of_int : ℤ → Float
  pub sixth_between : Float → Float → Float
  pub plus : Float → Float → Float
  pub to_short : Float → ℤ

module _ (floats : Floats) where
  open floats use {Float, of_int, sixth_between, plus, to_short}

  -- The locals that the rounds of the inner loop share.
  pub record Slope : Type 0 where
    pub step : Float
    pub val : Float

  abbrev pub slope_between : (ℕ → ℤ) → Option ℕ → Option ℕ → Option Slope
  slope_between scale (some a) (some b) = some (record {
    step = sixth_between (of_int (scale a)) (of_int (scale b));
    val = of_int (scale a);
  })
  slope_between scale _ _ = none

  -- `curpos / 6.04`, cut to an `int`: for each position of the loop it is `curpos * 100 / 604`.
  unfoldable pub interpolate : (ℕ → ℤ) → Bytes → ℕ → Slope → Option Slope
  interpolate scale received curpos s =
      if curpos % 6 == 0
      then slope_between scale (get_elem? received (curpos * 100 / 604))
          (get_elem? received (curpos * 100 / 604 + 1))
      else some (record s { val = plus s.val s.step })

  abbrev pub keep : Slope → Option (List ℤ) → Option (List ℤ)
  keep s none = none
  keep s (some samples) = some (to_short s.val ∷ samples)

  -- The inner loop: `count` samples are left, the next position is `curpos`.
  unfoldable pub upsample : (ℕ → ℤ) → Bytes → ℕ → ℕ → Slope → Option (List ℤ)
  unfolding interpolate
  upsample scale received zero curpos s = some []
  upsample scale received (suc count) curpos s = elim (interpolate scale received curpos s) [
    | none ↦ none
    | some t ↦ keep t (upsample scale received count (curpos + 1) t)
  ]

  abbrev pub still : Slope
  still = record { step = of_int (pos 0); val = of_int (pos 0) }

  abbrev pub scale_for : ℤ → ℕ → ℤ
  scale_for payload code = if is_nat 0 payload then ulaw_to_s16 code else alaw_to_s16 code

  unfoldable pub block : ℤ → Bytes → Option (List ℤ)
  unfolding upsample
  block payload received = upsample (scale_for payload) received 960 0 still

  -- What a round of the outer loop meets: the answer of the session, and the buffer behind it.
  pub record Arrival : Type 0 where
    pub answer : ℤ
    pub received : Bytes

  -- The blocks given to the audio channel, the latest first, and the timestamp asked for.
  pub record Receiver : Type 0 where
    pub blocks : List (List ℤ)
    pub ts : ℕ

  abbrev pub output : Receiver → Option (List ℤ) → Option Receiver
  output r none = none
  output r (some samples) = some (record r { blocks = samples ∷ r.blocks })

  abbrev pub pass : Option Receiver → Option Receiver
  pass none = none
  pass (some r) = some (record r { ts = r.ts + 160 })

  unfoldable pub receive_turn : ℤ → Arrival → Receiver → Option Receiver
  unfolding block
  receive_turn payload a r =
      pass (if is_pos a.answer then output r (block payload a.received) else some r)

  -- The loop, which nothing but `rtpAudioStop` ends.
  unfoldable pub receive_loop : ℤ → List Arrival → Receiver → Option Receiver
  unfolding receive_turn
  receive_loop payload [] r = some r
  receive_loop payload (a ∷ arrivals) r = elim (receive_turn payload a r) [
    | none ↦ none
    | some t ↦ receive_loop payload arrivals t
  ]

  abbrev pub first_receiver : Receiver
  first_receiver = record { blocks = []; ts = 0 }

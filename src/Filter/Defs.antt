-- ===== src/Filter/Defs.antt =====
-- SIPEngine/FirAlgs.c and SIPEngine/sound_resample.c. The samples, `double` in the source, are a
-- parameter with the two operations that the code uses. A pointer into an array is the part of the
-- array behind it; `none` is a read past the end of one. The delay lines have their
-- places, ntaps or for `fir_double_z` twice as many: a write past their end is not seen.
use furikup.Prelude.{
  ℕ, zero, suc, ◌+◌, ◌-◌, ℤ, List, [], ◌∷◌, ◌++◌, Option, none, some, Bytes, get_elem?, get_or, set,
  drop, replicate, ltb, if◌then◌else◌,
}
use furikup.Audio.Send.{encode}

-- `if (++state >= ntaps) state = 0;`
abbrev pub step_up : ℕ → ℕ → ℕ
step_up ntaps state = if ltb (suc state) ntaps then suc state else 0

module _ {S : Type 0} (nought : S) (plus times : S → S → S) where
  -- `accum += *p_h++ * *p_z++`, n times.
  unfoldable pub accumulate : ℕ → S → List S → List S → Option S
  accumulate zero accum h z = some accum
  accumulate (suc n) accum (a ∷ h) (b ∷ z) = accumulate n (plus accum (times a b)) h z
  accumulate (suc n) accum _ _ = none

  -- `for (ii = k - 1; ii >= 0; ii--) z[ii + 1] = z[ii];`
  unfoldable pub shift : ℕ → List S → List S
  shift zero z = z
  shift (suc k) z = shift k (set z (suc k) (get_or z k nought))

  -- The output and the delay line.
  unfoldable pub fir_basic : S → ℕ → List S → List S → Option S × List S
  unfolding accumulate shift
  fir_basic input ntaps h z₀ =
      let z = set z₀ 0 input in (accumulate ntaps nought h z, shift (ntaps - 1) z)

  -- `if (--state < 0) state += ntaps;`
  abbrev pub step_down : ℕ → ℕ → ℕ
  step_down ntaps zero = ntaps - 1
  step_down ntaps (suc state) = state

  -- The end part of a split calculation, and the beginning part behind it.
  abbrev pub begin_part : ℕ → Option S → List S → List S → Option S
  begin_part state none h z = none
  begin_part state (some accum) h z = accumulate state accum h z

  -- The output, the delay line and the state.
  unfoldable pub fir_split : S → ℕ → List S → List S → ℕ → Option S × List S × ℕ
  unfolding accumulate
  fir_split input ntaps h z₀ state =
      let z = set z₀ state input in
      (
        begin_part state (accumulate (ntaps - state) nought h (drop state z))
            (drop (ntaps - state) h) z,
        z,
        step_down ntaps state,
      )

  unfoldable pub fir_double_z : S → ℕ → List S → List S → ℕ → Option S × List S × ℕ
  unfolding accumulate
  fir_double_z input ntaps h z₀ state =
      let z = set (set z₀ (state + ntaps) input) state input in
      (accumulate ntaps nought h (drop state z), z, step_down ntaps state)

  unfoldable pub fir_double_h : S → ℕ → List S → List S → ℕ → Option S × List S × ℕ
  unfolding accumulate
  fir_double_h input ntaps h z₀ state =
      let z = set z₀ state input in
      (accumulate ntaps nought (drop (ntaps - state) h) z, z, step_down ntaps state)

  -- `accum += h[i] * z[j]`, for what stands at the two places.
  abbrev pub add_product : S → Option S → Option S → Option S
  add_product accum (some a) (some b) = some (plus accum (times a b))
  add_product accum _ _ = none

  -- The loop of `fir_circular`, from `ii = k - 1` down: what it adds up, and the state.
  unfoldable pub circle_loop : ℕ → ℕ → S → List S → List S → ℕ → Option S × ℕ
  circle_loop ntaps zero accum h z state = (some accum, state)
  circle_loop ntaps (suc k) accum h z state =
      elim (add_product accum (get_elem? h k) (get_elem? z state)) [
        | none ↦ (none, state)
        | some sum ↦ circle_loop ntaps k sum h z (step_up ntaps state)
      ]

  unfoldable pub fir_circular : S → ℕ → List S → List S → ℕ → Option S × List S × ℕ
  unfolding circle_loop
  fir_circular input ntaps h z₀ state =
      let z = set z₀ state input in
      let (sum, next) = circle_loop ntaps ntaps nought h z (step_up ntaps state) in (sum, z, next)

  -- The loop of `fir_shuffle`, from `ii = k - 1` down: what it adds up, and the delay line.
  unfoldable pub shuffle_loop : ℕ → S → List S → List S → Option S × List S
  shuffle_loop zero accum h z = (some accum, z)
  shuffle_loop (suc k) accum h z = elim (add_product accum (get_elem? h k) (get_elem? z k)) [
    | none ↦ (none, z)
    | some sum ↦ shuffle_loop k sum h (set z (suc k) (get_or z k nought))
  ]

  -- `h[i] * z[i]`.
  abbrev pub product : Option S → Option S → Option S
  product (some a) (some b) = some (times a b)
  product _ _ = none

  -- On one tap at least.
  unfoldable pub fir_shuffle : S → ℕ → List S → List S → Option S × List S
  unfolding shuffle_loop
  fir_shuffle input ntaps h z₀ =
      let z = set z₀ 0 input in
      elim (product (get_elem? h (ntaps - 1)) (get_elem? z (ntaps - 1))) [
        | none ↦ (none, z)
        | some sum ↦ shuffle_loop (ntaps - 1) sum h z
      ]

  -- `clear`.
  unfoldable pub clear : ℕ → List S
  clear ntaps = replicate ntaps nought

  -- `ResampleAudioInit`: `h2`, the eight coefficients twice.
  unfoldable pub resample_audio_init : List S → List S
  resample_audio_init h = h ++ h

  -- What the filter of `ResampleAudio` keeps: `z`, of which 8 of 16 places are used, and `state`.
  pub record Delay : Type 0 where
    pub line : List S
    pub state : ℕ

  abbrev pub emit : Option S → (S → ℤ) → ℤ → Option Bytes → Option Bytes
  emit (some y) to_short payload (some bytes) = some (encode payload (to_short y) ∷ bytes)
  emit _ to_short payload _ = none

  -- The loop of `ResampleAudio`: `count` outputs are left, the next one is `i`. `place` stands for
  -- `(int)(i * factor)`, `of_short` and `to_short` for the conversions of a sample.
  unfoldable pub resample :
      (ℕ → ℕ) → (ℤ → S) → (S → ℤ) → ℤ → List S → List ℤ → ℕ → ℕ → Delay → Option Bytes × Delay
  unfolding fir_double_h
  resample place of_short to_short payload h2 in_buffer zero i d = (some [], d)
  resample place of_short to_short payload h2 in_buffer (suc count) i d =
      elim (get_elem? in_buffer (place i)) [
        | none ↦ (none, d)
        | some x ↦
            let (y, line, state) = fir_double_h (of_short x) 8 h2 d.line d.state in
            let (rest, last) =
              resample place of_short to_short payload h2 in_buffer count (i + 1)
                (record { line = line; state = state }) in
            (emit y to_short payload rest, last)
      ]

-- ===== src/Audio/Upsample.antt =====
-- The samples that `rtpAudioRecv` of SIPEngine/audio.c plays for a packet.
use furikup.Prelude.{
  ℕ, zero, suc, ◌+◌, ◌*◌, ◌/◌, ◌%◌, ◌<◌, ◌≤◌, ℤ, true, false, List, [], ◌∷◌, none, some, ◌≡◌, refl,
  ap, ap₂, ◌∙◌, arith, Bytes, ◌==◌, get_elem?, get_or, length, is_pos, Bool-cases, inl, inr,
  if◌then◌else◌,
}
use furikup.Audio.Receive.{
  Floats, Slope, slope_between, interpolate, keep, upsample, scale_for, still, block, Arrival,
  Receiver, receive_turn, receive_loop, first_receiver,
}

-- An array of n bytes has a byte at each place.
found : (xs : Bytes) (i : ℕ) → i < length xs → get_elem? xs i ≡ some (get_or xs i 0)
found [] i h = absurd (omega arith)
found (x ∷ xs) zero h = refl
found (x ∷ xs) (suc i) h = found xs i (omega arith)

module _ (floats : Floats) (scale : ℕ → ℤ) (received : Bytes) where
  open floats use {Float, of_int, sixth_between, plus, to_short}

  abbrev at : ℕ → ℕ
  at i = get_or received i 0

  -- The straight line from the sample at 600 * k / 604 to the one behind it.
  abbrev pub line : ℕ → Slope floats
  line k = record {
    step =
        sixth_between (of_int (scale (at (600 * k / 604))))
          (of_int (scale (at (600 * k / 604 + 1))));
    val = of_int (scale (at (600 * k / 604)));
  }

  abbrev pub along : Slope floats → Slope floats
  along s = record s { val = plus s.val s.step }

  -- Six samples on a line, and then `rest`.
  abbrev pub six_of : Slope floats → List ℤ → List ℤ
  six_of s rest =
      to_short s.val
      ∷ to_short (along s).val
      ∷ to_short (along (along s)).val
      ∷ to_short (along (along (along s))).val
      ∷ to_short (along (along (along (along s)))).val
      ∷ to_short (along (along (along (along (along s))))).val
      ∷ rest

  -- The lines k, k + 1, …, n of them, one behind the other.
  abbrev pub lines_from : ℕ → ℕ → List ℤ
  lines_from zero k = []
  lines_from (suc n) k = six_of (line k) (lines_from n (suc k))

module _ (floats : Floats) (scale : ℕ → ℤ) (received : Bytes) (enough : 159 ≤ length received) where
  starts :
      (k p : ℕ) (s : Slope floats)
      → k < 160
      → p ≡ 6 * k
      → interpolate floats scale received p s ≡ some (line floats scale received k)
  unfolding interpolate
  starts k p s h e =
      let r : (p % 6 == 0) ≡ true = ground arith in
      rw r (
        ap₂ (slope_between floats scale)
          (ap (get_elem? received) (omega arith) ∙ found received (600 * k / 604) (omega arith))
          (ap (get_elem? received) (omega arith)
            ∙ found received (600 * k / 604 + 1) (omega arith)))

  on_the_way :
      (k j p : ℕ) (s : Slope floats)
      → j < 6
      → 0 < j
      → p ≡ 6 * k + j
      → interpolate floats scale received p s ≡ some (along floats scale received s)
  unfolding interpolate
  on_the_way k j p s h l e = let n : (p % 6 == 0) ≡ false = ground arith in rw n

  next_sample :
      (count p : ℕ) (s t : Slope floats)
      → interpolate floats scale received p s ≡ some t
      → upsample floats scale received (suc count) p s
        ≡ keep floats t (upsample floats scale received count (p + 1) t)
  unfolding upsample
  next_sample count p s t e =
      ap
        (λ o. elim o [
          | none ↦ none
          | some u ↦ keep floats u (upsample floats scale received count (p + 1) u)
        ])
        e

  -- Six times n.
  abbrev sixfold : ℕ → ℕ
  sixfold zero = 0
  sixfold (suc n) = suc (suc (suc (suc (suc (suc (sixfold n))))))

  upsample-lines_from :
      (n k p : ℕ) (s : Slope floats)
      → n + k ≡ 160
      → p ≡ 6 * k
      → upsample floats scale received (sixfold n) p s ≡ some (lines_from floats scale received n k)
  upsample-lines_from zero k p s h e = unfold upsample in refl
  upsample-lines_from (suc n) k p s h e =
      let a = line floats scale received k in
      let b = along floats scale received a in
      let c = along floats scale received b in
      let d = along floats scale received c in
      let f = along floats scale received d in
      let g = along floats scale received f in
      let m = sixfold n in
      next_sample _ p s a (starts k p s (omega arith) e)
      ∙ ap (keep floats a) (
          next_sample _ (p + 1) a b
            (on_the_way k 1 (p + 1) a (omega arith) (omega arith) (omega arith))
          ∙ ap (keep floats b) (
              next_sample _ (p + 1 + 1) b c
                (on_the_way k 2 (p + 1 + 1) b (omega arith) (omega arith) (omega arith))
              ∙ ap (keep floats c) (
                  next_sample _ (p + 1 + 1 + 1) c d
                    (on_the_way k 3 (p + 1 + 1 + 1) c (omega arith) (omega arith) (omega arith))
                  ∙ ap (keep floats d) (
                      next_sample _ (p + 1 + 1 + 1 + 1) d f (
                        on_the_way k 4 (p + 1 + 1 + 1 + 1) d (omega arith) (omega arith)
                          (omega arith))
                      ∙ ap (keep floats f) (
                          next_sample m (p + 1 + 1 + 1 + 1 + 1) f g (
                            on_the_way k 5 (p + 1 + 1 + 1 + 1 + 1) f (omega arith) (omega arith)
                              (omega arith))
                          ∙ ap (keep floats g) (
                              upsample-lines_from n (suc k) (p + 1 + 1 + 1 + 1 + 1 + 1) g
                                (omega arith) (omega arith)))))))

block-lines_from :
    (floats : Floats) (payload : ℤ) (received : Bytes)
    → 159 ≤ length received
    → block floats payload received
      ≡ some (lines_from floats (scale_for floats payload) received 160 0)
unfolding block
block-lines_from floats payload received h =
    upsample-lines_from floats (scale_for floats payload) received h 160 0 0 (still floats)
      (omega arith) (omega arith)

module _ (floats : Floats) (payload : ℤ) where
  -- One block for each arrival that brings something, the latest first.
  abbrev pub played : List (Arrival floats) → List (List ℤ) → List (List ℤ)
  played [] blocks = blocks
  played (a ∷ arrivals) blocks = played arrivals (
      if is_pos a.answer
      then lines_from floats (scale_for floats payload) a.received 160 0 ∷ blocks
      else blocks)

  abbrev pub AreLong : List (Arrival floats) → Type 0
  AreLong [] = Unit {0}
  AreLong (a ∷ arrivals) = (159 ≤ length a.received) × AreLong arrivals

  -- The receiver behind one round.
  abbrev heard : Arrival floats → Receiver floats → Receiver floats
  heard a r = record {
    blocks =
        if is_pos a.answer
        then lines_from floats (scale_for floats payload) a.received 160 0 ∷ r.blocks
        else r.blocks;
    ts = r.ts + 160;
  }

  receive_turn-heard :
      (a : Arrival floats) (r : Receiver floats)
      → 159 ≤ length a.received
      → receive_turn floats payload a r ≡ some (heard a r)
  unfolding receive_turn
  receive_turn-heard a r h = elim (Bool-cases (is_pos a.answer)) [
    | inl p ↦ rw p (rw (block-lines_from floats payload a.received h) refl)
    | inr n ↦ rw n refl
  ]

  receive_from :
      (arrivals : List (Arrival floats)) (r : Receiver floats)
      → AreLong arrivals
      → receive_loop floats payload arrivals r
        ≡ some (record { blocks = played arrivals r.blocks; ts = r.ts + 160 * length arrivals })
  unfolding receive_loop
  receive_from [] r h = ap (λ t. some (record { blocks = r.blocks; ts = t })) (omega arith)
  receive_from (a ∷ arrivals) r (h, k) =
      ap (λ o. elim o [ none ↦ none | some t ↦ receive_loop floats payload arrivals t ])
        (receive_turn-heard a r h)
      ∙ receive_from arrivals (heard a r) k
      ∙ ap (λ t. some (record { blocks = played arrivals (heard a r).blocks; ts = t }))
          (omega arith)

-- The receiving thread, whatever the arithmetic of `float` is and whatever arrives in its buffer, of
-- 159 bytes at least: no byte outside is read; each round asks for the next timestamp, and each one
-- that brings something plays 960 samples, which are 160 straight lines of six samples each. Line k
-- starts at the decoded byte 600 * k / 604, rounded down, and its slope leads to the byte behind it.
pub receive_loop-played :
    (floats : Floats) (payload : ℤ) (arrivals : List (Arrival floats))
    → AreLong floats payload arrivals
    → receive_loop floats payload arrivals (first_receiver floats)
      ≡ some (record { blocks = played floats payload arrivals []; ts = 160 * length arrivals })
receive_loop-played floats payload arrivals h =
    receive_from floats payload arrivals (first_receiver floats) h
    ∙ ap (λ t. some (record { blocks = played floats payload arrivals []; ts = t })) (omega arith)

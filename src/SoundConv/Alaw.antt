-- ===== src/SoundConv/Alaw.antt =====
-- A-law in SIPEngine/sound_conv.c: a code survives decoding and encoding, a sample comes back with a
-- relative error of 1/32.
use furikup.Prelude.{
  ℕ, suc, ◌+◌, ◌*◌, ◌<◌, ◌≤◌, ℤ, pos, negsuc, pos_part, neg_part, Bool, true, ◌&&◌, ◌≡◌, refl,
  arith, ◌==◌, ==_iff, leb,
}
use furikup.SoundConv.Defs.{s16_to_alaw, alaw_to_s16}
use furikup.SoundConv.Table.{passes, passes_at, passes_rounds, passes_rounds_at}

-- The distance of y from n is at most n/32 + 256/32.
abbrev near : ℕ → ℕ → Bool
near n y = leb (32 * y) (33 * n + 256) && leb (31 * n) (32 * y + 256)

-- What a sample becomes that is encoded and decoded.
abbrev pub heard : ℤ → ℤ
heard x = alaw_to_s16 (s16_to_alaw x)

abbrev near_up : ℕ → Bool
near_up n = near n (pos_part (heard (pos n))) && neg_part (heard (pos n)) == 0

abbrev near_down : ℕ → Bool
near_down n = near (suc n) (neg_part (heard (negsuc n))) && pos_part (heard (negsuc n)) == 0

up_table : passes_rounds near_up 127 ≡ true
unfolding passes s16_to_alaw alaw_to_s16
up_table = refl

down_table : passes_rounds near_down 127 ≡ true
unfolding passes s16_to_alaw alaw_to_s16
down_table = refl

-- A 16-bit sample.
abbrev pub IsSample : ℤ → Type 0
IsSample x = (pos_part x < 32768) × (neg_part x ≤ 32768)

-- y has the sign of x or is 0, and its distance from x is at most 1/32 of the magnitude of x plus
-- 256/32.
abbrev pub Near : ℤ → ℤ → Type 0
Near (pos n) y =
    (neg_part y ≡ 0) × (32 * pos_part y ≤ 33 * n + 256) × (31 * n ≤ 32 * pos_part y + 256)
Near (negsuc n) y =
    (pos_part y ≡ 0) × (32 * neg_part y ≤ 33 * suc n + 256) × (31 * suc n ≤ 32 * neg_part y + 256)

-- A 16-bit sample that is encoded to A-law and decoded keeps its sign, or becomes 0, and is off by at
-- most 1/32 of its magnitude plus 256/32.
pub s16_to_alaw-Near : (x : ℤ) → IsSample x → Near x (alaw_to_s16 (s16_to_alaw x))
s16_to_alaw-Near (pos n) h =
    let t : near_up n ≡ true = passes_rounds_at near_up 127 n up_table (omega arith) in ground arith
s16_to_alaw-Near (negsuc n) h =
    let t : near_down n ≡ true = passes_rounds_at near_down 127 n down_table (omega arith) in
    ground arith

code_table : passes (λ c. s16_to_alaw (alaw_to_s16 c) == c) 255 ≡ true
unfolding passes s16_to_alaw alaw_to_s16
code_table = refl

-- Every A-law code that is decoded and encoded again comes back.
pub s16_to_alaw-alaw_to_s16 : (c : ℕ) → c < 256 → s16_to_alaw (alaw_to_s16 c) ≡ c
s16_to_alaw-alaw_to_s16 c h = (==_iff _ _).0 (passes_at _ 255 c code_table (omega arith))

range_table :
    passes (λ c. leb (pos_part (alaw_to_s16 c)) 32256 && leb (neg_part (alaw_to_s16 c)) 32256) 255
    ≡ true
unfolding passes alaw_to_s16
range_table = refl

-- A decoded A-law code fits into a `short`: its magnitude is at most 32256.
pub alaw_to_s16_bounds :
    (c : ℕ) → c < 256 → (pos_part (alaw_to_s16 c) ≤ 32256) × (neg_part (alaw_to_s16 c) ≤ 32256)
alaw_to_s16_bounds c h =
    let t : (leb (pos_part (alaw_to_s16 c)) 32256 && leb (neg_part (alaw_to_s16 c)) 32256) ≡ true =
      passes_at (λ c. leb (pos_part (alaw_to_s16 c)) 32256 && leb (neg_part (alaw_to_s16 c)) 32256)
        255 c range_table (omega arith) in
    ground arith

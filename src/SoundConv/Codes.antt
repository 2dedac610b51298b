-- ===== src/SoundConv/Codes.antt =====
-- The codes of SIPEngine/sound_conv.c are bytes.
use Prim.Native.Nat.{bit_xor}
use furikup.Prelude.{ℕ, suc, ◌+◌, ◌<◌, ℤ, pos, negsuc, Bool, true, ◌≡◌, refl, arith, ltb}
use furikup.SoundConv.Defs.{
  pack, val_seg, alaw_magnitude, ulaw_magnitude, cap, s16_to_alaw, s16_to_ulaw,
}
use furikup.SoundConv.Table.{passes, passes_at}

byte_mask : ℕ → ℕ → Bool
byte_mask mask m = ltb (bit_xor m mask) 256

masked : (mask m : ℕ) → passes (byte_mask mask) 255 ≡ true → m < 256 → bit_xor m mask < 256
unfolding byte_mask
masked mask m t h =
    let e : byte_mask mask m ≡ true = passes_at (byte_mask mask) 255 m t (omega arith) in
    ground arith

pack_lt : (seg val : ℕ) → pack seg val < 256
unfolding pack
pack_lt seg val = omega arith

alaw_magnitude_lt : (n : ℕ) → alaw_magnitude n < 256
alaw_magnitude_lt n = ground (arith, pack_lt (val_seg n) n)

pub s16_to_ulaw_lt : (x : ℤ) → s16_to_ulaw x < 256
unfolding s16_to_ulaw byte_mask passes
s16_to_ulaw_lt (pos n) = masked 0xff (ulaw_magnitude (cap (n + 0x84))) refl (pack_lt _ _)
s16_to_ulaw_lt (negsuc n) = masked 0x7f (ulaw_magnitude (cap (0x84 + suc n))) refl (pack_lt _ _)

pub s16_to_alaw_lt : (x : ℤ) → s16_to_alaw x < 256
unfolding s16_to_alaw byte_mask passes
s16_to_alaw_lt (pos n) = masked 0xd5 (alaw_magnitude n) refl (alaw_magnitude_lt n)
s16_to_alaw_lt (negsuc n) =
    masked 0x55 (alaw_magnitude (cap (suc n))) refl (alaw_magnitude_lt (cap (suc n)))

-- ===== src/SoundConv/Defs.antt =====
-- SIPEngine/sound_conv.c. A magnitude is a number, a sample an integer, a code a byte. `>> k` is a
-- division and `<< k` a product by 2 ^ k; `unsigned char` keeps the value modulo 256.
use Prim.Native.Nat.{bit_and, bit_or, bit_xor}
use furikup.Prelude.{
  ℕ, suc, ◌+◌, ◌-◌, ◌*◌, ◌/◌, ◌%◌, ◌^◌, ℤ, pos, negsuc, sub_ℕ, List, map, ◌==◌, ltb, if◌then◌else◌,
  take,
}

-- `if (val & mask) { val >>= shift; r += shift; }`
abbrev pub seg_step : ℕ → ℕ → ℕ × ℕ → ℕ × ℕ
seg_step mask shift (val, r) =
    if bit_and val mask == 0 then (val, r) else (val / 2 ^ shift, r + shift)

abbrev pub seg_last : ℕ × ℕ → ℕ
seg_last (val, r) = if bit_and val 0x02 == 0 then r else r + 1

-- `val_seg` on a value that is not negative.
unfoldable pub val_seg : ℕ → ℕ
val_seg val = seg_last (seg_step 0x0c 2 (seg_step 0xf0 4 (val / 2 ^ 7, 0)))

-- `(seg << 4) | ((pcm_val >> (seg + 3)) & 0x0f)`, stored in an `unsigned char`.
unfoldable pub pack : ℕ → ℕ → ℕ
pack seg val = bit_or (seg * 2 ^ 4) (bit_and (val / 2 ^ (seg + 3)) 0x0f) % 256

abbrev pub alaw_magnitude : ℕ → ℕ
alaw_magnitude val = if ltb val 256 then val / 2 ^ 4 else pack (val_seg val) val

abbrev pub cap : ℕ → ℕ
cap val = if ltb 0x7fff val then 0x7fff else val

unfoldable pub s16_to_alaw : ℤ → ℕ
unfolding val_seg pack
s16_to_alaw (pos n) = bit_xor (alaw_magnitude n) 0xd5
s16_to_alaw (negsuc n) = bit_xor (alaw_magnitude (cap (suc n))) 0x55

-- The magnitude of an A-law code whose bits are inverted already.
abbrev pub alaw_expand : ℕ → ℕ
alaw_expand t =
    if ltb t 16
    then t * 2 ^ 4 + 8
    else (bit_and t 0x0f * 2 ^ 4 + 0x108) * 2 ^ (bit_and (t / 2 ^ 4) 0x07 - 1)

unfoldable pub alaw_to_s16 : ℕ → ℤ
alaw_to_s16 code =
    let a = bit_xor code 0x55 in
    let t = alaw_expand (bit_and a 0x7f) in if bit_and a 0x80 == 0 then sub_ℕ 0 t else pos t

abbrev pub ulaw_magnitude : ℕ → ℕ
ulaw_magnitude val = pack (val_seg val) val

unfoldable pub s16_to_ulaw : ℤ → ℕ
unfolding val_seg pack
s16_to_ulaw (pos n) = bit_xor (ulaw_magnitude (cap (n + 0x84))) 0xff
s16_to_ulaw (negsuc n) = bit_xor (ulaw_magnitude (cap (0x84 + suc n))) 0x7f

unfoldable pub ulaw_to_s16 : ℕ → ℤ
ulaw_to_s16 code =
    let u = 255 - code in
    let t = (bit_and u 0x0f * 2 ^ 3 + 0x84) * 2 ^ (bit_and u 0x70 / 2 ^ 4) in
    if bit_and u 0x80 == 0 then sub_ℕ t 0x84 else sub_ℕ 0x84 t

-- The loops over buffers: of codes, and of samples given by their size in bytes.
unfoldable pub mulaw_dec : List ℕ → ℕ → List ℤ
mulaw_dec codes size = map ulaw_to_s16 (take size codes)

unfoldable pub mulaw_enc : List ℤ → ℕ → List ℕ
mulaw_enc samples pcm_size = map s16_to_ulaw (take (pcm_size / 2) samples)

unfoldable pub alaw_dec : List ℕ → ℕ → List ℤ
alaw_dec codes size = map alaw_to_s16 (take size codes)

unfoldable pub alaw_enc : List ℤ → ℕ → List ℕ
alaw_enc samples pcm_size = map s16_to_alaw (take (pcm_size / 2) samples)

-- ===== src/Tests/SoundConv.antt =====
-- SIPEngine/sound_conv.c on concrete samples and codes.
use furikup.Prelude.{map, pos, [], ◌∷◌, ◌≡◌, refl, arith}
use furikup.SoundConv.{s16_to_ulaw, ulaw_to_s16, mulaw_enc, mulaw_dec, alaw_enc, alaw_dec}
use furikup.SoundConv.Buffers.{plus_zero, buffers_back}

-- 1000 is sent as the mu-law code 206 and heard as 988.
ulaw_of_1000 : s16_to_ulaw (pos 1000) ≡ 206
unfolding s16_to_ulaw
ulaw_of_1000 = refl

heard_1000 : ulaw_to_s16 206 ≡ pos 988
unfolding ulaw_to_s16
heard_1000 = refl

buffers_back_example :
    (mulaw_enc (mulaw_dec (5 ∷ 127 ∷ 9 ∷ []) 2) 4 ≡ map plus_zero (5 ∷ 127 ∷ []))
    × (alaw_enc (alaw_dec (5 ∷ 127 ∷ 9 ∷ []) 2) 4 ≡ 5 ∷ 127 ∷ [])
buffers_back_example = buffers_back (5 ∷ 127 ∷ 9 ∷ []) 2 (omega arith)

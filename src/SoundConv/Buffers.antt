-- ===== src/SoundConv/Buffers.antt =====
-- The loops over buffers in SIPEngine/sound_conv.c.
use furikup.Prelude.{
  ℕ, zero, suc, ◌*◌, ◌/◌, ◌<◌, List, [], ◌∷◌, map, ◌≡◌, refl, ap, ap₂, ◌∙◌, arith, ◌==◌,
  if◌then◌else◌, take,
}
use furikup.SoundConv.Defs.{
  s16_to_ulaw, ulaw_to_s16, s16_to_alaw, alaw_to_s16, mulaw_dec, mulaw_enc, alaw_dec, alaw_enc,
}
use furikup.SoundConv.Ulaw.{s16_to_ulaw-ulaw_to_s16}
use furikup.SoundConv.Alaw.{s16_to_alaw-alaw_to_s16}

abbrev pub AllBytes : List ℕ → Type 0
AllBytes [] = Unit {0}
AllBytes (c ∷ cs) = (c < 256) × AllBytes cs

-- The code of negative zero is the one that does not come back.
abbrev pub plus_zero : ℕ → ℕ
plus_zero c = if c == 127 then 255 else c

module _ {A B : Type 0} (f : A → B) where
  take-map-take : (n : ℕ) (xs : List A) → take n (map f (take n xs)) ≡ map f (take n xs)
  take-map-take zero xs = refl
  take-map-take (suc n) [] = refl
  take-map-take (suc n) (x ∷ xs) = ap (◌∷◌ (f x)) (take-map-take n xs)

half-double : (n : ℕ) → n * 2 / 2 ≡ n
half-double n = omega arith

mulaw_back :
    (n : ℕ) (cs : List ℕ)
    → AllBytes cs
    → map s16_to_ulaw (map ulaw_to_s16 (take n cs)) ≡ map plus_zero (take n cs)
mulaw_back zero cs h = refl
mulaw_back (suc n) [] h = refl
mulaw_back (suc n) (c ∷ cs) (h, t) = ap₂ ◌∷◌ (s16_to_ulaw-ulaw_to_s16 c h) (mulaw_back n cs t)

alaw_back :
    (n : ℕ) (cs : List ℕ) → AllBytes cs → map s16_to_alaw (map alaw_to_s16 (take n cs)) ≡ take n cs
alaw_back zero cs h = refl
alaw_back (suc n) [] h = refl
alaw_back (suc n) (c ∷ cs) (h, t) = ap₂ ◌∷◌ (s16_to_alaw-alaw_to_s16 c h) (alaw_back n cs t)

mulaw_enc-mulaw_dec :
    (codes : List ℕ) (size : ℕ)
    → AllBytes codes
    → mulaw_enc (mulaw_dec codes size) (size * 2) ≡ map plus_zero (take size codes)
unfolding mulaw_enc mulaw_dec
mulaw_enc-mulaw_dec codes size h =
    ap (λ n. map s16_to_ulaw (take n (map ulaw_to_s16 (take size codes)))) (half-double size)
    ∙ ap (map s16_to_ulaw) (take-map-take ulaw_to_s16 size codes)
    ∙ mulaw_back size codes h

alaw_enc-alaw_dec :
    (codes : List ℕ) (size : ℕ)
    → AllBytes codes
    → alaw_enc (alaw_dec codes size) (size * 2) ≡ take size codes
unfolding alaw_enc alaw_dec
alaw_enc-alaw_dec codes size h =
    ap (λ n. map s16_to_alaw (take n (map alaw_to_s16 (take size codes)))) (half-double size)
    ∙ ap (map s16_to_alaw) (take-map-take alaw_to_s16 size codes)
    ∙ alaw_back size codes h

-- A buffer of codes that is decoded and encoded again, its samples counted as two bytes each, is as
-- it was, but for the mu-law codes of negative zero, which become those of positive zero. Condition:
-- the codes are bytes.
pub buffers_back :
    (codes : List ℕ) (size : ℕ)
    → AllBytes codes
    → (mulaw_enc (mulaw_dec codes size) (size * 2) ≡ map plus_zero (take size codes))
      × (alaw_enc (alaw_dec codes size) (size * 2) ≡ take size codes)
buffers_back codes size h = (mulaw_enc-mulaw_dec codes size h, alaw_enc-alaw_dec codes size h)

-- ===== src/Audio/Packets.antt =====
-- The packets of `rtpAudioSend` in SIPEngine/audio.c.
use furikup.Prelude.{
  ℕ, zero, suc, ◌+◌, ◌*◌, ◌/◌, ◌%◌, ◌<◌, ℤ, pos, ◌+ℤ◌, quot, List, [], ◌∷◌, none, some, Bytes,
  get_elem?, length, ◌≡◌, refl, ap, ap₂, ◌∙◌, arith,
}
use furikup.SoundConv.Codes.{s16_to_ulaw_lt, s16_to_alaw_lt}
use furikup.Audio.Send.{sample_at, sum_samples, encode, sent_byte, push, packet_from, packet}

-- An array of n elements has an element at each place.
found : {A : Type 0} (xs : List A) (i : ℕ) → i < length xs → (x : A) × (get_elem? xs i ≡ some x)
found [] i h = absurd (omega arith)
found (x ∷ xs) zero h = (x, refl)
found (x ∷ xs) (suc i) h = found xs i (omega arith)

sample_found :
    (buffer : List ℤ) (index : ℕ)
    → length buffer ≡ 4096
    → index < 2147483648
    → (x : ℤ) × (sample_at buffer index ≡ some x)
unfolding sample_at
sample_found buffer index e h =
    let (x, p) = found buffer (index % 4096) (omega arith) in (x, ground arith)

sum_found :
    (count j : ℕ) (buffer : List ℤ) (base : ℕ) (value : ℤ)
    → length buffer ≡ 4096
    → base + j + count < 2147483648
    → (z : ℤ) × (sum_samples count j buffer base value ≡ some z)
unfolding sum_samples
sum_found zero j buffer base value e h = (value, refl)
sum_found (suc count) j buffer base value e h =
    let (x, p) = sample_found buffer (base + j) e (omega arith) in
    let (z, q) = sum_found count (j + 1) buffer base (value +ℤ x) e (omega arith) in
    (
      z,
      ap (λ o. elim o [ none ↦ none | some y ↦ sum_samples count (j + 1) buffer base (value +ℤ y) ])
            p
          ∙ q,
    )

encode_lt : (payload value : ℤ) → encode payload value < 256
unfolding encode
encode_lt payload value = ground (arith, s16_to_ulaw_lt value, s16_to_alaw_lt value)

byte_found :
    (payload : ℤ) (buffer : List ℤ) (sent i : ℕ)
    → length buffer ≡ 4096
    → i * 11 / 2 + sent + 5 < 2147483648
    → (b : ℕ) × (sent_byte payload buffer sent i ≡ some b) × (b < 256)
unfolding sent_byte
byte_found payload buffer sent i e h =
    let (z, p) = sum_found 5 0 buffer (i * 11 / 2 + sent) (pos 0) e (omega arith) in
    (
      encode payload (quot z 5),
      ap (λ o. elim o [ none ↦ none | some value ↦ some (encode payload (quot value 5)) ]) p,
      encode_lt payload (quot z 5),
    )

abbrev pub AreBytes : Bytes → Type 0
AreBytes [] = Unit {0}
AreBytes (b ∷ bs) = (b < 256) × AreBytes bs

-- A packet of the voice: 160 bytes.
abbrev pub IsPacket : Bytes → Type 0
IsPacket bs = (length bs ≡ 160) × AreBytes bs

from_found :
    (count i : ℕ) (payload : ℤ) (buffer : List ℤ) (sent : ℕ)
    → length buffer ≡ 4096
    → (i + count) * 11 / 2 + sent < 2147483648
    → (bs : Bytes) × (packet_from count i payload buffer sent ≡ some bs)
      × (length bs ≡ count)
      × AreBytes bs
unfolding packet_from
from_found zero i payload buffer sent e h = ([], refl, refl, tt)
from_found (suc count) i payload buffer sent e h =
    let (b, p, l) = byte_found payload buffer sent i e (omega arith) in
    let (bs, q, n, ls) = from_found count (i + 1) payload buffer sent e (omega arith) in
    (b ∷ bs, ap₂ push p q, omega arith, (l, ls))

pub packet_found :
    (payload : ℤ) (buffer : List ℤ) (sent : ℕ)
    → length buffer ≡ 4096
    → sent + 882 < 2147483648
    → (bs : Bytes) × (packet payload buffer sent ≡ some bs) × IsPacket bs
unfolding packet
packet_found payload buffer sent e h =
    let (bs, p, n, ls) = from_found 160 0 payload buffer sent e (omega arith) in (bs, p, (n, ls))

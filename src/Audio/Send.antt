-- ===== src/Audio/Send.antt =====
-- SIPEngine/audio.c: `rtpAudioSend`. A turn of its loop takes what the microphone or the file answers
-- and sends one packet. `none` is an overflow of an `int` or an access outside an array.
use furikup.Prelude.{
  ℕ, zero, suc, ◌+◌, ◌*◌, ◌/◌, ◌%◌, ℤ, pos, ◌+ℤ◌, quot, is_neg, is_nat, is_pos, Bool, ◌||◌, List,
  [], ◌∷◌, Option, none, some, Bytes, ltb, leb, ◌==◌, if◌then◌else◌, get_elem?, replicate,
}
use furikup.SoundConv.{s16_to_ulaw, s16_to_alaw}
use furikup.Config.{Config}

-- `buffer[index % BUFSIZE]` for an index computed in an `int`.
unfoldable pub sample_at : List ℤ → ℕ → Option ℤ
sample_at buffer index = if ltb index 2147483648 then get_elem? buffer (index % 4096) else none

abbrev pub add : Option ℤ → Option ℤ → Option ℤ
add (some a) (some b) = some (a +ℤ b)
add _ _ = none

-- The inner loop: `count` samples are left, the next one is `j`.
unfoldable pub sum_samples : ℕ → ℕ → List ℤ → ℕ → ℤ → Option ℤ
unfolding sample_at ◌+ℤ◌
sum_samples zero j buffer base value = some value
sum_samples (suc count) j buffer base value = elim (sample_at buffer (base + j)) [
  | none ↦ none
  | some x ↦ sum_samples count (j + 1) buffer base (value +ℤ x)
]

unfoldable pub encode : ℤ → ℤ → ℕ
unfolding s16_to_ulaw s16_to_alaw
encode payload value = if is_nat 0 payload then s16_to_ulaw value else s16_to_alaw value

-- One byte of the packet: `(int)(i * 5.5)` is exact.
unfoldable pub sent_byte : ℤ → List ℤ → ℕ → ℕ → Option ℕ
unfolding sum_samples encode
sent_byte payload buffer sent i = elim (sum_samples 5 0 buffer (i * 11 / 2 + sent) (pos 0)) [
  | none ↦ none
  | some value ↦ some (encode payload (quot value 5))
]

abbrev pub push : Option ℕ → Option Bytes → Option Bytes
push (some b) (some bs) = some (b ∷ bs)
push _ _ = none

-- The outer loop: `count` bytes are left, the next one is `i`.
unfoldable pub packet_from : ℕ → ℕ → ℤ → List ℤ → ℕ → Option Bytes
unfolding sent_byte
packet_from zero i payload buffer sent = some []
packet_from (suc count) i payload buffer sent =
    push (sent_byte payload buffer sent i) (packet_from count (i + 1) payload buffer sent)

unfoldable pub packet : ℤ → List ℤ → ℕ → Option Bytes
unfolding packet_from
packet = packet_from 160 0

-- The locals of the thread and the buffer. The packets sent, each with its timestamp, and the codes
-- given to `InfoMessage`, the latest first.
pub record Sender : Type 0 where
  pub buffer : List ℤ
  pub ts : ℕ
  pub sent : ℕ
  pub result : ℤ
  pub packets : List (ℕ × Bytes)
  pub reports : List ℤ

abbrev pub first_sender : List ℤ → Sender
first_sender buffer = record {
  buffer = buffer;
  ts = 0;
  sent = 0;
  result = pos 0;
  packets = [];
  reports = [];
}

-- What a turn meets: the answer of the poll, that of the read, and what the buffer holds behind it.
pub record Microphone : Type 0 where
  pub poll : ℤ
  pub answer : ℤ
  pub recorded : List ℤ

abbrev pub record_if : Bool → Microphone → Sender → Sender
record_if ready m s = if ready then record s { buffer = m.recorded; result = m.answer } else s

-- `input_file`: whether audio.wav could be opened.
unfoldable pub from_file : Bool → Microphone → Sender → Sender
from_file input_file m s =
    if input_file
    then record s {
      buffer = if leb 3214 (s.sent % 4096) then m.recorded else s.buffer;
      result = pos 1;
    }
    else record s { buffer = replicate 4096 (pos 0); result = pos 1 }

unfoldable pub listen : Config → Bool → Microphone → Sender → Sender
unfolding from_file
listen c input_file m s =
    if c.use_usb
    then (if c.use_video
        then record_if (is_pos m.poll || s.ts == 0) m s
        else record_if (is_nat 0 m.poll || s.ts == 0) m s)
    else if c.use_headset
    then record_if (is_nat 0 m.poll || s.ts == 0) m s
    else if c.use_input_file
    then from_file input_file m s
    else s

abbrev pub silence : Bytes
silence = replicate 160 0

-- The packet goes out, and the time goes on.
abbrev pub transmit : Sender → Option Bytes → Option Sender
transmit s none = none
transmit s (some bytes) =
    if ltb (s.ts + 160) 2147483648
    then some (record s { packets = (s.ts, bytes) ∷ s.packets; ts = s.ts + 160 })
    else none

abbrev pub report : Sender → Sender
report s = record s { reports = s.result ∷ s.reports }

abbrev pub advance : Sender → Sender
advance s = record s { sent = s.sent + 882 }

unfoldable pub send_turn : Config → Bool → ℤ → Microphone → Sender → Option Sender
unfolding listen packet
send_turn c input_file payload m s₀ =
    let s = listen c input_file m s₀ in
    if is_neg s.result
    then transmit (report s) (some silence)
    else transmit (advance s) (packet payload s.buffer s.sent)

-- The loop, which nothing but `rtpAudioStop` ends.
unfoldable pub send_loop : Config → Bool → ℤ → List Microphone → Sender → Option Sender
unfolding send_turn
send_loop c input_file payload [] s = some s
send_loop c input_file payload (m ∷ ms) s = elim (send_turn c input_file payload m s) [
  | none ↦ none
  | some t ↦ send_loop c input_file payload ms t
]

-- ===== src/Audio/Stream.antt =====
-- The loop of `rtpAudioSend` in SIPEngine/audio.c: the sequence of its packets.
use furikup.Prelude.{
  ℕ, zero, suc, ◌+◌, ◌*◌, ◌%◌, ◌<◌, ◌≤◌, ℤ, pos, is_neg, Bool-cases, inl, inr, Bool, true, false,
  List, [], ◌∷◌, Option, none, some, Bytes, leb, if◌then◌else◌, replicate, length, ◌≡◌, refl, ap,
  ◌∙◌, arith,
}
use mathlib.Core.Path.{subst}
use furikup.Config.{Config}
use furikup.Audio.Send.{
  Sender, first_sender, Microphone, record_if, from_file, listen, silence, transmit, report,
  advance, send_turn, send_loop,
}
use furikup.Audio.Packets.{AreBytes, IsPacket, packet_found}

-- n packets, the latest first, with the timestamps 160 * (n - 1), …, 160, 0.
abbrev pub IsStream : ℕ → List (ℕ × Bytes) → Type 0
IsStream zero [] = Unit {0}
IsStream (suc n) ((ts, bs) ∷ ps) = (ts ≡ 160 * n) × IsPacket bs × IsStream n ps
IsStream _ _ = ⊥

record IsReady (n : ℕ) (s : Sender) : Type 0 where
  full : length s.buffer ≡ 4096
  time : s.ts ≡ 160 * n
  place : s.sent ≤ 882 * n
  stream : IsStream n s.packets

-- Whatever is recorded fills the buffer.
abbrev pub AreFull : List Microphone → Type 0
AreFull [] = Unit {0}
AreFull (m ∷ ms) = (length m.recorded ≡ 4096) × AreFull ms

zeros_full : length (replicate 4096 (pos 0)) ≡ 4096
zeros_full = refl

record_if-IsReady :
    (n : ℕ) (ready : Bool) (m : Microphone) (s : Sender)
    → length m.recorded ≡ 4096
    → IsReady n s
    → IsReady n (record_if ready m s)
record_if-IsReady n true m s e r = record {
  full = e;
  time = r.time;
  place = r.place;
  stream = r.stream;
}
record_if-IsReady n false m s e r = r

chosen :
    (b : Bool) (xs ys : List ℤ)
    → length xs ≡ 4096
    → length ys ≡ 4096
    → length (if b then xs else ys) ≡ 4096
chosen true xs ys h k = h
chosen false xs ys h k = k

from_file-IsReady :
    (n : ℕ) (input_file : Bool) (m : Microphone) (s : Sender)
    → length m.recorded ≡ 4096
    → IsReady n s
    → IsReady n (from_file input_file m s)
unfolding from_file
from_file-IsReady n true m s e r = record {
  full = chosen (leb 3214 (s.sent % 4096)) m.recorded s.buffer e r.full;
  time = r.time;
  place = r.place;
  stream = r.stream;
}
from_file-IsReady n false m s e r = record {
  full = zeros_full;
  time = r.time;
  place = r.place;
  stream = r.stream;
}

if_IsReady :
    (n : ℕ) (b : Bool) (s t : Sender) → IsReady n s → IsReady n t → IsReady n (if b then s else t)
if_IsReady n true s t h k = h
if_IsReady n false s t h k = k

listen-IsReady :
    (n : ℕ) (c : Config) (input_file : Bool) (m : Microphone) (s : Sender)
    → length m.recorded ≡ 4096
    → IsReady n s
    → IsReady n (listen c input_file m s)
unfolding listen
listen-IsReady n c input_file m s e r =
    if_IsReady n c.use_usb _ _
      (if_IsReady n c.use_video _ _ (record_if-IsReady n _ m s e r) (record_if-IsReady n _ m s e r))
      (if_IsReady n c.use_headset _ _ (record_if-IsReady n _ m s e r)
        (if_IsReady n c.use_input_file _ _ (from_file-IsReady n input_file m s e r) r))

zeros-AreBytes : (n : ℕ) → AreBytes (replicate n 0)
zeros-AreBytes zero = tt
zeros-AreBytes (suc n) = (omega arith, zeros-AreBytes n)

silence-IsPacket : IsPacket silence
silence-IsPacket = (refl, zeros-AreBytes 160)

-- A turn sends one packet.
abbrev TurnSends : ℕ → Option Sender → Type 0
TurnSends n o = (t : Sender) × (o ≡ some t) × IsReady (suc n) t

transmit-TurnSends :
    (n sent : ℕ) (s : Sender) (bs : Bytes)
    → length s.buffer ≡ 4096
    → s.ts ≡ 160 * n
    → s.sent ≤ 882 * suc n
    → IsStream n s.packets
    → 882 * suc n < 2147483648
    → IsPacket bs
    → TurnSends n (transmit s (some bs))
transmit-TurnSends n sent s bs f t l st h p = (
  record s { packets = (s.ts, bs) ∷ s.packets; ts = s.ts + 160 },
  ground arith,
  record { full = f; time = omega arith; place = l; stream = (t, p, st) },
)

turn-TurnSends :
    (n : ℕ) (c : Config) (input_file : Bool) (payload : ℤ) (m : Microphone) (s : Sender)
    → length m.recorded ≡ 4096
    → 882 * suc n < 2147483648
    → IsReady n s
    → TurnSends n (send_turn c input_file payload m s)
unfolding send_turn
turn-TurnSends n c input_file payload m s₀ e h r₀ =
    let s = listen c input_file m s₀ in
    let r = listen-IsReady n c input_file m s₀ e r₀ in
    elim (Bool-cases (is_neg s.result)) [
      | inl bad ↦ rw bad (
          transmit-TurnSends n 0 (report s) silence r.full r.time (omega (arith, r.place)) r.stream
            h silence-IsPacket)
      | inr good ↦
          let (bs, p, q) = packet_found payload s.buffer s.sent r.full (omega (arith, r.place)) in
          rw good (
            rw p (
              transmit-TurnSends n 0 (advance s) bs r.full r.time (omega (arith, r.place)) r.stream
                h q))
    ]

send_loop-cons :
    (c : Config) (input_file : Bool) (payload : ℤ) (m : Microphone) (ms : List Microphone)
    (s t : Sender)
    → send_turn c input_file payload m s ≡ some t
    → send_loop c input_file payload (m ∷ ms) s ≡ send_loop c input_file payload ms t
unfolding send_loop
send_loop-cons c input_file payload m ms s t p =
    ap (λ o. elim o [ none ↦ none | some u ↦ send_loop c input_file payload ms u ]) p

loop_sends :
    (n k : ℕ) (c : Config) (input_file : Bool) (payload : ℤ) (ms : List Microphone) (s : Sender)
    → AreFull ms
    → n + length ms ≡ k
    → 882 * k < 2147483648
    → IsReady n s
    → (t : Sender) × (send_loop c input_file payload ms s ≡ some t) × IsStream k t.packets
loop_sends n k c input_file payload [] s f e h r =
    (s, unfold send_loop in refl, subst (λ j. IsStream j s.packets) (omega arith) r.stream)
loop_sends n k c input_file payload (m ∷ ms) s (f, fs) e h r =
    let (t, p, r') = turn-TurnSends n c input_file payload m s f (omega arith) r in
    let (u, q, st) = loop_sends (suc n) k c input_file payload ms t fs (omega arith) h r' in
    (u, send_loop-cons c input_file payload m ms s t p ∙ q, st)

-- The sending thread, on a buffer of 4096 samples and with recordings of as many: for fewer than
-- 2^31 / 882 turns, whatever the polls and reads answer and whatever the source of the voice is, no
-- access leaves an array and no number overflows; each turn sends one packet, of 160 bytes, and the
-- timestamps are 0, 160, 320, and so on.
pub send_loop-IsStream :
    (c : Config) (input_file : Bool) (payload : ℤ) (buffer : List ℤ) (ms : List Microphone)
    → length buffer ≡ 4096
    → AreFull ms
    → 882 * length ms < 2147483648
    → (t : Sender) × (send_loop c input_file payload ms (first_sender buffer) ≡ some t)
      × IsStream (length ms) t.packets
send_loop-IsStream c input_file payload buffer ms e f h =
    loop_sends 0 (length ms) c input_file payload ms (first_sender buffer) f (omega arith) h
      (record { full = e; time = refl; place = omega arith; stream = tt })

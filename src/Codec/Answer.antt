-- ===== src/Codec/Answer.antt =====
-- The answer to the voice codecs that a caller offers, for `createLocalSdp` of SIPEngine/codec.c.
use furikup.CString.Laws.{length-digits_le}
use furikup.Prelude.{
  ℕ, ◌+◌, ◌*◌, ◌≤◌, ◌<◌, true, false, List, [], ◌∷◌, ◌++◌, append_assoc, append-nil, Option, none,
  some, inl, inr, ◌≡◌, refl, sym, ap, ap₂, ◌∙◌, arith, Bytes, codes, length, length-append,
}
use furikup.CString.{digits}
use furikup.Codec.Defs.{
  Media, AudioLine, pcmu_map, add_payload, add_payloads, audio_header, empty_line, or_reject,
  answer_audio,
}
use furikup.Codec.Append.{
  Law, name_of, map_of, law_of, cons_some, laws_of, names, maps, add_law, add_payload-law_of,
  extended, length-name_of, length-map_of, append_codec-fits, append_codec-cases,
}

-- One payload, then the others.
abbrev and_others : List Bytes → Option AudioLine → Option AudioLine
and_others ps none = none
and_others ps (some b) = add_payloads ps b

elim-and_others :
    (ps : List Bytes) (x : Option AudioLine)
    → (elim x [ none ↦ none | some b ↦ add_payloads ps b ]) ≡ and_others ps x
elim-and_others ps none = refl
elim-and_others ps (some b) = refl

add_payloads-cons :
    (p : Bytes) (ps : List Bytes) (a : AudioLine)
    → add_payloads (p ∷ ps) a ≡ and_others ps (add_law (law_of p) a)
unfolding add_payloads
add_payloads-cons p ps a =
    elim-and_others ps (add_payload p a) ∙ ap (and_others ps) (add_payload-law_of p a)

-- There is room for the codecs behind what the two arrays hold.
abbrev Room : AudioLine → List Law → Type 0
Room a ls = (length a.options + 2 * length ls < 128) × (length a.rtpmap + 22 * length ls < 128)

added-Room :
    (a : AudioLine) (l : Law) (ls : List Law) → Room a (l ∷ ls) → Room (extended a (l ∷ [])) ls
added-Room a l ls (m, n) = (
  omega (arith, length-append a.options (name_of l), length-name_of l),
  omega (arith, length-append a.rtpmap (map_of l), length-map_of l),
)

fits-cons :
    (o : Option Law) (ps : List Bytes) (a : AudioLine)
    → ((b : AudioLine) → Room b (laws_of ps) → add_payloads ps b ≡ some (extended b (laws_of ps)))
    → Room a (cons_some o (laws_of ps))
    → and_others ps (add_law o a) ≡ some (extended a (cons_some o (laws_of ps)))
fits-cons none ps a rest r = rest a r
fits-cons (some l) ps a rest (m, n) =
    ap (and_others ps) (append_codec-fits l a (omega arith) (omega arith))
    ∙ rest (extended a (l ∷ [])) (added-Room a l (laws_of ps) (m, n))

add_payloads-fits :
    (ps : List Bytes) (a : AudioLine)
    → Room a (laws_of ps)
    → add_payloads ps a ≡ some (extended a (laws_of ps))
add_payloads-fits [] a r = unfold add_payloads in refl
add_payloads-fits (p ∷ ps) a r =
    add_payloads-cons p ps a ∙ fits-cons (law_of p) ps a (add_payloads-fits ps) r

-- The second array is full before the last codec.
abbrev Full : AudioLine → List Law → Type 0
Full a ls = (length a.rtpmap < 128) × (128 ≤ length a.rtpmap + 22 * length ls)

overflows-cons :
    (o : Option Law) (ps : List Bytes) (a : AudioLine)
    → ((b : AudioLine) → Full b (laws_of ps) → add_payloads ps b ≡ none)
    → Full a (cons_some o (laws_of ps))
    → and_others ps (add_law o a) ≡ none
overflows-cons none ps a rest f = rest a f
overflows-cons (some l) ps a rest (m, n) = elim (append_codec-cases l a) [
  | inl e ↦ ap (and_others ps) e
  | inr (e, room) ↦
      ap (and_others ps) e
      ∙ rest (extended a (l ∷ [])) (
        omega (arith, length-append a.rtpmap (map_of l), length-map_of l),
        omega (arith, length-append a.rtpmap (map_of l), length-map_of l),
      )
]

add_payloads-overflows :
    (ps : List Bytes) (a : AudioLine) → Full a (laws_of ps) → add_payloads ps a ≡ none
add_payloads-overflows [] a (m, n) = absurd (omega arith)
add_payloads-overflows (p ∷ ps) a f =
    add_payloads-cons p ps a ∙ overflows-cons (law_of p) ps a (add_payloads-overflows ps) f

-- The line that answers an offer with these codecs on a port.
abbrev pub answer_of : ℕ → List Law → AudioLine
answer_of port [] = record {
  options = codes "m=audio 0 RTP/AVP 0";
  rtpmap = pcmu_map;
  added = false;
}
answer_of port (l ∷ ls) = record {
  options = audio_header port ++ names (l ∷ ls);
  rtpmap = maps (l ∷ ls);
  added = true;
}

extended-added :
    (o m : Bytes) (ls : List Law)
    → extended (record { options = o; rtpmap = m; added = true }) ls
      ≡ record { options = o ++ names ls; rtpmap = m ++ maps ls; added = true }
extended-added o m [] =
    ap₂ (λ x y. record { options = x; rtpmap = y; added = true }) (sym (append-nil o))
      (sym (append-nil m))
extended-added o m (l ∷ ls) =
    extended-added (o ++ name_of l) (m ++ map_of l) ls
    ∙ ap₂ (λ x y. record { options = x; rtpmap = y; added = true })
        (append_assoc o (name_of l) (names ls)) (append_assoc m (map_of l) (maps ls))

or_reject-extended :
    (port : ℕ) (ls : List Law)
    → or_reject (some (extended (empty_line port) ls)) ≡ some (answer_of port ls)
or_reject-extended port [] = refl
or_reject-extended port (l ∷ ls) =
    ap (λ x. or_reject (some x)) (extended-added (audio_header port ++ name_of l) (map_of l) ls)
    ∙ ap (λ x. some (record { options = x; rtpmap = maps (l ∷ ls); added = true }))
        (append_assoc (audio_header port) (name_of l) (names ls))

header_le : (port : ℕ) → length (audio_header port) ≤ 26
header_le port =
    omega (arith, length-append (digits 10 port) (codes " RTP/AVP"), length-digits_le 10 port)

-- An offer with at most five payloads of mu-law or A-law (payload numbers that `atoi` reads as 0 or
-- 8), among any others: the answer names these, in the order of the offer, on the given port, each
-- with its description, and refuses the stream with port 0 if there are none.
pub answer_audio_lem :
    (port : ℕ) (m : Media)
    → length (laws_of m.payloads) ≤ 5
    → answer_audio port (some m) ≡ some (answer_of port (laws_of m.payloads))
unfolding answer_audio
answer_audio_lem port m h =
    ap or_reject
      (add_payloads-fits m.payloads (empty_line port) (omega (arith, header_le port), omega arith))
    ∙ or_reject-extended port (laws_of m.payloads)

-- A sixth such payload makes the code write past the end of its array.
pub answer_audio_overflows :
    (port : ℕ) (m : Media) → 5 < length (laws_of m.payloads) → answer_audio port (some m) ≡ none
unfolding answer_audio
answer_audio_overflows port m h =
    ap or_reject (add_payloads-overflows m.payloads (empty_line port) (omega arith, omega arith))

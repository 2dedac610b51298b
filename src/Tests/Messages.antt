-- ===== src/Tests/Messages.antt =====
-- SIPEngine/codec.c and SIPEngine/presence.c on small messages.
use furikup.Prelude.{true, pos, [], ◌∷◌, ◌++◌, some, none, ◌≡◌, ap, arith, codes, replicate}
use furikup.CString.{has_prefix_ignore_case, atoi, digits}
use furikup.Codec.{Media, answer_audio, pcmu_map, pcma_map}
use furikup.Codec.Answer.{answer_audio_lem, answer_audio_overflows}
use furikup.Presence.{Junk, presence_code, busy, on_phone, update_presence, parse_presence}
use furikup.Presence.Documents.{
  Quiet, document_for, update_presence_overflows, parse_presence-document_for,
}

-- An offer of A-law, GSM and mu-law.
abbrev pub offer : Media
offer = record { payloads = codes "8" ∷ codes "3" ∷ codes "0" ∷ []; port = codes "4000" }

answer_audio_lem_example :
    answer_audio 30000 (some offer)
    ≡ some (record {
      options = codes "m=audio 30000 RTP/AVP 8 0";
      rtpmap = pcma_map ++ pcmu_map;
      added = true;
    })
unfolding atoi digits
answer_audio_lem_example = answer_audio_lem 30000 offer (omega arith)

abbrev pub long_offer : Media
long_offer = record { payloads = replicate 6 (codes "0"); port = codes "4000" }

answer_audio_overflows_example : answer_audio 30000 (some long_offer) ≡ none
unfolding atoi
answer_audio_overflows_example = answer_audio_overflows 30000 long_offer (omega arith)

abbrev pub junk : Junk
junk = record { activity = some []; note = some [] }

update_presence_overflows_example :
    update_presence junk (some (codes "sip:bob@sip.net")) (pos 2) ≡ none
update_presence_overflows_example =
    update_presence_overflows junk (some (codes "sip:bob@sip.net")) busy
      (λ e. omega (arith, ap presence_code e))

bob-Quiet : Quiet (codes "sip:bob@sip.net")
unfolding has_prefix_ignore_case
bob-Quiet = ground arith

parse_presence-document_for_example :
    parse_presence (some (document_for (codes "sip:bob@sip.net") on_phone)) ≡ 4
parse_presence-document_for_example =
    parse_presence-document_for (codes "sip:bob@sip.net") on_phone bob-Quiet

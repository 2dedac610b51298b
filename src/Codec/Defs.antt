-- ===== src/Codec/Defs.antt =====
-- SIPEngine/codec.c, `createLocalSdp` and the two port getters.
use furikup.Prelude.{
  ℕ, ◌+◌, ℤ, pos, is_nat, Bool, true, false, ◌&&◌, ◌||◌, List, [], ◌∷◌, ◌++◌, Option, none, some,
  Bytes, codes, if◌then◌else◌, take,
}
use furikup.CString.{strcpy, c_string, atoi, decimal}
use furikup.Config.{Config}

-- The globals. `videoPort` and `audioPort` are read by audio.c and video.c through the getters.
pub record Ports : Type 0 where
  pub audio_port : ℕ
  pub video_port : ℕ
  pub port_count : ℕ

abbrev pub initial_ports : Ports
initial_ports = record { audio_port = 0; video_port = 0; port_count = 30000 }

-- What the code reads of a media description of eXosip2: its payload list and its port.
pub record Media : Type 0 where
  pub payloads : List Bytes
  pub port : Bytes

-- A remote session description: what `eXosip_get_audio_media` and `eXosip_get_video_media` find.
pub record RemoteSdp : Type 0 where
  pub audio : Option Media
  pub video : Option Media

-- What the network libraries answer: the guessed local address, and the address and port to which
-- the STUN server maps a local port.
pub record Network : Type 0 where
  pub local_ip : Bytes
  pub mapped : Bytes → ℤ → ℕ → Bytes × ℕ

-- Two `portCount += 2`, with the port handed out before each.
unfoldable pub take_ports : Ports → Ports
take_ports p = record {
  audio_port = p.port_count;
  video_port = p.port_count + 2;
  port_count = p.port_count + 4;
}

abbrev pub ask_stun : Config → Network → ℕ → Option Bytes → Option (Bytes × ℕ)
ask_stun c net port none = none
ask_stun c net port (some server) = some (net.mapped server c.stun_port port)

-- The address and the port under which a local port is announced. `none`: the name of the STUN
-- server is not terminated inside its array.
unfoldable pub map_port : Config → Network → ℕ → Option (Bytes × ℕ)
map_port c net port =
    if c.nat then ask_stun c net port (c_string c.stun_server) else some (net.local_ip, port)

-- `audiooptions`, `audiomap` and `added`.
pub record AudioLine : Type 0 where
  pub options : Bytes
  pub rtpmap : Bytes
  pub added : Bool

abbrev pub pcmu_map : Bytes
pcmu_map = codes "a=rtpmap:0 PCMU/8000\r\n"

abbrev pub pcma_map : Bytes
pcma_map = codes "a=rtpmap:8 PCMA/8000\r\n"

abbrev pub event_map : Bytes
event_map = codes "a=rtpmap:101 telephone-event/8000\r\n"

abbrev pub both : Option Bytes → Option Bytes → Option AudioLine
both (some o) (some m) = some (record { options = o; rtpmap = m; added = true })
both _ _ = none

-- The two `strcat` of a branch, into arrays of 128 bytes.
unfoldable pub append_codec : Bytes → Bytes → AudioLine → Option AudioLine
append_codec name line a = both (strcpy 128 (a.options ++ name)) (strcpy 128 (a.rtpmap ++ line))

abbrev pub is_known : Bytes → Bool
is_known payload = is_nat 0 (atoi payload) || is_nat 8 (atoi payload)

unfoldable pub add_payload : Bytes → AudioLine → Option AudioLine
unfolding append_codec
add_payload payload a =
    if is_nat 0 (atoi payload)
    then append_codec (codes " 0") pcmu_map a
    else if is_nat 8 (atoi payload)
    then append_codec (codes " 8") pcma_map a
    else some a

-- The loop over the payloads of the remote audio media.
unfoldable pub add_payloads : List Bytes → AudioLine → Option AudioLine
unfolding add_payload
add_payloads [] a = some a
add_payloads (p ∷ ps) a = elim (add_payload p a) [ none ↦ none | some b ↦ add_payloads ps b ]

abbrev pub payloads_of : Option Media → List Bytes
payloads_of none = []
payloads_of (some m) = m.payloads

-- "m=audio %d RTP/AVP".
abbrev pub audio_header : ℕ → Bytes
audio_header port = codes "m=audio " ++ (decimal (pos port) ++ codes " RTP/AVP")

abbrev pub empty_line : ℕ → AudioLine
empty_line port = record { options = audio_header port; rtpmap = []; added = false }

-- The stream is refused by port 0. Only `audiooptions` is written anew: `audiomap` is empty here.
abbrev pub reject_audio : AudioLine → AudioLine
reject_audio a = record a { options = codes "m=audio 0 RTP/AVP 0"; rtpmap = a.rtpmap ++ pcmu_map }

abbrev pub or_reject : Option AudioLine → Option AudioLine
or_reject none = none
or_reject (some a) = some (if a.added then a else reject_audio a)

unfoldable pub answer_audio : ℕ → Option Media → Option AudioLine
unfolding add_payloads
answer_audio port media = or_reject (add_payloads (payloads_of media) (empty_line port))

abbrev pub offer_audio : ℕ → AudioLine
offer_audio port = record (empty_line port) {
  options = audio_header port ++ codes " 0 8 101";
  rtpmap = pcmu_map ++ (pcma_map ++ event_map);
}

-- `jpegSupported` after the loop, from its value before it.
unfoldable pub jpeg_after : List Bytes → Bool → Bool
jpeg_after [] jpeg = jpeg
jpeg_after (p ∷ ps) jpeg = jpeg_after ps (if is_nat 26 (atoi p) then true else jpeg)

abbrev pub reject_video : Bytes
reject_video = codes "m=video 0 RTP/AVP 26\r\n"

-- `jpegSupported` and `videooptions` once the remote video media is read.
unfoldable pub answer_video : Option Media → Bool → Bool × Bytes
unfolding jpeg_after
answer_video none jpeg = (jpeg, [])
answer_video (some m) jpeg =
    (jpeg_after m.payloads jpeg, if jpeg_after m.payloads jpeg then [] else reject_video)

-- "m=video %d RTP/AVP 26\r\n".
abbrev pub video_line : ℕ → Bytes
video_line port = codes "m=video " ++ (decimal (pos port) ++ codes " RTP/AVP 26\r\n")

-- `snprintf` into `localSdp`, at most 1023 bytes.
unfoldable pub print_sdp : Bytes → AudioLine → Bytes → Bytes
print_sdp addr a video = take 1023 (
    codes "v=0\r\no=- 200 200 IN IP4 "
    ++ (addr
        ++ (codes "\r\ns=SIP Phone\r\nc=IN IP4 "
            ++ (addr
                ++ (codes "\r\nt=0 0\r\n"
                    ++ (a.options
                        ++ (codes "\r\n" ++ (video ++ (a.rtpmap ++ codes "a=ptime:20\r\n")))))))))

-- The second guess of the local address leaves `addr` as it was: both give the same one.
unfoldable pub add_video : Config → Network → ℕ → Bool → Bytes → AudioLine → Bytes → Option Bytes
unfolding map_port print_sdp
add_video c net port wanted addr a video = elim wanted [
  | false ↦ some (print_sdp addr a video)
  | true ↦ elim (map_port c net port) [
    | none ↦ none
    | some (_, p) ↦ some (print_sdp addr a (video_line p))
  ]
]

-- `createLocalSdp` behind the choice of the ports. `junk` is what the uninitialised variable
-- `jpegSupported` happens to hold.
unfoldable pub describe : Config → Network → Bool → Option RemoteSdp → Ports → Option Bytes
unfolding map_port answer_audio answer_video add_video
describe c net junk remote p = elim (map_port c net p.audio_port) [
  | none ↦ none
  | some (addr, port) ↦ elim remote [
    | none ↦ add_video c net p.video_port c.use_video addr (offer_audio port) []
    | some r ↦ elim (answer_audio port r.audio) [
      | none ↦ none
      | some a ↦
          let (jpeg, video) = answer_video r.video junk in
          add_video c net p.video_port (c.use_video && jpeg) addr a video
    ]
  ]
]

-- The ports taken, and the description; `none` is a write past the end of an array, or a read past
-- the end of one.
unfoldable pub create_local_sdp :
    Config → Network → Bool → Option RemoteSdp → Ports → Ports × Option Bytes
unfolding take_ports describe
create_local_sdp c net junk remote p = let q = take_ports p in (q, describe c net junk remote q)

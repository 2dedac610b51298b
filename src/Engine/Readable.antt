-- ===== src/Engine/Readable.antt =====
-- SIPEngine/codec.c with settings that can be read and offers that fit: the description is made.
use furikup.Prelude.{
  ℕ, ◌≤◌, Bool, true, false, ◌&&◌, [], Option, none, some, ◌≡◌, Bool-cases, inl, inr, Bytes, length,
}
use furikup.CString.{c_string}
use furikup.Config.{Config, config_get_user_uri, config_get_server_uri}
use furikup.Codec.{
  Media, RemoteSdp, Network, Ports, map_port, AudioLine, payloads_of, answer_audio, offer_audio,
  answer_video, add_video, describe,
}
use furikup.Codec.Append.{laws_of}
use furikup.Codec.Answer.{answer_audio_lem}

-- The names in the settings are terminated inside their arrays, and the URIs fit into theirs.
pub record IsReadable (c : Config) : Type 0 where
  pub user_uri : Bytes
  pub server_uri : Bytes
  pub stun_server : Bytes
  pub has_user : config_get_user_uri c ≡ some user_uri
  pub has_server : config_get_server_uri c ≡ some server_uri
  pub has_stun : c_string c.stun_server ≡ some stun_server

-- The offer of the other side names mu-law and A-law five times at most.
abbrev pub IsModest : Option RemoteSdp → Type 0
IsModest none = Unit {0}
IsModest (some r) = length (laws_of (payloads_of r.audio)) ≤ 5

abbrev pub IsFound {ℓ} : {A : Type ℓ} → Option A → Type 0
IsFound none = ⊥
IsFound (some x) = Unit {0}

then-IsFound {ℓ κ} :
    {A : Type ℓ} {B : Type κ} (o : Option A) (k : A → Option B)
    → IsFound o
    → ((x : A) → IsFound (k x))
    → IsFound (elim o [ none ↦ none | some x ↦ k x ])
then-IsFound none k h f = absurd h
then-IsFound (some x) k h f = f x

map_port-IsFound :
    (c : Config) (net : Network) (port : ℕ) → IsReadable c → IsFound (map_port c net port)
unfolding map_port
map_port-IsFound c net port r = elim (Bool-cases c.nat) [
  | inl p ↦ rw p (rw r.has_stun tt)
  | inr n ↦ rw n tt
]

answer_audio-IsFound :
    (port : ℕ) (m : Option Media)
    → length (laws_of (payloads_of m)) ≤ 5
    → IsFound (answer_audio port m)
unfolding answer_audio
answer_audio-IsFound port none h = tt
answer_audio-IsFound port (some m) h = rw (answer_audio_lem port m h) tt

add_video-IsFound :
    (c : Config) (net : Network) (port : ℕ) (wanted : Bool) (addr : Bytes) (a : AudioLine)
    (video : Bytes)
    → IsReadable c
    → IsFound (add_video c net port wanted addr a video)
unfolding add_video
add_video-IsFound c net port false addr a video r = tt
add_video-IsFound c net port true addr a video r =
    then-IsFound (map_port c net port) _ (map_port-IsFound c net port r) (λ x. tt)

pub describe-IsFound :
    (c : Config) (net : Network) (junk : Bool) (remote : Option RemoteSdp) (p : Ports)
    → IsReadable c
    → IsModest remote
    → IsFound (describe c net junk remote p)
unfolding describe
describe-IsFound c net junk none p r m =
    then-IsFound (map_port c net p.audio_port) _ (map_port-IsFound c net p.audio_port r)
      (λ x. add_video-IsFound c net p.video_port c.use_video x.0 (offer_audio x.1) [] r)
describe-IsFound c net junk (some s) p r m =
    then-IsFound (map_port c net p.audio_port) _ (map_port-IsFound c net p.audio_port r) (λ x.
      then-IsFound (answer_audio x.1 s.audio) _ (answer_audio-IsFound x.1 s.audio m) (λ a.
        add_video-IsFound c net p.video_port (c.use_video && (answer_video s.video junk).0) x.0 a
          (answer_video s.video junk).1 r))

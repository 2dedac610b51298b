-- ===== src/Engine/Requests.antt =====
-- SIPEngine/call_api.c with the settings and the descriptions it is given: what the interface asks leaves no array.
use furikup.Prelude.{
  ◌<◌, ℤ, pos, negsuc, Bool, true, false, not, List, [], ◌∷◌, Option, none, some, ◌≡◌, sym, arith,
  Bytes, codes, length, length-append, if◌then◌else◌, ◌▸◌,
}
use mathlib.Core.Path.{subst}
use furikup.Config.{Config, config_get_user_uri}
use furikup.Codec.{RemoteSdp, take_ports, describe, create_local_sdp}
use furikup.Engine.Types.{
  registered, incoming_call, lock, unlock, build_answer, send_answer, build_invite, emit, info,
  error, OutEvent, new_call, change_presence, Engine, Answers, Outcome, running, returned, fault,
}
use furikup.Engine.Control.{
  reply, make_call, answer_call, hangup_call, disconnect_sip_server, call_address, with_sdp,
  send_call, is_in,
}
use furikup.Engine.Thread.{Turn}
use furikup.Engine.Readable.{IsReadable, IsModest, IsFound, describe-IsFound}

-- No memory was corrupted, and the settings are those that were read.
abbrev pub IsSafe : Config → Outcome → Type 0
IsSafe c (running s) = s.config ≡ c
IsSafe c (returned rc s) = s.config ≡ c
IsSafe c fault = ⊥

module _ (c : Config) (r : IsReadable c) where
  pub read_here : (s : Engine) → s.config ≡ c → IsReadable s.config
  read_here s h = subst IsReadable (sym h) r

  pub found-IsSafe :
      (o : Option Bytes) (k : Bytes → Outcome)
      → IsFound o
      → ((text : Bytes) → IsSafe c (k text))
      → IsSafe c (elim o [ none ↦ fault | some text ↦ k text ])
  found-IsSafe none k h f = absurd h
  found-IsSafe (some text) k h f = f text

  pub with_sdp-IsSafe :
      (a : Answers) (remote : Option RemoteSdp) (s : Engine) (k : Bytes → Engine → Outcome)
      → IsModest remote
      → s.config ≡ c
      → ((sdp : Bytes) (u : Engine) → u.config ≡ c → IsSafe c (k sdp u))
      → IsSafe c (with_sdp a remote s k)
  unfolding create_local_sdp
  with_sdp-IsSafe a remote s k m h f =
      found-IsSafe (describe s.config a.network a.jpeg_junk remote (take_ports s.ports)) _
        (describe-IsFound s.config a.network a.jpeg_junk remote (take_ports s.ports) (read_here s h)
          m)
        (λ sdp. f sdp _ h)

  pub if_IsSafe :
      (b : Bool) (o p : Outcome) → IsSafe c o → IsSafe c p → IsSafe c (if b then o else p)
  if_IsSafe true o p h k = h
  if_IsSafe false o p h k = k

  pub make_call-IsSafe :
      (user : Bytes) (a : Answers) (s : Engine) → s.config ≡ c → IsSafe c (make_call user a s)
  unfolding make_call
  make_call-IsSafe user a s₀ h =
      let s = info (codes "new call") s₀ in
      let build = λ (from : Bytes). emit (build_invite user from) s in
      if_IsSafe (is_in registered s) _ (returned (pos 0) s)
        (found-IsSafe (config_get_user_uri s.config) _ (rw (read_here s₀ h).has_user tt) (λ from.
          if_IsSafe (not a.invite_built)
            (returned (negsuc 0) (error (codes "Failed invite build") (build from))) _ h
            (with_sdp-IsSafe a none (build from) (send_call user) tt h
              (λ sdp u k. unfold send_call in k))))
        h

  pub answer_call-IsSafe :
      (a : Answers) (s : Engine) → IsModest a.remote_sdp → s.config ≡ c → IsSafe c (answer_call a s)
  unfolding answer_call
  answer_call-IsSafe a s m h =
      if_IsSafe (is_in incoming_call s) _ (running s)
        (with_sdp-IsSafe a a.remote_sdp (s ▸ emit lock ▸ emit (build_answer s.tid 200))
          (λ sdp u. running (u ▸ emit (send_answer s.tid 0 (some sdp)) ▸ emit unlock)) m h
          (λ sdp u k. k))
        h

  pub hangup_call_config : (s : Engine) → (hangup_call s).config ≡ s.config
  unfolding hangup_call
  hangup_call_config s = ground arith

  pub disconnect_sip_server_config : (s : Engine) → (disconnect_sip_server s).config ≡ s.config
  unfolding disconnect_sip_server
  disconnect_sip_server_config s = ground (arith, hangup_call_config s)

  pub reply-IsSafe : (done : Bool) (rc : ℤ) (o : Outcome) → IsSafe c o → IsSafe c (reply done rc o)
  reply-IsSafe done rc (running s) h = h
  reply-IsSafe done rc (returned _ s) h = h
  reply-IsSafe done rc fault h = h

-- What text_gui.c asks: no presence, and addresses that fit into 128 bytes with a scheme in front.
abbrev pub IsMild : OutEvent → Type 0
IsMild (new_call address) = length address < 124
IsMild (change_presence z) = ⊥
IsMild _ = Unit {0}

abbrev pub IsMildRequest : Option OutEvent → Type 0
IsMildRequest none = Unit {0}
IsMildRequest (some e) = IsMild e

abbrev pub AreMild : List Turn → Type 0
AreMild [] = Unit {0}
AreMild (t ∷ ts) = IsMildRequest t.callback × IsModest t.answers.remote_sdp × AreMild ts

pub call_address-IsFound : (address : Bytes) → length address < 124 → IsFound (call_address address)
unfolding call_address
call_address-IsFound address h = ground (arith, length-append (codes "sip:") address)

-- ===== src/Engine/Control.antt =====
-- SIPEngine/call_api.c: `ChangeState`, and what the GUI can ask of the engine: `makeCall`,
-- `answerCall`, `hangupCall`, `disconnectSipServer`, and the dispatcher `GuiCallback`.
use furikup.Prelude.{
  ℕ, ℤ, pos, negsuc, is_pos, Bool, true, false, not, ◌&&◌, ◌||◌, ◌++◌, Option, none, some, Bytes,
  codes, ◌==◌, if◌then◌else◌, ◌▸◌,
}
use furikup.CString.{strcpy, has_prefix}
use furikup.Config.{config_get_user_uri}
use furikup.Codec.{RemoteSdp, create_local_sdp}
use furikup.Presence.{update_presence}
use furikup.Engine.Types.{
  CallState, not_registered, registering, registered, in_call, incoming_call, answered,
  disconnecting, state_code, sip_state, OutEvent, hangup, answer, reject, shutdown, new_call,
  change_presence, unknown, gui, lock, unlock, send_register, build_register, send_answer,
  build_answer, build_invite, send_invite, call_terminate, publish, audio_stop, video_stop,
  stop_ringback, delay, close_log, Engine, Answers, Outcome, running, returned, fault, emit, info,
  error,
}

-- SUI_SIP_STATE_* of SIPEngine/sipengineif.h.
abbrev pub sip_disconnected : ℕ
sip_disconnected = 0

abbrev pub sip_connecting : ℕ
sip_connecting = 1

abbrev pub sip_connected : ℕ
sip_connected = 2

abbrev pub sip_trying : ℕ
sip_trying = 3

abbrev pub sip_incoming : ℕ
sip_incoming = 4

abbrev pub sip_established : ℕ
sip_established = 5

-- The `switch` of `ChangeState`: `eDISCONNECTING` has no case.
abbrev pub announce : CallState → Engine → Engine
announce not_registered s = emit (gui (sip_state sip_disconnected)) s
announce registering s = emit (gui (sip_state sip_connecting)) s
announce registered s = s ▸ emit stop_ringback ▸ emit (gui (sip_state sip_connected))
announce in_call s = emit (gui (sip_state sip_trying)) s
announce incoming_call s = emit (gui (sip_state sip_incoming)) s
announce answered s = s ▸ emit stop_ringback ▸ emit (gui (sip_state sip_established))
announce disconnecting s = s

unfoldable pub change_state : CallState → Engine → Engine
change_state state s = record (announce state s) { current_state = state }

abbrev pub is_in : CallState → Engine → Bool
is_in state s = state_code s.current_state == state_code state

-- `createLocalSdp(sdp, remote)`: the engine with its ports taken, and the text.
abbrev pub with_sdp : Answers → Option RemoteSdp → Engine → (Bytes → Engine → Outcome) → Outcome
with_sdp a remote s k =
    let (p, text) = create_local_sdp s.config a.network a.jpeg_junk remote s.ports in
    elim text [ none ↦ fault | some sdp ↦ k sdp (record s { ports = p }) ]

unfoldable pub send_call : Bytes → Bytes → Engine → Outcome
unfolding change_state info
send_call user sdp s = returned (pos 0) (
    s
    ▸ emit lock
    ▸ emit (send_invite user sdp)
    ▸ info (codes "Sent invite")
    ▸ emit unlock
    ▸ change_state in_call
    ▸ info (codes "Now in call"))

unfoldable pub make_call : Bytes → Answers → Engine → Outcome
unfolding create_local_sdp info error send_call
make_call user a s₀ =
    let s = info (codes "new call") s₀ in
    if is_in registered s
    then elim (config_get_user_uri s.config) [
      | none ↦ fault
      | some from ↦
          let s₁ = emit (build_invite user from) s in
          if not a.invite_built
          then returned (negsuc 0) (error (codes "Failed invite build") s₁)
          else with_sdp a none s₁ (send_call user)
    ]
    else returned (pos 0) s

-- The state stays `eINCOMING_CALL` until the ACK arrives.
unfoldable pub answer_call : Answers → Engine → Outcome
unfolding create_local_sdp
answer_call a s =
    if is_in incoming_call s
    then with_sdp a a.remote_sdp (s ▸ emit lock ▸ emit (build_answer s.tid 200))
        (λ sdp s₁. running (s₁ ▸ emit (send_answer s.tid 0 (some sdp)) ▸ emit unlock))
    else running s

abbrev pub stop_media : Engine → Engine
stop_media s = if is_in answered s then s ▸ emit audio_stop ▸ emit video_stop else s

abbrev pub clear_ids : Engine → Engine
clear_ids s = record s { cid = pos 0; did = pos 0 }

unfoldable pub hangup_call : Engine → Engine
unfolding change_state
hangup_call s₀ =
    let s = stop_media s₀ in
    if is_in in_call s || is_in answered s || is_in incoming_call s
    then s
      ▸ emit lock
      ▸ emit (call_terminate s.cid s.did)
      ▸ emit unlock
      ▸ clear_ids
      ▸ change_state registered
    else s

-- The lock is taken twice here, as in the source, and never given back.
abbrev pub unregister : Engine → Engine
unregister s =
    s
    ▸ change_state disconnecting
    ▸ emit lock
    ▸ emit (build_register s.rid 0)
    ▸ emit (send_register s.rid)
    ▸ emit lock

abbrev pub leave : Engine → Engine
leave s =
    if is_pos s.call_thid
    then record s { quit = true }
    else record (emit close_log s) { callback_done = true }

abbrev pub hangup_first : Engine → Engine
hangup_first s =
    if is_in in_call s || is_in answered s then s ▸ hangup_call ▸ emit (delay 1000) else s

unfoldable pub disconnect_sip_server : Engine → Engine
unfolding hangup_call change_state
disconnect_sip_server s₀ =
    let s = hangup_first s₀ in if is_in registered s then unregister s else leave s

-- The address that is called: a scheme is put in front of one that has none. `none`: the result
-- outgrows `lNewAddress[128]`.
unfoldable pub call_address : Bytes → Option Bytes
unfolding has_prefix
call_address address =
    if not (has_prefix address (codes "sip:")) && not (has_prefix address (codes "tel:"))
    then strcpy 128 (codes "sip:" ++ address)
    else some address

-- `callback_done = done; return rc;`
abbrev pub reply : Bool → ℤ → Outcome → Outcome
reply done rc (running s) = returned rc (record s { callback_done = done })
reply done rc (returned _ s) = returned rc (record s { callback_done = done })
reply done rc fault = fault

abbrev pub call_out : Option Bytes → Answers → Engine → Outcome
call_out none a s = fault
call_out (some address) a s =
    make_call address a (info (codes "Call '" ++ (address ++ codes "'")) s)

unfoldable pub publish_presence : ℤ → Answers → Engine → Outcome
unfolding update_presence
publish_presence status a s =
    elim (update_presence a.presence_junk (config_get_user_uri s.config) status) [
      | none ↦ fault
      | some p ↦ running (emit (publish p) s)
    ]

unfoldable pub gui_callback : OutEvent → Answers → Engine → Outcome
unfolding call_address make_call answer_call hangup_call publish_presence disconnect_sip_server info
gui_callback (new_call address) a s = reply true (pos 0) (call_out (call_address address) a s)
gui_callback answer a s = reply true (pos 0) (answer_call a s)
gui_callback reject a s = reply true (pos 0) (running (hangup_call s))
gui_callback hangup a s = reply true (pos 0) (running (hangup_call s))
gui_callback (change_presence status) a s = reply true (pos 0) (publish_presence status a s)
gui_callback shutdown a s = reply false (pos 0) (running (disconnect_sip_server s))
gui_callback (unknown id) a s = reply true (negsuc 0) (running s)

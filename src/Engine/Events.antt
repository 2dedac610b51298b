-- ===== src/Engine/Events.antt =====
-- SIPEngine/call_api.c, the `switch` of `CallThread`: what each event of eXosip2 does in each state.
use furikup.Prelude.{
  pos, negsuc, is_nat, true, false, ◌++◌, Option, none, some, Bytes, codes, if◌then◌else◌, ◌▸◌,
}
use furikup.CString.{decimal}
use furikup.Presence.{parse_presence}
use furikup.Engine.Types.{
  CallState, not_registered, registering, registered, in_call, incoming_call, answered,
  disconnecting, EventType, registration_success, registration_terminated, call_invite,
  call_ringing, call_answered, call_ack, call_closed, call_server_failure, call_global_failure,
  call_cancelled, call_timeout, subscription_notify, in_subscription_new, ExosipEvent, incoming,
  startup, gui, callback, lock, unlock, send_answer, build_ack, send_ack, build_subscription_answer,
  send_subscription_answer, audio_setup, video_setup, audio_stop, video_stop, play_ringback, Engine,
  Answers, Outcome, running, returned, emit, info, error,
}
use furikup.Engine.Control.{change_state}

-- `if (callback_proc) callback_proc(text);`
abbrev pub notify : Bytes → Engine → Engine
notify text s = if s.callback_proc then emit (callback text) s else s

abbrev pub notify_registered : Engine → Engine
notify_registered s =
    if s.callback_proc
    then s ▸ info (codes "registered fine") ▸ emit (callback (codes "Registered with SIP server"))
    else s

abbrev pub keep_rid : ExosipEvent → Engine → Engine
keep_rid e s = record s { rid = e.rid }

abbrev pub keep_call : ExosipEvent → Engine → Engine
keep_call e s = record s { cid = e.cid; did = e.did }

abbrev pub keep_tid : ExosipEvent → Engine → Engine
keep_tid e s = record s { tid = e.tid }

unfoldable pub on_registering : EventType → ExosipEvent → Engine → Outcome
unfolding change_state info
on_registering registration_success e s =
    running (s ▸ notify_registered ▸ keep_rid e ▸ emit (gui (startup 2)) ▸ change_state registered)
on_registering _ e s = running s

-- How `%s` prints the display name; the C library prints a null pointer so.
abbrev pub shown_name : Option Bytes → Bytes
shown_name none = codes "(null)"
shown_name (some name) = name

unfoldable pub on_invite : ExosipEvent → Engine → Engine
unfolding change_state info
on_invite e s =
    s
    ▸ emit lock
    ▸ emit (send_answer e.tid 180 none)
    ▸ emit unlock
    ▸ keep_call e
    ▸ keep_tid e
    ▸ info (codes "New call from " ++ shown_name e.display_name)
    ▸ emit (gui (incoming e.display_name (negsuc 0)))
    ▸ change_state incoming_call

unfoldable pub on_notify : Option Bytes → Engine → Engine
unfolding info parse_presence
on_notify none s = s
on_notify (some body) s = info (codes "presence=" ++ decimal (pos (parse_presence (some body)))) s

-- A failure sends 400 and returns from the thread, with the lock still held.
unfoldable pub on_subscription : ExosipEvent → Answers → Engine → Outcome
on_subscription e a s₀ =
    let s = s₀ ▸ emit lock ▸ emit (build_subscription_answer e.tid 202) in
    let failed = λ (t : Engine). returned (pos 0) (emit (send_subscription_answer e.tid 400) t) in
    let sent = emit (send_subscription_answer e.tid 202) s in
    if is_nat 0 a.subscription_built
    then (if is_nat 0 a.subscription_sent then running (emit unlock sent) else failed sent)
    else failed s

unfoldable pub on_registered : EventType → ExosipEvent → Answers → Engine → Outcome
unfolding on_invite on_notify on_subscription
on_registered call_invite e a s = running (on_invite e s)
on_registered subscription_notify e a s = running (on_notify e.body s)
on_registered in_subscription_new e a s = on_subscription e a s
on_registered _ e a s = running s

-- The call has been taken at the other end: acknowledge, and start the media.
unfoldable pub on_answered : ExosipEvent → Engine → Engine
unfolding change_state
on_answered e s =
    s
    ▸ notify (codes "Call answered")
    ▸ emit lock
    ▸ emit (build_ack e.did)
    ▸ emit (send_ack e.did)
    ▸ emit unlock
    ▸ emit (audio_setup e.tid false)
    ▸ emit (video_setup e.tid false)
    ▸ change_state answered

unfoldable pub on_ack : ExosipEvent → Engine → Engine
unfolding change_state
on_ack e s =
    s
    ▸ keep_call e
    ▸ emit (audio_setup e.tid true)
    ▸ emit (video_setup e.tid true)
    ▸ change_state answered

unfoldable pub on_ringing : ExosipEvent → Engine → Engine
unfolding info
on_ringing e s = s ▸ info (codes "Phone is ringing") ▸ keep_call e ▸ emit play_ringback

unfoldable pub on_failure : Engine → Engine
unfolding change_state error
on_failure s = s ▸ error (codes "Call failed") ▸ change_state registered

-- The shared cases of `eIN_CALL` and `eINCOMING_CALL`.
unfoldable pub on_pending : EventType → ExosipEvent → Answers → Engine → Outcome
unfolding on_ringing on_answered on_notify on_subscription on_ack on_failure change_state
on_pending call_ringing e a s = running (on_ringing e s)
on_pending call_answered e a s = running (on_answered e s)
on_pending subscription_notify e a s = running (on_notify e.body s)
on_pending in_subscription_new e a s = on_subscription e a s
on_pending call_ack e a s = running (on_ack e s)
on_pending call_closed e a s = running (change_state registered s)
on_pending call_server_failure e a s = running (on_failure s)
on_pending call_global_failure e a s = running (on_failure s)
on_pending call_cancelled e a s = running (on_failure s)
on_pending call_timeout e a s = running (on_failure s)
on_pending _ e a s = running s

abbrev pub forget_call : Engine → Engine
forget_call s = record s { cid = pos 0; tid = pos 0; did = pos 0 }

unfoldable pub on_established : EventType → Engine → Outcome
unfolding change_state
on_established call_closed s = running (
    s
    ▸ notify (codes "Call cleared")
    ▸ emit audio_stop
    ▸ emit video_stop
    ▸ forget_call
    ▸ change_state registered)
on_established _ s = running s

abbrev pub set_quit : Engine → Engine
set_quit s = record s { quit = true }

unfoldable pub on_disconnecting : EventType → Engine → Outcome
unfolding change_state
on_disconnecting registration_success s = running (s ▸ change_state not_registered ▸ set_quit)
on_disconnecting registration_terminated s = running (s ▸ change_state not_registered ▸ set_quit)
on_disconnecting _ s = running s

unfoldable pub on_event : CallState → ExosipEvent → Answers → Engine → Outcome
unfolding on_registering on_registered on_pending on_established on_disconnecting
on_event not_registered e a s = running s
on_event registering e a s = on_registering e.type e s
on_event registered e a s = on_registered e.type e a s
on_event in_call e a s = on_pending e.type e a s
on_event incoming_call e a s = on_pending e.type e a s
on_event answered e a s = on_established e.type s
on_event disconnecting e a s = on_disconnecting e.type s

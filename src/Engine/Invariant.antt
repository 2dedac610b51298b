-- ===== src/Engine/Invariant.antt =====
-- What holds of SIPEngine/call_api.c between any two of its operations.
use furikup.Prelude.{
  ℕ, ℤ, pos, negsuc, ◌+◌, Bool, true, false, List, [], ◌∷◌, Option, none, some, ◌≡◌, ◌⊎◌, arith,
  Bytes,
}
use furikup.Config.{Config}
use furikup.Engine.Types.{
  CallState, not_registered, registering, registered, in_call, incoming_call, answered,
  disconnecting, ExosipEvent, OutEvent, hangup, answer, reject, shutdown, new_call, change_presence,
  unknown, Engine, Answers, Outcome, running, returned, fault, initial_engine, info,
}
use furikup.Engine.Control.{
  sip_disconnected, sip_connecting, sip_connected, sip_trying, sip_incoming, sip_established,
  call_out, reply, make_call, answer_call, hangup_call, disconnect_sip_server, publish_presence,
  gui_callback, call_address,
}
use furikup.Engine.Events.{on_event}
use furikup.Engine.Thread.{
  Turn, run_callback, register_if_needed, handle_event, turn, run, automatic, start, call_thread,
}
use furikup.Engine.Trace.{
  shown, total, is_audio_setup, is_audio_stop, is_video_setup, is_video_stop, tone, rings,
  audio_open, video_open, Always, >>=-Always,
}

-- The state that the GUI shows for each state of the engine. While it disconnects, it still shows
-- the connection.
abbrev pub display : CallState → ℕ
display not_registered = sip_disconnected
display registering = sip_connecting
display registered = sip_connected
display in_call = sip_trying
display incoming_call = sip_incoming
display answered = sip_established
display disconnecting = sip_connected

-- How many media sessions of a kind a state has open.
abbrev pub sessions : CallState → ℕ
sessions answered = 1
sessions _ = 0

abbrev pub is_answered : CallState → Bool
is_answered answered = true
is_answered _ = false

abbrev pub IsPending : CallState → Type 0
IsPending c = (c ≡ in_call) ⊎ (c ≡ incoming_call)

pub record Inv (s : Engine) : Type 0 where
  pub told : shown s.trace ≡ display s.current_state
  pub audio : total is_audio_setup s.trace ≡ total is_audio_stop s.trace + sessions s.current_state
  pub video : total is_video_setup s.trace ≡ total is_video_stop s.trace + sessions s.current_state
  pub audio_session : audio_open s.trace ≡ some (is_answered s.current_state)
  pub video_session : video_open s.trace ≡ some (is_answered s.current_state)
  pub ring : tone s.trace ≡ true → IsPending s.current_state
  pub called : rings s.trace ≡ true → s.current_state ≡ incoming_call

pub hangup_call-Inv : (s : Engine) → Inv s → Inv (hangup_call s)
unfolding hangup_call
hangup_call-Inv s h = ground arith

pub disconnect_sip_server-Inv : (s : Engine) → Inv s → Inv (disconnect_sip_server s)
unfolding disconnect_sip_server
disconnect_sip_server-Inv s h = ground arith

pub make_call-Inv :
    (user : Bytes) (a : Answers) (s : Engine) → Inv s → Always Inv (make_call user a s)
unfolding make_call
make_call-Inv user a s h = ground arith

pub answer_call-Inv : (a : Answers) (s : Engine) → Inv s → Always Inv (answer_call a s)
unfolding answer_call
answer_call-Inv a s h = ground arith

pub publish_presence-Inv :
    (z : ℤ) (a : Answers) (s : Engine) → Inv s → Always Inv (publish_presence z a s)
unfolding publish_presence
publish_presence-Inv z a s h = ground arith

call_out-Inv : (o : Option Bytes) (a : Answers) (s : Engine) → Inv s → Always Inv (call_out o a s)
unfolding info
call_out-Inv none a s h = tt
call_out-Inv (some user) a s h = make_call-Inv user a _ (ground arith)

reply-Inv : (done : Bool) (rc : ℤ) (o : Outcome) → Always Inv o → Always Inv (reply done rc o)
reply-Inv done rc (running s) h = ground arith
reply-Inv done rc (returned _ s) h = ground arith
reply-Inv done rc fault h = tt

pub gui_callback-Inv :
    (e : OutEvent) (a : Answers) (s : Engine) → Inv s → Always Inv (gui_callback e a s)
unfolding gui_callback
gui_callback-Inv (new_call u) a s h = reply-Inv _ _ _ (call_out-Inv (call_address u) a s h)
gui_callback-Inv answer a s h = reply-Inv _ _ _ (answer_call-Inv a s h)
gui_callback-Inv reject a s h = reply-Inv true (pos 0) (running _) (hangup_call-Inv s h)
gui_callback-Inv hangup a s h = reply-Inv true (pos 0) (running _) (hangup_call-Inv s h)
gui_callback-Inv (change_presence z) a s h = reply-Inv _ _ _ (publish_presence-Inv z a s h)
gui_callback-Inv shutdown a s h =
    reply-Inv false (pos 0) (running _) (disconnect_sip_server-Inv s h)
gui_callback-Inv (unknown n) a s h = reply-Inv true (negsuc 0) (running _) h

pub on_event-Inv :
    (c : CallState) (e : ExosipEvent) (a : Answers) (s : Engine)
    → s.current_state ≡ c
    → Inv s
    → Always Inv (on_event c e a s)
unfolding on_event
on_event-Inv not_registered e a s p h = h
on_event-Inv registering e a s p h = ground arith
on_event-Inv registered e a s p h = ground arith
on_event-Inv in_call e a s p h = ground arith
on_event-Inv incoming_call e a s p h = ground arith
on_event-Inv answered e a s p h = ground arith
on_event-Inv disconnecting e a s p h = ground arith

run_callback-Inv :
    (e : Option OutEvent) (a : Answers) (s : Engine) → Inv s → Always Inv (run_callback e a s)
unfolding run_callback
run_callback-Inv none a s h = h
run_callback-Inv (some e) a s h = ground (arith, gui_callback-Inv e a s h)

register_if_needed-Inv : (a : Answers) (s : Engine) → Inv s → Always Inv (register_if_needed a s)
unfolding register_if_needed
register_if_needed-Inv a s h = ground arith

handle_event-Inv :
    (e : Option ExosipEvent) (a : Answers) (s : Engine) → Inv s → Always Inv (handle_event e a s)
unfolding handle_event
handle_event-Inv none a s h = h
handle_event-Inv (some e) a s h = on_event-Inv _ e a _ (ground arith) (ground arith)

pub turn-Inv : (t : Turn) (s : Engine) → Inv s → Always Inv (turn t s)
unfolding turn
turn-Inv t s h =
    >>=-Always Inv _ _
      (>>=-Always Inv _ _ (run_callback-Inv t.callback t.answers s h)
        (register_if_needed-Inv t.answers))
      (λ s₁ h₁. handle_event-Inv t.event t.answers (automatic s₁) (ground arith))

pub run-Inv : (ts : List Turn) (s : Engine) → Inv s → Always Inv (run ts s)
unfolding run
run-Inv [] s h = ground arith
run-Inv (t ∷ ts) s h =
    ground (arith, >>=-Always Inv (turn t s) (run ts) (turn-Inv t s h) (run-Inv ts))

-- Whatever the interface asks, whatever events come in and whatever the libraries answer, wherever
-- the thread stands or has returned: the interface was last told the state that the engine is in
-- (while it unregisters: that it is connected); the set-ups and the stops of the audio alternate,
-- beginning with a set-up, and so do those of the video; one set-up of each is not yet stopped in an
-- established call, and none otherwise; the ring-back tone is on only while a call is being placed or
-- waits to be answered; and a caller was announced, with no connection or established call told since,
-- only while a call waits to be answered.
pub call_thread-Inv :
    (c : Config) (id : ℤ) (ts : List Turn) → Always Inv (call_thread id ts (initial_engine c))
unfolding call_thread
call_thread-Inv c id ts = run-Inv ts (start id (initial_engine c)) (ground arith)

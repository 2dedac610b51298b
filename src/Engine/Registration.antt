-- ===== src/Engine/Registration.antt =====
-- SIPEngine/call_api.c registers at most once in the life of its thread.
use furikup.Prelude.{
  ℤ, pos, ◌≤◌, Bool, true, false, List, [], ◌∷◌, Option, none, some, ◌≡◌, ◌≢◌, inl, inr, arith,
  Bytes, Bool-cases,
}
use furikup.Config.{Config}
use furikup.Engine.Types.{
  CallState, not_registered, ExosipEvent, OutEvent, hangup, answer, reject, shutdown, new_call,
  change_presence, unknown, Engine, Answers, Outcome, running, returned, fault, ◌>>=◌,
  initial_engine, info,
}
use furikup.Engine.Control.{
  call_address, call_out, reply, make_call, answer_call, hangup_call, publish_presence,
  disconnect_sip_server, gui_callback,
}
use furikup.Engine.Events.{on_event}
use furikup.Engine.Thread.{
  Turn, run_callback, register_if_needed, handle_event, turn, run, run-cons, start, call_thread,
  automatic,
}
use furikup.Engine.Trace.{total, is_registration, Always}

abbrev pub Once : Engine → Type 0
Once s = total is_registration s.trace ≤ 1

-- In the first part of a turn: while the state is `eNOT_REGISTERED` no registration was sent.
abbrev Fresh : Engine → Type 0
Fresh s = Once s × ((s.current_state ≡ not_registered) → total is_registration s.trace ≡ 0)

-- Between turns: so, or the loop is about to be left.
abbrev Between : Engine → Type 0
Between s =
    Once s
    × ((s.current_state ≡ not_registered) → s.quit ≡ false → total is_registration s.trace ≡ 0)

-- In the second part of a turn.
abbrev Sent : Engine → Type 0
Sent s = Once s × (s.current_state ≢ not_registered)

-- What holds of a thread that goes on; of one that has returned, that it registered once at most.
abbrev Going : (Engine → Type 0) → Outcome → Type 0
Going P (running s) = P s
Going P (returned _ s) = Once s
Going P fault = Unit {0}

>>=-Going :
    (P Q : Engine → Type 0) (o : Outcome) (f : Engine → Outcome)
    → Going P o
    → ((s : Engine) → P s → Going Q (f s))
    → Going Q (o >>= f)
>>=-Going P Q (running s) f h k = k s h
>>=-Going P Q (returned rc s) f h k = h
>>=-Going P Q fault f h k = tt

make_call-Fresh : (u : Bytes) (a : Answers) (s : Engine) → Fresh s → Always Fresh (make_call u a s)
unfolding make_call
make_call-Fresh u a s h = ground arith

call_out-Fresh :
    (o : Option Bytes) (a : Answers) (s : Engine) → Fresh s → Always Fresh (call_out o a s)
unfolding info
call_out-Fresh none a s h = tt
call_out-Fresh (some u) a s h = make_call-Fresh u a _ (ground arith)

answer_call-Fresh : (a : Answers) (s : Engine) → Fresh s → Always Fresh (answer_call a s)
unfolding answer_call
answer_call-Fresh a s h = ground arith

hangup_call-Fresh : (s : Engine) → Fresh s → Fresh (hangup_call s)
unfolding hangup_call
hangup_call-Fresh s h = ground arith

disconnect_sip_server-Fresh : (s : Engine) → Fresh s → Fresh (disconnect_sip_server s)
unfolding disconnect_sip_server
disconnect_sip_server-Fresh s h = ground arith

publish_presence-Fresh :
    (z : ℤ) (a : Answers) (s : Engine) → Fresh s → Always Fresh (publish_presence z a s)
unfolding publish_presence
publish_presence-Fresh z a s h = ground arith

reply-Fresh : (done : Bool) (rc : ℤ) (o : Outcome) → Always Fresh o → Always Fresh (reply done rc o)
reply-Fresh done rc (running s) h = h
reply-Fresh done rc (returned _ s) h = h
reply-Fresh done rc fault h = tt

gui_callback-Fresh :
    (e : OutEvent) (a : Answers) (s : Engine) → Fresh s → Always Fresh (gui_callback e a s)
unfolding gui_callback
gui_callback-Fresh (new_call u) a s h =
    reply-Fresh true (pos 0) _ (call_out-Fresh (call_address u) a s h)
gui_callback-Fresh answer a s h = reply-Fresh true (pos 0) _ (answer_call-Fresh a s h)
gui_callback-Fresh reject a s h = hangup_call-Fresh s h
gui_callback-Fresh hangup a s h = hangup_call-Fresh s h
gui_callback-Fresh (change_presence z) a s h =
    reply-Fresh true (pos 0) _ (publish_presence-Fresh z a s h)
gui_callback-Fresh shutdown a s h = disconnect_sip_server-Fresh s h
gui_callback-Fresh (unknown n) a s h = h

run_callback-Fresh :
    (e : Option OutEvent) (a : Answers) (s : Engine) → Fresh s → Going Fresh (run_callback e a s)
unfolding run_callback
run_callback-Fresh none a s h = h
run_callback-Fresh (some e) a s h = ground (arith, gui_callback-Fresh e a s h)

register-Sent : (a : Answers) (s : Engine) → Fresh s → Going Sent (register_if_needed a s)
unfolding register_if_needed
register-Sent a s h = ground arith

on_event-Between :
    (c : CallState) (e : ExosipEvent) (a : Answers) (s : Engine)
    → s.current_state ≡ c
    → Sent s
    → Going Between (on_event c e a s)
unfolding on_event
on_event-Between not_registered e a s p h = absurd (h.1 p)
on_event-Between _ e a s p h = ground arith

handle_event-Between :
    (e : Option ExosipEvent) (a : Answers) (s : Engine)
    → Sent s
    → Going Between (handle_event e a s)
unfolding handle_event
handle_event-Between none a s h = (h.0, λ p. absurd (h.1 p))
handle_event-Between (some e) a s h = on_event-Between _ e a _ (ground arith) (ground arith)

turn-Between : (t : Turn) (s : Engine) → Fresh s → Going Between (turn t s)
unfolding turn
turn-Between t s h =
    >>=-Going Sent Between _ _
      (>>=-Going Fresh Sent _ _ (run_callback-Fresh t.callback t.answers s h)
        (register-Sent t.answers))
      (λ s₁ h₁. handle_event-Between t.event t.answers (automatic s₁) (ground arith))

>>=-Once :
    (o : Outcome) (f : Engine → Outcome)
    → Going Between o
    → ((s : Engine) → Between s → Always Once (f s))
    → Always Once (o >>= f)
>>=-Once (running s) f h k = k s h
>>=-Once (returned rc s) f h k = h
>>=-Once fault f h k = tt

run-Once : (ts : List Turn) (s : Engine) → Between s → Always Once (run ts s)
run-Once [] s h = unfold run in ground arith
run-Once (t ∷ ts) s h = elim (Bool-cases s.quit) [
  | inl q ↦ unfold run in ground arith
  | inr q ↦
      rw (run-cons t ts s q)
        (>>=-Once (turn t s) (run ts) (turn-Between t s (h.0, λ p. h.1 p q)) (run-Once ts))
]

-- However the thread is driven, it sends at most one initial registration, also when it is asked
-- to shut down before it has registered and when it is unregistered.
pub call_thread-Once :
    (c : Config) (id : ℤ) (ts : List Turn) → Always Once (call_thread id ts (initial_engine c))
unfolding call_thread
call_thread-Once c id ts = run-Once ts (start id (initial_engine c)) (ground arith)

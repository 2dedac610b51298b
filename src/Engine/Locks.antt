-- ===== src/Engine/Locks.antt =====
-- eXosip2's lock in SIPEngine/call_api.c: where it is given back and where it is kept.
use furikup.Prelude.{ℕ, ℤ, pos, negsuc, ◌+◌, Bool, Option, none, some, ◌≡◌, ◌≢◌, refl, arith, Bytes}
use furikup.Engine.Types.{
  CallState, not_registered, registered, in_call, answered, ExosipEvent, OutEvent, hangup, answer,
  reject, shutdown, new_call, change_presence, unknown, Engine, Answers, Outcome, running, returned,
  fault, ◌>>=◌, info,
}
use furikup.Engine.Control.{
  make_call, answer_call, hangup_call, disconnect_sip_server, publish_presence, gui_callback,
  call_address, call_out, reply,
}
use furikup.Engine.Events.{on_event}
use furikup.Engine.Thread.{
  Turn, run_callback, register_if_needed, handle_event, turn, automatic, drop_code,
}
use furikup.Engine.Trace.{total, is_lock, is_unlock}

-- The lock has been taken `n` times more often than it has been given back.
abbrev pub Holds : ℕ → Engine → Type 0
Holds n s = total is_lock s.trace ≡ total is_unlock s.trace + n

-- A thread that goes on, or returns -1, has given back all it took. One that returns 0 from inside
-- its loop still holds the lock once.
abbrev pub Balanced : Outcome → Type 0
Balanced (running s) = Holds 0 s
Balanced (returned (negsuc _) s) = Holds 0 s
Balanced (returned (pos _) s) = Holds 1 s
Balanced fault = Unit {0}

-- What the GUI's callback returns, with its code, is no return of the thread.
abbrev pub Kept : Outcome → Type 0
Kept (running s) = Holds 0 s
Kept (returned _ s) = Holds 0 s
Kept fault = Unit {0}

make_call-Kept : (user : Bytes) (a : Answers) (s : Engine) → Holds 0 s → Kept (make_call user a s)
unfolding make_call
make_call-Kept user a s h = ground arith

answer_call-Kept : (a : Answers) (s : Engine) → Holds 0 s → Kept (answer_call a s)
unfolding answer_call
answer_call-Kept a s h = ground arith

hangup_call-Holds : (s : Engine) → Holds 0 s → Holds 0 (hangup_call s)
unfolding hangup_call
hangup_call-Holds s h = ground arith

publish_presence-Kept :
    (z : ℤ) (a : Answers) (s : Engine) → Holds 0 s → Kept (publish_presence z a s)
unfolding publish_presence
publish_presence-Kept z a s h = ground arith

call_out-Kept : (o : Option Bytes) (a : Answers) (s : Engine) → Holds 0 s → Kept (call_out o a s)
unfolding info
call_out-Kept none a s h = tt
call_out-Kept (some user) a s h = make_call-Kept user a _ (ground arith)

reply-Kept : (done : Bool) (rc : ℤ) (o : Outcome) → Kept o → Kept (reply done rc o)
reply-Kept done rc (running s) h = h
reply-Kept done rc (returned _ s) h = h
reply-Kept done rc fault h = tt

gui_callback-Kept :
    (e : OutEvent) (a : Answers) (s : Engine) → e ≢ shutdown → Holds 0 s → Kept (gui_callback e a s)
unfolding gui_callback
gui_callback-Kept (new_call u) a s n h = reply-Kept _ _ _ (call_out-Kept (call_address u) a s h)
gui_callback-Kept answer a s n h = reply-Kept _ _ _ (answer_call-Kept a s h)
gui_callback-Kept reject a s n h = hangup_call-Holds s h
gui_callback-Kept hangup a s n h = hangup_call-Holds s h
gui_callback-Kept (change_presence z) a s n h = reply-Kept _ _ _ (publish_presence-Kept z a s h)
gui_callback-Kept shutdown a s n h = absurd (n refl)
gui_callback-Kept (unknown n) a s _ h = h

run_callback-Balanced :
    (e : Option OutEvent) (a : Answers) (s : Engine)
    → e ≢ some shutdown
    → Holds 0 s
    → Balanced (run_callback e a s)
unfolding run_callback
run_callback-Balanced none a s n h = h
run_callback-Balanced (some e) a s n h =
    drop (gui_callback e a s) (gui_callback-Kept e a s (λ p. n (λ i. some (p i))) h)
  where
    drop : (o : Outcome) → Kept o → Balanced (drop_code o)
    drop (running t) k = k
    drop (returned rc t) k = k
    drop fault k = tt

on_event-Balanced :
    (c : CallState) (e : ExosipEvent) (a : Answers) (s : Engine)
    → Holds 0 s
    → Balanced (on_event c e a s)
unfolding on_event
on_event-Balanced not_registered e a s h = h
on_event-Balanced _ e a s h = ground arith

register_if_needed-Balanced :
    (a : Answers) (s : Engine) → Holds 0 s → Balanced (register_if_needed a s)
unfolding register_if_needed
register_if_needed-Balanced a s h = ground arith

handle_event-Balanced :
    (e : Option ExosipEvent) (a : Answers) (s : Engine) → Holds 0 s → Balanced (handle_event e a s)
unfolding handle_event
handle_event-Balanced none a s h = h
handle_event-Balanced (some e) a s h = on_event-Balanced _ e a _ (ground arith)

>>=-Balanced :
    (o : Outcome) (f : Engine → Outcome)
    → Balanced o
    → ((s : Engine) → Holds 0 s → Balanced (f s))
    → Balanced (o >>= f)
>>=-Balanced (running s) f h k = k s h
>>=-Balanced (returned rc s) f h k = h
>>=-Balanced fault f h k = tt

-- A turn of the thread's loop in which the GUI does not shut the engine down, begun with the lock
-- free, ends with it free; so does a thread that gives up because its registration was refused. A
-- thread that returns because a subscription could not be answered leaves the lock taken once.
pub turn-Balanced :
    (t : Turn) (s : Engine) → t.callback ≢ some shutdown → Holds 0 s → Balanced (turn t s)
unfolding turn
turn-Balanced t s n h =
    >>=-Balanced _ _
      (>>=-Balanced _ _ (run_callback-Balanced t.callback t.answers s n h)
        (register_if_needed-Balanced t.answers))
      (λ s₁ h₁. handle_event-Balanced t.event t.answers (automatic s₁) (ground arith))

-- How often `disconnectSipServer` takes the lock without giving it back.
abbrev pub kept_locks : CallState → ℕ
kept_locks registered = 2
kept_locks in_call = 2
kept_locks answered = 2
kept_locks _ = 0

-- Shutting the engine down takes the lock twice more than it gives it back if the engine is
-- registered, in a call that it placed, or in an established call; in the other states the lock is
-- left as it was.
pub disconnect_sip_server-Holds :
    (s : Engine) (n : ℕ)
    → Holds n s
    → Holds (n + kept_locks s.current_state) (disconnect_sip_server s)
unfolding disconnect_sip_server
disconnect_sip_server-Holds s n h = ground arith

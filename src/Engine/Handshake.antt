-- ===== src/Engine/Handshake.antt =====
-- SIPEngine/call_api.c: what `SIPEngineDoEvent` may rely on.
use furikup.Prelude.{
  ℤ, pos, negsuc, Bool, true, false, Option, none, some, ◌≡◌, ◌≢◌, refl, ap, arith, Bytes,
}
use furikup.Engine.Types.{
  CallState, not_registered, disconnecting, ExosipEvent, OutEvent, hangup, answer, reject, shutdown,
  new_call, change_presence, unknown, Engine, Answers, Outcome, running, returned, fault, info,
}
use furikup.Engine.Control.{
  call_out, reply, make_call, answer_call, hangup_call, publish_presence, gui_callback,
  call_address,
}
use furikup.Engine.Events.{on_event}
use furikup.Engine.Thread.{
  Turn, drop_code, run_callback, register_if_needed, handle_event, turn, automatic,
}
use furikup.Engine.Trace.{Always, >>=-Always}

abbrev pub is_disconnecting : CallState → Bool
is_disconnecting disconnecting = true
is_disconnecting _ = false

-- The thread has no reason to end, and `callback_done` is b.
pub record IsQuiet (b : Bool) (s : Engine) : Type 0 where
  pub done : s.callback_done ≡ b
  pub going : s.quit ≡ false
  pub staying : is_disconnecting s.current_state ≡ false

make_call-IsQuiet :
    (b : Bool) (user : Bytes) (a : Answers) (s : Engine)
    → IsQuiet b s
    → Always (IsQuiet b) (make_call user a s)
unfolding make_call
make_call-IsQuiet b user a s h = ground arith

answer_call-IsQuiet :
    (b : Bool) (a : Answers) (s : Engine) → IsQuiet b s → Always (IsQuiet b) (answer_call a s)
unfolding answer_call
answer_call-IsQuiet b a s h = ground arith

hangup_call-IsQuiet : (b : Bool) (s : Engine) → IsQuiet b s → IsQuiet b (hangup_call s)
unfolding hangup_call
hangup_call-IsQuiet b s h = ground arith

publish_presence-IsQuiet :
    (b : Bool) (z : ℤ) (a : Answers) (s : Engine)
    → IsQuiet b s
    → Always (IsQuiet b) (publish_presence z a s)
unfolding publish_presence
publish_presence-IsQuiet b z a s h = ground arith

call_out-IsQuiet :
    (b : Bool) (o : Option Bytes) (a : Answers) (s : Engine)
    → IsQuiet b s
    → Always (IsQuiet b) (call_out o a s)
unfolding info
call_out-IsQuiet b none a s h = tt
call_out-IsQuiet b (some user) a s h = make_call-IsQuiet b user a _ (ground arith)

reply-IsQuiet :
    (b : Bool) (rc : ℤ) (o : Outcome)
    → Always (IsQuiet b) o
    → Always (IsQuiet true) (reply true rc o)
reply-IsQuiet b rc (running s) h = record { done = refl; going = h.going; staying = h.staying }
reply-IsQuiet b rc (returned _ s) h = record { done = refl; going = h.going; staying = h.staying }
reply-IsQuiet b rc fault h = tt

gui_callback-IsQuiet :
    (b : Bool) (e : OutEvent) (a : Answers) (s : Engine)
    → e ≢ shutdown
    → IsQuiet b s
    → Always (IsQuiet true) (gui_callback e a s)
unfolding gui_callback
gui_callback-IsQuiet b (new_call u) a s n h =
    reply-IsQuiet b _ _ (call_out-IsQuiet b (call_address u) a s h)
gui_callback-IsQuiet b answer a s n h = reply-IsQuiet b _ _ (answer_call-IsQuiet b a s h)
gui_callback-IsQuiet b reject a s n h =
    reply-IsQuiet b (pos 0) (running _) (hangup_call-IsQuiet b s h)
gui_callback-IsQuiet b hangup a s n h =
    reply-IsQuiet b (pos 0) (running _) (hangup_call-IsQuiet b s h)
gui_callback-IsQuiet b (change_presence z) a s n h =
    reply-IsQuiet b _ _ (publish_presence-IsQuiet b z a s h)
gui_callback-IsQuiet b shutdown a s n h = absurd (n refl)
gui_callback-IsQuiet b (unknown i) a s n h = reply-IsQuiet b (negsuc 0) (running _) h

Always-drop_code : (P : Engine → Type 0) (o : Outcome) → Always P o → Always P (drop_code o)
Always-drop_code P (running s) h = h
Always-drop_code P (returned rc s) h = h
Always-drop_code P fault h = h

-- What the callback brings about and the rest of the turn keeps, the turn brings about.
turn-Always :
    (Q : Engine → Type 0) (t : Turn) (s : Engine)
    → Always Q (run_callback t.callback t.answers s)
    → ((u : Engine) → Q u → Always Q (register_if_needed t.answers u))
    → ((u : Engine) → Q u → Always Q (handle_event t.event t.answers (automatic u)))
    → Always Q (turn t s)
unfolding turn
turn-Always Q t s h r k = >>=-Always Q _ _ (>>=-Always Q _ _ h r) k

on_event-IsQuiet :
    (b : Bool) (c : CallState) (e : ExosipEvent) (a : Answers) (s : Engine)
    → s.current_state ≡ c
    → IsQuiet b s
    → Always (IsQuiet b) (on_event c e a s)
unfolding on_event
on_event-IsQuiet b not_registered e a s p h = h
on_event-IsQuiet b disconnecting e a s p h = absurd (ground arith)
on_event-IsQuiet b _ e a s p h = ground arith

register_if_needed-IsQuiet :
    (b : Bool) (a : Answers) (s : Engine)
    → IsQuiet b s
    → Always (IsQuiet b) (register_if_needed a s)
unfolding register_if_needed
register_if_needed-IsQuiet b a s h = ground arith

handle_event-IsQuiet :
    (b : Bool) (e : Option ExosipEvent) (a : Answers) (s : Engine)
    → IsQuiet b s
    → Always (IsQuiet b) (handle_event e a s)
unfolding handle_event
handle_event-IsQuiet b none a s h = h
handle_event-IsQuiet b (some e) a s h = on_event-IsQuiet b _ e a _ (ground arith) (ground arith)

run_callback-IsQuiet :
    (b : Bool) (e : OutEvent) (a : Answers) (s : Engine)
    → e ≢ shutdown
    → IsQuiet b s
    → Always (IsQuiet true) (run_callback (some e) a s)
unfolding run_callback
run_callback-IsQuiet b e a s n h =
    Always-drop_code (IsQuiet true) (gui_callback e a s) (gui_callback-IsQuiet b e a s n h)

pub turn-IsQuiet :
    (b : Bool) (t : Turn) (s : Engine)
    → Always (IsQuiet b) (run_callback t.callback t.answers s)
    → Always (IsQuiet b) (turn t s)
turn-IsQuiet b t s h =
    turn-Always (IsQuiet b) t s h (register_if_needed-IsQuiet b t.answers) (λ u k.
      handle_event-IsQuiet b t.event t.answers (automatic u)
        (record { done = k.done; going = k.going; staying = k.staying }))

-- The callback of `SUI_OUT_EVENT_SHUTDOWN` leaves its caller waiting.
abbrev pub IsUndone : Engine → Type 0
IsUndone s = s.callback_done ≡ false

register_if_needed-IsUndone :
    (a : Answers) (s : Engine) → IsUndone s → Always IsUndone (register_if_needed a s)
unfolding register_if_needed
register_if_needed-IsUndone a s h = ground arith

on_event-IsUndone :
    (c : CallState) (e : ExosipEvent) (a : Answers) (s : Engine)
    → IsUndone s
    → Always IsUndone (on_event c e a s)
unfolding on_event
on_event-IsUndone not_registered e a s h = h
on_event-IsUndone _ e a s h = ground arith

handle_event-IsUndone :
    (e : Option ExosipEvent) (a : Answers) (s : Engine)
    → IsUndone s
    → Always IsUndone (handle_event e a s)
unfolding handle_event
handle_event-IsUndone none a s h = h
handle_event-IsUndone (some e) a s h = on_event-IsUndone _ e a _ (ground arith)

shutdown-IsUndone : (a : Answers) (s : Engine) → Always IsUndone (run_callback (some shutdown) a s)
unfolding run_callback gui_callback
shutdown-IsUndone a s = refl

pub turn-IsUndone :
    (t : Turn) (s : Engine)
    → Always IsUndone (run_callback t.callback t.answers s)
    → Always IsUndone (turn t s)
turn-IsUndone t s h =
    turn-Always IsUndone t s h (register_if_needed-IsUndone t.answers)
      (λ u k. handle_event-IsUndone t.event t.answers (automatic u) k)

abbrev pub is_shutdown : OutEvent → Bool
is_shutdown shutdown = true
is_shutdown _ = false

pub served_turn-IsQuiet :
    (b : Bool) (e : OutEvent) (t : Turn) (s : Engine)
    → t.callback ≡ some e
    → is_shutdown e ≡ false
    → IsQuiet b s
    → Always (IsQuiet true) (turn t s)
served_turn-IsQuiet b e t s c n h =
    turn-IsQuiet true t s
      (rw c (run_callback-IsQuiet b e t.answers s (λ p. ground (arith, ap is_shutdown p)) h))

pub silent_turn-IsQuiet :
    (b : Bool) (t : Turn) (s : Engine)
    → t.callback ≡ none
    → IsQuiet b s
    → Always (IsQuiet b) (turn t s)
unfolding run_callback
silent_turn-IsQuiet b t s c h = turn-IsQuiet b t s (rw c h)

pub shutdown_turn-IsUndone :
    (e : OutEvent) (t : Turn) (s : Engine)
    → t.callback ≡ some e
    → is_shutdown e ≡ true
    → Always IsUndone (turn t s)
shutdown_turn-IsUndone shutdown t s c n = turn-IsUndone t s (rw c (shutdown-IsUndone t.answers s))
shutdown_turn-IsUndone _ t s c n = absurd (ground arith)

pub silent_turn-IsUndone :
    (t : Turn) (s : Engine) → t.callback ≡ none → IsUndone s → Always IsUndone (turn t s)
unfolding run_callback
silent_turn-IsUndone t s c h = turn-IsUndone t s (rw c h)

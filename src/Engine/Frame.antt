-- ===== src/Engine/Frame.antt =====
-- SIPEngine/call_api.c never looks back at what it has done: the effects before a turn make no
-- difference to it.
use furikup.Prelude.{
  ℤ, pos, Bool, true, false, List, ◌++◌, Option, none, some, ◌≡◌, refl, ap, ◌∙◌, arith, Bytes,
}
use furikup.Engine.Types.{
  CallState, not_registered, ExosipEvent, OutEvent, hangup, answer, reject, shutdown, new_call,
  change_presence, unknown, Effect, Engine, Answers, Outcome, running, returned, fault, ◌>>=◌, info,
}
use furikup.Engine.Control.{
  call_out, reply, make_call, answer_call, hangup_call, disconnect_sip_server, publish_presence,
  gui_callback, call_address,
}
use furikup.Engine.Events.{on_event}
use furikup.Engine.Thread.{
  Turn, drop_code, report_response, run_callback, register_if_needed, handle_event, turn, automatic,
}

module _ (old : List Effect) where
  -- The engine with these effects before its own.
  abbrev pub on_top : Engine → Engine
  on_top s = record s { trace = s.trace ++ old }

  abbrev pub on_top_of : Outcome → Outcome
  on_top_of (running s) = running (on_top s)
  on_top_of (returned rc s) = returned rc (on_top s)
  on_top_of fault = fault

  make_call-on_top :
      (user : Bytes) (a : Answers) (s : Engine)
      → make_call user a (on_top s) ≡ on_top_of (make_call user a s)
  unfolding make_call
  make_call-on_top user a s = ground arith

  answer_call-on_top :
      (a : Answers) (s : Engine) → answer_call a (on_top s) ≡ on_top_of (answer_call a s)
  unfolding answer_call
  answer_call-on_top a s = ground arith

  hangup_call-on_top : (s : Engine) → hangup_call (on_top s) ≡ on_top (hangup_call s)
  unfolding hangup_call
  hangup_call-on_top s = ground arith

  disconnect-on_top :
      (s : Engine) → disconnect_sip_server (on_top s) ≡ on_top (disconnect_sip_server s)
  unfolding disconnect_sip_server
  disconnect-on_top s = ground arith

  publish_presence-on_top :
      (z : ℤ) (a : Answers) (s : Engine)
      → publish_presence z a (on_top s) ≡ on_top_of (publish_presence z a s)
  unfolding publish_presence
  publish_presence-on_top z a s = ground arith

  on_event-on_top :
      (c : CallState) (e : ExosipEvent) (a : Answers) (s : Engine)
      → on_event c e a (on_top s) ≡ on_top_of (on_event c e a s)
  unfolding on_event
  on_event-on_top not_registered e a s = refl
  on_event-on_top _ e a s = ground arith

  register_if_needed-on_top :
      (a : Answers) (s : Engine)
      → register_if_needed a (on_top s) ≡ on_top_of (register_if_needed a s)
  unfolding register_if_needed
  register_if_needed-on_top a s = ground arith

  reply-on_top :
      (done : Bool) (rc : ℤ) (o p : Outcome)
      → o ≡ on_top_of p
      → reply done rc o ≡ on_top_of (reply done rc p)
  reply-on_top done rc o (running s) e = ap (reply done rc) e
  reply-on_top done rc o (returned r s) e = ap (reply done rc) e
  reply-on_top done rc o fault e = ap (reply done rc) e

  call_out-on_top :
      (o : Option Bytes) (a : Answers) (s : Engine)
      → call_out o a (on_top s) ≡ on_top_of (call_out o a s)
  unfolding info
  call_out-on_top none a s = refl
  call_out-on_top (some user) a s = make_call-on_top user a _

  gui_callback-on_top :
      (e : OutEvent) (a : Answers) (s : Engine)
      → gui_callback e a (on_top s) ≡ on_top_of (gui_callback e a s)
  unfolding gui_callback
  gui_callback-on_top (new_call u) a s = reply-on_top _ _ _ _ (call_out-on_top (call_address u) a s)
  gui_callback-on_top answer a s = reply-on_top _ _ _ _ (answer_call-on_top a s)
  gui_callback-on_top reject a s =
      reply-on_top true (pos 0) _ (running (hangup_call s)) (ap running (hangup_call-on_top s))
  gui_callback-on_top hangup a s =
      reply-on_top true (pos 0) _ (running (hangup_call s)) (ap running (hangup_call-on_top s))
  gui_callback-on_top (change_presence z) a s = reply-on_top _ _ _ _ (publish_presence-on_top z a s)
  gui_callback-on_top shutdown a s =
      reply-on_top false (pos 0) _ (running (disconnect_sip_server s))
        (ap running (disconnect-on_top s))
  gui_callback-on_top (unknown n) a s = refl

  drop-on_top : (o p : Outcome) → o ≡ on_top_of p → drop_code o ≡ on_top_of (drop_code p)
  drop-on_top o (running s) e = ap drop_code e
  drop-on_top o (returned r s) e = ap drop_code e
  drop-on_top o fault e = ap drop_code e

  run_callback-on_top :
      (e : Option OutEvent) (a : Answers) (s : Engine)
      → run_callback e a (on_top s) ≡ on_top_of (run_callback e a s)
  unfolding run_callback
  run_callback-on_top none a s = refl
  run_callback-on_top (some e) a s = drop-on_top _ (gui_callback e a s) (gui_callback-on_top e a s)

  report_response-on_top :
      (status : Option ℤ) (s : Engine)
      → report_response status (on_top s) ≡ on_top (report_response status s)
  report_response-on_top none s = refl
  report_response-on_top (some z) s = refl

  handle_event-on_top :
      (e : Option ExosipEvent) (a : Answers) (s : Engine)
      → handle_event e a (on_top s) ≡ on_top_of (handle_event e a s)
  unfolding handle_event info
  handle_event-on_top none a s = refl
  handle_event-on_top (some e) a s =
      ap (λ u. on_event u.current_state e a u)
        (report_response-on_top e.status_code (info e.text_info s))
      ∙ on_event-on_top _ e a (report_response e.status_code (info e.text_info s))

  bind-on_top :
      (o p : Outcome) (f : Engine → Outcome)
      → o ≡ on_top_of p
      → ((s : Engine) → f (on_top s) ≡ on_top_of (f s))
      → (o >>= f) ≡ on_top_of (p >>= f)
  bind-on_top o (running s) f e k = ap (λ x. x >>= f) e ∙ k s
  bind-on_top o (returned rc s) f e k = ap (λ x. x >>= f) e
  bind-on_top o fault f e k = ap (λ x. x >>= f) e

  -- A turn of the thread, with any effects before it: what it does, and adds to them, is the same.
  pub turn-on_top : (t : Turn) (s : Engine) → turn t (on_top s) ≡ on_top_of (turn t s)
  unfolding turn
  turn-on_top t s =
      bind-on_top _ _ _
        (bind-on_top _ _ _ (run_callback-on_top t.callback t.answers s)
          (register_if_needed-on_top t.answers))
        (λ u. handle_event-on_top t.event t.answers (automatic u))

-- ===== src/Engine/Thread.antt =====
-- SIPEngine/call_api.c: the loop of `CallThread`, and `setupCallThread`. A turn of the loop takes
-- the GUI's pending callback, if one was notified, and the event that the wait returns, if any.
use furikup.Prelude.{
  ℤ, pos, negsuc, is_neg, true, false, List, [], ◌∷◌, Option, none, some, if◌then◌else◌, ◌▸◌, ◌≡◌,
  arith,
}
use furikup.Config.{config_get_user_uri, config_get_server_uri}
use furikup.Engine.Types.{
  registering, not_registered, ExosipEvent, startup, OutEvent, gui, lock, unlock,
  build_initial_register, set_allow, send_register, automatic_refresh, automatic_action, close_log,
  print_response, Engine, Answers, Outcome, running, returned, fault, ◌>>=◌, emit, info,
}
use furikup.Engine.Control.{change_state, is_in, gui_callback}
use furikup.Engine.Events.{on_event}

pub record Turn : Type 0 where
  pub callback : Option OutEvent
  pub event : Option ExosipEvent
  pub answers : Answers

-- `sceKernelDelayThreadCB`: a pending callback runs here, and the kernel drops its return code.
abbrev pub drop_code : Outcome → Outcome
drop_code (running s) = running s
drop_code (returned _ s) = running s
drop_code fault = fault

unfoldable pub run_callback : Option OutEvent → Answers → Engine → Outcome
unfolding gui_callback
run_callback none a s = running s
run_callback (some e) a s = drop_code (gui_callback e a s)

-- The registration, in `eNOT_REGISTERED`. A refusal returns -1 from the thread.
unfoldable pub register : Answers → Engine → Outcome
unfolding change_state
register a s₀ =
    let s = emit lock s₀ in
    elim (config_get_user_uri s.config) [
      | none ↦ fault
      | some user ↦ elim (config_get_server_uri s.config) [
        | none ↦ fault
        | some server ↦
            let built = emit (build_initial_register user server 120) s in
            if is_neg a.register_id
            then returned (negsuc 0) (emit unlock built)
            else running (
                built
                ▸ emit set_allow
                ▸ emit (send_register a.register_id)
                ▸ emit unlock
                ▸ emit (gui (startup 1))
                ▸ change_state registering)
      ]
    ]

unfoldable pub register_if_needed : Answers → Engine → Outcome
unfolding register
register_if_needed a s = if is_in not_registered s then register a s else running s

abbrev pub automatic : Engine → Engine
automatic s = s ▸ emit lock ▸ emit automatic_refresh ▸ emit automatic_action ▸ emit unlock

abbrev pub report_response : Option ℤ → Engine → Engine
report_response none s = s
report_response (some status) s = emit (print_response status) s

unfoldable pub handle_event : Option ExosipEvent → Answers → Engine → Outcome
unfolding on_event info
handle_event none a s = running s
handle_event (some e) a s₀ =
    let s = s₀ ▸ info e.text_info ▸ report_response e.status_code in on_event s.current_state e a s

-- One turn of `while (!quit)`.
unfoldable pub turn : Turn → Engine → Outcome
unfolding run_callback register_if_needed handle_event
turn t s = run_callback t.callback t.answers s >>= register_if_needed t.answers >>= λ s₁.
    handle_event t.event t.answers (automatic s₁)

-- Behind the loop.
abbrev pub finish : Engine → Outcome
finish s = returned (pos 0) (record (emit close_log s) { callback_done = true })

-- The loop over a schedule of turns: it is left by `quit`, or still runs when the schedule ends.
unfoldable pub run : List Turn → Engine → Outcome
run [] s = if s.quit then finish s else running s
run (t ∷ ts) s = elim s.quit [ true ↦ finish s | false ↦ turn t s >>= run ts ]

-- `setupCallThread` with the id that the kernel gives, and the thread up to its loop.
unfoldable pub start : ℤ → Engine → Engine
start id s = emit (gui (startup 0)) (record s { call_thid = id })

unfoldable pub call_thread : ℤ → List Turn → Engine → Outcome
unfolding start run
call_thread id ts s = run ts (start id s)

-- While the loop goes on it makes a turn, and then the rest of the schedule.
pub run-cons :
    (t : Turn) (ts : List Turn) (s : Engine)
    → s.quit ≡ false
    → run (t ∷ ts) s ≡ (turn t s >>= run ts)
unfolding run
run-cons t ts s q = ground arith

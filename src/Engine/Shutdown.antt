-- ===== src/Engine/Shutdown.antt =====
-- How the thread of SIPEngine/call_api.c ends when the GUI shuts the engine down.
use furikup.Prelude.{pos, ◌≤ℤ◌, Bool, true, false, List, [], ◌∷◌, none, some, ◌≡◌, arith}
use furikup.Engine.Types.{
  CallState, registering, registered, in_call, incoming_call, answered, disconnecting, shutdown,
  Engine, Answers, Outcome, running, returned, fault, ◌>>=◌,
}
use furikup.Engine.Control.{gui_callback}
use furikup.Engine.Thread.{Turn, turn, run, run-cons}

-- The thread has left its loop with code 0, and has released the GUI that waits for it.
abbrev pub Ended : Outcome → Type 0
Ended (returned rc s) = (rc ≡ pos 0) × (s.callback_done ≡ true) × (s.quit ≡ true)
Ended _ = ⊥

run_quit : (ts : List Turn) (s : Engine) → s.quit ≡ true → Ended (run ts s)
unfolding run
run_quit [] s q = ground arith
run_quit (t ∷ ts) s q = ground arith

-- The loop will be left.
abbrev Quits : Outcome → Type 0
Quits (running s) = s.quit ≡ true
Quits _ = ⊥

run-Quits : (ts : List Turn) (o : Outcome) → Quits o → Ended (o >>= run ts)
run-Quits ts (running u) h = run_quit ts u h
run-Quits ts (returned rc u) h = absurd h
run-Quits ts fault h = absurd h

-- The turn in which the GUI's request to shut down is served, and no event comes in.
abbrev pub shutdown_turn : Answers → Turn
shutdown_turn a = record { callback = some shutdown; event = none; answers = a }

abbrev pub is_connected : CallState → Bool
is_connected registered = true
is_connected in_call = true
is_connected answered = true
is_connected _ = false

abbrev pub is_leaving : CallState → Bool
is_leaving registering = true
is_leaving incoming_call = true
is_leaving disconnecting = true
is_leaving _ = false

leaving-Quits :
    (a : Answers) (s : Engine)
    → is_leaving s.current_state ≡ true
    → pos 1 ≤ℤ s.call_thid
    → Quits (turn (shutdown_turn a) s)
unfolding turn
leaving-Quits a s l i = ground arith

-- Shutting the engine down while it registers, disconnects, or has a call waiting to be answered
-- ends its running thread with code 0 at the end of that turn, with nothing sent to the server: the
-- waiting call is neither answered nor rejected.
pub shutdown_leaving_ends :
    (a : Answers) (ts : List Turn) (s : Engine)
    → is_leaving s.current_state ≡ true
    → pos 1 ≤ℤ s.call_thid
    → s.quit ≡ false
    → Ended (run (shutdown_turn a ∷ ts) s)
      × ((gui_callback shutdown a s)
          ≡ returned (pos 0) (record s { quit = true; callback_done = false }))
unfolding gui_callback
shutdown_leaving_ends a ts s l i q = (
  rw (run-cons (shutdown_turn a) ts s q)
      (run-Quits ts (turn (shutdown_turn a) s) (leaving-Quits a s l i)),
  ground arith,
)

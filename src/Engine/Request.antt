-- ===== src/Engine/Request.antt =====
-- SIPEngine/call_api.c: `SIPEngineDoEvent`, called by the thread of the interface, beside the thread
-- of the engine. `GuiCallback` runs at the head of a turn.
use furikup.Prelude.{Bool, true, false, List, [], ◌∷◌, Option, none, some, ◌≡◌}
use furikup.Engine.Types.{OutEvent, Engine, Outcome, running, returned, fault}
use furikup.Engine.Thread.{Turn, turn, finish}

-- Where the interface stands: outside the function, or in `while (!callback_done)`.
pub data Requester : Type 0 where
  idle : Requester
  waiting : OutEvent → Requester

-- `pending`: the event of a callback that was notified and has not run. `thread`: the engine between
-- two turns, or when its thread has returned. The events asked for, and those whose callback has run,
-- the latest first.
pub record Session : Type 0 where
  pub requester : Requester
  pub pending : Option OutEvent
  pub thread : Outcome
  pub asked : List OutEvent
  pub served : List OutEvent

-- The thread was started, and has its callback.
abbrev pub session_of : Engine → Session
session_of s = record {
  requester = idle;
  pending = none;
  thread = running s;
  asked = [];
  served = [];
}

-- `sceKernelNotifyCallback`, and then the loop.
unfoldable pub notify_callback : OutEvent → Session → Session
notify_callback e x = record x { requester = waiting e; pending = some e; asked = e ∷ x.asked }

abbrev pub with_pending : Option OutEvent → List OutEvent → List OutEvent
with_pending none es = es
with_pending (some e) es = e ∷ es

-- The engine makes a turn, in which it runs the callback that is pending.
unfoldable pub serve : Turn → Engine → Session → Session
unfolding turn
serve t s x = record x {
  pending = none;
  thread = turn t s;
  served = with_pending x.pending x.served;
}

-- The engine leaves its loop.
unfoldable pub end_thread : Engine → Session → Session
end_thread s x = record x { thread = finish s }

abbrev pub is_done : Outcome → Bool
is_done (running s) = s.callback_done
is_done (returned rc s) = s.callback_done
is_done fault = false

abbrev pub clear_done : Outcome → Outcome
clear_done (running s) = running (record s { callback_done = false })
clear_done (returned rc s) = returned rc (record s { callback_done = false })
clear_done fault = fault

-- The interface leaves the loop, and `callback_done = 0;`.
unfoldable pub release : Session → Session
release x = record x { requester = idle; thread = clear_done x.thread }

-- What can happen next.
pub data Step (x : Session) : Session → Type 0 where
  notified : (e : OutEvent) → x.requester ≡ idle → Step x (notify_callback e x)
  turned :
      (t : Turn) (s : Engine)
      → x.thread ≡ running s
      → s.quit ≡ false
      → t.callback ≡ x.pending
      → Step x (serve t s x)
  ended : (s : Engine) → x.thread ≡ running s → s.quit ≡ true → Step x (end_thread s x)
  released : (e : OutEvent) → x.requester ≡ waiting e → is_done x.thread ≡ true → Step x (release x)

pub data Reach (x : Session) : Session → Type 0 where
  here : Reach x x
  next : {y z : Session} → Reach x y → Step y z → Reach x z

-- ===== src/Phone/System.antt =====
-- The thread of `main` in SIPTextGUI/text_gui.c, from its loop on, beside the thread of the engine.
-- `main` makes a step between one call of `SIPEngineDoEvent`, or one look at the buttons, and the
-- next; the engine makes a turn, whose events the interface has handled at its end.
use furikup.Prelude.{ℤ, true, false, List, [], some, ◌≡◌, codes}
use furikup.Config.{Config}
use furikup.Engine.{
  OutEvent, shutdown, Effect, Engine, Outcome, running, returned, fault, initial_engine, Turn, turn,
  start, Session, session_of, notify_callback, serve, end_thread, release, is_done,
}
use furikup.Gui.{
  Gui, status_message, deliver, Button, press_global, display_menu, Branch, handled, asks,
  before_request, after_request,
}

-- Where `main` stands: at the head of its loop, in the wait for the release of the buttons, in
-- `SIPEngineDoEvent` for a button or behind the loop, or behind `sceKernelExitGame`.
pub data Place : Type 0 where
  at_head holding : Place
  asking : Branch → Button → Place
  quitting gone : Place

pub record Phone : Type 0 where
  pub gui : Gui
  pub place : Place
  pub session : Session

abbrev pub phone_of : Config → ℤ → Gui → Phone
phone_of c id g = record {
  gui = g;
  place = at_head;
  session = session_of (start id (initial_engine c));
}

-- The engine with no effects behind it, so that the trace of a turn is what the turn does.
abbrev pub fresh : Engine → Engine
fresh s = record s { trace = [] }

abbrev pub effects_of : Outcome → List Effect
effects_of (running s) = s.trace
effects_of (returned rc s) = s.trace
effects_of fault = []

unfoldable pub effects_of_turn : Turn → Engine → List Effect
unfolding turn
effects_of_turn t s = effects_of (turn t (fresh s))

-- What can happen next, where nothing in the interface goes wrong.
pub data Step (x : Phone) : Phone → Type 0 where
  -- the engine
  turned :
      (t : Turn) (s : Engine) (g : Gui)
      → x.session.thread ≡ running s
      → s.quit ≡ false
      → t.callback ≡ x.session.pending
      → deliver (effects_of_turn t s) x.gui ≡ some g
      → Step x (record x { gui = g; session = serve t s x.session })
  ended :
      (s : Engine)
      → x.session.thread ≡ running s
      → s.quit ≡ true
      → Step x (record x { session = end_thread s x.session })
  -- the buttons, at the head of the loop
  pressed :
      (b : Button) (g h : Gui)
      → x.place ≡ at_head
      → x.gui.quit ≡ false
      → before_request b x.gui ≡ handled g
      → press_global b g ≡ some h
      → Step x (record x { gui = h; place = holding })
  asked :
      (b : Button) (br : Branch) (e : OutEvent) (g : Gui)
      → x.place ≡ at_head
      → x.gui.quit ≡ false
      → before_request b x.gui ≡ asks br e g
      → Step x (record x { gui = g; place = asking br b; session = notify_callback e x.session })
  answered :
      (b : Button) (br : Branch) (g h : Gui)
      → x.place ≡ asking br b
      → is_done x.session.thread ≡ true
      → after_request br x.gui ≡ some g
      → press_global b g ≡ some h
      → Step x (record x { gui = h; place = holding; session = release x.session })
  drawn :
      (g : Gui)
      → x.place ≡ at_head
      → x.gui.quit ≡ false
      → display_menu x.gui ≡ some g
      → Step x (record x { gui = g })
  let_go :
      (g : Gui)
      → x.place ≡ holding
      → display_menu x.gui ≡ some g
      → Step x (record x { gui = g; place = at_head })
  -- the exit callback
  exited : Step x (record x { gui = record x.gui { quit = true } })
  -- behind the loop
  left :
      (g : Gui)
      → x.place ≡ at_head
      → x.gui.quit ≡ true
      → status_message (codes "Quitting...") x.gui ≡ some g
      → Step x
          (record x { gui = g; place = quitting; session = notify_callback shutdown x.session })
  over :
      x.place ≡ quitting
      → is_done x.session.thread ≡ true
      → Step x (record x { place = gone; session = release x.session })

pub data Reach (x : Phone) : Phone → Type 0 where
  here : Reach x x
  next : {y z : Phone} → Reach x y → Step y z → Reach x z

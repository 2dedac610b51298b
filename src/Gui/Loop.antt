-- ===== src/Gui/Loop.antt =====
-- SIPTextGUI/text_gui.c: the loop of `main`, from the first redraw to the end of the program.
use furikup.Prelude.{
  Bool, true, false, ◌||◌, List, [], ◌∷◌, Option, none, some, codes, if◌then◌else◌,
}
use furikup.Engine.{InEvent, OutEvent, shutdown}
use furikup.Gui.Types.{Gui, ◌>>=◌}
use furikup.Gui.Status.{status_message}
use furikup.Gui.Handler.{handle}
use furikup.Gui.Buttons.{Button, press}
use furikup.Gui.Screen.{display_menu}

-- What the loop meets at one look at the buttons: the engine's events since the last look, whether
-- the exit callback has run, and the buttons, `none` for none.
pub record Look : Type 0 where
  pub events : List InEvent
  pub exit : Bool
  pub buttons : Option Button

-- Where the loop stands: at its head, or where it waits for the buttons to be released.
pub data Mode : Type 0 where
  idle held : Mode

pub data Progress : Type 0 where
  waiting : Mode → Gui → Progress
  finished : Gui → Progress
  fault : Progress

unfoldable pub handle_all : List InEvent → Gui → Option Gui
unfolding handle
handle_all [] g = some g
handle_all (e ∷ es) g = handle e g >>= handle_all es

abbrev pub exit_callback : Bool → Gui → Gui
exit_callback ran g = record g { quit = g.quit || ran }

abbrev pub meanwhile : Look → Gui → Option Gui
meanwhile x g = elim (handle_all x.events g) [
  | none ↦ none
  | some h ↦ some (exit_callback x.exit h)
]

abbrev pub mode_after : Option Button → Mode
mode_after none = idle
mode_after (some b) = held

module _ (do_event : OutEvent → Gui → Option Gui) where
  -- Behind the loop.
  abbrev pub say_goodbye : Option Gui → Progress
  say_goodbye none = fault
  say_goodbye (some g) = elim (status_message (codes "Quitting...") g >>= do_event shutdown) [
    | none ↦ fault
    | some h ↦ finished h
  ]

  -- `quit` is seen: the wait for the buttons ends with the menu, and the loop at its head.
  abbrev pub leave : Mode → Gui → Progress
  leave idle g = say_goodbye (some g)
  leave held g = say_goodbye (display_menu g)

  -- A press is handled where the loop was idle; the others are waited out.
  abbrev pub react : Option Button → Mode → Gui → Option Gui
  react none m g = display_menu g
  react (some b) idle g = press do_event b g
  react (some b) held g = some g

  unfoldable pub main_loop : List Look → Mode → Gui → Progress
  unfolding handle_all press display_menu
  main_loop [] m g = if g.quit then leave m g else waiting m g
  main_loop (x ∷ xs) m g = elim g.quit [
    | true ↦ leave m g
    | false ↦ elim (meanwhile x g >>= react x.buttons m) [
      | none ↦ fault
      | some h ↦ main_loop xs (mode_after x.buttons) h
    ]
  ]

-- ===== src/Gui/Presses.antt =====
-- The buttons in the loop of `main` in SIPTextGUI/text_gui.c.
use furikup.Prelude.{
  Bool, true, false, ◌||◌, List, [], ◌∷◌, ◌++◌, map, Option, none, some, if◌then◌else◌, ◌≡◌, refl,
  ap, ◌∙◌, arith,
}
use furikup.Engine.{OutEvent}
use furikup.Gui.Types.{Gui, ◌>>=◌}
use furikup.Gui.Buttons.{Button, start, press}
use furikup.Gui.Screen.{display_menu}
use furikup.Gui.Loop.{
  Look, Mode, idle, held, Progress, fault, waiting, handle_all, meanwhile, react, mode_after,
  say_goodbye, leave, main_loop,
}

-- A look at the buttons in between which nothing else happens.
abbrev pub seen : Option Button → Look
seen b = record { events = []; exit = false; buttons = b }

abbrev pub seen_held : Button → Look
seen_held b = seen (some b)

or_false : (b : Bool) → (b || false) ≡ b
or_false true = refl
or_false false = refl

meanwhile-seen : (b : Option Button) (g : Gui) → meanwhile (seen b) g ≡ some g
unfolding handle_all
meanwhile-seen b g = ap (λ q. some (record g { quit = q })) (or_false g.quit)

module _ (do_event : OutEvent → Gui → Option Gui) where
  abbrev pub go_on : List Look → Mode → Option Gui → Progress
  go_on xs m none = fault
  go_on xs m (some g) = main_loop do_event xs m g

  elim-go_on :
      (xs : List Look) (m : Mode) (o : Option Gui)
      → (elim o [ none ↦ fault | some h ↦ main_loop do_event xs m h ]) ≡ go_on xs m o
  elim-go_on xs m none = refl
  elim-go_on xs m (some h) = refl

  main_loop-seen :
      (b : Option Button) (xs : List Look) (m : Mode) (g : Gui)
      → g.quit ≡ false
      → main_loop do_event (seen b ∷ xs) m g ≡ go_on xs (mode_after b) (react do_event b m g)
  unfolding main_loop
  main_loop-seen b xs m g q =
      ap
        (λ r. elim r [
          | true ↦ leave do_event m g
          | false ↦ elim (meanwhile (seen b) g >>= react do_event b m) [
            | none ↦ fault
            | some h ↦ main_loop do_event xs (mode_after b) h
          ]
        ])
        q
      ∙ elim-go_on xs (mode_after b) (meanwhile (seen b) g >>= react do_event b m)
      ∙ ap (λ o. go_on xs (mode_after b) (o >>= react do_event b m)) (meanwhile-seen b g)

  -- Behind a press the loop waits until the buttons are released, then it draws the menu.
  held_out :
      (bs : List Button) (xs : List Look) (g : Gui)
      → g.quit ≡ false
      → main_loop do_event (map seen_held bs ++ seen none ∷ xs) held g
        ≡ go_on xs idle (display_menu g)
  held_out [] xs g q = main_loop-seen none xs held g q
  held_out (b ∷ bs) xs g q =
      main_loop-seen (some b) (map seen_held bs ++ seen none ∷ xs) held g q ∙ held_out bs xs g q

  -- Buttons that are pressed while the loop is idle, and then held, or changed, for any number of
  -- looks before they are released, with nothing else happening: the first of them is handled, once,
  -- and then the menu is drawn, if the handling neither fails nor ends the program.
  pub main_loop-press :
      (b : Button) (bs : List Button) (xs : List Look) (g h : Gui)
      → g.quit ≡ false
      → press do_event b g ≡ some h
      → h.quit ≡ false
      → main_loop do_event (seen_held b ∷ map seen_held bs ++ seen none ∷ xs) idle g
        ≡ go_on xs idle (display_menu h)
  main_loop-press b bs xs g h q e r =
      main_loop-seen (some b) (map seen_held bs ++ seen none ∷ xs) idle g q
      ∙ ap (go_on (map seen_held bs ++ seen none ∷ xs) held) e
      ∙ held_out bs xs h r

  press-start : (g : Gui) → press do_event start g ≡ some (record g { quit = true })
  unfolding press
  press-start g = ground arith

  left :
      (xs : List Look) (g : Gui)
      → g.quit ≡ true
      → main_loop do_event xs held g ≡ say_goodbye do_event (display_menu g)
  unfolding main_loop
  left [] g q = ap (λ r. if r then say_goodbye do_event (display_menu g) else waiting held g) q
  left (x ∷ xs) g q =
      ap
        (λ r. elim r [
          | true ↦ leave do_event held g
          | false ↦ elim (meanwhile x g >>= react do_event x.buttons held) [
            | none ↦ fault
            | some h ↦ main_loop do_event xs (mode_after x.buttons) h
          ]
        ])
        q

  -- START, in every state: the program ends, whatever the buttons do next, with the menu drawn and
  -- the engine asked to shut down behind the last message.
  pub main_loop-start :
      (xs : List Look) (g : Gui)
      → g.quit ≡ false
      → main_loop do_event (seen_held start ∷ xs) idle g
        ≡ say_goodbye do_event (display_menu (record g { quit = true }))
  main_loop-start xs g q =
      main_loop-seen (some start) xs idle g q
      ∙ ap (go_on xs held) (press-start g)
      ∙ left xs (record g { quit = true }) refl

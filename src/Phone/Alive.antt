-- ===== src/Phone/Alive.antt =====
-- SIPTextGUI/text_gui.c with SIPEngine/call_api.c: with contacts to show, and texts that fit, `main`
-- does what the buttons ask, and comes back from `SIPEngineDoEvent`.
use furikup.Prelude.{
  ap, ◌∙◌, ◌||◌, Bool, ℤ, false, List, [], ◌∷◌, Option, none, some, ◌≡◌, refl, arith,
}
use mathlib.Core.Path.{subst}
use furikup.Config.{Config}
use furikup.Engine.{OutEvent, notify_callback, Effect, Engine, is_done}
use furikup.Gui.{
  Gui, deliver, deliver_one, Button, press_global, Branch, Pressed, failed, handled, asks,
  before_request, after_request,
}
use furikup.Gui.Well.{
  IsWell, Goes, >>=-Goes, IsWell-SameMenu, IsShort, handle-IsWell, status_message-IsWell,
}
use furikup.Gui.Pressing.{GoesOn, before_request-GoesOn}
use furikup.Gui.Drawn.{after_request-IsWell, press_global-IsWell, display_menu-IsWell}
use furikup.Gui.Keys.{
  meaning, IsRequest, is_start, infos_after, IsMeant, IsGlobal, before_request-IsMeant,
  press_global-IsGlobal,
}
use furikup.Phone.System.{
  at_head, holding, asking, Phone, phone_of, effects_of_turn, Step, turned, ended, pressed, asked,
  answered, drawn, let_go, exited, left, over, Reach, here, next,
}

-- The texts for the interface fit.
abbrev pub AreShortEffects : List Effect → Type 0
AreShortEffects [] = Unit {0}
AreShortEffects (furikup.Engine.gui e ∷ es) = IsShort e × AreShortEffects es
AreShortEffects (_ ∷ es) = AreShortEffects es

abbrev IsShortStep : {x y : Phone} → Step x y → Type 0
IsShortStep (turned t s g r q k d) = AreShortEffects (effects_of_turn t s)
IsShortStep _ = Unit {0}

-- So do those of the turns of a run.
abbrev pub AreShortTurns : {x y : Phone} → Reach x y → Type 0
AreShortTurns here = Unit {0}
AreShortTurns (next r s) = AreShortTurns r × IsShortStep s

deliver-IsWell :
    (es : List Effect) (g : Gui) → AreShortEffects es → IsWell g → Goes IsWell (deliver es g)
unfolding deliver
deliver-IsWell [] g h w = w
deliver-IsWell (furikup.Engine.gui e ∷ es) g (h, hs) w =
    >>=-Goes IsWell IsWell (deliver es g) (deliver_one (furikup.Engine.gui e))
      (deliver-IsWell es g hs w) (λ k. handle-IsWell e k h)
deliver-IsWell (e ∷ es) g h w =
    >>=-Goes IsWell IsWell (deliver es g) (deliver_one e) (deliver-IsWell es g h w) (λ k v. v)

-- What an operation gives.
found_Goes : (P : Gui → Type 0) (o : Option Gui) → Goes P o → (g : Gui) × (o ≡ some g) × P g
found_Goes P none w = absurd w
found_Goes P (some g) w = (g, refl, w)

given-IsWell : (o : Option Gui) (g : Gui) → o ≡ some g → Goes IsWell o → IsWell g
given-IsWell o g q w = subst (Goes IsWell) q w

step-IsWell : (x y : Phone) (s : Step x y) → IsShortStep s → IsWell x.gui → IsWell y.gui
step-IsWell x y (turned t s g q k b d) h w =
    given-IsWell _ g d (deliver-IsWell (effects_of_turn t s) x.gui h w)
step-IsWell x y (ended s q k) h w = w
step-IsWell x y (pressed b g i a n q k) h w =
    given-IsWell (press_global b g) i k
      (press_global-IsWell b g (subst GoesOn q (before_request-GoesOn b x.gui w)))
step-IsWell x y (asked b br e g a n q) h w = subst GoesOn q (before_request-GoesOn b x.gui w)
step-IsWell x y (answered b br g i a d q k) h w = given-IsWell (press_global b g) i k (
    press_global-IsWell b g
      (given-IsWell (after_request br x.gui) g q (after_request-IsWell br x.gui w)))
step-IsWell x y (drawn g a n q) h w = given-IsWell _ g q (display_menu-IsWell x.gui w)
step-IsWell x y (let_go g a q) h w = given-IsWell _ g q (display_menu-IsWell x.gui w)
step-IsWell x y exited h w = IsWell-SameMenu x.gui _ (refl, refl, refl, refl, refl) w
step-IsWell x y (left g a n q) h w =
    given-IsWell _ g q (status_message-IsWell _ x.gui (omega arith, refl) w)
step-IsWell x y (over a d) h w = w

keep-IsWell : {x y : Phone} (p : Reach x y) → AreShortTurns p → IsWell x.gui → IsWell y.gui
keep-IsWell here h w = w
keep-IsWell (next p s) (h, hs) w = step-IsWell _ _ s hs (keep-IsWell p h w)

-- `main` has taken the button for what it means: it waits for its release, or in `SIPEngineDoEvent`
-- for what it has asked.
abbrev HasTakenAs : Option Branch × Option ℤ → Button → Phone → Phone → Type 0
HasTakenAs (none, at) b x y =
    (y.place ≡ holding)
    × (y.session ≡ x.session)
    × (some y.gui.cur_pos ≡ at)
    × (y.gui.quit ≡ is_start b)
    × (y.gui.show_infos ≡ infos_after b x.gui.show_infos)
HasTakenAs (some br, at) b x y =
    (y.place ≡ asking br b)
    × (e : OutEvent) × IsRequest br x.gui e
    × (y.session ≡ notify_callback e x.session)

abbrev pub HasTaken : Button → Phone → Phone → Type 0
HasTaken b x y = HasTakenAs (meaning b x.gui) b x y

or_false : (b c : Bool) → c ≡ false → (b || c) ≡ b
or_false b c h = ground arith

take_handled :
    (x : Phone) (b : Button) (g h : Gui) (m : Option Branch × Option ℤ)
    → x.gui.quit ≡ false
    → IsMeant m x.gui (handled g)
    → IsGlobal b g h
    → HasTakenAs m b x (record x { gui = h; place = holding })
take_handled x b g h (none, at) n (p, q, r) (c, d, e) =
    (refl, refl, ap some c ∙ p, d ∙ or_false (is_start b) g.quit (q ∙ n), e ∙ ap (infos_after b) r)
take_handled x b g h (some br, at) n i j = absurd i

take_asked :
    (x : Phone) (b : Button) (br : Branch) (e : OutEvent) (g : Gui) (m : Option Branch × Option ℤ)
    → IsMeant m x.gui (asks br e g)
    → HasTakenAs m b x
        (record x { gui = g; place = asking br b; session = notify_callback e x.session })
take_asked x b br e g (none, at) i = absurd i
take_asked x b br e g (some c, at) (q, i) = (ap (λ d. asking d b) q, e, i, refl)

take :
    (x : Phone) (b : Button) (p : Pressed)
    → x.place ≡ at_head
    → x.gui.quit ≡ false
    → before_request b x.gui ≡ p
    → GoesOn p
    → IsMeant (meaning b x.gui) x.gui p
    → (y : Phone) × Step x y × HasTaken b x y
take x b failed a n q w i = absurd w
take x b (handled g) a n q w i =
    let (h, k, v) = found_Goes IsWell (press_global b g) (press_global-IsWell b g w) in
    let j : IsGlobal b g h = rw k at (press_global-IsGlobal b g) in
    (_, pressed b g h a n q k, take_handled x b g h (meaning b x.gui) n i j)
take x b (asks br e g) a n q w i =
    (_, asked b br e g a n q, take_asked x b br e g (meaning b x.gui) i)

-- From the loop of `main` on, in every order of the steps of `main` and of the engine, with an
-- interface that is well (its box has its rows, and the contacts in use, of which there are some, and
-- the cursor are in their array), and events of the engine whose texts fit into a row and have no percent
-- sign: at the head of its loop, before `quit` is seen, `main` takes every button for what it means. Connected, X asks for a call
-- of the contact under the cursor, and up and down move the cursor; while a call is placed, O asks to
-- give it up; while one comes in, X asks to answer it and O to refuse it; in a call, the triangle asks
-- to hang up. `main` then waits in `SIPEngineDoEvent` for that very request. Any other button leaves
-- the engine and the cursor alone, START sets `quit` and no other button does, SELECT switches the
-- extra messages and no other button does, and `main` waits for the release.
pub Reach-responds :
    (c : Config) (id : ℤ) (g : Gui) (x : Phone) (b : Button)
    → IsWell g
    → (p : Reach (phone_of c id g) x) → AreShortTurns p
    → x.place ≡ at_head
    → x.gui.quit ≡ false
    → (y : Phone) × Step x y × HasTaken b x y
Reach-responds c id g x b w p h a n =
    take x b (before_request b x.gui) a n refl (before_request-GoesOn b x.gui (keep-IsWell p h w))
      (before_request-IsMeant b x.gui)

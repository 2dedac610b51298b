-- ===== src/Phone/Served.antt =====
-- SIPTextGUI/text_gui.c with SIPEngine/call_api.c: how long `main` waits in `SIPEngineDoEvent`.
use furikup.Prelude.{ℤ, true, false, List, Option, none, some, ◌≡◌, ap, ◌∙◌}
use mathlib.Core.Path.{subst, sym}
use furikup.Config.{Config}
use furikup.Engine.{
  OutEvent, Engine, Outcome, running, returned, fault, Turn, turn, Requester, idle, waiting,
  is_done,
}
use furikup.Engine.Trace.{Always}
use furikup.Engine.Handshake.{IsQuiet, served_turn-IsQuiet, silent_turn-IsQuiet}
use furikup.Engine.Order.{InOrderOf, asks_shutdown, IsAnswered}
use furikup.Engine.Readable.{IsReadable, IsModest}
use furikup.Engine.Requests.{IsSafe, IsMildRequest}
use furikup.Engine.Safe.{turn-IsSafe}
use furikup.Gui.{Gui, Button, Branch}
use furikup.Gui.Kept.{HasCallable}
use furikup.Phone.System.{asking, Phone, phone_of, Reach}
use furikup.Phone.Consistent.{IsMatched, AreModest}
use furikup.Phone.Reached.{Reach-IsConsistent}

quiet_done : (c : Config) (o : Outcome) → IsSafe c o → Always (IsQuiet true) o → is_done o ≡ true
quiet_done c (running s) i h = h.done
quiet_done c (returned rc s) i h = h.done
quiet_done c fault i h = absurd i

turn_done :
    (c : Config) (t : Turn) (s : Engine) (e : OutEvent) (p : Option OutEvent)
    (xs ys : List OutEvent)
    → IsSafe c (turn t s)
    → asks_shutdown xs ≡ false
    → t.callback ≡ p
    → InOrderOf (waiting e) p (running s) xs ys
    → (s.quit ≡ false) × (is_done (turn t s) ≡ true)
turn_done c t s e none xs ys i n k (q, h) =
    let w : IsQuiet true s = subst (λ b. IsAnswered b (running s)) n h in
    (w.going, quiet_done c (turn t s) i (silent_turn-IsQuiet true t s k w))
turn_done c t s e (some f) xs ys i n k (q, l, h) = (
  h.going,
  quiet_done c (turn t s) i (served_turn-IsQuiet false f t s k (sym (ap asks_shutdown q) ∙ n) h),
)

asks_for :
    (br : Branch) (b : Button) (q : Requester) (xs : List OutEvent)
    → IsMatched (asking br b) q xs
    → asks_shutdown xs ≡ false
asks_for br b idle xs h = absurd h
asks_for br b (waiting e) xs h = h

module _ (c : Config) (x : Phone) (t : Turn) (s : Engine) (w : IsSafe c (turn t s)) where
  waiting_done :
      (br : Branch) (b : Button) (q : Requester)
      → t.callback ≡ x.session.pending
      → IsMatched (asking br b) q x.session.asked
      → InOrderOf q x.session.pending (running s) x.session.asked x.session.served
      → (s.quit ≡ false) × (is_done (turn t s) ≡ true)
  waiting_done br b idle k m h = absurd m
  waiting_done br b (waiting e) k m h =
      turn_done c t s e x.session.pending x.session.asked x.session.served w m k h

-- From the loop of `main` on, in every order of the steps of `main` and of the engine, with settings
-- that can be read, contacts that can be called, an interface that shows no connection and does not
-- ring, and offers that name mu-law and A-law five times at most: while `main` waits in
-- `SIPEngineDoEvent` for a button and the thread of the engine runs, it has not seen `quit`, and one
-- turn of it, with the callback that is pending and whatever else happens, leaves `callback_done`
-- set, for which `main` waits.
pub Reach-is_done :
    (c : Config) (id : ℤ) (g : Gui) (x : Phone) (br : Branch) (b : Button) (t : Turn) (s : Engine)
    → IsReadable c
    → g.current_state ≡ 0
    → g.ringing ≡ false
    → HasCallable g.contacts
    → (p : Reach (phone_of c id g) x) → AreModest p
    → x.place ≡ asking br b
    → x.session.thread ≡ running s
    → t.callback ≡ x.session.pending
    → IsModest t.answers.remote_sdp
    → (s.quit ≡ false) × (is_done (turn t s) ≡ true)
Reach-is_done c id g x br b t s r z n h p m a k l o =
    let i = Reach-IsConsistent c id g x r z n h p m in
    let w =
      turn-IsSafe c r t s (subst IsMildRequest (sym l) i.mild) o (subst (IsSafe c) k i.safe) in
    waiting_done c x t s w br b x.session.requester l
      (subst (λ q. IsMatched q x.session.requester x.session.asked) a i.matched)
      (subst
        (λ q. InOrderOf x.session.requester x.session.pending q x.session.asked x.session.served) k
        i.order)

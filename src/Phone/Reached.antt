-- ===== src/Phone/Reached.antt =====
-- SIPTextGUI/text_gui.c with SIPEngine/call_api.c: every step of the telephone keeps it consistent.
use furikup.Prelude.{ℤ, false, true, List, ◌∷◌, some, ◌≡◌, refl, arith, codes}
use mathlib.Core.Path.{subst, sym}
use furikup.Config.{Config}
use furikup.Engine.{
  OutEvent, shutdown, initial_engine, start, notify_callback, Requester, idle, waiting, release,
  is_done,
}
use furikup.Engine.Invariant.{Inv}
use furikup.Engine.Readable.{IsReadable}
use furikup.Engine.Requests.{IsMild}
use furikup.Gui.{Gui, Button, press_global, asks}
use furikup.Gui.Same.{SameCall, status_message-SameCall}
use furikup.Gui.Kept.{
  HasCallable, IsKept, before_request-IsKept, after_request-SameCall, press_global-SameCall,
  After-SameCall, display_menu-SameCall,
}
use furikup.Phone.System.{
  Place, at_head, holding, asking, quitting, gone, Phone, phone_of, Step, turned, ended, pressed,
  asked, answered, drawn, let_go, exited, left, over, Reach, here, next,
}
use furikup.Phone.Consistent.{
  IsMatched, IsConsistent, IsModestStep, AreModest, drew-IsConsistent, is_idle,
  notified-IsConsistent, released-IsConsistent, turned-IsConsistent, ended-IsConsistent,
}

pressed-SameCall :
    (b : Button) (f g h : Gui) → SameCall f g → press_global b g ≡ some h → SameCall f h
pressed-SameCall b f g h s q =
    let w : SameCall f h =
      rw q at (After-SameCall f g (press_global b g) s (press_global-SameCall b g)) in
    w

abbrev IsBusy : Place → Type 0
IsBusy (asking br b) = Unit {0}
IsBusy quitting = Unit {0}
IsBusy _ = ⊥

busy_waits : (p : Place) (xs : List OutEvent) → IsBusy p → IsMatched p idle xs → ⊥
busy_waits (asking br b) xs h m = m
busy_waits quitting xs h m = m
busy_waits at_head xs h m = h
busy_waits holding xs h m = h
busy_waits gone xs h m = h

module _ (c : Config) (r : IsReadable c) where
  release-IsConsistent :
      (x : Phone) (p : Place) (q : Requester)
      → IsConsistent c x
      → x.session.requester ≡ q
      → IsBusy x.place
      → is_done x.session.thread ≡ true
      → IsMatched p idle x.session.asked
      → IsConsistent c (record x { place = p; session = release x.session })
  release-IsConsistent x p idle i q n d m = absurd (
      busy_waits x.place x.session.asked n
        (subst (λ w. IsMatched x.place w x.session.asked) q i.matched))
  release-IsConsistent x p (waiting e) i q n d m = released-IsConsistent c x p e i q d m

  request-IsConsistent :
      (x : Phone) (p : Place) (e : OutEvent) (g : Gui)
      → IsConsistent c x
      → x.place ≡ at_head
      → SameCall x.gui g
      → IsMatched p (waiting e) (e ∷ x.session.asked)
      → IsMild e
      → IsConsistent c (record x { gui = g; place = p; session = notify_callback e x.session })
  request-IsConsistent x p e g i a s m n =
      let w = subst (λ z. IsMatched z x.session.requester x.session.asked) a i.matched in
      notified-IsConsistent c (record x { gui = g; place = at_head }) p e
        (drew-IsConsistent c x at_head g i s w) (is_idle x.session.requester x.session.asked w) m n

  -- Each of the ten steps.
  step-IsConsistent :
      (x y : Phone) (s : Step x y) → IsConsistent c x → IsModestStep s → IsConsistent c y
  unfolding release
  step-IsConsistent x y (turned t s g q k b d) i m = turned-IsConsistent c r x t s g i q k b d m
  step-IsConsistent x y (ended s q k) i m = ended-IsConsistent c r x s i q k
  step-IsConsistent x y (pressed b g h p n q k) i m =
      let w : SameCall x.gui g = rw q at (before_request-IsKept b x.gui i.callable) in
      drew-IsConsistent c x holding h i (pressed-SameCall b x.gui g h w k)
        (subst (λ z. IsMatched z x.session.requester x.session.asked) p i.matched)
  step-IsConsistent x y (asked b br e g p n q) i m =
      let w : IsKept x.gui (asks br e g) = rw q at (before_request-IsKept b x.gui i.callable) in
      request-IsConsistent x (asking br b) e g i p w.0 w.2 w.1
  step-IsConsistent x y (answered b br g h p d q k) i m =
      let w : SameCall x.gui g = rw q at (after_request-SameCall br x.gui) in
      drew-IsConsistent c (record x { place = holding; session = release x.session }) holding h
        (release-IsConsistent x holding x.session.requester i refl (subst IsBusy (sym p) tt) d tt)
        (pressed-SameCall b x.gui g h w k) tt
  step-IsConsistent x y (drawn g p n q) i m =
      let w : SameCall x.gui g = rw q at (display_menu-SameCall x.gui) in
      drew-IsConsistent c x x.place g i w i.matched
  step-IsConsistent x y (let_go g p q) i m =
      let w : SameCall x.gui g = rw q at (display_menu-SameCall x.gui) in
      drew-IsConsistent c x at_head g i w
        (subst (λ z. IsMatched z x.session.requester x.session.asked) p i.matched)
  step-IsConsistent x y exited i m = drew-IsConsistent c x x.place _ i (refl, refl, refl) i.matched
  step-IsConsistent x y (left g p n q) i m =
      let w : SameCall x.gui g = rw q at (status_message-SameCall (codes "Quitting...") x.gui) in
      request-IsConsistent x quitting shutdown g i p w refl tt
  step-IsConsistent x y (over p d) i m =
      release-IsConsistent x gone x.session.requester i refl (subst IsBusy (sym p) tt) d tt

  keep-IsConsistent :
      {x y : Phone} (p : Reach x y) → IsConsistent c x → AreModest p → IsConsistent c y
  keep-IsConsistent here i m = i
  keep-IsConsistent (next p s) i (m, n) = step-IsConsistent _ _ s (keep-IsConsistent p i m) n

started_lem : (c : Config) (id : ℤ) → Inv (start id (initial_engine c))
unfolding start
started_lem c id = ground arith

-- From the loop of `main` on, in every order of the steps of `main` and of the engine, with settings
-- that can be read, contacts that can be called, an interface that shows no connection and does not
-- ring, and offers that name mu-law and A-law five times at most. The requests of `main` are served
-- once each and in their order, and it waits in `SIPEngineDoEvent` for the one it stands at. The engine
-- has left no array and has its settings; it last told the interface the state it is in, and set the
-- media up exactly in an established call. The interface shows the state that it was last told, and
-- rings as it was told; a request that is pending changes no presence and calls an address of less than
-- 124 bytes; and the contacts can be called still.
pub Reach-IsConsistent :
    (c : Config) (id : ℤ) (g : Gui) (x : Phone)
    → IsReadable c
    → g.current_state ≡ 0
    → g.ringing ≡ false
    → HasCallable g.contacts
    → (p : Reach (phone_of c id g) x) → AreModest p
    → IsConsistent c x
unfolding start
Reach-IsConsistent c id g x r z n h p m =
    keep-IsConsistent c r p
      (record {
        order = (
          refl,
          record { done = refl; going = refl; staying = refl },
          λ e. absurd (ground arith),
        );
        matched = tt;
        engine = started_lem c id;
        safe = refl;
        mild = tt;
        showing = (z, n);
        callable = h;
      })
      m

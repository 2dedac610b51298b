-- ===== src/Phone/Consistent.antt =====
-- SIPTextGUI/text_gui.c with SIPEngine/call_api.c: the interface shows what the engine does, and the
-- engine serves what the interface asks.
use furikup.Prelude.{
  true, false, List, [], ◌∷◌, ◌++◌, Option, none, some, ◌≡◌, refl, sym, ◌∙◌, arith,
}
use mathlib.Core.Path.{subst}
use furikup.Config.{Config}
use furikup.Engine.{
  OutEvent, shutdown, incoming_call, Effect, Engine, Outcome, running, returned, fault,
  initial_engine, Turn, turn, start, finish, Session, Requester, idle, waiting, session_of,
  notify_callback, serve, end_thread, release, is_done, clear_done,
}
use furikup.Engine.Order.{InOrder, asks_shutdown, step-InOrder}
use furikup.Engine.Trace.{Always}
use furikup.Engine.Invariant.{Inv, turn-Inv}
use furikup.Engine.Readable.{IsReadable, IsModest}
use furikup.Engine.Requests.{IsSafe, IsMild, IsMildRequest}
use furikup.Engine.Safe.{turn-IsSafe, finish-IsSafe}
use furikup.Engine.Frame.{on_top_of, turn-on_top}
use furikup.Gui.{Gui, deliver, deliver_one}
use furikup.Gui.Same.{SameCall, After, >>=-After}
use furikup.Gui.Mirror.{Shows, handle-Follows, deliver_one-Shows}
use furikup.Gui.Kept.{HasCallable}
use furikup.Phone.System.{
  Place, at_head, holding, asking, quitting, gone, Phone, fresh, effects_of, effects_of_turn, Step,
  turned, Reach, here, next,
}

abbrev pub ShowsOf : Outcome → Gui → Type 0
ShowsOf (running s) g = Shows s.trace g
ShowsOf (returned rc s) g = Shows s.trace g
ShowsOf fault g = ⊥

-- The interface waits in `SIPEngineDoEvent` where `main` calls it.
abbrev pub IsMatched : Place → Requester → List OutEvent → Type 0
IsMatched (asking br b) (waiting e) xs = asks_shutdown xs ≡ false
IsMatched quitting (waiting e) xs = asks_shutdown xs ≡ true
IsMatched at_head idle xs = Unit {0}
IsMatched holding idle xs = Unit {0}
IsMatched gone idle xs = Unit {0}
IsMatched _ _ xs = ⊥

pub record IsConsistent (c : Config) (x : Phone) : Type 0 where
  pub order : InOrder x.session
  pub matched : IsMatched x.place x.session.requester x.session.asked
  pub engine : Always Inv x.session.thread
  pub safe : IsSafe c x.session.thread
  pub mild : IsMildRequest x.session.pending
  pub showing : ShowsOf x.session.thread x.gui
  pub callable : HasCallable x.gui.contacts

-- What the turns of a run are offered names mu-law and A-law five times at most.
abbrev pub IsModestStep : {x y : Phone} → Step x y → Type 0
IsModestStep (turned t s g r q k d) = IsModest t.answers.remote_sdp
IsModestStep _ = Unit {0}

abbrev pub AreModest : {x y : Phone} → Reach x y → Type 0
AreModest here = Unit {0}
AreModest (next r s) = AreModest r × IsModestStep s

-- What is delivered adds to what was shown, and leaves the contacts.
abbrev ShowsToo : List Effect → Gui → Gui → Type 0
ShowsToo es g h = Shows es h × (h.contacts ≡ g.contacts)

deliver_one_contacts :
    (e : Effect) (g : Gui) → After (λ h. h.contacts ≡ g.contacts) (deliver_one e g)
deliver_one_contacts (furikup.Engine.gui e) g = ground (arith, handle-Follows e g)
deliver_one_contacts _ g = refl

both : (P Q : Gui → Type 0) (o : Option Gui) → After P o → After Q o → After (λ h. P h × Q h) o
both P Q none p q = tt
both P Q (some h) p q = (p, q)

weaken : (P Q : Gui → Type 0) (o : Option Gui) → After P o → ((h : Gui) → P h → Q h) → After Q o
weaken P Q none p f = tt
weaken P Q (some h) p f = f h p

deliver-ShowsToo :
    (es old : List Effect) (g : Gui) → Shows old g → After (ShowsToo (es ++ old) g) (deliver es g)
unfolding deliver
deliver-ShowsToo [] old g s = (s, refl)
deliver-ShowsToo (e ∷ es) old g s =
    >>=-After (ShowsToo (es ++ old) g) (ShowsToo (e ∷ es ++ old) g) (deliver es g) (deliver_one e)
      (deliver-ShowsToo es old g s)
      (λ h (k, c).
        both (Shows (e ∷ es ++ old)) (λ i. i.contacts ≡ g.contacts) (deliver_one e h)
          (deliver_one-Shows e (es ++ old) h k)
          (weaken (λ i. i.contacts ≡ h.contacts) (λ i. i.contacts ≡ g.contacts) (deliver_one e h)
            (deliver_one_contacts e h) (λ i q. q ∙ c)))

turned-ShowsOf :
    (c : Config) (o p : Outcome) (old : List Effect) (g h : Gui)
    → p ≡ on_top_of old o
    → IsSafe c p
    → Shows old g
    → deliver (effects_of o) g ≡ some h
    → ShowsOf p h × (h.contacts ≡ g.contacts)
turned-ShowsOf c (running s) p old g h e i k d =
    let w : ShowsToo (s.trace ++ old) g h = rw d at (deliver-ShowsToo s.trace old g k) in
    (subst (λ q. ShowsOf q h) (sym e) w.0, w.1)
turned-ShowsOf c (returned rc s) p old g h e i k d =
    let w : ShowsToo (s.trace ++ old) g h = rw d at (deliver-ShowsToo s.trace old g k) in
    (subst (λ q. ShowsOf q h) (sym e) w.0, w.1)
turned-ShowsOf c fault p old g h e i k d = absurd (subst (IsSafe c) e i)

finish-Inv : (s : Engine) → Inv s → Always Inv (finish s)
finish-Inv s h = ground arith

same-ShowsOf : (o : Outcome) (g h : Gui) → SameCall g h → ShowsOf o g → ShowsOf o h
same-ShowsOf (running s) g h (e, k, l) (p, q) = (e ∙ p, k ∙ q)
same-ShowsOf (returned rc s) g h (e, k, l) (p, q) = (e ∙ p, k ∙ q)
same-ShowsOf fault g h k p = p

-- What `main` does by itself.
pub drew-IsConsistent :
    (c : Config) (x : Phone) (p : Place) (g : Gui)
    → IsConsistent c x
    → SameCall x.gui g
    → IsMatched p x.session.requester x.session.asked
    → IsConsistent c (record x { gui = g; place = p })
drew-IsConsistent c x p g i s m = record {
  order = i.order;
  matched = m;
  engine = i.engine;
  safe = i.safe;
  mild = i.mild;
  showing = same-ShowsOf x.session.thread x.gui g s i.showing;
  callable = subst HasCallable (sym s.2) i.callable;
}

pub is_idle : (q : Requester) (xs : List OutEvent) → IsMatched at_head q xs → q ≡ idle
is_idle idle xs h = refl
is_idle (waiting e) xs h = absurd h

-- `main` calls `SIPEngineDoEvent`.
pub notified-IsConsistent :
    (c : Config) (x : Phone) (p : Place) (e : OutEvent)
    → IsConsistent c x
    → x.session.requester ≡ idle
    → IsMatched p (waiting e) (e ∷ x.session.asked)
    → IsMild e
    → IsConsistent c (record x { place = p; session = notify_callback e x.session })
unfolding notify_callback
notified-IsConsistent c x p e i q m a = record {
  order = step-InOrder x.session _ (furikup.Engine.notified e q) i.order;
  matched = m;
  engine = i.engine;
  safe = i.safe;
  mild = a;
  showing = i.showing;
  callable = i.callable;
}

-- `SIPEngineDoEvent` returns to `main`.
clear_done-Inv : (o : Outcome) → Always Inv o → Always Inv (clear_done o)
clear_done-Inv (running s) h = ground arith
clear_done-Inv (returned rc s) h = ground arith
clear_done-Inv fault h = h

clear_done-IsSafe : (c : Config) (o : Outcome) → IsSafe c o → IsSafe c (clear_done o)
clear_done-IsSafe c (running s) h = h
clear_done-IsSafe c (returned rc s) h = h
clear_done-IsSafe c fault h = h

clear_done-ShowsOf : (o : Outcome) (g : Gui) → ShowsOf o g → ShowsOf (clear_done o) g
clear_done-ShowsOf (running s) g h = h
clear_done-ShowsOf (returned rc s) g h = h
clear_done-ShowsOf fault g h = h

pub released-IsConsistent :
    (c : Config) (x : Phone) (p : Place) (e : OutEvent)
    → IsConsistent c x
    → x.session.requester ≡ waiting e
    → is_done x.session.thread ≡ true
    → IsMatched p idle x.session.asked
    → IsConsistent c (record x { place = p; session = release x.session })
unfolding release
released-IsConsistent c x p e i q d m = record {
  order = step-InOrder x.session _ (furikup.Engine.released e q d) i.order;
  matched = m;
  engine = clear_done-Inv x.session.thread i.engine;
  safe = clear_done-IsSafe c x.session.thread i.safe;
  mild = i.mild;
  showing = clear_done-ShowsOf x.session.thread x.gui i.showing;
  callable = i.callable;
}

module _ (c : Config) (r : IsReadable c) where
  pub turned-IsConsistent :
      (x : Phone) (t : Turn) (s : Engine) (g : Gui)
      → IsConsistent c x
      → x.session.thread ≡ running s
      → s.quit ≡ false
      → t.callback ≡ x.session.pending
      → deliver (effects_of_turn t s) x.gui ≡ some g
      → IsModest t.answers.remote_sdp
      → IsConsistent c (record x { gui = g; session = serve t s x.session })
  unfolding effects_of_turn serve
  turned-IsConsistent x t s g i q k b d m =
      let w =
        turn-IsSafe c r t s (subst IsMildRequest (sym b) i.mild) m (subst (IsSafe c) q i.safe) in
      let v =
        turned-ShowsOf c (turn t (fresh s)) (turn t s) s.trace x.gui g
          (turn-on_top s.trace t (fresh s)) w (subst (λ o. ShowsOf o x.gui) q i.showing) d in
      record {
        order = step-InOrder x.session _ (furikup.Engine.turned t s q k b) i.order;
        matched = i.matched;
        engine = turn-Inv t s (subst (Always Inv) q i.engine);
        safe = w;
        mild = tt;
        showing = v.0;
        callable = subst HasCallable (sym v.1) i.callable;
      }

  pub ended-IsConsistent :
      (x : Phone) (s : Engine)
      → IsConsistent c x
      → x.session.thread ≡ running s
      → s.quit ≡ true
      → IsConsistent c (record x { session = end_thread s x.session })
  unfolding end_thread
  ended-IsConsistent x s i q k = record {
    order = step-InOrder x.session _ (furikup.Engine.ended s q k) i.order;
    matched = i.matched;
    engine = finish-Inv s (subst (Always Inv) q i.engine);
    safe = finish-IsSafe c r s (subst (IsSafe c) q i.safe);
    mild = i.mild;
    showing = subst (λ o. ShowsOf o x.gui) q i.showing;
    callable = i.callable;
  }

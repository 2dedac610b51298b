-- ===== src/Engine/Order.antt =====
-- SIPEngine/call_api.c: the requests of `SIPEngineDoEvent`, in every order of the steps of the two
-- threads.
use furikup.Prelude.{ℤ, Bool, true, false, List, [], ◌∷◌, Option, none, some, ◌≡◌, refl, ap, arith}
use mathlib.Core.Path.{subst, sym}
use furikup.Config.{Config}
use furikup.Engine.Types.{OutEvent, Engine, Outcome, running, returned, fault, initial_engine}
use furikup.Engine.Thread.{Turn, turn, finish, start}
use furikup.Engine.Trace.{Always}
use furikup.Engine.Request.{
  Requester, idle, waiting, Session, session_of, notify_callback, with_pending, serve, end_thread,
  is_done, clear_done, release, Step, notified, turned, ended, released, Reach, here, next,
}
use furikup.Engine.Handshake.{
  IsQuiet, IsUndone, is_shutdown, served_turn-IsQuiet, silent_turn-IsQuiet, shutdown_turn-IsUndone,
  silent_turn-IsUndone,
}

abbrev pub asks_shutdown : List OutEvent → Bool
asks_shutdown [] = false
asks_shutdown (e ∷ es) = is_shutdown e

abbrev pub IsOver : Outcome → Type 0
IsOver (running s) = ⊥
IsOver _ = Unit {0}

-- Nothing is asked of the thread: it does not end, and `callback_done` is not set.
abbrev pub IsResting : Outcome → Type 0
IsResting (running s) = IsQuiet false s
IsResting (returned rc s) = s.callback_done ≡ false
IsResting fault = Unit {0}

-- The callback of the latest request has run. For a shutdown, the caller is kept waiting as long as
-- the thread runs; for the others, it can leave its loop.
abbrev pub IsAnswered : Bool → Outcome → Type 0
IsAnswered true (running s) = s.callback_done ≡ false
IsAnswered false (running s) = IsQuiet true s
IsAnswered _ _ = Unit {0}

abbrev pub InOrderOf :
    Requester → Option OutEvent → Outcome → List OutEvent → List OutEvent → Type 0
InOrderOf idle none o asked served =
    (asked ≡ served) × IsResting o × (asks_shutdown asked ≡ true → IsOver o)
InOrderOf idle (some f) o asked served = ⊥
InOrderOf (waiting e) (some f) o asked served = (asked ≡ f ∷ served) × (f ≡ e) × IsResting o
InOrderOf (waiting e) none o asked served = (asked ≡ served) × IsAnswered (asks_shutdown asked) o

abbrev pub InOrder : Session → Type 0
InOrder x = InOrderOf x.requester x.pending x.thread x.asked x.served

notify-InOrder :
    (e : OutEvent) (p : Option OutEvent) (o : Outcome) (xs ys : List OutEvent)
    → InOrderOf idle p o xs ys
    → InOrderOf (waiting e) (some e) o (e ∷ xs) ys
notify-InOrder e none o xs ys (q, r, l) = (ap (◌∷◌ e) q, refl, r)
notify-InOrder e (some f) o xs ys h = absurd h

turn-IsResting : (o : Outcome) → Always (IsQuiet false) o → IsResting o
turn-IsResting (running s) h = h
turn-IsResting (returned rc s) h = h.done
turn-IsResting fault h = tt

quiet-IsAnswered : (o : Outcome) → Always (IsQuiet true) o → IsAnswered false o
quiet-IsAnswered (running s) h = h
quiet-IsAnswered (returned rc s) h = tt
quiet-IsAnswered fault h = tt

undone-IsAnswered : (o : Outcome) → Always IsUndone o → IsAnswered true o
undone-IsAnswered (running s) h = h
undone-IsAnswered (returned rc s) h = tt
undone-IsAnswered fault h = tt

silent-IsAnswered :
    (b : Bool) (t : Turn) (s : Engine)
    → t.callback ≡ none
    → IsAnswered b (running s)
    → IsAnswered b (turn t s)
silent-IsAnswered true t s c h = undone-IsAnswered (turn t s) (silent_turn-IsUndone t s c h)
silent-IsAnswered false t s c h = quiet-IsAnswered (turn t s) (silent_turn-IsQuiet true t s c h)

served-IsAnswered :
    (b : Bool) (e : OutEvent) (t : Turn) (s : Engine)
    → is_shutdown e ≡ b
    → t.callback ≡ some e
    → IsQuiet false s
    → IsAnswered b (turn t s)
served-IsAnswered true e t s n c h = undone-IsAnswered (turn t s) (shutdown_turn-IsUndone e t s c n)
served-IsAnswered false e t s n c h =
    quiet-IsAnswered (turn t s) (served_turn-IsQuiet false e t s c n h)

serve-InOrder :
    (r : Requester) (p : Option OutEvent) (t : Turn) (s : Engine) (xs ys : List OutEvent)
    → t.callback ≡ p
    → InOrderOf r p (running s) xs ys
    → InOrderOf r none (turn t s) xs (with_pending p ys)
serve-InOrder idle none t s xs ys c (q, h, l) =
    (q, turn-IsResting (turn t s) (silent_turn-IsQuiet false t s c h), λ a. absurd (l a))
serve-InOrder idle (some f) t s xs ys c h = absurd h
serve-InOrder (waiting e) none t s xs ys c (q, h) =
    (q, silent-IsAnswered (asks_shutdown xs) t s c h)
serve-InOrder (waiting e) (some f) t s xs ys c (q, e', h) =
    (q, served-IsAnswered (asks_shutdown xs) f t s (sym (ap asks_shutdown q)) c h)

end-InOrder :
    (r : Requester) (p : Option OutEvent) (s : Engine) (xs ys : List OutEvent)
    → s.quit ≡ true
    → InOrderOf r p (running s) xs ys
    → InOrderOf r p (finish s) xs ys
end-InOrder idle none s xs ys q (e, h, l) = absurd (ground (arith, h.going))
end-InOrder idle (some f) s xs ys q h = absurd h
end-InOrder (waiting e) none s xs ys q (h, k) = (h, over (asks_shutdown xs))
  where
    over : (b : Bool) → IsAnswered b (finish s)
    over true = tt
    over false = tt
end-InOrder (waiting e) (some f) s xs ys q (a, b, h) = absurd (ground (arith, h.going))

resting_undone : (o : Outcome) → IsResting o → is_done o ≡ false
resting_undone (running s) h = h.done
resting_undone (returned rc s) h = h
resting_undone fault h = refl

clear-IsResting :
    (b : Bool) (o : Outcome)
    → is_done o ≡ true
    → IsAnswered b o
    → IsResting (clear_done o) × (b ≡ true → IsOver (clear_done o))
clear-IsResting true (running s) d h = absurd (ground arith)
clear-IsResting false (running s) d h =
    (record { done = refl; going = h.going; staying = h.staying }, λ e. absurd (ground arith))
clear-IsResting b (returned rc s) d h = (refl, λ e. tt)
clear-IsResting b fault d h = (tt, λ e. tt)

release-InOrder :
    (e : OutEvent) (p : Option OutEvent) (o : Outcome) (xs ys : List OutEvent)
    → is_done o ≡ true
    → InOrderOf (waiting e) p o xs ys
    → InOrderOf idle p (clear_done o) xs ys
release-InOrder e (some f) o xs ys d (q, r, h) = absurd (ground (arith, resting_undone o h))
release-InOrder e none o xs ys d (q, h) =
    let (r, l) = clear-IsResting (asks_shutdown xs) o d h in (q, r, l)

pub step-InOrder : (x y : Session) → Step x y → InOrder x → InOrder y
unfolding notify_callback serve end_thread release
step-InOrder x y (notified e i) h =
    notify-InOrder e x.pending x.thread x.asked x.served
      (subst (λ r. InOrderOf r x.pending x.thread x.asked x.served) i h)
step-InOrder x y (turned t s r q c) h =
    serve-InOrder x.requester x.pending t s x.asked x.served c
      (subst (λ o. InOrderOf x.requester x.pending o x.asked x.served) r h)
step-InOrder x y (ended s r q) h =
    end-InOrder x.requester x.pending s x.asked x.served q
      (subst (λ o. InOrderOf x.requester x.pending o x.asked x.served) r h)
step-InOrder x y (released e w d) h =
    release-InOrder e x.pending x.thread x.asked x.served d
      (subst (λ r. InOrderOf r x.pending x.thread x.asked x.served) w h)

keep-InOrder : (x y : Session) → Reach x y → InOrder x → InOrder y
keep-InOrder x y here h = h
keep-InOrder x y (next r s) h = step-InOrder _ y s (keep-InOrder x _ r h)

-- From the start of the engine's thread, in every order of the steps of the two threads, whatever the
-- interface asks and whatever the libraries answer. When `SIPEngineDoEvent` has returned, each request
-- was served once, in the order asked, `callback_done` is reset, and behind a shutdown the engine's
-- thread no longer runs. While it waits, its request is the one that is pending, with those before it
-- served and `callback_done` not set; or it is served too, and then `callback_done` is set if the
-- engine's thread runs on, but for a shutdown, which waits as long as it runs. Of `callback_done`
-- behind an access outside an array nothing is claimed.
pub Reach-InOrder :
    (c : Config) (id : ℤ) (x : Session)
    → Reach (session_of (start id (initial_engine c))) x
    → InOrder x
unfolding start
Reach-InOrder c id x r =
    keep-InOrder _ x r
      (refl, record { done = refl; going = refl; staying = refl }, λ e. absurd (ground arith))

-- ===== src/Phone/Stuck.antt =====
-- SIPTextGUI/text_gui.c with SIPEngine/call_api.c: the telephone when the thread of the engine has
-- returned, and nobody sets `callback_done`.
use furikup.Prelude.{ℤ, Bool, true, false, ◌≡◌, ◌∙◌, refl, ap, arith}
use mathlib.Core.Path.{sym}
use furikup.Engine.{Engine, Outcome, running, returned, fault, is_done}
use furikup.Phone.System.{
  Place, gone, Phone, Step, turned, ended, pressed, asked, answered, drawn, let_go, exited, left,
  over, Reach, here, next,
}

abbrev is_running : Outcome → Bool
is_running (running s) = true
is_running _ = false

abbrev is_gone : Place → Bool
is_gone gone = true
is_gone _ = false

-- What no step changes.
record IsDead (o : Outcome) (x : Phone) : Type 0 where
  behind : x.session.thread ≡ o
  silent : is_running o ≡ false
  undone : is_done o ≡ false
  present : is_gone x.place ≡ false

module _ (o : Outcome) where
  no_engine : (x : Phone) (s : Engine) → IsDead o x → x.session.thread ≡ running s → ⊥
  no_engine x s i q =
      let w : is_running o ≡ true = ap is_running (sym i.behind ∙ q) in
      absurd (ground (arith, i.silent, w))

  no_return : (x : Phone) → IsDead o x → is_done x.session.thread ≡ true → ⊥
  no_return x i d =
      let v : is_done o ≡ true = ap is_done (sym i.behind) ∙ d in
      absurd (ground (arith, i.undone, v))

  -- A step of `main` that leaves the thread alone.
  still-IsDead :
      (x y : Phone)
      → IsDead o x
      → y.session.thread ≡ x.session.thread
      → is_gone y.place ≡ false
      → IsDead o y
  still-IsDead x y i t p = record {
    behind = t ∙ i.behind;
    silent = i.silent;
    undone = i.undone;
    present = p;
  }

  step-IsDead : (x y : Phone) → Step x y → IsDead o x → IsDead o y
  unfolding furikup.Engine.notify_callback
  step-IsDead x y (turned t s g q k b d) i = absurd (no_engine x s i q)
  step-IsDead x y (ended s q k) i = absurd (no_engine x s i q)
  step-IsDead x y (pressed b g h a n q k) i = still-IsDead x y i refl refl
  step-IsDead x y (asked b br e g a n q) i = still-IsDead x y i refl refl
  step-IsDead x y (answered b br g h a d q k) i = absurd (no_return x i d)
  step-IsDead x y (drawn g a n q) i = still-IsDead x y i refl i.present
  step-IsDead x y (let_go g a q) i = still-IsDead x y i refl refl
  step-IsDead x y exited i = still-IsDead x y i refl i.present
  step-IsDead x y (left g a n q) i = still-IsDead x y i refl refl
  step-IsDead x y (over a d) i = absurd (no_return x i d)

  keep-IsDead : {x y : Phone} → Reach x y → IsDead o x → IsDead o y
  keep-IsDead here i = i
  keep-IsDead (next r s) i = step-IsDead _ _ s (keep-IsDead r i)

-- Once the thread of the engine has returned with `callback_done` not set, as it does where it cannot
-- register, `main` never comes behind `sceKernelExitGame` if it is not there, whatever buttons are
-- pressed, and though the exit callback has run.
pub Reach-never_gone :
    (rc : ℤ) (s : Engine) (x y : Phone)
    → x.session.thread ≡ returned rc s
    → s.callback_done ≡ false
    → ¬ (x.place ≡ gone)
    → Reach x y
    → ¬ (y.place ≡ gone)
Reach-never_gone rc s x y q d w r p =
    let i : IsDead (returned rc s) x = record {
      behind = q;
      silent = refl;
      undone = d;
      present = not_gone x.place w;
    } in
    let v : is_gone y.place ≡ true = ap is_gone p in
    absurd (ground (arith, (keep-IsDead (returned rc s) r i).present, v))
  where
    not_gone : (p : Place) → ¬ (p ≡ gone) → is_gone p ≡ false
    not_gone gone n = absurd (n refl)
    not_gone _ n = refl

-- ===== src/Gui/Mirror.antt =====
-- The text interface follows the engine: what SIPTextGUI/text_gui.c makes of the events that
-- SIPEngine/call_api.c raises.
use furikup.Prelude.{
  ℕ, ℤ, Bool, true, false, ◌||◌, List, [], ◌∷◌, Option, none, some, ◌≡◌, ◌⊎◌, inl, inr, refl, arith,
  Bytes, codes, ◌++◌, ◌&&◌, ltb, leb, ◌==◌, if◌then◌else◌, Bool-cases,
}
use furikup.Config.{Config}
use furikup.Engine.{
  incoming_call, InEvent, incoming, sip_state, startup, info_message, error_message, Effect, gui,
  sip_connected, sip_established, Engine, running, Turn, call_thread, initial_engine,
}
use furikup.Engine.Trace.{shown, rings}
use furikup.Engine.Invariant.{display, Inv, call_thread-Inv}
use furikup.Gui.Types.{Gui, set_redraw}
use furikup.Gui.Status.{status_message}
use furikup.Gui.Handler.{
  clear_and_say, settle, establish, quiet_for, on_sip_state, on_startup, greet, caller_text,
  play_ringer, stop_ringer, handle, deliver, deliver_one,
}
use furikup.Gui.Same.{SameCall, After, status_message-SameCall, clear_and_say-SameCall, >>=-After}

-- The state, and the ringer, as an event leaves them.
abbrev pub state_after : InEvent → ℕ → ℕ
state_after (sip_state n) m = n
state_after _ m = m

abbrev pub ring_after : InEvent → Bool → Bool
ring_after (incoming _ _) b = true
ring_after (sip_state n) b = if n == sip_established || n == sip_connected then false else b
ring_after _ b = b

abbrev pub Follows : InEvent → Gui → Gui → Type 0
Follows e g h =
    (h.current_state ≡ state_after e g.current_state)
    × (h.ringing ≡ ring_after e g.ringing)
    × (h.contacts ≡ g.contacts)

settle-Follows :
    (n : ℕ) (b : Bool) (g k : Gui)
    → k.ringing ≡ b
    → b ≡ ring_after (sip_state n) g.ringing
    → k.contacts ≡ g.contacts
    → After (Follows (sip_state n) g) (settle n k)
unfolding set_redraw
settle-Follows n b g k e r c = ground arith

establish-Follows :
    (n : ℕ) (g k : Gui)
    → k.ringing ≡ g.ringing
    → k.contacts ≡ g.contacts
    → After (Follows (sip_state n) g) (establish n k)
establish-Follows n g k e c =
    >>=-After (SameCall (quiet_for n k)) (Follows (sip_state n) g)
      (clear_and_say (n == sip_established) (codes "Call established") (quiet_for n k)) (settle n)
      (clear_and_say-SameCall (n == sip_established) (codes "Call established") (quiet_for n k))
      λ h f.
        settle-Follows n (quiet_for n k).ringing g h f.1 (unfold stop_ringer in ground arith)
          (unfold stop_ringer in ground arith)

on_sip_state-Follows : (n : ℕ) (g : Gui) → After (Follows (sip_state n) g) (on_sip_state n g)
on_sip_state-Follows n g =
    let leaves = ltb sip_connected g.current_state && leb n sip_connected in
    unfold on_sip_state in
    >>=-After (SameCall g) (Follows (sip_state n) g)
      (clear_and_say leaves (codes "Call cancelled") g) (establish n)
      (clear_and_say-SameCall leaves (codes "Call cancelled") g)
      λ h f. establish-Follows n g h f.1 f.2

greet-Follows :
    (index : ℤ) (o name : Option Bytes) (g k : Gui)
    → k.current_state ≡ g.current_state
    → k.ringing ≡ true
    → k.contacts ≡ g.contacts
    → After (Follows (incoming name index) g) (greet index o k)
greet-Follows index none name g k e r c = tt
greet-Follows index (some n) name g k e r c =
    let text = codes "Incoming call... " ++ n in
    let m = record k { caller = n; caller_index = index } in
    unfold set_redraw in ground (arith, status_message-SameCall text m)

said :
    (n : ℕ) (text : Bytes) (g k : Gui)
    → SameCall g k
    → After (Follows (startup n) g) (status_message text k)
said n text g k (e, r, c) = ground (arith, status_message-SameCall text k)

on_startup-Follows : (n : ℕ) (g : Gui) → After (Follows (startup n) g) (on_startup n g)
unfolding on_startup
on_startup-Follows n g = elim (Bool-cases (n == 0)) [
  | inl z ↦ rw z (said n _ g _ (refl, refl, refl))
  | inr nz ↦ rw nz (elim (Bool-cases (n == 1)) [
    | inl one ↦ rw one (said n _ g _ (refl, refl, refl))
    | inr more ↦ rw more (elim (Bool-cases (n == 2)) [
      | inl two ↦ rw two (said n _ g _ (refl, refl, refl))
      | inr rest ↦ rw rest (said n _ g _ (refl, refl, refl))
    ])
  ])
]

pub handle-Follows : (e : InEvent) (g : Gui) → After (Follows e g) (handle e g)
unfolding handle
handle-Follows (sip_state n) g = on_sip_state-Follows n g
handle-Follows (incoming name index) g =
    greet-Follows index (caller_text name) name g (play_ringer g) (ground arith) (ground arith)
      (ground arith)
handle-Follows (startup n) g = on_startup-Follows n g
handle-Follows (info_message text) g = ground (arith, status_message-SameCall text g)
handle-Follows (error_message text) g = ground (arith, status_message-SameCall text g)

-- The interface shows what a trace told it last, and rings when the trace says so.
abbrev pub Shows : List Effect → Gui → Type 0
Shows tr h = (h.current_state ≡ shown tr) × (h.ringing ≡ rings tr)

pub deliver_one-Shows :
    (e : Effect) (es : List Effect) (g : Gui)
    → Shows es g
    → After (Shows (e ∷ es)) (deliver_one e g)
deliver_one-Shows (gui (sip_state n)) es g s = ground (arith, handle-Follows (sip_state n) g)
deliver_one-Shows (gui (incoming m i)) es g s = ground (arith, handle-Follows (incoming m i) g)
deliver_one-Shows (gui (startup n)) es g s = ground (arith, handle-Follows (startup n) g)
deliver_one-Shows (gui (info_message t)) es g s = ground (arith, handle-Follows (info_message t) g)
deliver_one-Shows (gui (error_message t)) es g s =
    ground (arith, handle-Follows (error_message t) g)
deliver_one-Shows _ es g s = s

pub deliver-Shows :
    (es : List Effect) (g : Gui)
    → g.current_state ≡ 0
    → g.ringing ≡ false
    → After (Shows es) (deliver es g)
unfolding deliver
deliver-Shows [] g e r = (e, r)
deliver-Shows (e ∷ es) g z r =
    >>=-After (Shows es) (Shows (e ∷ es)) (deliver es g) (deliver_one e) (deliver-Shows es g z r)
      (deliver_one-Shows e es)

-- Whatever the GUI's requests, the events of the network and the answers of the libraries, an
-- interface that has handled all the events of the running engine shows the state that the engine
-- is in (while it unregisters: that it is connected), and it rings at most while a call is waiting
-- to be answered.
pub deliver-call_thread :
    (c : Config) (id : ℤ) (ts : List Turn) (s : Engine) (g h : Gui)
    → call_thread id ts (initial_engine c) ≡ running s
    → g.current_state ≡ 0
    → g.ringing ≡ false
    → deliver s.trace g ≡ some h
    → (h.current_state ≡ display s.current_state)
      × ((h.ringing ≡ false) ⊎ (s.current_state ≡ incoming_call))
deliver-call_thread c id ts s g h t z r d =
    let v : Inv s = rw t at (call_thread-Inv c id ts) in
    let w : Shows s.trace h = rw d at (deliver-Shows s.trace g z r) in ground arith

-- ===== src/Gui/Launch.antt =====
-- The start of SIPTextGUI/text_gui.c: what the status box shows behind it.
use furikup.Prelude.{
  codes, ℕ, ◌-◌, ◌%◌, ℤ, pos, negsuc, is_neg, Bool, true, false, List, [], ◌∷◌, ◌++◌, map, some,
  Bytes, ◌≡◌, refl, sym, ap, ◌∙◌, arith,
}
use mathlib.Core.Path.{subst}
use furikup.Gui.Types.{Gui, set_redraw}
use furikup.Gui.Status.{clear_status_box, has_percent}
use furikup.Gui.Lines.{IsBox, box_lines, latest, latest_more, status_message-box_lines}
use furikup.Gui.Boot.{
  BootCall, DialogStatus, idle, visible, quit, connect_dialog, ring_error, init_audio, Boot,
  welcome, camera_text, failed_text, prepare, Stage, failed, started, start_engine, boot,
  failed_with, boot_calls, hex8, before_calls, after_engine, behind_dialog, draw_frame,
  netconf_update,
}
use furikup.Gui.Percent.{has_percent-append, has_percent-hex8}
use furikup.Gui.Raised.{message_of, AreStarting, start_handled}

-- The dialog is left in one of the rounds.
abbrev pub IsLeft : List DialogStatus → Type 0
IsLeft [] = ⊥
IsLeft (quit ∷ ss) = Unit {0}
IsLeft (_ ∷ ss) = IsLeft ss

dialog_left : (ss : List DialogStatus) → IsLeft ss → (cs : _) × (connect_dialog ss ≡ some cs)
unfolding connect_dialog
dialog_left [] h = absurd h
dialog_left (quit ∷ ss) h = (_, refl)
dialog_left (idle ∷ ss) h =
    let (cs, e) = dialog_left ss h in (_, ap (before_calls (draw_frame ∷ [])) e)
dialog_left (visible ∷ ss) h =
    let (cs, e) = dialog_left ss h in (_, ap (before_calls (netconf_update ∷ draw_frame ∷ [])) e)

-- The box behind the start, by whether it failed.
abbrev pub IsLaunched : List Bytes → Bool → Stage → Type 0
IsLaunched texts true (failed cs h) =
    box_lines h ≡ latest 7 (camera_text ∷ (texts ++ failed_text ∷ []))
IsLaunched texts false (started cs h) =
    (h.redraw ≡ true) × (box_lines h ≡ latest 7 (camera_text ∷ texts))
IsLaunched texts _ _ = ⊥

ring_free : (n : ℕ) → has_percent (ring_error (negsuc n)) ≡ false
ring_free n =
    has_percent-append (hex8 (4294967295 - n % 4294967296)) (codes " opening ring.wav file")
      (has_percent-hex8 (4294967295 - n % 4294967296)) refl

init_audio-IsBox :
    (answer : ℤ) (g : Gui) → IsBox g → (h : Gui) × (init_audio answer g ≡ some h) × IsBox h
unfolding init_audio
init_audio-IsBox (pos n) g b = (
  record g { ring_file = pos n },
  refl,
  record { rows_kept = b.rows_kept; rows_used = b.rows_used },
)
init_audio-IsBox (negsuc n) g b =
    let (h, e, k, l) =
      status_message-box_lines (ring_error (negsuc n)) (record g { ring_file = negsuc n })
        (record { rows_kept = b.rows_kept; rows_used = b.rows_used }) (omega arith, ring_free n) in
    (h, e, k)

-- Behind `prepare` the box shows the message on the camera and nothing else.
prepare-IsBox :
    (b : Boot) (g : Gui)
    → IsBox g
    → (h : Gui) × (prepare b g ≡ some h) × IsBox h × (box_lines h ≡ camera_text ∷ [])
unfolding prepare clear_status_box
prepare-IsBox b g box =
    let (h, e, k) = init_audio-IsBox b.ring_answer g box in
    let (i, e', k', l) =
      status_message-box_lines camera_text (clear_status_box (welcome b h))
        (record { rows_kept = k.rows_kept; rows_used = omega arith }) (omega arith, refl) in
    (i, rw e e', k', l)

after_engine-IsLaunched :
    (result : ℤ) (cs : List BootCall) (texts : List Bytes) (g : Gui)
    → IsBox g
    → box_lines g ≡ latest 7 (camera_text ∷ texts)
    → IsLaunched texts (is_neg result) (after_engine result cs (some g))
unfolding set_redraw
after_engine-IsLaunched (pos n) cs texts g k l = (refl, l)
after_engine-IsLaunched (negsuc n) cs texts g k l =
    let (h, e, k', m) = status_message-box_lines failed_text g k (omega arith, refl) in
    subst (λ o. IsLaunched texts true (failed_with cs o)) (sym e)
      (m
        ∙ ap (λ x. latest 7 (x ++ failed_text ∷ [])) l
        ∙ latest_more (camera_text ∷ texts) (failed_text ∷ []))

start_engine-IsLaunched :
    (b : Boot) (cs : List BootCall) (g : Gui)
    → AreStarting b.raised
    → IsBox g
    → box_lines g ≡ camera_text ∷ []
    → IsLaunched (map message_of b.raised) (is_neg b.result) (start_engine b cs g)
unfolding start_engine
start_engine-IsLaunched b cs g s box l =
    let texts = map message_of b.raised in
    let (h, e, k, m) = start_handled b.raised g box s in
    subst (λ o. IsLaunched texts (is_neg b.result) (after_engine b.result cs o)) (sym e)
      (after_engine-IsLaunched b.result cs texts h k (m ∙ ap (λ x. latest 7 (x ++ texts)) l))

-- Once the network dialog is left, whatever the modules and the file of the ringer answer and
-- whatever the box showed: the box shows the latest seven of the message on the camera, those of the
-- events that the engine raises while it starts (the announcement of the address book, the start of
-- its thread, and errors, in any number and order), and, if the engine's code is negative, the failure,
-- behind which `main` waits to be left; otherwise `main` comes to its loop, with a redraw asked for. A
-- message on the file of the ringer is not among them: it is wiped. Conditions: the box has its rows, and
-- each text of an error fits into one and has no percent sign. The byte behind the rows, which
-- `clearStatusBox` overwrites, is taken to be none of the interface's variables.
pub boot-IsLaunched :
    (b : Boot) (g : Gui)
    → IsLeft b.statuses
    → AreStarting b.raised
    → IsBox g
    → IsLaunched (map message_of b.raised) (is_neg b.result) (boot b g)
unfolding boot
boot-IsLaunched b g left s box =
    let texts = map message_of b.raised in
    let (dialog, d) = dialog_left b.statuses left in
    let (h, e, k, l) = prepare-IsBox b g box in
    subst (λ o. IsLaunched texts (is_neg b.result) (behind_dialog b o (prepare b g))) (sym d)
      (subst (λ o. IsLaunched texts (is_neg b.result) (behind_dialog b (some dialog) o)) (sym e)
        (start_engine-IsLaunched b (boot_calls b dialog) h s k l))

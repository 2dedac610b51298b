-- ===== src/Gui/Same.antt =====
-- SIPTextGUI/text_gui.c: what its operations leave of the fields that follow the engine.
use furikup.Prelude.{
  take, ℕ, zero, suc, ◌+◌, Bool, true, false, Option, none, some, ◌≡◌, refl, ◌∙◌, arith, Bytes,
  get_elem?,
}
use furikup.CString.{strcpy}
use furikup.Gui.Types.{Gui, ◌>>=◌}
use furikup.Gui.Status.{
  print_line, print_lines, add_line, add_checked, redisplay, display_status_lines, status_message,
  clear_status_box,
}
use furikup.Gui.Handler.{clear_and_say}

-- The fields that the status box leaves alone, of those that follow the engine.
abbrev pub SameCall : Gui → Gui → Type 0
SameCall g h =
    (h.current_state ≡ g.current_state) × (h.ringing ≡ g.ringing) × (h.contacts ≡ g.contacts)

print_line-SameCall : (row : ℕ) (o : Option Bytes) (g : Gui) → SameCall g (print_line row o g)
print_line-SameCall row none g = (refl, refl, refl)
print_line-SameCall row (some t) g = (refl, refl, refl)

print_lines-SameCall : (rows row : ℕ) (g : Gui) → SameCall g (print_lines rows row g)
unfolding print_lines
print_lines-SameCall zero row g = (refl, refl, refl)
print_lines-SameCall (suc rows) row g =
    let (e, k, c) =
      print_lines-SameCall rows (row + 1) (print_line row (get_elem? g.status_lines row) g) in
    let (e', k', c') = print_line-SameCall row (get_elem? g.status_lines row) g in
    (e ∙ e', k ∙ k', c ∙ c')

pub display_status_lines-SameCall : (g : Gui) → SameCall g (display_status_lines g)
unfolding display_status_lines
display_status_lines-SameCall g = print_lines-SameCall g.num_status_lines 0 _

add_line-SameCall : (text : Bytes) (g : Gui) → SameCall g (add_line text g)
unfolding add_line
add_line-SameCall text g = ground arith

-- A predicate on the interface behind an operation, if nothing went out of bounds.
abbrev pub After : (Gui → Type 0) → Option Gui → Type 0
After P none = Unit {0}
After P (some g) = P g

redisplay-SameCall :
    (g : Gui) (o : Option Gui) → After (SameCall g) o → After (SameCall g) (redisplay o)
redisplay-SameCall g none h = tt
redisplay-SameCall g (some k) (e, r, c) =
    let (e', r', c') = display_status_lines-SameCall k in (e' ∙ e, r' ∙ r, c' ∙ c)

add_checked-SameCall : (o : Option Bytes) (g : Gui) → After (SameCall g) (add_checked o g)
add_checked-SameCall none g = tt
add_checked-SameCall (some t) g = add_line-SameCall t g

pub status_message-SameCall : (text : Bytes) (g : Gui) → After (SameCall g) (status_message text g)
unfolding status_message
status_message-SameCall text g =
    ground (arith, redisplay-SameCall g _ (add_checked-SameCall (strcpy 69 (take 255 text)) g))

pub clear_and_say-SameCall :
    (test : Bool) (text : Bytes) (g : Gui) → After (SameCall g) (clear_and_say test text g)
clear_and_say-SameCall true text g =
    unfold clear_status_box in status_message-SameCall text (clear_status_box g)
clear_and_say-SameCall false text g = (refl, refl, refl)

pub >>=-After :
    (P Q : Gui → Type 0) (o : Option Gui) (f : Gui → Option Gui)
    → After P o
    → ((g : Gui) → P g → After Q (f g))
    → After Q (o >>= f)
>>=-After P Q none f h k = tt
>>=-After P Q (some g) f h k = k g h

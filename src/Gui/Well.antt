-- ===== src/Gui/Well.antt =====
-- SIPTextGUI/text_gui.c with contacts to show, and texts that fit: nothing goes out of bounds.
use furikup.Prelude.{
  ℕ, zero, suc, ◌+◌, ◌≤◌, ◌<◌, ℤ, pos, Bool, true, false, List, [], ◌∷◌, ◌++◌, Option, none, some,
  ◌≡◌, refl, sym, ap, ◌∙◌, arith, Bytes, codes, ◌==◌, ltb, leb, ◌&&◌, length, get_elem?, take_all,
  length-append,
}
use mathlib.Core.Path.{subst}
use furikup.CString.{strcpy}
use furikup.AddressBook.{Contact}
use furikup.Engine.{
  InEvent, incoming, sip_state, startup, info_message, error_message, sip_connected,
  sip_established,
}
use furikup.Gui.Types.{Gui, out, ◌>>=◌, set_redraw, set_xy}
use furikup.Gui.Status.{
  add_line, print_line, print_lines, display_status_lines, status_message, clear_status_box,
  has_percent,
}
use furikup.Gui.Handler.{
  clear_and_say, settle, establish, quiet_for, on_sip_state, on_startup, greet, play_ringer,
  stop_ringer, handle, on_incoming,
}
use furikup.Gui.Lines.{IsBox, IsPrintable, add_line-IsBox}

-- The nicknames fit into the array of the callee.
abbrev pub AreNamed : List Contact → Type 0
AreNamed [] = Unit {0}
AreNamed (c ∷ cs) = (length c.nickname < 100) × AreNamed cs

-- The cursor is in the array, and so are the contacts in use, of which there are some.
abbrev pub IsListed : Option (List Contact) → ℕ → ℤ → Type 0
IsListed (some cs) count (pos n) = (n < length cs) × (0 < count) × (count ≤ length cs) × AreNamed cs
IsListed _ _ _ = ⊥

pub record IsWell (g : Gui) : Type 0 where
  pub box : IsBox g
  pub listed : IsListed g.contacts g.contacts_count g.cur_pos

-- The operation stays in bounds, and leaves the interface well.
abbrev pub Goes : (Gui → Type 0) → Option Gui → Type 0
Goes P none = ⊥
Goes P (some g) = P g

pub >>=-Goes :
    (P Q : Gui → Type 0) (o : Option Gui) (f : Gui → Option Gui)
    → Goes P o
    → ((g : Gui) → P g → Goes Q (f g))
    → Goes Q (o >>= f)
>>=-Goes P Q none f h k = absurd h
>>=-Goes P Q (some g) f h k = k g h

-- What the fields that count do not depend on.
abbrev pub SameMenu : Gui → Gui → Type 0
SameMenu g h =
    (h.status_lines ≡ g.status_lines)
    × (h.num_status_lines ≡ g.num_status_lines)
    × (h.contacts ≡ g.contacts)
    × (h.contacts_count ≡ g.contacts_count)
    × (h.cur_pos ≡ g.cur_pos)

pub IsWell-SameMenu : (g h : Gui) → SameMenu g h → IsWell g → IsWell h
IsWell-SameMenu g h (lines, used, cs, count, at) w = record {
  box = record {
    rows_kept = ap length lines ∙ w.box.rows_kept;
    rows_used = subst (λ n. n ≤ 7) (sym used) w.box.rows_used;
  };
  listed =
      subst (λ o. IsListed o h.contacts_count h.cur_pos) (sym cs)
        (subst (λ n. IsListed g.contacts n h.cur_pos) (sym count)
          (subst (IsListed g.contacts g.contacts_count) (sym at) w.listed));
}

print_line-IsWell : (row : ℕ) (o : Option Bytes) (g : Gui) → IsWell g → IsWell (print_line row o g)
print_line-IsWell row none g w = IsWell-SameMenu g _ (refl, refl, refl, refl, refl) w
print_line-IsWell row (some t) g w = IsWell-SameMenu g _ (refl, refl, refl, refl, refl) w

print_lines-IsWell : (rows row : ℕ) (g : Gui) → IsWell g → IsWell (print_lines rows row g)
unfolding print_lines
print_lines-IsWell zero row g w = w
print_lines-IsWell (suc rows) row g w =
    print_lines-IsWell rows (row + 1) _ (print_line-IsWell row (get_elem? g.status_lines row) g w)

display_status_lines-IsWell : (g : Gui) → IsWell g → IsWell (display_status_lines g)
unfolding display_status_lines
display_status_lines-IsWell g w =
    print_lines-IsWell g.num_status_lines 0 _ (IsWell-SameMenu g _ (refl, refl, refl, refl, refl) w)

add_line-IsWell : (text : Bytes) (g : Gui) → IsWell g → IsWell (add_line text g)
unfolding add_line
add_line-IsWell text g w = record {
  box = add_line-IsBox text g w.box;
  listed = ground (arith, w.listed);
}

pub status_message-IsWell :
    (text : Bytes) (g : Gui) → IsPrintable text → IsWell g → Goes IsWell (status_message text g)
unfolding status_message
status_message-IsWell text g (short, free) w =
    rw (free, take_all 255 text (omega arith))
      (ground (arith, display_status_lines-IsWell (add_line text g) (add_line-IsWell text g w)))

pub clear_and_say-IsWell :
    (test : Bool) (text : Bytes) (g : Gui)
    → IsPrintable text
    → IsWell g
    → Goes IsWell (clear_and_say test text g)
unfolding clear_status_box
clear_and_say-IsWell true text g short w =
    status_message-IsWell text (clear_status_box g) short (record {
      box = record { rows_kept = w.box.rows_kept; rows_used = omega arith };
      listed = w.listed;
    })
clear_and_say-IsWell false text g short w = w

-- A text of the engine fits into a row and has no percent sign, and so does a caller behind the
-- greeting; the states of the
-- start are those that the engine raises.
abbrev pub IsShort : InEvent → Type 0
IsShort (incoming none index) = Unit {0}
IsShort (incoming (some name) index) = (length name < 52) × (has_percent name ≡ false)
IsShort (sip_state n) = Unit {0}
IsShort (startup n) = n < 3
IsShort (info_message text) = IsPrintable text
IsShort (error_message text) = IsPrintable text

settle-IsWell : (n : ℕ) (g : Gui) → IsWell g → Goes IsWell (settle n g)
unfolding set_redraw
settle-IsWell n g w = IsWell-SameMenu g _ (ground arith) w

establish-IsWell : (n : ℕ) (g : Gui) → IsWell g → Goes IsWell (establish n g)
unfolding stop_ringer
establish-IsWell n g w =
    >>=-Goes IsWell IsWell
      (clear_and_say (n == sip_established) (codes "Call established") (quiet_for n g)) (settle n)
      (clear_and_say-IsWell (n == sip_established) (codes "Call established") (quiet_for n g)
        (omega arith, refl) (IsWell-SameMenu g (quiet_for n g) (ground arith) w))
      (settle-IsWell n)

on_sip_state-IsWell : (n : ℕ) (g : Gui) → IsWell g → Goes IsWell (on_sip_state n g)
unfolding on_sip_state
on_sip_state-IsWell n g w =
    let leaves = ltb sip_connected g.current_state && leb n sip_connected in
    >>=-Goes IsWell IsWell (clear_and_say leaves (codes "Call cancelled") g) (establish n)
      (clear_and_say-IsWell leaves (codes "Call cancelled") g (omega arith, refl) w)
      (establish-IsWell n)

greet-IsWell :
    (index : ℤ) (name : Bytes) (g : Gui)
    → (length name < 52) × (has_percent name ≡ false)
    → IsWell g
    → Goes IsWell (greet index (some name) g)
unfolding set_redraw
greet-IsWell index name g (short, free) w =
    let text = codes "Incoming call... " ++ name in
    let h = record g { caller = name; caller_index = index } in
    >>=-Goes IsWell IsWell (status_message text h) _
      (status_message-IsWell text h
        (omega (arith, length-append (codes "Incoming call... ") name), free)
        (IsWell-SameMenu g h (refl, refl, refl, refl, refl) w))
      (λ k v. IsWell-SameMenu k _ (refl, refl, refl, refl, refl) v)

on_incoming-IsWell :
    (name : Option Bytes) (index : ℤ) (g : Gui)
    → IsShort (incoming name index)
    → IsWell g
    → Goes IsWell (on_incoming name index g)
unfolding on_incoming play_ringer
on_incoming-IsWell none index g short w =
    greet-IsWell index (codes "Unknown") (play_ringer g) (omega arith, refl)
      (IsWell-SameMenu g _ (ground arith) w)
on_incoming-IsWell (some name) index g short w =
    let e : strcpy 100 name ≡ some name = ground arith in
    rw e (greet-IsWell index name (play_ringer g) short (IsWell-SameMenu g _ (ground arith) w))

on_startup-IsWell : (n : ℕ) (g : Gui) → n < 3 → IsWell g → Goes IsWell (on_startup n g)
unfolding on_startup clear_status_box
on_startup-IsWell zero g short w =
    status_message-IsWell (codes "Starting up...") _ (omega arith, refl)
      (IsWell-SameMenu g _ (refl, refl, refl, refl, refl) w)
on_startup-IsWell (suc zero) g short w =
    status_message-IsWell (codes "Registering with server...") _ (omega arith, refl)
      (IsWell-SameMenu g _ (refl, refl, refl, refl, refl) w)
on_startup-IsWell (suc (suc zero)) g short w =
    clear_and_say-IsWell true (codes "Ready.") (record (out (set_xy 20 20) g) { startup = 2 })
      (omega arith, refl) (IsWell-SameMenu g _ (refl, refl, refl, refl, refl) w)
on_startup-IsWell (suc (suc (suc n))) g short w = absurd (omega arith)

-- Every event that fits.
pub handle-IsWell : (e : InEvent) (g : Gui) → IsShort e → IsWell g → Goes IsWell (handle e g)
unfolding handle
handle-IsWell (sip_state n) g short w = on_sip_state-IsWell n g w
handle-IsWell (incoming name index) g short w = on_incoming-IsWell name index g short w
handle-IsWell (startup n) g short w = on_startup-IsWell n g short w
handle-IsWell (info_message text) g short w = ground (arith, status_message-IsWell text g short w)
handle-IsWell (error_message text) g short w =
    >>=-Goes IsWell IsWell (status_message text g) _ (status_message-IsWell text g short w)
      (λ h v. IsWell-SameMenu h _ (refl, refl, refl, refl, refl) v)

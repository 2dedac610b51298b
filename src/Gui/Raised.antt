-- ===== src/Gui/Raised.antt =====
-- The events that the engine raises while it starts, in the status box of SIPTextGUI/text_gui.c.
use furikup.Prelude.{
  length-take_le, length-append, codes, zero, suc, pos, List, [], ◌∷◌, ◌++◌, map, Option, some,
  Bytes, ◌≡◌, refl, sym, ap, ◌∙◌, arith, append_assoc, append-nil,
}
use furikup.CString.{decimal}
use furikup.CString.Laws.{length-digits_le}
use furikup.Engine.{error_message, startup, incoming, sip_state, info_message}
use furikup.Gui.Types.{Gui, out, delay, set_xy}
use furikup.Gui.Handler.{handle, on_address_book, on_startup}
use furikup.Gui.Lines.{
  IsBox, box_lines, latest, latest_all, latest_more, IsPrintable, status_message-box_lines,
}
use furikup.Gui.Boot.{Raised, event, address_book, handle_one, handle_raised}
use furikup.Gui.Percent.{has_percent-append, has_percent-digits}

-- The message of an event that a start may raise: an error, the announcement of the address book, and
-- that the thread of the engine starts.
abbrev pub message_of : Raised → Bytes
message_of (event (error_message text)) = text
message_of (address_book b) =
    codes "Processed address book : " ++ (decimal (pos b.max_contact) ++ codes " contacts")
message_of _ = codes "Starting up..."

abbrev IsStarting : Raised → Type 0
IsStarting (event (error_message text)) = IsPrintable text
IsStarting (event (startup n)) = n ≡ 0
IsStarting (event _) = ⊥
IsStarting (address_book b) = Unit {0}

abbrev pub AreStarting : List Raised → Type 0
AreStarting [] = Unit {0}
AreStarting (e ∷ es) = IsStarting e × AreStarting es

-- The box shows one message more.
abbrev Adds : Bytes → Gui → Option Gui → Type 0
Adds text g o =
    (h : Gui) × (o ≡ some h) × IsBox h × (box_lines h ≡ latest 7 (box_lines g ++ text ∷ []))

one_handled :
    (e : Raised) (g : Gui) → IsStarting e → IsBox g → Adds (message_of e) g (handle_one e g)
unfolding handle on_address_book on_startup
one_handled (event (error_message text)) g s b =
    let (h, e, k, l) = status_message-box_lines text g b s in
    (
      out (delay 1000000) h,
      rw e refl,
      record { rows_kept = k.rows_kept; rows_used = k.rows_used },
      l,
    )
one_handled (event (startup zero)) g s b =
    status_message-box_lines (codes "Starting up...")
      (record (out (set_xy 20 20) g) { startup = 0 })
      (record { rows_kept = b.rows_kept; rows_used = b.rows_used }) (omega arith, refl)
one_handled (event (startup (suc n))) g s b = absurd (omega arith)
one_handled (event (incoming name i)) g s b = absurd s
one_handled (event (sip_state n)) g s b = absurd s
one_handled (event (info_message t)) g s b = absurd s
one_handled (address_book a) g s b =
    let number = decimal (pos a.max_contact) in
    status_message-box_lines (message_of (address_book a))
      (record g { contacts = some a.contacts; contacts_count = a.max_contact })
      (record { rows_kept = b.rows_kept; rows_used = b.rows_used })
      (
        omega (
          arith,
          length-append (codes "Processed address book : ") (number ++ codes " contacts"),
          length-append number (codes " contacts"),
          length-digits_le 10 a.max_contact,
        ),
        has_percent-append number (codes " contacts") (has_percent-digits 10 a.max_contact) refl,
      )

-- The events of the start are messages in the box.
pub start_handled :
    (es : List Raised) (g : Gui)
    → IsBox g
    → AreStarting es
    → (h : Gui) × (handle_raised es g ≡ some h)
      × IsBox h
      × (box_lines h ≡ latest 7 (box_lines g ++ map message_of es))
unfolding handle_raised
start_handled [] g b s = (
  g,
  refl,
  b,
  rw append-nil (
      sym (
        latest_all 7 (box_lines g)
          (omega (arith, b, length-take_le g.num_status_lines g.status_lines)))),
)
start_handled (e ∷ es) g b (short, s) =
    let (g₁, e₁, b₁, l₁) = one_handled e g short b in
    let (g₂, e₂, b₂, l₂) = start_handled es g₁ b₁ s in
    (
      g₂,
      rw e₁ e₂,
      b₂,
      l₂
          ∙ rw l₁ (latest_more (box_lines g ++ message_of e ∷ []) (map message_of es))
          ∙ ap (latest 7) (append_assoc (box_lines g) (message_of e ∷ []) (map message_of es)),
    )

-- ===== src/Gui/Lines.antt =====
-- The status box of SIPTextGUI/text_gui.c shows the latest seven messages.
use furikup.Prelude.{
  ℕ, zero, suc, ◌+◌, ◌-◌, ◌≤◌, ◌<◌, List, [], ◌∷◌, ◌++◌, Option, none, some, ◌≡◌, refl, sym, ap,
  ◌∙◌, inl, inr, false, arith, Bytes, ltb, Bool-cases, length, take, drop, set, get_elem?,
  length-append, length-set, length-take, length-drop, drop-append, drop-drop, take-set,
  length-take_le, take_all, append_assoc, append-nil,
}
use native.Mathlib.Numerals.{add-one}
use mathlib.Core.Path.{ap₂}
use furikup.Gui.Types.{Gui, ◌>>=◌}
use furikup.Gui.Status.{
  scroll, add_line, print_lines, display_status_lines, print_line, status_message, clear_status_box,
  has_percent,
}

-- The array has its eight rows, of which seven at most are in use.
pub record IsBox (g : Gui) : Type 0 where
  pub rows_kept : length g.status_lines ≡ 8
  pub rows_used : g.num_status_lines ≤ 7

-- The text fits into a row, and printf prints it as it is.
abbrev pub IsPrintable : Bytes → Type 0
IsPrintable text = (length text < 69) × (has_percent text ≡ false)

-- The texts in the box, from the top.
abbrev pub box_lines : Gui → List Bytes
box_lines g = take g.num_status_lines g.status_lines

-- The last n of a list.
abbrev pub latest {ℓ} : {A : Type ℓ} → ℕ → List A → List A
latest n xs = drop (length xs - n) xs

length-scroll : (n : ℕ) (xs : List Bytes) → length (scroll n xs) ≡ length xs
unfolding scroll
length-scroll zero xs = refl
length-scroll (suc n) [] = refl
length-scroll (suc n) (x ∷ []) = refl
length-scroll (suc n) (x ∷ y ∷ xs) = ap suc (length-scroll n (y ∷ xs))

take-scroll :
    (n : ℕ) (xs : List Bytes) → suc n ≤ length xs → take n (scroll n xs) ≡ drop 1 (take (suc n) xs)
unfolding scroll
take-scroll zero [] h = refl
take-scroll zero (x ∷ xs) h = refl
take-scroll (suc n) [] h = absurd (omega arith)
take-scroll (suc n) (x ∷ []) h = absurd (omega arith)
take-scroll (suc n) (x ∷ y ∷ xs) h = ap (◌∷◌ y) (take-scroll n (y ∷ xs) (omega arith))

pub latest_all {ℓ} : {A : Type ℓ} (n : ℕ) (xs : List A) → length xs ≤ n → latest n xs ≡ xs
latest_all n xs h = let e : length xs - n ≡ 0 = omega arith in rw e

-- What is left out once need not be looked at again.
pub latest_more {ℓ} :
    {A : Type ℓ} (xs ts : List A) → latest 7 (latest 7 xs ++ ts) ≡ latest 7 (xs ++ ts)
latest_more xs ts =
    let k = length xs - 7 in
    let m = length (drop k xs ++ ts) - 7 in
    ap (drop m) (sym (drop-append k xs ts (omega arith)))
    ∙ drop-drop m k (xs ++ ts)
    ∙ ap (λ n. drop n (xs ++ ts))
        (omega (arith, length-append xs ts, length-append (drop k xs) ts, length-drop k xs))

latest_room :
    (n : ℕ) (xs : List Bytes) (t : Bytes)
    → length xs ≡ 8
    → n ≤ 6
    → take (n + 1) (set xs n t) ≡ latest 7 (take n xs ++ t ∷ [])
latest_room n xs t e h = rw add-one (
    take-set n xs t (omega arith)
    ∙ sym (latest_all 7 _ (omega (arith, length-append (take n xs) (t ∷ []), length-take_le n xs))))

latest_full :
    (n : ℕ) (xs : List Bytes) (t : Bytes)
    → length xs ≡ 8
    → n ≡ 7
    → take n (set (scroll (n - 1) xs) (n - 1) t) ≡ latest 7 (take n xs ++ t ∷ [])
latest_full n xs t e h = rw h (
    take-set 6 (scroll 6 xs) t (omega (arith, length-scroll 6 xs))
    ∙ ap (λ ys. ys ++ t ∷ []) (take-scroll 6 xs (omega arith))
    ∙ sym (drop-append 1 (take 7 xs) (t ∷ []) (omega (arith, length-take 7 xs (omega arith))))
    ∙ ap (λ k. drop k (take 7 xs ++ t ∷ [])) {x = 1}
        (omega (arith, length-append (take 7 xs) (t ∷ []), length-take 7 xs (omega arith))))

add_line-box_lines :
    (text : Bytes) (g : Gui)
    → IsBox g
    → box_lines (add_line text g) ≡ latest 7 (box_lines g ++ text ∷ [])
unfolding add_line
add_line-box_lines text g b = elim (Bool-cases (ltb g.num_status_lines 7)) [
  | inl room ↦
      rw room (latest_room g.num_status_lines g.status_lines text b.rows_kept (ground arith))
  | inr full ↦
      rw full (latest_full g.num_status_lines g.status_lines text b.rows_kept (ground arith))
]

pub add_line-IsBox : (text : Bytes) (g : Gui) → IsBox g → IsBox (add_line text g)
unfolding add_line
add_line-IsBox text g b = ground (
  arith,
  length-set g.status_lines g.num_status_lines text,
  length-set (scroll (g.num_status_lines - 1) g.status_lines) (g.num_status_lines - 1) text,
  length-scroll (g.num_status_lines - 1) g.status_lines,
)

abbrev pub SameBox : Gui → Gui → Type 0
SameBox g h = (h.status_lines ≡ g.status_lines) × (h.num_status_lines ≡ g.num_status_lines)

print_line-SameBox : (row : ℕ) (o : Option Bytes) (g : Gui) → SameBox g (print_line row o g)
print_line-SameBox row none g = (refl, refl)
print_line-SameBox row (some t) g = (refl, refl)

print_lines-SameBox : (rows row : ℕ) (g : Gui) → SameBox g (print_lines rows row g)
unfolding print_lines
print_lines-SameBox zero row g = (refl, refl)
print_lines-SameBox (suc rows) row g =
    let h = print_line row (get_elem? g.status_lines row) g in
    let (e, k) = print_lines-SameBox rows (row + 1) h in
    let (e', k') = print_line-SameBox row (get_elem? g.status_lines row) g in (e ∙ e', k ∙ k')

pub display_status_lines-SameBox : (g : Gui) → SameBox g (display_status_lines g)
unfolding display_status_lines
display_status_lines-SameBox g = print_lines-SameBox g.num_status_lines 0 _

IsBox-SameBox : (g h : Gui) → SameBox g h → IsBox g → IsBox h
IsBox-SameBox g h (lines, used) b = record {
  rows_kept = ap length lines ∙ b.rows_kept;
  rows_used = omega arith;
}

-- A message that fits into a row is shown below the others, and of the messages shown the latest
-- seven stay; the box keeps its eight rows. Condition: the box has its eight rows, seven of them in
-- use at most.
pub status_message-box_lines :
    (text : Bytes) (g : Gui)
    → IsBox g
    → IsPrintable text
    → (h : Gui) × (status_message text g ≡ some h)
      × IsBox h
      × (box_lines h ≡ latest 7 (box_lines g ++ text ∷ []))
unfolding status_message
status_message-box_lines text g b (short, free) =
    let h = add_line text g in
    let (lines, used) = display_status_lines-SameBox h in
    (
      display_status_lines h,
      rw (free, take_all 255 text (omega arith)) (ground arith),
      IsBox-SameBox h _ (lines, used) (add_line-IsBox text g b),
      ap₂ take used lines ∙ add_line-box_lines text g b,
    )

-- A sequence of messages, the first one first.
abbrev pub say : List Bytes → Gui → Option Gui
say [] g = some g
say (text ∷ texts) g = status_message text g >>= say texts

abbrev pub AllShort : List Bytes → Type 0
AllShort [] = Unit {0}
AllShort (text ∷ texts) = IsPrintable text × AllShort texts

pub say-box_lines :
    (texts : List Bytes) (g : Gui)
    → IsBox g
    → AllShort texts
    → (h : Gui) × (say texts g ≡ some h) × IsBox h × (box_lines h ≡ latest 7 (box_lines g ++ texts))
say-box_lines [] g b s = (
  g,
  refl,
  b,
  rw append-nil (
      sym (
        latest_all 7 (box_lines g)
          (omega (arith, b, length-take_le g.num_status_lines g.status_lines)))),
)
say-box_lines (t ∷ ts) g b (short, s) =
    let (g₁, e₁, b₁, l₁) = status_message-box_lines t g b short in
    let (g₂, e₂, b₂, l₂) = say-box_lines ts g₁ b₁ s in
    (
      g₂,
      rw e₁ e₂,
      b₂,
      l₂
          ∙ rw l₁ (latest_more (box_lines g ++ t ∷ []) ts)
          ∙ ap (latest 7) (append_assoc (box_lines g) (t ∷ []) ts),
    )

-- After the box is cleared, which writes a NUL to the byte behind its rows, it shows the latest seven
-- of the messages that were given since, whatever it showed before. Conditions: each of them fits into
-- a row and has no percent sign, the array has its rows, and the byte behind them is none of the
-- interface's variables.
pub say-clear_status_box :
    (texts : List Bytes) (g : Gui)
    → length g.status_lines ≡ 8
    → AllShort texts
    → (h : Gui) × (say texts (clear_status_box g) ≡ some h) × (box_lines h ≡ latest 7 texts)
unfolding clear_status_box
say-clear_status_box texts g e s =
    let (h, d, b, l) =
      say-box_lines texts (clear_status_box g) (record { rows_kept = e; rows_used = omega arith })
        s in
    (h, d, l)

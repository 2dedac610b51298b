-- ===== src/Gui/Cells.antt =====
-- The cells that `cleanScreenRect` of SIPTextGUI/text_gui.c blanks.
use furikup.Prelude.{
  ℕ, zero, suc, ◌+◌, Bool, false, ◌&&◌, ◌||◌, List, [], ◌∷◌, ◌++◌, ◌≡◌, arith, ◌==◌, leb, ltb,
}
use furikup.Gui.Types.{Output, set_xy, print}
use furikup.Gui.Screen.{clean_row, clean_rows, clean_screen_rect}

-- Whether a blank is printed right behind a move of the cursor to (a, b).
abbrev pub blanks : List Output → ℕ → ℕ → Bool
blanks [] a b = false
blanks (set_xy x y ∷ print text ∷ os) a b = (x == a && y == b) || blanks os a b
blanks (_ ∷ os) a b = blanks os a b

clean_row_head :
    (cols x y a b : ℕ) (rest : List Output)
    → blanks (clean_row cols x y ++ rest) a b
      ≡ ((leb x a && ltb a (x + cols) && (y == b)) || blanks rest a b)
unfolding clean_row
clean_row_head zero x y a b rest = ground arith
clean_row_head (suc cols) x y a b rest = ground (arith, clean_row_head cols (x + 1) y a b rest)

clean_rows_lem :
    (rows cols x y a b : ℕ)
    → blanks (clean_rows rows cols x y) a b
      ≡ (leb x a && ltb a (x + cols) && (leb y b && ltb b (y + rows)))
unfolding clean_rows
clean_rows_lem zero cols x y a b = ground arith
clean_rows_lem (suc rows) cols x y a b =
    rw (clean_row_head cols x y a b (clean_rows rows cols x (y + 1)))
      (ground (arith, clean_rows_lem rows cols x (y + 1) a b))

-- A cell is blanked exactly when it lies in the rectangle of the given corner, width and height.
pub clean_screen_rect-blanks :
    (x y cx cy a b : ℕ)
    → blanks (clean_screen_rect x y cx cy) a b
      ≡ ((leb x a && ltb a (x + cx)) && (leb y b && ltb b (y + cy)))
unfolding clean_screen_rect
clean_screen_rect-blanks x y cx cy a b = ground (arith, clean_rows_lem cy cx x y a b)

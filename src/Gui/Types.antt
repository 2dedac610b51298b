-- ===== src/Gui/Types.antt =====
-- The globals of SIPTextGUI/text_gui.c, and what it does to the screen and the kernel.
use furikup.Prelude.{ℕ, ℤ, pos, negsuc, Bool, false, List, [], ◌∷◌, Option, none, Bytes, replicate}
use furikup.AddressBook.{Contact}

-- Every output, the latest first in `Gui.outputs`. `clean` is a call of `cleanScreenRect`, with the
-- column, the row, the width and the height; `Screen` has the cells that it blanks.
pub data Output : Type 0 where
  set_xy : ℕ → ℕ → Output
  print : Bytes → Output
  clean : ℕ → ℕ → ℕ → ℕ → Output
  start_ringer : Output
  delay : ℕ → Output

pub record Gui : Type 0 where
  -- the pointer to the engine's contacts, null before the address book is announced
  pub contacts : Option (List Contact)
  pub contacts_count : ℕ
  pub current_state : ℕ
  pub caller : Bytes
  pub callee : Bytes
  pub caller_index : ℤ
  pub startup : ℕ
  pub cur_pos : ℤ
  pub quit : Bool
  pub redraw : Bool
  pub status_lines : List Bytes
  pub num_status_lines : ℕ
  -- the byte that the linker puts behind `gStatusLines`
  pub behind_status_lines : ℕ
  pub ring_file : ℤ
  pub ringing : Bool
  pub show_infos : Bool
  pub outputs : List Output

abbrev pub initial_gui : Gui
initial_gui = record {
  contacts = none;
  contacts_count = 0;
  current_state = 0;
  caller = [];
  callee = [];
  caller_index = negsuc 0;
  startup = 0;
  cur_pos = pos 0;
  quit = false;
  redraw = false;
  status_lines = replicate 8 [];
  num_status_lines = 0;
  behind_status_lines = 0;
  ring_file = negsuc 0;
  ringing = false;
  show_infos = false;
  outputs = [];
}

abbrev pub out : Output → Gui → Gui
out o g = record g { outputs = o ∷ g.outputs }

-- `none` is a write or a read outside an array, or a division by 0.
infixl 5 ◌>>=◌
abbrev pub ◌>>=◌ : Option Gui → (Gui → Option Gui) → Option Gui
m >>= f = elim m [ none ↦ none | Option.some g ↦ f g ]

unfoldable pub set_redraw : Bool → Gui → Gui
set_redraw val g = record g { redraw = val }

-- ===== src/Gui/Unbroken.antt =====
-- SIPTextGUI/text_gui.c, the loop of `main`: with contacts to show, and texts that fit, nothing goes
-- out of bounds.
use furikup.Prelude.{List, [], ◌∷◌}
use furikup.Engine.{InEvent}
use furikup.Gui.Types.{Gui}
use furikup.Gui.Loop.{Look, Progress, waiting, finished, fault}
use furikup.Gui.Well.{IsWell, IsShort}

abbrev AreShort : List InEvent → Type 0
AreShort [] = Unit {0}
AreShort (e ∷ es) = IsShort e × AreShort es

abbrev pub AreShortLooks : List Look → Type 0
AreShortLooks [] = Unit {0}
AreShortLooks (x ∷ xs) = AreShort x.events × AreShortLooks xs

-- The loop has met no fault.
abbrev pub IsUnbroken : Progress → Type 0
IsUnbroken (waiting m g) = IsWell g
IsUnbroken (finished g) = IsWell g
IsUnbroken fault = ⊥

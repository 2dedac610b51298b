-- ===== src/AudioFreq.antt =====
-- AudioFreq/main.c: the module of the kernel that sets the rate of the sound to 48000 samples a second.
use furikup.Prelude.{ℕ, ◌-◌, ◌%◌, ℤ, pos, negsuc, List, [], ◌∷◌, ◌==◌, if◌then◌else◌}

pub data FreqCall : Type 0 where
  set_frequency set_frequency371 : ℕ → FreqCall

-- An int as it is compared with an unsigned constant.
abbrev pub as_unsigned : ℤ → ℕ
as_unsigned (pos n) = n
as_unsigned (negsuc n) = 4294967295 - n % 4294967296

-- On the answer to the first call: the result, and the calls. The second is made where the first is
-- not linked, 0x8002013A.
unfoldable pub module_start : ℤ → ℤ × List FreqCall
module_start answer = (
  pos 1,
  set_frequency 48000
      ∷ (if as_unsigned answer == 2147614010 then set_frequency371 48000 ∷ [] else []),
)

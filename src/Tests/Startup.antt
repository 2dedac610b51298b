-- ===== src/Tests/Startup.antt =====
-- SIPEngine/sipengine.c: the engine started with a camera, and without a network.
use furikup.Prelude.{ℤ, pos, negsuc, true, false, [], ◌∷◌, some, ◌≡◌, refl}
use furikup.Config.{Config, initial_config}
use furikup.Startup.{Call, listen, initialize}
use furikup.Startup.Order.{Truthful, initialize-Truthful}
use furikup.Startup.Success.{Well, initialize-returns}

abbrev pub with_camera : Config
with_camera = record initial_config { use_usb = true; use_video = true }

abbrev pub all_zero : Call → ℤ
all_zero c = pos 0

abbrev pub no_port : Call → ℤ
no_port listen = negsuc 0
no_port _ = pos 0

all_zero-Well : Well all_zero
all_zero-Well = record { fine = λ c. refl; sip = refl; port = refl }

initialize-Truthful_example : Truthful (initialize with_camera no_port (false ∷ true ∷ []))
initialize-Truthful_example = initialize-Truthful with_camera no_port (false ∷ true ∷ [])

initialize-returns_example :
    (initialize with_camera all_zero (false ∷ false ∷ true ∷ [])).returned ≡ some (pos 0)
initialize-returns_example = initialize-returns with_camera all_zero 2 [] all_zero-Well

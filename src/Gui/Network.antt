-- ===== src/Gui/Network.antt =====
-- SIPTextGUI/text_gui.c: the threads of the exit callback, and `connect_to_apctl` and
-- `UnloadModules`, which nothing calls.
use furikup.Prelude.{
  ℕ, zero, suc, ◌+◌, ◌-◌, ◌/◌, ◌%◌, ℤ, pos, negsuc, is_neg, Bool, false, List, [], ◌∷◌, ◌++◌,
  Option, none, some, Bytes, codes, ltb, ◌==◌, if◌then◌else◌,
}
use furikup.Gui.Types.{Gui, out, delay}
use furikup.Gui.Status.{clear_status_box, status_message}
use furikup.Gui.Boot.{NetModule, common, inet, hex_of}

pub data KernelCall : Type 0 where
  create_thread : KernelCall
  start_thread : ℤ → KernelCall
  create_exit_callback : KernelCall
  register_exit_callback : ℤ → KernelCall
  sleep : KernelCall

-- On the id that the kernel gives the thread: the result, and the calls.
unfoldable pub setup_callbacks : ℤ → ℤ × List KernelCall
setup_callbacks thid = (thid, create_thread ∷ (if is_neg thid then [] else start_thread thid ∷ []))

-- On the id of the callback.
unfoldable pub callback_thread : ℤ → ℤ × List KernelCall
callback_thread cbid = (pos 0, create_exit_callback ∷ register_exit_callback cbid ∷ sleep ∷ [])

pub data UnloadCall : Type 0 where
  unload_net_module : NetModule → UnloadCall
  print_unload_error : ℤ → UnloadCall

-- Both modules, the second only behind the first.
unfoldable pub unload_net_modules : (NetModule → ℤ) → ℤ × List UnloadCall
unload_net_modules answers =
    if is_neg (answers common)
    then (answers common, unload_net_module common ∷ print_unload_error (answers common) ∷ [])
    else if is_neg (answers inet)
    then (
      answers inet,
      unload_net_module common ∷ unload_net_module inet ∷ print_unload_error (answers inet) ∷ [],
    )
    else (pos 0, unload_net_module common ∷ unload_net_module inet ∷ [])

abbrev pub equals : ℕ → ℤ → Bool
equals n (pos m) = m == n
equals n (negsuc m) = false

abbrev pub low_hex_digit : ℕ → ℕ
low_hex_digit d = if ltb d 10 then b'0' + d else b'a' + (d - 10)

-- `%x` of a number with at most `fuel` digits; an int has eight.
unfoldable pub hex_digits : ℕ → ℕ → Bytes
hex_digits zero n = []
hex_digits (suc fuel) n =
    let more = hex_digits fuel (n / 16) ++ low_hex_digit (n % 16) ∷ [] in
    if ltb n 16 then low_hex_digit n ∷ [] else more

abbrev pub low_hex_of : ℤ → Bytes
low_hex_of (pos n) = hex_digits 8 n
low_hex_of (negsuc n) = hex_digits 8 (4294967295 - n % 4294967296)

-- `waiting` where the connection is neither there nor lost; otherwise the result.
pub data Attempt : Type 0 where
  fault : Attempt
  waiting : Gui → Attempt
  ended : ℤ → Gui → Attempt

abbrev pub goes_on : Option Gui → (Gui → Attempt) → Attempt
goes_on none k = fault
goes_on (some g) k = k g

abbrev pub connected : Gui → Attempt
connected g =
    goes_on (status_message (codes ": connected!") g)
      (λ h. ended (pos 1) (clear_status_box (out (delay 200000) h)))

abbrev pub lost : ℤ → Gui → Attempt
lost err g =
    goes_on (status_message (codes ": sceNetApctlGetState returns $" ++ low_hex_of err) g) (λ h.
      goes_on (status_message (codes ": Failed to connect!") h)
        (λ k. ended (pos 0) (out (delay 1000000) k)))

-- The loop, on the code and the state of each poll. The highest state is kept and not used.
unfoldable pub poll : List (ℤ × ℤ) → Gui → Attempt
unfolding clear_status_box status_message hex_digits
poll [] g = waiting g
poll ((err, state) ∷ polls) g =
    let rest = poll polls (out (delay 50000) g) in
    if equals 0 err then (if equals 4 state then connected g else rest) else lost err g

unfoldable pub connect_to_apctl : ℤ → List (ℤ × ℤ) → Gui → Attempt
unfolding poll
connect_to_apctl err polls g =
    goes_on (status_message (codes "Attempting to connect to network...") g) (λ h.
      if equals 0 err
      then goes_on (status_message (codes ": Connecting...") h) (poll polls)
      else goes_on (status_message (codes ": sceNetApctlConnect returns " ++ hex_of err) h)
          (ended (pos 0)))

-- ===== src/Player/Defs.antt =====
-- The thread, a step from one access of the shared flag to the next, and the threads together.
use furikup.Prelude.{
  ℕ, ℤ, is_neg, Bool, true, false, List, [], ◌∷◌, some, ◌≡◌, if◌then◌else◌, get_elem?, set,
}

-- Where the thread stands.
pub data Place : Type 0 where
  -- before `while (ringback)`, and before the read
  head reading : Place
  -- behind a read that gave data, before `&& ringback`
  got_data : Place
  -- before `if (ringback)`, and in the delay of two seconds
  file_ended pausing : Place
  exited : Place

-- A step of the thread, with what the flag holds, and whether a read gives anything but 0. The block
-- that was read is played on the way from `got_data` to `reading`.
unfoldable pub advance : Bool → Bool → Place → Place
advance ringing more head = if ringing then reading else exited
advance ringing more reading = if more then got_data else file_ended
advance ringing more got_data = if ringing then reading else file_ended
advance ringing more file_ended = if ringing then pausing else head
advance ringing more pausing = head
advance ringing more exited = exited

unfoldable pub plays_block : Bool → Place → Bool
plays_block ringing got_data = ringing
plays_block ringing _ = false

-- The flag, the handle of the file, and every thread that was ever started.
pub record Players : Type 0 where
  pub ringing : Bool
  pub file : ℤ
  pub threads : List Place

abbrev pub silent : ℤ → Players
silent file = record { ringing = false; file = file; threads = [] }

-- `playRingback`: without a file only the flag is set.
unfoldable pub play : Players → Players
play s =
    if is_neg s.file
    then record s { ringing = true }
    else record s { ringing = true; threads = head ∷ s.threads }

-- `stopRingback`.
unfoldable pub stop : Players → Players
stop s = record s { ringing = false }

abbrev pub move : ℕ → Bool → Place → Players → Players
move i more p s = record s { threads = set s.threads i (advance s.ringing more p) }

-- What can happen next: the two functions are called, or one of the threads makes a step.
pub data Step (s : Players) : Players → Type 0 where
  played : Step s (play s)
  stopped : Step s (stop s)
  moved :
      (i : ℕ) (more : Bool) (p : Place) → get_elem? s.threads i ≡ some p → Step s (move i more p s)

pub data Reach (s : Players) : Players → Type 0 where
  here : Reach s s
  next : {t u : Players} → Reach s t → Step t u → Reach s u

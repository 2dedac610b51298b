-- ===== src/Engine/Semaphore.antt =====
-- The calls of eXosip2's lock in SIPEngine/call_api.c, on the semaphore that the lock is on the PSP:
-- it counts to one, and is waited for without a timeout.
use furikup.Prelude.{
  pos, negsuc, Bool, true, false, List, [], ◌∷◌, ◌&&◌, Option, some, ◌≡◌, if◌then◌else◌,
}
use furikup.Engine.Types.{
  CallState, OutEvent, shutdown, Effect, lock, unlock, Engine, Outcome, running, returned, fault,
}
use furikup.Engine.Shutdown.{is_connected}

-- The semaphore as the thread of the engine finds it: free, taken by the thread itself, or waited
-- for by the thread that has taken it, which nobody ends.
pub data Semaphore : Type 0 where
  free : Semaphore
  taken : Semaphore
  blocked : Semaphore

unfoldable pub locked : Semaphore → Semaphore
locked free = taken
locked taken = blocked
locked blocked = blocked

unfoldable pub unlocked : Semaphore → Semaphore
unlocked free = free
unlocked taken = free
unlocked blocked = blocked

-- The calls of a trace, carried out one after the other.
abbrev pub semaphore : List Effect → Semaphore
semaphore [] = free
semaphore (lock ∷ es) = locked (semaphore es)
semaphore (unlock ∷ es) = unlocked (semaphore es)
semaphore (_ ∷ es) = semaphore es

-- Between two calls: the lock is not the thread's, or the thread waits.
abbrev Rests : Semaphore → Type 0
Rests m = unlocked (locked m) ≡ m

-- A thread that goes on, or returns -1, leaves the semaphore as it was. One that returns 0 from inside
-- its loop has taken it once more.
abbrev pub Leaves : Semaphore → Outcome → Type 0
Leaves m (running s) = semaphore s.trace ≡ m
Leaves m (returned (negsuc _) s) = semaphore s.trace ≡ m
Leaves m (returned (pos _) s) = semaphore s.trace ≡ locked m
Leaves m fault = Unit {0}

abbrev Same : Semaphore → Outcome → Type 0
Same m (running s) = semaphore s.trace ≡ m
Same m (returned _ s) = semaphore s.trace ≡ m
Same m fault = Unit {0}

-- The request that the interface has made is to shut down an engine that is connected.
abbrev pub shuts_down : Option OutEvent → Bool
shuts_down (some shutdown) = true
shuts_down _ = false

abbrev pub found : Bool → CallState → Semaphore
found ends c = if ends && is_connected c then blocked else free

-- ===== src/Engine/Blocked.antt =====
-- The second `eXosip_lock` of `disconnectSipServer` in SIPEngine/call_api.c, on the PSP.
use furikup.Prelude.{ℤ, pos, false, List, ◌∷◌, ◌≡◌}
use furikup.Engine.Types.{
  registered, disconnecting, Effect, lock, build_register, send_register, Engine, Outcome, returned,
}
use furikup.Engine.Semaphore.{free, blocked, semaphore}

-- Behind the call that is given up, the engine is registered.
abbrev Ready : Engine → Engine → Type 0
Ready s v =
    (v.current_state ≡ registered) × (semaphore v.trace ≡ free) × (v.rid ≡ s.rid) × (v.quit ≡ false)

-- The thread waits for itself behind its second lock, with the interface waiting for it.
abbrev pub Waits : ℤ → Outcome → Type 0
Waits rid (returned rc u) =
    (rc ≡ pos 0)
    × (semaphore u.trace ≡ blocked)
    × ((es : List Effect) × (u.trace ≡ lock ∷ send_register rid ∷ build_register rid 0 ∷ lock ∷ es)
        × (semaphore es ≡ free))
    × (u.current_state ≡ disconnecting)
    × (u.quit ≡ false)
    × (u.callback_done ≡ false)
Waits rid _ = ⊥

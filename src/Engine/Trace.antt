-- ===== src/Engine/Trace.antt =====
-- Readings of the trace of SIPEngine/call_api.c, each by its effects alone: what the GUI was last
-- told, the media sessions opened and closed, the ring-back tone, the locks, the registrations.
use furikup.Prelude.{
  ℕ, ◌+◌, Bool, true, false, ◌||◌, List, [], ◌∷◌, Option, none, some, ◌==◌, if◌then◌else◌,
}
use furikup.Engine.Control.{sip_connected, sip_established}
use furikup.Engine.Types.{
  incoming, sip_state, Effect, gui, lock, unlock, build_initial_register, audio_setup, video_setup,
  audio_stop, video_stop, play_ringback, stop_ringback, Engine, Outcome, running, returned, fault,
  ◌>>=◌,
}

-- The state that the GUI was told last; its own variable starts at 0.
abbrev pub shown : List Effect → ℕ
shown [] = 0
shown (gui (sip_state n) ∷ es) = n
shown (_ ∷ es) = shown es

-- How many effects of a kind there are.
abbrev pub total : (Effect → ℕ) → List Effect → ℕ
total weight [] = 0
total weight (e ∷ es) = weight e + total weight es

abbrev pub is_audio_setup : Effect → ℕ
is_audio_setup (audio_setup _ _) = 1
is_audio_setup _ = 0

abbrev pub is_audio_stop : Effect → ℕ
is_audio_stop audio_stop = 1
is_audio_stop _ = 0

abbrev pub is_video_setup : Effect → ℕ
is_video_setup (video_setup _ _) = 1
is_video_setup _ = 0

abbrev pub is_video_stop : Effect → ℕ
is_video_stop video_stop = 1
is_video_stop _ = 0

-- An open session, if the set-ups and stops alternate and begin with a set-up; `none` if not.
abbrev pub after_setup : Option Bool → Option Bool
after_setup (some false) = some true
after_setup _ = none

abbrev pub after_stop : Option Bool → Option Bool
after_stop (some true) = some false
after_stop _ = none

abbrev pub audio_open : List Effect → Option Bool
audio_open [] = some false
audio_open (audio_setup _ _ ∷ es) = after_setup (audio_open es)
audio_open (audio_stop ∷ es) = after_stop (audio_open es)
audio_open (_ ∷ es) = audio_open es

abbrev pub video_open : List Effect → Option Bool
video_open [] = some false
video_open (video_setup _ _ ∷ es) = after_setup (video_open es)
video_open (video_stop ∷ es) = after_stop (video_open es)
video_open (_ ∷ es) = video_open es

abbrev pub is_lock : Effect → ℕ
is_lock lock = 1
is_lock _ = 0

abbrev pub is_unlock : Effect → ℕ
is_unlock unlock = 1
is_unlock _ = 0

abbrev pub is_registration : Effect → ℕ
is_registration (build_initial_register _ _ _) = 1
is_registration _ = 0

-- Whether the ring-back tone was last switched on.
abbrev pub tone : List Effect → Bool
tone [] = false
tone (play_ringback ∷ es) = true
tone (stop_ringback ∷ es) = false
tone (_ ∷ es) = tone es

-- Whether the GUI was told of a caller, and of no connection and no established call since.
abbrev pub rings : List Effect → Bool
rings [] = false
rings (gui (incoming _ _) ∷ es) = true
rings (gui (sip_state n) ∷ es) =
    let before = rings es in if n == sip_established || n == sip_connected then false else before
rings (_ ∷ es) = rings es

-- A predicate on the engine, wherever the thread stands.
abbrev pub Always : (Engine → Type 0) → Outcome → Type 0
Always P (running s) = P s
Always P (returned _ s) = P s
Always P fault = Unit {0}

pub >>=-Always :
    (P : Engine → Type 0) (o : Outcome) (f : Engine → Outcome)
    → Always P o
    → ((s : Engine) → P s → Always P (f s))
    → Always P (o >>= f)
>>=-Always P (running s) f h k = k s h
>>=-Always P (returned rc s) f h k = h
>>=-Always P fault f h k = tt

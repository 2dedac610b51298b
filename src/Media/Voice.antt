-- ===== src/Media/Voice.antt =====
-- The calls of SIPEngine/call_api.c that SIPEngine/audio.c carries out.
use furikup.Prelude.{ℕ, ℤ, Bool, true, false, List, [], ◌∷◌, Option, none, some, ◌≡◌, refl, arith}
use mathlib.Core.Path.{subst}
use furikup.Config.{Config}
use furikup.Engine.{Effect, audio_setup, audio_stop, Turn, initial_engine, call_thread}
use furikup.Engine.Trace.{audio_open, after_setup, after_stop, Always}
use furikup.Engine.Invariant.{Inv, is_answered, call_thread-Inv}
use furikup.Audio.Session.{Remote, Audio, initial_audio, rtp_audio_setup, rtp_audio_stop}
use furikup.Media.Peers.{Peer, IsComplete, weaken-Always}

module _ (p : Peer) where
  abbrev pub apply_audio : Effect → Audio → Option Audio
  apply_audio (audio_setup tid incoming) a =
      rtp_audio_setup (p.audio_port tid) (p.audio tid) incoming a
  apply_audio audio_stop a = rtp_audio_stop a
  apply_audio _ a = some a

  abbrev pub then_audio : Effect → Option Audio → Option Audio
  then_audio e none = none
  then_audio e (some a) = apply_audio e a

  unfoldable pub replay_audio : List Effect → Option Audio
  unfolding rtp_audio_setup rtp_audio_stop
  replay_audio [] = some initial_audio
  replay_audio (e ∷ es) = then_audio e (replay_audio es)

-- The session is open or not, as `open` says, and none was lost.
abbrev pub IsOpen : Option Bool → Option Audio → Type 0
IsOpen none o = Unit {0}
IsOpen (some b) none = ⊥
IsOpen (some b) (some a) = (a.live ≡ b) × (a.lost ≡ 0)

setup-IsOpen :
    (port : ℕ) (r : Remote) (incoming : Bool) (o : Option Bool) (a : Audio)
    → IsComplete r
    → IsOpen o (some a)
    → IsOpen (after_setup o) (rtp_audio_setup port r incoming a)
unfolding rtp_audio_setup
setup-IsOpen port r incoming none a c h = tt
setup-IsOpen port r incoming (some true) a c h = tt
setup-IsOpen port r incoming (some false) a c h = ground arith

stop-IsOpen :
    (o : Option Bool) (a : Audio) → IsOpen o (some a) → IsOpen (after_stop o) (rtp_audio_stop a)
unfolding rtp_audio_stop
stop-IsOpen none a h = tt
stop-IsOpen (some false) a h = tt
stop-IsOpen (some true) a h = ground arith

no_audio-setup : (o : Option Bool) → IsOpen o none → IsOpen (after_setup o) none
no_audio-setup none h = tt
no_audio-setup (some b) h = absurd h

no_audio-stop : (o : Option Bool) → IsOpen o none → IsOpen (after_stop o) none
no_audio-stop none h = tt
no_audio-stop (some b) h = absurd h

then-IsOpen :
    (p : Peer) (e : Effect) (es : List Effect) (o : Option Audio)
    → ((tid : ℤ) → IsComplete (p.audio tid))
    → IsOpen (audio_open es) o
    → IsOpen (audio_open (e ∷ es)) (then_audio p e o)
then-IsOpen p (audio_setup tid incoming) es (some a) c h =
    setup-IsOpen (p.audio_port tid) (p.audio tid) incoming (audio_open es) a (c tid) h
then-IsOpen p (audio_setup tid incoming) es none c h = no_audio-setup (audio_open es) h
then-IsOpen p audio_stop es (some a) c h = stop-IsOpen (audio_open es) a h
then-IsOpen p audio_stop es none c h = no_audio-stop (audio_open es) h
then-IsOpen p _ es (some a) c h = h
then-IsOpen p _ es none c h = h

replay_audio-IsOpen :
    (p : Peer) (es : List Effect)
    → ((tid : ℤ) → IsComplete (p.audio tid))
    → IsOpen (audio_open es) (replay_audio p es)
unfolding replay_audio
replay_audio-IsOpen p [] c = (refl, refl)
replay_audio-IsOpen p (e ∷ es) c =
    then-IsOpen p e es (replay_audio p es) c (replay_audio-IsOpen p es c)

-- Whatever the interface asks, whatever events come in and whatever the libraries answer, wherever
-- the thread stands or has returned: if every description has an audio medium with an address and a
-- payload, then the calls of the engine, carried out by audio.c, follow no null pointer, destroy no
-- session twice, leave none behind without a pointer to it, and the session is open exactly in an
-- established call.
pub call_thread-IsOpen :
    (p : Peer) (c : Config) (id : ℤ) (ts : List Turn)
    → ((tid : ℤ) → IsComplete (p.audio tid))
    → Always
        (λ s. IsOpen (some (is_answered s.current_state)) (replay_audio p s.trace))
        (call_thread id ts (initial_engine c))
call_thread-IsOpen p c id ts complete =
    weaken-Always Inv _ (call_thread id ts (initial_engine c))
      (λ s h.
        subst (λ o. IsOpen o (replay_audio p s.trace)) h.audio_session
          (replay_audio-IsOpen p s.trace complete))
      (call_thread-Inv c id ts)

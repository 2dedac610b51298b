-- ===== src/Media/Picture.antt =====
-- The calls of SIPEngine/call_api.c that SIPEngine/video.c carries out.
use furikup.Prelude.{
  ℕ, ℤ, Bool, true, false, not, List, [], ◌∷◌, Option, none, some, ◌≡◌, ◌⊎◌, inl, inr, arith,
}
use mathlib.Core.Path.{subst}
use furikup.Config.{Config}
use furikup.Engine.{Effect, video_setup, video_stop, Turn, initial_engine, call_thread}
use furikup.Engine.Trace.{video_open, after_setup, after_stop, Always}
use furikup.Engine.Invariant.{Inv, is_answered, call_thread-Inv}
use furikup.Audio.Session.{Remote}
use furikup.Video.{Camera, init_video, Video, initial_video, rtp_video_setup, rtp_video_stop}
use furikup.Media.Peers.{Peer, IsComplete, weaken-Always}

module _ (p : Peer) (camera : Camera) where
  abbrev pub apply_video : Effect → Video → Option Video
  apply_video (video_setup tid incoming) v =
      rtp_video_setup (p.video_port tid) (p.video tid) incoming v
  apply_video video_stop v = rtp_video_stop v
  apply_video _ v = some v

  abbrev pub then_video : Effect → Option Video → Option Video
  then_video e none = none
  then_video e (some v) = apply_video e v

  unfoldable pub replay_video : List Effect → Option Video
  unfolding rtp_video_setup rtp_video_stop init_video
  replay_video [] = some (init_video camera initial_video)
  replay_video (e ∷ es) = then_video e (replay_video es)

-- A description has no picture, or one with an address and a payload.
abbrev pub IsUsable : Remote → Type 0
IsUsable r = (r.media ≡ none) ⊎ IsComplete r

-- The session is open only if `open` says so, none was lost, and `stopVideo` says whether it is open.
abbrev pub IsShown : Option Bool → Option Video → Type 0
IsShown none o = Unit {0}
IsShown (some b) none = ⊥
IsShown (some b) (some v) =
    (v.stop_video ≡ not v.live) × (v.lost ≡ 0) × (b ≡ false → v.live ≡ false)

setup-IsShown :
    (port : ℕ) (r : Remote) (incoming : Bool) (o : Option Bool) (v : Video)
    → IsUsable r
    → IsShown o (some v)
    → IsShown (after_setup o) (rtp_video_setup port r incoming v)
unfolding rtp_video_setup
setup-IsShown port r incoming none v c h = tt
setup-IsShown port r incoming (some true) v c h = tt
setup-IsShown port r incoming (some false) v (inl e) h = ground arith
setup-IsShown port r incoming (some false) v (inr c) h = ground arith

stop-IsShown :
    (o : Option Bool) (v : Video) → IsShown o (some v) → IsShown (after_stop o) (rtp_video_stop v)
unfolding rtp_video_stop
stop-IsShown none v h = tt
stop-IsShown (some false) v h = tt
stop-IsShown (some true) v h = ground arith

no_video-setup : (o : Option Bool) → IsShown o none → IsShown (after_setup o) none
no_video-setup none h = tt
no_video-setup (some b) h = absurd h

no_video-stop : (o : Option Bool) → IsShown o none → IsShown (after_stop o) none
no_video-stop none h = tt
no_video-stop (some b) h = absurd h

module _ (p : Peer) (camera : Camera) (usable : (tid : ℤ) → IsUsable (p.video tid)) where
  then-IsShown :
      (e : Effect) (es : List Effect) (o : Option Video)
      → IsShown (video_open es) o
      → IsShown (video_open (e ∷ es)) (then_video p camera e o)
  then-IsShown (video_setup tid incoming) es (some v) h =
      setup-IsShown (p.video_port tid) (p.video tid) incoming (video_open es) v (usable tid) h
  then-IsShown (video_setup tid incoming) es none h = no_video-setup (video_open es) h
  then-IsShown video_stop es (some v) h = stop-IsShown (video_open es) v h
  then-IsShown video_stop es none h = no_video-stop (video_open es) h
  then-IsShown _ es (some v) h = h
  then-IsShown _ es none h = h

  replay_video-IsShown : (es : List Effect) → IsShown (video_open es) (replay_video p camera es)
  unfolding replay_video
  replay_video-IsShown [] = ground arith
  replay_video-IsShown (e ∷ es) =
      then-IsShown e es (replay_video p camera es) (replay_video-IsShown es)

  -- Whatever the camera and the libraries answer, the interface asks and the network brings, wherever
  -- the thread stands or has returned: if every description has no video medium, or one with an
  -- address and a payload, then the calls of the engine, carried out by video.c, follow no null
  -- pointer, destroy no session twice and leave none behind without a pointer to it; `stopVideo` is
  -- set exactly while no session is open, and one is open at most in an established call.
  pub call_thread-IsShown :
      (c : Config) (id : ℤ) (ts : List Turn)
      → Always
          (λ s. IsShown (some (is_answered s.current_state)) (replay_video p camera s.trace))
          (call_thread id ts (initial_engine c))
  call_thread-IsShown c id ts =
      weaken-Always Inv _ (call_thread id ts (initial_engine c))
        (λ s h.
          subst (λ o. IsShown o (replay_video p camera s.trace)) h.video_session
            (replay_video-IsShown s.trace))
        (call_thread-Inv c id ts)

-- ===== src/Engine/Calls.antt =====
-- Calls in SIPEngine/call_api.c: placing one, hanging up, and being called.
use furikup.Prelude.{
  ℕ, ℤ, pos, negsuc, ◌+◌, Bool, true, false, List, [], ◌∷◌, Option, none, some, ◌≡◌, ◌⊎◌, refl,
  arith, Bytes, if◌then◌else◌,
}
use furikup.Codec.{Ports, create_local_sdp}
use furikup.Engine.Types.{
  CallState, registered, in_call, incoming_call, answered, call_invite, call_ack, ExosipEvent,
  OutEvent, answer, shutdown, unknown, new_call, change_presence, Effect, call_terminate,
  send_invite, send_answer, audio_setup, Engine, Answers, Outcome, running, returned, fault,
}
use furikup.Engine.Control.{
  make_call, hangup_call, gui_callback, call_address, call_out, reply, answer_call,
  publish_presence,
}
use furikup.Engine.Thread.{Turn, run, turn}
use furikup.Engine.Trace.{total, is_audio_stop, is_video_stop, Always}
use furikup.Engine.Invariant.{sessions}

abbrev pub is_invite : Effect → ℕ
is_invite (send_invite _ _) = 1
is_invite _ = 0

abbrev pub is_terminate : Effect → ℕ
is_terminate (call_terminate _ _) = 1
is_terminate _ = 0

-- The ids of the call that was terminated last.
abbrev pub last_terminated : List Effect → Option (ℤ × ℤ)
last_terminated [] = none
last_terminated (call_terminate c d ∷ es) = some (c, d)
last_terminated (_ ∷ es) = last_terminated es

abbrev pub has_call : CallState → Bool
has_call in_call = true
has_call incoming_call = true
has_call answered = true
has_call _ = false

-- What hanging up leads to from a state.
abbrev pub after_hangup : CallState → CallState
after_hangup c = if has_call c then registered else c

-- `hangupCall` ends a call in each of its three states and none in the others: it sends one
-- termination, for the ids that the engine holds, clears these ids, stops the audio and the video
-- if they were running, and goes back to the registered state. Without a call it changes nothing.
pub hangup_call_lem :
    (s : Engine)
    → let t = hangup_call s in
      (t.current_state ≡ after_hangup s.current_state)
      × (total is_terminate t.trace
          ≡ total is_terminate s.trace + (if has_call s.current_state then 1 else 0))
      × (total is_audio_stop t.trace ≡ total is_audio_stop s.trace + sessions s.current_state)
      × (total is_video_stop t.trace ≡ total is_video_stop s.trace + sessions s.current_state)
      × (last_terminated t.trace
          ≡ (if has_call s.current_state then some (s.cid, s.did) else last_terminated s.trace))
      × (t.cid ≡ (if has_call s.current_state then pos 0 else s.cid))
      × (t.did ≡ (if has_call s.current_state then pos 0 else s.did))
unfolding hangup_call
hangup_call_lem s = ground arith

-- Either the engine was registered, has sent one more invite and is in a call, or its state and the
-- number of invites sent are as before.
abbrev pub PlacedFrom : Engine → Engine → Type 0
PlacedFrom s t =
    ((s.current_state ≡ registered)
      × (t.current_state ≡ in_call)
      × (total is_invite t.trace ≡ total is_invite s.trace + 1))
    ⊎ ((t.current_state ≡ s.current_state) × (total is_invite t.trace ≡ total is_invite s.trace))

-- Placing a call sends an invite only from the registered state, exactly one, and the engine is then in
-- a call; in every other case its state is as before and no invite is sent.
pub make_call-PlacedFrom :
    (user : Bytes) (a : Answers) (s : Engine) → Always (PlacedFrom s) (make_call user a s)
unfolding make_call
make_call-PlacedFrom user a s = ground arith

make_call_ids :
    (user : Bytes) (a : Answers) (s : Engine)
    → Always (λ t. (t.cid ≡ s.cid) × (t.did ≡ s.did)) (make_call user a s)
unfolding make_call
make_call_ids user a s = ground arith

-- A call that is hung up before the other end has rung is terminated under the ids that the engine
-- held before it was placed: `makeCall` does not keep the new call's ids.
pub hangup_before_ringing :
    (user : Bytes) (a : Answers) (s t : Engine) (rc : ℤ)
    → make_call user a s ≡ returned rc t
    → t.current_state ≡ in_call
    → last_terminated (hangup_call t).trace ≡ some (s.cid, s.did)
unfolding hangup_call
hangup_before_ringing user a s t rc h c =
    let ids : (t.cid ≡ s.cid) × (t.did ≡ s.did) = rw h at (make_call_ids user a s) in ground arith

-- The return code that the GUI's callback gives for an event.
abbrev pub code_for : OutEvent → ℤ
code_for (unknown _) = negsuc 0
code_for _ = pos 0

abbrev pub is_answered_now : OutEvent → Bool
is_answered_now shutdown = false
is_answered_now _ = true

-- The callback gave this code, and left the flag for which the GUI waits in this state.
abbrev pub Replies : ℤ → Bool → Outcome → Type 0
Replies rc done (running s) = ⊥
Replies rc done (returned code s) = (code ≡ rc) × (s.callback_done ≡ done)
Replies rc done fault = Unit {0}

reply-Replies : (done : Bool) (rc : ℤ) (o : Outcome) → Replies rc done (reply done rc o)
reply-Replies done rc (running s) = (refl, refl)
reply-Replies done rc (returned _ s) = (refl, refl)
reply-Replies done rc fault = tt

-- The callback for the GUI's events returns -1 for an unknown event and 0 for all others, and
-- releases the waiting GUI at once, except after a shutdown, whatever the engine's state.
pub gui_callback-Replies :
    (e : OutEvent) (a : Answers) (s : Engine)
    → Replies (code_for e) (is_answered_now e) (gui_callback e a s)
unfolding gui_callback
gui_callback-Replies (new_call u) a s = reply-Replies true (pos 0) (call_out (call_address u) a s)
gui_callback-Replies answer a s = reply-Replies true (pos 0) (answer_call a s)
gui_callback-Replies (change_presence z) a s = reply-Replies true (pos 0) (publish_presence z a s)
gui_callback-Replies _ a s = (refl, refl)

-- Three turns: the invite arrives, the user answers, the acknowledgement arrives.
abbrev pub incoming_turns : ExosipEvent → ExosipEvent → Answers → List Turn
incoming_turns invite ack a =
    record { callback = none; event = some invite; answers = a }
    ∷ record { callback = some answer; event = none; answers = a }
    ∷ record { callback = none; event = some ack; answers = a }
    ∷ []

-- The answer with a description that was sent last: its transaction and its text.
abbrev pub last_answer : List Effect → Option (ℤ × Bytes)
last_answer [] = none
last_answer (send_answer tid _ (some sdp) ∷ es) = some (tid, sdp)
last_answer (_ ∷ es) = last_answer es

-- The audio that was set up last: its transaction, and whether the call came in.
abbrev pub last_audio : List Effect → Option (ℤ × Bool)
last_audio [] = none
last_audio (audio_setup tid incoming ∷ es) = some (tid, incoming)
last_audio (_ ∷ es) = last_audio es

abbrev pub Established : ExosipEvent → ExosipEvent → Bytes → Outcome → Type 0
Established invite ack sdp (running t) =
    (t.current_state ≡ answered)
    × (t.cid ≡ ack.cid)
    × (t.did ≡ ack.did)
    × (last_answer t.trace ≡ some (invite.tid, sdp))
    × (last_audio t.trace ≡ some (ack.tid, true))
Established invite ack sdp _ = ⊥

-- A call that comes in while the engine is registered, and that the user answers, is established
-- once it is acknowledged: the thread goes on, the answer sent for the invite's transaction holds
-- the description made from the caller's, and the audio is set up for the acknowledgement's.
-- Condition: the description fits into its arrays.
pub incoming_call-Established :
    (invite ack : ExosipEvent) (a : Answers) (s : Engine) (p : Ports) (sdp : Bytes)
    → invite.type ≡ call_invite
    → ack.type ≡ call_ack
    → s.current_state ≡ registered
    → s.quit ≡ false
    → create_local_sdp s.config a.network a.jpeg_junk a.remote_sdp s.ports ≡ (p, some sdp)
    → Established invite ack sdp (run (incoming_turns invite ack a) s)
unfolding run turn
incoming_call-Established invite ack a s p sdp i k r q d = ground arith

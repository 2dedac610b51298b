-- ===== src/Engine/Types.antt =====
-- The state of SIPEngine/call_api.c, and what it exchanges with the GUI (SIPEngine/sipengineif.h),
-- with eXosip2 and with the modules for audio and video. Every call that leaves the file is an
-- `Effect`, and the state keeps them all, the latest first.
use furikup.Prelude.{ℕ, ℤ, pos, Bool, false, List, [], ◌∷◌, Option, Bytes, take}
use furikup.Config.{Config}
use furikup.Codec.{Ports, initial_ports, RemoteSdp, Network}
use furikup.Presence.{Junk, Publication}

-- `enum CALL_STATES`.
pub data CallState : Type 0 where
  not_registered registering registered in_call incoming_call answered disconnecting : CallState

abbrev pub state_code : CallState → ℕ
state_code not_registered = 0
state_code registering = 1
state_code registered = 2
state_code in_call = 3
state_code incoming_call = 4
state_code answered = 5
state_code disconnecting = 6

-- The types of eXosip2's events that the engine tells apart; `other` is any further type.
pub data EventType : Type 0 where
  registration_success registration_terminated : EventType
  call_invite call_ringing call_answered call_ack call_closed : EventType
  call_server_failure call_global_failure call_cancelled call_timeout : EventType
  subscription_notify in_subscription_new other : EventType

-- `eXosip_event_t`: what the engine reads of it. `text_info` stands for the text that `vsnprintf`
-- makes of it, `status_code` for that of the response, `display_name` for that of the request's
-- From header, and `body` for its first body.
pub record ExosipEvent : Type 0 where
  pub type : EventType
  pub cid : ℤ
  pub did : ℤ
  pub tid : ℤ
  pub rid : ℤ
  pub text_info : Bytes
  pub status_code : Option ℤ
  pub display_name : Option Bytes
  pub body : Option Bytes

-- The events for the GUI that the engine raises, SUI_IN_*.
pub data InEvent : Type 0 where
  incoming : Option Bytes → ℤ → InEvent
  sip_state : ℕ → InEvent
  startup : ℕ → InEvent
  info_message : Bytes → InEvent
  error_message : Bytes → InEvent

-- The events for the engine that the GUI raises, SUI_OUT_EVENT_*.
pub data OutEvent : Type 0 where
  hangup answer reject shutdown : OutEvent
  new_call : Bytes → OutEvent
  change_presence : ℤ → OutEvent
  unknown : ℕ → OutEvent

pub data Effect : Type 0 where
  -- `gEventFunction` and `callback_proc`
  gui : InEvent → Effect
  callback : Bytes → Effect
  -- `eXosip_lock`, `eXosip_unlock`
  lock unlock : Effect
  -- registration: build the first one (from, proxy, seconds), send it (id); build one for an id and
  -- a number of seconds, send it
  build_initial_register : Bytes → Bytes → ℕ → Effect
  set_allow : Effect
  send_register : ℤ → Effect
  build_register : ℤ → ℕ → Effect
  automatic_refresh automatic_action : Effect
  -- calls: answers are (transaction, status, body)
  send_answer : ℤ → ℕ → Option Bytes → Effect
  build_answer : ℤ → ℕ → Effect
  build_ack send_ack : ℤ → Effect
  build_invite : Bytes → Bytes → Effect
  send_invite : Bytes → Bytes → Effect
  call_terminate : ℤ → ℤ → Effect
  -- subscriptions: (transaction, status)
  build_subscription_answer : ℤ → ℕ → Effect
  send_subscription_answer : ℤ → ℕ → Effect
  publish : Publication → Effect
  -- audio.c and video.c: the flag is `incoming`
  audio_setup video_setup : ℤ → Bool → Effect
  audio_stop video_stop play_ringback stop_ringback : Effect
  -- the kernel and the console
  delay : ℕ → Effect
  close_log : Effect
  print_response : ℤ → Effect

pub record Engine : Type 0 where
  pub current_state : CallState
  pub call_thid : ℤ
  pub quit : Bool
  pub cid : ℤ
  pub did : ℤ
  pub tid : ℤ
  pub rid : ℤ
  pub callback_done : Bool
  pub callback_proc : Bool
  pub config : Config
  pub ports : Ports
  pub trace : List Effect

-- The globals as they are initialised, with the settings read from the file and no thread yet.
abbrev pub initial_engine : Config → Engine
initial_engine c = record {
  current_state = not_registered;
  call_thid = pos 0;
  quit = false;
  cid = pos 0;
  did = pos 0;
  tid = pos 0;
  rid = pos 0;
  callback_done = false;
  callback_proc = false;
  config = c;
  ports = initial_ports;
  trace = [];
}

-- What the libraries answer to the calls of one turn of the loop.
pub record Answers : Type 0 where
  -- the id of `eXosip_register_build_initial_register`
  pub register_id : ℤ
  -- whether `eXosip_call_build_initial_invite` gave a message
  pub invite_built : Bool
  -- the results of building and of sending the answer to a subscription
  pub subscription_built : ℤ
  pub subscription_sent : ℤ
  -- `eXosip_get_remote_sdp_from_tid`
  pub remote_sdp : Option RemoteSdp
  pub network : Network
  -- what the uninitialised locals of `createLocalSdp` and `update_presence` hold
  pub jpeg_junk : Bool
  pub presence_junk : Junk

-- The thread goes on, has returned with a code, or memory was written or read past the end of an
-- array, behind which nothing is claimed.
pub data Outcome : Type 0 where
  running : Engine → Outcome
  returned : ℤ → Engine → Outcome
  fault : Outcome

infixl 5 ◌>>=◌
abbrev pub ◌>>=◌ : Outcome → (Engine → Outcome) → Outcome
running s >>= f = f s
returned rc s >>= f = returned rc s
fault >>= f = fault

abbrev pub emit : Effect → Engine → Engine
emit e s = record s { trace = e ∷ s.trace }

-- SIPEngine/sipengine.c, `InfoMessage` and `ErrorMessage`, behind their `vsnprintf` into 256 bytes.
unfoldable pub info : Bytes → Engine → Engine
info text = emit (gui (info_message (take 255 text)))

unfoldable pub error : Bytes → Engine → Engine
error text = emit (gui (error_message (take 255 text)))

-- ===== src/Tests/Engine.antt =====
-- SIPEngine/call_api.c on concrete events: a call that comes in and is answered, a call that is
-- placed and given up, and shutting down.
use furikup.Engine.Readable.{IsReadable}
use furikup.Engine.Requests.{IsSafe}
use furikup.Engine.Safe.{call_thread-IsSafe}
use furikup.Engine.Order.{InOrder, Reach-InOrder}
use furikup.Prelude.{ℕ, pos, true, false, List, [], ◌∷◌, none, some, ◌≡◌, refl, arith, codes}
use furikup.Config.{Config, initial_config, config_get_user_uri, config_get_server_uri}
use furikup.CString.{c_string, digits}
use furikup.Codec.{Network, create_local_sdp}
use furikup.Engine.{
  CallState, registered, incoming_call, EventType, registration_success, call_invite, call_ack,
  ExosipEvent, OutEvent, new_call, answer, shutdown, Engine, Answers, returned, initial_engine,
  Turn, disconnect_sip_server, gui_callback, turn, run, call_thread, start, notify_callback, serve,
  release, session_of, notified, turned, released, here, next,
}
use furikup.Engine.Trace.{Always}
use furikup.Engine.Invariant.{Inv, call_thread-Inv}
use furikup.Engine.Locks.{Holds, Balanced, turn-Balanced, disconnect_sip_server-Holds}
use furikup.Engine.Calls.{Established, incoming_turns, incoming_call-Established}
use furikup.Engine.Shutdown.{Ended, shutdown_turn, shutdown_leaving_ends}
use furikup.Engine.Registration.{Once, call_thread-Once}

-- Settings of a user bob at a server sip.net.
abbrev pub phone : Config
phone = record initial_config {
  user = b'b' ∷ b'o' ∷ b'b' ∷ 0 ∷ [];
  server = b's' ∷ b'i' ∷ b'p' ∷ 0 ∷ [];
}

phone_uri : config_get_user_uri phone ≡ some (codes "sip:bob@sip")
unfolding config_get_user_uri c_string
phone_uri = refl

abbrev pub network : Network
network = record { local_ip = codes "10.0.0.2"; mapped = λ server port local. ([], local) }

abbrev pub yes_answers : Answers
yes_answers = record {
  register_id = pos 1;
  invite_built = true;
  subscription_built = pos 0;
  subscription_sent = pos 0;
  remote_sdp = none;
  network = network;
  jpeg_junk = false;
  presence_junk = record { activity = some []; note = some [] };
}

abbrev pub event : EventType → ℕ → ExosipEvent
event type id = record {
  type = type;
  cid = pos id;
  did = pos id;
  tid = pos id;
  rid = pos id;
  text_info = codes "event";
  status_code = none;
  display_name = some (codes "Ann");
  body = none;
}

abbrev pub on : EventType → ℕ → Turn
on type id = record { callback = none; event = some (event type id); answers = yes_answers }

abbrev pub ask : OutEvent → Turn
ask e = record { callback = some e; event = none; answers = yes_answers }

-- The thread registers, is called by Ann, answers, and is told to shut down.
abbrev schedule : List Turn
schedule =
    on registration_success 4
    ∷ on call_invite 5
    ∷ ask answer
    ∷ on call_ack 5
    ∷ ask shutdown
    ∷ on registration_success 4
    ∷ []

call_thread-Inv_example : Always Inv (call_thread (pos 7) schedule (initial_engine phone))
call_thread-Inv_example = call_thread-Inv phone (pos 7) schedule

call_thread-Once_example : Always Once (call_thread (pos 7) schedule (initial_engine phone))
call_thread-Once_example = call_thread-Once phone (pos 7) schedule

-- An engine in the given state, with these ids.
abbrev engine_in : CallState → Engine
engine_in c = record (initial_engine phone) {
  current_state = c;
  call_thid = pos 7;
  cid = pos 3;
  did = pos 4;
}

turn-Balanced_example : Balanced (turn (on call_ack 5) (engine_in incoming_call))
turn-Balanced_example = turn-Balanced (on call_ack 5) (engine_in incoming_call) (λ p. cc) refl

disconnect_sip_server-Holds_example : Holds 2 (disconnect_sip_server (engine_in registered))
disconnect_sip_server-Holds_example = disconnect_sip_server-Holds (engine_in registered) 0 refl

incoming_call-Established_example :
    Established
      (event call_invite 5)
      (event call_ack 6)
      (codes
        "v=0\r\no=- 200 200 IN IP4 10.0.0.2\r\ns=SIP Phone\r\nc=IN IP4 10.0.0.2\r\nt=0 0\r\nm=audio 30000 RTP/AVP 0 8 101\r\na=rtpmap:0 PCMU/8000\r\na=rtpmap:8 PCMA/8000\r\na=rtpmap:101 telephone-event/8000\r\na=ptime:20\r\n")
      (run
        (incoming_turns (event call_invite 5) (event call_ack 6) yes_answers)
        (engine_in registered))
unfolding create_local_sdp digits
incoming_call-Established_example =
    incoming_call-Established (event call_invite 5) (event call_ack 6) yes_answers
      (engine_in registered)
      (create_local_sdp phone network false none (engine_in registered).ports).0 _ refl refl refl
      refl refl

shutdown_leaving_ends_example :
    Ended (run (shutdown_turn yes_answers ∷ []) (engine_in incoming_call))
    × (gui_callback shutdown yes_answers (engine_in incoming_call)
        ≡ returned
            (pos 0)
            (record (engine_in incoming_call) { quit = true; callback_done = false }))
shutdown_leaving_ends_example =
    shutdown_leaving_ends yes_answers [] (engine_in incoming_call) refl (omega arith) refl

-- The interface asks to answer before any call has come in, is served, and goes on.
abbrev at_start : Engine
at_start = start (pos 7) (initial_engine phone)

Reach-InOrder_example :
    InOrder (release (serve (ask answer) at_start (notify_callback answer (session_of at_start))))
unfolding start notify_callback serve release turn run config_get_user_uri config_get_server_uri
    c_string
Reach-InOrder_example =
    Reach-InOrder phone (pos 7)
      (release (serve (ask answer) at_start (notify_callback answer (session_of at_start))))
      (next (next (next here (notified answer refl)) (turned (ask answer) at_start refl refl refl))
        (released answer refl refl))

pub phone-IsReadable : IsReadable phone
unfolding config_get_user_uri config_get_server_uri c_string
phone-IsReadable = record {
  user_uri = codes "sip:bob@sip";
  server_uri = codes "sip:sip";
  stun_server = [];
  has_user = refl;
  has_server = refl;
  has_stun = refl;
}

call_thread-IsSafe_example : IsSafe phone (
    call_thread
      (pos 7)
      (on registration_success 4 ∷ ask (new_call (codes "ann@sip")) ∷ on call_invite 5 ∷ [])
      (initial_engine phone))
call_thread-IsSafe_example =
    call_thread-IsSafe phone (pos 7)
      (on registration_success 4 ∷ ask (new_call (codes "ann@sip")) ∷ on call_invite 5 ∷ [])
      phone-IsReadable (tt, tt, (omega arith, tt, (tt, tt, tt)))

-- ===== src/Engine/Safe.antt =====
-- SIPEngine/call_api.c with the settings and the descriptions it is given: no access leaves an array.
use furikup.Prelude.{
  ℤ, pos, Bool, true, false, List, [], ◌∷◌, Option, none, some, ◌≡◌, ◌∙◌, arith, Bytes,
}
use furikup.Config.{Config, config_get_user_uri, config_get_server_uri}
use furikup.Engine.Types.{
  CallState, not_registered, info, ExosipEvent, OutEvent, hangup, answer, reject, shutdown,
  new_call, change_presence, unknown, Engine, Answers, Outcome, running, returned, fault, ◌>>=◌,
  initial_engine,
}
use furikup.Engine.Control.{call_out, gui_callback, call_address, is_in}
use furikup.Engine.Events.{on_event}
use furikup.Engine.Thread.{
  Turn, drop_code, finish, run_callback, register, register_if_needed, handle_event, turn, run,
  automatic, start, call_thread,
}
use furikup.Engine.Readable.{IsReadable, IsModest, IsFound}
use furikup.Engine.Requests.{
  AreMild, IsMild, IsMildRequest, IsSafe, answer_call-IsSafe, call_address-IsFound,
  disconnect_sip_server_config, found-IsSafe, hangup_call_config, if_IsSafe, make_call-IsSafe,
  read_here, reply-IsSafe,
}

module _ (c : Config) (r : IsReadable c) where
  call_out-IsSafe :
      (o : Option Bytes) (a : Answers) (s : Engine)
      → IsFound o
      → s.config ≡ c
      → IsSafe c (call_out o a s)
  unfolding info
  call_out-IsSafe none a s f h = absurd f
  call_out-IsSafe (some user) a s f h = make_call-IsSafe c r user a _ h

  gui_callback-IsSafe :
      (e : OutEvent) (a : Answers) (s : Engine)
      → IsMild e
      → IsModest a.remote_sdp
      → s.config ≡ c
      → IsSafe c (gui_callback e a s)
  unfolding gui_callback
  gui_callback-IsSafe (new_call u) a s i m h =
      reply-IsSafe c r true (pos 0) _
        (call_out-IsSafe (call_address u) a s (call_address-IsFound u i) h)
  gui_callback-IsSafe answer a s i m h =
      reply-IsSafe c r true (pos 0) _ (answer_call-IsSafe c r a s m h)
  gui_callback-IsSafe reject a s i m h = hangup_call_config c r s ∙ h
  gui_callback-IsSafe hangup a s i m h = hangup_call_config c r s ∙ h
  gui_callback-IsSafe (change_presence z) a s i m h = absurd i
  gui_callback-IsSafe shutdown a s i m h = disconnect_sip_server_config c r s ∙ h
  gui_callback-IsSafe (unknown n) a s i m h = h

  drop-IsSafe : (o : Outcome) → IsSafe c o → IsSafe c (drop_code o)
  drop-IsSafe (running s) h = h
  drop-IsSafe (returned rc s) h = h
  drop-IsSafe fault h = h

  bind-IsSafe :
      (o : Outcome) (f : Engine → Outcome)
      → IsSafe c o
      → ((s : Engine) → s.config ≡ c → IsSafe c (f s))
      → IsSafe c (o >>= f)
  bind-IsSafe (running s) f h k = k s h
  bind-IsSafe (returned rc s) f h k = h
  bind-IsSafe fault f h k = absurd h

  register-IsSafe : (a : Answers) (s : Engine) → s.config ≡ c → IsSafe c (register a s)
  unfolding register
  register-IsSafe a s h =
      let u = read_here c r s h in
      found-IsSafe c r (config_get_user_uri s.config) _ (rw u.has_user tt) (λ user.
        found-IsSafe c r (config_get_server_uri s.config) _ (rw u.has_server tt)
          (λ server. ground arith))

  register_if_needed-IsSafe :
      (a : Answers) (s : Engine) → s.config ≡ c → IsSafe c (register_if_needed a s)
  unfolding register_if_needed
  register_if_needed-IsSafe a s h =
      if_IsSafe c r (is_in not_registered s) _ (running s) (register-IsSafe a s h) h

  on_event-IsSafe :
      (state : CallState) (e : ExosipEvent) (a : Answers) (s : Engine)
      → s.config ≡ c
      → IsSafe c (on_event state e a s)
  unfolding on_event
  on_event-IsSafe not_registered e a s h = h
  on_event-IsSafe _ e a s h = ground arith

  handle_event-IsSafe :
      (e : Option ExosipEvent) (a : Answers) (s : Engine)
      → s.config ≡ c
      → IsSafe c (handle_event e a s)
  unfolding handle_event
  handle_event-IsSafe none a s h = h
  handle_event-IsSafe (some e) a s h = on_event-IsSafe _ e a _ (ground arith)

  run_callback-IsSafe :
      (e : Option OutEvent) (a : Answers) (s : Engine)
      → IsMildRequest e
      → IsModest a.remote_sdp
      → s.config ≡ c
      → IsSafe c (run_callback e a s)
  unfolding run_callback
  run_callback-IsSafe none a s i m h = h
  run_callback-IsSafe (some e) a s i m h =
      drop-IsSafe (gui_callback e a s) (gui_callback-IsSafe e a s i m h)

  pub turn-IsSafe :
      (t : Turn) (s : Engine)
      → IsMildRequest t.callback
      → IsModest t.answers.remote_sdp
      → s.config ≡ c
      → IsSafe c (turn t s)
  unfolding turn
  turn-IsSafe t s i m h =
      bind-IsSafe _ _
        (bind-IsSafe _ _ (run_callback-IsSafe t.callback t.answers s i m h)
          (register_if_needed-IsSafe t.answers))
        (λ u k. handle_event-IsSafe t.event t.answers (automatic u) k)

  pub finish-IsSafe : (s : Engine) → s.config ≡ c → IsSafe c (finish s)
  finish-IsSafe s h = h

  run-IsSafe : (ts : List Turn) (s : Engine) → AreMild ts → s.config ≡ c → IsSafe c (run ts s)
  unfolding run
  run-IsSafe [] s i h = if_IsSafe c r s.quit (finish s) (running s) h h
  run-IsSafe (t ∷ ts) s (i, m, is) h =
      quit_or s.quit (finish s) (turn t s >>= run ts) h
        (bind-IsSafe (turn t s) (run ts) (turn-IsSafe t s i m h) (λ u k. run-IsSafe ts u is k))
    where
      quit_or :
          (b : Bool) (o p : Outcome)
          → IsSafe c o
          → IsSafe c p
          → IsSafe c (elim b [ true ↦ o | false ↦ p ])
      quit_or true o p a b = a
      quit_or false o p a b = b

-- The thread, with settings whose names end inside their arrays and whose URIs fit into theirs, for
-- requests that change no presence and call addresses of less than 124 bytes, and offers that name
-- mu-law and A-law five times at most: whatever events come in and whatever else the libraries
-- answer, no access leaves an array.
pub call_thread-IsSafe :
    (c : Config) (id : ℤ) (ts : List Turn)
    → IsReadable c
    → AreMild ts
    → IsSafe c (call_thread id ts (initial_engine c))
unfolding call_thread
call_thread-IsSafe c id ts r i = run-IsSafe c r ts (start id (initial_engine c)) i (ground arith)

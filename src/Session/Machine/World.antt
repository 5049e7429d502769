-- ===== src/Session/Machine/World.antt =====
-- A session together with the requests that have been sent for it and not answered yet.
use disc.Base.{ℕ, suc, ◌+◌, ◌^◌, ◌<◌, ◌≡◌, ◌≢◌, some, Bool, false, true}
use disc.Session.Machine.{
  server_stateless, State, idle, pending, opened, discon, to_destroy, Session, Message, Result,
  done, aborted, rejected, deadlock, fault, sending_auth_r, sending_acct_r, auth_a_received,
  acct_a_received, session_req_timeout, send_failed, session_state_machine, create_session,
  end_session,
}

-- `live s a c`: `a` authorization and `c` accounting requests wait for an answer. `gone a c`: the
-- session was destroyed when so many waited. `refused`: the machine rejected an answer to a request
-- that was sent, or got stuck.
pub data World : Type 0 where
  live : Session → ℕ → ℕ → World
  gone : ℕ → ℕ → World
  refused : World

-- What a call leaves behind, `a` and `c` being the requests that wait after it.
abbrev pub after : Result → ℕ → ℕ → World
after (done s) a c = live s a c
after aborted a c = gone a c
after (rejected e s) a c = refused
after deadlock a c = refused
after fault a c = refused

-- A server without session state: it does not advertise that it keeps any.
pub record FromStateless (msg : Message) : Type 0 where
  pub no_state : msg.auth_ses_state ≢ some 0
  pub code : ℕ
  pub has_code : msg.res_code ≡ some code

-- The steps of a session at a client. A request counts as sent if the machine lets it pass; answers and
-- failures come for requests that wait only, and with a message, which is not so for an answer that
-- AAATranslateMessage refuses; an answer to an authorization request has a result code and no session
-- state; the application ends a session once; and less than 2 ^ 32 accounting requests wait.
pub data Step : World → World → Type 0 where
  send_auth :
      {s t : Session} {a c : ℕ} (msg : Message)
      → session_state_machine s sending_auth_r (some msg) ≡ done t
      → Step (live s a c) (live t (suc a) c)
  send_acct :
      {s t : Session} {a c : ℕ} (msg : Message)
      → c + 1 < 2 ^ 32
      → session_state_machine s sending_acct_r (some msg) ≡ done t
      → Step (live s a c) (live t a (suc c))
  auth_answered :
      {s : Session} {a c : ℕ} {w : World} (msg : Message)
      → FromStateless msg
      → after (session_state_machine s auth_a_received (some msg)) a c ≡ w
      → Step (live s (suc a) c) w
  auth_lost :
      {s : Session} {a c : ℕ} {w : World} (msg : Message)
      → msg.command_code ≢ 271
      → after (session_state_machine s session_req_timeout (some msg)) a c ≡ w
      → Step (live s (suc a) c) w
  acct_answered :
      {s : Session} {a c : ℕ} {w : World} (msg : Message)
      → after (session_state_machine s acct_a_received (some msg)) a c ≡ w
      → Step (live s a (suc c)) w
  acct_lost :
      {s : Session} {a c : ℕ} {w : World} (msg : Message)
      → msg.command_code ≡ 271
      → after (session_state_machine s send_failed (some msg)) a c ≡ w
      → Step (live s a (suc c)) w
  ended :
      {s : Session} {a c : ℕ} {w : World}
      → s.state ≢ to_destroy
      → after (end_session s) a c ≡ w
      → Step (live s a c) w

pub data Reach : World → Type 0 where
  start : Reach (live (create_session server_stateless) 0 0)
  next : {v w : World} → Reach v → Step v w → Reach w

-- How many authorization requests wait, told from the state.
abbrev waits_for_auth : State → State → ℕ
waits_for_auth pending _ = 1
waits_for_auth to_destroy pending = 1
waits_for_auth _ _ = 0

abbrev is_rest : State → Bool
is_rest idle = true
is_rest opened = true
is_rest _ = false

pub record Inv (s : Session) (a c : ℕ) : Type 0 where
  pub identity : s.peer_identity ≡ server_stateless
  pub free : s.locked ≡ false
  pub not_discon : s.state ≢ discon
  pub auths : a ≡ waits_for_auth s.state s.prev_state
  pub accts : c ≡ s.pending_accts
  pub fits : c < 2 ^ 32
  pub returns_to : s.state ≡ pending → is_rest s.prev_state ≡ true
  pub awaits : s.state ≡ to_destroy → 0 < a + c

abbrev pub Good : World → Type 0
Good (live s a c) = Inv s a c
Good (gone a c) = (a ≡ 0) × (c ≡ 0)
Good refused = ⊥

-- ===== src/Session/Machine.antt =====
-- diameter_api/session.c: `create_session`, `session_state_machine` and `AAAEndSession`.
pub mod Laws
pub mod World
pub mod Reach
use disc.Base.{
  ℕ, ◌+◌, ◌-◌, ◌%◌, ◌^◌, Bool, true, false, not, ◌&&◌, ◌||◌, Option, none, some, ◌==◌,
  if◌then◌else◌,
}

-- `peer_identity`: the values that the machine tells apart; `other` is any other value.
pub data Identity : Type 0 where
  client server_stateless server_statefull other : Identity

pub data State : Type 0 where
  idle pending opened discon to_destroy : State

pub data Event : Type 0 where
  acct_r_received acct_a_received sending_acct_r sending_acct_a : Event
  auth_a_received auth_r_received sending_auth_r sending_auth_a : Event
  asr_received asa_received sending_asr sending_asa : Event
  rar_received raa_received sending_rar sending_raa : Event
  str_received sta_received sending_str sending_sta : Event
  session_req_timeout send_failed : Event

-- What the machine reads of a message: the command code, and the numbers in two AVPs; `none` where
-- the message has no such AVP.
pub record Message : Type 0 where
  pub command_code : ℕ
  pub auth_ses_state : Option ℕ
  pub res_code : Option ℕ

-- The fields of `struct session` that the machine uses. `locked` is the state of `ses->mutex`.
pub record Session : Type 0 where
  pub peer_identity : Identity
  pub state : State
  pub prev_state : State
  pub pending_accts : ℕ
  pub locked : Bool

pub data ErrorCode : Type 0 where
  mismatch unknown_event unknown_identity : ErrorCode

-- `done`, `aborted` and `rejected` are the results 1, 0 and -1; at `aborted` the session has been
-- destroyed. `deadlock`: the thread waits for the mutex that it holds. `fault`: a NULL AVP is read.
pub data Result : Type 0 where
  done : Session → Result
  aborted : Result
  rejected : ErrorCode → Session → Result
  deadlock : Result
  fault : Result

abbrev pub aaa_success : ℕ
aaa_success = 2001

abbrev pub session_state_maintained : ℕ
session_state_maintained = 0

abbrev is_pending : State → Bool
is_pending pending = true
is_pending _ = false

abbrev is_to_destroy : State → Bool
is_to_destroy to_destroy = true
is_to_destroy _ = false

abbrev lock_get : Session → (Session → Result) → Result
lock_get s next = if s.locked then deadlock else next (record s { locked = true })

abbrev unlocked : Session → Session
unlocked s = record s { locked = false }

-- A new session, as `memset` and `create_session` leave it.
unfoldable pub create_session : Identity → Session
create_session peer_id = record {
  peer_identity = peer_id;
  state = idle;
  prev_state = idle;
  pending_accts = 0;
  locked = false;
}

-- AAA_SENDING_AuthR; the argument is the state that is switched on.
sending_auth : State → Session → Result
sending_auth idle s = done (unlocked (record s { prev_state = s.state; state = pending }))
sending_auth opened s = done (unlocked (record s { prev_state = s.state; state = pending }))
sending_auth _ s = rejected mismatch (unlocked s)

-- AAA_SENDING_AcctR
sending_acct : State → Session → Result
sending_acct discon s = rejected mismatch (unlocked s)
sending_acct to_destroy s = rejected mismatch (unlocked s)
sending_acct _ s = done (unlocked (record s { pending_accts = (s.pending_accts + 1) % 2 ^ 32 }))

-- An answer advertises that the server keeps the state of the session.
abbrev maintained : Option ℕ → Bool
maintained none = false
maintained (some v) = v == session_state_maintained

-- The session is destroyed if it waits for nothing more, and else goes on.
abbrev destroy_if : Bool → Session → Result
destroy_if b s = if b then aborted else done s

-- `avp2int(msg->res_code)` decides on the new state.
answered : Option ℕ → Session → Result
answered none s = fault
answered (some code) s =
    done (unlocked (record s { state = if code == aaa_success then opened else s.prev_state }))

-- AAA_AuthA_RECEIVED
auth_answer : State → Session → Option Message → Result
unfolding answered
auth_answer pending s none = fault
auth_answer pending s (some msg) =
    answered msg.res_code
      (if maintained msg.auth_ses_state then record s { peer_identity = server_statefull } else s)
auth_answer to_destroy s msg =
    if is_pending s.prev_state
    then destroy_if (s.pending_accts == 0) (unlocked (record s { prev_state = discon }))
    else rejected mismatch (unlocked s)
auth_answer _ s msg = rejected mismatch (unlocked s)

-- One accounting request less, in unsigned arithmetic; a session that is to be destroyed goes with
-- the last one.
one_acct_less : Session → Result
one_acct_less s =
    let left = (s.pending_accts + 2 ^ 32 - 1) % 2 ^ 32 in
    let waiting = (left + (if is_pending s.prev_state then 1 else 0)) % 2 ^ 32 in
    destroy_if (is_to_destroy s.state && (waiting == 0))
      (unlocked (record s { pending_accts = left }))

-- AAA_AcctA_RECEIVED
acct_answer : Session → Result
unfolding one_acct_less
acct_answer s = if s.pending_accts == 0 then rejected mismatch (unlocked s) else one_acct_less s

-- AAA_SESSION_REQ_TIMEOUT and AAA_SEND_FAILED of an authorization request
auth_failed : State → Session → Result
auth_failed pending s = done (unlocked (record s { state = s.prev_state }))
auth_failed to_destroy s =
    destroy_if (s.pending_accts == 0) (unlocked (record s { prev_state = discon }))
auth_failed _ s = rejected mismatch (unlocked s)

-- AAA_SESSION_REQ_TIMEOUT and AAA_SEND_FAILED; 271 is the code of an accounting request. The message is
-- read in front of `lock_get`.
request_failed : Option Message → Session → Result
unfolding auth_failed one_acct_less
request_failed none s = fault
request_failed (some msg) s =
    lock_get s (λ t. if msg.command_code == 271 then one_acct_less t else auth_failed t.state t)

-- The machine of a client of a stateless server.
stateless : Event → Session → Option Message → Result
unfolding sending_auth sending_acct auth_answer acct_answer request_failed
stateless sending_auth_r s msg = lock_get s (λ t. sending_auth t.state t)
stateless sending_acct_r s msg = lock_get s (λ t. sending_acct t.state t)
stateless auth_a_received s msg = lock_get s (λ t. auth_answer t.state t msg)
stateless acct_a_received s msg = lock_get s acct_answer
stateless session_req_timeout s msg = request_failed msg s
stateless send_failed s msg = request_failed msg s
stateless _ s msg = rejected unknown_event s

dispatch : Identity → Session → Event → Option Message → Result
unfolding stateless
dispatch client s event msg = done s
dispatch server_stateless s event msg = stateless event s msg
dispatch server_statefull s event msg = done s
dispatch other s event msg = rejected unknown_identity s

-- `none` stands for NULL; to read a message at NULL is a `fault`.
unfoldable pub session_state_machine : Session → Event → Option Message → Result
unfolding dispatch
session_state_machine s event msg = dispatch s.peer_identity s event msg

-- The answers that `AAAEndSession` waits for before it destroys the session.
abbrev awaits_answers : Session → Bool
awaits_answers s = is_pending s.state || not (s.pending_accts == 0)

end_stateless : Session → Result
end_stateless s = lock_get s λ t.
    if awaits_answers t
    then done (unlocked (record t { prev_state = t.state; state = to_destroy }))
    else aborted

end_dispatch : Identity → Session → Result
unfolding end_stateless
end_dispatch server_statefull s = done s
end_dispatch _ s = end_stateless s

-- `AAAEndSession`, once the session has been taken from the hash table.
unfoldable pub end_session : Session → Result
unfolding end_dispatch
end_session s = end_dispatch s.peer_identity s

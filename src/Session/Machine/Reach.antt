-- ===== src/Session/Machine/Reach.antt =====
-- The invariant of a session in its world.
use disc.Base.{some, ℕ, suc, ◌+◌, ◌^◌, ◌<◌, ◌≡◌, ◌≢◌, arith}
use disc.Session.Machine.{
  create_session, session_state_machine, end_session, server_stateless, Message, Session,
  sending_auth_r, sending_acct_r, auth_a_received, acct_a_received, session_req_timeout,
  send_failed, done, to_destroy,
}
use disc.Session.Machine.World.{
  World, after, FromStateless, Step, send_auth, send_acct, auth_answered, auth_lost, acct_answered,
  acct_lost, ended, Reach, start, next, Inv, Good,
}

module _ {s : Session} {a c : ℕ} (msg : Message) where
  send_auth-Inv :
      {t : Session}
      → Inv s a c
      → session_state_machine s sending_auth_r (some msg) ≡ done t
      → Inv t (suc a) c
  unfolding session_state_machine
  send_auth-Inv h e = ground arith

  send_acct-Inv :
      {t : Session}
      → Inv s a c
      → c + 1 < 2 ^ 32
      → session_state_machine s sending_acct_r (some msg) ≡ done t
      → Inv t a (suc c)
  unfolding session_state_machine
  send_acct-Inv h r e = ground arith

  auth_answered-Good :
      Inv s (suc a) c
      → FromStateless msg
      → Good (after (session_state_machine s auth_a_received (some msg)) a c)
  unfolding session_state_machine
  auth_answered-Good h f = ground arith

  auth_lost-Good :
      Inv s (suc a) c
      → msg.command_code ≢ 271
      → Good (after (session_state_machine s session_req_timeout (some msg)) a c)
  unfolding session_state_machine
  auth_lost-Good h f = ground arith

  acct_answered-Good :
      Inv s a (suc c) → Good (after (session_state_machine s acct_a_received (some msg)) a c)
  unfolding session_state_machine
  acct_answered-Good h = ground arith

  acct_lost-Good :
      Inv s a (suc c)
      → msg.command_code ≡ 271
      → Good (after (session_state_machine s send_failed (some msg)) a c)
  unfolding session_state_machine
  acct_lost-Good h e = ground arith

ended-Good :
    {s : Session} {a c : ℕ} → Inv s a c → s.state ≢ to_destroy → Good (after (end_session s) a c)
unfolding end_session
ended-Good h ne = ground arith

Step-Good : {v w : World} → Step v w → Good v → Good w
Step-Good (send_auth msg e) h = send_auth-Inv msg h e
Step-Good (send_acct msg r e) h = send_acct-Inv msg h r e
Step-Good (auth_answered msg f e) h = rw e at (auth_answered-Good msg h f)
Step-Good (auth_lost msg f e) h = rw e at (auth_lost-Good msg h f)
Step-Good (acct_answered msg e) h = rw e at (acct_answered-Good msg h)
Step-Good (acct_lost msg f e) h = rw e at (acct_lost-Good msg h f)
Step-Good (ended ne e) h = rw e at (ended-Good h ne)

start-Inv : Inv (create_session server_stateless) 0 0
unfolding create_session
start-Inv = ground arith

-- In every world that a client's session can reach by steps in which a request counts as sent if the
-- machine lets it pass, answers and failures come for requests that wait and with a message, a failure
-- with the command code of its request, each answer to an authorization request has a result code and
-- advertises no session state, a session is ended only if it is not marked for destruction, and less
-- than 2 ^ 32 accounting requests wait: the machine
-- has never rejected an answer to a request that was sent, nor got stuck; a destroyed session had no
-- request left that waits for an answer; a live session counts the requests that wait exactly, and
-- once it is marked for destruction some request still waits.
pub Reach-Good : {w : World} → Reach w → Good w
Reach-Good start = start-Inv
Reach-Good (next r st) = Step-Good st (Reach-Good r)

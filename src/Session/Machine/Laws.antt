-- ===== src/Session/Machine/Laws.antt =====
-- What holds of each call of the machine.
use disc.Base.{Option, some, ◌≡◌, ◌≢◌, refl, false, ◌⊎◌, inl, inr, arith}
use disc.Session.Machine.{
  server_stateless, idle, opened, pending, sending_auth_r, send_failed, Session, Event, Message,
  ErrorCode, Result, done, aborted, rejected, deadlock, fault, session_state_machine, end_session,
}

-- The call returned with the mutex free, or it destroyed the session.
abbrev pub IsReleased : Result → Type 0
IsReleased (done s) = s.locked ≡ false
IsReleased aborted = Unit
IsReleased (rejected e s) = s.locked ≡ false
IsReleased deadlock = ⊥
IsReleased fault = Unit

-- A call on a session whose mutex is free never waits for it twice, and gives it back on every path
-- that returns with the session alive.
session_state_machine-IsReleased :
    (s : Session) (event : Event) (msg : Option Message)
    → s.locked ≡ false
    → IsReleased (session_state_machine s event msg)
unfolding session_state_machine
session_state_machine-IsReleased s event msg h = ground arith

pub end_session-IsReleased : (s : Session) → s.locked ≡ false → IsReleased (end_session s)
unfolding end_session
end_session-IsReleased s h = ground arith

-- A rejected event leaves the session as it was, mutex included.
session_state_machine_rejected :
    (s : Session) (event : Event) (msg : Option Message) {e : ErrorCode} {t : Session}
    → s.locked ≡ false
    → session_state_machine s event msg ≡ rejected e t
    → t ≡ s
unfolding session_state_machine
session_state_machine_rejected s event msg h r = ground arith

-- The session is at rest: an authorization request may be sent.
abbrev pub IsAtRest : Session → Type 0
IsAtRest s = (s.state ≡ idle) ⊎ (s.state ≡ opened)

-- At a stateless server, an authorization request that is sent and then fails or times out puts the
-- session back into the state that it was sent in.
auth_failure_restores :
    (s : Session) (sent lost : Message)
    → s.peer_identity ≡ server_stateless
    → s.locked ≡ false
    → IsAtRest s
    → lost.command_code ≢ 271
    → (t : Session) × (session_state_machine s sending_auth_r (some sent) ≡ done t)
      × (t.state ≡ pending)
      × (session_state_machine t send_failed (some lost) ≡ done (record s { prev_state = s.state }))
unfolding session_state_machine
auth_failure_restores s sent lost hi hl (inl e) hc =
    (record s { prev_state = s.state; state = pending }, ground arith, refl, ground arith)
auth_failure_restores s sent lost hi hl (inr e) hc =
    (record s { prev_state = s.state; state = pending }, ground arith, refl, ground arith)

-- ===== src/Session.antt =====
-- diameter_api/session.c: the session identifiers and the session state machine.
pub mod Id
pub mod Machine

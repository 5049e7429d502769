-- ===== src/Peer/Laws.antt =====
-- What holds of each call of the machine of a peer.
use disc.Base.{◌+◌, ◌%◌, ◌^◌, ◌≡◌, ◌≢◌, false, none, some, if◌then◌else◌, arith}
use disc.Peer.{
  unconn, reconn_timer, Peer, Event, Answers, Result, done, mismatch, deadlock, reset_peer,
  disconnected,
}
use disc.Peer.Machine.{peer_state_machine}

-- The call returned with the mutex free.
abbrev pub IsReleased : Result → Type 0
IsReleased (done p) = p.locked ≡ false
IsReleased (mismatch p) = p.locked ≡ false
IsReleased deadlock = ⊥

-- On a peer whose mutex is free, `peer_state_machine` never waits for the mutex that it holds, and
-- gives it back on every path, whatever the event and the answers of the functions that it calls.
pub peer_state_machine-IsReleased :
    (p : Peer) (event : Event) (x : Answers)
    → p.locked ≡ false
    → IsReleased (peer_state_machine p event x)
unfolding peer_state_machine disconnected reset_peer
peer_state_machine-IsReleased p event x h = ground arith

-- A peer that has just lost its connection: it has no socket, is in no list of active peers, and
-- waits to be connected again unless it is to be destroyed. Transactions of the old connection no
-- longer match it.
pub record Lost (p t : Peer) : Type 0 where
  pub no_sock : t.sock ≡ none
  pub not_listed : t.in_list ≡ false
  pub not_in_progress : t.conn_in_prog ≡ false
  pub waits : t.timer ≡ (if p.to_destroy then none else some reconn_timer)
  pub was_closed : t.closed ≡ p.closed + 1
  pub next_cnt : t.conn_cnt ≡ (p.conn_cnt + 1) % 2 ^ 32

-- Whatever event takes a peer from any connected state to PEER_UNCONN: the socket has been closed
-- exactly once, `sock` is -1, the peer is not among the active peers, it is in the timer list for
-- reconnection unless it is to be destroyed, and `conn_cnt` has been increased modulo 2 ^ 32.
pub disconnect-Lost :
    (p t : Peer) (event : Event) (x : Answers)
    → p.locked ≡ false
    → p.state ≢ unconn
    → t.state ≡ unconn
    → peer_state_machine p event x ≡ done t
    → Lost p t
unfolding peer_state_machine disconnected reset_peer
disconnect-Lost p t event x h a b e = ground arith

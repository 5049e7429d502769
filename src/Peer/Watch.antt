-- ===== src/Peer/Watch.antt =====
-- A peer and the timeouts that are on their way to it: `peer_timer_handler` and the machine.
use disc.Base.{ℕ, suc, ◌<◌, ◌≡◌, Bool, true, false, none, some, ◌⊎◌, arith}
use disc.Peer.{
  conn, wait_cer, reconn_timer, wait_cer_timer, Peer, Event, Answers, peer_is_inactiv,
  peer_cer_timeout, Result, done, mismatch, deadlock, reset_peer, disconnected,
}
use disc.Peer.Machine.{peer_state_machine}

-- The peer that a call leaves.
abbrev pub Leaves : Result → Peer → Type 0
Leaves (done q) p = q ≡ p
Leaves (mismatch q) p = q ≡ p
Leaves deadlock p = ⊥

-- The events that `peer_timer_handler` sends by a command.
abbrev pub is_timeout : Event → Bool
is_timeout peer_is_inactiv = true
is_timeout peer_cer_timeout = true
is_timeout _ = false

-- `world p i c`: `i` commands of inactivity and `c` of a missing CER have been written and not read.
pub data World : Type 0 where
  world : Peer → ℕ → ℕ → World

-- The steps: any other event with any answers; the timer handler takes the peer from the list of
-- active peers or from a timer list, and writes a command; the machine reads a command. A DWR that
-- cannot be sent is left out, since nothing puts the peer back into the list then.
pub data Step : World → World → Type 0 where
  event :
      {p q : Peer} {i c : ℕ} (e : Event) (x : Answers)
      → is_timeout e ≡ false
      → Leaves (peer_state_machine p e x) q
      → Step (world p i c) (world q i c)
  goes_inactive :
      {p : Peer} {i c : ℕ}
      → p.in_list ≡ true
      → Step (world p i c) (world (record p { in_list = false }) (suc i) c)
  no_cer :
      {p : Peer} {i c : ℕ}
      → p.timer ≡ some wait_cer_timer
      → Step (world p i c) (world (record p { timer = none }) i (suc c))
  retry :
      {p : Peer} {i c : ℕ}
      → p.timer ≡ some reconn_timer
      → Step (world p i c) (world (record p { timer = none }) i c)
  read_inactive :
      {p q : Peer} {i c : ℕ} (x : Answers)
      → x.sent ≡ true
      → Leaves (peer_state_machine p peer_is_inactiv x) q
      → Step (world p (suc i) c) (world q i c)
  read_no_cer :
      {p q : Peer} {i c : ℕ} (x : Answers)
      → Leaves (peer_state_machine p peer_cer_timeout x) q
      → Step (world p i (suc c)) (world q i c)

-- A connected peer is watched for inactivity, and a peer whose CER is awaited is watched for its
-- absence: it is in the list for this, or a command is on its way.
pub record Watched (p : Peer) (i c : ℕ) : Type 0 where
  pub free : p.locked ≡ false
  pub activity : p.state ≡ conn → (p.in_list ≡ true) ⊎ (0 < i)
  pub arrival : p.state ≡ wait_cer → (p.timer ≡ some wait_cer_timer) ⊎ (0 < c)
  pub awaited : p.timer ≡ some wait_cer_timer → p.state ≡ wait_cer

abbrev pub IsWatched : World → Type 0
IsWatched (world p i c) = Watched p i c

event-Watched :
    {p q : Peer} {i c : ℕ} (e : Event) (x : Answers)
    → Watched p i c
    → is_timeout e ≡ false
    → Leaves (peer_state_machine p e x) q
    → Watched q i c
unfolding peer_state_machine disconnected reset_peer
event-Watched e x w n l = ground arith

read_inactive-Watched :
    {p q : Peer} {i c : ℕ} (x : Answers)
    → Watched p (suc i) c
    → x.sent ≡ true
    → Leaves (peer_state_machine p peer_is_inactiv x) q
    → Watched q i c
unfolding peer_state_machine
read_inactive-Watched x w s l = ground arith

read_no_cer-Watched :
    {p q : Peer} {i c : ℕ} (x : Answers)
    → Watched p i (suc c)
    → Leaves (peer_state_machine p peer_cer_timeout x) q
    → Watched q i c
unfolding peer_state_machine disconnected reset_peer
read_no_cer-Watched x w l = ground arith

handler-Watched :
    {p : Peer} {i c : ℕ}
    → Watched p i c
    → Watched (record p { in_list = false }) (suc i) c
      × (p.timer ≡ some wait_cer_timer → Watched (record p { timer = none }) i (suc c))
      × (p.timer ≡ some reconn_timer → Watched (record p { timer = none }) i c)
handler-Watched w = (ground arith, λ e. ground arith, λ e. ground arith)

Step-IsWatched : {v w : World} → Step v w → IsWatched v → IsWatched w
Step-IsWatched (event e x n l) h = event-Watched e x h n l
Step-IsWatched (goes_inactive _) h = (handler-Watched h).0
Step-IsWatched (no_cer e) h = (handler-Watched h).1 e
Step-IsWatched (retry e) h = (handler-Watched h).2 e
Step-IsWatched (read_inactive x s l) h = read_inactive-Watched x h s l
Step-IsWatched (read_no_cer x l) h = read_no_cer-Watched x h l

pub data Steps : World → World → Type 0 where
  rest : {v : World} → Steps v v
  next : {u v w : World} → Steps u v → Step v w → Steps u w

-- Through any steps in which no DWR fails to be sent, from a world in which it holds: a peer in
-- PEER_CONN is in the list of active peers or a command about its inactivity is on its way, a peer
-- in PEER_WAIT_CER is in the timer list for the CER or a command about the missing CER is on its way,
-- a peer in this timer list is in PEER_WAIT_CER, and the mutex is free.
pub Steps-IsWatched : {v w : World} → Steps v w → IsWatched v → IsWatched w
Steps-IsWatched rest h = h
Steps-IsWatched (next r s) h = Step-IsWatched s (Steps-IsWatched r h)

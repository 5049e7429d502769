-- ===== src/Peer.antt =====
-- transport/peer.h and transport/peer.c: a peer, `reset_peer`, and the tools of the state machine.
pub mod Scan
pub mod Process
pub mod Encoded
pub mod Capabilities
pub mod Settles
pub mod Ends
pub mod Buffers
pub mod Parts
pub mod Standard
pub mod Sent
pub mod Headers
pub mod Made
pub mod Heartbeat
pub mod Disconnect
pub mod Dispatch
pub mod Returned
pub mod Answered
pub mod Masks
pub mod Accepts
pub mod Machine
pub mod Laws
pub mod Watch
pub mod Timers
use disc.Base.{
  ℕ, ◌+◌, ◌%◌, ◌^◌, Bool, true, false, not, ◌&&◌, ◌||◌, Option, none, some, List, [], ◌∷◌, leb,
  ◌==◌, if◌then◌else◌,
}
use disc.Utils.{Bytes}

pub data State : Type 0 where
  unconn conn error wait_cer wait_cea wait_dwa wait_dpa : State

-- The two timer lists that the link of a peer can be in.
pub data TimerList : Type 0 where
  reconn_timer wait_cer_timer : TimerList

-- `struct peer`, the fields that the machine uses. `to_destroy` and `conn_in_prog` are the two bits
-- of `flags`; `sock` is `none` for -1. `in_list`: `lh` is in the list of active peers, which
-- `lh.next` tells. `timer` is the list that `tl` is in. `closed` counts the calls of `tcp_close` and
-- `connects` the commands to connect; `locked` is the state of the mutex.
pub record Peer : Type 0 where
  pub state : State
  pub to_destroy : Bool
  pub conn_in_prog : Bool
  pub sock : Option ℕ
  pub conn_cnt : ℕ
  pub last_activ_time : ℕ
  pub in_list : Bool
  pub timer : Option TimerList
  pub auth_ids : Option (List ℕ)
  pub acct_ids : Option (List ℕ)
  pub realm : Option Bytes
  pub first_4bytes : ℕ
  pub buf_len : ℕ
  pub buf : Option Bytes
  pub closed : ℕ
  pub connects : ℕ
  pub locked : Bool

-- What the machine is told. The events of messages and of the timers carry no more than the answers
-- of the functions that they call, below.
pub data Event : Type 0 where
  tcp_accept tcp_connected tcp_conn_in_prog : ℕ → Event
  tcp_conn_failed tcp_conn_close : Event
  cer_received cea_received dwr_received dwa_received dpr_received dpa_received : Event
  peer_is_inactiv peer_hangup : Event
  peer_tr_timeout : ℕ → Event
  peer_cer_timeout peer_reconn_timeout : Event

-- The answers of the functions that an event calls, which may be any, but that a write which takes less
-- than it was asked to, and so closes the peer while `send_` succeeds, is left out: `sent` tells whether the
-- `send_` function succeeded, `processed` whether `process_dw` or `process_dp` did; `ce_code` is the
-- result of `process_ce`, with the application ids and the realm that it stores if it succeeds; `now`
-- is `get_ticks()`.
pub record Answers : Type 0 where
  pub sent : Bool
  pub processed : Bool
  pub ce_code : ℕ
  pub auth_ids : Option (List ℕ)
  pub acct_ids : Option (List ℕ)
  pub realm : Option Bytes
  pub now : ℕ

-- The results 1 and -1, the second for an event that does not fit the state; `deadlock`: the thread
-- waits for the mutex that it holds.
pub data Result : Type 0 where
  done : Peer → Result
  mismatch : Peer → Result
  deadlock : Result

abbrev pub aaa_success : ℕ
aaa_success = 2001

abbrev pub send_dwr_timeout : ℕ
send_dwr_timeout = 35

abbrev pub is_timer : Option TimerList → TimerList → Bool
is_timer (some reconn_timer) reconn_timer = true
is_timer (some wait_cer_timer) wait_cer_timer = true
is_timer _ _ = false

-- `rmv_from_timer_list` and `add_to_timer_list` on `tl`; a link that is in a list is not added.
unfoldable pub rmv_timer : TimerList → Peer → Peer
rmv_timer l p = if is_timer p.timer l then record p { timer = none } else p

abbrev pub timer_or : Option TimerList → TimerList → Option TimerList
timer_or none l = some l
timer_or (some k) l = some k

unfoldable pub add_timer : TimerList → Peer → Peer
add_timer l p = record p { timer = timer_or p.timer l }

-- `list_add_tail_safe` and `list_del_safe` on the list of active peers
abbrev pub list_add_tail_safe : Peer → Peer
list_add_tail_safe p = record p { in_list = true }

abbrev pub list_del_safe : Peer → Peer
list_del_safe p = record p { in_list = false }

abbrev pub tcp_close : Peer → Peer
tcp_close p = record p { closed = p.closed + 1 }

-- The rest of `reset_peer` once the timers are clear.
abbrev pub cleared : Peer → Peer
cleared p = record p {
  conn_in_prog = false;
  sock = none;
  in_list = false;
  first_4bytes = 0;
  buf_len = 0;
  buf = none;
  auth_ids = none;
  acct_ids = none;
  realm = none;
  conn_cnt = (p.conn_cnt + 1) % 2 ^ 32;
}

unfoldable pub reset_peer : Peer → Peer
unfolding rmv_timer add_timer
reset_peer p =
    let q = cleared (rmv_timer reconn_timer (rmv_timer wait_cer_timer p)) in
    if q.to_destroy then q else add_timer reconn_timer q

abbrev pub unlocked : Peer → Peer
unlocked p = record p { locked = false }

abbrev pub lock_get : Peer → (Peer → Result) → Result
lock_get p next = if p.locked then deadlock else next (record p { locked = true })

-- `tcp_close`, `reset_peer`, and the state PEER_UNCONN
unfoldable pub disconnected : Peer → Peer
unfolding reset_peer
disconnected p = record (reset_peer (tcp_close p)) { state = unconn; locked = false }

abbrev pub connected : Peer → Peer
connected p = record (list_add_tail_safe p) { state = conn; locked = false }

abbrev pub stored : Answers → Peer → Peer
stored x p = record p { auth_ids = x.auth_ids; acct_ids = x.acct_ids; realm = x.realm }

-- `process_ce`, which stores what it has read only if it succeeds
abbrev pub processed_ce : Answers → Peer → Peer
processed_ce x p = if x.ce_code == aaa_success then stored x p else p

-- ===== src/Tests/Peers.antt =====
-- A peer that connects, answers, and falls silent.
use disc.Base.{◌≡◌, refl, true, false, none, some, [], ◌∷◌, arith}
use disc.Timer.{Timers}
use disc.Peer.{
  unconn, conn, wait_cer, reconn_timer, wait_cer_timer, Peer, Answers, tcp_accept, cer_received,
  dpr_received, done, rmv_timer, add_timer, disconnected, reset_peer,
}
use disc.Peer.Machine.{peer_state_machine}
use disc.Peer.Laws.{IsReleased, peer_state_machine-IsReleased, Lost, disconnect-Lost}
use disc.Peer.Watch.{
  world, event, goes_inactive, Watched, IsWatched, Steps, rest, next, Steps-IsWatched,
}

abbrev new_peer : Peer
new_peer = record {
  state = unconn;
  to_destroy = false;
  conn_in_prog = false;
  sock = some 0;
  conn_cnt = 0;
  last_activ_time = 0;
  in_list = false;
  timer = none;
  auth_ids = none;
  acct_ids = none;
  realm = none;
  first_4bytes = 0;
  buf_len = 0;
  buf = none;
  closed = 0;
  connects = 0;
  locked = false;
}

abbrev all_well : Answers
all_well = record {
  sent = true;
  processed = true;
  ce_code = 2001;
  auth_ids = some (4 ∷ []);
  acct_ids = none;
  realm = some (b'r' ∷ []);
  now = 100;
}

abbrev silent : Answers
silent = record all_well { sent = false }

peer_state_machine-IsReleased_example :
    IsReleased (peer_state_machine new_peer (tcp_accept 5) all_well)
peer_state_machine-IsReleased_example =
    peer_state_machine-IsReleased new_peer (tcp_accept 5) all_well refl

abbrev accepted : Peer
accepted = record new_peer { state = wait_cer; sock = some 5; timer = some wait_cer_timer }

abbrev open_peer : Peer
open_peer = record accepted {
  state = conn;
  timer = none;
  in_list = true;
  auth_ids = some (4 ∷ []);
  realm = some (b'r' ∷ []);
}

abbrev lost_peer : Peer
lost_peer = record new_peer { sock = none; timer = some reconn_timer; closed = 1; conn_cnt = 1 }

dpr_run : peer_state_machine open_peer dpr_received all_well ≡ done lost_peer
unfolding peer_state_machine disconnected reset_peer
dpr_run = refl

disconnect-Lost_example : Lost open_peer lost_peer
disconnect-Lost_example =
    disconnect-Lost open_peer lost_peer dpr_received all_well refl (ground arith) refl dpr_run

abbrev unlisted : Peer
unlisted = record open_peer { in_list = false }

new_peer-Watched : Watched new_peer 0 0
new_peer-Watched = record {
  free = refl;
  activity = λ e. ground arith;
  arrival = λ e. ground arith;
  awaited = λ e. ground arith;
}

-- Accepted, introduced by a CER, and no longer active.
run : Steps (world new_peer 0 0) (world unlisted 1 0)
unfolding peer_state_machine rmv_timer add_timer
run =
    next
      (next (next rest (event {p = new_peer} {q = accepted} (tcp_accept 5) all_well refl refl))
        (event {p = accepted} {q = open_peer} cer_received all_well refl refl))
      (goes_inactive {p = open_peer} refl)

Steps-IsWatched_example : IsWatched (world unlisted 1 0)
Steps-IsWatched_example = Steps-IsWatched run new_peer-Watched

abbrev in_reconn : Timers
in_reconn = record { owner = λ _. some 1; lists = λ _. [] }

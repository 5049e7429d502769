-- ===== src/Peer/Machine.antt =====
-- transport/peer.c: `peer_state_machine`, one definition for each event.
use disc.Base.{ℕ, ◌+◌, ◌%◌, ◌^◌, Bool, true, false, not, ◌&&◌, ◌||◌, some, leb, ◌==◌, if◌then◌else◌}
use disc.Peer.{
  State, unconn, conn, wait_cer, wait_cea, wait_dwa, wait_dpa, reconn_timer, wait_cer_timer, Peer,
  Event, tcp_accept, tcp_connected, tcp_conn_in_prog, tcp_conn_failed, tcp_conn_close, cer_received,
  cea_received, dwr_received, dwa_received, dpr_received, dpa_received, peer_is_inactiv,
  peer_hangup, peer_tr_timeout, peer_cer_timeout, peer_reconn_timeout, Answers, Result, done,
  mismatch, aaa_success, send_dwr_timeout, rmv_timer, add_timer, list_add_tail_safe, list_del_safe,
  tcp_close, reset_peer, unlocked, lock_get, disconnected, connected, processed_ce,
}

-- TCP_ACCEPT
accept : State → ℕ → Peer → Result
unfolding rmv_timer add_timer
accept unconn sock p =
    let q = rmv_timer reconn_timer p in
    let r = if q.conn_in_prog then tcp_close q else q in
    done (
      unlocked
        (record (add_timer wait_cer_timer (record r { sock = some sock })) { state = wait_cer }))
accept _ sock p = mismatch (unlocked p)

-- TCP_CONNECTED; `!PEER_CONN_IN_PROG` expands to `!1<<1`, which is 0, so that both flags are cleared.
finish_connect : State → ℕ → Answers → Peer → Result
unfolding reset_peer
finish_connect unconn sock x p =
    let q = record p { to_destroy = false; conn_in_prog = false; sock = some sock } in
    done (unlocked (if x.sent then record q { state = wait_cea } else reset_peer (tcp_close q)))
finish_connect _ sock x p = mismatch (unlocked p)

-- TCP_CONN_IN_PROG
connecting : State → ℕ → Peer → Result
connecting unconn sock p = done (unlocked (record p { sock = some sock; conn_in_prog = true }))
connecting _ sock p = mismatch (unlocked p)

-- TCP_CONN_FAILED
connect_failed : State → Peer → Result
unfolding reset_peer
connect_failed unconn p = done (unlocked (reset_peer p))
connect_failed _ p = mismatch (unlocked p)

abbrev is_unconn : State → Bool
is_unconn unconn = true
is_unconn _ = false

-- TCP_CONN_CLOSE
close_connection : Peer → Result
unfolding disconnected
close_connection p =
    done (if not (is_unconn p.state) || p.conn_in_prog then disconnected p else unlocked p)

-- PEER_CER_TIMEOUT
cer_timeout : State → Peer → Result
unfolding disconnected
cer_timeout wait_cer p = done (disconnected p)
cer_timeout _ p = mismatch (unlocked p)

-- PEER_RECONN_TIMEOUT
reconnect : State → Peer → Result
reconnect unconn p =
    let q = if p.conn_in_prog then tcp_close p else p in
    done (unlocked (record q { connects = q.connects + 1 }))
reconnect _ p = done (unlocked p)

-- PEER_TR_TIMEOUT
tr_timeout : State → Peer → Result
unfolding disconnected
tr_timeout wait_dwa p = done (disconnected (list_del_safe p))
tr_timeout wait_cea p = done (disconnected p)
tr_timeout wait_dpa p = done (disconnected p)
tr_timeout _ p = mismatch (unlocked p)

-- CEA_RECEIVED
cea : State → Answers → Peer → Result
unfolding disconnected
cea wait_cea x p =
    let q = processed_ce x p in
    done (if x.ce_code == aaa_success then connected q else disconnected q)
cea _ x p = mismatch (unlocked p)

-- CER_RECEIVED
answer_cer : Answers → Peer → Result
unfolding disconnected
answer_cer x p =
    let q = processed_ce x p in
    done (if x.sent && (x.ce_code == aaa_success) then connected q else disconnected q)

cer : State → Answers → Peer → Result
unfolding answer_cer rmv_timer
cer wait_cer x p = answer_cer x (rmv_timer wait_cer_timer p)
cer wait_cea x p = answer_cer x p
cer _ x p = mismatch (unlocked p)

-- DWR_RECEIVED
answer_dwr : Answers → Peer → Result
unfolding disconnected
answer_dwr x p = done (if x.sent && x.processed then unlocked p else disconnected p)

dwr : State → Answers → Peer → Result
unfolding answer_dwr
dwr conn x p = answer_dwr x p
dwr wait_dwa x p = answer_dwr x p
dwr wait_dpa x p = answer_dwr x p
dwr _ x p = mismatch (unlocked p)

-- PEER_IS_INACTIV
inactive : State → Answers → Peer → Result
inactive conn x p = done (
    unlocked (
      if leb ((p.last_activ_time + send_dwr_timeout) % 2 ^ 32) x.now
      then (if x.sent then record p { state = wait_dwa } else p)
      else list_add_tail_safe p))
inactive _ x p = mismatch (unlocked (list_add_tail_safe p))

-- DWA_RECEIVED; the result of `process_dw` is not read
dwa : State → Peer → Result
dwa wait_dwa p = done (connected p)
dwa _ p = mismatch (unlocked p)

-- DPR_RECEIVED; the answer is sent whatever `process_dp` says, and its failure is not read
dpr : State → Peer → Result
unfolding disconnected
dpr conn p = done (disconnected (list_del_safe p))
dpr wait_dwa p = done (disconnected (list_del_safe p))
dpr wait_dpa p = done (disconnected (list_del_safe p))
dpr _ p = mismatch (unlocked p)

-- DPA_RECEIVED
dpa : State → Peer → Result
unfolding disconnected
dpa wait_dpa p = done (disconnected p)
dpa _ p = mismatch (unlocked p)

-- PEER_HANGUP
hangup : State → Answers → Peer → Result
unfolding disconnected
hangup conn x p =
    let q = list_del_safe p in
    done (if x.sent then unlocked (record q { state = wait_dpa }) else disconnected q)
hangup _ x p = mismatch (unlocked p)

unfoldable pub peer_state_machine : Peer → Event → Answers → Result
unfolding accept finish_connect connecting connect_failed close_connection cer_timeout reconnect
    tr_timeout cea cer dwr inactive dwa dpr dpa hangup
peer_state_machine p (tcp_accept sock) x = lock_get p (λ q. accept q.state sock q)
peer_state_machine p (tcp_connected sock) x = lock_get p (λ q. finish_connect q.state sock x q)
peer_state_machine p (tcp_conn_in_prog sock) x = lock_get p (λ q. connecting q.state sock q)
peer_state_machine p tcp_conn_failed x = lock_get p (λ q. connect_failed q.state q)
peer_state_machine p tcp_conn_close x = lock_get p close_connection
peer_state_machine p peer_cer_timeout x = lock_get p (λ q. cer_timeout q.state q)
peer_state_machine p peer_reconn_timeout x = lock_get p (λ q. reconnect q.state q)
peer_state_machine p (peer_tr_timeout cnt) x =
    let checked = lock_get p (λ q. tr_timeout q.state q) in
    if cnt == p.conn_cnt then checked else done p
peer_state_machine p cea_received x = lock_get p (λ q. cea q.state x q)
peer_state_machine p cer_received x = lock_get p (λ q. cer q.state x q)
peer_state_machine p dwr_received x = lock_get p (λ q. dwr q.state x q)
peer_state_machine p peer_is_inactiv x = lock_get p (λ q. inactive q.state x q)
peer_state_machine p dwa_received x = lock_get p (λ q. dwa q.state q)
peer_state_machine p dpr_received x = lock_get p (λ q. dpr q.state q)
peer_state_machine p dpa_received x = lock_get p (λ q. dpa q.state q)
peer_state_machine p peer_hangup x = lock_get p (λ q. hangup q.state x q)

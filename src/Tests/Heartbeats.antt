-- ===== src/Tests/Heartbeats.antt =====
-- transport/peer.c: a watchdog and a disconnect request between two peers.
use disc.Base.{none, some, ℕ, ◌≡◌, refl, true, false, [], ◌∷◌, ◌++◌, length, arith}
use disc.Utils.{Bytes, to_32x_len}
use disc.Msg.Wire.{ok, write}
use disc.Peer.Scan.{returned}
use disc.Peer.Process.{process_dw, process_dp}
use disc.Peer.Buffers.{
  Globals, Buffers, put, put_avp, app_ids, put_app_ids, build_std_req, build_std_ans,
  build_ce_avp_ipv4, build_ce_avp_ipv6, build_dpr_avp, build_msg_buffers,
}
use disc.Peer.Standard.{IsShort}
use disc.Peer.Sent.{masked_word, word_of, dwr, dwa, dpr, dpa}
use disc.Peer.Heartbeat.{watchdog_round}
use disc.Peer.Disconnect.{disconnect_round}
use disc.Tcp.Frames.{IsFrame}
use disc.HashTable.Found.{empty-Labelled}
use disc.Trans.{World, internal_send_request}
use disc.Peer.{dwr_received, dwa_received}
use disc.Peer.Dispatch.{to_machine, dispatch_message}
use disc.Peer.Returned.{Ready}
use disc.Peer.Answered.{watchdog_answered}

abbrev us : Globals
us = record {
  aaa_identity = b'h' ∷ [];
  aaa_realm = b'r' ∷ [];
  product_name = b'd' ∷ [];
  vendor_id = 0;
  modules = (1, 4) ∷ [];
  do_relay = false;
}

abbrev host : Bytes
host = 0 ∷ 0 ∷ 1 ∷ 8 ∷ 64 ∷ 0 ∷ 0 ∷ 9 ∷ b'h' ∷ 0 ∷ 0 ∷ 0 ∷ []

abbrev realm : Bytes
realm = 0 ∷ 0 ∷ 1 ∷ 40 ∷ 64 ∷ 0 ∷ 0 ∷ 9 ∷ b'r' ∷ 0 ∷ 0 ∷ 0 ∷ []

abbrev version : ℕ → Bytes
version flags =
    1 ∷ 0 ∷ 0 ∷ 0 ∷ flags ∷ 0 ∷ 0 ∷ 0 ∷ 0 ∷ 0 ∷ 0 ∷ 0 ∷ 0 ∷ 0 ∷ 0 ∷ 0 ∷ 0 ∷ 0 ∷ 0 ∷ 0 ∷ []

abbrev vendor_and_apps : Bytes
vendor_and_apps =
    0 ∷ 0 ∷ 1 ∷ 10 ∷ 64 ∷ 0 ∷ 0 ∷ 12 ∷ 0 ∷ 0 ∷ 0 ∷ 0 ∷ 0 ∷ 0 ∷ 1 ∷ 13 ∷ 0 ∷ 0 ∷ 0 ∷ 9 ∷ b'd' ∷ 0 ∷ 0
    ∷ 0 ∷ 0 ∷ 0 ∷ 1 ∷ 2 ∷ 64 ∷ 0 ∷ 0 ∷ 12 ∷ 0 ∷ 0 ∷ 0 ∷ 4 ∷ []

abbrev buffers : Buffers
buffers = record {
  std_req = version 128 ++ (host ++ realm);
  std_ans = version 0 ++ (0 ∷ 0 ∷ 1 ∷ 12 ∷ 64 ∷ 0 ∷ 0 ∷ 12 ∷ 0 ∷ 0 ∷ 0 ∷ 0 ∷ host ++ realm);
  ce_avp_ipv4 = 0 ∷ 0 ∷ 1 ∷ 1 ∷ 64 ∷ 0 ∷ 0 ∷ 12 ∷ 0 ∷ 0 ∷ 0 ∷ 0 ∷ vendor_and_apps;
  ce_avp_ipv6 =
      0 ∷ 0 ∷ 1 ∷ 1 ∷ 0 ∷ 0 ∷ 0 ∷ 24 ∷ 0 ∷ 0 ∷ 0 ∷ 0 ∷ 0 ∷ 0 ∷ 0 ∷ 0 ∷ 0 ∷ 0 ∷ 0 ∷ 0 ∷ 0 ∷ 0 ∷ 0 ∷ 0
      ∷ vendor_and_apps;
  dpr_avp = 0 ∷ 0 ∷ 1 ∷ 17 ∷ 64 ∷ 0 ∷ 0 ∷ 12 ∷ 0 ∷ 0 ∷ 0 ∷ 0 ∷ [];
}

built : build_msg_buffers (λ n. true) us ≡ ok buffers
unfolding build_msg_buffers build_std_req build_std_ans build_ce_avp_ipv4 build_ce_avp_ipv6
    build_dpr_avp put put_avp put_app_ids app_ids to_32x_len write
built = refl

us-IsShort : IsShort us
us-IsShort = record { identity = omega arith; realm = omega arith }

watchdog_round_example :
    (req : Bytes) × (ans : Bytes) × (dwr true buffers 7 5 ≡ ok req)
    × (IsFrame req × (process_dw (length req) req true ≡ returned true))
    × (dwa true buffers req 2001 ≡ ok ans)
    × (IsFrame ans × (process_dw (length ans) ans false ≡ returned true))
    × (masked_word (word_of 1 ans) ≡ masked_word (word_of 1 req))
    × (word_of 3 ans ≡ word_of 3 req)
    × (word_of 4 ans ≡ word_of 4 req)
watchdog_round_example =
    watchdog_round (λ n. true) (λ n. true) us us buffers buffers 7 5 us-IsShort us-IsShort built
      built

disconnect_round_example :
    (req : Bytes) × (ans : Bytes) × (dpr true buffers 1 7 5 ≡ ok req)
    × (IsFrame req × (process_dp (length req) req true ≡ returned true))
    × (dpa true buffers req 2001 ≡ ok ans)
    × (IsFrame ans × (process_dp (length ans) ans false ≡ returned true))
    × (masked_word (word_of 1 ans) ≡ masked_word (word_of 1 req))
    × (word_of 3 ans ≡ word_of 3 req)
    × (word_of 4 ans ≡ word_of 4 req)
disconnect_round_example =
    disconnect_round (λ n. true) (λ n. true) us us buffers buffers 1 7 5 us-IsShort us-IsShort built
      built

abbrev start : World
start = record {
  table = record {
    hash_size = 4;
    entrys = λ i. record { next_label = 5; lh = [] };
    links = λ i. record { linked = false; label = 0; hash_code = 0 };
  };
  timers = record { owner = λ i. none; lists = λ l. [] };
  trans = λ i. none;
  end_to_end = 9;
  conn_cnt = 1;
  sent = λ i. 0;
  answered = λ i. 0;
  timed_out = λ i. 0;
}

start-Ready : Ready 0 7 start
start-Ready = record {
  labelled =
      empty-Labelled 4 (λ i. 5) (λ i. record { linked = false; label = 0; hash_code = 0 })
        (λ c. refl) (λ i. omega arith);
  few = omega arith;
  some_size = omega arith;
  small = omega arith;
  ids = omega arith;
  free = refl;
}

watchdog_answered_example :
    (req : Bytes) × (ans : Bytes) × (after : World) × (((internal_send_request
          (some 7)
          100
          start).1.table.links
        7).label
      ≡ 5)
    × (dwr true buffers 9 5 ≡ ok req)
    × (dispatch_message req start ≡ ok (to_machine dwr_received, start))
    × (dwa true buffers req 2001 ≡ ok ans)
    × (dispatch_message ans (internal_send_request (some 7) 100 start).1
        ≡ ok (to_machine dwa_received, after))
    × ((after.table.links 7).linked ≡ false)
    × (after.trans 7 ≡ none)
watchdog_answered_example =
    watchdog_answered (λ n. true) (λ n. true) us us buffers buffers 0 7 100 2001 start start
      us-IsShort us-IsShort built built start-Ready

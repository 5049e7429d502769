-- ===== src/Trans.antt =====
-- transport/trans.h and transport/trans.c: transactions, and the parts of transport/peer.c that send
-- requests. One peer is modelled, with its table of transactions. A transaction is known by its
-- address, which is also that of its link for the table and that of its link for the timer list.
pub mod Steps
pub mod Refs
pub mod Sends
pub mod Turns
pub mod Arrivals
pub mod Safe
use disc.Base.{
  ℕ, ◌+◌, ◌-◌, ◌*◌, ◌/◌, ◌%◌, ◌^◌, Bool, true, false, ◌||◌, Option, none, some, List, [], ◌∷◌, map,
  ltb, ◌==◌, if◌then◌else◌,
}
use disc.Utils.{Bytes}
use disc.Timer.{
  Node, Timers, update, add_to_timer_list, rmv_from_timer_list, get_expired_from_timer_list,
}
use disc.HashTable.{Table, add_cell_to_htable, remove_cell_from_htable, cell_lookup_and_remove}
use disc.HashTable.Hash.{hash}
use disc.HashTable.Found.{hashed}

-- `info` is the connection id for the requests of the peer itself.
pub record Trans : Type 0 where
  pub ref_cnt : ℕ
  pub info : ℕ

-- `trans` are the transactions that are allocated. `sent`, `answered` and `timed_out` count for each
-- address the requests that were entered into the table, the answers that took one out of it, and
-- the timeouts that did.
pub record World : Type 0 where
  pub table : Table
  pub timers : Timers
  pub trans : ℕ → Option Trans
  pub end_to_end : ℕ
  pub conn_cnt : ℕ
  pub sent : ℕ → ℕ
  pub answered : ℕ → ℕ
  pub timed_out : ℕ → ℕ

-- The list `tr_timeout_timer`.
abbrev pub tr_timeout_timer : ℕ
tr_timeout_timer = 0

abbrev pub tr_timeout_timeout : ℕ
tr_timeout_timeout = 10

abbrev pub increased : ℕ → (ℕ → ℕ) → ℕ → ℕ
increased tr f = update f tr (f tr + 1)

-- The counter of an allocated transaction changes.
abbrev pub recounted : (ℕ → ℕ) → Option Trans → Option Trans
recounted f none = none
recounted f (some t) = some (record t { ref_cnt = f t.ref_cnt })

abbrev pub count_refs : (ℕ → ℕ) → ℕ → World → World
count_refs f tr w = record w { trans = update w.trans tr (recounted f (w.trans tr)) }

abbrev pub atomic_inc : ℕ → World → World
atomic_inc = count_refs (λ n. n + 1)

abbrev pub atomic_dec : ℕ → World → World
atomic_dec = count_refs (λ n. n - 1)

-- `shm_malloc` has returned the address `tr`; the structure is filled with zeros.
unfoldable pub create_transaction : ℕ → ℕ → World → World
create_transaction tr info w = record w {
  trans = update w.trans tr (some (record { ref_cnt = 1; info = info }));
  table = record (w.table) {
    links = update w.table.links tr (record { linked = false; label = 0; hash_code = 0 });
  };
  timers = record (w.timers) { owner = update w.timers.owner tr none };
}

-- `atomic_dec_and_test`, and the transaction is freed with its last reference.
abbrev pub dereferenced : Option Trans → Option Trans
dereferenced none = none
dereferenced (some t) =
    if t.ref_cnt - 1 == 0 then none else some (record t { ref_cnt = t.ref_cnt - 1 })

unfoldable pub destroy_transaction : ℕ → World → World
destroy_transaction tr w = record w { trans = update w.trans tr (dereferenced (w.trans tr)) }

-- The bytes of an `unsigned int` in memory.
abbrev pub word_bytes : ℕ → Bytes
word_bytes n = n % 2 ^ 8 ∷ n / 2 ^ 8 % 2 ^ 8 ∷ n / 2 ^ 16 % 2 ^ 8 ∷ n / 2 ^ 24 % 2 ^ 8 ∷ []

-- The hash code of a transaction.
abbrev pub code_of : ℕ → World → ℕ
code_of ete w = hash (word_bytes ete) w.table.hash_size

-- A transaction is put into the table. The hash label is used as hop-by-hop id.
unfoldable pub enter : ℕ → ℕ → World → World
enter tr ete w = record w {
  table = (add_cell_to_htable tr (hashed tr (code_of ete w) w.table)).1;
  sent = increased tr w.sent;
}

-- Its timeout is started.
unfoldable pub start_timer : ℕ → ℕ → World → World
start_timer tr ticks w = record w {
  timers =
      (add_to_timer_list tr tr_timeout_timer ((ticks + tr_timeout_timeout) % 2 ^ 32) w.timers).1;
}

-- What follows when it is in the table, up to the writing of the message. Other threads can run in
-- front of each of the two parts: Steps takes them apart.
abbrev pub launched : ℕ → ℕ → World → World
launched tr ticks w = start_timer tr ticks (atomic_inc tr w)

-- The transaction of a request of the peer itself; the message gets the end-to-end id
-- `w.end_to_end` and, as hop-by-hop id, the label.
abbrev pub enter_own : ℕ → World → World
enter_own tr w =
    enter tr w.end_to_end
      (create_transaction tr w.conn_cnt (record w { end_to_end = (w.end_to_end + 1) % 2 ^ 32 }))

unfoldable pub internal_send_request : Option ℕ → ℕ → World → Bool × World
internal_send_request none ticks w = (false, w)
internal_send_request (some tr) ticks w = (true, launched tr ticks (enter_own tr w))

-- A request of the application; `forwarded` is the end-to-end id of a request that is forwarded, and
-- `is_open` says that the peer is in PEER_CONN or PEER_WAIT_DWA.
abbrev pub enter_request : ℕ → Option ℕ → World → World
enter_request tr (some ete) w = enter tr ete w
enter_request tr none w =
    enter tr w.end_to_end (record w { end_to_end = (w.end_to_end + 1) % 2 ^ 32 })

unfoldable pub send_req_to_peer : ℕ → Bool → Option ℕ → ℕ → World → Bool × World
send_req_to_peer tr false forwarded ticks w = (false, w)
send_req_to_peer tr true forwarded ticks w =
    (true, launched tr ticks (enter_request tr forwarded w))

-- What the threads still have to do with transactions that they hold.
--   held: a thread of the application has created it.
--   entered: a sender has put it into the table, and `atomic_inc` is next.
--   counted: `add_to_timer_list` is next.
--   found: `transaction_lookup` has taken it out of the table.
--   expired: `timeout_handler` has taken it out of the timer list.
--   releasing: it is out of both, and `atomic_dec` is next.
--   destroying: `destroy_transaction` is next.
pub data Task : Type 0 where
  held : ℕ → Task
  entered counted : (tr ticks : ℕ) → Task
  found expired releasing destroying : ℕ → Task

-- The cell and the table that the search leaves.
abbrev pub looked_up : Option ℕ × Table → World → World × List Task
looked_up (none, table) w = (record w { table = table }, [])
looked_up (some tr, table) w =
    (record w { table = table; answered = increased tr w.answered }, found tr ∷ [])

-- `transaction_lookup`, up to the search in the table; the answer has the end-to-end id `ete` and the
-- hop-by-hop id `hop`.
unfoldable pub transaction_lookup : ℕ → ℕ → World → World × List Task
transaction_lookup ete hop w = looked_up (cell_lookup_and_remove (code_of ete w) hop w.table) w

-- `timeout_handler`, up to its loop.
unfoldable pub timeout_handler : ℕ → World → World × List Task
timeout_handler ticks w =
    let (nodes, timers) = get_expired_from_timer_list tr_timeout_timer ticks w.timers in
    (record w { timers = timers }, map (λ n. expired n.link) nodes)

-- The next thing that a thread does with a transaction, and what is left then.
unfoldable pub advance : Task → World → World × List Task
advance (held tr) w = (w, destroying tr ∷ [])
advance (entered tr ticks) w = (atomic_inc tr w, counted tr ticks ∷ [])
advance (counted tr ticks) w = (start_timer tr ticks w, [])
advance (found tr) w =
    let (out, timers) = rmv_from_timer_list tr tr_timeout_timer w.timers in
    (record w { timers = timers }, (if out then releasing tr else destroying tr) ∷ [])
advance (expired tr) w =
    let (out, table) = remove_cell_from_htable tr w.table in
    if out
    then (record w { table = table; timed_out = increased tr w.timed_out }, releasing tr ∷ [])
    else (w, destroying tr ∷ [])
advance (releasing tr) w = (atomic_dec tr w, destroying tr ∷ [])
advance (destroying tr) w = (destroy_transaction tr w, [])

-- ===== src/Peer/Returned.antt =====
-- The transaction of a request that a peer sends itself, and its end with the answer.
use disc.Base.{ℕ, ◌+◌, ◌-◌, ◌^◌, ◌<◌, ◌≡◌, refl, ap, ◌∙◌, false, none, some, [], ◌∷◌, arith}
use disc.Timer.{update, add_to_timer_list, rmv_from_timer_list}
use disc.HashTable.{
  Table, add_cell_to_htable, find_label, cell_lookup, cell_lookup_and_remove, list_del_zero,
}
use disc.HashTable.Links.{IsLinked}
use disc.HashTable.Labels.{Labelled, IsAged-update, unlinked_nowhere, add_cell-Labelled}
use disc.HashTable.Found.{hashed, hashed-Labelled, Labelled-lookup}
use disc.HashTable.Hash.{hash, hash-lt}
use disc.Trans.{
  World, Trans, create_transaction, enter, start_timer, internal_send_request, transaction_lookup,
  advance, destroy_transaction, code_of, increased, found,
}
use disc.Peer.{Event}
use disc.Peer.Dispatch.{to_machine, answered, given_up}

-- A cell that is in no list may get another link.
relinked-Labelled :
    (n cell : ℕ) (t : Table)
    → (t.links cell).linked ≡ false
    → Labelled n t
    → Labelled n (record t {
      links = update t.links cell (record { linked = false; label = 0; hash_code = 0 });
    })
unfolding IsLinked
relinked-Labelled n cell t free l = record {
  linked = λ c k. ground (arith, l.linked c k);
  next = l.next;
  aged = λ k.
      IsAged-update t.links _ (t.entrys k).next_label n cell (t.entrys k).lh
        (unlinked_nowhere cell k t free l.linked) (l.aged k);
}

-- Where a cell is that has just been added
added_lookup :
    (n cell code : ℕ) (t : Table)
    → (t.links cell).linked ≡ false
    → n < 2 ^ 32 - 1
    → code < t.hash_size
    → t.hash_size < 2 ^ 32
    → Labelled n t
    → cell_lookup code (t.entrys code).next_label (add_cell_to_htable cell (hashed cell code t)).1
      ≡ some cell
unfolding add_cell_to_htable
added_lookup n cell code t free h below small l =
    let u : Table = hashed cell code t in
    let v : Table = (add_cell_to_htable cell u).1 in
    (Labelled-lookup (n + 1) v cell code (t.entrys code).next_label
        (add_cell-Labelled n cell u (ground arith) h (hashed-Labelled n cell code t free l))).1
      (ground arith)

-- The world behind a request, and the label that it got
abbrev pub requested : ℕ → ℕ → World → World
requested tr ticks w = (internal_send_request (some tr) ticks w).1

abbrev pub label_of : World → ℕ
label_of w = (w.table.entrys (code_of w.end_to_end w)).next_label

-- What the theorem asks of the table
pub record Ready (n tr : ℕ) (w : World) : Type 0 where
  pub labelled : Labelled n w.table
  pub few : n < 2 ^ 32 - 1
  pub some_size : 0 < w.table.hash_size
  pub small : w.table.hash_size < 2 ^ 32
  pub ids : w.end_to_end < 2 ^ 32
  pub free : (w.table.links tr).linked ≡ false

looked_up_again :
    (n tr ticks : ℕ) (w : World)
    → Ready n tr w
    → find_label
        (requested tr ticks w).table.links
        (label_of w)
        ((requested tr ticks w).table.entrys (code_of w.end_to_end w)).lh
      ≡ some tr
unfolding internal_send_request enter start_timer create_transaction cell_lookup
looked_up_again n tr ticks w r =
    let t : Table = (create_transaction tr w.conn_cnt w).table in
    added_lookup n tr (code_of w.end_to_end w) t (ground arith) r.few
      (hash-lt _ w.table.hash_size r.some_size r.small) r.small
      (relinked-Labelled n tr w.table r.free r.labelled)

-- The label is that of the new cell, which internal_send_request writes into the message.
pub label_taken :
    (n tr ticks : ℕ) (w : World)
    → Ready n tr w
    → ((requested tr ticks w).table.links tr).label ≡ label_of w
unfolding internal_send_request enter start_timer create_transaction add_cell_to_htable
label_taken n tr ticks w r =
    let below : code_of w.end_to_end w < w.table.hash_size =
      hash-lt _ w.table.hash_size r.some_size r.small in
    ground (arith, r.small, below)

same_size : (tr ticks : ℕ) (w : World) → (requested tr ticks w).table.hash_size ≡ w.table.hash_size
unfolding internal_send_request enter start_timer create_transaction add_cell_to_htable
same_size tr ticks w = ground arith

taken_out :
    (tr ete hop : ℕ) (v : World)
    → find_label v.table.links hop (v.table.entrys (code_of ete v)).lh ≡ some tr
    → transaction_lookup ete hop v ≡ (
      record v { table = list_del_zero tr v.table; answered = increased tr v.answered },
      found tr ∷ [],
    )
unfolding transaction_lookup cell_lookup_and_remove
taken_out tr ete hop v e = rw (transaction_lookup, cell_lookup_and_remove, e) refl

-- The last two references go.
given_up_frees :
    (tr : ℕ) (v : World) (x : Trans)
    → v.trans tr ≡ some x
    → x.ref_cnt ≡ 2
    → v.timers.owner tr ≡ some 0
    → ((given_up tr v).trans tr ≡ none) × ((given_up tr v).table ≡ v.table)
unfolding advance rmv_from_timer_list destroy_transaction
given_up_frees tr v x e two at = rw (at, e, two) (ground arith)

-- What the request leaves of its transaction
has_two :
    (tr ticks : ℕ) (w : World)
    → (x : Trans) × ((requested tr ticks w).trans tr ≡ some x)
      × (x.ref_cnt ≡ 2)
      × ((requested tr ticks w).timers.owner tr ≡ some 0)
unfolding internal_send_request enter start_timer create_transaction add_to_timer_list
has_two tr ticks w = (record { ref_cnt = 2; info = w.conn_cnt }, ground arith, refl, ground arith)

pub settled :
    (n tr ticks : ℕ) (w : World) (event : Event)
    → Ready n tr w
    → (after : World) × (answered event
          (transaction_lookup w.end_to_end (label_of w) (requested tr ticks w))
        ≡ (to_machine event, after))
      × ((after.table.links tr).linked ≡ false)
      × (after.trans tr ≡ none)
settled n tr ticks w event r =
    let v : World = requested tr ticks w in
    let code : code_of w.end_to_end v ≡ code_of w.end_to_end w =
      ap (hash _) (same_size tr ticks w) in
    let same : find_label v.table.links (label_of w) (v.table.entrys (code_of w.end_to_end v)).lh
        ≡ some tr =
      ap (λ k. find_label v.table.links (label_of w) (v.table.entrys k).lh) code
      ∙ looked_up_again n tr ticks w r in
    let out = taken_out tr w.end_to_end (label_of w) v same in
    let left : World = record v {
      table = list_del_zero tr v.table;
      answered = increased tr v.answered;
    } in
    let (x, e, two, at) = has_two tr ticks w in
    let (freed, kept) = given_up_frees tr left x e two at in
    (given_up tr left, ap (answered event) out, rw kept (ground arith), freed)

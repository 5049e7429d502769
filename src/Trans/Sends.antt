-- ===== src/Trans/Sends.antt =====
-- The steps of a thread that creates and sends a request keep the references counted.
use disc.Base.{
  ℕ, ◌+◌, ◌<◌, ◌%◌, ◌^◌, ◌≡◌, refl, sym, subst, true, false, none, some, List, ◌∷◌, ◌==◌,
  if◌then◌else◌, arith,
}
use disc.Timer.{Timers, update, add_to_timer_list}
use disc.Timer.Owners.{IsOwned, add_to_timer_list-IsOwned}
use disc.HashTable.{Link, Table, add_cell_to_htable}
use disc.HashTable.Links.{IsLinked, add_cell_to_htable-IsLinked}
use disc.HashTable.Found.{hashed, hashed-IsLinked}
use disc.HashTable.Hash.{hash-lt}
use disc.Trans.Steps.{entering}
use disc.Trans.{
  World, Task, held, entered, counted, create_transaction, enter, start_timer, atomic_inc, code_of,
  word_bytes, tr_timeout_timeout,
}
use disc.Trans.Refs.{
  weight, holders, starting, refs, IsFirst, Good, weight-holders, weight-starting,
}

create-IsLinked :
    (t : Table) (a : ℕ) (l : Link)
    → (t.links a).linked ≡ false
    → l.linked ≡ false
    → IsLinked t
    → IsLinked (record t { links = update t.links a l })
unfolding IsLinked
create-IsLinked t a l e f h c code = ground (arith, h c code)

create-IsOwned :
    (t : Timers) (a : ℕ)
    → t.owner a ≡ none
    → IsOwned t
    → IsOwned (record t { owner = update t.owner a none })
unfolding IsOwned
create-IsOwned t a e h i l = ground (arith, h i l)

pub create_transaction-Good :
    {w : World} {ts : List Task} (tr info : ℕ)
    → w.trans tr ≡ none
    → Good w ts
    → Good (create_transaction tr info w) (held tr ∷ ts)
unfolding create_transaction weight holders entering starting
create_transaction-Good {w} {ts} tr info e g =
    let nothing : refs w ts tr ≡ 0 = ground (arith, g.counted tr) in
    let unlinked : (w.table.links tr).linked ≡ false = ground (arith, nothing) in
    let unowned : w.timers.owner tr ≡ none = ground (arith, nothing) in
    record {
      linked = create-IsLinked w.table tr _ unlinked refl g.linked;
      owned = create-IsOwned w.timers tr unowned g.owned;
      only = λ a l. ground (arith, g.only a l);
      some_size = g.some_size;
      small = g.small;
      counted = λ a. ground (arith, g.counted a, nothing);
      alone = λ a h. ground (arith, g.alone a, nothing);
      first = λ a h. ground (arith, g.first a, nothing);
      one_start = λ a. ground (arith, g.one_start a, weight-starting a ts, nothing);
      balance = λ a. ground (arith, g.balance a);
    }

-- What `add_cell_to_htable` and `add_to_timer_list` do to the links, where they succeed.
added_link :
    (tr code a : ℕ) (t : Table)
    → code < t.hash_size
    → t.hash_size < 2 ^ 32
    → ((add_cell_to_htable tr (hashed tr code t)).1.links a).linked
      ≡ (if a == tr then true else (t.links a).linked)
unfolding add_cell_to_htable
added_link tr code a t h small = ground arith

added_size :
    (tr code : ℕ) (t : Table) → (add_cell_to_htable tr (hashed tr code t)).1.hash_size ≡ t.hash_size
unfolding add_cell_to_htable
added_size tr code t = ground arith

added_owner :
    (tr timeout a : ℕ) (t : Timers)
    → t.owner tr ≡ none
    → (add_to_timer_list tr 0 timeout t).1.owner a ≡ (if a == tr then some 0 else t.owner a)
unfolding add_to_timer_list
added_owner tr timeout a t e = rw (add_to_timer_list, e) refl

pub enter-Good :
    {w : World} {ts : List Task} (tr ete ticks : ℕ)
    → Good w (held tr ∷ ts)
    → Good (enter tr ete w) (entered tr ticks ∷ ts)
unfolding enter weight holders entering starting
enter-Good {w} {ts} tr ete ticks g =
    let code = code_of ete w in
    let below : code < w.table.hash_size =
      hash-lt (word_bytes ete) w.table.hash_size g.some_size g.small in
    let one : refs w (held tr ∷ ts) tr ≡ 1 = g.alone tr (ground arith) in
    let unlinked : (w.table.links tr).linked ≡ false = ground (arith, one) in
    let link = λ (a : ℕ). added_link tr code a w.table below g.small in
    record {
      linked =
          add_cell_to_htable-IsLinked tr (hashed tr code w.table) (ground arith)
            (hashed-IsLinked tr code w.table unlinked g.linked);
      owned = g.owned;
      only = g.only;
      some_size = subst (λ n. 0 < n) (sym (added_size tr code w.table)) g.some_size;
      small = subst (λ n. n < 2 ^ 32) (sym (added_size tr code w.table)) g.small;
      counted = λ a. ground (arith, g.counted a, one, link a);
      alone = λ a h. ground (arith, g.alone a, one, weight-holders a ts, link a);
      first = λ a h. ground (arith, g.first a, one, unlinked, link a);
      one_start = g.one_start;
      balance = λ a. ground (arith, g.balance a, one, link a);
    }

pub count-Good :
    {w : World} {ts : List Task} (tr ticks : ℕ)
    → Good w (entered tr ticks ∷ ts)
    → Good (atomic_inc tr w) (counted tr ticks ∷ ts)
unfolding weight holders entering starting
count-Good {w} {ts} tr ticks g =
    let now : IsFirst w (entered tr ticks ∷ ts) tr = g.first tr (ground arith) in
    record {
      linked = g.linked;
      owned = g.owned;
      only = g.only;
      some_size = g.some_size;
      small = g.small;
      counted = λ a. ground (arith, g.counted a, now);
      alone = λ a h. ground (arith, g.alone a, now, weight-holders a ts);
      first = λ a h. ground (arith, g.first a, now);
      one_start = λ a. ground (arith, g.one_start a, now, weight-starting a ts);
      balance = g.balance;
    }

pub start_timer-Good :
    {w : World} {ts : List Task} (tr ticks : ℕ)
    → Good w (counted tr ticks ∷ ts)
    → Good (start_timer tr ticks w) ts
unfolding start_timer weight holders entering starting
start_timer-Good {w} {ts} tr ticks g =
    let unowned : w.timers.owner tr ≡ none = ground (arith, g.one_start tr) in
    let timeout = (ticks + tr_timeout_timeout) % 2 ^ 32 in
    let owner = λ (a : ℕ). added_owner tr timeout a w.timers unowned in
    record {
      linked = g.linked;
      owned = add_to_timer_list-IsOwned w.timers tr 0 timeout g.owned;
      only = λ a l. ground (arith, g.only a l, owner a);
      some_size = g.some_size;
      small = g.small;
      counted = λ a. ground (arith, g.counted a, unowned, owner a);
      alone = λ a h. ground (arith, g.alone a, unowned, owner a);
      first = λ a h. ground (arith, g.first a, unowned, owner a);
      one_start = λ a. ground (arith, g.one_start a, unowned, owner a);
      balance = g.balance;
    }

-- ===== src/Trans/Turns.antt =====
-- What the threads do with transactions keeps the references counted.
use disc.Base.{ℕ, inl, inr, List, ◌∷◌, ◌++◌, Bool-cases, arith}
use disc.Timer.{is_owner, rmv_from_timer_list}
use disc.Timer.Owners.{rmv_from_timer_list-IsOwned}
use disc.HashTable.{remove_cell_from_htable}
use disc.HashTable.Links.{list_del_zero-IsLinked}
use disc.Trans.{
  World, Task, held, entered, counted, found, expired, releasing, destroying, destroy_transaction,
  advance,
}
use disc.Trans.Steps.{entering}
use disc.Trans.Sends.{count-Good, start_timer-Good}
use disc.Trans.Refs.{weight, holders, starting, weight-holders, Good}

found-Good :
    {w : World} {ts : List Task} (tr : ℕ)
    → Good w (found tr ∷ ts)
    → Good (advance (found tr) w).0 ((advance (found tr) w).1 ++ ts)
unfolding advance weight holders entering starting rmv_from_timer_list
found-Good {w} {ts} tr g = elim (Bool-cases (is_owner (w.timers.owner tr) 0)) [
  | inl e ↦ rw e (record {
    linked = g.linked;
    owned = rw (rmv_from_timer_list, e) at (rmv_from_timer_list-IsOwned w.timers tr 0 g.owned);
    only = λ a l. ground (arith, g.only a l);
    some_size = g.some_size;
    small = g.small;
    counted = λ a. ground (arith, g.counted a);
    alone = λ a h. ground (arith, g.alone a);
    first = λ a h. ground (arith, g.first a);
    one_start = λ a. ground (arith, g.one_start a);
    balance = g.balance;
  })
  | inr e ↦ rw e (record {
    linked = g.linked;
    owned = g.owned;
    only = g.only;
    some_size = g.some_size;
    small = g.small;
    counted = g.counted;
    alone = g.alone;
    first = g.first;
    one_start = g.one_start;
    balance = g.balance;
  })
]

expired-Good :
    {w : World} {ts : List Task} (tr : ℕ)
    → Good w (expired tr ∷ ts)
    → Good (advance (expired tr) w).0 ((advance (expired tr) w).1 ++ ts)
unfolding advance weight holders entering starting remove_cell_from_htable
expired-Good {w} {ts} tr g = elim (Bool-cases (w.table.links tr).linked) [
  | inl e ↦ rw e (record {
    linked = list_del_zero-IsLinked tr w.table g.linked;
    owned = g.owned;
    only = g.only;
    some_size = g.some_size;
    small = g.small;
    counted = λ a. ground (arith, g.counted a);
    alone = λ a h. ground (arith, g.alone a);
    first = λ a h. ground (arith, g.first a);
    one_start = λ a. ground (arith, g.one_start a);
    balance = λ a. ground (arith, g.balance a);
  })
  | inr e ↦ rw e (record {
    linked = g.linked;
    owned = g.owned;
    only = g.only;
    some_size = g.some_size;
    small = g.small;
    counted = g.counted;
    alone = g.alone;
    first = g.first;
    one_start = g.one_start;
    balance = g.balance;
  })
]

pub advance-Good :
    {w : World} {ts : List Task} (t : Task)
    → Good w (t ∷ ts)
    → Good (advance t w).0 ((advance t w).1 ++ ts)
advance-Good (found tr) g = found-Good tr g
advance-Good (expired tr) g = expired-Good tr g
advance-Good (entered tr ticks) g = unfold advance in count-Good tr ticks g
advance-Good (counted tr ticks) g = unfold advance in start_timer-Good tr ticks g
advance-Good {w} {ts} (held tr) g =
    unfold advance weight holders entering starting in
    (record {
      linked = g.linked;
      owned = g.owned;
      only = g.only;
      some_size = g.some_size;
      small = g.small;
      counted = g.counted;
      alone = λ a h. ground (arith, g.alone a, weight-holders a ts);
      first = λ a h. ground (arith, g.first a);
      one_start = λ a. ground (arith, g.one_start a);
      balance = g.balance;
    })
advance-Good {w} {ts} (releasing tr) g =
    unfold advance weight holders entering starting in
    (record {
      linked = g.linked;
      owned = g.owned;
      only = g.only;
      some_size = g.some_size;
      small = g.small;
      counted = λ a. ground (arith, g.counted a);
      alone = λ a h. ground (arith, g.alone a, weight-holders a ts);
      first = λ a h. ground (arith, g.first a);
      one_start = λ a. ground (arith, g.one_start a);
      balance = g.balance;
    })
advance-Good {w} {ts} (destroying tr) g =
    unfold advance weight holders entering starting destroy_transaction in
    (record {
      linked = g.linked;
      owned = g.owned;
      only = g.only;
      some_size = g.some_size;
      small = g.small;
      counted = λ a. ground (arith, g.counted a);
      alone = λ a h. ground (arith, g.alone a, weight-holders a ts);
      first = λ a h. ground (arith, g.first a);
      one_start = λ a. ground (arith, g.one_start a);
      balance = g.balance;
    })

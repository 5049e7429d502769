-- ===== src/Trans/Arrivals.antt =====
-- The search for the transaction of an answer, and the transactions that expire.
use disc.Base.{
  ℕ, ◌+◌, ◌≡◌, refl, sym, subst, inl, inr, true, none, some, List, [], ◌∷◌, ◌++◌, map, Option-cases,
  arith,
}
use disc.Timer.{Node, Timers, get_expired_from_timer_list, split_expired}
use disc.Timer.Counts.{count, count-split_expired, disown_lem}
use disc.Timer.Owners.{IsOwned, get_expired-IsOwned}
use disc.HashTable.{Table, cell_lookup, cell_lookup_and_remove, find_label, list_del_zero}
use disc.HashTable.Links.{IsLinked, list_del_zero-IsLinked, find_label-occurs}
use disc.Trans.{World, Task, expired, looked_up, transaction_lookup, timeout_handler, code_of}
use disc.Trans.Steps.{entering, IsLate}
use disc.Trans.Refs.{
  weight, holders, starting, weight-append, holders-append, entering-append, starting-append, owned,
  IsCounted, Good,
}

take_some :
    (code label cell : ℕ) (t : Table)
    → find_label t.links label (t.entrys code).lh ≡ some cell
    → cell_lookup_and_remove code label t ≡ (some cell, list_del_zero cell t)
unfolding cell_lookup_and_remove
take_some code label cell t e = rw (cell_lookup_and_remove, e) refl

take_none :
    (code label : ℕ) (t : Table)
    → find_label t.links label (t.entrys code).lh ≡ none
    → cell_lookup_and_remove code label t ≡ (none, t)
unfolding cell_lookup_and_remove
take_none code label t e = rw (cell_lookup_and_remove, e) refl

pub transaction_lookup-Good :
    {w : World} {ts : List Task} (ete hop : ℕ)
    → IsLate w ts ete hop
    → Good w ts
    → Good (transaction_lookup ete hop w).0 ((transaction_lookup ete hop w).1 ++ ts)
unfolding transaction_lookup cell_lookup weight holders entering starting IsLinked
transaction_lookup-Good {w} {ts} ete hop late g =
    let code = code_of ete w in
    elim (Option-cases (find_label w.table.links hop (w.table.entrys code).lh)) [
      | inl e ↦
          subst (λ r. Good (looked_up r w).0 ((looked_up r w).1 ++ ts))
            (sym (take_none code hop w.table e)) g
      | inr (tr, e) ↦
          let there : (w.table.links tr).linked ≡ true = ground (
            arith,
            find_label-occurs w.table.links hop tr (w.table.entrys code).lh e,
            g.linked tr code,
          ) in
          let nobody : entering tr ts ≡ 0 = late tr e in
          subst (λ r. Good (looked_up r w).0 ((looked_up r w).1 ++ ts))
            (sym (take_some code hop tr w.table e))
            (record {
              linked = list_del_zero-IsLinked tr w.table g.linked;
              owned = g.owned;
              only = g.only;
              some_size = g.some_size;
              small = g.small;
              counted = λ a. ground (arith, g.counted a, there);
              alone = λ a h. ground (arith, g.alone a, there);
              first = λ a h. ground (arith, g.first a, there, nobody);
              one_start = λ a. ground (arith, g.one_start a);
              balance = λ a. ground (arith, g.balance a, there);
            })
    ]

weight-expired : (a : ℕ) (ns : List Node) → weight a (map (λ n. expired n.link) ns) ≡ count a ns
unfolding weight count
weight-expired a [] = refl
weight-expired a (n ∷ ns) = ground (arith, weight-expired a ns)

holders-expired : (a : ℕ) (ns : List Node) → holders a (map (λ n. expired n.link) ns) ≡ 0
unfolding holders
holders-expired a [] = refl
holders-expired a (n ∷ ns) = omega (arith, holders-expired a ns)

entering-expired : (a : ℕ) (ns : List Node) → entering a (map (λ n. expired n.link) ns) ≡ 0
unfolding entering
entering-expired a [] = refl
entering-expired a (n ∷ ns) = entering-expired a ns

starting-expired : (a : ℕ) (ns : List Node) → starting a (map (λ n. expired n.link) ns) ≡ 0
unfolding starting
starting-expired a [] = refl
starting-expired a (n ∷ ns) = omega (arith, starting-expired a ns)

-- The reference of the timer list passes to the task.
moved_refs :
    (t : Timers) (ticks a : ℕ)
    → IsOwned t
    → ((a l : ℕ) → t.owner a ≡ some l → l ≡ 0)
    → let (nodes, u) = get_expired_from_timer_list 0 ticks t in
      owned (u.owner a) + weight a (map (λ n. expired n.link) nodes) ≡ owned (t.owner a)
unfolding get_expired_from_timer_list IsOwned
moved_refs t ticks a o only =
    let (nodes, kept) = split_expired ticks (t.lists 0) in
    ground (
      arith,
      o a 0,
      only a,
      count-split_expired a ticks (t.lists 0),
      disown_lem (split_expired ticks (t.lists 0)).0 t.owner a,
      weight-expired a (split_expired ticks (t.lists 0)).0,
    )

owner-expired :
    (t : Timers) (ticks a l : ℕ)
    → (get_expired_from_timer_list 0 ticks t).1.owner a ≡ some l
    → t.owner a ≡ some l
unfolding get_expired_from_timer_list
owner-expired t ticks a l e =
    ground (arith, disown_lem (split_expired ticks (t.lists 0)).0 t.owner a)

pub timeout_handler-Good :
    {w : World} {ts : List Task} (ticks : ℕ)
    → Good w ts
    → Good (timeout_handler ticks w).0 ((timeout_handler ticks w).1 ++ ts)
unfolding timeout_handler
timeout_handler-Good {w} {ts} ticks g =
    let nodes : List Node = (get_expired_from_timer_list 0 ticks w.timers).0 in
    let new : List Task = map (λ n. expired n.link) nodes in
    record {
      linked = g.linked;
      owned = get_expired-IsOwned w.timers 0 ticks g.owned;
      only = λ a l e. g.only a l (owner-expired w.timers ticks a l e);
      some_size = g.some_size;
      small = g.small;
      counted = λ a.
          subst (IsCounted (w.trans a))
            (omega (arith, moved_refs w.timers ticks a g.owned g.only, weight-append a new ts))
            (g.counted a);
      alone = λ a h. omega (
        arith,
        moved_refs w.timers ticks a g.owned g.only,
        weight-append a new ts,
        g.alone a (omega (arith, holders-append a new ts, holders-expired a nodes)),
      );
      first = λ a h.
          let same : entering a (new ++ ts) ≡ entering a ts =
            omega (arith, entering-append a new ts, entering-expired a nodes) in
          let now = g.first a (omega (arith, h, same)) in
          (
            now.0,
            omega
                (arith, moved_refs w.timers ticks a g.owned g.only, weight-append a new ts, now.1),
            omega (arith, same, now.2),
          );
      one_start = λ a. omega (
        arith,
        moved_refs w.timers ticks a g.owned g.only,
        starting-append a new ts,
        starting-expired a nodes,
        g.one_start a,
      );
      balance = g.balance;
    }

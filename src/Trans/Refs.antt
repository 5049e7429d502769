-- ===== src/Trans/Refs.antt =====
-- The references of a transaction: one from the table, one from the timer list, and those of threads.
use disc.Base.{
  ℕ, ◌+◌, ◌<◌, ◌≤◌, ◌^◌, ◌≡◌, subst, true, Option, none, some, List, [], ◌∷◌, ◌++◌, ◌==◌, arith,
}
use disc.Timer.Counts.{once}
use disc.Timer.Owners.{IsOwned}
use disc.HashTable.Links.{IsLinked}
use disc.Trans.Steps.{entering}
use disc.Trans.{Trans, World, Task, held, entered, counted, found, expired, releasing, destroying}

abbrev pub weigh : ℕ → Task → ℕ
weigh a (held tr) = once (tr == a)
weigh a (entered tr ticks) = 0
weigh a (counted tr ticks) = once (tr == a)
weigh a (found tr) = once (tr == a)
weigh a (expired tr) = once (tr == a)
weigh a (releasing tr) = once (tr == a) + once (tr == a)
weigh a (destroying tr) = once (tr == a)

-- The references of all threads.
unfoldable pub weight : ℕ → List Task → ℕ
weight a [] = 0
weight a (t ∷ ts) = weigh a t + weight a ts

abbrev pub is_held : ℕ → Task → ℕ
is_held a (held tr) = once (tr == a)
is_held a _ = 0

unfoldable pub holders : ℕ → List Task → ℕ
holders a [] = 0
holders a (t ∷ ts) = is_held a t + holders a ts

-- Senders that are about to start the timeout.
abbrev pub is_counted : ℕ → Task → ℕ
is_counted a (counted tr ticks) = once (tr == a)
is_counted a _ = 0

unfoldable pub starting : ℕ → List Task → ℕ
starting a [] = 0
starting a (t ∷ ts) = is_counted a t + starting a ts

abbrev pub owned : Option ℕ → ℕ
owned none = 0
owned (some l) = 1

abbrev pub refs : World → List Task → ℕ → ℕ
refs w ts a = once (w.table.links a).linked + owned (w.timers.owner a) + weight a ts

-- The counter of an allocated transaction is the number of its references, and there is one. In front of
-- `atomic_inc`, that of the table is the only one: the sender passed its own on. A timeout is started
-- by one sender, and only if there is none.
abbrev pub IsCounted : Option Trans → ℕ → Type 0
IsCounted none n = n ≡ 0
IsCounted (some t) n = (t.ref_cnt ≡ n) × (0 < n)

abbrev pub timeouts : World → List Task → ℕ → ℕ
timeouts w ts a = owned (w.timers.owner a) + starting a ts

abbrev pub IsFirst : World → List Task → ℕ → Type 0
IsFirst w ts a = ((w.table.links a).linked ≡ true) × (refs w ts a ≡ 1) × (entering a ts ≡ 1)

pub record Good (w : World) (ts : List Task) : Type 0 where
  pub linked : IsLinked w.table
  pub owned : IsOwned w.timers
  pub only : (a l : ℕ) → w.timers.owner a ≡ some l → l ≡ 0
  pub some_size : 0 < w.table.hash_size
  pub small : w.table.hash_size < 2 ^ 32
  pub counted : (a : ℕ) → IsCounted (w.trans a) (refs w ts a)
  pub alone : (a : ℕ) → 0 < holders a ts → refs w ts a ≡ 1
  pub first : (a : ℕ) → 0 < entering a ts → IsFirst w ts a
  pub one_start : (a : ℕ) → timeouts w ts a ≤ 1
  pub balance : (a : ℕ) → w.sent a ≡ once (w.table.links a).linked + (w.answered a + w.timed_out a)

pub weight-append : (a : ℕ) (xs ys : List Task) → weight a (xs ++ ys) ≡ weight a xs + weight a ys
unfolding weight
weight-append a [] ys = omega arith
weight-append a (x ∷ xs) ys = omega (arith, weight-append a xs ys)

pub holders-append :
    (a : ℕ) (xs ys : List Task) → holders a (xs ++ ys) ≡ holders a xs + holders a ys
unfolding holders
holders-append a [] ys = omega arith
holders-append a (x ∷ xs) ys = omega (arith, holders-append a xs ys)

pub entering-append :
    (a : ℕ) (xs ys : List Task) → entering a (xs ++ ys) ≡ entering a xs + entering a ys
unfolding entering
entering-append a [] ys = omega arith
entering-append a (entered tr ticks ∷ xs) ys = omega (arith, entering-append a xs ys)
entering-append a (held tr ∷ xs) ys = entering-append a xs ys
entering-append a (counted tr ticks ∷ xs) ys = entering-append a xs ys
entering-append a (found tr ∷ xs) ys = entering-append a xs ys
entering-append a (expired tr ∷ xs) ys = entering-append a xs ys
entering-append a (releasing tr ∷ xs) ys = entering-append a xs ys
entering-append a (destroying tr ∷ xs) ys = entering-append a xs ys

pub starting-append :
    (a : ℕ) (xs ys : List Task) → starting a (xs ++ ys) ≡ starting a xs + starting a ys
unfolding starting
starting-append a [] ys = omega arith
starting-append a (x ∷ xs) ys = omega (arith, starting-append a xs ys)

pub weight-starting : (a : ℕ) (ts : List Task) → starting a ts ≤ weight a ts
unfolding weight starting
weight-starting a [] = omega arith
weight-starting a (t ∷ ts) = ground (arith, weight-starting a ts)

pub weight-holders : (a : ℕ) (ts : List Task) → holders a ts ≤ weight a ts
unfolding weight holders
weight-holders a [] = omega arith
weight-holders a (t ∷ ts) = ground (arith, weight-holders a ts)

-- The order of the tasks does not count.
entering-pick :
    (a : ℕ) (before after : List Task) (t : Task)
    → entering a (before ++ (t ∷ after)) ≡ entering a (t ∷ (before ++ after))
entering-pick a before after t = omega (
  arith,
  entering-append a before (t ∷ after),
  entering-append a (t ∷ []) after,
  entering-append a (t ∷ []) (before ++ after),
  entering-append a before after,
)

starting-pick :
    (a : ℕ) (before after : List Task) (t : Task)
    → starting a (before ++ (t ∷ after)) ≡ starting a (t ∷ (before ++ after))
unfolding starting
starting-pick a before after t =
    omega (arith, starting-append a before (t ∷ after), starting-append a before after)

weight-pick :
    (a : ℕ) (before after : List Task) (t : Task)
    → weight a (before ++ (t ∷ after)) ≡ weight a (t ∷ (before ++ after))
unfolding weight
weight-pick a before after t =
    omega (arith, weight-append a before (t ∷ after), weight-append a before after)

holders-pick :
    (a : ℕ) (before after : List Task) (t : Task)
    → holders a (before ++ (t ∷ after)) ≡ holders a (t ∷ (before ++ after))
unfolding holders
holders-pick a before after t =
    omega (arith, holders-append a before (t ∷ after), holders-append a before after)

pub Good-pick :
    {w : World} (before after : List Task) (t : Task)
    → Good w (before ++ (t ∷ after))
    → Good w (t ∷ (before ++ after))
Good-pick {w = w} before after t g = record {
  linked = g.linked;
  owned = g.owned;
  only = g.only;
  some_size = g.some_size;
  small = g.small;
  counted = λ a.
      subst (IsCounted (w.trans a)) (omega (arith, weight-pick a before after t)) (g.counted a);
  alone = λ a h. omega (
    arith,
    weight-pick a before after t,
    g.alone a (omega (arith, holders-pick a before after t)),
  );
  first = λ a h.
      let now = g.first a (omega (arith, entering-pick a before after t)) in
      (
        now.0,
        omega (arith, weight-pick a before after t, now.1),
        omega (arith, entering-pick a before after t, now.2),
      );
  one_start = λ a. omega (arith, starting-pick a before after t, g.one_start a);
  balance = g.balance;
}

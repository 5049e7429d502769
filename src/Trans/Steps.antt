-- ===== src/Trans/Steps.antt =====
-- The threads that work with transactions, and the orders in which their steps can come.
use disc.Base.{ℕ, ◌≡◌, ◌+◌, ◌==◌, Option, none, some, List, [], ◌∷◌, ◌++◌}
use disc.Timer.Counts.{once}
use disc.HashTable.{cell_lookup}
use disc.Trans.{
  World, Task, held, entered, create_transaction, enter_own, enter_request, code_of,
  transaction_lookup, timeout_handler, advance,
}

pub record System : Type 0 where
  pub world : World
  pub tasks : List Task

abbrev pub system : World × List Task → List Task → System
system (w, new) tasks = record { world = w; tasks = new ++ tasks }

-- Is a sender between entering the transaction and counting the reference of the table?
unfoldable pub entering : ℕ → List Task → ℕ
entering a [] = 0
entering a (entered tr ticks ∷ ts) = once (tr == a) + entering a ts
entering a (t ∷ ts) = entering a ts

-- The answer does not name a transaction whose request is not written yet, and not even counted.
abbrev pub IsLate : World → List Task → ℕ → ℕ → Type 0
IsLate w tasks ete hop =
    (tr : ℕ) → cell_lookup (code_of ete w) hop w.table ≡ some tr → entering tr tasks ≡ 0

-- The threads take turns in any order, each up to its next access to what they share. `shm_malloc`
-- returns a block that is not allocated.
pub data Step : System → System → Type 0 where
  request :
      {w : World} {tasks : List Task} (tr ticks : ℕ)
      → w.trans tr ≡ none
      → Step (system (w, []) tasks) (system (enter_own tr w, entered tr ticks ∷ []) tasks)
  create :
      {w : World} {tasks : List Task} (tr info : ℕ)
      → w.trans tr ≡ none
      → Step (system (w, []) tasks) (system (create_transaction tr info w, held tr ∷ []) tasks)
  send :
      {w : World} (before after : List Task) (tr : ℕ) (forwarded : Option ℕ) (ticks : ℕ)
      → Step
          (system (w, []) (before ++ (held tr ∷ after)))
          (system (enter_request tr forwarded w, entered tr ticks ∷ []) (before ++ after))
  answer :
      {w : World} {tasks : List Task} (ete hop : ℕ)
      → IsLate w tasks ete hop
      → Step (system (w, []) tasks) (system (transaction_lookup ete hop w) tasks)
  tick :
      {w : World} {tasks : List Task} (ticks : ℕ)
      → Step (system (w, []) tasks) (system (timeout_handler ticks w) tasks)
  turn :
      {w : World} (before after : List Task) (t : Task)
      → Step (system (w, []) (before ++ (t ∷ after))) (system (advance t w) (before ++ after))

pub data Steps : System → System → Type 0 where
  rest : {s : System} → Steps s s
  next : {s t u : System} → Steps s t → Step t u → Steps s u

-- ===== src/Tests/Tables.antt =====
-- Runs of the hash table and of transactions, and the witnesses.
use disc.Base.{◌*◌, ◌^◌, ◌≡◌, ◌↔◌, refl, true, false, none, some, [], ◌∷◌, arith}
use disc.Utils.{Bytes}
use disc.Timer.{add_to_timer_list}
use disc.Timer.Owners.{IsOwned}
use disc.Timer.Counts.{count}
use disc.HashTable.{
  Link, Table, add_cell_to_htable, cell_lookup, cell_lookup_and_remove, find_label, build_htable,
}
use disc.HashTable.Hash.{hash, sum_words, tail_word}
use disc.HashTable.Links.{IsLinked, occurs}
use disc.HashTable.Found.{hashed, built, add, IsAt, cell_lookup_lem}
use disc.Trans.{
  World, found, entered, counted, enter, enter_own, start_timer, launched, atomic_inc, advance,
  create_transaction, transaction_lookup,
}
use disc.Trans.Steps.{System, system, Steps, IsLate, entering, rest, next, request, answer, turn}
use disc.Trans.Refs.{Good, weight, holders, starting}
use disc.Trans.Safe.{Steps-Good}

abbrev no_link : Link
no_link = record { linked = false; label = 0; hash_code = 0 }

abbrev empty_table : Table
empty_table = record {
  hash_size = 4;
  entrys = λ i. record { next_label = 5; lh = [] };
  links = λ i. no_link;
}

-- Cell 7 in entry 2
abbrev one_cell : Table
one_cell = (add_cell_to_htable 7 (hashed 7 2 empty_table)).1

cell_lookup_lem_example : (cell_lookup 2 5 one_cell ≡ some 7) ↔ IsAt one_cell 7 2 5
unfolding add_cell_to_htable
cell_lookup_lem_example =
    cell_lookup_lem true true true 4 0 (λ i. 5 * 2 ^ 12) (λ i. no_link) empty_table one_cell 1 7 2 5
      (λ c. refl) (unfold build_htable in refl) (add 7 2 built refl (omega arith)) (omega arith)
      (omega arith)

abbrev four_bytes : Bytes
four_bytes = 1 ∷ 2 ∷ 200 ∷ 4 ∷ []

abbrev start : World
start = record {
  table = empty_table;
  timers = record { owner = λ i. none; lists = λ l. [] };
  trans = λ i. none;
  end_to_end = 9;
  conn_cnt = 1;
  sent = λ i. 0;
  answered = λ i. 0;
  timed_out = λ i. 0;
}

start-Good : Good start []
unfolding IsLinked occurs IsOwned count weight holders entering starting
start-Good = record {
  linked = λ c code. refl;
  owned = λ i l. refl;
  only = λ a l e. ground arith;
  some_size = omega arith;
  small = omega arith;
  counted = λ a. refl;
  alone = λ a h. absurd (omega arith);
  first = λ a h. absurd (omega arith);
  one_start = λ a. omega arith;
  balance = λ a. refl;
}

abbrev requested : World
requested = launched 7 100 (enter_own 7 start)

abbrev answered : System
answered = system (transaction_lookup 9 5 requested) []

-- A request is sent, and its answer is looked up.
sent : Steps (system (start, []) []) (system (requested, []) [])
unfolding advance
sent =
    next
      (next (next rest (request {w = start} {tasks = []} 7 100 refl))
        (turn {w = enter_own 7 start} [] [] (entered 7 100)))
      (turn {w = atomic_inc 7 (enter_own 7 start)} [] [] (counted 7 100))

nobody_enters : IsLate requested [] 9 5
unfolding entering
nobody_enters tr e = refl

Steps-Good_example : Good answered.world answered.tasks
Steps-Good_example =
    Steps-Good (next sent (answer {w = requested} {tasks = []} 9 5 nobody_enters)) start-Good

answer_found : answered.tasks ≡ found 7 ∷ []
unfolding enter start_timer transaction_lookup create_transaction add_cell_to_htable
    cell_lookup_and_remove hash sum_words tail_word find_label add_to_timer_list
answer_found = refl

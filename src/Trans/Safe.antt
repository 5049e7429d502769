-- ===== src/Trans/Safe.antt =====
-- Transactions are freed exactly when nothing refers to them, whatever the order of the threads.
use disc.Base.{ℕ, Option, none, some, List, ◌∷◌}
use disc.Trans.{World, Task, held, entered, enter_request}
use disc.Trans.Steps.{System, Step, request, create, send, answer, tick, turn, Steps, rest, next}
use disc.Trans.Refs.{Good, Good-pick}
use disc.Trans.Sends.{create_transaction-Good, enter-Good}
use disc.Trans.Turns.{advance-Good}
use disc.Trans.Arrivals.{transaction_lookup-Good, timeout_handler-Good}

-- The end-to-end id of the peer does not matter.
renumbered :
    {w : World} {ts : List Task} (n : ℕ) → Good w ts → Good (record w { end_to_end = n }) ts
renumbered n g = record {
  linked = g.linked;
  owned = g.owned;
  only = g.only;
  some_size = g.some_size;
  small = g.small;
  counted = g.counted;
  alone = g.alone;
  first = g.first;
  one_start = g.one_start;
  balance = g.balance;
}

enter_request-Good :
    {w : World} {ts : List Task} (tr : ℕ) (forwarded : Option ℕ) (ticks : ℕ)
    → Good w (held tr ∷ ts)
    → Good (enter_request tr forwarded w) (entered tr ticks ∷ ts)
enter_request-Good tr none ticks g = enter-Good tr _ ticks (renumbered _ g)
enter_request-Good tr (some ete) ticks g = enter-Good tr ete ticks g

Step-Good : {s t : System} → Step s t → Good s.world s.tasks → Good t.world t.tasks
Step-Good (request {w} tr ticks e) g =
    enter-Good tr w.end_to_end ticks (create_transaction-Good tr w.conn_cnt e (renumbered _ g))
Step-Good (create tr info e) g = create_transaction-Good tr info e g
Step-Good (send before after tr forwarded ticks) g =
    enter_request-Good tr forwarded ticks (Good-pick before after (held tr) g)
Step-Good (answer ete hop late) g = transaction_lookup-Good ete hop late g
Step-Good (tick ticks) g = timeout_handler-Good ticks g
Step-Good (turn before after t) g = advance-Good t (Good-pick before after t g)

-- Through any interleaving of the steps of threads that create transactions, send requests, receive
-- answers, and handle timeouts, each up to its next access to what they share, from a system in which it
-- holds, if no answer is taken for a transaction between its entry into the table and the `atomic_inc`
-- behind it, where its request is not written yet: the reference counter of each
-- allocated transaction is the number of the references that the table, the timer list and the
-- threads have to it, and is not 0; nothing refers to a transaction that is not allocated; and of the
-- requests that were entered into the table at an address, each was taken out either by an answer or
-- by a timeout, or is still there. The table has entries, and less than 2 ^ 32.
pub Steps-Good : {s t : System} → Steps s t → Good s.world s.tasks → Good t.world t.tasks
Steps-Good rest g = g
Steps-Good (next r s) g = Step-Good s (Steps-Good r g)

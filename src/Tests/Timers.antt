-- ===== src/Tests/Timers.antt =====
-- Two links on the way through a timer list.
use disc.Base.{ℕ, ◌≡◌, ◌≢◌, refl, none, some, List, [], ◌∷◌, arith}
use disc.Timer.{Node, Timers, get_expired_from_timer_list}
use disc.Timer.Counts.{count}
use disc.Timer.Owners.{IsOwned, Call, add, insert, rmv, get_expired, run_calls, run_calls-IsOwned}
use disc.Timer.Sorted.{IsOrdered, IsSplit, get_expired_from_timer_list-IsSplit}

abbrev no_timers : Timers
no_timers = record { owner = λ _. none; lists = λ _. [] }

no_timers-IsOwned : IsOwned no_timers
unfolding IsOwned count
no_timers-IsOwned i l = refl

no_timers-IsOrdered : IsOrdered no_timers
unfolding IsOrdered
no_timers-IsOrdered l = tt

abbrev calls : List Call
calls = insert 1 9 50 ∷ add 2 9 60 ∷ add 2 8 70 ∷ insert 3 9 55 ∷ get_expired 9 55 ∷ rmv 2 9 ∷ []

run_calls-IsOwned_example : IsOwned (run_calls calls no_timers)
run_calls-IsOwned_example = run_calls-IsOwned calls no_timers no_timers-IsOwned

abbrev node : ℕ → ℕ → Node
node link timeout = record { link = link; timeout = timeout }

-- Three links in list 9.
abbrev three : Timers
three = record { owner = λ _. some 9; lists = λ _. node 1 50 ∷ node 3 55 ∷ node 2 60 ∷ [] }

three-IsOrdered : IsOrdered three
unfolding IsOrdered
three-IsOrdered l = ground arith

get_expired_from_timer_list-IsSplit_example :
    IsSplit 55 (three.lists 9) (
      (get_expired_from_timer_list 9 55 three).0,
      (get_expired_from_timer_list 9 55 three).1.lists 9,
    )
    × ((k : ℕ) → k ≢ 9 → (get_expired_from_timer_list 9 55 three).1.lists k ≡ three.lists k)
unfolding IsOrdered
get_expired_from_timer_list-IsSplit_example =
    get_expired_from_timer_list-IsSplit three 9 55 (three-IsOrdered 9)

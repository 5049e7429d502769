-- ===== src/Timer/Owners.antt =====
-- Every link knows the list that it is in.
use disc.Base.{ℕ, ◌+◌, ◌≡◌, inl, inr, none, some, List, [], ◌∷◌, ◌++◌, ◌==◌, Option-cases, arith}
use disc.Timer.{
  Node, Timers, relinked, add_to_timer_list, insert_into_timer_list, is_owner, rmv_from_timer_list,
  get_expired_from_timer_list, split_expired,
}
use disc.Timer.Counts.{
  once, count, count-append, count-insert_node, count-remove_node, count-split_expired, disown_lem,
}

-- A link stands once in the list that its field names, and in no other list.
unfoldable pub IsOwned : Timers → Type 0
IsOwned t = (i l : ℕ) → count i (t.lists l) ≡ once (is_owner (t.owner i) l)

-- A list that has one node more, which had no owner.
linked-IsOwned :
    (t : Timers) (tl l : ℕ) (ns : List Node)
    → IsOwned t
    → t.owner tl ≡ none
    → ((i : ℕ) → count i ns ≡ once (tl == i) + count i (t.lists l))
    → IsOwned (relinked t tl (some l) l ns)
unfolding IsOwned
linked-IsOwned t tl l ns o free grown i k = ground (arith, o i k, o i l, grown i)

-- One new node counts for its own link.
count-one :
    (i tl timeout : ℕ) (ns : List Node)
    → count i (ns ++ (record { link = tl; timeout = timeout } ∷ [])) ≡ once (tl == i) + count i ns
unfolding count
count-one i tl timeout ns =
    omega (arith, count-append i ns (record { link = tl; timeout = timeout } ∷ []))

pub add_to_timer_list-IsOwned :
    (t : Timers) (tl l timeout : ℕ) → IsOwned t → IsOwned (add_to_timer_list tl l timeout t).1
unfolding IsOwned add_to_timer_list
add_to_timer_list-IsOwned t tl l timeout o = elim (Option-cases (t.owner tl)) [
  | inl free ↦
      rw (add_to_timer_list, free)
        (linked-IsOwned t tl l _ o free (λ i. count-one i tl timeout (t.lists l)))
  | inr (k, taken) ↦ rw (add_to_timer_list, taken) o
]

insert_into_timer_list-IsOwned :
    (t : Timers) (tl l timeout : ℕ) → IsOwned t → IsOwned (insert_into_timer_list tl l timeout t).1
unfolding IsOwned insert_into_timer_list
insert_into_timer_list-IsOwned t tl l timeout o = elim (Option-cases (t.owner tl)) [
  | inl free ↦
      rw (insert_into_timer_list, free)
        (linked-IsOwned t tl l _ o free
          (λ i. count-insert_node i (record { link = tl; timeout = timeout }) (t.lists l)))
  | inr (k, taken) ↦ rw (insert_into_timer_list, taken) o
]

pub rmv_from_timer_list-IsOwned :
    (t : Timers) (tl l : ℕ) → IsOwned t → IsOwned (rmv_from_timer_list tl l t).1
unfolding IsOwned rmv_from_timer_list
rmv_from_timer_list-IsOwned t tl l o i k =
    ground (arith, o i k, o i l, count-remove_node i tl (t.lists l))

pub get_expired-IsOwned :
    (t : Timers) (l time : ℕ) → IsOwned t → IsOwned (get_expired_from_timer_list l time t).1
unfolding IsOwned get_expired_from_timer_list
get_expired-IsOwned t l time o i k = ground (
  arith,
  o i k,
  o i l,
  count-split_expired i time (t.lists l),
  disown_lem (split_expired time (t.lists l)).0 t.owner i,
)

-- The calls of the four operations.
pub data Call : Type 0 where
  add insert : ℕ → ℕ → ℕ → Call
  rmv : ℕ → ℕ → Call
  get_expired : ℕ → ℕ → Call

abbrev pub called : Call → Timers → Timers
called (add tl l timeout) t = (add_to_timer_list tl l timeout t).1
called (insert tl l timeout) t = (insert_into_timer_list tl l timeout t).1
called (rmv tl l) t = (rmv_from_timer_list tl l t).1
called (get_expired l time) t = (get_expired_from_timer_list l time t).1

called-IsOwned : (c : Call) (t : Timers) → IsOwned t → IsOwned (called c t)
called-IsOwned (add tl l timeout) t o = add_to_timer_list-IsOwned t tl l timeout o
called-IsOwned (insert tl l timeout) t o = insert_into_timer_list-IsOwned t tl l timeout o
called-IsOwned (rmv tl l) t o = rmv_from_timer_list-IsOwned t tl l o
called-IsOwned (get_expired l time) t o = get_expired-IsOwned t l time o

abbrev pub run_calls : List Call → Timers → Timers
run_calls [] t = t
run_calls (c ∷ cs) t = run_calls cs (called c t)

-- Through any sequence of calls of the four operations, with any links, lists and times, from timers
-- in which it holds: each link stands exactly once in the list that its field `timer_list` names,
-- and in no list if this is NULL.
pub run_calls-IsOwned : (cs : List Call) (t : Timers) → IsOwned t → IsOwned (run_calls cs t)
run_calls-IsOwned [] t o = o
run_calls-IsOwned (c ∷ cs) t o = run_calls-IsOwned cs (called c t) (called-IsOwned c t o)

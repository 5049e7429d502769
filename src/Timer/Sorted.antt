-- ===== src/Timer/Sorted.antt =====
-- Lists in the order of their timeouts, and what expires of them.
use disc.Base.{
  ℕ, ◌+◌, ◌≤◌, ◌≡◌, ◌≢◌, ◌==◌, refl, ap, inl, inr, Option, none, some, List, [], ◌∷◌, ◌++◌, All,
  ltb, leb, ltb→lt, leb→le, Bool-cases, Option-cases, arith,
}
use disc.Timer.{
  Node, Timers, relinked, update, is_owner, add_to_timer_list, insert_node, insert_into_timer_list,
  remove_node, rmv_from_timer_list, split_expired, get_expired_from_timer_list,
}

-- No node expires before time `time`.
abbrev pub AtLeast : ℕ → List Node → Type 0
AtLeast time ns = All (λ (n : Node). time ≤ n.timeout) ns

abbrev pub IsSorted : List Node → Type 0
IsSorted [] = Unit
IsSorted (n ∷ ns) = AtLeast n.timeout ns × IsSorted ns

AtLeast-weaken : (a b : ℕ) (ns : List Node) → a ≤ b → AtLeast b ns → AtLeast a ns
AtLeast-weaken a b [] h g = tt
AtLeast-weaken a b (n ∷ ns) h g = (omega (arith, g.0), AtLeast-weaken a b ns h g.1)

insert_node-AtLeast :
    (a : ℕ) (n : Node) (ns : List Node)
    → a ≤ n.timeout
    → AtLeast a ns
    → AtLeast a (insert_node n ns)
unfolding insert_node
insert_node-AtLeast a n [] h g = (h, tt)
insert_node-AtLeast a n (m ∷ ns) h g = ground (arith, insert_node-AtLeast a n ns h g.1)

insert_node-IsSorted : (n : Node) (ns : List Node) → IsSorted ns → IsSorted (insert_node n ns)
unfolding insert_node
insert_node-IsSorted n [] s = (tt, tt)
insert_node-IsSorted n (m ∷ ns) s = elim (Bool-cases (ltb m.timeout n.timeout)) [
  | inl earlier ↦
      let lt = ltb→lt m.timeout n.timeout earlier in
      rw earlier
        (insert_node-AtLeast m.timeout n ns (omega arith) s.0, insert_node-IsSorted n ns s.1)
  | inr later ↦
      let le : n.timeout ≤ m.timeout = ground arith in
      rw later ((le, AtLeast-weaken n.timeout m.timeout ns le s.0), s)
]

remove_node-AtLeast : (a tl : ℕ) (ns : List Node) → AtLeast a ns → AtLeast a (remove_node tl ns)
unfolding remove_node
remove_node-AtLeast a tl [] g = tt
remove_node-AtLeast a tl (n ∷ ns) g = ground (arith, remove_node-AtLeast a tl ns g.1)

remove_node-IsSorted : (tl : ℕ) (ns : List Node) → IsSorted ns → IsSorted (remove_node tl ns)
unfolding remove_node
remove_node-IsSorted tl [] s = tt
remove_node-IsSorted tl (n ∷ ns) s =
    ground (arith, remove_node-AtLeast n.timeout tl ns s.0, remove_node-IsSorted tl ns s.1)

-- The nodes that have expired at `time`, then those that have not.
abbrev pub IsSplit : ℕ → List Node → List Node × List Node → Type 0
IsSplit time ns (out, kept) =
    (ns ≡ out ++ kept)
    × All (λ (n : Node). n.timeout ≤ time) out
    × AtLeast (time + 1) kept
    × IsSorted kept

split_expired-IsSplit :
    (time : ℕ) (ns : List Node) → IsSorted ns → IsSplit time ns (split_expired time ns)
unfolding split_expired
split_expired-IsSplit time [] s = (refl, tt, tt, tt)
split_expired-IsSplit time (n ∷ ns) s = elim (Bool-cases (leb n.timeout time)) [
  | inl due ↦
      let (e, out, kept, sorted) = split_expired-IsSplit time ns s.1 in
      rw due (ap (λ ms. n ∷ ms) e, (leb→le n.timeout time due, out), kept, sorted)
  | inr not_due ↦
      let lt : time + 1 ≤ n.timeout = ground arith in
      rw not_due (refl, tt, (lt, AtLeast-weaken (time + 1) n.timeout ns lt s.0), s)
]

-- All lists are in the order of their timeouts.
unfoldable pub IsOrdered : Timers → Type 0
IsOrdered t = (l : ℕ) → IsSorted (t.lists l)

update-IsOrdered :
    (t : Timers) (tl l : ℕ) (o : Option ℕ) (ns : List Node)
    → IsOrdered t
    → IsSorted ns
    → IsOrdered (relinked t tl o l ns)
unfolding IsOrdered
update-IsOrdered t tl l o ns h s k = elim (Bool-cases (k == l)) [
  | inl same ↦ rw same s
  | inr other ↦ rw other (h k)
]

inserted-IsOrdered :
    (t : Timers) (tl l timeout : ℕ)
    → IsOrdered t
    → IsOrdered (insert_into_timer_list tl l timeout t).1
unfolding insert_into_timer_list IsOrdered
inserted-IsOrdered t tl l timeout h = elim (Option-cases (t.owner tl)) [
  | inl free ↦
      rw (insert_into_timer_list, free)
        (update-IsOrdered t tl l (some l) _ h (insert_node-IsSorted _ (t.lists l) (h l)))
  | inr (k, taken) ↦ rw (insert_into_timer_list, taken) h
]

removed-IsOrdered : (t : Timers) (tl l : ℕ) → IsOrdered t → IsOrdered (rmv_from_timer_list tl l t).1
unfolding rmv_from_timer_list IsOrdered
removed-IsOrdered t tl l h = elim (Bool-cases (is_owner (t.owner tl) l)) [
  | inl owned ↦
      rw (rmv_from_timer_list, owned)
        (update-IsOrdered t tl l none _ h (remove_node-IsSorted tl (t.lists l) (h l)))
  | inr other ↦ rw (rmv_from_timer_list, other) h
]

-- Where all lists are in the order of their timeouts, they still are after `insert_into_timer_list`,
-- whatever the new timeout, and after `rmv_from_timer_list`.
insert_into_timer_list-IsOrdered :
    (t : Timers) (tl l timeout : ℕ)
    → IsOrdered t
    → IsOrdered (insert_into_timer_list tl l timeout t).1 × IsOrdered (rmv_from_timer_list tl l t).1
insert_into_timer_list-IsOrdered t tl l timeout h =
    (inserted-IsOrdered t tl l timeout h, removed-IsOrdered t tl l h)

last-AtLeast :
    (n : Node) (ns : List Node) (a : ℕ) → AtLeast a ns → a ≤ n.timeout → AtLeast a (ns ++ (n ∷ []))
last-AtLeast n [] a g h = (h, tt)
last-AtLeast n (m ∷ ns) a g h = (g.0, last-AtLeast n ns a g.1 h)

append-IsSorted :
    (n : Node) (ns : List Node)
    → IsSorted ns
    → All (λ (m : Node). m.timeout ≤ n.timeout) ns
    → IsSorted (ns ++ (n ∷ []))
append-IsSorted n [] s h = (tt, tt)
append-IsSorted n (m ∷ ns) s h = (last-AtLeast n ns m.timeout s.0 h.0, append-IsSorted n ns s.1 h.1)

-- The lists also stay in order after `add_to_timer_list` with a timeout that no node of the list
-- exceeds, as the transport uses it: with the present time and a constant.
add_to_timer_list-IsOrdered :
    (t : Timers) (tl l timeout : ℕ)
    → IsOrdered t
    → All (λ (m : Node). m.timeout ≤ timeout) (t.lists l)
    → IsOrdered (add_to_timer_list tl l timeout t).1
unfolding add_to_timer_list IsOrdered
add_to_timer_list-IsOrdered t tl l timeout h g = elim (Option-cases (t.owner tl)) [
  | inl free ↦
      rw (add_to_timer_list, free)
        (update-IsOrdered t tl l (some l) _ h (append-IsSorted _ (t.lists l) (h l) g))
  | inr (k, taken) ↦ rw (add_to_timer_list, taken) h
]

-- On a list in the order of its timeouts, `get_expired_from_timer_list` detaches exactly the nodes
-- whose timeout has come, in their order: the rest expires later and is still in order. The other
-- lists stay as they were.
pub get_expired_from_timer_list-IsSplit :
    (t : Timers) (l time : ℕ)
    → IsSorted (t.lists l)
    → IsSplit time
        (t.lists l)
        ((get_expired_from_timer_list l time t).0, (get_expired_from_timer_list l time t).1.lists l)
      × ((k : ℕ) → k ≢ l → (get_expired_from_timer_list l time t).1.lists k ≡ t.lists k)
unfolding get_expired_from_timer_list
get_expired_from_timer_list-IsSplit t l time s =
    let (e, out, kept, sorted) = split_expired-IsSplit time (t.lists l) s in
    let same : update t.lists l (split_expired time (t.lists l)).1 l
        ≡ (split_expired time (t.lists l)).1 =
      ground arith in
    (rw same (e, out, kept, sorted), λ k other. ground arith)

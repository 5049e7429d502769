-- ===== src/Timer.antt =====
-- timer.c: `add_to_timer_list`, `insert_into_timer_list`, `rmv_from_timer_list` and
-- `get_expired_from_timer_list`. Links and lists are known by their addresses. Each operation holds
-- the mutex of its list from its start to its end, so that it is one step here.
pub mod Counts
pub mod Owners
pub mod Sorted
use disc.Base.{
  ℕ, Bool, true, false, ◌&&◌, Option, none, some, List, [], ◌∷◌, ◌++◌, ltb, leb, ◌==◌,
  if◌then◌else◌,
}

-- A link in a list, with its `timeout`.
pub record Node : Type 0 where
  pub link : ℕ
  pub timeout : ℕ

-- `owner` is the field `timer_list` of each link, `none` for NULL; `lists` are the nodes between
-- `first_tl` and `last_tl` of each list.
pub record Timers : Type 0 where
  pub owner : ℕ → Option ℕ
  pub lists : ℕ → List Node

-- A function changed at one argument.
abbrev pub update {ℓ} : {A : Type ℓ} → (ℕ → A) → ℕ → A → ℕ → A
update f k a i = if i == k then a else f i

-- The list `l` gets new nodes, and `tl` a new owner.
abbrev pub relinked : Timers → ℕ → Option ℕ → ℕ → List Node → Timers
relinked t tl o l nodes = record { owner = update t.owner tl o; lists = update t.lists l nodes }

-- The results: `false` is -1, `true` is 1.
unfoldable pub add_to_timer_list : ℕ → ℕ → ℕ → Timers → Bool × Timers
add_to_timer_list tl l timeout t = elim (t.owner tl) [
  | some k ↦ (false, t)
  | none ↦
      (true, relinked t tl (some l) l (t.lists l ++ (record { link = tl; timeout = timeout } ∷ [])))
]

-- Insertion in front of the first node that does not expire earlier.
unfoldable pub insert_node : Node → List Node → List Node
insert_node n [] = n ∷ []
insert_node n (m ∷ ns) =
    let rest = insert_node n ns in if ltb m.timeout n.timeout then m ∷ rest else n ∷ m ∷ ns

unfoldable pub insert_into_timer_list : ℕ → ℕ → ℕ → Timers → Bool × Timers
insert_into_timer_list tl l timeout t = elim (t.owner tl) [
  | some k ↦ (false, t)
  | none ↦ (
    true,
    relinked t tl (some l) l (insert_node (record { link = tl; timeout = timeout }) (t.lists l)),
  )
]

-- The neighbours of the node of a link are linked to each other.
unfoldable pub remove_node : ℕ → List Node → List Node
remove_node tl [] = []
remove_node tl (n ∷ ns) = let rest = remove_node tl ns in if n.link == tl then ns else n ∷ rest

-- Is this the list that owns the link?
abbrev pub is_owner : Option ℕ → ℕ → Bool
is_owner none l = false
is_owner (some k) l = k == l

unfoldable pub rmv_from_timer_list : ℕ → ℕ → Timers → Bool × Timers
rmv_from_timer_list tl l t =
    if is_owner (t.owner tl) l
    then (true, relinked t tl none l (remove_node tl (t.lists l)))
    else (false, t)

-- The nodes up to the first that has not expired, and those from there on.
unfoldable pub split_expired : ℕ → List Node → List Node × List Node
split_expired time [] = ([], [])
split_expired time (n ∷ ns) =
    let (out, kept) = split_expired time ns in
    if leb n.timeout time then (n ∷ out, kept) else ([], n ∷ ns)

-- `tl->timer_list = NULL` for each node that has expired.
unfoldable pub disown : List Node → (ℕ → Option ℕ) → ℕ → Option ℕ
disown [] owner = owner
disown (n ∷ ns) owner = disown ns (update owner n.link none)

-- The detached list, and the timers without it.
unfoldable pub get_expired_from_timer_list : ℕ → ℕ → Timers → List Node × Timers
get_expired_from_timer_list l time t =
    let (out, kept) = split_expired time (t.lists l) in
    (out, record { owner = disown out t.owner; lists = update t.lists l kept })

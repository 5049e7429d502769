-- ===== src/Timer/Counts.antt =====
-- How often a link occurs in a list of nodes.
use disc.Base.{
  ℕ, ◌+◌, ◌-◌, ◌≡◌, ◌∙◌, Bool, true, false, Option, none, List, [], ◌∷◌, ◌++◌, ◌==◌, if◌then◌else◌,
  arith,
}
use disc.Timer.{Node, insert_node, remove_node, split_expired, update, disown}

abbrev pub once : Bool → ℕ
once true = 1
once false = 0

unfoldable pub count : ℕ → List Node → ℕ
count i [] = 0
count i (n ∷ ns) = once (n.link == i) + count i ns

pub count-append : (i : ℕ) (xs ys : List Node) → count i (xs ++ ys) ≡ count i xs + count i ys
unfolding count
count-append i [] ys = omega arith
count-append i (x ∷ xs) ys = omega (arith, count-append i xs ys)

pub count-insert_node :
    (i : ℕ) (n : Node) (ns : List Node)
    → count i (insert_node n ns) ≡ once (n.link == i) + count i ns
unfolding count insert_node
count-insert_node i n [] = omega arith
count-insert_node i n (m ∷ ns) = ground (arith, count-insert_node i n ns)

-- Removal takes one occurrence of its link, if there is one, and no other.
pub count-remove_node :
    (i tl : ℕ) (ns : List Node) → count i (remove_node tl ns) ≡ count i ns - once (i == tl)
unfolding count remove_node
count-remove_node i tl [] = omega arith
count-remove_node i tl (n ∷ ns) = ground (arith, count-remove_node i tl ns)

pub count-split_expired :
    (i time : ℕ) (ns : List Node)
    → count i (split_expired time ns).0 + count i (split_expired time ns).1 ≡ count i ns
unfolding count split_expired
count-split_expired i time [] = omega arith
count-split_expired i time (n ∷ ns) = ground (arith, count-split_expired i time ns)

pub disown_lem :
    (ns : List Node) (owner : ℕ → Option ℕ) (i : ℕ)
    → disown ns owner i ≡ (if count i ns == 0 then owner i else none)
unfolding disown count
disown_lem [] owner i = ground arith
disown_lem (n ∷ ns) owner i = disown_lem ns (update owner n.link none) i ∙ ground arith

-- ===== src/HashTable/Links.antt =====
-- The lists of the entries against the field `lh` of the cells.
use disc.Base.{
  ℕ, ◌+◌, ◌-◌, ◌<◌, ◌≡◌, inl, inr, false, ◌&&◌, some, List, [], ◌∷◌, ◌++◌, ◌==◌, Bool-cases,
  Option-cases, arith,
}
use disc.Timer.Counts.{once}
use disc.HashTable.{
  Link, Table, add_cell_to_htable, list_del, list_del_zero, remove_cell_from_htable, find_label,
  cell_lookup_and_remove,
}

unfoldable pub occurs : ℕ → List ℕ → ℕ
occurs c [] = 0
occurs c (d ∷ cs) = once (d == c) + occurs c cs

-- A cell stands once in the entry of its hash code if it is linked, and in no other entry.
unfoldable pub IsLinked : Table → Type 0
IsLinked t =
    (c code : ℕ)
    → occurs c (t.entrys code).lh ≡ once ((t.links c).linked && ((t.links c).hash_code == code))

pub occurs-append : (c : ℕ) (xs ys : List ℕ) → occurs c (xs ++ ys) ≡ occurs c xs + occurs c ys
unfolding occurs
occurs-append c [] ys = omega arith
occurs-append c (x ∷ xs) ys = omega (arith, occurs-append c xs ys)

pub occurs-list_del :
    (c cell : ℕ) (cs : List ℕ) → occurs c (list_del cell cs) ≡ occurs c cs - once (c == cell)
unfolding occurs list_del
occurs-list_del c cell [] = omega arith
occurs-list_del c cell (d ∷ cs) = ground (arith, occurs-list_del c cell cs)

pub add_cell_to_htable-IsLinked :
    (cell : ℕ) (t : Table)
    → (t.links cell).linked ≡ false
    → IsLinked t
    → IsLinked (add_cell_to_htable cell t).1
unfolding IsLinked add_cell_to_htable occurs
add_cell_to_htable-IsLinked cell t free l c code = ground (
  arith,
  l c code,
  l c (t.links cell).hash_code,
  occurs-append c (t.entrys (t.links cell).hash_code).lh (cell ∷ []),
)

pub list_del_zero-IsLinked : (cell : ℕ) (t : Table) → IsLinked t → IsLinked (list_del_zero cell t)
unfolding IsLinked
list_del_zero-IsLinked cell t l c code =
    ground (arith, l c code, occurs-list_del c cell (t.entrys code).lh)

pub remove_cell_from_htable-IsLinked :
    (cell : ℕ) (t : Table) → IsLinked t → IsLinked (remove_cell_from_htable cell t).1
unfolding remove_cell_from_htable
remove_cell_from_htable-IsLinked cell t l = elim (Bool-cases (t.links cell).linked) [
  | inl e ↦ rw (remove_cell_from_htable, e) (list_del_zero-IsLinked cell t l)
  | inr e ↦ rw (remove_cell_from_htable, e) l
]

pub cell_lookup_and_remove-IsLinked :
    (code label : ℕ) (t : Table) → IsLinked t → IsLinked (cell_lookup_and_remove code label t).1
unfolding cell_lookup_and_remove
cell_lookup_and_remove-IsLinked code label t l =
    elim (Option-cases (find_label t.links label (t.entrys code).lh)) [
      | inl e ↦ rw (cell_lookup_and_remove, e) l
      | inr (cell, e) ↦ rw (cell_lookup_and_remove, e) (list_del_zero-IsLinked cell t l)
    ]

-- A cell that is found stands in the list.
pub find_label-occurs :
    (links : ℕ → Link) (label cell : ℕ) (cs : List ℕ)
    → find_label links label cs ≡ some cell
    → (0 < occurs cell cs) × ((links cell).label ≡ label)
unfolding find_label occurs
find_label-occurs links label cell [] e = cc
find_label-occurs links label cell (c ∷ cs) e =
    ground (arith, find_label-occurs links label cell cs)

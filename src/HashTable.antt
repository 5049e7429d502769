-- ===== src/HashTable.antt =====
-- hash_table.c and hash_table.h. Cells are known by their addresses. Each operation holds the mutex
-- of the table while it reads and changes the lists, so that it is one step here. An entry stands for an
-- index below `hash_size`: the source does not test the hash code of a search, and for a table of size 0
-- its test of a new cell passes, and then it reads outside of the array.
pub mod Hash
pub mod Links
pub mod Labels
pub mod Found
use disc.Base.{
  ℕ, ◌+◌, ◌-◌, ◌*◌, ◌/◌, ◌%◌, ◌^◌, Bool, true, false, ◌&&◌, Option, none, some, List, [], ◌∷◌, ◌++◌,
  ltb, ◌==◌, bit_or, if◌then◌else◌,
}
use disc.Timer.{update}

-- `struct h_link`; `linked` says that `lh.next` and `lh.prev` are not 0.
pub record Link : Type 0 where
  pub linked : Bool
  pub label : ℕ
  pub hash_code : ℕ

-- `struct h_entry`; `lh` are the addresses of the cells from the first to the last.
pub record Entry : Type 0 where
  pub next_label : ℕ
  pub lh : List ℕ

pub record Table : Type 0 where
  pub hash_size : ℕ
  pub entrys : ℕ → Entry
  pub links : ℕ → Link

-- The entry that the cell is put into.
abbrev pub extended : Entry → ℕ → Entry
extended e cell = record { next_label = (e.next_label + 1) % 2 ^ 32; lh = e.lh ++ (cell ∷ []) }

-- The results: `false` is -1, `true` is 1. The hash code is compared with `hash_size - 1` of type
-- `unsigned int`.
unfoldable pub add_cell_to_htable : ℕ → Table → Bool × Table
add_cell_to_htable cell t =
    let code = (t.links cell).hash_code in
    let e = t.entrys code in
    let label = record (t.links cell) { linked = true; label = e.next_label } in
    if ltb ((t.hash_size + (2 ^ 32 - 1)) % 2 ^ 32) code then (false, t) else (
      true,
      record t {
        entrys = update t.entrys code (extended e cell);
        links = update t.links cell label;
      },
    )

-- `list_del_zero` on the list that holds the cell.
unfoldable pub list_del : ℕ → List ℕ → List ℕ
list_del cell [] = []
list_del cell (c ∷ cs) = let rest = list_del cell cs in if c == cell then cs else c ∷ rest

-- The neighbours of the cell are linked to each other, in whichever entry it is.
abbrev pub list_del_zero : ℕ → Table → Table
list_del_zero cell t = record t {
  entrys = λ code. record (t.entrys code) { lh = list_del cell (t.entrys code).lh };
  links = update t.links cell (record (t.links cell) { linked = false });
}

unfoldable pub remove_cell_from_htable : ℕ → Table → Bool × Table
remove_cell_from_htable cell t =
    if (t.links cell).linked then (true, list_del_zero cell t) else (false, t)

-- The first cell that has the label.
unfoldable pub find_label : (ℕ → Link) → ℕ → List ℕ → Option ℕ
find_label links label [] = none
find_label links label (c ∷ cs) =
    let rest = find_label links label cs in if (links c).label == label then some c else rest

unfoldable pub cell_lookup : ℕ → ℕ → Table → Option ℕ
cell_lookup code label t = find_label t.links label (t.entrys code).lh

unfoldable pub cell_lookup_and_remove : ℕ → ℕ → Table → Option ℕ × Table
cell_lookup_and_remove code label t = elim (find_label t.links label (t.entrys code).lh) [
  | some cell ↦ (some cell, list_del_zero cell t)
  | none ↦ (none, t)
]

-- `time` is what `time(0)` returns, and `rand` what the calls of `rand` return. The three conditions
-- say whether the two allocations and the creation of the mutex succeed.
unfoldable pub build_htable : Bool → Bool → Bool → ℕ → ℕ → (ℕ → ℕ) → (ℕ → Link) → Option Table
build_htable table entrys mutex hash_size time rand links =
    if table && (entrys && mutex)
    then some (record {
      hash_size = hash_size;
      entrys =
          λ i. record { next_label = bit_or (time * 2 ^ 20) (rand i / 2 ^ 12) % 2 ^ 32; lh = [] };
      links = links;
    })
    else none

-- ===== src/HashTable/Found.antt =====
-- Cells are found under their hash codes and labels, whatever calls have been made.
use mathlib.Core.Option.{some-injective}
use disc.Base.{
  ℕ, ◌+◌, ◌*◌, ◌/◌, ◌<◌, ◌%◌, ◌^◌, ◌≡◌, inl, inr, Bool, true, false, some, bit_or, ◌↔◌, [], subst,
  Bool-cases, Option-cases, arith,
}
use disc.Timer.{update}
use disc.HashTable.{
  Link, Table, add_cell_to_htable, remove_cell_from_htable, find_label, cell_lookup,
  cell_lookup_and_remove, build_htable,
}
use disc.HashTable.Links.{occurs, IsLinked, find_label-occurs}
use disc.HashTable.Labels.{
  Labelled, IsAged, IsAged-same, aged_find_label, add_cell-Labelled, list_del_zero-Labelled,
}

-- A cell gets a hash code.
abbrev pub hashed : ℕ → ℕ → Table → Table
hashed cell code t = record t {
  links = update t.links cell (record (t.links cell) { hash_code = code });
}

-- The calls on a table, `n` of which add a cell; a cell gets its hash code before it is added, and
-- is not added while it is linked. The hash codes are those of entries.
pub data Calls (t : Table) : ℕ → Table → Type 0 where
  built : Calls t 0 t
  add :
      {n : ℕ} {u : Table} (cell code : ℕ)
      → Calls t n u
      → (u.links cell).linked ≡ false
      → code < u.hash_size
      → Calls t (n + 1) (add_cell_to_htable cell (hashed cell code u)).1
  remove :
      {n : ℕ} {u : Table} (cell : ℕ) → Calls t n u → Calls t n (remove_cell_from_htable cell u).1
  take_out :
      {n : ℕ} {u : Table} (code label : ℕ)
      → Calls t n u
      → code < u.hash_size
      → Calls t n (cell_lookup_and_remove code label u).1

pub hashed-IsLinked :
    (cell code : ℕ) (t : Table)
    → (t.links cell).linked ≡ false
    → IsLinked t
    → IsLinked (hashed cell code t)
unfolding IsLinked
hashed-IsLinked cell code t free l c k = ground (arith, l c k)

pub hashed-Labelled :
    (n cell code : ℕ) (t : Table)
    → (t.links cell).linked ≡ false
    → Labelled n t
    → Labelled n (hashed cell code t)
hashed-Labelled n cell code t free l = record {
  linked = hashed-IsLinked cell code t free l.linked;
  next = l.next;
  aged = λ k.
      IsAged-same t.links (hashed cell code t).links (t.entrys k).next_label n (t.entrys k).lh
        (λ c. ground arith) (l.aged k);
}

remove-Labelled :
    (n cell : ℕ) (t : Table) → Labelled n t → Labelled n (remove_cell_from_htable cell t).1
unfolding remove_cell_from_htable
remove-Labelled n cell t l = elim (Bool-cases (t.links cell).linked) [
  | inl e ↦ rw (remove_cell_from_htable, e) (list_del_zero-Labelled n cell t l)
  | inr e ↦ rw (remove_cell_from_htable, e) l
]

take_out-Labelled :
    (n code label : ℕ) (t : Table)
    → Labelled n t
    → Labelled n (cell_lookup_and_remove code label t).1
unfolding cell_lookup_and_remove
take_out-Labelled n code label t l =
    elim (Option-cases (find_label t.links label (t.entrys code).lh)) [
      | inl e ↦ rw (cell_lookup_and_remove, e) l
      | inr (cell, e) ↦ rw (cell_lookup_and_remove, e) (list_del_zero-Labelled n cell t l)
    ]

Calls-Labelled : {t u : Table} {n : ℕ} → Calls t n u → n < 2 ^ 32 → Labelled 0 t → Labelled n u
Calls-Labelled built h l = l
Calls-Labelled (add {n} {u} cell code c free inside) h l =
    add_cell-Labelled n cell (hashed cell code u) (ground arith) (omega arith)
      (hashed-Labelled n cell code u free (Calls-Labelled c (omega arith) l))
Calls-Labelled (remove {n} {u} cell c) h l = remove-Labelled n cell u (Calls-Labelled c h l)
Calls-Labelled (take_out {n} {u} code label c inside) h l =
    take_out-Labelled n code label u (Calls-Labelled c h l)

pub empty-Labelled :
    (size : ℕ) (labels : ℕ → ℕ) (links : ℕ → Link)
    → ((cell : ℕ) → (links cell).linked ≡ false)
    → ((i : ℕ) → labels i < 2 ^ 32)
    → Labelled 0 (record {
      hash_size = size;
      entrys = λ i. record { next_label = labels i; lh = [] };
      links = links;
    })
unfolding IsLinked occurs IsAged
empty-Labelled size labels links free h = record {
  linked = λ c code. ground (arith, free c);
  next = h;
  aged = λ code. tt;
}

build_htable-Labelled :
    (a b c : Bool) (size time : ℕ) (rand : ℕ → ℕ) (links : ℕ → Link) (t : Table)
    → ((cell : ℕ) → (links cell).linked ≡ false)
    → build_htable a b c size time rand links ≡ some t
    → Labelled 0 t
unfolding build_htable
build_htable-Labelled false b c size time rand links t free e = cc
build_htable-Labelled true false c size time rand links t free e = cc
build_htable-Labelled true true false size time rand links t free e = cc
build_htable-Labelled true true true size time rand links t free e =
    subst (Labelled 0) (some-injective _ _ e) (
      empty-Labelled size (λ i. bit_or (time * 2 ^ 20) (rand i / 2 ^ 12) % 2 ^ 32) links free
        (λ i. omega arith))

-- The cell is in the table, with this hash code and label.
abbrev pub IsAt : Table → ℕ → ℕ → ℕ → Type 0
IsAt t cell code label =
    ((t.links cell).linked ≡ true)
    × ((t.links cell).hash_code ≡ code)
    × ((t.links cell).label ≡ label)

pub Labelled-lookup :
    (n : ℕ) (t : Table) (cell code label : ℕ)
    → Labelled n t
    → (cell_lookup code label t ≡ some cell) ↔ IsAt t cell code label
unfolding cell_lookup IsLinked
Labelled-lookup n t cell code label l = (
  λ e.
      let found = find_label-occurs t.links label cell (t.entrys code).lh e in
      ground (arith, found, l.linked cell code),
  λ (linked, same_code, same_label).
      let here : 0 < occurs cell (t.entrys code).lh = ground (arith, l.linked cell code) in
      subst (λ x. find_label t.links x (t.entrys code).lh ≡ some cell) same_label
        (aged_find_label t.links (t.entrys code).next_label n cell (t.entrys code).lh (l.aged code)
          here),
)

-- In a table that `build_htable` has made, with cells none of which was linked, and after any calls
-- that add, remove, or look up and remove cells, less than 2 ^ 32 of which add one, and none one that
-- is linked, all with hash codes of entries of the table: `cell_lookup` returns a cell for the hash code
-- of an entry and a label exactly if this cell is linked and has this hash code and this label.
pub cell_lookup_lem :
    (a b c : Bool) (size time : ℕ) (rand : ℕ → ℕ) (links : ℕ → Link) (t u : Table) (n : ℕ)
    (cell code label : ℕ)
    → ((cell : ℕ) → (links cell).linked ≡ false)
    → build_htable a b c size time rand links ≡ some t
    → Calls t n u
    → n < 2 ^ 32
    → code < u.hash_size
    → (cell_lookup code label u ≡ some cell) ↔ IsAt u cell code label
cell_lookup_lem a b c size time rand links t u n cell code label free e calls h inside =
    Labelled-lookup n u cell code label
      (Calls-Labelled calls h (build_htable-Labelled a b c size time rand links t free e))

-- ===== src/HashTable/Labels.antt =====
-- The labels of the cells of an entry, which `next_label` counts modulo 2 ^ 32.
use disc.Base.{
  ℕ, ◌+◌, ◌-◌, ◌<◌, ◌≤◌, ◌%◌, ◌^◌, ◌≡◌, inl, inr, true, false, some, List, [], ◌∷◌, ◌++◌, ltb, ◌==◌,
  Bool-cases, ==→eq, subst, arith,
}
use disc.Timer.{update}
use disc.HashTable.{
  Link, Entry, Table, extended, add_cell_to_htable, list_del, list_del_zero, find_label,
}
use disc.HashTable.Links.{occurs, IsLinked, add_cell_to_htable-IsLinked, list_del_zero-IsLinked}

-- How many labels ago a label was given.
abbrev pub age : ℕ → ℕ → ℕ
age next label = (next + 2 ^ 32 - label) % 2 ^ 32

-- The ages of the cells decrease from `high` at most to more than 0.
unfoldable pub IsAged : (ℕ → Link) → ℕ → ℕ → List ℕ → Type 0
IsAged links next high [] = Unit
IsAged links next high (c ∷ cs) =
    let a = age next (links c).label in
    ((links c).label < 2 ^ 32) × (a ≤ high) × (0 < a) × IsAged links next (a - 1) cs

-- At most `n` cells have been added to any entry.
pub record Labelled (n : ℕ) (t : Table) : Type 0 where
  pub linked : IsLinked t
  pub next : (code : ℕ) → (t.entrys code).next_label < 2 ^ 32
  pub aged : (code : ℕ) → IsAged t.links (t.entrys code).next_label n (t.entrys code).lh

IsAged-weaken :
    (links : ℕ → Link) (next high top : ℕ) (cs : List ℕ)
    → high ≤ top
    → IsAged links next high cs
    → IsAged links next top cs
unfolding IsAged
IsAged-weaken links next high top [] h a = tt
IsAged-weaken links next high top (c ∷ cs) h a = ground arith

IsAged-list_del :
    (links : ℕ → Link) (next high cell : ℕ) (cs : List ℕ)
    → IsAged links next high cs
    → IsAged links next high (list_del cell cs)
unfolding IsAged list_del
IsAged-list_del links next high cell [] a = tt
IsAged-list_del links next high cell (c ∷ cs) (small, most, some_age, rest) =
    elim (Bool-cases (c == cell)) [
      | inl e ↦
          rw (e)
            (IsAged-weaken links next (age next (links c).label - 1) high cs (omega arith) rest)
      | inr e ↦ rw (e) (
        small,
        most,
        some_age,
        IsAged-list_del links next (age next (links c).label - 1) cell cs rest,
      )
    ]

-- The links of the cells of a list do not change with that of a cell that is not one of them.
pub IsAged-update :
    (links : ℕ → Link) (l : Link) (next high cell : ℕ) (cs : List ℕ)
    → occurs cell cs ≡ 0
    → IsAged links next high cs
    → IsAged (update links cell l) next high cs
unfolding IsAged occurs
IsAged-update links l next high cell [] h a = tt
IsAged-update links l next high cell (c ∷ cs) h a =
    ground (arith, IsAged-update links l next (age next (links c).label - 1) cell cs)

-- One label later, with a new cell at the end.
IsAged-append :
    (links : ℕ → Link) (next high cell : ℕ) (cs : List ℕ)
    → high < 2 ^ 32 - 1
    → (links cell).label ≡ next
    → next < 2 ^ 32
    → IsAged links next high cs
    → IsAged links ((next + 1) % 2 ^ 32) (high + 1) (cs ++ (cell ∷ []))
unfolding IsAged
IsAged-append links next high cell [] h e n a = ground arith
IsAged-append links next high cell (c ∷ cs) h e n (small, most, some_age, rest) =
    let older : age ((next + 1) % 2 ^ 32) (links c).label ≡ age next (links c).label - 1 + 1 + 1 =
      omega arith in
    let later =
      IsAged-append links next (age next (links c).label - 1) cell cs (omega arith) e n rest in
    (
      small,
      omega arith,
      omega arith,
      rw (older)
          (IsAged-weaken links ((next + 1) % 2 ^ 32) _ _ (cs ++ (cell ∷ [])) (omega arith) later),
    )

aged_member :
    (links : ℕ → Link) (next high c : ℕ) (cs : List ℕ)
    → IsAged links next high cs
    → 0 < occurs c cs
    → (age next (links c).label ≤ high) × (0 < age next (links c).label)
unfolding IsAged occurs
aged_member links next high c [] a h = absurd (omega arith)
aged_member links next high c (d ∷ cs) (small, most, some_age, rest) h =
    elim (Bool-cases (d == c)) [
      | inl e ↦
          subst (λ c. (age next (links c).label ≤ high) × (0 < age next (links c).label))
            (==→eq d c e) (most, some_age)
      | inr e ↦
          let found =
            aged_member links next (age next (links d).label - 1) c cs rest (ground arith) in
          (omega (arith, found.0), found.1)
    ]

-- The cell with its label is the first that has this label.
pub aged_find_label :
    (links : ℕ → Link) (next high c : ℕ) (cs : List ℕ)
    → IsAged links next high cs
    → 0 < occurs c cs
    → find_label links (links c).label cs ≡ some c
unfolding IsAged occurs find_label
aged_find_label links next high c [] a h = absurd (omega arith)
aged_find_label links next high c (d ∷ cs) (small, most, some_age, rest) h =
    elim (Bool-cases (d == c)) [
      | inl e ↦ let same : d ≡ c = ==→eq d c e in ground arith
      | inr e ↦
          let later : 0 < occurs c cs = ground arith in
          let younger = aged_member links next (age next (links d).label - 1) c cs rest later in
          let other : ((links d).label == (links c).label) ≡ false = ground arith in
          rw other (aged_find_label links next (age next (links d).label - 1) c cs rest later)
    ]

pub IsAged-same :
    (links ms : ℕ → Link) (next high : ℕ) (cs : List ℕ)
    → ((c : ℕ) → (ms c).label ≡ (links c).label)
    → IsAged links next high cs
    → IsAged ms next high cs
unfolding IsAged
IsAged-same links ms next high [] e a = tt
IsAged-same links ms next high (c ∷ cs) e a =
    rw (e c) (a.0, a.1, a.2, IsAged-same links ms next (age next (links c).label - 1) cs e a.3)

pub unlinked_nowhere :
    (cell code : ℕ) (t : Table)
    → (t.links cell).linked ≡ false
    → IsLinked t
    → occurs cell (t.entrys code).lh ≡ 0
unfolding IsLinked
unlinked_nowhere cell code t free l = ground (arith, l cell code)

-- The lists of all entries, when the cell has been added to that of its hash code.
added-IsAged :
    (n cell code : ℕ) (t : Table)
    → (t.links cell).linked ≡ false
    → n < 2 ^ 32 - 1
    → Labelled n t
    → let at = (t.links cell).hash_code in
      let links =
        update t.links cell
          (record (t.links cell) { linked = true; label = (t.entrys at).next_label }) in
      let e = update t.entrys at (extended (t.entrys at) cell) code in
      IsAged links e.next_label (n + 1) e.lh
added-IsAged n cell code t free h l =
    let at = (t.links cell).hash_code in
    let old : Entry = t.entrys code in
    let new : Link = record (t.links cell) { linked = true; label = (t.entrys at).next_label } in
    let links = update t.links cell new in
    let kept : (k : ℕ) → IsAged links (t.entrys k).next_label n (t.entrys k).lh = λ k.
      IsAged-update t.links new (t.entrys k).next_label n cell (t.entrys k).lh
        (unlinked_nowhere cell k t free l.linked) (l.aged k) in
    elim (Bool-cases (code == at)) [
      | inl here ↦ rw here (
          IsAged-append links (t.entrys at).next_label n cell (t.entrys at).lh h (ground arith)
            (l.next at) (kept at))
      | inr other ↦
          rw other (IsAged-weaken links old.next_label n (n + 1) old.lh (omega arith) (kept code))
    ]

pub add_cell-Labelled :
    (n cell : ℕ) (t : Table)
    → (t.links cell).linked ≡ false
    → n < 2 ^ 32 - 1
    → Labelled n t
    → Labelled (n + 1) (add_cell_to_htable cell t).1
unfolding add_cell_to_htable
add_cell-Labelled n cell t free h l =
    let linked = add_cell_to_htable-IsLinked cell t free l.linked in
    elim (Bool-cases (ltb ((t.hash_size + (2 ^ 32 - 1)) % 2 ^ 32) (t.links cell).hash_code)) [
      | inl bad ↦
          rw (add_cell_to_htable, bad)
            (record {
              linked = l.linked;
              next = l.next;
              aged = λ code.
                  IsAged-weaken t.links (t.entrys code).next_label n (n + 1) (t.entrys code).lh
                    (omega arith) (l.aged code);
            })
      | inr good ↦
          rw (add_cell_to_htable, good)
            (record {
              linked = rw (add_cell_to_htable, good) at linked;
              next = λ code. ground (arith, l.next code);
              aged = λ code. added-IsAged n cell code t free h l;
            })
    ]

pub list_del_zero-Labelled :
    (n cell : ℕ) (t : Table) → Labelled n t → Labelled n (list_del_zero cell t)
list_del_zero-Labelled n cell t l = record {
  linked = list_del_zero-IsLinked cell t l.linked;
  next = l.next;
  aged = λ code.
      IsAged-same t.links (list_del_zero cell t).links (t.entrys code).next_label n
        (list_del cell (t.entrys code).lh) (λ c. ground arith)
        (IsAged-list_del t.links (t.entrys code).next_label n cell (t.entrys code).lh
          (l.aged code));
}

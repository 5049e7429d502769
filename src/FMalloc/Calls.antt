-- ===== src/FMalloc/Calls.antt =====
-- Any calls of `fm_malloc` and `fm_free`.
use mathlib.Core.Option.{some-injective}
use disc.Base.{
  ℕ, zero, suc, ◌+◌, ◌-◌, ◌<◌, ◌≤◌, ◌≡◌, refl, sym, subst, ap, ◌∙◌, inl, inr, false, Option, none,
  some, List, [], ◌∷◌, ◌==◌, Option-cases, arith,
}
use disc.HashTable.Links.{occurs}
use disc.FMalloc.{
  Block, get_hash, find_fit, search_from, detach, take_frag, fm_malloc, fm_free, round_up,
  f_hash_size,
}
use disc.FMalloc.Heap.{Good, insert_free-Good, take_frag-Good, used_frag, occurs-detach}

find_fit-some :
    (sizes : ℕ → ℕ) (size f : ℕ) (fs : List ℕ)
    → find_fit sizes size fs ≡ some f
    → (0 < occurs f fs) × (size ≤ sizes f)
unfolding find_fit occurs
find_fit-some sizes size f [] e = cc
find_fit-some sizes size f (g ∷ gs) e = ground (arith, find_fit-some sizes size f gs)

-- The fragment that a search finds is free and large enough.
abbrev IsFit : Block → ℕ → Option (ℕ × ℕ) → Type 0
IsFit b size none = Unit
IsFit b size (some (hash, f)) = (0 < occurs f (b.free_hash hash)) × (size ≤ b.sizes f)

search_from-IsFit : (b : Block) (size n hash : ℕ) → IsFit b size (search_from b size n hash)
unfolding search_from
search_from-IsFit b size zero hash = tt
search_from-IsFit b size (suc n) hash =
    elim (Option-cases (find_fit b.sizes size (b.free_hash hash))) [
      | inl nothing ↦ rw (search_from, nothing) (search_from-IsFit b size n (suc hash))
      | inr (f, found) ↦
          rw (search_from, found) (find_fit-some b.sizes size f (b.free_hash hash) found)
    ]

-- A heap and the fragments that callers use.
pub data Calls (b : Block) : Block → List ℕ → Type 0 where
  initial : Calls b b []
  malloc :
      {c : Block} {used : List ℕ} (size p : ℕ)
      → Calls b c used
      → (fm_malloc size c).0 ≡ some p
      → Calls b (fm_malloc size c).1 ((p - 8) ∷ used)
  free :
      {c : Block} {used : List ℕ} (p : ℕ)
      → Calls b c used
      → 0 < occurs (p - 8) used
      → 8 ≤ p
      → Calls b (fm_free p c) (detach (p - 8) used)

fm_malloc_found :
    (b : Block) (size hash frag : ℕ)
    → search_from b
        (round_up size)
        (f_hash_size - get_hash (round_up size))
        (get_hash (round_up size))
      ≡ some (hash, frag)
    → fm_malloc size b ≡ (some (frag + 8), take_frag (round_up size) hash frag b)
unfolding fm_malloc
fm_malloc_found b size hash frag e = rw (fm_malloc, e) refl

pub malloc-Good :
    {b : Block} {used : List ℕ} {end : ℕ} (size p : ℕ)
    → Good b used end
    → (fm_malloc size b).0 ≡ some p
    → Good (fm_malloc size b).1 ((p - 8) ∷ used) end
      × (round_up size ≤ (fm_malloc size b).1.sizes (p - 8))
unfolding fm_malloc
malloc-Good {b} {used} {end} size p g e =
    let n = round_up size in
    elim (Option-cases (search_from b n (f_hash_size - get_hash n) (get_hash n))) [
      | inl nothing ↦ let failed = rw (fm_malloc, nothing) at e in cc
      | inr ((hash, frag), found) ↦
          let fit : IsFit b n (some (hash, frag)) =
            subst (IsFit b n) found
              (search_from-IsFit b n (f_hash_size - get_hash n) (get_hash n)) in
          let result = fm_malloc_found b size hash frag found in
          let at : frag + 8 ≡ p = some-injective _ _ (sym (ap (λ r. r.0) result) ∙ e) in
          let same : frag ≡ p - 8 = omega arith in
          subst (λ r. Good r.1 ((p - 8) ∷ used) end × (n ≤ r.1.sizes (p - 8))) (sym result)
            (subst
              (λ f.
                Good (take_frag n hash frag b) (f ∷ used) end
                × (n ≤ (take_frag n hash frag b).sizes f))
              same (take_frag-Good n hash frag g fit.0 fit.1))
    ]

free-Good :
    {b : Block} {used : List ℕ} {end : ℕ} (p : ℕ)
    → Good b used end
    → 0 < occurs (p - 8) used
    → 8 ≤ p
    → Good (fm_free p b) (detach (p - 8) used) end
unfolding fm_free occurs
free-Good {b} {used} {end} p g h some_p =
    let frag : ℕ = p - 8 in
    let (_, once_used, _) = used_frag frag g h in
    let reordered : Good b (frag ∷ detach frag used) end = record {
      frags = g.frags;
      tiled = g.tiled;
      placed = λ f hash. ground (arith, g.placed f hash, occurs-detach f frag used, once_used);
    } in
    let not_null : (p == 0) ≡ false = ground arith in rw not_null (insert_free-Good frag reordered)

-- The control structure stays where it is.
take_frag-same_first :
    (size hash frag : ℕ) (b : Block) → (take_frag size hash frag b).first_frag ≡ b.first_frag
unfolding take_frag
take_frag-same_first size hash frag b = ground arith

pub malloc-same_first : (size : ℕ) (b : Block) → (fm_malloc size b).1.first_frag ≡ b.first_frag
unfolding fm_malloc
malloc-same_first size b =
    let n = round_up size in
    elim (Option-cases (search_from b n (f_hash_size - get_hash n) (get_hash n))) [
      | inl nothing ↦ rw (fm_malloc, nothing) refl
      | inr ((hash, frag), found) ↦ rw (fm_malloc, found) (take_frag-same_first n hash frag b)
    ]

free-same_first : (p : ℕ) (b : Block) → (fm_free p b).first_frag ≡ b.first_frag
unfolding fm_free
free-same_first p b = ground arith

pub Calls-same_first : {b c : Block} {used : List ℕ} → Calls b c used → c.first_frag ≡ b.first_frag
Calls-same_first initial = refl
Calls-same_first (malloc {c} size p calls e) = malloc-same_first size c ∙ Calls-same_first calls
Calls-same_first (free {c} p calls h some_p) = free-same_first p c ∙ Calls-same_first calls

pub Calls-Good :
    {b c : Block} {used : List ℕ} {end : ℕ} → Calls b c used → Good b [] end → Good c used end
Calls-Good initial g = g
Calls-Good (malloc size p calls e) g = (malloc-Good size p (Calls-Good calls g) e).0
Calls-Good (free p calls h some_p) g = free-Good p (Calls-Good calls g) h some_p

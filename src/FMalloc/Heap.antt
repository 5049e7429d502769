-- ===== src/FMalloc/Heap.antt =====
-- Every fragment is either free, in the list of its size, or used.
use disc.Base.{
  ℕ, ◌+◌, ◌-◌, ◌<◌, ◌≤◌, ◌≡◌, inl, inr, List, [], ◌∷◌, ◌==◌, ltb, Bool-cases, if◌then◌else◌, arith,
}
use disc.Timer.Counts.{once}
use disc.HashTable.Links.{occurs}
use disc.FMalloc.{
  Block, get_hash, insert_by_size, insert_in, fm_insert_free, detach, detached, divided, take_frag,
}
use disc.FMalloc.Tiles.{
  IsTiled, insert_behind, occurs-insert_behind, tiled_bounds, divided-IsTiled, new_nowhere,
}

-- How often a fragment of this size is in the list of this bucket.
abbrev pub at_home : ℕ → ℕ → ℕ → ℕ
at_home hash size n = if hash == get_hash size then n else 0

-- The fragments fill the memory up to `end`, and each is either once in `used` or once in the free
-- list of its size, and in no other.
pub record Good (b : Block) (used : List ℕ) (end : ℕ) : Type 0 where
  pub frags : List ℕ
  pub tiled : IsTiled b.sizes b.first_frag frags end
  pub placed :
      (f hash : ℕ)
      → occurs f (b.free_hash hash) + at_home hash (b.sizes f) (occurs f used)
        ≡ at_home hash (b.sizes f) (occurs f frags)

occurs-insert_by_size :
    (sizes : ℕ → ℕ) (g frag : ℕ) (fs : List ℕ)
    → occurs g (insert_by_size sizes frag fs) ≡ once (frag == g) + occurs g fs
unfolding occurs insert_by_size
occurs-insert_by_size sizes g frag [] = omega arith
occurs-insert_by_size sizes g frag (f ∷ fs) = ground (arith, occurs-insert_by_size sizes g frag fs)

occurs-insert_in :
    (sizes : ℕ → ℕ) (g frag : ℕ) (fs : List ℕ)
    → occurs g (insert_in sizes frag fs) ≡ once (frag == g) + occurs g fs
unfolding occurs insert_in
occurs-insert_in sizes g frag fs = ground (arith, occurs-insert_by_size sizes g frag fs)

pub occurs-detach :
    (g frag : ℕ) (fs : List ℕ) → occurs g (detach frag fs) ≡ occurs g fs - once (g == frag)
unfolding occurs detach
occurs-detach g frag [] = omega arith
occurs-detach g frag (f ∷ fs) = ground (arith, occurs-detach g frag fs)

-- A used fragment is put into the free lists.
pub insert_free-Good :
    {b : Block} {used : List ℕ} {end : ℕ} (frag : ℕ)
    → Good b (frag ∷ used) end
    → Good (fm_insert_free frag b) used end
unfolding occurs
insert_free-Good {b} frag g = record {
  frags = g.frags;
  tiled = g.tiled;
  placed = λ f hash. ground (
    arith,
    g.placed f hash,
    g.placed f (get_hash (b.sizes frag)),
    occurs-insert_in b.sizes f frag (b.free_hash (get_hash (b.sizes frag))),
  );
}

-- A free fragment is taken out of its list.
detached-Good :
    {b : Block} {used : List ℕ} {end : ℕ} (hash frag : ℕ)
    → Good b used end
    → 0 < occurs frag (b.free_hash hash)
    → Good (detached hash frag b) (frag ∷ used) end
unfolding occurs
detached-Good {b} hash frag g h = record {
  frags = g.frags;
  tiled = g.tiled;
  placed = λ f k. ground (
    arith,
    g.placed f k,
    g.placed f hash,
    g.placed frag hash,
    occurs-detach f frag (b.free_hash hash),
  );
}

-- A used fragment is in the memory, once.
pub used_frag :
    {b : Block} {used : List ℕ} {end : ℕ} (frag : ℕ)
    → (g : Good b used end) → 0 < occurs frag used
    → (occurs frag g.frags ≡ 1) × (occurs frag used ≡ 1) × (frag + 8 + b.sizes frag ≤ end)
used_frag {b} {used} {end} frag g h =
    let home = g.placed frag (get_hash (b.sizes frag)) in
    let there : 0 < occurs frag g.frags = ground (arith, home) in
    let bounds = tiled_bounds b.sizes b.first_frag frag g.frags end g.tiled there in
    ground (arith, home, bounds)

pub used_frag_first :
    {b : Block} {used : List ℕ} {end : ℕ} (frag : ℕ)
    → Good b used end
    → 0 < occurs frag used
    → b.first_frag ≤ frag
used_frag_first {b} {used} {end} frag g h =
    let there : 0 < occurs frag g.frags = ground (arith, g.placed frag (get_hash (b.sizes frag))) in
    (tiled_bounds b.sizes b.first_frag frag g.frags end g.tiled there).0

divided-Good :
    {b : Block} {used : List ℕ} {end : ℕ} (frag size : ℕ)
    → Good b (frag ∷ used) end
    → size + 8 < b.sizes frag
    → Good (divided size frag b) ((frag + 8 + size) ∷ frag ∷ used) end
unfolding occurs
divided-Good {b} {used} {end} frag size g fits =
    let n : ℕ = frag + 8 + size in
    let (one, once_used, _) = used_frag frag g (ground arith) in
    let nowhere =
      new_nowhere b.sizes b.first_frag frag n g.frags end g.tiled (omega (arith, one)) (omega arith)
        (omega arith) in
    record {
      frags = insert_behind frag n g.frags;
      tiled =
          divided-IsTiled b.sizes b.first_frag frag size g.frags end g.tiled (omega (arith, one))
            (omega arith);
      placed = λ f hash. ground (
        arith,
        g.placed f hash,
        g.placed f (get_hash (b.sizes f)),
        one,
        once_used,
        nowhere,
        occurs-insert_behind f frag n g.frags,
      );
    }

-- What `fm_malloc` does with the fragment that it has found.
pub take_frag-Good :
    {b : Block} {used : List ℕ} {end : ℕ} (size hash frag : ℕ)
    → Good b used end
    → 0 < occurs frag (b.free_hash hash)
    → size ≤ b.sizes frag
    → Good (take_frag size hash frag b) (frag ∷ used) end
      × (size ≤ (take_frag size hash frag b).sizes frag)
unfolding take_frag
take_frag-Good {b} size hash frag g h fits = elim (Bool-cases (ltb 12 (b.sizes frag - size))) [
  | inl split ↦
      let rest : size + 8 < b.sizes frag = ground arith in
      rw split (
        insert_free-Good (frag + 8 + size)
            (divided-Good frag size (detached-Good hash frag g h) rest),
        ground arith,
      )
  | inr whole ↦ rw whole (detached-Good hash frag g h, fits)
]

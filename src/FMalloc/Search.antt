-- ===== src/FMalloc/Search.antt =====
-- The search through the buckets misses no fragment that is large enough.
use disc.Base.{
  ℕ, zero, suc, ◌+◌, ◌-◌, ◌<◌, ◌≤◌, ◌≡◌, ◌%◌, ◌*◌, ◌^◌, refl, sym, ap, ◌∙◌, inl, inr, true, none,
  List, [], ◌∷◌, ◌==◌, ==→eq, ltb, leb, Bool-cases, Option-cases, arith,
}
use disc.HashTable.Links.{occurs}
use disc.FMalloc.{
  Block, highest_bit, get_hash, find_fit, search_from, fm_malloc, round_up, f_hash_size,
}
use disc.FMalloc.Tiles.{tiled_bounds}
use disc.FMalloc.Heap.{Good}

highest_bit-le : (i s : ℕ) → highest_bit i s ≤ i
unfolding highest_bit
highest_bit-le zero s = omega arith
highest_bit-le (suc i) s = ground (arith, highest_bit-le i (s * 2 % 2 ^ 32))

highest_bit_mono : (i s t : ℕ) → s ≤ t → t < 2 ^ 32 → highest_bit i s ≤ highest_bit i t
unfolding highest_bit
highest_bit_mono zero s t h small = omega arith
highest_bit_mono (suc i) s t h small = elim (Bool-cases (ltb t (2 ^ 31))) [
  | inl low ↦
      let also : ltb s (2 ^ 31) ≡ true = ground arith in
      rw (low, also)
        (highest_bit_mono i (s * 2 % 2 ^ 32) (t * 2 % 2 ^ 32) (ground arith) (omega arith))
  | inr high ↦ rw high (ground (arith, highest_bit-le i (s * 2 % 2 ^ 32)))
]

-- The lowest big bucket
lowest : highest_bit 31 2048 ≡ 11
unfolding highest_bit
lowest = refl

get_hash_mono : (s t : ℕ) → s ≤ t → t < 2 ^ 32 → get_hash s ≤ get_hash t
unfolding get_hash
get_hash_mono s t h small = elim (Bool-cases (ltb t 2048)) [
  | inl low ↦ ground arith
  | inr high ↦ ground (arith, highest_bit_mono 31 s t h small, highest_bit_mono 31 2048 t, lowest)
]

get_hash-lt : (s : ℕ) → get_hash s < 534
unfolding get_hash
get_hash-lt s = ground (arith, highest_bit-le 31 s)

find_fit-none :
    (sizes : ℕ → ℕ) (size f : ℕ) (fs : List ℕ)
    → find_fit sizes size fs ≡ none
    → 0 < occurs f fs
    → sizes f < size
unfolding find_fit occurs
find_fit-none sizes size f [] e h = absurd (omega arith)
find_fit-none sizes size f (g ∷ gs) e h = elim (Bool-cases (g == f)) [
  | inl here ↦ let same : sizes g ≡ sizes f = ap sizes (==→eq g f here) in ground arith
  | inr other ↦ ground (arith, find_fit-none sizes size f gs)
]

search_none :
    (b : Block) (size n hash k f : ℕ)
    → search_from b size n hash ≡ none
    → hash ≤ k
    → k < hash + n
    → 0 < occurs f (b.free_hash k)
    → b.sizes f < size
unfolding search_from
search_none b size zero hash k f e low high h = absurd (omega arith)
search_none b size (suc n) hash k f e low high h =
    elim (Option-cases (find_fit b.sizes size (b.free_hash hash))) [
      | inl nothing ↦ elim (Bool-cases (hash == k)) [
        | inl here ↦
            find_fit-none b.sizes size f (b.free_hash k)
              (ap (λ i. find_fit b.sizes size (b.free_hash i)) (sym (==→eq hash k here)) ∙ nothing)
              h
        | inr other ↦
            search_none b size n (suc hash) k f (rw (search_from, nothing) at e) (ground arith)
              (omega arith) h
      ]
      | inr (g, found) ↦ let no_failure = rw (search_from, found) at e in cc
    ]

-- In a heap in which every fragment is either used or in the free list of its size, with the end of
-- the memory below 2 ^ 32: `fm_malloc` returns 0 only if all free fragments are smaller than the
-- requested size, rounded up as the source does.
pub fm_malloc-none :
    (b : Block) (used : List ℕ) (end size f hash : ℕ)
    → Good b used end
    → end < 2 ^ 32
    → (fm_malloc size b).0 ≡ none
    → 0 < occurs f (b.free_hash hash)
    → b.sizes f < round_up size
unfolding fm_malloc
fm_malloc-none b used end size f hash g small e h =
    let n = round_up size in
    let home : hash ≡ get_hash (b.sizes f) = ground (arith, g.placed f hash) in
    let there : 0 < occurs f g.frags = ground (arith, g.placed f hash) in
    let bounds = tiled_bounds b.sizes b.first_frag f g.frags end g.tiled there in
    elim (Option-cases (search_from b n (f_hash_size - get_hash n) (get_hash n))) [
      | inl nothing ↦ elim (Bool-cases (leb n (b.sizes f))) [
        | inl fits ↦
            search_none b n (f_hash_size - get_hash n) (get_hash n) hash f nothing
              (ground (arith, get_hash_mono n (b.sizes f), home, bounds))
              (ground (arith, get_hash-lt (b.sizes f), get_hash-lt n, home)) h
        | inr short ↦ ground arith
      ]
      | inr (found, some_found) ↦ let success = rw (fm_malloc, some_found) at e in cc
    ]

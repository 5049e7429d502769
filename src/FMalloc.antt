-- ===== src/FMalloc.antt =====
-- mem/f_malloc.c and mem/f_malloc.h, without DBG_F_MALLOC, on a machine with pointers of 4 bytes.
-- Fragments are known by the addresses of their headers.
pub mod Tiles
pub mod Heap
pub mod Calls
pub mod Search
pub mod Init
use disc.Base.{
  ℕ, zero, suc, ◌+◌, ◌-◌, ◌*◌, ◌/◌, ◌%◌, ◌^◌, Bool, true, false, ◌&&◌, ◌||◌, Option, none, some,
  List, [], ◌∷◌, ltb, leb, ◌==◌, if◌then◌else◌,
}
use disc.Timer.{update}

abbrev pub roundto : ℕ
roundto = 4

-- `sizeof(struct fm_frag)`
abbrev pub frag_overhead : ℕ
frag_overhead = 8

abbrev pub min_frag_size : ℕ
min_frag_size = 4

abbrev pub f_malloc_optimize : ℕ
f_malloc_optimize = 2048

abbrev pub f_hash_size : ℕ
f_hash_size = 534

-- `sizeof(struct fm_block)`
abbrev pub block_size : ℕ
block_size = 2148

-- `sizes` are the fields `size` of the fragments, `free_hash` the free lists.
pub record Block : Type 0 where
  pub first_frag : ℕ
  pub last_frag : ℕ
  pub sizes : ℕ → ℕ
  pub free_hash : ℕ → List ℕ

-- `ROUNDUP` and `ROUNDDOWN` in unsigned 32-bit arithmetic
abbrev pub round_up : ℕ → ℕ
round_up s = (s + (roundto - 1)) % 2 ^ 32 / roundto * roundto

abbrev pub round_down : ℕ → ℕ
round_down s = s / roundto * roundto

-- The loop of `big_hash_idx` from `idx` down.
unfoldable pub highest_bit : ℕ → ℕ → ℕ
highest_bit zero s = 0
highest_bit (suc idx) s =
    let lower = highest_bit idx (s * 2 % 2 ^ 32) in if ltb s (2 ^ 31) then lower else suc idx

abbrev pub big_hash_idx : ℕ → ℕ
big_hash_idx s = highest_bit 31 s

-- `GET_HASH`
unfoldable pub get_hash : ℕ → ℕ
get_hash s =
    if ltb s f_malloc_optimize
    then s / roundto
    else f_malloc_optimize / roundto + big_hash_idx s - 11 + 1

unfoldable pub insert_by_size : (ℕ → ℕ) → ℕ → List ℕ → List ℕ
insert_by_size sizes frag [] = frag ∷ []
insert_by_size sizes frag (f ∷ fs) =
    let rest = insert_by_size sizes frag fs in
    if leb (sizes frag) (sizes f) then frag ∷ f ∷ fs else f ∷ rest

unfoldable pub insert_in : (ℕ → ℕ) → ℕ → List ℕ → List ℕ
insert_in sizes frag fs =
    if ltb f_malloc_optimize (sizes frag) then insert_by_size sizes frag fs else frag ∷ fs

abbrev pub fm_insert_free : ℕ → Block → Block
fm_insert_free frag b =
    let hash = get_hash (b.sizes frag) in
    record b { free_hash = update b.free_hash hash (insert_in b.sizes frag (b.free_hash hash)) }

-- The first fragment of a list that is large enough.
unfoldable pub find_fit : (ℕ → ℕ) → ℕ → List ℕ → Option ℕ
find_fit sizes size [] = none
find_fit sizes size (f ∷ fs) =
    let rest = find_fit sizes size fs in if leb size (sizes f) then some f else rest

-- The search through `n` buckets from `hash` on: the bucket and the fragment.
unfoldable pub search_from : Block → ℕ → ℕ → ℕ → Option (ℕ × ℕ)
search_from b size zero hash = none
search_from b size (suc n) hash = elim (find_fit b.sizes size (b.free_hash hash)) [
  | some f ↦ some (hash, f)
  | none ↦ search_from b size n (suc hash)
]

-- `*f=frag->u.nxt_free`
unfoldable pub detach : ℕ → List ℕ → List ℕ
detach frag [] = []
detach frag (f ∷ fs) = let rest = detach frag fs in if f == frag then fs else f ∷ rest

abbrev pub detached : ℕ → ℕ → Block → Block
detached hash frag b = record b {
  free_hash = update b.free_hash hash (detach frag (b.free_hash hash));
}

-- The fragment gets the size `size`, and what is left becomes a fragment of its own.
abbrev pub divided : ℕ → ℕ → Block → Block
divided size frag b =
    let n = frag + frag_overhead + size in
    record b { sizes = update (update b.sizes frag size) n (b.sizes frag - size - frag_overhead) }

-- The fragment that has been found; it is split if enough is left.
unfoldable pub take_frag : ℕ → ℕ → ℕ → Block → Block
take_frag size hash frag b =
    let c : Block = detached hash frag b in
    let rest = b.sizes frag - size in
    if ltb (frag_overhead + min_frag_size) rest
    then fm_insert_free (frag + frag_overhead + size) (divided size frag c)
    else c

-- `none` stands for 0.
unfoldable pub fm_malloc : ℕ → Block → Option ℕ × Block
fm_malloc size b =
    let n = round_up size in
    elim (search_from b n (f_hash_size - get_hash n) (get_hash n)) [
      | some (hash, frag) ↦ (some (frag + frag_overhead), take_frag n hash frag b)
      | none ↦ (none, b)
    ]

unfoldable pub fm_free : ℕ → Block → Block
fm_free p b = if p == 0 then b else fm_insert_free (p - frag_overhead) b

-- The control structure and the only fragment in the `size` bytes from `start` on.
abbrev pub laid_out : ℕ → ℕ → Block
laid_out start size =
    let first = start + block_size in
    fm_insert_free first (record {
      first_frag = first;
      last_frag = start + size - frag_overhead;
      sizes = λ f. if f == first then size - (block_size + frag_overhead) else 0;
      free_hash = λ h. [];
    })

-- `size` is that of the memory at `address`.
unfoldable pub fm_malloc_init : ℕ → ℕ → Option Block
fm_malloc_init address size =
    let start = round_up address in
    let left = size - (start - address) in
    if ltb size (start - address)
      || (ltb left (min_frag_size + frag_overhead)
          || ltb (round_down left) (block_size + frag_overhead))
    then none
    else some (laid_out start (round_down left))

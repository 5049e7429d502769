-- ===== src/Tests/Heaps.antt =====
-- Runs of the allocator, and the witnesses.
use disc.Base.{ℕ, ◌+◌, ◌-◌, ◌^◌, ◌≤◌, ◌<◌, ◌≡◌, refl, none, some, [], ◌∷◌, arith}
use disc.HashTable.Links.{occurs}
use disc.FMalloc.{
  Block, laid_out, fm_malloc, fm_malloc_init, search_from, find_fit, take_frag, get_hash,
  highest_bit, insert_in, insert_by_size, detach,
}
use disc.FMalloc.Heap.{Good}
use disc.FMalloc.Calls.{initial}
use disc.FMalloc.Init.{laid_out-Good, fm_malloc_lem}
use disc.FMalloc.Search.{fm_malloc-none}

-- 10000 bytes at 1000
abbrev heap : Block
heap = laid_out 1000 10000

heap_made : fm_malloc_init 1000 10000 ≡ some heap
unfolding fm_malloc_init
heap_made = refl

first_malloc : (fm_malloc 101 heap).0 ≡ some 3156
unfolding fm_malloc search_from find_fit get_hash highest_bit insert_in insert_by_size
first_malloc = refl

-- The rest of the first fragment is the one behind the block.
second_size : (fm_malloc 101 heap).1.sizes 3260 ≡ 7732
unfolding fm_malloc search_from find_fit take_frag get_hash highest_bit insert_in insert_by_size
    detach
second_size = refl

fm_malloc_lem_example :
    (end : ℕ) × (104 ≤ (fm_malloc 101 heap).1.sizes 3148)
    × (3156 + (fm_malloc 101 heap).1.sizes 3148 ≤ end)
    × (end ≤ 11000)
    × (3148 ≤ 3148)
    × (occurs 3148 [] ≡ 0)
    × Good (fm_malloc 101 heap).1 (3148 ∷ []) end
fm_malloc_lem_example =
    fm_malloc_lem 1000 10000 101 3156 heap heap [] (omega arith) heap_made initial first_malloc

too_much : (fm_malloc 20000 heap).0 ≡ none
unfolding fm_malloc search_from find_fit get_hash highest_bit insert_in insert_by_size
too_much = refl

in_list : 0 < occurs 3148 (heap.free_hash 514)
unfolding get_hash highest_bit insert_in insert_by_size occurs
in_list = omega arith

fm_malloc-none_example : heap.sizes 3148 < 20000
fm_malloc-none_example =
    fm_malloc-none heap [] 11000 20000 3148 514 (laid_out-Good 1000 10000 (omega arith))
      (omega arith) too_much in_list

-- A request of almost 2 ^ 32 bytes is rounded up to 0, and served.
wraps : (fm_malloc (2 ^ 32 - 1) heap).0 ≡ some 3156
unfolding fm_malloc search_from find_fit get_hash highest_bit insert_in insert_by_size
wraps = refl

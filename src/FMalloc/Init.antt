-- ===== src/FMalloc/Init.antt =====
-- The heap that `fm_malloc_init` makes, and what `fm_malloc` hands out from it.
use mathlib.Core.Option.{some-injective}
use disc.Base.{
  ℕ, ◌+◌, ◌-◌, ◌<◌, ◌≤◌, ◌≡◌, ◌^◌, refl, subst, ◌∙◌, inl, inr, Bool, false, ◌||◌, some, List, [],
  ◌∷◌, ◌==◌, ltb, Bool-cases, if◌then◌else◌, arith,
}
use disc.HashTable.Links.{occurs}
use disc.FMalloc.{Block, fm_malloc, round_up, round_down, fm_malloc_init, laid_out}
use disc.FMalloc.Tiles.{IsTiled}
use disc.FMalloc.Heap.{Good, insert_free-Good, used_frag, used_frag_first}
use disc.FMalloc.Calls.{Calls, Calls-Good, malloc-Good, malloc-same_first, Calls-same_first}

-- The heap before its fragment is put into a free list.
abbrev bare : ℕ → ℕ → Block
bare start size = record {
  first_frag = start + 2148;
  last_frag = start + size - 8;
  sizes = λ f. if f == start + 2148 then size - 2156 else 0;
  free_hash = λ h. [];
}

bare-Good :
    (start size : ℕ) → 2156 ≤ size → Good (bare start size) ((start + 2148) ∷ []) (start + size)
unfolding IsTiled occurs
bare-Good start size h = record {
  frags = (start + 2148) ∷ [];
  tiled = (refl, ground arith);
  placed = λ f hash. ground arith;
}

pub laid_out-Good : (start size : ℕ) → 2156 ≤ size → Good (laid_out start size) [] (start + size)
laid_out-Good start size h =
    insert_free-Good {b = bare start size} (start + 2148) (bare-Good start size h)

laid_out_first : (start size : ℕ) → (laid_out start size).first_frag ≡ start + 2148
laid_out_first start size = refl

-- Is the memory too small?
abbrev refused : ℕ → ℕ → Bool
refused address size =
    let start = round_up address in
    let left = size - (start - address) in
    ltb size (start - address) || (ltb left 12 || ltb (round_down left) 2156)

refused-lem :
    (address size : ℕ)
    → address + size < 2 ^ 32
    → refused address size ≡ false
    → let start = round_up address in
      let left = size - (start - address) in
      (2156 ≤ round_down left) × (start + round_down left ≤ address + size) × (address ≤ start)
refused-lem address size small e = ground arith

-- The memory that the heap takes is inside of that which `fm_malloc_init` has been told, and its first
-- fragment lies behind the control structure.
fm_malloc_init-Good :
    (address size : ℕ) (b : Block)
    → address + size < 2 ^ 32
    → fm_malloc_init address size ≡ some b
    → (end : ℕ) × Good b [] end × (end ≤ address + size) × (address + 2148 ≤ b.first_frag)
unfolding fm_malloc_init
fm_malloc_init-Good address size b small e = elim (Bool-cases (refused address size)) [
  | inl no_room ↦ let failed = rw (fm_malloc_init, no_room) at e in cc
  | inr room ↦
      let start : ℕ = round_up address in
      let left : ℕ = size - (start - address) in
      let (enough, inside, behind) = refused-lem address size small room in
      let made = some-injective _ _ (rw (fm_malloc_init, room) at e) in
      (
        start + round_down left,
        subst (λ x. Good x [] (start + round_down left)) made
            (laid_out-Good start (round_down left) enough),
        inside,
        subst (λ x. address + 2148 ≤ x.first_frag) made
            (omega (arith, behind, laid_out_first start (round_down left))),
      )
]

-- In a heap that `fm_malloc_init` has made from `size` bytes at `address`, below 2 ^ 32, and after any
-- calls of `fm_malloc` and of `fm_free` for addresses in use: when `fm_malloc` returns an address,
-- its fragment has at least the requested size, rounded up as the source does, and lies in these
-- bytes, behind the 2148 bytes of the control structure, it was not in use before, and the heap is well formed with it in use: the fragments lie one
-- behind the other without a gap, and each is either in use or in the free list of its size.
pub fm_malloc_lem :
    (address size n p : ℕ) (b c : Block) (used : List ℕ)
    → address + size < 2 ^ 32
    → fm_malloc_init address size ≡ some b
    → Calls b c used
    → (fm_malloc n c).0 ≡ some p
    → let d = (fm_malloc n c).1 in
      (end : ℕ) × (round_up n ≤ d.sizes (p - 8))
      × (p - 8 + 8 + d.sizes (p - 8) ≤ end)
      × (end ≤ address + size)
      × (address + 2148 ≤ p - 8)
      × (occurs (p - 8) used ≡ 0)
      × Good d ((p - 8) ∷ used) end
fm_malloc_lem address size n p b c used small made calls e =
    let (end, good, inside, behind) = fm_malloc_init-Good address size b small made in
    let (after, fits) = malloc-Good n p (Calls-Good calls good) e in
    let (_, once_used, below) = used_frag (p - 8) after (unfold occurs in ground arith) in
    let kept = malloc-same_first n c ∙ Calls-same_first calls in
    let first : (fm_malloc n c).1.first_frag ≤ p - 8 =
      used_frag_first (p - 8) after (unfold occurs in ground arith) in
    (
      end,
      fits,
      below,
      inside,
      omega (arith, behind, first, kept),
      (unfold occurs in ground (arith, once_used)),
      after,
    )

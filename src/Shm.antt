-- ===== src/Shm.antt =====
-- The shared-memory allocator as the other parts see it: `shm_malloc` and `shm_free`.
use disc.Base.{ℕ, ◌+◌, ◌-◌, ◌≡◌, Option, none, some}

-- What each call of `shm_malloc` returns, by its number: an address, or `none` if it fails.
abbrev pub Allocator : Type 0
Allocator = ℕ → Option ℕ

-- The calls made so far, and the blocks that are allocated.
pub record Shm : Type 0 where
  pub calls : ℕ
  pub live : ℕ

allocated : Option ℕ → Shm → Shm
allocated none m = record m { calls = m.calls + 1 }
allocated (some p) m = record m { calls = m.calls + 1; live = m.live + 1 }

unfoldable pub shm_malloc : Allocator → Shm → Option ℕ × Shm
unfolding allocated
shm_malloc alloc m = (alloc m.calls, allocated (alloc m.calls) m)

abbrev pub shm_free : Shm → Shm
shm_free m = record m { live = m.live - 1 }

-- No address is handed out twice.
abbrev pub IsFresh : Allocator → Type 0
IsFresh alloc = (i j p : ℕ) → alloc i ≡ some p → alloc j ≡ some p → i ≡ j

-- ===== src/Msg/Create/Balance.antt =====
-- The blocks of shared memory that creating, cloning and freeing an AVP takes and gives back.
use disc.Base.{ℕ, ◌+◌, ◌-◌, ◌<◌, ◌≡◌, Bool, true, false, Option, none, some, length, arith}
use disc.Utils.{Bytes}
use disc.Shm.{Allocator, Shm, shm_malloc}
use disc.Msg.{DataStatus, duplicate_data, dont_free_data, free_data, Avp}
use disc.Msg.Create.{new_avp, create_avp, clone_avp, free_avp}

-- The block of the data that the caller hands over.
abbrev handed_over : DataStatus → ℕ
handed_over duplicate_data = 0
handed_over dont_free_data = 0
handed_over free_data = 1

-- Freeing an AVP that `AAACreateAVP` made gives back all that it took, and with it the block of the
-- data if the caller handed this over by the status `AVP_FREE_DATA`.
free_avp-create_avp :
    (alloc : Allocator) (code flags vendor_id : ℕ) (payload : Bytes) (status : DataStatus) (m : Shm)
    {avp : Avp} {m' : Shm}
    → create_avp alloc code flags vendor_id payload status m ≡ (some avp, m')
    → (free_avp avp m').live ≡ m.live - handed_over status
unfolding create_avp free_avp shm_malloc new_avp
free_avp-create_avp alloc code flags vendor_id payload duplicate_data m e = ground arith
free_avp-create_avp alloc code flags vendor_id payload dont_free_data m e = ground arith
free_avp-create_avp alloc code flags vendor_id payload free_data m e = ground arith

-- When the structure of an AVP with duplicated data can be allocated and the copy of the data
-- cannot, `AAACreateAVP` returns NULL, and the block of the structure stays allocated.
pub create_avp_leaks :
    (alloc : Allocator) (code flags vendor_id : ℕ) (payload : Bytes) (m : Shm) {p : ℕ}
    → 0 < length payload
    → alloc m.calls ≡ some p
    → alloc (m.calls + 1) ≡ none
    → (create_avp alloc code flags vendor_id payload duplicate_data m).0 ≡ none
      × (create_avp alloc code flags vendor_id payload duplicate_data m).1.live ≡ m.live + 1
unfolding create_avp shm_malloc
create_avp_leaks alloc code flags vendor_id payload m h e f = ground arith

-- What a call of `AAACloneAVP` may leave: nothing allocated, or a clone that reads like the original
-- and whose freeing gives back what the clone took.
abbrev pub IsClone : Avp → Shm → Option Avp × Shm → Type 0
IsClone avp m (none, m') = m'.live ≡ m.live
IsClone avp m (some b, m') =
    (avp ≡ record b { addr = avp.addr; free_it = avp.free_it }) × ((free_avp b m').live ≡ m.live)

-- `AAACloneAVP` takes nothing if it fails, at whichever allocation; if it succeeds, the clone has all
-- fields of the original, at an address and with an ownership of its own, and freeing the clone gives
-- back exactly what it took.
pub clone_avp-IsClone :
    (alloc : Allocator) (avp : Avp) (copy : Bool) (m : Shm)
    → IsClone avp m (clone_avp alloc avp copy m)
unfolding clone_avp shm_malloc free_avp
clone_avp-IsClone alloc avp true m = ground arith
clone_avp-IsClone alloc avp false m = ground arith

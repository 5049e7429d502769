-- ===== src/Msg/Create.antt =====
-- diameter_msg/avp.c: `set_avp_fields`, `AAACreateAVP`, `AAACloneAVP` and `AAAFreeAVP`.
pub mod Fields
pub mod Balance
use disc.Base.{
  ℕ, ◌+◌, ◌-◌, ◌≡◌, refl, Bool, true, false, ◌&&◌, Option, none, some, List, [], ◌∷◌, ◌==◌,
  if◌then◌else◌, one_of, bit_and, bit_or, length,
}
use disc.Utils.{Bytes}
use disc.Shm.{Allocator, Shm, shm_malloc, shm_free}
use mathlib.Core.Option
use disc.Msg.{
  DataType, data_type, string_type, address_type, integer32_type, DataStatus, duplicate_data,
  dont_free_data, free_data, Avp,
}

-- The codes of the cases of `set_avp_fields` that have one effect.
abbrev string_codes : List ℕ
string_codes = 1 ∷ 25 ∷ 263 ∷ 283 ∷ 293 ∷ 264 ∷ 296 ∷ []

abbrev integer32_codes : List ℕ
integer32_codes = 27 ∷ 258 ∷ 262 ∷ 265 ∷ 266 ∷ 268 ∷ 270 ∷ 276 ∷ 278 ∷ 291 ∷ []

-- 0x40|(0x20&avp->flags)
abbrev mandatory : ℕ → ℕ
mandatory flags = bit_or 0x40 (bit_and 0x20 flags)

-- The flags and the type that the code of an AVP asks for.
unfoldable pub set_avp_fields : ℕ → ℕ → ℕ × DataType
set_avp_fields code flags =
    if one_of code string_codes
    then (mandatory flags, string_type)
    else if one_of code integer32_codes
    then (mandatory flags, integer32_type)
    else if code == 33
    then (0x40, string_type)
    else if code == 257
    then (mandatory flags, address_type)
    else if code == 269
    then (0x00, string_type)
    else if code == 281
    then (bit_and 0x20 flags, string_type)
    else (flags, data_type)

-- The new AVP at `addr`, its fields set.
unfoldable pub new_avp : ℕ → ℕ → ℕ → ℕ → Bytes → Bool → Avp
new_avp addr code flags vendor_id payload free_it = record {
  addr = addr;
  code = code;
  flags = (set_avp_fields code flags).0;
  type = (set_avp_fields code flags).1;
  vendor_id = vendor_id;
  payload = payload;
  free_it = free_it;
}

abbrev is_free_data : DataStatus → Bool
is_free_data free_data = true
is_free_data _ = false

-- The second part of `AAACreateAVP`, the structure being at `addr`. When the copy of the data cannot
-- be allocated, `goto error` returns NULL and the structure stays allocated.
with_data : Allocator → ℕ → ℕ → ℕ → ℕ → Bytes → DataStatus → Shm → Option Avp × Shm
with_data alloc addr code flags vendor_id payload duplicate_data m =
    let (p, m') = shm_malloc alloc m in
    (Option.map (λ _. new_avp addr code flags vendor_id payload true) p, m')
with_data alloc addr code flags vendor_id payload status m =
    (some (new_avp addr code flags vendor_id payload (is_free_data status)), m)

created : Allocator → Option ℕ → ℕ → ℕ → ℕ → Bytes → DataStatus → Shm → Option Avp × Shm
unfolding with_data
created alloc none code flags vendor_id payload status m = (none, m)
created alloc (some addr) code flags vendor_id payload status m =
    with_data alloc addr code flags vendor_id payload status m

-- `AAACreateAVP`; the source refuses a NULL pointer and an empty length alike, and `[]` stands for
-- both.
unfoldable pub create_avp : Allocator → ℕ → ℕ → ℕ → Bytes → DataStatus → Shm → Option Avp × Shm
unfolding created
create_avp alloc code flags vendor_id payload status m =
    let (p, m') = shm_malloc alloc m in
    if length payload == 0
    then (none, m)
    else created alloc p code flags vendor_id payload status m'

-- `AAACloneAVP` with the structure at `addr`; the links of the clone are NULL. A clone that does not
-- copy the data shares the data of the original and does not own it.
clone_data : Allocator → ℕ → Avp → Bool → Shm → Option Avp × Shm
clone_data alloc addr avp true m =
    let (p, m') = shm_malloc alloc m in
    elim p [
      | none ↦ (none, shm_free m')
      | some q ↦ (some (record avp { addr = addr; free_it = true }), m')
    ]
clone_data alloc addr avp false m = (some (record avp { addr = addr; free_it = false }), m)

cloned : Allocator → Option ℕ → Avp → Bool → Shm → Option Avp × Shm
unfolding clone_data
cloned alloc none avp copy m = (none, m)
cloned alloc (some addr) avp copy m = clone_data alloc addr avp copy m

unfoldable pub clone_avp : Allocator → Avp → Bool → Shm → Option Avp × Shm
unfolding cloned
clone_avp alloc avp copy m =
    let (p, m') = shm_malloc alloc m in
    if length avp.payload == 0 then (none, m) else cloned alloc p avp copy m'

-- `AAAFreeAVP` on an AVP that is not NULL.
unfoldable pub free_avp : Avp → Shm → Shm
free_avp avp m = shm_free (if avp.free_it then shm_free m else m)

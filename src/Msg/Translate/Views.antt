-- ===== src/Msg/Translate/Views.antt =====
-- What two messages with the same contents on the wire have in common.
use disc.Base.{
  ℕ, ◌+◌, ◌<◌, ◌≡◌, refl, ap, ◌∙◌, false, some, List, [], ◌∷◌, ◌++◌, map, ◌==◌, length, take, drop,
  All, arith,
}
use disc.Utils.{Bytes}
use disc.Shm.{Allocator, Shm, shm_malloc, IsFresh}
use disc.Msg.{DataType, Avp, Message}
use disc.Msg.Create.{new_avp, create_avp}
use disc.Msg.AvpList.Order.{Absent}
use disc.Msg.Build.{avp_hdr_size}
use disc.Msg.Translate.{create_from}
use disc.Msg.Translate.Avps.{IsWire, header_of}

-- What the wire carries of an AVP.
pub record View : Type 0 where
  pub code : ℕ
  pub flags : ℕ
  pub type : DataType
  pub vendor_id : ℕ
  pub payload : Bytes

unfoldable pub view : Avp → View
view a = record {
  code = a.code;
  flags = a.flags;
  type = a.type;
  vendor_id = a.vendor_id;
  payload = a.payload;
}

-- Every allocation succeeds, and no address comes twice.
pub record Succeeds (alloc : Allocator) : Type 0 where
  pub gives : (i : ℕ) → (p : ℕ) × (alloc i ≡ some p)
  pub fresh : IsFresh alloc

-- The AVPs stand at addresses that earlier calls of the allocator gave.
abbrev pub Drawn : Allocator → ℕ → List Avp → Type 0
Drawn alloc n xs = All (λ (a : Avp). (i : ℕ) × (i < n) × (alloc i ≡ some a.addr)) xs

Drawn-later :
    (alloc : Allocator) (n : ℕ) (xs : List Avp) → Drawn alloc n xs → Drawn alloc (n + 1) xs
Drawn-later alloc n [] d = tt
Drawn-later alloc n (a ∷ xs) ((i, h, e), d) = ((i, omega arith, e), Drawn-later alloc n xs d)

pub Drawn-append :
    (alloc : Allocator) (n : ℕ) (xs : List Avp) (a : Avp)
    → Drawn alloc n xs
    → alloc n ≡ some a.addr
    → Drawn alloc (n + 1) (xs ++ (a ∷ []))
Drawn-append alloc n [] a d e = ((n, omega arith, e), tt)
Drawn-append alloc n (b ∷ xs) a ((i, h, f), d) e =
    ((i, omega arith, f), Drawn-append alloc n xs a d e)

pub Drawn-Absent :
    (alloc : Allocator) (n p : ℕ) (xs : List Avp)
    → IsFresh alloc
    → Drawn alloc n xs
    → alloc n ≡ some p
    → Absent p xs
Drawn-Absent alloc n p [] f d e = tt
Drawn-Absent alloc n p (a ∷ xs) f ((i, h, g), d) e =
    (λ same. absurd (omega (arith, f i n p (g ∙ ap some same) e)), Drawn-Absent alloc n p xs f d e)

-- The AVP that the translation creates for one that was encoded.
abbrev pub copy : ℕ → Avp → Avp
copy p avp = new_avp p avp.code avp.flags avp.vendor_id avp.payload false

pub view-copy : (p : ℕ) (avp : Avp) → IsWire avp → view (copy p avp) ≡ view avp
unfolding view new_avp
view-copy p avp w = rw w.fields_set

pub create_from-copy :
    (alloc : Allocator) (source : Bytes) (avp : Avp) (ptr p : ℕ) (m : Shm)
    → 0 < length avp.payload
    → take (length avp.payload) (drop (ptr + avp_hdr_size avp.flags) source) ≡ avp.payload
    → alloc m.calls ≡ some p
    → create_from alloc source (header_of avp ptr) m
      ≡ (some (copy p avp), record m { calls = m.calls + 1; live = m.live + 1 })
unfolding create_from create_avp shm_malloc
create_from-copy alloc source avp ptr p m h e f =
    let full : (length avp.payload == 0) ≡ false = ground arith in rw (e, full, f)

-- The fields of the header of a message.
unfoldable pub view_header : Message → ℕ × ℕ × ℕ × ℕ × ℕ
view_header msg =
    (msg.flags, msg.command_code, msg.application_id, msg.hopbyhop_id, msg.endtoend_id)

-- The second message is the first with copies of the AVPs behind its own.
pub record Extends (msg : Message) (avps : List Avp) (msg' : Message) : Type 0 where
  pub avps_read : map view msg'.avps ≡ map view msg.avps ++ map view avps
  pub header_same : view_header msg' ≡ view_header msg
  pub buf_same : msg'.buf ≡ msg.buf

pub map-append_one :
    (xs : List Avp) (a : Avp) → map view (xs ++ (a ∷ [])) ≡ map view xs ++ (view a ∷ [])
map-append_one [] a = refl
map-append_one (x ∷ xs) a = ap (λ vs. view x ∷ vs) (map-append_one xs a)

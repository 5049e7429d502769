-- ===== src/Msg/Build.antt =====
-- diameter_msg/message.c: `AAABuildMsgBuffer`.
pub mod Encode
use disc.Base.{
  ℕ, ◌+◌, ◌*◌, ◌%◌, ◌^◌, Bool, true, false, Option, none, some, List, [], ◌∷◌, ◌++◌, ◌==◌,
  if◌then◌else◌, bit_and, length, replicate,
}
use disc.Utils.{Bytes, to_32x_len}
use disc.Shm.{Allocator, Shm, shm_malloc, shm_free}
use disc.Msg.{Avp, Message}
use disc.Msg.Wire.{Result, ok, err, fault, ◌>>=◌, set_3bytes, set_4bytes, store_word, write}

abbrev pub aaa_msg_hdr_size : ℕ
aaa_msg_hdr_size = 20

-- The vendor bit of the flags of an AVP.
unfoldable pub has_vendor : ℕ → Bool
has_vendor flags = if bit_and flags 0x80 == 0 then false else true

-- `AVP_HDR_SIZE`
abbrev pub avp_hdr_size : ℕ → ℕ
avp_hdr_size flags = if has_vendor flags then 12 else 8

-- The first loop, in unsigned 32-bit arithmetic.
unfoldable pub buffer_len : ℕ → List Avp → ℕ
buffer_len len [] = len
buffer_len len (avp ∷ avps) =
    buffer_len ((len + (avp_hdr_size avp.flags + to_32x_len (length avp.payload))) % 2 ^ 32) avps

-- The 20 bytes of the header: the version and the flags are stored over the first bytes of the
-- words that hold the length and the command code.
unfoldable pub header : Message → ℕ → Bytes
header msg len =
    1 ∷ set_3bytes len
    ++ (msg.flags % 256 ∷ set_3bytes msg.command_code
        ++ (set_4bytes msg.application_id
            ++ (store_word msg.hopbyhop_id ++ store_word msg.endtoend_id)))

abbrev pub vendor_field : Avp → Bytes
vendor_field avp = if has_vendor avp.flags then set_4bytes avp.vendor_id else []

-- The header of an AVP.
unfoldable pub avp_header : Avp → Bytes
avp_header avp =
    set_4bytes avp.code
    ++ (avp.flags % 256 ∷ set_3bytes (avp_hdr_size avp.flags + length avp.payload)
        ++ vendor_field avp)

-- The header and the data of one AVP.
unfoldable pub write_avp : Bytes → ℕ → Avp → Result Bytes
write_avp buf p avp = do
  buf ← write buf p (avp_header avp)
  write buf (p + avp_hdr_size avp.flags) avp.payload

-- The second loop: the buffer and the offset of `p` in it.
unfoldable pub write_avps : Bytes → ℕ → List Avp → Result (Bytes × ℕ)
write_avps buf p [] = ok (buf, p)
write_avps buf p (avp ∷ avps) = do
  buf ← write_avp buf p avp
  write_avps buf (p + (avp_hdr_size avp.flags + to_32x_len (length avp.payload))) avps

-- The filling of a zeroed buffer of `len` bytes, and the final test of the pointer.
fill_buffer : Message → ℕ → Result Bytes
fill_buffer msg len = do
  buf ← write (replicate len 0) 0 (header msg len)
  (buf, p) ← write_avps buf aaa_msg_hdr_size msg.avps
  if p == len then ok buf else err

-- What `AAABuildMsgBuffer` leaves: `built` is the result 1, `not_built` the result -1 with the
-- message whose `buf` it set to NULL, and `overrun` an access outside the buffer.
pub data Outcome : Type 0 where
  built : Message → Shm → Outcome
  not_built : Message → Shm → Outcome
  overrun : Outcome

filled : Message → Result Bytes → Shm → Outcome
filled msg (ok buf) m = built (record msg { buf = some buf }) m
filled msg err m = not_built (record msg { buf = none }) (shm_free m)
filled msg fault m = overrun

-- The allocation of the buffer, which the source also makes for a length that has wrapped.
build_in : Option ℕ → Message → Shm → Outcome
unfolding filled fill_buffer
build_in none msg m = not_built (record msg { buf = none }) m
build_in (some p) msg m = filled msg (fill_buffer msg (buffer_len aaa_msg_hdr_size msg.avps)) m

unfoldable pub build_msg_buffer : Allocator → Message → Shm → Outcome
unfolding build_in
build_msg_buffer alloc msg m = let (p, m') = shm_malloc alloc m in build_in p msg m'

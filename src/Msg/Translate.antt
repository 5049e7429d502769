-- ===== src/Msg/Translate.antt =====
-- diameter_msg/message.c: `AAATranslateMessage` and `AAAFreeMessage`. Pointers into the source are
-- offsets. Pointers have 8 bytes here, other than in FMalloc, so that a pointer plus a length of 32 bits
-- does not wrap: Reads has a lemma.
pub mod Avps
pub mod Reads
pub mod Safe
pub mod RoundTrip
pub mod ReadBack
pub mod Views
use disc.Base.{
  ℕ, zero, suc, ◌+◌, ◌-◌, ◌%◌, ◌^◌, Bool, true, false, Option, none, some, List, [], ◌∷◌, ltb, leb,
  ◌==◌, if◌then◌else◌, length, take, drop,
}
use disc.Utils.{Bytes, to_32x_len}
use disc.Shm.{Allocator, Shm, shm_malloc, shm_free}
use disc.Msg.{DataStatus, dont_free_data, Avp, Message, zero_message}
use disc.Msg.Wire.{Result, ok, err, fault, ◌>>=◌, ◌>>◌, get_byte, get_3bytes, get_4bytes, load_word}
use disc.Msg.Create.{create_avp, free_avp}
use disc.Msg.AvpList.{tail_of, add_avp}
use disc.Msg.Build.{aaa_msg_hdr_size, has_vendor, avp_hdr_size}

abbrev pub guard : Bool → Result (Unit {0})
guard true = ok tt
guard false = err

-- The AVPs of a message given back, and then the buffer and the message itself.
pub free_avps : List Avp → Shm → Shm
free_avps [] m = m
free_avps (avp ∷ avps) m = free_avps avps (free_avp avp m)

pub free_buf : Option Bytes → Shm → Shm
free_buf none m = m
free_buf (some buf) m = shm_free m

-- `AAAFreeMessage` on a message that is not NULL.
unfoldable pub free_message : Message → Shm → Shm
unfolding free_avps free_buf
free_message msg m = shm_free (free_buf msg.buf (free_avps msg.avps m))

-- The header of a message, without its AVPs, and `msg_len`.
unfoldable pub parse_header : Bytes → ℕ → Result (ℕ × Message)
parse_header source source_len = do
  version ← get_byte source
  guard (version == 1)
  msg_len ← get_3bytes (drop 1 source)
  guard (leb msg_len source_len)
  flags ← get_byte (drop 4 source)
  command_code ← get_3bytes (drop 5 source)
  application_id ← get_4bytes (drop 8 source)
  hopbyhop_id ← load_word (drop 12 source)
  endtoend_id ← load_word (drop 16 source)
  ok (
    msg_len,
    record zero_message {
      flags = flags;
      command_code = command_code;
      application_id = application_id;
      hopbyhop_id = hopbyhop_id;
      endtoend_id = endtoend_id;
    },
  )

-- What is read of an AVP before it is created; `data_at` is `ptr` behind the header.
pub record AvpHeader : Type 0 where
  pub code : ℕ
  pub flags : ℕ
  pub vendor_id : ℕ
  pub data_at : ℕ
  pub data_len : ℕ

-- The vendor, where the flags announce one.
unfoldable pub vendor_of : Bytes → ℕ → ℕ → Result ℕ
vendor_of source ptr flags = if has_vendor flags then get_4bytes (drop (ptr + 8) source) else ok 0

-- The data behind the header, whose length is computed in 32 bits, must end inside the message. The sum
-- of `ptr` and this length does not wrap with pointers of 8 bytes; with pointers of 4 bytes it does
-- for lengths shorter than the header of the AVP, and the source then takes such an AVP.
unfoldable pub with_data_len : ℕ → ℕ → ℕ → ℕ → ℕ → ℕ → Result AvpHeader
with_data_len end ptr code flags vendor_id len =
    let data_at = ptr + avp_hdr_size flags in
    let data_len = (len + 2 ^ 32 - avp_hdr_size flags) % 2 ^ 32 in
    if leb (data_at + data_len) end
    then ok (record {
      code = code;
      flags = flags;
      vendor_id = vendor_id;
      data_at = data_at;
      data_len = data_len;
    })
    else err

-- The body of the loop up to `AAACreateAVP`; `end` is `source+msg_len`.
unfoldable pub parse_avp_header : Bytes → ℕ → ℕ → Result AvpHeader
parse_avp_header source end ptr = do
  guard (leb (ptr + 12) end)
  code ← get_4bytes (drop ptr source)
  flags ← get_byte (drop (ptr + 4) source)
  len ← get_3bytes (drop (ptr + 5) source)
  guard (leb 1 len)
  vendor_id ← vendor_of source ptr flags
  with_data_len end ptr code flags vendor_id len

-- How the loop ends: the message with all AVPs, the jump to `error` with the message so far, an
-- access outside the source, or no fuel.
pub data Loop : Type 0 where
  finished : Message → Shm → Loop
  dropped : Message → Shm → Loop
  outside : Loop
  out_of_fuel : Loop

-- The `AAACreateAVP` of the loop: the data stays in the source.
unfoldable pub create_from : Allocator → Bytes → AvpHeader → Shm → Option Avp × Shm
create_from alloc source h m =
    create_avp alloc h.code h.flags h.vendor_id (take h.data_len (drop h.data_at source))
      dont_free_data m

-- One round of the loop: it goes on at a later `ptr`, or ends.
pub data Round : Type 0 where
  advanced : ℕ → Message → Shm → Round
  halted : Loop → Round

-- The rest of a round once the header has been read: the AVP is linked to the end.
unfoldable pub link_created : AvpHeader → Message → Option Avp × Shm → Round
link_created h msg (none, m) = halted (dropped msg m)
link_created h msg (some avp, m) =
    advanced (h.data_at + to_32x_len h.data_len) (add_avp msg avp (tail_of msg.avps)).1 m

-- An AVP whose data would not lie in the source counts as an access outside it.
unfoldable pub read_round : Allocator → Bytes → Result AvpHeader → Message → Shm → Round
unfolding link_created
read_round alloc source (ok h) msg m =
    if leb (h.data_at + h.data_len) (length source)
    then link_created h msg (create_from alloc source h m)
    else halted outside
read_round alloc source err msg m = halted (dropped msg m)
read_round alloc source fault msg m = halted outside

-- The loop over the AVPs.
unfoldable pub translate_avps : Allocator → Bytes → ℕ → ℕ → ℕ → Message → Shm → Loop
translate_avps alloc source end zero ptr msg m = if ltb ptr end then out_of_fuel else finished msg m
translate_avps alloc source end (suc fuel) ptr msg m =
    let body : Loop = elim (read_round alloc source (parse_avp_header source end ptr) msg m) [
      | advanced ptr' msg' m' ↦ translate_avps alloc source end fuel ptr' msg' m'
      | halted l ↦ l
    ] in
    if ltb ptr end then body else finished msg m

-- The result of `AAATranslateMessage`: a message, or NULL; `faulted`: an access outside the source.
-- `undefined`: `AAAFreeMessage` is given a pointer that was never set.
pub data Outcome : Type 0 where
  translated : Message → Shm → Outcome
  refused : Shm → Outcome
  faulted : Outcome
  undefined : Outcome
  stuck : Outcome

-- `if (attach_buf)`
abbrev attach : Bool → Bytes → Message → Message
attach true buf msg = record msg { buf = some buf }
attach false buf msg = msg

-- The end of the function.
unfoldable pub conclude : Bool → Bytes → Loop → Outcome
conclude attach_buf buf (finished msg m) = translated (attach attach_buf buf msg) m
conclude attach_buf buf (dropped msg m) = refused (free_message msg m)
conclude attach_buf buf outside = faulted
conclude attach_buf buf out_of_fuel = stuck

-- The function from the loop on, for the header that has been read. Each round of the loop takes 8
-- bytes at least, so that `source_len` rounds are enough.
unfoldable pub translate_body : Allocator → Bytes → ℕ → Bool → Result (ℕ × Message) → Shm → Outcome
translate_body alloc source source_len attach_buf (ok (msg_len, msg)) m =
    conclude attach_buf (take msg_len source)
      (translate_avps alloc source msg_len source_len aaa_msg_hdr_size msg m)
translate_body alloc source source_len attach_buf err m = refused (free_message zero_message m)
translate_body alloc source source_len attach_buf fault m = faulted

-- The function once the allocation of the message structure has been tried.
unfoldable pub translate_in : Allocator → Bytes → ℕ → Bool → Option ℕ × Shm → Outcome
translate_in alloc source source_len attach_buf (none, m) = refused m
translate_in alloc source source_len attach_buf (some p, m) =
    translate_body alloc source source_len attach_buf (parse_header source source_len) m

-- `AAATranslateMessage` on a source that is not NULL. When the test of the parameters fails, `msg` is
-- not initialised yet at the call of `AAAFreeMessage`.
unfoldable pub translate_message : Allocator → Bytes → ℕ → Bool → Shm → Outcome
translate_message alloc source source_len attach_buf m =
    if ltb source_len aaa_msg_hdr_size
    then undefined
    else translate_in alloc source source_len attach_buf (shm_malloc alloc m)

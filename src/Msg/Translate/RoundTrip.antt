-- ===== src/Msg/Translate/RoundTrip.antt =====
-- `AAATranslateMessage` reads back the buffer that `AAABuildMsgBuffer` wrote.
use disc.Base.{
  ℕ, ◌+◌, ◌%◌, ◌^◌, ◌<◌, ◌≤◌, ◌≡◌, refl, ap, ◌∙◌, Bool, true, false, none, some, ◌++◌, map,
  append_assoc, ltb, le→leb, take_all, length, length-append, take, drop, All, arith, if◌then◌else◌,
}
use disc.Utils.{Bytes}
use disc.Shm.{Allocator, Shm, shm_malloc}
use disc.Msg.{Message, zero_message}
use disc.Msg.Wire.{ok, get_3bytes-set_3bytes, get_4bytes-set_4bytes, load_word-store_word, get_byte}
use disc.Msg.Build.{built, build_msg_buffer, header}
use disc.Msg.Build.Encode.{
  build_msg_buffer-encode_message, length-header, encode_avps, encode_message, Fits,
}
use disc.Msg.Translate.{
  finished, parse_header, translate_message, translate_in, translate_body, conclude, translated,
}
use disc.Msg.Translate.Avps.{IsWire}
use disc.Msg.Translate.Views.{view, view_header, Succeeds}
use disc.Msg.Translate.ReadBack.{Ready, translate_avps-encode_avps}

-- The fields of the header are values that its fields on the wire can hold.
pub record HeaderFits (msg : Message) : Type 0 where
  pub flags_fit : msg.flags < 256
  pub command_fits : msg.command_code < 2 ^ 24
  pub application_fits : msg.application_id < 2 ^ 32
  pub hopbyhop_fits : msg.hopbyhop_id < 2 ^ 32
  pub endtoend_fits : msg.endtoend_id < 2 ^ 32

-- The message that the parser makes of the header of another.
abbrev bare : Message → Message
bare msg = record zero_message {
  flags = msg.flags;
  command_code = msg.command_code;
  application_id = msg.application_id;
  hopbyhop_id = msg.hopbyhop_id;
  endtoend_id = msg.endtoend_id;
}

parse_header-header :
    (msg : Message) (len source_len : ℕ) (rest : Bytes)
    → HeaderFits msg
    → len < 2 ^ 24
    → len ≤ source_len
    → parse_header (header msg len ++ rest) source_len ≡ ok (len, bare msg)
unfolding parse_header header get_byte
parse_header-header msg len source_len rest h l r =
    let flags : msg.flags % 256 ≡ msg.flags = omega (arith, h.flags_fit) in
    rw (
      get_3bytes-set_3bytes len _ l,
      le→leb len source_len r,
      get_3bytes-set_3bytes msg.command_code _ h.command_fits,
      get_4bytes-set_4bytes msg.application_id _ h.application_fits,
      load_word-store_word msg.hopbyhop_id _ h.hopbyhop_fits,
      load_word-store_word msg.endtoend_id _ h.endtoend_fits,
      flags,
    )

-- The end of the function, after the loop has read all AVPs.
concluded :
    (attach_buf : Bool) (buf : Bytes) (msg : Message) (m : Shm)
    → msg.buf ≡ none
    → (x : Message) × (conclude attach_buf buf (finished msg m) ≡ translated x m)
      × (x.avps ≡ msg.avps)
      × (view_header x ≡ view_header msg)
      × (x.buf ≡ (if attach_buf then some buf else none))
unfolding conclude view_header
concluded true buf msg m e = (record msg { buf = some buf }, refl, refl, refl, refl)
concluded false buf msg m e = (msg, refl, refl, refl, e)

module _ (alloc : Allocator) (msg : Message) (rest : Bytes) (source_len : ℕ) (good : Succeeds alloc)
    (fits : Fits msg) (header_fits : HeaderFits msg) (wire : All IsWire msg.avps)
    (room : length (encode_message msg) ≤ source_len) where
  abbrev source : Bytes
  source = encode_message msg ++ rest

  abbrev total : ℕ
  total = 20 + length (encode_avps msg.avps)

  length-encode_message : length (encode_message msg) ≡ total
  unfolding encode_message
  length-encode_message =
      omega
        (arith, length-append (header msg total) (encode_avps msg.avps), length-header msg total)

  avps_there : drop 20 source ≡ encode_avps msg.avps ++ rest
  unfolding encode_message header
  avps_there = refl

  header_read : parse_header source source_len ≡ ok (total, bare msg)
  unfolding encode_message
  header_read = rw (append_assoc (header msg total) (encode_avps msg.avps) rest) (
      parse_header-header msg total source_len (encode_avps msg.avps ++ rest) header_fits fits.total
        (omega (arith, room, length-encode_message)))

  loop-Ready : (m : Shm) → Ready alloc source total good msg.avps source_len 20 rest (bare msg) m
  loop-Ready m = record {
    wire = wire;
    there = avps_there;
    ends = refl;
    fueled = omega (arith, room, length-encode_message);
    distinct = tt;
    drawn = tt;
  }

  whole : take total source ≡ encode_message msg
  whole = rw (← length-encode_message) (take_all (encode_message msg) rest)

  -- What the parser returns for the encoding of a message, with anything behind it.
  pub translate_message-encode_message :
      (attach_buf : Bool) (m : Shm)
      → (msg' : Message) × (m' : Shm) × (translate_message alloc source source_len attach_buf m
          ≡ translated msg' m')
        × (map view msg'.avps ≡ map view msg.avps)
        × (view_header msg' ≡ view_header msg)
        × (msg'.buf ≡ (if attach_buf then some (encode_message msg) else none))
  unfolding translate_message shm_malloc translate_in translate_body conclude view_header
  translate_message-encode_message attach_buf m =
      let (p, e) = good.gives m.calls in
      let (msg', m', loop, ext) =
        translate_avps-encode_avps alloc source total good msg.avps source_len 20 rest (bare msg)
          (record m { calls = m.calls + 1; live = m.live + 1 }) (loop-Ready _) in
      let (x, done, same, same_header, same_buf) =
        concluded attach_buf (take total source) msg' m' ext.buf_same in
      let long : ltb source_len 20 ≡ false = ground (arith, length-encode_message) in
      (
        x,
        m',
        rw (long, e, header_read, loop) done,
        ap (map view) same ∙ ext.avps_read,
        same_header ∙ ext.header_same,
        same_buf ∙ ap (λ b. if attach_buf then some b else none) whole,
      )

-- A message that fits its wire format, whose AVPs are as `AAACreateAVP` makes them and whose header
-- fields fit theirs, survives the wire: if no allocation fails, `AAABuildMsgBuffer` returns a buffer,
-- and `AAATranslateMessage`, given the buffer with anything behind it, returns a message with the
-- same header fields and with AVPs of the same codes, flags, types, vendors and data, in the same
-- order.
pub translate_message-build_msg_buffer :
    (alloc peer : Allocator) (msg : Message) (rest : Bytes) (m n : Shm)
    → Succeeds alloc
    → Succeeds peer
    → Fits msg
    → HeaderFits msg
    → All IsWire msg.avps
    → (bytes : Bytes) × (m' : Shm) × (msg' : Message) × (n' : Shm) × (build_msg_buffer alloc msg m
        ≡ built (record msg { buf = some bytes }) m')
      × (translate_message peer (bytes ++ rest) (length bytes + length rest) false n
          ≡ translated msg' n')
      × (map view msg'.avps ≡ map view msg.avps)
      × (view_header msg' ≡ view_header msg)
translate_message-build_msg_buffer alloc peer msg rest m n good peer_good fits header_fits wire =
    let (p, e) = good.gives m.calls in
    let (msg', n', parsed, avps, head, _) =
      translate_message-encode_message peer msg rest (length (encode_message msg) + length rest)
        peer_good fits header_fits wire (omega arith) false n in
    (
      encode_message msg,
      _,
      msg',
      n',
      build_msg_buffer-encode_message alloc msg m fits e,
      parsed,
      avps,
      head,
    )

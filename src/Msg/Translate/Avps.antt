-- ===== src/Msg/Translate/Avps.antt =====
-- Reading back one AVP that `AAABuildMsgBuffer` wrote.
use disc.Base.{
  ℕ, ◌+◌, ◌-◌, ◌%◌, ◌^◌, ◌<◌, ◌≤◌, ◌≡◌, sym, ap, ◌∙◌, true, false, inl, inr, ◌∷◌, ◌++◌,
  append_assoc, leb, le→leb, Bool-cases, length, take, take_all, drop, drop-drop, arith,
}
use disc.Utils.{Bytes}
use disc.Msg.{Avp}
use disc.Msg.Wire.{
  ok, set_3bytes, set_4bytes, get_byte, get_3bytes, get_4bytes, get_3bytes-set_3bytes,
  get_4bytes-set_4bytes,
}
use disc.Msg.Create.{set_avp_fields}
use disc.Msg.Build.{has_vendor, avp_hdr_size, avp_header, vendor_field}
use disc.Msg.Build.Encode.{padding, encode_avp, length-encode_avp, to_32x_len_bounds}
use disc.Msg.Translate.{AvpHeader, vendor_of, with_data_len, parse_avp_header}

-- An AVP as `AAACreateAVP` makes it, of values that the fields of the wire can hold: a vendor needs
-- its flag, and the flags and the type are those of the code.
pub record IsWire (avp : Avp) : Type 0 where
  pub code_fits : avp.code < 2 ^ 32
  pub flags_fit : avp.flags < 256
  pub vendor_fits : avp.vendor_id < 2 ^ 32
  pub vendor_flagged : has_vendor avp.flags ≡ false → avp.vendor_id ≡ 0
  pub not_empty : 0 < length avp.payload
  pub small : length avp.payload + 12 < 2 ^ 24
  pub fields_set : set_avp_fields avp.code avp.flags ≡ (avp.flags, avp.type)

encode_avp-fields :
    (avp : Avp) (rest : Bytes)
    → encode_avp avp ++ rest
      ≡ set_4bytes avp.code
        ++ (avp.flags % 256 ∷ set_3bytes (avp_hdr_size avp.flags + length avp.payload)
            ++ (vendor_field avp ++ (avp.payload ++ (padding avp ++ rest))))
unfolding encode_avp avp_header
encode_avp-fields avp rest =
    ap
      (λ bs.
        set_4bytes avp.code
        ++ (avp.flags % 256 ∷ set_3bytes (avp_hdr_size avp.flags + length avp.payload) ++ bs))
      (append_assoc (vendor_field avp) (avp.payload ++ padding avp) rest
        ∙ ap (λ bs. vendor_field avp ++ bs) (append_assoc avp.payload (padding avp) rest))

-- The header that the parser makes of the AVP at `ptr`.
abbrev pub header_of : Avp → ℕ → AvpHeader
header_of avp ptr = record {
  code = avp.code;
  flags = avp.flags;
  vendor_id = avp.vendor_id;
  data_at = ptr + avp_hdr_size avp.flags;
  data_len = length avp.payload;
}

pub hdr-ge-eight : (flags : ℕ) → 8 ≤ avp_hdr_size flags
hdr-ge-eight flags = ground arith

hdr-bound :
    (avp : Avp)
    → length avp.payload + 12 < 2 ^ 24
    → avp_hdr_size avp.flags + length avp.payload < 2 ^ 24
hdr-bound avp h = ground arith

-- Behind the header of an AVP stand its data.
drop-encode_avp :
    (avp : Avp) (rest : Bytes)
    → drop (avp_hdr_size avp.flags) (encode_avp avp ++ rest) ≡ avp.payload ++ (padding avp ++ rest)
drop-encode_avp avp rest = elim (Bool-cases (has_vendor avp.flags)) [
  | inl e ↦ rw (encode_avp-fields avp rest, e)
  | inr e ↦ rw (encode_avp-fields avp rest, e)
]

-- The length of the data, recomputed in 32 bits.
with_data_len-fits :
    (avp : Avp) (end ptr : ℕ)
    → length avp.payload + 12 < 2 ^ 24
    → ptr + avp_hdr_size avp.flags + length avp.payload ≤ end
    → with_data_len end ptr avp.code avp.flags avp.vendor_id
        (avp_hdr_size avp.flags + length avp.payload)
      ≡ ok (header_of avp ptr)
unfolding with_data_len
with_data_len-fits avp end ptr s h =
    let same : (avp_hdr_size avp.flags + length avp.payload + 2 ^ 32 - avp_hdr_size avp.flags)
          % 2 ^ 32
        ≡ length avp.payload =
      omega arith in
    rw (same, le→leb _ end h)

module _ (avp : Avp) (source rest : Bytes) (ptr : ℕ) (w : IsWire avp)
    (there : drop ptr source ≡ encode_avp avp ++ rest) where
  -- The source from the field at offset `n` of the AVP on.
  field_at : (n : ℕ) → drop (ptr + n) source ≡ drop n (encode_avp avp ++ rest)
  field_at n = sym (drop-drop n ptr source) ∙ ap (drop n) there

  code_read : get_4bytes (drop ptr source) ≡ ok avp.code
  code_read = rw (there, encode_avp-fields avp rest) (get_4bytes-set_4bytes avp.code _ w.code_fits)

  flags_read : get_byte (drop (ptr + 4) source) ≡ ok avp.flags
  unfolding get_byte
  flags_read = rw (field_at 4, encode_avp-fields avp rest) (ap ok (omega (arith, w.flags_fit)))

  len_read : get_3bytes (drop (ptr + 5) source) ≡ ok (avp_hdr_size avp.flags + length avp.payload)
  len_read =
      rw (field_at 5, encode_avp-fields avp rest)
        (get_3bytes-set_3bytes _ _ (hdr-bound avp w.small))

  vendor_read : vendor_of source ptr avp.flags ≡ ok avp.vendor_id
  unfolding vendor_of
  vendor_read = elim (Bool-cases (has_vendor avp.flags)) [
    | inl e ↦
        rw (e, field_at 8, encode_avp-fields avp rest, e)
          (get_4bytes-set_4bytes avp.vendor_id _ w.vendor_fits)
    | inr e ↦ rw e (ap ok (sym (w.vendor_flagged e)))
  ]

  pub payload_read :
      take (length avp.payload) (drop (ptr + avp_hdr_size avp.flags) source) ≡ avp.payload
  payload_read =
      rw (field_at (avp_hdr_size avp.flags), drop-encode_avp avp rest) (take_all avp.payload _)

  pub parse_avp_header-encode_avp :
      (end : ℕ)
      → ptr + length (encode_avp avp) ≤ end
      → parse_avp_header source end ptr ≡ ok (header_of avp ptr)
  unfolding parse_avp_header
  parse_avp_header-encode_avp end h =
      let size = length-encode_avp avp (omega (arith, w.small)) in
      let bounds = to_32x_len_bounds (length avp.payload) (omega (arith, w.small)) in
      let eight = hdr-ge-eight avp.flags in
      let room : ptr + 12 ≤ end = omega (arith, w.not_empty) in
      let some_len : leb 1 (avp_hdr_size avp.flags + length avp.payload) ≡ true =
        le→leb 1 _ (omega (arith, w.not_empty)) in
      rw (le→leb (ptr + 12) end room, code_read, flags_read, len_read, some_len, vendor_read)
        (with_data_len-fits avp end ptr w.small (omega arith))

-- ===== src/Msg/Translate/Reads.antt =====
-- The readers of `AAATranslateMessage` stay inside the source.
use disc.Base.{
  ℕ, zero, suc, ◌+◌, ◌%◌, ◌^◌, ◌<◌, ◌≤◌, ◌≡◌, refl, inl, inr, none, List, [], ◌∷◌, leb, ◌==◌,
  Bool-cases, length, length-drop, All, drop, arith, leb→le,
}
use disc.Utils.{Bytes}
use disc.Msg.{Message}
use disc.Msg.Wire.{
  Result, ok, err, fault, IsByte, get_byte, get_3bytes, get_4bytes, load_word, get_byte_total,
  get_3bytes_total, get_4bytes_total, load_word_total,
}
use disc.Msg.Build.{has_vendor}
use disc.Msg.Translate.{AvpHeader, parse_header, parse_avp_header, vendor_of, with_data_len}

pub All-drop {ℓ κ} :
    {A : Type ℓ} (P : A → Type κ) (n : ℕ) (xs : List A) → All P xs → All P (drop n xs)
All-drop P zero xs h = h
All-drop P (suc n) [] h = h
All-drop P (suc n) (x ∷ xs) h = All-drop P n xs h.1

-- The source holds at least `end` bytes.
pub record Holds (source : Bytes) (end : ℕ) : Type 0 where
  pub bytes : All IsByte source
  pub room : end ≤ length source

module _ {source : Bytes} {end : ℕ} (h : Holds source end) (p : ℕ) where
  IsByte-at : p + 1 ≤ end → (v : ℕ) × (get_byte (drop p source) ≡ ok v) × IsByte v
  IsByte-at r =
      get_byte_total _ (All-drop IsByte p source h.bytes)
        (omega (arith, h.room, length-drop p source))

  three_at : p + 3 ≤ end → (v : ℕ) × (get_3bytes (drop p source) ≡ ok v) × (v < 2 ^ 24)
  three_at r =
      get_3bytes_total _ (All-drop IsByte p source h.bytes)
        (omega (arith, h.room, length-drop p source))

  four_at : p + 4 ≤ end → (v : ℕ) × (get_4bytes (drop p source) ≡ ok v) × (v < 2 ^ 32)
  four_at r =
      get_4bytes_total _ (All-drop IsByte p source h.bytes)
        (omega (arith, h.room, length-drop p source))

  word_at : p + 4 ≤ end → (v : ℕ) × (load_word (drop p source) ≡ ok v) × (v < 2 ^ 32)
  word_at r =
      load_word_total _ (All-drop IsByte p source h.bytes)
        (omega (arith, h.room, length-drop p source))

  vendor_at : (flags : ℕ) → p + 12 ≤ end → (v : ℕ) × (vendor_of source p flags ≡ ok v)
  unfolding vendor_of
  vendor_at flags r = elim (Bool-cases (has_vendor flags)) [
    | inl e ↦ let (v, ev, _) = four_at_vendor in (v, rw e ev)
    | inr e ↦ (0, rw e)
  ]
    where
      four_at_vendor : (v : ℕ) × (get_4bytes (drop (p + 8) source) ≡ ok v) × (v < 2 ^ 32)
      four_at_vendor =
          get_4bytes_total _ (All-drop IsByte (p + 8) source h.bytes)
            (omega (arith, h.room, length-drop (p + 8) source))

-- What is left of the message behind an AVP that was read: the next round starts further on, and
-- the data lies inside the message.
pub record Read (end ptr : ℕ) (h : AvpHeader) : Type 0 where
  pub later : ptr + 8 ≤ h.data_at
  pub inside : h.data_at + h.data_len ≤ end

abbrev pub IsRead : ℕ → ℕ → Result AvpHeader → Type 0
IsRead end ptr (ok h) = Read end ptr h
IsRead end ptr err = Unit
IsRead end ptr fault = ⊥

-- The last test of the header.
checked_data :
    (end ptr code flags vendor_id len : ℕ)
    → IsRead end ptr (with_data_len end ptr code flags vendor_id len)
unfolding with_data_len
checked_data end ptr code flags vendor_id len = ground arith

pub parse_avp_header-IsRead :
    (source : Bytes) (end ptr : ℕ)
    → Holds source end
    → IsRead end ptr (parse_avp_header source end ptr)
unfolding parse_avp_header
parse_avp_header-IsRead source end ptr h = elim (Bool-cases (leb (ptr + 12) end)) [
  | inl fits ↦
      let r = leb→le (ptr + 12) end fits in
      let (code, code_read, _) = four_at h ptr (omega arith) in
      let (flags, flags_read, _) = IsByte-at h (ptr + 4) (omega arith) in
      let (len, len_read, _) = three_at h (ptr + 5) (omega arith) in
      let (vendor_id, vendor_read) = vendor_at h ptr flags r in
      rw (fits, code_read, flags_read, len_read)
        (elim (Bool-cases (leb 1 len)) [
          | inl some_len ↦
              rw (some_len, vendor_read) (checked_data end ptr code flags vendor_id len)
          | inr no_len ↦ rw no_len tt
        ])
  | inr short ↦ rw short tt
]

-- What the header of a message leaves: no AVP and no buffer yet, and a length that the source has.
pub record Parsed (source_len msg_len : ℕ) (msg : Message) : Type 0 where
  pub within : msg_len ≤ source_len
  pub no_avps : msg.avps ≡ []
  pub no_buf : msg.buf ≡ none

abbrev pub IsParsed : ℕ → Result (ℕ × Message) → Type 0
IsParsed source_len (ok (msg_len, msg)) = Parsed source_len msg_len msg
IsParsed source_len err = Unit
IsParsed source_len fault = ⊥

pub parse_header-IsParsed :
    (source : Bytes) (source_len : ℕ)
    → Holds source source_len
    → 20 ≤ source_len
    → IsParsed source_len (parse_header source source_len)
unfolding parse_header
parse_header-IsParsed source source_len h l =
    let (version, version_read, _) = IsByte-at h 0 (omega arith) in
    let (msg_len, msg_len_read, _) = three_at h 1 (omega arith) in
    let (flags, flags_read, _) = IsByte-at h 4 (omega arith) in
    let (command_code, code_read, _) = three_at h 5 (omega arith) in
    let (application_id, application_read, _) = four_at h 8 (omega arith) in
    let (hopbyhop_id, hop_read, _) = word_at h 12 (omega arith) in
    let (endtoend_id, end_read, _) = word_at h 16 (omega arith) in
    rw (version_read, msg_len_read, flags_read, code_read, application_read, hop_read, end_read)
      (elim (Bool-cases (version == 1)) [
        | inl one ↦ rw one (elim (Bool-cases (leb msg_len source_len)) [
          | inl fits ↦
              rw fits
                (record { within = leb→le msg_len source_len fits; no_avps = refl; no_buf = refl })
          | inr long ↦ rw long tt
        ])
        | inr other ↦ rw other tt
      ])

-- With pointers of 8 bytes, for a source at the address `base`, the test of the source on pointers is
-- that on offsets.
pointers-offsets :
    (base end data_at data_len : ℕ)
    → end < 2 ^ 24
    → data_at ≤ end
    → data_len < 2 ^ 32
    → base + 2 ^ 33 ≤ 2 ^ 64
    → leb ((base + data_at + data_len) % 2 ^ 64) ((base + end) % 2 ^ 64)
      ≡ leb (data_at + data_len) end
pointers-offsets base end data_at data_len a b c d = ground arith

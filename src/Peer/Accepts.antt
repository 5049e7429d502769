-- ===== src/Peer/Accepts.antt =====
-- What `process_dw` and `process_dp` accept, told from the AVPs of the message.
use disc.Base.{
  ℕ, ◌+◌, ◌*◌, ◌^◌, ◌≤◌, ◌≡◌, refl, sym, ap, ◌∙◌, Bool, true, false, not, ◌&&◌, ◌||◌, inl, inr,
  List, [], ◌∷◌, ◌++◌, drop, drop_all, length, length-append, append_assoc, ◌==◌, All,
  if◌then◌else◌, Bool-cases, arith,
}
use disc.Utils.{Bytes}
use disc.Msg.{Avp}
use disc.Msg.Wire.{ok, get_4bytes}
use disc.Msg.Build.{has_vendor, avp_header}
use disc.Msg.Build.Encode.{padding, encode_avp, encode_avps}
use disc.Peer.{aaa_success}
use disc.Peer.Scan.{Flow, on, leave, ended, left, returned, for_all_avps, conclude}
use disc.Peer.Process.{set_bit_in_mask, result_code, dw_avp, dp_avp, process_dw, process_dp}
use disc.Peer.Encoded.{Fits, for_all, for_all_avps-encode_avps}
use disc.Peer.Masks.{mask_of, set_bits}

-- The first four bytes of the data as a number.
abbrev pub number : Bytes → ℕ
number (a ∷ b ∷ c ∷ d ∷ bs) = a * 2 ^ 24 + b * 2 ^ 16 + c * 2 ^ 8 + d
number _ = 0

-- An AVP of the base protocol: it has no vendor, and a result code has four bytes.
abbrev pub IsBase : Avp → Type 0
IsBase avp = (has_vendor avp.flags ≡ false) × ((avp.code == 268) ≡ true → 4 ≤ length avp.payload)

abbrev pub is_success : Avp → Bool
is_success avp = not (avp.code == 268) || (number avp.payload == aaa_success)

unfoldable pub all_success : List Avp → Bool
all_success [] = true
all_success (avp ∷ avps) = is_success avp && all_success avps

unfoldable pub has : ℕ → List Avp → Bool
has code [] = false
has code (avp ∷ avps) = (avp.code == code) || has code avps

number_front : (bs rest : Bytes) → 4 ≤ length bs → get_4bytes (bs ++ rest) ≡ ok (number bs)
unfolding get_4bytes
number_front (a ∷ b ∷ c ∷ d ∷ bs) rest h = refl
number_front [] rest h = absurd (omega arith)
number_front (a ∷ []) rest h = absurd (omega arith)
number_front (a ∷ b ∷ []) rest h = absurd (omega arith)
number_front (a ∷ b ∷ c ∷ []) rest h = absurd (omega arith)

data_of :
    (avp : Avp) (rest : Bytes)
    → IsBase avp
    → (avp.code == 268) ≡ true
    → get_4bytes (drop 8 (encode_avp avp ++ rest)) ≡ ok (number avp.payload)
unfolding encode_avp avp_header
data_of avp rest (plain, long) e =
    rw (plain, append_assoc avp.payload (padding avp) rest)
      (number_front avp.payload (padding avp ++ rest) (long e))

-- A round on the AVP itself; `cause` says that the disconnect cause is counted.
unfoldable base_avp : Bool → Avp → ℕ → Flow ℕ Bool
base_avp cause avp mask =
    if cause && (avp.code == 273)
    then on (set_bit_in_mask mask 3)
    else if avp.code == 268
    then (if number avp.payload == aaa_success then on (set_bit_in_mask mask 0) else leave false)
    else if avp.code == 264
    then on (set_bit_in_mask mask 1)
    else if avp.code == 296
    then on (set_bit_in_mask mask 2)
    else on mask

dw_avp-base :
    (avp : Avp) (rest : Bytes) (mask : ℕ)
    → IsBase avp
    → dw_avp avp.code (encode_avp avp ++ rest) mask ≡ base_avp false avp mask
unfolding dw_avp base_avp result_code
dw_avp-base avp rest mask base = elim (Bool-cases (avp.code == 268)) [
  | inl e ↦ rw (e, result_code, data_of avp rest base e) refl
  | inr e ↦ rw e refl
]

dp_avp-base :
    (avp : Avp) (rest : Bytes) (mask : ℕ)
    → IsBase avp
    → dp_avp avp.code (encode_avp avp ++ rest) mask ≡ base_avp true avp mask
unfolding dp_avp base_avp
dp_avp-base avp rest mask base = elim (Bool-cases (avp.code == 273)) [
  | inl e ↦ rw e refl
  | inr e ↦ rw e (dw_avp-base avp rest mask base)
]

base_avp_mask :
    (cause : Bool) (avp : Avp) (a b c d : Bool)
    → base_avp cause avp (mask_of a b c d) ≡ (
        if is_success avp
        then on (
            mask_of
              ((avp.code == 268) || a)
              ((avp.code == 264) || b)
              ((avp.code == 296) || c)
              ((cause && (avp.code == 273)) || d))
        else leave false)
unfolding base_avp
base_avp_mask cause avp a b c d =
    let (result, host, realm, disconnect) = set_bits a b c d in
    ground (arith, result, host, realm, disconnect)

for_all-base_avp :
    (cause : Bool) (avps : List Avp) (a b c d : Bool)
    → for_all (base_avp cause) avps (mask_of a b c d) ≡ (
        if all_success avps
        then ended (
            mask_of
              (a || has 268 avps)
              (b || has 264 avps)
              (c || has 296 avps)
              (d || (cause && has 273 avps)))
        else left false)
unfolding for_all all_success has
for_all-base_avp cause [] a b c d = ground arith
for_all-base_avp cause (avp ∷ avps) a b c d = elim (Bool-cases (is_success avp)) [
  | inl good ↦
      rw (for_all, base_avp_mask cause avp a b c d, good)
        (for_all-base_avp cause avps ((avp.code == 268) || a) ((avp.code == 264) || b)
            ((avp.code == 296) || c) ((cause && (avp.code == 273)) || d)
          ∙ ground arith)
  | inr bad ↦ rw (for_all, base_avp_mask cause avp a b c d, bad) refl
]

-- The mandatory AVPs are there, there is a result code exactly in an answer, and all results are
-- successes.
unfoldable pub dw_accepts : Bool → List Avp → Bool
dw_accepts is_req avps =
    all_success avps
    && (has 264 avps && (has 296 avps && (if is_req then not (has 268 avps) else has 268 avps)))

-- There is a disconnect cause exactly in a request as well.
unfoldable pub dp_accepts : Bool → List Avp → Bool
dp_accepts is_req avps =
    dw_accepts is_req avps && (if is_req then has 273 avps else not (has 273 avps))

scan-avps :
    (cause : Bool) (body : ℕ → Bytes → ℕ → Flow ℕ Bool) (n : ℕ) (hdr : Bytes) (avps : List Avp)
    → ((avp : Avp) (rest : Bytes) (mask : ℕ)
        → IsBase avp
        → body avp.code (encode_avp avp ++ rest) mask ≡ base_avp cause avp mask)
    → length hdr ≡ 20
    → All (λ avp. Fits avp × IsBase avp) avps
    → length (hdr ++ encode_avps avps) ≤ n
    → for_all_avps body n (drop 20 (hdr ++ encode_avps avps)) 0 ≡ (
        if all_success avps
        then ended (mask_of (has 268 avps) (has 264 avps) (has 296 avps) (cause && has 273 avps))
        else left false)
unfolding mask_of
scan-avps cause body n hdr avps same h base fuel =
    let behind : drop 20 (hdr ++ encode_avps avps) ≡ encode_avps avps =
      ap (λ k. drop k (hdr ++ encode_avps avps)) (sym h) ∙ drop_all hdr (encode_avps avps) in
    rw behind (
      for_all_avps-encode_avps body (base_avp cause) n avps 0 same base
        (omega (arith, length-append hdr (encode_avps avps)))
      ∙ for_all-base_avp cause avps false false false false)

-- On a message with any header of 20 bytes and the encoding of AVPs, whose codes and lengths fit their
-- fields, none of which has a vendor, and in which a result code has four bytes, with as much fuel as
-- there are bytes: `process_dw` returns, and accepts exactly if there are an origin host and an origin
-- realm, there is a result code exactly in an answer, and all result codes are AAA_SUCCESS.
pub process_dw-accepts :
    (n : ℕ) (hdr : Bytes) (avps : List Avp) (is_req : Bool)
    → length hdr ≡ 20
    → All (λ avp. Fits avp × IsBase avp) avps
    → length (hdr ++ encode_avps avps) ≤ n
    → process_dw n (hdr ++ encode_avps avps) is_req ≡ returned (dw_accepts is_req avps)
unfolding process_dw conclude dw_accepts mask_of
process_dw-accepts n hdr avps is_req h base fuel =
    ap (conclude (λ mask. mask == (if is_req then 0x6 else 0x7)) (λ r. r))
      (scan-avps false dw_avp n hdr avps dw_avp-base h base fuel)
    ∙ ground arith

-- The same of `process_dp`, which accepts exactly if `process_dw` would and there is a disconnect
-- cause exactly in a request.
pub process_dp-accepts :
    (n : ℕ) (hdr : Bytes) (avps : List Avp) (is_req : Bool)
    → length hdr ≡ 20
    → All (λ avp. Fits avp × IsBase avp) avps
    → length (hdr ++ encode_avps avps) ≤ n
    → process_dp n (hdr ++ encode_avps avps) is_req ≡ returned (dp_accepts is_req avps)
unfolding process_dp conclude dp_accepts dw_accepts mask_of
process_dp-accepts n hdr avps is_req h base fuel =
    ap (conclude (λ mask. mask == (if is_req then 0xe else 0x7)) (λ r. r))
      (scan-avps true dp_avp n hdr avps dp_avp-base h base fuel)
    ∙ ground arith

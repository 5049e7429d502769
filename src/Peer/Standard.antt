-- ===== src/Peer/Standard.antt =====
-- What build_msg_buffers leaves in the buffers of a peer's messages.
use disc.Base.{
  ℕ, ◌+◌, ◌^◌, ◌<◌, ◌≡◌, sym, ap, ◌∙◌, List, [], ◌∷◌, ◌++◌, append_assoc, append-nil, length,
  length-append, arith,
}
use disc.Utils.{Bytes, to_32x_len}
use disc.Msg.{Avp}
use disc.Msg.Wire.{ok, ◌>>=◌}
use disc.Msg.Build.Encode.{encode_avp, encode_avps, to_32x_len_bounds}
use disc.Peer.Buffers.{
  Globals, put, put_avp, put_empty_avp, std_req_len, build_std_req, std_ans_len, build_std_ans,
  build_dpr_avp,
}
use disc.Peer.Parts.{
  std_avp, padded, at, zeroed-at, put-at, put_avp-at, put_empty_avp-at, length-std_avp, at_end,
}

pub record IsShort (g : Globals) : Type 0 where
  pub identity : length g.aaa_identity < 2 ^ 14
  pub realm : length g.aaa_realm < 2 ^ 14

-- The first bytes of a message that is to be filled: the version and the flags
abbrev pub blank_header : ℕ → Bytes
blank_header flags = padded 20 (1 ∷ 0 ∷ 0 ∷ 0 ∷ flags ∷ [])

abbrev pub origin : Globals → List Avp
origin g = std_avp 264 g.aaa_identity ∷ std_avp 296 g.aaa_realm ∷ []

abbrev pub no_number : Bytes
no_number = 0 ∷ 0 ∷ 0 ∷ 0 ∷ []

pub empty_size : (code : ℕ) → length (encode_avp (std_avp code no_number)) ≡ 12
unfolding to_32x_len
empty_size code = length-std_avp code no_number (omega arith) ∙ omega arith

pub length-origin :
    (g : Globals)
    → IsShort g
    → length (encode_avps (origin g))
      ≡ (8 + to_32x_len (length g.aaa_identity)) + (8 + to_32x_len (length g.aaa_realm))
unfolding encode_avps
length-origin g s =
    let host = encode_avp (std_avp 264 g.aaa_identity) in
    let realm = encode_avp (std_avp 296 g.aaa_realm) in
    omega (
      arith,
      s.identity,
      s.realm,
      length-append host (realm ++ []),
      length-append realm [],
      length-std_avp 264 g.aaa_identity (omega (arith, s.identity)),
      length-std_avp 296 g.aaa_realm (omega (arith, s.realm)),
    )

-- The origin AVPs fill the rest of a buffer.
origin-at :
    (g : Globals) (total : ℕ) (done : Bytes)
    → IsShort g
    → total ≡ length done + length (encode_avps (origin g))
    → (put_avp 264 g.aaa_identity (at total done) >>= λ c.
        put_avp 296 g.aaa_realm c >>= λ d. ok d.0)
      ≡ ok (done ++ encode_avps (origin g))
unfolding encode_avps
origin-at g total done s e =
    let host = encode_avp (std_avp 264 g.aaa_identity) in
    let realm = encode_avp (std_avp 296 g.aaa_realm) in
    let a : length g.aaa_identity < 2 ^ 24 = omega (arith, s.identity) in
    let b : length g.aaa_realm < 2 ^ 24 = omega (arith, s.realm) in
    let size = length-origin g s in
    let first = put_avp-at total 264 done g.aaa_identity a (omega (arith, size)) in
    let second =
      put_avp-at total 296 (done ++ host) g.aaa_realm b
        (omega (arith, size, length-append done host, length-std_avp 264 g.aaa_identity a)) in
    let full : total ≡ length ((done ++ host) ++ realm) = omega (
      arith,
      size,
      length-append (done ++ host) realm,
      length-append done host,
      length-std_avp 264 g.aaa_identity a,
      length-std_avp 296 g.aaa_realm b,
    ) in
    rw (first, second)
      (ap ok (
        at_end total ((done ++ host) ++ realm) full
        ∙ append_assoc done host realm
        ∙ ap (λ bs. done ++ (host ++ bs)) (sym (append-nil realm))))

pub std_req_lem :
    (g : Globals) → IsShort g → build_std_req g ≡ ok (blank_header 0x80 ++ encode_avps (origin g))
unfolding build_std_req
std_req_lem g s =
    let total = std_req_len g in
    let size = length-origin g s in
    let whole : total ≡ 20 + length (encode_avps (origin g)) = omega (
      arith,
      size,
      s.identity,
      s.realm,
      to_32x_len_bounds (length g.aaa_identity),
      to_32x_len_bounds (length g.aaa_realm),
    ) in
    let first =
      ap (put (1 ∷ 0 ∷ 0 ∷ 0 ∷ 0x80 ∷ []) 20) (zeroed-at total)
      ∙ put-at total 20 [] (1 ∷ 0 ∷ 0 ∷ 0 ∷ 0x80 ∷ []) (omega arith) (omega arith) in
    rw first (origin-at g total (blank_header 0x80) s whole)

pub std_ans_lem :
    (g : Globals)
    → IsShort g
    → build_std_ans g ≡ ok (blank_header 0 ++ encode_avps (std_avp 268 no_number ∷ origin g))
unfolding build_std_ans encode_avps
std_ans_lem g s =
    let total = std_ans_len g in
    let size = length-origin g s in
    let result = encode_avp (std_avp 268 no_number) in
    let four : length result ≡ 12 = empty_size 268 in
    let whole : total ≡ 32 + length (encode_avps (origin g)) = omega (
      arith,
      size,
      s.identity,
      s.realm,
      to_32x_len_bounds (length g.aaa_identity),
      to_32x_len_bounds (length g.aaa_realm),
    ) in
    let first =
      ap (put (1 ∷ 0 ∷ 0 ∷ 0 ∷ 0 ∷ []) 20) (zeroed-at total)
      ∙ put-at total 20 [] (1 ∷ 0 ∷ 0 ∷ 0 ∷ 0 ∷ []) (omega arith) (omega arith) in
    let second = put_empty_avp-at total 268 (blank_header 0) (omega (arith, whole)) in
    rw (first, second)
      (origin-at g total (blank_header 0 ++ result) s
          (omega (arith, whole, four, length-append (blank_header 0) result))
        ∙ ap ok (append_assoc (blank_header 0) result (encode_avps (origin g))))

pub dpr_avp_lem : build_dpr_avp ≡ ok (encode_avp (std_avp 273 no_number))
unfolding build_dpr_avp
dpr_avp_lem =
    let first = ap (put_empty_avp 273) (zeroed-at 12) ∙ put_empty_avp-at 12 273 [] (omega arith) in
    let full : 12 ≡ length (encode_avp (std_avp 273 no_number)) = sym (empty_size 273) in
    rw first (ap ok (at_end 12 (encode_avp (std_avp 273 no_number)) full))

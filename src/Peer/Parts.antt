-- ===== src/Peer/Parts.antt =====
-- The parts that build_msg_buffers writes, as encodings of AVPs.
use disc.Base.{
  ℕ, ◌+◌, ◌-◌, ◌^◌, ◌<◌, ◌≤◌, ◌≡◌, refl, sym, ap, ap₂, ◌∙◌, false, [], ◌∷◌, ◌++◌, append_assoc,
  append-nil, length, length-append, length-replicate, replicate, replicate-add, arith,
}
use disc.Utils.{Bytes, to_32x_len}
use disc.Msg.{Avp, string_type}
use disc.Msg.Wire.{ok}
use disc.Msg.Build.{avp_header, has_vendor}
use disc.Msg.Build.Encode.{padding, encode_avp, write_at, to_32x_len_bounds, length-encode_avp}
use disc.Peer.Buffers.{put, put_avp, put_empty_avp, avp_words, zeroed}

-- An AVP with the mandatory flag and no vendor
abbrev pub std_avp : ℕ → Bytes → Avp
std_avp code value = record {
  addr = 0;
  code = code;
  flags = 0x40;
  type = string_type;
  vendor_id = 0;
  payload = value;
  free_it = false;
}

abbrev pub padded : ℕ → Bytes → Bytes
padded n bs = bs ++ replicate (n - length bs) 0

-- A buffer of `total` bytes, zeros behind `done`, with `ptr` there.
abbrev pub at : ℕ → Bytes → Bytes × ℕ
at total done = (done ++ replicate (total - length done) 0, length done)

length-padded : (n : ℕ) (bs : Bytes) → length bs ≤ n → length (padded n bs) ≡ n
length-padded n bs h = omega (
  arith,
  length-append bs (replicate (n - length bs) 0),
  length-replicate {0} {A = ℕ} (n - length bs) 0,
)

zeros : (n m : ℕ) → n ≡ m → ◌≡◌ {A = Bytes} (replicate n 0) (replicate m 0)
zeros n m e = ap (λ k. replicate k 0) e

pub zeroed-at : (total : ℕ) → zeroed total ≡ at total []
zeroed-at total = ap (λ bs. (bs, 0)) (zeros total (total - 0) (omega arith))

pub put-at :
    (total n : ℕ) (done bs : Bytes)
    → length bs ≤ n
    → length done + n ≤ total
    → put bs n (at total done) ≡ ok (at total (done ++ padded n bs))
unfolding put
put-at total n done bs small fits =
    let m = total - length done in
    let rest = n - length bs in
    let whole : length (done ++ padded n bs) ≡ length done + n =
      omega (arith, length-append done (padded n bs), length-padded n bs small) in
    let split : replicate (m - length bs) 0
        ≡ replicate rest 0 ++ replicate (total - length (done ++ padded n bs)) 0 =
      zeros (m - length bs) (rest + (total - length (done ++ padded n bs))) (omega (arith, whole))
      ∙ replicate-add rest (total - length (done ++ padded n bs)) 0 in
    rw (write_at done bs (length done) m refl (omega arith)) (
      ap₂ (λ buf ptr. ok (buf, ptr)) (ap (λ z. (done ++ bs) ++ z) split ∙ simp append_assoc)
        (sym whole))

std_size : (n : ℕ) → n < 2 ^ 24 → (n ≤ to_32x_len n) × (to_32x_len n ≤ n + 3)
std_size n h = ((to_32x_len_bounds n (omega arith)).0, (to_32x_len_bounds n (omega arith)).1)

pub put_avp-at :
    (total code : ℕ) (done value : Bytes)
    → length value < 2 ^ 24
    → length done + (8 + to_32x_len (length value)) ≤ total
    → put_avp code value (at total done) ≡ ok (at total (done ++ encode_avp (std_avp code value)))
unfolding put_avp encode_avp avp_header padding has_vendor
put_avp-at total code done value small fits =
    let head : Bytes = avp_words code (length value) in
    let first = put-at total 8 done head (omega arith) (omega arith) in
    let pad = to_32x_len (length value) in
    let second =
      put-at total pad (done ++ padded 8 head) value (std_size (length value) small).0
        (omega (arith, length-append done (padded 8 head), length-padded 8 head (omega arith))) in
    rw first
      (second ∙ ap (λ bs. ok (at total bs)) (append_assoc done (padded 8 head) (padded pad value)))

pub put_empty_avp-at :
    (total code : ℕ) (done : Bytes)
    → length done + 12 ≤ total
    → put_empty_avp code (at total done)
      ≡ ok (at total (done ++ encode_avp (std_avp code (0 ∷ 0 ∷ 0 ∷ 0 ∷ []))))
unfolding encode_avp avp_header padding has_vendor to_32x_len
put_empty_avp-at total code done fits = put-at total 12 done (avp_words code 4) (omega arith) fits

pub length-std_avp :
    (code : ℕ) (value : Bytes)
    → length value < 2 ^ 24
    → length (encode_avp (std_avp code value)) ≡ 8 + to_32x_len (length value)
unfolding has_vendor
length-std_avp code value small = length-encode_avp (std_avp code value) small

-- The buffer is full.
pub at_end : (total : ℕ) (done : Bytes) → total ≡ length done → (at total done).0 ≡ done
at_end total done e =
    ap (λ bs. done ++ bs) (zeros (total - length done) 0 (omega arith)) ∙ append-nil done

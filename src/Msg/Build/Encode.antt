-- ===== src/Msg/Build/Encode.antt =====
-- The buffer that `AAABuildMsgBuffer` makes, as a concatenation.
use disc.Base.{
  ℕ, ◌+◌, ◌-◌, ◌%◌, ◌^◌, ◌<◌, ◌≤◌, ◌≡◌, refl, sym, subst, ap, ap₂, ◌∙◌, true, some, List, [], ◌∷◌,
  ◌++◌, ◌==◌, length, length-append, length-replicate, append_assoc, append-nil, replicate,
  take_all, drop_all, drop-drop, drop-replicate, replicate-add, All, le→leb, arith,
}
use disc.Utils.{Bytes, to_32x_len}
use disc.Shm.{Allocator, Shm, shm_malloc}
use disc.Msg.{Avp, Message}
use disc.Msg.Wire.{ok, write}
use disc.Msg.Build.{
  aaa_msg_hdr_size, avp_hdr_size, buffer_len, header, avp_header, write_avp, write_avps,
  fill_buffer, filled, built, build_msg_buffer,
}

-- The bytes behind the data up to the next multiple of 4.
unfoldable pub padding : Avp → Bytes
padding avp = replicate (to_32x_len (length avp.payload) - length avp.payload) 0

unfoldable pub encode_avp : Avp → Bytes
encode_avp avp = avp_header avp ++ (avp.payload ++ padding avp)

unfoldable pub encode_avps : List Avp → Bytes
encode_avps [] = []
encode_avps (avp ∷ avps) = encode_avp avp ++ encode_avps avps

-- The padded length is the length rounded up to a multiple of 4.
pub to_32x_len_bounds :
    (n : ℕ) → n + 3 < 2 ^ 32 → (n ≤ to_32x_len n) × (to_32x_len n ≤ n + 3) × (to_32x_len n % 4 ≡ 0)
unfolding to_32x_len
to_32x_len_bounds n h = (ground arith, ground arith, ground arith)

-- A write into the zeros behind what has been written.
write-zeros :
    (done bs : Bytes) (n : ℕ)
    → write (done ++ replicate (length bs + n) 0) (length done) bs
      ≡ ok ((done ++ bs) ++ replicate n 0)
unfolding write
write-zeros done bs n =
    let room = done ++ replicate (length bs + n) 0 in
    let fits = le→leb (length done + length bs) (length room) (
      omega (
        arith,
        length-append done (replicate (length bs + n) 0),
        length-replicate {0} {A = ℕ} (length bs + n) 0,
      )) in
    rw (fits, take_all, ← drop-drop (length bs) (length done) room, drop_all, drop-replicate)
      (ap ok (sym (append_assoc done bs (replicate n 0))))

-- The same at a given offset, with `m` zeros left.
pub write_at :
    (done bs : Bytes) (p m : ℕ)
    → p ≡ length done
    → length bs ≤ m
    → write (done ++ replicate m 0) p bs ≡ ok ((done ++ bs) ++ replicate (m - length bs) 0)
write_at done bs p m e h =
    let split : m ≡ length bs + (m - length bs) = omega arith in
    rw e (
      subst
        (λ k.
          write (done ++ replicate k 0) (length done) bs
          ≡ ok ((done ++ bs) ++ replicate (m - length bs) 0))
        (sym split) (write-zeros done bs (m - length bs)))

length-avp_header : (avp : Avp) → length (avp_header avp) ≡ avp_hdr_size avp.flags
unfolding avp_header
length-avp_header avp = ground arith

pub length-header : (msg : Message) (len : ℕ) → length (header msg len) ≡ 20
unfolding header
length-header msg len = refl

-- How many bytes an AVP takes.
abbrev pub avp_size : Avp → ℕ
avp_size avp = avp_hdr_size avp.flags + to_32x_len (length avp.payload)

-- The data of an AVP is below the largest length that fits three bytes.
abbrev pub IsSmall : Avp → Type 0
IsSmall avp = length avp.payload < 2 ^ 24

pub length-encode_avp : (avp : Avp) → IsSmall avp → length (encode_avp avp) ≡ avp_size avp
unfolding encode_avp padding
length-encode_avp avp h =
    rw (length-append, length-append, length-avp_header, length-replicate)
      (omega (arith, to_32x_len_bounds (length avp.payload)))

-- Zeros, with those of the padding split off.
zeros_split :
    (avp : Avp) (m : ℕ)
    → IsSmall avp
    → avp_size avp ≤ m
    → replicate (m - avp_hdr_size avp.flags - length avp.payload) 0
      ≡ padding avp ++ replicate (m - avp_size avp) 0
unfolding padding
zeros_split avp m s h =
    ap (λ k. replicate k 0) (omega (arith, to_32x_len_bounds (length avp.payload)))
    ∙ replicate-add (to_32x_len (length avp.payload) - length avp.payload) (m - avp_size avp) 0

write_avp-encode_avp :
    (done : Bytes) (avp : Avp) (p m : ℕ)
    → IsSmall avp
    → p ≡ length done
    → avp_size avp ≤ m
    → write_avp (done ++ replicate m 0) p avp
      ≡ ok ((done ++ encode_avp avp) ++ replicate (m - avp_size avp) 0)
unfolding write_avp encode_avp
write_avp-encode_avp done avp p m s e h =
    let bounds = to_32x_len_bounds (length avp.payload) (omega arith) in
    let front = done ++ avp_header avp in
    let k = m - length (avp_header avp) in
    rw (write_at done (avp_header avp) p m e (omega (arith, length-avp_header avp, bounds))) (
      write_at front avp.payload (p + avp_hdr_size avp.flags) k
        (omega (arith, length-append done (avp_header avp), length-avp_header avp))
        (omega (arith, length-avp_header avp, bounds))
      ∙ ap ok (rw (length-avp_header avp, zeros_split avp m s h) (simp append_assoc)))

write_avps-encode_avps :
    (done : Bytes) (avps : List Avp) (p m : ℕ)
    → All IsSmall avps
    → p ≡ length done
    → length (encode_avps avps) ≤ m
    → write_avps (done ++ replicate m 0) p avps
      ≡ ok (
        (done ++ encode_avps avps) ++ replicate (m - length (encode_avps avps)) 0,
        p + length (encode_avps avps),
      )
unfolding write_avps encode_avps
write_avps-encode_avps done [] p m s e h =
    ap₂ (λ bs q. ok (bs, q)) (rw append-nil (ap (λ k. done ++ replicate k 0) (omega arith)))
      (omega arith)
write_avps-encode_avps done (avp ∷ avps) p m s e h =
    let size = length-encode_avp avp s.0 in
    let sum = length-append (encode_avp avp) (encode_avps avps) in
    let n = length (encode_avps avps) in
    let front = done ++ encode_avp avp in
    rw (write_avp-encode_avp done avp p m s.0 e (omega arith)) (
      write_avps-encode_avps front avps (p + avp_size avp) (m - avp_size avp) s.1
        (omega (arith, length-append done (encode_avp avp))) (omega arith)
      ∙ ap₂ (λ bs q. ok (bs, q))
          (rw (append_assoc done (encode_avp avp) (encode_avps avps), sum, size)
            (ap (λ k. (done ++ (encode_avp avp ++ encode_avps avps)) ++ replicate k 0)
              (omega arith)))
          (omega arith))

-- The length that the first loop computes is the length of the encodings, while this stays below
-- 2 ^ 32.
buffer_len-encode_avps :
    (len : ℕ) (avps : List Avp)
    → All IsSmall avps
    → len + length (encode_avps avps) < 2 ^ 32
    → buffer_len len avps ≡ len + length (encode_avps avps)
unfolding buffer_len encode_avps
buffer_len-encode_avps len [] s h = omega arith
buffer_len-encode_avps len (avp ∷ avps) s h =
    let size = length-encode_avp avp s.0 in
    let sum = length-append (encode_avp avp) (encode_avps avps) in
    let here : (len + avp_size avp) % 2 ^ 32 ≡ len + avp_size avp = omega arith in
    rw here (omega (arith, buffer_len-encode_avps (len + avp_size avp) avps s.1 (omega arith)))

-- The bytes of a whole message.
unfoldable pub encode_message : Message → Bytes
encode_message msg = header msg (20 + length (encode_avps msg.avps)) ++ encode_avps msg.avps

-- The length of a whole message stays below the largest that fits the three bytes of the header.
pub record Fits (msg : Message) : Type 0 where
  pub small : All IsSmall msg.avps
  pub total : 20 + length (encode_avps msg.avps) < 2 ^ 24

==-refl : (n : ℕ) → (n == n) ≡ true
==-refl n = ground arith

fill_buffer-encode_message :
    (msg : Message)
    → Fits msg
    → fill_buffer msg (aaa_msg_hdr_size + length (encode_avps msg.avps)) ≡ ok (encode_message msg)
unfolding fill_buffer encode_message
fill_buffer-encode_message msg f =
    let n = length (encode_avps msg.avps) in
    let head = header msg (20 + n) in
    let twenty : length head ≡ 20 = length-header msg (20 + n) in
    rw (write_at [] head 0 (20 + n) refl (omega arith)) (
      rw
        (
          write_avps-encode_avps head msg.avps 20 (20 + n - length head) f.small (sym twenty)
              (omega arith),
          ==-refl,
        )
        (ap ok (
          rw twenty (
            ap (λ k. (head ++ encode_avps msg.avps) ++ replicate k 0) {y = 0} (omega arith)
            ∙ append-nil _))))

-- For a message that fits and an allocation that succeeds, `AAABuildMsgBuffer` writes inside the
-- buffer that it allocated, its final test of the pointer passes, and the buffer is exactly the
-- header followed by the encodings of the AVPs in their order; one block is allocated.
pub build_msg_buffer-encode_message :
    (alloc : Allocator) (msg : Message) (m : Shm) {p : ℕ}
    → Fits msg
    → alloc m.calls ≡ some p
    → build_msg_buffer alloc msg m
      ≡ built
          (record msg { buf = some (encode_message msg) })
          (record m { calls = m.calls + 1; live = m.live + 1 })
unfolding build_msg_buffer shm_malloc
build_msg_buffer-encode_message alloc msg m f e = rw (
  e,
  buffer_len-encode_avps aaa_msg_hdr_size msg.avps f.small (omega (arith, f.total)),
  filled,
  fill_buffer-encode_message msg f,
)

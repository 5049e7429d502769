-- ===== src/Peer/Disconnect.antt =====
-- A disconnect request and its answer, from one peer to another.
use disc.Base.{
  ℕ, ◌+◌, ◌/◌, ◌%◌, ◌^◌, ◌≤◌, ◌≡◌, refl, sym, ap, Bool, true, false, List, [], ◌∷◌, ◌++◌,
  append_assoc, append-nil, length, length-append, drop, arith,
}
use disc.Utils.{Bytes, to_32x_len}
use disc.Msg.{Avp}
use disc.Msg.Wire.{ok, set_3bytes, set_4bytes}
use disc.Msg.Build.{has_vendor, avp_header}
use disc.Msg.Build.Encode.{encode_avp, encode_avps, padding}
use disc.Peer.Scan.{returned}
use disc.Peer.Process.{process_dp}
use disc.Peer.Accepts.{all_success, has, dw_accepts, dp_accepts, process_dp-accepts}
use disc.Peer.Buffers.{Globals, Buffers, build_msg_buffers}
use disc.Peer.Parts.{std_avp, length-std_avp}
use disc.Peer.Standard.{IsShort, blank_header, origin, no_number, empty_size}
use disc.Peer.Sent.{or_bytes, or_word, dp_msg_code, masked_word, word_of, dpr, dpa}
use disc.Peer.Headers.{request_header, answer_header, finished, stamped, zero_or, write_over}
use disc.Peer.Made.{Holds, build_msg_buffers-Holds}
use disc.Peer.Heartbeat.{
  short_origin, sent-IsFrame, base_avp, origin_base, req_size, ans_size, answer_lem, length-answer,
  answer-IsFrame, answer_base,
}
use disc.Tcp.Frames.{IsFrame}

abbrev cause_avp : ℕ → Avp
cause_avp disc_cause = std_avp 273 (set_4bytes disc_cause)

or_zeros : (n : ℕ) → or_bytes no_number (set_4bytes n) ≡ set_4bytes n
unfolding or_bytes
or_zeros n =
    rw
      (
        zero_or (n / 2 ^ 24 % 256) (omega arith),
        zero_or (n / 2 ^ 16 % 256) (omega arith),
        zero_or (n / 2 ^ 8 % 256) (omega arith),
        zero_or (n % 256) (omega arith),
      )
      refl

filled :
    (disc_cause : ℕ)
    → or_word 2 (set_4bytes disc_cause) (encode_avp (std_avp 273 no_number))
      ≡ ok (encode_avp (cause_avp disc_cause))
unfolding or_word encode_avp avp_header padding has_vendor to_32x_len
filled n =
    rw (or_zeros n)
      (write_over (set_4bytes 273 ++ (0x40 ∷ set_3bytes 12)) no_number [] (set_4bytes n) refl)

abbrev dpr_size : Globals → ℕ
dpr_size g = req_size g + length (encode_avp (std_avp 273 no_number))

abbrev dpr_body : Globals → ℕ → List Avp
dpr_body g disc_cause = origin g ++ (cause_avp disc_cause ∷ [])

body_lem :
    (g : Globals) (disc_cause : ℕ)
    → encode_avps (dpr_body g disc_cause)
      ≡ encode_avps (origin g) ++ encode_avp (cause_avp disc_cause)
unfolding encode_avps
body_lem g disc_cause = simp (append_assoc, append-nil)

dpr_lem :
    (g : Globals) (t : Buffers) (disc_cause ete label : ℕ)
    → IsShort g
    → Holds g t
    → dpr true t disc_cause ete label
      ≡ ok (request_header (dpr_size g) 282 ete label ++ encode_avps (dpr_body g disc_cause))
unfolding dpr or_bytes
dpr_lem g t disc_cause ete label s (req, ans, cause) =
    let done =
      finished (dpr_size g) dp_msg_code 282 (encode_avps (origin g))
        (omega (arith, short_origin g s, empty_size 273)) refl in
    rw (dpr, req, cause)
      (rw (done, filled disc_cause, body_lem g disc_cause)
        (stamped (dpr_size g) 282 ete label
          (encode_avps (origin g) ++ encode_avp (cause_avp disc_cause))))

length-dpr :
    (g : Globals) (disc_cause : ℕ) (head : Bytes)
    → length head ≡ 20
    → length (head ++ encode_avps (dpr_body g disc_cause)) ≡ dpr_size g
length-dpr g disc_cause head h = rw (body_lem g disc_cause) (
    omega (
      arith,
      h,
      length-append head (encode_avps (origin g) ++ encode_avp (cause_avp disc_cause)),
      length-append (encode_avps (origin g)) (encode_avp (cause_avp disc_cause)),
      length-std_avp 273 (set_4bytes disc_cause) (omega arith),
      length-std_avp 273 no_number (omega arith),
      length-append (blank_header 0x80) (encode_avps (origin g)),
    ))

abbrev IsAccepted : Bytes → Bool → Type 0
IsAccepted m is_req = IsFrame m × (process_dp (length m) m is_req ≡ returned true)

-- Two peers with identities and realms of less than 2 ^ 14 bytes, whose message buffers were built, with
-- memory for the messages: the disconnect request of the one, with any cause, is a message that do_read
-- takes, and process_dp of the other accepts it; the answer with AAA_SUCCESS that this builds to it is a
-- message that do_read takes, and process_dp of the first accepts it; its command code and its two ids
-- are those of the request.
pub disconnect_round :
    (got got' : ℕ → Bool) (g h : Globals) (t u : Buffers) (disc_cause ete label : ℕ)
    → IsShort g
    → IsShort h
    → build_msg_buffers got g ≡ ok t
    → build_msg_buffers got' h ≡ ok u
    → (req : Bytes) × (ans : Bytes) × (dpr true t disc_cause ete label ≡ ok req)
      × IsAccepted req true
      × (dpa true u req 2001 ≡ ok ans)
      × IsAccepted ans false
      × (masked_word (word_of 1 ans) ≡ masked_word (word_of 1 req))
      × (word_of 3 ans ≡ word_of 3 req)
      × (word_of 4 ans ≡ word_of 4 req)
unfolding dpa dp_accepts dw_accepts all_success has
disconnect_round got got' g h t u disc_cause ete label sg sh bg bh =
    let hg = build_msg_buffers-Holds got g t sg bg in
    let hh = build_msg_buffers-Holds got' h u sh bh in
    let head : Bytes = request_header (dpr_size g) 282 ete label in
    let req : Bytes = head ++ encode_avps (dpr_body g disc_cause) in
    let size : length req ≡ dpr_size g = length-dpr g disc_cause head refl in
    let long : 20 ≤ length req = omega arith in
    let back : Bytes = answer_header (ans_size h) req in
    let body : List Avp = std_avp 268 (set_4bytes 2001) ∷ origin h in
    let ans : Bytes = back ++ encode_avps body in
    let twenty = (length-answer h req 2001 long).0 in
    let host = origin_base g sg in
    let cause = base_avp 273 (set_4bytes disc_cause) (omega arith) (omega arith) (λ e. cc) in
    (
      req,
      ans,
      dpr_lem g t disc_cause ete label sg hg,
      (
        sent-IsFrame req (drop 4 req) (ap (λ k. (1 ∷ set_3bytes k) ++ drop 4 req) (sym size)) long
            (omega (arith, size, short_origin g sg, empty_size 273)),
        process_dp-accepts (length req) head (dpr_body g disc_cause) true refl
            (host.0, (host.1.0, (cause, tt))) (omega arith),
      ),
      answer_lem h u req 2001 sh hh long (omega arith),
      (
        answer-IsFrame h req 2001 sh long,
        process_dp-accepts (length ans) back body false twenty (answer_base h sh) (omega arith),
      ),
      refl,
      refl,
      refl,
    )

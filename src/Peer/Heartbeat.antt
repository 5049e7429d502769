-- ===== src/Peer/Heartbeat.antt =====
-- A watchdog request and its answer, from one peer to another.
use disc.Base.{
  ℕ, ◌+◌, ◌*◌, ◌-◌, ◌/◌, ◌%◌, ◌^◌, ◌<◌, ◌≤◌, ◌≡◌, refl, sym, ap, ◌∙◌, Bool, true, false, List, ◌∷◌,
  ◌++◌, ◌==◌, All, length, length-append, drop, arith,
}
use disc.Utils.{Bytes}
use disc.Msg.{Avp}
use disc.Msg.Wire.{ok, set_3bytes, set_4bytes, get_4bytes, IsByte}
use disc.Msg.Build.{has_vendor}
use disc.Msg.Build.Encode.{encode_avp, encode_avps, to_32x_len_bounds}
use disc.Peer.Scan.{returned}
use disc.Peer.Process.{process_dw}
use disc.Peer.Encoded.{Fits}
use disc.Peer.Accepts.{IsBase, all_success, has, dw_accepts, process_dw-accepts}
use disc.Peer.Buffers.{Globals, Buffers, build_msg_buffers}
use disc.Peer.Parts.{std_avp, length-std_avp}
use disc.Peer.Standard.{IsShort, blank_header, origin, no_number, length-origin, empty_size}
use disc.Peer.Sent.{fill_response, masked_word, word_of, dw_msg_code, dwr, dwa, or_bytes}
use disc.Peer.Headers.{
  request_header, answer_header, finished, stamped, fill_response_lem, length-masked_word,
  length-word,
}
use disc.Peer.Made.{Holds, build_msg_buffers-Holds}
use disc.Tcp.Frames.{IsFrame}

pub short_origin :
    (g : Globals)
    → IsShort g
    → (16 ≤ length (encode_avps (origin g))) × (length (encode_avps (origin g)) < 2 ^ 16 - 100)
short_origin g s =
    let size = length-origin g s in
    let a = to_32x_len_bounds (length g.aaa_identity) (omega (arith, s.identity)) in
    let b = to_32x_len_bounds (length g.aaa_realm) (omega (arith, s.realm)) in
    (omega (arith, size), omega (arith, size, a, b, s.identity, s.realm))

-- A message whose first four bytes are the version and its length
pub sent-IsFrame :
    (m rest : Bytes)
    → m ≡ (1 ∷ set_3bytes (length m)) ++ rest
    → 20 ≤ length m
    → length m ≤ 65536
    → IsFrame m
unfolding get_4bytes
sent-IsFrame m rest e lo hi =
    let n = length m in
    let v = 1 * 2 ^ 24 + n / 2 ^ 16 % 256 * 2 ^ 16 + n / 2 ^ 8 % 256 * 2 ^ 8 + n % 256 in
    let first : get_4bytes m ≡ ok v = ap get_4bytes e in (v, first, omega arith, lo, hi)

pub base_avp :
    (code : ℕ) (value : Bytes)
    → code < 2 ^ 32
    → length value < 2 ^ 24 - 12
    → ((code == 268) ≡ true → 4 ≤ length value)
    → Fits (std_avp code value) × IsBase (std_avp code value)
unfolding has_vendor
base_avp code value c v r = (record { code = c; size = v }, (refl, r))

pub origin_base : (g : Globals) → IsShort g → All (λ avp. Fits avp × IsBase avp) (origin g)
origin_base g s = (
  base_avp 264 g.aaa_identity (omega arith) (omega (arith, s.identity)) (λ e. cc),
  (base_avp 296 g.aaa_realm (omega arith) (omega (arith, s.realm)) (λ e. cc), tt),
)

-- The request of a peer
abbrev pub req_size : Globals → ℕ
req_size g = length (blank_header 0x80 ++ encode_avps (origin g))

pub dwr_lem :
    (g : Globals) (t : Buffers) (ete label : ℕ)
    → IsShort g
    → Holds g t
    → dwr true t ete label
      ≡ ok (request_header (req_size g) 280 ete label ++ encode_avps (origin g))
unfolding dwr or_bytes
dwr_lem g t ete label s (req, ans, cause) =
    let done =
      finished (req_size g) dw_msg_code 280 (encode_avps (origin g))
        (omega (arith, short_origin g s)) refl in
    rw (dwr, req) (rw done (stamped (req_size g) 280 ete label (encode_avps (origin g))))

-- The answer to a request
abbrev pub ans_size : Globals → ℕ
ans_size g = length (blank_header 0 ++ encode_avps (std_avp 268 no_number ∷ origin g))

pub answer_lem :
    (g : Globals) (t : Buffers) (req : Bytes) (code : ℕ)
    → IsShort g
    → Holds g t
    → 20 ≤ length req
    → All IsByte (word_of 1 req)
    → fill_response t.std_ans req code
      ≡ ok
          (answer_header (ans_size g) req ++ encode_avps (std_avp 268 (set_4bytes code) ∷ origin g))
unfolding encode_avps
answer_lem g t req code s (std_req, std_ans, cause) long bytes =
    rw std_ans (fill_response_lem req (encode_avps (origin g)) code long bytes)

pub length-answer :
    (g : Globals) (req : Bytes) (code : ℕ)
    → 20 ≤ length req
    → (length (answer_header (ans_size g) req) ≡ 20)
      × (length (
            answer_header (ans_size g) req
            ++ encode_avps (std_avp 268 (set_4bytes code) ∷ origin g))
          ≡ ans_size g)
unfolding encode_avps
length-answer g req code long =
    let w1 = masked_word (word_of 1 req) in
    let w2 = word_of 2 req in
    let w3 = word_of 3 req in
    let w4 = word_of 4 req in
    let l1 : length w1 ≡ 4 = length-masked_word (word_of 1 req) ∙ length-word 1 req (omega arith) in
    let l2 = length-word 2 req (omega arith) in
    let l3 = length-word 3 req (omega arith) in
    let l4 = length-word 4 req (omega arith) in
    let result = encode_avp (std_avp 268 (set_4bytes code)) in
    let front : length (answer_header (ans_size g) req) ≡ 20 = omega (
      arith,
      l1,
      l2,
      l3,
      l4,
      length-append w1 (w2 ++ (w3 ++ w4)),
      length-append w2 (w3 ++ w4),
      length-append w3 w4,
    ) in
    (
      front,
      omega (
        arith,
        front,
        length-append (answer_header (ans_size g) req) (result ++ encode_avps (origin g)),
        length-append result (encode_avps (origin g)),
        length-append (encode_avp (std_avp 268 no_number)) (encode_avps (origin g)),
        length-std_avp 268 (set_4bytes code) (omega arith),
        length-std_avp 268 no_number (omega arith),
      ),
    )

pub short_answer : (g : Globals) → IsShort g → ans_size g ≤ 65536
unfolding encode_avps
short_answer g s = omega (
  arith,
  short_origin g s,
  empty_size 268,
  length-append (encode_avp (std_avp 268 no_number)) (encode_avps (origin g)),
)

pub answer-IsFrame :
    (g : Globals) (req : Bytes) (code : ℕ)
    → IsShort g
    → 20 ≤ length req
    → IsFrame
        (answer_header (ans_size g) req ++ encode_avps (std_avp 268 (set_4bytes code) ∷ origin g))
answer-IsFrame g req code s long =
    let ans : Bytes =
      answer_header (ans_size g) req ++ encode_avps (std_avp 268 (set_4bytes code) ∷ origin g) in
    let whole : length ans ≡ ans_size g = (length-answer g req code long).1 in
    sent-IsFrame ans (drop 4 ans) (ap (λ k. (1 ∷ set_3bytes k) ++ drop 4 ans) (sym whole))
      (omega (arith, whole)) (omega (arith, whole, short_answer g s))

pub answer_base :
    (g : Globals)
    → IsShort g
    → All (λ avp. Fits avp × IsBase avp) (std_avp 268 (set_4bytes 2001) ∷ origin g)
answer_base g s =
    (base_avp 268 (set_4bytes 2001) (omega arith) (omega arith) (λ e. omega arith), origin_base g s)

abbrev IsAccepted : Bytes → Bool → Type 0
IsAccepted m is_req = IsFrame m × (process_dw (length m) m is_req ≡ returned true)

-- Two peers with identities and realms of less than 2 ^ 14 bytes, whose message buffers were built, with
-- memory for the messages: the watchdog request of the one is a message that do_read takes, and
-- process_dw of the other accepts it; the answer with AAA_SUCCESS that this builds to it is a message that
-- do_read takes, and process_dw of the first accepts it; its command code and the two ids under which
-- the transaction is kept are those of the request.
pub watchdog_round :
    (got got' : ℕ → Bool) (g h : Globals) (t u : Buffers) (ete label : ℕ)
    → IsShort g
    → IsShort h
    → build_msg_buffers got g ≡ ok t
    → build_msg_buffers got' h ≡ ok u
    → (req : Bytes) × (ans : Bytes) × (dwr true t ete label ≡ ok req)
      × IsAccepted req true
      × (dwa true u req 2001 ≡ ok ans)
      × IsAccepted ans false
      × (masked_word (word_of 1 ans) ≡ masked_word (word_of 1 req))
      × (word_of 3 ans ≡ word_of 3 req)
      × (word_of 4 ans ≡ word_of 4 req)
unfolding dwa dw_accepts all_success has
watchdog_round got got' g h t u ete label sg sh bg bh =
    let hg = build_msg_buffers-Holds got g t sg bg in
    let hh = build_msg_buffers-Holds got' h u sh bh in
    let head : Bytes = request_header (req_size g) 280 ete label in
    let req : Bytes = head ++ encode_avps (origin g) in
    let long : 20 ≤ length req = omega arith in
    let back : Bytes = answer_header (ans_size h) req in
    let body : List Avp = std_avp 268 (set_4bytes 2001) ∷ origin h in
    let ans : Bytes = back ++ encode_avps body in
    let twenty = (length-answer h req 2001 long).0 in
    (
      req,
      ans,
      dwr_lem g t ete label sg hg,
      (
        sent-IsFrame req _ refl long (omega (arith, short_origin g sg)),
        process_dw-accepts (length req) head (origin g) true refl (origin_base g sg) (omega arith),
      ),
      answer_lem h u req 2001 sh hh long (omega arith),
      (
        answer-IsFrame h req 2001 sh long,
        process_dw-accepts (length ans) back body false twenty (answer_base h sh) (omega arith),
      ),
      refl,
      refl,
      refl,
    )

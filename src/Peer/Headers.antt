-- ===== src/Peer/Headers.antt =====
-- The headers of the messages that a peer sends.
use disc.Base.{
  ℕ, ◌+◌, ◌*◌, ◌/◌, ◌%◌, ◌^◌, ◌<◌, ◌≤◌, ◌≡◌, refl, sym, ap, ◌∙◌, true, [], ◌∷◌, ◌++◌, ◌==◌, ==→eq,
  append_assoc, All, length, length-append, drop, take_all, drop_all, drop-drop, length-drop,
  le→leb, bit_or, arith,
}
use disc.Base.Bits.{holds_from, every_byte}
use disc.Utils.{Bytes, to_32x_len}
use disc.Msg.Wire.{ok, set_3bytes, set_4bytes, store_word, write, IsByte}
use disc.Msg.Build.{avp_header, has_vendor}
use disc.Msg.Build.Encode.{padding, encode_avp}
use disc.Peer.Sent.{
  or_bytes, or_word, finish_req, stamp_request, masked_word, word_of, fill_response,
}
use disc.Peer.Parts.{std_avp}
use disc.Tcp.Frames.{length-take}
use disc.Peer.Standard.{blank_header, no_number}

zero_or_table : holds_from (λ c. bit_or 0 c == c) 0 256 ≡ true
unfolding holds_from
zero_or_table = refl

pub zero_or : (c : ℕ) → c < 256 → bit_or 0 c ≡ c
zero_or c h = ==→eq (bit_or 0 c) c (every_byte (λ d. bit_or 0 d == d) c zero_or_table h)

-- A write over the bytes `b`
pub write_over :
    (a b c bs : Bytes)
    → length bs ≡ length b
    → write (a ++ (b ++ c)) (length a) bs ≡ ok (a ++ (bs ++ c))
unfolding write
write_over a b c bs e =
    let fits =
      le→leb (length a + length bs) (length (a ++ (b ++ c)))
        (omega (arith, length-append a (b ++ c), length-append b c)) in
    let behind : drop (length a + length bs) (a ++ (b ++ c)) ≡ c =
      sym (drop-drop (length bs) (length a) (a ++ (b ++ c)))
      ∙ ap (drop (length bs)) (drop_all a (b ++ c))
      ∙ ap (λ k. drop k (b ++ c)) e
      ∙ drop_all b c in
    rw (fits, take_all, behind) refl

-- The version and the length
or_length : (n : ℕ) → n < 2 ^ 24 → or_bytes (1 ∷ 0 ∷ 0 ∷ 0 ∷ []) (set_4bytes n) ≡ 1 ∷ set_3bytes n
unfolding or_bytes
or_length n h =
    let top : n / 2 ^ 24 % 256 ≡ 0 = omega arith in
    rw
      (
        top,
        zero_or (n / 2 ^ 16 % 256) (omega arith),
        zero_or (n / 2 ^ 8 % 256) (omega arith),
        zero_or (n % 256) (omega arith),
      )
      refl

-- A request with the ids of its transaction
abbrev pub request_header : ℕ → ℕ → ℕ → ℕ → Bytes
request_header len code ete label =
    1 ∷ set_3bytes len
    ++ (0x80 ∷ set_3bytes code ++ (0 ∷ 0 ∷ 0 ∷ 0 ∷ [] ++ (store_word label ++ store_word ete)))

pub finished :
    (len code v : ℕ) (rest : Bytes)
    → len < 2 ^ 24
    → or_bytes (0x80 ∷ 0 ∷ 0 ∷ 0 ∷ []) (store_word code) ≡ 0x80 ∷ set_3bytes v
    → finish_req len code (blank_header 0x80 ++ rest)
      ≡ ok (
          (1 ∷ set_3bytes len)
          ++ ((0x80 ∷ set_3bytes v) ++ (0 ∷ 0 ∷ 0 ∷ 0 ∷ 0 ∷ 0 ∷ 0 ∷ 0 ∷ 0 ∷ 0 ∷ 0 ∷ 0 ∷ rest)))
unfolding finish_req or_word
finished len code v rest small e =
    let zeros : Bytes = 0 ∷ 0 ∷ 0 ∷ 0 ∷ 0 ∷ 0 ∷ 0 ∷ 0 ∷ 0 ∷ 0 ∷ 0 ∷ 0 ∷ rest in
    let first =
      write_over [] (1 ∷ 0 ∷ 0 ∷ 0 ∷ []) ((0x80 ∷ 0 ∷ 0 ∷ 0 ∷ []) ++ zeros) (1 ∷ set_3bytes len)
        refl in
    let second =
      write_over (1 ∷ set_3bytes len) (0x80 ∷ 0 ∷ 0 ∷ 0 ∷ []) zeros (0x80 ∷ set_3bytes v) refl in
    rw (or_length len small, first) (rw (e, second) refl)

pub stamped :
    (len v ete label : ℕ) (rest : Bytes)
    → stamp_request ete label (
        (1 ∷ set_3bytes len)
        ++ ((0x80 ∷ set_3bytes v) ++ (0 ∷ 0 ∷ 0 ∷ 0 ∷ 0 ∷ 0 ∷ 0 ∷ 0 ∷ 0 ∷ 0 ∷ 0 ∷ 0 ∷ rest)))
      ≡ ok (request_header len v ete label ++ rest)
unfolding stamp_request
stamped len v ete label rest =
    let front : Bytes = (1 ∷ set_3bytes len) ++ ((0x80 ∷ set_3bytes v) ++ (0 ∷ 0 ∷ 0 ∷ 0 ∷ [])) in
    let four : Bytes = 0 ∷ 0 ∷ 0 ∷ 0 ∷ [] in
    let first = write_over (front ++ four) four rest (store_word ete) refl in
    let second = write_over front four (store_word ete ++ rest) (store_word label) refl in
    rw first second

-- The same for a buffer that is given otherwise.
write_mid :
    (buf a b c bs : Bytes) (p : ℕ)
    → buf ≡ a ++ (b ++ c)
    → p ≡ length a
    → length bs ≡ length b
    → write buf p bs ≡ ok (a ++ (bs ++ c))
write_mid buf a b c bs p e at l = rw (e, at) (write_over a b c bs l)

or_masked :
    (w : Bytes)
    → length w ≡ 4
    → All IsByte w
    → or_bytes (0 ∷ 0 ∷ 0 ∷ 0 ∷ []) (masked_word w) ≡ masked_word w
unfolding or_bytes
or_masked (a ∷ b ∷ c ∷ d ∷ []) l (ha, (hb, (hc, (hd, h)))) =
    rw (zero_or b hb, zero_or c hc, zero_or d hd) refl
or_masked (a ∷ b ∷ c ∷ d ∷ e ∷ w) l h = absurd (omega arith)
or_masked (a ∷ b ∷ c ∷ []) l h = absurd (omega arith)
or_masked (a ∷ b ∷ []) l h = absurd (omega arith)
or_masked (a ∷ []) l h = absurd (omega arith)
or_masked [] l h = absurd (omega arith)

or_answer : (n : ℕ) → or_bytes (1 ∷ 0 ∷ 0 ∷ 0 ∷ []) (masked_word (set_4bytes n)) ≡ 1 ∷ set_3bytes n
unfolding or_bytes
or_answer n =
    rw
      (
        zero_or (n / 2 ^ 16 % 256) (omega arith),
        zero_or (n / 2 ^ 8 % 256) (omega arith),
        zero_or (n % 256) (omega arith),
      )
      refl

pub length-masked_word : (w : Bytes) → length (masked_word w) ≡ length w
length-masked_word [] = refl
length-masked_word (c ∷ cs) = refl

-- An answer to a request: the command code and the ids are those of the request.
abbrev pub answer_header : ℕ → Bytes → Bytes
answer_header len req =
    (1 ∷ set_3bytes len)
    ++ (masked_word (word_of 1 req) ++ (word_of 2 req ++ (word_of 3 req ++ word_of 4 req)))

pub length-word : (i : ℕ) (req : Bytes) → 4 * i + 4 ≤ length req → length (word_of i req) ≡ 4
length-word i req h = length-take 4 (drop (4 * i) req) (omega (arith, length-drop (4 * i) req))

pub fill_response_lem :
    (req rest : Bytes) (code : ℕ)
    → 20 ≤ length req
    → All IsByte (word_of 1 req)
    → (let res : Bytes = blank_header 0 ++ (encode_avp (std_avp 268 no_number) ++ rest) in
        fill_response res req code
        ≡ ok (
            answer_header (length res) req ++ (encode_avp (std_avp 268 (set_4bytes code)) ++ rest)))
unfolding fill_response or_word encode_avp avp_header padding has_vendor to_32x_len
fill_response_lem req rest code long bytes =
    let four : Bytes = 0 ∷ 0 ∷ 0 ∷ 0 ∷ [] in
    let n = length (blank_header 0 ++ (encode_avp (std_avp 268 no_number) ++ rest)) in
    let w1 = word_of 1 req in
    let w2 = word_of 2 req in
    let w3 = word_of 3 req in
    let w4 = word_of 4 req in
    let l1 = length-word 1 req (omega arith) in
    let l2 = length-word 2 req (omega arith) in
    let l3 = length-word 3 req (omega arith) in
    let l4 = length-word 4 req (omega arith) in
    let lm : length (masked_word w1) ≡ 4 = length-masked_word w1 ∙ l1 in
    let avp : Bytes = set_4bytes 268 ++ (0x40 ∷ set_3bytes 12) in
    let tail : Bytes = avp ++ (set_4bytes code ++ rest) in
    let a : Bytes = (1 ∷ set_3bytes n) ++ masked_word w1 in
    let la : length a ≡ 8 = omega (arith, lm) in
    let lb : length (a ++ w2) ≡ 12 = omega (arith, la, l2, length-append a w2) in
    let lc : length ((a ++ w2) ++ w3) ≡ 16 = omega (arith, lb, l3, length-append (a ++ w2) w3) in
    let s0 = write_over (blank_header 0 ++ avp) four rest (set_4bytes code) refl in
    let s1 =
      write_over [] (1 ∷ 0 ∷ 0 ∷ 0 ∷ []) (four ++ (four ++ (four ++ (four ++ tail))))
        (1 ∷ set_3bytes n) refl in
    let s2 =
      write_over (1 ∷ set_3bytes n) four (four ++ (four ++ (four ++ tail))) (masked_word w1) lm in
    let s3 =
      write_mid ((1 ∷ set_3bytes n) ++ (masked_word w1 ++ (four ++ (four ++ (four ++ tail))))) a
        four (four ++ (four ++ tail)) w2 8
        (sym (append_assoc (1 ∷ set_3bytes n) (masked_word w1) (four ++ (four ++ (four ++ tail)))))
        (sym la) l2 in
    let s4 =
      write_mid (a ++ (w2 ++ (four ++ (four ++ tail)))) (a ++ w2) four (four ++ tail) w3 12
        (sym (append_assoc a w2 (four ++ (four ++ tail)))) (sym lb) l3 in
    let s5 =
      write_mid ((a ++ w2) ++ (w3 ++ (four ++ tail))) ((a ++ w2) ++ w3) four tail w4 16
        (sym (append_assoc (a ++ w2) w3 (four ++ tail))) (sym lc) l4 in
    rw s0 (
      rw (or_answer n, s1)
        (rw (or_masked w1 l1 bytes, s2) (rw s3 (rw s4 (s5 ∙ ap ok (simp append_assoc))))))

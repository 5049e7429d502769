-- ===== src/Peer/Sent.antt =====
-- transport/peer.c: the bytes of the messages that send_dwr, send_dwa, send_dpr, send_dpa, send_cer and
-- send_cea write, on a little-endian machine. A buffer is its parts, one behind another.
use disc.Base.{ℕ, ◌+◌, ◌*◌, Bool, [], ◌∷◌, ◌++◌, bit_or, length, take, drop, if◌then◌else◌}
use disc.Utils.{Bytes}
use disc.Msg.Wire.{Result, ◌>>=◌, set_4bytes, store_word, write}
use disc.Peer.Buffers.{Buffers, allocated}

abbrev pub ce_msg_code : ℕ
ce_msg_code = 0x01010000

abbrev pub dw_msg_code : ℕ
dw_msg_code = 0x18010000

abbrev pub dp_msg_code : ℕ
dp_msg_code = 0x1a010000

unfoldable pub or_bytes : Bytes → Bytes → Bytes
or_bytes (a ∷ cs) (b ∷ ds) = bit_or a b ∷ or_bytes cs ds
or_bytes _ _ = []

-- `((unsigned int*)buf)[i] |= v`, with the bytes of `v`
unfoldable pub or_word : ℕ → Bytes → Bytes → Result Bytes
or_word i v buf = write buf (4 * i) (or_bytes (take 4 (drop (4 * i) buf)) v)

-- The length and the command code of a request of `len` bytes
unfoldable pub finish_req : ℕ → ℕ → Bytes → Result Bytes
finish_req len code buf = do buf ← or_word 0 (set_4bytes len) buf; or_word 1 (store_word code) buf

-- What internal_send_request writes: the end-to-end id and the label of the transaction.
unfoldable pub stamp_request : ℕ → ℕ → Bytes → Result Bytes
stamp_request ete label buf = do
  buf ← write buf 16 (store_word ete)
  write buf 12 (store_word label)

-- `MASK_MSG_CODE&`, on the bytes of a word
abbrev pub masked_word : Bytes → Bytes
masked_word [] = []
masked_word (c ∷ cs) = 0 ∷ cs

abbrev pub word_of : ℕ → Bytes → Bytes
word_of i buf = take 4 (drop (4 * i) buf)

-- What internal_send_response writes into the answer to `req`.
unfoldable pub fill_response : Bytes → Bytes → ℕ → Result Bytes
fill_response res req res_code = do
  buf ← write res 28 (set_4bytes res_code)
  buf ← or_word 0 (masked_word (set_4bytes (length res))) buf
  buf ← or_word 1 (masked_word (word_of 1 req)) buf
  buf ← write buf 8 (word_of 2 req)
  buf ← write buf 12 (word_of 3 req)
  write buf 16 (word_of 4 req)

-- The messages, with the ids of a transaction for a request; `got` says whether there is memory.
unfoldable pub dwr : Bool → Buffers → ℕ → ℕ → Result Bytes
dwr got t ete label = do
  buf ← allocated got (finish_req (length t.std_req) dw_msg_code t.std_req)
  stamp_request ete label buf

unfoldable pub dwa : Bool → Buffers → Bytes → ℕ → Result Bytes
dwa got t req result_code = allocated got (fill_response t.std_ans req result_code)

unfoldable pub dpr : Bool → Buffers → ℕ → ℕ → ℕ → Result Bytes
dpr got t disc_cause ete label = do
  buf ← allocated got (finish_req (length t.std_req + length t.dpr_avp) dp_msg_code t.std_req)
  avp ← or_word 2 (set_4bytes disc_cause) t.dpr_avp
  stamp_request ete label (buf ++ avp)

unfoldable pub dpa : Bool → Buffers → Bytes → ℕ → Result Bytes
dpa got t req result_code = allocated got (fill_response t.std_ans req result_code)

-- The AVPs of a capabilities exchange with the local address
unfoldable pub with_address : Bool → Buffers → Bytes → Result Bytes
with_address ipv6 t local_ip = write (if ipv6 then t.ce_avp_ipv6 else t.ce_avp_ipv4) 8 local_ip

unfoldable pub cer : Bool → Bool → Buffers → Bytes → ℕ → ℕ → Result Bytes
cer got ipv6 t local_ip ete label = do
  avps ← allocated got (with_address ipv6 t local_ip)
  buf ← finish_req (length t.std_req + length avps) ce_msg_code t.std_req
  stamp_request ete label (buf ++ avps)

unfoldable pub cea : Bool → Bool → Buffers → Bytes → Bytes → ℕ → Result Bytes
cea got ipv6 t local_ip req result_code = do
  avps ← allocated got (with_address ipv6 t local_ip)
  fill_response (t.std_ans ++ avps) req result_code

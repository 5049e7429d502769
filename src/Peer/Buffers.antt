-- ===== src/Peer/Buffers.antt =====
-- transport/peer.c: build_msg_buffers, the parts that the messages of a peer are made of.
use disc.Base.{
  ℕ, ◌+◌, ◌*◌, ◌%◌, ◌^◌, Bool, not, List, [], ◌∷◌, ◌++◌, ◌==◌, if◌then◌else◌, bit_and, length,
  replicate, take, drop,
}
use disc.Utils.{Bytes, to_32x_len}
use disc.Msg.Wire.{Result, ok, err, ◌>>=◌, set_3bytes, set_4bytes, write}
use disc.Msg.Build.{aaa_msg_hdr_size}
use disc.Peer.Capabilities.{aaa_app_relay, does_auth, does_acct}

-- The global variables; a module has its flags and the id of its application.
pub record Globals : Type 0 where
  pub aaa_identity : Bytes
  pub aaa_realm : Bytes
  pub product_name : Bytes
  pub vendor_id : ℕ
  pub modules : List (ℕ × ℕ)
  pub do_relay : Bool

-- The buffers of `struct p_table`
pub record Buffers : Type 0 where
  pub std_req : Bytes
  pub std_ans : Bytes
  pub ce_avp_ipv4 : Bytes
  pub ce_avp_ipv6 : Bytes
  pub dpr_avp : Bytes

-- A write at `ptr`, which then moves on by `n`.
unfoldable pub put : Bytes → ℕ → Bytes × ℕ → Result (Bytes × ℕ)
put bs n (buf, ptr) = do buf ← write buf ptr bs; ok (buf, ptr + n)

-- The code and the length of an AVP; the flags `1<<6` are stored over the first byte of the word that
-- holds the length.
abbrev pub avp_words : ℕ → ℕ → Bytes
avp_words code len = set_4bytes code ++ (0x40 ∷ set_3bytes (8 + len))

unfoldable pub put_avp : ℕ → Bytes → Bytes × ℕ → Result (Bytes × ℕ)
unfolding put
put_avp code value c = do
  c ← put (avp_words code (length value)) 8 c
  put value (to_32x_len (length value)) c

-- One with four bytes that stay zero
abbrev pub put_empty_avp : ℕ → Bytes × ℕ → Result (Bytes × ℕ)
put_empty_avp code c = put (avp_words code 4) 12 c

abbrev pub zeroed : ℕ → Bytes × ℕ
zeroed len = (replicate len 0, 0)

abbrev pub std_req_len : Globals → ℕ
std_req_len g =
    (aaa_msg_hdr_size
      + (8 + to_32x_len (length g.aaa_identity))
      + (8 + to_32x_len (length g.aaa_realm)))
    % 2 ^ 32

unfoldable pub build_std_req : Globals → Result Bytes
build_std_req g = do
  c ← put (1 ∷ 0 ∷ 0 ∷ 0 ∷ 0x80 ∷ []) aaa_msg_hdr_size (zeroed (std_req_len g))
  c ← put_avp 264 g.aaa_identity c
  (buf, ptr) ← put_avp 296 g.aaa_realm c
  ok buf

abbrev pub std_ans_len : Globals → ℕ
std_ans_len g =
    (aaa_msg_hdr_size
      + 12
      + (8 + to_32x_len (length g.aaa_identity))
      + (8 + to_32x_len (length g.aaa_realm)))
    % 2 ^ 32

unfoldable pub build_std_ans : Globals → Result Bytes
build_std_ans g = do
  c ← put (1 ∷ 0 ∷ 0 ∷ 0 ∷ 0 ∷ []) aaa_msg_hdr_size (zeroed (std_ans_len g))
  c ← put_empty_avp 268 c
  c ← put_avp 264 g.aaa_identity c
  (buf, ptr) ← put_avp 296 g.aaa_realm c
  ok buf

abbrev pub has : ℕ → ℕ → Bool
has flags flag = not (bit_and flags flag == 0)

-- The applications of the modules with the flag, and the relay
unfoldable pub app_ids : ℕ → List (ℕ × ℕ) → Bool → List ℕ
app_ids flag [] do_relay = if do_relay then aaa_app_relay ∷ [] else []
app_ids flag ((flags, app_id) ∷ mods) do_relay =
    let rest = app_ids flag mods do_relay in if has flags flag then app_id ∷ rest else rest

unfoldable pub put_app_ids : ℕ → List ℕ → Bytes × ℕ → Result (Bytes × ℕ)
put_app_ids code [] c = ok c
put_app_ids code (id ∷ ids) c = do c ← put_avp code (set_4bytes id) c; put_app_ids code ids c

abbrev pub auth_ids : Globals → List ℕ
auth_ids g = app_ids does_auth g.modules g.do_relay

abbrev pub acct_ids : Globals → List ℕ
acct_ids g = app_ids does_acct g.modules g.do_relay

abbrev pub ce_avp_len : Globals → ℕ
ce_avp_len g =
    (12
      + 12
      + (8 + to_32x_len (length g.product_name))
      + length (auth_ids g) * 12
      + length (acct_ids g) * 12)
    % 2 ^ 32

-- The flags of the product name are not set.
unfoldable pub build_ce_avp_ipv4 : Globals → Result Bytes
build_ce_avp_ipv4 g = do
  c ← put_empty_avp 257 (zeroed (ce_avp_len g))
  c ← put_avp 266 (set_4bytes g.vendor_id) c
  c ← put (set_4bytes 269 ++ set_4bytes (8 + length g.product_name)) 8 c
  c ← put g.product_name (to_32x_len (length g.product_name)) c
  c ← put_app_ids 258 (auth_ids g) c
  (buf, ptr) ← put_app_ids 259 (acct_ids g) c
  ok buf

-- The new length is stored over the flags of the first AVP.
unfoldable pub build_ce_avp_ipv6 : Bytes → Result Bytes
build_ce_avp_ipv6 ipv4 = do
  buf ← write (replicate (length ipv4 + 12) 0) 0 (take 8 ipv4)
  buf ← write buf 4 (set_4bytes 24)
  write buf 24 (drop 12 ipv4)

unfoldable pub build_dpr_avp : Result Bytes
build_dpr_avp = do (buf, ptr) ← put_empty_avp 273 (zeroed 12); ok buf

-- `if (!s) goto error`
abbrev pub allocated : Bool → Result Bytes → Result Bytes
allocated got r = if got then r else err

-- `got n` says whether the allocation `n` succeeds.
unfoldable pub build_msg_buffers : (ℕ → Bool) → Globals → Result Buffers
build_msg_buffers got g = do
  std_req ← allocated (got 0) (build_std_req g)
  std_ans ← allocated (got 1) (build_std_ans g)
  ipv4 ← allocated (got 2) (build_ce_avp_ipv4 g)
  ipv6 ← allocated (got 3) (build_ce_avp_ipv6 ipv4)
  dpr_avp ← allocated (got 4) build_dpr_avp
  ok (record {
    std_req = std_req;
    std_ans = std_ans;
    ce_avp_ipv4 = ipv4;
    ce_avp_ipv6 = ipv6;
    dpr_avp = dpr_avp;
  })

-- ===== src/Peer/Process.antt =====
-- transport/peer.c: `process_dw` and `process_dp`.
use disc.Base.{ℕ, ◌^◌, Bool, false, ◌==◌, if◌then◌else◌, bit_or, drop}
use disc.Utils.{Bytes}
use disc.Msg.Wire.{ok, get_4bytes}
use disc.Msg.Build.{aaa_msg_hdr_size}
use disc.Peer.{aaa_success}
use disc.Peer.Scan.{Flow, on, leave, outside, Outcome, for_all_avps, conclude}

abbrev pub set_bit_in_mask : ℕ → ℕ → ℕ
set_bit_in_mask mask pos = bit_or mask (2 ^ pos)

-- The case of the result code; `leave` is the jump to `error`.
unfoldable pub result_code : Bytes → ℕ → Flow ℕ Bool
result_code avp mask = elim (get_4bytes (drop 8 avp)) [
  | ok n ↦ if n == aaa_success then on (set_bit_in_mask mask 0) else leave false
  | _ ↦ outside
]

unfoldable pub dw_avp : ℕ → Bytes → ℕ → Flow ℕ Bool
dw_avp code avp mask =
    if code == 268
    then result_code avp mask
    else if code == 264
    then on (set_bit_in_mask mask 1)
    else if code == 296
    then on (set_bit_in_mask mask 2)
    else on mask

unfoldable pub dp_avp : ℕ → Bytes → ℕ → Flow ℕ Bool
dp_avp code avp mask = if code == 273 then on (set_bit_in_mask mask 3) else dw_avp code avp mask

-- The results: `false` is -1, `true` is 1.
unfoldable pub process_dw : ℕ → Bytes → Bool → Outcome Bool
process_dw fuel buf is_req =
    conclude (λ mask. mask == (if is_req then 0x6 else 0x7)) (λ r. r)
      (for_all_avps dw_avp fuel (drop aaa_msg_hdr_size buf) 0)

unfoldable pub process_dp : ℕ → Bytes → Bool → Outcome Bool
process_dp fuel buf is_req =
    conclude (λ mask. mask == (if is_req then 0xe else 0x7)) (λ r. r)
      (for_all_avps dp_avp fuel (drop aaa_msg_hdr_size buf) 0)

-- ===== src/Tests/Reads.antt =====
-- Messages that peers send each other, as they are read, and the witnesses.
use disc.Base.{
  ℕ, ◌≡◌, ◌≤◌, refl, true, false, none, List, [], ◌∷◌, ◌++◌, replicate, length, All, arith,
}
use disc.Utils.{Bytes, to_32x_len}
use disc.Msg.{Avp, data_type}
use disc.Msg.Build.{avp_header, has_vendor}
use disc.Msg.Build.Encode.{encode_avp, encode_avps, padding}
use disc.Peer.Scan.{returned, running, for_all_avps, scan_round, get_avp_len, conclude}
use disc.Msg.Wire.{get_4bytes}
use disc.Peer.Encoded.{Fits}
use disc.Peer.Process.{process_dw, dw_avp}
use disc.Peer.Accepts.{all_success, has, IsBase, dw_accepts, process_dw-accepts}
use disc.Peer.Capabilities.{Config, Mallocs}

abbrev avp_of : ℕ → Bytes → Avp
avp_of code bytes = record {
  addr = 0;
  code = code;
  flags = 0x40;
  type = data_type;
  vendor_id = 0;
  payload = bytes;
  free_it = false;
}

abbrev hdr : Bytes
hdr = replicate 20 0

-- A watchdog answer with AAA_SUCCESS
abbrev watchdog_answer : List Avp
watchdog_answer =
    avp_of 268 (0 ∷ 0 ∷ 7 ∷ 209 ∷ []) ∷ avp_of 264 (b'h' ∷ []) ∷ avp_of 296 (b'r' ∷ []) ∷ []

abbrev disconnect_request : List Avp
disconnect_request =
    avp_of 264 (b'h' ∷ []) ∷ avp_of 296 (b'r' ∷ []) ∷ avp_of 273 (0 ∷ 0 ∷ 0 ∷ 1 ∷ []) ∷ []

watchdog-Fits : All (λ avp. Fits avp × IsBase avp) watchdog_answer
unfolding has_vendor
watchdog-Fits = (
  (record { code = omega arith; size = omega arith }, (refl, λ e. omega arith)),
  (
    (record { code = omega arith; size = omega arith }, (refl, λ e. cc)),
    ((record { code = omega arith; size = omega arith }, (refl, λ e. cc)), tt),
  ),
)

disconnect-Fits : All (λ avp. Fits avp × IsBase avp) disconnect_request
unfolding has_vendor
disconnect-Fits = (
  (record { code = omega arith; size = omega arith }, (refl, λ e. cc)),
  (
    (record { code = omega arith; size = omega arith }, (refl, λ e. cc)),
    ((record { code = omega arith; size = omega arith }, (refl, λ e. cc)), tt),
  ),
)

watchdog-length : length (hdr ++ encode_avps watchdog_answer) ≤ 60
unfolding encode_avps encode_avp avp_header padding to_32x_len has_vendor
watchdog-length = omega arith

disconnect-length : length (hdr ++ encode_avps disconnect_request) ≤ 60
unfolding encode_avps encode_avp avp_header padding to_32x_len has_vendor
disconnect-length = omega arith

process_dw-accepts_example :
    process_dw 60 (hdr ++ encode_avps watchdog_answer) false ≡ returned true
unfolding dw_accepts all_success has
process_dw-accepts_example =
    process_dw-accepts 60 hdr watchdog_answer false refl watchdog-Fits watchdog-length

-- An AVP of length 0: the loop does not end.
abbrev no_length : Bytes
no_length = hdr ++ (0 ∷ 0 ∷ 0 ∷ 1 ∷ 0 ∷ 0 ∷ 0 ∷ 0 ∷ [])

runs_on : process_dw 28 no_length true ≡ running
unfolding process_dw conclude for_all_avps scan_round get_4bytes dw_avp get_avp_len to_32x_len
runs_on = refl

abbrev relay : Config
relay = record { do_relay = true; modules = λ id. none }

abbrev enough : Mallocs
enough = record { auth = true; acct = true; realm = true }

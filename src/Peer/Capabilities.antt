-- ===== src/Peer/Capabilities.antt =====
-- transport/peer.c: `process_ce`.
use disc.Base.{
  ℕ, ◌+◌, ◌-◌, ◌%◌, ◌^◌, Bool, false, not, ◌||◌, Option, none, some, List, [], ◌∷◌, ◌++◌, ◌==◌, leb,
  if◌then◌else◌, bit_and, drop, take, length,
}
use disc.Utils.{Bytes}
use disc.Msg.Wire.{Result, ok, ◌>>=◌, get_byte, get_4bytes}
use disc.Msg.Build.{aaa_msg_hdr_size, avp_hdr_size}
use disc.Peer.{aaa_success}
use disc.Peer.Scan.{
  Flow, on, leave, outside, Outcome, returned, faulted, running, Scan, ended, left, overrun,
  unfinished, for_all_avps,
}
use disc.Peer.Process.{set_bit_in_mask}

-- `do_relay`, and what `find_module` returns: the flags of the module for an application, `none` for
-- NULL.
pub record Config : Type 0 where
  pub do_relay : Bool
  pub modules : ℕ → Option ℕ

-- The variables of the function; `realm` is the buffer from the pointer on.
pub record Variables : Type 0 where
  pub mask : ℕ
  pub code : ℕ
  pub auth_app_ids : List ℕ
  pub acct_app_ids : List ℕ
  pub realm : Option Bytes

abbrev pub max_appid_per_peer : ℕ
max_appid_per_peer = 64

abbrev pub aaa_app_relay : ℕ
aaa_app_relay = 0xffffffff

abbrev pub no_common_application : ℕ
no_common_application = 5010

abbrev pub missing_avp : ℕ
missing_avp = 5005

abbrev pub does_auth : ℕ
does_auth = 1

abbrev pub does_acct : ℕ
does_acct = 2

abbrev pub has_flag : Option ℕ → ℕ → Bool
has_flag none flag = false
has_flag (some flags) flag = not (bit_and flags flag == 0)

-- Is the application one that is served here?
unfoldable pub is_common : Config → ℕ → ℕ → Bool
is_common c flag id = c.do_relay || ((id == aaa_app_relay) || has_flag (c.modules id) flag)

abbrev pub masked : ℕ → Variables → Variables
masked pos v = record v { mask = set_bit_in_mask v.mask pos }

abbrev pub result_of : Bool → ℕ → ℕ
result_of common code = if common then aaa_success else code

-- The cases of the application ids
unfoldable pub acct_app_id : Config → Bytes → Variables → Flow Variables ℕ
acct_app_id c avp v =
    if length v.acct_app_ids == max_appid_per_peer then on v else elim (get_4bytes (drop 8 avp)) [
      | ok id ↦ on (record v {
        acct_app_ids = v.acct_app_ids ++ (id ∷ []);
        code = result_of (is_common c does_acct id) v.code;
      })
      | _ ↦ outside
    ]

unfoldable pub auth_app_id : Config → Bytes → Variables → Flow Variables ℕ
auth_app_id c avp v =
    if length v.auth_app_ids == max_appid_per_peer then on v else elim (get_4bytes (drop 8 avp)) [
      | ok id ↦ on (record v {
        auth_app_ids = v.auth_app_ids ++ (id ∷ []);
        code = result_of (is_common c does_auth id) v.code;
      })
      | _ ↦ outside
    ]

-- The result code stands behind the header, which the flags tell the size of.
abbrev pub read_result : Bytes → Result ℕ
read_result avp = get_byte (drop 4 avp) >>= λ flags. get_4bytes (drop (avp_hdr_size flags) avp)

unfoldable pub ce_result : Bytes → Variables → Flow Variables ℕ
ce_result avp v = elim (read_result avp) [
  | ok n ↦ if n == aaa_success then on (record (masked 0 v) { code = n }) else leave n
  | _ ↦ outside
]

unfoldable pub ce_avp : Config → ℕ → Bytes → Variables → Flow Variables ℕ
ce_avp c code avp v =
    if code == 268
    then ce_result avp v
    else if code == 264
    then on (masked 1 v)
    else if code == 296
    then on (record (masked 2 v) { realm = some avp })
    else if code == 257
    then on (masked 3 v)
    else if code == 266
    then on (masked 4 v)
    else if code == 269
    then on (masked 5 v)
    else if code == 259
    then acct_app_id c avp v
    else if code == 258
    then auth_app_id c avp v
    else on v

abbrev pub fresh : Variables
fresh = record {
  mask = 0;
  code = no_common_application;
  auth_app_ids = [];
  acct_app_ids = [];
  realm = none;
}

-- What the function returns, and what it leaves in the peer if this is AAA_SUCCESS.
pub record CeResult : Type 0 where
  pub code : ℕ
  pub auth_ids : Option (List ℕ)
  pub acct_ids : Option (List ℕ)
  pub realm : Option Bytes

abbrev pub refused : ℕ → CeResult
refused code = record { code = code; auth_ids = none; acct_ids = none; realm = none }

-- The ids and a 0 behind them, if there are any and `shm_malloc` succeeds.
abbrev pub saved_ids : Bool → List ℕ → Option (List ℕ)
saved_ids got [] = none
saved_ids got (id ∷ ids) = if got then some ((id ∷ ids) ++ (0 ∷ [])) else none

-- The length of the data of an AVP, in unsigned arithmetic.
unfoldable pub data_len : Bytes → Result (ℕ × ℕ)
data_len avp = get_byte (drop 4 avp) >>= λ flags. get_4bytes (drop 4 avp) >>= λ n.
    ok (avp_hdr_size flags, (n % 2 ^ 24 + (2 ^ 32 - avp_hdr_size flags)) % 2 ^ 32)

-- The realm is copied, if `shm_malloc` succeeds.
unfoldable pub saved_realm : Bool → Option Bytes → Outcome (Option Bytes)
saved_realm got none = faulted
saved_realm got (some avp) = elim (data_len avp) [
  | ok (hdr, len) ↦
      if got
      then (if leb (hdr + len) (length avp)
          then returned (some (take len (drop hdr avp)))
          else faulted)
      else returned none
  | _ ↦ faulted
]

-- What the three calls of `shm_malloc` do.
pub record Mallocs : Type 0 where
  pub auth : Bool
  pub acct : Bool
  pub realm : Bool

-- Behind the loop, with the code after the test of the mask.
unfoldable pub save : Mallocs → Variables → ℕ → Outcome CeResult
save m v code =
    if code == aaa_success
    then elim (saved_realm m.realm v.realm) [
      | returned realm ↦ returned (record {
        code = code;
        auth_ids = saved_ids m.auth v.auth_app_ids;
        acct_ids = saved_ids m.acct v.acct_app_ids;
        realm = realm;
      })
      | faulted ↦ faulted
      | running ↦ running
    ]
    else returned (refused code)

unfoldable pub after_avps : Mallocs → Bool → Scan Variables ℕ → Outcome CeResult
after_avps m is_req (ended v) =
    save m v (if v.mask == (if is_req then 0x3e else 0x3f) then v.code else missing_avp)
after_avps m is_req (left code) = returned (refused code)
after_avps m is_req overrun = faulted
after_avps m is_req unfinished = running

unfoldable pub process_ce : Config → Mallocs → ℕ → Bytes → Bool → Outcome CeResult
process_ce c m fuel buf is_req =
    after_avps m is_req (for_all_avps (ce_avp c) fuel (drop aaa_msg_hdr_size buf) fresh)

-- ===== src/Msg.antt =====
-- diameter_msg/diameter_msg.h: the data that messages are made of.
pub mod Wire
pub mod Create
pub mod AvpList
pub mod Build
pub mod Translate
pub mod New
use disc.Base.{ℕ, Bool, Option, none, List, []}
use disc.Utils.{Bytes}

pub data DataType : Type 0 where
  data_type string_type address_type integer32_type integer64_type time_type : DataType

-- `AVPDataStatus`
pub data DataStatus : Type 0 where
  duplicate_data dont_free_data free_data : DataStatus

-- `AAAReturnCode`, the values that the modelled functions return.
pub data ReturnCode : Type 0 where
  err_success err_failure err_parameter : ReturnCode

-- `struct avp`. `addr` is the address of the structure; `data` holds the `data.len` bytes at `data.s`.
pub record Avp : Type 0 where
  pub addr : ℕ
  pub code : ℕ
  pub flags : ℕ
  pub type : DataType
  pub vendor_id : ℕ
  pub payload : Bytes
  pub free_it : Bool

-- The pointers of a message to its AVPs, as addresses.
pub record Shortcuts : Type 0 where
  pub session_id : Option ℕ
  pub orig_host : Option ℕ
  pub orig_realm : Option ℕ
  pub dest_host : Option ℕ
  pub dest_realm : Option ℕ
  pub res_code : Option ℕ
  pub auth_ses_state : Option ℕ

-- `AAAMessage`. `avps` is the list from `avpList.head` to `avpList.tail`; `buf` is what `buf.s` points
-- to, `none` for NULL.
pub record Message : Type 0 where
  pub flags : ℕ
  pub command_code : ℕ
  pub application_id : ℕ
  pub endtoend_id : ℕ
  pub hopbyhop_id : ℕ
  pub shortcuts : Shortcuts
  pub avps : List Avp
  pub buf : Option Bytes

-- A message after `memset(msg, 0, sizeof(AAAMessage))`.
abbrev pub zero_message : Message
zero_message = record {
  flags = 0;
  command_code = 0;
  application_id = 0;
  endtoend_id = 0;
  hopbyhop_id = 0;
  shortcuts = record {
    session_id = none;
    orig_host = none;
    orig_realm = none;
    dest_host = none;
    dest_realm = none;
    res_code = none;
    auth_ses_state = none;
  };
  avps = [];
  buf = none;
}

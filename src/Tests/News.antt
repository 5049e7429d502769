-- ===== src/Tests/News.antt =====
-- New messages, and a request that came through a proxy.
use disc.Base.{ℕ, ◌+◌, ◌≡◌, refl, false, none, some, [], ◌∷◌, bit_and, bit_or, arith}
use disc.Utils.{Bytes}
use disc.Shm.{Allocator, Shm, IsFresh}
use disc.Msg.{data_type, Avp, Message, zero_message}
use disc.Msg.AvpList.{forward_search, find_matching_avp, first_match}
use disc.Msg.AvpList.Order.{Distinct}
use disc.Msg.New.{made, head_of, new_message}
use disc.Msg.New.Proxies.{IsNotMade, new_message-IsNotMade}
use disc.Msg.New.Requests.{text_avp}
use disc.Msg.New.Answers.{success_avp, new_message_answer}

abbrev addresses : Allocator
addresses i = some (i + 1)

addresses-IsFresh : IsFresh addresses
addresses-IsFresh i j p e f = ground arith

abbrev shm : Shm
shm = record { calls = 0; live = 0 }

abbrev identity : Bytes
identity = b'h' ∷ []

abbrev realm : Bytes
realm = b'r' ∷ []

abbrev session_id : Bytes
session_id = b'h' ∷ b';' ∷ b'1' ∷ []

abbrev other_avp : ℕ → ℕ → Avp
other_avp p code = record {
  addr = p;
  code = code;
  flags = 0x40;
  type = data_type;
  vendor_id = 0;
  payload = 1 ∷ [];
  free_it = false;
}

abbrev through_proxy : Message
through_proxy = record zero_message { avps = other_avp 100 263 ∷ other_avp 101 284 ∷ [] }

through_proxy-Distinct : Distinct through_proxy.avps
through_proxy-Distinct = ground arith

new_message-IsNotMade_example :
    IsNotMade (new_message addresses identity realm 1000 265 4 session_id (some through_proxy) shm)
new_message-IsNotMade_example =
    new_message-IsNotMade addresses identity realm session_id 1000 265 4 through_proxy shm
      (other_avp 100 263 ∷ []) [] (other_avp 101 284) through_proxy-Distinct refl (refl, tt) refl
      refl

abbrev direct : Message
direct = record zero_message {
  flags = 0xC0;
  hopbyhop_id = 5;
  endtoend_id = 6;
  avps = other_avp 100 263 ∷ [];
}

direct_search : find_matching_avp direct (head_of direct.avps) 284 0 forward_search ≡ none
unfolding find_matching_avp head_of first_match
direct_search = refl

new_message_answer_example :
    new_message addresses identity realm 1 265 4 session_id (some direct) shm
    ≡ made
        (record zero_message {
          flags = bit_or 0 (bit_and 0xC0 0x40);
          command_code = 265;
          application_id = 4;
          endtoend_id = 6;
          hopbyhop_id = 5;
          shortcuts = record (zero_message.shortcuts) {
            session_id = some 2;
            orig_host = some 3;
            orig_realm = some 4;
            res_code = some 5;
          };
          avps =
              text_avp 2 263 session_id
              ∷ success_avp 5
              ∷ text_avp 3 264 identity
              ∷ text_avp 4 296 realm
              ∷ [];
        })
        (record { calls = 6; live = 6 })
new_message_answer_example =
    new_message_answer addresses identity realm session_id 0 265 4 1 2 3 4 5 6 direct shm
      (omega arith) (omega arith) (omega arith) addresses-IsFresh refl refl refl refl refl refl
      direct_search

-- ===== src/Msg/New/Answers.antt =====
-- `AAANewMessage` for the answer to a request without proxy-info AVPs.
use disc.Base.{
  ℕ, suc, ◌+◌, ◌<◌, ◌≡◌, ◌≢◌, ap, ◌∙◌, true, none, some, [], ◌∷◌, length, one_of, bit_and, bit_or,
  arith,
}
use disc.Utils.{Bytes}
use disc.Shm.{Allocator, Shm, shm_malloc, IsFresh}
use disc.Msg.{integer32_type, Avp, Message, zero_message}
use disc.Msg.Wire.{set_4bytes}
use disc.Msg.Create.{new_avp, create_avp, set_avp_fields}
use disc.Msg.AvpList.{
  forward_search, find_matching_avp, add_avp, insert_after, tail_of, set_shortcut,
}
use disc.Msg.New.{made, head_of, mirror, answer_to, for_request, identified, new_message}
use disc.Msg.New.Requests.{text_avp}

-- The result code AAA_SUCCESS, in data of its own.
abbrev pub success_avp : ℕ → Avp
success_avp p = record {
  addr = p;
  code = 268;
  flags = 0x40;
  type = integer32_type;
  vendor_id = 0;
  payload = set_4bytes 2001;
  free_it = true;
}

-- If no allocation fails and no address comes twice, `AAANewMessage` for a request without proxy-info
-- AVPs returns an answer with the ids of the request and of its flags only the P flag; its AVPs are
-- the session id, the result code AAA_SUCCESS, the host and the realm of the node, in this order, and
-- six blocks are allocated. None of the three texts may be empty, and one round of the loop is enough.
pub new_message_answer :
    (alloc : Allocator) (aaa_identity aaa_realm session_id : Bytes)
    (fuel command_code application_id p₀ p₁ p₂ p₃ p₄ p₅ : ℕ) (request : Message) (m : Shm)
    → 0 < length session_id
    → 0 < length aaa_identity
    → 0 < length aaa_realm
    → IsFresh alloc
    → alloc m.calls ≡ some p₀
    → alloc (m.calls + 1) ≡ some p₁
    → alloc (m.calls + 1 + 1) ≡ some p₂
    → alloc (m.calls + 1 + 1 + 1) ≡ some p₃
    → alloc (m.calls + 1 + 1 + 1 + 1) ≡ some p₄
    → alloc (m.calls + 1 + 1 + 1 + 1 + 1) ≡ some p₅
    → find_matching_avp request (head_of request.avps) 284 0 forward_search ≡ none
    → new_message alloc aaa_identity aaa_realm
        (suc fuel)
        command_code
        application_id
        session_id
        (some request)
        m
      ≡ made
          (record zero_message {
            flags = bit_or 0 (bit_and request.flags 0x40);
            command_code = command_code;
            application_id = application_id;
            endtoend_id = request.endtoend_id;
            hopbyhop_id = request.hopbyhop_id;
            shortcuts = record (zero_message.shortcuts) {
              session_id = some p₁;
              orig_host = some p₂;
              orig_realm = some p₃;
              res_code = some p₄;
            };
            avps =
                text_avp p₁ 263 session_id
                ∷ success_avp p₄
                ∷ text_avp p₂ 264 aaa_identity
                ∷ text_avp p₃ 296 aaa_realm
                ∷ [];
          })
          (record { calls = m.calls + 6; live = m.live + 6 })
unfolding new_message identified for_request answer_to mirror create_avp shm_malloc new_avp
    set_avp_fields one_of add_avp insert_after tail_of set_shortcut
new_message_answer alloc aaa_identity aaa_realm session_id fuel command_code application_id p₀ p₁ p₂
      p₃ p₄ p₅ request m hs hi hr f e₀ e₁ e₂ e₃ e₄ e₅ no_proxy =
    let ne : p₁ ≢ p₂ =
      λ same. absurd (omega (arith, f (m.calls + 1) (m.calls + 1 + 1) p₂ (e₁ ∙ ap some same) e₂)) in
    ground arith

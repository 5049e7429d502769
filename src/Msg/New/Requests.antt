-- ===== src/Msg/New/Requests.antt =====
-- `AAANewMessage` for a new request.
use disc.Base.{ℕ, ◌+◌, ◌<◌, ◌≡◌, ◌≢◌, ap, ◌∙◌, false, none, some, [], ◌∷◌, length, one_of, arith}
use disc.Utils.{Bytes}
use disc.Shm.{Allocator, Shm, shm_malloc, IsFresh}
use disc.Msg.{string_type, Avp, zero_message}
use disc.Msg.Create.{new_avp, create_avp, set_avp_fields}
use disc.Msg.AvpList.{add_avp, insert_after, tail_of, set_shortcut}
use disc.Msg.New.{made, for_request, identified, new_message}

-- An AVP with text that is not copied, as `AAANewMessage` creates them.
abbrev pub text_avp : ℕ → ℕ → Bytes → Avp
text_avp p code payload = record {
  addr = p;
  code = code;
  flags = 0x40;
  type = string_type;
  vendor_id = 0;
  payload = payload;
  free_it = false;
}

-- If no allocation fails and no address comes twice, `AAANewMessage` without a request returns a
-- message with the request flag, the given command and application, and exactly three AVPs in this
-- order: the session id, the host and the realm of the node, each mandatory and behind its shortcut;
-- four blocks are allocated. None of the three texts may be empty.
new_message_request :
    (alloc : Allocator) (aaa_identity aaa_realm session_id : Bytes)
    (fuel command_code application_id p₀ p₁ p₂ p₃ : ℕ) (m : Shm)
    → 0 < length session_id
    → 0 < length aaa_identity
    → 0 < length aaa_realm
    → IsFresh alloc
    → alloc m.calls ≡ some p₀
    → alloc (m.calls + 1) ≡ some p₁
    → alloc (m.calls + 1 + 1) ≡ some p₂
    → alloc (m.calls + 1 + 1 + 1) ≡ some p₃
    → new_message alloc aaa_identity aaa_realm fuel command_code application_id session_id none m
      ≡ made
          (record zero_message {
            flags = 0x80;
            command_code = command_code;
            application_id = application_id;
            shortcuts = record (zero_message.shortcuts) {
              session_id = some p₁;
              orig_host = some p₂;
              orig_realm = some p₃;
            };
            avps =
                text_avp p₁ 263 session_id
                ∷ text_avp p₂ 264 aaa_identity
                ∷ text_avp p₃ 296 aaa_realm
                ∷ [];
          })
          (record { calls = m.calls + 4; live = m.live + 4 })
unfolding new_message identified for_request create_avp shm_malloc new_avp set_avp_fields one_of
    add_avp insert_after tail_of set_shortcut
new_message_request alloc aaa_identity aaa_realm session_id fuel command_code application_id p₀ p₁
      p₂ p₃ m hs hi hr f e₀ e₁ e₂ e₃ =
    let ne : p₁ ≢ p₂ =
      λ same. absurd (omega (arith, f (m.calls + 1) (m.calls + 1 + 1) p₂ (e₁ ∙ ap some same) e₂)) in
    ground arith

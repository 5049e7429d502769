-- ===== src/Msg/New.antt =====
-- diameter_msg/message.c: `AAANewMessage`. The fields `sId` and `in_peer` of a message, which only
-- pass a pointer on, are left out.
pub mod Answers
pub mod Proxies
pub mod Requests
use disc.Base.{ℕ, zero, suc, Option, none, some, List, [], ◌∷◌, bit_and, bit_or, false}
use disc.Utils.{Bytes}
use disc.Shm.{Allocator, Shm, shm_malloc}
use disc.Msg.{
  DataStatus, duplicate_data, dont_free_data, ReturnCode, err_success, Avp, Message, zero_message,
}
use disc.Msg.Wire.{set_4bytes}
use disc.Msg.Create.{create_avp, clone_avp, free_avp}
use disc.Msg.AvpList.{forward_search, tail_of, add_avp, find_matching_avp}
use disc.Msg.Translate.{free_message}

-- The message, or NULL; `endless`: the loop over the proxy-info AVPs has not ended.
pub data Outcome : Type 0 where
  made : Message → Shm → Outcome
  not_made : Shm → Outcome
  endless : Outcome

-- What follows an addition: if the addition failed, the AVP and the message are freed.
abbrev pub added : Avp → Shm → ReturnCode × Message → (Message → Shm → Outcome) → Outcome
added avp m (err_success, msg) next = next msg m
added avp m (_, msg) next = not_made (free_message msg (free_avp avp m))

-- An AVP that may not have been created is added at a position.
abbrev pub add_created : Message → Option ℕ → Option Avp × Shm → (Message → Shm → Outcome) → Outcome
add_created msg position (none, m) next = not_made (free_message msg m)
add_created msg position (some avp, m) next = added avp m (add_avp msg avp position) next

-- In the loop over the proxy-info AVPs a failed addition frees the message and not the clone.
abbrev pub mirrored : Shm → ReturnCode × Message → (Message → Shm → Outcome) → Outcome
mirrored m (err_success, msg) next = next msg m
mirrored m (_, msg) next = not_made (free_message msg m)

abbrev pub add_clone : Message → Option Avp × Shm → (Message → Shm → Outcome) → Outcome
add_clone msg (none, m) next = not_made (free_message msg m)
add_clone msg (some avp, m) next = mirrored m (add_avp msg avp (tail_of msg.avps)) next

-- The loop over the proxy-info AVPs of a request; `start` is `avp_t`. An empty request starts at NULL.
unfoldable pub mirror : Allocator → Message → ℕ → Option ℕ → Message → Shm → Outcome
mirror alloc request zero start msg m = endless
mirror alloc request (suc fuel) start msg m =
    elim (find_matching_avp request start 284 0 forward_search) [
      | none ↦ made msg m
      | some a ↦
          add_clone msg (clone_avp alloc a false m)
            (λ msg' m'. mirror alloc request fuel (some a.addr) msg' m')
    ]

-- `avpList.head`
unfoldable pub head_of : List Avp → Option ℕ
head_of [] = none
head_of (a ∷ xs) = some a.addr

-- The part of an answer: the ids and the P flag of the request, a result code behind the session id,
-- and the proxy-info AVPs.
unfoldable pub answer_to : Allocator → ℕ → Message → Message → Shm → Outcome
answer_to alloc fuel request msg m =
    let msg' : Message = record msg {
      flags = bit_or msg.flags (bit_and request.flags 0x40);
      endtoend_id = request.endtoend_id;
      hopbyhop_id = request.hopbyhop_id;
    } in
    add_created msg' msg'.shortcuts.session_id
      (create_avp alloc 268 0 0 (set_4bytes 2001) duplicate_data m)
      (λ msg'' m''. mirror alloc request fuel (head_of request.avps) msg'' m'')

-- The part that depends on whether there is a request to answer.
unfoldable pub for_request : Allocator → ℕ → Option Message → Message → Shm → Outcome
for_request alloc fuel none msg m = made (record msg { flags = 0x80 }) m
for_request alloc fuel (some request) msg m = answer_to alloc fuel request msg m

-- The AVPs that every message has.
unfoldable pub identified :
    Allocator → Bytes → Bytes → Bytes → Message → Shm → (Message → Shm → Outcome) → Outcome
identified alloc aaa_identity aaa_realm session_id msg m next =
    add_created msg none (create_avp alloc 263 0 0 session_id dont_free_data m) λ msg₁ m₁.
      add_created msg₁ (tail_of msg₁.avps) (create_avp alloc 264 0 0 aaa_identity dont_free_data m₁)
        λ msg₂ m₂.
          add_created msg₂ (tail_of msg₂.avps)
            (create_avp alloc 296 0 0 aaa_realm dont_free_data m₂) next

-- `AAANewMessage` for a session id that is not NULL; `fuel` bounds the loop over the proxy-info AVPs.
abbrev started : Option ℕ × Shm → (Shm → Outcome) → Outcome
started (none, m) next = not_made m
started (some p, m) next = next m

unfoldable pub new_message :
    Allocator → Bytes → Bytes → ℕ → ℕ → ℕ → Bytes → Option Message → Shm → Outcome
new_message alloc aaa_identity aaa_realm fuel command_code application_id session_id request m =
    started (shm_malloc alloc m) λ m'.
      identified alloc aaa_identity aaa_realm session_id
        (record zero_message { command_code = command_code; application_id = application_id }) m'
        (for_request alloc fuel request)

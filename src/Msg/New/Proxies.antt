-- ===== src/Msg/New/Proxies.antt =====
-- The loop of `AAANewMessage` over the proxy-info AVPs of a request.
use disc.Base.{ℕ, zero, suc, ◌≡◌, subst, false, Option, none, some, List, [], ◌∷◌, ◌++◌, All, arith}
use disc.Utils.{Bytes}
use disc.Shm.{Allocator, Shm, shm_malloc}
use disc.Msg.{
  ReturnCode, err_success, err_failure, err_parameter, Avp, Message, dont_free_data, zero_message,
}
use disc.Msg.Create.{create_avp}
use disc.Msg.AvpList.{forward_search, is_match, first_match, find_matching_avp, tail_of}
use disc.Msg.AvpList.Order.{Distinct}
use disc.Msg.AvpList.Find.{forward_from-split}
use disc.Msg.New.{
  Outcome, made, not_made, endless, added, add_created, mirrored, add_clone, mirror, head_of,
  answer_to, for_request, identified, started, new_message,
}

abbrev pub IsNotMade : Outcome → Type 0
IsNotMade (made msg m) = ⊥
IsNotMade (not_made m) = Unit
IsNotMade endless = Unit

-- The search from a proxy-info AVP finds this AVP again.
find_proxy :
    (request : Message) (before after : List Avp) (a : Avp)
    → Distinct request.avps
    → request.avps ≡ before ++ (a ∷ after)
    → a.code ≡ 284
    → a.vendor_id ≡ 0
    → find_matching_avp request (some a.addr) 284 0 forward_search ≡ some a
unfolding find_matching_avp first_match
find_proxy request before after a d e c v =
    rw (e, forward_from-split before after a (subst Distinct e d)) (ground arith)

mirrored-IsNotMade :
    (m : Shm) (r : ReturnCode × Message) (next : Message → Shm → Outcome)
    → ((msg : Message) (n : Shm) → IsNotMade (next msg n))
    → IsNotMade (mirrored m r next)
mirrored-IsNotMade m (err_success, msg) next h = h msg m
mirrored-IsNotMade m (err_failure, msg) next h = tt
mirrored-IsNotMade m (err_parameter, msg) next h = tt

add_clone-IsNotMade :
    (msg : Message) (r : Option Avp × Shm) (next : Message → Shm → Outcome)
    → ((msg' : Message) (n : Shm) → IsNotMade (next msg' n))
    → IsNotMade (add_clone msg r next)
add_clone-IsNotMade msg (none, m) next h = tt
add_clone-IsNotMade msg (some avp, m) next h = mirrored-IsNotMade m _ next h

-- Once the loop stands at a proxy-info AVP, it stays there.
mirror_stays :
    (alloc : Allocator) (request : Message) (a : Avp) (fuel : ℕ) (msg : Message) (m : Shm)
    → find_matching_avp request (some a.addr) 284 0 forward_search ≡ some a
    → IsNotMade (mirror alloc request fuel (some a.addr) msg m)
unfolding mirror
mirror_stays alloc request a zero msg m e = tt
mirror_stays alloc request a (suc fuel) msg m e =
    rw (IsNotMade, mirror, e)
      (add_clone-IsNotMade msg _ _ (λ msg' n. mirror_stays alloc request a fuel msg' n e))

added-IsNotMade :
    (avp : Avp) (m : Shm) (r : ReturnCode × Message) (next : Message → Shm → Outcome)
    → ((msg : Message) (n : Shm) → IsNotMade (next msg n))
    → IsNotMade (added avp m r next)
added-IsNotMade avp m (err_success, msg) next h = h msg m
added-IsNotMade avp m (err_failure, msg) next h = tt
added-IsNotMade avp m (err_parameter, msg) next h = tt

add_created-IsNotMade :
    (msg : Message) (position : Option ℕ) (r : Option Avp × Shm) (next : Message → Shm → Outcome)
    → ((msg' : Message) (n : Shm) → IsNotMade (next msg' n))
    → IsNotMade (add_created msg position r next)
add_created-IsNotMade msg position (none, m) next h = tt
add_created-IsNotMade msg position (some avp, m) next h = added-IsNotMade avp m _ next h

identified-IsNotMade :
    (alloc : Allocator) (aaa_identity aaa_realm session_id : Bytes) (msg : Message) (m : Shm)
    (next : Message → Shm → Outcome)
    → ((msg' : Message) (n : Shm) → IsNotMade (next msg' n))
    → IsNotMade (identified alloc aaa_identity aaa_realm session_id msg m next)
unfolding identified
identified-IsNotMade alloc aaa_identity aaa_realm session_id msg m next h =
    let third : Message → Shm → Outcome = λ msg₂ m₂.
      add_created msg₂ (tail_of msg₂.avps) (create_avp alloc 296 0 0 aaa_realm dont_free_data m₂)
        next in
    let second : Message → Shm → Outcome = λ msg₁ m₁.
      add_created msg₁ (tail_of msg₁.avps) (create_avp alloc 264 0 0 aaa_identity dont_free_data m₁)
        third in
    add_created-IsNotMade msg none (create_avp alloc 263 0 0 session_id dont_free_data m) second
      (λ msg₁ m₁.
        add_created-IsNotMade msg₁ (tail_of msg₁.avps)
          (create_avp alloc 264 0 0 aaa_identity dont_free_data m₁) third
          (λ msg₂ m₂.
            add_created-IsNotMade msg₂ (tail_of msg₂.avps)
              (create_avp alloc 296 0 0 aaa_realm dont_free_data m₂) next h))

started-IsNotMade :
    (r : Option ℕ × Shm) (next : Shm → Outcome)
    → ((m : Shm) → IsNotMade (next m))
    → IsNotMade (started r next)
started-IsNotMade (none, m) next h = tt
started-IsNotMade (some p, m) next h = h m

-- What the first search of the loop finds: `a` stands in the request, with the two properties.
abbrev Found : Message → Option ℕ → Type 0
Found request start =
    (a : Avp) × (find_matching_avp request start 284 0 forward_search ≡ some a)
    × (find_matching_avp request (some a.addr) 284 0 forward_search ≡ some a)

module _ (alloc : Allocator) (request : Message)
    (proxy : Found request (head_of request.avps)) where
  mirror-IsNotMade :
      (fuel : ℕ) (msg : Message) (m : Shm)
      → IsNotMade (mirror alloc request fuel (head_of request.avps) msg m)
  unfolding mirror
  mirror-IsNotMade zero msg m = tt
  mirror-IsNotMade (suc fuel) msg m =
      let (a, first, again) = proxy in
      rw (IsNotMade, mirror, first)
        (add_clone-IsNotMade msg _ _ (λ msg' n. mirror_stays alloc request a fuel msg' n again))

  for_request-IsNotMade :
      (fuel : ℕ) (msg : Message) (m : Shm) → IsNotMade (for_request alloc fuel (some request) msg m)
  unfolding for_request answer_to
  for_request-IsNotMade fuel msg m =
      add_created-IsNotMade _ _ _ _ (λ msg' n. mirror-IsNotMade fuel msg' n)

-- The AVPs in front of the first proxy-info AVP are passed over.
first_match-skip :
    (before after : List Avp) (a : Avp)
    → All (λ b. is_match 284 0 b ≡ false) before
    → a.code ≡ 284
    → a.vendor_id ≡ 0
    → first_match 284 0 (before ++ (a ∷ after)) ≡ some a
unfolding first_match
first_match-skip [] after a h c v = ground arith
first_match-skip (b ∷ before) after a h c v = rw h.0 (first_match-skip before after a h.1 c v)

find_first_proxy :
    (request : Message) (before after : List Avp) (a : Avp)
    → Distinct request.avps
    → request.avps ≡ before ++ (a ∷ after)
    → All (λ b. is_match 284 0 b ≡ false) before
    → a.code ≡ 284
    → a.vendor_id ≡ 0
    → find_matching_avp request (head_of request.avps) 284 0 forward_search ≡ some a
unfolding find_matching_avp head_of
find_first_proxy request [] after a d e h c v =
    rw (e, forward_from-split [] after a (subst Distinct e d)) (first_match-skip [] after a h c v)
find_first_proxy request (b ∷ before) after a d e h c v =
    rw (e, forward_from-split [] (before ++ (a ∷ after)) b (subst Distinct e d))
      (first_match-skip (b ∷ before) after a h c v)

-- For a request that holds a proxy-info AVP, `a` being the first, `AAANewMessage` never returns an
-- answer, whatever the allocator does and however many rounds the loop over these AVPs is given: the
-- search from an AVP that was mirrored finds this AVP again, until the memory is full or for ever.
pub new_message-IsNotMade :
    (alloc : Allocator) (aaa_identity aaa_realm session_id : Bytes)
    (fuel command_code application_id : ℕ) (request : Message) (m : Shm) (before after : List Avp)
    (a : Avp)
    → Distinct request.avps
    → request.avps ≡ before ++ (a ∷ after)
    → All (λ b. is_match 284 0 b ≡ false) before
    → a.code ≡ 284
    → a.vendor_id ≡ 0
    → IsNotMade (
        new_message alloc aaa_identity aaa_realm fuel command_code application_id session_id
          (some request)
          m)
unfolding new_message
new_message-IsNotMade alloc aaa_identity aaa_realm session_id fuel command_code application_id
      request m before after a d e h c v =
    let proxy : Found request (head_of request.avps) = (
      a,
      find_first_proxy request before after a d e h c v,
      find_proxy request before after a d e c v,
    ) in
    started-IsNotMade (shm_malloc alloc m)
      (λ n.
        identified alloc aaa_identity aaa_realm session_id
          (record zero_message { command_code = command_code; application_id = application_id }) n
          (for_request alloc fuel (some request)))
      (λ n.
        identified-IsNotMade alloc aaa_identity aaa_realm session_id _ n
          (for_request alloc fuel (some request)) (for_request-IsNotMade alloc request proxy fuel))

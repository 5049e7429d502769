-- ===== src/Msg/AvpList.antt =====
-- diameter_msg/avp.c: the AVP list of a message. A node is known by the address of its structure.
pub mod Blocks
pub mod Order
pub mod Invariant
pub mod Find
pub mod Remove
use mathlib.Core.Option
use disc.Base.{
  ℕ, Bool, true, false, ◌&&◌, Option, none, some, List, [], ◌∷◌, ◌++◌, ◌==◌, if◌then◌else◌,
}
use disc.Msg.{ReturnCode, err_success, err_parameter, Avp, Shortcuts, Message}

-- `AAASearchType`
pub data SearchType : Type 0 where
  forward_search backward_search : SearchType

-- Insertion behind the node at address `p`; `none` if no node stands there.
unfoldable pub insert_after : ℕ → Avp → List Avp → Option (List Avp)
insert_after p x [] = none
insert_after p x (a ∷ xs) =
    if a.addr == p then some (a ∷ x ∷ xs) else Option.map (λ bs. a ∷ bs) (insert_after p x xs)

-- `avpList.tail`
unfoldable pub tail_of : List Avp → Option ℕ
tail_of [] = none
tail_of (a ∷ []) = some a.addr
tail_of (a ∷ b ∷ xs) = tail_of (b ∷ xs)

-- The assignment of a shortcut that the code of an AVP selects, if it selects one.
unfoldable pub set_shortcut : ℕ → Option ℕ → Shortcuts → Shortcuts
set_shortcut code p sc =
    if code == 263
    then record sc { session_id = p }
    else if code == 264
    then record sc { orig_host = p }
    else if code == 296
    then record sc { orig_realm = p }
    else if code == 293
    then record sc { dest_host = p }
    else if code == 283
    then record sc { dest_realm = p }
    else if code == 268
    then record sc { res_code = p }
    else if code == 277
    then record sc { auth_ses_state = p }
    else sc

abbrev linked : Message → Avp → List Avp → ReturnCode × Message
linked msg avp xs = (
  err_success,
  record msg { avps = xs; shortcuts = set_shortcut avp.code (some avp.addr) msg.shortcuts },
)

-- `AAAAddAVPToMessage`; without a position the AVP goes to the front. The structure of the AVP is not in
-- the list yet: the source links it without unlinking it first, and so would close the list to a cycle.
add_at : Option ℕ → Message → Avp → ReturnCode × Message
add_at none msg avp = linked msg avp (avp ∷ msg.avps)
add_at (some p) msg avp = elim (insert_after p avp msg.avps) [
  | none ↦ (err_parameter, msg)
  | some xs ↦ linked msg avp xs
]

unfoldable pub add_avp : Message → Avp → Option ℕ → ReturnCode × Message
unfolding add_at
add_avp msg avp position = add_at position msg avp

-- The nodes from the one at `p` to the tail, and from there back to the head.
unfoldable pub forward_from : ℕ → List Avp → List Avp
forward_from p [] = []
forward_from p (a ∷ xs) = if a.addr == p then a ∷ xs else forward_from p xs

unfoldable pub backward_from : ℕ → List Avp → List Avp → List Avp
backward_from p seen [] = []
backward_from p seen (a ∷ xs) =
    let rest = backward_from p (a ∷ seen) xs in if a.addr == p then a ∷ seen else rest

abbrev reversed : List Avp → List Avp → List Avp
reversed seen [] = seen
reversed seen (a ∷ xs) = reversed (a ∷ seen) xs

-- The nodes in the order in which `AAAFindMatchingAVP` visits them; none if the start is no node.
unfoldable pub visited : Option ℕ → SearchType → List Avp → List Avp
unfolding forward_from backward_from
visited none forward_search xs = xs
visited none backward_search xs = reversed [] xs
visited (some p) forward_search xs = forward_from p xs
visited (some p) backward_search xs = backward_from p [] xs

abbrev pub is_match : ℕ → ℕ → Avp → Bool
is_match code vendor_id a = (a.code == code) && (a.vendor_id == vendor_id)

unfoldable pub first_match : ℕ → ℕ → List Avp → Option Avp
first_match code vendor_id [] = none
first_match code vendor_id (a ∷ xs) =
    if is_match code vendor_id a then some a else first_match code vendor_id xs

-- `AAAFindMatchingAVP`
unfoldable pub find_matching_avp : Message → Option ℕ → ℕ → ℕ → SearchType → Option Avp
unfolding visited first_match
find_matching_avp msg start code vendor_id search =
    first_match code vendor_id (visited start search msg.avps)

-- The node at `p` taken out, with its code; `none` if no node stands there.
unfoldable pub unlink : ℕ → List Avp → Option (ℕ × List Avp)
unlink p [] = none
unlink p (a ∷ xs) =
    if a.addr == p
    then some (a.code, xs)
    else Option.map (λ (r : ℕ × List Avp). (r.0, a ∷ r.1)) (unlink p xs)

-- `AAARemoveAVPFromMessage`, given the address of the AVP.
unfoldable pub remove_avp : Message → ℕ → ReturnCode × Message
remove_avp msg p = elim (unlink p msg.avps) [
  | none ↦ (err_parameter, msg)
  | some (code, xs) ↦
      (err_success, record msg { avps = xs; shortcuts = set_shortcut code none msg.shortcuts })
]

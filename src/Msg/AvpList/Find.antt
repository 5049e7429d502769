-- ===== src/Msg/AvpList/Find.antt =====
-- What `AAAFindMatchingAVP` finds, and in which order it looks.
use disc.Base.{
  ℕ, ◌≡◌, ◌≢◌, refl, sym, ap, ◌∙◌, inl, inr, false, Option, none, some, List, [], ◌∷◌, ◌++◌,
  append_assoc, append-nil, reverse, reverse-cons, subst, All, Bool-cases, arith,
}
use disc.Msg.{Avp, Message}
use disc.Msg.AvpList.{
  forward_search, backward_search, forward_from, backward_from, reversed, is_match, first_match,
  find_matching_avp,
}
use disc.Msg.AvpList.Order.{Absent, Distinct}

-- The result is the first AVP of the code and the vendor; none only if there is no such AVP.
abbrev pub IsFirst : ℕ → ℕ → List Avp → Option Avp → Type 0
IsFirst code vendor_id xs none = All (λ a. is_match code vendor_id a ≡ false) xs
IsFirst code vendor_id xs (some a) =
    (before : List Avp) × (after : List Avp) × (xs ≡ before ++ (a ∷ after))
    × All (λ b. is_match code vendor_id b ≡ false) before
    × (a.code ≡ code)
    × (a.vendor_id ≡ vendor_id)

IsFirst-cons :
    (code vendor_id : ℕ) (a : Avp) (xs : List Avp) (r : Option Avp)
    → is_match code vendor_id a ≡ false
    → IsFirst code vendor_id xs r
    → IsFirst code vendor_id (a ∷ xs) r
IsFirst-cons code vendor_id a xs none m f = (m, f)
IsFirst-cons code vendor_id a xs (some b) m (before, after, e, f, c, v) =
    (a ∷ before, after, ap (λ ys. a ∷ ys) e, (m, f), c, v)

pub first_match-IsFirst :
    (code vendor_id : ℕ) (xs : List Avp) → IsFirst code vendor_id xs (first_match code vendor_id xs)
unfolding first_match
first_match-IsFirst code vendor_id [] = tt
first_match-IsFirst code vendor_id (a ∷ xs) = elim (Bool-cases (is_match code vendor_id a)) [
  | inl hit ↦ rw hit ([], xs, refl, tt, ground arith, ground arith)
  | inr miss ↦
      rw miss (IsFirst-cons code vendor_id a xs _ miss (first_match-IsFirst code vendor_id xs))
]

-- A node in the list is not at an absent address.
not_there :
    (p : ℕ) (before after : List Avp) (a : Avp) → Absent p (before ++ (a ∷ after)) → a.addr ≢ p
not_there p [] after a h = h.0
not_there p (b ∷ before) after a h = not_there p before after a h.1

pub forward_from-split :
    (before after : List Avp) (a : Avp)
    → Distinct (before ++ (a ∷ after))
    → forward_from a.addr (before ++ (a ∷ after)) ≡ a ∷ after
unfolding forward_from
forward_from-split [] after a d = ground arith
forward_from-split (b ∷ before) after a d =
    ground (arith, not_there b.addr before after a d.0, forward_from-split before after a d.1)

backward_from-split :
    (seen before after : List Avp) (a : Avp)
    → Distinct (before ++ (a ∷ after))
    → backward_from a.addr seen (before ++ (a ∷ after)) ≡ a ∷ reversed seen before
unfolding backward_from
backward_from-split seen [] after a d = ground arith
backward_from-split seen (b ∷ before) after a d =
    ground (
      arith,
      not_there b.addr before after a d.0,
      backward_from-split (b ∷ seen) before after a d.1,
    )

reversed-reverse : (seen xs : List Avp) → reversed seen xs ≡ reverse xs ++ seen
reversed-reverse seen [] = refl
reversed-reverse seen (a ∷ xs) =
    reversed-reverse (a ∷ seen) xs
    ∙ rw (reverse-cons a xs) (sym (append_assoc (reverse xs) (a ∷ []) seen))

-- On AVPs at distinct addresses, `AAAFindMatchingAVP` returns the first AVP with the code and the
-- vendor among those it is to search, and NULL only if none of them has both: without a start, the
-- whole list, forward from the head or backward from the tail; with a start, the start itself and
-- what follows it, or the start itself and what precedes it, the nearest first.
pub find_matching_avp-IsFirst :
    (msg : Message) (before after : List Avp) (a : Avp) (code vendor_id : ℕ)
    → Distinct msg.avps
    → msg.avps ≡ before ++ (a ∷ after)
    → IsFirst code vendor_id msg.avps (find_matching_avp msg none code vendor_id forward_search)
      × IsFirst code vendor_id
          (reverse msg.avps)
          (find_matching_avp msg none code vendor_id backward_search)
      × IsFirst code vendor_id
          (a ∷ after)
          (find_matching_avp msg (some a.addr) code vendor_id forward_search)
      × IsFirst code vendor_id
          (a ∷ reverse before)
          (find_matching_avp msg (some a.addr) code vendor_id backward_search)
unfolding find_matching_avp
find_matching_avp-IsFirst msg before after a code vendor_id d e =
    let first = first_match-IsFirst code vendor_id in
    let d' = subst Distinct e d in
    let back : (xs : List Avp) → reverse xs ≡ reversed [] xs =
      λ xs. sym (reversed-reverse [] xs ∙ append-nil (reverse xs)) in
    (
      first msg.avps,
      rw (back msg.avps) (first (reversed [] msg.avps)),
      rw (e, forward_from-split before after a d') (first (a ∷ after)),
      rw (e, backward_from-split [] before after a d', back before)
          (first (a ∷ reversed [] before)),
    )

-- ===== src/Msg/AvpList/Remove.antt =====
-- `AAARemoveAVPFromMessage` behind `AAAAddAVPToMessage`.
use disc.Base.{
  ℕ, ◌≡◌, inl, inr, Option, none, some, List, [], ◌∷◌, ◌==◌, Bool-cases, Option-cases, arith,
}
use disc.Msg.{ReturnCode, err_success, Avp, Shortcuts, Message}
use disc.Msg.AvpList.{insert_after, set_shortcut, linked, add_at, add_avp, unlink, remove_avp}
use disc.Msg.AvpList.Order.{Absent}

-- The node that was inserted is taken out again.
unlink-insert_after :
    (p : ℕ) (x : Avp) (xs ys : List Avp)
    → Absent x.addr xs
    → insert_after p x xs ≡ some ys
    → unlink x.addr ys ≡ some (x.code, xs)
unfolding insert_after unlink
unlink-insert_after p x [] ys h e = cc
unlink-insert_after p x (a ∷ xs) ys h e = elim (Bool-cases (a.addr == p)) [
  | inl hit ↦ let same : a ∷ x ∷ xs ≡ ys = ground arith in rw (← same) (ground (arith, h.0))
  | inr miss ↦ elim (Option-cases (insert_after p x xs)) [
    | inl f ↦ absurd (ground arith)
    | inr (zs, f) ↦
        let same : a ∷ zs ≡ ys = ground arith in
        rw (← same) (ground (arith, h.0, unlink-insert_after p x xs zs h.1 f))
  ]
]

set_shortcut-set_shortcut :
    (code : ℕ) (p q : Option ℕ) (sc : Shortcuts)
    → set_shortcut code p (set_shortcut code q sc) ≡ set_shortcut code p sc
unfolding set_shortcut
set_shortcut-set_shortcut code p q sc = ground arith

-- What is left of a message to which `avp` was added, and removed again.
abbrev restored : Message → Avp → ReturnCode × Message
restored msg avp =
    (err_success, record msg { shortcuts = set_shortcut avp.code none msg.shortcuts })

remove_avp-linked :
    (msg : Message) (avp : Avp) (xs : List Avp)
    → unlink avp.addr xs ≡ some (avp.code, msg.avps)
    → remove_avp (linked msg avp xs).1 avp.addr ≡ restored msg avp
unfolding remove_avp
remove_avp-linked msg avp xs e =
    rw (remove_avp, e, set_shortcut-set_shortcut avp.code none (some avp.addr) msg.shortcuts)

-- If `AAAAddAVPToMessage` takes an AVP whose structure is not in the list yet, at any position, then
-- `AAARemoveAVPFromMessage` takes it out again: the list is as before, and only the shortcut of the
-- AVP's code may differ, which is NULL now.
remove_avp-add_avp :
    (msg : Message) (avp : Avp) (position : Option ℕ)
    → Absent avp.addr msg.avps
    → (add_avp msg avp position).0 ≡ err_success
    → remove_avp (add_avp msg avp position).1 avp.addr ≡ restored msg avp
unfolding add_avp
remove_avp-add_avp msg avp none h e =
    remove_avp-linked msg avp (avp ∷ msg.avps) (unfold unlink in ground arith)
remove_avp-add_avp msg avp (some p) h e = elim (Option-cases (insert_after p avp msg.avps)) [
  | inl f ↦ absurd (ground arith)
  | inr (xs, f) ↦
      rw (add_at, f) (remove_avp-linked msg avp xs (unlink-insert_after p avp msg.avps xs h f))
]

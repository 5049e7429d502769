-- ===== src/Msg/AvpList/Invariant.antt =====
-- The shortcuts of a message: `sessionId`, `orig_host` and the others.
use disc.Base.{
  ℕ, ◌≡◌, ◌≢◌, sym, subst, ◌∙◌, ◌⊎◌, inl, inr, Option, none, some, List, [], ◌∷◌, ◌==◌, Bool-cases,
  Option-cases, if◌then◌else◌, arith,
}
use disc.Msg.{Avp, Shortcuts, Message}
use disc.Msg.AvpList.{set_shortcut, unlink, remove_avp}

-- The shortcut for a code; other codes than these have none.
unfoldable pub shortcut : ℕ → Shortcuts → Option ℕ
shortcut c sc =
    if c == 263
    then sc.session_id
    else if c == 264
    then sc.orig_host
    else if c == 296
    then sc.orig_realm
    else if c == 293
    then sc.dest_host
    else if c == 283
    then sc.dest_realm
    else if c == 268
    then sc.res_code
    else if c == 277
    then sc.auth_ses_state
    else none

shortcut-set_other :
    (c code : ℕ) (p : Option ℕ) (sc : Shortcuts)
    → c ≢ code
    → shortcut c (set_shortcut code p sc) ≡ shortcut c sc
unfolding shortcut set_shortcut
shortcut-set_other c code p sc h = ground arith

shortcut-set_same :
    (code : ℕ) (p : Option ℕ) (sc : Shortcuts)
    → (shortcut code (set_shortcut code p sc) ≡ p) ⊎ (shortcut code (set_shortcut code p sc) ≡ none)
unfolding shortcut set_shortcut
shortcut-set_same code p sc = ground arith

-- A node with this address and code is in the list.
unfoldable pub Has : List Avp → ℕ → ℕ → Type 0
Has [] c p = ⊥
Has (a ∷ xs) c p = ((a.addr ≡ p) × (a.code ≡ c)) ⊎ Has xs c p

-- The second list has the nodes of the first, and the given one.
abbrev Keeps : List Avp → Avp → List Avp → Type 0
Keeps xs x ys = Has ys x.code x.addr × ((c q : ℕ) → Has xs c q → Has ys c q)

-- The second list has the nodes of the first but those of one code.
abbrev KeepsOthers : ℕ → List Avp → List Avp → Type 0
KeepsOthers code xs ys = (c q : ℕ) → c ≢ code → Has xs c q → Has ys c q

KeepsOthers-cons :
    (code : ℕ) (a : Avp) (xs ys : List Avp)
    → KeepsOthers code xs ys
    → KeepsOthers code (a ∷ xs) (a ∷ ys)
unfolding Has
KeepsOthers-cons code a xs ys k c q ne (inl h) = inl h
KeepsOthers-cons code a xs ys k c q ne (inr h) = inr (k c q ne h)

KeepsOthers-tail : (a : Avp) (xs : List Avp) → KeepsOthers a.code (a ∷ xs) xs
unfolding Has
KeepsOthers-tail a xs c q ne (inl (_, e)) = absurd (ne (sym e))
KeepsOthers-tail a xs c q ne (inr h) = h

unlink-KeepsOthers :
    (p : ℕ) (xs : List Avp) {code : ℕ} {ys : List Avp}
    → unlink p xs ≡ some (code, ys)
    → KeepsOthers code xs ys
unfolding unlink
unlink-KeepsOthers p [] e = cc
unlink-KeepsOthers p (a ∷ xs) {code} {ys} e = elim (Bool-cases (a.addr == p)) [
  | inl hit ↦
      let same : (a.code, xs) ≡ (code, ys) = ground arith in
      subst (λ (r : ℕ × List Avp). KeepsOthers r.0 (a ∷ xs) r.1) same (KeepsOthers-tail a xs)
  | inr miss ↦ elim (Option-cases (unlink p xs)) [
    | inl f ↦ absurd (ground arith)
    | inr (r, f) ↦
        let same : (r.0, a ∷ r.1) ≡ (code, ys) = ground arith in
        subst (λ (r : ℕ × List Avp). KeepsOthers r.0 (a ∷ xs) r.1) same
          (KeepsOthers-cons r.0 a xs r.1 (unlink-KeepsOthers p xs f))
  ]
]

-- Every shortcut of a message is the address of a node of its list that has the code of the shortcut.
unfoldable pub IsIndexed : Message → Type 0
IsIndexed msg = (c p : ℕ) → shortcut c msg.shortcuts ≡ some p → Has msg.avps c p

none-some : {p : ℕ} → none ≡ some p → ⊥
none-some e = cc

set_shortcut-IsIndexed :
    (msg : Message) (xs : List Avp) (code : ℕ) (p : Option ℕ)
    → IsIndexed msg
    → ((q : ℕ) → p ≡ some q → Has xs code q)
    → ((c q : ℕ) → c ≢ code → Has msg.avps c q → Has xs c q)
    → IsIndexed (record msg { avps = xs; shortcuts = set_shortcut code p msg.shortcuts })
unfolding IsIndexed
set_shortcut-IsIndexed msg xs code p i new old c q e = elim (Bool-cases (c == code)) [
  | inl same ↦
      let code_c : code ≡ c = ground arith in
      let at_code =
        subst (λ k. shortcut k (set_shortcut code p msg.shortcuts) ≡ some q) (sym code_c) e in
      elim (shortcut-set_same code p msg.shortcuts) [
        | inl f ↦ subst (λ k. Has xs k q) code_c (new q (sym f ∙ at_code))
        | inr f ↦ absurd (none-some (sym f ∙ at_code))
      ]
  | inr other ↦
      let ne : c ≢ code = ground arith in
      old c q ne (i c q (sym (shortcut-set_other c code p msg.shortcuts ne) ∙ e))
]

-- `AAARemoveAVPFromMessage` keeps the shortcuts right: no shortcut is left to a node that is gone,
-- also when the message has several AVPs of the code or none at the address.
pub remove_avp-IsIndexed : (msg : Message) (p : ℕ) → IsIndexed msg → IsIndexed (remove_avp msg p).1
unfolding remove_avp
remove_avp-IsIndexed msg p i = elim (Option-cases (unlink p msg.avps)) [
  | inl f ↦ rw (remove_avp, f) i
  | inr (r, f) ↦
      rw (remove_avp, f)
        (set_shortcut-IsIndexed msg r.1 r.0 none i (λ q e. absurd (none-some e))
          (unlink-KeepsOthers p msg.avps f))
]

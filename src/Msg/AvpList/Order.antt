-- ===== src/Msg/AvpList/Order.antt =====
-- Lists of AVPs with distinct addresses, and insertion at the tail.
use disc.Base.{
  ℕ, ◌≡◌, ◌≢◌, refl, sym, ap, none, some, List, [], ◌∷◌, ◌++◌, All, Option-cases, inl, inr, arith,
}
use disc.Msg.{err_success, Avp, Message}
use disc.Msg.AvpList.{insert_after, tail_of, set_shortcut, add_avp}

-- No node stands at address `p`.
abbrev pub Absent : ℕ → List Avp → Type 0
Absent p xs = All (λ (a : Avp). a.addr ≢ p) xs

abbrev pub Distinct : List Avp → Type 0
Distinct [] = Unit
Distinct (a ∷ xs) = Absent a.addr xs × Distinct xs

pub Absent-append :
    (p : ℕ) (xs : List Avp) (x : Avp) → Absent p xs → x.addr ≢ p → Absent p (xs ++ (x ∷ []))
Absent-append p [] x h hx = (hx, tt)
Absent-append p (a ∷ xs) x h hx = (h.0, Absent-append p xs x h.1 hx)

pub Distinct-append :
    (xs : List Avp) (x : Avp) → Distinct xs → Absent x.addr xs → Distinct (xs ++ (x ∷ []))
Distinct-append [] x d h = (tt, tt)
Distinct-append (a ∷ xs) x d h =
    (Absent-append a.addr xs x d.0 (λ e. h.0 (sym e)), Distinct-append xs x d.1 h.1)

tail_of-ne :
    (b : Avp) (xs : List Avp) {p q : ℕ} → Absent q (b ∷ xs) → tail_of (b ∷ xs) ≡ some p → q ≢ p
unfolding tail_of
tail_of-ne b [] h e = ground arith
tail_of-ne b (c ∷ xs) h e = tail_of-ne c xs h.1 e

pub insert_after-tail :
    (x : Avp) (xs : List Avp) {p : ℕ}
    → Distinct xs
    → tail_of xs ≡ some p
    → insert_after p x xs ≡ some (xs ++ (x ∷ []))
unfolding insert_after tail_of
insert_after-tail x [] d e = cc
insert_after-tail x (a ∷ []) d e = ground arith
insert_after-tail x (a ∷ b ∷ xs) d e =
    ground (arith, insert_after-tail x (b ∷ xs) d.1 e, tail_of-ne b xs d.0 e)

tail_of-none : (xs : List Avp) → tail_of xs ≡ none → xs ≡ []
unfolding tail_of
tail_of-none [] e = refl
tail_of-none (a ∷ []) e = cc
tail_of-none (a ∷ b ∷ xs) e = cc (tail_of-none (b ∷ xs) e)

-- On a list of AVPs at distinct addresses, adding at the tail appends: `AAAAddAVPToMessage` with the
-- tail as position succeeds, also on an empty list, and sets the shortcut of the code.
pub add_avp-tail :
    (msg : Message) (avp : Avp)
    → Distinct msg.avps
    → add_avp msg avp (tail_of msg.avps) ≡ (
      err_success,
      record msg {
        avps = msg.avps ++ (avp ∷ []);
        shortcuts = set_shortcut avp.code (some avp.addr) msg.shortcuts;
      },
    )
unfolding add_avp
add_avp-tail msg avp d = elim (Option-cases (tail_of msg.avps)) [
  | inl e ↦ rw e (
      ap
        (λ xs. (
          err_success,
          record msg { avps = xs; shortcuts = set_shortcut avp.code (some avp.addr) msg.shortcuts },
        ))
        (rw (tail_of-none msg.avps e)))
  | inr (p, e) ↦ rw e (ground (arith, insert_after-tail avp msg.avps d e))
]

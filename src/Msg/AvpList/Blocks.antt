-- ===== src/Msg/AvpList/Blocks.antt =====
-- How many blocks of shared memory the AVPs of a list hold.
use disc.Base.{
  ℕ, ◌+◌, ◌≡◌, refl, some, List, [], ◌∷◌, ◌==◌, Bool-cases, Option-cases, inl, inr, if◌then◌else◌,
  arith,
}
use disc.Msg.{Avp, Message}
use disc.Msg.AvpList.{insert_after, tail_of, add_avp}

-- The structure, and the data if the AVP owns it.
abbrev pub blocks_of : Avp → ℕ
blocks_of a = if a.free_it then 2 else 1

unfoldable pub blocks : List Avp → ℕ
blocks [] = 0
blocks (a ∷ xs) = blocks_of a + blocks xs

-- Insertion behind the tail succeeds, and adds the blocks of the new AVP.
insert_after-blocks :
    (x : Avp) (xs : List Avp) (p : ℕ)
    → tail_of xs ≡ some p
    → (ys : List Avp) × (insert_after p x xs ≡ some ys) × (blocks ys ≡ blocks_of x + blocks xs)
unfolding insert_after tail_of blocks
insert_after-blocks x [] p e = cc
insert_after-blocks x (a ∷ []) p e = (a ∷ x ∷ [], ground arith, omega arith)
insert_after-blocks x (a ∷ b ∷ xs) p e = elim (Bool-cases (a.addr == p)) [
  | inl hit ↦ (a ∷ x ∷ b ∷ xs, rw hit, omega arith)
  | inr miss ↦
      let (ys, found, sum) = insert_after-blocks x (b ∷ xs) p e in
      (a ∷ ys, ground arith, omega arith)
]

pub add_avp-blocks :
    (msg : Message) (avp : Avp)
    → (blocks (add_avp msg avp (tail_of msg.avps)).1.avps ≡ blocks_of avp + blocks msg.avps)
      × ((add_avp msg avp (tail_of msg.avps)).1.buf ≡ msg.buf)
unfolding add_avp
add_avp-blocks msg avp = elim (Option-cases (tail_of msg.avps)) [
  | inl e ↦ rw e (unfold blocks in refl, refl)
  | inr (p, e) ↦ let (ys, found, sum) = insert_after-blocks avp msg.avps p e in ground arith
]

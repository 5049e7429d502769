-- ===== src/Peer/Masks.antt =====
-- The masks of AVPs that `process_dw` and `process_dp` have seen.
use disc.Base.{ℕ, ◌+◌, ◌≡◌, refl, Bool, true, false, ◌&&◌, ◌==◌, if◌then◌else◌, ==→eq, arith}
use disc.Peer.Process.{set_bit_in_mask}

-- The mask with the bits of the result code, the origin host and realm, and the disconnect cause.
unfoldable pub mask_of : Bool → Bool → Bool → Bool → ℕ
mask_of a b c d =
    (if a then 1 else 0) + (if b then 2 else 0) + (if c then 4 else 0) + (if d then 8 else 0)

both : (Bool → Bool) → Bool
both test = test true && test false

every_bool : (test : Bool → Bool) (b : Bool) → both test ≡ true → test b ≡ true
unfolding both
every_bool test true e = ground arith
every_bool test false e = ground arith

-- A test of all masks by evaluation.
every_mask :
    (test : Bool → Bool → Bool → Bool → Bool) (a b c d : Bool)
    → both (λ a. both (λ b. both (λ c. both (λ d. test a b c d)))) ≡ true
    → test a b c d ≡ true
every_mask test a b c d e =
    every_bool (λ d. test a b c d) d
      (every_bool (λ c. both (λ d. test a b c d)) c
        (every_bool (λ b. both (λ c. both (λ d. test a b c d))) b
          (every_bool (λ a. both (λ b. both (λ c. both (λ d. test a b c d)))) a e)))

pub set_bits :
    (a b c d : Bool)
    → (set_bit_in_mask (mask_of a b c d) 0 ≡ mask_of true b c d)
      × (set_bit_in_mask (mask_of a b c d) 1 ≡ mask_of a true c d)
      × (set_bit_in_mask (mask_of a b c d) 2 ≡ mask_of a b true d)
      × (set_bit_in_mask (mask_of a b c d) 3 ≡ mask_of a b c true)
unfolding both mask_of
set_bits a b c d = (
  ==→eq _ _ (
      every_mask (λ a b c d. set_bit_in_mask (mask_of a b c d) 0 == mask_of true b c d) a b c d
        refl),
  ==→eq _ _ (
      every_mask (λ a b c d. set_bit_in_mask (mask_of a b c d) 1 == mask_of a true c d) a b c d
        refl),
  ==→eq _ _ (
      every_mask (λ a b c d. set_bit_in_mask (mask_of a b c d) 2 == mask_of a b true d) a b c d
        refl),
  ==→eq _ _ (
      every_mask (λ a b c d. set_bit_in_mask (mask_of a b c d) 3 == mask_of a b c true) a b c d
        refl),
)

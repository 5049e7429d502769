-- ===== src/Peer/Scan.antt =====
-- transport/peer.h: the loop `for_all_AVPS_do_switch` over the AVPs of a received message.
use disc.Base.{ℕ, zero, suc, ◌%◌, ◌^◌, [], ◌∷◌, drop}
use disc.Utils.{Bytes, to_32x_len}
use disc.Msg.Wire.{Result, ok, ◌>>=◌, get_4bytes}

-- How a round of the loop ends: it goes on with new values of the variables, the function returns, or
-- it reads behind the end of the buffer.
pub data Flow {ℓ κ} (S : Type ℓ) (R : Type κ) : Type (ℓ ⊔ κ) where
  on : S → Flow S R
  leave : R → Flow S R
  outside : Flow S R

-- How the loop ends; `unfinished` if the fuel is spent before.
pub data Scan {ℓ κ} (S : Type ℓ) (R : Type κ) : Type (ℓ ⊔ κ) where
  ended : S → Scan S R
  left : R → Scan S R
  overrun unfinished : Scan S R

-- `get_avp_len` at the first byte of an AVP
unfoldable pub get_avp_len : Bytes → Result ℕ
get_avp_len avp = get_4bytes (drop 4 avp) >>= λ n. ok (to_32x_len (n % 2 ^ 24))

module _ {ℓ κ} {S : Type ℓ} {R : Type κ} (body : ℕ → Bytes → S → Flow S R) where
  -- A round at `avp`: the switch is on its code, and the next AVP follows its length.
  unfoldable pub scan_round : Bytes → S → Flow (S × Bytes) R
  scan_round avp s = elim (get_4bytes avp) [
    | ok code ↦ elim (body code avp s) [
      | on t ↦ elim (get_avp_len avp) [ ok len ↦ on (t, drop len avp) | _ ↦ outside ]
      | leave r ↦ leave r
      | outside ↦ outside
    ]
    | _ ↦ outside
  ]

  -- The loop from the AVP on which `rest` starts; the fuel is counted in rounds.
  unfoldable pub for_all_avps : ℕ → Bytes → S → Scan S R
  for_all_avps n [] s = ended s
  for_all_avps zero (b ∷ rest) s = unfinished
  for_all_avps (suc n) (b ∷ rest) s = elim (scan_round (b ∷ rest) s) [
    | on (t, next) ↦ for_all_avps n next t
    | leave r ↦ left r
    | outside ↦ overrun
  ]

-- What a function returns that reads a message by such a loop.
pub data Outcome {ℓ} (A : Type ℓ) : Type ℓ where
  returned : A → Outcome A
  faulted running : Outcome A

-- The function goes on behind the loop with `tail`.
unfoldable pub conclude {ℓ κ ι} :
    {S : Type ℓ} {R : Type κ} {A : Type ι} → (S → A) → (R → A) → Scan S R → Outcome A
conclude tail f (ended s) = returned (tail s)
conclude tail f (left r) = returned (f r)
conclude tail f overrun = faulted
conclude tail f unfinished = running

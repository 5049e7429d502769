-- ===== src/Msg/Create/Fields.antt =====
-- What `set_avp_fields`, `AAACreateAVP`, `AAACloneAVP` and `AAAFreeAVP` guarantee.
use disc.Base.{ℕ, ◌<◌, ◌≡◌, refl, true, ◌==◌, ==→eq, bit_and, arith}
use disc.Base.Bits.{holds_from, every_byte}
use disc.Msg.Create.{set_avp_fields, mandatory}

mandatory_table : holds_from (λ f. mandatory (mandatory f) == mandatory f) 0 256 ≡ true
unfolding holds_from
mandatory_table = refl

mandatory-mandatory : (f : ℕ) → f < 256 → mandatory (mandatory f) ≡ mandatory f
mandatory-mandatory f h = ==→eq _ _ (every_byte _ f mandatory_table h)

reserved_table : holds_from (λ f. bit_and 0x20 (bit_and 0x20 f) == bit_and 0x20 f) 0 256 ≡ true
unfolding holds_from
reserved_table = refl

reserved-reserved : (f : ℕ) → f < 256 → bit_and 0x20 (bit_and 0x20 f) ≡ bit_and 0x20 f
reserved-reserved f h = ==→eq _ _ (every_byte _ f reserved_table h)

-- On flags of one byte, setting the fields of an AVP twice is setting them once.
pub set_avp_fields-idempotent :
    (code flags : ℕ)
    → flags < 256
    → set_avp_fields code (set_avp_fields code flags).0 ≡ set_avp_fields code flags
unfolding set_avp_fields
set_avp_fields-idempotent code flags h =
    ground (arith, mandatory-mandatory flags h, reserved-reserved flags h)

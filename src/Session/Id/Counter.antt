-- ===== src/Session/Id/Counter.antt =====
-- The two halves of `monoton_sID` are one 64-bit counter.
use disc.Base.{ℕ, ◌+◌, ◌*◌, ◌%◌, ◌^◌, ◌<◌, ◌≡◌, arith}
use disc.Session.Id.{Monotonic, inc_64biti}

-- The number that the two halves stand for.
unfoldable pub counter : Monotonic → ℕ
counter v = v.high * 2 ^ 32 + v.low

-- The number of a counter, below 2 ^ 64, determines both halves.
pub record IsCounter (v : Monotonic) : Type 0 where
  pub low_fits : v.low < 2 ^ 32
  pub high_fits : v.high < 2 ^ 32

-- On halves of 32 bits, `inc_64biti` adds one to the 64-bit number, modulo 2 ^ 64, and leaves halves
-- of 32 bits.
pub inc_64biti-counter :
    (v : Monotonic)
    → IsCounter v
    → IsCounter (inc_64biti v) × (counter (inc_64biti v) ≡ (counter v + 1) % 2 ^ 64)
unfolding inc_64biti counter
inc_64biti-counter v h = (ground arith, ground arith)

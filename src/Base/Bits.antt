-- ===== src/Base/Bits.antt =====
-- A test of every byte by evaluation.
use Prim.Native.Nat.{ℕ, zero, suc, ◌+◌, ◌<◌, ◌≤◌}
use mathlib.Core.Path.{◌≡◌}
use mathlib.Core.Bool.{Bool, true, ◌&&◌}
use native.Mathlib.Omega.{arith}

-- `test` holds of the `count` numbers from `first` on.
unfoldable pub holds_from : (test : ℕ → Bool) → ℕ → ℕ → Bool
holds_from test first zero = true
holds_from test first (suc count) = test first && holds_from test (suc first) count

every_from :
    (test : ℕ → Bool) (first count n : ℕ)
    → holds_from test first count ≡ true
    → first ≤ n
    → n < first + count
    → test n ≡ true
unfolding holds_from
every_from test first zero n checked low high = absurd (omega arith)
every_from test first (suc count) n checked low high =
    ground (arith, every_from test (suc first) count n)

pub every_byte : (test : ℕ → Bool) (n : ℕ) → holds_from test 0 256 ≡ true → n < 256 → test n ≡ true
every_byte test n checked small = every_from test 0 256 n checked (omega arith) small

-- ===== src/Utils/Hex.antt =====
-- What `int2hexstr` writes is what `hexchar2int` reads.
use disc.Base.{
  ℕ, zero, suc, ◌+◌, ◌*◌, ◌/◌, ◌%◌, ◌^◌, ◌<◌, ◌≤◌, ◌≡◌, false, some, [], ◌∷◌, ◌++◌, ◌==◌, length,
  length-append, arith,
}
use disc.Utils.{Bytes, hex_digit, hexchar2int, keep, finish, int2hexstr_loop, int2hexstr}

pub hexchar2int-hex_digit : (d : ℕ) → d < 16 → hexchar2int (hex_digit d) ≡ some d
unfolding hexchar2int hex_digit
hexchar2int-hex_digit d h = ground arith

pub hex_digit_zero : (d : ℕ) → d < 16 → (hex_digit d == b'0') ≡ (d == 0)
unfolding hex_digit
hex_digit_zero d h = ground arith

pub hex_digit-ne_dot : (d : ℕ) → (hex_digit d == b'.') ≡ false
unfolding hex_digit
hex_digit-ne_dot d = ground arith

-- Digit `k` put in front of the digits below it; there are 8 digits to 32 bits.
pub digit_step :
    (k l : ℕ)
    → k < 8
    → (l % 2 ^ (4 * k) + l / 2 ^ (4 * k) % 16 * 2 ^ (4 * k) ≡ l % 2 ^ (4 * suc k))
      × (l % 2 ^ (4 * suc k) < 2 ^ 32)
digit_step zero l h = (omega arith, omega arith)
digit_step (suc zero) l h = (omega arith, omega arith)
digit_step (suc (suc zero)) l h = (omega arith, omega arith)
digit_step (suc (suc (suc zero))) l h = (omega arith, omega arith)
digit_step (suc (suc (suc (suc zero)))) l h = (omega arith, omega arith)
digit_step (suc (suc (suc (suc (suc zero))))) l h = (omega arith, omega arith)
digit_step (suc (suc (suc (suc (suc (suc zero)))))) l h = (omega arith, omega arith)
digit_step (suc (suc (suc (suc (suc (suc (suc zero))))))) l h = (omega arith, omega arith)
digit_step (suc (suc (suc (suc (suc (suc (suc (suc k)))))))) l h = absurd (omega arith)

pub digit_zero :
    (k l : ℕ) → k < 8 → l / 2 ^ (4 * k) % 16 ≡ 0 → l % 2 ^ (4 * k) ≡ l % 2 ^ (4 * suc k)
digit_zero k l h e = omega (arith, rw e at ((digit_step k l h).0))

-- One round once a character has been kept.
pub int2hexstr_loop_started :
    (k l x : ℕ) (xs : Bytes)
    → length xs + suc k < 8
    → int2hexstr_loop (suc k) l 8 (x ∷ xs)
      ≡ int2hexstr_loop k l 8 (x ∷ xs ++ (hex_digit (l / 2 ^ (4 * k) % 16) ∷ []))
unfolding int2hexstr_loop
int2hexstr_loop_started k l x xs h = ground arith

pub length-int2hexstr_loop :
    (k l : ℕ) (out : Bytes) → length (int2hexstr_loop k l 8 out) ≤ length out + k
unfolding int2hexstr_loop
length-int2hexstr_loop zero l out = omega arith
length-int2hexstr_loop (suc k) l out = ground (
  arith,
  length-int2hexstr_loop k l (keep out (hex_digit (l / 2 ^ (4 * k) % 16))),
  length-append out (hex_digit (l / 2 ^ (4 * k) % 16) ∷ []),
)

pub length-finish : (n : ℕ) (out : Bytes) → 0 < n → length out ≤ n → length (finish out) ≤ n
length-finish n [] p h = omega arith
length-finish n (x ∷ xs) p h = h

pub length-int2hexstr : (l : ℕ) → length (int2hexstr l 8) ≤ 8
unfolding int2hexstr
length-int2hexstr l = length-finish 8 _ (omega arith) (length-int2hexstr_loop 8 l [])

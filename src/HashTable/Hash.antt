-- ===== src/HashTable/Hash.antt =====
-- hash_table.c: `hash`.
use Prim.Native.Nat.{min, digits, bit_and-bitwise, bit_xor}
use disc.Base.{
  ℕ, zero, suc, ◌+◌, ◌-◌, ◌*◌, ◌/◌, ◌%◌, ◌^◌, ◌<◌, ◌≤◌, ◌≡◌, true, [], ◌∷◌, ltb, if◌then◌else◌,
  bit_and, arith,
}
use disc.Utils.{Bytes}
use disc.HashTable.{Table, add_cell_to_htable}
use disc.HashTable.Found.{hashed}

-- A `char` is signed: its value modulo 2 ^ 32.
abbrev pub sign_extended : ℕ → ℕ
sign_extended c = if ltb c 128 then c else c + (2 ^ 32 - 256)

-- `h_inc`
abbrev pub h_inc : ℕ → ℕ → ℕ
h_inc h v = (h + bit_xor v (v / 2 ^ 3)) % 2 ^ 32

-- The bytes that are left behind the words.
unfoldable pub tail_word : Bytes → ℕ → ℕ
tail_word [] v = v
tail_word (c ∷ cs) v = tail_word cs ((v * 2 ^ 8 + sign_extended c) % 2 ^ 32)

abbrev pub word : ℕ → ℕ → ℕ → ℕ → ℕ
word a b c d =
    (sign_extended a * 2 ^ 24
      + sign_extended b * 2 ^ 16
      + sign_extended c * 2 ^ 8
      + sign_extended d)
    % 2 ^ 32

unfoldable pub sum_words : Bytes → ℕ → ℕ
sum_words (a ∷ b ∷ c ∷ d ∷ rest) h = sum_words rest (h_inc h (word a b c d))
sum_words rest h = h_inc h (tail_word rest 0)

unfoldable pub hash : Bytes → ℕ → ℕ
hash s hash_size =
    let h = sum_words s 0 in
    bit_and (((h + h / 2 ^ 11) + (h / 2 ^ 13 + h / 2 ^ 23)) % 2 ^ 32)
      ((hash_size + (2 ^ 32 - 1)) % 2 ^ 32)

digits-le : (n a b : ℕ) → digits (λ b. zero) min n a b ≤ b
digits-le zero a b = omega arith
digits-le (suc n) zero b = omega arith
digits-le (suc n) (suc a) b = omega (arith, digits-le n (suc a / 2) (b / 2))

bit_and-le : (a b : ℕ) → bit_and a b ≤ b
bit_and-le a b = simp bit_and-bitwise (digits-le a a b)

pub hash-lt :
    (s : Bytes) (hash_size : ℕ) → 0 < hash_size → hash_size < 2 ^ 32 → hash s hash_size < hash_size
unfolding hash
hash-lt s hash_size some_size small =
    let mask : ℕ = (hash_size + (2 ^ 32 - 1)) % 2 ^ 32 in omega (arith, bit_and-le _ mask)

pub code-accepted :
    (cell code : ℕ) (t : Table)
    → code < t.hash_size
    → t.hash_size < 2 ^ 32
    → (add_cell_to_htable cell (hashed cell code t)).0 ≡ true
unfolding add_cell_to_htable
code-accepted cell code t h small = ground arith

-- With the hash code that `hash` gives for any string, in a table that has entries, `add_cell_to_htable`
-- succeeds: the hash code is below the size of the table.
hash-accepted :
    (s : Bytes) (cell : ℕ) (t : Table)
    → 0 < t.hash_size
    → t.hash_size < 2 ^ 32
    → (hash s t.hash_size < t.hash_size)
      × ((add_cell_to_htable cell (hashed cell (hash s t.hash_size) t)).0 ≡ true)
hash-accepted s cell t some_size small =
    let below = hash-lt s t.hash_size some_size small in
    (below, code-accepted cell (hash s t.hash_size) t below small)

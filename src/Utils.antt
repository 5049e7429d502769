-- ===== src/Utils.antt =====
-- utils.h: the conversions between numbers and text.
pub mod Decimal
pub mod Hex
use disc.Base.{
  ℕ, zero, suc, ◌+◌, ◌-◌, ◌*◌, ◌/◌, ◌%◌, ◌^◌, ◌≡◌, refl, Bool, true, false, ◌&&◌, Option, none,
  some, List, [], ◌∷◌, ◌++◌, ltb, leb, ◌==◌, if◌then◌else◌, length,
}

-- A `char` buffer is a list of numbers below 256.
abbrev pub Bytes : Type 0
Bytes = List ℕ

abbrev pub is_empty : Bytes → Bool
is_empty [] = true
is_empty (c ∷ cs) = false

-- `buf[buf_len] = ch`, and `buf_len` moves on unless this would be a leading '0'.
abbrev pub keep : Bytes → ℕ → Bytes
keep out ch = if (ch == b'0') && is_empty out then out else out ++ (ch ∷ [])

-- `return buf_len ? buf_len : 1`: the '0' written last at `buf[0]` counts if nothing else was kept.
abbrev pub finish : Bytes → Bytes
finish [] = b'0' ∷ []
finish (c ∷ cs) = c ∷ cs

unfoldable pub hex_digit : ℕ → ℕ
hex_digit c = c + (if ltb c 10 then b'0' else b'A' - 10)

-- The loop of `int2hexstr`; with `k` rounds left after this one, `n` is 4 * k.
unfoldable pub int2hexstr_loop : ℕ → ℕ → ℕ → Bytes → Bytes
int2hexstr_loop zero l max_len out = out
int2hexstr_loop (suc k) l max_len out =
    let rest = int2hexstr_loop k l max_len (keep out (hex_digit (l / 2 ^ (4 * k) % 16))) in
    if ltb (length out) max_len then rest else out

-- The characters that `int2hexstr` leaves in `buf`, as many as it returns; `max_len` is positive.
unfoldable pub int2hexstr : ℕ → ℕ → Bytes
int2hexstr l max_len = finish (int2hexstr_loop 8 l max_len [])

-- The loop of `int2str`; with `k` rounds left after this one, `n` is 10 ^ k.
unfoldable pub int2str_loop : ℕ → ℕ → ℕ → Bytes → Bytes
int2str_loop zero l max_len out = out
int2str_loop (suc k) l max_len out =
    let rest = int2str_loop k (l % 10 ^ k) max_len (keep out (l / 10 ^ k + b'0')) in
    if ltb (length out) max_len then rest else out

-- The characters that `int2str` leaves in `buf`; `max_len` is positive.
unfoldable pub int2str : ℕ → ℕ → Bytes
int2str l max_len = finish (int2str_loop 10 l max_len [])

-- `none` stands for the result -1.
unfoldable pub hexchar2int : ℕ → Option ℕ
hexchar2int c =
    if leb b'0' c && leb c b'9'
    then some (c - b'0')
    else if leb b'A' c && leb c b'F'
    then some (10 + c - b'A')
    else if leb b'a' c && leb c b'f'
    then some (10 + c - b'a')
    else none

-- The digits are accumulated in an `int`, modulo 2 ^ 32; `none` stands for the early result -1.
unfoldable pub hexstr2int_loop : Bytes → ℕ → Option ℕ
unfolding hexchar2int
hexstr2int_loop [] n = some n
hexstr2int_loop (c ∷ cs) n =
    let d = hexchar2int c in
    elim d [ none ↦ none | some v ↦ hexstr2int_loop cs ((n * 16 + v) % 2 ^ 32) ]

unfoldable pub hexstr2int : Bytes → Option ℕ
unfolding hexstr2int_loop
hexstr2int cs = hexstr2int_loop cs 0

-- `to_32x_len`: the length rounded up to a multiple of 4, in unsigned arithmetic.
unfoldable pub to_32x_len : ℕ → ℕ
to_32x_len len = (len + (if len % 4 == 0 then 0 else 4 - len % 4)) % 2 ^ 32

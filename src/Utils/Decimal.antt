-- ===== src/Utils/Decimal.antt =====
-- What `int2str` writes, read back as a decimal number.
use native.Mathlib.Nat.{pow-suc, div-add-mod, mod-lt, div-lt_iff_lt-mul}
use disc.Base.{
  Bool, ℕ, zero, suc, ◌+◌, ◌-◌, ◌*◌, ◌/◌, ◌%◌, ◌^◌, ◌<◌, ◌≤◌, ◌≡◌, refl, ◌∙◌, ap, false, inl, inr,
  ◌&&◌, [], ◌∷◌, ◌++◌, append_assoc, append-nil, leb, le→leb, ◌==◌, if◌then◌else◌, ==→eq,
  Bool-cases, length, length-append, arith,
}
use disc.Utils.Hex.{length-finish}
use disc.Utils.{Bytes, keep, finish, int2str_loop, int2str}

abbrev pub is_decimal : ℕ → Bool
is_decimal c = leb b'0' c && leb c b'9'

-- The number that the digits at the front of a text stand for, and the rest of the text.
unfoldable pub read_decimal : Bytes → ℕ → ℕ × Bytes
read_decimal [] acc = (acc, [])
read_decimal (c ∷ cs) acc =
    let rest = read_decimal cs (acc * 10 + (c - b'0')) in
    if is_decimal c then rest else (acc, c ∷ cs)

-- The `k` lowest decimal digits, the highest first.
digits : ℕ → ℕ → Bytes
digits zero l = []
digits (suc k) l = (l / 10 ^ k + b'0') ∷ digits k (l % 10 ^ k)

pow-pos : (k : ℕ) → 0 < 10 ^ k
pow-pos zero = omega arith
pow-pos (suc k) = rw pow-suc (omega (arith, pow-pos k))

digit-lt : (k l : ℕ) → l < 10 ^ suc k → l / 10 ^ k < 10
digit-lt k l h = (div-lt_iff_lt-mul (pow-pos k)).1 (omega (arith, rw pow-suc at h))

rest-lt : (k l : ℕ) → l % 10 ^ k < 10 ^ k
rest-lt k l = mod-lt l (pow-pos k)

read_decimal-digit :
    (d acc : ℕ) (cs : Bytes)
    → d < 10
    → read_decimal ((d + b'0') ∷ cs) acc ≡ read_decimal cs (acc * 10 + d)
unfolding read_decimal
read_decimal-digit d acc cs h =
    rw (le→leb b'0' (d + b'0') (omega arith), le→leb (d + b'0') b'9' (omega arith))
      (ap (read_decimal cs) (omega arith))

value_step : (k l acc : ℕ) → (acc * 10 + l / 10 ^ k) * 10 ^ k + l % 10 ^ k ≡ acc * 10 ^ suc k + l
value_step k l acc = rw pow-suc (omega (arith, div-add-mod l (10 ^ k)))

read_decimal-digits :
    (k l acc c : ℕ) (cs : Bytes)
    → l < 10 ^ k
    → is_decimal c ≡ false
    → read_decimal (digits k l ++ (c ∷ cs)) acc ≡ (acc * 10 ^ k + l, c ∷ cs)
unfolding read_decimal digits
read_decimal-digits zero l acc c cs h hc = ground arith
read_decimal-digits (suc k) l acc c cs h hc =
    read_decimal-digit (l / 10 ^ k) acc (digits k (l % 10 ^ k) ++ (c ∷ cs)) (digit-lt k l h)
    ∙ read_decimal-digits k (l % 10 ^ k) (acc * 10 + l / 10 ^ k) c cs (rest-lt k l) hc
    ∙ ap (λ n. (n, c ∷ cs)) (value_step k l acc)

int2str_loop_started :
    (k l x : ℕ) (xs : Bytes)
    → length xs + k < 10
    → int2str_loop k l 10 (x ∷ xs) ≡ (x ∷ xs) ++ digits k l
unfolding int2str_loop digits
int2str_loop_started zero l x xs h = rw append-nil
int2str_loop_started (suc k) l x xs h =
    let d = l / 10 ^ k + b'0' in
    ground (
      arith,
      int2str_loop_started k (l % 10 ^ k) x (xs ++ (d ∷ [])),
      length-append xs (d ∷ []),
      append_assoc xs (d ∷ []) (digits k (l % 10 ^ k)),
    )

int2str_loop_zero :
    (k l : ℕ) → l / 10 ^ k ≡ 0 → int2str_loop (suc k) l 10 [] ≡ int2str_loop k (l % 10 ^ k) 10 []
unfolding int2str_loop
int2str_loop_zero k l e = rw e

int2str_loop_digit :
    (k l : ℕ)
    → (l / 10 ^ k == 0) ≡ false
    → int2str_loop (suc k) l 10 [] ≡ int2str_loop k (l % 10 ^ k) 10 ((l / 10 ^ k + b'0') ∷ [])
unfolding int2str_loop
int2str_loop_digit k l e = let kept : (l / 10 ^ k + b'0' == b'0') ≡ false = ground arith in rw kept

-- From an empty buffer: the leading zeros are not written, and do not change the number.
read_decimal-loop :
    (k l c : ℕ) (cs : Bytes)
    → k ≤ 10
    → l < 10 ^ k
    → is_decimal c ≡ false
    → read_decimal (int2str_loop k l 10 [] ++ (c ∷ cs)) 0 ≡ (l, c ∷ cs)
unfolding digits
read_decimal-loop zero l c cs hk h hc = unfold int2str_loop read_decimal in ground arith
read_decimal-loop (suc k) l c cs hk h hc = elim (Bool-cases (l / 10 ^ k == 0)) [
  | inl zero_digit ↦
      let e : l / 10 ^ k ≡ 0 = ==→eq _ 0 zero_digit in
      let same : l % 10 ^ k ≡ l = omega (arith, rw e at (div-add-mod l (10 ^ k))) in
      ap (λ out. read_decimal (out ++ (c ∷ cs)) 0) (int2str_loop_zero k l e)
      ∙ read_decimal-loop k (l % 10 ^ k) c cs (omega arith) (rest-lt k l) hc
      ∙ ap (λ n. (n, c ∷ cs)) same
  | inr other ↦
      ap (λ out. read_decimal (out ++ (c ∷ cs)) 0)
        (int2str_loop_digit k l other
          ∙ int2str_loop_started k (l % 10 ^ k) (l / 10 ^ k + b'0') [] (omega arith))
      ∙ read_decimal-digits (suc k) l 0 c cs h hc
      ∙ ap (λ n. (n, c ∷ cs)) (omega arith)
]

read_decimal-finish :
    (out : Bytes) (c : ℕ) (cs : Bytes)
    → is_decimal c ≡ false
    → read_decimal (finish out ++ (c ∷ cs)) 0 ≡ read_decimal (out ++ (c ∷ cs)) 0
read_decimal-finish [] c cs h = read_decimal-digit 0 0 (c ∷ cs) (omega arith)
read_decimal-finish (x ∷ xs) c cs h = refl

-- What `int2str` wrote for a 32-bit number, in front of a character that is no digit.
pub read_decimal-int2str :
    (l c : ℕ) (cs : Bytes)
    → l < 2 ^ 32
    → is_decimal c ≡ false
    → read_decimal (int2str l 10 ++ (c ∷ cs)) 0 ≡ (l, c ∷ cs)
unfolding int2str
read_decimal-int2str l c cs h hc =
    read_decimal-finish (int2str_loop 10 l 10 []) c cs hc
    ∙ read_decimal-loop 10 l c cs (omega arith) (omega arith) hc

length-int2str_loop : (k l : ℕ) (out : Bytes) → length (int2str_loop k l 10 out) ≤ length out + k
unfolding int2str_loop
length-int2str_loop zero l out = omega arith
length-int2str_loop (suc k) l out = ground (
  arith,
  length-int2str_loop k (l % 10 ^ k) (keep out (l / 10 ^ k + b'0')),
  length-append out ((l / 10 ^ k + b'0') ∷ []),
)

pub length-int2str : (l : ℕ) → length (int2str l 10) ≤ 10
unfolding int2str
length-int2str l = length-finish 10 _ (omega arith) (length-int2str_loop 10 l [])

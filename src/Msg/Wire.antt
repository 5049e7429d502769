-- ===== src/Msg/Wire.antt =====
-- Numbers in a byte buffer: the macros `get_3bytes`, `get_4bytes`, `set_3bytes`, `set_4bytes` of
-- diameter_msg/message.c, and `htonl` and plain stores on a little-endian machine.
use disc.Base.{
  ℕ, ◌+◌, ◌*◌, ◌/◌, ◌%◌, ◌^◌, ◌<◌, ◌≤◌, ◌≡◌, refl, ap, [], ◌∷◌, ◌++◌, All, length, arith, leb, take,
  drop, if◌then◌else◌,
}
use disc.Utils.{Bytes}

-- `err` is the jump to `error`; `fault` is an access outside the buffer.
pub data Result {ℓ} (A : Type ℓ) : Type ℓ where
  ok : A → Result A
  err : Result A
  fault : Result A

infixl 5 ◌>>=◌ ◌>>◌
abbrev pub ◌>>=◌ {ℓ κ} : {A : Type ℓ} {B : Type κ} → Result A → (A → Result B) → Result B
ok a >>= f = f a
err >>= f = err
fault >>= f = fault

abbrev pub ◌>>◌ {ℓ} : {B : Type ℓ} → Result (Unit {0}) → Result B → Result B
m >> k = m >>= λ _. k

abbrev pub IsByte : ℕ → Type 0
IsByte b = b < 256

-- The readers take the bytes from the pointer on.
unfoldable pub get_byte : Bytes → Result ℕ
get_byte [] = fault
get_byte (a ∷ bs) = ok a

unfoldable pub get_3bytes : Bytes → Result ℕ
get_3bytes (a ∷ b ∷ c ∷ bs) = ok (a * 2 ^ 16 + b * 2 ^ 8 + c)
get_3bytes _ = fault

unfoldable pub get_4bytes : Bytes → Result ℕ
get_4bytes (a ∷ b ∷ c ∷ d ∷ bs) = ok (a * 2 ^ 24 + b * 2 ^ 16 + c * 2 ^ 8 + d)
get_4bytes _ = fault

-- `*((unsigned int*)ptr)`
unfoldable pub load_word : Bytes → Result ℕ
load_word (a ∷ b ∷ c ∷ d ∷ bs) = ok (a + b * 2 ^ 8 + c * 2 ^ 16 + d * 2 ^ 24)
load_word _ = fault

abbrev pub set_3bytes : ℕ → Bytes
set_3bytes v = v / 2 ^ 16 % 256 ∷ v / 2 ^ 8 % 256 ∷ v % 256 ∷ []

-- Also `((unsigned int*)p)[0] = htonl(v)`.
abbrev pub set_4bytes : ℕ → Bytes
set_4bytes v = v / 2 ^ 24 % 256 ∷ v / 2 ^ 16 % 256 ∷ v / 2 ^ 8 % 256 ∷ v % 256 ∷ []

-- `((unsigned int*)p)[0] = v`
abbrev pub store_word : ℕ → Bytes
store_word v = v % 256 ∷ v / 2 ^ 8 % 256 ∷ v / 2 ^ 16 % 256 ∷ v / 2 ^ 24 % 256 ∷ []

-- The bytes `bs` put into the buffer at offset `p`.
unfoldable pub write : Bytes → ℕ → Bytes → Result Bytes
write buf p bs =
    if leb (p + length bs) (length buf)
    then ok (take p buf ++ (bs ++ drop (p + length bs) buf))
    else fault

pub get_3bytes-set_3bytes :
    (v : ℕ) (bs : Bytes) → v < 2 ^ 24 → get_3bytes (set_3bytes v ++ bs) ≡ ok v
unfolding get_3bytes
get_3bytes-set_3bytes v bs h = ap ok (omega arith)

pub get_4bytes-set_4bytes :
    (v : ℕ) (bs : Bytes) → v < 2 ^ 32 → get_4bytes (set_4bytes v ++ bs) ≡ ok v
unfolding get_4bytes
get_4bytes-set_4bytes v bs h = ap ok (omega arith)

pub load_word-store_word : (v : ℕ) (bs : Bytes) → v < 2 ^ 32 → load_word (store_word v ++ bs) ≡ ok v
unfolding load_word
load_word-store_word v bs h = ap ok (omega arith)

pub get_byte_total :
    (bs : Bytes) → All IsByte bs → 1 ≤ length bs → (v : ℕ) × (get_byte bs ≡ ok v) × IsByte v
unfolding get_byte
get_byte_total [] h l = absurd (omega arith)
get_byte_total (a ∷ bs) h l = (a, refl, h.0)

pub get_3bytes_total :
    (bs : Bytes) → All IsByte bs → 3 ≤ length bs → (v : ℕ) × (get_3bytes bs ≡ ok v) × (v < 2 ^ 24)
unfolding get_3bytes
get_3bytes_total (a ∷ b ∷ c ∷ bs) h l = (a * 2 ^ 16 + b * 2 ^ 8 + c, refl, omega arith)
get_3bytes_total (a ∷ b ∷ []) h l = absurd (omega arith)
get_3bytes_total (a ∷ []) h l = absurd (omega arith)
get_3bytes_total [] h l = absurd (omega arith)

pub get_4bytes_total :
    (bs : Bytes) → All IsByte bs → 4 ≤ length bs → (v : ℕ) × (get_4bytes bs ≡ ok v) × (v < 2 ^ 32)
unfolding get_4bytes
get_4bytes_total (a ∷ b ∷ c ∷ d ∷ bs) h l =
    (a * 2 ^ 24 + b * 2 ^ 16 + c * 2 ^ 8 + d, refl, omega arith)
get_4bytes_total (a ∷ b ∷ c ∷ []) h l = absurd (omega arith)
get_4bytes_total (a ∷ b ∷ []) h l = absurd (omega arith)
get_4bytes_total (a ∷ []) h l = absurd (omega arith)
get_4bytes_total [] h l = absurd (omega arith)

pub load_word_total :
    (bs : Bytes) → All IsByte bs → 4 ≤ length bs → (v : ℕ) × (load_word bs ≡ ok v) × (v < 2 ^ 32)
unfolding load_word
load_word_total (a ∷ b ∷ c ∷ d ∷ bs) h l =
    (a + b * 2 ^ 8 + c * 2 ^ 16 + d * 2 ^ 24, refl, omega arith)
load_word_total (a ∷ b ∷ c ∷ []) h l = absurd (omega arith)
load_word_total (a ∷ b ∷ []) h l = absurd (omega arith)
load_word_total (a ∷ []) h l = absurd (omega arith)
load_word_total [] h l = absurd (omega arith)

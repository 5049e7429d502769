-- ===== src/Session/Id.antt =====
-- diameter_api/session.c: `generate_sessionID`, the end of `AAAStartSession`, `parse_sessionID`.
pub mod Counter
pub mod RoundTrip
pub mod Text
use disc.Base.{
  ℕ, zero, suc, ◌+◌, ◌*◌, ◌%◌, ◌^◌, Bool, true, false, Option, none, some, List, [], ◌∷◌, ◌++◌,
  reverse, leb, ◌==◌, if◌then◌else◌, length,
}
use disc.Utils.{Bytes, int2str, int2hexstr, hexchar2int}

-- `monoton_sID`: `low` is element 0 and `high` element 1.
pub record Monotonic : Type 0 where
  pub low : ℕ
  pub high : ℕ

-- `inc_64biti`, on unsigned 32-bit numbers.
pub inc_64biti : Monotonic → Monotonic
inc_64biti v =
    let low = (v.low + 1) % 2 ^ 32 in
    record { low = low; high = (v.high + (if low == 0 then 1 else 0)) % 2 ^ 32 }

-- The room that `generate_sessionID` asks `shm_malloc` for.
pub session_id_room : Bytes → ℕ → ℕ
session_id_room aaa_identity end_pad_len =
    length aaa_identity + 1 + 10 + 1 + 10 + 1 + 8 + end_pad_len

-- The text that `generate_sessionID` writes, and the counter after it; `rand` is what `rand()`
-- returned. The failure of `shm_malloc` is the business of the caller.
pub generate_session_id : Bytes → Monotonic → ℕ → Bytes × Monotonic
generate_session_id aaa_identity v rand = (
  aaa_identity
      ++ (b';' ∷ int2str v.high 10 ++ (b';' ∷ int2str v.low 10 ++ (b';' ∷ int2hexstr rand 8))),
  inc_64biti v,
)

-- The hash code and the label that `AAAStartSession` appends once the session is in the table.
pub append_hash_and_label : Bytes → ℕ → ℕ → Bytes
append_hash_and_label id hash_code label =
    id ++ (b'.' ∷ int2hexstr hash_code 8 ++ (b'.' ∷ int2hexstr label 8))

-- The text that `AAAStartSession` leaves in `session->sID`, and the counter after it.
unfoldable pub start_session_id : Bytes → Monotonic → ℕ → ℕ → ℕ → Bytes × Monotonic
start_session_id aaa_identity v rand hash_code label =
    let (id, v') = generate_session_id aaa_identity v rand in
    (append_hash_and_label id hash_code label, v')

-- `undefined`: the source shifts a 32-bit number by 32 or more, which C leaves undefined.
pub data Parsed {ℓ} (A : Type ℓ) : Type ℓ where
  parsed : A → Parsed A
  failed : Parsed A
  undefined : Parsed A

infixl 5 ◌>>=◌
abbrev ◌>>=◌ {ℓ κ} : {A : Type ℓ} {B : Type κ} → Parsed A → (A → Parsed B) → Parsed B
parsed a >>= f = f a
failed >>= f = failed
undefined >>= f = undefined

-- `u += ((unsigned int)c) << rang`
add_digit : ℕ → ℕ → ℕ → Parsed ℕ
add_digit u rang v = if leb 32 rang then undefined else parsed ((u + v * 2 ^ rang) % 2 ^ 32)

-- A loop of `parse_sessionID`, from the end of the text: the list is what lies from `p` back to `s`.
pub parse_field : Bytes → ℕ → ℕ → Parsed (ℕ × Bytes)
parse_field [] u rang = parsed (u, [])
parse_field (c ∷ cs) u rang =
    let rest = λ (u' : ℕ). parse_field cs u' (rang + 4) in
    if c == b'.'
    then parsed (u, c ∷ cs)
    else elim (hexchar2int c) [ none ↦ failed | some v ↦ add_digit u rang v >>= rest ]

-- `if (p<=s || *(p--)!='.') goto error`
skip_dot : Bytes → Parsed Bytes
skip_dot [] = failed
skip_dot (c ∷ []) = failed
skip_dot (c ∷ d ∷ cs) = if c == b'.' then parsed (d ∷ cs) else failed

-- The hash code and the label, in this order.
pub parse_session_id : Bytes → Parsed (ℕ × ℕ)
parse_session_id id = do
  (label, cs) ← parse_field (reverse id) 0 0
  cs ← skip_dot cs
  (hash_code, cs) ← parse_field cs 0 0
  _ ← skip_dot cs
  parsed (hash_code, label)

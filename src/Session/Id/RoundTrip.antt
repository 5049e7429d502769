-- ===== src/Session/Id/RoundTrip.antt =====
-- `parse_sessionID` reads back what `AAAStartSession` appended.
use mathlib.Core.List.{reverse-append, reverse-cons}
use disc.Base.{
  ℕ, zero, suc, ◌+◌, ◌*◌, ◌/◌, ◌%◌, ◌^◌, ◌<◌, ◌≤◌, ◌≡◌, refl, ◌∙◌, ap, inl, inr, [], ◌∷◌, ◌++◌,
  reverse, append_assoc, ◌==◌, Bool-cases, length, length-append, length-reverse, ==→eq, arith,
}
use disc.Utils.{Bytes, hex_digit, hexchar2int, finish, int2hexstr_loop, int2hexstr}
use disc.Utils.Hex.{
  hexchar2int-hex_digit, hex_digit_zero, hex_digit-ne_dot, digit_step, digit_zero,
  int2hexstr_loop_started,
}
use disc.Session.Id.{
  parsed, append_hash_and_label, add_digit, parse_field, skip_dot, parse_session_id,
}

add_digit-parsed :
    (k l : ℕ)
    → k < 8
    → add_digit (l % 2 ^ (4 * k)) (4 * k) (l / 2 ^ (4 * k) % 16) ≡ parsed (l % 2 ^ (4 * suc k))
unfolding add_digit
add_digit-parsed k l h = ground (arith, digit_step k l)

-- One digit that `int2hexstr` wrote.
parse_field-digit :
    (k l : ℕ) (cs : Bytes)
    → k < 8
    → parse_field (hex_digit (l / 2 ^ (4 * k) % 16) ∷ cs) (l % 2 ^ (4 * k)) (4 * k)
      ≡ parse_field cs (l % 2 ^ (4 * suc k)) (4 * suc k)
unfolding parse_field
parse_field-digit k l cs h =
    rw (hex_digit-ne_dot, hexchar2int-hex_digit (l / 2 ^ (4 * k) % 16) (omega arith))
      (rw (add_digit-parsed k l h) (ap (parse_field cs (l % 2 ^ (4 * suc k))) (omega arith)))

-- The digits that the loop appends behind a kept character are read back, the last one first.
parse_field_started :
    (k l x : ℕ) (xs cs : Bytes)
    → length xs + k < 8
    → parse_field (reverse (int2hexstr_loop k l 8 (x ∷ xs)) ++ cs) 0 0
      ≡ parse_field (reverse (x ∷ xs) ++ cs) (l % 2 ^ (4 * k)) (4 * k)
parse_field_started zero l x xs cs h =
    unfold int2hexstr_loop in ap (λ u. parse_field (reverse (x ∷ xs) ++ cs) u 0) (omega arith)
parse_field_started (suc k) l x xs cs h =
    let d = hex_digit (l / 2 ^ (4 * k) % 16) in
    rw (int2hexstr_loop_started k l x xs (omega arith)) (
      parse_field_started k l x (xs ++ (d ∷ [])) cs (omega (arith, length-append xs (d ∷ [])))
      ∙ rw (reverse-append (x ∷ xs) (d ∷ []))
          (parse_field-digit k l (reverse (x ∷ xs) ++ cs) (omega arith)))

-- From an empty buffer: the leading zeros are not written, and do not change the number.
parse_field-loop :
    (k l : ℕ) (cs : Bytes)
    → k ≤ 8
    → parse_field (reverse (int2hexstr_loop k l 8 []) ++ (b'.' ∷ cs)) 0 0
      ≡ parsed (l % 2 ^ (4 * k), b'.' ∷ cs)
unfolding parse_field int2hexstr_loop
parse_field-loop zero l cs h = ap (λ u. parsed (u, b'.' ∷ cs)) (omega arith)
parse_field-loop (suc k) l cs h =
    let d = l / 2 ^ (4 * k) % 16 in
    elim (Bool-cases (d == 0)) [
      | inl zero_digit ↦
          rw (hex_digit_zero d (omega arith), zero_digit)
            (parse_field-loop k l cs (omega arith)
              ∙ ap (λ u. parsed (u, b'.' ∷ cs))
                  (digit_zero k l (omega arith) (==→eq d 0 zero_digit)))
      | inr other ↦
          rw (hex_digit_zero d (omega arith), other)
            (parse_field_started k l (hex_digit d) [] (b'.' ∷ cs) (omega arith)
              ∙ parse_field-digit k l (b'.' ∷ cs) (omega arith))
    ]

parse_field-finish :
    (out cs : Bytes)
    → parse_field (reverse (finish out) ++ (b'.' ∷ cs)) 0 0
      ≡ parse_field (reverse out ++ (b'.' ∷ cs)) 0 0
unfolding parse_field hexchar2int add_digit
parse_field-finish [] cs = refl
parse_field-finish (x ∷ xs) cs = refl

-- A number of 32 bits in front of a dot, read from the end.
pub parse_field-int2hexstr :
    (l : ℕ) (cs : Bytes)
    → l < 2 ^ 32
    → parse_field (reverse (int2hexstr l 8) ++ (b'.' ∷ cs)) 0 0 ≡ parsed (l, b'.' ∷ cs)
unfolding int2hexstr
parse_field-int2hexstr l cs h =
    parse_field-finish (int2hexstr_loop 8 l 8 []) cs
    ∙ parse_field-loop 8 l cs (omega arith)
    ∙ ap (λ u. parsed (u, b'.' ∷ cs)) (omega arith)

skip_dot_lem : (cs : Bytes) → 0 < length cs → skip_dot (b'.' ∷ cs) ≡ parsed cs
unfolding skip_dot
skip_dot_lem [] h = absurd (omega arith)
skip_dot_lem (c ∷ cs) h = refl

reverse_middle :
    (xs : Bytes) (x : ℕ) (ys : Bytes) → reverse (xs ++ (x ∷ ys)) ≡ reverse ys ++ (x ∷ reverse xs)
reverse_middle xs x ys = reverse-append xs (x ∷ ys) ∙ rw (reverse-cons x ys, append_assoc)

-- For an identifier that is not empty and numbers of 32 bits, parsing what `AAAStartSession` made
-- of them by appending succeeds, and gives back the hash code and the label.
pub parse_session_id-append :
    (id : Bytes) (hash_code label : ℕ)
    → 0 < length id
    → hash_code < 2 ^ 32
    → label < 2 ^ 32
    → parse_session_id (append_hash_and_label id hash_code label) ≡ parsed (hash_code, label)
unfolding parse_session_id append_hash_and_label
parse_session_id-append id hash_code label h hh hl =
    let front = b'.' ∷ reverse id in
    let middle = reverse (int2hexstr hash_code 8) ++ front in
    rw (
      reverse_middle id b'.' _,
      reverse_middle (int2hexstr hash_code 8) b'.' _,
      append_assoc,
      parse_field-int2hexstr label middle hl,
      skip_dot_lem middle (omega (arith, length-append (reverse (int2hexstr hash_code 8)) front)),
      parse_field-int2hexstr hash_code (reverse id) hh,
      skip_dot_lem (reverse id) (omega (arith, length-reverse id)),
    )

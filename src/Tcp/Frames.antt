-- ===== src/Tcp/Frames.antt =====
-- Messages in a stream of bytes, and what a write into a buffer leaves.
use disc.Base.{
  ℕ, zero, suc, ◌+◌, ◌*◌, ◌^◌, ◌<◌, ◌≤◌, ◌≡◌, refl, ap, ◌⊎◌, [], ◌∷◌, ◌++◌, append_assoc, length,
  length-append, length-drop, take, drop, take_all, le→leb, arith,
}
use disc.Utils.{Bytes}
use disc.Msg.Wire.{ok, get_4bytes, write}
use disc.Tcp.{msg_len}

-- The bytes of a message: the length in its header is its own.
abbrev pub IsFrame : Bytes → Type 0
IsFrame m =
    (v : ℕ) × (get_4bytes m ≡ ok v) × (msg_len v ≡ length m) × (20 ≤ length m) × (length m ≤ 65536)

-- The length in the header is too small or too large.
abbrev pub IsBroken : Bytes → Type 0
IsBroken bs = (v : ℕ) × (get_4bytes bs ≡ ok v) × ((msg_len v < 20) ⊎ (65536 < msg_len v))

pub length-take : (n : ℕ) (bs : Bytes) → n ≤ length bs → length (take n bs) ≡ n
length-take zero bs h = refl
length-take (suc n) [] h = absurd (omega arith)
length-take (suc n) (c ∷ cs) h = ap suc (length-take n cs (omega arith))

pub take_whole : (n : ℕ) (bs : Bytes) → length bs ≤ n → take n bs ≡ bs
take_whole zero [] h = refl
take_whole zero (c ∷ cs) h = absurd (omega arith)
take_whole (suc n) [] h = refl
take_whole (suc n) (c ∷ cs) h = ap (λ ds. c ∷ ds) (take_whole n cs (omega arith))

take-append : (n : ℕ) (xs ys : Bytes) → length xs ≡ n → take n (xs ++ ys) ≡ xs
take-append n xs ys e = rw (← e) (take_all xs ys)

-- A write inside the buffer keeps its length, and adds to the bytes in front of it.
pub write_lem :
    (buf : Bytes) (p : ℕ) (bs : Bytes)
    → p + length bs ≤ length buf
    → (mem : Bytes) × (write buf p bs ≡ ok mem)
      × (length mem ≡ length buf)
      × (take (p + length bs) mem ≡ take p buf ++ bs)
unfolding write
write_lem buf p bs h =
    let rest : Bytes = drop (p + length bs) buf in
    let front = length-take p buf (omega arith) in
    (
      take p buf ++ (bs ++ rest),
      rw (le→leb (p + length bs) (length buf) h) refl,
      omega (
        arith,
        length-append (take p buf) (bs ++ rest),
        length-append bs rest,
        length-drop (p + length bs) buf,
      ),
      rw (← append_assoc (take p buf) bs rest) (
          take-append (p + length bs) (take p buf ++ bs) rest
            (omega (arith, length-append (take p buf) bs))),
    )

pub get_4bytes-append :
    (bs cs : Bytes) (v : ℕ) → get_4bytes bs ≡ ok v → get_4bytes (bs ++ cs) ≡ ok v
unfolding get_4bytes
get_4bytes-append (a ∷ b ∷ c ∷ d ∷ bs) cs v e = e
get_4bytes-append (a ∷ b ∷ c ∷ []) cs v e = cc
get_4bytes-append (a ∷ b ∷ []) cs v e = cc
get_4bytes-append (a ∷ []) cs v e = cc
get_4bytes-append [] cs v e = cc

pub get_4bytes_four : (bs : Bytes) → length bs ≡ 4 → (v : ℕ) × (get_4bytes bs ≡ ok v)
unfolding get_4bytes
get_4bytes_four (a ∷ b ∷ c ∷ d ∷ bs) e = (a * 2 ^ 24 + b * 2 ^ 16 + c * 2 ^ 8 + d, refl)
get_4bytes_four (a ∷ b ∷ c ∷ []) e = absurd (omega arith)
get_4bytes_four (a ∷ b ∷ []) e = absurd (omega arith)
get_4bytes_four (a ∷ []) e = absurd (omega arith)
get_4bytes_four [] e = absurd (omega arith)

-- ===== src/Tcp/Rounds.antt =====
-- One round of the loop of do_read: what becomes of the bytes that `recv` gave.
use disc.Base.{
  ℕ, ◌+◌, ◌-◌, ◌<◌, ◌≤◌, ◌≡◌, refl, sym, subst, ap, ◌∙◌, ◌⊎◌, inl, inr, Option, none, some, ◌++◌,
  length, length-append, take, ltb, Bool-cases, Option-cases, arith,
}
use disc.Utils.{Bytes}
use disc.Msg.Wire.{ok, get_4bytes, store_word, write}
use disc.Tcp.{
  Reader, room, msg_len, is_bad_len, Turn, turn, whole, broken, outside, start_msg, take_in,
}
use disc.Tcp.Frames.{
  IsFrame, IsBroken, length-take, take_whole, write_lem, get_4bytes-append, get_4bytes_four,
}

-- What is read of the message so far, and how long the part is that is being read.
abbrev pub pending : Reader → Bytes
pending r = take r.buf_len (room r)

abbrev pub size : Reader → ℕ
size r = elim r.buf [ none ↦ 4 | some b ↦ length b ]

-- Memory of `len` bytes of a message of `len` bytes, `n` of which are there
abbrev pub IsBegun : Bytes → Bytes → ℕ → Type 0
IsBegun first b n =
    (first ≡ store_word (length b))
    × (4 ≤ n)
    × (n < length b)
    × (20 ≤ length b)
    × (length b ≤ 65536)
    × ((v : ℕ) × (get_4bytes (take n b) ≡ ok v) × (msg_len v ≡ length b))

-- Between two rounds: the header is incomplete, or the message is.
abbrev pub IsReading : Reader → Type 0
IsReading r = elim r.buf [
  | none ↦ (length r.first_4bytes ≡ 4) × (r.buf_len < 4)
  | some b ↦ IsBegun r.first_4bytes b r.buf_len
]

-- Something is wanted between two rounds.
pub IsReading-wants :
    (o : Option Bytes) (first : Bytes) (n : ℕ)
    → (let r : Reader = record { first_4bytes = first; buf = o; buf_len = n } in
        IsReading r → 0 < size r - n)
IsReading-wants none first n h = omega (arith, h.1)
IsReading-wants (some b) first n h = omega (arith, h.2)

-- What a round makes of the bytes `bs`, which are all that is read so far.
abbrev pub IsTurn : (ℕ → Option Bytes) → Bytes → Turn → Type 0
IsTurn alloc bs (turn q w p) =
    IsReading q × (w ≡ size q - q.buf_len) × (p ≡ q.buf_len) × (pending q ≡ bs)
IsTurn alloc bs (whole m) = (m ≡ bs) × IsFrame bs
IsTurn alloc bs (broken q) = IsBroken bs ⊎ ((n : ℕ) × (alloc n ≡ none) × (20 ≤ n) × (n ≤ 65536))
IsTurn alloc bs outside = ⊥

module _ (alloc : ℕ → Option Bytes)
    (gives : (n : ℕ) (b : Bytes) → alloc n ≡ some b → length b ≡ n) where
  -- The header is complete and good, and there is memory for the message.
  begun :
      (first b : Bytes) (v : ℕ)
      → length first ≡ 4
      → get_4bytes first ≡ ok v
      → length b ≡ msg_len v
      → 20 ≤ msg_len v
      → msg_len v ≤ 65536
      → (b' : Bytes) × (write b 0 first ≡ ok b')
        × (length b' ≡ msg_len v)
        × (take 4 b' ≡ first)
        × IsBegun (store_word (msg_len v)) b' 4
  begun first b v four e l lo hi =
      let (b', written, same, front) = write_lem b 0 first (omega arith) in
      let len : length b' ≡ msg_len v = same ∙ l in
      let head : take 4 b' ≡ first =
        subst (λ n. take n b' ≡ first) {x = 0 + length first} {y = 4} (omega arith) front in
      (
        b',
        written,
        len,
        head,
        (
          ap store_word (sym len),
          omega arith,
          omega arith,
          omega arith,
          omega arith,
          (v, ap get_4bytes head ∙ e, sym len),
        ),
      )

  start_msg-IsTurn :
      (first : Bytes) (n : ℕ)
      → length first ≡ 4
      → IsTurn alloc first
          (start_msg alloc (record { first_4bytes = first; buf = none; buf_len = n }))
  unfolding start_msg
  start_msg-IsTurn first n four =
      let (v, e) = get_4bytes_four first four in
      elim (Bool-cases (is_bad_len (msg_len v))) [
        | inl bad ↦ rw (start_msg, e, bad) (inl (v, e, ground arith))
        | inr good ↦
            let lo : 20 ≤ msg_len v = ground arith in
            let hi : msg_len v ≤ 65536 = ground arith in
            elim (Option-cases (alloc (msg_len v))) [
              | inl out ↦ rw (start_msg, e, good, out) (inr (msg_len v, out, lo, hi))
              | inr (b, got) ↦
                  let (b', written, len, head, ready) =
                    begun first b v four e (gives (msg_len v) b got) lo hi in
                  rw (start_msg, e, good, got, written) (ready, rw len refl, refl, head)
            ]
      ]

  -- `recv` gave `bs` while the header was incomplete.
  take_header-IsTurn :
      (first bs : Bytes) (n : ℕ)
      → length first ≡ 4
      → n + length bs ≤ 4
      → IsTurn alloc
          (take n first ++ bs)
          (take_in alloc (record { first_4bytes = first; buf = none; buf_len = n }) (4 - n) n bs)
  unfolding take_in
  take_header-IsTurn first bs n four h =
      let (mem, written, same, front) = write_lem first n bs (omega arith) in
      elim (Bool-cases (ltb (length bs) (4 - n))) [
        | inl more ↦
            rw (take_in, written, more) ((omega arith, ground arith), ground arith, refl, front)
        | inr done ↦
            let all : n + length bs ≡ 4 = ground arith in
            let it : mem ≡ take n first ++ bs =
              sym (take_whole (n + length bs) mem (omega arith)) ∙ front in
            rw (take_in, written, done)
              (subst
                (λ m. IsTurn alloc m (
                  start_msg alloc
                    (record { first_4bytes = mem; buf = none; buf_len = n + length bs })))
                it (start_msg-IsTurn mem (n + length bs) (omega arith)))
      ]

  -- `recv` gave `bs` while the message was incomplete.
  take_body-IsTurn :
      (first b bs : Bytes) (n : ℕ)
      → IsBegun first b n
      → n + length bs ≤ length b
      → IsTurn alloc (take n b ++ bs) (
          take_in alloc
            (record { first_4bytes = first; buf = some b; buf_len = n })
            (length b - n)
            n
            bs)
  unfolding take_in
  take_body-IsTurn first b bs n (word, four, below, lo, hi, (v, e, l)) h =
      let (mem, written, same, front) = write_lem b n bs h in
      let head : get_4bytes (take n b ++ bs) ≡ ok v = get_4bytes-append (take n b) bs v e in
      elim (Bool-cases (ltb (length bs) (length b - n))) [
        | inl more ↦
            rw (take_in, written, more)
              (
                (
                  word ∙ ap store_word (sym same),
                  omega arith,
                  ground arith,
                  omega arith,
                  omega arith,
                  (v, ap get_4bytes front ∙ head, l ∙ sym same),
                ),
                ground arith,
                refl,
                front,
              )
        | inr done ↦
            let all : length (take n b ++ bs) ≡ length b =
              ground (arith, length-append (take n b) bs, length-take n b (omega arith)) in
            rw (take_in, written, done) (front, (v, head, l ∙ sym all, omega arith, omega arith))
      ]

  take_fields-IsTurn :
      (o : Option Bytes) (first : Bytes) (n : ℕ) (bs : Bytes)
      → (let r : Reader = record { first_4bytes = first; buf = o; buf_len = n } in
          IsReading r
          → length bs ≤ size r - n
          → IsTurn alloc (pending r ++ bs) (take_in alloc r (size r - n) n bs))
  take_fields-IsTurn none first n bs (four, below) l =
      take_header-IsTurn first bs n four (omega arith)
  take_fields-IsTurn (some b) first n bs h l = take_body-IsTurn first b bs n h (omega (arith, h.2))

  -- A round in which `recv` gives no more than is wanted.
  pub take_in-IsTurn :
      (r : Reader) (bs : Bytes)
      → IsReading r
      → length bs ≤ size r - r.buf_len
      → IsTurn alloc (pending r ++ bs) (take_in alloc r (size r - r.buf_len) r.buf_len bs)
  take_in-IsTurn r bs h l = take_fields-IsTurn r.buf r.first_4bytes r.buf_len bs h l

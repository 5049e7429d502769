-- ===== src/Tcp.antt =====
-- transport/tcp_receive.c: do_read, which cuts the bytes from a socket into messages.
pub mod System
pub mod Frames
pub mod Rounds
pub mod Streams
pub mod Runs
pub mod Cuts
pub mod Delivery
use disc.Base.{
  ℕ, zero, suc, ◌+◌, ◌-◌, ◌*◌, ◌%◌, ◌^◌, Bool, true, false, ◌||◌, Option, none, some, List, [], ◌∷◌,
  ltb, leb, length, take, replicate, if◌then◌else◌,
}
use disc.Utils.{Bytes}
use disc.Msg.Wire.{Result, ok, err, fault, get_4bytes, load_word, store_word, write}
use disc.Msg.Build.{aaa_msg_hdr_size}
use disc.Tcp.System.{Recv, received, not_yet, failed, Net}

-- What do_read keeps in `struct peer`. `first_4bytes` is four bytes of memory, which hold the bytes
-- read so far while `buf` is NULL, and then the length of the message.
pub record Reader : Type 0 where
  pub first_4bytes : Bytes
  pub buf : Option Bytes
  pub buf_len : ℕ

abbrev pub max_aaa_msg_size : ℕ
max_aaa_msg_size = 65536

-- As `reset_peer` and the end of a message leave it.
abbrev pub idle : Reader
idle = record { first_4bytes = store_word 0; buf = none; buf_len = 0 }

-- The result 1, with the message that is dispatched, or -1. `overrun` is an access outside of the
-- memory, and `endless` says that the fuel is spent.
pub data Outcome (S : Type 0) : Type 0 where
  going : Option Bytes → Reader → S → Outcome S
  closing : Reader → S → Outcome S
  overrun endless : Outcome S

-- Where `ptr` points into, and what is there behind the bytes of `recv`
abbrev pub room : Reader → Bytes
room r = elim r.buf [ none ↦ r.first_4bytes | some b ↦ b ]

abbrev pub filled : Reader → Bytes → ℕ → Reader
filled r bs n = elim r.buf [
  | none ↦ record r { first_4bytes = bs; buf_len = r.buf_len + n }
  | some b ↦ record r { buf = some bs; buf_len = r.buf_len + n }
]

-- `if (p->buf==0)`: what there is to be read in all
unfoldable pub goal : Reader → Result ℕ
goal r = elim r.buf [ none ↦ ok 4 | some b ↦ load_word r.first_4bytes ]

-- `ntohl(p->first_4bytes)&0x00ffffff`
abbrev pub msg_len : ℕ → ℕ
msg_len v = v % 2 ^ 24

abbrev pub is_bad_len : ℕ → Bool
is_bad_len len = ltb len aaa_msg_hdr_size || ltb max_aaa_msg_size len

-- Where a round leads to: `turn` with the values of `wanted_len` and `ptr`.
pub data Turn : Type 0 where
  turn : Reader → ℕ → ℕ → Turn
  whole : Bytes → Turn
  broken : Reader → Turn
  outside : Turn

-- The first four bytes are there.
unfoldable pub start_msg : (ℕ → Option Bytes) → Reader → Turn
start_msg alloc r = elim (get_4bytes r.first_4bytes) [
  | ok v ↦ if is_bad_len (msg_len v) then broken r else elim (alloc (msg_len v)) [
    | none ↦ broken r
    | some b ↦ elim (write b 0 r.first_4bytes) [
      | ok b' ↦
          turn (record { first_4bytes = store_word (msg_len v); buf = some b'; buf_len = 4 })
            (msg_len v - 4) 4
      | _ ↦ outside
    ]
  ]
  | _ ↦ outside
]

-- The bytes `bs` have been received at `ptr`.
unfoldable pub take_in : (ℕ → Option Bytes) → Reader → ℕ → ℕ → Bytes → Turn
take_in alloc r wanted_len ptr bs = elim (write (room r) ptr bs) [
  | ok mem ↦
      let q = filled r mem (length bs) in
      if ltb (length bs) wanted_len
      then turn q (wanted_len - length bs) (ptr + length bs)
      else elim q.buf [ none ↦ start_msg alloc q | some b ↦ whole (take q.buf_len b) ]
  | _ ↦ outside
]

module _ (net : Net) (alloc : ℕ → Option Bytes) where
  open net use {Socket, recv}

  unfoldable pub read_loop : ℕ → Reader → ℕ → ℕ → Socket → Outcome Socket
  read_loop zero r wanted_len ptr s = endless
  read_loop (suc n) r wanted_len ptr s =
      let (got, s') = recv s wanted_len in
      elim got [
        | not_yet ↦ going none r s'
        | failed ↦ closing r s'
        | received [] ↦ closing r s'
        | received (c ∷ cs) ↦ elim (take_in alloc r wanted_len ptr (c ∷ cs)) [
          | turn q wanted ptr' ↦ read_loop n q wanted ptr' s'
          | whole m ↦ going (some m) idle s'
          | broken q ↦ closing q s'
          | outside ↦ overrun
        ]
      ]

  unfoldable pub do_read : ℕ → Reader → Socket → Outcome Socket
  do_read n r s = elim (goal r) [
    | ok len ↦ read_loop n r (len - r.buf_len) r.buf_len s
    | _ ↦ overrun
  ]

  -- The calls for one peer, one after another; the messages that are dispatched, and the last result.
  unfoldable pub do_reads : ℕ → ℕ → Reader → Socket → List Bytes × Outcome Socket
  do_reads zero n r s = ([], going none r s)
  do_reads (suc k) n r s = elim (do_read n r s) [
    | going none q s' ↦ do_reads k n q s'
    | going (some m) q s' ↦ let (ms, o) = do_reads k n q s' in (m ∷ ms, o)
    | closing q s' ↦ ([], closing q s')
    | overrun ↦ ([], overrun)
    | endless ↦ ([], endless)
  ]

-- ===== src/Tcp/System.antt =====
-- What the program relies on of `recv` with MSG_DONTWAIT.
use disc.Base.{ℕ, ◌≤◌, ◌≡◌, ◌++◌, length}
use disc.Utils.{Bytes}

-- The result of a call: bytes (none at the end of the stream), -1 with EINTR or EAGAIN, or -1 with
-- another error.
pub data Recv : Type 0 where
  received : Bytes → Recv
  not_yet failed : Recv

-- `stream` are the bytes that the other side sends and that have not been received yet. A call gives
-- the next of them, no more than are asked for, and loses none.
pub record Net : Type 1 where
  pub Socket : Type 0
  pub recv : Socket → ℕ → Recv × Socket
  pub stream : Socket → Bytes
  pub recv_next :
      (s : Socket) (n : ℕ) (bs : Bytes)
      → (recv s n).0 ≡ received bs
      → (length bs ≤ n) × (stream s ≡ bs ++ stream (recv s n).1)
  pub recv_waits : (s : Socket) (n : ℕ) → (recv s n).0 ≡ not_yet → stream s ≡ stream (recv s n).1

-- ===== src/Tcp/Delivery.antt =====
-- Messages that have arrived are dispatched, one with each call of do_read.
use disc.Base.{
  ℕ, ◌<◌, ◌≡◌, ◌≢◌, refl, sym, subst, ap, ◌∙◌, inl, inr, Option, none, some, List, [], ◌∷◌, ◌++◌,
  append_assoc, append-nil, All, length, length-append, arith,
}
use disc.Utils.{Bytes}
use disc.Msg.Wire.{ok, get_4bytes}
use disc.Tcp.System.{received, not_yet, failed, Net}
use disc.Tcp.{Reader, idle, going, do_read, do_reads, msg_len}
use disc.Tcp.Frames.{IsFrame, IsBroken, length-take, get_4bytes-append}
use disc.Tcp.Rounds.{IsReading, pending}
use disc.Tcp.Streams.{concat, IsClosed, IsRead, do_read-IsRead}
use disc.Tcp.Runs.{Outcome-cases}
use disc.Tcp.Cuts.{first_frame}

-- What is read between two calls is no complete message.
unfinished :
    (o : Option Bytes) (first : Bytes) (n : ℕ) (m x : Bytes)
    → (let r : Reader = record { first_4bytes = first; buf = o; buf_len = n } in
        IsReading r → IsFrame m → m ++ x ≡ pending r → ⊥)
unfinished none first n m x (four, below) (v, e, l, lo, hi) same =
    absurd (omega (arith, ap length same, length-append m x, length-take n first (omega arith)))
unfinished (some b) first n m x (word, four, below, lo', hi', (w, f, len)) (v, e, l, lo, hi) same =
    let both : ok v ≡ ok w = sym (get_4bytes-append m x v e) ∙ ap get_4bytes same ∙ f in
    let equal : v ≡ w = cc in
    absurd (
      omega
        (arith, ap length same, ap msg_len equal, length-append m x, length-take n b (omega arith)))

frame-not_broken : (m x : Bytes) → IsFrame m → IsBroken (m ++ x) → ⊥
frame-not_broken m x (v, e, l, lo, hi) (w, f, bad) =
    let both : ok v ≡ ok w = sym (get_4bytes-append m x v e) ∙ f in
    let equal : v ≡ w = cc in
    elim bad [
      | inl small ↦ absurd (omega (arith, ap msg_len equal))
      | inr large ↦ absurd (omega (arith, ap msg_len equal))
    ]

module _ (net : Net) (alloc : ℕ → Option Bytes)
    (gives : (n : ℕ) (b : Bytes) → alloc n ≡ some b → length b ≡ n)
    (memory : (n : ℕ) → alloc n ≢ none)
    (arrived : (s : net.Socket) (n : ℕ)
      → 0 < n
      → (net.recv s n).0 ≡ not_yet
      → net.stream (net.recv s n).1 ≡ [])
    (works : (s : net.Socket) (n : ℕ) → 0 < n → (net.recv s n).0 ≢ failed)
    (alive : (s : net.Socket) (n : ℕ) → 0 < n → (net.recv s n).0 ≢ received []) where
  open net use {Socket, recv, stream}

  not_closed : (bs : Bytes) → (IsBroken bs → ⊥) → IsClosed net alloc bs → ⊥
  not_closed bs h (inl b) = h b
  not_closed bs h (inr (inl (n, out, lo, hi))) = memory n out
  not_closed bs h (inr (inr (s, n, wanted, inl e))) = works s n wanted e
  not_closed bs h (inr (inr (s, n, wanted, inr e))) = alive s n wanted e

  do_read-message :
      (n : ℕ) (s : Socket) (m x : Bytes)
      → IsFrame m
      → stream s ≡ m ++ x
      → length (stream s) < n
      → (s' : Socket) × (do_read net alloc n idle s ≡ going (some m) idle s') × (stream s' ≡ x)
  do_read-message n s m x f e l =
      let read = do_read-IsRead net alloc gives n idle s (refl, omega arith) l in
      elim (Outcome-cases net alloc (do_read net alloc n idle s)) [
        | inl (q, s', o) ↦
            let (h, same, (t, k, wanted, waits, is)) = subst (IsRead net alloc (stream s)) o read in
            let end : stream s' ≡ [] = ap stream is ∙ arrived t k wanted waits in
            absurd (
              unfinished q.buf q.first_4bytes q.buf_len m x h f
                (sym e ∙ same ∙ ap (λ y. pending q ++ y) end ∙ append-nil (pending q)))
        | inr (inl (m', q, s', o)) ↦
            let (is_idle, f', split) = subst (IsRead net alloc (stream s)) o read in
            let (same, rest) = first_frame m' m (stream s') x f' f (sym split ∙ e) in
            (
              s',
              o ∙ ap (λ z. going (some m') z s') is_idle ∙ ap (λ y. going (some y) idle s') same,
              rest,
            )
        | inr (inr (inl (q, s', o))) ↦ absurd (
            not_closed (stream s) (λ b. frame-not_broken m x f (subst IsBroken e b))
              (subst (IsRead net alloc (stream s)) o read))
        | inr (inr (inr (inl o))) ↦ absurd (subst (IsRead net alloc (stream s)) o read)
        | inr (inr (inr (inr o))) ↦ absurd (subst (IsRead net alloc (stream s)) o read)
      ]

  -- On a connection over which messages have arrived, with anything behind them: each header gives the
  -- length of its message, from 20 to 65536; `recv` gives bytes as long as there are any, and neither
  -- fails nor is at the end; there is memory, and more fuel than bytes. Then as many calls of do_read
  -- dispatch exactly these messages, in their order.
  pub do_reads-delivers :
      (ms : List Bytes) (n : ℕ) (s : Socket) (x : Bytes)
      → All IsFrame ms
      → stream s ≡ concat ms ++ x
      → length (stream s) < n
      → (do_reads net alloc (length ms) n idle s).0 ≡ ms
  unfolding do_reads
  do_reads-delivers [] n s x f e l = refl
  do_reads-delivers (m ∷ ms) n s x (f, fs) e l =
      let split : stream s ≡ m ++ (concat ms ++ x) = e ∙ append_assoc m (concat ms) x in
      let (s', read, rest) = do_read-message n s m (concat ms ++ x) f split l in
      let less : length (stream s') < n =
        omega (arith, ap length split, ap length rest, length-append m (concat ms ++ x)) in
      rw (do_reads, read) (ap (λ zs. m ∷ zs) (do_reads-delivers ms n s' x fs rest less))

-- ===== src/Tcp/Streams.antt =====
-- Calls of do_read: the messages that are dispatched are those of the stream, however it arrives.
use disc.Base.{
  ℕ, zero, suc, ◌-◌, ◌<◌, ◌≤◌, ◌≡◌, refl, sym, subst, ap, ◌∙◌, ◌⊎◌, inl, inr, Option, none, some,
  List, [], ◌∷◌, ◌++◌, append_assoc, append-nil, length, length-append, arith,
}
use disc.Utils.{Bytes}
use disc.Msg.Wire.{ok, store_word, load_word-store_word}
use disc.Tcp.System.{Recv, received, not_yet, failed, Net}
use disc.Tcp.{
  Reader, idle, Outcome, going, closing, overrun, endless, goal, Turn, turn, whole, broken, outside,
  take_in, read_loop, do_read,
}
use disc.Tcp.Frames.{IsFrame, IsBroken, get_4bytes-append}
use disc.Tcp.Rounds.{pending, size, IsReading, IsReading-wants, IsTurn, take_in-IsTurn}

abbrev pub concat : List Bytes → Bytes
concat [] = []
concat (m ∷ ms) = m ++ concat ms

IsBroken-append : (bs cs : Bytes) → IsBroken bs → IsBroken (bs ++ cs)
IsBroken-append bs cs (v, e, h) = (v, get_4bytes-append bs cs v e, h)

Recv-cases : (g : Recv) → (g ≡ not_yet) ⊎ ((g ≡ failed) ⊎ ((bs : Bytes) × (g ≡ received bs)))
Recv-cases not_yet = inl refl
Recv-cases failed = inr (inl refl)
Recv-cases (received bs) = inr (inr (bs, refl))

Turn-cases :
    (t : Turn)
    → ((q : Reader) × (w : ℕ) × (p : ℕ) × (t ≡ turn q w p))
      ⊎ (((m : Bytes) × (t ≡ whole m)) ⊎ (((q : Reader) × (t ≡ broken q)) ⊎ (t ≡ outside)))
Turn-cases (turn q w p) = inl (q, w, p, refl)
Turn-cases (whole m) = inr (inl (m, refl))
Turn-cases (broken q) = inr (inr (inl (q, refl)))
Turn-cases outside = inr (inr (inr refl))

module _ (net : Net) (alloc : ℕ → Option Bytes) where
  open net use {Socket, recv, stream, recv_next, recv_waits}

  -- Why a connection is closed while `bs` is to be read.
  abbrev pub IsClosed : Bytes → Type 0
  IsClosed bs =
      IsBroken bs
      ⊎ ((n : ℕ) × (alloc n ≡ none) × (20 ≤ n) × (n ≤ 65536))
      ⊎ ((s : Socket) × (n : ℕ) × (0 < n)
          × (((recv s n).0 ≡ failed) ⊎ ((recv s n).0 ≡ received [])))

  -- What a call makes of `bs`, the bytes that it has read of a message and those that come.
  abbrev pub IsRead : Bytes → Outcome Socket → Type 0
  IsRead bs (going none q s) =
      IsReading q
      × (bs ≡ pending q ++ stream s)
      × ((s' : Socket) × (n : ℕ) × (0 < n) × ((recv s' n).0 ≡ not_yet) × (s ≡ (recv s' n).1))
  IsRead bs (going (some m) q s) = (q ≡ idle) × IsFrame m × (bs ≡ m ++ stream s)
  IsRead bs (closing q s) = IsClosed bs
  IsRead bs overrun = ⊥
  IsRead bs endless = ⊥

  broken_later :
      (bs cs : Bytes)
      → IsBroken bs ⊎ ((n : ℕ) × (alloc n ≡ none) × (20 ≤ n) × (n ≤ 65536))
      → IsClosed (bs ++ cs)
  broken_later bs cs (inl b) = inl (IsBroken-append bs cs b)
  broken_later bs cs (inr o) = inr (inl o)

  module _ (gives : (n : ℕ) (b : Bytes) → alloc n ≡ some b → length b ≡ n) where
    -- The loop, from between two rounds, with more fuel than there are bytes.
    read_loop-IsRead :
        (n : ℕ) (r : Reader) (w p : ℕ) (s : Socket)
        → IsReading r
        → w ≡ size r - r.buf_len
        → p ≡ r.buf_len
        → length (stream s) < n
        → IsRead (pending r ++ stream s) (read_loop net alloc n r w p s)
    unfolding read_loop
    read_loop-IsRead zero r w p s h ew ep l = absurd (omega arith)
    read_loop-IsRead (suc n) r w p s h ew ep l =
        let some_wanted : 0 < w = omega (arith, IsReading-wants r.buf r.first_4bytes r.buf_len h) in
        elim (Recv-cases (recv s w).0) [
          | inl e ↦
              rw (read_loop, e)
                (h, ap (λ bs. pending r ++ bs) (recv_waits s w e), (s, w, some_wanted, e, refl))
          | inr (inl e) ↦ rw (read_loop, e) (inr (inr (s, w, some_wanted, inl e)))
          | inr (inr ([], e)) ↦ rw (read_loop, e) (inr (inr (s, w, some_wanted, inr e)))
          | inr (inr (c ∷ cs, e)) ↦
              let s' = (recv s w).1 in
              let (short, next) = recv_next s w (c ∷ cs) e in
              let bs : Bytes = pending r ++ (c ∷ cs) in
              let all : pending r ++ stream s ≡ bs ++ stream s' =
                ap (λ cs. pending r ++ cs) next
                ∙ sym (append_assoc (pending r) (c ∷ cs) (stream s')) in
              let is_turn : IsTurn alloc bs (take_in alloc r w p (c ∷ cs)) =
                rw (ew, ep) (take_in-IsTurn alloc gives r (c ∷ cs) h (rw (← ew) short)) in
              let left : length (stream s') < n =
                omega (arith, ap length next, length-append (c ∷ cs) (stream s')) in
              elim (Turn-cases (take_in alloc r w p (c ∷ cs))) [
                | inl (q, w', p', t) ↦
                    let (h', ew', ep', same) = subst (IsTurn alloc bs) t is_turn in
                    rw (read_loop, e, t)
                      (subst (λ x. IsRead x (read_loop net alloc n q w' p' s'))
                        (ap (λ x. x ++ stream s') same ∙ sym all)
                        (read_loop-IsRead n q w' p' s' h' ew' ep' left))
                | inr (inl (m, t)) ↦
                    let (same, frame) = subst (IsTurn alloc bs) t is_turn in
                    rw (read_loop, e, t)
                      (
                        refl,
                        subst IsFrame (sym same) frame,
                        all ∙ ap (λ x. x ++ stream s') (sym same),
                      )
                | inr (inr (inl (q, t))) ↦
                    rw (read_loop, e, t)
                      (subst IsClosed (sym all)
                        (broken_later bs (stream s') (subst (IsTurn alloc bs) t is_turn)))
                | inr (inr (inr t)) ↦ absurd (subst (IsTurn alloc bs) t is_turn)
              ]
        ]

    goal-size :
        (o : Option Bytes) (first : Bytes) (n : ℕ)
        → (let r : Reader = record { first_4bytes = first; buf = o; buf_len = n } in
            IsReading r → goal r ≡ ok (size r))
    unfolding goal
    goal-size none first n h = refl
    goal-size (some b) first n (word, four, below, lo, hi, head) =
        rw (word, ← append-nil (store_word (length b)))
          (load_word-store_word (length b) [] (omega arith))

    -- A call of do_read, on a reader as the calls before leave it.
    pub do_read-IsRead :
        (n : ℕ) (r : Reader) (s : Socket)
        → IsReading r
        → length (stream s) < n
        → IsRead (pending r ++ stream s) (do_read net alloc n r s)
    unfolding do_read
    do_read-IsRead n r s h l =
        rw (do_read, goal-size r.buf r.first_4bytes r.buf_len h)
          (read_loop-IsRead n r (size r - r.buf_len) r.buf_len s h refl refl l)

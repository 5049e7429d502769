-- ===== src/Tcp/Runs.antt =====
-- Any number of calls of do_read on one connection.
use disc.Base.{
  ℕ, zero, suc, ◌<◌, ◌≡◌, refl, sym, subst, ap, ◌∙◌, ◌⊎◌, inl, inr, Option, none, some, List, ◌∷◌,
  ◌++◌, append_assoc, All, length, length-append, arith,
}
use disc.Utils.{Bytes}
use disc.Tcp.System.{Net}
use disc.Tcp.{Reader, idle, Outcome, going, closing, overrun, endless, do_read, do_reads}
use disc.Tcp.Frames.{IsFrame}
use disc.Tcp.Rounds.{pending, IsReading}
use disc.Tcp.Streams.{concat, IsClosed, IsRead, do_read-IsRead}

module _ (net : Net) (alloc : ℕ → Option Bytes) where
  open net use {Socket, stream}

  pub Outcome-cases :
      (o : Outcome Socket)
      → ((q : Reader) × (s : Socket) × (o ≡ going none q s))
        ⊎ (((m : Bytes) × (q : Reader) × (s : Socket) × (o ≡ going (some m) q s))
            ⊎ (((q : Reader) × (s : Socket) × (o ≡ closing q s)) ⊎ ((o ≡ overrun) ⊎ (o ≡ endless))))
  Outcome-cases (going none q s) = inl (q, s, refl)
  Outcome-cases (going (some m) q s) = inr (inl (m, q, s, refl))
  Outcome-cases (closing q s) = inr (inr (inl (q, s, refl)))
  Outcome-cases overrun = inr (inr (inr (inl refl)))
  Outcome-cases endless = inr (inr (inr (inr refl)))

  -- The messages `ms` and the last result account for all of `bs`.
  abbrev pub Accounts : Bytes → List Bytes → Outcome Socket → Type 0
  Accounts bs ms (going none q s) = IsReading q × (bs ≡ concat ms ++ (pending q ++ stream s))
  Accounts bs ms (going (some m) q s) = ⊥
  Accounts bs ms (closing q s) = (rest : Bytes) × (bs ≡ concat ms ++ rest) × IsClosed net alloc rest
  Accounts bs ms overrun = ⊥
  Accounts bs ms endless = ⊥

  Accounts-cons :
      (m bs bs' : Bytes) (ms : List Bytes) (o : Outcome Socket)
      → bs ≡ m ++ bs'
      → Accounts bs' ms o
      → Accounts bs (m ∷ ms) o
  Accounts-cons m bs bs' ms (going none q s) e (h, same) =
      (h, e ∙ ap (λ x. m ++ x) same ∙ sym (append_assoc m (concat ms) (pending q ++ stream s)))
  Accounts-cons m bs bs' ms (closing q s) e (rest, same, why) =
      (rest, e ∙ ap (λ x. m ++ x) same ∙ sym (append_assoc m (concat ms) rest), why)
  Accounts-cons m bs bs' ms (going (some _) q s) e h = h
  Accounts-cons m bs bs' ms overrun e h = h
  Accounts-cons m bs bs' ms endless e h = h

  pub Accounts-split :
      (bs : Bytes) (ms : List Bytes) (o : Outcome Socket)
      → Accounts bs ms o
      → (rest : Bytes) × (bs ≡ concat ms ++ rest)
  Accounts-split bs ms (going none q s) (h, e) = (pending q ++ stream s, e)
  Accounts-split bs ms (closing q s) (rest, e, why) = (rest, e)
  Accounts-split bs ms (going (some _) q s) h = absurd h
  Accounts-split bs ms overrun h = absurd h
  Accounts-split bs ms endless h = absurd h

  module _ (gives : (n : ℕ) (b : Bytes) → alloc n ≡ some b → length b ≡ n) where
    -- In any number of calls of do_read, from a reader as calls before leave it, with more fuel than
    -- there are bytes to come, with an allocator that gives blocks of the size that is asked for, and
    -- whatever part of the stream each call of `recv` gives: nothing outside of the memory is read or
    -- written, and each call ends. The messages that are dispatched are complete, with a header whose
    -- length, from 20 to 65536, is their own; they and what is still to be read make up the bytes to
    -- come, so that none is lost or changed. If a call closes the connection, the bytes behind the
    -- messages start with a length out of range, or there is no memory, or `recv` fails or is at the end.
    pub do_reads-Accounts :
        (k n : ℕ) (r : Reader) (s : Socket)
        → IsReading r
        → length (pending r ++ stream s) < n
        → All IsFrame (do_reads net alloc k n r s).0
          × Accounts
              (pending r ++ stream s)
              (do_reads net alloc k n r s).0
              (do_reads net alloc k n r s).1
    unfolding do_reads
    do_reads-Accounts zero n r s h l = (tt, (h, refl))
    do_reads-Accounts (suc k) n r s h l =
        let bs : Bytes = pending r ++ stream s in
        let read =
          do_read-IsRead net alloc gives n r s h
            (omega (arith, length-append (pending r) (stream s))) in
        elim (Outcome-cases (do_read net alloc n r s)) [
          | inl (q, s', e) ↦
              let (h', same, waits) = subst (IsRead net alloc bs) e read in
              rw (do_reads, e)
                (subst
                  (λ x.
                    All IsFrame (do_reads net alloc k n q s').0
                    × Accounts x (do_reads net alloc k n q s').0 (do_reads net alloc k n q s').1)
                  (sym same) (do_reads-Accounts k n q s' h' (rw (← same) l)))
          | inr (inl (m, q, s', e)) ↦
              let (same, frame, split) = subst (IsRead net alloc bs) e read in
              let (frames, done) =
                do_reads-Accounts k n idle s' (refl, omega arith)
                  (omega (arith, ap length split, length-append m (stream s'))) in
              rw (do_reads, e, same)
                (
                  (frame, frames),
                  Accounts-cons m bs (stream s') (do_reads net alloc k n idle s').0
                      (do_reads net alloc k n idle s').1 split done,
                )
          | inr (inr (inl (q, s', e))) ↦
              rw (do_reads, e) (tt, (bs, refl, subst (IsRead net alloc bs) e read))
          | inr (inr (inr (inl e))) ↦ absurd (subst (IsRead net alloc bs) e read)
          | inr (inr (inr (inr e))) ↦ absurd (subst (IsRead net alloc bs) e read)
        ]

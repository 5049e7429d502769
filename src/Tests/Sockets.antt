-- ===== src/Tests/Sockets.antt =====
-- Messages from sockets, and the witnesses.
use disc.Base.{
  ℕ, zero, suc, ◌+◌, ◌≡◌, ◌≢◌, refl, sym, ap, Option, some, List, [], ◌∷◌, ◌++◌, All, length, take,
  drop, replicate, length-replicate, append_assoc, subst, ◌∙◌, ◌≤◌, ◌<◌, ◌^◌, arith,
}
use disc.Utils.{Bytes}
use disc.Msg.Wire.{ok, get_4bytes, load_word, write}
use disc.Tcp.System.{Recv, received, not_yet, failed, Net}
use disc.Tcp.{idle, goal, start_msg, take_in, read_loop, do_read, do_reads}
use disc.Tcp.Frames.{IsFrame}
use disc.Tcp.Streams.{concat}
use disc.Tcp.Runs.{Accounts, do_reads-Accounts}
use disc.Tcp.Cuts.{AgreesWith, do_reads-AgreesWith}
use disc.Tcp.Delivery.{do_reads-delivers}

-- A socket gives the bytes in the pieces that have come.
piece : List Bytes → ℕ → Recv × List Bytes
piece [] n = (not_yet, [])
piece ([] ∷ ps) n = piece ps n
piece ((c ∷ cs) ∷ ps) n = (received (take n (c ∷ cs)), drop n (c ∷ cs) ∷ ps)

take-le : (n : ℕ) (bs : Bytes) → length (take n bs) ≤ n
take-le zero bs = omega arith
take-le (suc n) [] = omega arith
take-le (suc n) (c ∷ cs) = omega (arith, take-le n cs)

take-drop : (n : ℕ) (bs : Bytes) → take n bs ++ drop n bs ≡ bs
take-drop zero bs = refl
take-drop (suc n) [] = refl
take-drop (suc n) (c ∷ cs) = ap (λ ds. c ∷ ds) (take-drop n cs)

piece-next :
    (ps : List Bytes) (n : ℕ) (bs : Bytes)
    → (piece ps n).0 ≡ received bs
    → (length bs ≤ n) × (concat ps ≡ bs ++ concat (piece ps n).1)
unfolding piece
piece-next [] n bs e = cc
piece-next ([] ∷ ps) n bs e = piece-next ps n bs e
piece-next ((c ∷ cs) ∷ ps) n bs e =
    let same : take n (c ∷ cs) ≡ bs = cc in
    (
      subst (λ x. length x ≤ n) same (take-le n (c ∷ cs)),
      ap (λ x. x ++ concat ps) (sym (take-drop n (c ∷ cs)))
          ∙ append_assoc (take n (c ∷ cs)) (drop n (c ∷ cs)) (concat ps)
          ∙ ap (λ x. x ++ (drop n (c ∷ cs) ++ concat ps)) same,
    )

piece-waits :
    (ps : List Bytes) (n : ℕ)
    → (piece ps n).0 ≡ not_yet
    → (concat ps ≡ []) × (concat (piece ps n).1 ≡ [])
unfolding piece
piece-waits [] n e = (refl, refl)
piece-waits ([] ∷ ps) n e = piece-waits ps n e
piece-waits ((c ∷ cs) ∷ ps) n e = cc

piece-ne-failed : (ps : List Bytes) (n : ℕ) → (piece ps n).0 ≢ failed
unfolding piece
piece-ne-failed [] n e = cc
piece-ne-failed ([] ∷ ps) n e = piece-ne-failed ps n e
piece-ne-failed ((c ∷ cs) ∷ ps) n e = cc

piece-ne-end : (ps : List Bytes) (n : ℕ) → 0 < n → (piece ps n).0 ≢ received []
unfolding piece
piece-ne-end [] n h e = cc
piece-ne-end ([] ∷ ps) n h e = piece-ne-end ps n h e
piece-ne-end ((c ∷ cs) ∷ ps) (suc n) h e = cc
piece-ne-end ((c ∷ cs) ∷ ps) zero h e = absurd (omega arith)

abbrev pieces : Net
pieces = record {
  Socket = List Bytes;
  recv = piece;
  stream = concat;
  recv_next = piece-next;
  recv_waits = λ ps n e. (piece-waits ps n e).0 ∙ sym (piece-waits ps n e).1;
}

-- A message of 20 bytes, and one of 24
abbrev first_message : Bytes
first_message = 1 ∷ 0 ∷ 0 ∷ 20 ∷ replicate 16 7

abbrev second_message : Bytes
second_message = 1 ∷ 0 ∷ 0 ∷ 24 ∷ replicate 20 9

-- The first comes in three pieces, the last of which holds some of the second.
abbrev in_pieces : List Bytes
in_pieces =
    (1 ∷ 0 ∷ 0 ∷ [])
    ∷ (20 ∷ replicate 10 7)
    ∷ (replicate 6 7 ++ (1 ∷ []))
    ∷ (0 ∷ 0 ∷ 24 ∷ replicate 20 9)
    ∷ (1 ∷ 2 ∷ [])
    ∷ []

abbrev zeros : ℕ → Option Bytes
zeros n = some (replicate n 0)

zeros-gives : (n : ℕ) (b : Bytes) → zeros n ≡ some b → length b ≡ n
zeros-gives n b e = let same : replicate n 0 ≡ b = cc in ap length (sym same) ∙ length-replicate n 0

two_messages : (do_reads pieces zeros 4 100 idle in_pieces).0 ≡ first_message ∷ second_message ∷ []
unfolding do_reads do_read read_loop goal start_msg take_in load_word get_4bytes write piece
two_messages = refl

do_reads-Accounts_example :
    All IsFrame (do_reads pieces zeros 4 100 idle in_pieces).0
    × Accounts pieces zeros
        (concat in_pieces)
        (do_reads pieces zeros 4 100 idle in_pieces).0
        (do_reads pieces zeros 4 100 idle in_pieces).1
do_reads-Accounts_example =
    do_reads-Accounts pieces zeros zeros-gives 4 100 idle in_pieces (refl, omega arith)
      (omega arith)

do_reads-AgreesWith_example :
    AgreesWith
      (do_reads pieces zeros 4 100 idle in_pieces).0
      (do_reads pieces zeros 1 100 idle (concat in_pieces ∷ [])).0
do_reads-AgreesWith_example =
    do_reads-AgreesWith pieces pieces zeros zeros zeros-gives zeros-gives in_pieces
      (concat in_pieces ∷ []) 4 1 100 refl (omega arith)

message_of :
    (m : Bytes)
    → get_4bytes m ≡ ok (2 ^ 24 + length m)
    → 20 ≤ length m
    → length m ≤ 65536
    → IsFrame m
message_of m e lo hi = (2 ^ 24 + length m, e, omega arith, lo, hi)

do_reads-delivers_example :
    (do_reads pieces zeros 2 100 idle in_pieces).0 ≡ first_message ∷ second_message ∷ []
do_reads-delivers_example =
    do_reads-delivers pieces zeros zeros-gives (λ n e. cc) (λ ps n h e. (piece-waits ps n e).1)
      (λ ps n h. piece-ne-failed ps n) piece-ne-end (first_message ∷ second_message ∷ []) 100
      in_pieces (1 ∷ 2 ∷ [])
      (
        message_of first_message (unfold get_4bytes in refl) (omega arith) (omega arith),
        (message_of second_message (unfold get_4bytes in refl) (omega arith) (omega arith), tt),
      )
      refl (omega arith)

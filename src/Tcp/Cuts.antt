-- ===== src/Tcp/Cuts.antt =====
-- A stream is cut into messages in one way only, whatever the pieces are in which it arrives.
use disc.Base.{
  ℕ, ◌<◌, ◌≡◌, refl, sym, ap, ◌∙◌, ◌⊎◌, inl, inr, Option, some, List, [], ◌∷◌, ◌++◌, append_assoc,
  All, length, take, drop, take_all, drop_all, arith,
}
use disc.Utils.{Bytes}
use disc.Msg.Wire.{ok, get_4bytes}
use disc.Tcp.System.{Net}
use disc.Tcp.{idle, do_reads, msg_len}
use disc.Tcp.Frames.{IsFrame, get_4bytes-append}
use disc.Tcp.Rounds.{IsReading}
use disc.Tcp.Streams.{concat}
use disc.Tcp.Runs.{Accounts-split, do_reads-Accounts}

pub first_frame : (m n x y : Bytes) → IsFrame m → IsFrame n → m ++ x ≡ n ++ y → (m ≡ n) × (x ≡ y)
first_frame m n x y (v, ev, lv, lo, hi) (w, ew, lw, lo', hi') e =
    let same : ok v ≡ ok w =
      sym (get_4bytes-append m x v ev) ∙ ap get_4bytes e ∙ get_4bytes-append n y w ew in
    let equal : v ≡ w = cc in
    let len : length m ≡ length n = sym lv ∙ ap msg_len equal ∙ lw in
    (
      sym (take_all m x) ∙ ap (take (length m)) e ∙ ap (λ k. take k (n ++ y)) len ∙ take_all n y,
      sym (drop_all m x) ∙ ap (drop (length m)) e ∙ ap (λ k. drop k (n ++ y)) len ∙ drop_all n y,
    )

-- One list is the beginning of the other.
abbrev pub AgreesWith : List Bytes → List Bytes → Type 0
AgreesWith ms ns = ((zs : List Bytes) × (ns ≡ ms ++ zs)) ⊎ ((zs : List Bytes) × (ms ≡ ns ++ zs))

frames-AgreesWith :
    (ms ns : List Bytes) (x y : Bytes)
    → All IsFrame ms
    → All IsFrame ns
    → concat ms ++ x ≡ concat ns ++ y
    → AgreesWith ms ns
frames-AgreesWith [] ns x y f g e = inl (ns, refl)
frames-AgreesWith (m ∷ ms) [] x y f g e = inr (m ∷ ms, refl)
frames-AgreesWith (m ∷ ms) (n ∷ ns) x y (fm, f) (fn, g) e =
    let (same, later) =
      first_frame m n (concat ms ++ x) (concat ns ++ y) fm fn
        (sym (append_assoc m (concat ms) x) ∙ e ∙ append_assoc n (concat ns) y) in
    elim (frames-AgreesWith ms ns x y f g later) [
      | inl (zs, t) ↦ inl (zs, ap (λ u. n ∷ u) t ∙ ap (λ u. u ∷ (ms ++ zs)) (sym same))
      | inr (zs, t) ↦ inr (zs, ap (λ u. m ∷ u) t ∙ ap (λ u. u ∷ (ns ++ zs)) same)
    ]

-- On two connections over which the same bytes come, with allocators that give blocks of the size that
-- is asked for, and enough fuel, any numbers of calls of do_read dispatch the same messages, but for
-- more of them on one: how `recv` splits the bytes, and how often it gives none, makes no difference.
pub do_reads-AgreesWith :
    (net net' : Net) (alloc alloc' : ℕ → Option Bytes)
    → ((n : ℕ) (b : Bytes) → alloc n ≡ some b → length b ≡ n)
    → ((n : ℕ) (b : Bytes) → alloc' n ≡ some b → length b ≡ n)
    → (s : net.Socket) (s' : net'.Socket) (k k' n : ℕ) → net.stream s ≡ net'.stream s'
    → length (net.stream s) < n
    → AgreesWith (do_reads net alloc k n idle s).0 (do_reads net' alloc' k' n idle s').0
do_reads-AgreesWith net net' alloc alloc' g g' s s' k k' n e l =
    let ready : IsReading idle = (refl, omega arith) in
    let (f, a) = do_reads-Accounts net alloc g k n idle s ready l in
    let (f', a') = do_reads-Accounts net' alloc' g' k' n idle s' ready (rw (← e) l) in
    let (x, p) =
      Accounts-split net alloc (net.stream s) (do_reads net alloc k n idle s).0
        (do_reads net alloc k n idle s).1 a in
    let (y, q) =
      Accounts-split net' alloc' (net'.stream s') (do_reads net' alloc' k' n idle s').0
        (do_reads net' alloc' k' n idle s').1 a' in
    frames-AgreesWith (do_reads net alloc k n idle s).0 (do_reads net' alloc' k' n idle s').0 x y f
      f' (sym p ∙ e ∙ q)

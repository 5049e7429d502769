-- ===== src/FMalloc/Tiles.antt =====
-- The fragments one behind the other.
use disc.Base.{
  ℕ, ◌+◌, ◌-◌, ◌<◌, ◌≤◌, ◌≡◌, refl, subst, ap, inl, inr, List, [], ◌∷◌, ◌==◌, ==→eq, Bool-cases,
  if◌then◌else◌, arith,
}
use disc.Timer.{update}
use disc.HashTable.Links.{occurs}

-- The fragments lie from `start` to `end` without a gap.
unfoldable pub IsTiled : (ℕ → ℕ) → ℕ → List ℕ → ℕ → Type 0
IsTiled sizes start [] end = start ≡ end
IsTiled sizes start (f ∷ fs) end = (f ≡ start) × IsTiled sizes (f + 8 + sizes f) fs end

-- `n` comes behind `f`.
unfoldable pub insert_behind : ℕ → ℕ → List ℕ → List ℕ
insert_behind f n [] = []
insert_behind f n (g ∷ gs) =
    let rest = insert_behind f n gs in if g == f then g ∷ n ∷ gs else g ∷ rest

IsTiled-same :
    (sizes new : ℕ → ℕ) (start : ℕ) (fs : List ℕ) (end : ℕ)
    → ((g : ℕ) → start ≤ g → new g ≡ sizes g)
    → IsTiled sizes start fs end
    → IsTiled new start fs end
unfolding IsTiled
IsTiled-same sizes new start [] end same t = t
IsTiled-same sizes new start (f ∷ fs) end same (e, t) =
    let first : new f ≡ sizes f = same f (omega arith) in
    (e, rw first (IsTiled-same sizes new (f + 8 + sizes f) fs end (λ g h. same g (omega arith)) t))

tiled_le :
    (sizes : ℕ → ℕ) (start : ℕ) (fs : List ℕ) (end : ℕ) → IsTiled sizes start fs end → start ≤ end
unfolding IsTiled
tiled_le sizes start [] end t = omega arith
tiled_le sizes start (f ∷ fs) end (e, t) = omega (arith, tiled_le sizes (f + 8 + sizes f) fs end t)

-- A fragment that occurs lies behind the start, and its end not behind the end.
pub tiled_bounds :
    (sizes : ℕ → ℕ) (start f : ℕ) (fs : List ℕ) (end : ℕ)
    → IsTiled sizes start fs end
    → 0 < occurs f fs
    → (start ≤ f) × (f + 8 + sizes f ≤ end) × (occurs f fs ≡ 1)
unfolding IsTiled occurs
tiled_bounds sizes start f [] end t h = absurd (omega arith)
tiled_bounds sizes start f (g ∷ gs) end (e, t) h =
    let later : 0 < occurs f gs
        → (g + 8 + sizes g ≤ f) × (f + 8 + sizes f ≤ end) × (occurs f gs ≡ 1) =
      λ h. tiled_bounds sizes (g + 8 + sizes g) f gs end t h in
    let behind = tiled_le sizes (g + 8 + sizes g) gs end t in
    elim (Bool-cases (g == f)) [
      | inl here ↦
          let same : g ≡ f = ==→eq g f here in
          let once_only : occurs f gs ≡ 0 = ground (arith, later) in
          rw here (omega arith, omega (arith, ap sizes same), omega arith)
      | inr other ↦ ground (arith, later)
    ]

-- A fragment is divided into two.
pub divided-IsTiled :
    (sizes : ℕ → ℕ) (start f size : ℕ) (fs : List ℕ) (end : ℕ)
    → IsTiled sizes start fs end
    → 0 < occurs f fs
    → size + 8 ≤ sizes f
    → IsTiled
        (update (update sizes f size) (f + 8 + size) (sizes f - size - 8))
        start
        (insert_behind f (f + 8 + size) fs)
        end
unfolding IsTiled occurs insert_behind
divided-IsTiled sizes start f size [] end t h fits = absurd (omega arith)
divided-IsTiled sizes start f size (g ∷ gs) end (e, t) h fits =
    let n = f + 8 + size in
    let new : ℕ → ℕ = update (update sizes f size) n (sizes f - size - 8) in
    elim (Bool-cases (g == f)) [
      | inl here ↦
          let same : g ≡ f = ==→eq g f here in
          let same_size : sizes g ≡ sizes f = ap sizes same in
          let new_g : new g ≡ size = ground (arith, same) in
          let new_n : new n ≡ sizes f - size - 8 = ground arith in
          let rest =
            IsTiled-same sizes new (g + 8 + sizes g) gs end (λ k h. ground (arith, same, same_size))
              t in
          rw here (
            e,
            (
              omega (arith, new_g, same),
              subst (λ s. IsTiled new s gs end) (omega (arith, new_n, same, same_size)) rest,
            ),
          )
      | inr other ↦
          let later : 0 < occurs f gs = ground arith in
          let bounds = tiled_bounds sizes (g + 8 + sizes g) f gs end t later in
          let kept : new g ≡ sizes g = ground (arith, bounds) in
          rw (other, kept) (e, divided-IsTiled sizes (g + 8 + sizes g) f size gs end t later fits)
    ]

pub occurs-insert_behind :
    (g f n : ℕ) (fs : List ℕ)
    → occurs g (insert_behind f n fs)
      ≡ occurs g fs + (if n == g then (if occurs f fs == 0 then 0 else 1) else 0)
unfolding occurs insert_behind
occurs-insert_behind g f n [] = ground arith
occurs-insert_behind g f n (h ∷ hs) = ground (arith, occurs-insert_behind g f n hs)

-- The place of the new fragment was none.
pub new_nowhere :
    (sizes : ℕ → ℕ) (start f n : ℕ) (fs : List ℕ) (end : ℕ)
    → IsTiled sizes start fs end
    → 0 < occurs f fs
    → f < n
    → n < f + 8 + sizes f
    → occurs n fs ≡ 0
unfolding IsTiled occurs
new_nowhere sizes start f n [] end t h a b = refl
new_nowhere sizes start f n (g ∷ gs) end (e, t) h a b = elim (Bool-cases (g == f)) [
  | inl here ↦
      let same : g ≡ f = ==→eq g f here in
      let later : 0 < occurs n gs
          → (g + 8 + sizes g ≤ n) × (n + 8 + sizes n ≤ end) × (occurs n gs ≡ 1) =
        λ h. tiled_bounds sizes (g + 8 + sizes g) n gs end t h in
      ground (arith, later, ap sizes same)
  | inr other ↦
      let later : 0 < occurs f gs = ground arith in
      let bounds = tiled_bounds sizes (g + 8 + sizes g) f gs end t later in
      ground (arith, new_nowhere sizes (g + 8 + sizes g) f n gs end t later a b, bounds)
]

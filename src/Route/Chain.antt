-- ===== src/Route/Chain.antt =====
-- The list of routes as a chain of entries without a cycle.
use disc.Base.{
  ℕ, zero, suc, ◌<◌, ◌≤◌, ◌≡◌, refl, sym, ◌∙◌, ap, ◌⊎◌, inl, inr, Bool, Option, none, some, List,
  [], ◌∷◌, ◌==◌, ==→eq, length, Bool-cases, arith,
}
use disc.Utils.{Bytes}
use disc.HashTable.Links.{occurs}
use disc.Route.{Routes, entry, find_route, last_route}

-- From `head` the entries `xs` follow, and then NULL.
unfoldable pub IsChain : (ℕ → Option ℕ) → Option ℕ → List ℕ → Type 0
IsChain next head [] = head ≡ none
IsChain next head (x ∷ xs) = (head ≡ some x) × IsChain next (next x) xs

-- With one unit of fuel for each entry, the walk to the end ends, at the entry that has none behind.
pub last_of_chain :
    (r : Routes) (n x : ℕ) (xs : List ℕ)
    → IsChain r.next (some x) (x ∷ xs)
    → length (x ∷ xs) ≤ n
    → (last : ℕ) × (last_route r n x ≡ some last)
      × (r.next last ≡ none)
      × ((y : ℕ)
          → 0 < occurs y (x ∷ xs)
          → (y ≡ last) ⊎ ((z : ℕ) × (r.next y ≡ some z) × (0 < occurs z (x ∷ xs))))
unfolding IsChain last_route occurs
last_of_chain r zero x xs c h = absurd (omega arith)
last_of_chain r (suc n) x [] (e, f) h =
    (x, rw (last_route, f) refl, f, λ y there. inl (ground arith))
last_of_chain r (suc n) x (y ∷ ys) (e, (f, c)) h =
    let (last, found, end, others) = last_of_chain r n y ys (refl, c) (omega arith) in
    (
      last,
      rw (last_route, f) found,
      end,
      λ z there. elim (Bool-cases (x == z)) [
        | inl here ↦ inr (y, ap r.next (sym (==→eq x z here)) ∙ f, ground arith)
        | inr other ↦ elim (others z (ground arith)) [
          | inl same ↦ inl same
          | inr (w, leads, in_list) ↦ inr (w, leads, ground arith)
        ]
      ],
    )

-- An entry that a walk finds is one of the chain.
pub found_in_chain :
    (test : Bytes → Bool) (r : Routes) (n re : ℕ) (head : Option ℕ) (xs : List ℕ)
    → IsChain r.next head xs
    → find_route test r n head ≡ entry re
    → 0 < occurs re xs
unfolding IsChain find_route occurs
found_in_chain test r n re none [] c e = cc
found_in_chain test r n re none (x ∷ xs) c e = absurd (ground (arith, c.0))
found_in_chain test r n re (some a) [] c e = absurd (ground arith)
found_in_chain test r zero re (some a) (x ∷ xs) c e = cc
found_in_chain test r (suc n) re (some a) (x ∷ xs) (h, c) e =
    let same : a ≡ x = ground arith in
    elim (Bool-cases (test (r.entries a).realm)) [
      | inl passes ↦
          let here : entry a ≡ entry re = rw (find_route, passes) at e in
          let it : a ≡ re = cc in ground arith
      | inr fails ↦
          let later : find_route test r n (r.next a) ≡ entry re = rw (find_route, fails) at e in
          let tail =
            found_in_chain test r n re (r.next x) xs c
              (ap (λ y. find_route test r n (r.next y)) (sym same) ∙ later) in
          ground arith
    ]

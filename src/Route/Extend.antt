-- ===== src/Route/Extend.antt =====
-- A route for a new realm is put at the end of the list of routes.
use disc.Base.{
  ℕ, zero, suc, ◌≤◌, ◌≡◌, refl, sym, ◌∙◌, ap, subst, inl, inr, true, false, Option, none, some,
  List, [], ◌∷◌, ◌++◌, ◌==◌, ==→eq, length, Bool-cases, arith,
}
use disc.Utils.{Bytes}
use disc.Timer.{update}
use disc.HashTable.Links.{occurs}
use disc.Route.{
  PeerEntry, Routes, absent, same_text, find_peer, find_route, last_route, append_at, list_append,
  returned, new_entry, with_peer, link_route, route_to, add_route,
}
use disc.Route.Chain.{IsChain}

IsChain-update :
    (next : ℕ → Option ℕ) (head : Option ℕ) (re : ℕ) (o : Option ℕ) (xs : List ℕ)
    → occurs re xs ≡ 0
    → IsChain next head xs
    → IsChain (update next re o) head xs
unfolding IsChain occurs
IsChain-update next head re o [] h c = c
IsChain-update next head re o (x ∷ xs) h (e, c) =
    let other : (x == re) ≡ false = ground arith in
    (e, rw other (IsChain-update next (next x) re o xs (ground arith) c))

-- The entry `re` behind the last one.
append_at_end :
    (r : Routes) (n re x : ℕ) (xs : List ℕ)
    → IsChain r.next (some x) (x ∷ xs)
    → length (x ∷ xs) ≤ n
    → occurs re (x ∷ xs) ≡ 0
    → r.next re ≡ none
    → (last : ℕ) × (last_route r n x ≡ some last)
      × (r.next last ≡ none)
      × IsChain (update r.next last (some re)) (some x) ((x ∷ xs) ++ (re ∷ []))
unfolding IsChain last_route occurs
append_at_end r zero re x xs c h fresh free = absurd (omega arith)
append_at_end r (suc n) re x [] (e, f) h fresh free =
    let here : (x == x) ≡ true = ground arith in
    let other : (re == x) ≡ false = ground arith in
    (x, rw (last_route, f) refl, f, (refl, rw (here, other) (refl, free)))
append_at_end r (suc n) re x (y ∷ ys) (e, (f, c)) h fresh free =
    let (last, found, end, chain) =
      append_at_end r n re y ys (refl, c) (omega arith) (ground arith) free in
    let other : (x == last) ≡ false = elim (Bool-cases (x == last)) [
      | inl at_end ↦ let same : r.next x ≡ r.next last = ap r.next (==→eq x last at_end) in cc
      | inr before ↦ before
    ] in
    (last, rw (last_route, f) found, end, (refl, rw (other, f) chain))

list_append-IsChain :
    (r : Routes) (n re : ℕ) (xs : List ℕ)
    → IsChain r.next r.route_lst xs
    → length xs ≤ n
    → occurs re xs ≡ 0
    → r.next re ≡ none
    → (q : Routes) × (list_append n re r ≡ some q) × IsChain q.next q.route_lst (xs ++ (re ∷ []))
unfolding append_at IsChain
list_append-IsChain r n re [] c h fresh free =
    (record r { route_lst = some re }, ap (λ head. append_at head n re r) c, (refl, free))
list_append-IsChain r n re (x ∷ xs) (head, c) h fresh free =
    let (last, at_last, end, chain) = append_at_end r n re x xs (refl, c) h fresh free in
    (
      record r { next = update r.next last (some re) },
      ap (λ o. append_at o n re r) head ∙ rw (append_at, at_last) refl,
      subst (λ o. IsChain (update r.next last (some re)) o ((x ∷ xs) ++ (re ∷ []))) (sym head)
          chain,
    )

-- In a server, with routes that form a chain of entries, with as much fuel as entries, and with memory:
-- `add_route` for a realm that has no route yet, and a peer that is known, succeeds, and the list of
-- routes is a chain again, with the new entry at its end.
pub add_route-IsChain :
    (n re : ℕ) (xs : List ℕ) (realm dst : Bytes) (pe : PeerEntry) (r : Routes)
    → IsChain r.next r.route_lst xs
    → length xs ≤ n
    → occurs re xs ≡ 0
    → find_peer dst r.cfg_peer_lst ≡ some pe
    → find_route (λ y. same_text y realm) r n r.route_lst ≡ absent
    → (q : Routes) × (add_route n true (some re) true realm dst r ≡ returned true q)
      × IsChain q.next q.route_lst (xs ++ (re ∷ []))
unfolding add_route route_to link_route
add_route-IsChain n re xs realm dst pe r c h fresh known found =
    let self : (re == re) ≡ true = ground arith in
    let (q, appended, chain) =
      list_append-IsChain (with_peer re pe (new_entry re realm r)) n re xs
        (IsChain-update r.next r.route_lst re none xs fresh c) h fresh (rw self refl) in
    (q, rw (add_route, known, route_to, found, link_route, appended) refl, chain)

-- ===== src/Route/Cycle.antt =====
-- A second peer for a realm closes the list of routes to a cycle.
use disc.Base.{
  ℕ, zero, suc, ◌<◌, ◌≤◌, ◌≡◌, refl, ◌∙◌, ap, subst, inl, inr, Bool, true, false, Option, some,
  List, ◌∷◌, ◌==◌, ltb, length, Bool-cases, arith,
}
use disc.Utils.{Bytes}
use disc.Timer.{update}
use disc.HashTable.Links.{occurs}
use disc.Route.{
  PeerEntry, Routes, entry, running, same_text, find_peer, find_route, append_at, list_append,
  returned, with_peer, link_route, route_to, add_route, route_dest, max_realm_len,
}
use disc.Route.Chain.{IsChain, last_of_chain, found_in_chain}

-- A walk does not end in entries that each lead to another of them and none of which passes the test.
goes_round :
    (test : Bytes → Bool) (r : Routes) (xs : List ℕ) (m a : ℕ)
    → ((x : ℕ)
        → 0 < occurs x xs
        → (test (r.entries x).realm ≡ false) × (y : ℕ) × (r.next x ≡ some y) × (0 < occurs y xs))
    → 0 < occurs a xs
    → find_route test r m (some a) ≡ running
unfolding find_route
goes_round test r xs zero a closed h = refl
goes_round test r xs (suc m) a closed h =
    let (fails, y, leads, there) = closed a h in
    rw (find_route, fails, leads) (goes_round test r xs m y closed there)

-- The last entry leads to one of the others.
abbrev closed_at : ℕ → ℕ → PeerEntry → Routes → Routes
closed_at last re pe r =
    let q = with_peer re pe r in record q { next = update q.next last (some re) }

append_to_chain :
    (r : Routes) (n re x : ℕ) (xs : List ℕ) (pe : PeerEntry)
    → r.route_lst ≡ some x
    → IsChain r.next r.route_lst (x ∷ xs)
    → length (x ∷ xs) ≤ n
    → 0 < occurs re (x ∷ xs)
    → (q : Routes) × (list_append n re (with_peer re pe r) ≡ some q)
      × (q.route_lst ≡ some x)
      × ((y : ℕ) → (q.entries y).realm ≡ (r.entries y).realm)
      × ((y : ℕ) → 0 < occurs y (x ∷ xs) → (z : ℕ) × (q.next y ≡ some z) × (0 < occurs z (x ∷ xs)))
unfolding append_at
append_to_chain r n re x xs pe e c h there =
    let (last, found, end, others) =
      last_of_chain (with_peer re pe r) n x xs (subst (λ head. IsChain r.next head (x ∷ xs)) e c)
        h in
    (
      closed_at last re pe r,
      ap (λ head. append_at head n re (with_peer re pe r)) e ∙ rw (append_at, found) refl,
      e,
      λ y. ground arith,
      λ y in_list. elim (others y in_list) [
        | inl same ↦ (re, ground arith, there)
        | inr (z, leads, z_in_list) ↦ elim (Bool-cases (y == last)) [
          | inl at_end ↦ (re, ground arith, there)
          | inr before ↦ (z, rw before leads, z_in_list)
        ]
      ],
    )

-- In a server, with routes that form a chain of entries, and as much fuel as entries: `add_route` for
-- a realm that has a route already, and a peer that is known, succeeds if there is memory, and closes
-- the list of routes to a cycle: for a realm that no entry matches, and that is not too long,
-- `route_dest` does not end, whatever the fuel.
pub add_route-running :
    (n re x : ℕ) (xs : List ℕ) (new : Option ℕ) (realm dst : Bytes) (pe : PeerEntry) (r : Routes)
    (matches : Bytes → Bytes → Bool) (m : ℕ) (dst_realm : Bytes)
    → r.route_lst ≡ some x
    → IsChain r.next r.route_lst (x ∷ xs)
    → length (x ∷ xs) ≤ n
    → find_peer dst r.cfg_peer_lst ≡ some pe
    → find_route (λ y. same_text y realm) r n r.route_lst ≡ entry re
    → ((y : ℕ) → 0 < occurs y (x ∷ xs) → matches (r.entries y).realm dst_realm ≡ false)
    → length dst_realm ≤ 128
    → (q : Routes) × (add_route n true new true realm dst r ≡ returned true q)
      × (route_dest matches m dst_realm q ≡ running)
unfolding add_route route_to link_route route_dest
add_route-running n re x xs new realm dst pe r matches m dst_realm e c h known found none_matches
      short =
    let there = found_in_chain (λ y. same_text y realm) r n re r.route_lst (x ∷ xs) c found in
    let (q, appended, head, realms, closed) = append_to_chain r n re x xs pe e c h there in
    let fits : ltb max_realm_len (length dst_realm) ≡ false = ground arith in
    (
      q,
      rw (add_route, known, route_to, found, link_route, appended) refl,
      rw (fits, head)
          (goes_round (λ y. matches y dst_realm) q (x ∷ xs) m x
            (λ y in_list.
              let (z, leads, z_in_list) = closed y in_list in
              (
                ap (λ t. matches t dst_realm) (realms y) ∙ none_matches y in_list,
                z,
                leads,
                z_in_list,
              ))
            (unfold occurs in ground arith)),
    )

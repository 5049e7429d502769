-- ===== src/Route.antt =====
-- route.c and route.h: the peers and routes of the configuration. Entries of the list of routes are
-- known by their addresses.
pub mod Chain
pub mod Cycle
pub mod Extend
pub mod Peers
use disc.Base.{
  ℕ, zero, suc, Bool, true, false, ◌&&◌, ◌||◌, Option, none, some, List, [], ◌∷◌, ◌++◌, ◌==◌, ltb,
  length, if◌then◌else◌,
}
use disc.Utils.{Bytes}
use disc.Timer.{update}
use disc.Uri.{lower}

-- `struct peer_entry`. A route holds a copy of the entry where the source holds a pointer to it, so that a
-- `peer` that is set behind add_route does not show in the route.
pub record PeerEntry : Type 0 where
  pub full_uri : Bytes
  pub alias : Bytes
  pub host : Bytes
  pub peer : Option ℕ

-- `struct route_entry` without `next`
pub record RouteEntry : Type 0 where
  pub realm : Bytes
  pub peer_l : List PeerEntry

-- `freed` are the entries that have been freed while `route_lst` may still lead to them.
pub record Routes : Type 0 where
  pub cfg_peer_lst : List PeerEntry
  pub route_lst : Option ℕ
  pub entries : ℕ → RouteEntry
  pub next : ℕ → Option ℕ
  pub freed : List ℕ

-- Two texts of the same length that `strncasecmp` finds equal; no text has a byte 0.
unfoldable pub same_text : Bytes → Bytes → Bool
same_text [] [] = true
same_text (a ∷ cs) (b ∷ ds) = (lower a == lower b) && same_text cs ds
same_text _ _ = false

-- Does the destination of a route name the peer?
unfoldable pub names : Bytes → PeerEntry → Bool
names dst pe = same_text pe.alias dst || (same_text pe.full_uri dst || same_text pe.host dst)

unfoldable pub find_peer : Bytes → List PeerEntry → Option PeerEntry
find_peer dst [] = none
find_peer dst (pe ∷ pes) = let rest = find_peer dst pes in if names dst pe then some pe else rest

-- The result of a walk along the routes; `running` if the fuel is spent before.
pub data Found : Type 0 where
  entry : ℕ → Found
  absent running : Found

-- `for (re=route_lst; re; re=re->next)` up to the first entry whose realm passes the test.
unfoldable pub find_route : (Bytes → Bool) → Routes → ℕ → Option ℕ → Found
find_route test r n none = absent
find_route test r zero (some a) = running
find_route test r (suc n) (some a) =
    let rest = find_route test r n (r.next a) in if test (r.entries a).realm then entry a else rest

-- The last entry behind `a`, `none` if the fuel is spent before.
unfoldable pub last_route : Routes → ℕ → ℕ → Option ℕ
last_route r zero a = none
last_route r (suc n) a = elim (r.next a) [ none ↦ some a | some b ↦ last_route r n b ]

-- `LIST_APPEND` on the list of routes, of which `head` is the first
unfoldable pub append_at : Option ℕ → ℕ → ℕ → Routes → Option Routes
append_at none n re r = some (record r { route_lst = some re })
append_at (some a) n re r = elim (last_route r n a) [
  | some last ↦ some (record r { next = update r.next last (some re) })
  | none ↦ none
]

abbrev pub list_append : ℕ → ℕ → Routes → Option Routes
list_append n re r = append_at r.route_lst n re r

-- The results 0 and -1 as `true` and `false`.
pub data Outcome : Type 0 where
  returned : Bool → Routes → Outcome
  endless : Outcome

-- An entry that is filled with zeros, but for its realm.
abbrev pub new_entry : ℕ → Bytes → Routes → Routes
new_entry re realm r = record r {
  entries = update r.entries re (record { realm = realm; peer_l = [] });
  next = update r.next re none;
}

abbrev pub with_peer : ℕ → PeerEntry → Routes → Routes
with_peer re pe r = record r {
  entries =
      update r.entries re (record (r.entries re) { peer_l = (r.entries re).peer_l ++ (pe ∷ []) });
}

-- From the allocation of the entry of the peer list on; `got` says whether it succeeds.
unfoldable pub link_route : ℕ → Bool → ℕ → PeerEntry → Routes → Outcome
link_route n got re pe r =
    if got
    then elim (list_append n re (with_peer re pe r)) [ some q ↦ returned true q | none ↦ endless ]
    else returned false (record r { freed = re ∷ r.freed })

-- The route for the realm, which is made if there is none.
unfoldable pub route_to : ℕ → Option ℕ → Bool → Bytes → PeerEntry → Routes → Outcome
route_to n new got realm pe r = elim (find_route (λ x. same_text x realm) r n r.route_lst) [
  | running ↦ endless
  | entry re ↦ link_route n got re pe r
  | absent ↦ elim new [
    | none ↦ returned false r
    | some re ↦ link_route n got re pe (new_entry re realm r)
  ]
]

-- `new` is what `shm_malloc` returns for a new route. The fuel `n` is for each walk along the routes.
unfoldable pub add_route : ℕ → Bool → Option ℕ → Bool → Bytes → Bytes → Routes → Outcome
add_route n is_server new got realm dst r =
    let added : Outcome = elim (find_peer dst r.cfg_peer_lst) [
      | some pe ↦ route_to n new got realm pe r
      | none ↦ returned false r
    ] in
    if is_server then added else returned false r

abbrev pub max_realm_len : ℕ
max_realm_len = 128

-- `matches pattern realm` stands for `fnmatch(pattern, realm, 0) == 0`.
unfoldable pub route_dest : (Bytes → Bytes → Bool) → ℕ → Bytes → Routes → Found
route_dest matches n dst_realm r =
    let found = find_route (λ x. matches x dst_realm) r n r.route_lst in
    if ltb max_realm_len (length dst_realm) then absent else found

-- The first peer of a route that takes the request; `sends` says whether `send_req_to_peer` does.
unfoldable pub try_peers : (ℕ → Bool) → List PeerEntry → Option ℕ
try_peers sends [] = none
try_peers sends (pe ∷ pes) =
    let rest = try_peers sends pes in
    elim pe.peer [ some p ↦ if sends p then some p else rest | none ↦ rest ]

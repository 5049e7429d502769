-- ===== src/Tests/Routing.antt =====
-- Routes of a server, and the witnesses.
use disc.Base.{◌≡◌, refl, Bool, true, none, some, [], ◌∷◌, ◌==◌, arith, length, one_of}
use disc.Utils.{Bytes}
use disc.HashTable.Links.{occurs}
use disc.Route.{
  PeerEntry, Routes, entry, absent, running, same_text, names, find_peer, find_route, returned,
  add_route, route_dest, try_peers,
}
use disc.Route.Chain.{IsChain}
use disc.Route.Cycle.{add_route-running}
use disc.Uri.{no_uri, scan, step, finish, has_scheme, aaa_parse_uri}
use disc.Route.Peers.{is_present, add_cfg_peer, IsDistinct, add_cfg_peer_lem}
use disc.Route.Extend.{add_route-IsChain}

abbrev peer_a : PeerEntry
peer_a = record { full_uri = b'a' ∷ []; alias = b'p' ∷ []; host = b'h' ∷ []; peer = some 1 }

-- One route, for the realm "x", at address 10
abbrev one_route : Routes
one_route = record {
  cfg_peer_lst = peer_a ∷ [];
  route_lst = some 10;
  entries = λ a. record { realm = b'x' ∷ []; peer_l = [] };
  next = λ a. none;
  freed = [];
}

-- Two texts are equal.
abbrev exactly : Bytes → Bytes → Bool
exactly = same_text

peer_found : find_peer (b'P' ∷ []) (peer_a ∷ []) ≡ some peer_a
unfolding find_peer names same_text
peer_found = refl

route_found : find_route (λ y. same_text y (b'X' ∷ [])) one_route 1 (some 10) ≡ entry 10
unfolding find_route same_text
route_found = refl

one_route-IsChain : IsChain one_route.next one_route.route_lst (10 ∷ [])
unfolding IsChain
one_route-IsChain = (refl, refl)

add_route-running_example :
    (q : Routes) × (add_route 1 true (some 11) true (b'X' ∷ []) (b'P' ∷ []) one_route
      ≡ returned true q)
    × (route_dest exactly 1000 (b'y' ∷ []) q ≡ running)
add_route-running_example =
    add_route-running 1 10 10 [] (some 11) (b'X' ∷ []) (b'P' ∷ []) peer_a one_route exactly 1000
      (b'y' ∷ []) refl one_route-IsChain (omega arith) peer_found route_found
      (λ y h. unfold same_text in refl) (omega arith)

route_missing : find_route (λ y. same_text y (b'y' ∷ [])) one_route 1 (some 10) ≡ absent
unfolding find_route same_text
route_missing = refl

add_route-IsChain_example :
    (q : Routes) × (add_route 1 true (some 11) true (b'y' ∷ []) (b'P' ∷ []) one_route
      ≡ returned true q)
    × IsChain q.next q.route_lst (10 ∷ 11 ∷ [])
add_route-IsChain_example =
    add_route-IsChain 1 11 (10 ∷ []) (b'y' ∷ []) (b'P' ∷ []) peer_a one_route one_route-IsChain
      (omega arith) (unfold occurs in refl) peer_found route_missing

-- The first peer is not open, and the second takes the request.
second_peer : try_peers (λ p. p == 2) (peer_a ∷ record peer_a { peer = some 2 } ∷ []) ≡ some 2
unfolding try_peers
second_peer = refl

-- "aaa://h"
abbrev short_uri : Bytes
short_uri = b'a' ∷ b'a' ∷ b'a' ∷ b':' ∷ b'/' ∷ b'/' ∷ b'h' ∷ []

short_uri_parsed :
    aaa_parse_uri short_uri ≡ some (record no_uri { host = record { start = some 6; len = 1 } })
unfolding aaa_parse_uri has_scheme scan step finish one_of
short_uri_parsed = refl

add_cfg_peer_lem_example :
    (q : Routes) × (add_cfg_peer true short_uri (b'q' ∷ []) one_route ≡ some q)
    × (length q.cfg_peer_lst ≡ 2)
    × IsDistinct q.cfg_peer_lst
    × ((got : Bool) (other : Bytes) → add_cfg_peer got short_uri other q ≡ none)
    × (find_peer (b'Q' ∷ []) q.cfg_peer_lst
        ≡ some (record { full_uri = short_uri; alias = b'q' ∷ []; host = b'h' ∷ []; peer = none }))
add_cfg_peer_lem_example =
    add_cfg_peer_lem short_uri (b'q' ∷ [])
      (record no_uri { host = record { start = some 6; len = 1 } }) one_route (b'Q' ∷ [])
      (unfold IsDistinct in (tt, tt)) short_uri_parsed (unfold is_present same_text in refl)
      (unfold find_peer names same_text in refl) (unfold same_text in refl)

bad_uri : add_cfg_peer true (b'h' ∷ []) (b'q' ∷ []) one_route ≡ none
unfolding add_cfg_peer aaa_parse_uri is_present same_text
bad_uri = refl

-- ===== src/Route/Peers.antt =====
-- route.c: the peers of the configuration. No two have the same alias or the same URI.
use disc.Base.{
  ◌+◌, ◌≡◌, ◌≢◌, All, map, length, length-append, refl, inl, inr, Bool, true, false, ◌||◌, Option,
  none, some, List, [], ◌∷◌, ◌++◌, ◌==◌, Bool-cases, if◌then◌else◌, take, drop, arith,
}
use disc.Utils.{Bytes}
use disc.Uri.{Str, Uri, aaa_parse_uri, lower}
use disc.Route.{PeerEntry, Routes, same_text, names, find_peer}

-- The bytes of a string inside the text; none for a string that is not set.
abbrev str_bytes : Bytes → Str → Bytes
str_bytes buf s = elim s.start [ none ↦ [] | some a ↦ take s.len (drop a buf) ]

-- Is there a peer with the alias or the URI? The alias is not NULL.
unfoldable pub is_present : Bytes → Bytes → List PeerEntry → Bool
is_present uri alias [] = false
is_present uri alias (t ∷ ts) =
    let rest = is_present uri alias ts in
    same_text t.alias alias || (same_text t.full_uri uri || rest)

abbrev pub peer_entry : Bytes → Bytes → Uri → PeerEntry
peer_entry uri alias u = record {
  full_uri = uri;
  alias = alias;
  host = str_bytes uri u.host;
  peer = none;
}

-- `got` says whether the allocation succeeds; `none` stands for -1, with the list as it was.
unfoldable pub add_cfg_peer : Bool → Bytes → Bytes → Routes → Option Routes
add_cfg_peer got uri alias r =
    let parsed : Option Routes = elim (aaa_parse_uri uri) [
      | some u ↦ some (record r { cfg_peer_lst = r.cfg_peer_lst ++ (peer_entry uri alias u ∷ []) })
      | none ↦ none
    ] in
    if is_present uri alias r.cfg_peer_lst then none else (if got then parsed else none)

-- Two peers whose aliases differ, and whose URIs differ, also in letters of one case.
abbrev pub IsApart : PeerEntry → PeerEntry → Type 0
IsApart t u =
    (map lower t.alias ≢ map lower u.alias) × (map lower t.full_uri ≢ map lower u.full_uri)

unfoldable pub IsDistinct : List PeerEntry → Type 0
IsDistinct [] = Unit
IsDistinct (t ∷ ts) = All (λ u. IsApart t u) ts × IsDistinct ts

-- What the comparison of the source says of the texts
same_text-lower : (cs ds : Bytes) → map lower cs ≡ map lower ds → same_text cs ds ≡ true
unfolding same_text
same_text-lower [] [] e = refl
same_text-lower [] (d ∷ ds) e = cc
same_text-lower (c ∷ cs) [] e = cc
same_text-lower (c ∷ cs) (d ∷ ds) e =
    let first : lower c ≡ lower d = cc in
    let rest : map lower cs ≡ map lower ds = cc in
    rw (first, same_text-lower cs ds rest) (ground arith)

different : (cs ds : Bytes) → same_text cs ds ≡ false → map lower cs ≢ map lower ds
different cs ds h e = let same = same_text-lower cs ds e in cc

or_all_false : (a b c : Bool) → (a || (b || c)) ≡ false → (a ≡ false) × ((b ≡ false) × (c ≡ false))
or_all_false true b c h = cc
or_all_false false true c h = cc
or_all_false false false c h = (refl, (refl, h))

or_true : (a : Bool) → (a || true) ≡ true
or_true true = refl
or_true false = refl

or_first : (a b c : Bool) → (a || b) ≡ true → (a || (b || c)) ≡ true
or_first true b c h = refl
or_first false true c h = refl
or_first false false c h = cc

absent-IsApart :
    (ts : List PeerEntry) (pe : PeerEntry)
    → is_present pe.full_uri pe.alias ts ≡ false
    → All (λ t. IsApart t pe) ts
unfolding is_present
absent-IsApart [] pe h = tt
absent-IsApart (t ∷ ts) pe h =
    let (other_alias, (other_uri, later)) =
      or_all_false (same_text t.alias pe.alias) (same_text t.full_uri pe.full_uri)
        (is_present pe.full_uri pe.alias ts) h in
    (
      (different t.alias pe.alias other_alias, different t.full_uri pe.full_uri other_uri),
      absent-IsApart ts pe later,
    )

IsApart-append :
    (t pe : PeerEntry) (us : List PeerEntry)
    → All (λ u. IsApart t u) us
    → IsApart t pe
    → All (λ u. IsApart t u) (us ++ (pe ∷ []))
IsApart-append t pe [] h a = (a, tt)
IsApart-append t pe (u ∷ us) h a = (h.0, IsApart-append t pe us h.1 a)

IsApart-IsDistinct :
    (ts : List PeerEntry) (pe : PeerEntry)
    → All (λ t. IsApart t pe) ts
    → IsDistinct ts
    → IsDistinct (ts ++ (pe ∷ []))
unfolding IsDistinct
IsApart-IsDistinct [] pe h d = (tt, tt)
IsApart-IsDistinct (t ∷ ts) pe h d =
    (IsApart-append t pe ts d.0 h.0, IsApart-IsDistinct ts pe h.1 d.1)

pub IsDistinct-append :
    (ts : List PeerEntry) (pe : PeerEntry)
    → is_present pe.full_uri pe.alias ts ≡ false
    → IsDistinct ts
    → IsDistinct (ts ++ (pe ∷ []))
IsDistinct-append ts pe h d = IsApart-IsDistinct ts pe (absent-IsApart ts pe h) d

find_peer-append :
    (dst : Bytes) (ts : List PeerEntry) (pe : PeerEntry)
    → find_peer dst ts ≡ none
    → names dst pe ≡ true
    → find_peer dst (ts ++ (pe ∷ [])) ≡ some pe
unfolding find_peer
find_peer-append dst [] pe h here = rw here refl
find_peer-append dst (t ∷ ts) pe h here = elim (Bool-cases (names dst t)) [
  | inl named ↦ let found : some t ≡ none = rw named at h in cc
  | inr other ↦ rw other (find_peer-append dst ts pe (rw other at h) here)
]

same_text_refl : (cs : Bytes) → same_text cs cs ≡ true
unfolding same_text
same_text_refl [] = refl
same_text_refl (c ∷ cs) =
    let first : (lower c == lower c) ≡ true = ground arith in rw first (same_text_refl cs)

is_present-same :
    (uri alias : Bytes) (ts : List PeerEntry) (pe : PeerEntry)
    → same_text pe.full_uri uri ≡ true
    → is_present uri alias (ts ++ (pe ∷ [])) ≡ true
unfolding is_present
is_present-same uri alias [] pe same = rw same (or_true (same_text pe.alias alias))
is_present-same uri alias (t ∷ ts) pe same =
    rw
      (
        is_present-same uri alias ts pe same,
        or_true (same_text t.full_uri uri),
        or_true (same_text t.alias alias),
      )
      refl

-- With memory, for a URI that the parser accepts, and with peers of which no two have the same alias
-- or the same URI, in letters of either case: `add_cfg_peer` of a URI and an alias that no peer has yet adds one peer, the peers
-- are as distinct as before, a second call for the URI is refused whatever the alias, and a name that
-- is the alias or the URI, in letters of either case, and that found no peer before, finds the new one.
pub add_cfg_peer_lem :
    (uri alias : Bytes) (u : Uri) (r : Routes) (dst : Bytes)
    → IsDistinct r.cfg_peer_lst
    → aaa_parse_uri uri ≡ some u
    → is_present uri alias r.cfg_peer_lst ≡ false
    → find_peer dst r.cfg_peer_lst ≡ none
    → (same_text alias dst || same_text uri dst) ≡ true
    → (q : Routes) × (add_cfg_peer true uri alias r ≡ some q)
      × (length q.cfg_peer_lst ≡ length r.cfg_peer_lst + 1)
      × IsDistinct q.cfg_peer_lst
      × ((got : Bool) (other : Bytes) → add_cfg_peer got uri other q ≡ none)
      × (find_peer dst q.cfg_peer_lst ≡ some (peer_entry uri alias u))
unfolding add_cfg_peer names
add_cfg_peer_lem uri alias u r dst d parsed fresh unnamed named =
    let pe = peer_entry uri alias u in
    (
      record r { cfg_peer_lst = r.cfg_peer_lst ++ (pe ∷ []) },
      rw (fresh, parsed) refl,
      length-append r.cfg_peer_lst (pe ∷ []),
      IsDistinct-append r.cfg_peer_lst pe fresh d,
      λ got other. rw (is_present-same uri other r.cfg_peer_lst pe (same_text_refl uri)) refl,
      find_peer-append dst r.cfg_peer_lst pe unnamed
          (or_first (same_text alias dst) (same_text uri dst) (same_text pe.host dst) named),
    )

-- ===== src/Cfg/Peers.antt =====
-- The peers that a configuration adds.
use disc.Base.{
  ℕ, ◌≡◌, subst, inl, inr, Bool, true, false, Option, none, some, List, [], ◌∷◌, ◌++◌, All,
  Bool-cases, Option-cases, if◌then◌else◌,
}
use disc.Utils.{Bytes}
use disc.Route.{Routes}
use disc.Route.Peers.{add_cfg_peer, IsDistinct, is_present, peer_entry, IsDistinct-append}
use disc.Uri.{aaa_parse_uri}
use disc.Cfg.{CfgLine, GotStr, got_str, bad_quotes, no_memory, wild, cfg_getstr}
use disc.Cfg.Run.{Ran, ran, CfgDef, cfg_run_def, cfg_parse_stream, pair_from, cfg_addpair, peer_def}
use disc.Cfg.Kept.{IsKept, IsKeptBy, Keeps, cfg_parse_stream-IsKept}

abbrev pub HasDistinct : Routes → Type 0
HasDistinct r = IsDistinct r.cfg_peer_lst

-- With any result, also when the peer is refused.
add_cfg_peer-IsDistinct :
    (got : Bool) (uri alias : Bytes) (r q : Routes)
    → add_cfg_peer got uri alias r ≡ some q
    → HasDistinct r
    → HasDistinct q
unfolding add_cfg_peer
add_cfg_peer-IsDistinct got uri alias r q e d =
    elim (Bool-cases (is_present uri alias r.cfg_peer_lst)) [
      | inl old ↦ let no_peer : none ≡ some q = rw (add_cfg_peer, old) at e in cc
      | inr new ↦ elim (Bool-cases got) [
        | inr full ↦ let no_peer : none ≡ some q = rw (add_cfg_peer, new, full) at e in cc
        | inl room ↦ elim (Option-cases (aaa_parse_uri uri)) [
          | inl bad ↦ let no_peer : none ≡ some q = rw (add_cfg_peer, new, room, bad) at e in cc
          | inr (u, good) ↦
              let it : some
                    (record r { cfg_peer_lst = r.cfg_peer_lst ++ (peer_entry uri alias u ∷ []) })
                  ≡ some q =
                rw (add_cfg_peer, new, room, good) at e in
              let same : record r { cfg_peer_lst = r.cfg_peer_lst ++ (peer_entry uri alias u ∷ []) }
                  ≡ q =
                cc in
              subst HasDistinct same
                (IsDistinct-append r.cfg_peer_lst (peer_entry uri alias u) new d)
        ]
      ]
    ]

module _ {S : Type 0} (P : S → Type 0) (callback : Bytes → Bytes → S → Option S)
    (keeps : (a b : Bytes) (s t : S) → callback a b s ≡ some t → P s → P t) where
  pair_from-IsKept : (g h : GotStr) (s : S) → P s → IsKept P (pair_from callback g h s)
  pair_from-IsKept (got_str a) (got_str b) s p = elim (Option-cases (callback a b s)) [
    | inl e ↦ rw (pair_from, e) p
    | inr (t, e) ↦ rw (pair_from, e) (keeps a b s t e p)
  ]
  pair_from-IsKept (got_str a) wild s p = tt
  pair_from-IsKept (got_str a) bad_quotes s p = p
  pair_from-IsKept (got_str a) no_memory s p = p
  pair_from-IsKept wild h s p = tt
  pair_from-IsKept bad_quotes h s p = p
  pair_from-IsKept no_memory h s p = p

  by_memory :
      (got : Bool) (r : Ran S) (s : S) → P s → IsKept P r → IsKept P (if got then r else ran s 2)
  by_memory true r s p k = k
  by_memory false r s p k = p

  by_values :
      (vs : List Bytes) (got g h : Bool) (cl : CfgLine) (s : S)
      → P s
      → IsKept P (cfg_addpair callback got g h (record cl { value = vs }) s)
  unfolding cfg_addpair
  by_values [] got g h cl s p = p
  by_values (a ∷ []) got g h cl s p =
      by_memory got (pair_from callback (cfg_getstr g a) (got_str []) s) s p
        (pair_from-IsKept (cfg_getstr g a) (got_str []) s p)
  by_values (a ∷ b ∷ []) got g h cl s p =
      by_memory got (pair_from callback (cfg_getstr g a) (cfg_getstr h b) s) s p
        (pair_from-IsKept (cfg_getstr g a) (cfg_getstr h b) s p)
  by_values (a ∷ b ∷ c ∷ vs) got g h cl s p = p

  cfg_addpair-IsKept :
      (got g h : Bool) (cl : CfgLine) (s : S) → P s → IsKept P (cfg_addpair callback got g h cl s)
  cfg_addpair-IsKept got g h cl s p = by_values cl.value got g h cl s p

peer_def-Keeps : {V : Type 0} (mem : ℕ → CfgLine → Bool) → Keeps HasDistinct (peer_def {V = V} mem)
peer_def-Keeps mem = record {
  ints = λ i r d. d;
  strs = λ t r d. d;
  calls = λ c cl r e d.
      let call : CfgLine → Routes → Ran Routes =
        λ l q. cfg_addpair (add_cfg_peer (mem 3 l)) (mem 0 l) (mem 1 l) (mem 2 l) l q in
      let same : call ≡ c = cc in
      subst (λ f. IsKept HasDistinct (f cl r)) same
        (cfg_addpair-IsKept HasDistinct (add_cfg_peer (mem 3 cl))
          (λ a b s t. add_cfg_peer-IsDistinct (mem 3 cl) a b s t) (mem 0 cl) (mem 1 cl) (mem 2 cl)
          cl r d);
}

-- Whatever the lines of a configuration, and whichever allocations succeed, with the definition for
-- `peer` and any others that keep it: no two peers have the same alias or the same URI behind it, in letters of
-- either case, if none had before, also if the configuration is refused at some line.
pub config-IsDistinct :
    (V : Type 0) (strtol : Bytes → V × Bytes) (got : Bool) (mem : ℕ → CfgLine → Bool)
    (before after : List (CfgDef Routes V)) (ls : List Bytes) (line : ℕ) (ferror : Bool)
    (r : Routes)
    → All (Keeps HasDistinct) before
    → All (Keeps HasDistinct) after
    → HasDistinct r
    → IsKeptBy HasDistinct (
        cfg_parse_stream
          (cfg_run_def strtol got (before ++ (peer_def mem ∷ after)))
          ls
          line
          ferror
          r)
config-IsDistinct V strtol got mem before after ls line ferror r hb ha d =
    cfg_parse_stream-IsKept HasDistinct strtol got (before ++ (peer_def mem ∷ after)) ls line ferror
      r (All-append before hb) d
  where
    All-append :
        (bs : List (CfgDef Routes V))
        → All (Keeps HasDistinct) bs
        → All (Keeps HasDistinct) (bs ++ (peer_def mem ∷ after))
    All-append [] h = (peer_def-Keeps mem, ha)
    All-append (b ∷ bs) (k, h) = (k, All-append bs h)

-- ===== src/Cfg/Kept.antt =====
-- What the lines of a configuration keep, and the peers among them.
use disc.Base.{
  ℕ, ◌+◌, ◌≡◌, subst, inl, inr, Bool, true, false, not, Option, none, some, List, [], ◌∷◌, All,
  length, ltb, Bool-cases, Option-cases, if◌then◌else◌,
}
use disc.Utils.{Bytes}
use disc.Route.{same_text}
use disc.Cfg.{
  LineType, cfg_empty, cfg_comment, cfg_def, cfg_error, CfgLine, cfg_parse_line, GotStr, got_str,
  bad_quotes, no_memory, wild, cfg_getstr,
}
use disc.Cfg.Run.{
  DefType, int_val, str_val, gen_val, Ran, ran, wild_read, CfgDef, first_value, cfg_getint,
  store_got, get_str, checked, run_def, cfg_run_def, Parsed, finished, failed_at, crashed, do_line,
  cfg_parse_stream, Ran-cases,
}

module _ {S : Type 0} (P : S → Type 0) where
  abbrev pub IsKept : Ran S → Type 0
  IsKept (ran t n) = P t
  IsKept wild_read = Unit

  abbrev pub IsKeptBy : Parsed S → Type 0
  IsKeptBy (finished t) = P t
  IsKeptBy (failed_at n t) = P t
  IsKeptBy crashed = Unit

  module _ (run : CfgLine → S → Ran S)
      (keeps : (cl : CfgLine) (s : S) → P s → IsKept (run cl s)) where
    do_line-IsKept : (ty : LineType) (cl : CfgLine) (s : S) → P s → IsKept (do_line run ty cl s)
    unfolding do_line
    do_line-IsKept cfg_def cl s h = keeps cl s h
    do_line-IsKept cfg_error cl s h = h
    do_line-IsKept cfg_empty cl s h = h
    do_line-IsKept cfg_comment cl s h = h

    parse_stream-IsKept :
        (ls : List Bytes) (line : ℕ) (ferror : Bool) (s : S)
        → P s
        → IsKeptBy (cfg_parse_stream run ls line ferror s)
    unfolding cfg_parse_stream
    parse_stream-IsKept [] line true s h = h
    parse_stream-IsKept [] line false s h = h
    parse_stream-IsKept (l ∷ ls) line ferror s h =
        let cl = cfg_parse_line l in
        let kept = do_line-IsKept cl.type cl s h in
        elim (Ran-cases (do_line run cl.type cl s)) [
          | inl (t, e) ↦
              rw (cfg_parse_stream, e)
                (parse_stream-IsKept ls (line + 1) ferror t (subst IsKept e kept))
          | inr (inl (t, n, e)) ↦ rw (cfg_parse_stream, e) (subst IsKept e kept)
          | inr (inr e) ↦ rw (cfg_parse_stream, e) tt
        ]

  -- What a definition writes, and its callback, keep the property.
  pub record Keeps {V : Type 0} (def : CfgDef S V) : Type 0 where
    pub ints : (i : V) (s : S) → P s → P (def.store_int i s)
    pub strs : (t : Bytes) (s : S) → P s → P (def.store_str t s)
    pub calls :
        (c : CfgLine → S → Ran S) (cl : CfgLine) (s : S) → def.c ≡ some c → P s → IsKept (c cl s)

  checked-IsKept : (r : Ran S) (cl : CfgLine) (s : S) → P s → IsKept r → IsKept (checked r cl s)
  checked-IsKept r cl s h k = by_tests cl.has_equal (ltb 1 (length cl.value))
    where
      by_tests :
          (equal many : Bool) → IsKept (if not equal then ran s 2 else if many then ran s 2 else r)
      by_tests false many = h
      by_tests true true = h
      by_tests true false = k

  store_got-IsKept :
      (store : Bytes → S → S) (g : GotStr) (s : S)
      → ((t : Bytes) (u : S) → P u → P (store t u))
      → P s
      → IsKept (store_got store g s)
  unfolding store_got
  store_got-IsKept store (got_str t) s strs h = strs t s h
  store_got-IsKept store bad_quotes s strs h = h
  store_got-IsKept store no_memory s strs h = h
  store_got-IsKept store wild s strs h = tt

  get_str-IsKept :
      (got : Bool) (store : Bytes → S → S) (o : Option Bytes) (s : S)
      → ((t : Bytes) (u : S) → P u → P (store t u))
      → P s
      → IsKept (get_str got store o s)
  unfolding get_str
  get_str-IsKept got store none s strs h = tt
  get_str-IsKept got store (some p) s strs h = store_got-IsKept store (cfg_getstr got p) s strs h

  module _ {V : Type 0} (strtol : Bytes → V × Bytes) (got : Bool) where
    cfg_getint-IsKept :
        (store : V → S → S) (o : Option Bytes) (s : S)
        → ((i : V) (u : S) → P u → P (store i u))
        → P s
        → IsKept (cfg_getint strtol store o s)
    unfolding cfg_getint
    cfg_getint-IsKept store none s ints h = tt
    cfg_getint-IsKept store (some p) s ints h = ints (strtol p).0 s h

    run_def-IsKept :
        (ty : DefType) (def : CfgDef S V) (cl : CfgLine) (s : S)
        → Keeps def
        → P s
        → IsKept (run_def strtol got ty def cl s)
    unfolding run_def
    run_def-IsKept int_val def cl s k h = elim (Option-cases def.c) [
      | inl e ↦
          rw (run_def, e)
            (checked-IsKept (cfg_getint strtol def.store_int (first_value cl.value) s) cl s h
              (cfg_getint-IsKept def.store_int (first_value cl.value) s k.ints h))
      | inr (c, e) ↦ rw (run_def, e) (checked-IsKept (c cl s) cl s h (k.calls c cl s e h))
    ]
    run_def-IsKept str_val def cl s k h = elim (Option-cases def.c) [
      | inl e ↦
          rw (run_def, e)
            (checked-IsKept (get_str got def.store_str (first_value cl.value) s) cl s h
              (get_str-IsKept got def.store_str (first_value cl.value) s k.strs h))
      | inr (c, e) ↦ rw (run_def, e) (checked-IsKept (c cl s) cl s h (k.calls c cl s e h))
    ]
    run_def-IsKept gen_val def cl s k h = elim (Option-cases def.c) [
      | inl e ↦ rw (run_def, e) h
      | inr (c, e) ↦ rw (run_def, e) (k.calls c cl s e h)
    ]

    run_defs-IsKept :
        (defs : List (CfgDef S V)) (cl : CfgLine) (s : S)
        → All Keeps defs
        → P s
        → IsKept (cfg_run_def strtol got defs cl s)
    unfolding cfg_run_def
    run_defs-IsKept [] cl s k h = h
    run_defs-IsKept (def ∷ defs) cl s (k, ks) h = elim (Bool-cases (same_text cl.id def.name)) [
      | inl this ↦ rw (cfg_run_def, this) (run_def-IsKept def.type def cl s k h)
      | inr other ↦ rw (cfg_run_def, other) (run_defs-IsKept defs cl s ks h)
    ]

    -- A property of the state that every definition of the table keeps, by what it writes and by its
    -- callback, is kept by any configuration, also by one that is refused at some line.
    pub cfg_parse_stream-IsKept :
        (defs : List (CfgDef S V)) (ls : List Bytes) (line : ℕ) (ferror : Bool) (s : S)
        → All Keeps defs
        → P s
        → IsKeptBy (cfg_parse_stream (cfg_run_def strtol got defs) ls line ferror s)
    cfg_parse_stream-IsKept defs ls line ferror s k h =
        parse_stream-IsKept (cfg_run_def strtol got defs)
          (λ cl u hu. run_defs-IsKept defs cl u k hu) ls line ferror s h

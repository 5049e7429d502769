-- ===== src/Cfg/Run.antt =====
-- cfg_run_def and cfg_parse_stream of cfg_parser.c, and the callbacks of cfg_init.c.
use disc.Base.{
  ℕ, zero, suc, ◌+◌, ◌-◌, ◌≡◌, refl, ◌⊎◌, inl, inr, Bool, not, ◌||◌, Option, none, some, List, [],
  ◌∷◌, ◌==◌, length, ltb, if◌then◌else◌,
}
use disc.Utils.{Bytes}
use disc.Route.{Routes, same_text}
use disc.Route.Peers.{add_cfg_peer}
use disc.Cfg.{
  LineType, cfg_def, cfg_error, CfgLine, cfg_parse_line, GotStr, got_str, bad_quotes, no_memory,
  wild, cfg_getstr,
}

pub data DefType : Type 0 where
  int_val str_val gen_val : DefType

-- The state behind a call and its result, without the sign: -1 is 1. `wild_read` is a read through NULL.
pub data Ran (S : Type 0) : Type 0 where
  ran : S → ℕ → Ran S
  wild_read : Ran S

-- `struct cfg_def`; `store_int` and `store_str` write to where `value` points, `V` is a number of C.
pub record CfgDef (S V : Type 0) : Type 0 where
  pub name : Bytes
  pub type : DefType
  pub store_int : V → S → S
  pub store_str : Bytes → S → S
  pub c : Option (CfgLine → S → Ran S)

-- `cl->value[0]`
abbrev pub first_value : List Bytes → Option Bytes
first_value [] = none
first_value (v ∷ vs) = some v

module _ {S : Type 0} where
  unfoldable pub store_got : (Bytes → S → S) → GotStr → S → Ran S
  store_got store (got_str t) s = ran (store t s) 0
  store_got store bad_quotes s = ran s 3
  store_got store no_memory s = ran s 4
  store_got store wild s = wild_read

  unfoldable pub get_str : Bool → (Bytes → S → S) → Option Bytes → S → Ran S
  get_str got store none s = wild_read
  get_str got store (some p) s = store_got store (cfg_getstr got p) s

  -- The tests in front of a single value
  abbrev pub checked : Ran S → CfgLine → S → Ran S
  checked r cl s =
      if not cl.has_equal then ran s 2 else if ltb 1 (length cl.value) then ran s 2 else r

module _ {S V : Type 0} where
  -- `strtol p` is the number and the text behind it; it is stored in any case.
  unfoldable pub cfg_getint : (Bytes → V × Bytes) → (V → S → S) → Option Bytes → S → Ran S
  cfg_getint strtol store none s = wild_read
  cfg_getint strtol store (some p) s =
      let (i, end) = strtol p in ran (store i s) (if length end == 0 then 0 else 3)

  module _ (strtol : Bytes → V × Bytes) (got : Bool) where
    -- The cases of the `switch` for a definition that is found
    unfoldable pub run_def : DefType → CfgDef S V → CfgLine → S → Ran S
    run_def int_val def cl s = elim def.c [
      | some c ↦ checked (c cl s) cl s
      | none ↦ checked (cfg_getint strtol def.store_int (first_value cl.value) s) cl s
    ]
    run_def str_val def cl s = elim def.c [
      | some c ↦ checked (c cl s) cl s
      | none ↦ checked (get_str got def.store_str (first_value cl.value) s) cl s
    ]
    run_def gen_val def cl s = elim def.c [ some c ↦ c cl s | none ↦ ran s 0 ]

    unfoldable pub cfg_run_def : List (CfgDef S V) → CfgLine → S → Ran S
    cfg_run_def [] cl s = ran s 1
    cfg_run_def (def ∷ defs) cl s =
        let rest = cfg_run_def defs cl s in
        if same_text cl.id def.name then run_def def.type def cl s else rest

pub Ran-cases :
    {S : Type 0} (r : Ran S)
    → ((t : S) × (r ≡ ran t 0)) ⊎ (((t : S) × (n : ℕ) × (r ≡ ran t (suc n))) ⊎ (r ≡ wild_read))
Ran-cases (ran t zero) = inl (t, refl)
Ran-cases (ran t (suc n)) = inr (inl (t, n, refl))
Ran-cases wild_read = inr (inr refl)

-- The result 0, or the number of the line with the error
pub data Parsed (S : Type 0) : Type 0 where
  finished : S → Parsed S
  failed_at : ℕ → S → Parsed S
  crashed : Parsed S

module _ {S : Type 0} (run : CfgLine → S → Ran S) where
  -- What a line does: `ran s 0` to go on, another number for the jump to `error`.
  unfoldable pub do_line : LineType → CfgLine → S → Ran S
  do_line cfg_def cl s = run cl s
  do_line cfg_error cl s = ran s 1
  do_line _ cl s = ran s 0

  -- The lines as `fgets` gives them, the number of the next, and whether reading fails behind them.
  unfoldable pub cfg_parse_stream : List Bytes → ℕ → Bool → S → Parsed S
  cfg_parse_stream [] line ferror s = if ferror then failed_at line s else finished s
  cfg_parse_stream (l ∷ ls) line ferror s =
      let cl = cfg_parse_line l in
      elim (do_line cl.type cl s) [
        | ran t zero ↦ cfg_parse_stream ls (line + 1) ferror t
        | ran t (suc n) ↦ failed_at line t
        | wild_read ↦ crashed
      ]

-- The callbacks of cfg_init.c.
module _ {S : Type 0} where
  -- `callback` gives `none` for an error.
  abbrev pub pair_from : (Bytes → Bytes → S → Option S) → GotStr → GotStr → S → Ran S
  pair_from callback (got_str a) (got_str b) s = elim (callback a b s) [
    | some t ↦ ran t 0
    | none ↦ ran s 3
  ]
  pair_from callback wild b s = wild_read
  pair_from callback bad_quotes b s = ran s 3
  pair_from callback no_memory b s = ran s 4
  pair_from callback (got_str a) wild s = wild_read
  pair_from callback (got_str a) bad_quotes s = ran s 3
  pair_from callback (got_str a) no_memory s = ran s 4

  -- `got` says whether both structures are allocated, `g` and `h` whether the texts are.
  unfoldable pub cfg_addpair :
      (Bytes → Bytes → S → Option S) → Bool → Bool → Bool → CfgLine → S → Ran S
  cfg_addpair callback got g h cl s = elim cl.value [
    | [] ↦ ran s 2
    | a ∷ vs ↦ elim vs [
      | [] ↦ if got then pair_from callback (cfg_getstr g a) (got_str []) s else ran s 2
      | b ∷ ws ↦ elim ws [
        | [] ↦ if got then pair_from callback (cfg_getstr g a) (cfg_getstr h b) s else ran s 2
        | _ ∷ _ ↦ ran s 2
      ]
    ]
  ]

-- The line of `cfg_ids` for `peer`; `mem` says which allocations for a line succeed.
abbrev pub peer_name : Bytes
peer_name = b'p' ∷ b'e' ∷ b'e' ∷ b'r' ∷ []

abbrev pub peer_def : {V : Type 0} → (ℕ → CfgLine → Bool) → CfgDef Routes V
peer_def mem = record {
  name = peer_name;
  type = gen_val;
  store_int = λ i r. r;
  store_str = λ t r. r;
  c = some (λ cl r. cfg_addpair (add_cfg_peer (mem 3 cl)) (mem 0 cl) (mem 1 cl) (mem 2 cl) cl r);
}

pub data Status : Type 0 where
  aaa_client aaa_server aaa_server_statefull : Status

-- `status_str` and `status_int`
abbrev pub statuses : List (Bytes × Status)
statuses =
    (b'a' ∷ b'a' ∷ b'a' ∷ b'_' ∷ b'c' ∷ b'l' ∷ b'i' ∷ b'e' ∷ b'n' ∷ b't' ∷ [], aaa_client)
    ∷ (b'a' ∷ b'a' ∷ b'a' ∷ b'_' ∷ b's' ∷ b'e' ∷ b'r' ∷ b'v' ∷ b'e' ∷ b'r' ∷ [], aaa_server)
    ∷ (
      b'a' ∷ b'a' ∷ b'a' ∷ b'_' ∷ b's' ∷ b'e' ∷ b'r' ∷ b'v' ∷ b'e' ∷ b'r' ∷ b'_' ∷ b's' ∷ b't'
          ∷ b'a' ∷ b't' ∷ b'e' ∷ b'f' ∷ b'u' ∷ b'l' ∷ b'l' ∷ [],
      aaa_server_statefull,
    )
    ∷ []

unfoldable pub status_at : List (Bytes × Status) → ℕ → Bytes → Option Status
status_at [] i v = none
status_at ((name, st) ∷ ss) zero v = if same_text v name then some st else none
status_at (s ∷ ss) (suc i) v = status_at ss i v

-- The rounds `i - 1`, ..., 0 of the loop
unfoldable pub find_status : ℕ → Bytes → Option Status
find_status zero v = none
find_status (suc i) v =
    let rest = find_status i v in elim (status_at statuses i v) [ some st ↦ some st | none ↦ rest ]

-- The first round is that of the last but one of the statuses.
unfoldable pub cfg_set_aaa_status : CfgLine → Status → Ran Status
cfg_set_aaa_status cl my_aaa_status = elim cl.value [
  | [] ↦ ran my_aaa_status 2
  | v ∷ vs ↦
      if not (length vs == 0) || not cl.has_equal
      then ran my_aaa_status 2
      else elim (find_status (length statuses - 1) v) [
        | some st ↦ ran st 0
        | none ↦ ran my_aaa_status 1
      ]
]

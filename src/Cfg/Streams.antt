-- ===== src/Cfg/Streams.antt =====
-- What cfg_parse_stream returns.
use disc.Base.{
  ℕ, zero, suc, ◌+◌, ◌≡◌, refl, subst, ap, ◌⊎◌, inl, inr, Bool, true, false, List, [], ◌∷◌, ◌++◌,
  length, arith,
}
use disc.Utils.{Bytes}
use disc.Cfg.{LineType, cfg_empty, cfg_comment, cfg_def, cfg_error, CfgLine, cfg_parse_line}
use disc.Cfg.Run.{
  Ran, ran, wild_read, Parsed, finished, failed_at, crashed, do_line, cfg_parse_stream, Ran-cases,
}

module _ {S : Type 0} (run : CfgLine → S → Ran S) where
  -- A line without a definition, or one whose definition is carried out.
  abbrev pub IsDone : Bytes → S → S → Type 0
  IsDone l s t =
      (((cfg_parse_line l).type ≡ cfg_empty) ⊎ ((cfg_parse_line l).type ≡ cfg_comment)) × (t ≡ s)
      ⊎ ((cfg_parse_line l).type ≡ cfg_def) × (run (cfg_parse_line l) s ≡ ran t 0)

  -- A line that is no definition, or one whose definition is refused.
  abbrev pub IsRefused : Bytes → S → S → Type 0
  IsRefused l s t =
      ((cfg_parse_line l).type ≡ cfg_error) × (t ≡ s)
      ⊎ ((cfg_parse_line l).type ≡ cfg_def) × ((n : ℕ) × (run (cfg_parse_line l) s ≡ ran t (suc n)))

  -- All lines are done, one after another.
  pub data Lines : S → List Bytes → S → Type 0 where
    done : {s t : S} → t ≡ s → Lines s [] t
    next :
        {s t u : S} {l : Bytes} {ls : List Bytes} → IsDone l s t → Lines t ls u → Lines s (l ∷ ls) u

  -- The result `n` is the number of the line that is refused, behind lines that are done.
  abbrev pub IsResult : Bool → ℕ → S → List Bytes → Parsed S → Type 0
  IsResult ferror line s ls (finished t) = Lines s ls t × (ferror ≡ false)
  IsResult ferror line s ls (failed_at n t) =
      (before : List Bytes) × (u : S) × Lines s before u
      × (n ≡ line + length before)
      × (((bad : Bytes) × (after : List Bytes) × (ls ≡ before ++ (bad ∷ after)) × IsRefused bad u t)
          ⊎ ((ls ≡ before) × (ferror ≡ true) × (t ≡ u)))
  IsResult ferror line s ls crashed =
      (before : List Bytes) × (u : S) × (bad : Bytes) × (after : List Bytes) × Lines s before u
      × (ls ≡ before ++ (bad ∷ after))
      × (run (cfg_parse_line bad) u ≡ wild_read)

  IsResult-next :
      (ferror : Bool) (line : ℕ) (s t : S) (l : Bytes) (ls : List Bytes) (r : Parsed S)
      → IsDone l s t
      → IsResult ferror (line + 1) t ls r
      → IsResult ferror line s (l ∷ ls) r
  IsResult-next ferror line s t l ls (finished u) d (steps, e) = (next d steps, e)
  IsResult-next ferror line s t l ls (failed_at n v) d
        (before, u, steps, e, inl (bad, after, split, why)) =
      (l ∷ before, u, next d steps, omega arith, inl (bad, after, ap (λ x. l ∷ x) split, why))
  IsResult-next ferror line s t l ls (failed_at n v) d (before, u, steps, e, inr (split, f, same)) =
      (l ∷ before, u, next d steps, omega arith, inr (ap (λ x. l ∷ x) split, f, same))
  IsResult-next ferror line s t l ls crashed d (before, u, bad, after, steps, split, why) =
      (l ∷ before, u, bad, after, next d steps, ap (λ x. l ∷ x) split, why)

  -- What a line does, by its type
  abbrev Effect : LineType → CfgLine → S → Ran S → Type 0
  Effect ty cl s (ran t zero) =
      ((ty ≡ cfg_empty) ⊎ (ty ≡ cfg_comment)) × (t ≡ s) ⊎ (ty ≡ cfg_def) × (run cl s ≡ ran t 0)
  Effect ty cl s (ran t (suc n)) =
      (ty ≡ cfg_error) × (t ≡ s) ⊎ (ty ≡ cfg_def) × ((k : ℕ) × (run cl s ≡ ran t (suc k)))
  Effect ty cl s wild_read = run cl s ≡ wild_read

  Effect-self : (cl : CfgLine) (s : S) (r : Ran S) → run cl s ≡ r → Effect cfg_def cl s r
  Effect-self cl s (ran t zero) e = inr (refl, e)
  Effect-self cl s (ran t (suc n)) e = inr (refl, (n, e))
  Effect-self cl s wild_read e = e

  do_line-Effect : (ty : LineType) (cl : CfgLine) (s : S) → Effect ty cl s (do_line run ty cl s)
  unfolding do_line
  do_line-Effect cfg_def cl s = Effect-self cl s (run cl s) refl
  do_line-Effect cfg_error cl s = inl (refl, refl)
  do_line-Effect cfg_empty cl s = inl (inl refl, refl)
  do_line-Effect cfg_comment cl s = inl (inr refl, refl)

  -- `cfg_parse_stream` returns 0 exactly behind lines all of which are empty, comments, or definitions that
  -- are carried out, in their order, and if reading does not fail; any other result is the number of the
  -- first line that is malformed or whose definition is refused, and all lines in front of it are done; or
  -- that of the line where reading fails.
  pub cfg_parse_stream-IsResult :
      (ls : List Bytes) (line : ℕ) (ferror : Bool) (s : S)
      → IsResult ferror line s ls (cfg_parse_stream run ls line ferror s)
  unfolding cfg_parse_stream
  cfg_parse_stream-IsResult [] line true s = ([], s, done refl, omega arith, inr (refl, refl, refl))
  cfg_parse_stream-IsResult [] line false s = (done refl, refl)
  cfg_parse_stream-IsResult (l ∷ ls) line ferror s =
      let cl = cfg_parse_line l in
      let effect = do_line-Effect cl.type cl s in
      elim (Ran-cases (do_line run cl.type cl s)) [
        | inl (t, e) ↦
            rw (cfg_parse_stream, e)
              (IsResult-next ferror line s t l ls (cfg_parse_stream run ls (line + 1) ferror t)
                (subst (Effect cl.type cl s) e effect)
                (cfg_parse_stream-IsResult ls (line + 1) ferror t))
        | inr (inl (t, n, e)) ↦
            rw (cfg_parse_stream, e)
              (
                [],
                s,
                done refl,
                omega arith,
                inl (l, ls, refl, subst (Effect cl.type cl s) e effect),
              )
        | inr (inr e) ↦
            rw (cfg_parse_stream, e)
              ([], s, l, ls, done refl, refl, subst (Effect cl.type cl s) e effect)
      ]

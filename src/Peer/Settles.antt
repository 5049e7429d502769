-- ===== src/Peer/Settles.antt =====
-- A loop over the AVPs that has not ended after one round for each byte never ends.
use disc.Base.{
  ℕ, zero, suc, ◌≤◌, ◌<◌, ◌≡◌, refl, sym, ◌+◌, ap, ◌∙◌, ◌⊎◌, inl, inr, Bool, true, false, [], ◌∷◌,
  drop, drop-drop, length, length-drop, ◌==◌, Bool-cases, ==→eq, arith,
}
use disc.Utils.{Bytes}
use disc.Msg.Wire.{Result, ok, err, fault, get_4bytes}
use disc.Peer.Scan.{Flow, on, leave, outside, unfinished, get_avp_len, scan_round, for_all_avps}

Result-cases : (r : Result ℕ) → ((a : ℕ) × (r ≡ ok a)) ⊎ (r ≡ err) ⊎ (r ≡ fault)
Result-cases (ok a) = inl (a, refl)
Result-cases err = inr (inl refl)
Result-cases fault = inr (inr refl)

Flow-cases :
    {S R : Type 0} (f : Flow S R)
    → ((s : S) × (f ≡ on s)) ⊎ ((r : R) × (f ≡ leave r)) ⊎ (f ≡ outside)
Flow-cases (on s) = inl (s, refl)
Flow-cases (leave r) = inr (inl (r, refl))
Flow-cases outside = inr (inr refl)

abbrev pub is_on {ℓ κ} : {S : Type ℓ} {R : Type κ} → Flow S R → Bool
is_on (on s) = true
is_on _ = false

goes_on : {S R : Type 0} (f : Flow S R) → is_on f ≡ true → (s : S) × (f ≡ on s)
goes_on (on s) e = (s, refl)
goes_on (leave r) e = cc
goes_on outside e = cc

module _ {S R : Type 0} (body : ℕ → Bytes → S → Flow S R) where
  -- A round that goes on would go on again.
  abbrev pub IsSteady : Type 0
  IsSteady =
      (code : ℕ) (avp : Bytes) (s t : S) → body code avp s ≡ on t → is_on (body code avp t) ≡ true

  -- A round that goes on.
  abbrev Goes : Bytes → S → S → Bytes → Type 0
  Goes avp s t next =
      (code : ℕ) × (len : ℕ) × (get_4bytes avp ≡ ok code)
      × (body code avp s ≡ on t)
      × (get_avp_len avp ≡ ok len)
      × (next ≡ drop len avp)

  round-Goes :
      (avp : Bytes) (s t : S) (next : Bytes)
      → scan_round body avp s ≡ on (t, next)
      → Goes avp s t next
  unfolding scan_round
  round-Goes avp s t next e = elim (Result-cases (get_4bytes avp)) [
    | inl (code, a) ↦ elim (Flow-cases (body code avp s)) [
      | inl (u, b) ↦ elim (Result-cases (get_avp_len avp)) [
        | inl (len, c) ↦ let same = rw (scan_round, a, b, c) at e in (code, len, a, cc, c, cc)
        | inr (inl c) ↦ let no = rw (scan_round, a, b, c) at e in cc
        | inr (inr c) ↦ let no = rw (scan_round, a, b, c) at e in cc
      ]
      | inr (inl (r, b)) ↦ let no = rw (scan_round, a, b) at e in cc
      | inr (inr b) ↦ let no = rw (scan_round, a, b) at e in cc
    ]
    | inr (inl a) ↦ let no = rw (scan_round, a) at e in cc
    | inr (inr a) ↦ let no = rw (scan_round, a) at e in cc
  ]

  Goes-round :
      (avp : Bytes) (s t : S) (next : Bytes)
      → Goes avp s t next
      → scan_round body avp s ≡ on (t, next)
  unfolding scan_round
  Goes-round avp s t next (code, len, a, b, c, d) = rw (scan_round, a, b, c, d) refl

  -- A round that goes on at the same place does so for ever.
  stuck :
      (n : ℕ) (b : ℕ) (bs : Bytes) (s t : S)
      → IsSteady
      → scan_round body (b ∷ bs) s ≡ on (t, b ∷ bs)
      → for_all_avps body n (b ∷ bs) s ≡ unfinished
  unfolding for_all_avps
  stuck zero b bs s t steady e = refl
  stuck (suc n) b bs s t steady e =
      let (code, len, a, goes, c, d) = round-Goes (b ∷ bs) s t (b ∷ bs) e in
      let (u, again) = goes_on (body code (b ∷ bs) t) (steady code (b ∷ bs) s t goes) in
      rw (for_all_avps, e)
        (stuck n b bs t u steady (Goes-round (b ∷ bs) t u (b ∷ bs) (code, len, a, again, c, d)))

  round_unfinished :
      (m : ℕ) (b : ℕ) (bs : Bytes) (s t : S) (next : Bytes)
      → scan_round body (b ∷ bs) s ≡ on (t, next)
      → ((k : ℕ) → for_all_avps body k next t ≡ unfinished)
      → for_all_avps body m (b ∷ bs) s ≡ unfinished
  unfolding for_all_avps
  round_unfinished zero b bs s t next e h = refl
  round_unfinished (suc m) b bs s t next e h = rw (for_all_avps, e) (h m)

  -- A loop that has not ended has come to an AVP of length 0.
  pub for_all_avps_stalls :
      (n : ℕ) (bs : Bytes) (s : S)
      → length bs ≤ n
      → for_all_avps body n bs s ≡ unfinished
      → (k : ℕ) × (get_avp_len (drop k bs) ≡ ok 0)
  unfolding for_all_avps
  for_all_avps_stalls n [] s h e = cc
  for_all_avps_stalls zero (b ∷ bs) s h e = absurd (omega arith)
  for_all_avps_stalls (suc n) (b ∷ bs) s h e = elim (Flow-cases (scan_round body (b ∷ bs) s)) [
    | inl ((t, next), goes) ↦
        let (code, len, _, _, c, d) = round-Goes (b ∷ bs) s t next goes in
        elim (Bool-cases (len == 0)) [
          | inl zero_len ↦ (0, c ∙ ap ok (==→eq len 0 zero_len))
          | inr some_len ↦
              let some_bytes : 0 < len = ground arith in
              let shorter : length next ≤ n =
                omega (arith, ap (λ x. length x) d, length-drop len (b ∷ bs)) in
              let (k, stands) =
                for_all_avps_stalls n next t shorter (rw (for_all_avps, goes) at e) in
              (
                len + k,
                ap get_avp_len (sym (drop-drop k len (b ∷ bs)) ∙ ap (drop k) (sym d)) ∙ stands,
              )
        ]
    | inr (inl (r, goes)) ↦ let no = rw (for_all_avps, goes) at e in cc
    | inr (inr goes) ↦ let no = rw (for_all_avps, goes) at e in cc
  ]

  pub for_all_avps_settles :
      (n : ℕ) (bs : Bytes) (s : S)
      → IsSteady
      → length bs ≤ n
      → for_all_avps body n bs s ≡ unfinished
      → (m : ℕ) → for_all_avps body m bs s ≡ unfinished
  unfolding for_all_avps
  for_all_avps_settles n [] s steady h e m = cc
  for_all_avps_settles zero (b ∷ bs) s steady h e m = absurd (omega arith)
  for_all_avps_settles (suc n) (b ∷ bs) s steady h e m =
      elim (Flow-cases (scan_round body (b ∷ bs) s)) [
        | inl ((t, next), goes) ↦
            let (code, len, _, _, _, d) = round-Goes (b ∷ bs) s t next goes in
            elim (Bool-cases (len == 0)) [
              | inl zero_len ↦
                  let same : next ≡ (b ∷ bs) =
                    d ∙ ap (λ k. drop k (b ∷ bs)) (==→eq len 0 zero_len) in
                  stuck m b bs s t steady (goes ∙ ap (λ x. on (t, x)) same)
              | inr some_len ↦
                  let some_bytes : 0 < len = ground arith in
                  let shorter : length next ≤ n =
                    omega (arith, ap (λ x. length x) d, length-drop len (b ∷ bs)) in
                  round_unfinished m b bs s t next goes
                    (for_all_avps_settles n next t steady shorter (rw (for_all_avps, goes) at e))
            ]
        | inr (inl (r, goes)) ↦ let no = rw (for_all_avps, goes) at e in cc
        | inr (inr goes) ↦ let no = rw (for_all_avps, goes) at e in cc
      ]

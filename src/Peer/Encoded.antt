-- ===== src/Peer/Encoded.antt =====
-- The loop over the AVPs of a message that `AAABuildMsgBuffer` has written.
use disc.Base.{
  ℕ, suc, ◌+◌, ◌-◌, ◌*◌, ◌/◌, ◌%◌, ◌^◌, ◌≤◌, ◌<◌, ◌≡◌, refl, sym, ap, ◌∙◌, List, [], ◌∷◌, ◌++◌,
  drop, drop_all, length, length-append, All, arith,
}
use disc.Utils.{Bytes, to_32x_len}
use disc.Msg.{Avp}
use disc.Msg.Wire.{ok, get_4bytes, get_4bytes-set_4bytes}
use disc.Msg.Build.{avp_hdr_size, avp_header}
use disc.Msg.Build.Encode.{encode_avp, encode_avps, avp_size, length-encode_avp}
use disc.Peer.Scan.{
  Flow, on, leave, outside, Scan, ended, left, overrun, get_avp_len, scan_round, for_all_avps,
}

-- The fields of the AVP fit those of its encoding.
pub record Fits (avp : Avp) : Type 0 where
  pub code : avp.code < 2 ^ 32
  pub size : length avp.payload < 2 ^ 24 - 12

code-encode_avp :
    (avp : Avp) (rest : Bytes)
    → avp.code < 2 ^ 32
    → get_4bytes (encode_avp avp ++ rest) ≡ ok avp.code
unfolding encode_avp avp_header
code-encode_avp avp rest h = get_4bytes-set_4bytes avp.code _ h

padded_size :
    (avp : Avp)
    → length avp.payload < 2 ^ 24 - 12
    → to_32x_len (avp_hdr_size avp.flags + length avp.payload) ≡ avp_size avp
unfolding to_32x_len
padded_size avp h = ground arith

low_24 :
    (f k : ℕ)
    → k < 2 ^ 24
    → (f % 256 * 2 ^ 24 + k / 2 ^ 16 % 256 * 2 ^ 16 + k / 2 ^ 8 % 256 * 2 ^ 8 + k % 256) % 2 ^ 24
      ≡ k
low_24 f k h = omega arith

hdr_size-le : (flags : ℕ) → (8 ≤ avp_hdr_size flags) × (avp_hdr_size flags ≤ 12)
hdr_size-le flags = ground arith

len-encode_avp :
    (avp : Avp) (rest : Bytes)
    → length avp.payload < 2 ^ 24 - 12
    → get_avp_len (encode_avp avp ++ rest) ≡ ok (avp_size avp)
unfolding encode_avp avp_header get_avp_len get_4bytes
len-encode_avp avp rest h =
    let n = avp_hdr_size avp.flags + length avp.payload in
    ap ok (
      ap to_32x_len (low_24 avp.flags n (omega (arith, hdr_size-le avp.flags))) ∙ padded_size avp h)

module _ {S R : Type 0} (case_of : Avp → S → Flow S R) where
  -- The loop over the AVPs themselves.
  unfoldable pub for_all : List Avp → S → Scan S R
  for_all [] s = ended s
  for_all (avp ∷ avps) s = elim (case_of avp s) [
    | on t ↦ for_all avps t
    | leave r ↦ left r
    | outside ↦ overrun
  ]

module _ {S R : Type 0} (body : ℕ → Bytes → S → Flow S R) (case_of : Avp → S → Flow S R) where
  -- What the body does at an encoded AVP that satisfies `P`.
  abbrev pub IsCase : (Avp → Type 0) → Type 0
  IsCase P =
      (avp : Avp) (rest : Bytes) (s : S)
      → P avp
      → body avp.code (encode_avp avp ++ rest) s ≡ case_of avp s

  abbrev went : Bytes → Flow S R → Flow (S × Bytes) R
  went rest (on t) = on (t, rest)
  went rest (leave r) = leave r
  went rest outside = outside

  round-encode_avp :
      (avp : Avp) (rest : Bytes) (s : S) (f : Flow S R)
      → Fits avp
      → body avp.code (encode_avp avp ++ rest) s ≡ f
      → scan_round body (encode_avp avp ++ rest) s ≡ went rest f
  unfolding scan_round
  round-encode_avp avp rest s (on t) fits same =
      let next : drop (avp_size avp) (encode_avp avp ++ rest) ≡ rest =
        ap (λ k. drop k (encode_avp avp ++ rest))
          (sym (length-encode_avp avp (omega (arith, fits.size))))
        ∙ drop_all (encode_avp avp) rest in
      rw (scan_round, code-encode_avp avp rest fits.code, same, len-encode_avp avp rest fits.size)
        (ap (λ r. on (t, r)) next)
  round-encode_avp avp rest s (leave r) fits same =
      rw (scan_round, code-encode_avp avp rest fits.code, same) refl
  round-encode_avp avp rest s outside fits same =
      rw (scan_round, code-encode_avp avp rest fits.code, same) refl

  abbrev continued : ℕ → Flow (S × Bytes) R → Scan S R
  continued n (on (t, next)) = for_all_avps body n next t
  continued n (leave r) = left r
  continued n outside = overrun

  for_all_avps_step :
      (n : ℕ) (bs : Bytes) (s : S) (f : Flow (S × Bytes) R)
      → 0 < length bs
      → scan_round body bs s ≡ f
      → for_all_avps body (suc n) bs s ≡ continued n f
  unfolding for_all_avps
  for_all_avps_step n [] s f h e = absurd (omega arith)
  for_all_avps_step n (b ∷ bs) s (on (t, next)) h e = rw (for_all_avps, e) refl
  for_all_avps_step n (b ∷ bs) s (leave r) h e = rw (for_all_avps, e) refl
  for_all_avps_step n (b ∷ bs) s outside h e = rw (for_all_avps, e) refl

  follow :
      (n : ℕ) (rest : Bytes) (avps : List Avp) (f : Flow S R)
      → ((t : S) → for_all_avps body n rest t ≡ for_all case_of avps t)
      → continued n (went rest f) ≡ (elim f as (λ _. Scan S R) [
        | on t ↦ for_all case_of avps t
        | leave r ↦ left r
        | outside ↦ overrun
      ])
  follow n rest avps (on t) h = h t
  follow n rest avps (leave r) h = refl
  follow n rest avps outside h = refl

  pub for_all_avps-encode_avps :
      {P : Avp → Type 0} (n : ℕ) (avps : List Avp) (s : S)
      → IsCase P
      → All (λ avp. Fits avp × P avp) avps
      → length (encode_avps avps) ≤ n
      → for_all_avps body n (encode_avps avps) s ≡ for_all case_of avps s
  unfolding for_all encode_avps for_all_avps
  for_all_avps-encode_avps n [] s same fits h = refl
  for_all_avps-encode_avps {P} n (avp ∷ avps) s same ((fit, p), fits) h =
      let rest = encode_avps avps in
      let long : 8 ≤ length (encode_avp avp) =
        omega (arith, length-encode_avp avp (omega (arith, fit.size)), hdr_size-le avp.flags) in
      let all : length (encode_avp avp ++ rest) ≡ length (encode_avp avp) + length rest =
        length-append (encode_avp avp) rest in
      let k : ℕ = n - 1 in
      let pred : n ≡ suc k = omega arith in
      let next =
        for_all_avps_step k (encode_avp avp ++ rest) s (went rest (case_of avp s)) (omega arith)
          (round-encode_avp avp rest s (case_of avp s) fit (same avp rest s p)) in
      rw pred (
        next
        ∙ follow k rest avps (case_of avp s)
            (λ t. for_all_avps-encode_avps k avps t same fits (omega arith)))

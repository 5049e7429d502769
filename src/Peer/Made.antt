-- ===== src/Peer/Made.antt =====
-- What build_msg_buffers leaves if it succeeds.
use disc.Base.{ℕ, ◌≡◌, refl, sym, ◌∙◌, Bool, true, false, ◌∷◌, ◌++◌}
use disc.Utils.{Bytes}
use disc.Msg.Wire.{Result, ok, err, fault, ◌>>=◌}
use disc.Msg.Build.Encode.{encode_avp, encode_avps}
use disc.Peer.Buffers.{
  Globals, Buffers, allocated, build_std_req, build_std_ans, build_ce_avp_ipv4, build_ce_avp_ipv6,
  build_dpr_avp, build_msg_buffers,
}
use disc.Peer.Parts.{std_avp}
use disc.Peer.Standard.{
  IsShort, blank_header, origin, no_number, std_req_lem, std_ans_lem, dpr_avp_lem,
}

-- A buffer that build_msg_buffers goes on with
went_on :
    {T : Type 0} (got : Bool) (made : Result Bytes) (and_then : Bytes → Result T) {t : T}
    → (allocated got made >>= and_then) ≡ ok t
    → (buf : Bytes) × (and_then buf ≡ ok t) × (made ≡ ok buf)
went_on true (ok buf) and_then e = (buf, e, refl)
went_on true err and_then e = cc
went_on true fault and_then e = cc
went_on false made and_then e = cc

-- The buffers that build_msg_buffers leaves if it succeeds
abbrev pub Holds : Globals → Buffers → Type 0
Holds g t =
    (t.std_req ≡ blank_header 0x80 ++ encode_avps (origin g))
    × (t.std_ans ≡ blank_header 0 ++ encode_avps (std_avp 268 no_number ∷ origin g))
    × (t.dpr_avp ≡ encode_avp (std_avp 273 no_number))

pub build_msg_buffers-Holds :
    (got : ℕ → Bool) (g : Globals) (t : Buffers)
    → IsShort g
    → build_msg_buffers got g ≡ ok t
    → Holds g t
unfolding build_msg_buffers
build_msg_buffers-Holds got g t s e =
    let (req, more, e0) = went_on (got 0) (build_std_req g) _ e in
    let (ans, more1, e1) = went_on (got 1) (build_std_ans g) _ more in
    let (v4, more2, e2) = went_on (got 2) (build_ce_avp_ipv4 g) _ more1 in
    let (v6, more3, e3) = went_on (got 3) (build_ce_avp_ipv6 v4) _ more2 in
    let (cause, done, e4) = went_on (got 4) build_dpr_avp _ more3 in
    let is_req = sym (std_req_lem g s) ∙ e0 in
    let is_ans = sym (std_ans_lem g s) ∙ e1 in let is_cause = sym dpr_avp_lem ∙ e4 in (cc, cc, cc)

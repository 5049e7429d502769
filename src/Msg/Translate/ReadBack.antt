-- ===== src/Msg/Translate/ReadBack.antt =====
-- The loop of `AAATranslateMessage` over AVPs that `AAABuildMsgBuffer` wrote.
use disc.Base.{
  subst, ℕ, zero, suc, ◌+◌, ◌≤◌, ◌≡◌, refl, sym, ap, ◌∙◌, true, some, List, [], ◌∷◌, ◌++◌, map,
  append_assoc, append-nil, ltb, lt→ltb, leb, le→leb, length-drop, length, length-append, drop,
  drop-drop, drop_all, All, arith,
}
use disc.Utils.{Bytes, to_32x_len}
use disc.Shm.{Allocator, Shm}
use disc.Msg.{ReturnCode, Avp, Message}
use disc.Msg.Create.{new_avp}
use disc.Msg.AvpList.{tail_of, add_avp}
use disc.Msg.AvpList.Order.{Distinct, Distinct-append, add_avp-tail}
use disc.Msg.Build.{avp_hdr_size}
use disc.Msg.Build.Encode.{encode_avp, encode_avps, length-encode_avp, to_32x_len_bounds}
use disc.Msg.Translate.{finished, read_round, link_created, translate_avps}
use disc.Msg.Translate.Avps.{IsWire, hdr-ge-eight, payload_read, parse_avp_header-encode_avp}
use disc.Msg.Translate.Views.{
  view, Succeeds, Drawn, Drawn-append, Drawn-Absent, copy, view-copy, create_from-copy, view_header,
  Extends, map-append_one,
}

module _ (alloc : Allocator) (source : Bytes) (end : ℕ) (good : Succeeds alloc) where
  abbrev pub Loops : ℕ → ℕ → Message → Shm → List Avp → Type 0
  Loops fuel ptr msg m avps =
      (msg' : Message) × (m' : Shm) × (translate_avps alloc source end fuel ptr msg m
        ≡ finished msg' m')
      × Extends msg avps msg'

  -- The message with one more AVP.
  abbrev extended : Message → Avp → Message
  extended msg a = (add_avp msg a (tail_of msg.avps)).1

  extended-avps :
      (msg : Message) (a : Avp) → Distinct msg.avps → (extended msg a).avps ≡ msg.avps ++ (a ∷ [])
  extended-avps msg a d = ap (λ (r : ReturnCode × Message). r.1.avps) (add_avp-tail msg a d)

  Extends-cons :
      (msg msg' : Message) (p : ℕ) (avp : Avp) (avps : List Avp)
      → IsWire avp
      → Distinct msg.avps
      → Extends (extended msg (copy p avp)) avps msg'
      → Extends msg (avp ∷ avps) msg'
  unfolding view_header
  Extends-cons msg msg' p avp avps w d e = record {
    avps_read =
        e.avps_read
        ∙ rw (extended-avps msg (copy p avp) d, map-append_one, view-copy p avp w)
            (append_assoc (map view msg.avps) (view avp ∷ []) (map view avps));
    header_same =
        e.header_same
        ∙ ap (λ (r : ReturnCode × Message). view_header r.1) (add_avp-tail msg (copy p avp) d);
    buf_same =
        e.buf_same ∙ ap (λ (r : ReturnCode × Message). r.1.buf) (add_avp-tail msg (copy p avp) d);
  }

  translate_avps-end :
      (fuel ptr : ℕ) (msg : Message) (m : Shm)
      → end ≤ ptr
      → translate_avps alloc source end fuel ptr msg m ≡ finished msg m
  unfolding translate_avps
  translate_avps-end zero ptr msg m h = ground arith
  translate_avps-end (suc fuel) ptr msg m h = ground arith

  -- One round over an encoded AVP.
  translate_avps-round :
      (fuel ptr p : ℕ) (rest : Bytes) (avp : Avp) (msg : Message) (m : Shm)
      → IsWire avp
      → drop ptr source ≡ encode_avp avp ++ rest
      → ptr + length (encode_avp avp) ≤ end
      → alloc m.calls ≡ some p
      → translate_avps alloc source end (suc fuel) ptr msg m
        ≡ translate_avps alloc source end fuel
            (ptr + length (encode_avp avp))
            (extended msg (copy p avp))
            (record m { calls = m.calls + 1; live = m.live + 1 })
  unfolding translate_avps read_round link_created
  translate_avps-round fuel ptr p rest avp msg m w there h e =
      let size = length-encode_avp avp (omega (arith, w.small)) in
      let eight = hdr-ge-eight avp.flags in
      let more : ltb ptr end ≡ true = lt→ltb ptr end (omega arith) in
      let shorter = ap length there ∙ length-append (encode_avp avp) rest in
      let inside : leb (ptr + avp_hdr_size avp.flags + length avp.payload) (length source) ≡ true =
        le→leb _ _ (
          omega (arith, length-drop ptr source, to_32x_len_bounds (length avp.payload), w.small)) in
      let read = payload_read avp source rest ptr w there in
      let next : ptr + avp_hdr_size avp.flags + to_32x_len (length avp.payload)
          ≡ ptr + length (encode_avp avp) =
        omega arith in
      rw (
        more,
        parse_avp_header-encode_avp avp source rest ptr w there end h,
        inside,
        create_from-copy alloc source avp ptr p m w.not_empty read e,
        next,
      )

  -- What the loop needs of its arguments to read the AVPs back.
  pub record Ready (avps : List Avp) (fuel ptr : ℕ) (rest : Bytes) (msg : Message) (m : Shm)
      : Type 0 where
    pub wire : All IsWire avps
    pub there : drop ptr source ≡ encode_avps avps ++ rest
    pub ends : end ≡ ptr + length (encode_avps avps)
    pub fueled : end ≤ ptr + fuel
    pub distinct : Distinct msg.avps
    pub drawn : Drawn alloc m.calls msg.avps

  -- After the round over the first AVP, the loop is ready for the others.
  next_Ready :
      (avp : Avp) (avps : List Avp) (fuel ptr p : ℕ) (rest : Bytes) (msg : Message) (m : Shm)
      → Ready (avp ∷ avps) (suc fuel) ptr rest msg m
      → alloc m.calls ≡ some p
      → Ready avps fuel
          (ptr + length (encode_avp avp))
          rest
          (extended msg (copy p avp))
          (record m { calls = m.calls + 1; live = m.live + 1 })
  unfolding encode_avps new_avp
  next_Ready avp avps fuel ptr p rest msg m r e =
      let sum = length-append (encode_avp avp) (encode_avps avps) in
      let size = length-encode_avp avp (omega (arith, r.wire.0.small)) in
      let here = r.there ∙ append_assoc (encode_avp avp) (encode_avps avps) rest in
      let eight = hdr-ge-eight avp.flags in
      let grown = sym (extended-avps msg (copy p avp) r.distinct) in
      let apart = Drawn-Absent alloc m.calls p msg.avps good.fresh r.drawn e in
      record {
        wire = r.wire.1;
        there =
            sym (drop-drop (length (encode_avp avp)) ptr source)
            ∙ ap (drop (length (encode_avp avp))) here
            ∙ drop_all (encode_avp avp) (encode_avps avps ++ rest);
        ends = omega (arith, r.ends);
        fueled = omega (arith, r.fueled);
        distinct = subst Distinct grown (Distinct-append msg.avps (copy p avp) r.distinct apart);
        drawn =
            subst (Drawn alloc (m.calls + 1)) grown
              (Drawn-append alloc m.calls msg.avps (copy p avp) r.drawn e);
      }

  pub translate_avps-encode_avps :
      (avps : List Avp) (fuel ptr : ℕ) (rest : Bytes) (msg : Message) (m : Shm)
      → Ready avps fuel ptr rest msg m
      → Loops fuel ptr msg m avps
  unfolding encode_avps
  translate_avps-encode_avps [] fuel ptr rest msg m r = (
    msg,
    m,
    translate_avps-end fuel ptr msg m (omega (arith, r.ends)),
    record { avps_read = sym (append-nil _); header_same = refl; buf_same = refl },
  )
  translate_avps-encode_avps (avp ∷ avps) zero ptr rest msg m r = absurd (
      omega (
        arith,
        r.ends,
        r.fueled,
        hdr-ge-eight avp.flags,
        length-encode_avp avp (omega (arith, r.wire.0.small)),
        length-append (encode_avp avp) (encode_avps avps),
      ))
  translate_avps-encode_avps (avp ∷ avps) (suc fuel) ptr rest msg m r =
      let (p, e) = good.gives m.calls in
      let sum = length-append (encode_avp avp) (encode_avps avps) in
      let size = length-encode_avp avp (omega (arith, r.wire.0.small)) in
      let here = r.there ∙ append_assoc (encode_avp avp) (encode_avps avps) rest in
      let (msg', m', loop, ext) =
        translate_avps-encode_avps avps fuel (ptr + length (encode_avp avp)) rest
          (extended msg (copy p avp)) (record m { calls = m.calls + 1; live = m.live + 1 })
          (next_Ready avp avps fuel ptr p rest msg m r e) in
      (
        msg',
        m',
        translate_avps-round fuel ptr p (encode_avps avps ++ rest) avp msg m r.wire.0 here
              (omega (arith, r.ends)) e
            ∙ loop,
        Extends-cons msg msg' p avp avps r.wire.0 r.distinct ext,
      )

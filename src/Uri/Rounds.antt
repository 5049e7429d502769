-- ===== src/Uri/Rounds.antt =====
-- The rounds of the loop over the parts of a URI, for URIs with all parts that the parser knows.
use disc.Base.{
  ℕ, ◌+◌, ◌-◌, ◌*◌, ◌%◌, ◌^◌, ◌≡◌, refl, sym, ◌∙◌, ap, ap₂, true, false, some, [], ◌∷◌, ◌++◌,
  append-nil, ◌==◌, length, All, one_of, arith,
}
use disc.Utils.{Bytes}
use disc.Utils.Decimal.{is_decimal}
use disc.Uri.{
  uri_host, uri_port, uri_param, uri_param_val, to_transport, to_protocol, Parser, on, starts_with,
  ransport, rotocol, slice, set_port, no_uri, set_param, step, finish, at, scan, initial,
}

-- No byte ends the host or is refused in it.
abbrev pub IsHost : Bytes → Type 0
IsHost cs = All (λ c. one_of c (b':' ∷ b';' ∷ b'&' ∷ b'@' ∷ b'?' ∷ []) ≡ false) cs

abbrev pub IsPort : Bytes → Type 0
IsPort cs = All (λ c. is_decimal c ≡ true) cs

abbrev pub IsValue : Bytes → Type 0
IsValue cs = All (λ c. (c == b';') ≡ false) cs

-- The number that digits stand for, behind those of `n`.
unfoldable pub decimal : ℕ → Bytes → ℕ
decimal n [] = n
decimal n (c ∷ cs) = decimal (n * 10 + (c - b'0')) cs

moved :
    (rest : Bytes) (q : Parser) {n m : ℕ}
    → n ≡ m
    → scan rest 0 (record q { p = n }) ≡ scan rest 0 (record q { p = m })
moved rest q e = ap (λ p. scan rest 0 (record q { p = p })) e

scan-cons :
    (c : ℕ) (cs : Bytes) (q q' : Parser) (skip : ℕ)
    → step q.state c cs q ≡ on q' skip
    → scan (c ∷ cs) 0 q ≡ scan cs skip (at 1 q')
unfolding scan
scan-cons c cs q q' skip e = rw (scan, e)

-- Bytes that the state passes over.
scan-pass :
    (cs rest : Bytes) (q : Parser) (P : ℕ → Type 0)
    → ((c p : ℕ) (rest : Bytes)
        → P c
        → step q.state c rest (record q { p = p }) ≡ on (record q { p = p }) 0)
    → All P cs
    → scan (cs ++ rest) 0 q ≡ scan rest 0 (at (length cs) q)
scan-pass [] rest q P pass h = moved rest q (omega arith)
scan-pass (c ∷ cs) rest q P pass h =
    scan-cons c (cs ++ rest) q q 0 (pass c q.p (cs ++ rest) h.0)
    ∙ scan-pass cs rest (at 1 q) P pass h.1
    ∙ moved rest q (omega arith)

scan-host :
    (cs rest : Bytes) (q : Parser)
    → q.state ≡ uri_host
    → IsHost cs
    → scan (cs ++ rest) 0 q ≡ scan rest 0 (at (length cs) q)
scan-host cs rest q e h =
    scan-pass cs rest q (λ c. one_of c (b':' ∷ b';' ∷ b'&' ∷ b'@' ∷ b'?' ∷ []) ≡ false)
      (λ c p cs' hc. rw e (unfold step one_of in ground arith)) h

scan-value :
    (cs rest : Bytes) (q : Parser)
    → q.state ≡ uri_param_val
    → IsValue cs
    → scan (cs ++ rest) 0 q ≡ scan rest 0 (at (length cs) q)
scan-value cs rest q e h =
    scan-pass cs rest q (λ c. (c == b';') ≡ false)
      (λ c p cs' hc. rw e (unfold step in ground arith)) h

port_step :
    (c : ℕ) (cs : Bytes) (q : Parser) (n : ℕ)
    → is_decimal c ≡ true
    → step uri_port c cs (record q { port_no = n % 2 ^ 32 })
      ≡ on (record q { port_no = (n * 10 + (c - b'0')) % 2 ^ 32 }) 0
unfolding step
port_step c cs q n h =
    let no_semicolon : (c == b';') ≡ false = ground arith in
    let same : (n % 2 ^ 32 * 10 + (c - b'0')) % 2 ^ 32 ≡ (n * 10 + (c - b'0')) % 2 ^ 32 =
      omega arith in
    rw (no_semicolon, h) (ap (λ l. on (record q { port_no = l }) 0) same)

scan-port :
    (cs rest : Bytes) (q : Parser) (n : ℕ)
    → q.state ≡ uri_port
    → IsPort cs
    → scan (cs ++ rest) 0 (record q { port_no = n % 2 ^ 32 })
      ≡ scan rest 0 (record q { p = q.p + length cs; port_no = decimal n cs % 2 ^ 32 })
unfolding decimal
scan-port [] rest q n e h = moved rest (record q { port_no = n % 2 ^ 32 }) (omega arith)
scan-port (c ∷ cs) rest q n e h =
    let m = n * 10 + (c - b'0') in
    scan-cons c (cs ++ rest) (record q { port_no = n % 2 ^ 32 }) (record q { port_no = m % 2 ^ 32 })
      0
      (ap (λ state. step state c (cs ++ rest) (record q { port_no = n % 2 ^ 32 })) e
        ∙ port_step c (cs ++ rest) q n h.0)
    ∙ scan-port cs rest (at 1 q) m e h.1
    ∙ moved rest (record q { port_no = decimal m cs % 2 ^ 32 }) (omega arith)

-- A parameter's name and the first byte of its value.
scan-transport :
    (v : ℕ) (rest : Bytes) (q : Parser)
    → q.state ≡ uri_param
    → scan (b't' ∷ (ransport ++ (v ∷ rest))) 0 q
      ≡ scan rest 0
          (record q { state = uri_param_val; param = to_transport; t = q.p + 10; p = q.p + 11 })
unfolding scan
scan-transport v rest q e =
    scan-cons b't' (ransport ++ (v ∷ rest)) q
      (record q { param = to_transport; t = q.p + 9 + 1; state = uri_param_val }) 10
      (ap (λ state. step state b't' (ransport ++ (v ∷ rest)) q) e
        ∙ (unfold step starts_with in refl))
    ∙ ap₂
        (λ n t.
          scan rest 0 (record q { state = uri_param_val; param = to_transport; t = t; p = n }))
        (omega arith) (omega arith)

scan-protocol :
    (v : ℕ) (rest : Bytes) (q : Parser)
    → q.state ≡ uri_param
    → scan (b'p' ∷ (rotocol ++ (v ∷ rest))) 0 q
      ≡ scan rest 0
          (record q { state = uri_param_val; param = to_protocol; t = q.p + 9; p = q.p + 10 })
unfolding scan
scan-protocol v rest q e =
    scan-cons b'p' (rotocol ++ (v ∷ rest)) q
      (record q { param = to_protocol; t = q.p + 8 + 1; state = uri_param_val }) 9
      (ap (λ state. step state b'p' (rotocol ++ (v ∷ rest)) q) e
        ∙ (unfold step starts_with in refl))
    ∙ ap₂
        (λ n t. scan rest 0 (record q { state = uri_param_val; param = to_protocol; t = t; p = n }))
        (omega arith) (omega arith)

pub scan-values :
    (v : ℕ) (vs : Bytes) (w : ℕ) (ws : Bytes) (q : Parser)
    → q.state ≡ uri_param
    → IsValue vs
    → IsValue ws
    → scan (b't' ∷ (ransport ++ ((v ∷ vs) ++ (b';' ∷ b'p' ∷ (rotocol ++ (w ∷ ws)))))) 0 q
      ≡ some (record (q.uri) {
        params = record { start = some q.s; len = q.p + 22 + length vs + length ws - q.s };
        transport = record { start = some (q.p + 10); len = length (v ∷ vs) };
        protocol = record { start = some (q.p + 21 + length vs); len = length (w ∷ ws) };
      })
unfolding scan
scan-values v vs w ws q e hv hw =
    let rest = b'p' ∷ (rotocol ++ (w ∷ ws)) in
    let q1 : Parser = record q {
      state = uri_param_val;
      param = to_transport;
      t = q.p + 10;
      p = q.p + 11;
    } in
    let q2 : Parser = at (length vs) q1 in
    let q3 : Parser = record q2 {
      state = uri_param;
      uri = set_param to_transport (slice q2.t q2.p) q2.uri;
    } in
    let q4 : Parser = record (at 1 q3) {
      state = uri_param_val;
      param = to_protocol;
      t = q3.p + 1 + 9;
      p = q3.p + 1 + 10;
    } in
    scan-transport v (vs ++ (b';' ∷ rest)) q e
    ∙ scan-value vs (b';' ∷ rest) q1 refl hv
    ∙ scan-cons b';' rest q2 q3 0 (unfold step in refl)
    ∙ scan-protocol w ws (at 1 q3) refl
    ∙ ap (λ cs. scan cs 0 q4) (sym (append-nil ws))
    ∙ scan-value ws [] q4 refl hw
    ∙ (unfold finish in ground arith)

pub scan-front :
    (h : ℕ) (hs ds rest : Bytes)
    → IsHost hs
    → IsPort ds
    → scan ((h ∷ hs) ++ (b':' ∷ (ds ++ (b';' ∷ rest)))) 0 initial
      ≡ scan rest 0 (record initial {
        state = uri_param;
        p = 9 + length hs + length ds;
        s = 9 + length hs + length ds;
        port_no = decimal 0 ds % 2 ^ 32;
        uri = record no_uri {
          host = record { start = some 6; len = length (h ∷ hs) };
          port = record { start = some (8 + length hs); len = length ds };
          port_no = decimal 0 ds % 2 ^ 16;
        };
      })
scan-front h hs ds rest hh hd =
    let q1 : Parser = record initial { state = uri_host; s = 6 } in
    let q2 : Parser = at (length hs) (at 1 q1) in
    let q3 : Parser = record q2 {
      uri = record no_uri { host = slice 6 q2.p };
      state = uri_port;
      s = q2.p + 1;
    } in
    let q4 : Parser = record (at 1 q3) {
      p = q3.p + 1 + length ds;
      port_no = decimal 0 ds % 2 ^ 32;
    } in
    let q5 : Parser = record q4 { uri = set_port q4; state = uri_param; s = q4.p + 1 } in
    scan-cons h (hs ++ (b':' ∷ (ds ++ (b';' ∷ rest)))) initial q1 0 (unfold step in refl)
    ∙ scan-host hs (b':' ∷ (ds ++ (b';' ∷ rest))) (at 1 q1) refl hh
    ∙ scan-cons b':' (ds ++ (b';' ∷ rest)) q2 q3 0 (unfold step in refl)
    ∙ scan-port ds (b';' ∷ rest) (at 1 q3) 0 refl hd
    ∙ scan-cons b';' rest q4 q5 0 (unfold step in refl)
    ∙ ap (λ q. scan rest 0 q) (ground arith)

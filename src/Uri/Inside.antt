-- ===== src/Uri/Inside.antt =====
-- Where the strings of a parsed URI end.
use disc.Base.{
  ℕ, zero, suc, ◌+◌, ◌<◌, ◌≤◌, ◌≡◌, refl, ◌⊎◌, inl, inr, Bool, true, false, Option, none, some, [],
  ◌∷◌, ◌==◌, if◌then◌else◌, length, Bool-cases, arith,
}
use disc.Utils.{Bytes}
use disc.Uri.{
  Uri, State, uri_init, uri_host, uri_port, uri_param, uri_param_eat, uri_param_val, Param,
  to_transport, to_protocol, Parser, Round, on, bad_char, lower, starts_with, ransport, rotocol,
  read_name, param_char, step, finish, at, scan, initial, has_scheme, aaa_parse_uri,
}

-- Is the last byte '='?
unfoldable pub ends_in_eq : Bytes → Bool
ends_in_eq [] = false
ends_in_eq (c ∷ []) = c == b'='
ends_in_eq (c ∷ d ∷ cs) = ends_in_eq (d ∷ cs)

-- A string that is set ends at `bound` at most.
abbrev pub Ends : ℕ → Option ℕ → ℕ → Type 0
Ends bound none len = len ≡ 0
Ends bound (some s) len = s + len ≤ bound

pub record Within (bound : ℕ) (u : Uri) : Type 0 where
  pub host : Ends bound u.host.start u.host.len
  pub port : Ends bound u.port.start u.port.len
  pub params : Ends bound u.params.start u.params.len
  pub transport : Ends bound u.transport.start u.transport.len
  pub protocol : Ends bound u.protocol.start u.protocol.len

-- A name that ends in '=' leaves a byte behind it, or it is the end.
starts_with-room :
    (cs xs : Bytes)
    → starts_with cs xs ≡ true
    → ends_in_eq xs ≡ true
    → (length xs < length cs) ⊎ ((length xs ≡ length cs) × (ends_in_eq cs ≡ true))
unfolding starts_with ends_in_eq
starts_with-room cs [] h e = cc
starts_with-room [] (x ∷ xs) h e = cc
starts_with-room (c ∷ []) (x ∷ []) h e = inr (refl, ground arith)
starts_with-room (c ∷ d ∷ cs) (x ∷ []) h e = inl (omega arith)
starts_with-room (c ∷ []) (x ∷ y ∷ xs) h e = absurd (ground arith)
starts_with-room (c ∷ d ∷ cs) (x ∷ y ∷ xs) h e = ground (arith, starts_with-room (d ∷ cs) (y ∷ xs))

-- The state of the loop before the bytes `cs`; `e` is 1 if the URI may end in '='.
record Inv (n e : ℕ) (cs : Bytes) (skip : ℕ) (q : Parser) : Type 0 where
  ends : q.p + length cs ≡ n
  room : skip ≤ length cs + e
  slack : ends_in_eq cs ≡ true → 1 ≤ e
  from : q.s ≤ q.p
  value : q.state ≡ uri_param_val → q.t ≤ q.p + skip
  within : Within (n + e) q.uri

abbrev pub IsWithin : ℕ → Option Uri → Type 0
IsWithin bound none = Unit
IsWithin bound (some u) = Within bound u

slack-tail :
    (c : ℕ) (cs : Bytes) (e : ℕ)
    → (ends_in_eq (c ∷ cs) ≡ true → 1 ≤ e)
    → ends_in_eq cs ≡ true
    → 1 ≤ e
unfolding ends_in_eq
slack-tail c [] e h t = cc
slack-tail c (d ∷ cs) e h t = h t

finish-IsWithin :
    (n e skip : ℕ) (q : Parser) → Inv n e [] skip q → IsWithin (n + e) (finish q.state (at skip q))
unfolding finish
finish-IsWithin n e skip q i = ground arith

abbrev IsGoodRound : ℕ → ℕ → Bytes → Round → Type 0
IsGoodRound n e cs (on q skip) = Inv n e cs skip (at 1 q)
IsGoodRound n e cs bad_char = Unit

read_name-IsGoodRound :
    (n e c : ℕ) (cs name : Bytes) (param : Param) (q : Parser)
    → ends_in_eq name ≡ true
    → Inv n e (c ∷ cs) 0 q
    → IsGoodRound n e cs (read_name param name cs q)
read_name-IsGoodRound n e c cs name param q h i =
    let slack = slack-tail c cs e i.slack in
    elim (Bool-cases (starts_with cs name)) [
      | inl found ↦ rw found (ground (arith, starts_with-room cs name found h, slack))
      | inr other ↦ rw other (ground (arith, slack))
    ]

param_char-IsGoodRound :
    (n e c : ℕ) (cs : Bytes) (q : Parser)
    → Inv n e (c ∷ cs) 0 q
    → q.state ≡ uri_param
    → IsGoodRound n e cs (param_char c cs q)
unfolding param_char
param_char-IsGoodRound n e c cs q i h =
    let ransport_ends : ends_in_eq ransport ≡ true = unfold ends_in_eq in refl in
    let rotocol_ends : ends_in_eq rotocol ≡ true = unfold ends_in_eq in refl in
    elim (Bool-cases (lower c == b't')) [
      | inl t ↦ rw t (read_name-IsGoodRound n e c cs ransport to_transport q ransport_ends i)
      | inr not_t ↦ elim (Bool-cases (lower c == b'p')) [
        | inl p ↦
            rw (not_t, p) (read_name-IsGoodRound n e c cs rotocol to_protocol q rotocol_ends i)
        | inr other ↦ rw (not_t, other) (ground (arith, slack-tail c cs e i.slack))
      ]
    ]

step-IsGoodRound :
    (n e c : ℕ) (cs : Bytes) (q : Parser) (state : State)
    → Inv n e (c ∷ cs) 0 q
    → q.state ≡ state
    → IsGoodRound n e cs (step state c cs q)
unfolding step
step-IsGoodRound n e c cs q uri_init i h = ground (arith, slack-tail c cs e i.slack)
step-IsGoodRound n e c cs q uri_host i h = ground (arith, slack-tail c cs e i.slack)
step-IsGoodRound n e c cs q uri_port i h = ground (arith, slack-tail c cs e i.slack)
step-IsGoodRound n e c cs q uri_param i h = param_char-IsGoodRound n e c cs q i h
step-IsGoodRound n e c cs q uri_param_eat i h = ground (arith, slack-tail c cs e i.slack)
step-IsGoodRound n e c cs q uri_param_val i h = ground (arith, slack-tail c cs e i.slack)

scan-IsWithin :
    (n e : ℕ) (cs : Bytes) (skip : ℕ) (q : Parser)
    → Inv n e cs skip q
    → IsWithin (n + e) (scan cs skip q)
unfolding scan
scan-IsWithin n e [] skip q i = finish-IsWithin n e skip q i
scan-IsWithin n e (c ∷ cs) (suc skip) q i =
    let slack = slack-tail c cs e i.slack in
    scan-IsWithin n e cs skip (at 1 q) (ground (arith, slack))
scan-IsWithin n e (c ∷ cs) zero q i =
    go (step q.state c cs q) (step-IsGoodRound n e c cs q q.state i refl)
      (λ q' skip i'. scan-IsWithin n e cs skip (at 1 q') i')
  where
    go :
        (r : Round)
        → IsGoodRound n e cs r
        → ((q' : Parser) (skip : ℕ)
            → Inv n e cs skip (at 1 q')
            → IsWithin (n + e) (scan cs skip (at 1 q')))
        → IsWithin
            (n + e)
            (elim r as (λ _. Option Uri) [ on q' skip ↦ scan cs skip (at 1 q') | bad_char ↦ none ])
    go (on q' skip) good ih = ih q' skip good
    go bad_char good ih = tt

ends_in_eq-behind :
    (a b c d e f : ℕ) (cs : Bytes)
    → ends_in_eq cs ≡ true
    → ends_in_eq (a ∷ b ∷ c ∷ d ∷ e ∷ f ∷ cs) ≡ true
unfolding ends_in_eq
ends_in_eq-behind a b c d e f [] h = cc
ends_in_eq-behind a b c d e f (g ∷ cs) h = h

-- If `aaa_parse_uri` accepts a URI, all strings that it returns end inside the URI, except that they
-- may end one byte behind it when its last byte is '='.
pub aaa_parse_uri-IsWithin :
    (buf : Bytes) → IsWithin (length buf + (if ends_in_eq buf then 1 else 0)) (aaa_parse_uri buf)
unfolding aaa_parse_uri
aaa_parse_uri-IsWithin (a ∷ b ∷ c ∷ d ∷ e ∷ f ∷ cs) =
    let bound : ℕ = if ends_in_eq (a ∷ b ∷ c ∷ d ∷ e ∷ f ∷ cs) then 1 else 0 in
    elim (Bool-cases (has_scheme a b c d e f)) [
      | inl is_aaa ↦ rw is_aaa (
          scan-IsWithin (length (a ∷ b ∷ c ∷ d ∷ e ∷ f ∷ cs)) bound cs 0 initial
            (ground (arith, ends_in_eq-behind a b c d e f cs)))
      | inr other ↦ rw other tt
    ]
aaa_parse_uri-IsWithin _ = tt

-- ===== src/Uri/Print.antt =====
-- URIs with all the parts that the parser knows, and what it reads from them.
use disc.Base.{
  ℕ, ◌+◌, ◌-◌, ◌%◌, ◌^◌, ◌≡◌, refl, sym, ◌∙◌, ap, Option, none, some, [], ◌∷◌, ◌++◌, append-nil,
  append_assoc, take, drop, take_all, drop_all, length, length-append, arith,
}
use disc.Utils.{Bytes}
use disc.Uri.{Str, Uri, ransport, rotocol, has_scheme, aaa_parse_uri}
use disc.Uri.Rounds.{IsHost, IsPort, IsValue, decimal, scan-front, scan-values}

-- A URI with all the parts that the parser knows.
abbrev pub print_uri : Bytes → Bytes → Bytes → Bytes → Bytes
print_uri host port transport protocol =
    b'a'
    ∷ b'a'
    ∷ b'a'
    ∷ b':'
    ∷ b'/'
    ∷ b'/'
    ∷ (host
        ++ (b':'
            ∷ (port
                ++ (b';'
                    ∷ b't'
                    ∷ (ransport ++ (transport ++ (b';' ∷ b'p' ∷ (rotocol ++ protocol))))))))

-- The text that a string of the result points to.
abbrev pub text : Bytes → Str → Bytes
text buf x = elim x.start [ some from ↦ take x.len (drop from buf) | none ↦ [] ]

pub record Parts : Type 0 where
  pub host : Bytes
  pub port : Bytes
  pub transport : Bytes
  pub protocol : Bytes
  pub port_no : ℕ

abbrev pub parts : Bytes → Option Uri → Option Parts
parts buf none = none
parts buf (some u) = some (record {
  host = text buf u.host;
  port = text buf u.port;
  transport = text buf u.transport;
  protocol = text buf u.protocol;
  port_no = u.port_no;
})

text-middle :
    (a b c buf : Bytes) (from : ℕ)
    → from ≡ length a
    → a ++ (b ++ c) ≡ buf
    → text buf (record { start = some from; len = length b }) ≡ b
text-middle a b c buf from e f = rw (sym f, e, drop_all a (b ++ c)) (take_all b c)

abbrev scheme : Bytes
scheme = b'a' ∷ b'a' ∷ b'a' ∷ b':' ∷ b'/' ∷ b'/' ∷ []

abbrev before_transport : Bytes → Bytes → Bytes
before_transport host port = scheme ++ (host ++ (b':' ∷ (port ++ (b';' ∷ b't' ∷ ransport))))

abbrev before_protocol : Bytes → Bytes → Bytes → Bytes
before_protocol host port transport =
    before_transport host port ++ (transport ++ (b';' ∷ b'p' ∷ rotocol))

length-before_transport :
    (host port : Bytes) → length (before_transport host port) ≡ 18 + length host + length port
length-before_transport host port = omega (
  arith,
  length-append host (b':' ∷ (port ++ (b';' ∷ b't' ∷ ransport))),
  length-append port (b';' ∷ b't' ∷ ransport),
)

-- Where the parts of a printed URI stand.
abbrev positions : Bytes → Bytes → Bytes → Bytes → Str → ℕ → Uri
positions host port transport protocol params port_no = record {
  host = record { start = some 6; len = length host };
  port = record { start = some (7 + length host); len = length port };
  params = params;
  transport = record { start = some (18 + length host + length port); len = length transport };
  protocol = record {
    start = some (28 + length host + length port + length transport);
    len = length protocol;
  };
  port_no = port_no;
}

text-print_uri :
    (host ds v w : Bytes) (params : Str) (port_no : ℕ)
    → parts (print_uri host ds v w) (some (positions host ds v w params port_no))
      ≡ some (record { host = host; port = ds; transport = v; protocol = w; port_no = port_no })
text-print_uri host ds v w params port_no =
    let buf = print_uri host ds v w in
    let tail = b';' ∷ b'p' ∷ (rotocol ++ w) in
    let rest = b';' ∷ b't' ∷ (ransport ++ (v ++ tail)) in
    rw
      (
        text-middle scheme host (b':' ∷ (ds ++ rest)) buf 6 refl refl,
        text-middle (scheme ++ (host ++ (b':' ∷ []))) ds rest buf (7 + length host)
            (omega (arith, length-append host (b':' ∷ []))) (simp append_assoc),
        text-middle (before_transport host ds) v tail buf (18 + length host + length ds)
            (sym (length-before_transport host ds)) (simp append_assoc),
        text-middle (before_protocol host ds v) w [] buf (28 + length host + length ds + length v)
            (omega (
              arith,
              length-append (before_transport host ds) (v ++ (b';' ∷ b'p' ∷ rotocol)),
              length-append v (b';' ∷ b'p' ∷ rotocol),
              length-before_transport host ds,
            ))
            (simp (append_assoc, append-nil)),
      )
      refl

-- For a URI `aaa://host:port;transport=t;protocol=p` in which the host is not empty and, behind its
-- first byte, has none of the bytes `:;&@?`, the port consists of digits, and the values are not
-- empty and, behind their first bytes, have no ';', `aaa_parse_uri` succeeds, its strings for host,
-- port, transport and protocol point to exactly these texts, and `port_no` is the number that the
-- digits of the port stand for, modulo 2 ^ 16.
pub aaa_parse_uri-print_uri :
    (h : ℕ) (hs ds : Bytes) (v : ℕ) (vs : Bytes) (w : ℕ) (ws : Bytes)
    → IsHost hs
    → IsPort ds
    → IsValue vs
    → IsValue ws
    → let buf : Bytes = print_uri (h ∷ hs) ds (v ∷ vs) (w ∷ ws) in
      parts buf (aaa_parse_uri buf)
      ≡ some (record {
        host = h ∷ hs;
        port = ds;
        transport = v ∷ vs;
        protocol = w ∷ ws;
        port_no = decimal 0 ds % 2 ^ 16;
      })
unfolding aaa_parse_uri has_scheme
aaa_parse_uri-print_uri h hs ds v vs w ws hh hd hv hw =
    let rest = b't' ∷ (ransport ++ ((v ∷ vs) ++ (b';' ∷ b'p' ∷ (rotocol ++ (w ∷ ws))))) in
    let start = 9 + length hs + length ds in
    let params : Str = record {
      start = some start;
      len = start + 22 + length vs + length ws - start;
    } in
    let found = positions (h ∷ hs) ds (v ∷ vs) (w ∷ ws) params (decimal 0 ds % 2 ^ 16) in
    ap (parts (print_uri (h ∷ hs) ds (v ∷ vs) (w ∷ ws))) {y = some found}
      (scan-front h hs ds rest hh hd ∙ scan-values v vs w ws _ refl hv hw ∙ ground arith)
    ∙ text-print_uri (h ∷ hs) ds (v ∷ vs) (w ∷ ws) params (decimal 0 ds % 2 ^ 16)

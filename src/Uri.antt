-- ===== src/Uri.antt =====
-- aaa_parse_uri.c: `aaa_parse_uri`. Pointers into `buf` are offsets, and `len` is its length.
pub mod Inside
pub mod Print
pub mod Rounds
use disc.Base.{
  ℕ, zero, suc, ◌+◌, ◌-◌, ◌*◌, ◌%◌, ◌^◌, Bool, true, false, ◌&&◌, ◌||◌, Option, none, some, List,
  [], ◌∷◌, ltb, leb, ◌==◌, if◌then◌else◌, bit_or, length, one_of,
}
use disc.Utils.{Bytes}

-- `str`; `start` is `none` for NULL.
pub record Str : Type 0 where
  pub start : Option ℕ
  pub len : ℕ

pub record Uri : Type 0 where
  pub host : Str
  pub port : Str
  pub params : Str
  pub transport : Str
  pub protocol : Str
  pub port_no : ℕ

pub data State : Type 0 where
  uri_init uri_host uri_port uri_param uri_param_eat uri_param_val : State

-- Where `param` points to: the field that the value is for.
pub data Param : Type 0 where
  no_param to_transport to_protocol : Param

-- The variables of the function.
pub record Parser : Type 0 where
  pub state : State
  pub p : ℕ
  pub s : ℕ
  pub t : ℕ
  pub param : Param
  pub port_no : ℕ
  pub uri : Uri

abbrev pub null : Str
null = record { start = none; len = 0 }

abbrev pub no_uri : Uri
no_uri = record {
  host = null;
  port = null;
  params = null;
  transport = null;
  protocol = null;
  port_no = 0;
}

-- `x.s = from; x.len = to - from`
abbrev pub slice : ℕ → ℕ → Str
slice from to = record { start = some from; len = to - from }

abbrev pub set_host : Parser → Uri
set_host q = record (q.uri) { host = slice q.s q.p }

abbrev pub set_port : Parser → Uri
set_port q = record (q.uri) { port = slice q.s q.p; port_no = q.port_no % 2 ^ 16 }

-- The assignment through `param`; a NULL pointer is not reached and leaves the URI alone.
abbrev pub set_param : Param → Str → Uri → Uri
set_param no_param v u = u
set_param to_transport v u = record u { transport = v }
set_param to_protocol v u = record u { protocol = v }

-- How a round of the loop ends: with the number of bytes to skip besides the current one, or with
-- the jump to `error_bad_char`.
pub data Round : Type 0 where
  on : Parser → ℕ → Round
  bad_char : Round

-- `tolower` in the C locale
abbrev pub lower : ℕ → ℕ
lower c = if leb b'A' c && leb c b'Z' then c + 32 else c

-- `strncasecmp` finds the `n` bytes of a lower-case pattern of `n` bytes.
unfoldable pub starts_with : Bytes → Bytes → Bool
starts_with cs [] = true
starts_with [] (x ∷ xs) = false
starts_with (c ∷ cs) (x ∷ xs) = (lower c == x) && starts_with cs xs

abbrev pub ransport : Bytes
ransport = b'r' ∷ b'a' ∷ b'n' ∷ b's' ∷ b'p' ∷ b'o' ∷ b'r' ∷ b't' ∷ b'=' ∷ []

abbrev pub rotocol : Bytes
rotocol = b'r' ∷ b'o' ∷ b't' ∷ b'o' ∷ b'c' ∷ b'o' ∷ b'l' ∷ b'=' ∷ []

-- A parameter name, of which the first letter has been read: its value starts behind the name.
abbrev pub read_name : Param → Bytes → Bytes → Parser → Round
read_name param name rest q =
    if starts_with rest name
    then on (record q { param = param; t = q.p + length name + 1; state = uri_param_val })
        (length name + 1)
    else on (record q { state = uri_param_eat }) 0

host_char : ℕ → Parser → Round
host_char c q =
    if c == b':'
    then on (record q { uri = set_host q; state = uri_port; s = q.p + 1 }) 0
    else if c == b';'
    then on (record q { uri = set_host q; state = uri_param; s = q.p + 1 }) 0
    else if one_of c (b'&' ∷ b'@' ∷ b'?' ∷ [])
    then bad_char
    else on q 0

-- The digits are accumulated in an `int`, modulo 2 ^ 32, where C leaves an overflow undefined.
port_char : ℕ → Parser → Round
port_char c q =
    if c == b';'
    then on (record q { uri = set_port q; state = uri_param; s = q.p + 1 }) 0
    else if leb b'0' c && leb c b'9'
    then on (record q { port_no = (q.port_no * 10 + (c - b'0')) % 2 ^ 32 }) 0
    else bad_char

param_char : ℕ → Bytes → Parser → Round
param_char c rest q =
    if lower c == b't'
    then read_name to_transport ransport rest q
    else if lower c == b'p'
    then read_name to_protocol rotocol rest q
    else on q 0

val_char : ℕ → Parser → Round
val_char c q =
    if c == b';'
    then on (record q { state = uri_param; uri = set_param q.param (slice q.t q.p) q.uri }) 0
    else on q 0

-- The body of the loop at the byte `c`, which `rest` follows.
unfoldable pub step : State → ℕ → Bytes → Parser → Round
unfolding host_char port_char param_char val_char
step uri_init c rest q = on (record q { s = q.p; state = uri_host }) 0
step uri_host c rest q = host_char c q
step uri_port c rest q = port_char c q
step uri_param c rest q = param_char c rest q
step uri_param_eat c rest q = on (if c == b';' then record q { state = uri_param } else q) 0
step uri_param_val c rest q = val_char c q

-- The switch behind the loop; `none` stands for the result -1.
unfoldable pub finish : State → Parser → Option Uri
finish uri_init q = none
finish uri_host q = some (set_host q)
finish uri_port q = some (set_port q)
finish uri_param q = some (record (q.uri) { params = slice q.s q.p })
finish uri_param_eat q = some (record (q.uri) { params = slice q.s q.p })
finish uri_param_val q =
    some (set_param q.param (slice q.t q.p) (record (q.uri) { params = slice q.s q.p }))

abbrev pub at : ℕ → Parser → Parser
at n q = record q { p = q.p + n }

-- The loop over the bytes from `p` on. `skip` of them are passed over, as `p+=...` does; at the end
-- of the bytes this may take `p` past `end`.
unfoldable pub scan : Bytes → ℕ → Parser → Option Uri
scan [] skip q = finish q.state (at skip q)
scan (c ∷ cs) (suc skip) q = scan cs skip (at 1 q)
scan (c ∷ cs) zero q = elim (step q.state c cs q) [
  | on q' skip ↦ scan cs skip (at 1 q')
  | bad_char ↦ none
]

abbrev pub initial : Parser
initial = record {
  state = uri_init;
  p = 6;
  s = 0;
  t = 0;
  param = no_param;
  port_no = 0;
  uri = no_uri;
}

-- "aaa://", the letters in either case
unfoldable pub has_scheme : ℕ → ℕ → ℕ → ℕ → ℕ → ℕ → Bool
has_scheme a b c d e f =
    (bit_or a 0x20 == b'a')
    && ((bit_or b 0x20 == b'a')
        && ((bit_or c 0x20 == b'a') && ((d == b':') && ((e == b'/') && (f == b'/')))))

unfoldable pub aaa_parse_uri : Bytes → Option Uri
aaa_parse_uri (a ∷ b ∷ c ∷ d ∷ e ∷ f ∷ rest) =
    let parsed = scan rest 0 initial in if has_scheme a b c d e f then parsed else none
aaa_parse_uri _ = none

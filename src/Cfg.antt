-- ===== src/Cfg.antt =====
-- cfg_parser.c, cfg_parser.h and parser_f.h: the lines of the configuration file. A pointer into a line
-- is the text from it on. A line is the bytes in front of its terminating zero, and the end of the list
-- stands for that zero.
pub mod Words
pub mod Lines
pub mod Comments
pub mod Run
pub mod Streams
pub mod Kept
pub mod Peers
use disc.Base.{
  ℕ, zero, suc, ◌+◌, ◌%◌, Bool, true, false, not, ◌&&◌, ◌||◌, Option, none, some, List, [], ◌∷◌,
  ◌==◌, length, ltb, drop, if◌then◌else◌,
}
use disc.Utils.{Bytes}

abbrev pub is_space : ℕ → Bool
is_space c = c == b' ' || c == b'\t'

abbrev pub is_eol : ℕ → Bool
is_eol c = c == b'\n' || c == b'\r'

unfoldable pub eat_space_end : Bytes → Bytes
eat_space_end [] = []
eat_space_end (c ∷ cs) = let rest = eat_space_end cs in if is_space c then rest else c ∷ cs

-- Where a token ends, unless it is inside of quotes
abbrev pub ends_token : ℕ → Bool
ends_token c = is_space c || (is_eol c || c == b'#')

abbrev pub prepend : ℕ → Bytes × Bytes → Bytes × Bytes
prepend c (token, rest) = (c ∷ token, rest)

-- The bytes up to the end of the token, and those behind.
unfoldable pub eat_token : (ℕ → Bool) → ℕ → Bytes → Bytes × Bytes
eat_token ends quotes [] = ([], [])
eat_token ends quotes (c ∷ cs) =
    let rest = eat_token ends (quotes + (if c == b'"' then 1 else 0)) cs in
    if quotes % 2 == 1 || not (ends c) then prepend c rest else ([], c ∷ cs)

abbrev pub eat_token_end : Bytes → Bytes × Bytes
eat_token_end cs = eat_token ends_token 0 cs

abbrev pub eat_token2_end : ℕ → Bytes → Bytes × Bytes
eat_token2_end delim cs = eat_token (λ c. c == delim || ends_token c) 0 cs

abbrev pub at_eol : Bytes → Bool
at_eol [] = false
at_eol (c ∷ cs) = is_eol c

abbrev pub is_empty_end : Bytes → Bool
is_empty_end cs = at_eol (eat_space_end cs)

abbrev pub end_test : Bytes → Bool
end_test [] = true
end_test (c ∷ cs) = c == b'#' || is_eol c

pub data LineType : Type 0 where
  cfg_empty cfg_comment cfg_def cfg_error : LineType

-- `struct cfg_line`; the length of `value` is `token_no`.
pub record CfgLine : Type 0 where
  pub type : LineType
  pub id : Bytes
  pub has_equal : Bool
  pub value : List Bytes

abbrev pub cfg_tokens : ℕ
cfg_tokens = 100

-- The loop over the tokens, and `tmp` behind it, or `none` for the jump to `end`. The byte behind a token
-- becomes its terminating zero.
unfoldable pub read_tokens : ℕ → Bytes → List Bytes × Option Bytes
read_tokens zero tmp = ([], some tmp)
read_tokens (suc r) tmp =
    let t = eat_space_end tmp in
    let (token, behind) = eat_token_end t in
    let rest = read_tokens r (drop 1 behind) in
    if end_test t then ([], none) else (token ∷ rest.0, rest.1)

-- Are there extra characters behind the last token?
unfoldable pub has_extra : Option Bytes → Bool
has_extra none = false
has_extra (some tmp) =
    ltb 1 (length tmp)
    && (not (is_empty_end (drop 1 tmp)) && not (end_test (eat_space_end (drop 1 tmp))))

abbrev pub skipped_line : LineType → CfgLine
skipped_line t = record { type = t; id = []; has_equal = false; value = [] }

-- The text of `id` goes to the end of the line, since no zero is written.
abbrev pub bad_line : Bytes → CfgLine
bad_line id = record { type = cfg_error; id = id; has_equal = false; value = [] }

-- From the tokens on
abbrev pub def_line : Bytes → Bool → Bytes → CfgLine
def_line id equal tmp =
    let (tokens, left) = read_tokens cfg_tokens tmp in
    record {
      type = if has_extra left then cfg_error else cfg_def;
      id = id;
      has_equal = equal;
      value = tokens;
    }

-- From `tmp`, behind the id, on
unfoldable pub after_id : Bytes → Bytes → Bytes → CfgLine
after_id line id [] = bad_line line
after_id line id (c ∷ cs) = if c == b'=' then def_line id true cs else def_line id false (c ∷ cs)

abbrev pub starts_comment : Bytes → Bool
starts_comment [] = false
starts_comment (c ∷ cs) = c == b'#'

unfoldable pub cfg_parse_line : Bytes → CfgLine
cfg_parse_line line =
    let tmp = eat_space_end line in
    let (id, behind) = eat_token2_end b'=' tmp in
    if end_test tmp || is_empty_end tmp
    then skipped_line cfg_empty
    else if starts_comment tmp
    then skipped_line cfg_comment
    else if end_test behind || end_test (eat_space_end behind)
    then bad_line tmp
    else after_id tmp id (eat_space_end behind)

-- The results of cfg_getstr: the copy, -3, -4, or a string of a wild length (for an empty text).
pub data GotStr : Type 0 where
  got_str : Bytes → GotStr
  bad_quotes no_memory wild : GotStr

unfoldable pub count_quotes : Bytes → ℕ
count_quotes [] = 0
count_quotes (c ∷ cs) = count_quotes cs + (if c == b'"' then 1 else 0)

-- The text without its last byte if this is a quote.
unfoldable pub strip_quote : Bytes → Option Bytes
strip_quote [] = none
strip_quote (c ∷ []) = if c == b'"' then some [] else none
strip_quote (c ∷ d ∷ cs) = elim (strip_quote (d ∷ cs)) [ none ↦ none | some s ↦ some (c ∷ s) ]

abbrev pub copy_str : Bool → Bytes → GotStr
copy_str got s = if got then got_str s else no_memory

-- `quotes` counts the quotes of the text `p`, and the one in front of it if there is one.
unfoldable pub get_text : Bool → ℕ → Bytes → GotStr
get_text got quotes p =
    if quotes % 2 == 1
    then bad_quotes
    else if quotes == 0
    then copy_str got p
    else elim (strip_quote p) [ none ↦ bad_quotes | some s ↦ copy_str got s ]

-- `got` says whether the allocation succeeds.
unfoldable pub cfg_getstr : Bool → Bytes → GotStr
cfg_getstr got [] = wild
cfg_getstr got (c ∷ cs) =
    if c == b'"'
    then get_text got (count_quotes cs + 1) cs
    else get_text got (count_quotes (c ∷ cs)) (c ∷ cs)

-- ===== src/Tests/Configs.antt =====
-- Lines of the configuration, and the witnesses.
use disc.Base.{ℕ, ◌≡◌, refl, true, false, none, List, [], ◌∷◌, map, arith, one_of}
use disc.Utils.{Bytes}
use disc.Uri.{scan, step, finish, has_scheme, aaa_parse_uri}
use disc.Route.{Routes, same_text}
use disc.Route.Peers.{is_present, add_cfg_peer, IsDistinct}
use disc.Cfg.{
  cfg_def, eat_space_end, eat_token, read_tokens, has_extra, after_id, cfg_parse_line, got_str,
  cfg_getstr, get_text, count_quotes, strip_quote,
}
use disc.Cfg.Words.{Word, plain, quoted, print_word, text}
use disc.Cfg.Lines.{print_line, cfg_parse_line-print_line}
use disc.Cfg.Comments.{cfg_parse_line_comment}
use disc.Cfg.Run.{
  ran, CfgDef, run_def, cfg_run_def, failed_at, do_line, cfg_parse_stream, cfg_addpair, peer_def,
  aaa_client, status_at, find_status, cfg_set_aaa_status,
}
use disc.Cfg.Streams.{IsResult, cfg_parse_stream-IsResult}
use disc.Cfg.Kept.{IsKeptBy}
use disc.Cfg.Peers.{HasDistinct, config-IsDistinct}

-- " ab =x "y #" #c" and the end of the line
abbrev words : List Word
words = plain b'x' [] ∷ quoted (b'y' ∷ b' ' ∷ b'#' ∷ []) ∷ []

abbrev comment : Bytes
comment = b' ' ∷ b'#' ∷ b'c' ∷ b'\n' ∷ []

cfg_parse_line-print_line_example :
    (cfg_parse_line (print_line (b' ' ∷ []) (b'a' ∷ b'b' ∷ []) (b' ' ∷ []) words comment) ≡ record {
      type = cfg_def;
      id = b'a' ∷ b'b' ∷ [];
      has_equal = true;
      value = map print_word words;
    })
    × (map (cfg_getstr true) (map print_word words) ≡ map (λ w. got_str (text w)) words)
cfg_parse_line-print_line_example =
    cfg_parse_line-print_line (b' ' ∷ []) b'a' (b'b' ∷ []) (b' ' ∷ []) (plain b'x' [])
      (quoted (b'y' ∷ b' ' ∷ b'#' ∷ []) ∷ []) comment (refl, tt)
      ((refl, (refl, refl)), ((refl, (refl, refl)), tt)) (refl, tt)
      (((refl, refl), tt), ((refl, (refl, (refl, tt))), tt)) (omega arith)
      (refl, unfold eat_space_end in refl)

-- "p=3#one" is the definition of p as 3 and one.
cfg_parse_line_comment_example :
    cfg_parse_line (b'p' ∷ b'=' ∷ b' ' ∷ b'3' ∷ b'#' ∷ b'o' ∷ []) ≡ record {
      type = cfg_def;
      id = b'p' ∷ [];
      has_equal = true;
      value = (b'3' ∷ []) ∷ (b'o' ∷ []) ∷ [];
    }
cfg_parse_line_comment_example =
    cfg_parse_line_comment [] b'p' [] [] (plain b'3' []) [] (plain b'o' []) [] [] tt
      ((refl, (refl, refl)), tt) tt (((refl, refl), tt), tt)
      (((refl, refl), tt), (((refl, refl), tt), tt)) (omega arith) tt

abbrev no_routes : Routes
no_routes = record {
  cfg_peer_lst = [];
  route_lst = none;
  entries = λ a. record { realm = []; peer_l = [] };
  next = λ a. none;
  freed = [];
}

-- `peer aaa://h q`, and twice
abbrev peer_line : Bytes
peer_line =
    b'p' ∷ b'e' ∷ b'e' ∷ b'r' ∷ b' ' ∷ b'a' ∷ b'a' ∷ b'a' ∷ b':' ∷ b'/' ∷ b'/' ∷ b'h' ∷ b' ' ∷ b'q'
    ∷ b'\n' ∷ []

abbrev cfg_ids : List (CfgDef Routes ℕ)
cfg_ids = peer_def (λ n cl. true) ∷ []

abbrev strtol : Bytes → ℕ × Bytes
strtol cs = (0, cs)

second_refused :
    cfg_parse_stream
      (cfg_run_def strtol true cfg_ids)
      (peer_line ∷ (b'#' ∷ []) ∷ peer_line ∷ [])
      1
      false
      no_routes
    ≡ failed_at 3 (record no_routes {
      cfg_peer_lst =
          record {
            full_uri = b'a' ∷ b'a' ∷ b'a' ∷ b':' ∷ b'/' ∷ b'/' ∷ b'h' ∷ [];
            alias = b'q' ∷ [];
            host = b'h' ∷ [];
            peer = none;
          }
          ∷ [];
    })
unfolding cfg_parse_stream do_line cfg_run_def run_def cfg_addpair cfg_parse_line eat_space_end
    eat_token read_tokens has_extra after_id cfg_getstr get_text count_quotes strip_quote same_text
    add_cfg_peer is_present aaa_parse_uri has_scheme scan step finish one_of
second_refused = refl

cfg_parse_stream-IsResult_example :
    IsResult (cfg_run_def strtol true cfg_ids) false 1 no_routes (peer_line ∷ peer_line ∷ []) (
      cfg_parse_stream
        (cfg_run_def strtol true cfg_ids)
        (peer_line ∷ peer_line ∷ [])
        1
        false
        no_routes)
cfg_parse_stream-IsResult_example =
    cfg_parse_stream-IsResult (cfg_run_def strtol true cfg_ids) (peer_line ∷ peer_line ∷ []) 1 false
      no_routes

config-IsDistinct_example : IsKeptBy HasDistinct (
    cfg_parse_stream
      (cfg_run_def strtol true cfg_ids)
      (peer_line ∷ peer_line ∷ [])
      1
      false
      no_routes)
config-IsDistinct_example =
    config-IsDistinct ℕ strtol true (λ n cl. true) [] [] (peer_line ∷ peer_line ∷ []) 1 false
      no_routes tt tt (unfold IsDistinct in tt)

-- The third status is not known.
statefull_refused :
    cfg_set_aaa_status
      (record {
        type = cfg_def;
        id = [];
        has_equal = true;
        value =
            (b'a' ∷ b'a' ∷ b'a' ∷ b'_' ∷ b's' ∷ b'e' ∷ b'r' ∷ b'v' ∷ b'e' ∷ b'r' ∷ b'_' ∷ b's'
              ∷ b't' ∷ b'a' ∷ b't' ∷ b'e' ∷ b'f' ∷ b'u' ∷ b'l' ∷ b'l' ∷ [])
            ∷ [];
      })
      aaa_client
    ≡ ran aaa_client 1
unfolding cfg_set_aaa_status find_status status_at same_text
statefull_refused = refl

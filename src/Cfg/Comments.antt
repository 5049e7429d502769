-- ===== src/Cfg/Comments.antt =====
-- A comment right behind a word.
use disc.Base.{
  ℕ, zero, suc, ◌<◌, ◌≡◌, refl, sym, ap, ◌∙◌, true, List, [], ◌∷◌, ◌++◌, append_assoc, All, map,
  length, length-append, Option, if◌then◌else◌, drop, arith,
}
use disc.Utils.{Bytes}
use disc.Cfg.{read_tokens, has_extra, cfg_def, cfg_error, CfgLine, cfg_parse_line}
use disc.Cfg.Words.{Word, IsWord, print_word}
use disc.Cfg.Lines.{
  IsSpace, IsIdByte, IsTail, print_words, print_line, cfg_parse_line-print_line, parse_line-equal,
  read_tokens_word, read_tokens_space,
}

print_words-append : (ws vs : List Word) → print_words (ws ++ vs) ≡ print_words ws ++ print_words vs
print_words-append [] vs = refl
print_words-append (w ∷ ws) vs =
    ap (λ bs. b' ' ∷ bs)
      (ap (λ bs. print_word w ++ bs) (print_words-append ws vs)
        ∙ sym (append_assoc (print_word w) (print_words ws) (print_words vs)))

-- Behind a word a '#' does what a space does.
mark_as_space :
    (n : ℕ) (ws : List Word) (cs : Bytes)
    → All IsWord ws
    → length ws < n
    → read_tokens n (drop 1 (print_words ws ++ (b'#' ∷ cs)))
      ≡ read_tokens n (drop 1 (print_words ws ++ (b' ' ∷ cs)))
unfolding read_tokens
mark_as_space zero ws cs h l = absurd (omega arith)
mark_as_space (suc n) [] cs h l = refl
mark_as_space (suc n) (w ∷ ws) cs (hw, h) l =
    read_tokens_word n w ws (b'#' ∷ cs) hw refl
    ∙ ap (λ p. (print_word w ∷ p.0, p.1)) (mark_as_space n ws cs h (omega arith))
    ∙ sym (read_tokens_word n w ws (b' ' ∷ cs) hw refl)

-- What `def_line` makes of the tokens
abbrev line_of : Bytes → List Bytes × Option Bytes → CfgLine
line_of id (tokens, left) = record {
  type = if has_extra left then cfg_error else cfg_def;
  id = id;
  has_equal = true;
  value = tokens;
}

-- A comment right behind the words of a line, with no space in front of its '#', is not skipped: the
-- words of the comment are read as further words of the definition. The ids and words are those that
-- are read well, and all together at most 99.
pub cfg_parse_line_comment :
    (before : Bytes) (c : ℕ) (cs gap : Bytes) (w : Word) (ws : List Word) (v : Word)
    (vs : List Word) (tail : Bytes)
    → All IsSpace before
    → All IsIdByte (c ∷ cs)
    → All IsSpace gap
    → All IsWord (w ∷ ws)
    → All IsWord ((w ∷ ws) ++ (v ∷ vs))
    → length ((w ∷ ws) ++ (v ∷ vs)) < 100
    → IsTail tail
    → cfg_parse_line (
        print_line before (c ∷ cs) gap (w ∷ ws) (b'#' ∷ (print_word v ++ (print_words vs ++ tail))))
      ≡ record {
        type = cfg_def;
        id = c ∷ cs;
        has_equal = true;
        value = map print_word ((w ∷ ws) ++ (v ∷ vs));
      }
cfg_parse_line_comment before c cs gap w ws v vs tail hb hi hg hw hall l ht =
    let comment : Bytes = print_word v ++ (print_words vs ++ tail) in
    let marked : Bytes = print_words (w ∷ ws) ++ (b'#' ∷ comment) in
    let spaced : Bytes = print_words (w ∷ ws) ++ (b' ' ∷ comment) in
    let tokens : read_tokens 100 marked ≡ read_tokens 100 spaced =
      read_tokens_space 99 (drop 1 marked)
      ∙ mark_as_space 100 (w ∷ ws) comment hw (omega (arith, l, length-append (w ∷ ws) (v ∷ vs)))
      ∙ sym (read_tokens_space 99 (drop 1 spaced)) in
    let same : spaced ≡ print_words ((w ∷ ws) ++ (v ∷ vs)) ++ tail = sym (
      ap (λ bs. bs ++ tail) (print_words-append (w ∷ ws) (v ∷ vs))
      ∙ append_assoc (print_words (w ∷ ws)) (print_words (v ∷ vs)) tail
      ∙ ap (λ bs. print_words (w ∷ ws) ++ (b' ' ∷ bs))
          (append_assoc (print_word v) (print_words vs) tail)) in
    parse_line-equal before c cs gap marked hb hi hg
    ∙ ap (λ t. line_of (c ∷ cs) t) (tokens ∙ ap (read_tokens 100) same)
    ∙ sym (parse_line-equal before c cs gap (print_words ((w ∷ ws) ++ (v ∷ vs)) ++ tail) hb hi hg)
    ∙ (cfg_parse_line-print_line before c cs gap w (ws ++ (v ∷ vs)) tail hb hi hg hall l ht).0

-- ===== src/Cfg/Lines.antt =====
-- A definition as a line of the configuration, and how it is read.
use disc.Base.{
  ℕ, zero, suc, ◌<◌, ◌≡◌, refl, ap, ap₂, ◌∙◌, true, false, ◌||◌, none, List, [], ◌∷◌, ◌++◌,
  append_assoc, All, map, ◌==◌, length, drop, arith,
}
use disc.Utils.{Bytes}
use disc.Cfg.{
  is_space, is_eol, eat_space_end, ends_token, end_test, cfg_def, read_tokens, has_extra, after_id,
  def_line, cfg_parse_line, got_str, cfg_getstr,
}
use disc.Cfg.Words.{
  IsPlain, Stops, Word, IsWord, text, print_word, eat_token-plain, eat_token_end-print_word,
  word_starts, cfg_getstr-print_word,
}

abbrev pub IsSpace : ℕ → Type 0
IsSpace c = is_space c ≡ true

-- An id has no '='.
abbrev pub IsIdByte : ℕ → Type 0
IsIdByte c = ((c == b'=') ≡ false) × IsPlain c

-- The end of the line, or a comment behind a space.
abbrev pub IsTail : Bytes → Type 0
IsTail [] = Unit
IsTail (c ∷ cs) = (ends_token c ≡ true) × (end_test (eat_space_end cs) ≡ true)

abbrev pub print_words : List Word → Bytes
print_words [] = []
print_words (w ∷ ws) = b' ' ∷ (print_word w ++ print_words ws)

-- `id = words`, with any spaces in front and before the '='
abbrev pub print_line : Bytes → Bytes → Bytes → List Word → Bytes → Bytes
print_line before id gap ws tail = before ++ (id ++ (gap ++ (b'=' ∷ (print_words ws ++ tail))))

pub eat_space_end-append :
    (sp rest : Bytes) → All IsSpace sp → eat_space_end (sp ++ rest) ≡ eat_space_end rest
unfolding eat_space_end
eat_space_end-append [] rest h = refl
eat_space_end-append (c ∷ cs) rest (e, h) = rw (eat_space_end, e) (eat_space_end-append cs rest h)

words_stop :
    (ws : List Word) (tail : Bytes)
    → Stops ends_token tail
    → Stops ends_token (print_words ws ++ tail)
words_stop [] tail h = h
words_stop (w ∷ ws) tail h = refl

tail-Stops : (tail : Bytes) → IsTail tail → Stops ends_token tail
tail-Stops [] h = tt
tail-Stops (c ∷ cs) h = h.0

-- One word more
pub read_tokens_word :
    (n : ℕ) (w : Word) (ws : List Word) (tail : Bytes)
    → IsWord w
    → Stops ends_token tail
    → read_tokens (suc n) (drop 1 (print_words (w ∷ ws) ++ tail)) ≡ (
      print_word w ∷ (read_tokens n (drop 1 (print_words ws ++ tail))).0,
      (read_tokens n (drop 1 (print_words ws ++ tail))).1,
    )
unfolding read_tokens
read_tokens_word n w ws tail hw h =
    let rest : Bytes = print_words ws ++ tail in
    let (no_space, no_end) = word_starts w rest hw in
    rw
      (
        append_assoc (print_word w) (print_words ws) tail,
        read_tokens,
        no_space,
        no_end,
        eat_token_end-print_word w rest hw (words_stop ws tail h),
      )
      refl

module _ (tail : Bytes) (is_tail : IsTail tail) where
  tail_ends : (bs : Bytes) → IsTail bs → end_test (eat_space_end (drop 1 bs)) ≡ true
  unfolding eat_space_end
  tail_ends [] h = refl
  tail_ends (c ∷ cs) h = h.1

  -- From behind the byte in front of the words on
  read_tokens-print_words :
      (n : ℕ) (ws : List Word)
      → All IsWord ws
      → length ws < n
      → read_tokens n (drop 1 (print_words ws ++ tail)) ≡ (map print_word ws, none)
  unfolding read_tokens
  read_tokens-print_words zero ws h l = absurd (omega arith)
  read_tokens-print_words (suc n) [] h l = rw (read_tokens, tail_ends tail is_tail) refl
  read_tokens-print_words (suc n) (w ∷ ws) (hw, h) l =
      read_tokens_word n w ws tail hw (tail-Stops tail is_tail)
      ∙ ap (λ p. (print_word w ∷ p.0, p.1)) (read_tokens-print_words n ws h (omega arith))

pub read_tokens_space :
    (n : ℕ) (bs : Bytes) → read_tokens (suc n) (b' ' ∷ bs) ≡ read_tokens (suc n) bs
unfolding read_tokens eat_space_end
read_tokens_space n bs = refl

id_goes :
    (cs : Bytes)
    → All IsIdByte cs
    → All (λ c. ((c == b'=' || ends_token c) ≡ false) × ((c == b'"') ≡ false)) cs
id_goes [] h = tt
id_goes (c ∷ cs) ((e, p), h) = ((rw e p.0, p.1), id_goes cs h)

-- The id, and the spaces and the '=' behind it
after_gap :
    (gap rest : Bytes)
    → All IsSpace gap
    → Stops (λ c. c == b'=' || ends_token c) (gap ++ (b'=' ∷ rest))
      × (end_test (gap ++ (b'=' ∷ rest)) ≡ false)
      × (eat_space_end (gap ++ (b'=' ∷ rest)) ≡ b'=' ∷ rest)
unfolding eat_space_end
after_gap [] rest h = (refl, refl, refl)
after_gap (c ∷ cs) rest (e, h) =
    (ground arith, ground arith, rw (eat_space_end, e) (eat_space_end-append cs (b'=' ∷ rest) h))

id_starts :
    (c : ℕ) (bs : Bytes)
    → IsIdByte c
    → (eat_space_end (c ∷ bs) ≡ c ∷ bs)
      × (end_test (c ∷ bs) ≡ false)
      × (is_eol c ≡ false)
      × ((c == b'#') ≡ false)
unfolding eat_space_end
id_starts c bs (e, (goes, no_quote)) = (ground arith, ground arith, ground arith, ground arith)

values_text :
    (ws : List Word)
    → All IsWord ws
    → map (cfg_getstr true) (map print_word ws) ≡ map (λ w. got_str (text w)) ws
values_text [] h = refl
values_text (w ∷ ws) (hw, h) = ap₂ (λ g gs. g ∷ gs) (cfg_getstr-print_word w hw) (values_text ws h)

-- Up to the '=' a line is read whatever stands behind it.
pub parse_line-equal :
    (before : Bytes) (c : ℕ) (cs gap args : Bytes)
    → All IsSpace before
    → All IsIdByte (c ∷ cs)
    → All IsSpace gap
    → cfg_parse_line (before ++ ((c ∷ cs) ++ (gap ++ (b'=' ∷ args)))) ≡ def_line (c ∷ cs) true args
unfolding cfg_parse_line after_id
parse_line-equal before c cs gap args hb hi hg =
    let behind : Bytes = gap ++ (b'=' ∷ args) in
    let (stops, goes_on, equal) = after_gap gap args hg in
    let (no_space, no_end, no_eol, no_comment) = id_starts c (cs ++ behind) hi.0 in
    let front = eat_space_end-append before (c ∷ (cs ++ behind)) hb ∙ no_space in
    let token =
      eat_token-plain (λ d. d == b'=' || ends_token d) 0 (c ∷ cs) behind refl (id_goes (c ∷ cs) hi)
        stops in
    rw (cfg_parse_line, front, no_space, no_end, no_eol, no_comment, token, goes_on, equal) refl

-- A line `id = words`, with any spaces in front and before the '=', and a comment behind a space or the
-- end of the line behind the words; the id and the words without quotes hold no space, quote, '#' or end
-- of line, and the id no '='; words in quotes hold anything but quotes; there are 1 to 99 words. The line
-- is read as the definition of the id with these words, and `cfg_getstr` gives the text of each word.
pub cfg_parse_line-print_line :
    (before : Bytes) (c : ℕ) (cs gap : Bytes) (w : Word) (ws : List Word) (tail : Bytes)
    → All IsSpace before
    → All IsIdByte (c ∷ cs)
    → All IsSpace gap
    → All IsWord (w ∷ ws)
    → length (w ∷ ws) < 100
    → IsTail tail
    → (cfg_parse_line (print_line before (c ∷ cs) gap (w ∷ ws) tail)
        ≡ record { type = cfg_def; id = c ∷ cs; has_equal = true; value = map print_word (w ∷ ws) })
      × (map (cfg_getstr true) (map print_word (w ∷ ws)) ≡ map (λ v. got_str (text v)) (w ∷ ws))
unfolding has_extra
cfg_parse_line-print_line before c cs gap w ws tail hb hi hg hw l ht =
    let args : Bytes = print_words (w ∷ ws) ++ tail in
    let values : read_tokens 100 args ≡ (map print_word (w ∷ ws), none) =
      read_tokens_space 99 (drop 1 args) ∙ read_tokens-print_words tail ht 100 (w ∷ ws) hw l in
    (parse_line-equal before c cs gap args hb hi hg ∙ rw values refl, values_text (w ∷ ws) hw)

-- ===== src/Cfg/Words.antt =====
-- The words of a line, as they are written, and how they are read.
use disc.Base.{
  ℕ, ◌+◌, ◌%◌, ◌≡◌, refl, ap, Bool, true, false, some, [], ◌∷◌, ◌++◌, append_assoc, All, ◌==◌,
  arith,
}
use disc.Utils.{Bytes}
use disc.Cfg.{
  eat_space_end, ends_token, prepend, eat_token, end_test, got_str, count_quotes, strip_quote,
  get_text, cfg_getstr,
}

-- A byte that stands for itself in a word without quotes.
abbrev pub IsPlain : ℕ → Type 0
IsPlain c = (ends_token c ≡ false) × ((c == b'"') ≡ false)

abbrev pub IsQuotable : ℕ → Type 0
IsQuotable c = (c == b'"') ≡ false

-- A word in quotes may hold any bytes but quotes.
pub data Word : Type 0 where
  plain : ℕ → Bytes → Word
  quoted : Bytes → Word

abbrev pub IsWord : Word → Type 0
IsWord (plain c cs) = IsPlain c × All IsPlain cs
IsWord (quoted cs) = All IsQuotable cs

abbrev pub text : Word → Bytes
text (plain c cs) = c ∷ cs
text (quoted cs) = cs

abbrev pub print_word : Word → Bytes
print_word (plain c cs) = c ∷ cs
print_word (quoted cs) = b'"' ∷ (cs ++ (b'"' ∷ []))

-- Nothing more of a token comes.
abbrev pub Stops : (ℕ → Bool) → Bytes → Type 0
Stops ends [] = Unit
Stops ends (c ∷ cs) = ends c ≡ true

module _ (ends : ℕ → Bool) where
  pub eat_token-Stops :
      (q : ℕ) (rest : Bytes)
      → (q % 2 == 1) ≡ false
      → Stops ends rest
      → eat_token ends q rest ≡ ([], rest)
  unfolding eat_token
  eat_token-Stops q [] e h = refl
  eat_token-Stops q (c ∷ cs) e h = rw (eat_token, e, h) refl

  -- Through plain bytes, none of which ends the token.
  pub eat_token-plain :
      (q : ℕ) (cs rest : Bytes)
      → (q % 2 == 1) ≡ false
      → All (λ c. (ends c ≡ false) × ((c == b'"') ≡ false)) cs
      → Stops ends rest
      → eat_token ends q (cs ++ rest) ≡ (cs, rest)
  unfolding eat_token
  eat_token-plain q [] rest e h stop = eat_token-Stops q rest e stop
  eat_token-plain q (c ∷ cs) rest e ((goes, no_quote), h) stop =
      let same : ((q + 0) % 2 == 1) ≡ false = ground arith in
      rw (eat_token, e, goes, no_quote)
        (ap (prepend c) (eat_token-plain (q + 0) cs rest same h stop))

  -- Inside of quotes, up to the next quote.
  eat_token-inside :
      (q : ℕ) (cs rest : Bytes)
      → (q % 2 == 1) ≡ true
      → All IsQuotable cs
      → Stops ends rest
      → eat_token ends q (cs ++ (b'"' ∷ rest)) ≡ (cs ++ (b'"' ∷ []), rest)
  unfolding eat_token
  eat_token-inside q [] rest e h stop =
      let even : ((q + 1) % 2 == 1) ≡ false = ground arith in
      rw (eat_token, e) (ap (prepend b'"') (eat_token-Stops (q + 1) rest even stop))
  eat_token-inside q (c ∷ cs) rest e (no_quote, h) stop =
      let same : ((q + 0) % 2 == 1) ≡ true = ground arith in
      rw (eat_token, e, no_quote) (ap (prepend c) (eat_token-inside (q + 0) cs rest same h stop))

  -- A whole word in quotes
  pub eat_token-quoted :
      (cs rest : Bytes)
      → ends b'"' ≡ false
      → All IsQuotable cs
      → Stops ends rest
      → eat_token ends 0 (print_word (quoted cs) ++ rest) ≡ (print_word (quoted cs), rest)
  unfolding eat_token
  eat_token-quoted cs rest goes h stop =
      rw (append_assoc cs (b'"' ∷ []) rest, goes)
        (ap (prepend b'"') (eat_token-inside 1 cs rest refl h stop))

pub eat_token_end-print_word :
    (w : Word) (rest : Bytes)
    → IsWord w
    → Stops ends_token rest
    → eat_token ends_token 0 (print_word w ++ rest) ≡ (print_word w, rest)
eat_token_end-print_word (plain c cs) rest h stop =
    eat_token-plain ends_token 0 (c ∷ cs) rest refl h stop
eat_token_end-print_word (quoted cs) rest h stop = eat_token-quoted ends_token cs rest refl h stop

-- A word does not start with a space, a comment or the end of the line.
pub word_starts :
    (w : Word) (rest : Bytes)
    → IsWord w
    → (eat_space_end (print_word w ++ rest) ≡ print_word w ++ rest)
      × (end_test (print_word w ++ rest) ≡ false)
unfolding eat_space_end
word_starts (plain c cs) rest ((goes, no_quote), h) = (ground arith, ground arith)
word_starts (quoted cs) rest h = (refl, refl)

count_quotes-none : (cs : Bytes) → All IsQuotable cs → count_quotes cs ≡ 0
unfolding count_quotes
count_quotes-none [] h = refl
count_quotes-none (c ∷ cs) (no_quote, h) = rw (count_quotes-none cs h, no_quote) refl

All-IsQuotable : (cs : Bytes) → All IsPlain cs → All IsQuotable cs
All-IsQuotable [] h = tt
All-IsQuotable (c ∷ cs) ((goes, no_quote), h) = (no_quote, All-IsQuotable cs h)

count_quotes-last : (cs : Bytes) → All IsQuotable cs → count_quotes (cs ++ (b'"' ∷ [])) ≡ 1
unfolding count_quotes
count_quotes-last [] h = refl
count_quotes-last (c ∷ cs) (no_quote, h) = rw (count_quotes-last cs h, no_quote) refl

strip_quote_last : (cs : Bytes) → strip_quote (cs ++ (b'"' ∷ [])) ≡ some cs
unfolding strip_quote
strip_quote_last [] = refl
strip_quote_last (c ∷ []) = refl
strip_quote_last (c ∷ d ∷ cs) = rw (strip_quote_last (d ∷ cs)) refl

-- cfg_getstr gives the text of a word, without its quotes.
pub cfg_getstr-print_word :
    (w : Word) → IsWord w → cfg_getstr true (print_word w) ≡ got_str (text w)
unfolding cfg_getstr get_text
cfg_getstr-print_word (plain c cs) ((goes, no_quote), h) =
    rw (no_quote, count_quotes-none (c ∷ cs) (no_quote, All-IsQuotable cs h)) refl
cfg_getstr-print_word (quoted cs) h = rw (count_quotes-last cs h, strip_quote_last cs) refl

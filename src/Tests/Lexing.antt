-- ===== src/Tests/Lexing.antt =====
-- The theorems on the lexer and on locations at concrete inputs.
use seron.Prelude.{◌≡◌, refl, [], ◌∷◌, ◌++◌, Bytes, codes, arith, take}
use seron.Outcome.{done, undefined, overrun}
use seron.Token.{fresh, invalid, gt, kw_if, number_long}
use seron.Scan.{get_keyword}
use seron.Scan.Keywords.{Finds, get_keyword-Finds, if_kw}
use seron.Lexer.{lexer_next, lexer_collect_tokens}
use seron.Lexer.Front.{lexer}
use seron.Lexer.Gaps.{Gap, none, blank, comment, lexer_next-open_comment}
use seron.Lexer.Reads.{Steps, lexer_next-Steps}
use seron.Lexer.Stream.{Collected, lexer_collect_tokens-Collected}
use seron.Lexer.RoundTrip.Punctuation.{spelled, spelling, extends, lexer_next-spelling}
use seron.Lexer.RoundTrip.Words.{reads_word, lexer_next_word, lexer_next_prefix}
use seron.Lexer.RoundTrip.Literals.{
  suffix, continues, string_token, lexer_next_string, char_token, lexer_next_char, number_token,
  digit, more, lexer_next_number,
}
use seron.Location.{Locates, get_token_location, get_token_location-Locates}
use seron.Tests.Runs.{lexing}

-- A comment line and a blank.
abbrev gap : Bytes
gap = codes "#x\n "

gap-Gap : Gap 1 gap
gap-Gap = comment (b'x' ∷ []) (refl, tt) (blank refl none)

abbrev source : Bytes
source = codes "#x\n >1"

lexer_next-Steps_example :
    Steps (lexer source 4) (record (fresh 5) { kind = gt; len = 1 }, lexer (codes "1") 6)
unfolding lexing
lexer_next-Steps_example = lexer_next-Steps (lexer source 4) refl

lexer_collect_tokens-Collected_example :
    Collected invalid invalid source (lexer_collect_tokens invalid invalid source)
lexer_collect_tokens-Collected_example = lexer_collect_tokens-Collected invalid invalid source

lexer_next_word_example :
    lexer_next (lexer (gap ++ (codes "elf" ++ codes "(")) 0)
    ≡ reads_word 1 (codes "elf") (codes "(")
unfolding lexing
lexer_next_word_example =
    lexer_next_word b'e' (codes "lf") (codes "(") 0 refl (refl, (refl, tt)) refl gap-Gap

lexer_next_prefix_example :
    lexer_next (lexer (gap ++ ((codes "if" ++ codes "fy") ++ codes "(")) 0)
    ≡ done (record (fresh 1) { kind = kw_if; len = 4 }, lexer (codes "(") 5)
unfolding lexing
lexer_next_prefix_example =
    lexer_next_prefix (codes "fy") (codes "(") 0 if_kw (refl, (refl, tt)) (omega arith) refl gap-Gap

lexer_next-spelling_example :
    lexer_next (lexer (gap ++ (codes ">" ++ codes "1")) 0)
    ≡ done (spelled 1 gt, lexer (codes "1") 2)
unfolding spelling extends
lexer_next-spelling_example = lexer_next-spelling gt (codes "1") 0 (omega arith) gap-Gap refl

lexer_next_number_example :
    lexer_next (lexer (gap ++ (codes "07" ++ (codes "L" ++ codes ";"))) 0)
    ≡ done (number_token 1 number_long 7 3, lexer (codes ";") 4)
unfolding suffix continues
lexer_next_number_example =
    lexer_next_number number_long (codes ";") 0
      (more {d = 7} (digit {d = 0} (omega arith)) (omega arith) refl) (omega arith) (omega arith)
      refl gap-Gap

lexer_next_string_example :
    lexer_next (lexer (gap ++ (b'"' ∷ (codes "hi" ++ b'"' ∷ codes ";"))) 0)
    ≡ done (string_token 1 (codes "hi"), lexer (codes ";") 5)
lexer_next_string_example =
    lexer_next_string (codes "hi") (codes ";") 0 (refl, (refl, tt)) (omega arith) gap-Gap

lexer_next_char_example :
    lexer_next (lexer (gap ++ (b'\'' ∷ b'a' ∷ b'\'' ∷ codes ";")) 0)
    ≡ done (char_token 1 97, lexer (codes ";") 4)
lexer_next_char_example = lexer_next_char b'a' (codes ";") 0 (omega arith) gap-Gap

lexer_next-open_comment_example :
    lexer_next (record { src = gap ++ b'#' ∷ codes "end"; position = 0 }) ≡ undefined overrun
lexer_next-open_comment_example =
    lexer_next-open_comment (codes "end") 0 gap-Gap (refl, (refl, (refl, tt)))

get_keyword-Finds_example : Finds (codes "iffy") (get_keyword (codes "iffy"))
get_keyword-Finds_example = get_keyword-Finds (codes "iffy")

get_token_location-Locates_example : Locates (take 5 source) (get_token_location (fresh 5) source)
get_token_location-Locates_example = get_token_location-Locates (fresh 5) source

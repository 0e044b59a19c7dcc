-- ===== src/Lexer/RoundTrip/Literals.antt =====
-- String, character and number literals.
use Prim.Native.Nat.{min}
use seron.Prelude.{
  ℕ, ◌+◌, ◌-◌, ◌*◌, ◌^◌, ◌≤◌, ◌<◌, ◌≡◌, refl, ◌∙◌, ap, Bool, true, false, not, ◌||◌, [], ◌∷◌, ◌++◌,
  Bytes, ◌==◌, length, take_all, arith, some,
}
use seron.Outcome.{done}
use seron.Token.{
  Token, fresh, literal_string, literal_number, NumberLiteralType, number_long, number_int,
  number_char, number_any,
}
use seron.Scan.{
  is_digit, until_quote, tokenize_string, tokenize_char, tokenize_number, literal_suffix, decimal,
  atoll, read_number, value_size,
}
use seron.Scan.Spans.{All, All-append, Stops, span-append}
use seron.Lexer.{tokenize, tokenize_long, tokenize_default, lexer_next}
use seron.Lexer.Gaps.{Gap}
use seron.Lexer.Front.{lexer, IsFront, advance, lexer_next-Gap}

abbrev pub no_quote : ℕ → Bool
no_quote c = not (c == b'"')

until_quote-append :
    (text rest : Bytes) → All no_quote text → until_quote (text ++ b'"' ∷ rest) ≡ some (text, rest)
unfolding until_quote
until_quote-append [] rest h = refl
until_quote-append (c ∷ text) rest (h, hs) = ground (arith, until_quote-append text rest hs)

abbrev pub string_token : ℕ → Bytes → Token
string_token p text = record (fresh p) {
  kind = literal_string;
  len = length text + 2;
  value = text;
}

tokenize_string_text :
    (tok : Token) (text rest : Bytes)
    → All no_quote text
    → length text ≤ value_size
    → tokenize_string tok (text ++ b'"' ∷ rest)
      ≡ done (record tok { kind = literal_string; len = length text + 2; value = text }, rest)
unfolding tokenize_string
tokenize_string_text tok text rest h short =
    rw (until_quote-append text rest h, tokenize_string)
      (rw (take_all (min (length text) value_size) text (omega arith)))

-- A text with no quote in it, of at most 8192 bytes, between quotes behind a gap, is read back as
-- the value of a string token, and the lexer is left in front of the rest.
pub lexer_next_string :
    {n : ℕ} {gap : Bytes} (text rest : Bytes) (p : ℕ)
    → All no_quote text
    → length text ≤ value_size
    → Gap n gap
    → lexer_next (lexer (gap ++ (b'"' ∷ (text ++ b'"' ∷ rest))) p)
      ≡ done (string_token (p + n) text, lexer rest (p + n + (length text + 2)))
unfolding tokenize tokenize_long
lexer_next_string {n} text rest p h short gap =
    lexer_next-Gap b'"' (text ++ b'"' ∷ rest) p gap refl
    ∙ ap (advance (p + n)) (tokenize_string_text (fresh (p + n)) text rest h short)

abbrev pub char_token : ℕ → ℕ → Token
char_token p c = record (fresh p) {
  kind = literal_number;
  number_type = number_char;
  number = c;
  len = 3;
}

-- An ASCII byte between single quotes, behind a gap, is read as the number of type `char` that
-- encodes it, and the lexer is left in front of the rest.
pub lexer_next_char :
    {n : ℕ} {gap : Bytes} (c : ℕ) (rest : Bytes) (p : ℕ)
    → c < 128
    → Gap n gap
    → lexer_next (lexer (gap ++ (b'\'' ∷ c ∷ b'\'' ∷ rest)) p)
      ≡ done (char_token (p + n) c, lexer rest (p + n + 3))
unfolding tokenize tokenize_long tokenize_char
lexer_next_char {n} c rest p h gap =
    lexer_next-Gap b'\'' (c ∷ b'\'' ∷ rest) p gap refl ∙ ground arith

-- `Digits n s`: the decimal digits `s`, which may begin with zeros, stand for `n`.
pub data Digits : ℕ → Bytes → Type 0 where
  digit : {d : ℕ} → d < 10 → Digits d ((b'0' + d) ∷ [])
  more :
      {n m d : ℕ} {s : Bytes}
      → Digits n s
      → d < 10
      → m ≡ n * 10 + d
      → Digits m (s ++ (b'0' + d) ∷ [])

decimal-append : (acc : ℕ) (s t : Bytes) → decimal acc (s ++ t) ≡ decimal (decimal acc s) t
unfolding decimal
decimal-append acc [] t = refl
decimal-append acc (c ∷ s) t = decimal-append (acc * 10 + (c - b'0')) s t

decimal-Digits : {n : ℕ} {s : Bytes} → Digits n s → decimal 0 s ≡ n
unfolding decimal
decimal-Digits (digit h) = omega arith
decimal-Digits (more {s} d h e) = rw (decimal-append, decimal-Digits d) (omega arith)

Digits-All : {n : ℕ} {s : Bytes} → Digits n s → All is_digit s
unfolding is_digit
Digits-All (digit h) = (ground arith, tt)
Digits-All (more {d} {s} k h e) =
    All-append is_digit s ((b'0' + d) ∷ []) (Digits-All k) (ground arith, tt)

-- How a number's type is written behind it.
unfoldable pub suffix : NumberLiteralType → Bytes
suffix number_long = b'L' ∷ []
suffix number_char = b'B' ∷ []
suffix number_int = b'I' ∷ []
suffix number_any = []

length-suffix-le : (ty : NumberLiteralType) → length (suffix ty) ≤ 1
unfolding suffix
length-suffix-le ty = ground arith

-- The bytes that would be read as more of the number.
unfoldable pub continues : NumberLiteralType → ℕ → Bool
unfolding is_digit
continues number_any c = is_digit c || c == b'L' || c == b'B' || c == b'I'
continues _ c = false

literal_suffix_text :
    (ty : NumberLiteralType) (rest : Bytes)
    → Stops (continues ty) rest
    → literal_suffix (suffix ty ++ rest) ≡ (ty, suffix ty, rest)
unfolding literal_suffix suffix continues
literal_suffix_text number_any [] h = refl
literal_suffix_text number_any (c ∷ rest) h = ground arith
literal_suffix_text number_long rest h = refl
literal_suffix_text number_char rest h = refl
literal_suffix_text number_int rest h = refl

suffix-Stops :
    (ty : NumberLiteralType) (rest : Bytes)
    → Stops (continues ty) rest
    → Stops is_digit (suffix ty ++ rest)
unfolding suffix continues is_digit
suffix-Stops number_any [] h = tt
suffix-Stops number_any (c ∷ rest) h = ground arith
suffix-Stops number_long rest h = refl
suffix-Stops number_char rest h = refl
suffix-Stops number_int rest h = refl

abbrev pub number_token : ℕ → NumberLiteralType → ℕ → ℕ → Token
number_token p ty number len = record (fresh p) {
  kind = literal_number;
  number_type = ty;
  number = number;
  len = len;
}

tokenize_number_text :
    (p c : ℕ) (ds : Bytes) (ty : NumberLiteralType) (rest : Bytes) (k : ℕ)
    → All is_digit ds
    → Stops (continues ty) rest
    → length (c ∷ ds) < 64
    → decimal 0 (c ∷ ds) ≡ k
    → k < 2 ^ 63
    → tokenize_number (fresh p) c (ds ++ (suffix ty ++ rest))
      ≡ done (number_token p ty k (length (c ∷ ds) + length (suffix ty)), rest)
unfolding tokenize_number read_number atoll
tokenize_number_text p c ds ty rest k h stops short value fits =
    rw
      (
        span-append is_digit ds (suffix ty ++ rest) h (suffix-Stops ty rest stops),
        literal_suffix_text ty rest stops,
      )
      (ground (arith, length-suffix-le ty))

tokenize_digit :
    (tok : Token) (c : ℕ) (cs : Bytes)
    → is_digit c ≡ true
    → tokenize tok c cs ≡ tokenize_number tok c cs
unfolding tokenize tokenize_long tokenize_default is_digit
tokenize_digit tok c cs h = ground arith

digit-IsFront : (c : ℕ) → is_digit c ≡ true → IsFront c
unfolding is_digit
digit-IsFront c h = ground arith

Digits-cons : {k : ℕ} {s : Bytes} → Digits k s → (c : ℕ) × (ds : Bytes) × (s ≡ c ∷ ds)
Digits-cons (digit {d} h) = (b'0' + d, [], refl)
Digits-cons (more {d} {s = []} k h e) = (b'0' + d, [], refl)
Digits-cons (more {d} {s = c ∷ s} k h e) = (c, s ++ (b'0' + d) ∷ [], refl)

-- A decimal number of fewer than 64 digits that fits a `long long`, behind a gap, with the suffix of
-- a type or none, and with no byte behind it that continues it, is read as that number of that type.
pub lexer_next_number :
    {n k : ℕ} {gap digits : Bytes} (ty : NumberLiteralType) (rest : Bytes) (p : ℕ)
    → Digits k digits
    → length digits < 64
    → k < 2 ^ 63
    → Stops (continues ty) rest
    → Gap n gap
    → lexer_next (lexer (gap ++ (digits ++ (suffix ty ++ rest))) p)
      ≡ done (
        number_token (p + n) ty k (length digits + length (suffix ty)),
        lexer rest (p + n + (length digits + length (suffix ty))),
      )
lexer_next_number {n} {k} ty rest p ds short fits stops gap =
    let (c, tail, e) = Digits-cons ds in
    let all = rw e at (Digits-All ds) in
    let value : decimal 0 (c ∷ tail) ≡ k = rw e at (decimal-Digits ds) in
    rw e (
      lexer_next-Gap c (tail ++ (suffix ty ++ rest)) p gap (digit-IsFront c all.0)
      ∙ ap (advance (p + n)) (
          tokenize_digit (fresh (p + n)) c _ all.0
          ∙ tokenize_number_text (p + n) c tail ty rest k all.1 stops (rw e at short) value fits))

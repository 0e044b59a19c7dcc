-- ===== src/Scan.antt =====
-- The functions of seronc/lexer.c that read one token: `tokenize_string`, `tokenize_char`,
-- `tokenize_number`, `tokenize_ident`, `tokenize_single`, `tokenize_double` and the character and
-- keyword tests. `lex->src` is the list of the bytes from the pointer to the terminator; each
-- function takes the token begun by `lexer_next` and returns it with the list behind it.
pub mod Spans
pub mod Keywords
pub mod Consumes
use Prim.Native.Nat.{min}
use seron.Prelude.{
  ℕ, ◌+◌, ◌-◌, ◌*◌, ◌^◌, Bool, true, false, ◌&&◌, ◌||◌, List, [], ◌∷◌, Option, none, some, Bytes,
  codes, ltb, leb, ◌==◌, if◌then◌else◌, length, take,
}
use seron.Outcome.{
  Outcome, done, exit, undefined, ◌>>=◌, unterminated_string, invalid_character,
  unterminated_character, long_number, long_identifier, overrun, unrepresentable,
}
use seron.Token.{
  TokenKind, literal_ident, literal_number, literal_string, kw_proc, kw_vardecl, kw_if, kw_else,
  kw_elsif, kw_while, kw_return, kw_table, kw_for, kw_type_void, kw_type_char, kw_type_int,
  kw_type_long, NumberLiteralType, number_long, number_int, number_char, number_any, Token,
  same_kind,
}

abbrev pub max_ident_len : ℕ
max_ident_len = 64

abbrev pub max_number_literal_len : ℕ
max_number_literal_len = 64

-- BUFSIZ, the size of `Token.value`
abbrev pub value_size : ℕ
value_size = 8192

abbrev pub Scanned : Type 0
Scanned = Outcome (Token × Bytes)

-- `isdigit` and `isalpha` of the C locale
unfoldable pub is_digit : ℕ → Bool
is_digit c = leb b'0' c && leb c b'9'

unfoldable pub is_alpha : ℕ → Bool
is_alpha c = leb b'A' c && leb c b'Z' || leb b'a' c && leb c b'z'

unfoldable pub is_ident_head : ℕ → Bool
unfolding is_alpha
is_ident_head c = is_alpha c || c == b'_'

unfoldable pub is_ident_tail : ℕ → Bool
unfolding is_ident_head is_digit
is_ident_tail c = is_ident_head c || is_digit c

-- `!strncmp(str, kw, strlen(kw))`: `kw` stands at the front of `str`.
unfoldable pub match_kw : Bytes → Bytes → Bool
match_kw str [] = true
match_kw [] (k ∷ kw) = false
match_kw (c ∷ str) (k ∷ kw) = c == k && match_kw str kw

-- The rows of the conditional chain of `get_keyword`, in its order.
abbrev pub keywords : List (Bytes × TokenKind)
keywords =
    (codes "proc", kw_proc)
    ∷ (codes "let", kw_vardecl)
    ∷ (codes "if", kw_if)
    ∷ (codes "for", kw_for)
    ∷ (codes "else", kw_else)
    ∷ (codes "elsif", kw_elsif)
    ∷ (codes "while", kw_while)
    ∷ (codes "table", kw_table)
    ∷ (codes "return", kw_return)
    ∷ (codes "void", kw_type_void)
    ∷ (codes "char", kw_type_char)
    ∷ (codes "int", kw_type_int)
    ∷ (codes "long", kw_type_long)
    ∷ []

unfoldable pub first_match : List (Bytes × TokenKind) → Bytes → TokenKind
first_match [] str = literal_ident
first_match ((kw, kind) ∷ rows) str = if match_kw str kw then kind else first_match rows str

unfoldable pub get_keyword : Bytes → TokenKind
get_keyword = first_match keywords

-- The bytes before the next `"`, and those behind it.
unfoldable pub until_quote : Bytes → Option (Bytes × Bytes)
until_quote [] = none
until_quote (c ∷ cs) =
    let rest = until_quote cs in
    if c == b'"'
    then some ([], cs)
    else elim rest [ none ↦ none | some (text, after) ↦ some (c ∷ text, after) ]

-- `s` stands behind the opening quote.
unfoldable pub tokenize_string : Token → Bytes → Scanned
tokenize_string tok s = elim (until_quote s) [
  | none ↦ exit unterminated_string
  | some (text, after) ↦ done (
    record tok {
      kind = literal_string;
      len = length text + 2;
      value = take (min (length text) value_size) text;
    },
    after,
  )
]

-- `s` stands behind the opening quote. A byte of 128 or more is no ASCII character. If the
-- terminator is taken for the character, the next read is behind the end of the source.
unfoldable pub tokenize_char : Token → Bytes → Scanned
tokenize_char tok [] = undefined overrun
tokenize_char tok (c ∷ []) =
    if leb 128 c then exit invalid_character else exit unterminated_character
tokenize_char tok (c ∷ d ∷ after) =
    if leb 128 c
    then exit invalid_character
    else if d == b'\''
    then done (
      record tok { kind = literal_number; number_type = number_char; number = c; len = 3 },
      after,
    )
    else exit unterminated_character

-- The longest prefix of bytes that pass the test, and what follows it.
unfoldable pub span : (ℕ → Bool) → Bytes → Bytes × Bytes
span p [] = ([], [])
span p (c ∷ cs) = let rest = span p cs in if p c then (c ∷ rest.0, rest.1) else ([], c ∷ cs)

-- The `switch` on the suffix of a number: the type, and the bytes of the suffix.
unfoldable pub literal_suffix : Bytes → NumberLiteralType × Bytes × Bytes
literal_suffix [] = (number_any, [], [])
literal_suffix (c ∷ cs) =
    if c == b'L'
    then (number_long, c ∷ [], cs)
    else if c == b'B'
    then (number_char, c ∷ [], cs)
    else if c == b'I'
    then (number_int, c ∷ [], cs)
    else (number_any, [], c ∷ cs)

-- The number that decimal digits stand for, behind those already read.
unfoldable pub decimal : ℕ → Bytes → ℕ
decimal acc [] = acc
decimal acc (c ∷ cs) = decimal (acc * 10 + (c - b'0')) cs

-- `atoll` of a text of digits: undefined if the value is no `long long`.
unfoldable pub atoll : Bytes → Outcome ℕ
atoll digits =
    let n = decimal 0 digits in if ltb n (2 ^ 63) then done n else undefined unrepresentable

-- The digits stand in a buffer of 64 bytes: without a suffix, 64 of them leave no terminator.
unfoldable pub read_number : Bytes → Bytes → Outcome ℕ
read_number digits suffix =
    if length digits == max_number_literal_len then undefined overrun else atoll digits

-- The first byte of `c ∷ cs` is taken without a test; `lexer_next` has seen that it is a digit.
unfoldable pub tokenize_number : Token → ℕ → Bytes → Scanned
tokenize_number tok c cs =
    let (digits, after) = span is_digit cs in
    let (number_type, suffix, rest) = literal_suffix after in
    let n = length (c ∷ digits) + length suffix in
    if ltb max_number_literal_len n then exit (long_number (record tok { len = n })) else do
      number ← read_number (c ∷ digits) suffix
      done (
        record tok { kind = literal_number; number_type = number_type; number = number; len = n },
        rest,
      )

unfoldable pub tokenize_ident : Token → ℕ → Bytes → Scanned
tokenize_ident tok c cs =
    let (tail, after) = span is_ident_tail cs in
    let n = length (c ∷ tail) in
    let kind = get_keyword (c ∷ cs) in
    if ltb max_ident_len n
    then exit (long_identifier (record tok { len = n }))
    else if same_kind kind literal_ident
    then done (record tok { kind = kind; len = n; value = c ∷ tail }, after)
    else done (record tok { kind = kind; len = n }, after)

-- `s` stands behind the first byte.
unfoldable pub tokenize_single : Token → TokenKind → Bytes → Scanned
tokenize_single tok kind s = done (record tok { kind = kind }, s)

unfoldable pub tokenize_double : Token → TokenKind → ℕ → TokenKind → Bytes → Scanned
tokenize_double tok first cond second [] = done (record tok { kind = first }, [])
tokenize_double tok first cond second (c ∷ cs) =
    if c == cond
    then done (record tok { kind = second; len = 2 }, cs)
    else done (record tok { kind = first }, c ∷ cs)

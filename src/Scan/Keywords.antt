-- ===== src/Scan/Keywords.antt =====
-- `get_keyword` of seronc/lexer.c on a text with a keyword at its front, and on words.
use seron.Prelude.{
  ℕ, ◌≡◌, ◌≢◌, refl, ap, sym, ◌∙◌, true, false, List, [], ◌∷◌, ◌++◌, Bytes, codes, ◌⊎◌, inl, inr,
  arith, Bool-cases,
}
use seron.Token.{
  TokenKind, same_kind, literal_ident, kw_else, kw_elsif, kw_for, kw_if, kw_proc, kw_return,
  kw_table, kw_type_char, kw_type_int, kw_type_long, kw_type_void, kw_vardecl, kw_while,
}
use seron.Scan.{is_ident_head, is_ident_tail, match_kw, keywords, first_match, get_keyword}
use seron.Scan.Spans.{All, Stops}

-- The keywords of the language and their tokens.
pub data Keyword : Bytes → TokenKind → Type 0 where
  proc_kw : Keyword (codes "proc") kw_proc
  let_kw : Keyword (codes "let") kw_vardecl
  if_kw : Keyword (codes "if") kw_if
  for_kw : Keyword (codes "for") kw_for
  else_kw : Keyword (codes "else") kw_else
  elsif_kw : Keyword (codes "elsif") kw_elsif
  while_kw : Keyword (codes "while") kw_while
  table_kw : Keyword (codes "table") kw_table
  return_kw : Keyword (codes "return") kw_return
  void_kw : Keyword (codes "void") kw_type_void
  char_kw : Keyword (codes "char") kw_type_char
  int_kw : Keyword (codes "int") kw_type_int
  long_kw : Keyword (codes "long") kw_type_long

-- Each row of `keywords` is a keyword.
abbrev AreKeywords : List (Bytes × TokenKind) → Type 0
AreKeywords [] = Unit
AreKeywords ((kw, kind) ∷ rows) = Keyword kw kind × AreKeywords rows

keywords-AreKeywords : AreKeywords keywords
keywords-AreKeywords =
    ((
      proc_kw,
      (
        let_kw,
        (
          if_kw,
          (
            for_kw,
            (
              else_kw,
              (
                elsif_kw,
                (while_kw, (table_kw, (return_kw, (void_kw, (char_kw, (int_kw, (long_kw, tt))))))),
              ),
            ),
          ),
        ),
      ),
    ))

pub Keyword-All : {kw : Bytes} {kind : TokenKind} → Keyword kw kind → All is_ident_tail kw
unfolding is_ident_tail
Keyword-All proc_kw = (refl, (refl, (refl, (refl, tt))))
Keyword-All let_kw = (refl, (refl, (refl, tt)))
Keyword-All if_kw = (refl, (refl, tt))
Keyword-All for_kw = (refl, (refl, (refl, tt)))
Keyword-All else_kw = (refl, (refl, (refl, (refl, tt))))
Keyword-All elsif_kw = (refl, (refl, (refl, (refl, (refl, tt)))))
Keyword-All while_kw = (refl, (refl, (refl, (refl, (refl, tt)))))
Keyword-All table_kw = (refl, (refl, (refl, (refl, (refl, tt)))))
Keyword-All return_kw = (refl, (refl, (refl, (refl, (refl, (refl, tt))))))
Keyword-All void_kw = (refl, (refl, (refl, (refl, tt))))
Keyword-All char_kw = (refl, (refl, (refl, (refl, tt))))
Keyword-All int_kw = (refl, (refl, (refl, tt)))
Keyword-All long_kw = (refl, (refl, (refl, (refl, tt))))

-- A keyword begins like an identifier.
pub Keyword-head :
    {kw : Bytes} {kind : TokenKind}
    → Keyword kw kind
    → (c : ℕ) × (tail : Bytes) × (kw ≡ c ∷ tail) × (is_ident_head c ≡ true)
unfolding is_ident_head
Keyword-head proc_kw = (_, _, refl, refl)
Keyword-head let_kw = (_, _, refl, refl)
Keyword-head if_kw = (_, _, refl, refl)
Keyword-head for_kw = (_, _, refl, refl)
Keyword-head else_kw = (_, _, refl, refl)
Keyword-head elsif_kw = (_, _, refl, refl)
Keyword-head while_kw = (_, _, refl, refl)
Keyword-head table_kw = (_, _, refl, refl)
Keyword-head return_kw = (_, _, refl, refl)
Keyword-head void_kw = (_, _, refl, refl)
Keyword-head char_kw = (_, _, refl, refl)
Keyword-head int_kw = (_, _, refl, refl)
Keyword-head long_kw = (_, _, refl, refl)

pub Keyword-ne-literal_ident :
    {kw : Bytes} {kind : TokenKind} → Keyword kw kind → same_kind kind literal_ident ≡ false
Keyword-ne-literal_ident proc_kw = refl
Keyword-ne-literal_ident let_kw = refl
Keyword-ne-literal_ident if_kw = refl
Keyword-ne-literal_ident for_kw = refl
Keyword-ne-literal_ident else_kw = refl
Keyword-ne-literal_ident elsif_kw = refl
Keyword-ne-literal_ident while_kw = refl
Keyword-ne-literal_ident table_kw = refl
Keyword-ne-literal_ident return_kw = refl
Keyword-ne-literal_ident void_kw = refl
Keyword-ne-literal_ident char_kw = refl
Keyword-ne-literal_ident int_kw = refl
Keyword-ne-literal_ident long_kw = refl

-- Whatever follows a keyword, the text is taken for it: no keyword begins another.
pub get_keyword-append :
    {kw : Bytes} {kind : TokenKind} (more : Bytes)
    → Keyword kw kind
    → get_keyword (kw ++ more) ≡ kind
unfolding get_keyword first_match match_kw
get_keyword-append more proc_kw = refl
get_keyword-append more let_kw = refl
get_keyword-append more if_kw = refl
get_keyword-append more for_kw = refl
get_keyword-append more else_kw = refl
get_keyword-append more elsif_kw = refl
get_keyword-append more while_kw = refl
get_keyword-append more table_kw = refl
get_keyword-append more return_kw = refl
get_keyword-append more void_kw = refl
get_keyword-append more char_kw = refl
get_keyword-append more int_kw = refl
get_keyword-append more long_kw = refl

match_kw-splits : (s kw : Bytes) → match_kw s kw ≡ true → (more : Bytes) × (s ≡ kw ++ more)
unfolding match_kw
match_kw-splits s [] h = (s, refl)
match_kw-splits [] (k ∷ kw) h = cc
match_kw-splits (c ∷ s) (k ∷ kw) h =
    let (more, e) = match_kw-splits s kw (ground arith) in (more, ground arith)

-- The token of a text: that of a keyword at its front, or an identifier if no keyword is there.
abbrev pub Finds : Bytes → TokenKind → Type 0
Finds s kind =
    ((kw : Bytes) × (more : Bytes) × Keyword kw kind × (s ≡ kw ++ more))
    ⊎ ((kind ≡ literal_ident)
        × ((kw more : Bytes) (kind' : TokenKind) → Keyword kw kind' → s ≢ kw ++ more))

-- What `first_match` finds: a keyword at the front, or nothing.
abbrev FindsSome : Bytes → TokenKind → Type 0
FindsSome s kind =
    ((kw : Bytes) × (more : Bytes) × Keyword kw kind × (s ≡ kw ++ more)) ⊎ (kind ≡ literal_ident)

first_match-FindsSome :
    (rows : List (Bytes × TokenKind)) (s : Bytes)
    → AreKeywords rows
    → FindsSome s (first_match rows s)
unfolding first_match
first_match-FindsSome [] s h = inr refl
first_match-FindsSome ((kw, kind) ∷ rows) s (k, ks) = elim (Bool-cases (match_kw s kw)) [
  | inl e ↦ let (more, m) = match_kw-splits s kw e in rw e (inl (kw, more, k, m))
  | inr e ↦ rw e (first_match-FindsSome rows s ks)
]

-- A text with a keyword at its front is not called an identifier.
Keyword-found :
    {s kw : Bytes} {kind : TokenKind} (more : Bytes)
    → get_keyword s ≡ literal_ident
    → Keyword kw kind
    → s ≢ kw ++ more
Keyword-found {kw = kw} {kind} more l k e =
    let found : get_keyword (kw ++ more) ≡ kind = get_keyword-append more k in
    let ident : kind ≡ literal_ident = sym found ∙ ap get_keyword (sym e) ∙ l in
    let no = Keyword-ne-literal_ident k in
    let yes : same_kind kind literal_ident ≡ true = ap (λ t. same_kind t literal_ident) ident in cc

-- `get_keyword` gives the token of a keyword at the front of the text; if no keyword is there, it calls
-- the text an identifier.
pub get_keyword-Finds : (s : Bytes) → Finds s (get_keyword s)
unfolding get_keyword
get_keyword-Finds s = elim (first_match-FindsSome keywords s keywords-AreKeywords) [
  | inl found ↦ inl found
  | inr l ↦ inr (l, λ kw more kind k. Keyword-found more l k)
]

match_kw-append :
    (kw text rest : Bytes)
    → All is_ident_tail kw
    → Stops is_ident_tail rest
    → match_kw (text ++ rest) kw ≡ match_kw text kw
unfolding match_kw
match_kw-append [] text rest h stops = refl
match_kw-append (k ∷ kw) [] [] h stops = refl
match_kw-append (k ∷ kw) [] (c ∷ rest) (h, hs) stops =
    ground (arith, ap is_ident_tail {x = c} {y = k})
match_kw-append (k ∷ kw) (c ∷ text) rest (h, hs) stops = rw (match_kw-append kw text rest hs stops)

first_match-append :
    (rows : List (Bytes × TokenKind)) (text rest : Bytes)
    → AreKeywords rows
    → Stops is_ident_tail rest
    → first_match rows (text ++ rest) ≡ first_match rows text
unfolding first_match
first_match-append [] text rest h stops = refl
first_match-append ((kw, kind) ∷ rows) text rest (k, ks) stops =
    rw (
      match_kw-append kw text rest (Keyword-All k) stops,
      first_match-append rows text rest ks stops,
    )

-- The bytes behind a word do not bear on whether it is a keyword.
pub get_keyword_word :
    (text rest : Bytes) → Stops is_ident_tail rest → get_keyword (text ++ rest) ≡ get_keyword text
unfolding get_keyword
get_keyword_word text rest stops = first_match-append keywords text rest keywords-AreKeywords stops

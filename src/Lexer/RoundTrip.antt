-- ===== src/Lexer/RoundTrip.antt =====
-- `lexer_next` of seronc/lexer.c on texts that are written by the rules of the language, behind a gap
-- and in front of a rest.
pub mod Punctuation
pub mod Words
pub mod Literals

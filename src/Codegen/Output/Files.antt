-- ===== src/Codegen/Output/Files.antt =====
-- The file that seronc/codegen.c writes, against the text of the lines.
use seron.Prelude.{
  ℕ, zero, suc, ◌+◌, ◌≤◌, ◌==◌, ◌≡◌, refl, ◌∙◌, ap, inl, inr, List, [], ◌∷◌, ◌++◌, map, Bytes, true,
  false, codes, length, length-append, take, take_all, arith, if◌then◌else◌, ltb, Bool-cases,
}
use seron.Outcome.{Outcome, done, overrun, ◌>>=◌}
use seron.Buffer.{Buffer, buffer_init, buffer_append_str, no_nul}
use seron.Buffer.Prints.{
  no_nul-append, Full, Full-ge, buffer_append_str-prints, buffer_append_str-append,
}
use seron.Asm
use seron.Asm.{Instr, DataLine}
use seron.Asm.Text.{line, data_line}
use seron.Codegen.{Gen}
use seron.Codegen.Output.{format_line, write_lines, section, gen_write_to_file, output}
use seron.Codegen.Output.Lengths.{
  IsText, IsText-append, IsText-le, literal-IsText, percent_d-IsText, PrintsShort, NamesShort,
  line-IsText,
}

-- The texts, each with a newline behind it.
unfoldable pub joined : List Bytes → Bytes
joined [] = []
joined (text ∷ texts) = (text ++ b'\n' ∷ []) ++ joined texts

-- Texts that `format_line` leaves whole.
abbrev pub AllTexts : List Bytes → Type 0
AllTexts [] = Unit
AllTexts (text ∷ texts) = IsText 1022 text × AllTexts texts

format_line-short :
    (text : Bytes) → length text ≤ 1022 → format_line text ≡ done (text ++ b'\n' ∷ [])
unfolding format_line
format_line-short text h =
    let cut : take 1023 text ≡ text = take_all 1023 text (omega arith) in
    let test : ltb (length text) 1023 ≡ true = ground (arith, h) in rw (cut, test)

length-take-long : (n : ℕ) (text : Bytes) → n ≤ length text → length (take n text) ≡ n
length-take-long zero text h = refl
length-take-long (suc n) [] h = absurd (omega arith)
length-take-long (suc n) (c ∷ text) h = ap suc (length-take-long n text (omega arith))

format_line-long :
    (text : Bytes) → 1023 ≤ length text → format_line text ≡ Outcome.undefined overrun
unfolding format_line
format_line-long text h =
    let len = length-take-long 1023 text h in
    let test : ltb (length (take 1023 text)) 1023 ≡ false = ground (arith, len) in rw test

length-db : (text : Bytes) → length (data_line (Asm.db text)) ≡ length text + 8
unfolding data_line
length-db text = omega (arith, length-append text (codes "\", 0"))

-- The line of a string literal is formatted whole, with a newline behind it, if the literal has less
-- than 1015 bytes; if it has 1015 or more, `strcat` writes behind the array.
pub format_line-db :
    (text : Bytes)
    → format_line (data_line (Asm.db text)) ≡ (
        if ltb (length text) 1015
        then done (data_line (Asm.db text) ++ b'\n' ∷ [])
        else Outcome.undefined overrun)
format_line-db text = elim (Bool-cases (ltb (length text) 1015)) [
  | inl e ↦ rw e (format_line-short (data_line (Asm.db text)) (ground (arith, e, length-db text)))
  | inr e ↦ rw e (format_line-long (data_line (Asm.db text)) (ground (arith, e, length-db text)))
]

write_lines-joined :
    (texts : List Bytes) (buf : Buffer)
    → AllTexts texts
    → write_lines texts buf ≡ done (buffer_append_str buf (joined texts))
unfolding write_lines joined buffer_append_str
write_lines-joined [] buf h = refl
write_lines-joined (text ∷ texts) buf (h, hs) = rw (format_line-short text h.short) (
    write_lines-joined texts _ hs
    ∙ ap done (buffer_append_str-append buf (text ++ b'\n' ∷ []) (joined texts)))

joined-no_nul : (texts : List Bytes) → AllTexts texts → no_nul (joined texts) ≡ true
unfolding joined no_nul
joined-no_nul [] h = refl
joined-no_nul (text ∷ texts) (h, hs) =
    no_nul-append (text ++ b'\n' ∷ []) (joined texts) (no_nul-append text (b'\n' ∷ []) h.plain refl)
      (joined-no_nul texts hs)

-- A section with its title; without a text there is none.
abbrev pub titled : Bytes → Bytes → Bytes
titled title text = if length text == 0 then [] else title ++ text

section-titled :
    (title text : Bytes)
    → no_nul text ≡ true
    → ¬ Full (length text)
    → section title (buffer_append_str buffer_init text) ≡ done (titled title text)
section-titled title text h f =
    let (len, whole, overruns) = buffer_append_str-prints text h in
    elim (Bool-cases (length text == 0)) [
      | inl e ↦ rw (len, e)
      | inr e ↦ rw (len, e, whole (ground (arith, e)) f)
    ]

-- Lines whose names are short, and data whose texts are.
abbrev pub AllNamesShort : List Instr → Type 0
AllNamesShort [] = Unit
AllNamesShort (i ∷ code) = NamesShort i × AllNamesShort code

abbrev pub DataShort : DataLine → Type 0
DataShort (Asm.string_label n) = Unit
DataShort (Asm.db text) = IsText 1014 text

abbrev pub AllDataShort : List DataLine → Type 0
AllDataShort [] = Unit
AllDataShort (d ∷ ds) = DataShort d × AllDataShort ds

lines-AllTexts :
    (lu : ℕ → Bytes)
    → PrintsShort lu
    → (code : List Instr) → AllNamesShort code
    → AllTexts (map (line lu) code)
lines-AllTexts lu short [] h = tt
lines-AllTexts lu short (i ∷ code) (h, hs) =
    (IsText-le (omega arith) (line-IsText lu short i h), lines-AllTexts lu short code hs)

data_line-IsText : (d : DataLine) → DataShort d → IsText 1022 (data_line d)
unfolding data_line no_nul
data_line-IsText (Asm.string_label n) h = IsText-le (omega arith) (
    IsText-append (literal-IsText (codes "string_") refl)
      (IsText-append (percent_d-IsText n) (literal-IsText (codes ":") refl)))
data_line-IsText (Asm.db text) h = IsText-le (omega arith) (
    IsText-append (literal-IsText (codes "db \"") refl)
      (IsText-append h (literal-IsText (codes "\", 0") refl)))

data-AllTexts : (ds : List DataLine) → AllDataShort ds → AllTexts (map data_line ds)
data-AllTexts [] h = tt
data-AllTexts (d ∷ ds) (h, hs) = (data_line-IsText d h, data-AllTexts ds hs)

-- Whatever text of at most 20 bytes `vsnprintf` prints for the `int`s that loops pass to a `%lu`: if the
-- file can be opened, the names in the lines have at most 64 bytes, the string literals at most 1014 bytes,
-- none of them a terminator, and neither section has as many bytes as 50 times a power of two, then the file has the title
-- and the lines of each section that is not empty, each line with a newline behind it.
pub output-lines :
    (lu : ℕ → Bytes) (gen : Gen)
    → PrintsShort lu
    → AllNamesShort gen.buf_text
    → AllDataShort gen.buf_data
    → ¬ Full (length (joined (map data_line gen.buf_data)))
    → ¬ Full (length (joined (map (line lu) gen.buf_text)))
    → output lu true gen
      ≡ done (
          titled (codes "section .data\n") (joined (map data_line gen.buf_data))
          ++ titled (codes "section .text\n") (joined (map (line lu) gen.buf_text)))
unfolding output gen_write_to_file
output-lines lu gen short h d fd ft =
    let ds = data-AllTexts gen.buf_data d in
    let ls = lines-AllTexts lu short gen.buf_text h in
    rw (
      write_lines-joined (map data_line gen.buf_data) buffer_init ds,
      write_lines-joined (map (line lu) gen.buf_text) buffer_init ls,
      section-titled (codes "section .data\n") (joined (map data_line gen.buf_data))
          (joined-no_nul _ ds) fd,
      section-titled (codes "section .text\n") (joined (map (line lu) gen.buf_text))
          (joined-no_nul _ ls) ft,
    )

-- A section of lines that `format_line` leaves whole, and which fill a region of the buffer to the last
-- byte, is read past the end of the region.
pub section-overruns :
    (texts : List Bytes) (title : Bytes)
    → AllTexts texts
    → Full (length (joined texts))
    → (do buf ← write_lines texts buffer_init; section title buf) ≡ Outcome.undefined overrun
section-overruns texts title h f =
    let (len, whole, overruns) = buffer_append_str-prints (joined texts) (joined-no_nul texts h) in
    let test : (length (joined texts) == 0) ≡ false = ground (arith, Full-ge _ f) in
    rw (write_lines-joined texts buffer_init h, len, test, overruns f)

-- ===== src/Codegen/Output.antt =====
-- seronc/codegen.c: the text of the lines, and the file. `gen_write` and `gen_write_data` format a line
-- into an array of 1024 bytes and append it to a buffer; here the array and the buffers are made from
-- the lines that Codegen keeps. Whether the file can be opened is a parameter.
pub mod Lengths
pub mod Files
use seron.Prelude.{
  ℕ, ◌==◌, Bool, true, false, List, [], ◌∷◌, ◌++◌, Bytes, codes, if◌then◌else◌, ltb, length, take,
  map,
}
use seron.Outcome
use seron.Outcome.{Outcome, done, ◌>>=◌, overrun, cannot_open}
use seron.Buffer.{Buffer, buffer_init, buffer_append_str, read_string}
use seron.Asm.Text.{line, data_line}
use seron.Codegen.{Gen}

-- `vsnprintf` into the array, which cuts the text, and `strcat` of a newline, which needs room for two
-- bytes behind it: if the text fills the array, the newline takes the place of the terminator in the last
-- byte, and the terminator lands behind the array.
unfoldable pub format_line : Bytes → Outcome Bytes
format_line text =
    let cut = take 1023 text in
    if ltb (length cut) 1023 then done (cut ++ b'\n' ∷ []) else Outcome.undefined overrun

-- The calls of `gen_write` or `gen_write_data` for texts.
unfoldable pub write_lines : List Bytes → Buffer → Outcome Buffer
write_lines [] buf = done buf
write_lines (text ∷ texts) buf = do
  formatted ← format_line text
  write_lines texts (buffer_append_str buf formatted)

abbrev pub section : Bytes → Buffer → Outcome Bytes
section title buf =
    if buf.len == 0 then done [] else do text ← read_string buf.items; done (title ++ text)

unfoldable pub gen_write_to_file : Bool → Buffer → Buffer → Outcome Bytes
gen_write_to_file false buf_data buf_text = Outcome.exit cannot_open
gen_write_to_file true buf_data buf_text = do
  first ← section (codes "section .data\n") buf_data
  second ← section (codes "section .text\n") buf_text
  done (first ++ second)

-- The file for the lines of `codegen`; `lu` is the parameter of `line`.
unfoldable pub output : (ℕ → Bytes) → Bool → Gen → Outcome Bytes
output lu opened gen = do
  buf_data ← write_lines (map data_line gen.buf_data) buffer_init
  buf_text ← write_lines (map (line lu) gen.buf_text) buffer_init
  gen_write_to_file opened buf_data buf_text

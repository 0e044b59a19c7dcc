-- ===== src/Tests/Emitting.antt =====
-- The theorems on the code generator, on small programs.
use seron.Prelude.{
  ℕ, ◌≤◌, ◌<◌, ◌≡◌, refl, true, List, [], ◌∷◌, ◌++◌, none, Bytes, codes, map, replicate, arith,
}
use seron.Outcome.{done, undefined, overrun, ◌>>=◌}
use seron.Token.{Token, fresh, number_int}
use seron.Ast.{
  Node, literal, number_literal, block, if_stmt, while_stmt, return_stmt, nil, cons, null,
  some_node,
}
use seron.Asm
use seron.Asm.{
  Instr, DataLine, Sub, while_label, cond_label, else_label, end_label, width_of, dword, rax,
}
use seron.Asm.Text.{line, data_line, digits, percent_d, name}
use seron.Buffer.{buffer_init, buffer_append_str, read_string, no_nul}
use seron.Buffer.Prints.{Full, Full-ge, buffer_append_str-prints}
use seron.Codegen
use seron.Codegen.{Gen, gen_init, emit, codegen}
use seron.Codegen.Labels.{definitions, uses}
use seron.Codegen.Labels.Walk.{codegen-labels}
use seron.Codegen.Output.{format_line, write_lines, section, output}
use seron.Codegen.Output.Lengths.{PrintsShort, IsText-le, percent_d-IsText}
use seron.Codegen.Output.Files.{format_line-db, output-lines, section-overruns, joined, titled}

abbrev count_token : ℕ → Token
count_token n = record (fresh 0) { number = n; number_type = number_int }

abbrev one : Node
one = literal (count_token 1) number_literal

-- while 1 { if 1 { return 1; } }
abbrev looping : Node
looping = while_stmt (fresh 0) one (
    block
      (cons
        (if_stmt (fresh 0) one (block (cons (return_stmt (fresh 0) (some_node one)) nil) none) null)
        nil)
      none)

abbrev eax : Sub
eax = record { reg = rax; width = dword }

abbrev mov_one : Instr
mov_one = Asm.mov_imm eax 1

abbrev looping_code : List Instr
looping_code =
    Asm.jmp cond_label 0
    ∷ Asm.label while_label 0
    ∷ mov_one
    ∷ Asm.cmp_zero eax
    ∷ Asm.je else_label 1
    ∷ mov_one
    ∷ Asm.jmp_return
    ∷ Asm.jmp end_label 1
    ∷ Asm.label else_label 1
    ∷ Asm.label end_label 1
    ∷ Asm.label cond_label 0
    ∷ mov_one
    ∷ Asm.cmp_zero eax
    ∷ Asm.jne while_label 0
    ∷ []

looping_run :
    codegen [] looping ≡ done (record gen_init { buf_text = looping_code; label_count = 2 })
unfolding codegen emit Codegen.emit_list Codegen.emit_maybe Codegen.literal
    Codegen.type_from_token_literal Asm.subregister width_of
looping_run = refl

codegen-labels_example :
    (definitions while_label 0 looping_code ≤ 1)
    × (1 ≤ uses while_label 0 looping_code → (definitions while_label 0 looping_code ≡ 1) × (0 < 2))
codegen-labels_example = codegen-labels [] looping looping_run while_label 0

-- Labels printed like other numbers.
abbrev decimal_of : ℕ → Bytes
decimal_of n = percent_d n

decimal_of-PrintsShort : PrintsShort decimal_of
decimal_of-PrintsShort n = IsText-le (omega arith) (percent_d-IsText n)

looping_text :
    joined (map (line decimal_of) looping_code)
    ≡ codes
        "jmp .cond0\n.while0:\nmov eax, 1\ncmp eax, 0\nje .else1\nmov eax, 1\njmp .return\njmp .end1\n.else1:\n.end1:\n.cond0:\nmov eax, 1\ncmp eax, 0\njne .while0\n"
unfolding joined line percent_d digits name
looping_text = refl

buffer_append_str-prints_example :
    ((buffer_append_str buffer_init (codes "ret\n")).len ≡ 4)
    × (1 ≤ 4
        → ¬ Full 4
        → read_string (buffer_append_str buffer_init (codes "ret\n")).items ≡ done (codes "ret\n"))
    × (Full 4
        → read_string (buffer_append_str buffer_init (codes "ret\n")).items ≡ undefined overrun)
unfolding no_nul
buffer_append_str-prints_example = buffer_append_str-prints (codes "ret\n") refl

format_line-db_example :
    format_line (data_line (Asm.db (codes "hi")))
    ≡ done (data_line (Asm.db (codes "hi")) ++ b'\n' ∷ [])
format_line-db_example = format_line-db (codes "hi")

-- A program that prints nothing but a string.
abbrev greeting : Gen
greeting = record gen_init {
  buf_text = Asm.mov_string 0 ∷ [];
  buf_data = Asm.string_label 0 ∷ Asm.db (codes "hi") ∷ [];
}

not-Full : (n : ℕ) → n < 50 → ¬ Full n
not-Full n h f = omega (arith, h, Full-ge n f)

output-lines_example :
    output decimal_of true greeting
    ≡ done (
        titled (codes "section .data\n") (joined (map data_line greeting.buf_data))
        ++ titled (codes "section .text\n") (joined (map (line decimal_of) greeting.buf_text)))
unfolding no_nul joined line data_line percent_d digits
output-lines_example =
    output-lines decimal_of greeting decimal_of-PrintsShort (tt, tt)
      (tt, (record { short = omega arith; plain = refl }, tt)) (not-Full _ (omega arith))
      (not-Full _ (omega arith))

-- One line of 49 bytes.
abbrev wide : List Bytes
wide = replicate 49 b'x' ∷ []

section-overruns_example :
    (do buf ← write_lines wide buffer_init; section (codes "section .text\n") buf)
    ≡ undefined overrun
unfolding no_nul joined
section-overruns_example =
    section-overruns wide (codes "section .text\n")
      (record { short = omega arith; plain = refl }, tt) (0, refl)

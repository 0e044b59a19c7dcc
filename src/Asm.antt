-- ===== src/Asm.antt =====
-- The registers and the lines of assembly that seronc/codegen.c writes.
pub mod Text
use seron.Prelude.{ℕ, ◌==◌, Bool, Bytes, codes, ltb, if◌then◌else◌, Option, none, some}
use seron.Outcome.{Outcome, done, panic, ◌>>=◌}
use seron.Types.{TypeKind}

pub data Register : Type 0 where
  invalid rax rdi rsi rdx rcx r8 r9 : Register

-- How much of a register an operand names.
pub data Width : Type 0 where
  byte dword qword : Width

-- An operand such as `eax`.
pub record Sub : Type 0 where
  pub reg : Register
  pub width : Width

-- The inner `switch` of `subregister`, which is the same for each register.
unfoldable pub width_of : TypeKind → Outcome Width
width_of TypeKind.procedure = done qword
width_of TypeKind.long = done qword
width_of TypeKind.object = done qword
width_of TypeKind.pointer = done qword
width_of TypeKind.int = done dword
width_of TypeKind.char = done byte
width_of TypeKind.invalid = panic
width_of TypeKind.void = panic
width_of TypeKind.table = panic

unfoldable pub subregister : Register → TypeKind → Outcome Sub
subregister Register.invalid type = panic
subregister reg type = do width ← width_of type; done (record { reg = reg; width = width })

-- `registers[argnum]`, behind the tests.
unfoldable pub abi_register : ℕ → Outcome Register
abi_register argnum =
    if argnum == 0
    then panic
    else if ltb 6 argnum
    then done Register.invalid
    else if argnum == 1
    then done rdi
    else if argnum == 2
    then done rsi
    else if argnum == 3
    then done rdx
    else if argnum == 4
    then done rcx
    else if argnum == 5
    then done r8
    else done r9

-- NULL for an argument that goes on the stack.
abbrev pub reg_or_null : TypeKind → Register → Outcome (Option Sub)
reg_or_null type Register.invalid = done none
reg_or_null type reg = do sub ← subregister reg type; done (some sub)

unfoldable pub abi_register_str : ℕ → TypeKind → Outcome (Option Sub)
abi_register_str argnum type = do reg ← abi_register argnum; reg_or_null type reg

unfoldable pub size_op : TypeKind → Outcome Bytes
size_op TypeKind.pointer = done (codes "qword")
size_op TypeKind.long = done (codes "qword")
size_op TypeKind.int = done (codes "dword")
size_op TypeKind.char = done (codes "byte")
size_op _ = panic

-- The conditions of `set`, in the order of the source.
pub data Cond : Type 0 where
  e ne g ge l le : Cond

pub data Alu : Type 0 where
  add sub or and cmp : Alu

-- `.else%d`, `.end%d`, `.while%d` and `.cond%d`.
pub data LabelKind : Type 0 where
  else_label end_label while_label cond_label : LabelKind

-- The lines of the section `.text`. A number is what the program passes for the `%d` of a format.
pub data Instr : Type 0 where
  push_rax pop_rax pop_rdi push_rbp pop_rbp mov_rbp_rsp mov_rsp_rbp : Instr
  sub_rsp : ℕ → Instr
  -- mov sub, sub
  mov_reg : Sub → Sub → Instr
  -- mov sub, [rbp+n]
  load_arg : Sub → ℕ → Instr
  -- mov sub, [rbp-n]
  load_local : Sub → ℕ → Instr
  -- mov [rbp-n], sub, with the text of a comment
  store_local : ℕ → Sub → Bytes → Instr
  -- mov sub, [rax]
  load_rax : Sub → Instr
  -- mov [rdi], sub
  store_rdi : Sub → Instr
  -- lea rax, [rbp-n]
  lea_local : ℕ → Instr
  mov_imm : Sub → ℕ → Instr
  -- mov rax, name
  mov_name : Bytes → Instr
  -- mov rax, string_n
  mov_string : ℕ → Instr
  alu : Alu → Sub → Sub → Instr
  imul idiv : Sub → Instr
  -- imul sub, n
  imul_imm : Sub → ℕ → Instr
  -- imul sub, -1
  imul_minus : Sub → Instr
  -- cmp sub, 0
  cmp_zero : Sub → Instr
  set : Cond → Sub → Instr
  jmp je jne : LabelKind → ℕ → Instr
  label : LabelKind → ℕ → Instr
  jmp_return label_return call_rax ret : Instr
  extern global entry : Bytes → Instr

-- The lines of the section `.data`: `string_%d:`, and `db "%s", 0`.
pub data DataLine : Type 0 where
  string_label : ℕ → DataLine
  db : Bytes → DataLine

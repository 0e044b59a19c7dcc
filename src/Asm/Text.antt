-- ===== src/Asm/Text.antt =====
-- The text of a line: the formats of the calls of `gen_write` and `gen_write_data`.
use seron.Prelude.{
  ℕ, zero, suc, ◌+◌, ◌-◌, ◌/◌, ◌%◌, ◌^◌, ltb, if◌then◌else◌, [], ◌∷◌, ◌++◌, Bytes, codes,
}
use seron.Asm.{
  Register, rax, rdi, rsi, rdx, rcx, r8, r9, Width, byte, dword, qword, Sub, Cond, Alu, LabelKind,
  else_label, end_label, while_label, cond_label, Instr, DataLine,
}
use seron.Asm

-- The digits of a number in front of a text, with fuel for the digits.
unfoldable pub digits : ℕ → ℕ → Bytes → Bytes
digits zero n rest = rest
digits (suc fuel) n rest =
    let shown = (b'0' + n % 10) ∷ rest in
    let more = digits fuel (n / 10) shown in if ltb n 10 then shown else more

-- `%d` of a number: its low 32 bits, read as an `int`, which has ten digits at most. For the `int64_t` of a
-- literal and the `size_t` behind an array C leaves the conversion undefined; this is what the calling
-- convention of x86-64 makes of it.
unfoldable pub percent_d : ℕ → Bytes
percent_d n =
    let low = n % 2 ^ 32 in
    if ltb low (2 ^ 31) then digits 10 low [] else b'-' ∷ digits 10 (2 ^ 32 - low) []

-- The strings of `subregister`.
unfoldable pub name : Sub → Bytes
name s = elim s.width [
  | qword ↦ elim s.reg [
    | Register.invalid ↦ []
    | rax ↦ codes "rax"
    | rdi ↦ codes "rdi"
    | rsi ↦ codes "rsi"
    | rdx ↦ codes "rdx"
    | rcx ↦ codes "rcx"
    | r8 ↦ codes "r8"
    | r9 ↦ codes "r9"
  ]
  | dword ↦ elim s.reg [
    | Register.invalid ↦ []
    | rax ↦ codes "eax"
    | rdi ↦ codes "edi"
    | rsi ↦ codes "esi"
    | rdx ↦ codes "edx"
    | rcx ↦ codes "ecx"
    | r8 ↦ codes "r8d"
    | r9 ↦ codes "r9d"
  ]
  | byte ↦ elim s.reg [
    | Register.invalid ↦ []
    | rax ↦ codes "al"
    | rdi ↦ codes "dil"
    | rsi ↦ codes "sil"
    | rdx ↦ codes "dl"
    | rcx ↦ codes "cl"
    | r8 ↦ codes "r8b"
    | r9 ↦ codes "r9b"
  ]
]

abbrev pub label_name : LabelKind → Bytes
label_name else_label = codes ".else"
label_name end_label = codes ".end"
label_name while_label = codes ".while"
label_name cond_label = codes ".cond"

abbrev pub mnemonic : Alu → Bytes
mnemonic Alu.add = codes "add "
mnemonic Alu.sub = codes "sub "
mnemonic Alu.or = codes "or "
mnemonic Alu.and = codes "and "
mnemonic Alu.cmp = codes "cmp "

abbrev pub set_mnemonic : Cond → Bytes
set_mnemonic Cond.e = codes "sete "
set_mnemonic Cond.ne = codes "setne "
set_mnemonic Cond.g = codes "setg "
set_mnemonic Cond.ge = codes "setge "
set_mnemonic Cond.l = codes "setl "
set_mnemonic Cond.le = codes "setle "

abbrev pub below_rbp : ℕ → Bytes
below_rbp n = codes "[rbp-" ++ (percent_d n ++ codes "]")

-- The number of a label where it is defined.
abbrev pub label_number : (ℕ → Bytes) → LabelKind → ℕ → Bytes
label_number lu else_label n = percent_d n
label_number lu end_label n = percent_d n
label_number lu while_label n = percent_d n
label_number lu cond_label n = lu n

-- The texts, where `lu` is what `vsnprintf` prints for the `int` that two calls of `while_` pass to a
-- `%lu`: C leaves it undefined, so it is a parameter.
unfoldable pub line : (ℕ → Bytes) → Instr → Bytes
line lu Asm.push_rax = codes "push rax"
line lu Asm.pop_rax = codes "pop rax"
line lu Asm.pop_rdi = codes "pop rdi"
line lu Asm.push_rbp = codes "push rbp"
line lu Asm.pop_rbp = codes "pop rbp"
line lu Asm.mov_rbp_rsp = codes "mov rbp, rsp"
line lu Asm.mov_rsp_rbp = codes "mov rsp, rbp"
line lu (Asm.sub_rsp n) = codes "sub rsp, " ++ percent_d n
line lu (Asm.mov_reg a b) = codes "mov " ++ (name a ++ (codes ", " ++ name b))
line lu (Asm.load_arg a n) =
    codes "mov " ++ (name a ++ (codes ", [rbp+" ++ (percent_d n ++ codes "]")))
line lu (Asm.load_local a n) = codes "mov " ++ (name a ++ (codes ", " ++ below_rbp n))
line lu (Asm.store_local n a text) =
    codes "mov " ++ (below_rbp n ++ (codes ", " ++ (name a ++ text)))
line lu (Asm.load_rax a) = codes "mov " ++ (name a ++ codes ", [rax]")
line lu (Asm.store_rdi a) = codes "mov [rdi], " ++ name a
line lu (Asm.lea_local n) = codes "lea rax, " ++ below_rbp n
line lu (Asm.mov_imm a n) = codes "mov " ++ (name a ++ (codes ", " ++ percent_d n))
line lu (Asm.mov_name text) = codes "mov rax, " ++ text
line lu (Asm.mov_string n) = codes "mov rax, string_" ++ percent_d n
line lu (Asm.alu op a b) = mnemonic op ++ (name a ++ (codes ", " ++ name b))
line lu (Asm.imul a) = codes "imul " ++ name a
line lu (Asm.idiv a) = codes "idiv " ++ name a
line lu (Asm.imul_imm a n) = codes "imul " ++ (name a ++ (codes ", " ++ percent_d n))
line lu (Asm.imul_minus a) = codes "imul " ++ (name a ++ codes ", -1")
line lu (Asm.cmp_zero a) = codes "cmp " ++ (name a ++ codes ", 0")
line lu (Asm.set c a) = set_mnemonic c ++ name a
line lu (Asm.jmp kind n) = codes "jmp " ++ (label_name kind ++ percent_d n)
line lu (Asm.je kind n) = codes "je " ++ (label_name kind ++ percent_d n)
line lu (Asm.jne kind n) = codes "jne " ++ (label_name kind ++ lu n)
line lu (Asm.label kind n) = label_name kind ++ (label_number lu kind n ++ codes ":")
line lu Asm.jmp_return = codes "jmp .return"
line lu Asm.label_return = codes ".return:"
line lu Asm.call_rax = codes "call rax"
line lu Asm.ret = codes "ret"
line lu (Asm.extern text) = codes "extern " ++ text
line lu (Asm.global text) = codes "global " ++ text
line lu (Asm.entry text) = text ++ codes ":"

unfoldable pub data_line : DataLine → Bytes
data_line (Asm.string_label n) = codes "string_" ++ (percent_d n ++ codes ":")
data_line (Asm.db text) = codes "db \"" ++ (text ++ codes "\", 0")

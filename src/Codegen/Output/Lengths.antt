-- ===== src/Codegen/Output/Lengths.antt =====
-- How long the lines of seronc/codegen.c get.
use seron.Prelude.{
  ℕ, zero, suc, ◌+◌, ◌-◌, ◌≤◌, ◌/◌, ◌%◌, ◌^◌, ◌≡◌, refl, [], ◌∷◌, ◌++◌, Bytes, true, codes, length,
  length-append, arith, ltb, Bool-cases, inl, inr,
}
use seron.Buffer.{no_nul}
use seron.Buffer.Prints.{no_nul-append}
use seron.Asm
use seron.Asm.{
  Register, rax, rdi, rsi, rdx, rcx, r8, r9, Width, byte, dword, qword, Sub, Instr, Alu, Cond,
  LabelKind,
}
use seron.Asm.Text.{
  label_number, digits, percent_d, name, line, below_rbp, mnemonic, set_mnemonic, label_name,
}

-- A text of at most `n` bytes and no terminator.
pub record IsText (n : ℕ) (text : Bytes) : Type 0 where
  pub short : length text ≤ n
  pub plain : no_nul text ≡ true

pub IsText-append : {m n : ℕ} {a b : Bytes} → IsText m a → IsText n b → IsText (m + n) (a ++ b)
IsText-append {a} {b} h k = record {
  short = omega (arith, h.short, k.short, length-append a b);
  plain = no_nul-append a b h.plain k.plain;
}

pub IsText-le : {m n : ℕ} {a : Bytes} → m ≤ n → IsText m a → IsText n a
IsText-le e h = record { short = omega (arith, h.short); plain = h.plain }

IsText-cons : {n : ℕ} {a : Bytes} (c : ℕ) → 1 ≤ c → IsText n a → IsText (n + 1) (c ∷ a)
unfolding no_nul
IsText-cons zero e h = absurd (omega arith)
IsText-cons (suc c) e h = record { short = omega (arith, h.short); plain = h.plain }

digits-IsText :
    (fuel n m : ℕ) (rest : Bytes) → IsText m rest → IsText (fuel + m) (digits fuel n rest)
unfolding digits no_nul
digits-IsText zero n m rest h = IsText-le (omega arith) h
digits-IsText (suc fuel) n m rest h =
    let shown = IsText-cons (48 + n % 10) (omega arith) h in
    elim (Bool-cases (ltb n 10)) [
      | inl e ↦ rw e (IsText-le (omega arith) shown)
      | inr e ↦ rw e (IsText-le (omega arith) (digits-IsText fuel (n / 10) _ _ shown))
    ]

empty : IsText 0 []
unfolding no_nul
empty = record { short = omega arith; plain = refl }

pub percent_d-IsText : (n : ℕ) → IsText 11 (percent_d n)
unfolding percent_d
percent_d-IsText n = elim (Bool-cases (ltb (n % 2 ^ 32) (2 ^ 31))) [
  | inl e ↦ rw e (IsText-le (omega arith) (digits-IsText 10 (n % 2 ^ 32) 0 [] empty))
  | inr e ↦ rw e (IsText-cons 45 (omega arith) (digits-IsText 10 (2 ^ 32 - n % 2 ^ 32) 0 [] empty))
]

name-IsText : (r : Register) (w : Width) → IsText 4 (name (record { reg = r; width = w }))
unfolding name no_nul
name-IsText Register.invalid byte = record { short = omega arith; plain = refl }
name-IsText rax byte = record { short = omega arith; plain = refl }
name-IsText rdi byte = record { short = omega arith; plain = refl }
name-IsText rsi byte = record { short = omega arith; plain = refl }
name-IsText rdx byte = record { short = omega arith; plain = refl }
name-IsText rcx byte = record { short = omega arith; plain = refl }
name-IsText r8 byte = record { short = omega arith; plain = refl }
name-IsText r9 byte = record { short = omega arith; plain = refl }
name-IsText Register.invalid dword = record { short = omega arith; plain = refl }
name-IsText rax dword = record { short = omega arith; plain = refl }
name-IsText rdi dword = record { short = omega arith; plain = refl }
name-IsText rsi dword = record { short = omega arith; plain = refl }
name-IsText rdx dword = record { short = omega arith; plain = refl }
name-IsText rcx dword = record { short = omega arith; plain = refl }
name-IsText r8 dword = record { short = omega arith; plain = refl }
name-IsText r9 dword = record { short = omega arith; plain = refl }
name-IsText Register.invalid qword = record { short = omega arith; plain = refl }
name-IsText rax qword = record { short = omega arith; plain = refl }
name-IsText rdi qword = record { short = omega arith; plain = refl }
name-IsText rsi qword = record { short = omega arith; plain = refl }
name-IsText rdx qword = record { short = omega arith; plain = refl }
name-IsText rcx qword = record { short = omega arith; plain = refl }
name-IsText r8 qword = record { short = omega arith; plain = refl }
name-IsText r9 qword = record { short = omega arith; plain = refl }

sub-IsText : (s : Sub) → IsText 4 (name s)
sub-IsText s = name-IsText s.reg s.width

-- The names in a line: those of procedures, and that in the comment of a store.
abbrev pub NamesShort : Instr → Type 0
NamesShort (Asm.store_local n s text) = IsText 67 text
NamesShort (Asm.mov_name text) = IsText 64 text
NamesShort (Asm.extern text) = IsText 64 text
NamesShort (Asm.global text) = IsText 64 text
NamesShort (Asm.entry text) = IsText 64 text
NamesShort _ = Unit

pub literal-IsText : (t : Bytes) → no_nul t ≡ true → IsText (length t) t
literal-IsText t h = record { short = omega arith; plain = h }

below_rbp-IsText : (n : ℕ) → IsText 17 (below_rbp n)
unfolding no_nul
below_rbp-IsText n =
    IsText-append (literal-IsText (codes "[rbp-") refl)
      (IsText-append (percent_d-IsText n) (literal-IsText (codes "]") refl))

mnemonic-IsText : (op : Alu) → IsText 4 (mnemonic op)
unfolding no_nul
mnemonic-IsText Alu.add = record { short = omega arith; plain = refl }
mnemonic-IsText Alu.sub = record { short = omega arith; plain = refl }
mnemonic-IsText Alu.or = record { short = omega arith; plain = refl }
mnemonic-IsText Alu.and = record { short = omega arith; plain = refl }
mnemonic-IsText Alu.cmp = record { short = omega arith; plain = refl }

set_mnemonic-IsText : (c : Cond) → IsText 6 (set_mnemonic c)
unfolding no_nul
set_mnemonic-IsText Cond.e = record { short = omega arith; plain = refl }
set_mnemonic-IsText Cond.ne = record { short = omega arith; plain = refl }
set_mnemonic-IsText Cond.g = record { short = omega arith; plain = refl }
set_mnemonic-IsText Cond.ge = record { short = omega arith; plain = refl }
set_mnemonic-IsText Cond.l = record { short = omega arith; plain = refl }
set_mnemonic-IsText Cond.le = record { short = omega arith; plain = refl }

label_name-IsText : (k : LabelKind) → IsText 6 (label_name k)
unfolding no_nul
label_name-IsText LabelKind.else_label = record { short = omega arith; plain = refl }
label_name-IsText LabelKind.end_label = record { short = omega arith; plain = refl }
label_name-IsText LabelKind.while_label = record { short = omega arith; plain = refl }
label_name-IsText LabelKind.cond_label = record { short = omega arith; plain = refl }

numbered-IsText : (k : LabelKind) (n : ℕ) → IsText 17 (label_name k ++ percent_d n)
numbered-IsText k n = IsText-append (label_name-IsText k) (percent_d-IsText n)

-- The parameter of `line` prints no terminator and at most the digits of an `unsigned long`.
abbrev pub PrintsShort : (ℕ → Bytes) → Type 0
PrintsShort lu = (n : ℕ) → IsText 20 (lu n)

label_number-IsText :
    (lu : ℕ → Bytes) (k : LabelKind) (n : ℕ) → PrintsShort lu → IsText 20 (label_number lu k n)
label_number-IsText lu LabelKind.else_label n h = IsText-le (omega arith) (percent_d-IsText n)
label_number-IsText lu LabelKind.end_label n h = IsText-le (omega arith) (percent_d-IsText n)
label_number-IsText lu LabelKind.while_label n h = IsText-le (omega arith) (percent_d-IsText n)
label_number-IsText lu LabelKind.cond_label n h = h n

pub line-IsText :
    (lu : ℕ → Bytes) → PrintsShort lu → (i : Instr) → NamesShort i → IsText 100 (line lu i)
unfolding line no_nul
line-IsText lu short Asm.push_rax h =
    IsText-le (omega arith) (literal-IsText (codes "push rax") refl)
line-IsText lu short Asm.pop_rax h = IsText-le (omega arith) (literal-IsText (codes "pop rax") refl)
line-IsText lu short Asm.pop_rdi h = IsText-le (omega arith) (literal-IsText (codes "pop rdi") refl)
line-IsText lu short Asm.push_rbp h =
    IsText-le (omega arith) (literal-IsText (codes "push rbp") refl)
line-IsText lu short Asm.pop_rbp h = IsText-le (omega arith) (literal-IsText (codes "pop rbp") refl)
line-IsText lu short Asm.mov_rbp_rsp h =
    IsText-le (omega arith) (literal-IsText (codes "mov rbp, rsp") refl)
line-IsText lu short Asm.mov_rsp_rbp h =
    IsText-le (omega arith) (literal-IsText (codes "mov rsp, rbp") refl)
line-IsText lu short (Asm.sub_rsp n) h =
    IsText-le (omega arith)
      (IsText-append (literal-IsText (codes "sub rsp, ") refl) (percent_d-IsText n))
line-IsText lu short (Asm.mov_reg a b) h = IsText-le (omega arith) (
    IsText-append (literal-IsText (codes "mov ") refl) (
      IsText-append (sub-IsText a)
        (IsText-append (literal-IsText (codes ", ") refl) (sub-IsText b))))
line-IsText lu short (Asm.load_arg a n) h = IsText-le (omega arith) (
    IsText-append (literal-IsText (codes "mov ") refl) (
      IsText-append (sub-IsText a) (
        IsText-append (literal-IsText (codes ", [rbp+") refl)
          (IsText-append (percent_d-IsText n) (literal-IsText (codes "]") refl)))))
line-IsText lu short (Asm.load_local a n) h = IsText-le (omega arith) (
    IsText-append (literal-IsText (codes "mov ") refl) (
      IsText-append (sub-IsText a)
        (IsText-append (literal-IsText (codes ", ") refl) (below_rbp-IsText n))))
line-IsText lu short (Asm.store_local n a t) h = IsText-le (omega arith) (
    IsText-append (literal-IsText (codes "mov ") refl) (
      IsText-append (below_rbp-IsText n)
        (IsText-append (literal-IsText (codes ", ") refl) (IsText-append (sub-IsText a) h))))
line-IsText lu short (Asm.load_rax a) h = IsText-le (omega arith) (
    IsText-append (literal-IsText (codes "mov ") refl)
      (IsText-append (sub-IsText a) (literal-IsText (codes ", [rax]") refl)))
line-IsText lu short (Asm.store_rdi a) h =
    IsText-le (omega arith)
      (IsText-append (literal-IsText (codes "mov [rdi], ") refl) (sub-IsText a))
line-IsText lu short (Asm.lea_local n) h =
    IsText-le (omega arith)
      (IsText-append (literal-IsText (codes "lea rax, ") refl) (below_rbp-IsText n))
line-IsText lu short (Asm.mov_imm a n) h = IsText-le (omega arith) (
    IsText-append (literal-IsText (codes "mov ") refl) (
      IsText-append (sub-IsText a)
        (IsText-append (literal-IsText (codes ", ") refl) (percent_d-IsText n))))
line-IsText lu short (Asm.mov_name t) h =
    IsText-le (omega arith) (IsText-append (literal-IsText (codes "mov rax, ") refl) h)
line-IsText lu short (Asm.mov_string n) h =
    IsText-le (omega arith)
      (IsText-append (literal-IsText (codes "mov rax, string_") refl) (percent_d-IsText n))
line-IsText lu short (Asm.alu op a b) h = IsText-le (omega arith) (
    IsText-append (mnemonic-IsText op) (
      IsText-append (sub-IsText a)
        (IsText-append (literal-IsText (codes ", ") refl) (sub-IsText b))))
line-IsText lu short (Asm.imul a) h =
    IsText-le (omega arith) (IsText-append (literal-IsText (codes "imul ") refl) (sub-IsText a))
line-IsText lu short (Asm.idiv a) h =
    IsText-le (omega arith) (IsText-append (literal-IsText (codes "idiv ") refl) (sub-IsText a))
line-IsText lu short (Asm.imul_imm a n) h = IsText-le (omega arith) (
    IsText-append (literal-IsText (codes "imul ") refl) (
      IsText-append (sub-IsText a)
        (IsText-append (literal-IsText (codes ", ") refl) (percent_d-IsText n))))
line-IsText lu short (Asm.imul_minus a) h = IsText-le (omega arith) (
    IsText-append (literal-IsText (codes "imul ") refl)
      (IsText-append (sub-IsText a) (literal-IsText (codes ", -1") refl)))
line-IsText lu short (Asm.cmp_zero a) h = IsText-le (omega arith) (
    IsText-append (literal-IsText (codes "cmp ") refl)
      (IsText-append (sub-IsText a) (literal-IsText (codes ", 0") refl)))
line-IsText lu short (Asm.set c a) h =
    IsText-le (omega arith) (IsText-append (set_mnemonic-IsText c) (sub-IsText a))
line-IsText lu short (Asm.jmp k n) h =
    IsText-le (omega arith)
      (IsText-append (literal-IsText (codes "jmp ") refl) (numbered-IsText k n))
line-IsText lu short (Asm.je k n) h =
    IsText-le (omega arith)
      (IsText-append (literal-IsText (codes "je ") refl) (numbered-IsText k n))
line-IsText lu short (Asm.jne k n) h = IsText-le (omega arith) (
    IsText-append (literal-IsText (codes "jne ") refl)
      (IsText-append (label_name-IsText k) (short n)))
line-IsText lu short (Asm.label k n) h = IsText-le (omega arith) (
    IsText-append (label_name-IsText k)
      (IsText-append (label_number-IsText lu k n short) (literal-IsText (codes ":") refl)))
line-IsText lu short Asm.jmp_return h =
    IsText-le (omega arith) (literal-IsText (codes "jmp .return") refl)
line-IsText lu short Asm.label_return h =
    IsText-le (omega arith) (literal-IsText (codes ".return:") refl)
line-IsText lu short Asm.call_rax h =
    IsText-le (omega arith) (literal-IsText (codes "call rax") refl)
line-IsText lu short Asm.ret h = IsText-le (omega arith) (literal-IsText (codes "ret") refl)
line-IsText lu short (Asm.extern t) h =
    IsText-le (omega arith) (IsText-append (literal-IsText (codes "extern ") refl) h)
line-IsText lu short (Asm.global t) h =
    IsText-le (omega arith) (IsText-append (literal-IsText (codes "global ") refl) h)
line-IsText lu short (Asm.entry t) h =
    IsText-le (omega arith) (IsText-append h (literal-IsText (codes ":") refl))

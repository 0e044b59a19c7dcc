-- ===== src/Machine.antt =====
-- The x86-64 machine, as far as the lines that seronc/codegen.c writes for an expression need it: the
-- registers, the stack, the memory and the flags. A line that has no meaning here, because it moves
-- control, divides, or has operands that no instruction takes, gives `none`.
pub mod Memory
pub mod Words
pub mod Steps
use seron.Prelude.{
  ℕ, zero, suc, ◌+◌, ◌-◌, ◌*◌, ◌/◌, ◌%◌, ◌^◌, ◌==◌, bit_and, bit_or, Bool, true, false, not, ◌&&◌,
  ◌||◌, ltb, List, [], ◌∷◌, Option, none, some, if◌then◌else◌,
}
use seron.Asm
use seron.Asm.{
  Register, rax, rdi, rsi, rdx, rcx, r8, r9, Width, byte, dword, qword, Sub, Cond, Alu, Instr,
}

pub record Machine : Type 0 where
  pub regs : Register → ℕ
  pub rsp : ℕ
  pub rbp : ℕ
  pub memory : ℕ → ℕ
  -- the flags, as what the last comparison found
  pub equal : Bool
  pub less : Bool

abbrev pub modulus : Width → ℕ
modulus byte = 2 ^ 8
modulus dword = 2 ^ 32
modulus qword = 2 ^ 64

-- The first number that is read as a negative one.
abbrev pub half : Width → ℕ
half byte = 2 ^ 7
half dword = 2 ^ 31
half qword = 2 ^ 63

abbrev pub bytes_of : Width → ℕ
bytes_of byte = 1
bytes_of dword = 4
bytes_of qword = 8

abbrev register_number : Register → ℕ
register_number Register.invalid = 0
register_number rax = 1
register_number rdi = 2
register_number rsi = 3
register_number rdx = 4
register_number rcx = 5
register_number r8 = 6
register_number r9 = 7

-- A write of four bytes clears the rest of the register; a write of one keeps it.
unfoldable pub merged : Width → ℕ → ℕ → ℕ
merged byte old v = old - old % 2 ^ 8 + v % 2 ^ 8
merged dword old v = v % 2 ^ 32
merged qword old v = v % 2 ^ 64

unfoldable pub get : Sub → Machine → ℕ
get s m = m.regs s.reg % modulus s.width

abbrev pub set_register : Register → ℕ → Machine → Machine
set_register r v m = record m {
  regs = λ q. if register_number r == register_number q then v else m.regs q;
}

unfoldable pub put : Sub → ℕ → Machine → Machine
put s v m = set_register s.reg (merged s.width (m.regs s.reg) v) m

-- Little-endian loads and stores of a number of bytes.
unfoldable pub load : ℕ → (ℕ → ℕ) → ℕ → ℕ
load zero memory a = 0
load (suc n) memory a = memory a % 256 + 256 * load n memory (a + 1)

unfoldable pub store : ℕ → (ℕ → ℕ) → ℕ → ℕ → ℕ → ℕ
store zero memory a v x = memory x
store (suc n) memory a v x = if x == a then v % 256 else store n memory (a + 1) (v / 256) x

abbrev pub minus : ℕ → ℕ → ℕ
minus a n = (a + 2 ^ 64 - n) % 2 ^ 64

unfoldable pub push : ℕ → Machine → Machine
push v m = record m { rsp = minus m.rsp 8; memory = store 8 m.memory (minus m.rsp 8) v }

abbrev pub popped : Machine → Machine
popped m = record m { rsp = (m.rsp + 8) % 2 ^ 64 }

unfoldable pub pop : Register → Machine → Machine
pop r m = set_register r (load 8 m.memory m.rsp) (popped m)

-- The order of numbers that are read with a sign.
unfoldable pub below : Width → ℕ → ℕ → Bool
below w a b = ltb ((a + half w) % modulus w) ((b + half w) % modulus w)

unfoldable pub compared : Width → ℕ → ℕ → Machine → Machine
compared w a b m = record m { equal = a == b; less = below w a b }

-- What a condition asks of the flags.
abbrev pub holds : Cond → Bool → Bool → Bool
holds Cond.e equal less = equal
holds Cond.ne equal less = not equal
holds Cond.g equal less = not (equal || less)
holds Cond.ge equal less = not less
holds Cond.l equal less = less
holds Cond.le equal less = equal || less

abbrev pub truth : Bool → ℕ
truth true = 1
truth false = 0

-- A number with its sign carried on to twice the width.
abbrev pub wide : Width → ℕ → ℕ
wide w a = if ltb a (half w) then a else a + (modulus w * modulus w - modulus w)

abbrev pub high : Width → ℕ → ℕ → ℕ
high w a b = wide w a * wide w b % (modulus w * modulus w) / modulus w

-- The product of `rax` and an operand: its low half in `rax`, its high half in `rdx` or in `ah`.
unfoldable pub multiply : Width → ℕ → ℕ → Machine → Machine
multiply byte a b m =
    set_register rax (m.regs rax - m.regs rax % 2 ^ 16 + (high byte a b * 2 ^ 8 + a * b % 2 ^ 8)) m
multiply dword a b m = set_register rax (a * b % 2 ^ 32) (set_register rdx (high dword a b) m)
multiply qword a b m = set_register rax (a * b % 2 ^ 64) (set_register rdx (high qword a b) m)

abbrev pub same_width : Width → Width → Bool
same_width byte byte = true
same_width dword dword = true
same_width qword qword = true
same_width _ _ = false

abbrev pub operation : Alu → Sub → ℕ → ℕ → Machine → Machine
operation Alu.add s a b m = put s (a + b) m
operation Alu.sub s a b m = put s (a + modulus s.width - b) m
operation Alu.or s a b m = put s (bit_or a b) m
operation Alu.and s a b m = put s (bit_and a b) m
operation Alu.cmp s a b m = compared s.width a b m

-- The number that an assembler reads in a `%d`; it cuts it to the operand, as nasm does with a warning.
abbrev pub immediate : ℕ → ℕ
immediate n = let low = n % 2 ^ 32 in if ltb low (2 ^ 31) then low else low + (2 ^ 64 - 2 ^ 32)

abbrev set_byte : Width → Sub → ℕ → Machine → Option Machine
set_byte byte s v m = some (put s v m)
set_byte _ s v m = none

-- `imul` with a number takes no operand of one byte.
abbrev pub imul_takes : Width → Bool
imul_takes byte = false
imul_takes dword = true
imul_takes qword = true

unfoldable pub step : Instr → Machine → Option Machine
step Asm.push_rax m = some (push (m.regs rax) m)
step Asm.pop_rax m = some (pop rax m)
step Asm.pop_rdi m = some (pop rdi m)
step (Asm.mov_reg a b) m = if same_width a.width b.width then some (put a (get b m) m) else none
step (Asm.load_arg a n) m = some (put a (load (bytes_of a.width) m.memory ((m.rbp + n) % 2 ^ 64)) m)
step (Asm.load_local a n) m = some (put a (load (bytes_of a.width) m.memory (minus m.rbp n)) m)
step (Asm.store_local n a text) m =
    some (record m { memory = store (bytes_of a.width) m.memory (minus m.rbp n) (get a m) })
step (Asm.load_rax a) m = some (put a (load (bytes_of a.width) m.memory (m.regs rax % 2 ^ 64)) m)
step (Asm.store_rdi a) m =
    some (record m { memory = store (bytes_of a.width) m.memory (m.regs rdi % 2 ^ 64) (get a m) })
step (Asm.lea_local n) m = some (set_register rax (minus m.rbp n) m)
step (Asm.mov_imm a n) m = some (put a (immediate n) m)
step (Asm.alu op a b) m =
    if same_width a.width b.width then some (operation op a (get a m) (get b m) m) else none
step (Asm.imul a) m =
    some (multiply a.width (get (record { reg = rax; width = a.width }) m) (get a m) m)
step (Asm.imul_imm a n) m =
    if imul_takes a.width then some (put a (get a m * immediate n) m) else none
step (Asm.imul_minus a) m =
    if imul_takes a.width then some (put a (get a m * (modulus a.width - 1)) m) else none
step (Asm.cmp_zero a) m = some (compared a.width (get a m) 0 m)
step (Asm.set c a) m = set_byte a.width a (truth (holds c m.equal m.less)) m
step _ m = none

unfoldable pub run : List Instr → Machine → Option Machine
run [] m = some m
run (i ∷ code) m = elim (step i m) [ none ↦ none | some m' ↦ run code m' ]

-- ===== src/Values.antt =====
-- The values of expressions, apart from the code that seronc/codegen.c writes for them: a reference for
-- literals, variables, pointers and the operators but division, and but the negation of a `char`, for
-- which the code writes a line that is no instruction.
pub mod Operators
pub mod Frames
pub mod Parts
pub mod Compiled
pub mod Unary
pub mod Binary
pub mod Correct
use seron.Prelude.{
  ℕ, zero, suc, ◌+◌, ◌-◌, ◌*◌, ◌/◌, ◌%◌, ◌^◌, ◌≤◌, ◌<◌, ◌==◌, ◌≡◌, ◌⊎◌, bit_and, bit_or, Bool, true,
  false, not, ◌&&◌, ◌||◌, List, Option, none, some, Bytes, if◌then◌else◌,
}
use seron.Outcome.{done}
use seron.Token.{Token}
use seron.Types.{TypeKind, Ty, pointer_to, kind_of, same_kind, type_primitive_size}
use seron.Ast
use seron.Ast.{Node, BinOpKind, UnaryOpKind}
use seron.Hashtable.{Hashtable, Symbol, SymbolKind}
use seron.Asm.{Width, byte, dword, qword, width_of}
use seron.Machine.{imul_takes, modulus, bytes_of, load, below, immediate}
use seron.Machine.Words.{flagged}
use seron.Codegen.{type_from_token_literal, is_pointer, found}
use seron.Symboltable.{symboltable_lookup}

-- The value of an operator on numbers of a width. A comparison, and a logical operator, replaces the low
-- byte of what it leaves by 1 or 0. Division has no value here.
abbrev pub value : BinOpKind → Width → ℕ → ℕ → Option ℕ
value BinOpKind.add w a b = some ((a + b) % modulus w)
value BinOpKind.sub w a b = some ((a + modulus w - b) % modulus w)
value BinOpKind.mul w a b = some (a * b % modulus w)
value BinOpKind.div w a b = none
value BinOpKind.eq w a b = some (flagged a (a == b))
value BinOpKind.neq w a b = some (flagged a (not (a == b)))
value BinOpKind.gt w a b = some (flagged a (not (a == b || below w a b)))
value BinOpKind.gt_eq w a b = some (flagged a (not (below w a b)))
value BinOpKind.lt w a b = some (flagged a (below w a b))
value BinOpKind.lt_eq w a b = some (flagged a (a == b || below w a b))
value BinOpKind.bitwise_or w a b = some (bit_or a b % modulus w)
value BinOpKind.bitwise_and w a b = some (bit_and a b % modulus w)
value BinOpKind.log_or w a b = let c = bit_or a b % modulus w in some (flagged c (not (c == 0)))
value BinOpKind.log_and w a b = let c = bit_and a b % modulus w in some (flagged c (not (c == 0)))

-- A variable or a parameter of a scope.
pub record IsLocal (tables : List Hashtable) (scope : Option ℕ) (name : Bytes) (sym : Symbol)
    : Type 0 where
  pub resolves : found (symboltable_lookup tables scope name) ≡ done (some sym)
  pub local : (sym.kind ≡ SymbolKind.variable) ⊎ (sym.kind ≡ SymbolKind.parameter)

-- The frame that an expression is evaluated in: its variables lie below `rbp`, from `floor` on.
pub record Place : Type 0 where
  pub tables : List Hashtable
  pub scope : Option ℕ
  pub rbp : ℕ
  pub floor : ℕ
  pub memory : ℕ → ℕ

-- An address of `n` bytes of the frame.
pub record InFrame (p : Place) (offset : ℕ) : Type 0 where
  pub above : p.floor + offset ≤ p.rbp
  pub address : p.rbp < 2 ^ 64

-- `Means p e ty w v n`: in the frame, the expression has the type, whose width it is, and the value; to
-- evaluate it takes at most `n` words on the stack.
pub data Means (p : Place) : Node → Ty → Width → ℕ → ℕ → Type 0 where
  number :
      {op : Token} {w : Width}
      → width_of (kind_of (type_from_token_literal op.number_type)) ≡ done w
      → op.number < 2 ^ 31
      → Means p
          (Ast.literal op Ast.number_literal)
          (type_from_token_literal op.number_type)
          w
          (op.number % modulus w)
          0
  variable :
      {op : Token} {sym : Symbol} {w : Width}
      → IsLocal p.tables p.scope op.value sym
      → width_of (kind_of sym.ty) ≡ done w
      → InFrame p sym.offset
      → Means p
          (Ast.literal op Ast.ident_literal)
          sym.ty
          w
          (load (bytes_of w) p.memory (p.rbp - sym.offset))
          0
  address :
      {op t : Token} {sym : Symbol}
      → IsLocal p.tables p.scope t.value sym
      → InFrame p sym.offset
      → Means p
          (Ast.unaryop (Ast.literal t Ast.ident_literal) op Ast.addrof)
          (pointer_to sym.ty)
          qword
          (p.rbp - sym.offset)
          0
  group :
      {e : Node} {ty : Ty} {w : Width} {v n : ℕ}
      → Means p e ty w v n
      → Means p (Ast.grouping e) ty w v n
  negated :
      {e : Node} {op : Token} {ty : Ty} {w : Width} {v n : ℕ}
      → Means p e ty w v n
      → imul_takes w ≡ true
      → Means p (Ast.unaryop e op UnaryOpKind.minus) ty w ((modulus w - v) % modulus w) n
  inverted :
      {e : Node} {op : Token} {ty : Ty} {v n : ℕ}
      → Means p e ty byte v n
      → Means p (Ast.unaryop e op Ast.neg) ty byte (if v == 0 then 1 else 0) n
  pointed :
      {e : Node} {op : Token} {ty : Ty} {w : Width} {a n : ℕ}
      → Means p e (pointer_to ty) qword a n
      → width_of (kind_of ty) ≡ done w
      → p.floor ≤ a
      → Means p (Ast.unaryop e op Ast.deref) ty w (load (bytes_of w) p.memory a) n
  operation :
      {l r : Node} {op : Token} {kind : BinOpKind} {tl tr : Ty} {w : Width} {a b v m n : ℕ}
      → Means p r tr w b n
      → Means p l tl w a m
      → same_kind (kind_of tr) (kind_of tl) ≡ true
      → value kind w a b ≡ some v
      → Means p (Ast.binop l r op kind) (if is_pointer tr then tr else tl) w v (m + n + 1)
  moved :
      {l r : Node} {op : Token} {kind : BinOpKind} {ty tr : Ty} {a b size v m n : ℕ}
      → Means p r tr qword b n
      → Means p l (pointer_to ty) qword a m
      → is_pointer tr ≡ false
      → type_primitive_size (kind_of ty) ≡ done size
      → value kind qword a (b * size % 2 ^ 64) ≡ some v
      → Means p (Ast.binop l r op kind) (pointer_to ty) qword v (m + n + 1)

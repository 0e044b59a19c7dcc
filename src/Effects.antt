-- ===== src/Effects.antt =====
-- What statements without jumps do to the variables of a frame, apart from the code that
-- seronc/codegen.c writes for them: expressions, declarations, assignments of pointers, and blocks.
pub mod Stores
pub mod Correct
pub mod Refused
use seron.Prelude.{ℕ, ◌+◌, ◌-◌, ◌≡◌, true, Option}
use seron.Outcome.{done}
use seron.Token.{Token}
use seron.Types.{TypeKind, Ty, kind_of, same_kind}
use seron.Ast
use seron.Ast.{Node, Nodes, nil, cons, null, some_node}
use seron.Hashtable.{Symbol}
use seron.Asm.{Width, qword}
use seron.Machine.{bytes_of, store}
use seron.Values.{Place, Means, IsLocal, InFrame}

-- The frame with a number stored in it.
abbrev pub stored : Place → ℕ → Width → ℕ → Place
stored p offset w v = record p { memory = store (bytes_of w) p.memory (p.rbp - offset) v }

abbrev pub at_scope : Option ℕ → Place → Place
at_scope scope p = record p { scope = scope }

-- `Does p s p' n`: the statement takes the frame from `p` to `p'`, with at most `n` words on the stack.
mutual
  pub data Does : Place → Node → Place → ℕ → Type 0 where
    evaluated :
        {p : Place} {e : Node} {ty : Ty} {w : Width} {v n : ℕ} → Means p e ty w v n → Does p e p n
    bare :
        {p : Place} {op ident : Token} {ty : Ty} {offset : ℕ}
        → Does p (Ast.vardecl op ident null ty offset) p 0
    declared :
        {p : Place} {op ident : Token} {e : Node} {ty to : Ty} {w : Width} {offset v n : ℕ}
        → Means p e ty w v n
        → same_kind (kind_of to) (kind_of ty) ≡ true
        → InFrame p offset
        → Does p (Ast.vardecl op ident (some_node e) to offset) (stored p offset w v) n
    assigned :
        {p : Place} {op t : Token} {e : Node} {symbol : Symbol} {ty : Ty} {v n : ℕ}
        → IsLocal p.tables p.scope t.value symbol
        → InFrame p symbol.offset
        → Means p e ty qword v n
        → same_kind TypeKind.pointer (kind_of ty) ≡ true
        → Does p
            (Ast.assign op e (Ast.literal t Ast.ident_literal))
            (stored p symbol.offset qword v)
            (n + 1)
    blocked :
        {p p' : Place} {stmts : Nodes} {scope : Option ℕ} {n : ℕ}
        → DoesAll (at_scope scope p) stmts p' n
        → Does p (Ast.block stmts scope) (at_scope p.scope p') n

  pub data DoesAll : Place → Nodes → Place → ℕ → Type 0 where
    finished : {p : Place} → DoesAll p nil p 0
    followed :
        {p p1 p2 : Place} {s : Node} {ss : Nodes} {m n : ℕ}
        → Does p s p1 m
        → DoesAll p1 ss p2 n
        → DoesAll p (cons s ss) p2 (m + n)

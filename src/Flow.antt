-- ===== src/Flow.antt =====
-- What statements with branches and loops do to the variables of a frame, apart from the code that
-- seronc/codegen.c writes for them.
pub mod Suffixes
pub mod Emission
pub mod Arrivals
pub mod Places
pub mod Shapes
pub mod Segments
pub mod Correct
use seron.Prelude.{ℕ, ◌+◌, ◌==◌, ◌≡◌, true, false, Option}
use seron.Token.{Token}
use seron.Types.{Ty}
use seron.Ast
use seron.Ast.{Node, Nodes, nil, cons, MaybeNode, null, some_node}
use seron.Asm.{Width}
use seron.Values.{Place, Means}
use seron.Effects.{at_scope, Does}

-- `Executes p s p' n`: the statement takes the frame from `p` to `p'` and ends; `n` bounds the words on the
-- stack. A condition holds if its value is not 0.
mutual
  pub data Executes : Place → Node → Place → ℕ → Type 0 where
    straight : {p p' : Place} {s : Node} {n : ℕ} → Does p s p' n → Executes p s p' n
    nested :
        {p p' : Place} {stmts : Nodes} {scope : Option ℕ} {n : ℕ}
        → ExecutesAll (at_scope scope p) stmts p' n
        → Executes p (Ast.block stmts scope) (at_scope p.scope p') n
    taken :
        {p p' : Place} {op : Token} {c body : Node} {otherwise : MaybeNode} {ty : Ty} {w : Width}
        {v k n : ℕ}
        → Means p c ty w v k
        → (v == 0) ≡ false
        → Executes p body p' n
        → Executes p (Ast.if_stmt op c body otherwise) p' (k + n)
    skipped :
        {p p' : Place} {op : Token} {c body : Node} {otherwise : MaybeNode} {ty : Ty} {w : Width}
        {v k n : ℕ}
        → Means p c ty w v k
        → (v == 0) ≡ true
        → ExecutesMaybe p otherwise p' n
        → Executes p (Ast.if_stmt op c body otherwise) p' (k + n)
    looped :
        {p p' : Place} {op : Token} {c body : Node} {n : ℕ}
        → Loops p c body p' n
        → Executes p (Ast.while_stmt op c body) p' n

  pub data ExecutesAll : Place → Nodes → Place → ℕ → Type 0 where
    ended : {p : Place} → ExecutesAll p nil p 0
    chained :
        {p p1 p2 : Place} {s : Node} {ss : Nodes} {m n : ℕ}
        → Executes p s p1 m
        → ExecutesAll p1 ss p2 n
        → ExecutesAll p (cons s ss) p2 (m + n)

  pub data ExecutesMaybe : Place → MaybeNode → Place → ℕ → Type 0 where
    absent : {p : Place} → ExecutesMaybe p null p 0
    present :
        {p p' : Place} {s : Node} {n : ℕ} → Executes p s p' n → ExecutesMaybe p (some_node s) p' n

  pub data Loops : Place → Node → Node → Place → ℕ → Type 0 where
    exited :
        {p : Place} {c body : Node} {ty : Ty} {w : Width} {v k : ℕ}
        → Means p c ty w v k
        → (v == 0) ≡ true
        → Loops p c body p k
    again :
        {p p1 p2 : Place} {c body : Node} {ty : Ty} {w : Width} {v k m n : ℕ}
        → Means p c ty w v k
        → (v == 0) ≡ false
        → Executes p body p1 m
        → Loops p1 c body p2 n
        → Loops p c body p2 (k + m + n)

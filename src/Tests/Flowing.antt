-- ===== src/Tests/Flowing.antt =====
-- The theorem on the code of branches and loops, on one loop.
use seron.Prelude.{ℕ, ◌*◌, ◌≤◌, ◌≡◌, refl, List, [], ◌∷◌, ◌++◌, some, codes, arith}
use seron.Outcome.{done}
use seron.Token.{Token, fresh, number_int}
use seron.Types.{int_type, void_type}
use seron.Ast.{
  Node, literal, number_literal, ident_literal, block, nil, cons, some_node, while_stmt, vardecl,
}
use seron.Asm
use seron.Asm.{Instr, Sub, rax, LabelKind, while_label, cond_label, Width, dword, width_of}
use seron.Machine.{Machine, load, store}
use seron.Hashtable.{
  hashtable_insert, hashtable_get, hash, hash_sum, bucket, chain_get, chain_insert, new_entry,
  same_key, hashtable_init,
}
use seron.Symboltable.{symboltable_lookup, lookup, insert_at}
use seron.Codegen
use seron.Codegen.{Gen, gen_init, emit, codegen, type_from_token_literal}
use seron.Codegen.Labels.{definitions}
use seron.Codegen.Labels.Walk.{codegen-labels}
use seron.Control.{Reaches}
use seron.Values
use seron.Values.{Place, Means}
use seron.Values.Frames.{Frame}
use seron.Effects
use seron.Effects.{stored, at_scope}
use seron.Flow
use seron.Flow.{Executes}
use seron.Flow.Correct.{emit-Executes}
use seron.Tests.Valued.{tables, place, named_x, x-IsLocal, in_first}

abbrev zero_token : Token
zero_token = record (fresh 0) { number = 0; number_type = number_int }

abbrev x : Node
x = literal named_x ident_literal

-- while x { let x: int = 0; }
abbrev clearing : Node
clearing = while_stmt (fresh 0) x (
    block
      (cons (vardecl (fresh 0) named_x (some_node (literal zero_token number_literal)) int_type 4)
        nil)
      (some 0))

abbrev eax : Sub
eax = record { reg = rax; width = dword }

abbrev clearing_code : List Instr
clearing_code =
    Asm.jmp cond_label 0
    ∷ Asm.label while_label 0
    ∷ Asm.mov_imm eax 0
    ∷ Asm.store_local 4 eax (codes " ; x")
    ∷ Asm.label cond_label 0
    ∷ Asm.load_local eax 4
    ∷ Asm.cmp_zero eax
    ∷ Asm.jne while_label 0
    ∷ []

abbrev cleared : Place
cleared = at_scope (some 0) (stored place 4 dword 0)

clearing_emits :
    emit tables clearing in_first
    ≡ done (void_type, record in_first { buf_text = clearing_code; label_count = 1 })
unfolding emit Codegen.emit_list Codegen.literal Codegen.literal_ident Codegen.symbol_ident
    Codegen.local_ident Codegen.vardecl_end type_from_token_literal Asm.subregister width_of
    symboltable_lookup lookup insert_at hashtable_insert hashtable_get hash hash_sum bucket
    chain_get chain_insert new_entry same_key hashtable_init
clearing_emits = refl

program_emits :
    codegen tables (block (cons clearing nil) (some 0))
    ≡ done (record gen_init { buf_text = clearing_code; label_count = 1 })
unfolding codegen emit Codegen.emit_list Codegen.literal Codegen.literal_ident Codegen.symbol_ident
    Codegen.local_ident Codegen.vardecl_end type_from_token_literal Asm.subregister width_of
    symboltable_lookup lookup insert_at hashtable_insert hashtable_get hash hash_sum bucket
    chain_get chain_insert new_entry same_key hashtable_init
program_emits = refl

clearing_unique : (k : LabelKind) (n : ℕ) → definitions k n clearing_code ≤ 1
clearing_unique k n =
    (codegen-labels tables (block (cons clearing nil) (some 0)) program_emits k n).0

clearing-Executes : Executes place clearing cleared 0
unfolding width_of load store type_from_token_literal
clearing-Executes = Flow.looped (
    Flow.again
      (Values.variable x-IsLocal refl (record { above = omega arith; address = omega arith })) refl
      (Flow.nested (
        Flow.chained
          (Flow.straight (
            Effects.declared (Values.number refl (omega arith)) refl
              (record { above = omega arith; address = omega arith })))
          Flow.ended))
      (Flow.exited
        (Values.variable x-IsLocal refl (record { above = omega arith; address = omega arith }))
        refl))

emit-Executes_example :
    (code : List Instr) × (clearing_code ≡ [] ++ code)
    × ((before post : List Instr) (m : Machine)
        → clearing_code ≡ before ++ (code ++ post)
        → Frame place m
        → 8 * 0 ≤ m.rsp
        → (m' : Machine) × Reaches clearing_code (code ++ post, m) (post, m')
          × Frame cleared m'
          × (m'.rsp ≡ m.rsp))
emit-Executes_example =
    emit-Executes clearing_code clearing_unique place cleared clearing 0 in_first
      (record in_first { buf_text = clearing_code; label_count = 1 }) void_type refl clearing_emits
      clearing-Executes

-- ===== src/Tests/Valued.antt =====
-- The theorems on the code of expressions and statements, on one frame.
use seron.Prelude.{
  ◌*◌, ◌≤◌, ◌≡◌, refl, List, [], ◌∷◌, some, codes, arith, inl, false, ◌==◌, if◌then◌else◌,
}
use mathlib.Core.Option
use seron.Outcome.{done, exit, invalid_types}
use seron.Token.{Token, fresh, number_int}
use seron.Types.{Ty, int_type, stringify_typekind}
use seron.Effects
use seron.Effects.{Does, at_scope, stored}
use seron.Effects.Correct.{emit-Does}
use seron.Effects.Refused.{assign-refuses}
use seron.Ast.{Node, nil, cons, some_node, literal, number_literal, ident_literal, binop}
use seron.Ast
use seron.Hashtable.{
  Hashtable, Symbol, variable, hashtable_init, hashtable_insert, hashtable_get, hash, hash_sum,
  bucket, chain_get, chain_insert, new_entry, same_key,
}
use seron.Asm
use seron.Codegen
use seron.Asm.{Instr, Sub, rax, rdi, Width, dword, width_of}
use seron.Machine.{Machine, run, load, step, put, get, merged, push, pop, store}
use seron.Codegen.{Gen, gen_init, gen_write_all, emit, type_from_token_literal, found}
use seron.Symboltable.{symboltable_lookup, lookup, insert_at}
use seron.Values
use seron.Values.{Place, Means, InFrame, IsLocal}
use seron.Values.Frames.{Frame, After}
use seron.Values.Correct.{emit-value}

abbrev pub x : Symbol
x = record { kind = variable; ty = int_type; offset = 4 }

abbrev pub tables : List Hashtable
tables = elim (insert_at (hashtable_init 50 ∷ []) (some 0) (codes "x") x) [ done t ↦ t | _ ↦ [] ]

-- A frame whose variable `x` is 300.
abbrev pub place : Place
place = record {
  tables = tables;
  scope = some 0;
  rbp = 1004;
  floor = 1000;
  memory = λ a. if a == 1000 then 44 else if a == 1001 then 1 else 0;
}

pub x-IsLocal : IsLocal tables (some 0) (codes "x") x
unfolding symboltable_lookup lookup insert_at hashtable_insert hashtable_get hash hash_sum bucket
    chain_get chain_insert new_entry same_key hashtable_init
x-IsLocal = record { resolves = refl; local = inl refl }

-- x + 2
abbrev two : Token
two = record (fresh 0) { number = 2; number_type = number_int }

abbrev pub named_x : Token
named_x = record (fresh 0) { value = codes "x" }

abbrev sum : Node
sum = binop (literal named_x ident_literal) (literal two number_literal) (fresh 0) Ast.add

sum-Means : Means place sum int_type dword 302 1
unfolding type_from_token_literal width_of load
sum-Means =
    Values.operation (Values.number refl (omega arith))
      (Values.variable x-IsLocal refl (record { above = omega arith; address = omega arith })) refl
      refl

-- A machine in the frame.
abbrev pub in_first : Gen
in_first = record gen_init { scope = some 0 }

abbrev start : Machine
start = record {
  regs = λ r. 0;
  rsp = 1000;
  rbp = 1004;
  memory = place.memory;
  equal = false;
  less = false;
}

emit-value_example :
    (code : List Instr) × (emit tables sum in_first ≡ done (int_type, gen_write_all code in_first))
    × ((m : Machine)
        → Frame place m
        → 8 * 1 ≤ m.rsp
        → (m' : Machine) × (run code m ≡ some m') × After dword 302 m m')
emit-value_example = emit-value place in_first refl sum-Means

start-Frame : Frame place start
start-Frame = record { rbp = refl; stack = omega arith; address = omega arith; same = λ x q. refl }

abbrev eax : Sub
eax = record { reg = rax; width = dword }

abbrev sum_code : List Instr
sum_code =
    Asm.mov_imm eax 2
    ∷ Asm.push_rax
    ∷ Asm.load_local eax 4
    ∷ Asm.pop_rdi
    ∷ Asm.alu Asm.add eax (record { reg = rdi; width = dword })
    ∷ []

sum_emits : emit tables sum in_first ≡ done (int_type, gen_write_all sum_code in_first)
unfolding emit Codegen.literal Codegen.literal_ident Codegen.symbol_ident Codegen.local_ident
    Codegen.binop_end Codegen.scale Codegen.operate type_from_token_literal Asm.subregister width_of
    symboltable_lookup lookup insert_at hashtable_insert hashtable_get hash hash_sum bucket
    chain_get chain_insert new_entry same_key hashtable_init
sum_emits = refl

sum_runs : Option.map (λ m. m.regs rax) (run sum_code start) ≡ some 302
unfolding run step put get merged push pop load store
sum_runs = refl

-- { let x: int = x + 2; }
abbrev adding : Node
adding = Ast.block (cons (Ast.vardecl (fresh 0) named_x (some_node sum) int_type 4) nil) (some 0)

adding-Does : Does place adding (at_scope (some 0) (stored place 4 dword 302)) 1
adding-Does = Effects.blocked (
    Effects.followed
      (Effects.declared sum-Means refl (record { above = omega arith; address = omega arith }))
      Effects.finished)

emit-Does_example :
    (ty : Ty) × (code : List Instr) × (emit tables adding in_first
      ≡ done (ty, gen_write_all code in_first))
    × ((m : Machine)
        → Frame place m
        → 8 * 1 ≤ m.rsp
        → (m' : Machine) × (run code m ≡ some m')
          × Frame (at_scope (some 0) (stored place 4 dword 302)) m'
          × (m'.rsp ≡ m.rsp))
emit-Does_example = emit-Does in_first refl adding-Does

-- x = x + 2;
assign-refuses_example :
    emit tables (Ast.assign (fresh 0) sum (literal named_x ident_literal)) in_first
    ≡ exit (invalid_types (fresh 0))
unfolding stringify_typekind
assign-refuses_example =
    assign-refuses place (fresh 0) named_x x in_first refl x-IsLocal sum-Means refl refl

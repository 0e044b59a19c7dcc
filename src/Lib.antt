-- ===== src/Lib.antt =====
-- Verification of seron, the compiler of the language of the same name (seronc/): a model of its
-- lexer, its parser, its expansion, its symbol table, its code generator and its diagnostics, with the
-- theorems on them.
--
-- The program. `main` reads a file and calls `parse` (seronc/parser.c), which pulls tokens out of
-- the lexer (seronc/lexer.c) one at a time and builds a syntax tree. An error in the source is
-- printed (seronc/diagnostics.c), and the parser recovers by a `longjmp` to the loop of the
-- innermost block or of the program. `expand_ast` (seronc/expand.c) then rewrites the tree, and
-- `symboltable_build` (seronc/symboltable.c) gives each block a hash table (seronc/hashtable.c) of
-- its names. `codegen` (seronc/codegen.c) walks over the tree and writes lines of assembly into two
-- buffers, which become a file.
--
-- The files.
--   Prelude, Prelude.Lists  library names, Boolean tests, lists over the native numbers
--   Outcome                 how a call of the C code ends: a value, an error, `PANIC`, or undefined
--   Token                   tokens (seronc/lexer.h)
--   Scan                    the functions of seronc/lexer.c that read one token: identifiers,
--                           keywords, strings, characters, numbers, operators
--   Lexer                   `lexer_next`, `lexer_collect_tokens`
--   Location                `get_token_location`, the line and column of a token
--   Types                   types and their sizes (seronc/types.h, seronc/types.c)
--   Hashtable               the table of one scope (seronc/hashtable.h, seronc/hashtable.c)
--   Ast                     the syntax tree (seronc/parser.h)
--   Parser                  the state of the parser, recovery, and the jumps (seronc/parser.c)
--   TypeRules, ExprRules,   the grammar rules of seronc/parser.c, each as a function that is named
--   StmtRules, DeclRules    as in the source; `parse` is in DeclRules
--   Names                   the trees that the passes accept: short names, types with a size
--   Expand                  `expand_ast` (seronc/expand.c)
--   Symboltable             the scopes (seronc/symboltable.c), and in Symboltable.Build the walk of
--                           `symboltable_build` over the tree
--   Passes                  the passes of `main` (seronc/main.c) in their order
--   Asm, Asm.Text           registers and lines of assembly (seronc/codegen.c), and their texts
--   Buffer                  the growing buffers of seronc/codegen.c
--   Codegen                 `emit`, `emit_addr` and `codegen` (seronc/codegen.c); Codegen.State is the
--                           global `gen`, Codegen.Leaves what is written without walking further,
--                           Codegen.Output how lines become the file, Codegen.Labels the numbered labels
--   Machine                 a machine that runs the lines of expressions
--   Values                  the values of expressions, apart from the code for them
--   Effects                 what statements without jumps do to a frame, and the code for them
--   Control                 the machine with jumps, as a run through a program
--   Flow                    what branches and loops do to a frame, and the code for them
--   Diagnostics             the texts of seronc/diagnostics.c
--   Rule110                 the automaton of rule110/rule110.c
--   Tests                   runs, and the theorems at concrete inputs
-- Child modules hold the proofs and are named for what they prove.
--
-- Correspondence. A source is the list of its bytes, without the terminator: a read behind it is
-- the outcome `undefined overrun`. The pointer of the lexer is what is left of the list. The state
-- of the parser is a record that the rules pass on; the arena is left out, since the parser never
-- shares or frees a node. The texts of diagnostics are left out. `setjmp` and `longjmp` are a result
-- `jump`, which the loops that called `setjmp` catch; the parser records whether the frame of the
-- last `setjmp` for statements still runs, since a jump to one that has returned is undefined.
-- Memory that the program reads before it writes it is a parameter: the tokens in
-- `get_tokencount` and in `lexer_collect_tokens`, and what `malloc` leaves in `field_count` of a table.
-- An error that ends the program is an outcome `exit`: the code prints a diagnostic and calls `exit`. Where
-- it prints by `diagnostic_loc`, that call can itself be undefined, and the outcome says no more than
-- that it is made; some errors keep its token. Numbers of type `int` are natural numbers without a bound,
-- so an overflow of one is not seen, unless a theorem says so.
--
-- Fuel. The loops and the recursion of the parser, and `lexer_collect_tokens`, take fuel; `parse`
-- gives itself the length of the source and 3, `lexer_collect_tokens` the length and 2. Running out
-- is a result of its own (`none`). A lookup in the scopes takes the number of tables and 1. Sums in `hash` wrap
-- at 2 ^ 64; a number literal is less than 2 ^ 63 or undefined, as `atoll` is. Positions and
-- offsets are natural numbers, since they start at 0 and only grow.
--
-- The passes. `parser_traverse_ast` with a dispatch table is one recursion for each of its two
-- clients, `expand` and `build`; a callback writes into its node, so the walk returns the new tree.
-- The tables of the symbol table stand in a list in the order of their allocation, and a pointer to
-- a table is its index.
--
-- The code generator. The functions that a clause of `emit` stands for are named in seronc/codegen.c:
-- `block`, `while_`, `proc`, `return_`, `vardecl`, `cond`, `grouping`, `assign`, `binop`, `call`,
-- `unaryop`, `literal`, `array`. A call of `gen_write` is a value of `Instr` in the buffer, with what
-- the source passes for the format; Codegen.Output formats it. Label and string counters are natural
-- numbers. Two calls print an `int` with `%lu`, which C leaves undefined: what they print is a parameter of
-- `line`, and Control takes it for the number of the label. A `%d` of a wider number is its low 32 bits, as
-- the calling convention of x86-64 has it. The machine has the registers, the stack, a memory of bytes and the flags; it stops at a
-- line that moves control, divides, or is no instruction, such as the `imul al, -1` for `-` on a `char`, and addresses do not wrap within an access.
-- The reference values leave out division, calls, strings and the negation of a `char`; the statements leave out
-- `return`, arrays and assignments through pointers. Control adds the jumps to numbered labels.
--
-- Not modelled: the printing of trees and of tokens (`parser_print_ast`, `lexer_print_tokens`), options,
-- files and processes (seronc/main.c), the window of rule110/rule110.c, and the copies of libraries in
-- seronc/lib. The text that `vfprintf` makes of the message of a diagnostic is a parameter.
pub mod Prelude
pub mod Outcome
pub mod Token
pub mod Scan
pub mod Lexer
pub mod Location
pub mod Types
pub mod Hashtable
pub mod Ast
pub mod Names
pub mod Expand
pub mod Symboltable
pub mod Passes
pub mod Asm
pub mod Buffer
pub mod Codegen
pub mod Machine
pub mod Values
pub mod Control
pub mod Effects
pub mod Flow
pub mod Parser
pub mod TypeRules
pub mod ExprRules
pub mod StmtRules
pub mod DeclRules
pub mod Diagnostics
pub mod Rule110
mod Tests

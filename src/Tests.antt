-- ===== src/Tests.antt =====
-- Runs of the models, and the theorems at concrete inputs.
mod Runs
mod Lexing
mod Tables
mod Parsing
mod Passes
mod Emitting
mod Valued
mod Flowing
mod Printing

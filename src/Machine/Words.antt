-- ===== src/Machine/Words.antt =====
-- The registers of the machine.
use seron.Prelude.{ℕ, ◌+◌, ◌-◌, ◌%◌, ◌^◌, ◌<◌, ◌≡◌, arith, Bool, true, false}
use seron.Asm.{Width, byte, dword, qword}
use seron.Machine.{modulus, merged, truth}

pub merged-mod : (w : Width) (old v : ℕ) → merged w old v % modulus w ≡ v % modulus w
unfolding merged
merged-mod byte old v = omega arith
merged-mod dword old v = omega arith
merged-mod qword old v = omega arith

pub mod-mod : (w : Width) (v : ℕ) → v % modulus w % modulus w ≡ v % modulus w
mod-mod byte v = omega arith
mod-mod dword v = omega arith
mod-mod qword v = omega arith

pub mod-lt : (w : Width) (v : ℕ) → v % modulus w < modulus w
mod-lt byte v = omega arith
mod-lt dword v = omega arith
mod-lt qword v = omega arith

-- What is left of a number when its low byte is replaced by a truth value.
unfoldable pub flagged : ℕ → Bool → ℕ
flagged v b = v - v % 256 + truth b

pub flagged-mod :
    (w : Width) (old : ℕ) (b : Bool)
    → merged byte old (truth b) % modulus w ≡ flagged (old % modulus w) b
unfolding merged flagged
flagged-mod byte old true = omega arith
flagged-mod byte old false = omega arith
flagged-mod dword old true = omega arith
flagged-mod dword old false = omega arith
flagged-mod qword old true = omega arith
flagged-mod qword old false = omega arith

pub mod-low : (w : Width) (v : ℕ) → v % 2 ^ 64 % modulus w ≡ v % modulus w
mod-low byte v = omega arith
mod-low dword v = omega arith
mod-low qword v = omega arith

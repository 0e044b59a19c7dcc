-- ===== src/Machine/Memory.antt =====
-- Loads and stores of the machine.
use seron.Prelude.{ℕ, zero, suc, ◌+◌, ◌*◌, ◌/◌, ◌%◌, ◌≤◌, ◌<◌, ◌==◌, ◌≡◌, refl, true, false, arith}
use seron.Asm.{Width, byte, dword, qword}
use seron.Machine.{modulus, bytes_of, load, store}

pub load-ext :
    (n : ℕ) (f g : ℕ → ℕ) (a : ℕ) → ((x : ℕ) → a ≤ x → f x ≡ g x) → load n f a ≡ load n g a
unfolding load
load-ext zero f g a h = refl
load-ext (suc n) f g a h =
    omega (arith, h a (omega arith), load-ext n f g (a + 1) (λ x p. h x (omega (arith, p))))

pub store-below : (n : ℕ) (f : ℕ → ℕ) (a v x : ℕ) → x < a → store n f a v x ≡ f x
unfolding store
store-below zero f a v x h = refl
store-below (suc n) f a v x h =
    let other : (x == a) ≡ false = ground (arith, h) in
    rw other (store-below n f (a + 1) (v / 256) x (omega (arith, h)))

pub store-above : (n : ℕ) (f : ℕ → ℕ) (a v x : ℕ) → a + n ≤ x → store n f a v x ≡ f x
unfolding store
store-above zero f a v x h = refl
store-above (suc n) f a v x h =
    let other : (x == a) ≡ false = ground (arith, h) in
    rw other (store-above n f (a + 1) (v / 256) x (omega (arith, h)))

-- The number that the low bytes make.
unfoldable low_bytes : ℕ → ℕ → ℕ
low_bytes zero v = 0
low_bytes (suc n) v = v % 256 + 256 * low_bytes n (v / 256)

load-store : (n : ℕ) (f : ℕ → ℕ) (a v : ℕ) → load n (store n f a v) a ≡ low_bytes n v
unfolding load store low_bytes
load-store zero f a v = refl
load-store (suc n) f a v =
    let first : (a == a) ≡ true = ground arith in
    let rest =
      load-ext n (store (suc n) f a v) (store n f (a + 1) (v / 256)) (a + 1)
        (λ x p. let other : (x == a) ≡ false = ground (arith, p) in rw other) in
    rw (first, rest, load-store n f (a + 1) (v / 256)) (omega arith)

pub load-store_width :
    (w : Width) (f : ℕ → ℕ) (a v : ℕ)
    → load (bytes_of w) (store (bytes_of w) f a v) a ≡ v % modulus w
unfolding low_bytes
load-store_width byte f a v = omega (arith, load-store 1 f a v)
load-store_width dword f a v = omega (arith, load-store 4 f a v)
load-store_width qword f a v = omega (arith, load-store 8 f a v)

-- A load of eight bytes has the number of its first bytes in its low part.
pub load-low : (w : Width) (f : ℕ → ℕ) (a : ℕ) → load 8 f a % modulus w ≡ load (bytes_of w) f a
unfolding load
load-low byte f a = omega arith
load-low dword f a = omega arith
load-low qword f a = omega arith

pub load-lt : (w : Width) (f : ℕ → ℕ) (a : ℕ) → load (bytes_of w) f a < modulus w
unfolding load
load-lt byte f a = omega arith
load-lt dword f a = omega arith
load-lt qword f a = omega arith

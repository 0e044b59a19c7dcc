-- ===== src/Rule110.antt =====
-- rule110/rule110.c: the cellular automaton, without its window. The array of cells is a function of a
-- row and a column.
use seron.Prelude.{
  ℕ, zero, suc, ◌+◌, ◌-◌, ◌*◌, ◌/◌, ◌%◌, ◌^◌, ◌==◌, ◌≤◌, ◌<◌, ◌≡◌, ◌≢◌, refl, ◌∙◌, sym, ap, ◌⊎◌,
  Bool, true, false, not, ◌&&◌, if◌then◌else◌, leb, arith, Bool-cases, inl, inr,
}

abbrev pub cell_count : ℕ
cell_count = 300

abbrev pub cell_iters : ℕ
cell_iters = 1000

pub record Automaton : Type 0 where
  pub iter : ℕ
  pub cells : ℕ → ℕ → Bool

unfoldable pub rule110 : Bool → Bool → Bool → Bool
rule110 left center right =
    if left && center && right
    then false
    else if left && center && not right
    then true
    else if left && not center && right
    then true
    else if left && not center && not right
    then false
    else if not left && center && right
    then true
    else if not left && center && not right
    then true
    else if not left && not center && right
    then true
    else false

-- The cell for a column, from the row `c` before.
unfoldable pub next_cell : (ℕ → Bool) → ℕ → Bool
next_cell c i =
    let left = if i == 0 then c (cell_count - 1) else c (i - 1) in
    let right = if i == cell_count - 1 then c 0 else c (i + 1) in rule110 left (c i) right

abbrev pub write_cell : (ℕ → ℕ → Bool) → ℕ → ℕ → Bool → ℕ → ℕ → Bool
write_cell cells row column b y x = if y == row && (x == column) then b else cells y x

-- The loop of `next`, with `n` columns left from `i` on.
unfoldable pub next_cells : ℕ → ℕ → ℕ → (ℕ → ℕ → Bool) → ℕ → ℕ → Bool
next_cells zero i iter cells = cells
next_cells (suc n) i iter cells =
    next_cells n (i + 1) iter (write_cell cells iter i (next_cell (cells (iter - 1)) i))

unfoldable pub next : Automaton → Automaton
next a =
    if leb cell_iters a.iter
    then a
    else record { iter = a.iter + 1; cells = next_cells cell_count 0 a.iter a.cells }

-- The number of a neighbourhood, with the left cell as its highest bit.
abbrev bit : Bool → ℕ
bit true = 1
bit false = 0

abbrev pub neighbourhood : Bool → Bool → Bool → ℕ
neighbourhood left center right = 4 * bit left + 2 * bit center + bit right

-- The bit of 110 for a neighbourhood.
abbrev pub bit_of_110 : ℕ → Bool
bit_of_110 n = 110 / 2 ^ n % 2 == 1

rule110-bit_of_110 : (l c r : Bool) → rule110 l c r ≡ bit_of_110 (neighbourhood l c r)
unfolding rule110
rule110-bit_of_110 true true true = refl
rule110-bit_of_110 true true false = refl
rule110-bit_of_110 true false true = refl
rule110-bit_of_110 true false false = refl
rule110-bit_of_110 false true true = refl
rule110-bit_of_110 false true false = refl
rule110-bit_of_110 false false true = refl
rule110-bit_of_110 false false false = refl

-- Rows but the written one, and columns before the loop, stay.
next_cells-row :
    (n i iter : ℕ) (cells : ℕ → ℕ → Bool) (y x : ℕ)
    → y ≢ iter
    → next_cells n i iter cells y x ≡ cells y x
unfolding next_cells
next_cells-row zero i iter cells y x h = refl
next_cells-row (suc n) i iter cells y x h =
    let other : (y == iter) ≡ false = ground (arith, h) in
    next_cells-row n (i + 1) iter _ y x h ∙ rw other

next_cells-before :
    (n i iter : ℕ) (cells : ℕ → ℕ → Bool) (x : ℕ)
    → x < i
    → next_cells n i iter cells iter x ≡ cells iter x
unfolding next_cells
next_cells-before zero i iter cells x h = refl
next_cells-before (suc n) i iter cells x h =
    let other : (iter == iter && (x == i)) ≡ false = ground (arith, h) in
    next_cells-before n (i + 1) iter _ x (omega (arith, h)) ∙ rw other

next_cells-cell :
    (n i iter : ℕ) (cells : ℕ → ℕ → Bool) (x : ℕ)
    → 1 ≤ iter
    → i ≤ x
    → x < i + n
    → next_cells n i iter cells iter x ≡ next_cell (cells (iter - 1)) x
unfolding next_cells
next_cells-cell zero i iter cells x one h k = absurd (omega (arith, h, k))
next_cells-cell (suc n) i iter cells x one h k =
    let v = next_cell (cells (iter - 1)) i in
    elim (Bool-cases (x == i)) [
      | inl e ↦
          let here : (iter == iter && (x == i)) ≡ true = ground (arith, e) in
          let same : x ≡ i = ground (arith, e) in
          next_cells-before n (i + 1) iter _ x (omega (arith, same))
          ∙ rw here (ap (next_cell (cells (iter - 1))) (sym same))
      | inr e ↦
          let kept : (iter - 1 == iter) ≡ false = ground (arith, one) in
          next_cells-cell n (i + 1) iter (write_cell cells iter i v) x one (ground (arith, e, h))
            (omega (arith, k))
          ∙ ap (λ b. next_cell (λ z. if b && (z == i) then v else cells (iter - 1) z) x) kept
    ]

-- The neighbours of a column, around the edge.
next_cell-around :
    (c : ℕ → Bool) (x : ℕ)
    → x < 300
    → next_cell c x ≡ bit_of_110 (neighbourhood (c ((x + 299) % 300)) (c x) (c ((x + 1) % 300)))
unfolding next_cell
next_cell-around c x h =
    rule110-bit_of_110 _ _ _
    ∙ ap (λ l. bit_of_110 (neighbourhood l (c x) (if x == 299 then c 0 else c (x + 1))))
        (left (Bool-cases (x == 0)))
    ∙ ap (λ r. bit_of_110 (neighbourhood (c ((x + 299) % 300)) (c x) r))
        (right (Bool-cases (x == 299)))
  where
    left :
        ((x == 0) ≡ true) ⊎ ((x == 0) ≡ false)
        → (if x == 0 then c 299 else c (x - 1)) ≡ c ((x + 299) % 300)
    left (inl e) = rw e (ap c (ground (arith, e)))
    left (inr e) = rw e (ap c (ground (arith, e, h)))

    right :
        ((x == 299) ≡ true) ⊎ ((x == 299) ≡ false)
        → (if x == 299 then c 0 else c (x + 1)) ≡ c ((x + 1) % 300)
    right (inl e) = rw e (ap c (ground (arith, e)))
    right (inr e) = rw e (ap c (ground (arith, e, h)))

-- In an automaton with between 1 and 999 rows, `next` counts one row more and leaves the rows but that one
-- as they were; each of its 300 cells is the bit of 110 for the three cells above it, where the first and
-- the last column are neighbours.
pub next-rows :
    (a : Automaton)
    → 1 ≤ a.iter
    → a.iter < 1000
    → ((next a).iter ≡ a.iter + 1)
      × ((y x : ℕ) → y ≢ a.iter → (next a).cells y x ≡ a.cells y x)
      × ((x : ℕ)
          → x < 300
          → (next a).cells a.iter x
            ≡ bit_of_110 (
                neighbourhood
                  (a.cells (a.iter - 1) ((x + 299) % 300))
                  (a.cells (a.iter - 1) x)
                  (a.cells (a.iter - 1) ((x + 1) % 300))))
unfolding next
next-rows a one h =
    let more : leb 1000 a.iter ≡ false = ground (arith, h) in
    rw more (
      refl,
      λ y x k. next_cells-row 300 0 a.iter a.cells y x k,
      λ x k.
          next_cells-cell 300 0 a.iter a.cells x one (omega arith) (omega (arith, k))
          ∙ next_cell-around (a.cells (a.iter - 1)) x k,
    )

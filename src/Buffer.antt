-- ===== src/Buffer.antt =====
-- The growing buffer of seronc/codegen.c, and how its text is read back.
pub mod Prints
use mathlib.Core.Path.{subst}
use seron.Prelude.{
  ℕ, zero, suc, ◌+◌, ◌-◌, ◌*◌, ◌^◌, ◌≤◌, ◌<◌, ◌==◌, ◌≡◌, refl, ap, ◌∙◌, ◌⊎◌, inl, inr, Bool, true,
  false, [], ◌∷◌, ◌++◌, append-nil, append_assoc, Bytes, if◌then◌else◌, leb, Bool-cases, length,
  take, replicate, set, length-append, arith,
}
use seron.Outcome.{Outcome, done, undefined, overrun, ◌>>=◌}

-- `items` is the allocated region, of `cap` bytes.
pub record Buffer : Type 0 where
  pub cap : ℕ
  pub len : ℕ
  pub items : Bytes

abbrev pub buffer_init : Buffer
buffer_init = record { cap = 0; len = 0; items = [] }

abbrev pub grown_cap : ℕ → ℕ
grown_cap cap = if cap == 0 then 50 else cap * 2

-- The reallocation of a full buffer, with the new part zeroed.
unfoldable pub buffer_grow : Buffer → Buffer
buffer_grow buf =
    if leb buf.cap buf.len
    then (let cap = grown_cap buf.cap in
        record buf { cap = cap; items = take buf.len buf.items ++ replicate (cap - buf.len) 0 })
    else buf

unfoldable pub buffer_append : Buffer → ℕ → Buffer
buffer_append buf c =
    let grown = buffer_grow buf in
    record grown { len = grown.len + 1; items = set grown.items grown.len c }

unfoldable pub buffer_append_str : Buffer → Bytes → Buffer
buffer_append_str buf [] = buf
buffer_append_str buf (c ∷ str) = buffer_append_str (buffer_append buf c) str

-- What `%s` prints of a region: the bytes before a terminator, which it must hold.
unfoldable pub read_string : Bytes → Outcome Bytes
read_string [] = undefined overrun
read_string (zero ∷ region) = done []
read_string (suc c ∷ region) = do text ← read_string region; done (suc c ∷ text)

-- A text without a terminator.
unfoldable pub no_nul : Bytes → Bool
no_nul [] = true
no_nul (zero ∷ text) = false
no_nul (suc c ∷ text) = no_nul text

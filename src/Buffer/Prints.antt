-- ===== src/Buffer/Prints.antt =====
-- What a buffer of seronc/codegen.c holds, and what is printed of it.
use mathlib.Core.Path.{subst}
use seron.Prelude.{
  ℕ, zero, suc, ◌+◌, ◌-◌, ◌*◌, ◌^◌, ◌≤◌, ◌<◌, ◌==◌, ◌≡◌, refl, ap, ◌∙◌, ◌⊎◌, inl, inr, true, [],
  ◌∷◌, ◌++◌, append-nil, append_assoc, Bytes, if◌then◌else◌, leb, Bool-cases, length, take,
  replicate, set, length-append, arith,
}
use seron.Outcome.{done, undefined, overrun}
use seron.Buffer.{
  Buffer, buffer_init, grown_cap, buffer_grow, buffer_append, buffer_append_str, read_string,
  no_nul,
}

-- 50 times a power of two, the capacities of a region.
abbrev pub Full : ℕ → Type 0
Full n = (k : ℕ) × (n ≡ 50 * 2 ^ k)

-- The buffer holds the text, with zeros behind it, in a region that was doubled from 50 bytes.
pub record Holds (buf : Buffer) (text : Bytes) : Type 0 where
  pub items : buf.items ≡ text ++ replicate (buf.cap - length text) 0
  pub len : buf.len ≡ length text
  pub room : length text ≤ buf.cap
  pub shape : (buf.cap ≡ 0) ⊎ Full buf.cap
  pub tight : (buf.cap ≤ 50) ⊎ (buf.cap < length text * 2)

buffer_init-Holds : Holds buffer_init []
buffer_init-Holds = record {
  items = refl;
  len = refl;
  room = omega arith;
  shape = inl refl;
  tight = inl (omega arith);
}

take-append : (text rest : Bytes) → take (length text) (text ++ rest) ≡ text
take-append [] rest = refl
take-append (c ∷ text) rest = ap (◌∷◌ c) (take-append text rest)

set-append :
    (text : Bytes) (n c d : ℕ)
    → set (text ++ replicate (suc n) d) (length text) c ≡ (text ++ c ∷ []) ++ replicate n d
set-append [] n c d = refl
set-append (x ∷ text) n c d = ap (◌∷◌ x) (set-append text n c d)

grown_cap-gt : (cap : ℕ) → cap < grown_cap cap
grown_cap-gt cap = ground arith

two_pow-pos : (k : ℕ) → 1 ≤ 2 ^ k
two_pow-pos zero = omega arith
two_pow-pos (suc k) = omega (arith, two_pow-pos k)

pub Full-ge : (n : ℕ) → Full n → 50 ≤ n
Full-ge n (k, h) = omega (arith, h, two_pow-pos k)

grown_cap-shape : (cap : ℕ) → (cap ≡ 0) ⊎ Full cap → (grown_cap cap ≡ 0) ⊎ Full (grown_cap cap)
grown_cap-shape cap (inl h) = inr (0, rw h)
grown_cap-shape cap (inr (k, h)) = inr (suc k, ground (arith, h, two_pow-pos k))

grown_cap-tight : (cap len : ℕ) → cap ≤ len → (grown_cap cap ≤ 50) ⊎ (grown_cap cap < (len + 1) * 2)
grown_cap-tight zero len h = inl (omega arith)
grown_cap-tight (suc cap) len h = inr (ground (arith, h))

-- A buffer with room for one more byte, and with no more room than that byte needs.
record HasRoom (buf : Buffer) (text : Bytes) : Type 0 where
  items : buf.items ≡ text ++ replicate (buf.cap - length text) 0
  len : buf.len ≡ length text
  room : length text < buf.cap
  shape : (buf.cap ≡ 0) ⊎ Full buf.cap
  tight : (buf.cap ≤ 50) ⊎ (buf.cap < (length text + 1) * 2)

buffer_grow-HasRoom :
    (buf : Buffer) (text : Bytes) → Holds buf text → HasRoom (buffer_grow buf) text
unfolding buffer_grow
buffer_grow-HasRoom buf text h = elim (Bool-cases (leb buf.cap buf.len)) [
  | inl e ↦ rw e (record {
    items =
        rw (h.items, h.len)
          (ap (λ t. t ++ replicate (grown_cap buf.cap - length text) 0) (take-append text _));
    len = h.len;
    room = omega (arith, h.room, grown_cap-gt buf.cap);
    shape = grown_cap-shape buf.cap h.shape;
    tight = grown_cap-tight buf.cap (length text) (ground (arith, e, h.len));
  })
  | inr e ↦ rw e (record {
    items = h.items;
    len = h.len;
    room = ground (arith, e, h.len);
    shape = h.shape;
    tight = weaken h.tight;
  })
]
  where
    weaken :
        (buf.cap ≤ 50) ⊎ (buf.cap < length text * 2)
        → (buf.cap ≤ 50) ⊎ (buf.cap < (length text + 1) * 2)
    weaken (inl k) = inl k
    weaken (inr k) = inr (omega arith)

buffer_append-Holds :
    (buf : Buffer) (text : Bytes) (c : ℕ)
    → Holds buf text
    → Holds (buffer_append buf c) (text ++ c ∷ [])
unfolding buffer_append
buffer_append-Holds buf text c h =
    let g = buffer_grow-HasRoom buf text h in
    record {
      items =
          (let free = (buffer_grow buf).cap - length (text ++ c ∷ []) in
            let count : (buffer_grow buf).cap - length text ≡ suc free =
              omega (arith, g.room, length-append text (c ∷ [])) in
            rw (g.items, g.len, count) (set-append text free c 0));
      len = omega (arith, g.len, length-append text (c ∷ []));
      room = omega (arith, g.room, length-append text (c ∷ []));
      shape = g.shape;
      tight = tight g.tight;
    }
  where
    tight :
        {cap : ℕ}
        → (cap ≤ 50) ⊎ (cap < (length text + 1) * 2)
        → (cap ≤ 50) ⊎ (cap < length (text ++ c ∷ []) * 2)
    tight (inl k) = inl k
    tight (inr k) = inr (omega (arith, k, length-append text (c ∷ [])))

buffer_append_str-Holds :
    (buf : Buffer) (text str : Bytes)
    → Holds buf text
    → Holds (buffer_append_str buf str) (text ++ str)
unfolding buffer_append_str
buffer_append_str-Holds buf text [] h = rw (append-nil text) h
buffer_append_str-Holds buf text (c ∷ str) h =
    subst (Holds (buffer_append_str (buffer_append buf c) str)) (append_assoc text (c ∷ []) str) (
      buffer_append_str-Holds (buffer_append buf c) (text ++ c ∷ []) str
        (buffer_append-Holds buf text c h))

read_string-end :
    (text rest : Bytes) → no_nul text ≡ true → read_string (text ++ 0 ∷ rest) ≡ done text
unfolding read_string no_nul
read_string-end [] rest h = refl
read_string-end (zero ∷ text) rest h = cc
read_string-end (suc c ∷ text) rest h = rw (read_string-end text rest h)

read_string-overrun : (text : Bytes) → no_nul text ≡ true → read_string text ≡ undefined overrun
unfolding read_string no_nul
read_string-overrun [] h = refl
read_string-overrun (zero ∷ text) h = cc
read_string-overrun (suc c ∷ text) h = rw (read_string-overrun text h)

-- Printing a buffer that holds a text gives the text, if the region has room for a terminator.
printed :
    (buf : Buffer) (text : Bytes)
    → Holds buf text
    → no_nul text ≡ true
    → read_string buf.items ≡ (if buf.len == buf.cap then undefined overrun else done text)
printed buf text h t = elim (Bool-cases (buf.len == buf.cap)) [
  | inl e ↦
      let full : buf.cap - length text ≡ 0 = ground (arith, e, h.len) in
      rw (e, h.items, full, append-nil text, read_string-overrun text t)
  | inr e ↦
      let free : buf.cap - length text ≡ suc (buf.cap - length text - 1) =
        ground (arith, e, h.len, h.room) in
      rw (e, h.items, free, read_string-end text _ t)
]

two_pow-between : (j k : ℕ) → 2 ^ j ≤ 2 ^ k → 2 ^ k < 2 ^ j * 2 → 2 ^ k ≡ 2 ^ j
two_pow-between zero zero h g = refl
two_pow-between zero (suc k) h g = absurd (omega (arith, h, g, two_pow-pos k))
two_pow-between (suc j) zero h g = absurd (omega (arith, h, g, two_pow-pos j))
two_pow-between (suc j) (suc k) h g =
    omega (arith, two_pow-between j k (omega (arith, h)) (omega (arith, g)))

-- A region of the shape that a buffer has is full when the text has the length of one.
Full-cap :
    (len cap : ℕ)
    → Full len
    → len ≤ cap
    → (cap ≡ 0) ⊎ Full cap
    → (cap ≤ 50) ⊎ (cap < len * 2)
    → cap ≡ len
Full-cap len cap (j, h) r (inl z) t = omega (arith, h, r, z, two_pow-pos j)
Full-cap len cap (j, h) r (inr (k, h')) (inl t) = omega (arith, h, r, h', t, two_pow-pos j)
Full-cap len cap (j, h) r (inr (k, h')) (inr t) =
    omega (arith, h, h', two_pow-between j k (omega (arith, h, h', r)) (omega (arith, h, h', t)))

-- If a text without terminators is appended to an empty buffer, the buffer gets the length of the text.
-- Printing it as a string gives the text if the text is not empty and its length is not 50 times a
-- power of two, and reads past the end of the region if it is.
pub buffer_append_str-prints :
    (text : Bytes)
    → no_nul text ≡ true
    → let buf = buffer_append_str buffer_init text in
      (buf.len ≡ length text)
      × (1 ≤ length text → ¬ Full (length text) → read_string buf.items ≡ done text)
      × (Full (length text) → read_string buf.items ≡ undefined overrun)
buffer_append_str-prints text t =
    let h = buffer_append_str-Holds buffer_init [] text buffer_init-Holds in
    (h.len, whole h, overruns h)
  where
    whole :
        {buf : Buffer}
        → Holds buf text
        → 1 ≤ length text
        → ¬ Full (length text)
        → read_string buf.items ≡ done text
    whole {buf} h n f = elim (Bool-cases (buf.len == buf.cap)) [
      | inl e ↦ absurd (not_shape h.shape (ground (arith, e, h.len)))
      | inr e ↦ printed buf text h t ∙ rw e
    ]
      where
        not_shape : {cap : ℕ} → (cap ≡ 0) ⊎ Full cap → length text ≡ cap → ⊥
        not_shape (inl z) q = omega (arith, z, q, n)
        not_shape (inr (k, p)) q = f (k, q ∙ p)

    overruns :
        {buf : Buffer}
        → Holds buf text
        → Full (length text)
        → read_string buf.items ≡ undefined overrun
    overruns {buf} h f =
        let full = Full-cap (length text) buf.cap f h.room h.shape h.tight in
        let test : (buf.len == buf.cap) ≡ true = ground (arith, full, h.len) in
        printed buf text h t ∙ rw test

pub buffer_append_str-append :
    (buf : Buffer) (a b : Bytes)
    → buffer_append_str (buffer_append_str buf a) b ≡ buffer_append_str buf (a ++ b)
unfolding buffer_append_str
buffer_append_str-append buf [] b = refl
buffer_append_str-append buf (c ∷ a) b = buffer_append_str-append (buffer_append buf c) a b

pub no_nul-append : (a b : Bytes) → no_nul a ≡ true → no_nul b ≡ true → no_nul (a ++ b) ≡ true
unfolding no_nul
no_nul-append [] b h k = k
no_nul-append (zero ∷ a) b h k = cc
no_nul-append (suc c ∷ a) b h k = no_nul-append a b h k

-- ===== src/Packed/Fields.antt =====
-- One field of the packed form: what the encoder's `_hex_bytes` and `_u` write, and what the
-- decoder's `_take` reads.
use base_arb_bot.Prelude.{
  ℕ, ◌+◌, ◌-◌, ◌≤◌, ◌≡◌, refl, sym, ap, ap₂, ◌∙◌, true, List, [], ◌∷◌, ◌++◌, length, take, drop,
  All, length-append, length-take, length-drop, take-append, drop-append, take-append-drop,
  drop-drop, ok, none, some, arith,
}
use base_arb_bot.Prelude.Text.{Text, starts_with}
use base_arb_bot.Prelude.Bytes.{
  IsByte, from_bytes, to_hex, from_hex, length-to_bytes, from_bytes-to_bytes, from_bytes-lt,
  to_bytes-from_bytes, from_hex-to_hex, pow_bytes,
}
use base_arb_bot.Prelude.Int.{ℤ, pos, negsuc}
use base_arb_bot.Packed.{hex_bytes, uint_bytes, take_bytes, hex_text, prefix_0x}

-- `rest` is what `raw` holds from `offset` on.
abbrev pub At : List ℕ → ℕ → List ℕ → Type 0
At raw offset rest = (drop offset raw ≡ rest) × (offset ≤ length raw)

pub At-next :
    (raw : List ℕ) (offset : ℕ) (xs rest : List ℕ)
    → At raw offset (xs ++ rest)
    → At raw (offset + length xs) rest
At-next raw offset xs rest (e, h) = (
  sym (drop-drop offset (length xs) raw) ∙ ap (drop (length xs)) e ∙ drop-append xs rest,
  omega (arith, length-drop offset raw, ap length e, length-append xs rest),
)

pub take_bytes-At :
    (raw : List ℕ) (offset : ℕ) (xs rest : List ℕ)
    → At raw offset (xs ++ rest)
    → take_bytes raw offset (length xs) ≡ ok (xs, offset + length xs)
unfolding take_bytes
take_bytes-At raw offset xs rest (e, h) =
    let fits : offset + length xs ≤ length raw = (At-next raw offset xs rest (e, h)).1 in
    let same : offset + length xs - offset ≡ length xs = omega arith in
    rw (same, e, take-append xs rest) (ground arith)

-- What a read that returned says of `raw`.
pub take_bytes-ok :
    (raw : List ℕ) (offset size : ℕ) (b : List ℕ) (end : ℕ)
    → take_bytes raw offset size ≡ ok (b, end)
    → (drop offset raw ≡ b ++ drop end raw)
      × (length b ≡ size)
      × (end ≡ offset + size)
      × (end ≤ length raw)
unfolding take_bytes
take_bytes-ok raw offset size b end e = (
  (sym (take-append-drop (offset + size - offset) (drop offset raw))
      ∙ ap₂ ◌++◌ (sym facts.1) (
          drop-drop offset (offset + size - offset) raw
          ∙ ap (λ k. drop k raw) (omega (arith, facts)))),
  ap length facts.1
      ∙ omega (
        arith,
        facts,
        length-take (offset + size - offset) (drop offset raw),
        length-drop offset raw,
      ),
  facts.2,
  omega (arith, facts),
)
  where
    facts :
        (offset + size ≤ length raw)
        × (b ≡ take (offset + size - offset) (drop offset raw))
        × (end ≡ offset + size)
    facts = ground arith

-- The text that a decoder writes for what `bytes.fromhex` reads in `value`.
pub reprint : Text → Text
reprint value = elim (from_hex (drop 2 value)) [ none ↦ value | some raw ↦ hex_text raw ]

pub hex_bytes-ok :
    (value : Text) (size : ℕ) (label : Text) (b : List ℕ)
    → hex_bytes value size label ≡ ok b
    → (length b ≡ size) × (reprint value ≡ hex_text b)
unfolding hex_bytes reprint
hex_bytes-ok value size label b e = ground arith

pub uint_bytes-ok :
    (value : ℤ) (size : ℕ) (label : Text) (b : List ℕ)
    → uint_bytes value size label ≡ ok b
    → (length b ≡ size) × (pos (from_bytes b) ≡ value)
unfolding uint_bytes
uint_bytes-ok (negsuc n) size label b e = cc
uint_bytes-ok (pos n) size label b e =
    ground (arith, length-to_bytes size n, pow_bytes size, from_bytes-to_bytes size n)

starts_with-prefix_0x : (s : Text) → starts_with (prefix_0x ++ s) prefix_0x ≡ true
unfolding starts_with
starts_with-prefix_0x [] = refl
starts_with-prefix_0x (c ∷ s) = refl

pub hex_bytes-hex_text :
    (b : List ℕ) (size : ℕ) (label : Text)
    → All IsByte b
    → length b ≡ size
    → hex_bytes (hex_text b) size label ≡ ok b
unfolding hex_bytes
hex_bytes-hex_text b size label h e =
    ground (arith, starts_with-prefix_0x (to_hex b), from_hex-to_hex b h)

pub uint_bytes-from_bytes :
    (b : List ℕ) (size : ℕ) (label : Text)
    → All IsByte b
    → length b ≡ size
    → uint_bytes (pos (from_bytes b)) size label ≡ ok b
unfolding uint_bytes
uint_bytes-from_bytes b size label h e =
    ground (arith, e, pow_bytes size, from_bytes-lt b h, to_bytes-from_bytes b h)

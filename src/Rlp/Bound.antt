-- ===== src/Rlp/Bound.antt =====
-- The conservative size bounds the size of every signed transaction with the same other fields.
use base_arb_bot.Prelude.{
  ℕ, zero, suc, ◌+◌, ◌≤◌, ◌≡◌, refl, ap, List, ◌++◌, length, length-append, ok, bind-eq-ok,
  ok-injective, arith,
}
use base_arb_bot.Prelude.Text.{Text}
use base_arb_bot.Prelude.Int.{ℤ, pos}
use base_arb_bot.Prelude.Bytes.{to_bytes}
use base_arb_bot.Rlp.{
  bit_length, count_bits, Item, Items, int, bytes, list, nil, cons, nat_bytes, int_bytes, rlp_bytes,
  rlp_list, rlp, rlp_items, unhex, signed_fields, max_scalar, signed_size,
  conservative_eip1559_signed_size,
}
use base_arb_bot.Rlp.Minimal.{length-nat_bytes_le}

length-nat_bytes_mono : (m n : ℕ) → m ≤ n → length (nat_bytes m) ≤ length (nat_bytes n)
length-nat_bytes_mono m n h =
    let below = (length-nat_bytes_le n (length (nat_bytes n))).0 (omega arith) in
    (length-nat_bytes_le m (length (nat_bytes n))).1 (omega arith)

-- A longer payload gives a longer list.
rlp_list_mono : (p q : List ℕ) → length p ≤ length q → length (rlp_list p) ≤ length (rlp_list q)
unfolding rlp_list
rlp_list_mono p q h = ground (
  arith,
  length-nat_bytes_mono (length p) (length q),
  length-append (nat_bytes (length p)) p,
  length-append (nat_bytes (length q)) q,
)

scalar-le : (v : ℕ) → v ≤ max_scalar → length (rlp_bytes (nat_bytes v)) ≤ 33
unfolding rlp_bytes
scalar-le v h = ground (arith, (length-nat_bytes_le v 32).1 (omega arith))

scalar_max : length (rlp_bytes (nat_bytes max_scalar)) ≡ 33
unfolding rlp_bytes
scalar_max =
    let le = (length-nat_bytes_le max_scalar 32).1 (omega arith) in
    let gt : ¬ (length (nat_bytes max_scalar) ≤ 31) =
      λ h. absurd (omega (arith, (length-nat_bytes_le max_scalar 31).0 h)) in
    let e : length (nat_bytes max_scalar) ≡ 32 = omega arith in ground (arith, e)

-- If the fields `ys` encode, then so do the fields `xs`, to no more bytes.
Below : Items → Items → Type 0
Below xs ys =
    (q : List ℕ)
    → rlp_items ys ≡ ok q
    → (p : List ℕ) × (rlp_items xs ≡ ok p) × (length p ≤ length q)

Below-nil : Below nil nil
unfolding Below
Below-nil q e = (q, e, omega arith)

-- The encoding of `x` is no longer than that of `y`.
abbrev Shorter : Item → Item → Type 0
Shorter x y = (b : List ℕ) → rlp y ≡ ok b → (a : List ℕ) × (rlp x ≡ ok a) × (length a ≤ length b)

Shorter-refl : (x : Item) → Shorter x x
Shorter-refl x b e = (b, e, omega arith)

Below-cons :
    (x y : Item) (xs ys : Items) → Shorter x y → Below xs ys → Below (cons x xs) (cons y ys)
unfolding Below rlp
Below-cons x y xs ys s h q e =
    let (b, eb, e1) = bind-eq-ok (rlp y) _ e in
    let (d, ed, e2) = bind-eq-ok (rlp_items ys) _ e1 in
    let (a, ea, le) = s b eb in
    let (c, ec, le') = h d ed in
    (
      a ++ c,
      encodes a c ea ec,
      omega (arith, le, le', length-append a c, length-append b d, ap length (ok-injective e2)),
    )
  where
    encodes :
        (a c : List ℕ) → rlp x ≡ ok a → rlp_items xs ≡ ok c → rlp_items (cons x xs) ≡ ok (a ++ c)
    encodes a c ea ec = rw (ea, ec)

Shorter-int :
    (v w : ℕ)
    → length (rlp_bytes (nat_bytes v)) ≤ length (rlp_bytes (nat_bytes w))
    → Shorter (int (pos v)) (int (pos w))
unfolding rlp int_bytes
Shorter-int v w h b e = (rlp_bytes (nat_bytes v), refl, rw (← ok-injective e) h)

scalar-Shorter : (v : ℕ) → v ≤ max_scalar → Shorter (int (pos v)) (int (pos max_scalar))
scalar-Shorter v h = Shorter-int v max_scalar (rw scalar_max (scalar-le v h))

parity-Shorter : (y : ℕ) → y ≤ 1 → Shorter (int (pos y)) (int (pos 1))
parity-Shorter zero h =
    Shorter-int 0 1 (unfold rlp_bytes nat_bytes bit_length count_bits to_bytes in omega arith)
parity-Shorter (suc zero) h = Shorter-refl (int (pos 1))
parity-Shorter (suc (suc y)) h = absurd (omega arith)

list-Shorter : (xs ys : Items) → Below xs ys → Shorter (list xs) (list ys)
unfolding rlp Below
list-Shorter xs ys h b e =
    let (q, eq, e1) = bind-eq-ok (rlp_items ys) _ e in
    let (p, ep, le) = h q eq in (rlp_list p, rw ep, rw (← ok-injective e1) (rlp_list_mono p q le))

module _ (chain_id nonce max_priority_fee max_fee gas_limit : ℤ) where
  fields-Below :
      (to calldata : List ℕ) (y r s : ℕ)
      → y ≤ 1
      → r ≤ max_scalar
      → s ≤ max_scalar
      → Below
          (signed_fields chain_id nonce max_priority_fee max_fee gas_limit to calldata
            (pos y)
            (pos r)
            (pos s))
          (signed_fields chain_id nonce max_priority_fee max_fee gas_limit to calldata
            (pos 1)
            (pos max_scalar)
            (pos max_scalar))
  fields-Below to calldata y r s hy hr hs = same (int chain_id) _ _ (
      same (int nonce) _ _ (
        same (int max_priority_fee) _ _ (
          same (int max_fee) _ _ (
            same (int gas_limit) _ _ (
              same (bytes to) _ _ (
                same (int (pos 0)) _ _ (
                  same (bytes calldata) _ _ (
                    same (list nil) _ _ (
                      Below-cons _ _ _ _ (parity-Shorter y hy) (
                        Below-cons _ _ _ _ (scalar-Shorter r hr)
                          (Below-cons _ _ _ _ (scalar-Shorter s hs) Below-nil)))))))))))
    where
      same : (x : Item) (xs ys : Items) → Below xs ys → Below (cons x xs) (cons x ys)
      same x xs ys h = Below-cons x x xs ys (Shorter-refl x) h

  -- If the conservative size is computed, then every signature (y, r, s) with y at most 1 and r and s
  -- below 2 ^ 256 gives a transaction, and it is no longer than that size.
  pub signed_size-le-conservative :
      (to calldata : Text) (y r s size : ℕ)
      → y ≤ 1
      → r ≤ max_scalar
      → s ≤ max_scalar
      → conservative_eip1559_signed_size chain_id nonce max_priority_fee max_fee gas_limit to
          calldata
        ≡ ok size
      → (actual : ℕ) × (signed_size chain_id nonce max_priority_fee max_fee gas_limit to calldata
            (pos y)
            (pos r)
            (pos s)
          ≡ ok actual)
        × (actual ≤ size)
  unfolding conservative_eip1559_signed_size signed_size
  signed_size-le-conservative to calldata y r s size hy hr hs e =
      let (t, et, e1) = bind-eq-ok (unhex to) _ e in
      let (d, ed, e2) = bind-eq-ok (unhex calldata) _ e1 in
      let (b, eb, e3) = bind-eq-ok (rlp (list _)) _ e2 in
      let (a, ea, le) = list-Shorter _ _ (fields-Below t d y r s hy hr hs) b eb in
      (1 + length a, sized t d a et ed ea, omega (arith, le, ok-injective e3))
    where
      sized :
          (t d a : List ℕ)
          → unhex to ≡ ok t
          → unhex calldata ≡ ok d
          → rlp (
              list (
                signed_fields chain_id nonce max_priority_fee max_fee gas_limit t d
                  (pos y)
                  (pos r)
                  (pos s)))
            ≡ ok a
          → signed_size chain_id nonce max_priority_fee max_fee gas_limit to calldata
              (pos y)
              (pos r)
              (pos s)
            ≡ ok (1 + length a)
      sized t d a et ed ea = rw (et, ed, ea)

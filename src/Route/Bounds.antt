-- ===== src/Route/Bounds.antt =====
-- The sizes that `_candidate_amounts` of python/src/arb_bot/route_engine.py proposes are within
-- their bounds, and its loop ends.
use native.Mathlib.Nat.{pow-suc}
use base_arb_bot.Prelude.{
  ℕ, zero, suc, ◌/◌, ◌^◌, ◌≤◌, ◌<◌, ◌≡◌, refl, max, Bool, true, false, ◌&&◌, List, [], ◌∷◌, length,
  ltb, ◌==◌, ◌⊎◌, inl, All, arith, ==_refl,
}
use base_arb_bot.Prelude.Numbers.{
  add_number, number_set, mem_number, IsIncreasing, add_number-IsIncreasing, All-add_number,
  mem-add_number, length-add_number_le, number_set-IsIncreasing,
}
use base_arb_bot.Rlp.{bit_length}
use base_arb_bot.Rlp.Minimal.{bit_length_bounds}
use base_arb_bot.Route.Sizing.{halve, candidate_amounts}

-- What the sizes for a balance must be.
pub record AreSizes (limit upper : ℕ) (values : List ℕ) : Type 0 where
  pub increasing : IsIncreasing values
  pub bounded : All (λ x. (1 ≤ x) × (x ≤ upper)) values
  pub has_least : mem_number 1 values ≡ true
  pub has_greatest : mem_number upper values ≡ true
  pub few : length values ≤ max 2 limit

mem_kept :
    (x z : ℕ) (values : List ℕ)
    → mem_number z values ≡ true
    → mem_number z (add_number x values) ≡ true
mem_kept x z values h = ground (arith, mem-add_number x z values)

add_size :
    (limit upper x : ℕ) (values : List ℕ)
    → (1 ≤ x) × (x ≤ upper)
    → length values < limit
    → AreSizes limit upper values
    → AreSizes limit upper (add_number x values)
add_size limit upper x values b l s = record {
  increasing = add_number-IsIncreasing x values s.increasing;
  bounded = All-add_number (λ y. (1 ≤ y) × (y ≤ upper)) x values b s.bounded;
  has_least = mem_kept x 1 values s.has_least;
  has_greatest = mem_kept x upper values s.has_greatest;
  few = omega (arith, length-add_number_le x values);
}

halve-AreSizes :
    (limit upper fuel x : ℕ) (values : List ℕ)
    → 1 ≤ upper
    → x ≤ upper
    → AreSizes limit upper values
    → AreSizes limit upper (halve limit fuel x values)
unfolding halve
halve-AreSizes limit upper zero x values p h s = s
halve-AreSizes limit upper (suc fuel) x values p h s =
    by_test (ltb 1 x && ltb (length values) limit) (λ e.
      halve-AreSizes limit upper fuel (x / 2) (add_number (max 1 (x / 2)) values) p (omega arith)
        (add_size limit upper (max 1 (x / 2)) values (omega arith, omega arith) (ground (arith)) s))
  where
    by_test :
        (b : Bool)
        → (b ≡ true
            → AreSizes limit upper (halve limit fuel (x / 2) (add_number (max 1 (x / 2)) values)))
        → AreSizes limit upper (elim b [
          | true ↦ halve limit fuel (x / 2) (add_number (max 1 (x / 2)) values)
          | false ↦ values
        ])
    by_test true r = r refl
    by_test false r = s

first_sizes : (limit upper : ℕ) → 1 ≤ upper → AreSizes limit upper (number_set (upper ∷ 1 ∷ []))
unfolding number_set add_number mem_number
first_sizes limit upper p = record {
  increasing = number_set-IsIncreasing (upper ∷ 1 ∷ []);
  bounded =
      All-add_number (λ y. (1 ≤ y) × (y ≤ upper)) upper (1 ∷ []) (p, omega arith)
        ((omega arith, p), tt);
  has_least = mem_kept upper 1 (1 ∷ []) refl;
  has_greatest = ground (arith, mem-add_number upper upper (1 ∷ []), ==_refl upper);
  few = omega (arith, length-add_number_le upper (1 ∷ []));
}

nonzero : (n : ℕ) → 1 ≤ n → (n == 0) ≡ false
nonzero n h = ground (arith)

-- For a positive balance the proposed sizes are in ascending order without duplicates, each is at
-- least 1 and at most the balance, 1 and the balance are among them, and there are at most
-- `limit` of them, or two where the limit is less.
pub candidate_amounts-AreSizes :
    (limit upper : ℕ) → 1 ≤ upper → AreSizes limit upper (candidate_amounts limit upper)
unfolding candidate_amounts
candidate_amounts-AreSizes limit upper p = rw (nonzero upper p) (
    halve-AreSizes limit upper (bit_length upper) upper (number_set (upper ∷ 1 ∷ [])) p
      (omega arith) (first_sizes limit upper p))

-- The loop `while x > 1 and len(values) < limit: x //= 2; values.add(max(1, x))`, run for a number
-- of rounds until its test fails.
pub data Halves (limit : ℕ) : ℕ → ℕ → List ℕ → List ℕ → Type 0 where
  stops :
      {x : ℕ} {values : List ℕ} → (x ≤ 1) ⊎ (limit ≤ length values) → Halves limit 0 x values values
  rounds :
      {n x : ℕ} {values final : List ℕ}
      → 1 < x
      → length values < limit
      → Halves limit n (x / 2) (add_number (max 1 (x / 2)) values) final
      → Halves limit (suc n) x values final

-- The loop ends by its test after a number of rounds that is at most the bound.
pub record EndsWithin (limit bound x : ℕ) (values final : List ℕ) : Type 0 where
  pub count : ℕ
  pub few_rounds : count ≤ bound
  pub run : Halves limit count x values final

halve-EndsWithin :
    (limit fuel x : ℕ) (values : List ℕ)
    → x < 2 ^ fuel
    → EndsWithin limit fuel x values (halve limit fuel x values)
unfolding halve
halve-EndsWithin limit zero x values h = record {
  count = 0;
  few_rounds = omega arith;
  run = stops (inl (omega arith));
}
halve-EndsWithin limit (suc fuel) x values h = by_test (ltb 1 x && ltb (length values) limit) refl (
    halve-EndsWithin limit fuel (x / 2) (add_number (max 1 (x / 2)) values)
      (omega (arith, pow-suc 2 fuel)))
  where
    by_test :
        (b : Bool)
        → (ltb 1 x && ltb (length values) limit) ≡ b
        → EndsWithin limit fuel
            (x / 2)
            (add_number (max 1 (x / 2)) values)
            (halve limit fuel (x / 2) (add_number (max 1 (x / 2)) values))
        → EndsWithin limit (suc fuel) x values (elim b as (λ c. List ℕ) [
          | true ↦ halve limit fuel (x / 2) (add_number (max 1 (x / 2)) values)
          | false ↦ values
        ])
    by_test true e r = record {
      count = suc (r.count);
      few_rounds = omega (arith, r.few_rounds);
      run = rounds (ground (arith)) (ground (arith)) (r.run);
    }
    by_test false e r = record { count = 0; few_rounds = omega arith; run = stops (ground (arith)) }

-- For a positive balance the proposed sizes are what the loop `while x > 1 and len(values) < limit`
-- leaves, run from the balance until its test fails, and it fails after at most as many rounds as
-- the balance has bits.
pub candidate_amounts-EndsWithin :
    (limit upper : ℕ)
    → 1 ≤ upper
    → EndsWithin limit
        (bit_length upper)
        upper
        (number_set (upper ∷ 1 ∷ []))
        (candidate_amounts limit upper)
unfolding candidate_amounts
candidate_amounts-EndsWithin limit upper p = rw (nonzero upper p) (
    halve-EndsWithin limit (bit_length upper) upper (number_set (upper ∷ 1 ∷ []))
      ((bit_length_bounds upper).0))

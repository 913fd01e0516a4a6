-- ===== src/Route/Refine.antt =====
-- The sizes that `_refine_amounts` of python/src/arb_bot/route_engine.py proposes are within their
-- bounds.
use native.Mathlib.Nat.{div-lt_iff_lt-mul, mul-le-mul_left, mul-suc}
use base_arb_bot.Prelude.{
  ℕ, zero, suc, ◌+◌, ◌-◌, ◌*◌, ◌/◌, ◌≤◌, ◌<◌, ◌≢◌, ◌≡◌, refl, get_or, Bool, true, false, not, ◌&&◌,
  ◌||◌, List, [], ◌∷◌, length, ltb, leb, ◌==◌, if◌then◌else◌, All, arith,
}
use base_arb_bot.Prelude.Numbers.{
  add_number, number_set, mem_number, IsIncreasing, add_number-IsIncreasing, All-add_number,
  length-add_number_le, All-number_set, All-mem_number,
}
use base_arb_bot.Route.Sizing.{index_of, between, lower_neighbour, upper_neighbour, refine_amounts}

-- A size between the neighbours of the best one.
abbrev pub IsRefined : (upper best c : ℕ) → Type 0
IsRefined upper best c = (1 ≤ c) × (c < upper) × (c ≢ best)

share_lt : (span k points : ℕ) → 0 < span → k ≤ points → span * k / (points + 1) < span
share_lt span k points p l =
    (div-lt_iff_lt-mul {k = points + 1} {x = span * k} {y = span} (omega arith)).1
      (omega (arith, mul-le-mul_left span l, mul-suc span points))

-- What the sizes of a refinement are, after at most `k` of them.
pub record AreRefined (upper best k : ℕ) (values : List ℕ) : Type 0 where
  pub increasing : IsIncreasing values
  pub refined : All (IsRefined upper best) values
  pub few : length values ≤ k

consider :
    (hi best k c : ℕ) (rest : List ℕ)
    → c < hi
    → AreRefined hi best k rest
    → AreRefined hi best (suc k) (if ltb 0 c && not (c == best) then add_number c rest else rest)
consider hi best k c rest h r = by_test (ltb 0 c && not (c == best)) refl
  where
    by_test :
        (b : Bool)
        → (ltb 0 c && not (c == best)) ≡ b
        → AreRefined hi best (suc k) (if b then add_number c rest else rest)
    by_test true e = record {
      increasing = add_number-IsIncreasing c rest r.increasing;
      refined =
          All-add_number (IsRefined hi best) c rest (ground (arith), h, ground (arith)) r.refined;
      few = omega (arith, length-add_number_le c rest, r.few);
    }
    by_test false e = record {
      increasing = r.increasing;
      refined = r.refined;
      few = omega (arith, r.few);
    }

between-AreRefined :
    (lo span points best k hi : ℕ)
    → 0 < span
    → k ≤ points
    → lo + span ≤ hi
    → AreRefined hi best k (between lo span points best k)
unfolding between
between-AreRefined lo span points best zero hi p l h = record {
  increasing = tt;
  refined = tt;
  few = omega arith;
}
between-AreRefined lo span points best (suc k) hi p l h =
    consider hi best k (lo + span * suc k / (points + 1)) (between lo span points best k)
      (omega (arith, share_lt span (suc k) points p l))
      (between-AreRefined lo span points best k hi p (omega arith) h)

All-get_or : (P : ℕ → Type 0) (xs : List ℕ) (n d : ℕ) → n < length xs → All P xs → P (get_or xs n d)
All-get_or P [] n d l h = absurd (omega arith)
All-get_or P (x ∷ xs) zero d l h = h.0
All-get_or P (x ∷ xs) (suc n) d l h = All-get_or P xs n d (omega arith) h.1

upper_neighbour-le :
    (upper best : ℕ) (ordered : List ℕ)
    → mem_number best ordered ≡ true
    → All (λ x. (1 ≤ x) × (x ≤ upper)) ordered
    → upper_neighbour ordered best ≤ upper
unfolding upper_neighbour
upper_neighbour-le upper best ordered m h =
    by_test (ltb (index_of best ordered + 1) (length ordered)) refl
  where
    by_test :
        (b : Bool)
        → ltb (index_of best ordered + 1) (length ordered) ≡ b
        → (if b then get_or ordered (index_of best ordered + 1) 0 else best) ≤ upper
    by_test true e =
        (All-get_or (λ x. (1 ≤ x) × (x ≤ upper)) ordered (index_of best ordered + 1) 0
          (ground (arith)) h).1
    by_test false e = (All-mem_number (λ x. (1 ≤ x) × (x ≤ upper)) best ordered m h).1

All-IsRefined :
    (hi upper best : ℕ) (xs : List ℕ)
    → hi ≤ upper
    → All (IsRefined hi best) xs
    → All (IsRefined upper best) xs
All-IsRefined hi upper best [] l h = tt
All-IsRefined hi upper best (x ∷ xs) l ((a, b, c), hs) =
    ((a, omega arith, c), All-IsRefined hi upper best xs l hs)

refined_between :
    (upper best points : ℕ) (ordered : List ℕ) (lo hi : ℕ)
    → (mem_number best ordered ≡ true → hi ≤ upper)
    → AreRefined upper best points (
        if (points == 0) || not (mem_number best ordered) || leb hi lo
        then []
        else between lo (hi - lo) points best points)
refined_between upper best points ordered lo hi h =
    by_test ((points == 0) || not (mem_number best ordered) || leb hi lo) refl
  where
    by_test :
        (b : Bool)
        → ((points == 0) || not (mem_number best ordered) || leb hi lo) ≡ b
        → AreRefined upper best points (if b then [] else between lo (hi - lo) points best points)
    by_test true e = record { increasing = tt; refined = tt; few = omega arith }
    by_test false e =
        let r =
          between-AreRefined lo (hi - lo) points best points hi (ground (arith)) (omega arith)
            (ground (arith)) in
        record {
          increasing = r.increasing;
          refined = All-IsRefined hi upper best _ (h (ground (arith))) r.refined;
          few = r.few;
        }

-- When the sizes of the grid are between 1 and the balance, the refinement proposes at most
-- `points` sizes, in ascending order without duplicates; each is at least 1, less than the
-- balance, and not the best size.
pub refine_amounts-AreRefined :
    (upper best points : ℕ) (grid : List ℕ)
    → All (λ x. (1 ≤ x) × (x ≤ upper)) grid
    → AreRefined upper best points (refine_amounts grid best points)
unfolding refine_amounts
refine_amounts-AreRefined upper best points grid h =
    refined_between upper best points (number_set grid) (lower_neighbour (number_set grid) best)
      (upper_neighbour (number_set grid) best)
      (λ m. upper_neighbour-le upper best (number_set grid) m (All-number_set _ grid h))

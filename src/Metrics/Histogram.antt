-- ===== src/Metrics/Histogram.antt =====
-- The histogram of python/src/arb_bot/metrics.py stays consistent, whatever calls are made.
use base_arb_bot.Metrics.{
  Floats, Metrics, initial, inc, bump, with_first, counted, observe_latency_ms, cumulative_rows,
  last_count, histogram_rows, infinite_count, latency_buckets_ms,
}
use base_arb_bot.Prelude.{
  ℕ, suc, ◌+◌, ◌≤◌, Bool, true, false, List, [], ◌∷◌, length, if◌then◌else◌, Option, none, some,
  ◌≡◌, refl, ap, ◌∙◌, arith,
}
use base_arb_bot.Prelude.Text.{Text}
use base_arb_bot.Prelude.Int.{ℤ}

abbrev total_of : List ℕ → ℕ
total_of [] = 0
total_of (count ∷ counts) = count + total_of counts

-- The counts of a histogram never fall from one bucket to the next.
abbrev pub AreCumulative : ℕ → List (ℕ × ℕ) → Type 0
AreCumulative n [] = Unit
AreCumulative n ((bound, m) ∷ rows) = (n ≤ m) × AreCumulative m rows

cumulative_rows-AreCumulative :
    (n : ℕ) (bounds counts : List ℕ) → AreCumulative n (cumulative_rows n bounds counts)
unfolding cumulative_rows
cumulative_rows-AreCumulative n [] counts = tt
cumulative_rows-AreCumulative n (b ∷ bounds) [] = tt
cumulative_rows-AreCumulative n (b ∷ bounds) (c ∷ counts) =
    (omega arith, cumulative_rows-AreCumulative (n + c) bounds counts)

last_count-total :
    (n : ℕ) (bounds counts : List ℕ)
    → length counts ≡ length bounds
    → last_count n (cumulative_rows n bounds counts) ≡ n + total_of counts
unfolding cumulative_rows last_count
last_count-total n [] [] h = omega arith
last_count-total n [] (c ∷ counts) h = absurd (omega arith)
last_count-total n (b ∷ bounds) [] h = absurd (omega arith)
last_count-total n (b ∷ bounds) (c ∷ counts) h =
    omega (arith, last_count-total (n + c) bounds counts (omega arith))

module _ (floats : Floats) where
  -- The sum of the values, the last one first.
  abbrev pub sum_of : List (floats.Float) → floats.Float
  sum_of [] = floats.zero_float
  sum_of (value ∷ values) = floats.add_float (sum_of values) value

  -- What calls of the module reach from the start, with the latencies that were observed, the last
  -- one first.
  pub data Reaches : List (floats.Float) → Metrics floats → Type 0 where
    start : Reaches [] (initial floats)
    incremented :
        {values : List (floats.Float)} {m : Metrics floats} (name : Text) (amount : ℤ)
        → Reaches values m
        → Reaches values (inc floats name amount m)
    observed :
        {values : List (floats.Float)} {m : Metrics floats} (value : floats.Float)
        → Reaches values m
        → Reaches (value ∷ values) (observe_latency_ms floats value m)

  record IsCounted (values : List (floats.Float)) (m : Metrics floats) : Type 0 where
    width : length (m.latency_counts) ≡ length latency_buckets_ms
    counts : total_of (m.latency_counts) + m.latency_over ≡ length values
    total : m.latency_total ≡ length values
    sum : m.latency_sum ≡ sum_of values

  -- Bumping adds one to the total.
  abbrev Bumps : List ℕ → Option (List ℕ) → Type 0
  Bumps counts none = Unit
  Bumps counts (some bumped) =
      (length bumped ≡ length counts) × (total_of bumped ≡ suc (total_of counts))

  bump-Bumps :
      (value : floats.Float) (bounds counts : List ℕ)
      → Bumps counts (bump floats value bounds counts)
  unfolding bump
  bump-Bumps value [] counts = tt
  bump-Bumps value (b ∷ bounds) [] = tt
  bump-Bumps value (b ∷ bounds) (c ∷ counts) =
      by_test (floats.at_most value b) (bump floats value bounds counts)
        (bump-Bumps value bounds counts)
    where
      by_test :
          (t : Bool) (o : Option (List ℕ))
          → Bumps counts o
          → Bumps (c ∷ counts) (if t then some (suc c ∷ counts) else with_first c o)
      by_test true o h = (refl, omega arith)
      by_test false none h = tt
      by_test false (some cs) (l, s) = (omega (arith, l), omega (arith, s))

  inc-IsCounted :
      (name : Text) (amount : ℤ) (values : List (floats.Float)) (m : Metrics floats)
      → IsCounted values m
      → IsCounted values (inc floats name amount m)
  unfolding inc
  inc-IsCounted name amount values m h = record {
    width = h.width;
    counts = h.counts;
    total = h.total;
    sum = h.sum;
  }

  observe-IsCounted :
      (value : floats.Float) (values : List (floats.Float)) (m : Metrics floats)
      → IsCounted values m
      → IsCounted (value ∷ values) (observe_latency_ms floats value m)
  unfolding observe_latency_ms
  observe-IsCounted value values m h =
      by_bump (bump floats value latency_buckets_ms (m.latency_counts))
        (bump-Bumps value latency_buckets_ms (m.latency_counts))
    where
      after : Metrics floats
      after = record m {
        latency_total = suc (m.latency_total);
        latency_sum = floats.add_float (m.latency_sum) value;
      }

      by_bump :
          (o : Option (List ℕ))
          → Bumps (m.latency_counts) o
          → IsCounted (value ∷ values) (counted floats o after)
      by_bump none b = record {
        width = h.width;
        counts = omega (arith, h.counts);
        total = ap suc h.total;
        sum = ap (λ x. floats.add_float x value) h.sum;
      }
      by_bump (some counts) (l, s) = record {
        width = l ∙ h.width;
        counts = omega (arith, s, h.counts);
        total = ap suc h.total;
        sum = ap (λ x. floats.add_float x value) h.sum;
      }

  Reaches-IsCounted :
      (values : List (floats.Float)) (m : Metrics floats) → Reaches values m → IsCounted values m
  Reaches-IsCounted values m start = record {
    width = refl;
    counts = refl;
    total = refl;
    sum = refl;
  }
  Reaches-IsCounted values m (incremented {m = k} name amount r) =
      inc-IsCounted name amount values k (Reaches-IsCounted values k r)
  Reaches-IsCounted _ m (observed {values = vs} {m = k} value r) =
      observe-IsCounted value vs k (Reaches-IsCounted vs k r)

  -- Whatever calls of `inc` and `observe_latency_ms` were made since the start, the counts of the
  -- rendered histogram never fall from one bucket to the next, the last of them is not above that
  -- of "+Inf", the count of "+Inf" and the rendered total are the number of the latencies that were
  -- observed, and the rendered sum is theirs.
  pub Reaches-histogram :
      (values : List (floats.Float)) (m : Metrics floats)
      → Reaches values m
      → AreCumulative 0 (histogram_rows floats m)
        × (last_count 0 (histogram_rows floats m) ≤ infinite_count floats m)
        × (infinite_count floats m ≡ length values)
        × (m.latency_total ≡ length values)
        × (m.latency_sum ≡ sum_of values)
  unfolding histogram_rows infinite_count
  Reaches-histogram values m r =
      let h = Reaches-IsCounted values m r in
      (
        cumulative_rows-AreCumulative 0 latency_buckets_ms (m.latency_counts),
        omega arith,
        omega (arith, h.counts, last_count-total 0 latency_buckets_ms (m.latency_counts) h.width),
        h.total,
        h.sum,
      )

-- ===== src/Metrics.antt =====
-- The metrics (python/src/arb_bot/metrics.py): the module's variables as one state, and its three
-- functions. The floats are an argument: their addition, their comparison with a bucket's bound,
-- and their text. The lock is left out, since each function holds it while it reads or writes.
pub mod Histogram
mod Tests
use base_arb_bot.Finalize.Run.{decimal}
use base_arb_bot.Prelude.{
  ℕ, suc, ◌+◌, Bool, true, false, List, [], ◌∷◌, ◌++◌, if◌then◌else◌, Option, none, some,
}
use base_arb_bot.Prelude.Text.{Text, codes}
use base_arb_bot.Prelude.Int.{ℤ, pos, negsuc, ◌+ℤ◌}
use base_arb_bot.Prelude.Dict.{Dict, get, put}

abbrev pub latency_buckets_ms : List ℕ
latency_buckets_ms = 50 ∷ 100 ∷ 250 ∷ 500 ∷ 1000 ∷ 2000 ∷ 5000 ∷ 10000 ∷ 30000 ∷ []

pub record Floats : Type 1 where
  pub Float : Type 0
  pub zero_float : Float
  pub add_float : Float → Float → Float
  pub at_most : Float → ℕ → Bool
  pub show_float : Float → Text

abbrev pub or_zero : Option ℤ → ℤ
or_zero none = pos 0
or_zero (some n) = n

-- `"\n".join(lines) + "\n"`
unfoldable pub lines_text : List Text → Text
lines_text [] = []
lines_text (line ∷ lines) = line ++ (10 ∷ lines_text lines)

abbrev pub zeros_for : List ℕ → List ℕ
zeros_for [] = []
zeros_for (bound ∷ bounds) = 0 ∷ zeros_for bounds

-- The counters that the module starts with.
abbrev pub first_counters : Dict ℤ
first_counters =
    (codes "arb_route_triggers_total", pos 0)
    ∷ (codes "arb_route_triggers_known_pool_total", pos 0)
    ∷ (codes "arb_route_triggers_unknown_pool_total", pos 0)
    ∷ (codes "arb_route_evaluations_total", pos 0)
    ∷ (codes "arb_route_submission_eligible_total", pos 0)
    ∷ []

-- `str(n)` of an integer.
abbrev pub signed_decimal : ℤ → Text
signed_decimal (pos n) = decimal n
signed_decimal (negsuc n) = codes "-" ++ decimal (suc n)

unfoldable pub counter_lines : Dict ℤ → List Text
counter_lines [] = []
counter_lines ((name, value) ∷ counters) =
    (codes "# TYPE " ++ name ++ codes " counter")
    ∷ (name ++ codes " " ++ signed_decimal value)
    ∷ counter_lines counters

-- The bounds with the cumulative counts, from the count so far.
unfoldable pub cumulative_rows : ℕ → List ℕ → List ℕ → List (ℕ × ℕ)
cumulative_rows cumulative [] counts = []
cumulative_rows cumulative (bound ∷ bounds) [] = []
cumulative_rows cumulative (bound ∷ bounds) (count ∷ counts) =
    (bound, cumulative + count) ∷ cumulative_rows (cumulative + count) bounds counts

abbrev pub bucket_line : Text → ℕ → Text
bucket_line bound cumulative =
    codes "arb_route_eval_latency_ms_bucket{le=\"" ++ bound ++ codes "\"} " ++ decimal cumulative

unfoldable pub bucket_lines : List (ℕ × ℕ) → List Text
bucket_lines [] = []
bucket_lines ((bound, cumulative) ∷ rows) =
    bucket_line (decimal bound) cumulative ∷ bucket_lines rows

-- The last cumulative count of the rows.
unfoldable pub last_count : ℕ → List (ℕ × ℕ) → ℕ
last_count cumulative [] = cumulative
last_count cumulative ((bound, n) ∷ rows) = last_count n rows

abbrev pub with_first : ℕ → Option (List ℕ) → Option (List ℕ)
with_first count none = none
with_first count (some counts) = some (count ∷ counts)

module _ (floats : Floats) where
  pub record Metrics : Type 0 where
    pub counters : Dict ℤ
    pub latency_counts : List ℕ
    pub latency_over : ℕ
    pub latency_sum : floats.Float
    pub latency_total : ℕ

  abbrev pub initial : Metrics
  initial = record {
    counters = first_counters;
    latency_counts = zeros_for latency_buckets_ms;
    latency_over = 0;
    latency_sum = floats.zero_float;
    latency_total = 0;
  }

  unfoldable pub inc : Text → ℤ → Metrics → Metrics
  inc name amount m = record m {
    counters = put name (or_zero (get name (m.counters)) +ℤ amount) (m.counters);
  }

  -- One more in the first bucket whose bound the value does not exceed; none if it exceeds all.
  unfoldable pub bump : floats.Float → List ℕ → List ℕ → Option (List ℕ)
  bump value [] counts = none
  bump value (bound ∷ bounds) [] = none
  bump value (bound ∷ bounds) (count ∷ counts) =
      let rest = bump value bounds counts in
      if floats.at_most value bound then some (suc count ∷ counts) else with_first count rest

  abbrev pub counted : Option (List ℕ) → Metrics → Metrics
  counted none m = record m { latency_over = suc (m.latency_over) }
  counted (some counts) m = record m { latency_counts = counts }

  unfoldable pub observe_latency_ms : floats.Float → Metrics → Metrics
  observe_latency_ms value m = counted (bump value latency_buckets_ms (m.latency_counts)) record m {
    latency_total = suc (m.latency_total);
    latency_sum = floats.add_float (m.latency_sum) value;
  }

  -- The rows of the histogram, and the count of its last bucket, "+Inf".
  unfoldable pub histogram_rows : Metrics → List (ℕ × ℕ)
  histogram_rows m = cumulative_rows 0 latency_buckets_ms (m.latency_counts)

  unfoldable pub infinite_count : Metrics → ℕ
  infinite_count m = last_count 0 (histogram_rows m) + m.latency_over

  unfoldable pub gauge_lines : List (Text × floats.Float) → List Text
  gauge_lines [] = []
  gauge_lines ((name, value) ∷ gauges) =
      (codes "# TYPE " ++ name ++ codes " gauge")
      ∷ (name ++ codes " " ++ floats.show_float value)
      ∷ gauge_lines gauges

  unfoldable pub render : List (Text × floats.Float) → Metrics → Text
  render gauges m = lines_text (
      counter_lines (m.counters)
      ++ (codes "# TYPE arb_route_eval_latency_ms histogram" ∷ [])
      ++ bucket_lines (histogram_rows m)
      ++ (bucket_line (codes "+Inf") (infinite_count m)
          ∷ (codes "arb_route_eval_latency_ms_sum " ++ floats.show_float (m.latency_sum))
          ∷ (codes "arb_route_eval_latency_ms_count " ++ decimal (m.latency_total))
          ∷ [])
      ++ gauge_lines gauges)

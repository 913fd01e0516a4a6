-- ===== src/Metrics/Tests.antt =====
-- A concrete run of the metrics (python/src/arb_bot/metrics.py).
use base_arb_bot.Metrics.{
  Floats, Metrics, initial, inc, bump, observe_latency_ms, histogram_rows, infinite_count,
  cumulative_rows, last_count,
}
use base_arb_bot.Metrics.Histogram.{start, observed, incremented, AreCumulative, Reaches-histogram}
use base_arb_bot.Prelude.{ℕ, [], ◌∷◌, ◌+◌, ◌≤◌, leb, ◌≡◌, refl}
use base_arb_bot.Prelude.Text.{codes}
use base_arb_bot.Prelude.Int.{pos}

-- Whole numbers of milliseconds.
abbrev sample_floats : Floats
sample_floats = record {
  Float = ℕ;
  zero_float = 0;
  add_float = λ a b. a + b;
  at_most = leb;
  show_float = λ a. codes "?";
}

abbrev sample_metrics : Metrics sample_floats
sample_metrics = observe_latency_ms sample_floats 40000 (
    inc sample_floats (codes "arb_route_triggers_total") (pos 2)
      (observe_latency_ms sample_floats 70 (initial sample_floats)))

sample-count : infinite_count sample_floats sample_metrics ≡ 2
unfolding infinite_count histogram_rows cumulative_rows last_count observe_latency_ms bump inc
sample-count = refl

Reaches-histogram_example :
    AreCumulative 0 (histogram_rows sample_floats sample_metrics)
    × (last_count 0 (histogram_rows sample_floats sample_metrics)
        ≤ infinite_count sample_floats sample_metrics)
    × (infinite_count sample_floats sample_metrics ≡ 2)
    × (sample_metrics.latency_total ≡ 2)
    × (sample_metrics.latency_sum ≡ 40070)
Reaches-histogram_example =
    Reaches-histogram sample_floats (40000 ∷ 70 ∷ []) sample_metrics
      (observed 40000 (incremented (codes "arb_route_triggers_total") (pos 2) (observed 70 start)))

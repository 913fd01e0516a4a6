-- ===== src/Route/Candidate.antt =====
-- The fields of a packed candidate: `ExecutionFinalizer.packed_candidate_dict` of
-- python/src/arb_bot/execution.py.
use base_arb_bot.Finalize.{
  Reply, Outside, Settings, ExecutionFinalization, adapter_data, adapter_for,
}
use base_arb_bot.Finalize.Run.{item}
use base_arb_bot.Graph.{PoolMetadata, Cycle, LivePoolGraph}
use base_arb_bot.Batch.{LegDict, CandidateDict}
use base_arb_bot.Route.Quotes.{Quote}
use base_arb_bot.Prelude.{
  ℕ, ◌+◌, List, [], ◌∷◌, ◌++◌, if◌then◌else◌, ok, ◌>>=◌, ◌>>◌, Option, none, some,
}
use base_arb_bot.Prelude.Text.{Text, codes}
use base_arb_bot.Prelude.Bytes.{to_hex}
use base_arb_bot.Prelude.Int.{ℤ, pos, ◌-ℤ◌, leb_ℤ}

-- `ExecutionFinalizer(graph, registry)`: the settings, the graph and what is outside.
pub record Finalizer : Type 0 where
  pub outside : Outside
  pub settings : Settings
  pub graph : LivePoolGraph

-- `if not adapter: return None`
abbrev pub unless_empty : {A : Type 0} → Text → Reply (Option A) → Reply (Option A)
unless_empty [] continue = ok none
unless_empty (c ∷ adapter) continue = continue

abbrev pub add_leg : LegDict → Option (List LegDict) → Option (List LegDict)
add_leg leg none = none
add_leg leg (some legs) = some (leg ∷ legs)

-- The legs of `packed_candidate_dict`, from the pool of the given index on; none where an adapter
-- is not configured.
unfoldable pub packed_legs :
    Finalizer → Cycle → List Quote → ℕ → List PoolMetadata → Reply (Option (List LegDict))
packed_legs finalizer cycle quotes index [] = ok (some [])
packed_legs finalizer cycle quotes index (pool ∷ pools) = do
  adapter ← adapter_for (finalizer.settings) pool
  unless_empty adapter (do
    token_in ← item (cycle.tokens) index
    token_out ← item (cycle.tokens) (index + 1)
    quote ← item quotes index
    encoded ← adapter_data (finalizer.outside) pool
    legs ← packed_legs finalizer cycle quotes (index + 1) pools
    ok (
        add_leg
          record {
            adapter = adapter;
            token_in = token_in;
            token_out = token_out;
            min_out = pos (quote.amount_out);
            leg_data = codes "0x" ++ to_hex encoded;
          }
          legs))

-- What `packed_candidate_dict` needs of the finalization: the target block, the deadline and the
-- premium, where the net profit is known too.
abbrev pub all_known :
    {A B C D : Type 0} → Option A → Option B → Option C → Option D → Option (A × (B × C))
all_known (some a) (some b) (some c) (some d) = some (a, (b, c))
all_known (some a) (some b) (some c) none = none
all_known (some a) (some b) none d = none
all_known (some a) none c d = none
all_known none b c d = none

module _ (finalizer : Finalizer) (cycle : Cycle) (amount_in amount_out : ℕ)
    (quotes : List Quote) where
  abbrev pub packed_profit : ℕ → ℤ
  packed_profit premium = pos amount_out -ℤ pos amount_in -ℤ pos premium

  unfoldable pub packed_of : ℕ → ℕ → ℕ → Option (List LegDict) → Reply (Option CandidateDict)
  packed_of target_block deadline premium none = ok none
  packed_of target_block deadline premium (some legs) =
      if leb_ℤ (packed_profit premium) (pos 0) then ok none else (do
        asset ← item (cycle.tokens) 0
        ok (
            some record {
              asset = asset;
              amount = pos amount_in;
              target_block = pos target_block;
              deadline = pos deadline;
              min_profit = packed_profit premium;
              legs = legs;
            }))

  unfoldable pub packed_known : Option (ℕ × (ℕ × ℕ)) → Reply (Option CandidateDict)
  packed_known none = ok none
  packed_known (some (target_block, (deadline, premium))) = do
    finalizer.outside.open_runtime
    legs ← packed_legs finalizer cycle quotes 0 (cycle.pools)
    packed_of target_block deadline premium legs

  unfoldable pub packed_candidate_dict : ExecutionFinalization → Reply (Option CandidateDict)
  packed_candidate_dict final = packed_known (
      all_known (final.target_block) (final.deadline) (final.flashloan_premium_units)
        (final.deterministic_net_profit_units))

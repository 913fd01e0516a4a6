-- ===== src/Batch/Trim.antt =====
-- `PackedBatchFinalizer.finalize` (python/src/arb_bot/batch_execution.py): one pass of its loop, and
-- the loop.
use base_arb_bot.Batch.{
  LegDict, CandidateDict, Row, Kept, PackedBatchPlan, compatible_groups, packed_reply, least_profit,
}
use base_arb_bot.Finalize.{SimulationResult, Settings, Reply, Call, Outside}
use base_arb_bot.Finalize.Converter.{convert}
use base_arb_bot.Finalize.Run.{or_none, size_reply, error_text, larger_gas}
use base_arb_bot.Graph.{LivePoolGraph}
use base_arb_bot.Rlp.{conservative_eip1559_signed_size}
use base_arb_bot.Packed.{PackedLeg, PackedCandidate, PackedBatch, hex_bytes, encode_packed_batch}
use base_arb_bot.Prelude.{
  ℕ, zero, suc, ◌+◌, ◌*◌, Bool, true, false, ◌&&◌, List, [], ◌∷◌, ◌++◌, length, take, drop, ◌==◌,
  if◌then◌else◌, ok, err, ◌>>=◌, ◌>>◌, Option, none, some, min, max,
}
use base_arb_bot.Prelude.Text.{Text, codes, starts_with, lower}
use base_arb_bot.Prelude.Bytes.{from_hex}
use base_arb_bot.Prelude.Int.{ℤ, pos, ◌-ℤ◌, ltb_ℤ}

-- The outcome of one pass: the plan is returned, or the last row is dropped.
pub data Pass : Type 0 where
  finished : PackedBatchPlan → Pass
  trimmed : Pass

abbrev pub raw_reply : Option (List ℕ) → Reply (List ℕ)
raw_reply none = err (codes "ValueError")
raw_reply (some raw) = ok raw

-- A plan that was not built.
unfoldable pub no_plan : List Text → PackedBatchPlan
no_plan blockers = record {
  batch_hash = none;
  calldata = none;
  asset = none;
  amount = none;
  target_block = none;
  candidate_route_ids = [];
  simulation_success = false;
  simulation_gas_units = none;
  estimate_gas_units = none;
  gas_cost_asset_units = none;
  deterministic_net_profit_units = none;
  submission_eligible = false;
  blockers = blockers;
}

abbrev pub route_ids : List Kept → List Text
route_ids [] = []
route_ids (row ∷ rows) = row.route_id ∷ route_ids rows

-- A plan that was built and then refused.
unfoldable pub refused :
    Text × Text → PackedBatch → List Kept → Bool → Option ℕ → Text → PackedBatchPlan
refused encoded batch rows success gas_used blocker = record {
  batch_hash = some (encoded.1);
  calldata = some (encoded.0);
  asset = some (batch.asset);
  amount = some (batch.amount);
  target_block = some (batch.target_block);
  candidate_route_ids = route_ids rows;
  simulation_success = success;
  simulation_gas_units = gas_used;
  estimate_gas_units = none;
  gas_cost_asset_units = none;
  deterministic_net_profit_units = none;
  submission_eligible = false;
  blockers = blocker ∷ [];
}

unfoldable pub paid :
    Text × Text
    → PackedBatch
    → List Kept
    → SimulationResult
    → Option ℕ
    → ℕ
    → ℤ
    → List Text
    → PackedBatchPlan
paid encoded batch rows simulation estimate gas_asset net blockers = record {
  batch_hash = some (encoded.1);
  calldata = some (encoded.0);
  asset = some (batch.asset);
  amount = some (batch.amount);
  target_block = some (batch.target_block);
  candidate_route_ids = route_ids rows;
  simulation_success = true;
  simulation_gas_units = simulation.gas_used;
  estimate_gas_units = estimate;
  gas_cost_asset_units = some gas_asset;
  deterministic_net_profit_units = some net;
  submission_eligible = true;
  blockers = blockers;
}

abbrev pub none_left : List Text → PackedBatchPlan
none_left blockers =
    no_plan (blockers ++ (codes "no_profitable_packed_batch_after_exact_costs" ∷ []))

module _ (outside : Outside) (sha256 : Text → Text)
    (encode_start_packed : Text → List ℕ → Reply (Text × Text)) (settings : Settings)
    (graph : LivePoolGraph) where
  -- `candidate_id` of packed_batch.py
  unfoldable pub candidate_id : Text → Reply Text
  candidate_id route_id =
      if starts_with route_id (codes "0x") && (length route_id == 66)
      then (do raw ← packed_reply (hex_bytes route_id 32 (codes "route_id")); ok (lower route_id))
      else ok (codes "0x" ++ sha256 route_id)

  unfoldable pub to_legs : List LegDict → Reply (List PackedLeg)
  to_legs [] = ok []
  to_legs (leg ∷ legs) = do
    raw ← raw_reply (from_hex (drop 2 (leg.leg_data)))
    rest ← to_legs legs
    ok (
        record {
          adapter = leg.adapter;
          token_in = leg.token_in;
          token_out = leg.token_out;
          min_out = leg.min_out;
          leg_data = raw;
        }
        ∷ rest)

  unfoldable pub to_candidates : List Kept → Reply (List PackedCandidate)
  to_candidates [] = ok []
  to_candidates (row ∷ rows) = do
    id ← candidate_id (row.route_id)
    legs ← to_legs (row.candidate.legs)
    rest ← to_candidates rows
    ok (record { candidate_id = id; min_profit = row.candidate.min_profit; legs = legs } ∷ rest)

  abbrev pub batch_of : CandidateDict → List PackedCandidate → PackedBatch
  batch_of c candidates = record {
    asset = c.asset;
    amount = c.amount;
    target_block = c.target_block;
    deadline = c.deadline;
    candidates = candidates;
  }

  -- From the gas on: the fees, and whether the least profit of the candidates pays for them.
  unfoldable pub on_gas :
      Text × Text
      → PackedBatch
      → Kept
      → List Kept
      → List Text
      → SimulationResult
      → Option ℕ
      → Reply ℕ
      → Reply Pass
  on_gas encoded batch row rows blockers simulation estimate (err e) = ok (
      finished
        (refused encoded batch (row ∷ rows) true none (codes "packed_gas_measurement_missing")))
  on_gas encoded batch row rows blockers simulation estimate (ok gas_used) = do
    gas_price ← outside.gas_price
    nonce ← outside.nonce (settings.executor_owner_address)
    priority ← outside.priority_fee
    base_fee ← outside.pending_base_fee
    tx_size ← size_reply (
        conservative_eip1559_signed_size (pos (settings.chain_id)) (pos nonce) (pos priority)
          (pos (base_fee + priority)) (pos gas_used) (settings.executor_address) (encoded.0))
    l1_fee ← outside.l1_fee_upper_bound (settings.gas_price_oracle) tx_size
    gas_asset ← convert outside settings graph (batch.asset) (gas_used * gas_price + l1_fee)
    if ltb_ℤ (pos 0) (least_profit row rows -ℤ pos gas_asset)
        then ok (
            finished (
              paid encoded batch (row ∷ rows) simulation estimate gas_asset
                (least_profit row rows -ℤ pos gas_asset) blockers))
        else ok trimmed

  unfoldable pub on_simulated :
      Text × Text
      → PackedBatch
      → Kept
      → List Kept
      → List Text
      → Call
      → Reply SimulationResult
      → Reply Pass
  on_simulated encoded batch row rows blockers call (err e) = ok (
      finished (
        refused encoded batch (row ∷ rows) false none (codes "packed_simulation_rpc_failed:" ++ e)))
  on_simulated encoded batch row rows blockers call (ok simulation) =
      if simulation.success
      then on_gas encoded batch row rows blockers simulation (or_none (outside.estimate_gas call))
          (larger_gas (simulation.gas_used) (or_none (outside.estimate_gas call)))
      else ok (
          finished (
            refused encoded batch (row ∷ rows) false (simulation.gas_used)
              (codes "packed_executor_simulation_failed:" ++ error_text (simulation.error))))

  -- One pass of the loop, on rows that are not empty.
  unfoldable pub try_rows : Kept → List Kept → List Text → Reply Pass
  try_rows row rows blockers = do
    candidates ← to_candidates (row ∷ rows)
    packed ← packed_reply (encode_packed_batch (batch_of (row.candidate) candidates))
    encoded ← encode_start_packed (settings.executor_address) packed
    sender ← outside.checksum (settings.executor_owner_address)
    to ← outside.checksum (settings.executor_address)
    on_simulated encoded (batch_of (row.candidate) candidates) row rows blockers
        (record { sender = sender; to = to; call_data = encoded.0 })
        (outside.simulate (record { sender = sender; to = to; call_data = encoded.0 }))

  abbrev pub trimmed_blocker : Kept → List Kept → Text
  trimmed_blocker row [] = codes "trimmed_low_ev_candidate:" ++ row.route_id
  trimmed_blocker row (r ∷ rows) = trimmed_blocker r rows

  -- The loop on the first `n` of the rows behind the first.
  unfoldable pub trim_from : ℕ → Kept → List Kept → List Text → Pass → Reply PackedBatchPlan
  trim_from n row rows blockers (finished plan) = ok plan
  trim_from zero row rows blockers trimmed =
      ok (none_left (blockers ++ (trimmed_blocker row [] ∷ [])))
  trim_from (suc n) row rows blockers trimmed = do
    pass ← try_rows row (take n rows) (blockers ++ (trimmed_blocker row (take (suc n) rows) ∷ []))
    trim_from n row rows (blockers ++ (trimmed_blocker row (take (suc n) rows) ∷ [])) pass

  unfoldable pub finalize_group : List Kept → Reply PackedBatchPlan
  finalize_group [] = ok (none_left [])
  finalize_group (row ∷ rows) = do
    pass ← try_rows row rows []
    trim_from (length rows) row rows [] pass

  -- `groups[0][: max(1, min(packed_max_candidates, 8))]`
  unfoldable pub finalize_groups : ℕ → List (List Kept) → Reply PackedBatchPlan
  finalize_groups packed_max_candidates [] =
      ok (no_plan (codes "no_compatible_packed_candidates" ∷ []))
  finalize_groups packed_max_candidates (rows ∷ groups) = do
    outside.open_runtime
    finalize_group (take (max 1 (min packed_max_candidates 8)) rows)

  unfoldable pub finalize_packed : ℕ → List Row → Reply PackedBatchPlan
  finalize_packed packed_max_candidates evaluations =
      finalize_groups packed_max_candidates (compatible_groups evaluations)

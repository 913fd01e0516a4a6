-- ===== src/Batch.antt =====
-- The packed batch finalizer (python/src/arb_bot/batch_execution.py): candidates that share an
-- asset, an amount and a block are packed into one transaction, and the ones with the least profit
-- are dropped until the batch pays. The node and the contracts are the `Outside` of the finalizer;
-- keccak, sha256 and the ABI encoder are arguments.
pub mod Trim
pub mod Priced
pub mod Profit
mod Tests
use base_arb_bot.Finalize.{SimulationResult, Settings, Reply, Call, Outside, required}
use base_arb_bot.Finalize.Converter.{convert}
use base_arb_bot.Finalize.Run.{or_none, size_reply, error_text, larger_gas}
use base_arb_bot.Graph.{LivePoolGraph}
use base_arb_bot.Rlp.{conservative_eip1559_signed_size}
use base_arb_bot.Packed.{
  PackedLeg, PackedCandidate, PackedBatch, PackedError, Packed, hex_bytes, encode_packed_batch,
}
use base_arb_bot.Prelude.{
  ℕ, zero, suc, ◌+◌, ◌*◌, Bool, true, false, not, ◌&&◌, ◌||◌, List, [], ◌∷◌, ◌++◌, map, length,
  take, drop, leb, ltb, ◌==◌, if◌then◌else◌, Result, ok, err, ◌>>=◌, ◌>>◌, guard, Option, none,
  some, min, max,
}
use base_arb_bot.Prelude.Text.{Text, codes, text_eq, text_ltb, starts_with, lower}
use base_arb_bot.Prelude.Bytes.{from_hex}
use base_arb_bot.Prelude.Int.{ℤ, pos, negsuc, ◌-ℤ◌, ltb_ℤ, leb_ℤ}

-- A leg and a candidate of the dict `packed_candidate`.
pub record LegDict : Type 0 where
  pub adapter : Text
  pub token_in : Text
  pub token_out : Text
  pub min_out : ℤ
  pub leg_data : Text

pub record CandidateDict : Type 0 where
  pub asset : Text
  pub amount : ℤ
  pub target_block : ℤ
  pub deadline : ℤ
  pub min_profit : ℤ
  pub legs : List LegDict

-- An evaluation, as far as the batch reads it.
pub record Row : Type 0 where
  pub route_id : Text
  pub submission_eligible : Bool
  pub packed_candidate : Option CandidateDict
  pub net_profit : Option ℤ

-- A row that was kept, with its candidate and its profit.
pub record Kept : Type 0 where
  pub route_id : Text
  pub candidate : CandidateDict
  pub net_profit : ℤ

pub record PackedBatchPlan : Type 0 where
  pub batch_hash : Option Text
  pub calldata : Option Text
  pub asset : Option Text
  pub amount : Option ℤ
  pub target_block : Option ℤ
  pub candidate_route_ids : List Text
  pub simulation_success : Bool
  pub simulation_gas_units : Option ℕ
  pub estimate_gas_units : Option ℕ
  pub gas_cost_asset_units : Option ℕ
  pub deterministic_net_profit_units : Option ℤ
  pub submission_eligible : Bool
  pub blockers : List Text

abbrev pub keep_row : Text → Option CandidateDict → Option ℤ → List Kept → List Kept
keep_row route_id none net rows = rows
keep_row route_id (some c) none rows = rows
keep_row route_id (some c) (some net) rows =
    if leb_ℤ net (pos 0)
    then rows
    else record { route_id = route_id; candidate = c; net_profit = net } ∷ rows

-- The rows that are eligible, have a candidate and a positive profit.
unfoldable pub kept_rows : List Row → List Kept
kept_rows [] = []
kept_rows (row ∷ rows) =
    let rest = kept_rows rows in
    if row.submission_eligible
    then keep_row (row.route_id) (row.packed_candidate) (row.net_profit) rest
    else rest

abbrev pub same_int : ℤ → ℤ → Bool
same_int a b = leb_ℤ a b && leb_ℤ b a

-- The two rows have the same key.
unfoldable pub same_group : Kept → Kept → Bool
same_group a b =
    text_eq (lower (a.candidate.asset)) (lower (b.candidate.asset))
    && same_int (a.candidate.amount) (b.candidate.amount)
    && same_int (a.candidate.target_block) (b.candidate.target_block)
    && same_int (a.candidate.deadline) (b.candidate.deadline)

-- `groups.setdefault(key, []).append(row)`
unfoldable pub add_to_groups : Kept → List (List Kept) → List (List Kept)
add_to_groups row [] = (row ∷ []) ∷ []
add_to_groups row ([] ∷ groups) = [] ∷ add_to_groups row groups
add_to_groups row ((r ∷ rows) ∷ groups) =
    if same_group r row
    then (r ∷ rows ++ (row ∷ [])) ∷ groups
    else (r ∷ rows) ∷ add_to_groups row groups

unfoldable pub group_rows : List Kept → List (List Kept) → List (List Kept)
group_rows [] groups = groups
group_rows (row ∷ rows) groups = group_rows rows (add_to_groups row groups)

-- The order of the keys `(-net_profit, route_id)`.
unfoldable pub before : Kept → Kept → Bool
before a b =
    ltb_ℤ (b.net_profit) (a.net_profit)
    || same_int (a.net_profit) (b.net_profit) && text_ltb (a.route_id) (b.route_id)

-- `sorted` is stable: a row goes before the first that is after it or has an equal key.
unfoldable pub insert_row : Kept → List Kept → List Kept
insert_row row [] = row ∷ []
insert_row row (r ∷ rows) = if before r row then r ∷ insert_row row rows else row ∷ r ∷ rows

unfoldable pub sort_rows : List Kept → List Kept
sort_rows [] = []
sort_rows (row ∷ rows) = insert_row row (sort_rows rows)

-- The order of the groups, by their first rows; a group is never empty.
abbrev pub group_before : List Kept → List Kept → Bool
group_before [] ys = false
group_before (x ∷ xs) [] = false
group_before (x ∷ xs) (y ∷ ys) = before x y

unfoldable pub insert_group : List Kept → List (List Kept) → List (List Kept)
insert_group g [] = g ∷ []
insert_group g (h ∷ groups) = if group_before h g then h ∷ insert_group g groups else g ∷ h ∷ groups

unfoldable pub sort_groups : List (List Kept) → List (List Kept)
sort_groups [] = []
sort_groups (g ∷ groups) = insert_group (sort_rows g) (sort_groups groups)

unfoldable pub compatible_groups : List Row → List (List Kept)
compatible_groups evaluations = sort_groups (group_rows (kept_rows evaluations) [])

abbrev pub packed_reply : {A : Type 0} → Packed A → Reply A
packed_reply (ok a) = ok a
packed_reply (err e) = err (codes "ValueError")

-- `min(...)` of the candidates' minimum profits.
abbrev pub min_ℤ : ℤ → ℤ → ℤ
min_ℤ a b = if ltb_ℤ b a then b else a

abbrev pub least_profit : Kept → List Kept → ℤ
least_profit row [] = row.candidate.min_profit
least_profit row (r ∷ rows) = min_ℤ (row.candidate.min_profit) (least_profit r rows)

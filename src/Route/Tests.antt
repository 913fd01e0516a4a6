-- ===== src/Route/Tests.antt =====
-- Concrete runs of the route engine (python/src/arb_bot/route_engine.py).
use base_arb_bot.Finalize.Samples.{pool_between, sample_cycle, sample_settings, sample_outside}
use base_arb_bot.Graph.{PoolMetadata, Cycle, empty_graph}
use base_arb_bot.Route.Sizing.{candidate_amounts, refine_amounts, pick_best}
use base_arb_bot.Route.Bounds.{
  AreSizes, candidate_amounts-AreSizes, candidate_amounts-EndsWithin, EndsWithin,
}
use base_arb_bot.Route.Refine.{AreRefined, refine_amounts-AreRefined}
use base_arb_bot.Route.Sizing.{halve}
use base_arb_bot.Rlp.{bit_length, count_bits}
use base_arb_bot.Prelude.Numbers.{number_set, NumberDict}
use base_arb_bot.Prelude.{map, sym, ap, ok-injective}
use base_arb_bot.Prelude.Loop.{Returns}
use base_arb_bot.Route.Hops.{IsAlike}
use base_arb_bot.Route.Batching.{batched_quotes-SameOuts}
use base_arb_bot.Route.Outs.{out_at}
use base_arb_bot.Route.Quotes.{find_adapter, batched_quotes, parallel_quotes}
use base_arb_bot.Finalize.{canonical_venue}
use base_arb_bot.Prelude.Text.{contains, starts_with, lower, strip, lstrip, text_ltb}
use base_arb_bot.Prelude.Dict.{get}
use base_arb_bot.Route.Rings.{
  dedup_cycles, dedup_from, ring_of, edges_from, canonical, least_rotation, ring_ltb, ring_eq,
  edge_eq, edge_ltb, mem_ring,
}
use base_arb_bot.Route.Dedup.{IsDeduped, dedup_cycles-IsDeduped}
use base_arb_bot.Route.Evaluate.{Engine, RouteEvaluation, rejected, evaluate_cycle}
use base_arb_bot.Route.Evaluate.{pool_blockers, cycle_blockers, execute, on_amounts, on_blockers}
use base_arb_bot.Route.Candidate.{packed_legs, packed_of, packed_known, packed_candidate_dict}
use base_arb_bot.Route.Optimize.{
  balance_of, sorted_set, live_balance, batching, batch, first_round, refine_round, second_round,
  requote, quote_rounds, on_balance, optimize_size,
}
use base_arb_bot.Route.Quotes.{
  pool_kwargs, quote_from, quote_cycle, pool_supports_batching, supports_batching, start_entries,
  encode_entries, take_answers, quote_hops,
}
use base_arb_bot.Route.Sizing.{
  index_of, between, lower_neighbour, upper_neighbour, profit, pick_from,
}
use base_arb_bot.Finalize.{adapter_data, missing_config, configured, adapter_for}
use base_arb_bot.Finalize.Run.{
  item, adapters_for, verify_all, verify_contracts, build_legs, loan_blockers, premium_units,
  pre_gas_profit, charged, charge, on_settled, on_profit, on_loan, on_snapshot, snapshot_reply,
  on_verified, on_adapters, on_chain, on_configured, finalize,
}
use base_arb_bot.Finalize.Converter.{convert}
use base_arb_bot.Rlp.{
  nat_bytes, int_bytes, rlp_bytes, rlp_list, unhex, signed_size, conservative_eip1559_signed_size,
}
use base_arb_bot.Prelude.Dict.{put, values, mem, add, unique, insert_sorted, sorted}
use base_arb_bot.Prelude.Numbers.{add_number, mem_number, number_get, number_put, number_update}
use base_arb_bot.Prelude.Bytes.{to_bytes, from_bytes, from_hex}
use base_arb_bot.Prelude.Int.{◌-ℤ◌}
use base_arb_bot.Graph.{
  normalize_address, join_bars, cycle_key, listed, enlist, unlist_pool, register, pool_at,
  other_token,
}
use base_arb_bot.Finalize.Run.{settle}
use base_arb_bot.Rlp.{rlp_items}
use base_arb_bot.Route.Traded.{IsTraded, evaluate_cycle-IsTraded}
use base_arb_bot.Route.Affected.{
  pair_eq, mem_pair, first_pairs, zeros, rjust, remove_0x, balance_calls, read_balances,
  prefetch_balances, evaluate_all, evaluate_cycles, evaluate_affected,
}
use base_arb_bot.Graph.Cycles.{
  normalize_all, record_cycle, leads_to, close_two, extend_from, extend_hop, from_mid, from_token,
  from_start, from_pool, cycles_for_affected,
}
use base_arb_bot.Prelude.Numeral.{int_16}
use base_arb_bot.Prelude.Loop.{for_each}
use base_arb_bot.Graph.{LivePoolGraph}
use base_arb_bot.Route.Rows.{AreAffected, evaluate_affected-AreAffected}
use base_arb_bot.Route.Chosen.{IsChosen, optimize_size-IsChosen}
use base_arb_bot.Route.Optimize.{Sized, unsized}
use base_arb_bot.Graph.Samples.{address_of_digit}
use base_arb_bot.Route.Rings.{Ring}
use base_arb_bot.Prelude.{◌↔◌}
use base_arb_bot.Route.Rotations.{IsRotation, canonical-IsRotation_iff}
use base_arb_bot.Route.Best.{Picks, pick_best-Picks}
use base_arb_bot.Route.Quotes.{Quote, QuoteAdapter, Chain, RawCall}
use base_arb_bot.Prelude.{
  ℕ, ◌+◌, ◌*◌, ◌/◌, ◌%◌, ◌^◌, ◌<◌, Bool, subst, true, false, List, [], ◌∷◌, Result, ok, err, none,
  some, ◌≡◌, refl, if◌then◌else◌, arith,
}
use base_arb_bot.Prelude.Text.{Text, codes, text_eq}
use base_arb_bot.Prelude.Dict.{Dict}

candidate_amounts-AreSizes_example : AreSizes 10 37 (candidate_amounts 10 37)
candidate_amounts-AreSizes_example = candidate_amounts-AreSizes 10 37 (omega arith)

candidate_amounts-EndsWithin_example :
    EndsWithin 10 (bit_length 37) 37 (number_set (37 ∷ 1 ∷ [])) (candidate_amounts 10 37)
candidate_amounts-EndsWithin_example = candidate_amounts-EndsWithin 10 37 (omega arith)

refine_amounts-AreRefined_example :
    AreRefined 37 9 4 (refine_amounts (1 ∷ 4 ∷ 9 ∷ 18 ∷ 37 ∷ []) 9 4)
refine_amounts-AreRefined_example = refine_amounts-AreRefined 37 9 4 (1 ∷ 4 ∷ 9 ∷ 18 ∷ 37 ∷ []) (
  (omega arith, omega arith),
  (
    (omega arith, omega arith),
    ((omega arith, omega arith), ((omega arith, omega arith), ((omega arith, omega arith), tt))),
  ),
)

abbrev sample_sizes : NumberDict (ℕ × List Quote)
sample_sizes = (4, (9, [])) ∷ (8, (13, [])) ∷ (16, (20, [])) ∷ []

pick_best-Picks_example : Picks sample_sizes (pick_best sample_sizes)
pick_best-Picks_example =
    pick_best-Picks sample_sizes ((omega arith, (omega arith, tt)), ((omega arith, tt), (tt, tt)))

abbrev sample_quote : Text → Text → ℕ → Quote
sample_quote token_in token_out amount = record {
  venue = codes "uniswap-v3";
  token_in = token_in;
  token_out = token_out;
  amount_in = amount;
  amount_out =
      if text_eq token_in (codes "0x1") then amount * 2 % 2 ^ 256 else amount * 11 / 20 % 2 ^ 256;
  gas_estimate = some 90;
  block_number = none;
  metadata = [];
}

abbrev sample_adapter : QuoteAdapter
sample_adapter = record {
  quote_exact_input =
      λ token_in token_out amount kwargs. ok (sample_quote token_in token_out amount);
  encode_quote = some (λ token_in token_out amount kwargs. ok (token_in, amount ∷ []));
  decode_quote = some (λ return_data token_in token_out amount observed_block kwargs.
      ok (sample_quote token_in token_out amount));
}

abbrev sample_adapters : Dict QuoteAdapter
sample_adapters = (codes "uniswap-v3", sample_adapter) ∷ []

abbrev sample_answer : RawCall → Bool × List ℕ
sample_answer call = (true, call.1)

abbrev sample_chain : Chain
sample_chain = record {
  aggregate3 = λ calls. ok (map sample_answer calls);
  observed_block = some 41;
}

sample-found : find_adapter sample_adapters (codes "uniswap-v3") ≡ some sample_adapter
unfolding find_adapter canonical_venue text_eq contains starts_with lower strip lstrip get
sample-found = refl

sample_bounded :
    (t : Bool) (amount : ℕ)
    → (if t then amount * 2 % 2 ^ 256 else amount * 11 / 20 % 2 ^ 256) < 2 ^ 256
sample_bounded true amount = omega arith
sample_bounded false amount = omega arith

sample-IsAlike :
    (index : ℕ) (pool : PoolMetadata) (token_in token_out : Text)
    → find_adapter sample_adapters (pool.venue) ≡ some sample_adapter
    → item (sample_cycle.tokens) index ≡ ok token_in
    → item (sample_cycle.tokens) (index + 1) ≡ ok token_out
    → IsAlike sample_adapters (some 41) sample_answer (sample_cycle.tokens) index pool
sample-IsAlike index pool token_in token_out f i j = record {
  adapter = sample_adapter;
  found = f;
  token_in = token_in;
  token_out = token_out;
  has_in = i;
  has_out = j;
  call_of = λ amount. (token_in, amount ∷ []);
  encodes = λ e l. refl;
  same_out = λ e l. refl;
  same_in = λ amount quote l e. (
    ap (λ (q : Quote). q.amount_in) (sym (ok-injective e)),
    subst (λ (q : Quote). q.amount_out < 2 ^ 256) (ok-injective e)
        (sample_bounded (text_eq token_in (codes "0x1")) amount),
  );
}

batched_quotes-SameOuts_example :
    Returns
      (λ r.
        (a : ℕ)
        → out_at a (r.0)
          ≡ out_at a ((parallel_quotes sample_adapters sample_cycle (1 ∷ 100 ∷ [])).0))
      (batched_quotes sample_adapters sample_chain sample_cycle (1 ∷ 100 ∷ []))
batched_quotes-SameOuts_example =
    batched_quotes-SameOuts sample_adapters sample_chain sample_cycle sample_answer (λ calls. refl)
      (1 ∷ 100 ∷ [])
      (
        sample-IsAlike 0 _ _ _ sample-found refl refl,
        (sample-IsAlike 1 _ _ _ sample-found refl refl, tt),
      )
      (omega arith, (omega arith, tt))

-- The cycle, and the same ring from its other pool.
abbrev turned_cycle : Cycle
turned_cycle = record {
  pools =
      pool_between (codes "0x6") (codes "0x1") (codes "0x2")
      ∷ pool_between (codes "0x5") (codes "0x1") (codes "0x2")
      ∷ [];
  tokens = codes "0x2" ∷ codes "0x1" ∷ codes "0x2" ∷ [];
}

sample-deduped : dedup_cycles (sample_cycle ∷ turned_cycle ∷ []) ≡ ok (sample_cycle ∷ [])
unfolding dedup_cycles dedup_from ring_of edges_from canonical least_rotation ring_ltb ring_eq
    edge_eq edge_ltb text_eq text_ltb mem_ring
sample-deduped = refl

dedup_cycles-IsDeduped_example :
    Returns
      (IsDeduped (sample_cycle ∷ turned_cycle ∷ []))
      (dedup_cycles (sample_cycle ∷ turned_cycle ∷ []))
dedup_cycles-IsDeduped_example =
    dedup_cycles-IsDeduped (sample_cycle ∷ turned_cycle ∷ []) (refl, (refl, tt))

abbrev sample_engine : Engine
sample_engine = record {
  sha256_hex = λ text. text;
  optimizer = record {
    adapters = sample_adapters;
    chain = sample_chain;
    max_quote_evaluations = 2;
    size_refinement_points = 1;
    token_balance = λ token account. ok 10000;
  };
  finalizer =
      some record { outside = sample_outside; settings = sample_settings; graph = empty_graph };
  observed_block = none;
  max_route_hops = 3;
}

abbrev value_or : {E A : Type 0} → A → Result E A → A
value_or a (ok b) = b
value_or a (err e) = a

abbrev sample_row : RouteEvaluation
sample_row =
    value_or (rejected sample_engine sample_cycle []) (evaluate_cycle sample_engine sample_cycle [])

sample-evaluated :
    (evaluate_cycle sample_engine sample_cycle [] ≡ ok sample_row)
    × (sample_row.submission_eligible ≡ true)
unfolding pool_blockers cycle_blockers execute on_amounts on_blockers evaluate_cycle packed_legs
    packed_of packed_known packed_candidate_dict balance_of live_balance batching batch first_round
    refine_round second_round requote quote_rounds on_balance optimize_size find_adapter
    pool_supports_batching supports_batching start_entries encode_entries take_answers quote_hops
    batched_quotes halve candidate_amounts index_of between lower_neighbour upper_neighbour
    refine_amounts profit pick_from pick_best canonical_venue adapter_data missing_config configured
    adapter_for adapters_for verify_all verify_contracts build_legs loan_blockers premium_units
    pre_gas_profit charged charge settle on_settled on_profit on_loan on_snapshot snapshot_reply
    on_verified on_adapters on_chain on_configured finalize convert bit_length nat_bytes int_bytes
    rlp_bytes rlp_list unhex signed_size conservative_eip1559_signed_size get mem add unique text_eq
    contains lower strip add_number number_set mem_number number_get number_put number_update
    to_bytes ◌-ℤ◌ rlp_items from_hex
sample-evaluated = (refl, refl)

evaluate_cycle-IsTraded_example : IsTraded sample_engine sample_cycle sample_row
evaluate_cycle-IsTraded_example =
    evaluate_cycle-IsTraded sample_engine sample_cycle [] sample_row (sample-evaluated.0)
      (sample-evaluated.1)

abbrev sample_graph : LivePoolGraph
sample_graph =
    register (pool_between (address_of_digit 6) (address_of_digit 1) (address_of_digit 2)) (
      register (pool_between (address_of_digit 5) (address_of_digit 1) (address_of_digit 2))
        empty_graph)

abbrev sample_rows : List RouteEvaluation
sample_rows =
    value_or []
      (evaluate_affected sample_engine (λ cycle. false) sample_graph (address_of_digit 5 ∷ []) none)

sample-affected :
    evaluate_affected sample_engine (λ cycle. false) sample_graph (address_of_digit 5 ∷ []) none
    ≡ ok sample_rows
unfolding pool_blockers cycle_blockers on_amounts on_blockers evaluate_cycle balance_of live_balance
    batching batch first_round refine_round second_round requote quote_rounds on_balance
    optimize_size find_adapter pool_supports_batching supports_batching start_entries encode_entries
    take_answers quote_hops batched_quotes halve candidate_amounts index_of between lower_neighbour
    upper_neighbour refine_amounts profit pick_from pick_best canonical_venue bit_length get put
    values mem add unique insert_sorted sorted text_eq text_ltb contains lower strip add_number
    number_set mem_number number_get number_put number_update from_bytes ◌-ℤ◌ join_bars cycle_key
    from_hex pair_eq mem_pair first_pairs zeros rjust remove_0x balance_calls read_balances
    prefetch_balances evaluate_all evaluate_cycles evaluate_affected edge_eq edge_ltb ring_eq
    ring_ltb edges_from least_rotation canonical ring_of mem_ring dedup_from dedup_cycles
    normalize_all record_cycle leads_to close_two extend_from extend_hop from_mid from_token
    from_start from_pool cycles_for_affected normalize_address empty_graph listed enlist unlist_pool
    register pool_at other_token int_16 for_each
sample-affected = refl

evaluate_affected-AreAffected_example :
    AreAffected sample_engine sample_graph (address_of_digit 5 ∷ []) none sample_rows
evaluate_affected-AreAffected_example =
    evaluate_affected-AreAffected sample_engine (λ cycle. false) sample_graph
      (address_of_digit 5 ∷ []) none sample_rows sample-affected

abbrev sample_sized : Sized
sample_sized = value_or (unsized []) (optimize_size (sample_engine.optimizer) sample_cycle [])

sample-sized :
    (optimize_size (sample_engine.optimizer) sample_cycle [] ≡ ok sample_sized)
    × (sample_sized.amounts ≡ some (10000, 11000))
unfolding balance_of sorted_set live_balance batching batch first_round refine_round second_round
    requote quote_rounds on_balance optimize_size find_adapter pool_kwargs quote_from quote_cycle
    pool_supports_batching supports_batching start_entries encode_entries take_answers quote_hops
    batched_quotes halve candidate_amounts index_of between lower_neighbour upper_neighbour
    refine_amounts profit pick_from pick_best canonical_venue bit_length count_bits get text_eq
    contains starts_with lower strip lstrip add_number number_set mem_number number_get number_put
    number_update sorted insert_sorted unique mem add ◌-ℤ◌
sample-sized = (refl, refl)

optimize_size-IsChosen_example :
    IsChosen (sample_engine.optimizer) sample_cycle [] 10000 (11000, sample_sized.quotes)
optimize_size-IsChosen_example =
    optimize_size-IsChosen (sample_engine.optimizer) sample_cycle [] 10000 11000 sample_sized
      (sample-sized.0) (sample-sized.1)

abbrev sample_ring : Ring
sample_ring =
    (codes "0x5", (codes "0x1", codes "0x2"))
    ∷ (codes "0x6", (codes "0x2", codes "0x3"))
    ∷ (codes "0x7", (codes "0x3", codes "0x1"))
    ∷ []

abbrev turned_ring : Ring
turned_ring =
    (codes "0x6", (codes "0x2", codes "0x3"))
    ∷ (codes "0x7", (codes "0x3", codes "0x1"))
    ∷ (codes "0x5", (codes "0x1", codes "0x2"))
    ∷ []

sample-canonical : canonical turned_ring ≡ canonical sample_ring
unfolding canonical least_rotation ring_ltb edge_eq edge_ltb text_eq text_ltb
sample-canonical = refl

canonical-IsRotation_iff_example :
    (canonical turned_ring ≡ canonical sample_ring) ↔ IsRotation turned_ring sample_ring
canonical-IsRotation_iff_example = canonical-IsRotation_iff turned_ring sample_ring

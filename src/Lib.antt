-- ===== src/Lib.antt =====
-- A model of the arbitrage bot: the packed candidate batch, the live pool graph, the size of a
-- signed transaction, the finalizers of one route and of a batch, and the signer's policy.
--
-- The bot discovers pools, keeps them in a graph, enumerates the cycles that a changed pool
-- touches, quotes them, and finalizes the best one: a transaction is built, simulated and charged
-- with every fee before it may be submitted. Several routes may share one transaction, as a packed
-- batch.
--
-- Packed (python/src/arb_bot/packed_batch.py): encode_packed_batch and decode_packed_batch, with
-- `encode_leg`, `encode_candidate` and their decoders for the bodies of the loops, `hex_bytes` for
-- _hex_bytes, `uint_bytes` for _u and `take_bytes` for _take. A ValueError is an error value.
-- Ints are signed and unbounded; a field's width is checked as the code does.
--
-- Graph (python/src/arb_bot/event_graph.py): PoolMetadata and LivePoolGraph. The two dicts are
-- association lists in insertion order and the sets are lists without duplicates. Graph/Cycles has
-- cycles_for_affected, a function for each of its nested loops (`from_pool`, `from_token`,
-- `close_two`, `extend_hop`, `close_three`), and load_configured_pools with the JSON parser as an
-- argument. max_hops is a natural number. The lock is left out, since each operation holds it
-- while it reads or writes.
--
-- Rlp (python/src/arb_bot/execution.py): _int_bytes, _rlp and conservative_eip1559_signed_size.
-- The count of a number's bits runs on the number itself as fuel, which is more than its bits.
--
-- Finalize (python/src/arb_bot/execution.py): ExecutionFinalizer.finalize, with NativeFeeConverter
-- in Finalize/Converter. What the node, the contracts and the ABI encoder answer is an `Outside`
-- record of replies, each a value or the name of an exception's type. Finalize/Run has a function
-- for what follows each awaited reply, so that the early returns and the caught exceptions are
-- clauses. Amounts, fees and gas are natural numbers; profits are signed.
--
-- Batch (python/src/arb_bot/batch_execution.py): compatible_groups, and in Batch/Trim
-- PackedBatchFinalizer.finalize, where `try_rows` is one pass of the loop and `trim_from` the loop,
-- on the number of rows left behind the first. The limit packed_max_candidates is an argument.
--
-- Route (python/src/arb_bot/route_engine.py): RouteOptimizer, from the affected pools to the rows
-- that the API returns. Route/Sizing has _candidate_amounts, _refine_amounts and _pick_best;
-- Route/Quotes _quote_cycle, _parallel_quotes and _batched_quotes; Route/Optimize _optimize_size;
-- Route/Evaluate evaluate_cycle and reject_affected, with packed_candidate_dict of execution.py in
-- Route/Candidate; Route/Rings _dedup_cycles, whose `min` is a loop over the rotations;
-- Route/Affected _prefetch_balances and evaluate_affected. The adapters, multicall's aggregate3,
-- the live balance, the digest of a key and which evaluations time out are arguments. `Entry` holds
-- the values of `amounts`, `current` and `quotes_by_index` of an index that survives, which are the
-- ones that are read again. The halving loop runs on the number of bits of the balance, which is
-- enough, since each round halves it. The semaphore is left out: it bounds only how many quotes run
-- at once.
--
-- Adapters (python/src/arb_bot/adapters): UniswapV3Quoter and AerodromeRouter, with web3's
-- checksums, encoder, decoder and calls as arguments; Adapters/Alike compares them with what the
-- batched quotes rely on.
--
-- Signer (signer-gateway/src/signer_gateway/policy.py): validate_common, validate_execution,
-- validate_deployment and verify_signed_transaction. The two kinds of request share a record. The
-- checksum of an address, the RLP decoder and the recovery of a sender are arguments, and the
-- selectors, which are hashes, too. Signer/Gateway has the handlers of
-- signer-gateway/src/signer_gateway/app.py: authenticate, sign_with_clef, sign and
-- sign_deployment; what Clef answers is an argument, after its JSON is parsed. Signer/Plan has
-- ReviewedDeploymentPlan.load, from the file's status and its parsed fields.
--
-- Discovery (python/src/arb_bot/discovery.py): _is_zero, _verified and discover, with the factories
-- and the pools' contracts as arguments.
--
-- Scoring (python/src/arb_bot/scoring.py, rl_gate.py and the handler execute of api.py): the risk
-- gate, the size of a trade, and what is submitted. The operations of Decimal are a record.
--
-- Deploy (scripts_deploy_via_signer.py): the checks of main, the transactions that it prepares and
-- sends, and in Deploy/Resume verify_deployed_prefix and main. The node and the gateway are a
-- record of replies over a type of states of the world, which is passed on explicitly. The answers
-- of wait_receipt's requests until its time is out are a list. What is printed is left out.
--
-- Metrics (python/src/arb_bot/metrics.py): the module's variables as a state, with inc,
-- observe_latency_ms and render. The operations of floats are a record.
--
-- Prelude: natural numbers with Boolean tests, lists, texts as lists of code points, byte strings
-- as lists of numbers, integers, Python's `dict`, `int(text, 16)`, exceptions as a `Result`, and
-- loops with their rules.
--
-- Not modelled: the scripts that prepare the deployment, observe and benchmark; the reading of
-- the settings from the environment; the handlers of api.py besides execute; multicall,
-- Clef's socket and the database are input and output around libraries that are not in the
-- repository.
pub mod Adapters
pub mod Batch
pub mod Deploy
pub mod Discovery
pub mod Finalize
pub mod Graph
pub mod Metrics
pub mod Packed
pub mod Prelude
pub mod Rlp
pub mod Route
pub mod Scoring
pub mod Signer

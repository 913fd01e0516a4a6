-- ===== src/Route/Quotes.antt =====
-- The quotes of a cycle (python/src/arb_bot/route_engine.py): one size at a time, `_quote_cycle`
-- and `_parallel_quotes`, and all sizes in one request for each hop, `_batched_quotes`. The
-- adapters and the multicall contract are arguments; a reply of theirs is a value or the name of
-- the exception's type.
use base_arb_bot.Finalize.{Reply, required, canonical_venue}
use base_arb_bot.Finalize.Run.{item}
use base_arb_bot.Graph.{PoolMetadata, Cycle}
use base_arb_bot.Prelude.{
  ℕ, ◌+◌, Bool, true, false, not, ◌&&◌, ◌||◌, List, [], ◌∷◌, ◌++◌, length, ◌==◌, if◌then◌else◌, ok,
  err, ◌>>=◌, ◌>>◌, guard, Option, none, some,
}
use base_arb_bot.Prelude.Text.{Text, codes, text_eq}
use base_arb_bot.Prelude.Int.{ℤ}
use base_arb_bot.Prelude.Dict.{Dict, get}
use base_arb_bot.Prelude.Numbers.{NumberDict, number_put}

-- A value of a quote's metadata.
pub data Scalar : Type 0 where
  str : Text → Scalar
  int : ℤ → Scalar
  bool : Bool → Scalar
  null : Scalar

pub record Quote : Type 0 where
  pub venue : Text
  pub token_in : Text
  pub token_out : Text
  pub amount_in : ℕ
  pub amount_out : ℕ
  pub gas_estimate : Option ℕ
  pub block_number : Option ℕ
  pub metadata : Dict Scalar

-- The keyword arguments of a quote, besides the block "pending".
pub data QuoteKwargs : Type 0 where
  with_fee : Option ℤ → QuoteKwargs
  with_stable : Option Bool → QuoteKwargs
  block_only : QuoteKwargs

-- A call of a contract: the address and the calldata.
abbrev pub RawCall : Type 0
RawCall = Text × List ℕ

-- An adapter; the two methods for raw calldata may be absent.
pub record QuoteAdapter : Type 0 where
  pub quote_exact_input : Text → Text → ℕ → QuoteKwargs → Reply Quote
  pub encode_quote : Option (Text → Text → ℕ → QuoteKwargs → Reply RawCall)
  pub decode_quote : Option (List ℕ → Text → Text → ℕ → Option ℕ → QuoteKwargs → Reply Quote)

-- `AdapterRegistry.get`
unfoldable pub find_adapter : Dict QuoteAdapter → Text → Option QuoteAdapter
find_adapter adapters venue = get (canonical_venue venue) adapters

unfoldable pub pool_kwargs : PoolMetadata → QuoteKwargs
pool_kwargs pool =
    let venue = canonical_venue (pool.venue) in
    if text_eq venue (codes "uniswap-v3")
    then with_fee (pool.fee)
    else (if text_eq venue (codes "aerodrome") then with_stable (pool.stable) else block_only)

-- `_quote_cycle` from the pool of the given index on.
unfoldable pub quote_from :
    Dict QuoteAdapter → List Text → ℕ → ℕ → List PoolMetadata → Reply (ℕ × List Quote)
quote_from adapters tokens index amount [] = ok (amount, [])
quote_from adapters tokens index amount (pool ∷ pools) = do
  adapter ← required (find_adapter adapters (pool.venue)) (codes "RuntimeError")
  token_in ← item tokens index
  token_out ← item tokens (index + 1)
  quote ← adapter.quote_exact_input token_in token_out amount (pool_kwargs pool)
  guard (quote.amount_in == amount) (codes "RuntimeError")
  rest ← quote_from adapters tokens (index + 1) (quote.amount_out) pools
  ok (rest.0, quote ∷ rest.1)

unfoldable pub quote_cycle : Dict QuoteAdapter → Cycle → ℕ → Reply (ℕ × List Quote)
quote_cycle adapters cycle amount = quote_from adapters (cycle.tokens) 0 amount (cycle.pools)

abbrev pub Quoted : Type 0
Quoted = NumberDict (ℕ × List Quote)

abbrev pub settle : ℕ → Reply (ℕ × List Quote) → Quoted × List Text → Quoted × List Text
settle amount (ok r) (quoted, blockers) = (number_put amount r quoted, blockers)
settle amount (err e) (quoted, blockers) = (quoted, blockers ++ ((codes "quote_failed:" ++ e) ∷ []))

-- The loop over the settled quotes.
unfoldable pub settle_all :
    Dict QuoteAdapter → Cycle → List ℕ → Quoted × List Text → Quoted × List Text
settle_all adapters cycle [] s = s
settle_all adapters cycle (amount ∷ amounts) s =
    settle_all adapters cycle amounts (settle amount (quote_cycle adapters cycle amount) s)

unfoldable pub parallel_quotes : Dict QuoteAdapter → Cycle → List ℕ → Quoted × List Text
parallel_quotes adapters cycle amounts = settle_all adapters cycle amounts ([], [])

unfoldable pub pool_supports_batching : Option QuoteAdapter → Bool
pool_supports_batching none = false
pool_supports_batching (some adapter) = elim (adapter.encode_quote) [
  | none ↦ false
  | some encode ↦ elim (adapter.decode_quote) [ none ↦ false | some decode ↦ true ]
]

-- `_cycle_supports_batching`, of the pools of the cycle.
unfoldable pub supports_batching : Dict QuoteAdapter → List PoolMetadata → Bool
supports_batching adapters [] = true
supports_batching adapters (pool ∷ pools) =
    pool_supports_batching (find_adapter adapters (pool.venue)) && supports_batching adapters pools

-- What `_batched_quotes` knows of a surviving size: `amounts[i]`, `current[i]` and
-- `quotes_by_index[i]`.
pub record Entry : Type 0 where
  pub amount : ℕ
  pub current : ℕ
  pub quotes : List Quote

unfoldable pub start_entries : List ℕ → List Entry
start_entries [] = []
start_entries (amount ∷ amounts) =
    record { amount = amount; current = amount; quotes = [] } ∷ start_entries amounts

-- `multicall.aggregate3`, and the block that was observed.
pub record Chain : Type 0 where
  pub aggregate3 : List RawCall → Reply (List (Bool × List ℕ))
  pub observed_block : Option ℕ

abbrev pub encode_entry : Option QuoteAdapter → Text → Text → QuoteKwargs → Entry → Reply RawCall
encode_entry adapter token_in token_out kwargs entry = do
  found ← required adapter (codes "AttributeError")
  encode ← required (found.encode_quote) (codes "AttributeError")
  encode token_in token_out (entry.current) kwargs

unfoldable pub encode_entries :
    Option QuoteAdapter → Text → Text → QuoteKwargs → List Entry → Reply (List RawCall)
encode_entries adapter token_in token_out kwargs [] = ok []
encode_entries adapter token_in token_out kwargs (entry ∷ entries) = do
  call ← encode_entry adapter token_in token_out kwargs entry
  calls ← encode_entries adapter token_in token_out kwargs entries
  ok (call ∷ calls)

abbrev pub decode_entry :
    Option QuoteAdapter → Option ℕ → Text → Text → QuoteKwargs → List ℕ → Entry → Reply Quote
decode_entry adapter observed_block token_in token_out kwargs return_data entry = do
  found ← required adapter (codes "AttributeError")
  decode ← required (found.decode_quote) (codes "AttributeError")
  decode return_data token_in token_out (entry.current) observed_block kwargs

-- The entry goes on with the quote, or the error becomes a blocker.
abbrev pub with_quote : Entry → Reply Quote → List Entry × List Text → List Entry × List Text
with_quote entry (ok quote) (entries, blockers) = (
  record {
    amount = entry.amount;
    current = quote.amount_out;
    quotes = entry.quotes ++ (quote ∷ []);
  }
      ∷ entries,
  blockers,
)
with_quote entry (err e) (entries, blockers) =
    (entries, (codes "quote_decode_failed:" ++ e) ∷ blockers)

-- The loop over `zip(surviving, results)`.
unfoldable pub take_answers :
    Option QuoteAdapter
    → Option ℕ
    → Text
    → Text
    → QuoteKwargs
    → List Entry
    → List (Bool × List ℕ)
    → List Entry × List Text
take_answers adapter observed_block token_in token_out kwargs [] results = ([], [])
take_answers adapter observed_block token_in token_out kwargs (entry ∷ entries) [] = ([], [])
take_answers adapter observed_block token_in token_out kwargs (entry ∷ entries)
      ((success, return_data) ∷ results) =
    let rest = take_answers adapter observed_block token_in token_out kwargs entries results in
    if not success || (length return_data == 0)
    then (rest.0, codes "quote_failed:ContractLogicError" ∷ rest.1)
    else with_quote entry
        (decode_entry adapter observed_block token_in token_out kwargs return_data entry) rest

-- The entries are the sizes that every hop so far could quote; the tests of `success` and of
-- `return_data` come first.
abbrev pub keep_quoted : ℕ → List Entry → Quoted → Quoted
keep_quoted hops [] quoted = quoted
keep_quoted hops (entry ∷ entries) quoted = keep_quoted hops entries (
    if length (entry.quotes) == hops
    then number_put (entry.amount) (entry.current, entry.quotes) quoted
    else quoted)

-- The results of one hop's request, or the blocker of a request that failed.
abbrev pub read_answers :
    {A : Type 0}
    → Reply (List (Bool × List ℕ))
    → (List (Bool × List ℕ) → Reply (A × List Text))
    → A
    → Reply (A × List Text)
read_answers (ok results) continue failed = continue results
read_answers (err e) continue failed = ok (failed, (codes "multicall_failed:" ++ e) ∷ [])

-- `if not surviving: break`
abbrev pub while_surviving : {A : Type 0} → List Entry → A → A → A
while_surviving [] stop continue = stop
while_surviving (entry ∷ entries) stop continue = continue

-- The loop over the hops, from the pool of the given index on.
unfoldable pub quote_hops :
    Dict QuoteAdapter
    → Chain
    → Cycle
    → ℕ
    → List PoolMetadata
    → List Entry
    → List Text
    → Reply (Quoted × List Text)
quote_hops adapters chain cycle index [] entries blockers =
    ok (keep_quoted (length (cycle.pools)) entries [], blockers)
quote_hops adapters chain cycle index (pool ∷ pools) entries blockers =
    let adapter = find_adapter adapters (pool.venue) in
    do
      token_in ← item (cycle.tokens) index
      token_out ← item (cycle.tokens) (index + 1)
      calls ← encode_entries adapter token_in token_out (pool_kwargs pool) entries
      read_answers (chain.aggregate3 calls)
          (λ results.
            let taken =
              take_answers adapter (chain.observed_block) token_in token_out (pool_kwargs pool)
                entries results in
            while_surviving (taken.0) (ok ([], blockers ++ taken.1))
              (quote_hops adapters chain cycle (index + 1) pools (taken.0) (blockers ++ taken.1)))
          []

unfoldable pub batched_quotes :
    Dict QuoteAdapter → Chain → Cycle → List ℕ → Reply (Quoted × List Text)
batched_quotes adapters chain cycle amounts =
    quote_hops adapters chain cycle 0 (cycle.pools) (start_entries amounts) []

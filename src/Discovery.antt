-- ===== src/Discovery.antt =====
-- Pool discovery (python/src/arb_bot/discovery.py). The factories and the pool contracts are
-- arguments; a reply of theirs is a value or the name of the exception's type. The ValueErrors are
-- those of the graph's module.
pub mod Verified
mod Tests
use base_arb_bot.Finalize.{Reply}
use base_arb_bot.Graph.{PoolMetadata, Graph, GraphError, invalid_literal, create}
use base_arb_bot.Prelude.{
  ℕ, zero, suc, Bool, true, false, List, [], ◌∷◌, ◌++◌, map, if◌then◌else◌, Result, ok, err, ◌>>=◌,
  Option, none, some,
}
use base_arb_bot.Prelude.Text.{Text, codes, lower}
use base_arb_bot.Prelude.Numeral.{int_16}
use base_arb_bot.Prelude.Int.{ℤ, pos, negsuc}
use base_arb_bot.Prelude.Dict.{Dict, put, values, unique, sorted}
use base_arb_bot.Prelude.Loop.{for_each}

abbrev pub zero_or_raise : Option ℤ → Text → Graph Bool
zero_or_raise none addr = err (invalid_literal addr)
zero_or_raise (some (pos zero)) addr = ok true
zero_or_raise (some (pos (suc n))) addr = ok false
zero_or_raise (some (negsuc n)) addr = ok false

-- `_is_zero`
unfoldable pub is_zero : Text → Graph Bool
is_zero [] = ok true
is_zero (c ∷ addr) = zero_or_raise (int_16 (c ∷ addr)) (c ∷ addr)

-- `PoolDiscovery`; a factory that is not configured is none.
pub record PoolDiscovery : Type 0 where
  pub univ3_get_pool : Option (Text → Text → ℕ → Reply Text)
  pub aero_get_pool : Option (Text → Text → Bool → Reply Text)
  pub pool_tokens : Text → Reply (Text × Text)
  pub fee_tiers : List ℕ

-- `if test: return None`
abbrev pub none_if : {A : Type 0} → Bool → Graph (Option A) → Graph (Option A)
none_if true continue = ok none
none_if false continue = continue

-- The tokens that are not zero, in lower case.
unfoldable pub nonzero_tokens : List Text → Graph (List Text)
nonzero_tokens [] = ok []
nonzero_tokens (t ∷ tokens) = do
  zero_token ← is_zero t
  rest ← nonzero_tokens tokens
  ok (if zero_token then rest else lower t ∷ rest)

-- `combinations(tokens, 2)`
unfoldable pub combinations : List Text → List (Text × Text)
combinations [] = []
combinations (t ∷ tokens) = map (λ u. (t, u)) tokens ++ combinations tokens

module _ (discovery : PoolDiscovery) where
  -- The pool of the tokens that its contract names.
  unfoldable pub with_tokens :
      Reply (Text × Text)
      → Text
      → Text
      → Text
      → Option ℤ
      → Option Bool
      → Graph (Option PoolMetadata)
  with_tokens (err e) pool venue pool_type fee stable = ok none
  with_tokens (ok (token0, token1)) pool venue pool_type fee stable = do
    zero0 ← is_zero token0
    none_if zero0 (do
      zero1 ← is_zero token1
      none_if zero1
          (do meta ← create pool token0 token1 venue pool_type fee stable; ok (some meta)))

  -- `_verified`
  unfoldable pub verified :
      Text → Text → Text → Option ℤ → Option Bool → Graph (Option PoolMetadata)
  verified pool venue pool_type fee stable = do
    zero_pool ← is_zero pool
    none_if zero_pool (with_tokens (discovery.pool_tokens pool) pool venue pool_type fee stable)

  abbrev pub add_found : Option PoolMetadata → Dict PoolMetadata → Dict PoolMetadata
  add_found none found = found
  add_found (some meta) found = put (meta.address) meta found

  -- One answer of a factory; one that raised is skipped.
  unfoldable pub take_pool :
      Reply Text
      → Text
      → Text
      → Option ℤ
      → Option Bool
      → Dict PoolMetadata
      → Graph (Dict PoolMetadata)
  take_pool (err e) venue pool_type fee stable found = ok found
  take_pool (ok pool) venue pool_type fee stable found = do
    meta ← verified pool venue pool_type fee stable
    ok (add_found meta found)

  abbrev pub try_fee :
      (Text → Text → ℕ → Reply Text)
      → Text × Text
      → ℕ
      → Dict PoolMetadata
      → Graph (Dict PoolMetadata)
  try_fee get_pool (a, b) fee =
      take_pool (get_pool a b fee) (codes "uniswap-v3") (codes "concentrated") (some (pos fee)) none

  abbrev pub try_stable :
      (Text → Text → Bool → Reply Text)
      → Text × Text
      → Bool
      → Dict PoolMetadata
      → Graph (Dict PoolMetadata)
  try_stable get_pool (a, b) stable =
      take_pool (get_pool a b stable) (codes "aerodrome") (codes "xyk") none (some stable)

  abbrev pub try_fees :
      Option (Text → Text → ℕ → Reply Text)
      → Text × Text
      → Dict PoolMetadata
      → Graph (Dict PoolMetadata)
  try_fees none pair found = ok found
  try_fees (some get_pool) pair found = for_each (discovery.fee_tiers) (try_fee get_pool pair) found

  abbrev pub try_stables :
      Option (Text → Text → Bool → Reply Text)
      → Text × Text
      → Dict PoolMetadata
      → Graph (Dict PoolMetadata)
  try_stables none pair found = ok found
  try_stables (some get_pool) pair found =
      for_each (true ∷ false ∷ []) (try_stable get_pool pair) found

  -- The body of the loop over the pairs of tokens.
  unfoldable pub try_pair : Text × Text → Dict PoolMetadata → Graph (Dict PoolMetadata)
  try_pair pair found = do
    after_fees ← try_fees (discovery.univ3_get_pool) pair found
    try_stables (discovery.aero_get_pool) pair after_fees

  unfoldable pub discover : List Text → Graph (List PoolMetadata)
  discover tokens = do
    kept ← nonzero_tokens tokens
    found ← for_each (combinations (sorted (unique kept))) try_pair []
    ok (values found)

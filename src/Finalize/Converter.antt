-- ===== src/Finalize/Converter.antt =====
-- `NativeFeeConverter.convert` (python/src/arb_bot/execution.py).
use base_arb_bot.Finalize.{Outside, Settings, Reply, canonical_venue}
use base_arb_bot.Graph.{PoolMetadata, Graph, GraphError, key_error, LivePoolGraph, pools_for_token}
use base_arb_bot.Prelude.{
  ℕ, Bool, true, false, not, ◌&&◌, ◌||◌, List, [], ◌∷◌, ◌==◌, if◌then◌else◌, ok, err, ◌>>=◌, ◌>>◌,
  guard, Option, none, some, max,
}
use base_arb_bot.Prelude.Text.{Text, codes, text_eq, lower, strip, is_empty}

abbrev pub is_some {ℓ} : {A : Type ℓ} → Option A → Bool
is_some none = false
is_some (some a) = true

-- The pool converts WETH to the asset, and its metadata says enough to quote it.
unfoldable pub converts : Outside → Text → Text → PoolMetadata → Bool
converts outside weth asset pool =
    let other = if text_eq (pool.token0) weth then pool.token1 else pool.token0 in
    let canonical = canonical_venue (pool.venue) in
    text_eq other asset
    && outside.has_adapter (pool.venue)
    && (text_eq canonical (codes "uniswap-v3") && is_some (pool.fee)
        || text_eq canonical (codes "aerodrome") && is_some (pool.stable))

unfoldable pub conversion_quotes : Outside → Text → Text → ℕ → List PoolMetadata → Reply (List ℕ)
conversion_quotes outside weth asset native_wei [] = ok []
conversion_quotes outside weth asset native_wei (pool ∷ pools) =
    let rest = conversion_quotes outside weth asset native_wei pools in
    if converts outside weth asset pool
    then (do
      quote ← outside.quote_exact_input pool weth asset native_wei
      quotes ← rest
      ok (quote ∷ quotes))
    else rest

-- `max(candidates)`, where there is one.
abbrev pub largest : List ℕ → Option ℕ
largest [] = none
largest (x ∷ []) = some x
largest (x ∷ y ∷ xs) = largest (max x y ∷ xs)

abbrev pub chosen_quote : Option ℕ → Reply ℕ
chosen_quote none = err (codes "RuntimeError")
chosen_quote (some x) = ok x

abbrev pub exception_name : GraphError → Text
exception_name (key_error a) = codes "KeyError"
exception_name e = codes "ValueError"

abbrev pub graph_reply : {A : Type 0} → Graph A → Reply A
graph_reply (ok a) = ok a
graph_reply (err e) = err (exception_name e)

unfoldable pub convert : Outside → Settings → LivePoolGraph → Text → ℕ → Reply ℕ
convert outside settings graph asset native_wei =
    let weth = lower (strip (settings.base_weth)) in
    if native_wei == 0 then ok 0 else (do
      guard (not (is_empty weth)) (codes "RuntimeError")
      (if text_eq (lower asset) weth then ok native_wei else (do
        pools ← graph_reply (pools_for_token graph weth)
        quotes ← conversion_quotes outside weth (lower asset) native_wei pools
        chosen_quote (largest quotes))))

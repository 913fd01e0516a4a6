-- ===== src/Discovery/Tests.antt =====
-- A concrete discovery (python/src/arb_bot/discovery.py).
use base_arb_bot.Graph.{PoolMetadata, normalize_address, create}
use base_arb_bot.Graph.Samples.{address_of_digit}
use base_arb_bot.Discovery.{
  PoolDiscovery, is_zero, with_tokens, verified, take_pool, try_pair, nonzero_tokens, combinations,
  discover,
}
use base_arb_bot.Discovery.Verified.{IsFound, discover-IsFound}
use base_arb_bot.Prelude.{List, [], ◌∷◌, All, ok, err, none, some, ◌≡◌, refl, if◌then◌else◌, ◌==◌}
use base_arb_bot.Prelude.Text.{Text, codes, text_eq, text_ltb, starts_with, lower, strip, lstrip}
use base_arb_bot.Prelude.Numeral.{int_16}
use base_arb_bot.Prelude.Int.{pos}
use base_arb_bot.Prelude.Dict.{put, values, unique, sorted, insert_sorted, mem, add}
use base_arb_bot.Prelude.Loop.{for_each}

-- One Uniswap pool for the fee 500; the other factory raises.
abbrev sample_discovery : PoolDiscovery
sample_discovery = record {
  univ3_get_pool =
      some (λ a b fee. ok (if fee == 500 then address_of_digit 5 else address_of_digit 0));
  aero_get_pool = some (λ a b stable. err (codes "TimeoutError"));
  pool_tokens = λ pool. ok (address_of_digit 1, address_of_digit 2);
  fee_tiers = 100 ∷ 500 ∷ 3000 ∷ 10000 ∷ [];
}

abbrev sample_pools : List PoolMetadata
sample_pools =
    record {
      address = address_of_digit 5;
      token0 = address_of_digit 1;
      token1 = address_of_digit 2;
      venue = codes "uniswap-v3";
      pool_type = codes "concentrated";
      fee = some (pos 500);
      stable = none;
    }
    ∷ []

sample-discovered :
    discover sample_discovery (address_of_digit 2 ∷ address_of_digit 1 ∷ address_of_digit 2 ∷ [])
    ≡ ok sample_pools
unfolding discover nonzero_tokens combinations try_pair take_pool verified with_tokens is_zero
    for_each create normalize_address int_16 starts_with lower strip lstrip text_eq text_ltb put
    values unique sorted insert_sorted mem add
sample-discovered = refl

discover-IsFound_example :
    (kept : List Text) × (nonzero_tokens
        (address_of_digit 2 ∷ address_of_digit 1 ∷ address_of_digit 2 ∷ [])
      ≡ ok kept)
    × All (IsFound sample_discovery (combinations (sorted (unique kept)))) sample_pools
discover-IsFound_example =
    discover-IsFound sample_discovery
      (address_of_digit 2 ∷ address_of_digit 1 ∷ address_of_digit 2 ∷ []) sample_pools
      sample-discovered

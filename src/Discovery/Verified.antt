-- ===== src/Discovery/Verified.antt =====
-- Discovery (python/src/arb_bot/discovery.py) invents no pool.
use base_arb_bot.Finalize.{Reply}
use base_arb_bot.Graph.{PoolMetadata, Graph, create}
use base_arb_bot.Discovery.{
  PoolDiscovery, is_zero, none_if, with_tokens, verified, add_found, take_pool, try_fee, try_stable,
  try_fees, try_stables, try_pair, nonzero_tokens, combinations, discover,
}
use base_arb_bot.Prelude.{
  ℕ, Bool, true, false, List, [], ◌∷◌, Memᴰ, ok, err, Option, none, some, ◌≡◌, ◌⊎◌, inl, inr, refl,
  ap, ◌∙◌, subst, All, bind-eq-ok, ok-injective,
}
use base_arb_bot.Prelude.Text.{Text, codes}
use base_arb_bot.Prelude.Int.{ℤ, pos}
use base_arb_bot.Prelude.Dict.{Dict, values, unique, sorted, All-put}
use base_arb_bot.Prelude.Loop.{for_each, for_each_keeps, for_each_keeps_on}

module _ (discovery : PoolDiscovery) where
  -- A factory that was asked for one of the pairs answered with the raw address.
  abbrev pub IsAnswer : List (Text × Text) → Text → Text → Text → Option ℤ → Option Bool → Type 0
  IsAnswer pairs raw venue pool_type fee stable =
      ((get_pool : Text → Text → ℕ → Reply Text) × (a : Text) × (b : Text) × (tier : ℕ) × Memᴰ
          (a, b) pairs
        × Memᴰ tier (discovery.fee_tiers)
        × (discovery.univ3_get_pool ≡ some get_pool)
        × (get_pool a b tier ≡ ok raw)
        × (venue ≡ codes "uniswap-v3")
        × (pool_type ≡ codes "concentrated")
        × (fee ≡ some (pos tier))
        × (stable ≡ none))
      ⊎ ((get_pool : Text → Text → Bool → Reply Text) × (a : Text) × (b : Text) × (kind : Bool)
          × Memᴰ (a, b) pairs
          × (discovery.aero_get_pool ≡ some get_pool)
          × (get_pool a b kind ≡ ok raw)
          × (venue ≡ codes "aerodrome")
          × (pool_type ≡ codes "xyk")
          × (fee ≡ none)
          × (stable ≡ some kind))

  -- The pool's contract named two tokens, and none of the three addresses is zero.
  pub record IsVerified (raw venue pool_type : Text) (fee : Option ℤ) (stable : Option Bool)
      (meta : PoolMetadata) : Type 0 where
    pub token0 : Text
    pub token1 : Text
    pub raw_nonzero : is_zero raw ≡ ok false
    pub tokens : discovery.pool_tokens raw ≡ ok (token0, token1)
    pub token0_nonzero : is_zero token0 ≡ ok false
    pub token1_nonzero : is_zero token1 ≡ ok false
    pub created : create raw token0 token1 venue pool_type fee stable ≡ ok meta

  none_if-some :
      (b : Bool) (m : Graph (Option PoolMetadata)) (meta : PoolMetadata)
      → none_if b m ≡ ok (some meta)
      → (b ≡ false) × (m ≡ ok (some meta))
  none_if-some true m meta e = absurd (cc (ok-injective e))
  none_if-some false m meta e = (refl, e)

  some_injective : {x y : PoolMetadata} → ◌≡◌ {A = Option PoolMetadata} (some x) (some y) → x ≡ y
  some_injective e = cc

  with_tokens-IsVerified :
      (r : Reply (Text × Text)) (raw venue pool_type : Text) (fee : Option ℤ) (stable : Option Bool)
      (meta : PoolMetadata)
      → discovery.pool_tokens raw ≡ r
      → is_zero raw ≡ ok false
      → with_tokens discovery r raw venue pool_type fee stable ≡ ok (some meta)
      → IsVerified raw venue pool_type fee stable meta
  unfolding with_tokens
  with_tokens-IsVerified (err x) raw venue pool_type fee stable meta q z e =
      absurd (cc (ok-injective e))
  with_tokens-IsVerified (ok (t0, t1)) raw venue pool_type fee stable meta q z e =
      let (z0, q0, e0) = bind-eq-ok (is_zero t0) _ e in
      let (f0, e1) = none_if-some z0 _ meta e0 in
      let (z1, q1, e2) = bind-eq-ok (is_zero t1) _ e1 in
      let (f1, e3) = none_if-some z1 _ meta e2 in
      let (m, q2, e4) = bind-eq-ok (create raw t0 t1 venue pool_type fee stable) _ e3 in
      record {
        token0 = t0;
        token1 = t1;
        raw_nonzero = z;
        tokens = q;
        token0_nonzero = q0 ∙ ap ok f0;
        token1_nonzero = q1 ∙ ap ok f1;
        created = q2 ∙ ap ok (some_injective (ok-injective e4));
      }

  verified-IsVerified :
      (raw venue pool_type : Text) (fee : Option ℤ) (stable : Option Bool) (meta : PoolMetadata)
      → verified discovery raw venue pool_type fee stable ≡ ok (some meta)
      → IsVerified raw venue pool_type fee stable meta
  unfolding verified
  verified-IsVerified raw venue pool_type fee stable meta e =
      let (z, q, e1) = bind-eq-ok (is_zero raw) _ e in
      let (f, e2) = none_if-some z _ meta e1 in
      with_tokens-IsVerified (discovery.pool_tokens raw) raw venue pool_type fee stable meta refl
        (q ∙ ap ok f) e2

  -- A pool that discovery may return.
  pub record IsFound (pairs : List (Text × Text)) (meta : PoolMetadata) : Type 0 where
    pub raw : Text
    pub venue : Text
    pub pool_type : Text
    pub fee : Option ℤ
    pub stable : Option Bool
    pub answer : IsAnswer pairs raw venue pool_type fee stable
    pub checked : IsVerified raw venue pool_type fee stable meta

  abbrev AllFound : List (Text × Text) → Dict PoolMetadata → Type 0
  AllFound pairs found = All (IsFound pairs) (values found)

  take_pool-AllFound :
      (pairs : List (Text × Text)) (r : Reply Text) (venue pool_type : Text) (fee : Option ℤ)
      (stable : Option Bool) (found after : Dict PoolMetadata)
      → ((raw : Text) → r ≡ ok raw → IsAnswer pairs raw venue pool_type fee stable)
      → take_pool discovery r venue pool_type fee stable found ≡ ok after
      → AllFound pairs found
      → AllFound pairs after
  unfolding take_pool
  take_pool-AllFound pairs (err x) venue pool_type fee stable found after a e h =
      subst (AllFound pairs) (ok-injective e) h
  take_pool-AllFound pairs (ok raw) venue pool_type fee stable found after a e h =
      let (meta, q, e1) = bind-eq-ok (verified discovery raw venue pool_type fee stable) _ e in
      subst (AllFound pairs) (ok-injective e1) (by_meta meta q)
    where
      by_meta :
          (o : Option PoolMetadata)
          → verified discovery raw venue pool_type fee stable ≡ ok o
          → AllFound pairs (add_found discovery o found)
      by_meta none q = h
      by_meta (some meta) q =
          All-put (IsFound pairs) (meta.address) meta found
            (record {
              raw = raw;
              venue = venue;
              pool_type = pool_type;
              fee = fee;
              stable = stable;
              answer = a raw refl;
              checked = verified-IsVerified raw venue pool_type fee stable meta q;
            })
            h

  try_fees-AllFound :
      (pairs : List (Text × Text)) (get_pool : Option (Text → Text → ℕ → Reply Text))
      (pair : Text × Text) (found after : Dict PoolMetadata)
      → Memᴰ pair pairs
      → discovery.univ3_get_pool ≡ get_pool
      → try_fees discovery get_pool pair found ≡ ok after
      → AllFound pairs found
      → AllFound pairs after
  try_fees-AllFound pairs none pair found after p q e h = subst (AllFound pairs) (ok-injective e) h
  try_fees-AllFound pairs (some get_pool) (a, b) found after p q e h =
      for_each_keeps_on (AllFound pairs) (try_fee discovery get_pool (a, b)) (discovery.fee_tiers)
        found after
        (λ tier s t m e'.
          take_pool-AllFound pairs (get_pool a b tier) _ _ _ _ s t
            (λ raw q'. inl (get_pool, a, b, tier, p, m, q, q', refl, refl, refl, refl)) e')
        e h

  try_stables-AllFound :
      (pairs : List (Text × Text)) (get_pool : Option (Text → Text → Bool → Reply Text))
      (pair : Text × Text) (found after : Dict PoolMetadata)
      → Memᴰ pair pairs
      → discovery.aero_get_pool ≡ get_pool
      → try_stables discovery get_pool pair found ≡ ok after
      → AllFound pairs found
      → AllFound pairs after
  try_stables-AllFound pairs none pair found after p q e h =
      subst (AllFound pairs) (ok-injective e) h
  try_stables-AllFound pairs (some get_pool) (a, b) found after p q e h =
      for_each_keeps (AllFound pairs) (try_stable discovery get_pool (a, b))
        (λ kind s t e'.
          take_pool-AllFound pairs (get_pool a b kind) _ _ _ _ s t
            (λ raw q'. inr (get_pool, a, b, kind, p, q, q', refl, refl, refl, refl)) e')
        (true ∷ false ∷ []) found after e h

  try_pair-AllFound :
      (pairs : List (Text × Text)) (pair : Text × Text) (found after : Dict PoolMetadata)
      → Memᴰ pair pairs
      → try_pair discovery pair found ≡ ok after
      → AllFound pairs found
      → AllFound pairs after
  unfolding try_pair
  try_pair-AllFound pairs pair found after p e h =
      let (s, q, e1) = bind-eq-ok (try_fees discovery (discovery.univ3_get_pool) pair found) _ e in
      try_stables-AllFound pairs (discovery.aero_get_pool) pair s after p refl e1
        (try_fees-AllFound pairs (discovery.univ3_get_pool) pair found s p refl q h)

  -- Every pool that discovery returns is the answer of a configured factory, which was asked for a
  -- pair of the tokens that are not zero, in lower case and sorted, with one of the configured fee
  -- tiers or a stable flag; its contract named its two tokens; none of the three addresses is zero;
  -- and its metadata was created from them.
  pub discover-IsFound :
      (tokens : List Text) (pools : List PoolMetadata)
      → discover discovery tokens ≡ ok pools
      → (kept : List Text) × (nonzero_tokens tokens ≡ ok kept)
        × All (IsFound (combinations (sorted (unique kept)))) pools
  unfolding discover values
  discover-IsFound tokens pools e =
      let (kept, q, e1) = bind-eq-ok (nonzero_tokens tokens) _ e in
      let pairs = combinations (sorted (unique kept)) in
      let (found, q1, e2) = bind-eq-ok (for_each pairs (try_pair discovery) []) _ e1 in
      (
        kept,
        q,
        subst (All (IsFound pairs)) (ok-injective e2) (
            for_each_keeps_on (AllFound pairs) (try_pair discovery) pairs [] found
              (λ pair s t p. try_pair-AllFound pairs pair s t p) q1 tt),
      )

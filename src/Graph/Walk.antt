-- ===== src/Graph/Walk.antt =====
-- What a cycle of the graph is (python/src/arb_bot/event_graph.py).
use base_arb_bot.Graph.{PoolMetadata, address_of, Cycle, hops, other_token}
use base_arb_bot.Prelude.{
  ℕ, Bool, true, false, not, ◌&&◌, List, [], ◌∷◌, map, ltb, Option, none, some, ◌≡◌, ◌⊎◌, All,
}
use base_arb_bot.Prelude.Text.{Text}
use base_arb_bot.Prelude.Dict.{Dict, get, mem}

-- Each pool trades the token that the walk is at for the next token.
abbrev pub Walks : List PoolMetadata → List Text → Type 0
Walks [] [] = true ≡ false
Walks [] (t ∷ []) = t ≡ t
Walks [] (t ∷ u ∷ tokens) = true ≡ false
Walks (p ∷ pools) [] = true ≡ false
Walks (p ∷ pools) (t ∷ []) = true ≡ false
Walks (p ∷ pools) (t ∷ u ∷ tokens) = (other_token p t ≡ some u) × Walks pools (u ∷ tokens)

abbrev pub first : List Text → Option Text
first [] = none
first (t ∷ tokens) = some t

abbrev pub last : List Text → Option Text
last [] = none
last (t ∷ []) = some t
last (t ∷ u ∷ tokens) = last (u ∷ tokens)

abbrev pub are_distinct : List Text → Bool
are_distinct [] = true
are_distinct (x ∷ xs) = not (mem x xs) && are_distinct xs

-- A cycle of the graph: it returns to its first token over different registered pools, two or
-- three and at most `max_hops` when that is three, of which the first is an affected one.
pub record IsCycle (pools : Dict PoolMetadata) (affected : List Text) (max_hops : ℕ) (c : Cycle)
    : Type 0 where
  pub walks : Walks (c.pools) (c.tokens)
  pub closes : first (c.tokens) ≡ last (c.tokens)
  pub stored : All (λ p. get (p.address) pools ≡ some p) (c.pools)
  pub distinct : are_distinct (map address_of (c.pools)) ≡ true
  pub hop_count : (hops c ≡ 2) ⊎ ((hops c ≡ 3) × (ltb max_hops 3 ≡ false))
  pub starts : (p : Text) × (first (map address_of (c.pools)) ≡ some p) × (mem p affected ≡ true)

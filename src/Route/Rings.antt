-- ===== src/Route/Rings.antt =====
-- Cycles up to rotation: `_dedup_cycles` of python/src/arb_bot/route_engine.py. Tuples and lists
-- are compared as Python does, at the first place where they differ.
use base_arb_bot.Finalize.{Reply}
use base_arb_bot.Finalize.Run.{item}
use base_arb_bot.Graph.{PoolMetadata, Cycle}
use base_arb_bot.Prelude.{
  ℕ, zero, suc, ◌+◌, Bool, true, false, ◌&&◌, ◌||◌, List, [], ◌∷◌, ◌++◌, length, take, drop,
  if◌then◌else◌, ok, ◌>>=◌,
}
use base_arb_bot.Prelude.Text.{Text, text_eq, text_ltb}

-- A pool's address with the tokens that go in and out.
abbrev pub Edge : Type 0
Edge = Text × (Text × Text)

abbrev pub Ring : Type 0
Ring = List Edge

unfoldable pub edge_eq : Edge → Edge → Bool
edge_eq (p, (s, t)) (q, (u, v)) = text_eq p q && (text_eq s u && text_eq t v)

unfoldable pub edge_ltb : Edge → Edge → Bool
edge_ltb (p, (s, t)) (q, (u, v)) =
    if text_eq p q then (if text_eq s u then text_ltb t v else text_ltb s u) else text_ltb p q

unfoldable pub ring_eq : Ring → Ring → Bool
ring_eq [] [] = true
ring_eq [] (f ∷ s) = false
ring_eq (e ∷ r) [] = false
ring_eq (e ∷ r) (f ∷ s) = edge_eq e f && ring_eq r s

unfoldable pub ring_ltb : Ring → Ring → Bool
ring_ltb [] [] = false
ring_ltb [] (f ∷ s) = true
ring_ltb (e ∷ r) [] = false
ring_ltb (e ∷ r) (f ∷ s) = let rest = ring_ltb r s in if edge_eq e f then rest else edge_ltb e f

-- The edges of the pools, from the one of the given index on.
unfoldable pub edges_from : List Text → ℕ → List PoolMetadata → Reply Ring
edges_from tokens index [] = ok []
edges_from tokens index (pool ∷ pools) = do
  token_in ← item tokens index
  token_out ← item tokens (index + 1)
  rest ← edges_from tokens (index + 1) pools
  ok ((pool.address, (token_in, token_out)) ∷ rest)

-- The least of the ring and its rotations by 1, ..., k.
unfoldable pub least_rotation : Ring → ℕ → Ring
least_rotation ring zero = ring
least_rotation ring (suc k) =
    let best = least_rotation ring k in
    let turned = drop (suc k) ring ++ take (suc k) ring in
    if ring_ltb turned best then turned else best

-- `min(edges[i:] + edges[:i] for i in range(len(edges))) if edges else edges`
unfoldable pub canonical : Ring → Ring
canonical [] = []
canonical (edge ∷ edges) = least_rotation (edge ∷ edges) (length edges)

unfoldable pub ring_of : Cycle → Reply Ring
ring_of cycle = do edges ← edges_from (cycle.tokens) 0 (cycle.pools); ok (canonical edges)

unfoldable pub mem_ring : Ring → List Ring → Bool
mem_ring r [] = false
mem_ring r (s ∷ seen) = ring_eq r s || mem_ring r seen

-- The cycle is kept unless its ring was seen.
abbrev pub keep_new : Bool → Cycle → Reply (List Cycle) → Reply (List Cycle) → Reply (List Cycle)
keep_new true cycle skip keep = skip
keep_new false cycle skip keep = do rest ← keep; ok (cycle ∷ rest)

unfoldable pub dedup_from : List Ring → List Cycle → Reply (List Cycle)
dedup_from seen [] = ok []
dedup_from seen (cycle ∷ cycles) = do
  ring ← ring_of cycle
  keep_new (mem_ring ring seen) cycle (dedup_from seen cycles) (dedup_from (ring ∷ seen) cycles)

unfoldable pub dedup_cycles : List Cycle → Reply (List Cycle)
dedup_cycles cycles = dedup_from [] cycles

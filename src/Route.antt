-- ===== src/Route.antt =====
-- The route engine (python/src/arb_bot/route_engine.py), in child modules: the sizes to quote, the
-- choice among them, the quotes, the size of a cycle and its evaluation, and the rotations of a
-- cycle.
pub mod Sizing
pub mod Bounds
pub mod Best
pub mod Quotes
pub mod Optimize
pub mod Evaluate
pub mod About
pub mod Traded
pub mod Rings
pub mod Dedup
pub mod Affected
pub mod Rows
pub mod Outs
pub mod Batching
pub mod Refine
pub mod Hops
pub mod Candidate
mod Tests
pub mod Keys
pub mod Chosen
pub mod RingOrder
pub mod Rotations

-- ===== src/Graph/Sound.antt =====
-- What `cycles_for_affected` (python/src/arb_bot/event_graph.py) returns are cycles.
use base_arb_bot.Graph.{cycle_key, LivePoolGraph}
use base_arb_bot.Graph.Cycles.{normalize_all, record_cycle, cycles_for_affected}
use base_arb_bot.Graph.Walk.{IsCycle}
use base_arb_bot.Graph.Search.{from_pool-Returns}
use base_arb_bot.Graph.Index.{IsIndexed}
use base_arb_bot.Prelude.{ℕ, true, List, [], ok, ◌≡◌, sym, ◌∙◌, All}
use base_arb_bot.Prelude.Text.{Text}
use base_arb_bot.Prelude.Dict.{
  values, mem, sorted, unique, mem-sorted, mem-unique, All-put, All-of-mem,
}
use base_arb_bot.Prelude.Loop.{Returns, returns, bind-Returns, for_each-Returns}

-- In an indexed graph, for affected addresses that are well formed, the enumeration returns (it
-- raises no KeyError), and everything that it returns is a cycle through an affected pool.
pub cycles_for_affected-AreCycles :
    (graph : LivePoolGraph) (addresses affected : List Text) (max_hops : ℕ)
    → IsIndexed graph
    → normalize_all addresses ≡ ok affected
    → Returns
        (λ cs. All (IsCycle (graph.pools) affected max_hops) cs)
        (cycles_for_affected graph addresses max_hops)
unfolding cycles_for_affected
cycles_for_affected-AreCycles graph addresses affected max_hops inv norm = rw (norm) (
    bind-Returns _
      (for_each-Returns (λ a. mem a affected ≡ true)
        (λ cycles. All (IsCycle (graph.pools) affected max_hops) (values cycles)) _
        (λ a c m i.
          from_pool-Returns graph inv affected max_hops
            (λ cycles. All (IsCycle (graph.pools) affected max_hops) (values cycles))
            (λ c cycles p i.
              unfold record_cycle in
              All-put (IsCycle (graph.pools) affected max_hops) (cycle_key c) c cycles p i)
            a c m i)
        (sorted (unique affected)) []
        (All-of-mem (λ a. mem a affected ≡ true) (sorted (unique affected))
          (λ a m. sym (mem-unique a affected) ∙ sym (mem-sorted a (unique affected)) ∙ m))
        (unfold values in tt))
      (λ cycles i. returns _ (values cycles) i))

-- ===== src/Route/RingOrder.antt =====
-- Rings are compared by a strict total order (python/src/arb_bot/route_engine.py).
use base_arb_bot.Prelude.{true, false, ◌&&◌, [], ◌∷◌, ◌≡◌, refl}
use base_arb_bot.Prelude.Text.{text_eq, text_ltb}
use base_arb_bot.Prelude.Lex.{IsOrder, step_trans, step-irreflexive, step-total, text-IsOrder}
use base_arb_bot.Route.Rings.{Edge, Ring, edge_eq, edge_ltb, ring_eq, ring_ltb}
use base_arb_bot.Route.Dedup.{edge_eq_refl, edge_eq_sound, ring_eq_refl, ring_eq_sound}

edge-irreflexive : (e : Edge) → edge_ltb e e ≡ false
unfolding edge_ltb
edge-irreflexive (p, (s, t)) =
    step-irreflexive text_eq text_ltb text-IsOrder p _
      (step-irreflexive text_eq text_ltb text-IsOrder s _ (text-IsOrder.irreflexive t))

edge-transitive : (e f g : Edge) → edge_ltb e f ≡ true → edge_ltb f g ≡ true → edge_ltb e g ≡ true
unfolding edge_ltb
edge-transitive (p, (s, t)) (q, (u, v)) (r, (x, y)) =
    step_trans text_eq text_ltb text-IsOrder p q r _ _ _
      (step_trans text_eq text_ltb text-IsOrder s u x _ _ _ (text-IsOrder.transitive t v y))

edge-total : (e f : Edge) → edge_eq e f ≡ false → edge_ltb e f ≡ false → edge_ltb f e ≡ true
unfolding edge_ltb edge_eq
edge-total (p, (s, t)) (q, (u, v)) =
    step-total text_eq text_ltb text-IsOrder p q (text_eq s u && text_eq t v) _ _
      (step-total text_eq text_ltb text-IsOrder s u (text_eq t v) _ _ (text-IsOrder.total t v))

edge-IsOrder : IsOrder edge_eq edge_ltb
edge-IsOrder = record {
  eq_refl = edge_eq_refl;
  eq_sound = edge_eq_sound;
  irreflexive = edge-irreflexive;
  transitive = edge-transitive;
  total = edge-total;
}

ring-irreflexive : (r : Ring) → ring_ltb r r ≡ false
unfolding ring_ltb
ring-irreflexive [] = refl
ring-irreflexive (e ∷ r) =
    step-irreflexive edge_eq edge_ltb edge-IsOrder e (ring_ltb r r) (ring-irreflexive r)

ring-transitive : (r s t : Ring) → ring_ltb r s ≡ true → ring_ltb s t ≡ true → ring_ltb r t ≡ true
unfolding ring_ltb
ring-transitive [] [] t h k = absurd cc
ring-transitive [] (f ∷ s) [] h k = absurd cc
ring-transitive [] (f ∷ s) (g ∷ t) h k = refl
ring-transitive (e ∷ r) [] t h k = absurd cc
ring-transitive (e ∷ r) (f ∷ s) [] h k = absurd cc
ring-transitive (e ∷ r) (f ∷ s) (g ∷ t) h k =
    step_trans edge_eq edge_ltb edge-IsOrder e f g (ring_ltb r s) (ring_ltb s t) (ring_ltb r t)
      (ring-transitive r s t) h k

ring-total : (r s : Ring) → ring_eq r s ≡ false → ring_ltb r s ≡ false → ring_ltb s r ≡ true
unfolding ring_ltb ring_eq
ring-total [] [] h k = absurd cc
ring-total [] (f ∷ s) h k = absurd cc
ring-total (e ∷ r) [] h k = refl
ring-total (e ∷ r) (f ∷ s) h k =
    step-total edge_eq edge_ltb edge-IsOrder e f (ring_eq r s) (ring_ltb r s) (ring_ltb s r)
      (ring-total r s) h k

pub ring-IsOrder : IsOrder ring_eq ring_ltb
ring-IsOrder = record {
  eq_refl = ring_eq_refl;
  eq_sound = ring_eq_sound;
  irreflexive = ring-irreflexive;
  transitive = ring-transitive;
  total = ring-total;
}

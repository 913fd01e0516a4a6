-- ===== src/Route/Dedup.antt =====
-- What `_dedup_cycles` of python/src/arb_bot/route_engine.py keeps.
use base_arb_bot.Finalize.Run.{item}
use base_arb_bot.Prelude.Loop.{Returns, returns, bind-Returns}
use base_arb_bot.Graph.{PoolMetadata, Cycle}
use base_arb_bot.Route.Rings.{
  Edge, Ring, edge_eq, ring_eq, edges_from, canonical, ring_of, mem_ring, keep_new, dedup_from,
  dedup_cycles,
}
use base_arb_bot.Prelude.{
  ℕ, zero, suc, ◌+◌, ◌<◌, length, Bool, true, false, ◌||◌, List, [], ◌∷◌, ok, ◌≡◌, ◌≢◌, ◌⊎◌, inl,
  inr, refl, sym, ap, ◌∙◌, subst, All, bind-eq-ok, ok-injective, arith,
}
use base_arb_bot.Prelude.Text.{Text, text_eq_refl, text_eq_iff}

pub edge_eq_refl : (e : Edge) → edge_eq e e ≡ true
unfolding edge_eq
edge_eq_refl (p, (s, t)) = ground (arith, text_eq_refl p, text_eq_refl s, text_eq_refl t)

pub ring_eq_refl : (r : Ring) → ring_eq r r ≡ true
unfolding ring_eq
ring_eq_refl [] = refl
ring_eq_refl (e ∷ r) = ground (arith, edge_eq_refl e, ring_eq_refl r)

pub edge_eq_sound : (e f : Edge) → edge_eq e f ≡ true → e ≡ f
unfolding edge_eq
edge_eq_sound (p, (s, t)) (q, (u, v)) h =
    let ep : p ≡ q = (text_eq_iff p q).0 (ground (arith)) in
    let es : s ≡ u = (text_eq_iff s u).0 (ground (arith)) in
    let et : t ≡ v = (text_eq_iff t v).0 (ground (arith)) in cc

pub ring_eq_sound : (r s : Ring) → ring_eq r s ≡ true → r ≡ s
unfolding ring_eq
ring_eq_sound [] [] h = refl
ring_eq_sound [] (f ∷ s) h = absurd cc
ring_eq_sound (e ∷ r) [] h = absurd cc
ring_eq_sound (e ∷ r) (f ∷ s) h =
    let ee : e ≡ f = edge_eq_sound e f (ground (arith)) in
    let er : r ≡ s = ring_eq_sound r s (ground (arith)) in cc

-- A cycle of the ring is in the list.
abbrev pub HasRing : Ring → List Cycle → Type 0
HasRing r [] = ⊥
HasRing r (c ∷ cycles) = (ring_of c ≡ ok r) ⊎ HasRing r cycles

abbrev pub AreDistinct : List Cycle → Type 0
AreDistinct [] = Unit
AreDistinct (c ∷ cycles) = All (λ d. ring_of c ≢ ring_of d) cycles × AreDistinct cycles

-- `kept` leaves out some elements of `cycles`.
pub data IsPart : List Cycle → List Cycle → Type 0 where
  none_left : IsPart [] []
  keep :
      {c : Cycle} {kept cycles : List Cycle} → IsPart kept cycles → IsPart (c ∷ kept) (c ∷ cycles)
  skip : {c : Cycle} {kept cycles : List Cycle} → IsPart kept cycles → IsPart kept (c ∷ cycles)

-- Each cycle has a representative, or its ring was seen before.
abbrev Covers : List Ring → List Cycle → Cycle → Type 0
Covers seen kept c = (r : Ring) × (ring_of c ≡ ok r) × ((mem_ring r seen ≡ true) ⊎ HasRing r kept)

record IsDedup (seen : List Ring) (cycles kept : List Cycle) : Type 0 where
  part : IsPart kept cycles
  distinct : AreDistinct kept
  unseen : All (λ c. (r : Ring) → ring_of c ≡ ok r → mem_ring r seen ≡ false) kept
  covers : All (Covers seen kept) cycles

module _ (seen : List Ring) (c : Cycle) (r : Ring) (q : ring_of c ≡ ok r) where
  skipped :
      (cycles kept : List Cycle)
      → mem_ring r seen ≡ true
      → IsDedup seen cycles kept
      → IsDedup seen (c ∷ cycles) kept
  skipped cycles kept m d = record {
    part = skip d.part;
    distinct = d.distinct;
    unseen = d.unseen;
    covers = ((r, q, inl m), d.covers);
  }

  other_rings :
      (kept : List Cycle)
      → All (λ d. (s : Ring) → ring_of d ≡ ok s → mem_ring s (r ∷ seen) ≡ false) kept
      → All (λ d. ring_of c ≢ ring_of d) kept
  unfolding mem_ring
  other_rings [] h = tt
  other_rings (d ∷ kept) h =
      (λ e. absurd (ground (arith, h.0 r (sym e ∙ q), ring_eq_refl r)), other_rings kept h.1)

  still_unseen :
      (kept : List Cycle)
      → All (λ d. (s : Ring) → ring_of d ≡ ok s → mem_ring s (r ∷ seen) ≡ false) kept
      → All (λ d. (s : Ring) → ring_of d ≡ ok s → mem_ring s seen ≡ false) kept
  unfolding mem_ring
  still_unseen [] h = tt
  still_unseen (d ∷ kept) h = (λ s e. ground (arith, h.0 s e), still_unseen kept h.1)

  covered : (kept : List Cycle) (d : Cycle) → Covers (r ∷ seen) kept d → Covers seen (c ∷ kept) d
  unfolding mem_ring
  covered kept d (s, e, inr h) = (s, e, inr (inr h))
  covered kept d (s, e, inl h) = by_test (ring_eq s r) refl h
    where
      by_test :
          (t : Bool) → ring_eq s r ≡ t → (t || mem_ring s seen) ≡ true → Covers seen (c ∷ kept) d
      by_test true f h' = (s, e, inr (inl (q ∙ ap ok (sym (ring_eq_sound s r f)))))
      by_test false f h' = (s, e, inl h')

  covered_each :
      (kept cycles : List Cycle)
      → All (Covers (r ∷ seen) kept) cycles
      → All (Covers seen (c ∷ kept)) cycles
  covered_each kept [] h = tt
  covered_each kept (d ∷ cycles) h = (covered kept d h.0, covered_each kept cycles h.1)

  kept_too :
      (cycles kept : List Cycle)
      → mem_ring r seen ≡ false
      → IsDedup (r ∷ seen) cycles kept
      → IsDedup seen (c ∷ cycles) (c ∷ kept)
  kept_too cycles kept m d = record {
    part = keep d.part;
    distinct = (other_rings kept d.unseen, d.distinct);
    unseen = (λ s e. cc (ok-injective (sym e ∙ q), m), still_unseen kept d.unseen);
    covers = ((r, q, inr (inl q)), covered_each kept cycles d.covers);
  }

dedup_from-IsDedup :
    (seen : List Ring) (cycles kept : List Cycle)
    → dedup_from seen cycles ≡ ok kept
    → IsDedup seen cycles kept
unfolding dedup_from
dedup_from-IsDedup seen [] kept e =
    subst (IsDedup seen []) (ok-injective e)
      (record { part = none_left; distinct = tt; unseen = tt; covers = tt })
dedup_from-IsDedup seen (c ∷ cycles) kept e =
    let (r, q, e1) = bind-eq-ok (ring_of c) _ e in
    by_test r q (mem_ring r seen) refl e1 (dedup_from-IsDedup seen cycles)
      (dedup_from-IsDedup (r ∷ seen) cycles)
  where
    by_test :
        (r : Ring)
        → ring_of c ≡ ok r
        → (t : Bool) → mem_ring r seen ≡ t
        → keep_new t c (dedup_from seen cycles) (dedup_from (r ∷ seen) cycles) ≡ ok kept
        → ((k : List Cycle) → dedup_from seen cycles ≡ ok k → IsDedup seen cycles k)
        → ((k : List Cycle) → dedup_from (r ∷ seen) cycles ≡ ok k → IsDedup (r ∷ seen) cycles k)
        → IsDedup seen (c ∷ cycles) kept
    by_test r q true m e1 skips keeps = skipped seen c r q cycles kept m (skips kept e1)
    by_test r q false m e1 skips keeps =
        let (k, e2, e3) = bind-eq-ok (dedup_from (r ∷ seen) cycles) _ e1 in
        subst (IsDedup seen (c ∷ cycles)) (ok-injective e3)
          (kept_too seen c r q cycles k m (keeps k e2))

-- What is kept of the cycles: a part of them in their order, no two of the same ring, and with a
-- cycle of the ring of each of them.
pub record IsDeduped (cycles kept : List Cycle) : Type 0 where
  pub part : IsPart kept cycles
  pub distinct : AreDistinct kept
  pub represented : All (λ c. (r : Ring) × (ring_of c ≡ ok r) × HasRing r kept) cycles

represented_each :
    (kept cycles : List Cycle)
    → All (Covers [] kept) cycles
    → All (λ c. (r : Ring) × (ring_of c ≡ ok r) × HasRing r kept) cycles
unfolding mem_ring
represented_each kept [] h = tt
represented_each kept (c ∷ cycles) ((r, q, inl m), hs) = absurd cc
represented_each kept (c ∷ cycles) ((r, q, inr m), hs) =
    ((r, q, m), represented_each kept cycles hs)

pub deduped : (cycles kept : List Cycle) → dedup_cycles cycles ≡ ok kept → IsDeduped cycles kept
unfolding dedup_cycles
deduped cycles kept e =
    let d = dedup_from-IsDedup [] cycles kept e in
    record {
      part = d.part;
      distinct = d.distinct;
      represented = represented_each kept cycles d.covers;
    }

pub item-Returns :
    {A : Type 0} (xs : List A) (i : ℕ) → i < length xs → Returns (λ a. Unit {0}) (item xs i)
item-Returns [] i l = absurd (omega arith)
item-Returns (x ∷ xs) zero l = returns _ x tt
item-Returns (x ∷ xs) (suc i) l = item-Returns xs i (omega arith)

edges_from-Returns :
    (tokens : List Text) (index : ℕ) (pools : List PoolMetadata)
    → index + length pools < length tokens
    → Returns (λ r. Unit {0}) (edges_from tokens index pools)
unfolding edges_from
edges_from-Returns tokens index [] l = returns _ [] tt
edges_from-Returns tokens index (pool ∷ pools) l =
    bind-Returns _ (item-Returns tokens index (omega arith)) (λ a u.
      bind-Returns _ (item-Returns tokens (index + 1) (omega arith)) (λ b v.
        bind-Returns _ (edges_from-Returns tokens (index + 1) pools (omega arith))
          (λ rest w. returns _ ((pool.address, (a, b)) ∷ rest) tt)))

ring_of-Returns :
    (c : Cycle) → length (c.tokens) ≡ suc (length (c.pools)) → Returns (λ r. Unit {0}) (ring_of c)
unfolding ring_of
ring_of-Returns c h =
    bind-Returns _ (edges_from-Returns (c.tokens) 0 (c.pools) (omega arith))
      (λ edges u. returns _ (canonical edges) tt)

dedup_from-Returns :
    (seen : List Ring) (cycles : List Cycle)
    → All (λ c. length (c.tokens) ≡ suc (length (c.pools))) cycles
    → Returns (λ kept. Unit {0}) (dedup_from seen cycles)
unfolding dedup_from
dedup_from-Returns seen [] h = returns _ [] tt
dedup_from-Returns seen (c ∷ cycles) h = bind-Returns _ (ring_of-Returns c h.0) (λ r u.
    by_test r (mem_ring r seen) (dedup_from-Returns seen cycles h.1)
      (dedup_from-Returns (r ∷ seen) cycles h.1))
  where
    by_test :
        (r : Ring) (t : Bool)
        → Returns (λ kept. Unit {0}) (dedup_from seen cycles)
        → Returns (λ kept. Unit {0}) (dedup_from (r ∷ seen) cycles)
        → Returns
            (λ kept. Unit {0})
            (keep_new t c (dedup_from seen cycles) (dedup_from (r ∷ seen) cycles))
    by_test r true skips keeps = skips
    by_test r false skips keeps = bind-Returns _ keeps (λ rest u. returns _ (c ∷ rest) tt)

-- If every cycle has one token more than pools, then the cycles that are kept are a part of them,
-- in their order; no two cycles kept are of the same ring; and each cycle's ring is that of a
-- cycle kept.
pub dedup_cycles-IsDeduped :
    (cycles : List Cycle)
    → All (λ c. length (c.tokens) ≡ suc (length (c.pools))) cycles
    → Returns (IsDeduped cycles) (dedup_cycles cycles)
unfolding dedup_cycles
dedup_cycles-IsDeduped cycles h =
    let r = dedup_from-Returns [] cycles h in
    record { value = r.value; returned = r.returned; holds = deduped cycles r.value r.returned }

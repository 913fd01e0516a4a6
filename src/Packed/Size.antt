-- ===== src/Packed/Size.antt =====
-- The length of what the encoder writes.
use base_arb_bot.Prelude.{
  ℕ, ◌+◌, ◌*◌, ◌≤◌, ◌≡◌, sym, ap, List, [], ◌∷◌, ◌++◌, length, length-append, ok, bind-eq-ok,
  ok-injective, true, ◌&&◌, leb, leb→le, arith,
}
use base_arb_bot.Prelude.Int.{pos}
use base_arb_bot.Packed.{
  PackedLeg, PackedCandidate, PackedBatch, max_packed_legs, max_packed_candidates, encode_leg,
  encode_legs, encode_candidate, encode_candidates, encode_packed_batch,
}
use base_arb_bot.Packed.Fields.{hex_bytes-ok, uint_bytes-ok}
use base_arb_bot.Packed.Encode.{
  LegPieces, CandidatePieces, encode_leg-pieces, encode_candidate-pieces,
  encode_packed_batch-pieces,
}

abbrev pub leg_size : PackedLeg → ℕ
leg_size leg = 94 + length leg.leg_data

abbrev pub legs_size : List PackedLeg → ℕ
legs_size [] = 0
legs_size (leg ∷ legs) = leg_size leg + legs_size legs

abbrev pub candidates_size : List PackedCandidate → ℕ
candidates_size [] = 0
candidates_size (c ∷ cs) = 65 + legs_size c.legs + candidates_size cs

pub length-leg : {leg : PackedLeg} {out : List ℕ} → LegPieces leg out → length out ≡ leg_size leg
length-leg {leg} p =
    let d = leg.leg_data in
    let n = p.data_len in
    let m = p.min_out in
    let o = p.token_out in
    let i = p.token_in in
    omega (
      arith,
      ap length p.out_eq,
      length-append p.adapter (i ++ (o ++ (m ++ (n ++ d)))),
      length-append i (o ++ (m ++ (n ++ d))),
      length-append o (m ++ (n ++ d)),
      length-append m (n ++ d),
      length-append n d,
      hex_bytes-ok leg.adapter 20 _ p.adapter p.adapter_eq,
      hex_bytes-ok leg.token_in 20 _ i p.token_in_eq,
      hex_bytes-ok leg.token_out 20 _ o p.token_out_eq,
      uint_bytes-ok leg.min_out 32 _ m p.min_out_eq,
      uint_bytes-ok (pos (length d)) 2 _ n p.data_len_eq,
    )

pub length-encode_legs :
    (legs : List PackedLeg) (out : List ℕ) → encode_legs legs ≡ ok out → length out ≡ legs_size legs
unfolding encode_legs
length-encode_legs [] out e = ap length (ok-injective (sym e))
length-encode_legs (leg ∷ legs) out e =
    let (a, ea, e1) = bind-eq-ok (encode_leg leg) _ e in
    let (b, eb, e2) = bind-eq-ok (encode_legs legs) _ e1 in
    omega (
      arith,
      ap length (ok-injective e2),
      length-append a b,
      length-leg (encode_leg-pieces leg a ea),
      length-encode_legs legs b eb,
    )

pub length-candidate :
    {c : PackedCandidate} {out : List ℕ}
    → CandidatePieces c out
    → length out ≡ 65 + legs_size c.legs
length-candidate {c} p = omega (
  arith,
  ap length p.out_eq,
  length-append p.id (p.min_profit ++ (p.count ++ p.legs)),
  length-append p.min_profit (p.count ++ p.legs),
  length-append p.count p.legs,
  hex_bytes-ok c.candidate_id 32 _ p.id p.id_eq,
  uint_bytes-ok c.min_profit 32 _ p.min_profit p.min_profit_eq,
  uint_bytes-ok (pos (length c.legs)) 1 _ p.count p.count_eq,
  length-encode_legs c.legs p.legs p.legs_eq,
)

pub length-encode_candidates :
    (cs : List PackedCandidate) (out : List ℕ)
    → encode_candidates cs ≡ ok out
    → length out ≡ candidates_size cs
unfolding encode_candidates
length-encode_candidates [] out e = ap length (ok-injective (sym e))
length-encode_candidates (c ∷ cs) out e =
    let (a, ea, e1) = bind-eq-ok (encode_candidate c) _ e in
    let (b, eb, e2) = bind-eq-ok (encode_candidates cs) _ e1 in
    omega (
      arith,
      ap length (ok-injective e2),
      length-append a b,
      length-candidate (encode_candidate-pieces c a ea),
      length-encode_candidates cs b eb,
    )

length-batch :
    (batch : PackedBatch) (out : List ℕ)
    → encode_packed_batch batch ≡ ok out
    → length out ≡ 70 + candidates_size batch.candidates
length-batch b out e =
    let p = encode_packed_batch-pieces b out e in
    let c = p.candidates in
    let d = p.deadline in
    let t = p.target_block in
    let m = p.amount in
    let a = p.asset in
    omega (
      arith,
      ap length p.out_eq,
      length-append p.version (p.count ++ (a ++ (m ++ (t ++ (d ++ c))))),
      length-append p.count (a ++ (m ++ (t ++ (d ++ c)))),
      length-append a (m ++ (t ++ (d ++ c))),
      length-append m (t ++ (d ++ c)),
      length-append t (d ++ c),
      length-append d c,
      uint_bytes-ok (pos 1) 1 _ p.version p.version_eq,
      uint_bytes-ok (pos (length b.candidates)) 1 _ p.count p.count_eq,
      hex_bytes-ok b.asset 20 _ a p.asset_eq,
      uint_bytes-ok b.amount 32 _ m p.amount_eq,
      uint_bytes-ok b.target_block 8 _ t p.target_block_eq,
      uint_bytes-ok b.deadline 8 _ d p.deadline_eq,
      length-encode_candidates b.candidates c p.candidates_eq,
    )

legs_size-le :
    (legs : List PackedLeg) (out : List ℕ)
    → encode_legs legs ≡ ok out
    → legs_size legs ≤ 2142 * length legs
unfolding encode_legs
legs_size-le [] out e = omega arith
legs_size-le (leg ∷ legs) out e =
    let (a, ea, e1) = bind-eq-ok (encode_leg leg) _ e in
    let (b, eb, e2) = bind-eq-ok (encode_legs legs) _ e1 in
    let fits = leb→le _ _ (encode_leg-pieces leg a ea).data_fits in
    omega (arith, fits, legs_size-le legs b eb)

candidate_bound :
    (n size : ℕ) → (leb 2 n && leb n max_packed_legs) ≡ true → size ≤ 2142 * n → 65 + size ≤ 8633
candidate_bound n size h le = ground arith

candidates_size-le :
    (cs : List PackedCandidate) (out : List ℕ)
    → encode_candidates cs ≡ ok out
    → candidates_size cs ≤ 8633 * length cs
unfolding encode_candidates
candidates_size-le [] out e = omega arith
candidates_size-le (c ∷ cs) out e =
    let (a, ea, e1) = bind-eq-ok (encode_candidate c) _ e in
    let (b, eb, e2) = bind-eq-ok (encode_candidates cs) _ e1 in
    let p = encode_candidate-pieces c a ea in
    omega (
      arith,
      candidate_bound (length c.legs) (legs_size c.legs) p.count_fits
          (legs_size-le c.legs p.legs p.legs_eq),
      candidates_size-le cs b eb,
    )

batch_bound :
    (n size : ℕ)
    → (leb 1 n && leb n max_packed_candidates) ≡ true
    → size ≤ 8633 * n
    → 70 + size ≤ 69134
batch_bound n size h le = ground arith

-- An encoding of a batch has 70 bytes, 65 more for each candidate, and for each leg 94 more and the
-- length of its data; it never has more than 69134.
pub length-encode_packed_batch :
    (batch : PackedBatch) (out : List ℕ)
    → encode_packed_batch batch ≡ ok out
    → (length out ≡ 70 + candidates_size batch.candidates) × (length out ≤ 69134)
length-encode_packed_batch batch out e =
    let p = encode_packed_batch-pieces batch out e in
    let bound =
      batch_bound (length batch.candidates) (candidates_size batch.candidates) p.count_fits
        (candidates_size-le batch.candidates p.candidates p.candidates_eq) in
    (length-batch batch out e, omega (arith, bound, length-batch batch out e))

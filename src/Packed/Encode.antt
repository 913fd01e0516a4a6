-- ===== src/Packed/Encode.antt =====
-- What an encoding consists of: the pieces of an encoder that returned.
use base_arb_bot.Prelude.{
  ℕ, ◌≡◌, sym, ap, Bool, true, false, not, ◌&&◌, List, ◌++◌, length, ok, bind-eq-ok, guard-eq-ok,
  ok-injective, leb, arith,
}
use base_arb_bot.Prelude.Text.{codes, text_eq, lower}
use base_arb_bot.Prelude.Int.{pos}
use base_arb_bot.Packed.{
  PackedLeg, PackedCandidate, PackedBatch, hex_bytes, uint_bytes, max_packed_leg_data,
  max_packed_legs, max_packed_candidates, packed_version, encode_leg, encode_legs, encode_candidate,
  encode_candidates, encode_packed_batch,
}

pub record LegPieces (leg : PackedLeg) (out : List ℕ) : Type 0 where
  pub adapter : List ℕ
  pub token_in : List ℕ
  pub token_out : List ℕ
  pub min_out : List ℕ
  pub data_len : List ℕ
  pub distinct : text_eq (lower leg.token_in) (lower leg.token_out) ≡ false
  pub data_fits : leb (length leg.leg_data) max_packed_leg_data ≡ true
  pub adapter_eq : hex_bytes leg.adapter 20 (codes "adapter") ≡ ok adapter
  pub token_in_eq : hex_bytes leg.token_in 20 (codes "token_in") ≡ ok token_in
  pub token_out_eq : hex_bytes leg.token_out 20 (codes "token_out") ≡ ok token_out
  pub min_out_eq : uint_bytes leg.min_out 32 (codes "min_out") ≡ ok min_out
  pub data_len_eq : uint_bytes (pos (length leg.leg_data)) 2 (codes "data_len") ≡ ok data_len
  pub out_eq : out ≡ adapter ++ (token_in ++ (token_out ++ (min_out ++ (data_len ++ leg.leg_data))))

not-true : (b : Bool) → not b ≡ true → b ≡ false
not-true b h = ground arith

pub encode_leg-pieces :
    (leg : PackedLeg) (out : List ℕ) → encode_leg leg ≡ ok out → LegPieces leg out
unfolding encode_leg
encode_leg-pieces leg out e =
    let (t, e1) = guard-eq-ok _ _ _ e in
    let (f, e2) = guard-eq-ok _ _ _ e1 in
    let (a, ea, e3) = bind-eq-ok (hex_bytes leg.adapter 20 (codes "adapter")) _ e2 in
    let (i, ei, e4) = bind-eq-ok (hex_bytes leg.token_in 20 (codes "token_in")) _ e3 in
    let (o, eo, e5) = bind-eq-ok (hex_bytes leg.token_out 20 (codes "token_out")) _ e4 in
    let (m, em, e6) = bind-eq-ok (uint_bytes leg.min_out 32 (codes "min_out")) _ e5 in
    let (n, en, e7) =
      bind-eq-ok (uint_bytes (pos (length leg.leg_data)) 2 (codes "data_len")) _ e6 in
    record {
      adapter = a;
      token_in = i;
      token_out = o;
      min_out = m;
      data_len = n;
      distinct = not-true _ t;
      data_fits = f;
      adapter_eq = ea;
      token_in_eq = ei;
      token_out_eq = eo;
      min_out_eq = em;
      data_len_eq = en;
      out_eq = sym (ok-injective e7);
    }

pub encode_leg_of_pieces :
    {leg : PackedLeg} {out : List ℕ} → LegPieces leg out → encode_leg leg ≡ ok out
unfolding encode_leg
encode_leg_of_pieces p =
    rw
      (
        p.distinct, p.data_fits, p.adapter_eq, p.token_in_eq, p.token_out_eq, p.min_out_eq,
        p.data_len_eq,
      )
      (ap ok (sym p.out_eq))

pub record CandidatePieces (candidate : PackedCandidate) (out : List ℕ) : Type 0 where
  pub id : List ℕ
  pub min_profit : List ℕ
  pub count : List ℕ
  pub legs : List ℕ
  pub count_fits :
      (leb 2 (length candidate.legs) && leb (length candidate.legs) max_packed_legs) ≡ true
  pub id_eq : hex_bytes candidate.candidate_id 32 (codes "candidate_id") ≡ ok id
  pub min_profit_eq : uint_bytes candidate.min_profit 32 (codes "min_profit") ≡ ok min_profit
  pub count_eq : uint_bytes (pos (length candidate.legs)) 1 (codes "leg_count") ≡ ok count
  pub legs_eq : encode_legs candidate.legs ≡ ok legs
  pub out_eq : out ≡ id ++ (min_profit ++ (count ++ legs))

pub encode_candidate-pieces :
    (candidate : PackedCandidate) (out : List ℕ)
    → encode_candidate candidate ≡ ok out
    → CandidatePieces candidate out
unfolding encode_candidate
encode_candidate-pieces c out e =
    let (f, e1) = guard-eq-ok _ _ _ e in
    let (i, ei, e2) = bind-eq-ok (hex_bytes c.candidate_id 32 (codes "candidate_id")) _ e1 in
    let (m, em, e3) = bind-eq-ok (uint_bytes c.min_profit 32 (codes "min_profit")) _ e2 in
    let (n, en, e4) = bind-eq-ok (uint_bytes (pos (length c.legs)) 1 (codes "leg_count")) _ e3 in
    let (l, el, e5) = bind-eq-ok (encode_legs c.legs) _ e4 in
    record {
      id = i;
      min_profit = m;
      count = n;
      legs = l;
      count_fits = f;
      id_eq = ei;
      min_profit_eq = em;
      count_eq = en;
      legs_eq = el;
      out_eq = sym (ok-injective e5);
    }

pub encode_candidate_of_pieces :
    {candidate : PackedCandidate} {out : List ℕ}
    → CandidatePieces candidate out
    → encode_candidate candidate ≡ ok out
unfolding encode_candidate
encode_candidate_of_pieces p =
    rw (p.count_fits, p.id_eq, p.min_profit_eq, p.count_eq, p.legs_eq) (ap ok (sym p.out_eq))

pub record BatchPieces (batch : PackedBatch) (out : List ℕ) : Type 0 where
  pub version : List ℕ
  pub count : List ℕ
  pub asset : List ℕ
  pub amount : List ℕ
  pub target_block : List ℕ
  pub deadline : List ℕ
  pub candidates : List ℕ
  pub count_fits :
      (leb 1 (length batch.candidates) && leb (length batch.candidates) max_packed_candidates)
      ≡ true
  pub version_eq : uint_bytes (pos packed_version) 1 (codes "version") ≡ ok version
  pub count_eq : uint_bytes (pos (length batch.candidates)) 1 (codes "candidate_count") ≡ ok count
  pub asset_eq : hex_bytes batch.asset 20 (codes "asset") ≡ ok asset
  pub amount_eq : uint_bytes batch.amount 32 (codes "amount") ≡ ok amount
  pub target_block_eq : uint_bytes batch.target_block 8 (codes "target_block") ≡ ok target_block
  pub deadline_eq : uint_bytes batch.deadline 8 (codes "deadline") ≡ ok deadline
  pub candidates_eq : encode_candidates batch.candidates ≡ ok candidates
  pub out_eq :
      out ≡ version ++ (count ++ (asset ++ (amount ++ (target_block ++ (deadline ++ candidates)))))

pub encode_packed_batch-pieces :
    (batch : PackedBatch) (out : List ℕ)
    → encode_packed_batch batch ≡ ok out
    → BatchPieces batch out
unfolding encode_packed_batch
encode_packed_batch-pieces b out e =
    let (f, e1) = guard-eq-ok _ _ _ e in
    let (v, ev, e2) = bind-eq-ok (uint_bytes (pos packed_version) 1 (codes "version")) _ e1 in
    let (n, en, e3) =
      bind-eq-ok (uint_bytes (pos (length b.candidates)) 1 (codes "candidate_count")) _ e2 in
    let (a, ea, e4) = bind-eq-ok (hex_bytes b.asset 20 (codes "asset")) _ e3 in
    let (m, em, e5) = bind-eq-ok (uint_bytes b.amount 32 (codes "amount")) _ e4 in
    let (t, et, e6) = bind-eq-ok (uint_bytes b.target_block 8 (codes "target_block")) _ e5 in
    let (d, ed, e7) = bind-eq-ok (uint_bytes b.deadline 8 (codes "deadline")) _ e6 in
    let (c, ec, e8) = bind-eq-ok (encode_candidates b.candidates) _ e7 in
    record {
      version = v;
      count = n;
      asset = a;
      amount = m;
      target_block = t;
      deadline = d;
      candidates = c;
      count_fits = f;
      version_eq = ev;
      count_eq = en;
      asset_eq = ea;
      amount_eq = em;
      target_block_eq = et;
      deadline_eq = ed;
      candidates_eq = ec;
      out_eq = sym (ok-injective e8);
    }

pub encode_packed_batch_of_pieces :
    {batch : PackedBatch} {out : List ℕ}
    → BatchPieces batch out
    → encode_packed_batch batch ≡ ok out
unfolding encode_packed_batch
encode_packed_batch_of_pieces p =
    rw
      (
        p.count_fits, p.version_eq, p.count_eq, p.asset_eq, p.amount_eq, p.target_block_eq,
        p.deadline_eq, p.candidates_eq,
      )
      (ap ok (sym p.out_eq))

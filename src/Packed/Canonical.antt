-- ===== src/Packed/Canonical.antt =====
-- Encoding what was decoded: the wire form of a batch is canonical.
use base_arb_bot.Prelude.{
  ℕ, ◌≡◌, refl, sym, subst, ◌∙◌, true, List, [], ◌∷◌, ◌++◌, ◌&&◌, length, drop, All, ok, bind-eq-ok,
  guard-eq-ok, ok-injective, leb, ◌==◌, ==_iff,
}
use mathlib.Core.List.{append-nil}
use base_arb_bot.Prelude.Bytes.{IsByte, from_bytes}
use base_arb_bot.Prelude.Int.{pos}
use base_arb_bot.Prelude.Text.{codes}
use base_arb_bot.Packed.{
  uint_bytes, PackedCandidate, PackedBatch, take_bytes, encode_candidates, encode_packed_batch,
  decode_candidates, decode_packed_batch, first_byte, hex_text, max_packed_candidates,
  packed_version,
}
use base_arb_bot.Packed.Fields.{hex_bytes-hex_text, uint_bytes-from_bytes}
use base_arb_bot.Packed.RoundTrip.{first_byte-count}
use base_arb_bot.Packed.LegForm.{DistinctLegs, taken}
use base_arb_bot.Packed.CandidateForm.{candidates_encode}
use base_arb_bot.Packed.Encode.{BatchPieces, encode_packed_batch_of_pieces}

-- The reads of a `decode_packed_batch` that returned.
record BatchReads (raw : List ℕ) (batch : PackedBatch) : Type 0 where
  version : List ℕ × ℕ
  counted : List ℕ × ℕ
  asset : List ℕ × ℕ
  amount : List ℕ × ℕ
  target_block : List ℕ × ℕ
  deadline : List ℕ × ℕ
  candidates : List PackedCandidate × ℕ
  version_eq : take_bytes raw 0 1 ≡ ok version
  is_version : (first_byte version.0 == packed_version) ≡ true
  counted_eq : take_bytes raw version.1 1 ≡ ok counted
  fits : (leb 1 (first_byte counted.0) && leb (first_byte counted.0) max_packed_candidates) ≡ true
  asset_eq : take_bytes raw counted.1 20 ≡ ok asset
  amount_eq : take_bytes raw asset.1 32 ≡ ok amount
  target_block_eq : take_bytes raw amount.1 8 ≡ ok target_block
  deadline_eq : take_bytes raw target_block.1 8 ≡ ok deadline
  candidates_eq : decode_candidates (first_byte counted.0) raw deadline.1 ≡ ok candidates
  all_read : (candidates.1 == length raw) ≡ true
  result :
      ◌≡◌ {A = PackedBatch}
        record {
          asset = hex_text asset.0;
          amount = pos (from_bytes amount.0);
          target_block = pos (from_bytes target_block.0);
          deadline = pos (from_bytes deadline.0);
          candidates = candidates.0;
        }
        batch

batch_reads :
    (raw : List ℕ) (batch : PackedBatch) → decode_packed_batch raw ≡ ok batch → BatchReads raw batch
unfolding decode_packed_batch
batch_reads raw batch e =
    let (v, ev, e1) = bind-eq-ok (take_bytes raw 0 1) _ e in
    let (f, e2) = guard-eq-ok _ _ _ e1 in
    let (n, en, e3) = bind-eq-ok (take_bytes raw v.1 1) _ e2 in
    let (g, e4) = guard-eq-ok _ _ _ e3 in
    let (a, ea, e5) = bind-eq-ok (take_bytes raw n.1 20) _ e4 in
    let (m, em, e6) = bind-eq-ok (take_bytes raw a.1 32) _ e5 in
    let (t, et, e7) = bind-eq-ok (take_bytes raw m.1 8) _ e6 in
    let (d, ed, e8) = bind-eq-ok (take_bytes raw t.1 8) _ e7 in
    let (c, ec, e9) = bind-eq-ok (decode_candidates (first_byte n.0) raw d.1) _ e8 in
    let (k, e10) = guard-eq-ok _ _ _ e9 in
    record {
      version = v;
      counted = n;
      asset = a;
      amount = m;
      target_block = t;
      deadline = d;
      candidates = c;
      version_eq = ev;
      is_version = f;
      counted_eq = en;
      fits = g;
      asset_eq = ea;
      amount_eq = em;
      target_block_eq = et;
      deadline_eq = ed;
      candidates_eq = ec;
      all_read = k;
      result = ok-injective e10;
    }

pieces_of_batch :
    (v n a m t d c : List ℕ) (cs : List PackedCandidate)
    → All IsByte v × All IsByte n × All IsByte a × All IsByte m × All IsByte t × All IsByte d
    → (length v ≡ 1)
      × (length n ≡ 1)
      × (length a ≡ 20)
      × (length m ≡ 32)
      × (length t ≡ 8)
      × (length d ≡ 8)
    → first_byte v ≡ packed_version
    → length cs ≡ first_byte n
    → (leb 1 (first_byte n) && leb (first_byte n) max_packed_candidates) ≡ true
    → encode_candidates cs ≡ ok c
    → BatchPieces
        (record {
          asset = hex_text a;
          amount = pos (from_bytes m);
          target_block = pos (from_bytes t);
          deadline = pos (from_bytes d);
          candidates = cs;
        })
        (v ++ (n ++ (a ++ (m ++ (t ++ (d ++ c))))))
pieces_of_batch v n a m t d c cs (bv, bn, ba, bm, bt, bd) (lv, ln, la, lm, lt, ld) version count
      fits ec =
    record {
      version = v;
      count = n;
      asset = a;
      amount = m;
      target_block = t;
      deadline = d;
      candidates = c;
      count_fits = rw count fits;
      version_eq =
          subst (λ (k : ℕ). uint_bytes (pos k) 1 (codes "version") ≡ ok v)
            (sym (first_byte-count v lv) ∙ version) (uint_bytes-from_bytes v 1 _ bv lv);
      count_eq = rw (count, first_byte-count n ln) (uint_bytes-from_bytes n 1 _ bn ln);
      asset_eq = hex_bytes-hex_text a 20 _ ba la;
      amount_eq = uint_bytes-from_bytes m 32 _ bm lm;
      target_block_eq = uint_bytes-from_bytes t 8 _ bt lt;
      deadline_eq = uint_bytes-from_bytes d 8 _ bd ld;
      candidates_eq = ec;
      out_eq = refl;
    }

drop-length : (raw : List ℕ) → drop (length raw) raw ≡ []
drop-length [] = refl
drop-length (x ∷ raw) = drop-length raw

batch_pieces :
    (raw : List ℕ) (batch : PackedBatch)
    → All IsByte raw
    → All DistinctLegs batch.candidates
    → BatchReads raw batch
    → BatchPieces batch raw
batch_pieces raw batch h ne r =
    let tv = taken 0 1 r.version h r.version_eq in
    let tn = taken r.version.1 1 r.counted h r.counted_eq in
    let ta = taken r.counted.1 20 r.asset h r.asset_eq in
    let tm = taken r.asset.1 32 r.amount h r.amount_eq in
    let tt' = taken r.amount.1 8 r.target_block h r.target_block_eq in
    let td = taken r.target_block.1 8 r.deadline h r.deadline_eq in
    let distinct = subst (λ (b : PackedBatch). All DistinctLegs b.candidates) (sym r.result) ne in
    let (c, ec, count, split) =
      candidates_encode raw (first_byte r.counted.0) r.deadline.1 r.candidates.0 r.candidates.1 h
        distinct r.candidates_eq in
    let stop = (==_iff r.candidates.1 (length raw)).0 r.all_read in
    let out =
      r.version.0
      ++ (r.counted.0
          ++ (r.asset.0 ++ (r.amount.0 ++ (r.target_block.0 ++ (r.deadline.0 ++ c))))) in
    let whole : raw ≡ out =
      tv.split
      ∙ rw (
        tn.split,
        ta.split,
        tm.split,
        tt'.split,
        td.split,
        split,
        stop,
        drop-length raw,
        append-nil,
      ) in
    let read : PackedBatch = record {
      asset = hex_text r.asset.0;
      amount = pos (from_bytes r.amount.0);
      target_block = pos (from_bytes r.target_block.0);
      deadline = pos (from_bytes r.deadline.0);
      candidates = r.candidates.0;
    } in
    subst (λ (b : PackedBatch). BatchPieces b raw) r.result
      (subst (λ (o : List ℕ). BatchPieces read o) (sym whole)
        (pieces_of_batch r.version.0 r.counted.0 r.asset.0 r.amount.0 r.target_block.0 r.deadline.0
          c r.candidates.0 (tv.bytes, tn.bytes, ta.bytes, tm.bytes, tt'.bytes, td.bytes)
          (tv.size_eq, tn.size_eq, ta.size_eq, tm.size_eq, tt'.size_eq, td.size_eq)
          ((==_iff _ packed_version).0 r.is_version) count r.fits ec))

-- If the decoder accepts a byte string and every leg of the batch trades two different tokens, then
-- encoding the batch gives back the same bytes.
pub encode-decode :
    (raw : List ℕ) (batch : PackedBatch)
    → All IsByte raw
    → All DistinctLegs batch.candidates
    → decode_packed_batch raw ≡ ok batch
    → encode_packed_batch batch ≡ ok raw
encode-decode raw batch h ne e =
    encode_packed_batch_of_pieces (batch_pieces raw batch h ne (batch_reads raw batch e))

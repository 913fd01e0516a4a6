-- ===== src/Route/Hops.antt =====
-- One hop of `_batched_quotes` (python/src/arb_bot/route_engine.py), and one hop of a single quote.
use base_arb_bot.Finalize.{Reply}
use base_arb_bot.Finalize.Run.{item}
use base_arb_bot.Graph.{PoolMetadata}
use base_arb_bot.Route.Quotes.{
  RawCall, Quote, QuoteAdapter, QuoteKwargs, find_adapter, pool_kwargs, quote_from, Entry,
  encode_entry, encode_entries, decode_entry, with_quote, take_answers,
}
use base_arb_bot.Route.Outs.{out_of, outcome, or_else, settled}
use base_arb_bot.Prelude.{
  ℕ, suc, ◌+◌, ◌^◌, ◌<◌, ◌==◌, Bool, true, false, not, ◌||◌, List, [], ◌∷◌, map, length,
  if◌then◌else◌, ok, err, ◌>>=◌, ◌>>◌, guard, Option, none, some, ◌≡◌, refl, ap, ◌∙◌, All, arith,
  ==_iff, length-append,
}
use base_arb_bot.Prelude.Text.{Text, codes}
use base_arb_bot.Prelude.Dict.{Dict}

-- What the answer to an entry's call decodes to.
abbrev pub decoded_out :
    QuoteAdapter → Option ℕ → Text → Text → QuoteKwargs → Bool × List ℕ → Entry → Option ℕ
decoded_out adapter observed_block token_in token_out kwargs (success, return_data) e =
    if not success || (length return_data == 0)
    then none
    else out_of (decode_entry (some adapter) observed_block token_in token_out kwargs return_data e)

-- One more than the greatest amount that the ABI holds.
abbrev pub uint256_limit : ℕ
uint256_limit = 2 ^ 256

-- What the adapter of a pool does for the tokens of its hop: it encodes the quote of any amount that
-- the ABI holds as a call; a quote of its own returns what the answer to that call decodes to, for
-- the amount that it was asked for, and its output is an amount that the ABI holds.
pub record IsAlike (adapters : Dict QuoteAdapter) (observed_block : Option ℕ)
    (answer : RawCall → Bool × List ℕ) (tokens : List Text) (index : ℕ) (pool : PoolMetadata)
    : Type 0 where
  pub adapter : QuoteAdapter
  pub found : find_adapter adapters (pool.venue) ≡ some adapter
  pub token_in : Text
  pub token_out : Text
  pub has_in : item tokens index ≡ ok token_in
  pub has_out : item tokens (index + 1) ≡ ok token_out
  pub call_of : ℕ → RawCall
  pub encodes :
      (e : Entry)
      → e.current < uint256_limit
      → encode_entry (some adapter) token_in token_out (pool_kwargs pool) e
        ≡ ok (call_of (e.current))
  pub same_out :
      (e : Entry)
      → e.current < uint256_limit
      → out_of (adapter.quote_exact_input token_in token_out (e.current) (pool_kwargs pool))
        ≡ decoded_out adapter observed_block token_in token_out
            (pool_kwargs pool)
            (answer (call_of (e.current)))
            e
  pub same_in :
      (amount : ℕ) (quote : Quote)
      → amount < uint256_limit
      → adapter.quote_exact_input token_in token_out amount (pool_kwargs pool) ≡ ok quote
      → (quote.amount_in ≡ amount) × (quote.amount_out < uint256_limit)

-- The same, of the pools from the given index on.
abbrev pub AreAlike :
    Dict QuoteAdapter
    → Option ℕ
    → (RawCall → Bool × List ℕ)
    → List Text
    → ℕ
    → List PoolMetadata
    → Type 0
AreAlike adapters observed_block answer tokens index [] = Unit
AreAlike adapters observed_block answer tokens index (pool ∷ pools) =
    IsAlike adapters observed_block answer tokens index pool
    × AreAlike adapters observed_block answer tokens (index + 1) pools

abbrev pub then_out : Option ℕ → (ℕ → Option ℕ) → Option ℕ
then_out none g = none
then_out (some n) g = g n

module _ (adapter : QuoteAdapter) (observed_block : Option ℕ) (token_in token_out : Text)
    (kwargs : QuoteKwargs) (answer : RawCall → Bool × List ℕ) (call_of : ℕ → RawCall) where
  abbrev pub hop : Entry → Option ℕ
  hop e =
      decoded_out adapter observed_block token_in token_out kwargs (answer (call_of (e.current))) e

  abbrev pub taken : List Entry → List Entry × List Text
  taken entries =
      take_answers (some adapter) observed_block token_in token_out kwargs entries
        (map answer (map (λ (e : Entry). call_of (e.current)) entries))

  pub encode_entries-calls :
      (entries : List Entry)
      → All
          (λ (e : Entry).
            encode_entry (some adapter) token_in token_out kwargs e ≡ ok (call_of (e.current)))
          entries
      → encode_entries (some adapter) token_in token_out kwargs entries
        ≡ ok (map (λ (e : Entry). call_of (e.current)) entries)
  unfolding encode_entries
  encode_entries-calls [] h = refl
  encode_entries-calls (e ∷ entries) h = rw (h.0, encode_entries-calls entries h.1) (refl)

  module _ (f g : ℕ → Option ℕ) (a : ℕ) where
    settled-answer :
        (e : Entry) (o : Option ℕ) (entries : List Entry) (rest : List Entry × List Text)
        (blocker : Text) (refused : Bool) (r : Reply Quote)
        → ((o' : Option ℕ) → settled f entries a o' ≡ settled g (rest.0) a o')
        → settled f entries a (
            if a == e.amount
            then or_else (then_out (if refused then none else out_of r) g) o
            else o)
          ≡ settled g ((if refused then (rest.0, blocker ∷ rest.1) else with_quote e r rest).0) a o
    unfolding settled
    settled-answer e o entries rest blocker true r k =
        ap (settled f entries a) (same (a == e.amount)) ∙ k o
      where
        same : (t : Bool) → (if t then o else o) ≡ o
        same true = refl
        same false = refl
    settled-answer e o entries rest blocker false (ok q) k = k _
    settled-answer e o entries rest blocker false (err x) k =
        ap (settled f entries a) (same (a == e.amount)) ∙ k o
      where
        same : (t : Bool) → (if t then o else o) ≡ o
        same true = refl
        same false = refl

    -- A hop, and what the rest makes of its survivors, is the hop and the rest for each entry.
    pub settled-taken :
        (entries : List Entry) (o : Option ℕ)
        → All (λ (e : Entry). f (e.current) ≡ then_out (hop e) g) entries
        → settled f entries a o ≡ settled g ((taken entries).0) a o
    unfolding settled take_answers
    settled-taken [] o h = refl
    settled-taken (e ∷ entries) o h =
        ap (λ x. settled f entries a (if a == e.amount then or_else x o else o)) h.0
        ∙ settled-answer e o entries (taken entries) _ _ _ (λ o'. settled-taken entries o' h.1)

  pub one_quote_more :
      (m n : ℕ) (entries : List Entry)
      → All (λ e. length (e.quotes) + suc m ≡ n) entries
      → All (λ e. length (e.quotes) + m ≡ n) ((taken entries).0)
  unfolding take_answers
  one_quote_more m n [] h = tt
  one_quote_more m n (e ∷ entries) h = by_answer _ _ (one_quote_more m n entries h.1)
    where
      by_answer :
          (refused : Bool) (r : Reply Quote)
          → All (λ e. length (e.quotes) + m ≡ n) ((taken entries).0)
          → All
              (λ e. length (e.quotes) + m ≡ n)
              ((if refused
                then (
                  (taken entries).0,
                  codes "quote_failed:ContractLogicError" ∷ (taken entries).1,
                )
                else with_quote e r (taken entries)).0)
      by_answer true r k = k
      by_answer false (err x) k = k
      by_answer false (ok q) k = (omega (arith, length-append (e.quotes) (q ∷ []), h.0), k)

  -- The survivors' amounts are what the hops of the entries give.
  pub taken_bounded :
      (P : ℕ → Type 0) (entries : List Entry)
      → All (λ (e : Entry). (n : ℕ) → hop e ≡ some n → P n) entries
      → All (λ (e : Entry). P (e.current)) ((taken entries).0)
  unfolding take_answers
  taken_bounded P [] h = tt
  taken_bounded P (e ∷ entries) h = by_answer _ _ h.0 (taken_bounded P entries h.1)
    where
      by_answer :
          (refused : Bool) (r : Reply Quote)
          → ((n : ℕ) → (if refused then none else out_of r) ≡ some n → P n)
          → All (λ (e : Entry). P (e.current)) ((taken entries).0)
          → All
              (λ (e : Entry). P (e.current))
              ((if refused
                then (
                  (taken entries).0,
                  codes "quote_failed:ContractLogicError" ∷ (taken entries).1,
                )
                else with_quote e r (taken entries)).0)
      by_answer true r p k = k
      by_answer false (err x) p k = k
      by_answer false (ok q) p k = (p (q.amount_out) refl, k)

-- One size's quote: the hop, and then the rest.
module _ (adapters : Dict QuoteAdapter) (tokens : List Text) (index : ℕ) (pool : PoolMetadata)
    (pools : List PoolMetadata) (adapter : QuoteAdapter) (token_in token_out : Text) where
  pub outcome-quote_from :
      (amount : ℕ)
      → find_adapter adapters (pool.venue) ≡ some adapter
      → item tokens index ≡ ok token_in
      → item tokens (index + 1) ≡ ok token_out
      → ((quote : Quote)
          → adapter.quote_exact_input token_in token_out amount (pool_kwargs pool) ≡ ok quote
          → quote.amount_in ≡ amount)
      → outcome (quote_from adapters tokens index amount (pool ∷ pools))
        ≡ then_out
            (out_of (adapter.quote_exact_input token_in token_out amount (pool_kwargs pool)))
            (λ n. outcome (quote_from adapters tokens (index + 1) n pools))
  unfolding quote_from
  outcome-quote_from amount f i j same =
      rw (f, i, j)
        (by_quote (adapter.quote_exact_input token_in token_out amount (pool_kwargs pool)) refl)
    where
      by_rest :
          (q : Quote) (r : Reply (ℕ × List Quote))
          → outcome (do rest ← r; ok (rest.0, q ∷ rest.1)) ≡ outcome r
      by_rest q (ok r) = refl
      by_rest q (err e) = refl

      by_quote :
          (r : Reply Quote)
          → adapter.quote_exact_input token_in token_out amount (pool_kwargs pool) ≡ r
          → outcome (do
            quote ← r
            guard (quote.amount_in == amount) (codes "RuntimeError")
            rest ← quote_from adapters tokens (index + 1) (quote.amount_out) pools
            ok (rest.0, quote ∷ rest.1))
            ≡ then_out (out_of r) (λ n. outcome (quote_from adapters tokens (index + 1) n pools))
      by_quote (err e) q = refl
      by_quote (ok quote) q =
          rw ((==_iff (quote.amount_in) amount).1 (same quote q))
            (by_rest quote (quote_from adapters tokens (index + 1) (quote.amount_out) pools))

-- ===== src/Route/Outs.antt =====
-- What the sizes return, whichever way they are quoted (python/src/arb_bot/route_engine.py): the
-- outputs in a dict of quotes, and those that the quotes of one size at a time give.
use base_arb_bot.Finalize.{Reply}
use base_arb_bot.Graph.{Cycle}
use base_arb_bot.Route.Quotes.{
  Quote, QuoteAdapter, Quoted, quote_cycle, settle, settle_all, parallel_quotes, Entry,
  start_entries, keep_quoted,
}
use base_arb_bot.Prelude.{
  ℕ, ◌==◌, Bool, true, false, List, [], ◌∷◌, length, if◌then◌else◌, ok, err, Option, none, some,
  ◌≡◌, refl, ap, ◌∙◌, All, ==_iff,
}
use base_arb_bot.Prelude.Text.{Text}
use base_arb_bot.Prelude.Dict.{Dict}
use base_arb_bot.Prelude.Numbers.{number_get, number_put, get-number_put}

abbrev pub first_of : Option (ℕ × List Quote) → Option ℕ
first_of none = none
first_of (some r) = some (r.0)

-- The output for a size.
abbrev pub out_at : ℕ → Quoted → Option ℕ
out_at a quoted = first_of (number_get a quoted)

abbrev pub out_of : Reply Quote → Option ℕ
out_of (ok quote) = some (quote.amount_out)
out_of (err e) = none

abbrev pub outcome : Reply (ℕ × List Quote) → Option ℕ
outcome (ok r) = some (r.0)
outcome (err e) = none

abbrev pub or_else : Option ℕ → Option ℕ → Option ℕ
or_else none o = o
or_else (some n) o = some n

-- The output at `a` when each entry is put under its amount, with what `f` makes of it.
unfoldable pub settled : (ℕ → Option ℕ) → List Entry → ℕ → Option ℕ → Option ℕ
settled f [] a o = o
settled f (e ∷ entries) a o =
    settled f entries a (if a == e.amount then or_else (f (e.current)) o else o)

out_at-put :
    (a amount out : ℕ) (quotes : List Quote) (quoted : Quoted)
    → out_at a (number_put amount (out, quotes) quoted)
      ≡ (if a == amount then some out else out_at a quoted)
out_at-put a amount out quotes quoted =
    ap first_of (get-number_put amount a (out, quotes) quoted) ∙ by_test (a == amount)
  where
    by_test :
        (t : Bool)
        → first_of (if t then some (out, quotes) else number_get a quoted)
          ≡ (if t then some out else out_at a quoted)
    by_test true = refl
    by_test false = refl

pub out_at-keep_quoted :
    (hops a : ℕ) (entries : List Entry) (quoted : Quoted)
    → All (λ e. length (e.quotes) ≡ hops) entries
    → out_at a (keep_quoted hops entries quoted) ≡ settled some entries a (out_at a quoted)
unfolding settled
out_at-keep_quoted hops a [] quoted h = refl
out_at-keep_quoted hops a (e ∷ entries) quoted h = rw (h_test) (
    out_at-keep_quoted hops a entries (number_put (e.amount) (e.current, e.quotes) quoted) h.1
    ∙ ap (settled some entries a) (out_at-put a (e.amount) (e.current) (e.quotes) quoted))
  where
    h_test : (length (e.quotes) == hops) ≡ true
    h_test = (==_iff (length (e.quotes)) hops).1 h.0

module _ (adapters : Dict QuoteAdapter) (cycle : Cycle) where
  out_at-settle :
      (a amount : ℕ) (r : Reply (ℕ × List Quote)) (quoted : Quoted) (blockers : List Text)
      → out_at a ((settle amount r (quoted, blockers)).0)
        ≡ (if a == amount then or_else (outcome r) (out_at a quoted) else out_at a quoted)
  out_at-settle a amount (ok r) quoted blockers = out_at-put a amount (r.0) (r.1) quoted
  out_at-settle a amount (err e) quoted blockers = by_test (a == amount)
    where
      by_test : (t : Bool) → out_at a quoted ≡ (if t then out_at a quoted else out_at a quoted)
      by_test true = refl
      by_test false = refl

  out_at-settle_all :
      (a : ℕ) (amounts : List ℕ) (s : Quoted × List Text)
      → out_at a ((settle_all adapters cycle amounts s).0)
        ≡ settled
            (λ x. outcome (quote_cycle adapters cycle x))
            (start_entries amounts)
            a
            (out_at a (s.0))
  unfolding settle_all settled start_entries
  out_at-settle_all a [] s = refl
  out_at-settle_all a (amount ∷ amounts) s =
      out_at-settle_all a amounts (settle amount (quote_cycle adapters cycle amount) s)
      ∙ ap (settled (λ x. outcome (quote_cycle adapters cycle x)) (start_entries amounts) a)
          (out_at-settle a amount (quote_cycle adapters cycle amount) (s.0) (s.1))

  pub out_at-parallel_quotes :
      (a : ℕ) (amounts : List ℕ)
      → out_at a ((parallel_quotes adapters cycle amounts).0)
        ≡ settled (λ x. outcome (quote_cycle adapters cycle x)) (start_entries amounts) a none
  unfolding parallel_quotes number_get
  out_at-parallel_quotes a amounts = out_at-settle_all a amounts ([], [])

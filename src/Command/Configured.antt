-- ===== src/Command/Configured.antt =====
-- The prices that cmd/gateway/main.go leaves, model by model.
use mathlib.Core.List.{Memᴰ}
use vire.Base.{
  ℕ, ◌≤◌, ◌<◌, ◌≡◌, refl, sym, ap, ◌∙◌, inl, inr, Bool, false, some, List, [], String, trim, lookup,
}
use vire.Accounts.Tables.{ModelPrice, Db, ok}
use vire.Accounts.Ledger.{latest_price}
use vire.Gateway.Registry.{ModelPricing, Model, Parse, is_seen, priced_from, priced_models}
use vire.Gateway.Registry.Checks.{IsRegistry}
use vire.Command.{set_prices}
use vire.Command.Prices.{IsPriceOf, price_loop-latest}
use vire.Command.Listed.{IsRegistry-Shares, priced_from-Mem, priced_from-Once, priced_from-covers}

is_seen_nil : (n : String) → is_seen (lookup n []) ≡ false
unfolding lookup
is_seen_nil n = refl

-- If the names of a loaded registry have no spaces around them, the stored prices are older than
-- the start and every SetPrice of the start succeeds, then the latest price of each model that has
-- a pricing has the rates of its entry.
pub set_prices-latest :
    (text_lt : String → String → Bool) (now : ℕ → ℕ) (id : ℕ → String) (since : ℕ) (parse : Parse)
    (models : List Model) (db db' : Db) (m : Model) (p : ModelPricing)
    → IsRegistry parse [] models
    → ((k : Model) → Memᴰ k models → trim k.name ≡ k.name)
    → ((x : ModelPrice) → Memᴰ x db.model_prices → x.created_at < since)
    → ((j : ℕ) → since ≤ now j)
    → set_prices now id db models ≡ ok db'
    → Memᴰ m models
    → m.pricing ≡ some p
    → (x : ModelPrice) × (latest_price text_lt m.name db'.model_prices ≡ some x) × IsPriceOf p x
unfolding set_prices priced_models
set_prices-latest text_lt now id since parse models db db' m p v clean old late h member priced =
    elim (priced_from-covers [] models m p member priced) [
      | inl seen ↦ let fresh = is_seen_nil m.name in cc
      | inr (q, listed, name) ↦
          let (there, _) = priced_from-Mem [] models q listed in
          let same : q.pricing ≡ some p =
            IsRegistry-Shares parse [] models q m v there member name ∙ priced in
          let (x, latest, rates) =
            price_loop-latest text_lt now id since 0 db (priced_from [] models) late
              (priced_from-Once [] models clean) (λ k y _ in_prices _. old y in_prices) h q p listed
              same in
          (x, ap (λ n. latest_price text_lt n db'.model_prices) (sym name) ∙ latest, rates)
    ]

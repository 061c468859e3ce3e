-- ===== src/Command/Tests.antt =====
-- Flags and prices of cmd/gateway/main.go, and its theorems at them.
use mathlib.Core.List.{Memᴰ}
use vire.Base.{
  ℕ, zero, ◌+◌, ◌<◌, ◌≡◌, ◌↔◌, refl, inr, Bool, true, false, none, some, List, [], ◌∷◌,
  if◌then◌else◌, pos, String, ◌==◌, lookup, set, trim, arith, ap, sym, ◌∙◌,
}
use vire.Accounts.Tables.{ModelPrice, Db, ok}
use vire.Accounts.Ledger.{find, latest_price, set_price}
use vire.Gateway.Registry.{
  ModelPricing, Model, Url, Parse, array, load_models, check_models, check_model, trim_slash,
  priced_from, priced_models,
}
use vire.Gateway.Registry.Loaded.{load_models-IsRegistry}
use vire.Command.{
  Config, bad_portal_origin, not_loopback, not_exactly_one, validate, set_prices, price_loop,
}
use vire.Command.Flags.{IsConfig, validate-IsConfig}
use vire.Command.Prices.{IsPriceOf}
use vire.Command.Configured.{set_prices-latest}

abbrev origin : Url
origin = record {
  scheme = "http";
  host = "h:1";
  hostname = "h";
  user = false;
  path = "";
  raw_query = "";
  force_query = false;
  fragment = "";
  printed = "http://h:1";
}

abbrev parser : Parse
parser url = if url == "bad" then none else some origin

abbrev config : Config
config = record {
  addr = "127.0.0.1:8080";
  database_url = "postgres://";
  insecure_dev = false;
  max_inflight = pos 32;
  insecure_cookies = true;
  portal_origin = "http://h:1";
}

accepted : validate parser config ≡ none
unfolding validate
accepted = refl

public_address : validate parser (record config { addr = ":8080" }) ≡ some not_loopback
unfolding validate
public_address = refl

both : validate parser (record config { insecure_dev = true }) ≡ some not_exactly_one
unfolding validate
both = refl

no_origin : validate parser (record config { portal_origin = "bad" }) ≡ some bad_portal_origin
unfolding validate
no_origin = refl

validate-IsConfig_example : (validate parser config ≡ none) ↔ IsConfig parser config
validate-IsConfig_example = validate-IsConfig parser config

abbrev pricing : ModelPricing
pricing = record {
  input_rate_micro_per_million = pos 2;
  output_rate_micro_per_million = pos 3;
  example = false;
}

abbrev entry : String → Model
entry name = record { name = name; url = "http://h:1"; display_name = ""; pricing = some pricing }

abbrev models : List Model
models = entry "m" ∷ entry "n" ∷ []

abbrev old_price : ModelPrice
old_price = record {
  id = "p";
  model = "m";
  input_rate_micro_per_million = 9;
  output_rate_micro_per_million = 9;
  created_at = 4;
}

abbrev db : Db
db = record {
  users = [];
  accounts = [];
  members = [];
  api_keys = [];
  model_prices = old_price ∷ [];
  usage_events = [];
  usage_daily = [];
  user_passwords = [];
  portal_sessions = [];
  login_attempts = [];
}

abbrev id_of : ℕ → String
id_of zero = "q"
id_of _ = "r"

abbrev before_id : String → String → Bool
before_id s t = false

abbrev new_price : String → String → ℕ → ModelPrice
new_price id model now = record {
  id = id;
  model = model;
  input_rate_micro_per_million = 2;
  output_rate_micro_per_million = 3;
  created_at = now;
}

abbrev after : Db
after = record db { model_prices = new_price "r" "n" 6 ∷ new_price "q" "m" 5 ∷ old_price ∷ [] }

configured : set_prices (λ i. 5 + i) id_of db models ≡ ok after
unfolding set_prices price_loop priced_models priced_from lookup set set_price find trim
configured = refl

registered : load_models parser (array models) ≡ inr models
unfolding load_models check_models check_model lookup set trim trim_slash
registered = refl

clean : (k : Model) → Memᴰ k models → trim k.name ≡ k.name
unfolding trim
clean k (Memᴰ.head e) = ap (λ (x : Model). trim x.name) e ∙ ap (λ (x : Model). x.name) (sym e)
clean k (Memᴰ.tail (Memᴰ.head e)) =
    ap (λ (x : Model). trim x.name) e ∙ ap (λ (x : Model). x.name) (sym e)
clean k (Memᴰ.tail (Memᴰ.tail h)) = elim h [ ]

older : (x : ModelPrice) → Memᴰ x db.model_prices → x.created_at < 5
older x (Memᴰ.head e) = rw e (omega arith)
older x (Memᴰ.tail h) = elim h [ ]

set_prices-latest_example :
    (x : ModelPrice) × (latest_price before_id "n" after.model_prices ≡ some x)
    × IsPriceOf pricing x
set_prices-latest_example =
    set_prices-latest before_id (λ i. 5 + i) id_of 5 parser models db after (entry "n") pricing
      ((load_models-IsRegistry parser models).0 registered) clean older (λ j. omega arith)
      configured (Memᴰ.tail (Memᴰ.head refl)) refl

-- The price of a name with a space before it is stored under another name.
abbrev spaced : Db
spaced = record db { model_prices = new_price "q" "k" 5 ∷ old_price ∷ [] }

configured_spaced : set_prices (λ i. 5 + i) id_of db (entry " k" ∷ []) ≡ ok spaced
unfolding set_prices price_loop priced_models priced_from lookup set set_price find trim
configured_spaced = refl

unpriced : latest_price before_id " k" spaced.model_prices ≡ none
unfolding latest_price
unpriced = refl

-- ===== src/Command.antt =====
-- cmd/gateway/main.go: the checks on the flags, and the prices that the gateway sets when it starts.
-- `url.Parse` is an argument, as are the time and the random id of each price.
pub mod Flags
pub mod Prices
pub mod Listed
pub mod Configured
mod Tests
use vire.Base.{
  ℕ, ◌+◌, Bool, true, false, not, ◌&&◌, ◌||◌, Option, none, some, List, [], ◌∷◌, if◌then◌else◌, ℤ,
  pos, negsuc, String, ◌==◌, codes, has_prefix, nat_eq,
}
use vire.Accounts.Tables.{Db, Result, ok, err, ◌>>=◌}
use vire.Accounts.Ledger.{set_price}
use vire.Gateway.Registry.{ModelPricing, Model, Url, Parse, priced_models}

-- The fields of `config` that `validate` reads.
pub record Config : Type 0 where
  pub addr : String
  pub database_url : String
  pub insecure_dev : Bool
  pub max_inflight : ℤ
  pub insecure_cookies : Bool
  pub portal_origin : String

pub data ConfigError : Type 0 where
  not_exactly_one bad_max_inflight not_loopback bad_portal_origin : ConfigError

abbrev pub not_positive : ℤ → Bool
not_positive (pos n) = nat_eq n 0
not_positive (negsuc n) = true

abbrev pub is_loopback : String → Bool
is_loopback addr =
    has_prefix (codes addr) (codes "127.0.0.1:")
    || has_prefix (codes addr) (codes "localhost:")
    || has_prefix (codes addr) (codes "[::1]:")

abbrev pub is_web_origin : Option Url → Bool
is_web_origin none = false
is_web_origin (some u) =
    (u.scheme == "http" || u.scheme == "https")
    && not (u.host == "")
    && not u.user
    && u.path == ""
    && u.raw_query == ""
    && u.fragment == ""

-- `config.validate`
unfoldable pub validate : Parse → Config → Option ConfigError
validate parse cfg =
    if cfg.database_url == "" && not cfg.insecure_dev
      || not (cfg.database_url == "") && cfg.insecure_dev
    then some not_exactly_one
    else if not_positive cfg.max_inflight
    then some bad_max_inflight
    else if cfg.insecure_cookies && not (is_loopback cfg.addr)
    then some not_loopback
    else if not (cfg.portal_origin == "") && not (is_web_origin (parse cfg.portal_origin))
    then some bad_portal_origin
    else none

-- The call for one model; `PricedModels` lists only models with a pricing.
abbrev pub price_model : ℕ → String → Db → Model → Option ModelPricing → Result Db
price_model now id db model none = ok db
price_model now id db model (some p) =
    set_price now id db model.name p.input_rate_micro_per_million p.output_rate_micro_per_million

-- The loop of `run` over the priced models, where price `i` is set at a time with an id.
unfoldable pub price_loop : (ℕ → ℕ) → (ℕ → String) → ℕ → Db → List Model → Result Db
price_loop now id i db [] = ok db
price_loop now id i db (model ∷ models) =
    price_model (now i) (id i) db model model.pricing >>= λ db'.
    price_loop now id (i + 1) db' models

-- The prices of a registry, as `run` sets them.
unfoldable pub set_prices : (ℕ → ℕ) → (ℕ → String) → Db → List Model → Result Db
set_prices now id db models = price_loop now id 0 db (priced_models models)

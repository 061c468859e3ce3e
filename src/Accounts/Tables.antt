-- ===== src/Accounts/Tables.antt =====
-- internal/accountdb/db/models.go and internal/accountdb/schema_v3.sql: the rows of the tables, and the results of statements. A
-- timestamp is a number of microseconds, a date a number of days; a column that may be NULL is an
-- option. A BIGINT whose CHECK keeps it from being negative is a natural number.
use vire.Base.{ℕ, ◌^◌, ◌-◌, Option, List, String}

pub record User : Type 0 where
  pub id : String
  pub email : String
  pub created_at : ℕ

pub record Account : Type 0 where
  pub id : String
  pub name : String
  pub created_at : ℕ

pub record AccountMember : Type 0 where
  pub account_id : String
  pub user_id : String
  pub role : String

pub record ApiKey : Type 0 where
  pub id : String
  pub account_id : String
  pub created_by_user_id : String
  pub name : String
  pub token_hash : List ℕ
  pub created_at : ℕ
  pub revoked_at : Option ℕ

pub record ModelPrice : Type 0 where
  pub id : String
  pub model : String
  pub input_rate_micro_per_million : ℕ
  pub output_rate_micro_per_million : ℕ
  pub created_at : ℕ

pub record UsageEvent : Type 0 where
  pub request_id : String
  pub account_id : String
  pub key_id : String
  pub model : String
  pub backend : String
  pub price_id : Option String
  pub started_at : ℕ
  pub finished_at : Option ℕ
  pub state : String
  pub http_status : Option ℕ
  pub prompt_tokens : Option ℕ
  pub completion_tokens : Option ℕ
  pub estimated_cost_micro : Option ℕ
  pub rolled_up_at : Option ℕ

-- The primary key of `usage_daily`.
pub record UsageKey : Type 0 where
  pub day : ℕ
  pub account_id : String
  pub key_id : String
  pub model : String

pub record UsageDaily : Type 0 where
  pub key : UsageKey
  pub request_count : ℕ
  pub complete_count : ℕ
  pub incomplete_count : ℕ
  pub failed_count : ℕ
  pub prompt_tokens : ℕ
  pub completion_tokens : ℕ
  pub estimated_cost_micro : ℕ
  pub priced_count : ℕ

-- The tables of the portal, which the store's own statements read and write.
pub record UserPassword : Type 0 where
  pub user_id : String
  pub password_hash : String

pub record PortalSession : Type 0 where
  pub token_hash : List ℕ
  pub user_id : String
  pub account_id : String
  pub expires_at : ℕ

pub record LoginAttempt : Type 0 where
  pub email : String
  pub attempts : ℕ
  pub window_started : ℕ

-- The tables that the statements on keys, prices and usage read and write.
pub record Db : Type 0 where
  pub users : List User
  pub accounts : List Account
  pub members : List AccountMember
  pub api_keys : List ApiKey
  pub model_prices : List ModelPrice
  pub usage_events : List UsageEvent
  pub usage_daily : List UsageDaily
  pub user_passwords : List UserPassword
  pub portal_sessions : List PortalSession
  pub login_attempts : List LoginAttempt

-- Why a statement or an operation of the store fails: what Postgres refuses, then the errors that
-- the store returns itself.
pub data Error : Type 0 where
  unique_violation foreign_key_violation check_violation out_of_range no_rows : Error
  invalid_outcome missing_counts pending_not_found : Error
  name_required owner_not_found active_key_not_found invalid_key invalid_price : Error
  invalid_signup invalid_password email_taken login_limited invalid_credentials invalid_session :
      Error

-- What a statement or an operation returns: Go's pair of a value and an error.
pub data Result {κ} (V : Type κ) : Type κ where
  err : (failure : Error) → Result V
  ok : (value : V) → Result V

infixl 10 ◌>>=◌
-- `if err != nil { return err }`, and the rest.
abbrev pub ◌>>=◌ {κ μ} : {V : Type κ} {W : Type μ} (r : Result V) (rest : V → Result W) → Result W
err failure >>= rest = err failure
ok value >>= rest = rest value

-- The largest BIGINT.
abbrev pub max_bigint : ℕ
max_bigint = 2 ^ 63 - 1

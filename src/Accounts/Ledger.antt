-- ===== src/Accounts/Ledger.antt =====
-- One usage row per request: internal/accountdb/store.go (`BeginUsage`, `FinishUsage`, `SetPrice`)
-- and their statements in internal/accountdb/db/queries.sql.go. The time of a statement is the
-- argument `now`. The collation that orders the ids of prices is the argument `text_lt`.
pub mod Pricing
pub mod Lifecycle
pub mod Charged
use vire.Base.{
  ℕ, zero, suc, ◌+◌, ◌*◌, ◌/◌, ◌%◌, ◌^◌, ◌≡◌, Bool, true, false, ◌&&◌, ◌||◌, not, Option, none,
  some, List, [], ◌∷◌, ◌++◌, map, ltb, leb, nat_eq, if◌then◌else◌, length, ℤ, pos, negsuc, String,
  ◌==◌, trim,
}
use vire.Accounts.Tables.{
  ModelPrice, UsageEvent, Account, ApiKey, Db, Error, Result, ok, err, ◌>>=◌, max_bigint,
  unique_violation, foreign_key_violation, check_violation, out_of_range, invalid_outcome,
  missing_counts, pending_not_found, invalid_price,
}

-- The first row of a table that passes a test.
unfoldable pub find {ℓ} : {A : Type ℓ} → (A → Bool) → List A → Option A
find p [] = none
find p (a ∷ as') = if p a then some a else find p as'

abbrev pub is_some {ℓ} : {A : Type ℓ} → Option A → Bool
is_some none = false
is_some (some a) = true

-- `UsageStart` and `UsageFinish` of gateway/accounts.go.
pub record UsageStart : Type 0 where
  pub request_id : String
  pub account_id : String
  pub key_id : String
  pub model : String

pub record UsageFinish : Type 0 where
  pub request_id : String
  pub backend : String
  pub status : ℕ
  pub outcome : String
  pub prompt_tokens : Option ℤ
  pub completion_tokens : Option ℤ

abbrev pub price_id_of : Option ModelPrice → Option String
price_id_of none = none
price_id_of (some p) = some p.id

module _ (text_lt : String → String → Bool) where
  -- `ORDER BY created_at DESC, id DESC`: whether `p` comes before `q`.
  abbrev pub comes_first : ModelPrice → ModelPrice → Bool
  comes_first p q =
      ltb q.created_at p.created_at || nat_eq p.created_at q.created_at && text_lt q.id p.id

  abbrev pub pick_latest : ModelPrice → Option ModelPrice → Option ModelPrice
  pick_latest p none = some p
  pick_latest p (some best) = if comes_first p best then some p else some best

  -- `SELECT id FROM model_prices WHERE model=$4 ORDER BY … LIMIT 1`
  unfoldable pub latest_price : String → List ModelPrice → Option ModelPrice
  latest_price model [] = none
  latest_price model (p ∷ prices) =
      let rest = latest_price model prices in if p.model == model then pick_latest p rest else rest

  -- The row that `BeginUsage` inserts, with the defaults of the other columns.
  unfoldable pub new_row : ℕ → Db → UsageStart → UsageEvent
  new_row now db start = record {
    request_id = start.request_id;
    account_id = start.account_id;
    key_id = start.key_id;
    model = start.model;
    backend = "";
    price_id = price_id_of (latest_price start.model db.model_prices);
    started_at = now;
    finished_at = none;
    state = "pending";
    http_status = none;
    prompt_tokens = none;
    completion_tokens = none;
    estimated_cost_micro = none;
    rolled_up_at = none;
  }

  -- `BeginUsage`: a pending row with the latest price of the model.
  unfoldable pub begin_usage : ℕ → Db → UsageStart → Result Db
  begin_usage now db start =
      if is_some (find (λ (e : UsageEvent). e.request_id == start.request_id) db.usage_events)
      then err unique_violation
      else if not (is_some (find (λ (a : Account). a.id == start.account_id) db.accounts))
          || not (is_some (find (λ (k : ApiKey). k.id == start.key_id) db.api_keys))
      then err foreign_key_violation
      else ok (record db { usage_events = new_row now db start ∷ db.usage_events })

-- `round(x / 1000000)::bigint` of a number that is not negative: halves go up. (Postgres divides a
-- NUMERIC exactly here as long as the quotient is below 10^12.)
abbrev pub to_micro : ℕ → ℕ
to_micro x = (x + 500000) / 1000000

unfoldable pub cost_of : ModelPrice → ℕ → ℕ → ℕ
cost_of p prompt completion =
    to_micro
      (prompt * p.input_rate_micro_per_million + completion * p.output_rate_micro_per_million)

-- The CHECK of a token column.
abbrev pub checked : Option ℤ → Result (Option ℕ)
checked none = ok none
checked (some (pos n)) = ok (some n)
checked (some (negsuc n)) = err check_violation

abbrev pub in_bigint : ℕ → Result (Option ℕ)
in_bigint n = if leb n max_bigint then ok (some n) else err out_of_range

-- The scalar subquery of `FinishUsage`: NULL without a price, or with a NULL count.
abbrev pub priced : Option ModelPrice → Option ℕ → Option ℕ → Result (Option ℕ)
priced (some p) (some prompt) (some completion) = in_bigint (cost_of p prompt completion)
priced _ _ _ = ok none

unfoldable pub price_of : Db → UsageEvent → Option ModelPrice
price_of db e = elim e.price_id [
  | none ↦ none
  | some id ↦ find (λ (p : ModelPrice). p.id == id) db.model_prices
]

-- `int32(finish.Status)`, as its bit pattern.
abbrev pub to_int32 : ℕ → ℕ
to_int32 n = n % 2 ^ 32

-- The row that `FinishUsage` writes.
unfoldable pub finished_row : ℕ → Db → UsageFinish → UsageEvent → Result UsageEvent
finished_row now db finish e = do
  prompt ← checked finish.prompt_tokens
  completion ← checked finish.completion_tokens
  cost ←
      if finish.outcome == "complete"
      then (if is_some prompt && is_some completion
          then priced (price_of db e) prompt completion
          else err check_violation)
      else ok none
  ok (record e {
    backend = finish.backend;
    http_status = some (to_int32 finish.status);
    state = finish.outcome;
    prompt_tokens = prompt;
    completion_tokens = completion;
    finished_at = some now;
    estimated_cost_micro = cost;
  })

-- `WHERE e.request_id=$6 AND e.state='pending'`
abbrev pub is_target : String → UsageEvent → Bool
is_target request_id e = e.request_id == request_id && e.state == "pending"

-- `UPDATE usage_events … WHERE …`: the rows, and how many were changed. One refused row refuses the
-- statement.
abbrev pub Update : Type 0
Update = Result (List UsageEvent × ℕ)

abbrev pub add_row : Bool → UsageEvent → Result UsageEvent → Update → Update
add_row hit e written (err x) = err x
add_row false e written (ok (rows, n)) = ok (e ∷ rows, n)
add_row true e (err x) (ok rest) = err x
add_row true e (ok e') (ok (rows, n)) = ok (e' ∷ rows, suc n)

unfoldable pub update_rows :
    (UsageEvent → Bool) → (UsageEvent → Result UsageEvent) → List UsageEvent → Update
update_rows test write [] = ok ([], 0)
update_rows test write (e ∷ events) = add_row (test e) e (write e) (update_rows test write events)

-- `if rows != 1` after the statement.
abbrev pub stored : Db → Update → Result Db
stored db (err x) = err x
stored db (ok (events, rows)) =
    if nat_eq rows 1 then ok (record db { usage_events = events }) else err pending_not_found

-- The two checks of `Store.FinishUsage`.
abbrev pub finish_check : UsageFinish → Result (Unit {0})
finish_check finish =
    if not (finish.outcome == "complete")
      && not (finish.outcome == "incomplete")
      && not (finish.outcome == "failed")
    then err invalid_outcome
    else if finish.outcome == "complete"
        && (not (is_some finish.prompt_tokens) || not (is_some finish.completion_tokens))
    then err missing_counts
    else ok tt

-- `Store.FinishUsage`
unfoldable pub finish_usage : ℕ → Db → UsageFinish → Result Db
finish_usage now db finish = finish_check finish >>= λ _.
    stored db
      (update_rows (is_target finish.request_id) (finished_row now db finish) db.usage_events)

-- A rate that is not negative.
abbrev pub rate : ℤ → Result ℕ
rate (pos n) = ok n
rate (negsuc n) = err invalid_price

-- `Store.SetPrice`, with the random id of the new price.
unfoldable pub set_price : ℕ → String → Db → String → ℤ → ℤ → Result Db
set_price now id db model input_rate output_rate =
    if trim model == "" then err invalid_price else do
      input ← rate input_rate
      output ← rate output_rate
      if is_some (find (λ (p : ModelPrice). p.id == id) db.model_prices)
          then err unique_violation
          else ok (record db {
            model_prices =
                record {
                  id = id;
                  model = trim model;
                  input_rate_micro_per_million = input;
                  output_rate_micro_per_million = output;
                  created_at = now;
                }
                ∷ db.model_prices;
          })

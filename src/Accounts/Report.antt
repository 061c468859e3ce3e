-- ===== src/Accounts/Report.antt =====
-- The usage reports: `Store.Usage` of internal/accountdb/portal.go, and `DailyUsage` of
-- internal/accountdb/store.go. The collation that
-- orders the names of models is the argument `text_lt`; `started_at >= $2::date` compares with the
-- first time of a date, which is to compare dates.
pub mod Metered
use vire.Base.{
  ℕ, ◌+◌, ◌≡◌, Bool, true, false, ◌&&◌, ◌||◌, List, [], ◌∷◌, ◌++◌, map, leb, ltb, nat_eq,
  if◌then◌else◌, String, ◌==◌,
}
use vire.Accounts.Tables.{UsageEvent, UsageKey, UsageDaily, Db, Result, ok, err, out_of_range}
use vire.Accounts.Daily.{one, add_into, fits}
use vire.Accounts.Rollup.{filter, eligible}

-- The columns of the report: without the account and the key.
abbrev pub narrow_key : UsageKey → UsageKey
narrow_key k = record k { account_id = ""; key_id = "" }

abbrev pub narrow : UsageDaily → UsageDaily
narrow d = record d { key = narrow_key d.key }

-- `GROUP BY day, model` of narrowed rows.
unfoldable pub group : List UsageDaily → List UsageDaily
group [] = []
group (row ∷ rows) = add_into row (group rows)

-- `ORDER BY day DESC, model`
abbrev pub newer : (String → String → Bool) → UsageDaily → UsageDaily → Bool
newer text_lt r s =
    ltb s.key.day r.key.day || nat_eq r.key.day s.key.day && text_lt r.key.model s.key.model

-- `ORDER BY day, model, key_id`
abbrev pub older : (String → String → Bool) → UsageDaily → UsageDaily → Bool
older text_lt r s =
    ltb r.key.day s.key.day
    || nat_eq r.key.day s.key.day
      && (text_lt r.key.model s.key.model
          || r.key.model == s.key.model && text_lt r.key.key_id s.key.key_id)

-- The rows of a query in its order.
module _ (first : UsageDaily → UsageDaily → Bool) where
  unfoldable pub insert_row : UsageDaily → List UsageDaily → List UsageDaily
  insert_row row [] = row ∷ []
  insert_row row (r ∷ rows) =
      let rest = insert_row row rows in if first row r then row ∷ r ∷ rows else r ∷ rest

  unfoldable pub in_order : List UsageDaily → List UsageDaily
  in_order [] = []
  in_order (row ∷ rows) = insert_row row (in_order rows)

-- `DailyUsage` of store.go: the daily totals of an account from a day on. It counts only what is
-- rolled up. The rows keep the account, which the code leaves out.
pub daily_usage : (String → String → Bool) → String → ℕ → Db → List UsageDaily
daily_usage text_lt account since db =
    in_order (older text_lt) (
      filter (λ (d : UsageDaily). d.key.account_id == account && leb since d.key.day)
        db.usage_daily)

unfoldable pub all_fit : List UsageDaily → Bool
all_fit [] = true
all_fit (row ∷ rows) = fits row && all_fit rows

-- The conditions of the inner query on a row of `usage_events`.
abbrev pub is_open : (ℕ → ℕ) → String → ℕ → UsageEvent → Bool
is_open day_of account since e =
    e.account_id == account && leb since (day_of e.started_at) && eligible e

-- The two parts of the inner query.
abbrev pub rolled_rows : String → ℕ → Db → List UsageDaily
rolled_rows account since db =
    map narrow (
      filter (λ (d : UsageDaily). d.key.account_id == account && leb since d.key.day)
        db.usage_daily)

abbrev pub open_rows : (ℕ → ℕ) → String → ℕ → Db → List UsageDaily
open_rows day_of account since db = group (
    map (λ (e : UsageEvent). narrow (one day_of e))
      (filter (is_open day_of account since) db.usage_events))

-- `Store.Usage`: a sum that does not fit an `int64` fails its `Scan`.
unfoldable pub usage :
    (ℕ → ℕ) → (String → String → Bool) → String → ℕ → Db → Result (List UsageDaily)
usage day_of text_lt account since db =
    let rows =
      in_order (newer text_lt)
        (group (rolled_rows account since db ++ open_rows day_of account since db)) in
    if all_fit rows then ok rows else err out_of_range

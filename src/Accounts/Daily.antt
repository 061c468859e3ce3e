-- ===== src/Accounts/Daily.antt =====
-- The totals of a day: the parts of `RollupUsageBatch` (internal/accountdb/db/queries.sql.go) that
-- group the claimed rows and add them to `usage_daily`. The date of a time, `started_at::date`,
-- depends on the time zone of the session: it is the argument `day_of`.
pub mod Sums
use vire.Base.{
  ℕ, zero, suc, ◌+◌, ◌≡◌, Bool, true, false, ◌&&◌, not, Option, none, some, List, [], ◌∷◌, leb,
  nat_eq, if◌then◌else◌, String, ◌==◌,
}
use vire.Accounts.Tables.{
  UsageEvent, UsageKey, UsageDaily, Error, Result, ok, err, ◌>>=◌, max_bigint, out_of_range,
}

-- `COALESCE(sum(x), 0)` of one row, and `count(*) FILTER (WHERE …)` of one row.
abbrev pub coalesce : Option ℕ → ℕ
coalesce none = 0
coalesce (some n) = n

abbrev pub count_if : Bool → ℕ
count_if true = 1
count_if false = 0

abbrev pub is_present : Option ℕ → Bool
is_present none = false
is_present (some n) = true

-- `GROUP BY day, account_id, key_id, model`, and the conflict target of the insertion.
abbrev pub same_key : UsageKey → UsageKey → Bool
same_key k l =
    nat_eq k.day l.day && k.account_id == l.account_id && k.key_id == l.key_id && k.model == l.model

module _ (day_of : ℕ → ℕ) where
  abbrev pub key_of : UsageEvent → UsageKey
  key_of e = record {
    day = day_of e.started_at;
    account_id = e.account_id;
    key_id = e.key_id;
    model = e.model;
  }

  -- The totals of one claimed row.
  abbrev pub one : UsageEvent → UsageDaily
  one e = record {
    key = key_of e;
    request_count = 1;
    complete_count = count_if (e.state == "complete");
    incomplete_count = count_if (e.state == "incomplete");
    failed_count = count_if (e.state == "failed");
    prompt_tokens = coalesce e.prompt_tokens;
    completion_tokens = coalesce e.completion_tokens;
    estimated_cost_micro = coalesce e.estimated_cost_micro;
    priced_count = count_if (is_present e.estimated_cost_micro);
  }

-- `usage_daily.x + EXCLUDED.x` of every column.
abbrev pub add : UsageDaily → UsageDaily → UsageDaily
add d row = record d {
  request_count = d.request_count + row.request_count;
  complete_count = d.complete_count + row.complete_count;
  incomplete_count = d.incomplete_count + row.incomplete_count;
  failed_count = d.failed_count + row.failed_count;
  prompt_tokens = d.prompt_tokens + row.prompt_tokens;
  completion_tokens = d.completion_tokens + row.completion_tokens;
  estimated_cost_micro = d.estimated_cost_micro + row.estimated_cost_micro;
  priced_count = d.priced_count + row.priced_count;
}

-- A row added to the group of its key.
unfoldable pub add_into : UsageDaily → List UsageDaily → List UsageDaily
add_into row [] = row ∷ []
add_into row (d ∷ daily) =
    let rest = add_into row daily in if same_key d.key row.key then add d row ∷ daily else d ∷ rest

-- `totals`
unfoldable pub totals : (ℕ → ℕ) → List UsageEvent → List UsageDaily
totals day_of [] = []
totals day_of (e ∷ events) = add_into (one day_of e) (totals day_of events)

-- A row whose columns are BIGINTs.
abbrev pub fits : UsageDaily → Bool
fits d =
    leb d.request_count max_bigint
    && leb d.complete_count max_bigint
    && leb d.incomplete_count max_bigint
    && leb d.failed_count max_bigint
    && leb d.prompt_tokens max_bigint
    && leb d.completion_tokens max_bigint
    && leb d.estimated_cost_micro max_bigint
    && leb d.priced_count max_bigint

abbrev put : UsageDaily → List UsageDaily → Result (List UsageDaily)
put d daily = if fits d then ok (d ∷ daily) else err out_of_range

-- `INSERT … ON CONFLICT DO UPDATE` of one row.
unfoldable pub upsert : UsageDaily → List UsageDaily → Result (List UsageDaily)
upsert row [] = put row []
upsert row (d ∷ daily) =
    let rest = upsert row daily in
    if same_key d.key row.key then put (add d row) daily else rest >>= λ daily'. ok (d ∷ daily')

unfoldable pub insert_all : List UsageDaily → List UsageDaily → Result (List UsageDaily)
insert_all [] daily = ok daily
insert_all (row ∷ rows) daily = upsert row daily >>= λ daily'. insert_all rows daily'

-- ===== src/Accounts/Rollup.antt =====
-- `Store.Maintain` of internal/accountdb/maintenance.go and its statements in
-- internal/accountdb/db/queries.sql.go. A statement of a loop runs at a time of its own and passes
-- over the rows that other transactions have locked then: `now k` and `locked k` are those of the
-- k-th statement. Rows that start at the same time are ordered as they are stored.
pub mod Claims
pub mod Conserved
pub mod Finite
pub mod Deletes
pub mod Drained
pub mod Maintained
use vire.Base.{
  ℕ, zero, suc, ◌+◌, ◌≡◌, Bool, true, false, ◌&&◌, not, Option, none, some, List, [], ◌∷◌, map,
  take, length, ltb, leb, nat_eq, if◌then◌else◌, String, ◌==◌,
}
use vire.Accounts.Tables.{
  UsageEvent, PortalSession, LoginAttempt, Db, Error, Result, ok, err, ◌>>=◌,
}
use vire.Accounts.Daily.{is_present, totals, insert_all}

-- Microseconds of seven days and of fifteen minutes.
abbrev pub week : ℕ
week = 604800000000

abbrev pub quarter : ℕ
quarter = 900000000

-- The two batch sizes of internal/accountdb/maintenance.go.
abbrev pub rollup_batch_size : ℕ
rollup_batch_size = 1000

abbrev pub delete_batch_size : ℕ
delete_batch_size = 1000

unfoldable pub filter {ℓ} : {A : Type ℓ} → (A → Bool) → List A → List A
filter p [] = []
filter p (x ∷ xs) = if p x then x ∷ filter p xs else filter p xs

-- `ORDER BY started_at`
unfoldable pub insert_by_start : UsageEvent → List UsageEvent → List UsageEvent
insert_by_start e [] = e ∷ []
insert_by_start e (x ∷ events) =
    let rest = insert_by_start e events in
    if leb e.started_at x.started_at then e ∷ x ∷ events else x ∷ rest

unfoldable pub by_start : List UsageEvent → List UsageEvent
by_start [] = []
by_start (e ∷ events) = insert_by_start e (by_start events)

-- `request_id IN (SELECT …)`
unfoldable pub has_id : String → List UsageEvent → Bool
has_id id [] = false
has_id id (e ∷ events) = if e.request_id == id then true else has_id id events

-- `rolled_up_at IS NULL AND state <> 'pending'`
abbrev pub eligible : UsageEvent → Bool
eligible e = not (is_present e.rolled_up_at) && not (e.state == "pending")

-- The rows that the inner SELECT of `RollupUsageBatch` returns.
abbrev pub picked : (String → Bool) → ℕ → List UsageEvent → List UsageEvent
picked locked limit events =
    take limit
      (by_start (filter (λ (e : UsageEvent). eligible e && not (locked e.request_id)) events))

abbrev pub in_rows : List UsageEvent → UsageEvent → Bool
in_rows rows e = has_id e.request_id rows

abbrev pub mark : ℕ → UsageEvent → UsageEvent
mark now e = record e { rolled_up_at = some now }

unfoldable pub update_where :
    (UsageEvent → Bool) → (UsageEvent → UsageEvent) → List UsageEvent → List UsageEvent
update_where test set [] = []
update_where test set (e ∷ events) =
    let rest = update_where test set events in if test e then set e ∷ rest else e ∷ rest

-- `RollupUsageBatch`: the tables and the number of rows of `usage_daily` that it wrote.
unfoldable pub rollup_usage_batch : (ℕ → ℕ) → ℕ → (String → Bool) → ℕ → Db → Result (Db × ℕ)
rollup_usage_batch day_of now locked limit db =
    let rows = picked locked limit db.usage_events in
    let groups = totals day_of (filter (in_rows rows) db.usage_events) in
    insert_all groups db.usage_daily >>= λ daily. ok (
      record db {
        usage_events = update_where (in_rows rows) (mark now) db.usage_events;
        usage_daily = daily;
      },
      length groups,
    )

-- `DeleteOldUsageBatch`: rows that are rolled up and started before a time.
abbrev pub old_rows : ℕ → ℕ → List UsageEvent → List UsageEvent
old_rows now limit events = take limit (
    by_start (
      filter (λ (e : UsageEvent). is_present e.rolled_up_at && ltb (e.started_at + week) now)
        events))

unfoldable pub delete_old_usage_batch : ℕ → ℕ → Db → Db × ℕ
delete_old_usage_batch now limit db =
    let rows = old_rows now limit db.usage_events in
    (
      record db {
        usage_events = filter (λ (e : UsageEvent). not (in_rows rows e)) db.usage_events;
      },
      length (filter (in_rows rows) db.usage_events),
    )

-- `ExpirePendingUsage`
abbrev pub expired : ℕ → UsageEvent → Bool
expired now e = e.state == "pending" && ltb (e.started_at + week) now

abbrev pub expire : ℕ → UsageEvent → UsageEvent
expire now e = record e { state = "incomplete"; finished_at = some now }

unfoldable pub expire_pending_usage : ℕ → Db → Db
expire_pending_usage now db = record db {
  usage_events = update_where (expired now) (expire now) db.usage_events;
}

-- The tables that a loop leaves and the error that ended it.
abbrev pub stopped : Db → Option Error → Option (Db × Option Error)
stopped db failure = some (db, failure)

module _ (day_of now : ℕ → ℕ) (locked : ℕ → String → Bool) (limit : ℕ) where
  -- The first loop of `Maintain`, on fuel, with the error that ends it: `none` when the fuel runs
  -- out. The number of statements
  -- so far tells the next statement's time.
  unfoldable pub rollup_loop : ℕ → ℕ → Db → Option (Db × Option Error)
  rollup_loop zero k db = none
  rollup_loop (suc fuel) k db = elim (rollup_usage_batch day_of (now k) (locked k) limit db) [
    | err x ↦ stopped db (some x)
    | ok (db', rows) ↦
        let rest = rollup_loop fuel (suc k) db' in if nat_eq rows 0 then stopped db' none else rest
  ]

module _ (now : ℕ → ℕ) (limit : ℕ) where
  -- The second loop.
  unfoldable pub delete_loop : ℕ → ℕ → Db → Option Db
  delete_loop zero k db = none
  delete_loop (suc fuel) k db =
      let (db', rows) = delete_old_usage_batch (now k) limit db in
      let rest = delete_loop fuel (suc k) db' in if nat_eq rows 0 then some db' else rest

-- The statements of `Maintain` before its loops.
unfoldable pub clean : ℕ → Db → Db
clean t db =
    let db1 = record db {
      portal_sessions = filter (λ (s : PortalSession). not (ltb s.expires_at t)) db.portal_sessions;
      login_attempts =
          filter (λ (a : LoginAttempt). not (ltb (a.window_started + quarter) t)) db.login_attempts;
    } in
    expire_pending_usage t db1

-- The rest of `Maintain` after the first loop.
abbrev pub after_rollups : (ℕ → ℕ) → ℕ → Option (Db × Option Error) → Option (Db × Option Error)
after_rollups now fuel none = none
after_rollups now fuel (some (db, some x)) = stopped db (some x)
after_rollups now fuel (some (db, none)) = elim (delete_loop now delete_batch_size fuel fuel db) [
  | none ↦ none
  | some db' ↦ stopped db' none
]

-- `Maintain`: the tables that it leaves and the error that ended it, with one fuel for both loops.
-- The loops start with statements 0 and `fuel`.
unfoldable pub maintain :
    (ℕ → ℕ) → (ℕ → ℕ) → (ℕ → String → Bool) → ℕ → ℕ → Db → Option (Db × Option Error)
maintain day_of now locked fuel t db =
    after_rollups now fuel (rollup_loop day_of now locked rollup_batch_size fuel 0 (clean t db))

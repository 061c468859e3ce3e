-- ===== src/Accounts/Report/Metered.antt =====
-- The report of internal/accountdb/portal.go shows what was metered.
use vire.Base.{
  ℕ, ◌+◌, ◌≡◌, refl, sym, ap, ◌∙◌, inl, inr, Bool, true, false, ◌&&◌, List, [], ◌∷◌, ◌++◌, map, leb,
  if◌then◌else◌, String, ◌==◌, Bool-cases, arith, Option, none,
}
use vire.Accounts.Tables.{UsageEvent, UsageKey, UsageDaily, Db, Error, ok, err, out_of_range}
use vire.Accounts.Results.{ok-eq-ok}
use vire.Accounts.Daily.{one, key_of}
use vire.Accounts.Daily.Sums.{
  Column, request_count, complete_count, incomplete_count, failed_count, prompt_tokens,
  completion_tokens, estimated_cost_micro, priced_count, column, part, sum, sum_of, sum-add_into,
}
use vire.Accounts.Rollup.{stopped, filter, eligible, maintain}
use vire.Accounts.Rollup.Claims.{keyed}
use vire.Accounts.Rollup.Conserved.{open_sum, metered}
use vire.Accounts.Rollup.Maintained.{given_up, sum_of-if, metered-maintain, maintain-drained}
use vire.Accounts.Report.{
  narrow_key, narrow, group, insert_row, in_order, newer, older, daily_usage, is_open, rolled_rows,
  open_rows, usage,
}

column-narrow : (c : Column) (d : UsageDaily) → column c (narrow d) ≡ column c d
column-narrow request_count d = refl
column-narrow complete_count d = refl
column-narrow incomplete_count d = refl
column-narrow failed_count d = refl
column-narrow prompt_tokens d = refl
column-narrow completion_tokens d = refl
column-narrow estimated_cost_micro d = refl
column-narrow priced_count d = refl

-- A test before a result that was not refused.
guard-ok :
    {A : Type 0} (b : Bool) (a : A) {a' : A}
    → (if b then ok a else err out_of_range) ≡ ok a'
    → (b ≡ true) × (ok a ≡ ok a')
guard-ok true a h = (refl, h)
guard-ok false a h = cc

module _ (c : Column) (cell : UsageKey → Bool) where
  sum-group : (rows : List UsageDaily) → sum c cell (group rows) ≡ sum c cell rows
  unfolding sum group
  sum-group [] = refl
  sum-group (row ∷ rows) = omega (arith, sum-add_into c cell row (group rows), sum-group rows)

  sum-append : (xs ys : List UsageDaily) → sum c cell (xs ++ ys) ≡ sum c cell xs + sum c cell ys
  unfolding sum
  sum-append [] ys = omega arith
  sum-append (x ∷ xs) ys = omega (arith, sum-append xs ys)

  sum-insert_row :
      (first : UsageDaily → UsageDaily → Bool) (row : UsageDaily) (rows : List UsageDaily)
      → sum c cell (insert_row first row rows) ≡ part c cell row + sum c cell rows
  unfolding sum insert_row
  sum-insert_row first row [] = refl
  sum-insert_row first row (r ∷ rows) = elim (Bool-cases (first row r)) [
    | inl before ↦ rw before refl
    | inr after ↦ rw after (omega (arith, sum-insert_row first row rows))
  ]

  sum-in_order :
      (first : UsageDaily → UsageDaily → Bool) (rows : List UsageDaily)
      → sum c cell (in_order first rows) ≡ sum c cell rows
  unfolding sum in_order
  sum-in_order first [] = refl
  sum-in_order first (row ∷ rows) =
      omega (arith, sum-insert_row first row (in_order first rows), sum-in_order first rows)

  sum-filter :
      (p : UsageKey → Bool) (ds : List UsageDaily)
      → sum c cell (filter (λ (d : UsageDaily). p d.key) ds) ≡ sum c (λ k. p k && cell k) ds
  unfolding sum filter
  sum-filter p [] = refl
  sum-filter p (d ∷ ds) = elim (Bool-cases (p d.key)) [
    | inl kept ↦ rw kept (omega (arith, sum-filter p ds))
    | inr dropped ↦ rw dropped (omega (arith, sum-filter p ds))
  ]

  sum-map-if :
      {A : Type 0} (f : A → UsageDaily) (b : Bool) (x : A) (xs : List A)
      → sum c cell (map f (if b then x ∷ xs else xs))
        ≡ (if b then part c cell (f x) else 0) + sum c cell (map f xs)
  unfolding sum
  sum-map-if f true x xs = refl
  sum-map-if f false x xs = omega arith

  part-narrow :
      (p : Bool) (d : UsageDaily)
      → (if p then part c cell (narrow d) else 0)
        ≡ (if p && cell (narrow_key d.key) then column c d else 0)
  part-narrow true d = ap (λ n. if cell (narrow_key d.key) then n else 0) (column-narrow c d)
  part-narrow false d = refl

  sum-narrow :
      (p : UsageKey → Bool) (ds : List UsageDaily)
      → sum c cell (map narrow (filter (λ (d : UsageDaily). p d.key) ds))
        ≡ sum c (λ k. p k && cell (narrow_key k)) ds
  unfolding sum filter
  sum-narrow p [] = refl
  sum-narrow p (d ∷ ds) = omega (
    arith,
    sum-map-if narrow (p d.key) d (filter (λ (x : UsageDaily). p x.key) ds),
    part-narrow (p d.key) d,
    sum-narrow p ds,
  )

  part-open :
      (p q s : Bool) (d : UsageDaily)
      → p ≡ (q && s)
      → (if p then part c cell (narrow d) else 0)
        ≡ (if s then (if q && cell (narrow_key d.key) then column c d else 0) else 0)
  part-open p true true d e = rw e (part-narrow true d)
  part-open p true false d e = rw e refl
  part-open p false true d e = rw e refl
  part-open p false false d e = rw e refl

  sum-narrow-open :
      (day_of : ℕ → ℕ) (p : UsageEvent → Bool) (q : UsageKey → Bool) (es : List UsageEvent)
      → ((e : UsageEvent) → p e ≡ (q (key_of day_of e) && eligible e))
      → sum c cell (map (λ (e : UsageEvent). narrow (one day_of e)) (filter p es))
        ≡ sum_of day_of c (λ k. q k && cell (narrow_key k)) (filter eligible es)
  unfolding sum sum_of filter
  sum-narrow-open day_of p q [] h = refl
  sum-narrow-open day_of p q (e ∷ es) h = omega (
    arith,
    sum-map-if (λ (x : UsageEvent). narrow (one day_of x)) (p e) e (filter p es),
    part-open (p e) (q (key_of day_of e)) (eligible e) (one day_of e) (h e),
    sum_of-if day_of c (λ k. q k && cell (narrow_key k)) e (eligible e) (filter eligible es),
    sum-narrow-open day_of p q es h,
  )

open_sum_none :
    (day_of : ℕ → ℕ) (c : Column) (chosen : UsageKey → Bool) (es : List UsageEvent)
    → filter eligible es ≡ []
    → open_sum day_of c chosen es ≡ 0
unfolding sum_of
open_sum_none day_of c chosen es h = ap (sum_of day_of c chosen) h

-- The keys of an account from a day on.
abbrev pub of_account : String → ℕ → UsageKey → Bool
of_account account since k = k.account_id == account && leb since k.day

module _ (day_of : ℕ → ℕ) (text_lt : String → String → Bool) (account : String) (since : ℕ)
    (c : Column) where
  -- A column of a usage report that succeeds, summed over any choice of days and models, is what is
  -- metered for the account from the first day on: the daily totals and the terminal rows not yet
  -- rolled up.
  pub usage-metered :
      (cell : UsageKey → Bool) (db : Db) {rows : List UsageDaily}
      → usage day_of text_lt account since db ≡ ok rows
      → sum c cell rows
        ≡ metered day_of c (λ k. of_account account since k && cell (narrow_key k)) db
  unfolding usage metered
  usage-metered cell db h =
      let rolled = rolled_rows account since db in
      let open' = open_rows day_of account since db in
      let (_, e) = guard-ok _ _ h in
      omega (
        arith,
        ok-eq-ok (λ rs. sum c cell rs) e,
        sum-in_order c cell (newer text_lt) (group (rolled ++ open')),
        sum-group c cell (rolled ++ open'),
        sum-append c cell rolled open',
        sum-narrow c cell (of_account account since) db.usage_daily,
        sum-group c cell (
            map (λ (e : UsageEvent). narrow (one day_of e))
              (filter (is_open day_of account since) db.usage_events)),
        sum-narrow-open c cell day_of (is_open day_of account since) (of_account account since)
            db.usage_events (λ e. refl),
      )

  -- While request ids are unique, two usage reports of an account, one before and one after a
  -- Maintain that succeeds or fails, sum up to the same over any choice of days and models, but for
  -- the pending requests that Maintain gave up.
  pub usage-maintain :
      (cell : UsageKey → Bool) (now : ℕ → ℕ) (locked : ℕ → String → Bool) (fuel t : ℕ) (db : Db)
      {db' : Db} {s : Option Error} {rows rows' : List UsageDaily}
      → keyed db.usage_events ≡ true
      → maintain day_of now locked fuel t db ≡ stopped db' s
      → usage day_of text_lt account since db ≡ ok rows
      → usage day_of text_lt account since db' ≡ ok rows'
      → sum c cell rows'
        ≡ sum c cell rows
          + given_up day_of c
              (λ k. of_account account since k && cell (narrow_key k))
              t
              db.usage_events
  usage-maintain cell now locked fuel t db {db' = db'} keys h before after =
      let chosen = λ (k : UsageKey). of_account account since k && cell (narrow_key k) in
      usage-metered cell db' after
      ∙ metered-maintain day_of c chosen now locked fuel t db keys h
      ∙ ap (λ n. n + given_up day_of c chosen t db.usage_events)
          (sym (usage-metered cell db before))

  -- The rows that are not rolled up are missing from DailyUsage.
  daily_usage-metered :
      (cell : UsageKey → Bool) (db : Db)
      → sum c cell (daily_usage text_lt account since db)
          + open_sum day_of c (λ k. of_account account since k && cell k) db.usage_events
        ≡ metered day_of c (λ k. of_account account since k && cell k) db
  unfolding daily_usage metered
  daily_usage-metered cell db = omega (
    arith,
    sum-in_order c cell (older text_lt)
        (filter (λ (d : UsageDaily). of_account account since d.key) db.usage_daily),
    sum-filter c cell (of_account account since) db.usage_daily,
  )

  -- While request ids are unique and no row is locked by another transaction, a column of
  -- DailyUsage after a Maintain that succeeds, summed over any choice of days, keys and models, is
  -- what was metered for the account from the first day on before it, with the share of the pending
  -- requests that Maintain gave up: nothing is missing from the daily totals then.
  pub daily_usage-maintain :
      (cell : UsageKey → Bool) (now : ℕ → ℕ) (locked : ℕ → String → Bool) (fuel t : ℕ) (db : Db)
      {db' : Db}
      → ((n : ℕ) (id : String) → locked n id ≡ false)
      → keyed db.usage_events ≡ true
      → maintain day_of now locked fuel t db ≡ stopped db' none
      → sum c cell (daily_usage text_lt account since db')
        ≡ metered day_of c (λ k. of_account account since k && cell k) db
          + given_up day_of c (λ k. of_account account since k && cell k) t db.usage_events
  daily_usage-maintain cell now locked fuel t db {db' = db'} unlocked keys h =
      let chosen = λ (k : UsageKey). of_account account since k && cell k in
      let none_open : open_sum day_of c chosen db'.usage_events ≡ 0 =
        open_sum_none day_of c chosen db'.usage_events
          (maintain-drained day_of now locked fuel t db unlocked keys h) in
      omega (
        arith,
        none_open,
        daily_usage-metered cell db',
        metered-maintain day_of c chosen now locked fuel t db keys h,
      )

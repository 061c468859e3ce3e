-- ===== src/Accounts/Rollup/Finite.antt =====
-- The loops of `Store.Maintain` (internal/accountdb/maintenance.go) end.
use vire.Base.{
  ℕ, zero, suc, ◌+◌, ◌≡◌, ◌≢◌, ◌≤◌, ◌<◌, refl, sym, ap, ◌∙◌, inl, inr, Bool, true, false, not, List,
  [], ◌∷◌, if◌then◌else◌, String, Bool-cases, if_cases, subst, arith, Option, some, none, length,
  nat_eq,
}
use vire.Accounts.Tables.{UsageEvent, Db, Error, Result, ok, err}
use vire.Accounts.Results.{>>=-ok, ok-eq-ok}
use vire.Accounts.Daily.{totals, insert_all}
use vire.Accounts.Daily.Sums.{request_count, sum_of}
use vire.Accounts.Rollup.{
  stopped, filter, eligible, picked, in_rows, mark, update_where, rollup_usage_batch, rollup_loop,
}
use vire.Accounts.Rollup.Claims.{keyed, claimed}
use vire.Accounts.Rollup.Conserved.{open_sum, open_sum-mark, keyed-update_where, and_left}

pub unwrap : {a b : Db} {x y : Option Error} → stopped a x ≡ stopped b y → (a ≡ b) × (x ≡ y)
unwrap {a} {x = x} h = (ap (λ o. (of o).0) h, ap (λ o. (of o).1) h)
  where
    of : Option (Db × Option Error) → Db × Option Error
    of (some r) = r
    of none = (a, x)

pub length-filter :
    (p : UsageEvent → Bool) (es : List UsageEvent) → length (filter p es) ≤ length es
unfolding filter
length-filter p [] = omega arith
length-filter p (e ∷ es) = ground (arith, length-filter p es)

pub length-filter-not :
    (p : UsageEvent → Bool) (es : List UsageEvent)
    → length (filter (λ (e : UsageEvent). not (p e)) es) + length (filter p es) ≡ length es
unfolding filter
length-filter-not p [] = omega arith
length-filter-not p (e ∷ es) = ground (arith, length-filter-not p es)

pub length-update_where :
    (test : UsageEvent → Bool) (set : UsageEvent → UsageEvent) (es : List UsageEvent)
    → length (update_where test set es) ≡ length es
unfolding update_where
length-update_where test set [] = refl
length-update_where test set (e ∷ es) = ground (arith, length-update_where test set es)

module _ (day_of : ℕ → ℕ) where
  -- The number of terminal rows that are not rolled up.
  abbrev pub open_count : List UsageEvent → ℕ
  open_count es = open_sum day_of request_count (λ k. true) es

  pub sum_of-length :
      (es : List UsageEvent) → sum_of day_of request_count (λ k. true) es ≡ length es
  unfolding sum_of
  sum_of-length [] = refl
  sum_of-length (e ∷ es) = omega (arith, sum_of-length es)

  totals_none : (es : List UsageEvent) → length es ≡ 0 → length (totals day_of es) ≡ 0
  unfolding totals
  totals_none [] h = refl
  totals_none (e ∷ es) h = omega (arith, h)

  -- A batch that wrote a row of totals leaves fewer rows to roll up.
  rollup_usage_batch-shrinks :
      (now : ℕ) (locked : String → Bool) (limit : ℕ) (db : Db) {db' : Db} {rows : ℕ}
      → keyed db.usage_events ≡ true
      → rollup_usage_batch day_of now locked limit db ≡ ok (db', rows)
      → nat_eq rows 0 ≡ false
      → open_count db'.usage_events < open_count db.usage_events
  unfolding rollup_usage_batch
  rollup_usage_batch-shrinks now locked limit db {rows = rows} k h some_rows =
      let taken = picked locked limit db.usage_events in
      let claims = filter (in_rows taken) db.usage_events in
      let (daily, _, e) = >>=-ok (insert_all (totals day_of claims) db.usage_daily) _ h in
      let moved =
        open_sum-mark day_of request_count (λ k. true) (in_rows taken) now db.usage_events
          (λ (x : UsageEvent) m hit.
            and_left (eligible x) (not (locked x.request_id))
              (claimed locked limit db.usage_events k m hit)) in
      let written : rows ≢ 0 = ground arith in
      let number = ok-eq-ok (λ (r : Db × ℕ). r.1) e in
      let after = ok-eq-ok (λ (r : Db × ℕ). open_count r.0.usage_events) e in
      let none_taken = totals_none claims in
      grind (arith, moved, number, after, sum_of-length claims, none_taken)

  pub keyed-rollup_usage_batch :
      (now : ℕ) (locked : String → Bool) (limit : ℕ) (db : Db) {db' : Db} {rows : ℕ}
      → rollup_usage_batch day_of now locked limit db ≡ ok (db', rows)
      → keyed db'.usage_events ≡ keyed db.usage_events
  unfolding rollup_usage_batch
  keyed-rollup_usage_batch now locked limit db h =
      let taken = picked locked limit db.usage_events in
      let (daily, _, e) = >>=-ok (insert_all _ db.usage_daily) _ h in
      sym (ok-eq-ok (λ (r : Db × ℕ). keyed r.0.usage_events) e)
      ∙ keyed-update_where (in_rows taken) (mark now) (λ e. refl) db.usage_events

  pub length-rollup_usage_batch :
      (now : ℕ) (locked : String → Bool) (limit : ℕ) (db : Db) {db' : Db} {rows : ℕ}
      → rollup_usage_batch day_of now locked limit db ≡ ok (db', rows)
      → length db'.usage_events ≡ length db.usage_events
  unfolding rollup_usage_batch
  length-rollup_usage_batch now locked limit db h =
      let taken = picked locked limit db.usage_events in
      let (daily, _, e) = >>=-ok (insert_all _ db.usage_daily) _ h in
      sym (ok-eq-ok (λ (r : Db × ℕ). length r.0.usage_events) e)
      ∙ length-update_where (in_rows taken) (mark now) db.usage_events

  module _ (now : ℕ → ℕ) (locked : ℕ → String → Bool) (limit : ℕ) where
    -- The loop of rollups ends.
    pub rollup_loop_ends :
        (fuel k : ℕ) (db : Db)
        → keyed db.usage_events ≡ true
        → open_count db.usage_events < fuel
        → rollup_loop day_of now locked limit fuel k db ≢ none
    unfolding rollup_loop
    rollup_loop_ends zero k db keys h = absurd (omega (arith, h))
    rollup_loop_ends (suc fuel) k db keys h =
        go (rollup_usage_batch day_of (now k) (locked k) limit db) refl
          (λ d same fewer. rollup_loop_ends fuel (suc k) d same fewer)
      where
        go :
            (r : Result (Db × ℕ))
            → rollup_usage_batch day_of (now k) (locked k) limit db ≡ r
            → ((d : Db)
                → keyed d.usage_events ≡ true
                → open_count d.usage_events < fuel
                → rollup_loop day_of now locked limit fuel (suc k) d ≢ none)
            → elim r [
              | err x ↦ stopped db (some x)
              | ok (db', rows) ↦
                  if nat_eq rows 0
                  then stopped db' none
                  else rollup_loop day_of now locked limit fuel (suc k) db'
            ]
              ≢ none
        go (err x) e ih = λ none'. cc none'
        go (ok (db', rows)) e ih = elim (Bool-cases (nat_eq rows 0)) [
          | inl finished ↦ rw finished (λ none'. cc none')
          | inr more ↦ rw more (
              ih db' (keyed-rollup_usage_batch (now k) (locked k) limit db e ∙ keys) (
                omega
                  (arith, h, rollup_usage_batch-shrinks (now k) (locked k) limit db keys e more)))
        ]

    -- What holds of the tables after a loop, failed or not: any property that a batch keeps.
    pub rollup_loop_keeps {ℓ} :
        (kept : Db → Type ℓ) (fuel k : ℕ) (db : Db) {db' : Db} {s : Option Error}
        → ((n : ℕ) (d d' : Db) (rows : ℕ)
            → kept d
            → rollup_usage_batch day_of (now n) (locked n) limit d ≡ ok (d', rows)
            → kept d')
        → kept db
        → rollup_loop day_of now locked limit fuel k db ≡ stopped db' s
        → kept db'
    unfolding rollup_loop
    rollup_loop_keeps kept zero k db step start h = cc
    rollup_loop_keeps kept (suc fuel) k db {db'} {s} step start h =
        go (rollup_usage_batch day_of (now k) (locked k) limit db) refl h
          (λ d before more. rollup_loop_keeps kept fuel (suc k) d step before more)
      where
        go :
            (r : Result (Db × ℕ))
            → rollup_usage_batch day_of (now k) (locked k) limit db ≡ r
            → elim r [
              | err x ↦ stopped db (some x)
              | ok (d, rows) ↦
                  if nat_eq rows 0
                  then stopped d none
                  else rollup_loop day_of now locked limit fuel (suc k) d
            ]
              ≡ stopped db' s
            → ((d : Db)
                → kept d
                → rollup_loop day_of now locked limit fuel (suc k) d ≡ stopped db' s
                → kept db')
            → kept db'
        go (err x) e g ih = subst kept (unwrap g).0 start
        go (ok (d, rows)) e g ih = elim (if_cases (nat_eq rows 0) g) [
          | inl finished ↦ subst kept (unwrap finished).0 (step k db d rows start e)
          | inr more ↦ ih d (step k db d rows start e) more
        ]

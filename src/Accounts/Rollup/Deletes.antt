-- ===== src/Accounts/Rollup/Deletes.antt =====
-- The second loop of `Store.Maintain` (internal/accountdb/maintenance.go), which deletes old rows.
use vire.Base.{
  ℕ, zero, suc, ◌+◌, ◌≡◌, ◌≢◌, ◌≤◌, ◌<◌, ap, inl, inr, Bool, true, not, List, [], ◌∷◌, Bool-cases,
  if_cases, subst, arith, Option, some, none, length, nat_eq,
}
use vire.Accounts.Tables.{UsageEvent, Db}
use vire.Accounts.Rollup.{filter, in_rows, old_rows, delete_old_usage_batch, delete_loop}
use vire.Accounts.Rollup.Claims.{keyed}
use vire.Accounts.Rollup.Conserved.{keyed-filter}
use vire.Accounts.Rollup.Finite.{length-filter-not}

-- The rows that a batch counts are gone.
pub delete_old_usage_batch-length :
    (now limit : ℕ) (db : Db)
    → length (delete_old_usage_batch now limit db).0.usage_events
        + (delete_old_usage_batch now limit db).1
      ≡ length db.usage_events
unfolding delete_old_usage_batch
delete_old_usage_batch-length now limit db =
    length-filter-not (in_rows (old_rows now limit db.usage_events)) db.usage_events

filter_fewer :
    (p q : UsageEvent → Bool) (es : List UsageEvent)
    → length (filter p (filter q es)) ≤ length (filter p es)
unfolding filter
filter_fewer p q [] = omega arith
filter_fewer p q (e ∷ es) = ground (arith, filter_fewer p q es)

-- A deletion leaves no more rows of any kind.
pub delete_old_usage_batch-fewer :
    (p : UsageEvent → Bool) (now limit : ℕ) (db : Db)
    → length (filter p (delete_old_usage_batch now limit db).0.usage_events)
      ≤ length (filter p db.usage_events)
unfolding delete_old_usage_batch
delete_old_usage_batch-fewer p now limit db =
    filter_fewer p (λ (e : UsageEvent). not (in_rows (old_rows now limit db.usage_events) e))
      db.usage_events

pub keyed-delete_old_usage_batch :
    (now limit : ℕ) (db : Db)
    → keyed db.usage_events ≡ true
    → keyed (delete_old_usage_batch now limit db).0.usage_events ≡ true
unfolding delete_old_usage_batch
keyed-delete_old_usage_batch now limit db keys =
    keyed-filter (λ (e : UsageEvent). not (in_rows (old_rows now limit db.usage_events) e))
      db.usage_events keys

some-injective : {a b : Db} → some a ≡ some b → a ≡ b
some-injective {a} h = ap (λ o. of o) h
  where
    of : Option Db → Db
    of (some d) = d
    of none = a

module _ (now : ℕ → ℕ) (limit : ℕ) where
  -- The loop of deletions ends.
  pub delete_loop_ends :
      (fuel k : ℕ) (db : Db)
      → length db.usage_events < fuel
      → delete_loop now limit fuel k db ≢ none
  unfolding delete_loop
  delete_loop_ends zero k db h = absurd (omega (arith, h))
  delete_loop_ends (suc fuel) k db h =
      let batch = delete_old_usage_batch (now k) limit db in
      elim (Bool-cases (nat_eq batch.1 0)) [
        | inl finished ↦ rw finished (λ none'. cc none')
        | inr more ↦
            let shorter = delete_old_usage_batch-length (now k) limit db in
            let written : batch.1 ≢ 0 = ground arith in
            let ends = delete_loop_ends fuel (suc k) batch.0 (grind (arith, h, shorter, written)) in
            rw more ends
      ]

  -- What a batch keeps, the loop keeps.
  pub delete_loop_keeps {ℓ} :
      (kept : Db → Type ℓ) (fuel k : ℕ) (db : Db) {db' : Db}
      → ((n : ℕ) (d : Db) → kept d → kept (delete_old_usage_batch (now n) limit d).0)
      → kept db
      → delete_loop now limit fuel k db ≡ some db'
      → kept db'
  unfolding delete_loop
  delete_loop_keeps kept zero k db step start h = cc
  delete_loop_keeps kept (suc fuel) k db {db'} step start h =
      let batch = delete_old_usage_batch (now k) limit db in
      elim (if_cases (nat_eq batch.1 0) h) [
        | inl finished ↦ subst kept (some-injective finished) (step k db start)
        | inr more ↦ delete_loop_keeps kept fuel (suc k) batch.0 step (step k db start) more
      ]

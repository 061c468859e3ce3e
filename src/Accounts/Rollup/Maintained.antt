-- ===== src/Accounts/Rollup/Maintained.antt =====
-- `Store.Maintain` (internal/accountdb/maintenance.go) as a whole.
use vire.Base.{
  ℕ, ◌+◌, ◌≡◌, ◌≢◌, ◌≤◌, ◌<◌, refl, ap, ◌∙◌, ◌⊎◌, inl, inr, Bool, true, false, List, [], ◌∷◌, map,
  if◌then◌else◌, Bool-cases, subst, arith, Option, some, none, length, String,
}
use vire.Accounts.Tables.{UsageEvent, UsageKey, Db, Error, ok}
use vire.Accounts.Daily.{one}
use vire.Accounts.Daily.Sums.{Column, part, sum_of}
use vire.Accounts.Rollup.{
  stopped, rollup_usage_batch, delete_old_usage_batch, filter, eligible, update_where, expired,
  expire, expire_pending_usage, clean, after_rollups, rollup_loop, delete_loop, maintain,
  rollup_batch_size, delete_batch_size,
}
use vire.Accounts.Rollup.Claims.{keyed}
use vire.Accounts.Rollup.Conserved.{
  open_sum, metered, metered-rollup_usage_batch, metered-delete_old_usage_batch, keyed-update_where,
}
use vire.Accounts.Rollup.Finite.{
  length-filter, length-update_where, rollup_loop_ends, rollup_loop_keeps, keyed-rollup_usage_batch,
  length-rollup_usage_batch, open_count, sum_of-length, unwrap,
}
use vire.Accounts.Rollup.Drained.{rollup_loop-drained}
use vire.Accounts.Rollup.Deletes.{
  delete_loop_ends, delete_loop_keeps, delete_old_usage_batch-fewer, keyed-delete_old_usage_batch,
}

keyed-clean : (t : ℕ) (db : Db) → keyed (clean t db).usage_events ≡ keyed db.usage_events
unfolding clean expire_pending_usage
keyed-clean t db = keyed-update_where (expired t) (expire t) (λ e. refl) db.usage_events

length-clean : (t : ℕ) (db : Db) → length (clean t db).usage_events ≡ length db.usage_events
unfolding clean expire_pending_usage
length-clean t db = length-update_where (expired t) (expire t) db.usage_events

length_zero : (xs : List UsageEvent) → length xs ≤ 0 → xs ≡ []
length_zero [] h = refl
length_zero (x ∷ xs) h = absurd (omega (arith, h))

-- What `Maintain` leaves is what its first loop left, after an error, or what its second loop left.
maintain-loops :
    (day_of now : ℕ → ℕ) (locked : ℕ → String → Bool) (fuel t : ℕ) (db : Db) {db' : Db}
    {s : Option Error}
    → maintain day_of now locked fuel t db ≡ stopped db' s
    → (mid : Db) × (rollup_loop day_of now locked rollup_batch_size fuel 0 (clean t db)
        ≡ stopped mid s)
      × ((mid ≡ db') ⊎ (delete_loop now delete_batch_size fuel fuel mid ≡ some db'))
unfolding maintain
maintain-loops day_of now locked fuel t db {db'} {s} h =
    rolled (rollup_loop day_of now locked rollup_batch_size fuel 0 (clean t db)) h
  where
    finished :
        (o : Option Db)
        → elim o [ none ↦ none | some d ↦ stopped d none ] ≡ stopped db' s
        → (o ≡ some db') × (none ≡ s)
    finished none g = cc
    finished (some d) g = let (same, status) = unwrap g in (ap some same, status)

    rolled :
        (r : Option (Db × Option Error))
        → after_rollups now fuel r ≡ stopped db' s
        → (mid : Db) × (r ≡ stopped mid s)
          × ((mid ≡ db') ⊎ (delete_loop now delete_batch_size fuel fuel mid ≡ some db'))
    rolled none g = cc
    rolled (some (mid, some x)) g =
        let (same, status) = unwrap g in (mid, ap (λ y. stopped mid y) status, inl same)
    rolled (some (mid, none)) g =
        let (deleted, status) = finished (delete_loop now delete_batch_size fuel fuel mid) g in
        (mid, ap (λ y. stopped mid y) status, inr deleted)

-- What the batches keep, `Maintain` keeps.
maintain_keeps {ℓ} :
    (day_of now : ℕ → ℕ) (locked : ℕ → String → Bool) (fuel t : ℕ) (db : Db) {db' : Db}
    {s : Option Error} (kept : Db → Type ℓ)
    → ((n : ℕ) (d d' : Db) (rows : ℕ)
        → kept d
        → rollup_usage_batch day_of (now n) (locked n) rollup_batch_size d ≡ ok (d', rows)
        → kept d')
    → ((n : ℕ) (d : Db) → kept d → kept (delete_old_usage_batch (now n) delete_batch_size d).0)
    → kept (clean t db)
    → maintain day_of now locked fuel t db ≡ stopped db' s
    → kept db'
maintain_keeps day_of now locked fuel t db kept on_rollup on_delete start h =
    let (mid, rolled, after) = maintain-loops day_of now locked fuel t db h in
    let in_mid =
      rollup_loop_keeps day_of now locked rollup_batch_size kept fuel 0 (clean t db) on_rollup start
        rolled in
    elim after [
      | inl same ↦ subst kept same in_mid
      | inr deleted ↦
          delete_loop_keeps now delete_batch_size kept fuel fuel mid on_delete in_mid deleted
    ]

pending_not_eligible : (t : ℕ) (e : UsageEvent) → expired t e ≡ true → eligible e ≡ false
pending_not_eligible t e h = ground arith

module _ (day_of : ℕ → ℕ) (c : Column) (chosen : UsageKey → Bool) where
  -- The requests that become incomplete because they are older than a week.
  abbrev pub given_up : ℕ → List UsageEvent → ℕ
  given_up t es = open_sum day_of c chosen (map (expire t) (filter (expired t) es))

  pub sum_of-if :
      (e : UsageEvent) (b : Bool) (xs : List UsageEvent)
      → sum_of day_of c chosen (if b then e ∷ xs else xs)
        ≡ (if b then part c chosen (one day_of e) else 0) + sum_of day_of c chosen xs
  unfolding sum_of
  sum_of-if e true xs = refl
  sum_of-if e false xs = omega arith

  open_sum-expire :
      (t : ℕ) (es : List UsageEvent)
      → open_sum day_of c chosen (update_where (expired t) (expire t) es)
        ≡ open_sum day_of c chosen es + given_up t es
  unfolding sum_of filter update_where
  open_sum-expire t [] = refl
  open_sum-expire t (e ∷ es) =
      let rest = open_sum-expire t es in
      let updated = filter eligible (update_where (expired t) (expire t) es) in
      let given = filter eligible (map (expire t) (filter (expired t) es)) in
      let before = sum_of-if e (eligible e) (filter eligible es) in
      elim (Bool-cases (expired t e)) [
        | inl hit ↦
            let x = expire t e in
            let pending : eligible e ≡ false = pending_not_eligible t e hit in
            let unopened = ap (λ b. if b then part c chosen (one day_of e) else 0) pending in
            rw hit (
              omega (
                arith,
                rest,
                before,
                unopened,
                sum_of-if x (eligible x) updated,
                sum_of-if x (eligible x) given,
              ))
        | inr miss ↦ rw miss (omega (arith, rest, before, sum_of-if e (eligible e) updated))
      ]

  metered-clean :
      (t : ℕ) (db : Db)
      → metered day_of c chosen (clean t db)
        ≡ metered day_of c chosen db + given_up t db.usage_events
  unfolding clean expire_pending_usage metered
  metered-clean t db = omega (arith, open_sum-expire t db.usage_events)

  -- While request ids are unique, whether Maintain succeeds or fails, each column summed over any
  -- choice of days, accounts, keys and models, in the daily totals and in the terminal rows not yet
  -- rolled up, is afterwards what it was before plus the share of the pending requests that
  -- Maintain gave up.
  pub metered-maintain :
      (now : ℕ → ℕ) (locked : ℕ → String → Bool) (fuel t : ℕ) (db : Db) {db' : Db}
      {s : Option Error}
      → keyed db.usage_events ≡ true
      → maintain day_of now locked fuel t db ≡ stopped db' s
      → metered day_of c chosen db' ≡ metered day_of c chosen db + given_up t db.usage_events
  metered-maintain now locked fuel t db keys h =
      let kept = λ (d : Db).
        (keyed d.usage_events ≡ true)
        × (metered day_of c chosen d ≡ metered day_of c chosen (clean t db)) in
      let after =
        maintain_keeps day_of now locked fuel t db kept
          (λ n d d' rows before batch. (
            keyed-rollup_usage_batch day_of (now n) (locked n) rollup_batch_size d batch ∙ before.0,
            metered-rollup_usage_batch day_of c chosen (now n) (locked n) rollup_batch_size d
                  before.0 batch
                ∙ before.1,
          ))
          (λ n d before. (
            keyed-delete_old_usage_batch (now n) delete_batch_size d before.0,
            metered-delete_old_usage_batch day_of c chosen (now n) delete_batch_size d before.0
                ∙ before.1,
          ))
          (keyed-clean t db ∙ keys, refl) h in
      after.1 ∙ metered-clean t db

-- While request ids are unique, Maintain ends: a fuel above the number of usage rows is enough for
-- both of its loops.
pub maintain_ends :
    (day_of now : ℕ → ℕ) (locked : ℕ → String → Bool) (fuel t : ℕ) (db : Db)
    → keyed db.usage_events ≡ true
    → length db.usage_events < fuel
    → maintain day_of now locked fuel t db ≢ none
unfolding maintain
maintain_ends day_of now locked fuel t db keys h =
    rolled (rollup_loop day_of now locked rollup_batch_size fuel 0 (clean t db)) refl
  where
    few : open_count day_of (clean t db).usage_events < fuel
    few = omega (
      arith,
      h,
      length-clean t db,
      length-filter eligible (clean t db).usage_events,
      sum_of-length day_of (filter eligible (clean t db).usage_events),
    )

    finished : (o : Option Db) → o ≢ none → elim o [ none ↦ none | some d ↦ stopped d none ] ≢ none
    finished none ends = λ g. ends refl
    finished (some d) ends = λ g. cc g

    rolled :
        (r : Option (Db × Option Error))
        → rollup_loop day_of now locked rollup_batch_size fuel 0 (clean t db) ≡ r
        → after_rollups now fuel r ≢ none
    rolled none e = absurd (
        rollup_loop_ends day_of now locked rollup_batch_size fuel 0 (clean t db)
          (keyed-clean t db ∙ keys) few e)
    rolled (some (mid, some x)) e = λ g. cc g
    rolled (some (mid, none)) e =
        let same =
          rollup_loop_keeps day_of now locked rollup_batch_size
            (λ (d : Db). length d.usage_events ≡ length db.usage_events) fuel 0 (clean t db)
            (λ n d d' rows before batch.
              length-rollup_usage_batch day_of (now n) (locked n) rollup_batch_size d batch
              ∙ before)
            (length-clean t db) e in
        finished (delete_loop now delete_batch_size fuel fuel mid)
          (delete_loop_ends now delete_batch_size fuel fuel mid (omega (arith, same, h)))

-- While request ids are unique and no row is locked by another transaction, a Maintain that
-- succeeds leaves no terminal request that is not rolled up.
pub maintain-drained :
    (day_of now : ℕ → ℕ) (locked : ℕ → String → Bool) (fuel t : ℕ) (db : Db) {db' : Db}
    → ((n : ℕ) (id : String) → locked n id ≡ false)
    → keyed db.usage_events ≡ true
    → maintain day_of now locked fuel t db ≡ stopped db' none
    → filter eligible db'.usage_events ≡ []
maintain-drained day_of now locked fuel t db unlocked keys h =
    let (mid, rolled, after) = maintain-loops day_of now locked fuel t db h in
    let drained =
      rollup_loop-drained day_of now locked 999 fuel 0 (clean t db) unlocked
        (keyed-clean t db ∙ keys) rolled in
    let none_left = λ (d : Db). length (filter eligible d.usage_events) ≤ 0 in
    let in_mid : none_left mid = omega (arith, drained) in
    elim after [
      | inl same ↦ length_zero _ (subst none_left same in_mid)
      | inr deleted ↦ length_zero _ (
          delete_loop_keeps now delete_batch_size none_left fuel fuel mid
            (λ n d before.
              omega
                (arith, before, delete_old_usage_batch-fewer eligible (now n) delete_batch_size d))
            in_mid deleted)
    ]

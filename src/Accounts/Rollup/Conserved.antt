-- ===== src/Accounts/Rollup/Conserved.antt =====
-- No request is lost or counted twice by the maintenance of internal/accountdb/maintenance.go.
use mathlib.Core.List.{Memᴰ}
use vire.Base.{
  ℕ, ◌+◌, ◌≡◌, refl, ap, inl, inr, Bool, true, false, ◌&&◌, not, List, [], ◌∷◌, if◌then◌else◌,
  String, ◌==◌, Bool-cases, arith,
}
use vire.Accounts.Tables.{UsageEvent, UsageKey, Db, ok}
use vire.Accounts.Results.{>>=-ok, ok-eq-ok}
use vire.Accounts.Daily.{is_present, totals, insert_all}
use vire.Accounts.Daily.Sums.{Column, sum, sum_of, sum-insert_all, sum-totals}
use vire.Accounts.Rollup.{
  filter, has_id, eligible, picked, in_rows, old_rows, mark, update_where, rollup_usage_batch,
  delete_old_usage_batch,
}
use vire.Accounts.Rollup.Claims.{keyed, claimed, deleted}

-- Changes of rows that keep their ids.
module _ (test : UsageEvent → Bool) (set : UsageEvent → UsageEvent)
    (same : (e : UsageEvent) → (set e).request_id ≡ e.request_id) where
  has_id-update_where :
      (id : String) (es : List UsageEvent) → has_id id (update_where test set es) ≡ has_id id es
  unfolding has_id update_where
  has_id-update_where id [] = refl
  has_id-update_where id (e ∷ es) = elim (Bool-cases (test e)) [
    | inl hit ↦ rw (hit, same e, has_id-update_where id es) refl
    | inr miss ↦ rw (miss, has_id-update_where id es) refl
  ]

  pub keyed-update_where : (es : List UsageEvent) → keyed (update_where test set es) ≡ keyed es
  unfolding keyed update_where
  keyed-update_where [] = refl
  keyed-update_where (e ∷ es) = elim (Bool-cases (test e)) [
    | inl hit ↦ rw (hit, same e, has_id-update_where e.request_id es, keyed-update_where es) refl
    | inr miss ↦ rw (miss, has_id-update_where e.request_id es, keyed-update_where es) refl
  ]

has_id-filter-false :
    (p : UsageEvent → Bool) (id : String) (es : List UsageEvent)
    → has_id id es ≡ false
    → has_id id (filter p es) ≡ false
unfolding has_id filter
has_id-filter-false p id [] h = refl
has_id-filter-false p id (e ∷ es) h = ground (arith, has_id-filter-false p id es)

pub keyed-filter :
    (p : UsageEvent → Bool) (es : List UsageEvent) → keyed es ≡ true → keyed (filter p es) ≡ true
unfolding keyed filter
keyed-filter p [] h = refl
keyed-filter p (e ∷ es) h = ground (arith, keyed-filter p es, has_id-filter-false p e.request_id es)

pub and_left : (a b : Bool) → (a && b) ≡ true → a ≡ true
and_left true b h = refl
and_left false b h = cc

not_open :
    (e : UsageEvent) (b : Bool) → (is_present e.rolled_up_at && b) ≡ true → eligible e ≡ false
not_open e b h =
    ap (λ p. not p && not (e.state == "pending")) (and_left (is_present e.rolled_up_at) b h)

module _ (day_of : ℕ → ℕ) (c : Column) (chosen : UsageKey → Bool) where
  -- The terminal rows that are not rolled up.
  abbrev pub open_sum : List UsageEvent → ℕ
  open_sum es = sum_of day_of c chosen (filter eligible es)

  -- What was metered for the chosen keys: the daily totals and the rows not yet in them.
  unfoldable pub metered : Db → ℕ
  metered db = sum c chosen db.usage_daily + open_sum db.usage_events

  kept :
      (e : UsageEvent) (b : Bool) (xs ys : List UsageEvent) (k : ℕ)
      → sum_of day_of c chosen xs + k ≡ sum_of day_of c chosen ys
      → sum_of day_of c chosen (if b then e ∷ xs else xs) + k
        ≡ sum_of day_of c chosen (if b then e ∷ ys else ys)
  unfolding sum_of
  kept e true xs ys k h = omega (arith, h)
  kept e false xs ys k h = h

  pub open_sum-mark :
      (test : UsageEvent → Bool) (now : ℕ) (es : List UsageEvent)
      → ((e : UsageEvent) → Memᴰ e es → test e ≡ true → eligible e ≡ true)
      → open_sum (update_where test (mark now) es) + sum_of day_of c chosen (filter test es)
        ≡ open_sum es
  unfolding sum_of filter update_where
  open_sum-mark test now [] only = refl
  open_sum-mark test now (e ∷ es) only =
      let rest = open_sum-mark test now es (λ x m. only x (Memᴰ.tail m)) in
      elim (Bool-cases (test e)) [
        | inl hit ↦ rw (hit, only e (Memᴰ.head refl) hit) (omega (arith, rest))
        | inr miss ↦ rw miss (kept e (eligible e) _ _ _ rest)
      ]

  pub open_sum-delete :
      (test : UsageEvent → Bool) (es : List UsageEvent)
      → ((e : UsageEvent) → Memᴰ e es → test e ≡ true → eligible e ≡ false)
      → open_sum (filter (λ (e : UsageEvent). not (test e)) es) ≡ open_sum es
  unfolding sum_of filter
  open_sum-delete test [] only = refl
  open_sum-delete test (e ∷ es) only =
      let rest = open_sum-delete test es (λ x m. only x (Memᴰ.tail m)) in
      elim (Bool-cases (test e)) [
        | inl hit ↦ rw (hit, only e (Memᴰ.head refl) hit) rest
        | inr miss ↦
            let gone = filter (λ (x : UsageEvent). not (test x)) es in
            let none_more : open_sum gone + 0 ≡ open_sum es = omega (arith, rest) in
            let both =
              kept e (eligible e) (filter eligible gone) (filter eligible es) 0 none_more in
            rw miss (omega (arith, both))
      ]

  -- A batch of `RollupUsageBatch` keeps every metered amount.
  pub metered-rollup_usage_batch :
      (now : ℕ) (locked : String → Bool) (limit : ℕ) (db : Db) {db' : Db} {rows : ℕ}
      → keyed db.usage_events ≡ true
      → rollup_usage_batch day_of now locked limit db ≡ ok (db', rows)
      → metered db' ≡ metered db
  unfolding rollup_usage_batch metered
  metered-rollup_usage_batch now locked limit db k h =
      let taken = picked locked limit db.usage_events in
      let claims = filter (in_rows taken) db.usage_events in
      let (daily, inserted, e) = >>=-ok (insert_all (totals day_of claims) db.usage_daily) _ h in
      let moved = open_sum-mark (in_rows taken) now db.usage_events (λ (x : UsageEvent) m hit.
        and_left (eligible x) (not (locked x.request_id))
          (claimed locked limit db.usage_events k m hit)) in
      omega (
        arith,
        sum-insert_all c chosen (totals day_of claims) db.usage_daily inserted,
        sum-totals day_of c chosen claims,
        moved,
        ok-eq-ok (λ (r : Db × ℕ). metered r.0) e,
      )

  -- A batch of `DeleteOldUsageBatch` keeps every metered amount.
  pub metered-delete_old_usage_batch :
      (now limit : ℕ) (db : Db)
      → keyed db.usage_events ≡ true
      → metered (delete_old_usage_batch now limit db).0 ≡ metered db
  unfolding delete_old_usage_batch metered
  metered-delete_old_usage_batch now limit db k =
      ap (λ n. sum c chosen db.usage_daily + n)
        (open_sum-delete (in_rows (old_rows now limit db.usage_events)) db.usage_events
          (λ x m hit. not_open x _ (deleted now limit db.usage_events k m hit)))

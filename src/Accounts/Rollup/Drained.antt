-- ===== src/Accounts/Rollup/Drained.antt =====
-- The loop of rollups stops only when no row is left to roll up.
use vire.Base.{
  ℕ, zero, suc, ◌≡◌, ◌≤◌, ◌<◌, refl, sym, ap, ◌∙◌, inl, inr, Bool, true, false, not, ◌&&◌, List, [],
  ◌∷◌, take, if◌then◌else◌, Bool-cases, subst, arith, some, none, length, nat_eq, String, ◌==◌,
  eq_iff, eq_refl,
}
use vire.Accounts.Tables.{UsageEvent, UsageDaily, Db, Result, ok, err}
use vire.Accounts.Results.{>>=-ok, ok-eq-ok}
use vire.Accounts.Daily.{add_into, one, totals, insert_all}
use vire.Accounts.Rollup.{
  stopped, filter, has_id, insert_by_start, by_start, eligible, picked, in_rows, mark, update_where,
  rollup_usage_batch, rollup_loop,
}
use vire.Accounts.Rollup.Claims.{keyed, has_id-by_start, has_id-filter}
use vire.Accounts.Rollup.Finite.{unwrap, keyed-rollup_usage_batch}

length-insert_by_start :
    (e : UsageEvent) (xs : List UsageEvent) → length (insert_by_start e xs) ≡ suc (length xs)
unfolding insert_by_start
length-insert_by_start e [] = refl
length-insert_by_start e (x ∷ xs) = ground (arith, length-insert_by_start e xs)

length-by_start : (xs : List UsageEvent) → length (by_start xs) ≡ length xs
unfolding by_start
length-by_start [] = refl
length-by_start (x ∷ xs) = length-insert_by_start x (by_start xs) ∙ ap suc (length-by_start xs)

-- Grouping some rows gives some groups.
add_into-length : (row : UsageDaily) (ds : List UsageDaily) → 0 < length (add_into row ds)
unfolding add_into
add_into-length row [] = omega arith
add_into-length row (d ∷ ds) = ground arith

totals_some :
    (day_of : ℕ → ℕ) (es : List UsageEvent) → length (totals day_of es) ≡ 0 → length es ≡ 0
unfolding totals
totals_some day_of [] h = refl
totals_some day_of (e ∷ es) h =
    absurd (omega (arith, h, add_into-length (one day_of e) (totals day_of es)))

-- A stored id is found by the statement that looks for it.
has_id-claims :
    (id : String) (rows es : List UsageEvent)
    → has_id id rows ≡ true
    → has_id id es ≡ true
    → 0 < length (filter (in_rows rows) es)
unfolding has_id filter
has_id-claims id rows [] r h = cc
has_id-claims id rows (e ∷ es) r h = elim (Bool-cases (e.request_id == id)) [
  | inl same ↦
      let found : has_id e.request_id rows ≡ true =
        subst (λ i. has_id i rows ≡ true) (sym ((eq_iff e.request_id id).0 same)) r in
      rw found (omega arith)
  | inr other ↦
      let rest = has_id-claims id rows es r (rw other at h) in
      longer (in_rows rows e) (filter (in_rows rows) es) rest
]
  where
    longer :
        (b : Bool) (xs : List UsageEvent) → 0 < length xs → 0 < length (if b then e ∷ xs else xs)
    longer true xs n = omega arith
    longer false xs n = n

front_id : (y : UsageEvent) (ys : List UsageEvent) → has_id y.request_id (y ∷ ys) ≡ true
unfolding has_id
front_id y ys = rw (eq_refl y.request_id) refl

-- When nothing is taken, there was nothing to take.
picked_none :
    (test : UsageEvent → Bool) (limit : ℕ) (es : List UsageEvent)
    → length (filter (in_rows (take (suc limit) (by_start (filter test es)))) es) ≡ 0
    → length (filter test es) ≡ 0
picked_none test limit es h = go (by_start (filter test es)) refl
  where
    go : (ys : List UsageEvent) → by_start (filter test es) ≡ ys → length (filter test es) ≡ 0
    go [] e = sym (length-by_start (filter test es)) ∙ ap (λ xs. length xs) e
    go (y ∷ ys) e =
        let front : has_id y.request_id (y ∷ ys) ≡ true = front_id y ys in
        let stored = has_id-filter test y.request_id es (
          sym (has_id-by_start y.request_id (filter test es))
          ∙ ap (λ xs. has_id y.request_id xs) e
          ∙ front) in
        let taken =
          ap (λ xs. has_id y.request_id (take (suc limit) xs)) e ∙ front_id y (take limit ys) in
        absurd (omega (arith, h, has_id-claims y.request_id _ es taken stored))

and_true : (b : Bool) → (b && true) ≡ b
and_true true = refl
and_true false = refl

filter_same :
    (p q : UsageEvent → Bool) (es : List UsageEvent)
    → ((e : UsageEvent) → p e ≡ q e)
    → filter p es ≡ filter q es
unfolding filter
filter_same p q [] h = refl
filter_same p q (e ∷ es) h = rw (h e, filter_same p q es h) refl

-- Marking rows makes no row eligible.
mark_fewer :
    (test : UsageEvent → Bool) (now : ℕ) (es : List UsageEvent)
    → length (filter eligible (update_where test (mark now) es)) ≤ length (filter eligible es)
unfolding filter update_where
mark_fewer test now [] = omega arith
mark_fewer test now (e ∷ es) = ground (arith, mark_fewer test now es)

module _ (day_of : ℕ → ℕ) where
  -- A batch that writes no totals, while no row is locked, leaves no row to roll up.
  rollup_usage_batch-drained :
      (now limit : ℕ) (locked : String → Bool) (db : Db) {db' : Db} {rows : ℕ}
      → ((id : String) → locked id ≡ false)
      → keyed db.usage_events ≡ true
      → rollup_usage_batch day_of now locked (suc limit) db ≡ ok (db', rows)
      → nat_eq rows 0 ≡ true
      → length (filter eligible db'.usage_events) ≡ 0
  unfolding rollup_usage_batch
  rollup_usage_batch-drained now limit locked db {rows = rows} unlocked keys h stop =
      let test = λ (e : UsageEvent). eligible e && not (locked e.request_id) in
      let taken = picked locked (suc limit) db.usage_events in
      let claims = filter (in_rows taken) db.usage_events in
      let (daily, _, e) = >>=-ok (insert_all (totals day_of claims) db.usage_daily) _ h in
      let none_written : rows ≡ 0 = ground arith in
      let none_claimed =
        totals_some day_of claims (ok-eq-ok (λ (r : Db × ℕ). r.1) e ∙ none_written) in
      let none_picked = picked_none test limit db.usage_events none_claimed in
      let all_unlocked =
        filter_same test eligible db.usage_events
          (λ (x : UsageEvent). anyway x (unlocked x.request_id)) in
      let after = ok-eq-ok (λ (r : Db × ℕ). length (filter eligible r.0.usage_events)) e in
      omega (
        arith,
        after,
        mark_fewer (in_rows taken) now db.usage_events,
        none_picked,
        ap (λ (xs : List UsageEvent). length xs) all_unlocked,
      )
    where
      anyway : (x : UsageEvent) {b : Bool} → b ≡ false → (eligible x && not b) ≡ eligible x
      anyway x h = rw h (and_true (eligible x))

  -- The loop, too.
  pub rollup_loop-drained :
      (now : ℕ → ℕ) (locked : ℕ → String → Bool) (limit fuel k : ℕ) (db : Db) {db' : Db}
      → ((n : ℕ) (id : String) → locked n id ≡ false)
      → keyed db.usage_events ≡ true
      → rollup_loop day_of now locked (suc limit) fuel k db ≡ stopped db' none
      → length (filter eligible db'.usage_events) ≡ 0
  unfolding rollup_loop
  rollup_loop-drained now locked limit zero k db unlocked keys h = cc
  rollup_loop-drained now locked limit (suc fuel) k db {db'} unlocked keys h =
      go (rollup_usage_batch day_of (now k) (locked k) (suc limit) db) refl h
        (λ d d_keys more. rollup_loop-drained now locked limit fuel (suc k) d unlocked d_keys more)
    where
      go :
          (r : Result (Db × ℕ))
          → rollup_usage_batch day_of (now k) (locked k) (suc limit) db ≡ r
          → elim r [
            | err x ↦ stopped db (some x)
            | ok (d, rows) ↦
                if nat_eq rows 0
                then stopped d none
                else rollup_loop day_of now locked (suc limit) fuel (suc k) d
          ]
            ≡ stopped db' none
          → ((d : Db)
              → keyed d.usage_events ≡ true
              → rollup_loop day_of now locked (suc limit) fuel (suc k) d ≡ stopped db' none
              → length (filter eligible db'.usage_events) ≡ 0)
          → length (filter eligible db'.usage_events) ≡ 0
      go (err x) e g ih = absurd (cc ((unwrap g).1))
      go (ok (d, rows)) e g ih = elim (Bool-cases (nat_eq rows 0)) [
        | inl finished ↦
            let same : d ≡ db' = (unwrap (rw finished at g)).0 in
            subst (λ (x : Db). length (filter eligible x.usage_events) ≡ 0) same
              (rollup_usage_batch-drained (now k) limit (locked k) db (unlocked k) keys e finished)
        | inr more ↦
            ih d (keyed-rollup_usage_batch day_of (now k) (locked k) (suc limit) db e ∙ keys)
              (rw more at g)
      ]

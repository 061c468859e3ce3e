-- ===== src/Accounts/Ledger/Lifecycle.antt =====
-- The life of a usage row: it begins pending and is finished once at most.
use mathlib.Core.Path.{subst₂}
use vire.Base.{
  ℕ, suc, ◌≡◌, ◌≢◌, refl, ap, inl, inr, Bool, true, false, List, [], ◌∷◌, arith, nat_eq,
  if◌then◌else◌, String, ◌==◌, eq_iff, Bool-cases, subst,
}
use vire.Accounts.Tables.{UsageEvent, Db, Result, ok, err}
use vire.Accounts.Results.{>>=-ok}
use vire.Accounts.Ledger.{
  UsageFinish, finished_row, is_target, Update, add_row, update_rows, stored, finish_check,
  finish_usage,
}

-- How many rows pass a test.
pub count : (UsageEvent → Bool) → List UsageEvent → ℕ
count test [] = 0
count test (e ∷ es) = if test e then suc (count test es) else count test es

abbrev rows_of : Update → List UsageEvent
rows_of (ok (rows, n)) = rows
rows_of (err x) = []

abbrev number_of : Update → ℕ
number_of (ok (rows, n)) = n
number_of (err x) = 0

module _ (test : UsageEvent → Bool) (write : UsageEvent → Result UsageEvent) where
  -- A statement that succeeded, row by row.
  pub data Updated : List UsageEvent → List UsageEvent → ℕ → Type 0 where
    nil : Updated [] [] 0
    miss :
        {e : UsageEvent} {es rows : List UsageEvent} {n : ℕ}
        → test e ≡ false
        → Updated es rows n
        → Updated (e ∷ es) (e ∷ rows) n
    hit :
        {e e' : UsageEvent} {es rows : List UsageEvent} {n : ℕ}
        → test e ≡ true
        → write e ≡ ok e'
        → Updated es rows n
        → Updated (e ∷ es) (e' ∷ rows) (suc n)

  add_row-Updated :
      (e : UsageEvent) (es : List UsageEvent) (b : Bool) (w : Result UsageEvent) (rest : Update)
      (rows : List UsageEvent) (n : ℕ)
      → test e ≡ b
      → write e ≡ w
      → ((rows' : List UsageEvent) (k : ℕ) → rest ≡ ok (rows', k) → Updated es rows' k)
      → add_row b e w rest ≡ ok (rows, n)
      → Updated (e ∷ es) rows n
  add_row-Updated e es b w (err x) rows n tb tw ih h = cc
  add_row-Updated e es false w (ok (rows', k)) rows n tb tw ih h =
      subst₂ (λ r m. Updated (e ∷ es) r m) (ap (λ (u : Update). rows_of u) h)
        (ap (λ (u : Update). number_of u) h) (miss tb (ih rows' k refl))
  add_row-Updated e es true (err x) (ok rest) rows n tb tw ih h = cc
  add_row-Updated e es true (ok e') (ok (rows', k)) rows n tb tw ih h =
      subst₂ (λ r m. Updated (e ∷ es) r m) (ap (λ (u : Update). rows_of u) h)
        (ap (λ (u : Update). number_of u) h) (hit tb tw (ih rows' k refl))

  pub update_rows-Updated :
      (es rows : List UsageEvent) (n : ℕ)
      → update_rows test write es ≡ ok (rows, n)
      → Updated es rows n
  unfolding update_rows
  update_rows-Updated [] rows n h =
      subst₂ (λ r m. Updated [] r m) (ap (λ (u : Update). rows_of u) h)
        (ap (λ (u : Update). number_of u) h) nil
  update_rows-Updated (e ∷ es) rows n h =
      add_row-Updated e es (test e) (write e) (update_rows test write es) rows n refl refl
        (λ rows' k g. update_rows-Updated es rows' k g) h

  pub Updated-count : {es rows : List UsageEvent} {n : ℕ} → Updated es rows n → n ≡ count test es
  unfolding count
  Updated-count nil = refl
  Updated-count (miss tb u) = rw tb (Updated-count u)
  Updated-count (hit tb tw u) = rw tb (ap suc (Updated-count u))

  -- Rows that no longer pass a second test.
  pub Updated-clears :
      (other : UsageEvent → Bool) {es rows : List UsageEvent} {n : ℕ}
      → Updated es rows n
      → ((e : UsageEvent) → test e ≡ false → other e ≡ false)
      → ((e e' : UsageEvent) → write e ≡ ok e' → test e ≡ true → other e' ≡ false)
      → count other rows ≡ 0
  unfolding count
  Updated-clears other nil f g = refl
  Updated-clears other (miss {e = x} tb u) f g = rw (f x tb) (Updated-clears other u f g)
  Updated-clears other (hit {e = x} {e' = x'} tb tw u) f g =
      rw (g x x' tw tb) (Updated-clears other u f g)

stored-ok :
    (db : Db) (u : Update) {db' : Db}
    → stored db u ≡ ok db'
    → (rows : List UsageEvent) × (u ≡ ok (rows, 1)) × (db' ≡ record db { usage_events = rows })
stored-ok db (err x) h = cc
stored-ok db (ok (rows, n)) h = elim (Bool-cases (nat_eq n 1)) [
  | inl one ↦ let e : n ≡ 1 = ground arith in (rows, ap (λ m. ok (rows, m)) e, ground arith)
  | inr other ↦ absurd (ground arith)
]

outcome-of_check :
    (f : UsageFinish) {t : Unit {0}} → finish_check f ≡ ok t → (f.outcome == "pending") ≡ false
outcome-of_check f h = elim (Bool-cases (f.outcome == "pending")) [
  | inl pending ↦
      let e : f.outcome ≡ "pending" = (eq_iff f.outcome "pending").0 pending in
      let impossible : finish_check (record f { outcome = "pending" }) ≡ ok _ =
        subst (λ o. finish_check (record f { outcome = o }) ≡ ok _) e h in
      cc impossible
  | inr other ↦ other
]

-- A successful `FinishUsage` changed one row, and its outcome is one of the three.
pub finish_usage_ok :
    (now : ℕ) (db : Db) (f : UsageFinish) {db' : Db}
    → finish_usage now db f ≡ ok db'
    → (rows : List UsageEvent) × Updated
        (is_target f.request_id)
        (finished_row now db f)
        db.usage_events
        rows
        1
      × (db' ≡ record db { usage_events = rows })
      × ((f.outcome == "pending") ≡ false)
unfolding finish_usage
finish_usage_ok now db f h =
    let (t, checked, then') = >>=-ok (finish_check f) _ h in
    let (rows, u, e) =
      stored-ok db (update_rows (is_target f.request_id) (finished_row now db f) db.usage_events)
        then' in
    (rows, update_rows-Updated _ _ db.usage_events rows 1 u, e, outcome-of_check f checked)

pub finished_row-keeps :
    (now : ℕ) (db : Db) (f : UsageFinish) (e e' : UsageEvent)
    → finished_row now db f e ≡ ok e'
    → (e'.request_id ≡ e.request_id) × (e'.state ≡ f.outcome)
unfolding finished_row
finished_row-keeps now db f e e' h = ground arith

terminal_row :
    (now : ℕ) (db : Db) (f : UsageFinish) (id : String) (e e' : UsageEvent)
    → finished_row now db f e ≡ ok e'
    → (f.outcome == "pending") ≡ false
    → is_target id e' ≡ false
terminal_row now db f id e e' w h = ground (arith, finished_row-keeps now db f e e' w)

no_target :
    (now : ℕ) (db : Db) (f f' : UsageFinish) (e : UsageEvent)
    → f'.request_id ≡ f.request_id
    → is_target f.request_id e ≡ false
    → is_target f'.request_id e ≡ false
no_target now db f f' e same h = rw same h

-- A request is finished once at most: after a successful FinishUsage, a second one of the same
-- request on the tables that it left does not succeed, whatever it reports and whenever it comes.
pub finish_once :
    (now now' : ℕ) (db db' db'' : Db) (f f' : UsageFinish)
    → f'.request_id ≡ f.request_id
    → finish_usage now db f ≡ ok db'
    → finish_usage now' db' f' ≢ ok db''
finish_once now now' db db' db'' f f' same h h' =
    let (rows, u, e, terminal) = finish_usage_ok now db f h in
    let (rows', u', _, _) = finish_usage_ok now' db' f' h' in
    let none_left : count (is_target f'.request_id) rows ≡ 0 =
      Updated-clears (is_target f.request_id) (finished_row now db f) (is_target f'.request_id) u
        (λ x miss. no_target now db f f' x same miss)
        (λ x x' w hit. terminal_row now db f f'.request_id x x' w terminal) in
    let one : 1 ≡ count (is_target f'.request_id) db'.usage_events =
      Updated-count (is_target f'.request_id) (finished_row now' db' f') u' in
    absurd (omega (arith, ap (λ (d : Db). count (is_target f'.request_id) d.usage_events) e))

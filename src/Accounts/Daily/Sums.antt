-- ===== src/Accounts/Daily/Sums.antt =====
-- What a column of the daily totals sums up to, over any choice of keys.
use vire.Base.{
  ℕ, ◌+◌, ◌≡◌, refl, sym, ap, ◌∙◌, inl, inr, Bool, true, false, List, [], ◌∷◌, if◌then◌else◌,
  eq_iff, Bool-cases, arith,
}
use vire.Accounts.Tables.{UsageEvent, UsageKey, UsageDaily, ok, err, out_of_range}
use vire.Accounts.Results.{>>=-ok, ok-eq-ok}
use vire.Accounts.Daily.{same_key, one, add, add_into, totals, fits, put, upsert, insert_all}

-- The columns that are added up.
pub data Column : Type 0 where
  request_count complete_count incomplete_count failed_count : Column
  prompt_tokens completion_tokens estimated_cost_micro priced_count : Column

abbrev pub column : Column → UsageDaily → ℕ
column request_count d = d.request_count
column complete_count d = d.complete_count
column incomplete_count d = d.incomplete_count
column failed_count d = d.failed_count
column prompt_tokens d = d.prompt_tokens
column completion_tokens d = d.completion_tokens
column estimated_cost_micro d = d.estimated_cost_micro
column priced_count d = d.priced_count

column-add : (c : Column) (d row : UsageDaily) → column c (add d row) ≡ column c d + column c row
column-add request_count d row = refl
column-add complete_count d row = refl
column-add incomplete_count d row = refl
column-add failed_count d row = refl
column-add prompt_tokens d row = refl
column-add completion_tokens d row = refl
column-add estimated_cost_micro d row = refl
column-add priced_count d row = refl

same_key-eq : (k l : UsageKey) → same_key k l ≡ true → k ≡ l
same_key-eq k l h =
    UsageKey-ext k l (ground arith) (ground (arith, eq_iff k.account_id l.account_id))
      (ground (arith, eq_iff k.key_id l.key_id)) (ground (arith, eq_iff k.model l.model))
  where
    UsageKey-ext :
        (a b : UsageKey)
        → a.day ≡ b.day
        → a.account_id ≡ b.account_id
        → a.key_id ≡ b.key_id
        → a.model ≡ b.model
        → a ≡ b
    UsageKey-ext a b d x y m i = record { day = d i; account_id = x i; key_id = y i; model = m i }

module _ (c : Column) (chosen : UsageKey → Bool) where
  -- A row's part of the sum.
  abbrev pub part : UsageDaily → ℕ
  part d = if chosen d.key then column c d else 0

  unfoldable pub sum : List UsageDaily → ℕ
  sum [] = 0
  sum (d ∷ daily) = part d + sum daily

  part-add :
      (d row : UsageDaily) → same_key d.key row.key ≡ true → part (add d row) ≡ part d + part row
  part-add d row h = rw⁻¹ (ap chosen (same_key-eq d.key row.key h)) (go (chosen d.key))
    where
      go :
          (b : Bool)
          → (if b then column c (add d row) else 0)
            ≡ (if b then column c d else 0) + (if b then column c row else 0)
      go true = column-add c d row
      go false = refl

  pub sum-add_into :
      (row : UsageDaily) (daily : List UsageDaily) → sum (add_into row daily) ≡ part row + sum daily
  unfolding sum add_into
  sum-add_into row [] = refl
  sum-add_into row (d ∷ daily) = elim (Bool-cases (same_key d.key row.key)) [
    | inl same ↦ rw same (omega (arith, part-add d row same))
    | inr other ↦ rw other (omega (arith, sum-add_into row daily))
  ]

  put-sum :
      (d : UsageDaily) (daily : List UsageDaily) {daily' : List UsageDaily}
      → put d daily ≡ ok daily'
      → sum daily' ≡ part d + sum daily
  unfolding sum
  put-sum d daily {daily'} h = go (fits d) h
    where
      go :
          (b : Bool)
          → (if b then ok (d ∷ daily) else err out_of_range) ≡ ok daily'
          → sum daily' ≡ part d + sum daily
      go true e = sym (ok-eq-ok sum e)
      go false e = cc

  pub sum-upsert :
      (row : UsageDaily) (daily : List UsageDaily) {daily' : List UsageDaily}
      → upsert row daily ≡ ok daily'
      → sum daily' ≡ part row + sum daily
  unfolding sum upsert
  sum-upsert row [] h = put-sum row [] h
  sum-upsert row (d ∷ daily) {daily'} h = elim (Bool-cases (same_key d.key row.key)) [
    | inl same ↦ omega (arith, put-sum (add d row) daily (rw same at h), part-add d row same)
    | inr other ↦
        let (rest, e, e') = >>=-ok (upsert row daily) _ (rw other at h) in
        omega (arith, sum-upsert row daily e, ok-eq-ok sum e')
  ]

  pub sum-insert_all :
      (rows daily : List UsageDaily) {daily' : List UsageDaily}
      → insert_all rows daily ≡ ok daily'
      → sum daily' ≡ sum rows + sum daily
  unfolding sum insert_all
  sum-insert_all [] daily h = omega (arith, ok-eq-ok sum h)
  sum-insert_all (row ∷ rows) daily h =
      let (next, e, e') = >>=-ok (upsert row daily) _ h in
      omega (arith, sum-upsert row daily e, sum-insert_all rows next e')

module _ (day_of : ℕ → ℕ) (c : Column) (chosen : UsageKey → Bool) where
  -- What a list of terminal rows sums up to, each counted once.
  unfoldable pub sum_of : List UsageEvent → ℕ
  sum_of [] = 0
  sum_of (e ∷ events) = part c chosen (one day_of e) + sum_of events

  -- Grouping keeps the sums.
  pub sum-totals : (events : List UsageEvent) → sum c chosen (totals day_of events) ≡ sum_of events
  unfolding totals sum_of sum
  sum-totals [] = refl
  sum-totals (e ∷ events) =
      sum-add_into c chosen (one day_of e) (totals day_of events)
      ∙ ap (λ n. part c chosen (one day_of e) + n) (sum-totals events)

-- ===== src/Accounts/Ledger/Pricing.antt =====
-- A begun request can be finished, at the price that it began with.
use vire.Base.{
  ℕ, ◌≡◌, refl, sym, ap, ◌∙◌, Bool, true, false, none, some, List, [], ◌∷◌, arith, if◌then◌else◌,
  String, ◌==◌, eq_refl, subst,
}
use vire.Accounts.Tables.{UsageEvent, Db, Result, ok}
use vire.Accounts.Ledger.{
  UsageStart, UsageFinish, find, new_row, finished_row, is_target, update_rows, stored,
  finish_check, finish_usage, begin_usage,
}

-- No row is a target of an update.
update_rows-none :
    (id : String) (write : UsageEvent → Result UsageEvent) (es : List UsageEvent)
    → find (λ (e : UsageEvent). e.request_id == id) es ≡ none
    → update_rows (is_target id) write es ≡ ok (es, 0)
unfolding update_rows find
update_rows-none id write [] h = refl
update_rows-none id write (e ∷ es) h =
    let (other, rest) = find_cons e h in rw (update_rows-none id write es rest, other)
  where
    find_cons :
        (x : UsageEvent)
        → (if x.request_id == id then some x else find (λ (y : UsageEvent). y.request_id == id) es)
          ≡ none
        → (x.request_id == id ≡ false) × (find (λ (y : UsageEvent). y.request_id == id) es ≡ none)
    find_cons x g = ground arith

-- The target in front is the only one.
update_rows-first :
    (id : String) (write : UsageEvent → Result UsageEvent) (e row : UsageEvent)
    (es : List UsageEvent)
    → is_target id e ≡ true
    → write e ≡ ok row
    → find (λ (x : UsageEvent). x.request_id == id) es ≡ none
    → update_rows (is_target id) write (e ∷ es) ≡ ok (row ∷ es, 1)
unfolding update_rows
update_rows-first id write e row es target w fresh =
    rw (update_rows-none id write es fresh, target, w)

finish_usage-first :
    (now : ℕ) (db : Db) (f : UsageFinish) (e row : UsageEvent) (es : List UsageEvent)
    → db.usage_events ≡ e ∷ es
    → find (λ (x : UsageEvent). x.request_id == f.request_id) es ≡ none
    → is_target f.request_id e ≡ true
    → finish_check f ≡ ok tt
    → finished_row now db f e ≡ ok row
    → finish_usage now db f ≡ ok (record db { usage_events = row ∷ es })
unfolding finish_usage
finish_usage-first now db f e row es front fresh target checked w = rw checked (
    ap (λ xs. stored db (update_rows (is_target f.request_id) (finished_row now db f) xs)) front
    ∙ ap (λ u. stored db u)
        (update_rows-first f.request_id (finished_row now db f) e row es target w fresh))

begun_target :
    (text_lt : String → String → Bool) (now : ℕ) (db : Db) (start : UsageStart)
    → is_target start.request_id (new_row text_lt now db start) ≡ true
unfolding new_row
begun_target text_lt now db start = rw (eq_refl start.request_id)

module _ (text_lt : String → String → Bool) (now now' : ℕ) (db db1 : Db) (start : UsageStart)
    (f : UsageFinish) where
  abbrev begun : UsageEvent
  begun = new_row text_lt now db start

  begin_usage_ok :
      begin_usage text_lt now db start ≡ ok db1
      → (find (λ (e : UsageEvent). e.request_id == start.request_id) db.usage_events ≡ none)
        × (db1 ≡ record db { usage_events = begun ∷ db.usage_events })
  unfolding begin_usage
  begin_usage_ok h = ground arith

  -- If BeginUsage of a request succeeds, and FinishUsage of the same request passes its checks and
  -- has a row to write, then it succeeds, and the usage rows are those from before BeginUsage with
  -- that row in front.
  pub finish-begin :
      (row : UsageEvent)
      → begin_usage text_lt now db start ≡ ok db1
      → f.request_id ≡ start.request_id
      → finish_check f ≡ ok tt
      → finished_row now' db1 f begun ≡ ok row
      → finish_usage now' db1 f ≡ ok (record db { usage_events = row ∷ db.usage_events })
  finish-begin row h same checked w =
      let (fresh, e) = begin_usage_ok h in
      let there : find (λ (x : UsageEvent). x.request_id == f.request_id) db.usage_events ≡ none =
        subst (λ id. find (λ (x : UsageEvent). x.request_id == id) db.usage_events ≡ none)
          (sym same) fresh in
      let target : is_target f.request_id begun ≡ true =
        subst (λ id. is_target id begun ≡ true) (sym same) (begun_target text_lt now db start) in
      finish_usage-first now' db1 f begun row db.usage_events (ap (λ (d : Db). d.usage_events) e)
        there target checked w
      ∙ ap (λ (d : Db). ok (record d { usage_events = row ∷ db.usage_events })) e

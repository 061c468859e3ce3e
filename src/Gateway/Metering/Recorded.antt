-- ===== src/Gateway/Metering/Recorded.antt =====
-- What gateway/proxy.go reports is what internal/accountdb/store.go accepts.
use vire.Base.{
  ℕ, ◌≡◌, refl, sym, ◌⊎◌, inl, inr, Bool, true, Option, none, some, ◌∷◌, leb, String, Bool-cases,
  subst, ℤ, pos, negsuc,
}
use vire.Accounts.Tables.{ModelPrice, UsageEvent, Db, ok, err, max_bigint, out_of_range}
use vire.Accounts.Ledger.{
  UsageStart, UsageFinish, finish_check, finished_row, price_of, priced, cost_of, begin_usage,
  new_row, finish_usage, to_int32,
}
use vire.Accounts.Ledger.Pricing.{finish-begin}
use vire.Gateway.Capture.{Limits, UsageCapture}
use vire.Gateway.Usage.{Unmarshal, counts, result}
use vire.Gateway.Usage.Outcome.{Finish, IsRecordable, result-IsRecordable}
use vire.Gateway.Metering.{finish_of}

-- A count that is present and not negative.
counts-pos : (o : Option ℤ) → counts o ≡ true → (n : ℕ) × (o ≡ some (pos n))
counts-pos none h = cc
counts-pos (some (pos n)) h = (n, refl)
counts-pos (some (negsuc n)) h = cc

-- The two kinds of reports.
abbrev Report : String → String → ℕ → String → Option ℤ → Option ℤ → UsageFinish
Report id backend status outcome prompt completion = record {
  request_id = id;
  backend = backend;
  status = status;
  outcome = outcome;
  prompt_tokens = prompt;
  completion_tokens = completion;
}

-- A property of finishes holds of a recordable one if it holds of the three kinds.
by_kind {ℓ} :
    (P : UsageFinish → Type ℓ) (id backend : String) (f : Finish)
    → IsRecordable f
    → ((n m : ℕ) → P (Report id backend f.0 "complete" (some (pos n)) (some (pos m))))
    → P (Report id backend f.0 "incomplete" none none)
    → P (Report id backend f.0 "failed" none none)
    → P (finish_of id backend f)
by_kind P id backend f (inl (outcome, p, c)) complete incomplete failed =
    let (n, prompt) = counts-pos f.2 p in
    let (m, completion) = counts-pos f.3 c in
    subst P (λ i. Report id backend f.0 (sym outcome i) (sym prompt i) (sym completion i))
      (complete n m)
by_kind P id backend f (inr (inl outcome, p, c)) complete incomplete failed =
    subst P (λ i. Report id backend f.0 (sym outcome i) (sym p i) (sym c i)) incomplete
by_kind P id backend f (inr (inr outcome, p, c)) complete incomplete failed =
    subst P (λ i. Report id backend f.0 (sym outcome i) (sym p i) (sym c i)) failed

-- Every finish that `serveCompletions` sends passes the checks of the store.
finish_check-finish_of :
    (id backend : String) (f : Finish)
    → IsRecordable f
    → finish_check (finish_of id backend f) ≡ ok tt
finish_check-finish_of id backend f h =
    by_kind (λ x. finish_check x ≡ ok tt) id backend f h (λ n m. refl) refl refl

priced-cases :
    (o : Option ModelPrice) (n m : ℕ)
    → ((c : Option ℕ) × (priced o (some n) (some m) ≡ ok c))
      ⊎ (priced o (some n) (some m) ≡ err out_of_range)
priced-cases none n m = inl (none, refl)
priced-cases (some p) n m = elim (Bool-cases (leb (cost_of p n m) max_bigint)) [
  | inl fits ↦ inl (some (cost_of p n m), rw fits refl)
  | inr large ↦ inr (rw large refl)
]

-- The row of such a finish is refused only for a cost that no BIGINT holds.
abbrev Written : ℕ → Db → UsageEvent → UsageFinish → Type 0
Written now db e x =
    ((row : UsageEvent) × (finished_row now db x e ≡ ok row) × (row.state ≡ x.outcome))
    ⊎ (finished_row now db x e ≡ err out_of_range)

finished_row-Written :
    (now : ℕ) (db : Db) (e : UsageEvent) (id backend : String) (f : Finish)
    → IsRecordable f
    → Written now db e (finish_of id backend f)
unfolding finished_row
finished_row-Written now db e id backend f h =
    by_kind (Written now db e) id backend f h
      (λ n m. elim (priced-cases (price_of db e) n m) [
        | inl (c, fits) ↦
            let row = record e {
              backend = backend;
              http_status = some (to_int32 f.0);
              state = "complete";
              prompt_tokens = some n;
              completion_tokens = some m;
              finished_at = some now;
              estimated_cost_micro = c;
            } in
            inl (row, rw fits refl, refl)
        | inr large ↦ inr (rw large refl)
      ])
      (inl (_, refl, refl)) (inl (_, refl, refl))

-- After a BeginUsage that succeeded, and before another change of the tables, FinishUsage of the
-- same request with whatever its capture reports succeeds and writes one row with the reported
-- outcome, unless the cost of the request is out of the range of a BIGINT.
pub finish_usage-result :
    (text_lt : String → String → Bool) (now now' : ℕ) (db db1 : Db) (start : UsageStart)
    (unmarshal : Unmarshal) (l : Limits) (c : UsageCapture) (interrupted : Bool) (backend : String)
    → begin_usage text_lt now db start ≡ ok db1
    → ((row : UsageEvent) × (finish_usage now' db1
            (finish_of start.request_id backend (result unmarshal l c interrupted))
          ≡ ok (record db { usage_events = row ∷ db.usage_events }))
        × (row.state ≡ (result unmarshal l c interrupted).1))
      ⊎ (finished_row now' db1
            (finish_of start.request_id backend (result unmarshal l c interrupted))
            (new_row text_lt now db start)
          ≡ err out_of_range)
finish_usage-result text_lt now now' db db1 start unmarshal l c interrupted backend h =
    let f = result unmarshal l c interrupted in
    let finish = finish_of start.request_id backend f in
    let (recordable, _) = result-IsRecordable unmarshal l c interrupted in
    let checked = finish_check-finish_of start.request_id backend f recordable in
    elim (finished_row-Written now' db1 (new_row text_lt now db start) start.request_id backend f
      recordable) [
        | inl (row, w, outcome) ↦
            inl
              (row, finish-begin text_lt now now' db db1 start finish row h refl checked w, outcome)
        | inr large ↦ inr large
      ]

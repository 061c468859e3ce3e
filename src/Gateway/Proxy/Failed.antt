-- ===== src/Gateway/Proxy/Failed.antt =====
-- What becomes of a request whose backend fails: `ErrorHandler` of gateway/proxy.go answers it,
-- `FinishUsage` of internal/accountdb/store.go stores what `result` of gateway/usage_capture.go
-- reports, and `wrap` of gateway/observability.go observes it.
use vire.Base.{
  ℕ, ◌≡◌, refl, sym, ap, subst, ◌⊎◌, inl, inr, Bool, true, false, ◌||◌, or-eq-false, Bool-cases,
  Option, none, some, List, [], ◌∷◌, String, nat_eq_refl,
}
use vire.Accounts.Tables.{UsageEvent, Db, ok}
use vire.Accounts.Ledger.{UsageStart, begin_usage, finish_usage, finished_row, new_row, to_int32}
use vire.Accounts.Ledger.Pricing.{finish-begin}
use vire.Gateway.Capture.{Limits, UsageCapture}
use vire.Gateway.Usage.{Unmarshal, result}
use vire.Gateway.Metering.{finish_of}
use vire.Gateway.Observed.{
  ResponseWriter, Call, with_status, with_bytes, returned, wrap, handle, write_header,
  ensure_status,
}
use vire.Gateway.Proxy.{
  RequestObservation, BackendError, is_net_timeout, error_status, error_outcome, handle_error,
}

abbrev pub IsTimeout : BackendError → Type 0
IsTimeout error = (error.deadline_exceeded ≡ true) ⊎ (error.net_timeout ≡ some true)

-- A timeout and any other failure, with the status of the reply and the outcome of the request.
pub data IsFailure (error : BackendError) : ℕ → String → Type 0 where
  late : IsTimeout error → IsFailure error 504 "upstream_timeout"
  lost : (IsTimeout error → ⊥) → IsFailure error 502 "upstream_unavailable"

-- `writeAPIError` with a body of `n` bytes.
abbrev pub error_reply : ℕ → ℕ → List Call
error_reply code n = with_status code ∷ with_bytes n n false ∷ []

net-IsTimeout : (o : Option Bool) → is_net_timeout o ≡ true → o ≡ some true
net-IsTimeout none h = cc
net-IsTimeout (some b) h = ap some h

or-IsTimeout :
    (error : BackendError)
    → error.deadline_exceeded || is_net_timeout error.net_timeout ≡ true
    → IsTimeout error
or-IsTimeout error h = elim (Bool-cases error.deadline_exceeded) [
  | inl yes_it ↦ inl yes_it
  | inr no_it ↦ inr (net-IsTimeout error.net_timeout (rw no_it at h))
]

or-not-IsTimeout :
    (error : BackendError)
    → error.deadline_exceeded || is_net_timeout error.net_timeout ≡ false
    → IsTimeout error
    → ⊥
or-not-IsTimeout error h t =
    let (deadline, net) = or-eq-false error.deadline_exceeded _ h in
    elim t [ inl yes_it ↦ cc | inr yes_it ↦ let e = ap is_net_timeout yes_it in cc ]

-- The usage row of a request that failed before any token.
abbrev pub IsFailedRow : ℕ → UsageEvent → Type 0
IsFailedRow code row =
    (row.state ≡ "failed")
    × (row.http_status ≡ some code)
    × (row.prompt_tokens ≡ none)
    × (row.completion_tokens ≡ none)
    × (row.estimated_cost_micro ≡ none)

-- What the reply, the store and the observation of the request show.
pub record IsAnswered (text_lt : String → String → Bool) (now now' : ℕ) (db db1 : Db)
    (start : UsageStart) (unmarshal : Unmarshal) (l : Limits) (w : ResponseWriter) (n : ℕ)
    (backend : String) (error : BackendError) (before : RequestObservation) : Type 0 where
  pub code : ℕ
  pub outcome : String
  pub failure : IsFailure error code outcome
  pub replied : (handle_error false error (some before)).0 ≡ some code
  pub after : RequestObservation
  pub capture : UsageCapture
  pub left : (handle_error false error (some before)).1 ≡ some after
  pub captured : after.usage ≡ some capture
  pub row : UsageEvent
  pub stored :
      finish_usage now' db1 (finish_of start.request_id backend (result unmarshal l capture false))
      ≡ ok (record db { usage_events = row ∷ db.usage_events })
  pub failed_row : IsFailedRow code row
  pub observed_outcome :
      (wrap before.id w (error_reply code n) returned false after.outcome).outcome ≡ outcome
  pub observed_status :
      (wrap before.id w (error_reply code n) returned false after.outcome).status ≡ code

module _ (text_lt : String → String → Bool) (now now' : ℕ) (db db1 : Db) (start : UsageStart)
    (unmarshal : Unmarshal) (l : Limits) (w : ResponseWriter) (n : ℕ) (backend : String)
    (error : BackendError) (before : RequestObservation) (c : UsageCapture) where
  failed_row_of : ℕ → UsageEvent
  failed_row_of code = record (new_row text_lt now db start) {
    backend = backend;
    http_status = some code;
    state = "failed";
    prompt_tokens = none;
    completion_tokens = none;
    finished_at = some now';
    estimated_cost_micro = none;
  }

  handle_error-IsAnswered :
      (code : ℕ) (outcome : String)
      → IsFailure error code outcome
      → error_status error ≡ code
      → error_outcome code ≡ outcome
      → before.usage ≡ some c
      → begin_usage text_lt now db start ≡ ok db1
      → to_int32 code ≡ code
      → result unmarshal l (record c { status = code }) false ≡ (code, "failed", none, none)
      → (wrap before.id w (error_reply code n) returned false outcome).outcome ≡ outcome
      → (wrap before.id w (error_reply code n) returned false outcome).status ≡ code
      → IsAnswered text_lt now now' db db1 start unmarshal l w n backend error before
  unfolding handle_error failed_row_of finished_row
  handle_error-IsAnswered code outcome failure same name used begins narrow reports seen status =
      record {
        code = code;
        outcome = outcome;
        failure = failure;
        replied = ap some same;
        after = record before { outcome = outcome; usage = some (record c { status = code }) };
        capture = record c { status = code };
        left = rw (same, name, used);
        captured = refl;
        row = failed_row_of code;
        stored =
            subst
              (λ f.
                finish_usage now' db1 (finish_of start.request_id backend f)
                ≡ ok (record db { usage_events = failed_row_of code ∷ db.usage_events }))
              (sym reports)
              (finish-begin text_lt now now' db db1 start
                (finish_of start.request_id backend (code, "failed", none, none))
                (failed_row_of code) begins refl refl (rw narrow));
        failed_row = (refl, refl, refl, refl, refl);
        observed_outcome = seen;
        observed_status = status;
      }

  -- If the backend of a metered request fails while the client waits, a timeout is answered with
  -- status 504 and any other failure with 502; before another change of the tables, the usage row
  -- then ends as failed under this status without counts and cost; and the request is observed with
  -- this status, as upstream_timeout for a timeout and as upstream_unavailable for another failure.
  pub handle_error-failed :
      before.usage ≡ some c
      → begin_usage text_lt now db start ≡ ok db1
      → IsAnswered text_lt now now' db db1 start unmarshal l w n backend error before
  unfolding result wrap handle write_header ensure_status
  handle_error-failed used begins =
      elim (Bool-cases (error.deadline_exceeded || is_net_timeout error.net_timeout)) [
        | inl timeout ↦
            handle_error-IsAnswered 504 "upstream_timeout" (late (or-IsTimeout error timeout))
              (rw timeout) refl used begins refl refl (rw (nat_eq_refl n)) refl
        | inr other ↦
            handle_error-IsAnswered 502 "upstream_unavailable" (lost (or-not-IsTimeout error other))
              (rw other) refl used begins refl refl (rw (nat_eq_refl n)) refl
      ]

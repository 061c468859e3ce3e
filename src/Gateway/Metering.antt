-- ===== src/Gateway/Metering.antt =====
-- `serveCompletions` of gateway/proxy.go with its limit of concurrent requests and its usage record,
-- and the `AccountStore` of gateway/accounts.go that it calls. A request is two steps: what runs
-- before `proxy.ServeHTTP`, and the deferred functions after it. The arguments `model_of` and
-- `is_stream` are `json.Unmarshal` of the fields `model` and `stream`: `none` is an error.
pub mod Inflight
pub mod Recorded
mod Tests
use vire.Base.{
  ℕ, suc, ◌+◌, ◌-◌, ◌≡◌, Bool, true, false, ◌&&◌, not, Option, none, some, List, [], ◌∷◌, ◌++◌, ltb,
  if◌then◌else◌, String, ◌==◌, ℤ,
}
use vire.Accounts.Tables.{Error, Result, ok, err}
use vire.Accounts.Ledger.{UsageStart, UsageFinish}
use vire.Accounts.Keys.{KeyIdentity}
use vire.Gateway.Capture.{Limits, UsageCapture, new_capture}
use vire.Gateway.Usage.{Unmarshal, result}
use vire.Gateway.Usage.Outcome.{Finish}

-- `AccountStore`, over the state of a store.
pub record AccountStore {κ} (S : Type κ) : Type κ where
  pub begin_usage : S → UsageStart → Result S
  pub finish_usage : S → UsageFinish → Result S

-- What a request's body reads as: `http.MaxBytesReader` and `io.ReadAll`.
pub data Body : Type 0 where
  too_large unreadable : Body
  body : List ℕ → Body

pub record Request : Type 0 where
  pub id : String
  pub identity : KeyIdentity
  pub content : Body

-- The server: the slots of `inflightLimit` that are taken, the store, and the counters.
pub record Server {κ} (S : Type κ) : Type κ where
  pub inflight : ℕ
  pub store : S
  pub begin_errors : ℕ
  pub finish_errors : ℕ
  pub metered : List String

-- A request that was sent to the proxy, and whether its usage is recorded.
pub record Running : Type 0 where
  pub id : String
  pub model : String
  pub stream : Bool
  pub recorded : Bool

pub data Admission {κ} (S : Type κ) : Type κ where
  replied : ℕ → Server S → Admission S
  forwarded : Running → Server S → Admission S

-- Takes a slot of the channel, if there is a limit.
abbrev pub enter : Option ℕ → ℕ → Option ℕ
enter none n = some n
enter (some limit) n = if ltb n limit then some (suc n) else none

-- Gives the slot back.
abbrev pub leave : Option ℕ → ℕ → ℕ
leave none n = n
leave (some limit) n = n - 1

abbrev pub finish_of : String → String → Finish → UsageFinish
finish_of id backend f = record {
  request_id = id;
  backend = backend;
  status = f.0;
  outcome = f.1;
  prompt_tokens = f.2;
  completion_tokens = f.3;
}

abbrev pub start_of : Request → String → UsageStart
start_of r model = record {
  request_id = r.id;
  account_id = r.identity.account_id;
  key_id = r.identity.key_id;
  model = model;
}

-- After `BeginUsage`; `n` slots are taken then.
abbrev pub begun {κ} : {S : Type κ} → ℕ → Server S → Running → Result S → Admission S
begun n g run (err x) = replied 503 (record g { begin_errors = g.begin_errors + 1 })
begun n g run (ok store) = forwarded run (record g { inflight = n; store = store })

-- After the model is found.
abbrev pub begin_request {κ} :
    {S : Type κ} → Option (AccountStore S) → ℕ → Server S → Request → String → Bool → Admission S
begin_request none n g r model stream =
    forwarded (record { id = r.id; model = model; stream = stream; recorded = false })
      (record g { inflight = n })
begin_request (some a) n g r model stream =
    begun n g (record { id = r.id; model = model; stream = stream; recorded = true })
      (a.begin_usage g.store (start_of r model))

-- After `FinishUsage`.
abbrev pub finished {κ} : {S : Type κ} → Server S → String → Result S → Server S
finished g outcome (err x) = record g { finish_errors = g.finish_errors + 1 }
finished g outcome (ok store) = record g { store = store; metered = outcome ∷ g.metered }

abbrev pub record_finish {κ} :
    {S : Type κ} → Option (AccountStore S) → Server S → Running → UsageFinish → Server S
record_finish none g r finish = g
record_finish (some a) g r finish =
    if r.recorded then finished g finish.outcome (a.finish_usage g.store finish) else g

module _ {κ} {S : Type κ} (limit : Option ℕ) (accounts : Option (AccountStore S))
    (model_of : List ℕ → Option String) (is_stream : List ℕ → Bool)
    (has_route : String → Bool) where
  abbrev pub route_request : ℕ → Server S → Request → Bool → Option String → Admission S
  route_request n g r stream none = replied 400 g
  route_request n g r stream (some model) =
      if model == ""
      then replied 400 g
      else if has_route model
      then begin_request accounts n g r model stream
      else replied 404 g

  abbrev pub read_request : ℕ → Server S → Request → Body → Admission S
  read_request n g r too_large = replied 413 g
  read_request n g r unreadable = replied 400 g
  read_request n g r (body bytes) = route_request n g r (is_stream bytes) (model_of bytes)

  abbrev pub admit : Server S → Request → Option ℕ → Admission S
  admit g r none = replied 429 g
  admit g r (some n) = read_request n g r r.content

  -- `serveCompletions` up to `proxy.ServeHTTP`. A reply gives its slot back.
  unfoldable pub arrive : Server S → Request → Admission S
  arrive g r = admit g r (enter limit g.inflight)

-- The deferred functions: the usage record, then the slot.
unfoldable pub complete {κ} :
    {S : Type κ}
    → Option ℕ
    → Option (AccountStore S)
    → Unmarshal
    → Limits
    → Server S
    → Running
    → String
    → UsageCapture
    → Bool
    → Server S
complete limit accounts unmarshal l g r backend c interrupted =
    let g' =
      record_finish accounts g r (finish_of r.id backend (result unmarshal l c interrupted)) in
    record g' { inflight = leave limit g'.inflight }

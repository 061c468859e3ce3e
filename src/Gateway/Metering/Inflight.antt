-- ===== src/Gateway/Metering/Inflight.antt =====
-- The limit of concurrent requests of gateway/proxy.go.
use vire.Base.{
  ℕ, suc, ◌≡◌, ◌≤◌, refl, sym, ap, ◌∙◌, Bool, true, false, Option, none, some, List, [], ◌∷◌, ◌++◌,
  if◌then◌else◌, length, length-append, String, ◌==◌, arith, subst,
}
use vire.Accounts.Tables.{Result, ok, err}
use vire.Accounts.Ledger.{UsageFinish}
use vire.Gateway.Capture.{Limits, UsageCapture}
use vire.Gateway.Usage.{Unmarshal, result}
use vire.Gateway.Metering.{
  AccountStore, Body, too_large, unreadable, body, Request, Server, Running, Admission, replied,
  forwarded, enter, leave, finish_of, start_of, begun, begin_request, finished, record_finish,
  route_request, read_request, admit, arrive, complete,
}

-- How many slots are taken after an admission: a reply has given its slot back.
abbrev Slots {κ} : {S : Type κ} → ℕ → ℕ → Admission S → Type 0
Slots before n (replied code g) = g.inflight ≡ before
Slots before n (forwarded run g) = g.inflight ≡ n

module _ {S : Type 0} (limit : Option ℕ) (accounts : Option (AccountStore S))
    (model_of : List ℕ → Option String) (is_stream : List ℕ → Bool)
    (has_route : String → Bool) where
  begun-Slots :
      (n : ℕ) (g : Server S) (run : Running) (r : Result S) → Slots g.inflight n (begun n g run r)
  begun-Slots n g run (err x) = refl
  begun-Slots n g run (ok s) = refl

  begin_request-Slots :
      (a : Option (AccountStore S)) (n : ℕ) (g : Server S) (r : Request) (model : String)
      (stream : Bool)
      → Slots g.inflight n (begin_request a n g r model stream)
  begin_request-Slots none n g r model stream = refl
  begin_request-Slots (some a) n g r model stream =
      begun-Slots n g _ (a.begin_usage g.store (start_of r model))

  if-Slots :
      (before n : ℕ) (b : Bool) (x y : Admission S)
      → Slots before n x
      → Slots before n y
      → Slots before n (if b then x else y)
  if-Slots before n true x y hx hy = hx
  if-Slots before n false x y hx hy = hy

  route_request-Slots :
      (n : ℕ) (g : Server S) (r : Request) (stream : Bool) (model : Option String)
      → Slots g.inflight n
          (route_request limit accounts model_of is_stream has_route n g r stream model)
  route_request-Slots n g r stream none = refl
  route_request-Slots n g r stream (some model) = if-Slots g.inflight n (model == "") _ _ refl (
      if-Slots g.inflight n (has_route model) _ _ (begin_request-Slots accounts n g r model stream)
        refl)

  read_request-Slots :
      (n : ℕ) (g : Server S) (r : Request) (content : Body)
      → Slots g.inflight n (read_request limit accounts model_of is_stream has_route n g r content)
  read_request-Slots n g r too_large = refl
  read_request-Slots n g r unreadable = refl
  read_request-Slots n g r (body bytes) =
      route_request-Slots n g r (is_stream bytes) (model_of bytes)

  arrive-replied :
      (g g' : Server S) (r : Request) (code : ℕ)
      → arrive limit accounts model_of is_stream has_route g r ≡ replied code g'
      → g'.inflight ≡ g.inflight
  unfolding arrive
  arrive-replied g g' r code h = go (enter limit g.inflight) h
    where
      go :
          (o : Option ℕ)
          → admit limit accounts model_of is_stream has_route g r o ≡ replied code g'
          → g'.inflight ≡ g.inflight
      go none e = subst (λ a. Slots g.inflight 0 a) e refl
      go (some n) e = subst (λ a. Slots g.inflight n a) e (read_request-Slots n g r r.content)

  arrive-forwarded :
      (g g' : Server S) (r : Request) (run : Running)
      → arrive limit accounts model_of is_stream has_route g r ≡ forwarded run g'
      → enter limit g.inflight ≡ some g'.inflight
  unfolding arrive
  arrive-forwarded g g' r run h = go (enter limit g.inflight) h
    where
      go :
          (o : Option ℕ)
          → admit limit accounts model_of is_stream has_route g r o ≡ forwarded run g'
          → o ≡ some g'.inflight
      go none e = cc
      go (some n) e =
          ap some (sym (subst (λ a. Slots g.inflight n a) e (read_request-Slots n g r r.content)))

-- The server and the requests that it has sent on, after any steps: arrivals, ends of running
-- requests in any order, and changes of the store by others.
pub data Reachable {S : Type 0} (limit : Option ℕ) (accounts : Option (AccountStore S))
    (model_of : List ℕ → Option String) (is_stream : List ℕ → Bool) (has_route : String → Bool)
    (unmarshal : Unmarshal) (l : Limits) : Server S → List Running → Type 0 where
  fresh :
      (s : S)
      → Reachable limit accounts model_of is_stream has_route unmarshal l
          (record { inflight = 0; store = s; begin_errors = 0; finish_errors = 0; metered = [] })
          []
  refused :
      {g g' : Server S} {running : List Running} (r : Request) (code : ℕ)
      → Reachable limit accounts model_of is_stream has_route unmarshal l g running
      → arrive limit accounts model_of is_stream has_route g r ≡ replied code g'
      → Reachable limit accounts model_of is_stream has_route unmarshal l g' running
  admitted :
      {g g' : Server S} {running : List Running} {run : Running} (r : Request)
      → Reachable limit accounts model_of is_stream has_route unmarshal l g running
      → arrive limit accounts model_of is_stream has_route g r ≡ forwarded run g'
      → Reachable limit accounts model_of is_stream has_route unmarshal l g' (run ∷ running)
  ended :
      {g : Server S} (before after : List Running) (run : Running) (backend : String)
      (c : UsageCapture) (interrupted : Bool)
      → Reachable limit accounts model_of is_stream has_route unmarshal l g (before ++ run ∷ after)
      → Reachable limit accounts model_of is_stream has_route unmarshal l
          (complete limit accounts unmarshal l g run backend c interrupted)
          (before ++ after)
  elsewhere :
      {g : Server S} {running : List Running} (s : S)
      → Reachable limit accounts model_of is_stream has_route unmarshal l g running
      → Reachable limit accounts model_of is_stream has_route unmarshal l
          (record g { store = s })
          running

finished-inflight :
    {S : Type 0} (g : Server S) (outcome : String) (r : Result S)
    → (finished g outcome r).inflight ≡ g.inflight
finished-inflight g outcome (err x) = refl
finished-inflight g outcome (ok s) = refl

record_finish-inflight :
    {S : Type 0} (a : Option (AccountStore S)) (g : Server S) (run : Running) (f : UsageFinish)
    → (record_finish a g run f).inflight ≡ g.inflight
record_finish-inflight none g run f = refl
record_finish-inflight (some a) g run f = go run.recorded
  where
    go :
        (b : Bool)
        → (if b then finished g f.outcome (a.finish_usage g.store f) else g).inflight ≡ g.inflight
    go true = finished-inflight g f.outcome (a.finish_usage g.store f)
    go false = refl

complete-inflight :
    {S : Type 0} (limit : Option ℕ) (a : Option (AccountStore S)) (unmarshal : Unmarshal)
    (l : Limits) (g : Server S) (run : Running) (backend : String) (c : UsageCapture)
    (interrupted : Bool)
    → (complete limit a unmarshal l g run backend c interrupted).inflight ≡ leave limit g.inflight
unfolding complete
complete-inflight limit a unmarshal l g run backend c interrupted =
    ap (λ n. leave limit n)
      (record_finish-inflight a g run (finish_of run.id backend (result unmarshal l c interrupted)))

enter-some : (limit n m : ℕ) → enter (some limit) n ≡ some m → (m ≡ suc n) × (m ≤ limit)
enter-some limit n m h = ground arith

-- Under a limit, after any arrivals, ends of running requests in any order and changes of the store
-- by others, the slots of the limit that are taken are as many as the requests that run, and at
-- most the limit.
pub inflight_bounded :
    {S : Type 0} (limit : ℕ) (accounts : Option (AccountStore S))
    (model_of : List ℕ → Option String) (is_stream : List ℕ → Bool) (has_route : String → Bool)
    (unmarshal : Unmarshal) (l : Limits) {g : Server S} {running : List Running}
    → Reachable (some limit) accounts model_of is_stream has_route unmarshal l g running
    → (g.inflight ≡ length running) × (length running ≤ limit)
inflight_bounded limit accounts model_of is_stream has_route unmarshal l (fresh s) =
    (refl, omega arith)
inflight_bounded limit accounts model_of is_stream has_route unmarshal l
      (refused {g} {g'} r code before h) =
    let (same, bounded) =
      inflight_bounded limit accounts model_of is_stream has_route unmarshal l before in
    (
      arrive-replied (some limit) accounts model_of is_stream has_route g g' r code h ∙ same,
      bounded,
    )
inflight_bounded limit accounts model_of is_stream has_route unmarshal l
      (admitted {g} {g'} {run = run} r before h) =
    let (same, bounded) =
      inflight_bounded limit accounts model_of is_stream has_route unmarshal l before in
    let (more, fits) =
      enter-some limit g.inflight g'.inflight
        (arrive-forwarded (some limit) accounts model_of is_stream has_route g g' r run h) in
    (omega (arith, more, same), omega (arith, more, same, fits))
inflight_bounded limit accounts model_of is_stream has_route unmarshal l
      (ended {g} before after run backend c interrupted earlier) =
    let (same, bounded) =
      inflight_bounded limit accounts model_of is_stream has_route unmarshal l earlier in
    let left = complete-inflight (some limit) accounts unmarshal l g run backend c interrupted in
    (
      omega (arith, left, same, length-append before (run ∷ after), length-append before after),
      omega (arith, bounded, length-append before (run ∷ after), length-append before after),
    )
inflight_bounded limit accounts model_of is_stream has_route unmarshal l (elsewhere s before) =
    inflight_bounded limit accounts model_of is_stream has_route unmarshal l before

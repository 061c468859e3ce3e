-- ===== src/Gateway/Proxy.antt =====
-- gateway/proxy.go: `modelRoute.ServeHTTP`, and the functions that `newProxy` gives to the reverse
-- proxy for a request and for an error. The state of a request is that of gateway/observability.go.
-- A header map is a function from canonical names to values; the origin of a backend is an argument.
pub mod Routed
pub mod Failed
pub mod Separate
mod Tests
use vire.Base.{
  ℕ, ◌≡◌, Bool, true, false, not, ◌&&◌, ◌||◌, Option, none, some, List, [], ◌∷◌, nat_eq, length,
  if◌then◌else◌, String, ◌==◌,
}
use Prim.Native.String.{◌++◌ as append}
use vire.Gateway.Capture.{UsageCapture}
use vire.Gateway.Membership.{key}
use vire.Gateway.Route.{
  ModelRoute, Health, Selection, chosen, none_healthy, panicked, select_healthy_backend,
}

-- `requestObservation`
pub record RequestObservation : Type 0 where
  pub id : String
  pub model : String
  pub backend : String
  pub routing : String
  pub outcome : String
  pub usage : Option UsageCapture

-- The key of a conversation: the account, if there is one, a NUL, and the client's name for it.
unfoldable pub conversation_key : String → String → String
conversation_key account conversation_id =
    if not (account == "") && not (conversation_id == "")
    then key account conversation_id
    else conversation_id

abbrev pub mode_of : ModelRoute → String → String
mode_of route conversation_id =
    if nat_eq (length route.backends) 1
    then "single"
    else if not (conversation_id == "")
    then "affinity"
    else "round_robin"

abbrev pub routing_of : ModelRoute → String → Bool → String
routing_of route conversation_id failover =
    let mode = mode_of route conversation_id in if failover then append mode "_failover" else mode

-- What becomes of a request: a reply with status 503, a backend's proxy, or a panic.
pub data Served : Type 0 where
  unavailable : Option RequestObservation → Served
  proxied : ℕ → Option RequestObservation → Served
  crashed : Served

abbrev pub note {ℓ} : {A : Type ℓ} → (A → A) → Option A → Option A
note f none = none
note f (some state) = some (f state)

-- After the selection.
abbrev pub serve_selected :
    (ℕ → String) → ModelRoute → String → Option RequestObservation → Selection → Served
serve_selected origin route conversation_id state none_healthy =
    unavailable
      (note (λ s. record s { model = route.model; outcome = "upstream_unavailable" }) state)
serve_selected origin route conversation_id state (chosen backend failover) = proxied backend (
    note
      (λ s. record s {
        model = route.model;
        backend = origin backend;
        routing = routing_of route conversation_id failover;
      })
      state)
serve_selected origin route conversation_id state panicked = crashed

-- `modelRoute.ServeHTTP`, and the route with its new counter.
unfoldable pub serve_route :
    (ℕ → String)
    → Health
    → ModelRoute
    → String
    → String
    → Option RequestObservation
    → Served × ModelRoute
serve_route origin healthy route account conversation_header state =
    let conversation_id = conversation_key account conversation_header in
    let (found, route') = select_healthy_backend healthy route conversation_id in
    (serve_selected origin route conversation_id state found, route')

abbrev pub Header : Type 0
Header = String → List String

abbrev pub del_header : String → Header → Header
del_header name h k = if k == name then [] else h k

abbrev pub set_header : String → String → Header → Header
set_header name value h k = if k == name then value ∷ [] else h k

abbrev pub set_key : String → Header → Header
set_key backend_api_key h =
    if not (backend_api_key == "")
    then set_header "Authorization" (append "Bearer " backend_api_key) h
    else h

abbrev pub set_request_id : Option RequestObservation → Header → Header
set_request_id none h = h
set_request_id (some state) h = set_header "X-Request-Id" state.id h

-- `Rewrite` on the header of the request to the backend.
abbrev pub rewrite : Bool → String → Option RequestObservation → Header → Header
rewrite authenticated backend_api_key state h =
    let routed = del_header "X-Conversation-Id" h in
    set_request_id state (
      if authenticated
      then set_key backend_api_key
          (del_header "Accept-Encoding" (del_header "Authorization" routed))
      else routed)

-- An error of the transport: whether it is `context.DeadlineExceeded`, and what `Timeout` returns if
-- it is a `net.Error`.
pub record BackendError : Type 0 where
  pub deadline_exceeded : Bool
  pub net_timeout : Option Bool

abbrev pub is_net_timeout : Option Bool → Bool
is_net_timeout none = false
is_net_timeout (some timeout) = timeout

abbrev pub error_status : BackendError → ℕ
error_status error =
    if error.deadline_exceeded || is_net_timeout error.net_timeout then 504 else 502

abbrev pub error_outcome : ℕ → String
error_outcome status = if nat_eq status 504 then "upstream_timeout" else "upstream_unavailable"

-- `ErrorHandler`: the status of the reply, if there is one, and the new state.
unfoldable pub handle_error :
    Bool → BackendError → Option RequestObservation → Option ℕ × Option RequestObservation
handle_error canceled error state = if canceled then (none, state) else (
  some (error_status error),
  note
      (λ s. record s {
        outcome = error_outcome (error_status error);
        usage = note (λ c. record c { status = error_status error }) s.usage;
      })
      state,
)

-- ===== src/Gateway/Proxy/Tests.antt =====
-- Runs of gateway/proxy.go on a route with one backend, and its theorems at them.
use vire.Base.{ℕ, zero, suc, ◌≡◌, refl, Bool, true, false, none, some, [], ◌∷◌, String, arith}
use vire.Gateway.Capture.{limits, new_capture}
use vire.Gateway.Usage.{Unmarshal}
use vire.Gateway.Route.{ModelRoute, select_backend, search_around, select_healthy_backend}
use vire.Gateway.Route.Choice.{IsAt, IsRoute}
use vire.Gateway.Observed.{ResponseWriter}
use vire.Gateway.Observed.Outcome.{differ}
use vire.Gateway.Proxy.{
  RequestObservation, conversation_key, unavailable, proxied, serve_route, Header, rewrite,
  BackendError, handle_error,
}
use vire.Gateway.Proxy.Routed.{IsServed, serve_route-IsServed}
use vire.Gateway.Proxy.Separate.{conversation_key-injective}
use vire.Gateway.Proxy.Failed.{IsAnswered, handle_error-failed}
use vire.Accounts.Tables.{Db, ok}
use vire.Accounts.Ledger.{UsageStart, begin_usage, new_row, latest_price, find}

abbrev single : ModelRoute
single = record { backends = 7 ∷ []; ring = none; next = 0; model = "m" }

same_place : (b i j : ℕ) → IsAt b (7 ∷ []) i → IsAt b (7 ∷ []) j → i ≡ j
same_place b zero zero e f = refl
same_place b zero (suc j) e f = cc
same_place b (suc i) j e f = cc

single-IsRoute : IsRoute single
single-IsRoute = record {
  inhabited = omega arith;
  distinct = same_place;
  counter = omega arith;
  ringed = λ h. absurd (omega arith);
  alone = λ h. refl;
}

abbrev before : RequestObservation
before = record {
  id = "r";
  model = "";
  backend = "";
  routing = "none";
  outcome = "";
  usage = some (new_capture true);
}

abbrev origin : ℕ → String
origin b = "http://a"

served :
    ((serve_route origin (λ _ _. true) single "" "c" (some before)).0
      ≡ proxied 7 (some (record before { model = "m"; backend = "http://a"; routing = "single" })))
    × ((serve_route origin (λ _ _. false) single "" "c" (some before)).0
        ≡ unavailable (some (record before { model = "m"; outcome = "upstream_unavailable" })))
unfolding serve_route conversation_key select_healthy_backend select_backend search_around
served = (refl, refl)

serve_route-IsServed_example :
    IsServed origin
      (λ _ _. true)
      single
      (conversation_key "a" "c")
      before
      (serve_route origin (λ _ _. true) single "a" "c" (some before)).0
serve_route-IsServed_example =
    serve_route-IsServed origin (λ _ _. true) single "a" "c" before single-IsRoute

conversation_key-injective_example : ((◌≡◌ {A = String} "a" "a")) × (◌≡◌ {A = String} "c" "c")
conversation_key-injective_example =
    conversation_key-injective "a" "a" "c" "c" refl refl (differ "a" "" refl) (differ "a" "" refl)
      (differ "c" "" refl) (differ "c" "" refl) refl

abbrev no_decoder : Unmarshal
no_decoder bytes = none

-- An account with a key, and the start of a request of it.
abbrev db : Db
db = record {
  users = [];
  accounts = record { id = "a"; name = "A"; created_at = 0 } ∷ [];
  members = [];
  api_keys =
      record {
        id = "k";
        account_id = "a";
        created_by_user_id = "u";
        name = "key";
        token_hash = [];
        created_at = 0;
        revoked_at = none;
      }
      ∷ [];
  model_prices = [];
  usage_events = [];
  usage_daily = [];
  user_passwords = [];
  portal_sessions = [];
  login_attempts = [];
}

abbrev request : UsageStart
request = record { request_id = "r"; account_id = "a"; key_id = "k"; model = "m" }

abbrev text_lt : String → String → Bool
text_lt a b = false

abbrev begun_db : Db
begun_db = record db { usage_events = new_row text_lt 10 db request ∷ [] }

begins : begin_usage text_lt 10 db request ≡ ok begun_db
unfolding begin_usage new_row latest_price find
begins = refl

abbrev plain_writer : ResponseWriter
plain_writer = record { request_ids = []; interim = []; sent = none }

abbrev late_error : BackendError
late_error = record { deadline_exceeded = false; net_timeout = some true }

handle_error-failed_example :
    IsAnswered text_lt 10 20 db begun_db request no_decoder limits plain_writer 9 "http://a"
      late_error before
handle_error-failed_example =
    handle_error-failed text_lt 10 20 db begun_db request no_decoder limits plain_writer 9
      "http://a" late_error before (new_capture true) refl begins

statuses :
    ((handle_error false late_error none).0 ≡ some 504)
    × ((handle_error false (record { deadline_exceeded = true; net_timeout = none }) none).0
        ≡ some 504)
    × ((handle_error false (record { deadline_exceeded = false; net_timeout = some false }) none).0
        ≡ some 502)
    × ((handle_error true late_error none).0 ≡ none)
unfolding handle_error
statuses = (refl, refl, refl, refl)

abbrev client_header : Header
client_header name = name ∷ []

rewritten :
    (rewrite true "k" (some before) client_header "Authorization" ≡ "Bearer k" ∷ [])
    × (rewrite true "" (some before) client_header "Authorization" ≡ [])
    × (rewrite false "k" (some before) client_header "Authorization" ≡ "Authorization" ∷ [])
    × (rewrite true "k" (some before) client_header "X-Conversation-Id" ≡ [])
    × (rewrite true "k" (some before) client_header "X-Request-Id" ≡ "r" ∷ [])
    × (rewrite true "k" (some before) client_header "Accept" ≡ "Accept" ∷ [])
rewritten = (refl, refl, refl, refl, refl, refl)

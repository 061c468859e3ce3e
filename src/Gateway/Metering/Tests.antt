-- ===== src/Gateway/Metering/Tests.antt =====
-- Runs of `serveCompletions` of gateway/proxy.go, and its theorems at them.
use vire.Base.{
  ℕ, ◌≡◌, ◌≤◌, ◌⊎◌, refl, Bool, true, false, none, some, Option, List, [], ◌∷◌, String, ◌==◌,
  length, if◌then◌else◌, codes, bytes_eq,
}
use vire.Accounts.Tables.{UsageEvent, Db, ok, err, out_of_range}
use vire.Accounts.Ledger.{
  UsageStart, find, new_row, latest_price, begin_usage, finished_row, finish_usage,
}
use vire.Gateway.Capture.{Limits, new_capture}
use vire.Gateway.Usage.{Unmarshal, result}
use vire.Gateway.Metering.{
  AccountStore, body, Request, Server, Running, forwarded, replied, finish_of, arrive,
}
use vire.Gateway.Metering.Inflight.{fresh, refused, admitted, inflight_bounded}
use vire.Gateway.Metering.Recorded.{finish_usage-result}

-- The store at time 10 for beginnings and at time 20 for ends.
abbrev text_lt : String → String → Bool
text_lt a b = false

abbrev accounts : AccountStore Db
accounts = record { begin_usage = begin_usage text_lt 10; finish_usage = finish_usage 20 }

abbrev tables : Db
tables = record {
  users = [];
  accounts = record { id = "a"; name = "A"; created_at = 0 } ∷ [];
  members = [];
  api_keys =
      record {
        id = "k";
        account_id = "a";
        created_by_user_id = "u";
        name = "Default";
        token_hash = [];
        created_at = 0;
        revoked_at = none;
      }
      ∷ [];
  model_prices = [];
  usage_events = [];
  usage_daily = [];
  user_passwords = [];
  portal_sessions = [];
  login_attempts = [];
}

abbrev start : UsageStart
start = record { request_id = "r1"; account_id = "a"; key_id = "k"; model = "m" }

abbrev pending : UsageEvent
pending = record {
  request_id = "r1";
  account_id = "a";
  key_id = "k";
  model = "m";
  backend = "";
  price_id = none;
  started_at = 10;
  finished_at = none;
  state = "pending";
  http_status = none;
  prompt_tokens = none;
  completion_tokens = none;
  estimated_cost_micro = none;
  rolled_up_at = none;
}

abbrev began : Db
began = record tables { usage_events = pending ∷ [] }

begins : begin_usage text_lt 10 tables start ≡ ok began
unfolding begin_usage new_row latest_price find
begins = refl

abbrev model_of : List ℕ → Option String
model_of bytes = if bytes_eq bytes (codes "m") then some "m" else none

abbrev is_stream : List ℕ → Bool
is_stream bytes = false

abbrev has_route : String → Bool
has_route model = model == "m"

abbrev unmarshal : Unmarshal
unmarshal text = none

abbrev limits : Limits
limits = record { max_json = 4; max_tail = 4 }

abbrev request : String → String → Request
request id text = record {
  id = id;
  identity = record { account_id = "a"; key_id = "k" };
  content = body (codes text);
}

abbrev idle : Server Db
idle = record { inflight = 0; store = tables; begin_errors = 0; finish_errors = 0; metered = [] }

abbrev busy : Server Db
busy = record idle { inflight = 1; store = began }

abbrev run : Running
run = record { id = "r1"; model = "m"; stream = false; recorded = true }

arrives :
    arrive (some 1) (some accounts) model_of is_stream has_route idle (request "r1" "m")
    ≡ forwarded run busy
unfolding arrive begin_usage new_row latest_price find
arrives = refl

unreadable_model :
    arrive (some 1) (some accounts) model_of is_stream has_route idle (request "r2" "?")
    ≡ replied 400 idle
unfolding arrive
unreadable_model = refl

full :
    arrive (some 1) (some accounts) model_of is_stream has_route busy (request "r2" "m")
    ≡ replied 429 busy
unfolding arrive
full = refl

inflight_bounded_example : (busy.inflight ≡ length (run ∷ [])) × (length (run ∷ []) ≤ 1)
inflight_bounded_example =
    inflight_bounded 1 (some accounts) model_of is_stream has_route unmarshal limits (
      refused (request "r2" "m") 429
        (admitted (request "r1" "m")
          (refused (request "r2" "?") 400 (fresh tables) unreadable_model) arrives)
        full)

finish_usage-result_example :
    ((row : UsageEvent) × (finish_usage 20 began
          (finish_of "r1" "b" (result unmarshal limits (new_capture false) true))
        ≡ ok (record tables { usage_events = row ∷ [] }))
      × (row.state ≡ (result unmarshal limits (new_capture false) true).1))
    ⊎ (finished_row 20 began
          (finish_of "r1" "b" (result unmarshal limits (new_capture false) true))
          (new_row text_lt 10 tables start)
        ≡ err out_of_range)
finish_usage-result_example =
    finish_usage-result text_lt 10 20 tables began start unmarshal limits (new_capture false) true
      "b" begins

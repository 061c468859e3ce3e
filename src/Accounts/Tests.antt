-- ===== src/Accounts/Tests.antt =====
-- Runs of internal/accountdb on small tables, and its theorems at them.
use vire.Base.{
  ℕ, ◌≡◌, ◌≢◌, ◌+◌, refl, Bool, true, false, none, some, List, [], ◌∷◌, arith, ◌&&◌, String, ◌==◌,
  pos, trim,
}
use vire.Accounts.Tables.{UsageEvent, UsageKey, UsageDaily, Db, ok}
use vire.Accounts.Ledger.{
  UsageStart, UsageFinish, find, new_row, latest_price, begin_usage, finished_row, update_rows,
  finish_usage, price_of, cost_of, set_price,
}
use vire.Accounts.Ledger.Lifecycle.{finish_once}
use vire.Accounts.Ledger.Charged.{distinct, start, then_set, price_of-begun}
use vire.Accounts.Daily.{add_into, totals, upsert, insert_all}
use vire.Accounts.Daily.Sums.{estimated_cost_micro, sum}
use vire.Accounts.Rollup.{
  stopped, filter, insert_by_start, by_start, has_id, update_where, rollup_usage_batch,
  delete_old_usage_batch, expire_pending_usage, rollup_loop, delete_loop, clean, maintain, eligible,
}
use vire.Accounts.Rollup.Claims.{keyed}
use vire.Accounts.Rollup.Conserved.{metered}
use vire.Accounts.Rollup.Maintained.{given_up, metered-maintain, maintain_ends, maintain-drained}
use vire.Accounts.Report.{narrow_key, daily_usage, group, insert_row, in_order, all_fit, usage}
use vire.Accounts.Report.Metered.{of_account, usage-metered, usage-maintain, daily_usage-maintain}

-- An account with a key, and a price of 2 and 4 micro-dollars a token.
abbrev empty : Db
empty = record {
  users = [];
  accounts = record { id = "a"; name = "A"; created_at = 0 } ∷ [];
  members = [];
  api_keys =
      record {
        id = "k";
        account_id = "a";
        created_by_user_id = "u";
        name = "Default";
        token_hash = [];
        created_at = 0;
        revoked_at = none;
      }
      ∷ [];
  model_prices =
      record {
        id = "p1";
        model = "m";
        input_rate_micro_per_million = 2000000;
        output_rate_micro_per_million = 4000000;
        created_at = 0;
      }
      ∷ [];
  usage_events = [];
  usage_daily = [];
  user_passwords = [];
  portal_sessions = [];
  login_attempts = [];
}

abbrev text_lt : String → String → Bool
text_lt a b = false

abbrev request : UsageStart
request = record { request_id = "r1"; account_id = "a"; key_id = "k"; model = "m" }

abbrev report : UsageFinish
report = record {
  request_id = "r1";
  backend = "b";
  status = 200;
  outcome = "complete";
  prompt_tokens = some (pos 3);
  completion_tokens = some (pos 5);
}

abbrev pending : UsageEvent
pending = record {
  request_id = "r1";
  account_id = "a";
  key_id = "k";
  model = "m";
  backend = "";
  price_id = some "p1";
  started_at = 10;
  finished_at = none;
  state = "pending";
  http_status = none;
  prompt_tokens = none;
  completion_tokens = none;
  estimated_cost_micro = none;
  rolled_up_at = none;
}

-- 3 tokens at 2 and 5 at 4.
abbrev complete : UsageEvent
complete = record pending {
  backend = "b";
  finished_at = some 20;
  state = "complete";
  http_status = some 200;
  prompt_tokens = some 3;
  completion_tokens = some 5;
  estimated_cost_micro = some 26;
}

abbrev began : Db
began = record empty { usage_events = pending ∷ [] }

abbrev ended : Db
ended = record empty { usage_events = complete ∷ [] }

begins : begin_usage text_lt 10 empty request ≡ ok began
unfolding begin_usage new_row latest_price find
begins = refl

ends : finish_usage 20 began report ≡ ok ended
unfolding finish_usage finished_row update_rows price_of find cost_of
ends = refl

writes : finished_row 20 began report (new_row text_lt 10 empty request) ≡ ok complete
unfolding finished_row new_row latest_price find cost_of price_of
writes = refl

finish_once_example : finish_usage 21 ended report ≢ ok ended
finish_once_example = finish_once 20 21 began ended ended report report refl ends

abbrev dearer : Db
dearer = record began {
  model_prices =
      record {
        id = "p2";
        model = "m";
        input_rate_micro_per_million = 9;
        output_rate_micro_per_million = 9;
        created_at = 15;
      }
      ∷ began.model_prices;
}

sets : set_price 15 "p2" began " m" (pos 9) (pos 9) ≡ ok dearer
unfolding set_price find trim
sets = refl

keys_distinct : distinct empty.model_prices ≡ true
unfolding distinct find
keys_distinct = refl

price_of-begun_example :
    price_of dearer (new_row text_lt 10 empty request) ≡ latest_price text_lt "m" empty.model_prices
price_of-begun_example =
    price_of-begun text_lt 10 empty began dearer request keys_distinct begins
      (then_set 15 "p2" " m" (pos 9) (pos 9) start sets)

-- The price is the one of 2 and 4.
pays :
    price_of dearer (new_row text_lt 10 empty request)
    ≡ some (record {
      id = "p1";
      model = "m";
      input_rate_micro_per_million = 2000000;
      output_rate_micro_per_million = 4000000;
      created_at = 0;
    })
unfolding price_of new_row latest_price find
pays = refl

-- Two requests of one day and a pending one.
abbrev busy : Db
busy = record empty {
  usage_events =
      complete
      ∷ record pending { request_id = "r2"; started_at = 5 }
      ∷ record complete { request_id = "r3"; started_at = 7 }
      ∷ [];
}

abbrev day_of : ℕ → ℕ
day_of t = 0

abbrev now : ℕ → ℕ
now k = 100

abbrev locked : ℕ → String → Bool
locked k id = false

abbrev kept : Db
kept = record empty {
  usage_events =
      record complete { rolled_up_at = some 100 }
      ∷ record pending { request_id = "r2"; started_at = 5 }
      ∷ record complete { request_id = "r3"; started_at = 7; rolled_up_at = some 100 }
      ∷ [];
  usage_daily =
      record {
        key = record { day = 0; account_id = "a"; key_id = "k"; model = "m" };
        request_count = 2;
        complete_count = 2;
        incomplete_count = 0;
        failed_count = 0;
        prompt_tokens = 6;
        completion_tokens = 10;
        estimated_cost_micro = 52;
        priced_count = 2;
      }
      ∷ [];
}

maintains : maintain day_of now locked 4 100 busy ≡ stopped kept none
unfolding maintain rollup_loop delete_loop clean expire_pending_usage rollup_usage_batch
    delete_old_usage_batch update_where has_id by_start insert_by_start filter totals add_into
    insert_all upsert
maintains = refl

busy_keyed : keyed busy.usage_events ≡ true
unfolding keyed has_id
busy_keyed = refl

abbrev cell : UsageKey → Bool
cell k = k.model == "m"

metered-maintain_example :
    metered day_of estimated_cost_micro cell kept
    ≡ metered day_of estimated_cost_micro cell busy
      + given_up day_of estimated_cost_micro cell 100 busy.usage_events
metered-maintain_example =
    metered-maintain day_of estimated_cost_micro cell now locked 4 100 busy busy_keyed maintains

maintain_ends_example : maintain day_of now locked 4 100 busy ≢ none
maintain_ends_example = maintain_ends day_of now locked 4 100 busy busy_keyed (omega arith)

maintain-drained_example : filter eligible kept.usage_events ≡ []
maintain-drained_example =
    maintain-drained day_of now locked 4 100 busy (λ n id. refl) busy_keyed maintains

abbrev reported : List UsageDaily
reported =
    record {
      key = record { day = 0; account_id = ""; key_id = ""; model = "m" };
      request_count = 2;
      complete_count = 2;
      incomplete_count = 0;
      failed_count = 0;
      prompt_tokens = 6;
      completion_tokens = 10;
      estimated_cost_micro = 52;
      priced_count = 2;
    }
    ∷ []

reports_before : usage day_of text_lt "a" 0 busy ≡ ok reported
unfolding usage all_fit in_order insert_row group filter add_into
reports_before = refl

reports_after : usage day_of text_lt "a" 0 kept ≡ ok reported
unfolding usage all_fit in_order insert_row group filter add_into
reports_after = refl

abbrev in_cell : UsageKey → Bool
in_cell k = of_account "a" 0 k && cell (narrow_key k)

usage-metered_example :
    sum estimated_cost_micro cell reported ≡ metered day_of estimated_cost_micro in_cell busy
usage-metered_example =
    usage-metered day_of text_lt "a" 0 estimated_cost_micro cell busy reports_before

usage-maintain_example :
    sum estimated_cost_micro cell reported
    ≡ sum estimated_cost_micro cell reported
      + given_up day_of estimated_cost_micro in_cell 100 busy.usage_events
usage-maintain_example =
    usage-maintain day_of text_lt "a" 0 estimated_cost_micro cell now locked 4 100 busy busy_keyed
      maintains reports_before reports_after

daily_usage-maintain_example :
    sum estimated_cost_micro cell (daily_usage text_lt "a" 0 kept)
    ≡ metered day_of estimated_cost_micro in_cell busy
      + given_up day_of estimated_cost_micro in_cell 100 busy.usage_events
daily_usage-maintain_example =
    daily_usage-maintain day_of text_lt "a" 0 estimated_cost_micro cell now locked 4 100 busy
      (λ n id. refl) busy_keyed maintains

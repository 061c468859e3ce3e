-- ===== src/Gateway/Observed.antt =====
-- gateway/observability.go: `observedWriter` over a response writer of net/http, and what `wrap`
-- records of a request. A handler is the list of its calls on the writer, in the order of the
-- writer's mutex. The request is given by its context's error and by what the handler panics with.
pub mod Stamped
pub mod Outcome
mod Tests
use vire.Base.{
  ℕ, ◌+◌, ◌%◌, ◌^◌, Bool, true, false, not, ◌&&◌, ◌||◌, Option, none, some, List, [], ◌∷◌, ltb, leb,
  nat_eq, if◌then◌else◌, String, ◌==◌,
}

-- A status line with the values of X-Request-ID below it.
pub record Head : Type 0 where
  pub status : ℕ
  pub request_ids : List String

-- The response writer of net/http: the values of X-Request-ID in its header map, the heads of
-- interim responses, newest first, and the head of the response, if it is sent.
pub record ResponseWriter : Type 0 where
  pub request_ids : List String
  pub interim : List Head
  pub sent : Option Head

-- 1xx, without 101.
abbrev pub is_interim : ℕ → Bool
is_interim status = leb 100 status && ltb status 200 && not (nat_eq status 101)

-- net/http panics on such a status.
abbrev pub is_bad_code : ℕ → Bool
is_bad_code status = ltb status 100 || ltb 999 status

abbrev pub send_head : ResponseWriter → ℕ → Option Head → ResponseWriter
send_head w status (some head) = w
send_head w status none =
    let head : Head = record { status = status; request_ids = w.request_ids } in
    if is_interim status
    then record w { interim = head ∷ w.interim }
    else record w { sent = some head }

-- `WriteHeader` of net/http with a status that it takes.
abbrev pub send_header : ResponseWriter → ℕ → ResponseWriter
send_header w status = send_head w status w.sent

-- `observedWriter`; `bytes` is the pattern of the `int64`.
pub record ObservedWriter : Type 0 where
  pub response_writer : ResponseWriter
  pub request_id : String
  pub status : ℕ
  pub bytes : ℕ
  pub write_failed : Bool

-- `w.Header().Set("X-Request-ID", w.requestID)`
abbrev pub stamp : ObservedWriter → ResponseWriter
stamp w = record w.response_writer { request_ids = w.request_id ∷ [] }

-- `WriteHeader` with a status that net/http takes.
unfoldable pub write_header : ObservedWriter → ℕ → ObservedWriter
write_header w status = if not (nat_eq w.status 0) then w else record w {
  response_writer = send_header (stamp w) status;
  status = if leb 200 status || nat_eq status 101 then status else w.status;
}

-- The start of `Write` and `FlushError`, and the implicit 200 that net/http sends then.
unfoldable pub ensure_status : ObservedWriter → ObservedWriter
ensure_status w =
    if nat_eq w.status 0
    then record w { response_writer = send_header (stamp w) 200; status = 200 }
    else record w { response_writer = send_header w.response_writer 200 }

-- `Write` of `len` bytes, of which the response takes `n`, with an error or not.
abbrev pub write : ObservedWriter → ℕ → ℕ → Bool → ObservedWriter
write w len n failed =
    let w' = ensure_status w in
    record w' {
      bytes = (w'.bytes + n) % 2 ^ 64;
      write_failed = w'.write_failed || failed || not (nat_eq n len);
    }

-- `FlushError`
abbrev pub flush_error : ObservedWriter → Bool → ObservedWriter
flush_error w failed =
    let w' = ensure_status w in record w' { write_failed = w'.write_failed || failed }

-- A call on the writer; `set_request_ids` is any change of X-Request-ID in the header map.
pub data Call : Type 0 where
  set_request_ids : List String → Call
  with_status : ℕ → Call
  with_bytes : (len n : ℕ) (failed : Bool) → Call
  flushed : Bool → Call

pub data Panic : Type 0 where
  returned abort_handler other_panic : Panic

-- `WriteHeader` with a status that panics sets the header only if no status was written.
abbrev pub refused_header : ObservedWriter → ObservedWriter
refused_header w = record w { response_writer = stamp w }

abbrev pub call : ObservedWriter → Call → ObservedWriter
call w (set_request_ids ids) = record w {
  response_writer = record w.response_writer { request_ids = ids };
}
call w (with_status status) = write_header w status
call w (with_bytes len n failed) = write w len n failed
call w (flushed failed) = flush_error w failed

-- Whether a call panics.
abbrev pub panics : ObservedWriter → Call → Bool
panics w (set_request_ids ids) = false
panics w (with_status status) = nat_eq w.status 0 && is_bad_code status
panics w (with_bytes len n failed) = false
panics w (flushed failed) = false

-- The calls of a handler, and what it ends with: a call that panics ends it.
unfoldable pub handle : ObservedWriter → List Call → Panic → ObservedWriter × Panic
handle w [] end = (w, end)
handle w (c ∷ calls) end =
    let rest = handle (call w c) calls end in
    if panics w c then (refused_header w, other_panic) else rest

-- The writer that `wrap` makes.
abbrev pub new_writer : String → ResponseWriter → ObservedWriter
new_writer id w = record {
  response_writer = record w { request_ids = id ∷ [] };
  request_id = id;
  status = 0;
  bytes = 0;
  write_failed = false;
}

-- What is recorded of a request, and the panic that goes on.
pub record Observation : Type 0 where
  pub status : ℕ
  pub bytes : ℕ
  pub outcome : String
  pub panicked : Panic

-- The last case of the switch in `wrap`, if the handler left no outcome.
abbrev pub settle : String → ℕ → String
settle outcome status =
    if not (outcome == "") then outcome else if leb 400 status then "http_error" else "completed"

-- The switch in `wrap`.
abbrev pub outcome_of : Bool → Panic → Bool → String → ℕ → String
outcome_of canceled abort_handler write_failed outcome status =
    if canceled then "canceled" else "stream_aborted"
outcome_of canceled other_panic write_failed outcome status =
    if canceled then "canceled" else "panic"
outcome_of canceled returned write_failed outcome status =
    if canceled then "canceled" else if write_failed then "write_error" else settle outcome status

abbrev pub observation_of : Bool → String → ObservedWriter × Panic → Observation
observation_of canceled left (w, end) =
    let outcome = outcome_of canceled end w.write_failed left w.status in
    record {
      status = if nat_eq w.status 0 && outcome == "completed" then 200 else w.status;
      bytes = w.bytes;
      outcome = outcome;
      panicked = end;
    }

-- `wrap`: `left` is the outcome that the handler leaves in its state.
unfoldable pub wrap : String → ResponseWriter → List Call → Panic → Bool → String → Observation
wrap id w calls end canceled left =
    observation_of canceled left (handle (new_writer id w) calls end)

-- What net/http sends when a handler has returned: an implicit 200.
abbrev pub end_response : ResponseWriter → Panic → ResponseWriter
end_response w returned = send_header w 200
end_response w abort_handler = w
end_response w other_panic = w

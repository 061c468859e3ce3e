-- ===== src/Gateway/Observed/Tests.antt =====
-- Runs of gateway/observability.go on small handlers, and its theorems at them.
use vire.Base.{ℕ, ◌<◌, ◌≡◌, refl, true, false, none, some, List, [], ◌∷◌}
use vire.Gateway.Observed.{
  Head, ResponseWriter, Call, set_request_ids, with_status, with_bytes, flushed, returned,
  abort_handler, handle, new_writer, wrap, end_response, write_header, ensure_status,
}
use vire.Gateway.Observed.Stamped.{IsStamped, handle-IsStamped}
use vire.Gateway.Observed.Outcome.{differ, wrap-completed}

abbrev plain : ResponseWriter
plain = record { request_ids = []; interim = []; sent = none }

-- A backend's own id, early hints, then a response of three bytes and a status that comes too late.
abbrev calls : List Call
calls =
    set_request_ids ("theirs" ∷ [])
    ∷ with_status 103
    ∷ with_status 201
    ∷ with_bytes 3 3 false
    ∷ flushed false
    ∷ with_status 500
    ∷ []

abbrev head : ℕ → Head
head status = record { status = status; request_ids = "ours" ∷ [] }

seen :
    ((handle (new_writer "ours" plain) calls returned).0.response_writer.interim ≡ head 103 ∷ [])
    × ((handle (new_writer "ours" plain) calls returned).0.response_writer.sent ≡ some (head 201))
    × ((handle (new_writer "ours" plain) calls returned).0.status ≡ 201)
    × ((handle (new_writer "ours" plain) calls returned).0.bytes ≡ 3)
unfolding handle write_header ensure_status
seen = (refl, refl, refl, refl)

outcomes :
    ((wrap "ours" plain calls returned false "").outcome ≡ "completed")
    × ((wrap "ours" plain calls returned true "").outcome ≡ "canceled")
    × ((wrap "ours" plain calls abort_handler false "").outcome ≡ "stream_aborted")
    × ((wrap "ours" plain (with_status 99 ∷ calls) returned false "").outcome ≡ "panic")
    × ((wrap "ours" plain (with_bytes 3 2 false ∷ []) returned false "").outcome ≡ "write_error")
    × ((wrap "ours" plain (with_status 404 ∷ []) returned false "").outcome ≡ "http_error")
    × ((wrap "ours" plain (with_status 504 ∷ []) returned false "upstream_timeout").outcome
        ≡ "upstream_timeout")
    × ((wrap "ours" plain [] returned false "").status ≡ 200)
unfolding wrap handle write_header ensure_status
outcomes = (refl, refl, refl, refl, refl, refl, refl, refl)

is_completed : (wrap "ours" plain calls returned false "").outcome ≡ "completed"
is_completed = outcomes.0

handle-IsStamped_example : IsStamped "ours" (handle (new_writer "ours" plain) calls returned).0
handle-IsStamped_example = handle-IsStamped "ours" plain calls returned refl refl

wrap-completed_example :
    ((h : Head) × ((end_response
          (handle (new_writer "ours" plain) calls returned).0.response_writer
          (handle (new_writer "ours" plain) calls returned).1).sent
        ≡ some h)
      × (h.status ≡ (wrap "ours" plain calls returned false "").status))
    × (false ≡ false)
    × ((wrap "ours" plain calls returned false "").panicked ≡ returned)
    × ((handle (new_writer "ours" plain) calls returned).0.write_failed ≡ false)
    × ((wrap "ours" plain calls returned false "").status < 400)
wrap-completed_example =
    wrap-completed "ours" plain calls returned false "" refl refl (differ "" "completed" refl)
      is_completed

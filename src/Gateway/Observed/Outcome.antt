-- ===== src/Gateway/Observed/Outcome.antt =====
-- What `wrap` (gateway/observability.go) records, against what the client is sent.
use vire.Base.{
  ℕ, ◌<◌, ◌≡◌, ◌≢◌, refl, sym, ap, inl, inr, Bool, true, false, ◌&&◌, Option, none, some, List, [],
  leb, nat_eq, if◌then◌else◌, String, ◌==◌, arith, Bool-cases, eq_iff,
}
use vire.Gateway.Observed.{
  Head, ResponseWriter, ObservedWriter, send_head, Call, Panic, returned, abort_handler,
  other_panic, handle, new_writer, settle, outcome_of, observation_of, wrap, end_response,
}
use vire.Gateway.Observed.Stamped.{Sent, handle-IsStamped}

pub differ : (s t : String) → (s == t) ≡ false → s ≢ t
differ s t h = ground (arith, eq_iff s t)

canceled_or :
    (canceled : Bool) (other : String)
    → other ≢ "completed"
    → (if canceled then "canceled" else other) ≢ "completed"
canceled_or true other h = differ "canceled" "completed" refl
canceled_or false other h = h

settle-completed :
    (left : String) (status : ℕ)
    → left ≢ "completed"
    → settle left status ≡ "completed"
    → status < 400
settle-completed left status h e = elim (Bool-cases (left == "")) [
  | inl blank ↦ elim (Bool-cases (leb 400 status)) [
    | inl high ↦ absurd (differ "http_error" "completed" refl (rw (blank, high) at e))
    | inr low ↦ ground arith
  ]
  | inr kept ↦ absurd (h (rw kept at e))
]

outcome_of-completed :
    (canceled : Bool) (end : Panic) (failed : Bool) (left : String) (status : ℕ)
    → left ≢ "completed"
    → outcome_of canceled end failed left status ≡ "completed"
    → (canceled ≡ false) × (end ≡ returned) × (failed ≡ false) × (status < 400)
outcome_of-completed canceled abort_handler failed left status h e =
    absurd (canceled_or canceled "stream_aborted" (differ "stream_aborted" "completed" refl) e)
outcome_of-completed canceled other_panic failed left status h e =
    absurd (canceled_or canceled "panic" (differ "panic" "completed" refl) e)
outcome_of-completed true returned failed left status h e =
    absurd (differ "canceled" "completed" refl e)
outcome_of-completed false returned true left status h e =
    absurd (differ "write_error" "completed" refl e)
outcome_of-completed false returned false left status h e =
    (refl, refl, refl, settle-completed left status h e)

abbrev IsHead : Option Head → ℕ → Type 0
IsHead o n = (head : Head) × (o ≡ some head) × (head.status ≡ n)

ended-Sent :
    (id : String) (r : ResponseWriter) (n : ℕ) (o : Option Head)
    → r.sent ≡ o
    → Sent id n o
    → IsHead (send_head r 200 o).sent (if nat_eq n 0 && true then 200 else n)
ended-Sent id r n none at p = rw p (_, refl, refl)
ended-Sent id r n (some head) at (same, low, ids) =
    let other : nat_eq n 0 ≡ false = ground arith in rw other (head, at, sym same)

-- A completed observation of a writer against the response that net/http ends.
abbrev Agrees : Bool → String → ObservedWriter → Panic → Type 0
Agrees canceled left v last =
    ((head : Head) × ((end_response v.response_writer last).sent ≡ some head)
      × (head.status ≡ (observation_of canceled left (v, last)).status))
    × (canceled ≡ false)
    × (last ≡ returned)
    × (v.write_failed ≡ false)
    × ((observation_of canceled left (v, last)).status < 400)

reported_low : (n : ℕ) (b : Bool) → n < 400 → (if nat_eq n 0 && b then 200 else n) < 400
reported_low n b low = ground arith

observed-Agrees :
    (id : String) (canceled : Bool) (left : String) (v : ObservedWriter) (last : Panic)
    → Sent id v.status v.response_writer.sent
    → left ≢ "completed"
    → (observation_of canceled left (v, last)).outcome ≡ "completed"
    → Agrees canceled left v last
observed-Agrees id canceled left v last p h e =
    let (alive, quiet, wrote, low) =
      outcome_of-completed canceled last v.write_failed left v.status h e in
    let done : (outcome_of canceled last v.write_failed left v.status == "completed") ≡ true =
      ap (λ (o : String). o == "completed") e in
    (
      rw (done, quiet) (ended-Sent id v.response_writer v.status v.response_writer.sent refl p),
      alive,
      quiet,
      wrote,
      reported_low v.status (outcome_of canceled last v.write_failed left v.status == "completed")
          low,
    )

-- If a handler leaves no outcome that is completed, a request that is recorded as completed was not
-- canceled, its handler returned, no write failed, and the status that is recorded is below 400 and
-- is the one that net/http has sent at the end, the implicit 200 included.
pub wrap-completed :
    (id : String) (w : ResponseWriter) (calls : List Call) (end : Panic) (canceled : Bool)
    (left : String)
    → w.interim ≡ []
    → w.sent ≡ none
    → left ≢ "completed"
    → (wrap id w calls end canceled left).outcome ≡ "completed"
    → ((head : Head) × ((end_response
            (handle (new_writer id w) calls end).0.response_writer
            (handle (new_writer id w) calls end).1).sent
          ≡ some head)
        × (head.status ≡ (wrap id w calls end canceled left).status))
      × (canceled ≡ false)
      × ((wrap id w calls end canceled left).panicked ≡ returned)
      × ((handle (new_writer id w) calls end).0.write_failed ≡ false)
      × ((wrap id w calls end canceled left).status < 400)
unfolding wrap
wrap-completed id w calls end canceled left empty unsent h e =
    let (v, last) = handle (new_writer id w) calls end in
    observed-Agrees id canceled left v last (handle-IsStamped id w calls end empty unsent).1 h e

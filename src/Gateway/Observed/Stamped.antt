-- ===== src/Gateway/Observed/Stamped.antt =====
-- The request id on the responses that pass through `observedWriter` (gateway/observability.go).
use vire.Base.{
  ℕ, ◌≤◌, ◌≡◌, refl, ap, inl, inr, true, false, ◌&&◌, ◌||◌, Option, none, some, List, [], ◌∷◌, leb,
  nat_eq, if◌then◌else◌, String, arith, Bool-cases,
}
use vire.Gateway.Observed.{
  Head, ResponseWriter, ObservedWriter, is_interim, is_bad_code, send_head, stamp, write_header,
  ensure_status, Call, set_request_ids, with_status, with_bytes, flushed, Panic, call, panics,
  handle, new_writer,
}

-- The head that is sent has the status that is noted, 0 for none, and the request id.
abbrev pub Sent : String → ℕ → Option Head → Type 0
Sent id n none = n ≡ 0
Sent id n (some head) = (n ≡ head.status) × (100 ≤ n) × (head.request_ids ≡ id ∷ [])

abbrev pub Stamps : String → List Head → Type 0
Stamps id [] = Unit {0}
Stamps id (head ∷ heads) = (head.request_ids ≡ id ∷ []) × Stamps id heads

-- Each head that was sent has the request id and no other, and the status is that of the response.
abbrev pub IsStamped : String → ObservedWriter → Type 0
IsStamped id w =
    (w.request_id ≡ id)
    × Sent id w.status w.response_writer.sent
    × Stamps id w.response_writer.interim

abbrev sent_status : ObservedWriter → ℕ → Option Head → ObservedWriter
sent_status w s o = record w {
  response_writer = send_head (stamp w) s o;
  status = if leb 200 s || nat_eq s 101 then s else w.status;
}

sent_status-IsStamped :
    (id : String) (w : ObservedWriter) (s : ℕ) (o : Option Head)
    → w.request_id ≡ id
    → Sent id w.status o
    → Stamps id w.response_writer.interim
    → w.response_writer.sent ≡ o
    → nat_eq w.status 0 ≡ true
    → is_bad_code s ≡ false
    → IsStamped id (sent_status w s o)
sent_status-IsStamped id w s (some head) i (same, low, ids) ps at zero good = absurd (ground arith)
sent_status-IsStamped id w s none i p ps at zero good = elim (Bool-cases (is_interim s)) [
  | inl yes_it ↦
      let st : (leb 200 s || nat_eq s 101) ≡ false = ground arith in
      rw (yes_it, st, at) (i, p, (ap (λ x. x ∷ []) i, ps))
  | inr no_it ↦
      let st : (leb 200 s || nat_eq s 101) ≡ true = ground arith in
      rw (no_it, st) (i, (refl, ground arith, ap (λ x. x ∷ []) i), ps)
]

write_header-IsStamped :
    (id : String) (w : ObservedWriter) (s : ℕ)
    → nat_eq w.status 0 && is_bad_code s ≡ false
    → IsStamped id w
    → IsStamped id (write_header w s)
unfolding write_header
write_header-IsStamped id w s good (i, p, ps) = elim (Bool-cases (nat_eq w.status 0)) [
  | inl zero ↦
      rw zero
        (sent_status-IsStamped id w s w.response_writer.sent i p ps refl zero (rw zero at good))
  | inr other ↦ rw other (i, p, ps)
]

send_head_again :
    (id : String) (r : ResponseWriter) (n : ℕ) (o : Option Head)
    → Sent id n o
    → nat_eq n 0 ≡ false
    → send_head r 200 o ≡ r
send_head_again id r n none p other = absurd (ground arith)
send_head_again id r n (some head) p other = refl

ensure_status-IsStamped :
    (id : String) (w : ObservedWriter) → IsStamped id w → IsStamped id (ensure_status w)
unfolding ensure_status
ensure_status-IsStamped id w (i, p, ps) = elim (Bool-cases (nat_eq w.status 0)) [
  | inl zero ↦ rw zero (sent_status-IsStamped id w 200 w.response_writer.sent i p ps refl zero refl)
  | inr other ↦
      rw (other, send_head_again id w.response_writer w.status w.response_writer.sent p other)
        (i, p, ps)
]

call-IsStamped :
    (id : String) (w : ObservedWriter) (c : Call)
    → panics w c ≡ false
    → IsStamped id w
    → IsStamped id (call w c)
call-IsStamped id w (set_request_ids ids) quiet p = p
call-IsStamped id w (with_status status) quiet p = write_header-IsStamped id w status quiet p
call-IsStamped id w (with_bytes len n failed) quiet p = ensure_status-IsStamped id w p
call-IsStamped id w (flushed failed) quiet p = ensure_status-IsStamped id w p

handle-keeps :
    (id : String) (w : ObservedWriter) (calls : List Call) (end : Panic)
    → IsStamped id w
    → IsStamped id (handle w calls end).0
unfolding handle
handle-keeps id w [] end p = p
handle-keeps id w (c ∷ calls) end p = elim (Bool-cases (panics w c)) [
  | inl yes_it ↦ rw yes_it p
  | inr no_it ↦ rw no_it (handle-keeps id (call w c) calls end (call-IsStamped id w c no_it p))
]

-- Whatever a handler does with the writer and with X-Request-ID, and however it ends, each head
-- that was sent, interim ones included, has the request id of the gateway and no other, and the
-- status that is noted is that of the response, or 0 if none was sent.
pub handle-IsStamped :
    (id : String) (w : ResponseWriter) (calls : List Call) (end : Panic)
    → w.interim ≡ []
    → w.sent ≡ none
    → IsStamped id (handle (new_writer id w) calls end).0
handle-IsStamped id w calls end empty unsent =
    handle-keeps id (new_writer id w) calls end (refl, rw unsent refl, rw empty tt)

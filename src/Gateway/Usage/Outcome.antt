-- ===== src/Gateway/Usage/Outcome.antt =====
-- What `result` (gateway/usage_capture.go) returns for a response that was read through the capture.
use vire.Base.{
  ℕ, ◌≤◌, ◌<◌, ◌≡◌, ◌≢◌, refl, sym, ap, ◌∙◌, ◌⊎◌, inl, inr, Bool, true, false, ◌||◌, not, Option,
  none, some, List, [], arith, ltb, leb, nat_eq, if◌then◌else◌, length, ℤ, String, eq_iff,
  Bool-cases,
}
use vire.Gateway.Capture.{Limits, UsageCapture, new_capture, modify_response, read_all}
use vire.Gateway.Capture.Body.{HasRead, modify_response-HasRead, eof-HasRead, observe_all-HasRead}
use vire.Gateway.Capture.Ring.{HasSeen, modify_response-HasSeen, eof-HasSeen, observe_all-HasSeen}
use vire.Gateway.Capture.Reads.{
  chunks, whole, reached_eof, concat-chunks, read_all-eq-observe_all, status-observe_all,
}
use vire.Gateway.Usage.{
  TokenUsage, Unmarshal, counts, valid_usage, usage_in, stream_usage, usage_of, report, result,
  body_usage,
}
use vire.Gateway.Usage.Tail.{stream_usage_sound, stream_usage_exact}

abbrev pub Finish : Type 0
Finish = ℕ × String × Option ℤ × Option ℤ

abbrev Finish-eq : Finish → Finish → Type 0
Finish-eq f g = f ≡ g

-- An outcome with its token counts, as the account store accepts it.
abbrev pub IsRecordable : Finish → Type 0
IsRecordable f =
    ((f.1 ≡ "complete") × (counts f.2 ≡ true) × (counts f.3 ≡ true))
    ⊎ (((f.1 ≡ "incomplete") ⊎ (f.1 ≡ "failed")) × (f.2 ≡ none) × (f.3 ≡ none))

abbrev IsKept : ℕ → Finish → Type 0
IsKept status f = IsRecordable f × (f.0 ≡ status)

if-IsKept :
    {s : ℕ} (b : Bool) (x y : Finish) → IsKept s x → IsKept s y → IsKept s (if b then x else y)
if-IsKept true x y hx hy = hx
if-IsKept false x y hx hy = hy

without : (s : ℕ) → IsKept s (s, "incomplete", none, none)
without s = (inr (inl refl, refl, refl), refl)

report-IsKept : (s : ℕ) (u : Option TokenUsage) → IsKept s (report s u)
report-IsKept s none = without s
report-IsKept s (some u) = elim (Bool-cases (valid_usage (some u))) [
  | inl valid ↦ rw valid (inl (refl, ground arith, ground arith), refl)
  | inr invalid ↦ rw invalid (without s)
]

-- Whatever was captured, result is complete with two nonnegative counts, or it is incomplete or
-- failed and has no counts; and it keeps the status.
pub result-IsRecordable :
    (unmarshal : Unmarshal) (l : Limits) (c : UsageCapture) (interrupted : Bool)
    → IsRecordable (result unmarshal l c interrupted)
      × ((result unmarshal l c interrupted).0 ≡ c.status)
unfolding result
result-IsRecordable unmarshal l c interrupted =
    if-IsKept (interrupted || nat_eq c.status 0) _ _ (without c.status) (
      if-IsKept (ltb c.status 200 || leb 300 c.status) _ _ (inr (inr refl, refl, refl), refl)
        (if-IsKept (not c.eof || c.overflow) _ _ (without c.status)
          (report-IsKept c.status (usage_of unmarshal l c))))

incomplete≢complete : ◌≢◌ {A = String} "incomplete" "complete"
incomplete≢complete = ground (arith, eq_iff "incomplete" "complete")

failed≢complete : ◌≢◌ {A = String} "failed" "complete"
failed≢complete = ground (arith, eq_iff "failed" "complete")

-- Both branches of a test, one of which is ruled out by its outcome.
if_ruled_out :
    (b : Bool) (x y z : Finish) → (if b then x else y) ≡ z → x.1 ≢ z.1 → (b ≡ false) × (y ≡ z)
if_ruled_out true x y z h ne = absurd (ne (ap (λ (f : Finish). f.1) h))
if_ruled_out false x y z h ne = (refl, h)

report_complete :
    (s s' : ℕ) (o : Option TokenUsage) (p q : Option ℤ)
    → report s o ≡ (s', "complete", p, q)
    → o ≡ some (record { prompt_tokens = p; completion_tokens = q })
report_complete s s' none p q h = absurd (incomplete≢complete (ap (λ (f : Finish). f.1) h))
report_complete s s' (some u) p q h = elim (Bool-cases (valid_usage (some u))) [
  | inl valid ↦
      let e : Finish-eq (s, "complete", u.prompt_tokens, u.completion_tokens)
          (s', "complete", p, q) =
        rw valid at h in
      cc (ap (λ (f : Finish). f.2) e, ap (λ (f : Finish). f.3) e)
  | inr invalid ↦
      let e : Finish-eq (s, "incomplete", none, none) (s', "complete", p, q) = rw invalid at h in
      absurd (incomplete≢complete (ap (λ (f : Finish). f.1) e))
]

-- What a complete result tells of the capture.
result_complete :
    (unmarshal : Unmarshal) (l : Limits) (c : UsageCapture) (interrupted : Bool) (s : ℕ)
    (p q : Option ℤ)
    → result unmarshal l c interrupted ≡ (s, "complete", p, q)
    → (usage_of unmarshal l c ≡ some (record { prompt_tokens = p; completion_tokens = q }))
      × (interrupted ≡ false)
      × ((c.eof ≡ true) × (c.overflow ≡ false))
      × ((200 ≤ c.status) × (c.status < 300))
unfolding result
result_complete unmarshal l c interrupted s p q e =
    let (a, e1) = if_ruled_out (interrupted || nat_eq c.status 0) _ _ _ e incomplete≢complete in
    let (b, e2) = if_ruled_out (ltb c.status 200 || leb 300 c.status) _ _ _ e1 failed≢complete in
    let (d, e3) = if_ruled_out (not c.eof || c.overflow) _ _ _ e2 incomplete≢complete in
    (
      report_complete c.status s (usage_of unmarshal l c) p q e3,
      ground arith,
      (ground arith, ground arith),
      (ground arith, ground arith),
    )

-- The capture of a backend's response whose body was read as `rs`: `asked` tells whether the
-- request wanted a stream.
abbrev pub captured : Limits → Bool → ℕ → Bool → List (List ℕ × Bool) → UsageCapture
captured l asked status event_stream rs =
    read_all l (modify_response (new_capture asked) status event_stream) rs

module _ (unmarshal : Unmarshal) (l : Limits) (asked : Bool) (status : ℕ) (event_stream : Bool)
    (rs : List (List ℕ × Bool)) where
  abbrev start : UsageCapture
  start = modify_response (new_capture asked) status event_stream

  captured-HasSeen :
      0 < l.max_tail
      → asked || event_stream ≡ true
      → HasSeen l (captured l asked status event_stream rs) (whole rs)
  captured-HasSeen h streams =
      rw (read_all-eq-observe_all l rs start, ← concat-chunks rs)
        (eof-HasSeen l _ _ (false || reached_eof rs) (
          observe_all-HasSeen l (chunks rs) start []
            (modify_response-HasSeen l asked status event_stream h streams)))

  captured-HasRead :
      asked || event_stream ≡ false → HasRead l (captured l asked status event_stream rs) (whole rs)
  captured-HasRead plain =
      rw (read_all-eq-observe_all l rs start, ← concat-chunks rs)
        (eof-HasRead l _ _ (false || reached_eof rs) (
          observe_all-HasRead l (chunks rs) start []
            (modify_response-HasRead l asked status event_stream plain)))

  captured-status : (captured l asked status event_stream rs).status ≡ status
  captured-status = rw (read_all-eq-observe_all l rs start) (status-observe_all l (chunks rs) start)

  captured-eof : (captured l asked status event_stream rs).eof ≡ reached_eof rs
  captured-eof = rw (read_all-eq-observe_all l rs start)

  usage_of-stream :
      0 < l.max_tail
      → asked || event_stream ≡ true
      → usage_of unmarshal l (captured l asked status event_stream rs)
        ≡ stream_usage unmarshal l (captured l asked status event_stream rs)
  unfolding usage_of
  usage_of-stream h streams =
      let c = captured l asked status event_stream rs in
      ap (λ b. if b then stream_usage unmarshal l c else body_usage unmarshal c)
        (captured-HasSeen h streams).streams

  -- A captured stream that is recorded as complete was read to its end without interruption under a
  -- status from 200 to 299, and its token counts are those that the whole stream reports, although
  -- only its tail was kept.
  pub result_stream_sound :
      (interrupted : Bool) (p q : Option ℤ)
      → 0 < l.max_tail
      → asked || event_stream ≡ true
      → result unmarshal l (captured l asked status event_stream rs) interrupted
        ≡ (status, "complete", p, q)
      → (usage_in unmarshal (whole rs) false
          ≡ some (record { prompt_tokens = p; completion_tokens = q }))
        × (interrupted ≡ false)
        × (reached_eof rs ≡ true)
        × (200 ≤ status)
        × (status < 300)
  result_stream_sound interrupted p q h streams e =
      let c = captured l asked status event_stream rs in
      let (whole_body, quiet, at_end, ok) = result_complete unmarshal l c interrupted _ _ _ e in
      (
        stream_usage_sound unmarshal l c (whole rs) _ (captured-HasSeen h streams)
            (sym (usage_of-stream h streams) ∙ whole_body),
        quiet,
        sym captured-eof ∙ at_end.0,
        rw captured-status at ok.0,
        rw captured-status at ok.1,
      )

  -- A stream no longer than the tail, with a status from 200 to 299, read to its end without
  -- interruption, is recorded with exactly the usage that the whole stream reports.
  pub result_stream_exact :
      0 < l.max_tail
      → asked || event_stream ≡ true
      → reached_eof rs ≡ true
      → length (whole rs) ≤ l.max_tail
      → 200 ≤ status
      → status < 300
      → result unmarshal l (captured l asked status event_stream rs) false
        ≡ report status (usage_in unmarshal (whole rs) false)
  unfolding result
  result_stream_exact h streams at_end short low high =
      let c = captured l asked status event_stream rs in
      ground (
        arith,
        captured-status,
        captured-eof,
        usage_of-stream h streams,
        (captured-HasSeen h streams).complete,
        stream_usage_exact unmarshal l c (whole rs) (captured-HasSeen h streams) short,
      )

  -- An ordinary response with a status from 200 to 299, read to its end without interruption, is
  -- recorded with the usage of its whole body if the body fits the limit, and as incomplete if it
  -- does not.
  pub result_body :
      asked || event_stream ≡ false
      → reached_eof rs ≡ true
      → 200 ≤ status
      → status < 300
      → result unmarshal l (captured l asked status event_stream rs) false ≡ (
          if ltb l.max_json (length (whole rs))
          then (status, "incomplete", none, none)
          else report status (elim (unmarshal (whole rs)) [ none ↦ none | some usage ↦ usage ]))
  unfolding result usage_of
  result_body plain at_end low high =
      let read = captured-HasRead plain in
      ground (arith, captured-status, captured-eof, read.plain, read.kept, read.over)

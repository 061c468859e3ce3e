-- ===== src/FakeVllm/Metered.antt =====
-- What gateway/usage_capture.go records of a stream that cmd/fake-vllm/main.go writes.
use vire.Base.{
  ℕ, ◌≤◌, ◌<◌, ◌≡◌, refl, ap, ◌∙◌, inl, inr, Bool, true, false, ◌||◌, none, some, List, [], ◌∷◌,
  ◌++◌, length, if◌then◌else◌, bytes_eq, arith, Bool-cases, pos, String,
}
use vire.Gateway.Capture.{Limits}
use vire.Gateway.Capture.Reads.{whole, reached_eof}
use vire.Gateway.Usage.{Unmarshal, usage_in, done_mark, report, result}
use vire.Gateway.Usage.Events.{reported, ends_done}
use vire.Gateway.Usage.Tail.{usage_in-reported}
use vire.Gateway.Usage.Outcome.{captured, result_stream_exact}
use vire.FakeVllm.{Chunk, parts, last_chunk, tokens, payloads_of, stream_body}
use vire.FakeVllm.Payload.{IsPayload}
use vire.FakeVllm.Lines.{text_of, AllPayloads, events-text_of, has_suffix-text_of}
use vire.FakeVllm.Sent.{
  sent, all_ok, write_events-text_of, sent-AllPayloads, ends_done-sent, sent_all, last_usage-chunks,
}

-- The scan of a text of events reports what the events report.
usage_in-text_of :
    (unmarshal : Unmarshal) (es : List (List ℕ))
    → AllPayloads es
    → usage_in unmarshal (text_of es) false ≡ reported unmarshal es
unfolding text_of usage_in reported ends_done
usage_in-text_of unmarshal [] p = refl
usage_in-text_of unmarshal (d ∷ es) p =
    usage_in-reported unmarshal (text_of (d ∷ es))
    ∙ rw (has_suffix-text_of d es) (ap (reported unmarshal) (events-text_of (d ∷ es) p))

done_mark-IsPayload : IsPayload done_mark
done_mark-IsPayload = record {
  first = 91;
  middle = 68 ∷ 79 ∷ 78 ∷ 69 ∷ [];
  last = 93;
  shape = refl;
  first_low = ground arith;
  first_high = ground arith;
  last_low = ground arith;
  last_high = ground arith;
  one_line = refl;
}

-- What the encoder and the decoder of the chunks agree on: a chunk is one line of text, it is not
-- the end mark, and the counts of the last one are read back.
pub record IsCodec (marshal : Chunk → List ℕ) (unmarshal : Unmarshal) : Type 0 where
  pub payload : (c : Chunk) → IsPayload (marshal c)
  pub other : (c : Chunk) → bytes_eq (marshal c) done_mark ≡ false
  pub decodes : (c : Chunk) → c.usage ≡ some tokens → unmarshal (marshal c) ≡ some c.usage

module _ (marshal : Chunk → List ℕ) (unmarshal : Unmarshal)
    (codec : IsCodec marshal unmarshal) where
  payloads_of-AllPayloads : (cs : List Chunk) → AllPayloads (payloads_of marshal cs)
  payloads_of-AllPayloads [] = (done_mark-IsPayload, tt)
  payloads_of-AllPayloads (c ∷ cs) = (codec.payload c, payloads_of-AllPayloads cs)

  reported-sent :
      (model : String) (ok : ℕ → Bool)
      → reported unmarshal (sent ok 0 (payloads_of marshal (parts model ++ last_chunk model ∷ [])))
        ≡ (if all_ok ok 0 8 then some tokens else none)
  unfolding reported
  reported-sent model ok =
      let cs = parts model ++ last_chunk model ∷ [] in
      let ds = payloads_of marshal cs in
      let ends = ends_done-sent marshal codec.other ok 0 cs in
      elim (Bool-cases (all_ok ok 0 8)) [
        | inl every ↦
            rw (ends, every, sent_all marshal codec.other ok 0 ds every)
              (last_usage-chunks marshal codec.other unmarshal (parts model) (last_chunk model)
                tokens (codec.decodes (last_chunk model) refl) refl)
        | inr cut ↦ rw (ends, cut)
      ]

  usage_in-stream_body :
      (model : String) (ok : ℕ → Bool)
      → usage_in unmarshal (stream_body marshal model ok) false
        ≡ (if all_ok ok 0 8 then some tokens else none)
  unfolding stream_body
  usage_in-stream_body model ok =
      let ds = payloads_of marshal (parts model ++ last_chunk model ∷ []) in
      ap (λ t. usage_in unmarshal t false) (write_events-text_of ok 0 ds)
      ∙ usage_in-text_of unmarshal (sent ok 0 ds) (
          sent-AllPayloads ok 0 ds (payloads_of-AllPayloads (parts model ++ last_chunk model ∷ [])))
      ∙ reported-sent model ok

or-true : (b : Bool) → b || true ≡ true
or-true true = refl
or-true false = refl

report_if :
    (b : Bool)
    → report 200 (if b then some tokens else none) ≡ (
        if b
        then (200, "complete", some (pos 0), some (pos 5))
        else (200, "incomplete", none, none))
report_if true = refl
report_if false = refl

-- If the encoder writes a chunk as one line that is not the end mark and the decoder of the capture
-- reads the counts of the last chunk back, then a stream of the fake backend that was read to its
-- end under the status 200 and is no longer than the tail is recorded as complete with 0 and 5
-- tokens if all its 8 events were written, and as incomplete without counts if not.
pub result-stream_body :
    (marshal : Chunk → List ℕ) (unmarshal : Unmarshal) (model : String) (ok : ℕ → Bool) (l : Limits)
    (asked : Bool) (rs : List (List ℕ × Bool))
    → IsCodec marshal unmarshal
    → 0 < l.max_tail
    → reached_eof rs ≡ true
    → whole rs ≡ stream_body marshal model ok
    → length (whole rs) ≤ l.max_tail
    → result unmarshal l (captured l asked 200 true rs) false ≡ (
        if all_ok ok 0 8
        then (200, "complete", some (pos 0), some (pos 5))
        else (200, "incomplete", none, none))
result-stream_body marshal unmarshal model ok l asked rs codec h at_end same short =
    result_stream_exact unmarshal l asked 200 true rs h (or-true asked) at_end short (ground arith)
      (ground arith)
    ∙ ap (report 200) (
        ap (λ t. usage_in unmarshal t false) same
        ∙ usage_in-stream_body marshal unmarshal codec model ok)
    ∙ report_if (all_ok ok 0 8)

-- ===== src/FakeVllm/Tests.antt =====
-- Runs of cmd/fake-vllm/main.go on small requests, and its stream in the gateway.
use vire.Base.{
  ℕ, ◌≡◌, refl, sym, Bool, true, false, Option, none, some, List, [], ◌∷◌, ◌++◌, arith, pos, negsuc,
  codes, bytes_eq, if◌then◌else◌, ltb, trim,
}
use vire.Gateway.Capture.{Limits}
use vire.Gateway.Usage.{TokenUsage, Unmarshal, result, done_mark}
use vire.Gateway.Usage.Outcome.{captured}
use vire.FakeVllm.{
  Config, check_config, positional_arguments, empty_model, negative_delay, bad_error_status,
  too_large, malformed, fields, Chunk, tokens, event, write_events, stream_body, no_reply, healthy,
  health, completed, error_is, streamed, complete,
}
use vire.FakeVllm.Payload.{IsPayload}
use vire.FakeVllm.Sent.{all_ok}
use vire.FakeVllm.Metered.{IsCodec, result-stream_body}

abbrev sample : Config
sample = record {
  model = "m";
  startup_delay = pos 0;
  response_delay = pos 0;
  chunk_delay = pos 1;
  error_status = pos 0;
}

abbrev text : Option TokenUsage → List ℕ
text none = codes "{}"
text (some u) = codes "{u}"

-- An encoder that writes the usage only, and its decoder.
abbrev encode : Chunk → List ℕ
encode c = text c.usage

abbrev decode : Unmarshal
decode bytes = if bytes_eq bytes (codes "{u}") then some (some tokens) else some none

text-IsPayload : (o : Option TokenUsage) → IsPayload (text o)
text-IsPayload none = record {
  first = 123;
  middle = [];
  last = 125;
  shape = refl;
  first_low = ground arith;
  first_high = ground arith;
  last_low = ground arith;
  last_high = ground arith;
  one_line = refl;
}
text-IsPayload (some u) = record {
  first = 123;
  middle = 117 ∷ [];
  last = 125;
  shape = refl;
  first_low = ground arith;
  first_high = ground arith;
  last_low = ground arith;
  last_high = ground arith;
  one_line = refl;
}

text_other : (o : Option TokenUsage) → bytes_eq (text o) done_mark ≡ false
text_other none = refl
text_other (some u) = refl

encode-IsCodec : IsCodec encode decode
encode-IsCodec = record {
  payload = λ c. text-IsPayload c.usage;
  other = λ c. text_other c.usage;
  decodes = λ c e. rw e;
}

abbrev always : ℕ → Bool
always k = true

abbrev limits : Limits
limits = record { max_json = 4; max_tail = 200 }

abbrev sent_bytes : List ℕ
sent_bytes =
    event (codes "{}")
    ++ event (codes "{}")
    ++ event (codes "{}")
    ++ event (codes "{}")
    ++ event (codes "{}")
    ++ event (codes "{}")
    ++ event (codes "{u}")
    ++ event (codes "[DONE]")

stream_body_all : stream_body encode "m" always ≡ sent_bytes
unfolding stream_body write_events
stream_body_all = refl

-- The wait for the third event is cut.
cut : stream_body encode "m" (λ k. ltb k 2) ≡ event (codes "{}") ++ event (codes "{}")
unfolding stream_body write_events
cut = refl

all_ok-always : all_ok always 0 8 ≡ true
unfolding all_ok
all_ok-always = refl

result-stream_body_example :
    result decode limits
      (captured limits true 200 true ((sent_bytes, false) ∷ ([], true) ∷ []))
      false
    ≡ (if all_ok always 0 8
        then (200, "complete", some (pos 0), some (pos 5))
        else (200, "incomplete", none, none))
result-stream_body_example =
    result-stream_body encode decode "m" always limits true ((sent_bytes, false) ∷ ([], true) ∷ [])
      encode-IsCodec (ground arith) refl (sym stream_body_all) (ground arith)

checked :
    (check_config 0 sample ≡ none)
    × (check_config 1 sample ≡ some positional_arguments)
    × (check_config 0 (record sample { model = " " }) ≡ some empty_model)
    × (check_config 0 (record sample { chunk_delay = negsuc 0 }) ≡ some negative_delay)
    × (check_config 0 (record sample { error_status = pos 399 }) ≡ some bad_error_status)
    × (check_config 0 (record sample { error_status = pos 599 }) ≡ none)
unfolding check_config trim
checked = (refl, refl, refl, refl, refl, refl)

served :
    (complete encode sample false true true always too_large ≡ error_is (pos 503))
    × (complete encode sample true true true always too_large ≡ error_is (pos 413))
    × (complete encode sample true true true always malformed ≡ error_is (pos 400))
    × (complete encode sample true false true always (fields (some "m") true "") ≡ no_reply)
    × (complete encode sample true true true always (fields (some "n") true "")
        ≡ error_is (pos 400))
    × (complete encode sample true true true always (fields (some "m") true "null")
        ≡ error_is (pos 400))
    × (complete encode sample true true true always (fields (some "m") true "") ≡ completed)
    × (complete encode sample true true true always (fields (some "m") true "true")
        ≡ streamed sent_bytes)
unfolding complete stream_body write_events
served = (refl, refl, refl, refl, refl, refl, refl, refl)

healthy_when_ready : (health true ≡ healthy) × (health false ≡ error_is (pos 503))
healthy_when_ready = (refl, refl)

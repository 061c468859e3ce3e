-- ===== src/Gateway/Usage/Tests.antt =====
-- Runs of gateway/usage_capture.go on small responses, and its theorems at them.
use vire.Base.{
  ℕ, ◌≡◌, refl, Bool, true, false, none, some, List, [], ◌∷◌, ◌++◌, arith, if◌then◌else◌, pos,
  negsuc, codes, bytes_eq, split, trim_space, ◌≤◌, ◌<◌,
}
use vire.Gateway.Capture.{
  Limits, new_capture, observe_stream, observe, observe_all, read, read_all, tail,
}
use vire.Gateway.Capture.Ring.{tail-observe_all}
use vire.Gateway.Capture.Reads.{whole}
use vire.Gateway.Usage.{
  Unmarshal, scan_data, scan_line, scan_lines, usage_in, stream_usage, usage_of, report, result,
}
use vire.Gateway.Usage.Events.{events, reported}
use vire.Gateway.Usage.Tail.{usage_in-reported}
use vire.Gateway.Usage.Outcome.{
  IsRecordable, result-IsRecordable, captured, result_stream_sound, result_stream_exact,
  result_body,
}

-- A decoder that knows two documents: a usage of 3 and 5 tokens, and one with a negative count.
abbrev decoder : Unmarshal
decoder text =
    if bytes_eq text (codes "u")
    then some (some (record { prompt_tokens = some (pos 3); completion_tokens = some (pos 5) }))
    else if bytes_eq text (codes "bad")
    then some (some (record { prompt_tokens = some (negsuc 0); completion_tokens = some (pos 5) }))
    else none

abbrev small : Limits
small = record { max_json = 4; max_tail = 30 }

abbrev tiny : Limits
tiny = record { max_json = 4; max_tail = 3 }

-- An event with the usage, then the end mark.
abbrev first : List ℕ
first = codes "data: u" ++ 10 ∷ 10 ∷ []

abbrev second : List ℕ
second = codes "data: [DONE] " ++ 13 ∷ 10 ∷ 13 ∷ 10 ∷ []

abbrev reads : List (List ℕ × Bool)
reads =
    (codes "data: old" ++ 10 ∷ 10 ∷ [], false) ∷ (first, false) ∷ (second, false) ∷ ([], true) ∷ []

streamed :
    result decoder small (captured small true 200 false reads) false
    ≡ (200, "complete", some (pos 3), some (pos 5))
unfolding result usage_of stream_usage usage_in scan_lines scan_line scan_data read_all read observe
    observe_stream tail split trim_space
streamed = refl

-- The ring of three bytes after five of them.
tail-observe_all_example :
    (tail tiny (observe_all tiny (new_capture true) ((1 ∷ 2 ∷ []) ∷ (3 ∷ 4 ∷ []) ∷ (5 ∷ []) ∷ []))
      ≡ 3 ∷ 4 ∷ 5 ∷ [])
    × ((observe_all tiny
          (new_capture true)
          ((1 ∷ 2 ∷ []) ∷ (3 ∷ 4 ∷ []) ∷ (5 ∷ []) ∷ [])).tail_truncated
        ≡ true)
tail-observe_all_example =
    tail-observe_all tiny ((1 ∷ 2 ∷ []) ∷ (3 ∷ 4 ∷ []) ∷ (5 ∷ []) ∷ []) (omega arith)

usage_in-reported_example :
    usage_in decoder (first ++ second) false
    ≡ reported decoder (events (split 10 (first ++ second)))
usage_in-reported_example = usage_in-reported decoder (first ++ second)

result-IsRecordable_example :
    IsRecordable (result decoder small (captured small true 200 false reads) false)
    × ((result decoder small (captured small true 200 false reads) false).0
        ≡ (captured small true 200 false reads).status)
result-IsRecordable_example =
    result-IsRecordable decoder small (captured small true 200 false reads) false

result_stream_sound_example :
    (usage_in decoder (whole reads) false
      ≡ some (record { prompt_tokens = some (pos 3); completion_tokens = some (pos 5) }))
    × (false ≡ false)
    × (true ≡ true)
    × (200 ≤ 200)
    × (200 < 300)
result_stream_sound_example =
    result_stream_sound decoder small true 200 false reads false (some (pos 3)) (some (pos 5))
      (omega arith) refl streamed

abbrev short : List (List ℕ × Bool)
short = (first, false) ∷ (codes "data: [DONE]" ++ 10 ∷ 10 ∷ [], true) ∷ []

result_stream_exact_example :
    result decoder small (captured small false 200 true short) false
    ≡ report 200 (usage_in decoder (whole short) false)
result_stream_exact_example =
    result_stream_exact decoder small false 200 true short (omega arith) refl refl (omega arith)
      (omega arith) (omega arith)

result_body_example :
    result decoder small (captured small false 201 false ((codes "u", true) ∷ [])) false
    ≡ (201, "complete", some (pos 3), some (pos 5))
result_body_example =
    result_body decoder small false 201 false ((codes "u", true) ∷ []) refl refl (omega arith)
      (omega arith)

-- A usage with a negative count is ignored.
ignores_negative : usage_in decoder (codes "data: bad" ++ 10 ∷ 10 ∷ second) false ≡ none
unfolding usage_in scan_lines scan_line scan_data split trim_space
ignores_negative = refl

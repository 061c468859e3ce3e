-- ===== src/Gateway/Usage.antt =====
-- gateway/usage_capture.go: the token usage that a captured response reports, and the outcome of a
-- request. `json.Unmarshal` into a struct with the one field `usage` is an argument: `none` is its
-- error, `some none` an absent or null usage.
pub mod Events
pub mod Tail
pub mod Outcome
mod Tests
use vire.Base.{
  ℕ, suc, ◌≡◌, Bool, true, false, ◌&&◌, ◌||◌, not, Option, none, some, List, [], ◌∷◌, ltb, leb,
  if◌then◌else◌, length, drop, ℤ, is_nonneg, String, codes, bytes_eq, has_prefix, has_suffix,
  trim_suffix, split, trim_space, nat_eq,
}
use vire.Gateway.Capture.{Limits, UsageCapture, bytes, tail}

pub record TokenUsage : Type 0 where
  pub prompt_tokens : Option ℤ
  pub completion_tokens : Option ℤ

abbrev pub Unmarshal : Type 0
Unmarshal = List ℕ → Option (Option TokenUsage)

-- A pointer that is not nil, to a number that is not negative.
abbrev pub counts : Option ℤ → Bool
counts none = false
counts (some n) = is_nonneg n

-- `validUsage`
abbrev pub valid_usage : Option TokenUsage → Bool
valid_usage none = false
valid_usage (some u) = counts u.prompt_tokens && counts u.completion_tokens

-- the end mark, `data:`, and the two ends of an event.
abbrev pub done_mark : List ℕ
done_mark = codes "[DONE]"

abbrev pub data_field : List ℕ
data_field = codes "data:"

abbrev pub lf_end : List ℕ
lf_end = 10 ∷ 10 ∷ []

abbrev pub crlf_end : List ℕ
crlf_end = 13 ∷ 10 ∷ 13 ∷ 10 ∷ []

-- The variables of the loop of `streamUsage`.
pub record Scan : Type 0 where
  pub usage : Option TokenUsage
  pub done : Bool

-- All lines but the last, and the last one.
abbrev pub init : List (List ℕ) → List (List ℕ)
init [] = []
init (line ∷ []) = []
init (line ∷ next ∷ lines) = line ∷ init (next ∷ lines)

abbrev pub last_line : List (List ℕ) → List ℕ
last_line [] = []
last_line (line ∷ []) = line
last_line (line ∷ next ∷ lines) = last_line (next ∷ lines)

-- `json.Unmarshal(data, &event) == nil && validUsage(event.Usage)`, with the new value of `usage`.
abbrev pub accept : Option (Option TokenUsage) → Option TokenUsage → Option TokenUsage
accept none usage = usage
accept (some event) usage = if valid_usage event then event else usage

-- The end of `result`: `!validUsage(usage)` guards the two dereferences.
abbrev pub report : ℕ → Option TokenUsage → ℕ × String × Option ℤ × Option ℤ
report status none = (status, "incomplete", none, none)
report status (some u) =
    if valid_usage (some u)
    then (status, "complete", u.prompt_tokens, u.completion_tokens)
    else (status, "incomplete", none, none)

module _ (unmarshal : Unmarshal) where
  -- The loop's body on the data of an event.
  unfoldable pub scan_data : Scan → List ℕ → Scan
  scan_data s payload =
      if bytes_eq payload done_mark
      then record s { done = valid_usage s.usage }
      else record { usage = accept (unmarshal payload) s.usage; done = false }

  -- The loop's body on a line.
  unfoldable pub scan_line : Scan → List ℕ → Scan
  scan_line s raw =
      let line = trim_suffix raw (13 ∷ []) in
      if has_prefix line data_field
      then scan_data s (trim_space (drop (length data_field) line))
      else s

  unfoldable pub scan_lines : Scan → List (List ℕ) → Scan
  scan_lines s [] = s
  scan_lines s (line ∷ lines) = scan_lines (scan_line s line) lines

  -- `streamUsage` on the bytes of the tail.
  unfoldable pub usage_in : List ℕ → Bool → Option TokenUsage
  usage_in text truncated =
      if not (has_suffix text lf_end) && not (has_suffix text crlf_end)
      then none
      else (let all = split 10 text in
          let lines = if truncated then drop 1 all else all in
          if leb (length lines) 0 || ltb 0 (length (last_line lines))
          then none
          else (let s = scan_lines (record { usage = none; done = false }) (init lines) in
              if s.done then s.usage else none))

  -- `streamUsage()`
  unfoldable pub stream_usage : Limits → UsageCapture → Option TokenUsage
  stream_usage l c = usage_in (tail l c) c.tail_truncated

  -- `json.Unmarshal(capture.body, &response)`
  abbrev pub body_usage : UsageCapture → Option TokenUsage
  body_usage c = elim (unmarshal (bytes c.body)) [ none ↦ none | some usage ↦ usage ]

  -- The usage that `result` looks at.
  unfoldable pub usage_of : Limits → UsageCapture → Option TokenUsage
  usage_of l c = if c.stream then stream_usage l c else body_usage c

  -- `result(interrupted)`: the status, the outcome and the two token counts.
  unfoldable pub result : Limits → UsageCapture → Bool → ℕ × String × Option ℤ × Option ℤ
  result l c interrupted =
      if interrupted || nat_eq c.status 0
      then (c.status, "incomplete", none, none)
      else if ltb c.status 200 || leb 300 c.status
      then (c.status, "failed", none, none)
      else if not c.eof || c.overflow
      then (c.status, "incomplete", none, none)
      else report c.status (usage_of l c)

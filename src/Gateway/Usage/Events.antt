-- ===== src/Gateway/Usage/Events.antt =====
-- What the scan of `streamUsage` (gateway/usage_capture.go) finds, in terms of the events of the
-- stream, and what the bounded tail can lose.
use vire.Base.{
  ℕ, ◌≡◌, refl, ap, ◌∙◌, ◌⊎◌, inl, Bool, true, false, Option, none, some, List, [], ◌∷◌, ◌++◌,
  arith, if◌then◌else◌, length, drop, bytes_eq, has_prefix, trim_suffix, trim_space,
}
use vire.Gateway.Usage.{
  TokenUsage, Unmarshal, valid_usage, accept, done_mark, data_field, Scan, scan_data, scan_line,
  scan_lines, init, last_line,
}

-- The data of a line, if it is a `data:` line.
abbrev pub data_of : List ℕ → Option (List ℕ)
data_of raw =
    if has_prefix (trim_suffix raw (13 ∷ [])) data_field
    then some (trim_space (drop (length data_field) (trim_suffix raw (13 ∷ []))))
    else none

abbrev pub cons? : Option (List ℕ) → List (List ℕ) → List (List ℕ)
cons? none es = es
cons? (some e) es = e ∷ es

-- The data of the `data:` lines, in order.
unfoldable pub events : List (List ℕ) → List (List ℕ)
events [] = []
events (line ∷ lines) = cons? (data_of line) (events lines)

pub events-append : (xs ys : List (List ℕ)) → events (xs ++ ys) ≡ events xs ++ events ys
unfolding events
events-append [] ys = refl
events-append (x ∷ xs) ys = cons?_append (data_of x) (events-append xs ys)
  where
    cons?_append :
        (o : Option (List ℕ))
        → events (xs ++ ys) ≡ events xs ++ events ys
        → cons? o (events (xs ++ ys)) ≡ cons? o (events xs) ++ events ys
    cons?_append none e = e
    cons?_append (some d) e = ap (λ r. d ∷ r) e

-- An empty last line is no event.
pub events-init :
    (lines : List (List ℕ)) → last_line lines ≡ [] → events (init lines) ≡ events lines
unfolding events
events-init [] h = refl
events-init (line ∷ []) h = rw h
events-init (line ∷ next ∷ lines) h = ap (cons? (data_of line)) (events-init (next ∷ lines) h)

-- The last event is the end mark.
unfoldable pub ends_done : List (List ℕ) → Bool
ends_done [] = false
ends_done (e ∷ []) = bytes_eq e done_mark
ends_done (e ∷ e' ∷ es) = ends_done (e' ∷ es)

abbrev pub or_else : Option TokenUsage → Option TokenUsage → Option TokenUsage
or_else none o = o
or_else (some u) o = some u

abbrev pub final : Scan → Option TokenUsage
final s = if s.done then s.usage else none

module _ (unmarshal : Unmarshal) where
  -- The usage that an event carries.
  abbrev pub usage_at : List ℕ → Option TokenUsage
  usage_at e = if bytes_eq e done_mark then none else accept (unmarshal e) none

  -- The last valid usage of the events.
  unfoldable pub last_usage : List (List ℕ) → Option TokenUsage
  last_usage [] = none
  last_usage (e ∷ es) = or_else (last_usage es) (usage_at e)

  -- What a stream with these events reports.
  unfoldable pub reported : List (List ℕ) → Option TokenUsage
  reported es = if ends_done es then last_usage es else none

  scan_events : Scan → List (List ℕ) → Scan
  scan_events s [] = s
  scan_events s (e ∷ es) = scan_events (scan_data unmarshal s e) es

  scan_lines-eq-scan_events :
      (s : Scan) (lines : List (List ℕ))
      → scan_lines unmarshal s lines ≡ scan_events s (events lines)
  unfolding scan_lines scan_events events scan_line
  scan_lines-eq-scan_events s [] = refl
  scan_lines-eq-scan_events s (line ∷ lines) =
      ground (arith, scan_lines-eq-scan_events (scan_line unmarshal s line) lines)

  abbrev IsAccepted : Scan → Type 0
  IsAccepted s = (s.usage ≡ none) ⊎ (valid_usage s.usage ≡ true)

  scan_data-IsAccepted :
      (s : Scan) (e : List ℕ) → IsAccepted s → IsAccepted (scan_data unmarshal s e)
  unfolding scan_data
  scan_data-IsAccepted s e h = ground arith

  abbrev outlook : Scan → List (List ℕ) → Option TokenUsage
  outlook s [] = final s
  outlook s (e ∷ es) = if ends_done (e ∷ es) then or_else (last_usage (e ∷ es)) s.usage else none

  scan_events-outlook :
      (s : Scan) (es : List (List ℕ)) → IsAccepted s → final (scan_events s es) ≡ outlook s es
  unfolding scan_events scan_data ends_done last_usage
  scan_events-outlook s [] h = refl
  scan_events-outlook s (e ∷ []) h = ground arith
  scan_events-outlook s (e ∷ e' ∷ es) h =
      ground (
        arith,
        scan_events-outlook (scan_data unmarshal s e) (e' ∷ es) (scan_data-IsAccepted s e h),
      )

  or_else-none : (o : Option TokenUsage) → or_else o none ≡ o
  or_else-none none = refl
  or_else-none (some u) = refl

  outlook-eq-reported :
      (es : List (List ℕ)) → outlook (record { usage = none; done = false }) es ≡ reported es
  unfolding reported ends_done
  outlook-eq-reported [] = refl
  outlook-eq-reported (e ∷ es) = rw or_else-none

  -- The loop of `streamUsage` finds the last valid usage if the last event is the end mark, and nothing
  -- otherwise.
  pub scan_lines-eq-reported :
      (lines : List (List ℕ))
      → final (scan_lines unmarshal (record { usage = none; done = false }) lines)
        ≡ reported (events lines)
  scan_lines-eq-reported lines = rw scan_lines-eq-scan_events (
      scan_events-outlook (record { usage = none; done = false }) (events lines) (inl refl)
      ∙ outlook-eq-reported (events lines))

  ends_done-append :
      (older es : List (List ℕ)) → ends_done es ≡ true → ends_done (older ++ es) ≡ true
  unfolding ends_done
  ends_done-append [] es h = h
  ends_done-append (a ∷ []) [] h = cc
  ends_done-append (a ∷ []) (e ∷ es) h = h
  ends_done-append (a ∷ b ∷ older) es h = ends_done-append (b ∷ older) es h

  last_usage-append :
      (older es : List (List ℕ)) {u : TokenUsage}
      → last_usage es ≡ some u
      → last_usage (older ++ es) ≡ some u
  unfolding last_usage
  last_usage-append [] es h = h
  last_usage-append (a ∷ older) es h = ground (arith, last_usage-append older es h)

  -- Earlier events do not change what a stream reports.
  pub reported-append :
      (older es : List (List ℕ)) {u : TokenUsage}
      → reported es ≡ some u
      → reported (older ++ es) ≡ some u
  unfolding reported
  reported-append older es {u} h =
      ground (arith, ends_done-append older es, last_usage-append older es {u = u})

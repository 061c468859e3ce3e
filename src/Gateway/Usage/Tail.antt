-- ===== src/Gateway/Usage/Tail.antt =====
-- The 64 KiB tail of a stream against the whole stream: gateway/usage_capture.go.
use mathlib.Core.List.{append_assoc}
use vire.Base.{
  ℕ, ◌≡◌, refl, sym, ap, ◌∙◌, inl, inr, Bool, true, false, ◌&&◌, ◌||◌, not, Option, none, some,
  List, [], ◌∷◌, ◌++◌, arith, if◌then◌else◌, length, take, drop, fun_ext, take_last, split,
  split-append, split_cons, has_suffix-split, le→ltb_false, ◌≤◌, subst, has_suffix,
  has_suffix-append, leb, ltb, take-append-drop, Bool-cases, take_last_all, ◌-◌,
}
use vire.Gateway.Capture.{Limits, UsageCapture}
use vire.Gateway.Capture.Ring.{HasSeen, tail-HasSeen}
use vire.Gateway.Usage.{
  TokenUsage, Unmarshal, init, last_line, usage_in, stream_usage, lf_end, crlf_end,
}
use vire.Gateway.Usage.Events.{
  events, events-append, events-init, reported, reported-append, scan_lines-eq-reported,
}

-- `usage_in` after the split into lines.
module _ (unmarshal : Unmarshal) where
  abbrev from_lines : List (List ℕ) → Option TokenUsage
  from_lines lines =
      if leb (length lines) 0 || ltb 0 (length (last_line lines))
      then none
      else reported unmarshal (events (init lines))

  abbrev from_report : (List (List ℕ) → Option TokenUsage) → List (List ℕ) → Option TokenUsage
  from_report report lines =
      if leb (length lines) 0 || ltb 0 (length (last_line lines)) then none else report (init lines)

  usage_in-lines :
      (text : List ℕ) (truncated : Bool)
      → usage_in unmarshal text truncated ≡ (
          if not (has_suffix text lf_end) && not (has_suffix text crlf_end)
          then none
          else from_lines (if truncated then drop 1 (split 10 text) else split 10 text))
  unfolding usage_in
  usage_in-lines text truncated =
      ap
        (λ (report : List (List ℕ) → Option TokenUsage).
          if not (has_suffix text lf_end) && not (has_suffix text crlf_end)
          then none
          else from_report report (if truncated then drop 1 (split 10 text) else split 10 text))
        (fun_ext (scan_lines-eq-reported unmarshal))

  from_lines-cons :
      (line : List ℕ) (lines : List (List ℕ)) {u : TokenUsage}
      → from_lines lines ≡ some u
      → from_lines (line ∷ lines) ≡ some u
  from_lines-cons line [] h = cc
  from_lines-cons line (next ∷ lines) {u} h = ground (
    arith,
    reported-append unmarshal (events (line ∷ [])) (events (init (next ∷ lines))) {u = u},
    events-append (line ∷ []) (init (next ∷ lines)),
  )

  from_lines-append :
      (pre lines : List (List ℕ)) {u : TokenUsage}
      → from_lines lines ≡ some u
      → from_lines (pre ++ lines) ≡ some u
  from_lines-append [] lines h = h
  from_lines-append (line ∷ pre) lines h =
      from_lines-cons line (pre ++ lines) (from_lines-append pre lines h)

  -- Bytes before a truncated tail do not change the usage that the tail shows.
  usage_in-append :
      (q text : List ℕ) {u : TokenUsage}
      → usage_in unmarshal text true ≡ some u
      → usage_in unmarshal (q ++ text) false ≡ some u
  usage_in-append q text {u} h =
      let (pre, e) = split-append 10 q text in
      let (line, f) = split_cons 10 (q ++ text) in
      let shown = usage_in-lines text true in
      let whole = usage_in-lines (q ++ text) false in
      ground (
        arith,
        shown,
        whole,
        e,
        f,
        has_suffix-append q text lf_end,
        has_suffix-append q text crlf_end,
        from_lines-append (line ∷ pre) (drop 1 (split 10 text)) {u = u},
      )

  usage_in_cut :
      (n : ℕ) (sent : List ℕ) {u : TokenUsage}
      → usage_in unmarshal (take_last n sent) (ltb n (length sent)) ≡ some u
      → usage_in unmarshal sent false ≡ some u
  usage_in_cut n sent {u} h = elim (Bool-cases (ltb n (length sent))) [
    | inl cut ↦
        subst (λ s. usage_in unmarshal s false ≡ some u) (take-append-drop (length sent - n) sent)
          (usage_in-append (take (length sent - n) sent) (take_last n sent) (rw cut at h))
    | inr all ↦
        subst (λ s. usage_in unmarshal s false ≡ some u) (take_last_all n sent (ground arith))
          (rw all at h)
  ]

-- After any reads of a stream, a usage that `streamUsage` reports from the bounded tail is the one
-- that the whole stream reports.
pub stream_usage_sound :
    (unmarshal : Unmarshal) (l : Limits) (c : UsageCapture) (sent : List ℕ) (u : TokenUsage)
    → HasSeen l c sent
    → stream_usage unmarshal l c ≡ some u
    → usage_in unmarshal sent false ≡ some u
unfolding stream_usage
stream_usage_sound unmarshal l c sent u seen e =
    let (last, cut) = tail-HasSeen l c sent seen in
    usage_in_cut unmarshal l.max_tail sent (rw (last, cut) at e)

-- After reads of a stream that is not longer than the tail, `streamUsage` reports exactly what the
-- whole stream reports, nothing included.
pub stream_usage_exact :
    (unmarshal : Unmarshal) (l : Limits) (c : UsageCapture) (sent : List ℕ)
    → HasSeen l c sent
    → length sent ≤ l.max_tail
    → stream_usage unmarshal l c ≡ usage_in unmarshal sent false
unfolding stream_usage
stream_usage_exact unmarshal l c sent seen short =
    let (last, cut) = tail-HasSeen l c sent seen in
    rw (last, cut, take_last_all l.max_tail sent short, le→ltb_false l.max_tail (length sent) short)

last_line-append : (lines : List (List ℕ)) (line : List ℕ) → last_line (lines ++ line ∷ []) ≡ line
last_line-append [] line = refl
last_line-append (l ∷ []) line = refl
last_line-append (l ∷ l' ∷ lines) line = last_line-append (l' ∷ lines) line

-- A text that ends with a line feed has an empty last line.
last_line-split : (front text : List ℕ) → text ≡ front ++ 10 ∷ [] → last_line (split 10 text) ≡ []
unfolding split
last_line-split front text h =
    let (pre, e) = split-append 10 front (10 ∷ []) in
    let (line, f) = split_cons 10 (front ++ 10 ∷ []) in
    rw (h, f, e) (last_line-append (line ∷ pre) [])

ends_with_lf :
    (text : List ℕ)
    → has_suffix text lf_end || has_suffix text crlf_end ≡ true
    → (front : List ℕ) × (text ≡ front ++ 10 ∷ [])
ends_with_lf text h = elim (Bool-cases (has_suffix text lf_end)) [
  | inl lf ↦
      let (front, e) = has_suffix-split text lf_end lf in
      (front ++ 10 ∷ [], e ∙ sym (append_assoc front (10 ∷ []) (10 ∷ [])))
  | inr no_lf ↦
      let (front, e) = has_suffix-split text crlf_end (rw no_lf at h) in
      (front ++ 13 ∷ 10 ∷ 13 ∷ [], e ∙ sym (append_assoc front (13 ∷ 10 ∷ 13 ∷ []) (10 ∷ [])))
]

-- The scan of a whole stream reports the last valid usage of its events if the stream ends with a
-- blank line and its last event is the end mark, and nothing otherwise.
pub usage_in-reported :
    (unmarshal : Unmarshal) (text : List ℕ)
    → usage_in unmarshal text false ≡ (
        if has_suffix text lf_end || has_suffix text crlf_end
        then reported unmarshal (events (split 10 text))
        else none)
usage_in-reported unmarshal text =
    elim (Bool-cases (has_suffix text lf_end || has_suffix text crlf_end)) [
      | inl ends ↦
          let (front, e) = ends_with_lf text ends in
          let (line, f) = split_cons 10 text in
          ground (
            arith,
            ends,
            usage_in-lines unmarshal text false,
            last_line-split front text e,
            f,
            events-init (split 10 text),
          )
      | inr other ↦ ground (arith, other, usage_in-lines unmarshal text false)
    ]

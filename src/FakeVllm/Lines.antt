-- ===== src/FakeVllm/Lines.antt =====
-- The lines of the stream that cmd/fake-vllm/main.go writes.
use vire.Base.{
  ℕ, ◌≡◌, refl, ap, ◌∙◌, true, false, List, [], ◌∷◌, ◌++◌, nat_eq, codes, split, has_suffix,
  has_suffix-append, or-eq-false,
}
use mathlib.Core.List.{append_assoc, append-nil}
use vire.Gateway.Usage.{lf_end}
use vire.Gateway.Usage.Events.{events, cons?}
use vire.FakeVllm.{event}
use vire.FakeVllm.Payload.{IsPayload, has_newline, data_of-payload}

-- The text of the events with the data.
unfoldable pub text_of : List (List ℕ) → List ℕ
text_of [] = []
text_of (d ∷ ds) = event d ++ text_of ds

abbrev pub AllPayloads : List (List ℕ) → Type 0
AllPayloads [] = Unit {0}
AllPayloads (d ∷ ds) = IsPayload d × AllPayloads ds

-- A line ends at the first newline.
split-line : (q s : List ℕ) → has_newline q ≡ false → split 10 (q ++ 10 ∷ s) ≡ q ∷ split 10 s
unfolding split
split-line [] s h = refl
split-line (c ∷ q) s h =
    let (other, rest) = or-eq-false (nat_eq c 10) (has_newline q) h in
    rw (other, split-line q s rest)

split-event :
    (d s : List ℕ)
    → has_newline d ≡ false
    → split 10 (event d ++ s) ≡ (codes "data: " ++ d) ∷ [] ∷ split 10 s
split-event d s h =
    ap (split 10) (append_assoc (codes "data: " ++ d) (10 ∷ 10 ∷ []) s)
    ∙ split-line (codes "data: " ++ d) (10 ∷ s) h
    ∙ ap (λ r. (codes "data: " ++ d) ∷ r) (split-line [] s refl)

-- The scan finds the data that was written.
pub events-text_of : (ds : List (List ℕ)) → AllPayloads ds → events (split 10 (text_of ds)) ≡ ds
unfolding text_of events split
events-text_of [] p = refl
events-text_of (d ∷ ds) (p, ps) =
    ap events (split-event d (text_of ds) p.one_line)
    ∙ ap (λ o. cons? o (events ([] ∷ split 10 (text_of ds)))) (data_of-payload d p)
    ∙ ap (λ es. d ∷ es) (events-text_of ds ps)

-- A text of events ends with a blank line.
pub has_suffix-text_of :
    (d : List ℕ) (ds : List (List ℕ)) → has_suffix (text_of (d ∷ ds)) lf_end ≡ true
unfolding text_of
has_suffix-text_of d [] =
    ap (λ t. has_suffix t lf_end) (append-nil (event d))
    ∙ has_suffix-append (codes "data: " ++ d) lf_end lf_end refl
has_suffix-text_of d (e ∷ ds) =
    has_suffix-append (event d) (text_of (e ∷ ds)) lf_end (has_suffix-text_of e ds)

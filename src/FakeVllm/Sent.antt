-- ===== src/FakeVllm/Sent.antt =====
-- How far the stream of cmd/fake-vllm/main.go gets, and what it reports.
use vire.Base.{
  ℕ, zero, suc, ◌+◌, ◌≡◌, refl, ap, ◌∙◌, inl, inr, Bool, true, false, ◌&&◌, some, List, [], ◌∷◌,
  ◌++◌, if◌then◌else◌, bytes_eq, length, arith, Bool-cases,
}
use vire.Gateway.Usage.{TokenUsage, Unmarshal, valid_usage, done_mark}
use vire.Gateway.Usage.Events.{ends_done, last_usage}
use vire.FakeVllm.{Chunk, write_events, payloads_of}
use vire.FakeVllm.Lines.{text_of, AllPayloads}

-- The data of the events that are written.
pub sent : (ℕ → Bool) → ℕ → List (List ℕ) → List (List ℕ)
sent ok k [] = []
sent ok k (d ∷ ds) = let rest = sent ok (k + 1) ds in if ok k then d ∷ rest else []

-- Whether each of the next `n` events is written.
unfoldable pub all_ok : (ℕ → Bool) → ℕ → ℕ → Bool
all_ok ok k zero = true
all_ok ok k (suc n) = ok k && all_ok ok (k + 1) n

pub write_events-text_of :
    (ok : ℕ → Bool) (k : ℕ) (ds : List (List ℕ)) → write_events ok k ds ≡ text_of (sent ok k ds)
unfolding write_events sent text_of
write_events-text_of ok k [] = refl
write_events-text_of ok k (d ∷ ds) = elim (Bool-cases (ok k)) [
  | inl yes_it ↦ rw (yes_it, write_events-text_of ok (k + 1) ds)
  | inr no_it ↦ rw no_it
]

pub sent-AllPayloads :
    (ok : ℕ → Bool) (k : ℕ) (ds : List (List ℕ)) → AllPayloads ds → AllPayloads (sent ok k ds)
unfolding sent
sent-AllPayloads ok k [] p = tt
sent-AllPayloads ok k (d ∷ ds) (p, ps) = elim (Bool-cases (ok k)) [
  | inl yes_it ↦ rw yes_it (p, sent-AllPayloads ok (k + 1) ds ps)
  | inr no_it ↦ rw no_it tt
]

-- An event that is not the end mark decides nothing about the end.
ends_done-cons :
    (d : List ℕ) (ds : List (List ℕ))
    → bytes_eq d done_mark ≡ false
    → ends_done (d ∷ ds) ≡ ends_done ds
unfolding ends_done
ends_done-cons d [] h = h
ends_done-cons d (e ∷ ds) h = refl

module _ (marshal : Chunk → List ℕ)
    (other : (c : Chunk) → bytes_eq (marshal c) done_mark ≡ false) where
  all_ok-one : (ok : ℕ → Bool) (k : ℕ) → all_ok ok k 1 ≡ ok k
  unfolding all_ok
  all_ok-one ok k = ground arith

  -- The stream ends with the end mark when every event is written.
  pub ends_done-sent :
      (ok : ℕ → Bool) (k : ℕ) (cs : List Chunk)
      → ends_done (sent ok k (payloads_of marshal cs)) ≡ all_ok ok k (suc (length cs))
  unfolding sent ends_done all_ok
  ends_done-sent ok k [] = elim (Bool-cases (ok k)) [
    | inl yes_it ↦ rw yes_it
    | inr no_it ↦ rw no_it
  ]
  ends_done-sent ok k (c ∷ cs) = elim (Bool-cases (ok k)) [
    | inl yes_it ↦ rw yes_it (
        ends_done-cons (marshal c) (sent ok (k + 1) (payloads_of marshal cs)) (other c)
        ∙ ends_done-sent ok (k + 1) cs)
    | inr no_it ↦ rw no_it
  ]

  pub sent_all :
      (ok : ℕ → Bool) (k : ℕ) (ds : List (List ℕ))
      → all_ok ok k (length ds) ≡ true
      → sent ok k ds ≡ ds
  unfolding sent all_ok
  sent_all ok k [] h = refl
  sent_all ok k (d ∷ ds) h =
      let here : ok k ≡ true = ground arith in
      rw here (ap (λ r. d ∷ r) (sent_all ok (k + 1) ds (rw here at h)))

  -- The last usage of the chunks is that of the last one.
  pub last_usage-chunks :
      (unmarshal : Unmarshal) (cs : List Chunk) (c : Chunk) (u : TokenUsage)
      → unmarshal (marshal c) ≡ some (some u)
      → valid_usage (some u) ≡ true
      → last_usage unmarshal (payloads_of marshal (cs ++ c ∷ [])) ≡ some u
  unfolding last_usage
  last_usage-chunks unmarshal [] c u e v = rw (other c, e, v)
  last_usage-chunks unmarshal (b ∷ cs) c u e v = rw (last_usage-chunks unmarshal cs c u e v)

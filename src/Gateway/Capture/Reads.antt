-- ===== src/Gateway/Capture/Reads.antt =====
-- `usageBody.Read` in terms of `observe`: gateway/usage_capture.go.
use vire.Base.{
  ℕ, ◌≡◌, refl, ap, ◌∙◌, Bool, true, false, ◌||◌, List, [], ◌∷◌, ◌++◌, arith, ltb, if◌then◌else◌,
  length, concat,
}
use vire.Gateway.Capture.{
  Limits, UsageCapture, observe_json, observe_stream, observe, observe_all, read, read_all,
}

-- The chunks that `read` hands on, the bytes of the whole body, and whether its end was seen.
abbrev pub chunks : List (List ℕ × Bool) → List (List ℕ)
chunks [] = []
chunks ((p, at_eof) ∷ rs) = if ltb 0 (length p) then p ∷ chunks rs else chunks rs

abbrev pub whole : List (List ℕ × Bool) → List ℕ
whole [] = []
whole ((p, at_eof) ∷ rs) = p ++ whole rs

abbrev pub reached_eof : List (List ℕ × Bool) → Bool
reached_eof [] = false
reached_eof ((p, at_eof) ∷ rs) = at_eof || reached_eof rs

skip_empty :
    (p : List ℕ) (cs : List (List ℕ))
    → concat (if ltb 0 (length p) then p ∷ cs else cs) ≡ p ++ concat cs
skip_empty [] cs = refl
skip_empty (x ∷ p) cs = ground arith

pub concat-chunks : (rs : List (List ℕ × Bool)) → concat (chunks rs) ≡ whole rs
concat-chunks [] = refl
concat-chunks ((p, at_eof) ∷ rs) = skip_empty p (chunks rs) ∙ ap (λ r. p ++ r) (concat-chunks rs)

module _ (l : Limits) where
  observe-eof :
      (c : UsageCapture) (p : List ℕ) (b : Bool)
      → observe l (record c { eof = b }) p ≡ record (observe l c p) { eof = b }
  unfolding observe observe_json observe_stream
  observe-eof c p b = ground arith

  observe_all-eof :
      (c : UsageCapture) (ps : List (List ℕ)) (b : Bool)
      → observe_all l (record c { eof = b }) ps ≡ record (observe_all l c ps) { eof = b }
  unfolding observe_all
  observe_all-eof c [] b = refl
  observe_all-eof c (p ∷ ps) b =
      ap (λ k. observe_all l k ps) (observe-eof c p b) ∙ observe_all-eof (observe l c p) ps b

  pub observe-status : (c : UsageCapture) (p : List ℕ) → (observe l c p).status ≡ c.status
  unfolding observe observe_json observe_stream
  observe-status c p = ground arith

  pub observe-keeps_eof : (c : UsageCapture) (p : List ℕ) → (observe l c p).eof ≡ c.eof
  unfolding observe observe_json observe_stream
  observe-keeps_eof c p = ground arith

  pub status-observe_all :
      (ps : List (List ℕ)) (c : UsageCapture) → (observe_all l c ps).status ≡ c.status
  unfolding observe_all
  status-observe_all [] c = refl
  status-observe_all (p ∷ ps) c = status-observe_all ps (observe l c p) ∙ observe-status c p

  observe_all-nil : (c : UsageCapture) → observe_all l c [] ≡ c
  unfolding observe_all
  observe_all-nil c = refl

  observe_all-cons :
      (c : UsageCapture) (p : List ℕ) (ps : List (List ℕ))
      → observe_all l c (p ∷ ps) ≡ observe_all l (observe l c p) ps
  unfolding observe_all
  observe_all-cons c p ps = refl

  -- Reading a body observes its chunks, and sets the flag if the end was seen.
  pub read_all-eq-observe_all :
      (rs : List (List ℕ × Bool)) (c : UsageCapture)
      → read_all l c rs ≡ record (observe_all l c (chunks rs)) { eof = c.eof || reached_eof rs }
  unfolding read_all read
  read_all-eq-observe_all [] c = ground (arith, observe_all-nil c)
  read_all-eq-observe_all ((p, at_eof) ∷ rs) c = ground (
    arith,
    observe_all-cons c p (chunks rs),
    read_all-eq-observe_all rs (read l c p at_eof),
    observe_all-eof c (chunks rs) true,
    observe_all-eof (observe l c p) (chunks rs) true,
    observe-keeps_eof c p,
  )

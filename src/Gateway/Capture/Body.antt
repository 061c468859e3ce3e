-- ===== src/Gateway/Capture/Body.antt =====
-- The kept body of an ordinary response: gateway/usage_capture.go, `observe` without a stream.
use vire.Base.{
  ℕ, ◌≡◌, refl, ap, Bool, false, ◌||◌, Option, none, some, List, [], ◌∷◌, ◌++◌, arith, ltb,
  if◌then◌else◌, length, concat, length-append,
}
use mathlib.Core.List.{append_assoc, append-nil}
use vire.Gateway.Capture.{
  Limits, UsageCapture, new_capture, modify_response, bytes, append_slice, observe_json,
  observe_stream, observe, observe_all,
}

pub bytes-append_slice :
    (b : Option (List ℕ)) (p : List ℕ) → bytes (append_slice b p) ≡ bytes b ++ p
bytes-append_slice none [] = refl
bytes-append_slice none (x ∷ p) = refl
bytes-append_slice (some b) p = refl

module _ (l : Limits) where
  open l use {max_json}

  -- An ordinary response whose bytes `sent` have been read.
  pub record HasRead (c : UsageCapture) (sent : List ℕ) : Type 0 where
    pub plain : c.stream ≡ false
    pub kept : bytes c.body ≡ (if ltb max_json (length sent) then [] else sent)
    pub over : c.overflow ≡ ltb max_json (length sent)

  -- A capture of an ordinary response before its first read.
  pub modify_response-HasRead :
      (asked : Bool) (status : ℕ) (event_stream : Bool)
      → asked || event_stream ≡ false
      → HasRead (modify_response (new_capture asked) status event_stream) []
  modify_response-HasRead asked status event_stream h = record {
    plain = h;
    kept = ground arith;
    over = ground arith;
  }

  -- The end of the body does not touch what was kept.
  pub eof-HasRead :
      (c : UsageCapture) (sent : List ℕ) (b : Bool)
      → HasRead c sent
      → HasRead (record c { eof = b }) sent
  eof-HasRead c sent b r = record { plain = r.plain; kept = r.kept; over = r.over }

  observe-eq-observe_json :
      (c : UsageCapture) (p : List ℕ) → c.stream ≡ false → observe l c p ≡ observe_json l c p
  unfolding observe
  observe-eq-observe_json c p h = ap (λ b. if b then observe_stream l c p else observe_json l c p) h

  observe_json-HasRead :
      (c : UsageCapture) (sent p : List ℕ)
      → HasRead c sent
      → HasRead (observe_json l c p) (sent ++ p)
  unfolding observe_json
  observe_json-HasRead c sent p r =
      ground (arith, length-append sent p, bytes-append_slice c.body p)

  pub observe_all-HasRead :
      (ps : List (List ℕ)) (c : UsageCapture) (sent : List ℕ)
      → HasRead c sent
      → HasRead (observe_all l c ps) (sent ++ concat ps)
  unfolding observe_all
  observe_all-HasRead [] c sent r = rw append-nil r
  observe_all-HasRead (p ∷ ps) c sent r = rw (← append_assoc) (
      observe_all-HasRead ps (observe l c p) (sent ++ p)
        (rw (observe-eq-observe_json c p r.plain) (observe_json-HasRead c sent p r)))

-- After any reads of an ordinary response, the overflow flag is set exactly when the response is
-- longer than the limit; the body is then dropped, and is the whole response otherwise.
body-observe_all :
    (l : Limits) (ps : List (List ℕ))
    → ((observe_all l (new_capture false) ps).overflow ≡ ltb l.max_json (length (concat ps)))
      × (bytes (observe_all l (new_capture false) ps).body
          ≡ (if ltb l.max_json (length (concat ps)) then [] else concat ps))
body-observe_all l ps =
    let r =
      observe_all-HasRead l ps (new_capture false) []
        (modify_response-HasRead l false 0 false refl) in
    (r.over, r.kept)

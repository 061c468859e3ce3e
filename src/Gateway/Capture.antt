-- ===== src/Gateway/Capture.antt =====
-- gateway/usage_capture.go: the bytes that the reverse proxy reads from a backend, kept for
-- metering. A stream keeps only its tail, in a ring; an ordinary body is kept up to a limit.
pub mod Ring
pub mod Body
pub mod Reads
use vire.Base.{
  ℕ, ◌+◌, ◌-◌, ◌%◌, ◌^◌, Bool, true, false, ◌||◌, Option, none, some, List, [], ◌∷◌, ◌++◌, min, ltb,
  leb, if◌then◌else◌, length, take, drop, replicate, copy, copy_at,
}

-- `maxJSONUsageResponse` and `maxSSEUsageTail`. The operations take them as arguments.
pub record Limits : Type 0 where
  pub max_json : ℕ
  pub max_tail : ℕ

abbrev pub limits : Limits
limits = record { max_json = 2 ^ 20; max_tail = 2 ^ 16 }

-- `usageCapture`; the slice `body` is `none` while it is nil.
pub record UsageCapture : Type 0 where
  pub status : ℕ
  pub stream : Bool
  pub eof : Bool
  pub overflow : Bool
  pub body : Option (List ℕ)
  pub tail_next : ℕ
  pub tail_size : ℕ
  pub tail_truncated : Bool

-- `&usageCapture{stream: …}`
abbrev pub new_capture : Bool → UsageCapture
new_capture stream = record {
  status = 0;
  stream = stream;
  eof = false;
  overflow = false;
  body = none;
  tail_next = 0;
  tail_size = 0;
  tail_truncated = false;
}

-- The elements of a slice that may be nil.
abbrev pub bytes : Option (List ℕ) → List ℕ
bytes none = []
bytes (some b) = b

-- `append(body, p...)`: nothing appended to nil is nil.
abbrev pub append_slice : Option (List ℕ) → List ℕ → Option (List ℕ)
append_slice none [] = none
append_slice none (x ∷ p) = some (x ∷ p)
append_slice (some b) p = some (b ++ p)

-- The two copies into the ring: up to the end of the storage, then from its start.
abbrev pub write_ring : List ℕ → ℕ → List ℕ → List ℕ
write_ring buf next p = copy (copy_at buf next p) (drop (min (length buf - next) (length p)) p)

-- `ModifyResponse` in gateway/proxy.go: the status, and whether the response is an event stream.
abbrev pub modify_response : UsageCapture → ℕ → Bool → UsageCapture
modify_response c status event_stream = record c {
  status = status;
  stream = c.stream || event_stream;
}

module _ (l : Limits) where
  open l use {max_json, max_tail}

  -- `observe` on an ordinary response.
  unfoldable pub observe_json : UsageCapture → List ℕ → UsageCapture
  observe_json c p =
      if c.overflow
      then c
      else if ltb max_json (length (bytes c.body) + length p)
      then record c { body = none; overflow = true }
      else record c { body = append_slice c.body p }

  -- `if capture.body == nil { capture.body = make([]byte, maxSSEUsageTail) }`
  abbrev pub ring_body : UsageCapture → List ℕ
  ring_body c = elim c.body [ none ↦ replicate max_tail 0 | some b ↦ b ]

  -- `observe` on a stream.
  unfoldable pub observe_stream : UsageCapture → List ℕ → UsageCapture
  observe_stream c p =
      if leb max_tail (length p)
      then record c {
        tail_truncated = ltb 0 c.tail_size || ltb max_tail (length p);
        body = some (copy (ring_body c) (drop (length p - max_tail) p));
        tail_next = 0;
        tail_size = max_tail;
      }
      else record c {
        tail_truncated = if ltb max_tail (c.tail_size + length p) then true else c.tail_truncated;
        body = some (write_ring (ring_body c) c.tail_next p);
        tail_next = (c.tail_next + length p) % max_tail;
        tail_size = min max_tail (c.tail_size + length p);
      }

  unfoldable pub observe : UsageCapture → List ℕ → UsageCapture
  observe c p = if c.stream then observe_stream c p else observe_json c p

  -- `usageBody.Read`: what one read of the backend's body returned goes to `observe`.
  unfoldable pub read : UsageCapture → List ℕ → Bool → UsageCapture
  read c p at_eof =
      let c' = if ltb 0 (length p) then observe c p else c in
      if at_eof then record c' { eof = true } else c'

  -- The reads of one body, in order, each with whether it returned `io.EOF`.
  unfoldable pub read_all : UsageCapture → List (List ℕ × Bool) → UsageCapture
  read_all c [] = c
  read_all c ((p, at_eof) ∷ rs) = read_all (read c p at_eof) rs

  -- The chunks of one body, in order.
  unfoldable pub observe_all : UsageCapture → List (List ℕ) → UsageCapture
  observe_all c [] = c
  observe_all c (p ∷ ps) = observe_all (observe c p) ps

  -- `tail()`
  unfoldable pub tail : UsageCapture → List ℕ
  tail c =
      if ltb c.tail_size max_tail
      then take c.tail_size (bytes c.body)
      else (let result = replicate max_tail 0 in
          let n = min max_tail (length (bytes c.body) - c.tail_next) in
          copy_at (copy result (drop c.tail_next (bytes c.body))) n
            (take c.tail_next (bytes c.body)))

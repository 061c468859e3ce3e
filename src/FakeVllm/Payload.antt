-- ===== src/FakeVllm/Payload.antt =====
-- The data of an event as `streamUsage` of gateway/usage_capture.go reads it.
use vire.Gateway.Usage.{data_field}
use vire.Gateway.Usage.Events.{data_of}
use vire.Base.{
  trim_space_visible, take_last-append, length-append, has_prefix, Option, none, some, ℕ, ◌-◌, ◌≤◌,
  ◌≡◌, sym, ap, ◌∙◌, Bool, false, ◌||◌, List, [], ◌∷◌, ◌++◌, nat_eq, codes, length, has_suffix,
  take, drop, trim_space, if◌then◌else◌, arith,
}

abbrev pub has_newline : List ℕ → Bool
has_newline [] = false
has_newline (c ∷ cs) = nat_eq c 10 || has_newline cs

-- One line that begins and ends with a visible ASCII character.
pub record IsPayload (d : List ℕ) : Type 0 where
  pub first : ℕ
  pub middle : List ℕ
  pub last : ℕ
  pub shape : d ≡ first ∷ middle ++ last ∷ []
  pub first_low : 33 ≤ first
  pub first_high : first ≤ 126
  pub last_low : 33 ≤ last
  pub last_high : last ≤ 126
  pub one_line : has_newline d ≡ false

trim_space-payload : (d : List ℕ) → IsPayload d → trim_space (32 ∷ d) ≡ d
trim_space-payload d p =
    ap (λ t. trim_space (32 ∷ t)) p.shape
    ∙ trim_space_visible p.first p.middle p.last p.first_low p.first_high p.last_low p.last_high
    ∙ sym p.shape

-- A line that ends with a visible character does not end with a carriage return.
has_suffix-cr : (q : List ℕ) (b : ℕ) → 33 ≤ b → has_suffix (q ++ b ∷ []) (13 ∷ []) ≡ false
has_suffix-cr q b low = ground (arith, take_last-append 1 q (b ∷ []), length-append q (b ∷ []))

-- `data_of` from the line without its carriage return on.
abbrev data_in : List ℕ → Option (List ℕ)
data_in line =
    if has_prefix line data_field then some (trim_space (drop (length data_field) line)) else none

-- The line of an event gives its data.
pub data_of-payload : (d : List ℕ) → IsPayload d → data_of (codes "data: " ++ d) ≡ some d
data_of-payload d p =
    let raw = codes "data: " ++ d in
    let no_cr : has_suffix raw (13 ∷ []) ≡ false =
      ap (λ t. has_suffix (codes "data: " ++ t) (13 ∷ [])) p.shape
      ∙ has_suffix-cr (codes "data: " ++ p.first ∷ p.middle) p.last p.last_low in
    ap data_in (ap (λ b. if b then take (length raw - 1) raw else raw) no_cr)
    ∙ ap some (trim_space-payload d p)

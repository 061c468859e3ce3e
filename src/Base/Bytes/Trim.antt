-- ===== src/Base/Bytes/Trim.antt =====
-- `bytes.TrimSpace` on a space and text between visible ASCII characters.
use Prim.Native.Nat.{ℕ, zero, suc, ◌≤◌}
use mathlib.Core.Path.{◌≡◌, refl, sym, ap, ◌∙◌}
use mathlib.Core.Bool.{false}
use mathlib.Core.List.{List, [], ◌∷◌, ◌++◌, reverse, reverse-append, reverse-reverse}
use native.Mathlib.Omega.{arith}
use vire.Base.Tests.{nat_eq}
use vire.Base.Bytes.{space_at, byte_at, leading, trailing, skip_spaces, trim_space}

-- A visible ASCII character begins no white space, and ends none.
space_at-first : (a b c : ℕ) → 33 ≤ a → a ≤ 126 → space_at a b c ≡ 0
space_at-first a b c low high = ground arith

space_at-second : (a b : ℕ) → 33 ≤ b → b ≤ 126 → nat_eq (space_at a b 0) 2 ≡ false
space_at-second a b low high = ground arith

space_at-third : (a b c : ℕ) → 33 ≤ c → c ≤ 126 → nat_eq (space_at a b c) 3 ≡ false
space_at-third a b c low high = ground arith

skip_spaces_none :
    (width : List ℕ → ℕ) (x : ℕ) (s : List ℕ)
    → width (x ∷ s) ≡ 0
    → skip_spaces width 0 (x ∷ s) ≡ x ∷ s
unfolding skip_spaces
skip_spaces_none width x s h =
    ap (λ n. elim n as (λ _. List ℕ) [ zero ↦ x ∷ s | suc k ↦ skip_spaces width k s ]) h

skip_spaces_space : (s : List ℕ) → skip_spaces leading 0 (32 ∷ s) ≡ skip_spaces leading 0 s
unfolding skip_spaces
skip_spaces_space s = refl

trailing_visible : (b : ℕ) (r : List ℕ) → 33 ≤ b → b ≤ 126 → trailing (b ∷ r) ≡ 0
trailing_visible b r low high = rw (
  space_at-first b 0 0 low high,
  space_at-second (byte_at r 0) b low high,
  space_at-third (byte_at r 1) (byte_at r 0) b low high,
)

pub trim_space_visible :
    (a : ℕ) (m : List ℕ) (b : ℕ)
    → 33 ≤ a
    → a ≤ 126
    → 33 ≤ b
    → b ≤ 126
    → trim_space (32 ∷ a ∷ m ++ b ∷ []) ≡ a ∷ m ++ b ∷ []
unfolding trim_space
trim_space_visible a m b low high low' high' =
    let s = a ∷ m ++ b ∷ [] in
    let front : skip_spaces leading 0 (32 ∷ s) ≡ s =
      skip_spaces_space s
      ∙ skip_spaces_none leading a (m ++ b ∷ [])
          (space_at-first a (byte_at s 1) (byte_at s 2) low high) in
    let back : skip_spaces trailing 0 (reverse s) ≡ reverse s =
      ap (skip_spaces trailing 0) (reverse-append (a ∷ m) (b ∷ []))
      ∙ skip_spaces_none trailing b (reverse (a ∷ m))
          (trailing_visible b (reverse (a ∷ m)) low' high')
      ∙ sym (reverse-append (a ∷ m) (b ∷ [])) in
    ap (λ t. reverse (skip_spaces trailing 0 (reverse t))) front
    ∙ ap reverse back
    ∙ reverse-reverse s

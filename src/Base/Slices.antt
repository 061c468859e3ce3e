-- ===== src/Base/Slices.antt =====
-- Go slices: the built-in `copy`, and the last elements of a list.
use Prim.Native.Nat.{ℕ, zero, suc, ◌+◌, ◌-◌, ◌≤◌}
use mathlib.Core.Path.{◌≡◌, refl, ap, ◌∙◌, sym}
use mathlib.Core.List.{List, [], ◌∷◌, ◌++◌}
use mathlib.Core.Logic.{inl, inr}
use native.Mathlib.Omega.{arith}
use vire.Base.Tests.{le-cases}
use vire.Base.Lists.{
  length, take, drop, drop_nil, length-append, length-drop, drop-drop, drop-append_le,
}

module _ {ℓ} {A : Type ℓ} where
  -- `copy(dst, src)`: as many elements as fit.
  abbrev pub copy : List A → List A → List A
  copy [] src = []
  copy (x ∷ dst) [] = x ∷ dst
  copy (x ∷ dst) (y ∷ src) = y ∷ copy dst src

  -- `copy(dst[k:], src)`.
  abbrev pub copy_at : List A → ℕ → List A → List A
  copy_at dst zero src = copy dst src
  copy_at [] (suc k) src = []
  copy_at (x ∷ dst) (suc k) src = x ∷ copy_at dst k src

  -- The last `n` elements.
  abbrev pub take_last : ℕ → List A → List A
  take_last n xs = drop (length xs - n) xs

  pub copy_lem : (dst src : List A) → copy dst src ≡ take (length dst) src ++ drop (length src) dst
  copy_lem [] src = sym (drop_nil (length src))
  copy_lem (x ∷ dst) [] = refl
  copy_lem (x ∷ dst) (y ∷ src) = ap (λ r. y ∷ r) (copy_lem dst src)

  pub length-copy : (dst src : List A) → length (copy dst src) ≡ length dst
  length-copy [] src = refl
  length-copy (x ∷ dst) [] = refl
  length-copy (x ∷ dst) (y ∷ src) = ap suc (length-copy dst src)

  pub length-copy_at :
      (dst : List A) (k : ℕ) (src : List A) → length (copy_at dst k src) ≡ length dst
  length-copy_at dst zero src = length-copy dst src
  length-copy_at [] (suc k) src = refl
  length-copy_at (x ∷ dst) (suc k) src = ap suc (length-copy_at dst k src)

  pub copy_at_lem :
      (dst : List A) (k : ℕ) (src : List A)
      → copy_at dst k src ≡ take k dst ++ copy (drop k dst) src
  copy_at_lem dst zero src = refl
  copy_at_lem [] (suc k) src = refl
  copy_at_lem (x ∷ dst) (suc k) src = ap (λ r. x ∷ r) (copy_at_lem dst k src)

  pub take_last_all : (n : ℕ) (xs : List A) → length xs ≤ n → take_last n xs ≡ xs
  take_last_all n xs h = let e : length xs - n ≡ 0 = omega arith in rw e

  -- Dropping `k` elements, where all but the last `n` are `k` of them.
  pub take_last-drop : (n k : ℕ) (xs : List A) → length xs ≡ k + n → take_last n xs ≡ drop k xs
  take_last-drop n k xs h = let e : length xs - n ≡ k = omega arith in rw e

  -- Only the last `n` elements of a prefix matter, once at least `n` follow or are kept.
  pub take_last-take_last :
      (n : ℕ) (xs ys : List A) → take_last n (take_last n xs ++ ys) ≡ take_last n (xs ++ ys)
  take_last-take_last n xs ys = elim (le-cases (length xs) n) [
    | inl short ↦ rw (take_last_all n xs short)
    | inr long ↦
        let k : ℕ = length xs - n in
        let a : length (drop k xs ++ ys) - n ≡ length ys =
          omega (arith, length-append (drop k xs) ys, length-drop k xs) in
        let b : length (xs ++ ys) - n ≡ k + length ys = omega (arith, length-append xs ys) in
        ap (λ j. drop j (drop k xs ++ ys)) a
        ∙ ap (drop (length ys)) (sym (drop-append_le k xs ys (omega arith)))
        ∙ drop-drop (length ys) k (xs ++ ys)
        ∙ ap (λ j. drop j (xs ++ ys)) (sym b)
  ]

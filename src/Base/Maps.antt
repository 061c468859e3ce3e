-- ===== src/Base/Maps.antt =====
-- Go maps whose keys are texts, as lists of entries, each key once. A loop over a map of Go meets its
-- entries in any order: a loop here goes in the order in which they were first set.
pub mod Sizes
use mathlib.Core.Path.{◌≡◌, refl, sym, ap, ◌∙◌}
use mathlib.Core.Bool.{false}
use mathlib.Core.Option.{Option, none, some}
use mathlib.Core.List.{List, [], ◌∷◌}
use Prim.Native.String.{String}
use text.Mathlib.Text.{◌==◌}
use text.Mathlib.TextEquality.{eq_iff}
use mathlib.Core.Logic.{◌≢◌, ◌⊎◌, inl, inr}
use text.Mathlib.TextPositions.{eq_refl}
use vire.Base.Tests.{if◌then◌else◌, Bool-cases}

abbrev pub Dict {ℓ} : Type ℓ → Type ℓ
Dict V = List (String × V)

pub String-cases : (s t : String) → (s ≡ t) ⊎ ((s == t) ≡ false)
String-cases s t = elim (Bool-cases (s == t)) [
  | inl same ↦ inl ((eq_iff s t).0 same)
  | inr other ↦ inr other
]

pub eq-sym_false : (s t : String) → (s == t) ≡ false → (t == s) ≡ false
eq-sym_false s t h = elim (String-cases t s) [
  | inl same ↦ ap (λ r. t == r) (sym same) ∙ eq_refl t ∙ sym (eq_refl t) ∙ ap (λ r. r == t) same ∙ h
  | inr other ↦ other
]

pub eq_false : (s t : String) → s ≢ t → (s == t) ≡ false
eq_false s t h = elim (String-cases s t) [ inl same ↦ absurd (h same) | inr other ↦ other ]

module _ {ℓ} {V : Type ℓ} where
  -- `m[k]`, with whether the key is present.
  unfoldable pub lookup : String → Dict V → Option V
  lookup k [] = none
  lookup k ((j, v) ∷ d) = let rest = lookup k d in if j == k then some v else rest

  -- `m[k] = v`
  unfoldable pub set : String → V → Dict V → Dict V
  set k v [] = (k, v) ∷ []
  set k v ((j, w) ∷ d) = let rest = set k v d in if j == k then (k, v) ∷ d else (j, w) ∷ rest

  -- `delete(m, k)`
  unfoldable pub delete : String → Dict V → Dict V
  delete k [] = []
  delete k ((j, w) ∷ d) = let rest = delete k d in if j == k then rest else (j, w) ∷ rest

  pub lookup-set :
      (j k : String) (v : V) (d : Dict V)
      → lookup j (set k v d) ≡ (if k == j then some v else lookup j d)
  unfolding lookup set
  lookup-set j k v [] = refl
  lookup-set j k v ((i, w) ∷ d) = elim (String-cases i k) [
    | inl same ↦
        rw (same, eq_refl k)
          (elim (Bool-cases (k == j)) [ inl here ↦ rw here | inr away ↦ rw away ])
    | inr other ↦ elim (String-cases i j) [
      | inl here ↦ rw (other, sym here, eq_refl i, eq-sym_false i k other)
      | inr away ↦ rw (other, away, lookup-set j k v d)
    ]
  ]

  pub lookup-delete :
      (j k : String) (d : Dict V) → lookup j (delete k d) ≡ (if k == j then none else lookup j d)
  unfolding lookup delete
  lookup-delete j k [] = elim (Bool-cases (k == j)) [ inl e ↦ rw e | inr e ↦ rw e ]
  lookup-delete j k ((i, w) ∷ d) = elim (String-cases i k) [
    | inl same ↦
        rw (same, eq_refl k, lookup-delete j k d)
          (elim (Bool-cases (k == j)) [ inl here ↦ rw here | inr away ↦ rw away ])
    | inr other ↦ elim (String-cases i j) [
      | inl here ↦ rw (other, sym here, eq_refl i, eq-sym_false i k other)
      | inr away ↦ rw (other, away, lookup-delete j k d)
    ]
  ]

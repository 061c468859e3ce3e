-- ===== src/Base/Maps/Sizes.antt =====
-- The keys of Go maps of one size.
use Prim.Native.Nat.{suc}
use mathlib.Core.Path.{◌≡◌, refl, sym, ap, ◌∙◌}
use mathlib.Core.Bool.{Bool, true, false}
use mathlib.Core.Option.{none, some}
use mathlib.Core.List.{[], ◌∷◌, Memᴰ}
use native.Mathlib.Omega.{arith}
use text.Mathlib.Text.{◌==◌}
use Prim.Native.String.{String}
use text.Mathlib.TextPositions.{eq_refl}
use mathlib.Core.Logic.{inl, inr}
use mathlib.Core.Path.{ap₂}
use vire.Base.Tests.{if◌then◌else◌}
use vire.Base.Lists.{length}
use vire.Base.Maps.{
  Dict, lookup, set, delete, lookup-set, lookup-delete, String-cases, eq-sym_false,
}

same_text : (j k : String) → j ≡ k → (j == k) ≡ true
same_text j k h = ap (λ n. n == k) h ∙ eq_refl k

some-eq {ℓ} : {A : Type ℓ} {a b : A} → some a ≡ some b → a ≡ b
some-eq h = cc

module _ {ℓ} {V : Type ℓ} where
  -- No key stands twice.
  abbrev pub IsMap : Dict V → Type ℓ
  IsMap [] = Unit {ℓ}
  IsMap ((k, v) ∷ d) = (lookup k d ≡ none) × IsMap d

  abbrev pub HasKey : String → Dict V → Type ℓ
  HasKey k d = (v : V) × (lookup k d ≡ some v)

  lookup-cons_same : (j k : String) (v : V) (d : Dict V) → j ≡ k → lookup k ((j, v) ∷ d) ≡ some v
  unfolding lookup
  lookup-cons_same j k v d h = rw (same_text j k h)

  no_key : (k : String) (v : V) → lookup k [] ≡ some v → ⊥
  unfolding lookup
  no_key k v h = cc

  lookup-cons_away :
      (j k : String) (v : V) (d : Dict V) → (j == k) ≡ false → lookup k ((j, v) ∷ d) ≡ lookup k d
  unfolding lookup
  lookup-cons_away j k v d e = rw e

  pub lookup-Mem : (k : String) (d : Dict V) {v : V} → lookup k d ≡ some v → Memᴰ (k, v) d
  unfolding lookup
  lookup-Mem k [] h = cc
  lookup-Mem k ((j, w) ∷ d) {v} h = elim (String-cases j k) [
    | inl here ↦
        let e : w ≡ v =
          some-eq
            (ap (λ (t : Bool). if t then some w else lookup k d) (sym (same_text j k here)) ∙ h) in
        Memᴰ.head (ap₂ (λ a b. (a, b)) (sym here) (sym e))
    | inr away ↦ Memᴰ.tail (lookup-Mem k d (sym (lookup-cons_away j k w d away) ∙ h))
  ]

  delete_missing : (k : String) (d : Dict V) → lookup k d ≡ none → delete k d ≡ d
  unfolding delete
  delete_missing k [] h = refl
  delete_missing k ((j, w) ∷ d) h = elim (String-cases j k) [
    | inl here ↦ let e : some w ≡ none = sym (lookup-cons_same j k w d here) ∙ h in cc
    | inr away ↦
        rw away
          (ap (λ r. (j, w) ∷ r) (delete_missing k d (sym (lookup-cons_away j k w d away) ∙ h)))
  ]

  length-delete :
      (k : String) (d : Dict V) → IsMap d → HasKey k d → suc (length (delete k d)) ≡ length d
  unfolding delete
  length-delete k [] m (v, h) = absurd (no_key k v h)
  length-delete k ((j, w) ∷ d) (fresh, m) (v, h) = elim (String-cases j k) [
    | inl here ↦
        let same = delete_missing k d (ap (λ n. lookup n d) (sym here) ∙ fresh) in
        rw (same_text j k here) (omega (arith, ap length same))
    | inr away ↦
        let rest = length-delete k d m (v, sym (lookup-cons_away j k w d away) ∙ h) in
        rw away (omega (arith, rest))
  ]

  delete-IsMap : (k : String) (d : Dict V) → IsMap d → IsMap (delete k d)
  unfolding delete
  delete-IsMap k [] m = tt
  delete-IsMap k ((j, w) ∷ d) (fresh, m) = elim (String-cases j k) [
    | inl here ↦ rw (same_text j k here) (delete-IsMap k d m)
    | inr away ↦
        rw away (lookup-delete j k d ∙ rw (eq-sym_false j k away) fresh, delete-IsMap k d m)
  ]

  pub set-IsMap : (k : String) (v : V) (d : Dict V) → IsMap d → IsMap (set k v d)
  unfolding set lookup
  set-IsMap k v [] m = (refl, tt)
  set-IsMap k v ((j, w) ∷ d) (fresh, m) = elim (String-cases j k) [
    | inl here ↦ rw (same_text j k here) (ap (λ n. lookup n d) (sym here) ∙ fresh, m)
    | inr away ↦ rw away (lookup-set j k v d ∙ rw (eq-sym_false j k away) fresh, set-IsMap k v d m)
  ]

  -- A map of the size of another one, with all of its keys, has no other key.
  pub key_of_both :
      (c d : Dict V) (k : String)
      → IsMap c
      → IsMap d
      → ((j : String) → HasKey j c → HasKey j d)
      → length d ≡ length c
      → HasKey k d
      → HasKey k c
  key_of_both [] [] k mc md all same (v, h) = absurd (no_key k v h)
  key_of_both [] (e ∷ d) k mc md all same h = absurd (omega arith)
  key_of_both ((j, w) ∷ c) d k (fresh, mc) md all same (v, h) = elim (String-cases j k) [
    | inl here ↦ (w, lookup-cons_same j k w c here)
    | inr away ↦
        let one_less = length-delete j d md (all j (w, lookup-cons_same j j w c refl)) in
        let (u, e) =
          key_of_both c (delete j d) k mc (delete-IsMap j d md) (λ i has. still i has)
            (omega (arith, one_less)) (v, lookup-delete k j d ∙ rw away h) in
        (u, lookup-cons_away j k w c away ∙ e)
  ]
    where
      still : (i : String) → HasKey i c → HasKey i (delete j d)
      still i (u, e) = elim (String-cases j i) [
        | inl here ↦ let none_is : none ≡ some u = sym fresh ∙ ap (λ n. lookup n c) here ∙ e in cc
        | inr away ↦
            let (x, f) = all i (u, lookup-cons_away j i w c away ∙ e) in
            (x, lookup-delete i j d ∙ rw away f)
      ]

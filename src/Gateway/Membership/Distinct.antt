-- ===== src/Gateway/Membership/Distinct.antt =====
-- No backend stands twice in a route of gateway/membership.go.
use mathlib.Core.List.{Memᴰ}
use vire.Base.{
  or-eq-false, ℕ, zero, suc, ◌≡◌, refl, sym, ap, subst, ◌∙◌, inl, inr, true, false, some, List, [],
  ◌∷◌, get_elem?, String, ◌==◌, eq_iff, eq_false, String-cases,
}
use vire.Gateway.Route.Choice.{IsAt}
use vire.Gateway.Registry.{Model, Parse, Url}
use vire.Gateway.Registry.Checks.{IsRegistry}
use vire.Gateway.Membership.{RouteBackend, origin_of, printed}
use vire.Gateway.Membership.Objects.{Serves, IsObject, origins, some-eq}
use vire.Gateway.Membership.Undone.{contains}

abbrev pub Distinct : List String → Type 0
Distinct [] = Unit {0}
Distinct (o ∷ os) = (contains o os ≡ false) × Distinct os

module _ (parse : Parse) (n : String) where
  -- No entry that follows has the origin of one before it.
  contains-origins :
      (before ms : List Model) (q : Model) (u : Url)
      → IsRegistry parse before ms
      → Memᴰ q before
      → q.name ≡ n
      → parse q.url ≡ some u
      → contains (origin_of parse q) (origins parse n ms) ≡ false
  unfolding origins
  contains-origins before [] q u v member name parsed = refl
  contains-origins before (m ∷ ms) q u (f, v) member name parsed =
      let rest = contains-origins (m ∷ before) ms q u v (Memᴰ.tail member) name parsed in
      elim (String-cases m.name n) [
        | inl here ↦
            let t : (m.name == n) ≡ true = (eq_iff m.name n).1 here in
            let other : (origin_of parse m == origin_of parse q) ≡ false =
              eq_false (origin_of parse m) (origin_of parse q) (λ e.
                f.fresh q u member parsed (name ∙ sym here)
                  (sym (ap printed parsed) ∙ sym e ∙ ap printed f.valid.parsed)) in
            rw (t, other) rest
        | inr away ↦ rw (away, rest)
      ]

  pub origins-Distinct :
      (before ms : List Model) → IsRegistry parse before ms → Distinct (origins parse n ms)
  unfolding origins
  origins-Distinct before [] v = tt
  origins-Distinct before (m ∷ ms) (f, v) =
      let rest = origins-Distinct (m ∷ before) ms v in
      elim (String-cases m.name n) [
        | inl here ↦
            let t : (m.name == n) ≡ true = (eq_iff m.name n).1 here in
            rw t (
              contains-origins (m ∷ before) ms m f.valid.target v (Memᴰ.head refl) here
                  f.valid.parsed,
              rest,
            )
        | inr away ↦ rw away rest
      ]

not_later :
    (p : String) (os : List String) (o : String) (j : ℕ)
    → contains p os ≡ false
    → p ≡ o
    → get_elem? os j ≡ some o
    → ⊥
not_later p [] o j new e g = cc
not_later p (q ∷ os) o zero new e g =
    let (a, b) = or-eq-false (q == p) (contains p os) new in
    let t : (q == p) ≡ true = (eq_iff q p).1 (some-eq g ∙ sym e) in cc
not_later p (q ∷ os) o (suc j) new e g =
    let (a, b) = or-eq-false (q == p) (contains p os) new in not_later p os o j b e g

Distinct-index :
    (os : List String) (o : String) (i j : ℕ)
    → Distinct os
    → get_elem? os i ≡ some o
    → get_elem? os j ≡ some o
    → i ≡ j
Distinct-index [] o i j d h g = cc
Distinct-index (p ∷ os) o zero zero d h g = refl
Distinct-index (p ∷ os) o zero (suc j) (new, d) h g = absurd (not_later p os o j new (some-eq h) g)
Distinct-index (p ∷ os) o (suc i) zero (new, d) h g = absurd (not_later p os o i new (some-eq g) h)
Distinct-index (p ∷ os) o (suc i) (suc j) (new, d) h g = ap suc (Distinct-index os o i j d h g)

-- The object at a place of a route has the origin at that place.
Serves-get_elem? :
    (heap : List RouteBackend) (bs : List ℕ) (n : String) (os : List String) (i b : ℕ)
    → Serves heap bs n os
    → get_elem? bs i ≡ some b
    → (o : String) × (get_elem? os i ≡ some o) × IsObject heap b n o
Serves-get_elem? heap [] n os i b s h = cc
Serves-get_elem? heap (c ∷ bs) n [] i b s h = absurd s
Serves-get_elem? heap (c ∷ bs) n (o ∷ os) zero b (x, s) h =
    (o, refl, subst (λ d. IsObject heap d n o) (some-eq h) x)
Serves-get_elem? heap (c ∷ bs) n (o ∷ os) (suc i) b (x, s) h = Serves-get_elem? heap bs n os i b s h

pub Serves-Distinct :
    (heap : List RouteBackend) (bs : List ℕ) (n : String) (os : List String)
    → Serves heap bs n os
    → Distinct os
    → (b i j : ℕ) → IsAt b bs i
    → IsAt b bs j
    → i ≡ j
Serves-Distinct heap bs n os s d b i j h g =
    let (o, at, x) = Serves-get_elem? heap bs n os i b s h in
    let (p, at', y) = Serves-get_elem? heap bs n os j b s g in
    let same : x.object ≡ y.object = some-eq (sym x.at ∙ y.at) in
    let e : o ≡ p = sym x.origin_is ∙ ap (λ (z : RouteBackend). z.origin) same ∙ y.origin_is in
    Distinct-index os p i j d (at ∙ ap some e) at'

-- ===== src/Gateway/Membership/Probed.antt =====
-- What the probes of new backends in gateway/membership.go change and find.
use vire.Base.{
  ◌↔◌, nat_eq_iff, ℕ, zero, suc, ◌<◌, ◌≡◌, refl, ap, ◌∙◌, inl, inr, nat_eq, Bool, true, false, none,
  some, List, [], ◌∷◌, length, get_elem?, String, Bool-cases, arith,
}
use vire.Gateway.Membership.{RouteBackend}
use vire.Gateway.Membership.Reload.{
  Probe, set_healthy, probe_backend, probe_added, unsent, cancelled, failed, answered,
}
use vire.Gateway.Membership.Undone.{KeyedBy, Keeps}
use vire.Gateway.Membership.Objects.{Grows, some-eq}

-- A probe changes the health of its object and nothing else.
set_healthy-Keeps :
    (h : Bool) (heap : List RouteBackend) (b : ℕ) → Keeps heap (set_healthy h heap b)
set_healthy-Keeps h [] b i k e = (k, e, refl, refl)
set_healthy-Keeps h (x ∷ heap) zero zero k e =
    let same : x ≡ k = some-eq e in
    (
      record x { healthy = h },
      refl,
      ap (λ (y : RouteBackend). y.model) same,
      ap (λ (y : RouteBackend). y.origin) same,
    )
set_healthy-Keeps h (x ∷ heap) zero (suc i) k e = (k, e, refl, refl)
set_healthy-Keeps h (x ∷ heap) (suc b) zero k e = (k, e, refl, refl)
set_healthy-Keeps h (x ∷ heap) (suc b) (suc i) k e = set_healthy-Keeps h heap b i k e

get_elem?-set_healthy :
    (h : Bool) (heap : List RouteBackend) (b i : ℕ)
    → i < b
    → get_elem? (set_healthy h heap b) i ≡ get_elem? heap i
get_elem?-set_healthy h [] b i lt = refl
get_elem?-set_healthy h (x ∷ heap) zero i lt = absurd (omega arith)
get_elem?-set_healthy h (x ∷ heap) (suc b) zero lt = refl
get_elem?-set_healthy h (x ∷ heap) (suc b) (suc i) lt =
    get_elem?-set_healthy h heap b i (omega arith)

pub probe_backend-Keeps :
    (p : Probe) (b : ℕ) (heap : List RouteBackend) → Keeps heap (probe_backend p b heap).1
unfolding probe_backend
probe_backend-Keeps unsent b heap i k e = (k, e, refl, refl)
probe_backend-Keeps cancelled b heap i k e = (k, e, refl, refl)
probe_backend-Keeps failed b heap i k e = set_healthy-Keeps false heap b i k e
probe_backend-Keeps (answered status) b heap i k e =
    set_healthy-Keeps (nat_eq status 200) heap b i k e

get_elem?-probe_backend :
    (p : Probe) (b : ℕ) (heap : List RouteBackend) (i : ℕ)
    → i < b
    → get_elem? (probe_backend p b heap).1 i ≡ get_elem? heap i
unfolding probe_backend
get_elem?-probe_backend unsent b heap i lt = refl
get_elem?-probe_backend cancelled b heap i lt = refl
get_elem?-probe_backend failed b heap i lt = get_elem?-set_healthy false heap b i lt
get_elem?-probe_backend (answered status) b heap i lt =
    get_elem?-set_healthy (nat_eq status 200) heap b i lt

get_elem?-lt :
    (heap : List RouteBackend) (i : ℕ) (x : RouteBackend)
    → get_elem? heap i ≡ some x
    → i < length heap
get_elem?-lt [] i x h = cc
get_elem?-lt (y ∷ heap) zero x h = omega arith
get_elem?-lt (y ∷ heap) (suc i) x h = let lt = get_elem?-lt heap i x h in omega arith

-- Every one of the backends answered with status 200.
abbrev pub AllAnswered : (ℕ → Probe) → List ℕ → Type 0
AllAnswered probe [] = Unit {0}
AllAnswered probe (b ∷ bs) = (probe b ≡ answered 200) × AllAnswered probe bs

module _ (probe : ℕ → Probe) where
  pub probe_added-Keeps :
      (bs : List ℕ) (heap : List RouteBackend) → Keeps heap (probe_added probe bs heap).1
  unfolding probe_added
  probe_added-Keeps [] heap i k e = (k, e, refl, refl)
  probe_added-Keeps (b ∷ bs) heap i k e =
      let (y, at, models, origins) = probe_backend-Keeps (probe b) b heap i k e in
      elim (Bool-cases (probe_backend (probe b) b heap).0) [
        | inl fine ↦
            let (z, at', models', origins') =
              probe_added-Keeps bs (probe_backend (probe b) b heap).1 i y at in
            rw fine (z, at', models' ∙ models, origins' ∙ origins)
        | inr bad ↦ rw bad (y, at, models, origins)
      ]

  pub probe_added-Grows :
      (old : List RouteBackend) (n : ℕ) (bs : List ℕ) (ks : List String)
      (heap0 heap : List RouteBackend)
      → n ≡ length old
      → KeyedBy n heap0 bs ks
      → Grows old heap
      → Grows old (probe_added probe bs heap).1
  unfolding probe_added
  probe_added-Grows old n [] ks heap0 heap len v g = g
  probe_added-Grows old n (b ∷ bs) [] heap0 heap len v g = absurd v
  probe_added-Grows old n (b ∷ bs) (k ∷ ks) heap0 heap len (low, at, v) g =
      let g' : Grows old (probe_backend (probe b) b heap).1 = λ i x h.
        let short = get_elem?-lt old i x h in
        get_elem?-probe_backend (probe b) b heap i (omega arith) ∙ g i x h in
      elim (Bool-cases (probe_backend (probe b) b heap).0) [
        | inl fine ↦
            rw fine
              (probe_added-Grows old n bs ks heap0 (probe_backend (probe b) b heap).1 len v g')
        | inr bad ↦ rw bad g'
      ]

  answered-probe_backend :
      (p : Probe) (b : ℕ) (heap : List RouteBackend)
      → ((probe_backend p b heap).0 ≡ true) ↔ (p ≡ answered 200)
  unfolding probe_backend
  answered-probe_backend unsent b heap = (λ h. cc, λ h. cc)
  answered-probe_backend cancelled b heap = (λ h. cc, λ h. cc)
  answered-probe_backend failed b heap = (λ h. cc, λ h. cc)
  answered-probe_backend (answered status) b heap = (
    λ h. ap answered ((nat_eq_iff status 200).0 h),
    λ h. let e : status ≡ 200 = cc in (nat_eq_iff status 200).1 e,
  )

  -- No backend is found unhealthy exactly when every one answered with status 200.
  pub probe_added-AllAnswered :
      (bs : List ℕ) (heap : List RouteBackend)
      → ((probe_added probe bs heap).0 ≡ none) ↔ AllAnswered probe bs
  unfolding probe_added
  probe_added-AllAnswered [] heap = (λ h. tt, λ h. refl)
  probe_added-AllAnswered (b ∷ bs) heap = elim (Bool-cases (probe_backend (probe b) b heap).0) [
    | inl fine ↦
        let rest = probe_added-AllAnswered bs (probe_backend (probe b) b heap).1 in
        let yes_it = (answered-probe_backend (probe b) b heap).0 fine in
        rw fine (λ h. (yes_it, rest.0 h), λ h. rest.1 h.1)
    | inr bad ↦
        let off = answered-probe_backend (probe b) b heap in
        rw bad (λ h. cc, λ h. let t = off.1 h.0 in cc)
  ]

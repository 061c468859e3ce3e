-- ===== src/Gateway/Route/Healthy.antt =====
-- `selectHealthyBackend` of gateway/proxy.go as a request sees it.
use mathlib.Core.Bool.{false≢true}
use vire.Base.{
  ℕ, ◌≡◌, ◌≢◌, refl, subst, ◌==◌, sym, ◌∙◌, ◌⊎◌, inl, inr, Bool, true, false, none, some,
  if◌then◌else◌, String, Bool-cases,
}
use vire.Gateway.Route.{
  ModelRoute, select_backend, Health, Selection, chosen, none_healthy, panicked, select_other,
  select_healthy_backend,
}
use vire.Gateway.Route.Choice.{
  IsIn, IsRoute, select_backend-HasPrimary, backends-select_backend, select_backend-IsRoute,
}
use vire.Gateway.Route.Failover.{IsFair, other-IsFair}

-- How a backend was chosen: it was the primary, or the primary was found unhealthy.
abbrev pub IsReason : Health → ModelRoute → String → ℕ → Bool → Type 0
IsReason healthy route conversation_id b failover =
    ((failover ≡ false) × ((select_backend route conversation_id).0 ≡ some b))
    ⊎ ((failover ≡ true)
        × (p : ℕ) × ((select_backend route conversation_id).0 ≡ some p)
        × (healthy 0 p ≡ false))

abbrev pub IsAnswer : Health → ModelRoute → String → Selection → Type 0
IsAnswer healthy route conversation_id (chosen b failover) =
    IsIn b route.backends
    × ((t : ℕ) × (healthy t b ≡ true))
    × IsReason healthy route conversation_id b failover
IsAnswer healthy route conversation_id none_healthy =
    (b : ℕ) → IsIn b route.backends → (t : ℕ) × (healthy t b ≡ false)
IsAnswer healthy route conversation_id panicked = ⊥

module _ (healthy : Health) (route : ModelRoute) (conversation_id : String) where
  IsAnswer-other :
      (found : Selection) (p : ℕ)
      → (select_backend route conversation_id).0 ≡ some p
      → healthy 0 p ≡ false
      → IsFair healthy (λ b. IsIn b route.backends) found
      → IsAnswer healthy route conversation_id found
  IsAnswer-other (chosen b failover) p e ill (is_in, f, t, h) = (is_in, (t, h), inr (f, p, e, ill))
  IsAnswer-other none_healthy p e ill fair = fair
  IsAnswer-other panicked p e ill fair = fair

  module _ (v : IsRoute route) where
    pub answer :
        IsAnswer healthy route conversation_id
          (select_healthy_backend healthy route conversation_id).0
    unfolding select_healthy_backend
    answer =
        let primary = select_backend-HasPrimary route conversation_id v in
        let p : ℕ = primary.backend in
        let route' : ModelRoute = (select_backend route conversation_id).1 in
        let same = backends-select_backend route conversation_id in
        let found : Selection =
          select_other healthy route' (if conversation_id == "" then none else route'.ring)
            conversation_id p in
        let is_in' : IsIn p route'.backends = subst (IsIn p) (sym same.0) primary.is_in in
        rw primary.selected (elim (Bool-cases (healthy 0 p)) [
          | inl well ↦ rw well (primary.is_in, (0, well), inl (refl, primary.selected))
          | inr ill ↦ rw ill (
              IsAnswer-other found p primary.selected ill (
                subst (λ bs. IsFair healthy (λ b. IsIn b bs) found) same.0
                  (other-IsFair healthy route' (select_backend-IsRoute route conversation_id v)
                    conversation_id p is_in' ill)))
        ])

    -- A selection on a well-formed route never panics: no nil ring is asked and no index is out of
    -- range.
    select_healthy_backend_total :
        (select_healthy_backend healthy route conversation_id).0 ≢ panicked
    select_healthy_backend_total e = rw e at answer

    -- A backend chosen on a well-formed route belongs to it and was healthy at some load of its
    -- health; it is the primary, or the primary was found unhealthy and the choice is marked as a
    -- failover.
    select_healthy_backend-chosen :
        (b : ℕ) (failover : Bool)
        → (select_healthy_backend healthy route conversation_id).0 ≡ chosen b failover
        → IsIn b route.backends
          × ((t : ℕ) × (healthy t b ≡ true))
          × IsReason healthy route conversation_id b failover
    select_healthy_backend-chosen b failover e = rw e at answer

    -- If no backend is chosen on a well-formed route, each of its backends was found unhealthy by
    -- some load of its health.
    select_healthy_backend-none :
        (b : ℕ)
        → (select_healthy_backend healthy route conversation_id).0 ≡ none_healthy
        → IsIn b route.backends
        → (t : ℕ) × (healthy t b ≡ false)
    select_healthy_backend-none b e = (rw e at answer) b

-- While the health of the backends does not change, a request of a well-formed route with a healthy
-- backend is given a healthy backend of the route.
pub select_healthy_backend_finds :
    (health : ℕ → Bool) (route : ModelRoute) (conversation_id : String) (b : ℕ)
    → IsRoute route
    → IsIn b route.backends
    → health b ≡ true
    → (c : ℕ) × (failover : Bool) × ((select_healthy_backend (λ _. health) route conversation_id).0
        ≡ chosen c failover)
      × IsIn c route.backends
      × (health c ≡ true)
select_healthy_backend_finds health route conversation_id b v is_in well =
    by_answer (select_healthy_backend (λ _. health) route conversation_id).0 refl
  where
    by_answer :
        (found : Selection)
        → (select_healthy_backend (λ _. health) route conversation_id).0 ≡ found
        → (c : ℕ) × (failover : Bool) × ((select_healthy_backend
              (λ _. health)
              route
              conversation_id).0
            ≡ chosen c failover)
          × IsIn c route.backends
          × (health c ≡ true)
    by_answer (chosen c failover) e =
        let (c_in, up, _) =
          select_healthy_backend-chosen (λ _. health) route conversation_id v c failover e in
        (c, failover, e, c_in, up.1)
    by_answer none_healthy e = absurd (
        false≢true (
          sym (select_healthy_backend-none (λ _. health) route conversation_id v b e is_in).1
          ∙ well))
    by_answer panicked e =
        absurd (select_healthy_backend_total (λ _. health) route conversation_id v e)

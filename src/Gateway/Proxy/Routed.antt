-- ===== src/Gateway/Proxy/Routed.antt =====
-- What `modelRoute.ServeHTTP` (gateway/proxy.go) makes of a request.
use Prim.Native.String.{◌++◌ as append}
use vire.Base.{
  eq_iff, if_cases, get_elem?, le-cases, length, ◌≤◌, ◌<◌, ◌≢◌, nat_eq, arith, inl, inr, Bool-cases,
  not, ◌==◌, if◌then◌else◌, ap, ◌∙◌, ℕ, ◌≡◌, refl, Bool, true, false, Option, none, some, String,
}
use vire.Gateway.Route.{
  Ring, ModelRoute, Health, Selection, chosen, none_healthy, panicked, select_healthy_backend,
  select_backend, select_from, select_other, search_around,
}
use vire.Gateway.Route.Choice.{IsIn, IsRoute}
use vire.Gateway.Route.Healthy.{IsReason, IsAnswer, answer}
use vire.Gateway.Observed.Outcome.{differ}
use vire.Gateway.Proxy.{
  RequestObservation, conversation_key, routing_of, Served, unavailable, proxied, crashed,
  serve_selected, serve_route,
}

-- The state names the model, the backend and how it was chosen.
abbrev pub IsNoted : String → String → String → String → Option RequestObservation → Type 0
IsNoted model backend routing outcome none = ⊥
IsNoted model backend routing outcome (some s) =
    (s.model ≡ model) × (s.backend ≡ backend) × (s.routing ≡ routing) × (s.outcome ≡ outcome)

-- The label for the choice of a backend, and whether it was a failover: a route of one backend has
-- none.
pub data IsLabel (backends : ℕ) (conversation_id : String) : Bool → String → Type 0 where
  single : backends ≡ 1 → IsLabel backends conversation_id false "single"
  affinity : 2 ≤ backends → conversation_id ≢ "" → IsLabel backends conversation_id false "affinity"
  round_robin :
      2 ≤ backends → conversation_id ≡ "" → IsLabel backends conversation_id false "round_robin"
  affinity_failover :
      2 ≤ backends
      → conversation_id ≢ ""
      → IsLabel backends conversation_id true "affinity_failover"
  round_robin_failover :
      2 ≤ backends
      → conversation_id ≡ ""
      → IsLabel backends conversation_id true "round_robin_failover"

abbrev pub IsNotedAs :
    Bool → ModelRoute → String → String → String → Option RequestObservation → Type 0
IsNotedAs failover route conversation_id backend outcome state =
    (label : String) × IsLabel (length route.backends) conversation_id failover label
    × IsNoted route.model backend label outcome state

-- A backend of the route that was healthy at a load of its health, or each one was found unhealthy.
abbrev pub IsServed :
    (ℕ → String) → Health → ModelRoute → String → RequestObservation → Served → Type 0
IsServed origin healthy route conversation_id before (proxied b state) =
    IsIn b route.backends
    × ((t : ℕ) × (healthy t b ≡ true))
    × ((failover : Bool) × IsReason healthy route conversation_id b failover
        × IsNotedAs failover route conversation_id (origin b) before.outcome state)
IsServed origin healthy route conversation_id before (unavailable state) =
    ((b : ℕ) → IsIn b route.backends → (t : ℕ) × (healthy t b ≡ false))
    × IsNoted route.model before.backend before.routing "upstream_unavailable" state
IsServed origin healthy route conversation_id before crashed = ⊥

-- A route of one backend chooses no other.
module _ (healthy : Health) (route : ModelRoute) (conversation_id : String) (b : ℕ)
    (v : IsRoute route) (one : length route.backends ≡ 1) where
  no_ring : (if conversation_id == "" then none else route.ring) ≡ none
  no_ring = elim (Bool-cases (conversation_id == "")) [
    | inl blank ↦ rw blank
    | inr named ↦ rw named (v.alone (omega arith))
  ]

  no_other :
      (p : ℕ) (o : Option Ring)
      → o ≡ none
      → select_other healthy route o conversation_id p ≡ none_healthy
  unfolding search_around
  no_other p none e = rw one
  no_other p (some ring) e = cc

  from_alone : (o : Option ℕ) → select_from healthy route conversation_id o ≡ chosen b true → ⊥
  from_alone none h = cc
  from_alone (some p) h = elim (if_cases (healthy 0 p) h) [
    | inl own ↦ cc
    | inr other ↦
        let e = no_other p (if conversation_id == "" then none else route.ring) no_ring in cc
  ]

  single_alone : (select_healthy_backend healthy route conversation_id).0 ≡ chosen b true → ⊥
  unfolding select_healthy_backend select_backend
  single_alone h = from_alone (get_elem? route.backends 0) (rw one at h)

module _ (route : ModelRoute) (conversation_id : String) where
  label_of_many :
      (failover : Bool)
      → 2 ≤ length route.backends
      → IsLabel
          (length route.backends)
          conversation_id
          failover
          (routing_of route conversation_id failover)
  label_of_many failover many =
      let more : nat_eq (length route.backends) 1 ≡ false = ground arith in rw more (named failover)
    where
      named :
          (f : Bool)
          → IsLabel (length route.backends) conversation_id f (
              let mode = if not (conversation_id == "") then "affinity" else "round_robin" in
              if f then append mode "_failover" else mode)
      named true = elim (Bool-cases (conversation_id == "")) [
        | inl blank ↦ rw blank (round_robin_failover many ((eq_iff conversation_id "").0 blank))
        | inr other ↦ rw other (affinity_failover many (differ conversation_id "" other))
      ]
      named false = elim (Bool-cases (conversation_id == "")) [
        | inl blank ↦ rw blank (round_robin many ((eq_iff conversation_id "").0 blank))
        | inr other ↦ rw other (affinity many (differ conversation_id "" other))
      ]

  label_of :
      (failover : Bool)
      → 0 < length route.backends
      → (failover ≡ true → length route.backends ≡ 1 → ⊥)
      → IsLabel
          (length route.backends)
          conversation_id
          failover
          (routing_of route conversation_id failover)
  label_of failover some_backend alone = elim (le-cases (length route.backends) 1) [
    | inr many ↦ label_of_many failover (omega arith)
    | inl few ↦
        let one : length route.backends ≡ 1 = omega arith in
        single_label failover one (λ f. alone f one)
  ]
    where
      single_label :
          (f : Bool)
          → length route.backends ≡ 1
          → (f ≡ true → ⊥)
          → IsLabel (length route.backends) conversation_id f (routing_of route conversation_id f)
      single_label true one alone' = absurd (alone' refl)
      single_label false one alone' = rw one (single refl)

served :
    (origin : ℕ → String) (healthy : Health) (route : ModelRoute) (conversation_id : String)
    (before : RequestObservation) (found : Selection)
    → IsRoute route
    → (select_healthy_backend healthy route conversation_id).0 ≡ found
    → IsAnswer healthy route conversation_id found
    → IsServed origin healthy route conversation_id before
        (serve_selected origin route conversation_id (some before) found)
served origin healthy route conversation_id before (chosen b failover) v e (is_in, up, reason) = (
  is_in,
  up,
  (
    failover,
    reason,
    (
      routing_of route conversation_id failover,
      label_of route conversation_id failover v.inhabited
          (λ f one. single_alone healthy route conversation_id b v one (e ∙ ap (chosen b) f)),
      (refl, refl, refl, refl),
    ),
  ),
)
served origin healthy route conversation_id before none_healthy v e down =
    (down, (refl, refl, refl, refl))
served origin healthy route conversation_id before panicked v e a = a

-- On a well-formed route, a request is given to a backend of the route that a load found healthy:
-- to the primary of its conversation, or, after the primary was found unhealthy, to one that the
-- search found, the primary too if its health has changed. The state of the request then has the
-- model, the origin and one of the labels single, affinity and round_robin, the last two with
-- _failover exactly after a search; a route of one backend never fails over. Otherwise each backend
-- was found unhealthy by some load, and the request is noted as upstream_unavailable. No request
-- panics.
pub serve_route-IsServed :
    (origin : ℕ → String) (healthy : Health) (route : ModelRoute)
    (account conversation_header : String) (before : RequestObservation)
    → IsRoute route
    → IsServed origin healthy route
        (conversation_key account conversation_header)
        before
        (serve_route origin healthy route account conversation_header (some before)).0
unfolding serve_route
serve_route-IsServed origin healthy route account conversation_header before v =
    let conversation_id = conversation_key account conversation_header in
    served origin healthy route conversation_id before
      (select_healthy_backend healthy route conversation_id).0 v refl
      (answer healthy route conversation_id v)

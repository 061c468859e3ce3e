-- ===== src/Gateway/Membership/Routes.antt =====
-- The routes of a snapshot of gateway/membership.go are as the selection of a backend wants them.
use vire.Base.{
  ℕ, ◌^◌, ◌≤◌, ◌<◌, ◌≡◌, refl, sym, ap, subst, ◌∙◌, inl, inr, Option, none, some, List, [], ◌∷◌,
  length, length-append, if◌then◌else◌, lt→ltb, le→ltb_false, String, ◌==◌, eq_iff, Dict, lookup,
  lookup-set, String-cases, Bool-cases, Option-cases, le-cases, arith,
}
use vire.Gateway.Route.{Ring, ModelRoute, build_ring}
use vire.Gateway.Route.Choice.{IsRoute, IsRingOf, IsAt}
use vire.Gateway.Registry.{Model, Parse}
use vire.Gateway.Registry.Checks.{IsRegistry}
use vire.Gateway.Membership.{
  Server, origin_of, key, Building, backend_for, route_for, append_backend, add_to_route, build_one,
  build_all, build_routing, ring_all, snapshot_of,
}
use vire.Gateway.Membership.Built.{build_routing-Serves}
use vire.Gateway.Membership.Objects.{Serves, IsConsistent, backends_of, origins, some-eq}
use vire.Gateway.Membership.Committed.{PrintsNoNul, IsRegistry-HasNoNul}
use vire.Gateway.Membership.Distinct.{origins-Distinct, Serves-Distinct}

-- A route while it is built.
pub record IsFresh (n : String) (route : ModelRoute) : Type 0 where
  inhabited : 0 < length route.backends
  next : route.next ≡ 0
  ring : route.ring ≡ none
  model : route.model ≡ n

abbrev pub AllFresh : Dict ModelRoute → Type 0
AllFresh d = (n : String) (route : ModelRoute) → lookup n d ≡ some route → IsFresh n route

add_to_route-AllFresh :
    (m : Model) (backend : ℕ) (b : Building)
    → AllFresh b.proxies
    → AllFresh (add_to_route m (backend, b)).proxies
add_to_route-AllFresh m backend b a n route h =
    let at : ModelRoute = append_backend backend (route_for m (lookup m.name b.proxies)) in
    elim (String-cases m.name n) [
      | inl here ↦
          let e : at ≡ route =
            some-eq (sym (lookup-set n m.name at b.proxies ∙ rw ((eq_iff m.name n).1 here)) ∙ h) in
          subst (λ r. IsFresh n r) e
            (subst (λ k. IsFresh k at) here (of_route (lookup m.name b.proxies) refl))
      | inr away ↦ a n route (sym (lookup-set n m.name at b.proxies ∙ rw away) ∙ h)
    ]
  where
    of_route :
        (o : Option ModelRoute)
        → lookup m.name b.proxies ≡ o
        → IsFresh m.name (append_backend backend (route_for m o))
    of_route none e = record { inhabited = omega arith; next = refl; ring = refl; model = refl }
    of_route (some r) e =
        let f = a m.name r e in
        record {
          inhabited = omega (arith, length-append r.backends (backend ∷ []));
          next = f.next;
          ring = f.ring;
          model = f.model;
        }

build_one-AllFresh :
    (parse : Parse) (m : Model) (b : Building)
    → AllFresh b.proxies
    → AllFresh (build_one parse m b).proxies
unfolding build_one
build_one-AllFresh parse m b a =
    elim (Option-cases (lookup (key m.name (origin_of parse m)) b.backends)) [
      | inl e ↦
          rw e
            (add_to_route-AllFresh m (length b.heap) (backend_for m (origin_of parse m) b none).1 a)
      | inr (i, e) ↦ rw e (add_to_route-AllFresh m i b a)
    ]

build_all-AllFresh :
    (parse : Parse) (ms : List Model) (b : Building)
    → AllFresh b.proxies
    → AllFresh (build_all parse ms b).proxies
unfolding build_all
build_all-AllFresh parse [] b a = a
build_all-AllFresh parse (m ∷ ms) b a =
    build_all-AllFresh parse ms (build_one parse m b) (build_one-AllFresh parse m b a)

-- A route of a snapshot is one of the loop, with its ring.
lookup-ring_all :
    (new_ring : List ℕ → Ring) (d : Dict ModelRoute) (n : String) (route : ModelRoute)
    → lookup n (ring_all new_ring d) ≡ some route
    → (r : ModelRoute) × (lookup n d ≡ some r) × (build_ring new_ring r ≡ route)
unfolding lookup ring_all
lookup-ring_all new_ring [] n route h = cc
lookup-ring_all new_ring ((k, r) ∷ d) n route h = elim (Bool-cases (k == n)) [
  | inl here ↦
      let e : build_ring new_ring r ≡ route = some-eq (
        ap (λ b. if b then some (build_ring new_ring r) else lookup n (ring_all new_ring d))
          (sym here)
        ∙ h) in
      rw here (r, refl, e)
  | inr away ↦ rw away (
      lookup-ring_all new_ring d n route (
        ap (λ b. if b then some (build_ring new_ring r) else lookup n (ring_all new_ring d))
          (sym away)
        ∙ h))
]

build_ring-IsRoute :
    (new_ring : List ℕ → Ring) (n : String) (r : ModelRoute)
    → ((members : List ℕ) → 2 ≤ length members → IsRingOf (new_ring members) members)
    → IsFresh n r
    → ((b i j : ℕ) → IsAt b r.backends i → IsAt b r.backends j → i ≡ j)
    → IsRoute (build_ring new_ring r)
unfolding build_ring
build_ring-IsRoute new_ring n r rings f d = elim (le-cases 2 (length r.backends)) [
  | inl many ↦ rw (le→ltb_false (length r.backends) 2 many) (record {
    inhabited = f.inhabited;
    distinct = d;
    counter = subst (λ k. k < 2 ^ 64) (sym f.next) (omega arith);
    ringed = λ h. (new_ring r.backends, refl, rings r.backends h);
    alone = λ h. absurd (omega arith);
  })
  | inr one ↦ rw (lt→ltb (length r.backends) 2 one) (record {
    inhabited = f.inhabited;
    distinct = d;
    counter = subst (λ k. k < 2 ^ 64) (sym f.next) (omega arith);
    ringed = λ h. absurd (omega arith);
    alone = λ h. f.ring;
  })
]

build_routing-AllFresh :
    (parse : Parse) (s : Server) (models : List Model)
    → AllFresh (build_routing parse s models).proxies
unfolding build_routing lookup
build_routing-AllFresh parse s models = build_all-AllFresh parse models _ (λ n route h. cc)

backends_of-some :
    {o : Option ModelRoute} {r : ModelRoute} → o ≡ some r → backends_of o ≡ r.backends
unfolding backends_of
backends_of-some e = rw e

-- Every route that is built for a registry from consistent objects is well-formed.
pub snapshot_of-IsRoute :
    (parse : Parse) (digest : String → String) (new_ring : List ℕ → Ring) (s : Server)
    (models : List Model) (n : String) (route : ModelRoute)
    → PrintsNoNul parse
    → IsConsistent s.heap s.backends
    → IsRegistry parse [] models
    → ((members : List ℕ) → 2 ≤ length members → IsRingOf (new_ring members) members)
    → lookup n (snapshot_of parse digest new_ring models (build_routing parse s models)).proxies
      ≡ some route
    → IsRoute route
snapshot_of-IsRoute parse digest new_ring s models n route p c v rings h =
    let b : Building = build_routing parse s models in
    let (r, e, same) = lookup-ring_all new_ring b.proxies n route h in
    let (serves, _, _) =
      build_routing-Serves parse s models n c (IsRegistry-HasNoNul parse [] models p v) in
    let serves' : Serves b.heap r.backends n (origins parse n models) =
      subst (λ bs. Serves b.heap bs n (origins parse n models)) (backends_of-some e) serves in
    subst IsRoute same (
      build_ring-IsRoute new_ring n r rings (build_routing-AllFresh parse s models n r e) (
        Serves-Distinct b.heap r.backends n (origins parse n models) serves'
          (origins-Distinct parse n [] models v)))

-- ===== src/Gateway/Membership/Built.antt =====
-- The routes that `buildRouting` of gateway/membership.go builds.
use vire.Base.{
  ℕ, ◌≡◌, refl, sym, ap, subst, ◌∙◌, inl, inr, true, false, Option, none, some, List, [], ◌∷◌, ◌++◌,
  length, get_elem?, if◌then◌else◌, String, ◌==◌, eq_refl, lookup, set, lookup-set, String-cases,
  Option-cases,
}
use mathlib.Core.List.{append-nil, append_assoc}
use vire.Gateway.Route.{ModelRoute}
use vire.Gateway.Registry.{Model, Parse}
use vire.Gateway.Membership.{
  RouteBackend, Server, origin_of, key, Building, backend_for, route_for, append_backend,
  add_to_route, build_one, build_all, build_routing,
}
use vire.Gateway.Membership.Keys.{has_nul, key-injective}
use vire.Gateway.Membership.Objects.{
  IsObject, Serves, Grows, IsConsistent, backends_of, origins, HasNoNul, Serves-Grows,
  Serves-append, get_elem?-append, get_elem?-last, some-eq,
}

-- What a round does for its model.
pub record Round (parse : Parse) (m : Model) (b b' : Building) : Type 0 where
  pub backend : ℕ
  pub grows : Grows b.heap b'.heap
  pub is_object : IsObject b'.heap backend m.name (origin_of parse m)
  pub route :
      (n : String)
      → backends_of (lookup n b'.proxies) ≡ (
          if m.name == n
          then backends_of (lookup n b.proxies) ++ backend ∷ []
          else backends_of (lookup n b.proxies))
  pub consistent : IsConsistent b'.heap b'.backends

-- The route of a model gets the backend, and no other route changes.
add_to_route-route :
    (m : Model) (backend : ℕ) (b : Building) (n : String)
    → backends_of (lookup n (add_to_route m (backend, b)).proxies) ≡ (
        if m.name == n
        then backends_of (lookup n b.proxies) ++ backend ∷ []
        else backends_of (lookup n b.proxies))
unfolding backends_of
add_to_route-route m backend b n = elim (String-cases m.name n) [
  | inl here ↦
      rw
        (lookup-set n m.name (append_backend backend (route_for m (lookup m.name b.proxies)))
          b.proxies)
        (rw (sym here, eq_refl m.name) (of_route (lookup m.name b.proxies)))
  | inr away ↦
      rw
        (lookup-set n m.name (append_backend backend (route_for m (lookup m.name b.proxies)))
          b.proxies)
        (rw away refl)
]
  where
    of_route :
        (o : Option ModelRoute)
        → (route_for m o).backends ++ backend ∷ [] ≡ backends_of o ++ backend ∷ []
    of_route none = refl
    of_route (some r) = refl

module _ (parse : Parse) (m : Model) (b : Building) (c : IsConsistent b.heap b.backends)
    (no_nul : has_nul (origin_of parse m) ≡ false) where
  abbrev object : RouteBackend
  object = record { origin = origin_of parse m; model = m.name; healthy = true }

  abbrev own_key : String
  own_key = key m.name (origin_of parse m)

  -- The map with the new backend is consistent.
  set-IsConsistent : IsConsistent (b.heap ++ object ∷ []) (set own_key (length b.heap) b.backends)
  set-IsConsistent k i h = elim (String-cases own_key k) [
    | inl here ↦
        let e : length b.heap ≡ i = some-eq (
          sym (lookup-set own_key own_key (length b.heap) b.backends ∙ rw (eq_refl own_key))
          ∙ ap (λ j. lookup j (set own_key (length b.heap) b.backends)) here
          ∙ h) in
        (
          object,
          ap (get_elem? (b.heap ++ object ∷ [])) (sym e) ∙ get_elem?-last b.heap object,
          here,
          no_nul,
        )
    | inr away ↦
        let e : lookup k b.backends ≡ some i =
          ap (λ t. if t then some (length b.heap) else lookup k b.backends) (sym away)
          ∙ sym (lookup-set k own_key (length b.heap) b.backends)
          ∙ h in
        let (x, at, same, clean) = c k i e in
        (x, get_elem?-append b.heap (object ∷ []) i x at, same, clean)
  ]

  new_Round : Round parse m b (add_to_route m (backend_for m (origin_of parse m) b none))
  new_Round = record {
    backend = length b.heap;
    grows = get_elem?-append b.heap (object ∷ []);
    is_object = record {
      object = object;
      at = get_elem?-last b.heap object;
      model = refl;
      origin_is = refl;
    };
    route = add_to_route-route m (length b.heap) b;
    consistent = set-IsConsistent;
  }

  old_Round :
      (i : ℕ)
      → lookup own_key b.backends ≡ some i
      → Round parse m b (add_to_route m (backend_for m (origin_of parse m) b (some i)))
  old_Round i e =
      let (x, at, same, clean) = c own_key i e in
      let (names, origins) =
        key-injective x.model m.name x.origin (origin_of parse m) clean no_nul same in
      record {
        backend = i;
        grows = λ j y h. h;
        is_object = record { object = x; at = at; model = names; origin_is = origins };
        route = add_to_route-route m i b;
        consistent = c;
      }

  pub build_one-Round : Round parse m b (build_one parse m b)
  unfolding build_one
  build_one-Round = elim (Option-cases (lookup own_key b.backends)) [
    | inl e ↦ rw e new_Round
    | inr (i, e) ↦ rw e (old_Round i e)
  ]

-- A route after the loop has the backends that it had, then those of the models that followed.
build_all-Serves :
    (parse : Parse) (ms : List Model) (b : Building) (n : String) (os : List String)
    → IsConsistent b.heap b.backends
    → HasNoNul parse ms
    → Serves b.heap (backends_of (lookup n b.proxies)) n os
    → Serves
        (build_all parse ms b).heap
        (backends_of (lookup n (build_all parse ms b).proxies))
        n
        (os ++ origins parse n ms)
      × IsConsistent (build_all parse ms b).heap (build_all parse ms b).backends
      × Grows b.heap (build_all parse ms b).heap
unfolding build_all origins
build_all-Serves parse [] b n os c clean s = (rw (append-nil os) s, c, λ i x h. h)
build_all-Serves parse (m ∷ ms) b n os c (no_nul, clean) s =
    let r = build_one-Round parse m b c no_nul in
    let s' : Serves (build_one parse m b).heap (backends_of (lookup n b.proxies)) n os =
      Serves-Grows b.heap (build_one parse m b).heap (backends_of (lookup n b.proxies)) n os r.grows
        s in
    elim (String-cases m.name n) [
      | inl here ↦
          let t : (m.name == n) ≡ true = ap (λ k. m.name == k) (sym here) ∙ eq_refl m.name in
          let e : backends_of (lookup n (build_one parse m b).proxies)
              ≡ backends_of (lookup n b.proxies) ++ r.backend ∷ [] =
            r.route n ∙ rw t in
          let x : IsObject (build_one parse m b).heap r.backend n (origin_of parse m) =
            subst (λ k. IsObject (build_one parse m b).heap r.backend k (origin_of parse m)) here
              r.is_object in
          let (u, c', g) =
            build_all-Serves parse ms (build_one parse m b) n (os ++ origin_of parse m ∷ [])
              r.consistent clean
              (subst (λ bs. Serves (build_one parse m b).heap bs n (os ++ origin_of parse m ∷ []))
                (sym e)
                (Serves-append (build_one parse m b).heap (backends_of (lookup n b.proxies)) n os
                  r.backend (origin_of parse m) s' x)) in
          (
            rw t (
                subst
                  (λ qs.
                    Serves (build_all parse ms (build_one parse m b)).heap
                      (backends_of (lookup n (build_all parse ms (build_one parse m b)).proxies)) n
                      qs)
                  (append_assoc os (origin_of parse m ∷ []) (origins parse n ms)) u),
            c',
            λ i y h. g i y (r.grows i y h),
          )
      | inr away ↦
          let e : backends_of (lookup n (build_one parse m b).proxies)
              ≡ backends_of (lookup n b.proxies) =
            r.route n ∙ rw away in
          let (t, c', g) =
            build_all-Serves parse ms (build_one parse m b) n os r.consistent clean
              (subst (λ bs. Serves (build_one parse m b).heap bs n os) (sym e) s') in
          (rw away t, c', λ i x h. g i x (r.grows i x h))
    ]

lookup_nil : (n : String) → backends_of (lookup n []) ≡ []
unfolding lookup backends_of
lookup_nil n = refl

-- The routes that are built from consistent objects have the backends of the entries, in their order.
pub build_routing-Serves :
    (parse : Parse) (s : Server) (models : List Model) (n : String)
    → IsConsistent s.heap s.backends
    → HasNoNul parse models
    → Serves
        (build_routing parse s models).heap
        (backends_of (lookup n (build_routing parse s models).proxies))
        n
        (origins parse n models)
      × IsConsistent (build_routing parse s models).heap (build_routing parse s models).backends
      × Grows s.heap (build_routing parse s models).heap
unfolding build_routing
build_routing-Serves parse s models n c clean =
    build_all-Serves parse models _ n [] c clean
      (subst (λ bs. Serves s.heap bs n []) (sym (lookup_nil n)) tt)

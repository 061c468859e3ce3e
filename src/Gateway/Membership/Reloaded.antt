-- ===== src/Gateway/Membership/Reloaded.antt =====
-- What `ReloadRegistry` of gateway/membership.go leaves.
use vire.Base.{
  ℕ, ◌≡◌, ◌≢◌, refl, sym, ap, subst, ◌∙◌, ◌⊎◌, inl, inr, Option, none, some, List, [], ◌∷◌, length,
  if◌then◌else◌, String, ◌==◌, eq_refl, Dict, lookup, String-cases, Bool-cases,
}
use vire.Gateway.Route.{Ring}
use vire.Gateway.Registry.{Model, Parse, RegistryError, RegistryFile, load_models}
use vire.Gateway.Membership.{
  RouteBackend, Server, Building, build_routing, same_catalog, membership_fingerprint,
}
use vire.Gateway.Membership.Reload.{
  roll_back, Probe, probe_added, is_active, keep_active, updated, publish, reload_models,
  reload_registry,
}
use vire.Gateway.Membership.Objects.{Grows}
use vire.Gateway.Membership.Undone.{contains, KeyedBy-Keeps, lookup-roll_back, build_routing-Undoes}
use vire.Gateway.Membership.Probed.{probe_added-Keeps, probe_added-Grows}

-- Only the count of reload errors and new objects tell the states apart.
pub record Unaltered (s s' : Server) : Type 0 where
  pub routing : s'.routing ≡ s.routing
  pub catalog : s'.catalog ≡ s.catalog
  pub backends : (k : String) → lookup k s'.backends ≡ lookup k s.backends
  pub objects : Grows s.heap s'.heap

pub lookup-keep_active :
    (models : List Model) (d : Dict ℕ) (k : String)
    → lookup k (keep_active models d) ≡ (if is_active models k then lookup k d else none)
unfolding lookup keep_active
lookup-keep_active models [] k = elim (Bool-cases (is_active models k)) [
  | inl a ↦ rw a
  | inr a ↦ rw a
]
lookup-keep_active models ((j, b) ∷ d) k = elim (Bool-cases (is_active models j)) [
  | inl a ↦ elim (String-cases j k) [
    | inl here ↦ rw (a, sym here, eq_refl j, a)
    | inr away ↦ rw (a, away, lookup-keep_active models d k)
  ]
  | inr a ↦ elim (String-cases j k) [
    | inl here ↦ rw (a, lookup-keep_active models d k, sym here, eq_refl j, a)
    | inr away ↦ rw (a, away, lookup-keep_active models d k)
  ]
]

module _ (parse : Parse) (digest : String → String) (new_ring : List ℕ → Ring)
    (probe : ℕ → Probe) where
  -- What is undone is undone whole, also where the probes have changed the new objects.
  rolled_back :
      (s : Server) (models : List Model) (k : String)
      → let b = build_routing parse s models in
        lookup k (roll_back (probe_added probe b.added b.heap).1 b.added b.backends)
        ≡ lookup k s.backends
  rolled_back s models k =
      let b : Building = build_routing parse s models in
      let u = build_routing-Undoes parse s models in
      let v =
        KeyedBy-Keeps (length s.heap) b.heap (probe_added probe b.added b.heap).1 b.added u.keys
          (probe_added-Keeps probe b.added b.heap) u.keyed in
      lookup-roll_back (length s.heap) (probe_added probe b.added b.heap).1 b.added u.keys
        b.backends k v
      ∙ elim (Bool-cases (contains k u.keys)) [
        | inl listed ↦ rw listed (sym (u.fresh k listed))
        | inr other ↦ rw other (u.same k other)
      ]

  pub probed-Grows :
      (s : Server) (models : List Model)
      → let b = build_routing parse s models in Grows s.heap (probe_added probe b.added b.heap).1
  probed-Grows s models =
      let b : Building = build_routing parse s models in
      let u = build_routing-Undoes parse s models in
      probe_added-Grows probe s.heap (length s.heap) b.added u.keys b.heap b.heap refl u.keyed
        u.grows

  publish-Unaltered :
      (s : Server) (models : List Model) (r : Option ℕ × List RouteBackend)
      → (probe_added probe (build_routing parse s models).added (build_routing parse s models).heap)
        ≡ r
      → (publish parse digest new_ring probe s models (build_routing parse s models) r).0 ≢ updated
      → Unaltered s
          (publish parse digest new_ring probe s models (build_routing parse s models) r).1
  publish-Unaltered s models (none, heap) e h = absurd (h refl)
  publish-Unaltered s models (some bad, heap) e h = record {
    routing = refl;
    catalog = refl;
    backends = λ k.
        ap
          (λ (p : Option ℕ × List RouteBackend). lookup k (
            roll_back p.1 (build_routing parse s models).added
              (build_routing parse s models).backends))
          (sym e)
        ∙ rolled_back s models k;
    objects =
        subst (λ (p : Option ℕ × List RouteBackend). Grows s.heap p.1) e (probed-Grows s models);
  }

  reload_models-Unaltered :
      (s : Server) (loaded : RegistryError ⊎ List Model)
      → (reload_models parse digest new_ring probe s loaded).0 ≢ updated
      → Unaltered s (reload_models parse digest new_ring probe s loaded).1
  reload_models-Unaltered s (inl failure) h = record {
    routing = refl;
    catalog = refl;
    backends = λ k. refl;
    objects = λ i x e. e;
  }
  reload_models-Unaltered s (inr models) h = elim (Bool-cases (same_catalog s.catalog models)) [
    | inr other ↦
        rw other
          (record { routing = refl; catalog = refl; backends = λ k. refl; objects = λ i x e. e })
    | inl same ↦
        elim (Bool-cases (membership_fingerprint parse digest models == s.routing.fingerprint)) [
          | inl known ↦
              rw (same, known)
                (record {
                  routing = refl;
                  catalog = refl;
                  backends = λ k. refl;
                  objects = λ i x e. e;
                })
          | inr new ↦ rw (same, new) (publish-Unaltered s models _ refl (λ e. h (rw (same, new) e)))
        ]
  ]

  -- A reload that does not publish a new routing, for an invalid registry, a changed catalog, an
  -- unchanged membership or a new backend that is not healthy, leaves the routing, the catalog and
  -- each entry of the map of backends as they were, and every object that there was before.
  pub reload_registry-Unaltered :
      (s : Server) (file : RegistryFile)
      → (reload_registry parse digest new_ring probe s file).0 ≢ updated
      → Unaltered s (reload_registry parse digest new_ring probe s file).1
  unfolding reload_registry
  reload_registry-Unaltered s file h = reload_models-Unaltered s (load_models parse file) h

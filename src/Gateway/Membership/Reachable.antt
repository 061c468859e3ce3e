-- ===== src/Gateway/Membership/Reachable.antt =====
-- The states of the server that its start, reloads of the registry and probes reach, in any order:
-- gateway/membership.go and `NewServerWithOptions` of gateway/server.go.
use vire.Base.{
  ℕ, ◌≤◌, length, ◌≡◌, ◌≢◌, refl, sym, ap, subst, ◌∙◌, ◌⊎◌, inl, inr, some, List, [], String,
  lookup,
}
use vire.Gateway.Route.{Ring, ModelRoute}
use vire.Gateway.Route.Choice.{IsRoute, IsRingOf}
use vire.Gateway.Registry.{Model, Parse, RegistryError, RegistryFile, load_models}
use vire.Gateway.Registry.Checks.{IsRegistry, inr-eq}
use vire.Gateway.Registry.Loaded.{load_models-array}
use vire.Gateway.Membership.{Server, RoutingSnapshot, build_routing}
use vire.Gateway.Membership.Reload.{
  Probe, probe_backend, Reload, rejected, catalog_changed, unchanged, updated, unhealthy,
  reload_registry, empty_server, start_server, new_server,
}
use vire.Gateway.Membership.Built.{build_routing-Serves}
use vire.Gateway.Membership.Objects.{Serves, Serves-Grows, IsConsistent, backends_of, origins}
use vire.Gateway.Membership.Probed.{probe_backend-Keeps}
use vire.Gateway.Membership.Reloaded.{Unaltered, reload_registry-Unaltered}
use vire.Gateway.Membership.Committed.{
  PrintsNoNul, IsRegistry-HasNoNul, Committed, reload_registry-Committed, Keeps-IsConsistent,
  Keeps-Serves, lookup-ring_all,
}
use vire.Gateway.Membership.Routes.{snapshot_of-IsRoute}

-- The server routes what its registry lists, and nothing else.
pub record IsServing (parse : Parse) (s : Server) : Type 0 where
  pub is_registry : IsRegistry parse [] s.routing.models
  pub consistent : IsConsistent s.heap s.backends
  pub serves :
      (name : String)
      → Serves s.heap
          (backends_of (lookup name s.routing.proxies))
          name
          (origins parse name s.routing.models)
  pub routes :
      (name : String) (route : ModelRoute)
      → lookup name s.routing.proxies ≡ some route
      → IsRoute route

updated-cases : (r : Reload) → (r ≡ updated) ⊎ (r ≢ updated)
updated-cases updated = inl refl
updated-cases (rejected e) = inr (λ h. cc)
updated-cases catalog_changed = inr (λ h. cc)
updated-cases unchanged = inr (λ h. cc)
updated-cases (unhealthy b) = inr (λ h. cc)

module _ (parse : Parse) (digest : String → String) (new_ring : List ℕ → Ring)
    (clean : PrintsNoNul parse)
    (rings : (members : List ℕ) → 2 ≤ length members → IsRingOf (new_ring members) members) where
  Unaltered-IsServing : (s s' : Server) → Unaltered s s' → IsServing parse s → IsServing parse s'
  Unaltered-IsServing s s' u v = record {
    is_registry =
        subst (λ (r : RoutingSnapshot). IsRegistry parse [] r.models) (sym u.routing) v.is_registry;
    consistent = λ k b h.
        let (x, at, same, no_nul) = v.consistent k b (sym (u.backends k) ∙ h) in
        (x, u.objects b x at, same, no_nul);
    serves = λ name.
        subst
          (λ (r : RoutingSnapshot).
            Serves s'.heap (backends_of (lookup name r.proxies)) name (origins parse name r.models))
          (sym u.routing)
          (Serves-Grows s.heap s'.heap (backends_of (lookup name s.routing.proxies)) name
            (origins parse name s.routing.models) u.objects (v.serves name));
    routes = λ name route h.
        v.routes name route
          (ap (λ (r : RoutingSnapshot). lookup name r.proxies) (sym u.routing) ∙ h);
  }

  Committed-IsServing :
      (probe : ℕ → Probe) (s s' : Server) (models : List Model)
      → IsConsistent s.heap s.backends
      → Committed parse digest new_ring probe s models s'
      → IsServing parse s'
  Committed-IsServing probe s s' models c p = record {
    is_registry =
        subst (λ (r : RoutingSnapshot). IsRegistry parse [] r.models) (sym p.routing) p.is_registry;
    consistent = p.consistent;
    serves = λ name.
        subst
          (λ ms.
            Serves s'.heap (backends_of (lookup name s'.routing.proxies)) name
              (origins parse name ms))
          (ap (λ (r : RoutingSnapshot). r.models) (sym p.routing)) (p.serves name);
    routes = λ name route h.
        snapshot_of-IsRoute parse digest new_ring s models name route clean c p.is_registry rings
          (ap (λ (r : RoutingSnapshot). lookup name r.proxies) (sym p.routing) ∙ h);
  }

  pub reload_registry-IsServing :
      (probe : ℕ → Probe) (s : Server) (file : RegistryFile)
      → IsServing parse s
      → IsServing parse (reload_registry parse digest new_ring probe s file).1
  reload_registry-IsServing probe s file v =
      elim (updated-cases (reload_registry parse digest new_ring probe s file).0) [
        | inl e ↦
            let (models, at, p) =
              reload_registry-Committed parse digest new_ring probe s file clean v.consistent e in
            Committed-IsServing probe s _ models v.consistent p
        | inr e ↦
            Unaltered-IsServing s _ (reload_registry-Unaltered parse digest new_ring probe s file e)
              v
      ]

  probed-IsServing :
      (s : Server) (b : ℕ) (p : Probe)
      → IsServing parse s
      → IsServing parse (record s { heap = (probe_backend p b s.heap).1 })
  probed-IsServing s b p v = record {
    is_registry = v.is_registry;
    consistent =
        Keeps-IsConsistent s.heap _ s.backends (probe_backend-Keeps p b s.heap) v.consistent;
    serves = λ name.
        Keeps-Serves s.heap _ (backends_of (lookup name s.routing.proxies)) name
          (origins parse name s.routing.models) (probe_backend-Keeps p b s.heap) (v.serves name);
    routes = v.routes;
  }

  empty-IsConsistent : IsConsistent [] []
  unfolding lookup
  empty-IsConsistent k b h = cc

  start_server-IsServing :
      (models : List Model)
      → IsRegistry parse [] models
      → IsServing parse (start_server parse digest new_ring models)
  unfolding start_server
  start_server-IsServing models v =
      let (_, c, _) =
        build_routing-Serves parse (empty_server models) models "" empty-IsConsistent
          (IsRegistry-HasNoNul parse [] models clean v) in
      record {
        is_registry = v;
        consistent = c;
        serves = λ name.
            let (t, _, _) =
              build_routing-Serves parse (empty_server models) models name empty-IsConsistent
                (IsRegistry-HasNoNul parse [] models clean v) in
            subst
              (λ bs.
                Serves (build_routing parse (empty_server models) models).heap bs name
                  (origins parse name models))
              (sym (
                lookup-ring_all new_ring (build_routing parse (empty_server models) models).proxies
                  name))
              t;
        routes = λ name route h.
            snapshot_of-IsRoute parse digest new_ring (empty_server models) models name route clean
              empty-IsConsistent v rings h;
      }

  -- What may happen to a server: a reload, or a probe of a backend.
  pub data Step : Server → Server → Type 0 where
    reload :
        (probe : ℕ → Probe) (file : RegistryFile) {s : Server}
        → Step s (reload_registry parse digest new_ring probe s file).1
    probed :
        (b : ℕ) (p : Probe) {s : Server} → Step s (record s { heap = (probe_backend p b s.heap).1 })

  pub data Reachable (file : RegistryFile) : Server → Type 0 where
    start : {s : Server} → new_server parse digest new_ring file ≡ inr s → Reachable file s
    step : {s s' : Server} → Reachable file s → Step s s' → Reachable file s'

  new_server-IsServing :
      (file : RegistryFile) (s : Server)
      → new_server parse digest new_ring file ≡ inr s
      → IsServing parse s
  unfolding new_server
  new_server-IsServing file s h = go (load_models parse file) refl h
    where
      go :
          (l : RegistryError ⊎ List Model)
          → load_models parse file ≡ l
          → (elim l [
            | inl e ↦ inl e
            | inr models ↦ inr (start_server parse digest new_ring models)
          ])
            ≡ inr s
          → IsServing parse s
      go (inl e) at g = cc
      go (inr models) at g =
          let (_, v) = load_models-array parse file models at in
          subst (IsServing parse) (inr-eq g) (start_server-IsServing models v)

  -- If a URL that parses is printed without a NUL and a ring of two or more members is one of these
  -- members, then after a start of the server and any reloads of the registry and probes in any
  -- order, the models of the published routing form a registry, the route of each name has exactly
  -- the backends of its entries, in their order, and the route of a name is one that the selection
  -- of a backend accepts: not empty, with no backend twice, and with a ring if there are two.
  pub Reachable-IsServing :
      (file : RegistryFile) (s : Server) → Reachable file s → IsServing parse s
  Reachable-IsServing file s (start e) = new_server-IsServing file s e
  Reachable-IsServing file s (step r (reload probe again)) =
      reload_registry-IsServing probe _ again (Reachable-IsServing file _ r)
  Reachable-IsServing file s (step r (probed b p)) =
      probed-IsServing _ b p (Reachable-IsServing file _ r)

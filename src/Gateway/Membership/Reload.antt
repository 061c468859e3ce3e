-- ===== src/Gateway/Membership/Reload.antt =====
-- gateway/membership.go: probes and `ReloadRegistry`; gateway/server.go: the state that the server
-- starts with.
use vire.Base.{
  ℕ, zero, suc, ◌+◌, Bool, false, not, ◌||◌, Option, none, some, List, [], ◌∷◌, ◌⊎◌, inl, inr,
  get_elem?, nat_eq, if◌then◌else◌, String, ◌==◌, Dict, delete,
}
use vire.Gateway.Route.{Ring}
use vire.Gateway.Registry.{Model, Parse, trim_slash, RegistryError, RegistryFile, load_models}
use vire.Gateway.Membership.{
  RouteBackend, Server, key, model_catalog, same_catalog, membership_fingerprint, Building,
  build_routing, snapshot_of,
}

-- What a probe meets: no request can be made, the context is done, no response, or a status.
pub data Probe : Type 0 where
  unsent cancelled failed : Probe
  answered : ℕ → Probe

abbrev pub set_healthy : Bool → List RouteBackend → ℕ → List RouteBackend
set_healthy h [] b = []
set_healthy h (x ∷ heap) zero = record x { healthy = h } ∷ heap
set_healthy h (x ∷ heap) (suc b) = x ∷ set_healthy h heap b

-- `probeBackend`
unfoldable pub probe_backend : Probe → ℕ → List RouteBackend → Bool × List RouteBackend
probe_backend unsent b heap = (false, heap)
probe_backend cancelled b heap = (false, heap)
probe_backend failed b heap = (false, set_healthy false heap b)
probe_backend (answered status) b heap = (nat_eq status 200, set_healthy (nat_eq status 200) heap b)

-- The loop over the added backends: the one that is not healthy, if there is one.
unfoldable pub probe_added : (ℕ → Probe) → List ℕ → List RouteBackend → Option ℕ × List RouteBackend
probe_added probe [] heap = (none, heap)
probe_added probe (b ∷ bs) heap =
    let probed = probe_backend (probe b) b heap in
    let rest = probe_added probe bs probed.1 in if probed.0 then rest else (some b, probed.1)

abbrev pub key_of : Option RouteBackend → Option String
key_of none = none
key_of (some x) = some (key x.model x.origin)

abbrev pub key_at : List RouteBackend → ℕ → Option String
key_at heap b = key_of (get_elem? heap b)

abbrev pub delete_key : Option String → Dict ℕ → Dict ℕ
delete_key none backends = backends
delete_key (some k) backends = delete k backends

-- The added backends leave the map.
unfoldable pub roll_back : List RouteBackend → List ℕ → Dict ℕ → Dict ℕ
roll_back heap [] backends = backends
roll_back heap (b ∷ bs) backends = roll_back heap bs (delete_key (key_at heap b) backends)

-- `active[key]`: the keys are of the URLs as the registry writes them.
unfoldable pub is_active : List Model → String → Bool
is_active [] k = false
is_active (model ∷ models) k = key model.name (trim_slash model.url) == k || is_active models k

-- The loop that deletes what is not active.
unfoldable pub keep_active : List Model → Dict ℕ → Dict ℕ
keep_active models [] = []
keep_active models ((k, b) ∷ backends) =
    let rest = keep_active models backends in if is_active models k then (k, b) ∷ rest else rest

-- What `ReloadRegistry` returns: an error, nil where nothing was to do, or nil.
pub data Reload : Type 0 where
  rejected : RegistryError → Reload
  catalog_changed unchanged updated : Reload
  unhealthy : ℕ → Reload

abbrev pub count_error : Server → Server
count_error s = record s { reload_errors = s.reload_errors + 1 }

module _ (parse : Parse) (digest : String → String) (new_ring : List ℕ → Ring)
    (probe : ℕ → Probe) where
  -- The part of `ReloadRegistry` after the probes.
  abbrev pub publish :
      Server → List Model → Building → Option ℕ × List RouteBackend → Reload × Server
  publish s models b (some bad, heap) = (
    unhealthy bad,
    count_error (record s { heap = heap; backends = roll_back heap b.added b.backends }),
  )
  publish s models b (none, heap) = (
    updated,
    record s {
      routing = snapshot_of parse digest new_ring models b;
      heap = heap;
      backends = keep_active models b.backends;
    },
  )

  abbrev pub reload_models : Server → RegistryError ⊎ List Model → Reload × Server
  reload_models s (inl failure) = (rejected failure, count_error s)
  reload_models s (inr models) =
      let b = build_routing parse s models in
      if not (same_catalog s.catalog models)
      then (catalog_changed, count_error s)
      else if membership_fingerprint parse digest models == s.routing.fingerprint
      then (unchanged, s)
      else publish s models b (probe_added probe b.added b.heap)

  -- `ReloadRegistry`
  unfoldable pub reload_registry : Server → RegistryFile → Reload × Server
  reload_registry s file = reload_models s (load_models parse file)

-- The server that `NewServerWithOptions` has made before its first `buildRouting`.
abbrev pub empty_server : List Model → Server
empty_server models = record {
  catalog = model_catalog models;
  routing = record { models = []; proxies = []; fingerprint = "" };
  backends = [];
  heap = [];
  reload_errors = 0;
}

-- The server with the routing that it stores.
unfoldable pub start_server : Parse → (String → String) → (List ℕ → Ring) → List Model → Server
start_server parse digest new_ring models =
    let b = build_routing parse (empty_server models) models in
    record (empty_server models) {
      routing = snapshot_of parse digest new_ring models b;
      backends = b.backends;
      heap = b.heap;
    }

-- `NewServerWithOptions`, as far as the registry goes.
unfoldable pub new_server :
    Parse → (String → String) → (List ℕ → Ring) → RegistryFile → RegistryError ⊎ Server
new_server parse digest new_ring file = elim (load_models parse file) [
  | inl failure ↦ inl failure
  | inr models ↦ inr (start_server parse digest new_ring models)
]

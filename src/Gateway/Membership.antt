-- ===== src/Gateway/Membership.antt =====
-- gateway/membership.go: the routing that a registry gives, and `ReloadRegistry` under its lock. A
-- backend is the number of its object: `heap` holds the objects. `url.Parse`, the digest of
-- `membershipFingerprint` (sha256 and hex), `consistent.New` and what the probes meet are arguments.
-- Of the metrics only the count of reload errors is kept.
pub mod Keys
pub mod Reload
pub mod Objects
pub mod Built
pub mod Distinct
pub mod Undone
pub mod Probed
pub mod Reloaded
pub mod Kept
pub mod Catalog
pub mod Committed
pub mod Published
pub mod Routes
pub mod Reachable
mod Tests
use vire.Base.{
  ℕ, zero, suc, ◌+◌, Bool, true, false, not, ◌&&◌, ◌||◌, Option, none, some, List, [], ◌∷◌, ◌++◌,
  ◌⊎◌, inl, inr, map, length, get_elem?, nat_eq, if◌then◌else◌, String, ◌==◌, Dict, lookup, set,
  delete,
}
use Prim.Native.Char.{nul}
use Prim.Native.Nat.{Ordering}
use Prim.Native.String.{◌++◌ as append, compare}
use vire.Gateway.Route.{Ring, ModelRoute, build_ring}
use vire.Gateway.Registry.{
  Model, Url, Parse, same_pricing, trim_slash, RegistryError, RegistryFile, load_models,
}

-- `routeBackend`, less its proxy.
pub record RouteBackend : Type 0 where
  pub origin : String
  pub model : String
  pub healthy : Bool

-- `routingSnapshot`
pub record RoutingSnapshot : Type 0 where
  pub models : List Model
  pub proxies : Dict ModelRoute
  pub fingerprint : String

-- The fields of `Server` that membership reads and writes.
pub record Server : Type 0 where
  pub catalog : Dict Model
  pub routing : RoutingSnapshot
  pub backends : Dict ℕ
  pub heap : List RouteBackend
  pub reload_errors : ℕ

-- `strings.TrimSuffix(target.String(), "/")`; `loadModels` has refused a URL that does not parse.
abbrev pub printed : Option Url → String
printed none = ""
printed (some target) = trim_slash target.printed

abbrev pub origin_of : Parse → Model → String
origin_of parse model = printed (parse model.url)

-- `name + "\x00" + origin`
unfoldable pub key : String → String → String
key name origin = append name (String.◌∷◌ nul origin)

-- `modelCatalog`
unfoldable pub add_models : List Model → Dict Model → Dict Model
add_models [] catalog = catalog
add_models (model ∷ models) catalog = add_models models (set model.name model catalog)

abbrev pub model_catalog : List Model → Dict Model
model_catalog models = add_models models []

abbrev pub same_metadata : Model → Option Model → Bool
same_metadata previous none = false
same_metadata previous (some model) =
    previous.display_name == model.display_name && same_pricing previous.pricing model.pricing

-- The loop over the catalog.
unfoldable pub all_same : Dict Model → Dict Model → Bool
all_same [] next = true
all_same ((name, previous) ∷ catalog) next =
    same_metadata previous (lookup name next) && all_same catalog next

-- `sameCatalog`
unfoldable pub same_catalog : Dict Model → List Model → Bool
same_catalog catalog models =
    nat_eq (length (model_catalog models)) (length catalog)
    && all_same catalog (model_catalog models)

-- `slices.Sort` on texts: the order of their bytes.
unfoldable pub insert_text : String → List String → List String
insert_text s [] = s ∷ []
insert_text s (t ∷ ts) =
    let rest = insert_text s ts in elim (compare s t) [ Ordering.gt ↦ t ∷ rest | _ ↦ s ∷ t ∷ ts ]

unfoldable pub sort : List String → List String
sort [] = []
sort (s ∷ ss) = insert_text s (sort ss)

-- `strings.Join(members, "\n")`
abbrev pub join : List String → String
join [] = ""
join (s ∷ []) = s
join (s ∷ t ∷ ss) = append s (append "\n" (join (t ∷ ss)))

-- `membershipFingerprint`
unfoldable pub membership_fingerprint : Parse → (String → String) → List Model → String
membership_fingerprint parse digest models = digest (
    append "consistent-xxhash-4093-20-1.25-v1\n"
      (join (sort (map (λ (m : Model). key m.name (origin_of parse m)) models))))

-- What the loop of `buildRouting` has built so far.
pub record Building : Type 0 where
  pub heap : List RouteBackend
  pub backends : Dict ℕ
  pub added : List ℕ
  pub proxies : Dict ModelRoute

-- The backend of a key, or a new one.
abbrev pub backend_for : Model → String → Building → Option ℕ → ℕ × Building
backend_for model origin b (some backend) = (backend, b)
backend_for model origin b none = (
  length b.heap,
  record b {
    heap = b.heap ++ record { origin = origin; model = model.name; healthy = true } ∷ [];
    backends = set (key model.name origin) (length b.heap) b.backends;
    added = b.added ++ length b.heap ∷ [];
  },
)

abbrev pub route_for : Model → Option ModelRoute → ModelRoute
route_for model (some route) = route
route_for model none = record { backends = []; ring = none; next = 0; model = model.name }

abbrev pub append_backend : ℕ → ModelRoute → ModelRoute
append_backend backend route = record route { backends = route.backends ++ backend ∷ [] }

abbrev pub add_to_route : Model → ℕ × Building → Building
add_to_route model (backend, b) = record b {
  proxies =
      set model.name (append_backend backend (route_for model (lookup model.name b.proxies)))
        b.proxies;
}

-- One round of the loop.
unfoldable pub build_one : Parse → Model → Building → Building
build_one parse model b =
    let origin = origin_of parse model in
    add_to_route model (backend_for model origin b (lookup (key model.name origin) b.backends))

unfoldable pub build_all : Parse → List Model → Building → Building
build_all parse [] b = b
build_all parse (model ∷ models) b = build_all parse models (build_one parse model b)

unfoldable pub ring_all : (List ℕ → Ring) → Dict ModelRoute → Dict ModelRoute
ring_all new_ring [] = []
ring_all new_ring ((name, route) ∷ proxies) =
    (name, build_ring new_ring route) ∷ ring_all new_ring proxies

-- `buildRouting`: the snapshot is `snapshot_of` what the loop has built.
unfoldable pub build_routing : Parse → Server → List Model → Building
build_routing parse s models =
    build_all parse models
      (record { heap = s.heap; backends = s.backends; added = []; proxies = [] })

abbrev pub snapshot_of :
    Parse → (String → String) → (List ℕ → Ring) → List Model → Building → RoutingSnapshot
snapshot_of parse digest new_ring models b = record {
  models = models;
  proxies = ring_all new_ring b.proxies;
  fingerprint = membership_fingerprint parse digest models;
}

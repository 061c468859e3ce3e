-- ===== src/Gateway/Membership/Published.antt =====
-- What a reload that `ReloadRegistry` of gateway/membership.go publishes has changed.
use mathlib.Core.List.{Memᴰ}
use vire.Base.{
  IsMap, HasKey, ℕ, ◌≡◌, refl, sym, ap, ◌∙◌, inl, inr, Bool, true, false, Option, none, some, List,
  [], String, lookup, Bool-cases, if◌then◌else◌, get_elem?,
}
use vire.Gateway.Route.{Ring}
use vire.Gateway.Registry.{Model, Parse, trim_slash, RegistryFile, array}
use vire.Gateway.Registry.Checks.{IsRegistry}
use vire.Gateway.Membership.{RouteBackend, Server, key, build_routing, RoutingSnapshot}
use vire.Gateway.Membership.Reload.{Probe, answered, is_active, updated, reload_registry}
use vire.Gateway.Membership.Objects.{Grows, Serves, IsConsistent, backends_of, origins}
use vire.Gateway.Membership.Undone.{contains, build_routing-Undoes}
use vire.Gateway.Membership.Kept.{build_routing-Adds, AllAnswered-Mem, is_active-Mem, Mem-is_active}
use vire.Gateway.Membership.Catalog.{Remains, same_catalog-Remains, same_catalog-HasKey}
use vire.Gateway.Membership.Committed.{PrintsNoNul, Committed, reload_registry-Committed}

-- The server after a reload that has published the models of the file.
pub record Published (parse : Parse) (probe : ℕ → Probe) (s : Server) (models : List Model)
    (s' : Server) : Type 0 where
  pub is_registry : IsRegistry parse [] models
  pub lists : s'.routing.models ≡ models
  pub remains : (name : String) (old : Model) → Memᴰ (name, old) s.catalog → Remains models name old
  pub known : (m : Model) → Memᴰ m models → HasKey m.name s.catalog
  pub serves :
      (name : String)
      → Serves s'.heap
          (backends_of (lookup name s'.routing.proxies))
          name
          (origins parse name models)
  pub objects : Grows s.heap s'.heap
  pub probed :
      (k : String) (b : ℕ)
      → lookup k s'.backends ≡ some b
      → lookup k s.backends ≡ none
      → probe b ≡ answered 200
  pub deleted :
      (k : String) (b : ℕ)
      → lookup k s'.backends ≡ some b
      → (m : Model) × Memᴰ m models
        × (key m.name (trim_slash m.url) ≡ k)
        × (x : RouteBackend) × (get_elem? s'.heap b ≡ some x)
        × (key x.model x.origin ≡ k)
  pub kept :
      (m : Model) (b : ℕ)
      → Memᴰ m models
      → lookup (key m.name (trim_slash m.url)) s.backends ≡ some b
      → lookup (key m.name (trim_slash m.url)) s'.backends ≡ some b

if-some :
    {A : Type 0} (c : Bool) (o : Option A) {a : A}
    → (if c then o else none) ≡ some a
    → (c ≡ true) × (o ≡ some a)
if-some true o h = (refl, h)
if-some false o h = cc

-- The loop of `buildRouting` leaves the entries that there are.
built_before :
    (parse : Parse) (s : Server) (models : List Model) (k : String) (b : ℕ)
    → lookup k s.backends ≡ some b
    → lookup k (build_routing parse s models).backends ≡ some b
built_before parse s models k b h =
    let u = build_routing-Undoes parse s models in
    elim (Bool-cases (contains k u.keys)) [
      | inl listed ↦ let e : none ≡ some b = sym (u.fresh k listed) ∙ h in cc
      | inr other ↦ u.same k other ∙ h
    ]

module _ (parse : Parse) (digest : String → String) (new_ring : List ℕ → Ring)
    (probe : ℕ → Probe) where
  Committed-Published :
      (s : Server) (models : List Model) (s' : Server)
      → IsMap s.catalog
      → Committed parse digest new_ring probe s models s'
      → Published parse probe s models s'
  Committed-Published s models s' is_map c = record {
    is_registry = c.is_registry;
    lists = ap (λ (r : RoutingSnapshot). r.models) c.routing;
    remains = λ name old member. same_catalog-Remains s.catalog models name old c.same member;
    known = λ m member. same_catalog-HasKey s.catalog models m is_map c.same member;
    serves = c.serves;
    objects = c.objects;
    probed = λ k b h fresh.
        let (_, built) =
          if-some (is_active models k) (lookup k (build_routing parse s models).backends)
            (sym (c.entries k) ∙ h) in
        elim (build_routing-Adds parse s models k b built) [
          | inl old ↦ let e : none ≡ some b = sym fresh ∙ old in cc
          | inr added ↦
              AllAnswered-Mem probe (build_routing parse s models).added b c.answered added
        ];
    deleted = λ k b h.
        let (active, _) =
          if-some (is_active models k) (lookup k (build_routing parse s models).backends)
            (sym (c.entries k) ∙ h) in
        let (m, member, same) = is_active-Mem models k active in
        let (x, at, keyed, _) = c.consistent k b h in (m, member, same, x, at, keyed);
    kept = λ m b member h.
        let k = key m.name (trim_slash m.url) in
        c.entries k
        ∙ ap (λ (t : Bool). if t then lookup k (build_routing parse s models).backends else none)
            (Mem-is_active models m member)
        ∙ built_before parse s models k b h;
  }

  -- If a URL that parses is printed without a NUL, the map of backends is consistent and no key
  -- stands twice in the catalog, a reload that publishes a routing has read a registry in which
  -- each model of the catalog remains with its metadata and no other model stands; the route of
  -- each name has the backends of its entries in their order, the objects that there were are as
  -- before, and each entry that is new in the map has answered with status 200; an entry of the map
  -- stays if its key is a name with a URL as the registry writes it, less a slash, and no other key
  -- is left.
  pub reload_registry-Published :
      (s : Server) (file : RegistryFile)
      → PrintsNoNul parse
      → IsConsistent s.heap s.backends
      → IsMap s.catalog
      → (reload_registry parse digest new_ring probe s file).0 ≡ updated
      → (models : List Model) × (file ≡ array models)
        × Published parse probe s models (reload_registry parse digest new_ring probe s file).1
  reload_registry-Published s file p c is_map h =
      let (models, at, done) = reload_registry-Committed parse digest new_ring probe s file p c h in
      (models, at, Committed-Published s models _ is_map done)

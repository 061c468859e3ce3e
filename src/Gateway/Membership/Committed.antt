-- ===== src/Gateway/Membership/Committed.antt =====
-- The steps of `ReloadRegistry` (gateway/membership.go) that publish a routing.
use vire.Base.{
  or-eq-false, not-eq-false, ltb, ℕ, ◌≡◌, ◌≢◌, refl, sym, ap, ap₂, subst, ◌∙◌, ◌⊎◌, inl, inr, Bool,
  true, false, not, Option, none, some, List, [], ◌∷◌, length, if◌then◌else◌, nat_eq, String, ◌==◌,
  Dict, lookup, Bool-cases,
}
use Prim.Native.Char.{code}
use vire.Gateway.Route.{Ring, ModelRoute, build_ring}
use vire.Gateway.Registry.{
  Model, Url, Parse, trim_slash, RegistryError, RegistryFile, array, load_models,
}
use vire.Gateway.Registry.Checks.{IsRegistry}
use vire.Gateway.Registry.Loaded.{load_models-array}
use vire.Gateway.Membership.{
  RouteBackend, Server, printed, key, Building, build_routing, ring_all, same_catalog,
  membership_fingerprint, snapshot_of,
}
use vire.Gateway.Membership.Reload.{
  Probe, probe_added, is_active, keep_active, Reload, updated, publish, reload_models,
  reload_registry,
}
use vire.Gateway.Membership.Reloaded.{lookup-keep_active, probed-Grows}
use vire.Gateway.Membership.Keys.{has_nul}
use vire.Gateway.Membership.Built.{build_routing-Serves}
use vire.Gateway.Membership.Objects.{Grows, Serves, IsConsistent, HasNoNul, backends_of, origins}
use vire.Gateway.Membership.Undone.{Keeps}
use vire.Gateway.Membership.Probed.{AllAnswered, probe_added-Keeps, probe_added-AllAnswered}

-- What `net/url` documents: a URL that parses has no control character, so it prints none.
abbrev pub PrintsNoNul : Parse → Type 0
PrintsNoNul parse = (url : String) (u : Url) → parse url ≡ some u → has_nul u.printed ≡ false

has_nul-trim_slash : (s : String) → has_nul s ≡ false → has_nul (trim_slash s) ≡ false
unfolding trim_slash
has_nul-trim_slash String.[] h = refl
has_nul-trim_slash (String.◌∷◌ c String.[]) h = elim (Bool-cases (nat_eq (code c) 47)) [
  | inl e ↦ rw e
  | inr e ↦ rw e h
]
has_nul-trim_slash (String.◌∷◌ c (String.◌∷◌ d s)) h =
    let (a, b) = or-eq-false (nat_eq (code c) 0) (has_nul (String.◌∷◌ d s)) h in
    rw a (has_nul-trim_slash (String.◌∷◌ d s) b)

pub IsRegistry-HasNoNul :
    (parse : Parse) (before ms : List Model)
    → PrintsNoNul parse
    → IsRegistry parse before ms
    → HasNoNul parse ms
IsRegistry-HasNoNul parse before [] p v = tt
IsRegistry-HasNoNul parse before (m ∷ ms) p (f, v) = (
  ap (λ o. has_nul (printed o)) f.valid.parsed
      ∙ has_nul-trim_slash f.valid.target.printed (p m.url f.valid.target f.valid.parsed),
  IsRegistry-HasNoNul parse (m ∷ before) ms p v,
)

build_ring-backends :
    (new_ring : List ℕ → Ring) (route : ModelRoute)
    → (build_ring new_ring route).backends ≡ route.backends
unfolding build_ring
build_ring-backends new_ring route = elim (Bool-cases (ltb (length route.backends) 2)) [
  | inl e ↦ rw e
  | inr e ↦ rw e
]

-- The ring of a route does not change its backends.
pub lookup-ring_all :
    (new_ring : List ℕ → Ring) (d : Dict ModelRoute) (n : String)
    → backends_of (lookup n (ring_all new_ring d)) ≡ backends_of (lookup n d)
unfolding lookup ring_all backends_of
lookup-ring_all new_ring [] n = refl
lookup-ring_all new_ring ((k, route) ∷ d) n = elim (Bool-cases (k == n)) [
  | inl here ↦ rw here (build_ring-backends new_ring route)
  | inr away ↦ rw away (lookup-ring_all new_ring d n)
]

pub Keeps-IsConsistent :
    (heap heap' : List RouteBackend) (d : Dict ℕ)
    → Keeps heap heap'
    → IsConsistent heap d
    → IsConsistent heap' d
Keeps-IsConsistent heap heap' d g c k b h =
    let (x, at, same, clean) = c k b h in
    let (y, at', models, origins) = g b x at in
    (y, at', ap₂ key models origins ∙ same, ap has_nul origins ∙ clean)

pub Keeps-Serves :
    (heap heap' : List RouteBackend) (bs : List ℕ) (n : String) (os : List String)
    → Keeps heap heap'
    → Serves heap bs n os
    → Serves heap' bs n os
Keeps-Serves heap heap' [] n [] g s = tt
Keeps-Serves heap heap' [] n (o ∷ os) g s = absurd s
Keeps-Serves heap heap' (b ∷ bs) n [] g s = absurd s
Keeps-Serves heap heap' (b ∷ bs) n (o ∷ os) g (x, s) =
    let (y, at, models, origins) = g b x.object x.at in
    (
      record { object = y; at = at; model = models ∙ x.model; origin_is = origins ∙ x.origin_is },
      Keeps-Serves heap heap' bs n os g s,
    )

-- An entry that is kept is an entry.
keep_active-IsConsistent :
    (heap : List RouteBackend) (models : List Model) (d : Dict ℕ)
    → IsConsistent heap d
    → IsConsistent heap (keep_active models d)
keep_active-IsConsistent heap models d c k b h = elim (Bool-cases (is_active models k)) [
  | inl a ↦ c k b (sym (lookup-keep_active models d k ∙ rw a) ∙ h)
  | inr a ↦ let e : none ≡ some b = sym (lookup-keep_active models d k ∙ rw a) ∙ h in cc
]

-- The state that a reload publishes for the models of the file.
pub record Committed (parse : Parse) (digest : String → String) (new_ring : List ℕ → Ring)
    (probe : ℕ → Probe) (s : Server) (models : List Model) (s' : Server) : Type 0 where
  pub is_registry : IsRegistry parse [] models
  pub same : same_catalog s.catalog models ≡ true
  pub catalog : s'.catalog ≡ s.catalog
  pub routing : s'.routing ≡ snapshot_of parse digest new_ring models (build_routing parse s models)
  pub serves :
      (name : String)
      → Serves s'.heap
          (backends_of (lookup name s'.routing.proxies))
          name
          (origins parse name models)
  pub answered : AllAnswered probe (build_routing parse s models).added
  pub entries :
      (k : String)
      → lookup k s'.backends
        ≡ (if is_active models k then lookup k (build_routing parse s models).backends else none)
  pub objects : Grows s.heap s'.heap
  pub consistent : IsConsistent s'.heap s'.backends

-- A guard that let an update through.
guard-updated :
    (c : Bool) (a b : Reload × Server)
    → a.0 ≢ updated
    → (if c then a else b).0 ≡ updated
    → (c ≡ false) × (b.0 ≡ updated)
guard-updated true a b n h = absurd (n h)
guard-updated false a b n h = (refl, h)

module _ (parse : Parse) (digest : String → String) (new_ring : List ℕ → Ring)
    (probe : ℕ → Probe) where
  publish-Committed :
      (s : Server) (models : List Model) (r : Option ℕ × List RouteBackend)
      → probe_added probe (build_routing parse s models).added (build_routing parse s models).heap
        ≡ r
      → PrintsNoNul parse
      → IsConsistent s.heap s.backends
      → IsRegistry parse [] models
      → same_catalog s.catalog models ≡ true
      → (publish parse digest new_ring probe s models (build_routing parse s models) r).0 ≡ updated
      → Committed parse digest new_ring probe s models
          (publish parse digest new_ring probe s models (build_routing parse s models) r).1
  publish-Committed s models (some bad, heap) e p c v same h = cc
  publish-Committed s models (none, heap) e p c v same h =
      let b : Building = build_routing parse s models in
      let clean = IsRegistry-HasNoNul parse [] models p v in
      let kept : Keeps b.heap heap =
        subst (λ (q : Option ℕ × List RouteBackend). Keeps b.heap q.1) e
          (probe_added-Keeps probe b.added b.heap) in
      record {
        is_registry = v;
        same = same;
        catalog = refl;
        routing = refl;
        serves = λ name.
            let (t, _, _) = build_routing-Serves parse s models name c clean in
            subst (λ bs. Serves heap bs name (origins parse name models))
              (sym (lookup-ring_all new_ring b.proxies name))
              (Keeps-Serves b.heap heap (backends_of (lookup name b.proxies)) name
                (origins parse name models) kept t);
        answered =
            (probe_added-AllAnswered probe b.added b.heap).0
              (ap (λ (q : Option ℕ × List RouteBackend). q.0) e);
        entries = lookup-keep_active models b.backends;
        objects =
            subst (λ (q : Option ℕ × List RouteBackend). Grows s.heap q.1) e
              (probed-Grows parse digest new_ring probe s models);
        consistent =
            let (_, d, _) = build_routing-Serves parse s models "" c clean in
            keep_active-IsConsistent heap models b.backends
              (Keeps-IsConsistent b.heap heap b.backends kept d);
      }

  reload_models-Committed :
      (s : Server) (models : List Model)
      → PrintsNoNul parse
      → IsConsistent s.heap s.backends
      → IsRegistry parse [] models
      → (reload_models parse digest new_ring probe s (inr models)).0 ≡ updated
      → Committed parse digest new_ring probe s models
          (reload_models parse digest new_ring probe s (inr models)).1
  reload_models-Committed s models p c v h =
      let (other, g) = guard-updated (not (same_catalog s.catalog models)) _ _ (λ e. cc) h in
      let (new, f) =
        guard-updated (membership_fingerprint parse digest models == s.routing.fingerprint) _ _
          (λ e. cc) g in
      rw (other, new)
        (publish-Committed s models _ refl p c v
          (not-eq-false (same_catalog s.catalog models) other) f)

  -- A reload that publishes a routing has passed all checks.
  pub reload_registry-Committed :
      (s : Server) (file : RegistryFile)
      → PrintsNoNul parse
      → IsConsistent s.heap s.backends
      → (reload_registry parse digest new_ring probe s file).0 ≡ updated
      → (models : List Model) × (file ≡ array models)
        × Committed parse digest new_ring probe s models
            (reload_registry parse digest new_ring probe s file).1
  unfolding reload_registry
  reload_registry-Committed s file p c h =
      let (models, e) = loaded (load_models parse file) h in
      let (at, v) = load_models-array parse file models e in
      (
        models,
        at,
        rw e (
            reload_models-Committed s models p c v
              (ap (λ l. (reload_models parse digest new_ring probe s l).0) (sym e) ∙ h)),
      )
    where
      loaded :
          (l : RegistryError ⊎ List Model)
          → (reload_models parse digest new_ring probe s l).0 ≡ updated
          → (models : List Model) × (l ≡ inr models)
      loaded (inl failure) g = cc
      loaded (inr models) g = (models, refl)

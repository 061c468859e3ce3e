-- ===== src/Gateway/Membership/Tests.antt =====
-- Reloads of gateway/membership.go with two replicas of a model, and its theorems at them.
use vire.Base.{
  IsMap, ℕ, ◌≤◌, ◌≡◌, ◌≢◌, refl, sym, ap, ◌∙◌, inl, inr, false, none, some, List, [], ◌∷◌, length,
  if◌then◌else◌, String, ◌==◌, if_cases, arith, lookup, set, trim,
}
use vire.Gateway.Route.{Ring, build_ring}
use vire.Gateway.Route.Choice.{IsRingOf}
use vire.Gateway.Registry.{
  Model, Url, Parse, RegistryFile, array, load_models, check_models, check_model, trim_slash,
}
use vire.Gateway.Membership.{
  Server, build_routing, build_all, build_one, ring_all, same_catalog, all_same, add_models,
  membership_fingerprint, sort, insert_text, key,
}
use vire.Gateway.Membership.Reload.{
  answered, failed, updated, unhealthy, reload_registry, new_server, start_server, probe_backend,
  probe_added, keep_active, is_active,
}
use vire.Gateway.Membership.Keys.{has_nul}
use vire.Gateway.Membership.Objects.{some-eq, backends_of, IsConsistent}
use vire.Gateway.Membership.Reloaded.{Unaltered, reload_registry-Unaltered}
use vire.Gateway.Membership.Reachable.{IsServing, Reachable-IsServing, start, step, reload}
use vire.Gateway.Membership.Catalog.{add_models-IsMap}
use vire.Gateway.Membership.Committed.{PrintsNoNul}
use vire.Gateway.Membership.Published.{Published, reload_registry-Published}

abbrev origin : String → Url
origin printed = record {
  scheme = "http";
  host = "h";
  hostname = "h";
  user = false;
  path = "";
  raw_query = "";
  force_query = false;
  fragment = "";
  printed = printed;
}

-- `http://h`, `http://i`, and an URL that is printed in another way than it is written.
abbrev parser : Parse
parser url =
    if url == "http://h"
    then some (origin "http://h")
    else if url == "http://i/"
    then some (origin "http://i/")
    else if url == "HTTP://j"
    then some (origin "http://j")
    else none

parser-PrintsNoNul : PrintsNoNul parser
parser-PrintsNoNul url u h = elim (if_cases (url == "http://h") h) [
  | inl a ↦ sym (clean a)
  | inr g ↦ elim (if_cases (url == "http://i/") g) [
    | inl a ↦ sym (clean a)
    | inr f ↦ elim (if_cases (url == "HTTP://j") f) [ inl a ↦ sym (clean a) | inr a ↦ cc ]
  ]
]
  where
    clean : {v : Url} → some v ≡ some u → has_nul v.printed ≡ has_nul u.printed
    clean e = ap (λ (x : Url). has_nul x.printed) (some-eq e)

-- The ring gives every key to the first member, and lists the members in their order.
abbrev first_of : List ℕ → ℕ
first_of [] = 0
first_of (b ∷ bs) = b

abbrev first_ring : List ℕ → Ring
first_ring members = record { locate_key = λ _. first_of members; get_closest_n = λ _ _. members }

first_ring-IsRingOf :
    (members : List ℕ) → 2 ≤ length members → IsRingOf (first_ring members) members
first_ring-IsRingOf [] h = absurd (omega arith)
first_ring-IsRingOf (b ∷ bs) h = record {
  owned = λ _. (0, refl);
  closest_in = λ _ c i. i;
  closest_all = λ _ c i. i;
}

abbrev model_at : String → Model
model_at url = record { name = "m"; url = url; display_name = ""; pricing = none }

abbrev one : RegistryFile
one = array (model_at "http://h" ∷ [])

abbrev two : RegistryFile
two = array (model_at "http://h" ∷ model_at "http://i/" ∷ [])

-- A digest that keeps its text.
abbrev keep : String → String
keep s = s

abbrev started : Server
started = start_server parser keep first_ring (model_at "http://h" ∷ [])

starts : new_server parser keep first_ring one ≡ inr started
unfolding new_server load_models check_models check_model lookup trim trim_slash
starts = refl

-- A new replica that answers is added, one that does not is not.
added : (reload_registry parser keep first_ring (λ _. answered 200) started two).0 ≡ updated
unfolding new_server start_server load_models check_models check_model lookup trim trim_slash set
    reload_registry same_catalog all_same add_models membership_fingerprint sort insert_text key
    build_routing build_all build_one probe_added probe_backend
added = refl

refused : (reload_registry parser keep first_ring (λ _. failed) started two).0 ≡ unhealthy 1
unfolding new_server start_server load_models check_models check_model lookup trim trim_slash set
    reload_registry same_catalog all_same add_models membership_fingerprint sort insert_text key
    build_routing build_all build_one probe_added probe_backend
refused = refl

started-IsConsistent : IsConsistent started.heap started.backends
started-IsConsistent =
    (Reachable-IsServing parser keep first_ring parser-PrintsNoNul first_ring-IsRingOf one started
      (start starts)).consistent

started-IsMap : IsMap started.catalog
unfolding start_server
started-IsMap = add_models-IsMap (model_at "http://h" ∷ []) [] tt

refused_differs : (reload_registry parser keep first_ring (λ _. failed) started two).0 ≢ updated
refused_differs e = let e' : unhealthy 1 ≡ updated = sym refused ∙ e in cc

reload_registry-Unaltered_example :
    Unaltered started (reload_registry parser keep first_ring (λ _. failed) started two).1
reload_registry-Unaltered_example =
    reload_registry-Unaltered parser keep first_ring (λ _. failed) started two refused_differs

reload_registry-Published_example :
    (models : List Model) × (two ≡ array models)
    × Published parser
        (λ _. answered 200)
        started
        models
        (reload_registry parser keep first_ring (λ _. answered 200) started two).1
reload_registry-Published_example =
    reload_registry-Published parser keep first_ring (λ _. answered 200) started two
      parser-PrintsNoNul started-IsConsistent started-IsMap added

Reachable-IsServing_example :
    IsServing parser (reload_registry parser keep first_ring (λ _. answered 200) started two).1
Reachable-IsServing_example =
    Reachable-IsServing parser keep first_ring parser-PrintsNoNul first_ring-IsRingOf one _
      (step (start starts) (reload (λ _. answered 200) two))

-- A routed backend leaves the map when its URL is not written as it is printed.
abbrev upper : RegistryFile
upper = array (model_at "http://h" ∷ model_at "HTTP://j" ∷ [])

abbrev upper_server : Server
upper_server = (reload_registry parser keep first_ring (λ _. answered 200) started upper).1

lost : lookup (key "m" "http://j") upper_server.backends ≡ none
unfolding new_server start_server load_models check_models check_model lookup trim trim_slash set
    reload_registry same_catalog all_same add_models membership_fingerprint sort insert_text key
    build_routing build_all build_one probe_added probe_backend keep_active is_active
lost = refl

lost_routed : backends_of (lookup "m" upper_server.routing.proxies) ≡ 0 ∷ 1 ∷ []
unfolding new_server start_server load_models check_models check_model lookup trim trim_slash set
    reload_registry same_catalog all_same add_models membership_fingerprint sort insert_text key
    build_routing build_all build_one probe_added probe_backend keep_active is_active ring_all
    build_ring backends_of
lost_routed = refl

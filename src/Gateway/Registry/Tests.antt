-- ===== src/Gateway/Registry/Tests.antt =====
-- Registries that `loadModels` of gateway/server.go accepts and refuses, and its theorems at them.
use vire.Base.{
  ◌≡◌, ◌↔◌, refl, inl, inr, true, false, Option, none, some, List, [], ◌∷◌, if◌then◌else◌, pos,
  negsuc, String, ◌==◌, lookup, set, trim,
}
use vire.Gateway.Registry.{
  ModelPricing, Model, Url, Parse, array, duplicate, replicas_differ, negative_rates, not_origin,
  name_required, load_models, check_models, check_model, trim_slash, priced_from, priced_models,
}
use vire.Gateway.Registry.Checks.{IsRegistry}
use vire.Gateway.Registry.Loaded.{Refused, load_models-IsRegistry, load_models-Refused}

abbrev url_of : String → Url
url_of printed = record {
  scheme = "https";
  host = "h";
  hostname = "h";
  user = false;
  path = "/";
  raw_query = "";
  force_query = false;
  fragment = "";
  printed = printed;
}

abbrev parser : Parse
parser url =
    if url == "https://h/x" then some (record (url_of url) { path = "/x" }) else some (url_of url)

abbrev cheap : ModelPricing
cheap = record {
  input_rate_micro_per_million = pos 2;
  output_rate_micro_per_million = pos 3;
  example = true;
}

abbrev entry : String → String → Option ModelPricing → Model
entry name url pricing = record { name = name; url = url; display_name = "M"; pricing = pricing }

abbrev good : List Model
good =
    entry "m" "https://h" (some cheap)
    ∷ entry "m" "https://i/" (some cheap)
    ∷ entry "n" "https://h" none
    ∷ []

accepted : load_models parser (array good) ≡ inr good
unfolding load_models check_models check_model lookup set trim trim_slash
accepted = refl

-- The slash does not make another destination.
abbrev twice : List Model
twice = entry "m" "https://h" none ∷ entry "m" "https://h/" none ∷ []

refused : load_models parser (array twice) ≡ inl (duplicate 1)
unfolding load_models check_models check_model lookup set trim trim_slash
refused = refl

differing :
    load_models parser
      (array (entry "m" "https://h" none ∷ entry "m" "https://i" (some cheap) ∷ []))
    ≡ inl (replicas_differ 1)
unfolding load_models check_models check_model lookup set trim trim_slash
differing = refl

below_zero :
    load_models parser (
      array (
        entry "m" "https://h" (some (record cheap { output_rate_micro_per_million = negsuc 0 }))
        ∷ []))
    ≡ inl (negative_rates 0)
unfolding load_models check_models check_model lookup set trim trim_slash
below_zero = refl

with_path : load_models parser (array (entry "m" "https://h/x" none ∷ [])) ≡ inl (not_origin 0)
unfolding load_models check_models check_model lookup set trim trim_slash
with_path = refl

blank : load_models parser (array (entry " " "https://h" none ∷ [])) ≡ inl (name_required 0)
unfolding load_models check_models check_model lookup set trim trim_slash
blank = refl

priced_once : priced_models good ≡ entry "m" "https://h" (some cheap) ∷ []
unfolding priced_models priced_from lookup set
priced_once = refl

load_models-IsRegistry_example :
    (load_models parser (array good) ≡ inr good) ↔ IsRegistry parser [] good
load_models-IsRegistry_example = load_models-IsRegistry parser good

load_models-Refused_example : Refused parser 0 [] twice 1
load_models-Refused_example = load_models-Refused parser twice (duplicate 1) refused

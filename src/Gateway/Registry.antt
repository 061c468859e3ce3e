-- ===== src/Gateway/Registry.antt =====
-- gateway/server.go: the model registry, `loadModels`, `samePricing` and `PricedModels`. `url.Parse`
-- is an argument, with the parts of its result that the code reads. The registry's file is read and
-- decoded by packages of Go: a value says how far that came.
pub mod Origin
pub mod Checks
pub mod Loaded
pub mod Tracks
mod Tests
use vire.Base.{
  ℕ, ◌+◌, Bool, true, false, not, ◌&&◌, ◌||◌, Option, none, some, List, [], ◌∷◌, ◌⊎◌, inl, inr,
  nat_eq, if◌then◌else◌, ℤ, pos, negsuc, is_nonneg, String, ◌==◌, codes, trim, Dict, lookup, set,
}
use Prim.Native.Char.{code}

-- `ModelPricing`
pub record ModelPricing : Type 0 where
  pub input_rate_micro_per_million : ℤ
  pub output_rate_micro_per_million : ℤ
  pub example : Bool

-- `Model`
pub record Model : Type 0 where
  pub name : String
  pub url : String
  pub display_name : String
  pub pricing : Option ModelPricing

-- A `url.URL`: `printed` is its `String()`, and `user` whether it has user information.
pub record Url : Type 0 where
  pub scheme : String
  pub host : String
  pub hostname : String
  pub user : Bool
  pub path : String
  pub raw_query : String
  pub force_query : Bool
  pub fragment : String
  pub printed : String

-- `url.Parse`, `none` on an error.
abbrev pub Parse : Type 0
Parse = String → Option Url

-- `==` on an `int64`.
abbrev pub int_eq : ℤ → ℤ → Bool
int_eq (pos m) (pos n) = nat_eq m n
int_eq (negsuc m) (negsuc n) = nat_eq m n
int_eq _ _ = false

abbrev pub bool_eq : Bool → Bool → Bool
bool_eq true b = b
bool_eq false b = not b

-- `samePricing`
abbrev pub same_pricing : Option ModelPricing → Option ModelPricing → Bool
same_pricing (some a) (some b) =
    int_eq a.input_rate_micro_per_million b.input_rate_micro_per_million
    && int_eq a.output_rate_micro_per_million b.output_rate_micro_per_million
    && bool_eq a.example b.example
same_pricing none none = true
same_pricing _ _ = false

-- `strings.TrimSuffix(s, "/")`
unfoldable pub trim_slash : String → String
trim_slash String.[] = String.[]
trim_slash (String.◌∷◌ c String.[]) =
    if nat_eq (code c) 47 then String.[] else String.◌∷◌ c String.[]
trim_slash (String.◌∷◌ c (String.◌∷◌ d s)) =
    let rest = trim_slash (String.◌∷◌ d s) in String.◌∷◌ c rest

-- `strings.Contains(s, "#")`
abbrev pub has_hash : List ℕ → Bool
has_hash [] = false
has_hash (c ∷ cs) = nat_eq c 35 || has_hash cs

-- The errors of `loadModels`, with the index of the entry.
pub data RegistryError : Type 0 where
  unreadable not_json more_than_one not_array : RegistryError
  name_required blank_display_name negative_rates replicas_differ not_absolute not_origin
        duplicate :
      ℕ → RegistryError

-- What reading and decoding the file gives.
pub data RegistryFile : Type 0 where
  no_file malformed extra_value null : RegistryFile
  array : List Model → RegistryFile

abbrev pub has_negative : Option ModelPricing → Bool
has_negative none = false
has_negative (some p) =
    not (is_nonneg p.input_rate_micro_per_million)
    || not (is_nonneg p.output_rate_micro_per_million)

abbrev pub differs : Option Model → Model → Bool
differs none model = false
differs (some previous) model =
    not (previous.display_name == model.display_name)
    || not (same_pricing previous.pricing model.pricing)

abbrev pub is_absolute : Url → Bool
is_absolute target =
    (target.scheme == "http" || target.scheme == "https") && not (target.hostname == "")

-- The URL has no more than an origin.
abbrev pub is_origin : String → Url → Bool
is_origin url target =
    not target.user
    && (target.path == "" || target.path == "/")
    && target.raw_query == ""
    && not target.force_query
    && target.fragment == ""
    && not (has_hash (codes url))

-- `destination`
pub record Destination : Type 0 where
  pub name : String
  pub url : String

abbrev pub same_destination : Destination → Destination → Bool
same_destination a b = a.name == b.name && a.url == b.url

-- The maps that the loop over the models fills.
pub record Seen : Type 0 where
  pub metadata : Dict Model
  pub destinations : List Destination

abbrev pub is_known : Destination → List Destination → Bool
is_known key [] = false
is_known key (d ∷ ds) = same_destination d key || is_known key ds

-- The destination of a model: an origin with a slash after it is the same one.
abbrev pub destination : Model → Url → Destination
destination model target = record { name = model.name; url = trim_slash target.printed }

-- The checks on the destination of a model.
abbrev pub check_target : ℕ → Model → Seen → Option Url → RegistryError ⊎ Seen
check_target i model seen none = inl (not_absolute i)
check_target i model seen (some target) =
    if not (is_absolute target)
    then inl (not_absolute i)
    else if not (is_origin model.url target)
    then inl (not_origin i)
    else if is_known (destination model target) seen.destinations
    then inl (duplicate i)
    else inr (record {
      metadata = set model.name model seen.metadata;
      destinations = destination model target ∷ seen.destinations;
    })

-- One round of the loop.
unfoldable pub check_model : Parse → ℕ → Model → Seen → RegistryError ⊎ Seen
check_model parse i model seen =
    if trim model.name == ""
    then inl (name_required i)
    else if not (model.display_name == "") && trim model.display_name == ""
    then inl (blank_display_name i)
    else if has_negative model.pricing
    then inl (negative_rates i)
    else if differs (lookup model.name seen.metadata) model
    then inl (replicas_differ i)
    else check_target i model seen (parse model.url)

unfoldable pub check_models : Parse → ℕ → List Model → Seen → RegistryError ⊎ Seen
check_models parse i [] seen = inr seen
check_models parse i (model ∷ models) seen = elim (check_model parse i model seen) [
  | inl failure ↦ inl failure
  | inr seen' ↦ check_models parse (i + 1) models seen'
]

abbrev nothing : Seen
nothing = record { metadata = []; destinations = [] }

abbrev checked_models : List Model → RegistryError ⊎ Seen → RegistryError ⊎ List Model
checked_models models (inl failure) = inl failure
checked_models models (inr seen) = inr models

-- `loadModels`
unfoldable pub load_models : Parse → RegistryFile → RegistryError ⊎ List Model
load_models parse no_file = inl unreadable
load_models parse malformed = inl not_json
load_models parse extra_value = inl more_than_one
load_models parse null = inl not_array
load_models parse (array models) = checked_models models (check_models parse 0 models nothing)

abbrev pub is_priced : Option ModelPricing → Bool
is_priced none = false
is_priced (some p) = true

-- `seen[name]`, false for a missing key.
abbrev pub is_seen : Option Bool → Bool
is_seen none = false
is_seen (some b) = b

-- The loop of `PricedModels`, with the names that it has seen.
unfoldable pub priced_from : Dict Bool → List Model → List Model
priced_from seen [] = []
priced_from seen (model ∷ models) =
    let fresh = is_priced model.pricing && not (is_seen (lookup model.name seen)) in
    let rest = priced_from (if fresh then set model.name true seen else seen) models in
    if fresh then model ∷ rest else rest

-- `PricedModels`
unfoldable pub priced_models : List Model → List Model
priced_models models = priced_from [] models

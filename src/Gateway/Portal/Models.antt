-- ===== src/Gateway/Portal/Models.antt =====
-- The lists of models: `portalModelsHandler` of gateway/portal.go, and `publicModelsHandler` of
-- gateway/accounts.go once the request is authenticated. A rate stays in micro-dollars: the code
-- divides it by a million as a `float64`.
use vire.Base.{
  Bool, Option, none, some, List, [], ◌∷◌, if◌then◌else◌, ℤ, String, ◌==◌, Dict, lookup, set, map,
}
use vire.Gateway.Registry.{ModelPricing, Model}
use vire.Gateway.Membership.{sort}

-- `publicPricing`
pub record PublicPricing : Type 0 where
  pub input_rate_micro : ℤ
  pub output_rate_micro : ℤ
  pub example : Bool

-- `publicModel`
pub record PublicModel : Type 0 where
  pub id : String
  pub display_name : String
  pub pricing : Option PublicPricing

abbrev pub public_pricing : Option ModelPricing → Option PublicPricing
public_pricing none = none
public_pricing (some p) = some (record {
  input_rate_micro = p.input_rate_micro_per_million;
  output_rate_micro = p.output_rate_micro_per_million;
  example = p.example;
})

abbrev pub public_model : Model → PublicModel
public_model model = record {
  id = model.name;
  display_name = if model.display_name == "" then model.name else model.display_name;
  pricing = public_pricing model.pricing;
}

-- The entry of a name, unless there is one.
abbrev pub add_name : Model → Dict PublicModel → Option PublicModel → Dict PublicModel
add_name model items (some _) = items
add_name model items none = set model.name (public_model model) items

unfoldable pub by_name : List Model → Dict PublicModel → Dict PublicModel
by_name [] items = items
by_name (model ∷ models) items = by_name models (add_name model items (lookup model.name items))

abbrev pub names_of {ℓ} : {V : Type ℓ} → Dict V → List String
names_of [] = []
names_of ((name, _) ∷ items) = name ∷ names_of items

-- `byName[name]`, with Go's zero value for a missing key.
abbrev pub item_of : Option PublicModel → PublicModel
item_of none = record { id = ""; display_name = ""; pricing = none }
item_of (some item) = item

-- `portalModelsHandler`
unfoldable pub portal_models : List Model → List PublicModel
portal_models models =
    let items = by_name models [] in
    map (λ name. item_of (lookup name items)) (sort (names_of items))

-- An item of `publicModelsHandler`.
pub record ModelId : Type 0 where
  pub id : String
  pub object : String

-- `publicModelsHandler`, over the catalog.
unfoldable pub public_models : Dict Model → List ModelId
public_models catalog =
    map (λ name. record { id = name; object = "model" }) (sort (names_of catalog))

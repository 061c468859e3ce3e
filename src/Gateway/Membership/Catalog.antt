-- ===== src/Gateway/Membership/Catalog.antt =====
-- What `sameCatalog` of gateway/membership.go tells of two registries.
use mathlib.Core.List.{Memᴰ}
use vire.Base.{
  IsMap, HasKey, lookup-Mem, set-IsMap, key_of_both, subst, nat_eq_iff, Bool-cases, ◌≡◌, refl, sym,
  ap, ◌∙◌, ◌⊎◌, inl, inr, Bool, true, false, ◌&&◌, Option, none, some, List, [], ◌∷◌, length,
  if◌then◌else◌, nat_eq, String, ◌==◌, eq_iff, eq_refl, Dict, lookup, set, lookup-set, String-cases,
}
use vire.Gateway.Registry.{Model}
use vire.Gateway.Registry.Checks.{same_pricing_iff}
use vire.Gateway.Membership.{add_models, model_catalog, same_metadata, all_same, same_catalog}
use vire.Gateway.Membership.Kept.{some-eq}

-- What a catalog holds is an entry of the list that it was made of.
lookup-add_models :
    (ms : List Model) (catalog : Dict Model) (n : String) {m : Model}
    → lookup n (add_models ms catalog) ≡ some m
    → (Memᴰ m ms × (m.name ≡ n)) ⊎ (lookup n catalog ≡ some m)
unfolding add_models
lookup-add_models [] catalog n h = inr h
lookup-add_models (q ∷ ms) catalog n {m} h =
    elim (lookup-add_models ms (set q.name q catalog) n h) [
      | inl (member, name) ↦ inl (Memᴰ.tail member, name)
      | inr old ↦ elim (String-cases q.name n) [
        | inl here ↦
            let same : q ≡ m = some-eq (
              ap (λ (t : Bool). if t then some q else lookup n catalog)
                (sym (ap (λ j. q.name == j) (sym here) ∙ eq_refl q.name))
              ∙ sym (lookup-set n q.name q catalog)
              ∙ old) in
            inl (Memᴰ.head (sym same), ap (λ (x : Model). x.name) (sym same) ∙ here)
        | inr away ↦ inr (
            ap (λ (t : Bool). if t then some q else lookup n catalog) (sym away)
            ∙ sym (lookup-set n q.name q catalog)
            ∙ old)
      ]
    ]

-- A list has an entry of the name, with the metadata of the old one.
pub record Remains (models : List Model) (name : String) (old : Model) : Type 0 where
  pub model : Model
  pub member : Memᴰ model models
  pub name_is : model.name ≡ name
  pub display_name : model.display_name ≡ old.display_name
  pub pricing : model.pricing ≡ old.pricing

and-eq-true : (a b : Bool) → (a && b) ≡ true → (a ≡ true) × (b ≡ true)
and-eq-true true b h = (refl, h)
and-eq-true false b h = cc

lookup-nothing : (name : String) {m : Model} → lookup name [] ≡ some m → ⊥
unfolding lookup
lookup-nothing name e = cc

same_metadata-Remains :
    (models : List Model) (name : String) (old : Model) (o : Option Model)
    → lookup name (model_catalog models) ≡ o
    → same_metadata old o ≡ true
    → Remains models name old
same_metadata-Remains models name old none e h = cc
same_metadata-Remains models name old (some m) e h =
    let (shown, priced) = and-eq-true (old.display_name == m.display_name) _ h in
    elim (lookup-add_models models [] name e) [
      | inl (member, named) ↦ record {
        model = m;
        member = member;
        name_is = named;
        display_name = sym ((eq_iff old.display_name m.display_name).0 shown);
        pricing = sym ((same_pricing_iff old.pricing m.pricing).0 priced);
      }
      | inr empty ↦ absurd (lookup-nothing name empty)
    ]

all_same-Remains :
    (catalog : Dict Model) (models : List Model) (name : String) (old : Model)
    → all_same catalog (model_catalog models) ≡ true
    → Memᴰ (name, old) catalog
    → Remains models name old
unfolding all_same
all_same-Remains [] models name old h m = elim m [ ]
all_same-Remains ((k, p) ∷ catalog) models name old h (Memᴰ.head e) =
    let (here, _) = and-eq-true (same_metadata p (lookup k (model_catalog models))) _ h in
    same_metadata-Remains models name old (lookup name (model_catalog models)) refl
      (ap (λ (x : String × Model). same_metadata x.1 (lookup x.0 (model_catalog models))) e ∙ here)
all_same-Remains ((k, p) ∷ catalog) models name old h (Memᴰ.tail m) =
    let (_, rest) = and-eq-true (same_metadata p (lookup k (model_catalog models))) _ h in
    all_same-Remains catalog models name old rest m

pub same_catalog-Remains :
    (catalog : Dict Model) (models : List Model) (name : String) (old : Model)
    → same_catalog catalog models ≡ true
    → Memᴰ (name, old) catalog
    → Remains models name old
unfolding same_catalog
same_catalog-Remains catalog models name old h m =
    let (_, all) = and-eq-true (nat_eq (length (model_catalog models)) (length catalog)) _ h in
    all_same-Remains catalog models name old all m

set-HasKey : (n k : String) (q : Model) (d : Dict Model) → HasKey n d → HasKey n (set k q d)
set-HasKey n k q d (v, h) = elim (Bool-cases (k == n)) [
  | inl here ↦ (q, lookup-set n k q d ∙ rw here)
  | inr away ↦ (v, lookup-set n k q d ∙ rw away h)
]

add_models-HasKey :
    (ms : List Model) (d : Dict Model) (n : String) → HasKey n d → HasKey n (add_models ms d)
unfolding add_models
add_models-HasKey [] d n h = h
add_models-HasKey (q ∷ ms) d n h =
    add_models-HasKey ms (set q.name q d) n (set-HasKey n q.name q d h)

add_models_listed :
    (ms : List Model) (d : Dict Model) (m : Model) → Memᴰ m ms → HasKey m.name (add_models ms d)
unfolding add_models
add_models_listed [] d m h = elim h [ ]
add_models_listed (q ∷ ms) d m (Memᴰ.head e) = add_models-HasKey ms (set q.name q d) m.name (
  q,
  lookup-set m.name q.name q d
      ∙ ap (λ (t : Bool). if t then some q else lookup m.name d)
          (ap (λ (x : Model). q.name == x.name) e ∙ eq_refl q.name),
)
add_models_listed (q ∷ ms) d m (Memᴰ.tail h) = add_models_listed ms (set q.name q d) m h

pub add_models-IsMap : (ms : List Model) (d : Dict Model) → IsMap d → IsMap (add_models ms d)
unfolding add_models
add_models-IsMap [] d h = h
add_models-IsMap (q ∷ ms) d h = add_models-IsMap ms (set q.name q d) (set-IsMap q.name q d h)

-- No model is new to the catalog.
pub same_catalog-HasKey :
    (catalog : Dict Model) (models : List Model) (m : Model)
    → IsMap catalog
    → same_catalog catalog models ≡ true
    → Memᴰ m models
    → HasKey m.name catalog
unfolding same_catalog
same_catalog-HasKey catalog models m is_map h member =
    let next = model_catalog models in
    let (size, all) = and-eq-true (nat_eq (length next) (length catalog)) _ h in
    key_of_both catalog next m.name is_map (add_models-IsMap models [] tt)
      (λ n has.
        let r = all_same-Remains catalog models n has.0 all (lookup-Mem n catalog has.1) in
        subst (λ k. HasKey k next) r.name_is (add_models_listed models [] r.model r.member))
      ((nat_eq_iff (length next) (length catalog)).0 size) (add_models_listed models [] m member)

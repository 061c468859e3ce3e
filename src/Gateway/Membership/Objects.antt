-- ===== src/Gateway/Membership/Objects.antt =====
-- The objects that the routes and the map of gateway/membership.go number.
use vire.Base.{
  ℕ, zero, suc, ◌≡◌, refl, false, Option, none, some, List, [], ◌∷◌, ◌++◌, length, get_elem?,
  if◌then◌else◌, String, ◌==◌, Dict, lookup,
}
use vire.Gateway.Route.{ModelRoute}
use vire.Gateway.Registry.{Model, Parse}
use vire.Gateway.Membership.{RouteBackend, origin_of, key}
use vire.Gateway.Membership.Keys.{has_nul}

-- Object `b` is a backend of the model with the origin.
pub record IsObject (heap : List RouteBackend) (b : ℕ) (name origin : String) : Type 0 where
  pub object : RouteBackend
  pub at : get_elem? heap b ≡ some object
  pub model : object.model ≡ name
  pub origin_is : object.origin ≡ origin

-- The backends are, in this order, those of the model with the origins.
abbrev pub Serves : List RouteBackend → List ℕ → String → List String → Type 0
Serves heap [] name [] = Unit {0}
Serves heap (b ∷ bs) name (o ∷ os) = IsObject heap b name o × Serves heap bs name os
Serves heap _ name _ = ⊥

-- Objects keep their numbers.
abbrev pub Grows : List RouteBackend → List RouteBackend → Type 0
Grows heap heap' =
    (i : ℕ) (x : RouteBackend) → get_elem? heap i ≡ some x → get_elem? heap' i ≡ some x

-- Every entry of the map is an object with its key.
abbrev pub IsConsistent : List RouteBackend → Dict ℕ → Type 0
IsConsistent heap backends =
    (k : String) (b : ℕ)
    → lookup k backends ≡ some b
    → (x : RouteBackend) × (get_elem? heap b ≡ some x)
      × (key x.model x.origin ≡ k)
      × (has_nul x.origin ≡ false)

unfoldable pub backends_of : Option ModelRoute → List ℕ
backends_of none = []
backends_of (some route) = route.backends

-- The origins that a registry lists for a name.
unfoldable pub origins : Parse → String → List Model → List String
origins parse name [] = []
origins parse name (m ∷ ms) =
    let rest = origins parse name ms in if m.name == name then origin_of parse m ∷ rest else rest

abbrev pub HasNoNul : Parse → List Model → Type 0
HasNoNul parse [] = Unit {0}
HasNoNul parse (m ∷ ms) = (has_nul (origin_of parse m) ≡ false) × HasNoNul parse ms

pub IsObject-Grows :
    (heap heap' : List RouteBackend) (b : ℕ) (name origin : String)
    → Grows heap heap'
    → IsObject heap b name origin
    → IsObject heap' b name origin
IsObject-Grows heap heap' b name origin g o = record {
  object = o.object;
  at = g b o.object o.at;
  model = o.model;
  origin_is = o.origin_is;
}

pub Serves-Grows :
    (heap heap' : List RouteBackend) (bs : List ℕ) (name : String) (os : List String)
    → Grows heap heap'
    → Serves heap bs name os
    → Serves heap' bs name os
Serves-Grows heap heap' [] name [] g s = tt
Serves-Grows heap heap' [] name (o ∷ os) g s = absurd s
Serves-Grows heap heap' (b ∷ bs) name [] g s = absurd s
Serves-Grows heap heap' (b ∷ bs) name (o ∷ os) g (x, s) =
    (IsObject-Grows heap heap' b name o g x, Serves-Grows heap heap' bs name os g s)

pub Serves-append :
    (heap : List RouteBackend) (bs : List ℕ) (name : String) (os : List String) (b : ℕ) (o : String)
    → Serves heap bs name os
    → IsObject heap b name o
    → Serves heap (bs ++ b ∷ []) name (os ++ o ∷ [])
Serves-append heap [] name [] b o s x = (x, tt)
Serves-append heap [] name (p ∷ os) b o s x = absurd s
Serves-append heap (c ∷ bs) name [] b o s x = absurd s
Serves-append heap (c ∷ bs) name (p ∷ os) b o (y, s) x = (y, Serves-append heap bs name os b o s x)

pub get_elem?-append : (heap tail : List RouteBackend) → Grows heap (heap ++ tail)
get_elem?-append [] tail i x h = cc
get_elem?-append (y ∷ heap) tail zero x h = h
get_elem?-append (y ∷ heap) tail (suc i) x h = get_elem?-append heap tail i x h

pub get_elem?-last :
    (heap : List RouteBackend) (x : RouteBackend)
    → get_elem? (heap ++ x ∷ []) (length heap) ≡ some x
get_elem?-last [] x = refl
get_elem?-last (y ∷ heap) x = get_elem?-last heap x

pub some-eq : {A : Type 0} {x y : A} → some x ≡ some y → x ≡ y
some-eq h = cc

-- ===== src/Gateway/Registry/Checks.antt =====
-- The checks of `loadModels` of gateway/server.go on one entry, and what they ask of it.
use mathlib.Core.List.{Memᴰ}
use vire.Base.{
  or-eq-false, ℕ, ◌≡◌, refl, sym, ◌↔◌, ◌⊎◌, inl, inr, Bool, true, false, not, ◌&&◌, Option, none,
  some, List, [], ◌∷◌, nat_eq_iff, if◌then◌else◌, ℤ, pos, negsuc, is_nonneg, ◌==◌, eq_iff, trim,
  lookup, set, arith,
}
use vire.Gateway.Registry.{
  trim_slash, ModelPricing, Model, Url, Parse, int_eq, bool_eq, same_pricing, is_absolute,
  is_origin, destination, Destination, same_destination, Seen, is_known, has_negative, differs,
  check_target, check_model,
}
use vire.Gateway.Registry.Origin.{IsOrigin}

abbrev pub IsNonneg : ℤ → Type 0
IsNonneg z = (n : ℕ) × (z ≡ pos n)

-- The rates, if there are any, are not negative.
abbrev pub HasRates : Option ModelPricing → Type 0
HasRates o =
    (p : ModelPricing)
    → o ≡ some p
    → IsNonneg p.input_rate_micro_per_million × IsNonneg p.output_rate_micro_per_million

-- What an entry must satisfy by itself.
pub record IsValid (parse : Parse) (m : Model) : Type 0 where
  pub named : (trim m.name == "") ≡ false
  pub displayed : (m.display_name ≡ "") ⊎ ((trim m.display_name == "") ≡ false)
  pub rates : HasRates m.pricing
  pub target : Url
  pub parsed : parse m.url ≡ some target
  pub origin : IsOrigin m.url target

abbrev pub Shares : Model → Model → Type 0
Shares p q = (p.display_name ≡ q.display_name) × (p.pricing ≡ q.pricing)

-- An entry that may follow the others: it is valid, the entries of its name share its metadata, and
-- none has its name and its URL, but for a slash at the end.
pub record Fits (parse : Parse) (before : List Model) (m : Model) : Type 0 where
  pub valid : IsValid parse m
  pub shared : (q : Model) → Memᴰ q before → q.name ≡ m.name → Shares q m
  pub fresh :
      (q : Model) (u : Url)
      → Memᴰ q before
      → parse q.url ≡ some u
      → q.name ≡ m.name
      → trim_slash u.printed ≡ trim_slash valid.target.printed
      → ⊥

-- Every entry fits the entries before it.
abbrev pub IsRegistry : Parse → List Model → List Model → Type 0
IsRegistry parse before [] = Unit {0}
IsRegistry parse before (m ∷ ms) = Fits parse before m × IsRegistry parse (m ∷ before) ms

int_eq_iff : (a b : ℤ) → (int_eq a b ≡ true) ↔ (a ≡ b)
int_eq_iff (pos m) (pos n) = grind (arith, nat_eq_iff m n)
int_eq_iff (negsuc m) (negsuc n) = grind (arith, nat_eq_iff m n)
int_eq_iff (pos m) (negsuc n) = (λ h. cc, λ h. cc)
int_eq_iff (negsuc m) (pos n) = (λ h. cc, λ h. cc)

bool_eq_iff : (a b : Bool) → (bool_eq a b ≡ true) ↔ (a ≡ b)
bool_eq_iff true true = (λ h. refl, λ h. refl)
bool_eq_iff false false = (λ h. refl, λ h. refl)
bool_eq_iff true false = (λ h. cc, λ h. cc)
bool_eq_iff false true = (λ h. cc, λ h. cc)

pub same_pricing_iff : (a b : Option ModelPricing) → (same_pricing a b ≡ true) ↔ (a ≡ b)
same_pricing_iff none none = (λ h. refl, λ h. refl)
same_pricing_iff none (some b) = (λ h. cc, λ h. cc)
same_pricing_iff (some a) none = (λ h. cc, λ h. cc)
same_pricing_iff (some a) (some b) = grind (arith, int_eq_iff, bool_eq_iff)

-- A guard that did not refuse.
pub guard-eq-inr :
    {E A : Type 0} (c : Bool) (e : E) (r : E ⊎ A) {a : A}
    → (if c then inl e else r) ≡ inr a
    → (c ≡ false) × (r ≡ inr a)
guard-eq-inr true e r h = cc
guard-eq-inr false e r h = (refl, h)

pub inr-eq : {E A : Type 0} {a b : A} → Path (E ⊎ A) (inr a) (inr b) → a ≡ b
inr-eq h = cc

pub same_destination_iff : (a b : Destination) → (same_destination a b ≡ true) ↔ (a ≡ b)
same_destination_iff a b = grind (arith, eq_iff)

-- The metadata is refused exactly when an entry of the name has other metadata.
pub differs_iff : (p : Model) (m : Model) → (differs (some p) m ≡ false) ↔ (Shares p m)
differs_iff p m =
    grind (arith, eq_iff p.display_name m.display_name, same_pricing_iff p.pricing m.pricing)

is_nonneg_lem : (z : ℤ) → not (is_nonneg z) ≡ false → IsNonneg z
is_nonneg_lem (pos n) h = (n, refl)
is_nonneg_lem (negsuc n) h = cc

IsNonneg-is_nonneg : (z : ℤ) → IsNonneg z → not (is_nonneg z) ≡ false
IsNonneg-is_nonneg z (n, e) = rw e

pub has_negative-HasRates : (o : Option ModelPricing) → has_negative o ≡ false → HasRates o
has_negative-HasRates none h = λ p e. cc
has_negative-HasRates (some q) h = λ p e.
    let same : q ≡ p = cc in
    let (a, b) = or-eq-false (not (is_nonneg q.input_rate_micro_per_million)) _ h in
    rw (sym same) (is_nonneg_lem _ a, is_nonneg_lem _ b)

pub HasRates-has_negative : (o : Option ModelPricing) → HasRates o → has_negative o ≡ false
HasRates-has_negative none h = refl
HasRates-has_negative (some q) h =
    let (a, b) = h q refl in rw (IsNonneg-is_nonneg _ a, IsNonneg-is_nonneg _ b)

-- The model passed the checks, and the maps with it.
pub record Passed (parse : Parse) (m : Model) (seen : Seen) : Type 0 where
  pub named : (trim m.name == "") ≡ false
  pub displayed : (not (m.display_name == "") && trim m.display_name == "") ≡ false
  pub rates : has_negative m.pricing ≡ false
  pub same : differs (lookup m.name seen.metadata) m ≡ false
  pub target : Url
  pub parsed : parse m.url ≡ some target
  pub absolute : not (is_absolute target) ≡ false
  pub origin : not (is_origin m.url target) ≡ false
  pub fresh : is_known (destination m target) seen.destinations ≡ false

abbrev pub after : Model → Url → Seen → Seen
after m u seen = record {
  metadata = set m.name m seen.metadata;
  destinations = destination m u ∷ seen.destinations;
}

pub Passed-check_model :
    (parse : Parse) (i : ℕ) (m : Model) (seen : Seen) (p : Passed parse m seen)
    → check_model parse i m seen ≡ inr (after m p.target seen)
unfolding check_model
Passed-check_model parse i m seen p =
    rw (p.named, p.displayed, p.rates, p.same, p.parsed, p.absolute, p.origin, p.fresh)

record Target (m : Model) (seen : Seen) (o : Option Url) (seen' : Seen) : Type 0 where
  target : Url
  parsed : o ≡ some target
  absolute : not (is_absolute target) ≡ false
  origin : not (is_origin m.url target) ≡ false
  fresh : is_known (destination m target) seen.destinations ≡ false
  left : seen' ≡ after m target seen

check_target-Target :
    (i : ℕ) (m : Model) (seen : Seen) (o : Option Url) (seen' : Seen)
    → check_target i m seen o ≡ inr seen'
    → Target m seen o seen'
check_target-Target i m seen none seen' h = cc
check_target-Target i m seen (some u) seen' h =
    let (absolute, h1) = guard-eq-inr (not (is_absolute u)) _ _ h in
    let (origin, h2) = guard-eq-inr (not (is_origin m.url u)) _ _ h1 in
    let (fresh, h3) = guard-eq-inr (is_known (destination m u) seen.destinations) _ _ h2 in
    record {
      target = u;
      parsed = refl;
      absolute = absolute;
      origin = origin;
      fresh = fresh;
      left = sym (inr-eq h3);
    }

pub check_model-Passed :
    (parse : Parse) (i : ℕ) (m : Model) (seen seen' : Seen)
    → check_model parse i m seen ≡ inr seen'
    → (p : Passed parse m seen) × (seen' ≡ after m p.target seen)
unfolding check_model
check_model-Passed parse i m seen seen' h =
    let (named, h1) = guard-eq-inr (trim m.name == "") _ _ h in
    let (displayed, h2) =
      guard-eq-inr (not (m.display_name == "") && trim m.display_name == "") _ _ h1 in
    let (rates, h3) = guard-eq-inr (has_negative m.pricing) _ _ h2 in
    let (same, h4) = guard-eq-inr (differs (lookup m.name seen.metadata) m) _ _ h3 in
    let t = check_target-Target i m seen (parse m.url) seen' h4 in
    (
      record {
        named = named;
        displayed = displayed;
        rates = rates;
        same = same;
        target = t.target;
        parsed = t.parsed;
        absolute = t.absolute;
        origin = t.origin;
        fresh = t.fresh;
      },
      t.left,
    )

-- ===== src/Gateway/Registry/Tracks.antt =====
-- What the maps that `loadModels` of gateway/server.go fills say of the entries that it has passed.
use mathlib.Core.List.{Memᴰ}
use vire.Base.{
  not-eq-false, ◌≡◌, refl, sym, ap, ap₂, ◌∙◌, ◌⊎◌, inl, inr, Bool, true, false, not, ◌&&◌, ◌||◌,
  some, List, ◌∷◌, if◌then◌else◌, String, ◌==◌, eq_refl, trim, lookup, set, lookup-set, Bool-cases,
  Option-cases, String-cases,
}
use vire.Gateway.Registry.{
  Model, Url, Parse, destination, Destination, same_destination, Seen, is_known, differs,
}
use vire.Gateway.Registry.Origin.{checked-IsOrigin, IsOrigin-is_absolute, IsOrigin-is_origin}
use vire.Gateway.Registry.Checks.{
  Shares, Fits, same_destination_iff, differs_iff, Passed, after, has_negative-HasRates,
  HasRates-has_negative,
}

-- What the maps of the loop hold after the entries `before`.
pub record Tracks (parse : Parse) (before : List Model) (seen : Seen) : Type 0 where
  pub found :
      (n : String) (p : Model) → lookup n seen.metadata ≡ some p → Memᴰ p before × (p.name ≡ n)
  pub covers :
      (q : Model)
      → Memᴰ q before
      → (p : Model) × (lookup q.name seen.metadata ≡ some p) × Shares p q
  pub listed :
      (k : Destination)
      → is_known k seen.destinations ≡ true
      → (q : Model) × (u : Url) × Memᴰ q before × (parse q.url ≡ some u) × (destination q u ≡ k)
  pub known :
      (q : Model) (u : Url)
      → Memᴰ q before
      → parse q.url ≡ some u
      → is_known (destination q u) seen.destinations ≡ true

is_known-same : (k : Destination) (ds : List Destination) → is_known k (k ∷ ds) ≡ true
is_known-same k ds = rw ((same_destination_iff k k).1 refl)

true-not-false : (b : Bool) → b ≡ true → not b ≡ false
true-not-false b h = rw h

-- The display name is empty or it is not blank.
shown : (s : String) → (not (s == "") && trim s == "") ≡ false → (s ≡ "") ⊎ ((trim s == "") ≡ false)
shown s h = elim (String-cases s "") [
  | inl e ↦ inl e
  | inr e ↦ inr (ap (λ b. not b && trim s == "") (sym e) ∙ h)
]

hidden :
    (s : String) → (s ≡ "") ⊎ ((trim s == "") ≡ false) → (not (s == "") && trim s == "") ≡ false
hidden s (inl e) = rw e
hidden s (inr e) = elim (Bool-cases (s == "")) [ inl b ↦ rw b | inr b ↦ rw (b, e) ]

Shares-sym : (p q : Model) → Shares p q → Shares q p
Shares-sym p q (a, b) = (sym a, sym b)

Shares-trans : (p q r : Model) → Shares p q → Shares q r → Shares p r
Shares-trans p q r (a, b) (c, d) = (a ∙ c, b ∙ d)

-- What is looked up first is the last entry set.
lookup-set_same : (m : Model) (d : List (String × Model)) → lookup m.name (set m.name m d) ≡ some m
lookup-set_same m d = rw (lookup-set, eq_refl m.name)

-- A destination in a list with one before it.
is_known_cons :
    (d k : Destination) (ds : List Destination)
    → is_known k (d ∷ ds) ≡ true
    → (d ≡ k) ⊎ (is_known k ds ≡ true)
is_known_cons d k ds h = elim (Bool-cases (same_destination d k)) [
  | inl same ↦ inl ((same_destination_iff d k).0 same)
  | inr other ↦ inr (ap (λ b. b || is_known k ds) (sym other) ∙ h)
]

is_known-tail :
    (d k : Destination) (ds : List Destination) → is_known k ds ≡ true → is_known k (d ∷ ds) ≡ true
is_known-tail d k ds h = elim (Bool-cases (same_destination d k)) [
  | inl same ↦ rw same
  | inr other ↦ rw (other, h)
]

pub inl-eq : {E A : Type 0} {a b : E} → Path (E ⊎ A) (inl a) (inl b) → a ≡ b
inl-eq h = cc

pub some-eq : {A : Type 0} {a b : A} → some a ≡ some b → a ≡ b
some-eq h = cc

abbrev destination_of : String → String → Destination
destination_of name url = record { name = name; url = url }

module _ (parse : Parse) (before : List Model) (seen : Seen) (t : Tracks parse before seen) where
  -- The entry that the map holds under a model's name shares its metadata.
  Passed-Shares :
      (m r : Model) → Passed parse m seen → lookup m.name seen.metadata ≡ some r → Shares r m
  Passed-Shares m r p e = (differs_iff r m).0 (ap (λ o. differs o m) (sym e) ∙ p.same)

  pub Passed-Fits : (m : Model) → Passed parse m seen → Fits parse before m
  Passed-Fits m p = record {
    valid = record {
      named = p.named;
      displayed = shown m.display_name p.displayed;
      rates = has_negative-HasRates m.pricing p.rates;
      target = p.target;
      parsed = p.parsed;
      origin =
          checked-IsOrigin m.url p.target (not-eq-false _ p.absolute) (not-eq-false _ p.origin);
    };
    shared = λ q member name.
        let (r, e, s) = t.covers q member in
        Shares-trans q r m (Shares-sym r q s)
          (Passed-Shares m r p (ap (λ n. lookup n seen.metadata) (sym name) ∙ e));
    fresh = λ q u member parsed name url.
        let same = ap₂ destination_of name url in
        let k = t.known q u member parsed in
        let k' : is_known (destination m p.target) seen.destinations ≡ true =
          ap (λ d. is_known d seen.destinations) (sym same) ∙ k in
        let h = p.fresh in cc;
  }

  Fits-same : (m : Model) → Fits parse before m → differs (lookup m.name seen.metadata) m ≡ false
  Fits-same m f = elim (Option-cases (lookup m.name seen.metadata)) [
    | inl e ↦ rw e
    | inr (r, e) ↦
        let (member, name) = t.found m.name r e in
        rw e ((differs_iff r m).1 (f.shared r member name))
  ]

  Fits-fresh :
      (m : Model) (f : Fits parse before m)
      → is_known (destination m f.valid.target) seen.destinations ≡ false
  Fits-fresh m f = elim (Bool-cases (is_known (destination m f.valid.target) seen.destinations)) [
    | inl k ↦
        let (q, u, member, parsed, same) = t.listed _ k in
        absurd (
          f.fresh q u member parsed (ap (λ (d : Destination). d.name) same)
            (ap (λ (d : Destination). d.url) same))
    | inr k ↦ k
  ]

  pub Fits-Passed : (m : Model) → Fits parse before m → Passed parse m seen
  Fits-Passed m f = record {
    named = f.valid.named;
    displayed = hidden m.display_name f.valid.displayed;
    rates = HasRates-has_negative m.pricing f.valid.rates;
    same = Fits-same m f;
    target = f.valid.target;
    parsed = f.valid.parsed;
    absolute = true-not-false _ (IsOrigin-is_absolute m.url f.valid.target f.valid.origin);
    origin = true-not-false _ (IsOrigin-is_origin m.url f.valid.target f.valid.origin);
    fresh = Fits-fresh m f;
  }

  after-found :
      (m : Model) (n : String) (r : Model)
      → lookup n (set m.name m seen.metadata) ≡ some r
      → Memᴰ r (m ∷ before) × (r.name ≡ n)
  after-found m n r h = elim (String-cases m.name n) [
    | inl here ↦
        let e : m ≡ r = some-eq (
          sym (lookup-set_same m seen.metadata)
          ∙ ap (λ k. lookup k (set m.name m seen.metadata)) here
          ∙ h) in
        (Memᴰ.head (sym e), ap (λ (x : Model). x.name) (sym e) ∙ here)
    | inr away ↦
        let e : lookup n seen.metadata ≡ some r =
          ap (λ b. if b then some m else lookup n seen.metadata) (sym away)
          ∙ sym (lookup-set n m.name m seen.metadata)
          ∙ h in
        let (member, name) = t.found n r e in (Memᴰ.tail member, name)
  ]

  after-covers :
      (m : Model)
      → Passed parse m seen
      → (q : Model) → Memᴰ q (m ∷ before)
      → (r : Model) × (lookup q.name (set m.name m seen.metadata) ≡ some r) × Shares r q
  after-covers m p q (Memᴰ.head e) = rw e (m, lookup-set_same m seen.metadata, (refl, refl))
  after-covers m p q (Memᴰ.tail member) =
      let (r, e, s) = t.covers q member in
      elim (String-cases m.name q.name) [
        | inl here ↦
            let f = Passed-Shares m r p (ap (λ n. lookup n seen.metadata) here ∙ e) in
            (
              m,
              ap (λ k. lookup k (set m.name m seen.metadata)) (sym here)
                  ∙ lookup-set_same m seen.metadata,
              Shares-trans m r q (Shares-sym r m f) s,
            )
        | inr away ↦ (r, lookup-set q.name m.name m seen.metadata ∙ rw (away, e), s)
      ]

  after-known :
      (m : Model) (p : Passed parse m seen) (q : Model) (u : Url)
      → Memᴰ q (m ∷ before)
      → parse q.url ≡ some u
      → is_known (destination q u) (destination m p.target ∷ seen.destinations) ≡ true
  after-known m p q u (Memᴰ.head e) parsed =
      let same : p.target ≡ u =
        some-eq (sym p.parsed ∙ ap (λ (x : Model). parse x.url) (sym e) ∙ parsed) in
      ap (λ k. is_known k (destination m p.target ∷ seen.destinations))
        (ap₂ destination e (sym same))
      ∙ is_known-same (destination m p.target) seen.destinations
  after-known m p q u (Memᴰ.tail member) parsed =
      is_known-tail (destination m p.target) (destination q u) seen.destinations
        (t.known q u member parsed)

  pub after-Tracks :
      (m : Model) (p : Passed parse m seen) → Tracks parse (m ∷ before) (after m p.target seen)
  after-Tracks m p = record {
    found = after-found m;
    covers = after-covers m p;
    listed = λ k h. elim (is_known_cons (destination m p.target) k seen.destinations h) [
      | inl e ↦ (m, p.target, Memᴰ.head refl, p.parsed, e)
      | inr g ↦
          let (q, u, member, parsed, same) = t.listed k g in (q, u, Memᴰ.tail member, parsed, same)
    ];
    known = after-known m p;
  }

-- ===== src/Gateway/Membership/Undone.antt =====
-- What `ReloadRegistry` of gateway/membership.go undoes when a new backend is not healthy.
use vire.Base.{
  or-eq-false, ℕ, ◌≤◌, ◌≡◌, refl, sym, ap, ap₂, ◌∙◌, inl, inr, Bool, true, false, ◌||◌, Option,
  none, some, List, [], ◌∷◌, ◌++◌, length, get_elem?, if◌then◌else◌, String, ◌==◌, eq_iff, Dict,
  lookup, set, delete, lookup-set, lookup-delete, Bool-cases, Option-cases, arith, length-append,
}
use vire.Gateway.Registry.{Model, Parse}
use vire.Gateway.Membership.{
  RouteBackend, Server, origin_of, key, Building, backend_for, add_to_route, build_one, build_all,
  build_routing,
}
use vire.Gateway.Membership.Reload.{key_of, key_at, roll_back}
use vire.Gateway.Membership.Objects.{Grows, get_elem?-append, get_elem?-last}

abbrev pub contains : String → List String → Bool
contains k [] = false
contains k (s ∷ ss) = s == k || contains k ss

-- The objects have the keys, in this order, and numbers from `n` on.
abbrev pub KeyedBy : ℕ → List RouteBackend → List ℕ → List String → Type 0
KeyedBy n heap [] [] = Unit {0}
KeyedBy n heap (b ∷ bs) (k ∷ ks) = (n ≤ b) × (key_at heap b ≡ some k) × KeyedBy n heap bs ks
KeyedBy n heap _ _ = ⊥

-- Objects keep their model and their origin.
abbrev pub Keeps : List RouteBackend → List RouteBackend → Type 0
Keeps heap heap' =
    (b : ℕ) (x : RouteBackend)
    → get_elem? heap b ≡ some x
    → (y : RouteBackend) × (get_elem? heap' b ≡ some y)
      × (y.model ≡ x.model)
      × (y.origin ≡ x.origin)

Grows-Keeps : (heap heap' : List RouteBackend) → Grows heap heap' → Keeps heap heap'
Grows-Keeps heap heap' g b x h = (x, g b x h, refl, refl)

-- So they keep their keys.
key_at-Keeps :
    (heap heap' : List RouteBackend)
    → Keeps heap heap'
    → (b : ℕ) (k : String) → key_at heap b ≡ some k
    → key_at heap' b ≡ some k
key_at-Keeps heap heap' g b k h = elim (Option-cases (get_elem? heap b)) [
  | inl e ↦ let none_is : none ≡ some k = ap key_of (sym e) ∙ h in cc
  | inr (x, e) ↦
      let (y, at, models, origins) = g b x e in
      ap key_of at ∙ ap some (ap₂ key models origins) ∙ ap key_of (sym e) ∙ h
]

pub KeyedBy-Keeps :
    (n : ℕ) (heap heap' : List RouteBackend) (bs : List ℕ) (ks : List String)
    → Keeps heap heap'
    → KeyedBy n heap bs ks
    → KeyedBy n heap' bs ks
KeyedBy-Keeps n heap heap' [] [] g v = tt
KeyedBy-Keeps n heap heap' [] (k ∷ ks) g v = absurd v
KeyedBy-Keeps n heap heap' (b ∷ bs) [] g v = absurd v
KeyedBy-Keeps n heap heap' (b ∷ bs) (k ∷ ks) g (low, at, v) =
    (low, key_at-Keeps heap heap' g b k at, KeyedBy-Keeps n heap heap' bs ks g v)

KeyedBy-append :
    (n : ℕ) (heap : List RouteBackend) (bs : List ℕ) (ks : List String) (b : ℕ) (k : String)
    → KeyedBy n heap bs ks
    → n ≤ b
    → key_at heap b ≡ some k
    → KeyedBy n heap (bs ++ b ∷ []) (ks ++ k ∷ [])
KeyedBy-append n heap [] [] b k v low at = (low, at, tt)
KeyedBy-append n heap [] (j ∷ ks) b k v low at = absurd v
KeyedBy-append n heap (c ∷ bs) [] b k v low at = absurd v
KeyedBy-append n heap (c ∷ bs) (j ∷ ks) b k (l, a, v) low at =
    (l, a, KeyedBy-append n heap bs ks b k v low at)

-- A key that is rolled back is missing, another key is as it was.
pub lookup-roll_back :
    (n : ℕ) (heap : List RouteBackend) (bs : List ℕ) (ks : List String) (d : Dict ℕ) (k : String)
    → KeyedBy n heap bs ks
    → lookup k (roll_back heap bs d) ≡ (if contains k ks then none else lookup k d)
unfolding roll_back
lookup-roll_back n heap [] [] d k v = refl
lookup-roll_back n heap [] (j ∷ ks) d k v = absurd v
lookup-roll_back n heap (b ∷ bs) [] d k v = absurd v
lookup-roll_back n heap (b ∷ bs) (j ∷ ks) d k (low, at, v) = rw at (
    lookup-roll_back n heap bs ks (delete j d) k v
    ∙ rw (lookup-delete k j d) (merge (j == k) (contains k ks) (lookup k d)))
  where
    merge :
        (p q : Bool) (o : Option ℕ)
        → (if q then none else (if p then none else o)) ≡ (if p || q then none else o)
    merge true true o = refl
    merge true false o = refl
    merge false q o = refl

contains-append :
    (k j : String) (ks : List String) → contains k (ks ++ j ∷ []) ≡ (contains k ks || j == k)
contains-append k j [] = or-false (j == k)
  where
    or-false : (b : Bool) → (b || false) ≡ b
    or-false true = refl
    or-false false = refl
contains-append k j (s ∷ ss) =
    rw (contains-append k j ss) (or_assoc (s == k) (contains k ss) (j == k))
  where
    or_assoc : (a b c : Bool) → (a || (b || c)) ≡ (a || b || c)
    or_assoc true b c = refl
    or_assoc false b c = refl

-- The map differs from the one before the loop by new keys only, those of the added backends.
pub record Undoes (heap : List RouteBackend) (before : Dict ℕ) (b : Building) : Type 0 where
  pub keys : List String
  pub keyed : KeyedBy (length heap) b.heap b.added keys
  pub grows : Grows heap b.heap
  pub long : length heap ≤ length b.heap
  pub fresh : (k : String) → contains k keys ≡ true → lookup k before ≡ none
  pub same : (k : String) → contains k keys ≡ false → lookup k b.backends ≡ lookup k before

module _ (heap : List RouteBackend) (before : Dict ℕ) (parse : Parse) (m : Model) (b : Building)
    (u : Undoes heap before b) where
  abbrev own : String
  own = key m.name (origin_of parse m)

  abbrev object : RouteBackend
  object = record { origin = origin_of parse m; model = m.name; healthy = true }

  own_fresh : lookup own b.backends ≡ none → lookup own before ≡ none
  own_fresh e = elim (Bool-cases (contains own u.keys)) [
    | inl listed ↦ u.fresh own listed
    | inr other ↦ sym (u.same own other) ∙ e
  ]

  fresh_after :
      lookup own b.backends ≡ none
      → (k : String) → contains k (u.keys ++ own ∷ []) ≡ true
      → lookup k before ≡ none
  fresh_after e k h = elim (Bool-cases (contains k u.keys)) [
    | inl listed ↦ u.fresh k listed
    | inr other ↦
        let t : (own == k) ≡ true =
          ap (λ c. c || own == k) (sym other) ∙ sym (contains-append k own u.keys) ∙ h in
        ap (λ j. lookup j before) (sym ((eq_iff own k).0 t)) ∙ own_fresh e
  ]

  same_after :
      (k : String)
      → contains k (u.keys ++ own ∷ []) ≡ false
      → lookup k (set own (length b.heap) b.backends) ≡ lookup k before
  same_after k h =
      let (other, away) =
        or-eq-false (contains k u.keys) (own == k) (sym (contains-append k own u.keys) ∙ h) in
      lookup-set k own (length b.heap) b.backends ∙ rw away (u.same k other)

  new_Undoes :
      lookup own b.backends ≡ none
      → Undoes heap before (add_to_route m (backend_for m (origin_of parse m) b none))
  new_Undoes e = record {
    keys = u.keys ++ own ∷ [];
    keyed =
        KeyedBy-append (length heap) (b.heap ++ object ∷ []) b.added u.keys (length b.heap) own
          (KeyedBy-Keeps (length heap) b.heap (b.heap ++ object ∷ []) b.added u.keys
            (Grows-Keeps b.heap (b.heap ++ object ∷ []) (get_elem?-append b.heap (object ∷ [])))
            u.keyed)
          u.long (ap key_of (get_elem?-last b.heap object));
    grows = λ i x h. get_elem?-append b.heap (object ∷ []) i x (u.grows i x h);
    long = let at_least = u.long in omega (arith, length-append b.heap (object ∷ []));
    fresh = fresh_after e;
    same = same_after;
  }

  build_one-Undoes : Undoes heap before (build_one parse m b)
  unfolding build_one
  build_one-Undoes = elim (Option-cases (lookup own b.backends)) [
    | inl e ↦ rw e (new_Undoes e)
    | inr (i, e) ↦ rw e (record {
      keys = u.keys;
      keyed = u.keyed;
      grows = u.grows;
      long = u.long;
      fresh = u.fresh;
      same = u.same;
    })
  ]

build_all-Undoes :
    (heap : List RouteBackend) (before : Dict ℕ) (parse : Parse) (ms : List Model) (b : Building)
    → Undoes heap before b
    → Undoes heap before (build_all parse ms b)
unfolding build_all
build_all-Undoes heap before parse [] b u = u
build_all-Undoes heap before parse (m ∷ ms) b u =
    build_all-Undoes heap before parse ms (build_one parse m b)
      (build_one-Undoes heap before parse m b u)

pub build_routing-Undoes :
    (parse : Parse) (s : Server) (models : List Model)
    → Undoes s.heap s.backends (build_routing parse s models)
unfolding build_routing
build_routing-Undoes parse s models = build_all-Undoes s.heap s.backends parse models _ (record {
  keys = [];
  keyed = tt;
  grows = λ i x h. h;
  long = omega arith;
  fresh = λ k h. cc;
  same = λ k h. refl;
})

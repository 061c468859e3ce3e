-- ===== src/Gateway/Registry/Loaded.antt =====
-- Which registries `loadModels` of gateway/server.go accepts.
use vire.Base.{
  ℕ, ◌+◌, ◌≡◌, refl, sym, ap, subst, ◌∙◌, ◌↔◌, ◌⊎◌, inl, inr, Bool, true, false, not, ◌&&◌, Option,
  none, some, List, [], ◌∷◌, if◌then◌else◌, ◌==◌, trim, lookup,
}
use vire.Gateway.Registry.{
  Model, Url, Parse, RegistryError, has_negative, name_required, blank_display_name, negative_rates,
  replicas_differ, not_absolute, not_origin, duplicate, check_target, is_absolute, is_origin,
  destination, Seen, is_known, differs, check_model, check_models, load_models, array, RegistryFile,
  no_file, malformed, extra_value, null, checked_models,
}
use vire.Gateway.Registry.Tracks.{Tracks, Passed-Fits, Fits-Passed, after-Tracks, inl-eq}
use vire.Gateway.Registry.Checks.{
  inr-eq, Fits, IsRegistry, after, Passed-check_model, check_model-Passed,
}

-- A round that went on, and one that did not or a later one.
step-inr :
    (r : RegistryError ⊎ Seen) (rest : Seen → RegistryError ⊎ Seen) {s' : Seen}
    → (elim r [ inl e ↦ inl e | inr s ↦ rest s ]) ≡ inr s'
    → (s : Seen) × (r ≡ inr s) × (rest s ≡ inr s')
step-inr (inl e) rest h = cc
step-inr (inr s) rest h = (s, refl, h)

go_on :
    (r : RegistryError ⊎ Seen) (rest : Seen → RegistryError ⊎ Seen) {s : Seen}
    → r ≡ inr s
    → (elim r [ inl e ↦ inl e | inr s ↦ rest s ]) ≡ rest s
go_on (inl e) rest h = cc
go_on (inr s) rest h = ap rest (inr-eq h)

step-inl :
    (r : RegistryError ⊎ Seen) (rest : Seen → RegistryError ⊎ Seen) {e : RegistryError}
    → (elim r [ inl e ↦ inl e | inr s ↦ rest s ]) ≡ inl e
    → (r ≡ inl e) ⊎ ((s : Seen) × (r ≡ inr s) × (rest s ≡ inl e))
step-inl (inl e) rest h = inl h
step-inl (inr s) rest h = inr (s, refl, h)

-- The index that an error names.
abbrev pub index : RegistryError → ℕ
index (name_required i) = i
index (blank_display_name i) = i
index (negative_rates i) = i
index (replicas_differ i) = i
index (not_absolute i) = i
index (not_origin i) = i
index (duplicate i) = i
index _ = 0

-- Entry `n`, counted from `i`, is the first one that does not fit the entries before it.
pub data Refused (parse : Parse) : ℕ → List Model → List Model → ℕ → Type 0 where
  here :
      {i : ℕ} {before ms : List Model} {m : Model}
      → (Fits parse before m → ⊥)
      → Refused parse i before (m ∷ ms) i
  later :
      {i n : ℕ} {before ms : List Model} {m : Model}
      → Fits parse before m
      → Refused parse (i + 1) (m ∷ before) ms n
      → Refused parse i before (m ∷ ms) n

guard-index :
    {A : Type 0} (c : Bool) (x : RegistryError) (r : RegistryError ⊎ A) {i : ℕ} {e : RegistryError}
    → index x ≡ i
    → (r ≡ inl e → index e ≡ i)
    → (if c then inl x else r) ≡ inl e
    → index e ≡ i
guard-index true x r at rest h = ap index (sym (inl-eq h)) ∙ at
guard-index false x r at rest h = rest h

check_target-index :
    (i : ℕ) (m : Model) (seen : Seen) (o : Option Url) (e : RegistryError)
    → check_target i m seen o ≡ inl e
    → index e ≡ i
check_target-index i m seen none e h = ap index (sym (inl-eq h))
check_target-index i m seen (some u) e h =
    guard-index (not (is_absolute u)) (not_absolute i) _ refl
      (guard-index (not (is_origin m.url u)) (not_origin i) _ refl
        (guard-index (is_known (destination m u) seen.destinations) (duplicate i) _ refl (λ g. cc)))
      h

-- An error of a round names the entry of the round.
check_model-index :
    (parse : Parse) (i : ℕ) (m : Model) (seen : Seen) (e : RegistryError)
    → check_model parse i m seen ≡ inl e
    → index e ≡ i
unfolding check_model
check_model-index parse i m seen e h =
    guard-index (trim m.name == "") (name_required i) _ refl
      (guard-index (not (m.display_name == "") && trim m.display_name == "") (blank_display_name i)
        _ refl
        (guard-index (has_negative m.pricing) (negative_rates i) _ refl (
          guard-index (differs (lookup m.name seen.metadata) m) (replicas_differ i) _ refl
            (check_target-index i m seen (parse m.url) e))))
      h

module _ (parse : Parse) where
  -- A round from maps that the entries before it filled.
  round_inr :
      (i : ℕ) (before : List Model) (m : Model) (seen seen' : Seen)
      → Tracks parse before seen
      → check_model parse i m seen ≡ inr seen'
      → Fits parse before m × Tracks parse (m ∷ before) seen'
  round_inr i before m seen seen' t h =
      let (p, e) = check_model-Passed parse i m seen seen' h in
      (Passed-Fits parse before seen t m p, rw e (after-Tracks parse before seen t m p))

  round_inl :
      (i : ℕ) (before : List Model) (m : Model) (seen : Seen) (e : RegistryError)
      → Tracks parse before seen
      → check_model parse i m seen ≡ inl e
      → Fits parse before m
      → ⊥
  round_inl i before m seen e t h f =
      let g = Passed-check_model parse i m seen (Fits-Passed parse before seen t m f) in cc

  check_models-IsRegistry :
      (i : ℕ) (before ms : List Model) (seen : Seen) {seen' : Seen}
      → Tracks parse before seen
      → check_models parse i ms seen ≡ inr seen'
      → IsRegistry parse before ms
  unfolding check_models
  check_models-IsRegistry i before [] seen t h = tt
  check_models-IsRegistry i before (m ∷ ms) seen t h =
      let (s, step, g) = step-inr (check_model parse i m seen) (check_models parse (i + 1) ms) h in
      let (f, t') = round_inr i before m seen s t step in
      (f, check_models-IsRegistry (i + 1) (m ∷ before) ms s t' g)

  IsRegistry-check_models :
      (i : ℕ) (before ms : List Model) (seen : Seen)
      → Tracks parse before seen
      → IsRegistry parse before ms
      → (seen' : Seen) × (check_models parse i ms seen ≡ inr seen')
  unfolding check_models
  IsRegistry-check_models i before [] seen t v = (seen, refl)
  IsRegistry-check_models i before (m ∷ ms) seen t (f, v) =
      let p = Fits-Passed parse before seen t m f in
      let (seen', e) =
        IsRegistry-check_models (i + 1) (m ∷ before) ms (after m p.target seen)
          (after-Tracks parse before seen t m p) v in
      (
        seen',
        go_on (check_model parse i m seen) (check_models parse (i + 1) ms)
              (Passed-check_model parse i m seen p)
            ∙ e,
      )

  check_models-Refused :
      (i : ℕ) (before ms : List Model) (seen : Seen) {e : RegistryError}
      → Tracks parse before seen
      → check_models parse i ms seen ≡ inl e
      → Refused parse i before ms (index e)
  unfolding check_models
  check_models-Refused i before [] seen t h = cc
  check_models-Refused i before (m ∷ ms) seen {e} t h =
      elim (step-inl (check_model parse i m seen) (check_models parse (i + 1) ms) h) [
        | inl step ↦
            subst (λ n. Refused parse i before (m ∷ ms) n)
              (sym (check_model-index parse i m seen e step))
              (here (round_inl i before m seen e t step))
        | inr (s, step, g) ↦
            let (f, t') = round_inr i before m seen s t step in
            later f (check_models-Refused (i + 1) (m ∷ before) ms s t' g)
      ]

  nothing-Tracks : Tracks parse [] (record { metadata = []; destinations = [] })
  unfolding lookup
  nothing-Tracks = record {
    found = λ n r h. cc;
    covers = λ q member. elim member [ ];
    listed = λ k h. cc;
    known = λ q u member parsed. elim member [ ];
  }

checked-inr :
    (ms : List Model) (r : RegistryError ⊎ Seen)
    → checked_models ms r ≡ inr ms
    → (s : Seen) × (r ≡ inr s)
checked-inr ms (inl e) h = cc
checked-inr ms (inr s) h = (s, refl)

checked-inl :
    (ms : List Model) (r : RegistryError ⊎ Seen) {e : RegistryError}
    → checked_models ms r ≡ inl e
    → r ≡ inl e
checked-inl ms (inl x) h = ap inl (inl-eq h)
checked-inl ms (inr s) h = cc

-- A decoded list of models is loaded exactly when every entry is valid by itself, with a name,
-- rates that are not negative and a URL of http or https with a host and without user, path, query,
-- fragment and hash, shares the display name and the pricing of the entries before it of the same
-- name, and no entry before it has its name and its printed URL, less a slash at the end.
pub load_models-IsRegistry :
    (parse : Parse) (models : List Model)
    → (load_models parse (array models) ≡ inr models) ↔ IsRegistry parse [] models
unfolding load_models
load_models-IsRegistry parse models = (
  λ h.
      let (s, e) = checked-inr models _ h in
      check_models-IsRegistry parse 0 [] models _ (nothing-Tracks parse) e,
  λ v.
      let (s, e) = IsRegistry-check_models parse 0 [] models _ (nothing-Tracks parse) v in
      ap (checked_models models) e,
)

-- The index in the error for a refused list of models is that of the first entry that does not fit
-- the entries before it.
pub load_models-Refused :
    (parse : Parse) (models : List Model) (failure : RegistryError)
    → load_models parse (array models) ≡ inl failure
    → Refused parse 0 [] models (index failure)
unfolding load_models
load_models-Refused parse models failure h =
    check_models-Refused parse 0 [] models _ (nothing-Tracks parse) (checked-inl models _ h)

checked-eq :
    (ms : List Model) (r : RegistryError ⊎ Seen) {models : List Model}
    → checked_models ms r ≡ inr models
    → ms ≡ models
checked-eq ms (inl e) h = cc
checked-eq ms (inr s) h = inr-eq h

-- Models that are loaded are those of the file, and form a registry.
pub load_models-array :
    (parse : Parse) (file : RegistryFile) (models : List Model)
    → load_models parse file ≡ inr models
    → (file ≡ array models) × IsRegistry parse [] models
unfolding load_models
load_models-array parse no_file models h = cc
load_models-array parse malformed models h = cc
load_models-array parse extra_value models h = cc
load_models-array parse null models h = cc
load_models-array parse (array ms) models h =
    let e : ms ≡ models = checked-eq ms _ h in
    (
      ap array e,
      subst (λ q. IsRegistry parse [] q) e
          ((load_models-IsRegistry parse ms).0 (h ∙ ap inr (sym e))),
    )

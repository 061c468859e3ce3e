-- ===== src/Gateway/Membership/Kept.antt =====
-- What the loop of `buildRouting` adds to the map of gateway/membership.go, and what the deletion of
-- `ReloadRegistry` keeps of it.
use mathlib.Core.List.{Memᴰ}
use vire.Base.{
  ℕ, ◌≡◌, refl, sym, ap, ◌∙◌, ◌⊎◌, inl, inr, Bool, true, false, ◌||◌, some, List, [], ◌∷◌, ◌++◌,
  length, if◌then◌else◌, String, ◌==◌, eq_iff, eq_refl, Dict, lookup, lookup-set, Bool-cases,
  String-cases, Option-cases,
}
use vire.Gateway.Registry.{Model, Parse, trim_slash}
use vire.Gateway.Membership.{Server, origin_of, key, Building, build_one, build_all, build_routing}
use vire.Gateway.Membership.Reload.{Probe, answered, is_active}
use vire.Gateway.Membership.Probed.{AllAnswered}

module _ {A : Type 0} where
  Mem-front : (x : A) (xs ys : List A) → Memᴰ x xs → Memᴰ x (xs ++ ys)
  Mem-front x [] ys m = elim m [ ]
  Mem-front x (y ∷ xs) ys (Memᴰ.head e) = Memᴰ.head e
  Mem-front x (y ∷ xs) ys (Memᴰ.tail m) = Memᴰ.tail (Mem-front x xs ys m)

  Mem-last : (x : A) (xs : List A) → Memᴰ x (xs ++ x ∷ [])
  Mem-last x [] = Memᴰ.head refl
  Mem-last x (y ∷ xs) = Memᴰ.tail (Mem-last x xs)

  pub some-eq : {a b : A} → some a ≡ some b → a ≡ b
  some-eq h = cc

-- An entry of the map is from before the loop, or its backend was added.
abbrev pub Adds : Dict ℕ → Building → Type 0
Adds before b =
    (k : String) (n : ℕ)
    → lookup k b.backends ≡ some n
    → (lookup k before ≡ some n) ⊎ Memᴰ n b.added

build_one-Adds :
    (before : Dict ℕ) (parse : Parse) (m : Model) (b : Building)
    → Adds before b
    → Adds before (build_one parse m b)
unfolding build_one
build_one-Adds before parse m b a =
    let own = key m.name (origin_of parse m) in
    elim (Option-cases (lookup own b.backends)) [
      | inr (i, e) ↦ rw e a
      | inl e ↦ rw e (λ k n h. elim (String-cases own k) [
        | inl here ↦
            let same : length b.heap ≡ n = some-eq (
              ap (λ (t : Bool). if t then some (length b.heap) else lookup k b.backends)
                (sym (ap (λ j. own == j) (sym here) ∙ eq_refl own))
              ∙ sym (lookup-set k own (length b.heap) b.backends)
              ∙ h) in
            inr (rw (sym same) (Mem-last (length b.heap) b.added))
        | inr away ↦
            elim (a k n (
              ap (λ (t : Bool). if t then some (length b.heap) else lookup k b.backends) (sym away)
              ∙ sym (lookup-set k own (length b.heap) b.backends)
              ∙ h)) [
                | inl old ↦ inl old
                | inr new ↦ inr (Mem-front n b.added (length b.heap ∷ []) new)
              ]
      ])
    ]

build_all-Adds :
    (before : Dict ℕ) (parse : Parse) (ms : List Model) (b : Building)
    → Adds before b
    → Adds before (build_all parse ms b)
unfolding build_all
build_all-Adds before parse [] b a = a
build_all-Adds before parse (m ∷ ms) b a =
    build_all-Adds before parse ms (build_one parse m b) (build_one-Adds before parse m b a)

pub build_routing-Adds :
    (parse : Parse) (s : Server) (models : List Model)
    → Adds s.backends (build_routing parse s models)
unfolding build_routing
build_routing-Adds parse s models = build_all-Adds s.backends parse models _ (λ k n h. inl h)

pub AllAnswered-Mem :
    (probe : ℕ → Probe) (bs : List ℕ) (b : ℕ)
    → AllAnswered probe bs
    → Memᴰ b bs
    → probe b ≡ answered 200
AllAnswered-Mem probe [] b a m = elim m [ ]
AllAnswered-Mem probe (c ∷ bs) b a (Memᴰ.head e) = ap probe e ∙ a.0
AllAnswered-Mem probe (c ∷ bs) b a (Memᴰ.tail m) = AllAnswered-Mem probe bs b a.1 m

-- A key that is kept is the name of a model with its URL, less a slash at the end.
pub is_active-Mem :
    (ms : List Model) (k : String)
    → is_active ms k ≡ true
    → (m : Model) × Memᴰ m ms × (key m.name (trim_slash m.url) ≡ k)
unfolding is_active
is_active-Mem [] k h = cc
is_active-Mem (m ∷ ms) k h = elim (Bool-cases (key m.name (trim_slash m.url) == k)) [
  | inl here ↦ (m, Memᴰ.head refl, (eq_iff (key m.name (trim_slash m.url)) k).0 here)
  | inr away ↦
      let (q, member, same) = is_active-Mem ms k (rw away at h) in (q, Memᴰ.tail member, same)
]

or-true : (b : Bool) → (b || true) ≡ true
or-true true = refl
or-true false = refl

pub Mem-is_active :
    (ms : List Model) (m : Model) → Memᴰ m ms → is_active ms (key m.name (trim_slash m.url)) ≡ true
unfolding is_active
Mem-is_active [] m h = elim h [ ]
Mem-is_active (q ∷ ms) m (Memᴰ.head e) =
    ap (λ (x : Model). is_active (q ∷ ms) (key x.name (trim_slash x.url))) e
    ∙ ap (λ b. b || is_active ms (key q.name (trim_slash q.url)))
        (eq_refl (key q.name (trim_slash q.url)))
Mem-is_active (q ∷ ms) m (Memᴰ.tail h) =
    let k = key m.name (trim_slash m.url) in
    ap (λ b. key q.name (trim_slash q.url) == k || b) (Mem-is_active ms m h)
    ∙ or-true (key q.name (trim_slash q.url) == k)

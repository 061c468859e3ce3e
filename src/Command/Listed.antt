-- ===== src/Command/Listed.antt =====
-- Which models `PricedModels` of gateway/server.go lists.
use mathlib.Core.List.{Memᴰ}
use vire.Base.{
  not-eq-false, ◌≡◌, refl, sym, ap, subst, ◌∙◌, ◌⊎◌, inl, inr, Bool, true, false, not, ◌&&◌, Option,
  none, some, List, [], ◌∷◌, String, eq_iff, eq_refl, trim, lookup, set, lookup-set, Dict,
  Bool-cases, String-cases,
}
use vire.Gateway.Registry.{ModelPricing, Model, Parse, is_priced, is_seen, priced_from}
use vire.Gateway.Registry.Checks.{IsRegistry, Shares}
use vire.Command.Prices.{Once}

-- Entries of the same name share their metadata, in a registry.
Shares-before :
    (parse : Parse) (before ms : List Model) (q r : Model)
    → IsRegistry parse before ms
    → Memᴰ q before
    → Memᴰ r ms
    → q.name ≡ r.name
    → Shares q r
Shares-before parse before [] q r v there member name = elim member [ ]
Shares-before parse before (m ∷ ms) q r (f, v) there (Memᴰ.head e) name =
    let (displays, pricings) = f.shared q there (name ∙ ap (λ (x : Model). x.name) e) in
    (
      displays ∙ ap (λ (x : Model). x.display_name) (sym e),
      pricings ∙ ap (λ (x : Model). x.pricing) (sym e),
    )
Shares-before parse before (m ∷ ms) q r (f, v) there (Memᴰ.tail member) name =
    Shares-before parse (m ∷ before) ms q r v (Memᴰ.tail there) member name

pub IsRegistry-Shares :
    (parse : Parse) (before ms : List Model) (q r : Model)
    → IsRegistry parse before ms
    → Memᴰ q ms
    → Memᴰ r ms
    → q.name ≡ r.name
    → q.pricing ≡ r.pricing
IsRegistry-Shares parse before [] q r v there member name = elim member [ ]
IsRegistry-Shares parse before (m ∷ ms) q r (f, v) (Memᴰ.head e) (Memᴰ.head g) name =
    ap (λ (x : Model). x.pricing) (e ∙ sym g)
IsRegistry-Shares parse before (m ∷ ms) q r (f, v) (Memᴰ.head e) (Memᴰ.tail member) name =
    ap (λ (x : Model). x.pricing) e
    ∙ (Shares-before parse (m ∷ before) ms m r v (Memᴰ.head refl) member
        (ap (λ (x : Model). x.name) (sym e) ∙ name)).1
IsRegistry-Shares parse before (m ∷ ms) q r (f, v) (Memᴰ.tail there) (Memᴰ.head g) name = sym (
    ap (λ (x : Model). x.pricing) g
    ∙ (Shares-before parse (m ∷ before) ms m q v (Memᴰ.head refl) there
        (ap (λ (x : Model). x.name) (sym g) ∙ sym name)).1)
IsRegistry-Shares parse before (m ∷ ms) q r (f, v) (Memᴰ.tail there) (Memᴰ.tail member) name =
    IsRegistry-Shares parse (m ∷ before) ms q r v there member name

and-eq-true : (a b : Bool) → (a && b) ≡ true → (a ≡ true) × (b ≡ true)
and-eq-true true b h = (refl, h)
and-eq-true false b h = cc

priced_from_nil : (seen : Dict Bool) → priced_from seen [] ≡ []
unfolding priced_from
priced_from_nil seen = refl

-- Whether the loop takes a model.
abbrev takes : Dict Bool → Model → Bool
takes seen m = is_priced m.pricing && not (is_seen (lookup m.name seen))

is_priced-some : (o : Option ModelPricing) → is_priced o ≡ true → (p : ModelPricing) × (o ≡ some p)
is_priced-some none h = cc
is_priced-some (some p) h = (p, refl)

lookup-set_seen : (n : String) (seen : Dict Bool) → is_seen (lookup n (set n true seen)) ≡ true
lookup-set_seen n seen = rw (lookup-set, eq_refl n)

set_seen-kept :
    (n k : String) (seen : Dict Bool)
    → is_seen (lookup n seen) ≡ true
    → is_seen (lookup n (set k true seen)) ≡ true
set_seen-kept n k seen h = elim (String-cases k n) [
  | inl e ↦ rw (lookup-set, (eq_iff k n).1 e)
  | inr e ↦ rw (lookup-set, e, h)
]

module _ (seen : Dict Bool) (k : Model) (ms : List Model) where
  priced_from_take :
      takes seen k ≡ true → priced_from seen (k ∷ ms) ≡ k ∷ priced_from (set k.name true seen) ms
  unfolding priced_from
  priced_from_take t = rw t

  priced_from_skip : takes seen k ≡ false → priced_from seen (k ∷ ms) ≡ priced_from seen ms
  unfolding priced_from
  priced_from_skip t = rw t

not-eq-true : (b : Bool) → not b ≡ true → b ≡ false
not-eq-true false h = refl
not-eq-true true h = cc

takes-fresh :
    (seen : Dict Bool) (k : Model)
    → takes seen k ≡ true
    → ((p : ModelPricing) × (k.pricing ≡ some p)) × (is_seen (lookup k.name seen) ≡ false)
takes-fresh seen k t =
    let (priced, fresh) = and-eq-true (is_priced k.pricing) _ t in
    (is_priced-some k.pricing priced, not-eq-true _ fresh)

-- What is listed is a model of the registry with a name that was not seen.
pub priced_from-Mem :
    (seen : Dict Bool) (ms : List Model) (m : Model)
    → Memᴰ m (priced_from seen ms)
    → Memᴰ m ms × (is_seen (lookup m.name seen) ≡ false)
priced_from-Mem seen [] m h = elim (subst (Memᴰ m) (priced_from_nil seen) h) [ ]
priced_from-Mem seen (k ∷ ms) m h = elim (Bool-cases (takes seen k)) [
  | inr t ↦
      let (member, fresh) =
        priced_from-Mem seen ms m (subst (Memᴰ m) (priced_from_skip seen k ms t) h) in
      (Memᴰ.tail member, fresh)
  | inl t ↦
      taken t (priced_from-Mem (set k.name true seen) ms m)
        (subst (Memᴰ m) (priced_from_take seen k ms t) h)
]
  where
    taken :
        takes seen k ≡ true
        → (Memᴰ m (priced_from (set k.name true seen) ms)
            → Memᴰ m ms × (is_seen (lookup m.name (set k.name true seen)) ≡ false))
        → Memᴰ m (k ∷ priced_from (set k.name true seen) ms)
        → Memᴰ m (k ∷ ms) × (is_seen (lookup m.name seen) ≡ false)
    taken t rest (Memᴰ.head e) =
        (Memᴰ.head e, ap (λ (x : Model). is_seen (lookup x.name seen)) e ∙ (takes-fresh seen k t).1)
    taken t rest (Memᴰ.tail g) =
        let (member, fresh) = rest g in
        (
          Memᴰ.tail member,
          elim (Bool-cases (is_seen (lookup m.name seen))) [
            | inl old ↦ let kept = set_seen-kept m.name k.name seen old in absurd (clash fresh kept)
            | inr new ↦ new
          ],
        )
      where
        clash : {b : Bool} → b ≡ false → b ≡ true → ⊥
        clash f t = cc

-- The models are listed once, and with their pricing.
pub priced_from-Once :
    (seen : Dict Bool) (ms : List Model)
    → ((m : Model) → Memᴰ m ms → trim m.name ≡ m.name)
    → Once (priced_from seen ms)
priced_from-Once seen [] clean = subst Once (sym (priced_from_nil seen)) tt
priced_from-Once seen (k ∷ ms) clean =
    let rest = λ (s : Dict Bool). priced_from-Once s ms (λ m member. clean m (Memᴰ.tail member)) in
    elim (Bool-cases (takes seen k)) [
      | inr t ↦ subst Once (sym (priced_from_skip seen k ms t)) (rest seen)
      | inl t ↦ subst Once (sym (priced_from_take seen k ms t)) (
        clean k (Memᴰ.head refl),
        (takes-fresh seen k t).0,
        λ m member e.
            let (_, fresh) = priced_from-Mem (set k.name true seen) ms m member in
            let old =
              ap (λ n. is_seen (lookup n (set k.name true seen))) e ∙ lookup-set_seen k.name seen in
            cc,
        rest (set k.name true seen),
      )
    ]

abbrev pub Covered : Dict Bool → Model → List Model → Type 0
Covered seen m listed =
    (is_seen (lookup m.name seen) ≡ true) ⊎ ((q : Model) × Memᴰ q listed × (q.name ≡ m.name))

-- A model with a pricing has its name listed, or seen before.
pub priced_from-covers :
    (seen : Dict Bool) (ms : List Model) (m : Model) (p : ModelPricing)
    → Memᴰ m ms
    → m.pricing ≡ some p
    → Covered seen m (priced_from seen ms)
priced_from-covers seen [] m p h priced = elim h [ ]
priced_from-covers seen (k ∷ ms) m p h priced = elim (Bool-cases (takes seen k)) [
  | inr t ↦
      subst (Covered seen m) (sym (priced_from_skip seen k ms t))
        (skipped t (λ g. priced_from-covers seen ms m p g priced) h)
  | inl t ↦
      subst (Covered seen m) (sym (priced_from_take seen k ms t))
        (taken (λ g. priced_from-covers (set k.name true seen) ms m p g priced) h)
]
  where
    skipped :
        takes seen k ≡ false
        → (Memᴰ m ms → Covered seen m (priced_from seen ms))
        → Memᴰ m (k ∷ ms)
        → Covered seen m (priced_from seen ms)
    skipped t rest (Memᴰ.tail g) = rest g
    skipped t rest (Memᴰ.head e) =
        let known : is_priced k.pricing ≡ true =
          ap is_priced (ap (λ (x : Model). x.pricing) (sym e) ∙ priced) in
        let old =
          not-eq-false _ (ap (λ b. b && not (is_seen (lookup k.name seen))) (sym known) ∙ t) in
        inl (ap (λ (x : Model). is_seen (lookup x.name seen)) e ∙ old)

    taken :
        (Memᴰ m ms → Covered (set k.name true seen) m (priced_from (set k.name true seen) ms))
        → Memᴰ m (k ∷ ms)
        → Covered seen m (k ∷ priced_from (set k.name true seen) ms)
    taken rest (Memᴰ.head e) = inr (k, Memᴰ.head refl, ap (λ (x : Model). x.name) (sym e))
    taken rest (Memᴰ.tail g) = elim (rest g) [
      | inr listed ↦ let (q, there, name) = listed in inr (q, Memᴰ.tail there, name)
      | inl old ↦ elim (String-cases k.name m.name) [
        | inl e ↦ inr (k, Memᴰ.head refl, e)
        | inr e ↦
            let same : lookup m.name (set k.name true seen) ≡ lookup m.name seen =
              lookup-set m.name k.name true seen ∙ rw e in
            inl (sym (ap is_seen same) ∙ old)
      ]
    ]

-- ===== src/Gateway/Membership/Keys.antt =====
-- The keys of the map `backends` of gateway/membership.go: a name, a NUL, an origin.
use vire.Base.{◌≡◌, refl, sym, ap, ap₂, ◌∙◌, Bool, true, false, ◌||◌, nat_eq, String}
use Prim.Native.Char.{Char, code, nul}
use Prim.Native.String.append.{nil, cons}
use vire.Gateway.Membership.{key}

abbrev pub has_nul : String → Bool
has_nul String.[] = false
has_nul (String.◌∷◌ c s) = nat_eq (code c) 0 || has_nul s

pub key_nil : (o : String) → key String.[] o ≡ String.◌∷◌ nul o
unfolding key
key_nil o = λ i. nil (String.◌∷◌ nul o) i

pub key_cons : (c : Char) (n o : String) → key (String.◌∷◌ c n) o ≡ String.◌∷◌ c (key n o)
unfolding key
key_cons c n o = λ i. cons c n (String.◌∷◌ nul o) i

has_nul-key : (n o : String) → has_nul (key n o) ≡ true
has_nul-key String.[] o = rw (key_nil o)
has_nul-key (String.◌∷◌ c n) o = rw (key_cons c n o, has_nul-key n o) (true-or (nat_eq (code c) 0))
  where
    true-or : (b : Bool) → (b || true) ≡ true
    true-or true = refl
    true-or false = refl

pub tail_eq : {c d : Char} {s t : String} → String.◌∷◌ c s ≡ String.◌∷◌ d t → (c ≡ d) × (s ≡ t)
tail_eq h = (cc, cc)

not-key : (n o p : String) → has_nul p ≡ false → p ≡ key n o → ⊥
not-key n o p h e = let g = has_nul-key n o in let f = ap has_nul e in cc

-- Where the origins have no NUL, a key determines its name and its origin.
pub key-injective :
    (n m o p : String)
    → has_nul o ≡ false
    → has_nul p ≡ false
    → key n o ≡ key m p
    → (n ≡ m) × (o ≡ p)
key-injective String.[] String.[] o p ho hp h =
    (refl, (tail_eq (sym (key_nil o) ∙ h ∙ key_nil p)).1)
key-injective String.[] (String.◌∷◌ d m) o p ho hp h =
    absurd (not-key m p o ho (tail_eq (sym (key_nil o) ∙ h ∙ key_cons d m p)).1)
key-injective (String.◌∷◌ c n) String.[] o p ho hp h =
    absurd (not-key n o p hp (sym (tail_eq (sym (key_cons c n o) ∙ h ∙ key_nil p)).1))
key-injective (String.◌∷◌ c n) (String.◌∷◌ d m) o p ho hp h =
    let (same, rest) = tail_eq (sym (key_cons c n o) ∙ h ∙ key_cons d m p) in
    let (names, origins) = key-injective n m o p ho hp rest in
    (ap₂ (λ a b. String.◌∷◌ a b) same names, origins)

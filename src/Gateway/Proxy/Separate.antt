-- ===== src/Gateway/Proxy/Separate.antt =====
-- The conversations of `modelRoute.ServeHTTP` (gateway/proxy.go) by account.
use vire.Base.{
  ◌≡◌, ◌≢◌, refl, sym, ap, ap₂, ◌∙◌, true, false, or-eq-false, nat_eq, String, ◌==◌, arith, eq_iff,
}
use Prim.Native.Char.{Char, code, nul}
use vire.Gateway.Membership.{key}
use vire.Gateway.Membership.Keys.{has_nul, key_nil, key_cons, tail_eq}
use vire.Gateway.Proxy.{conversation_key}

no_nul_head : (c : Char) (s : String) → has_nul (String.◌∷◌ c s) ≡ false → nul ≡ c → ⊥
no_nul_head c s h e =
    let other = (or-eq-false (nat_eq (code c) 0) (has_nul s) h).0 in
    let zero : true ≡ nat_eq (code c) 0 = ap (λ (x : Char). nat_eq (code x) 0) e in cc

-- Where the names have no NUL, a key determines its name and what follows.
key-injective_names :
    (a b c d : String)
    → has_nul a ≡ false
    → has_nul b ≡ false
    → key a c ≡ key b d
    → (a ≡ b) × (c ≡ d)
key-injective_names String.[] String.[] c d ha hb h =
    (refl, (tail_eq (sym (key_nil c) ∙ h ∙ key_nil d)).1)
key-injective_names String.[] (String.◌∷◌ y b) c d ha hb h =
    absurd (no_nul_head y b hb (tail_eq (sym (key_nil c) ∙ h ∙ key_cons y b d)).0)
key-injective_names (String.◌∷◌ x a) String.[] c d ha hb h =
    absurd (no_nul_head x a ha (sym (tail_eq (sym (key_cons x a c) ∙ h ∙ key_nil d)).0))
key-injective_names (String.◌∷◌ x a) (String.◌∷◌ y b) c d ha hb h =
    let (same, rest) = tail_eq (sym (key_cons x a c) ∙ h ∙ key_cons y b d) in
    let (names, others) =
      key-injective_names a b c d (or-eq-false (nat_eq (code x) 0) (has_nul a) ha).1
        (or-eq-false (nat_eq (code y) 0) (has_nul b) hb).1 rest in
    (ap₂ (λ s t. String.◌∷◌ s t) same names, others)

not_blank : (s : String) → s ≢ "" → (s == "") ≡ false
not_blank s h = ground (arith, eq_iff s "")

-- Where the names of accounts are not empty and have no NUL, no two accounts share the key of a
-- conversation, and no two conversations of an account do, if the conversations are named.
pub conversation_key-injective :
    (a b c d : String)
    → has_nul a ≡ false
    → has_nul b ≡ false
    → a ≢ ""
    → b ≢ ""
    → c ≢ ""
    → d ≢ ""
    → conversation_key a c ≡ conversation_key b d
    → (a ≡ b) × (c ≡ d)
unfolding conversation_key
conversation_key-injective a b c d ha hb na nb nc nd h =
    key-injective_names a b c d ha hb
      (rw (not_blank a na, not_blank b nb, not_blank c nc, not_blank d nd) at h)

-- ===== src/Command/Flags.antt =====
-- Which flags `validate` of cmd/gateway/main.go accepts.
use vire.Base.{
  ℕ, ◌≡◌, refl, sym, ap, subst, ap₂, ◌∙◌, zero, ◌↔◌, ◌⊎◌, inl, inr, ◌≢◌, Bool, true, false, not,
  ◌&&◌, ◌||◌, Option, none, some, List, [], ◌∷◌, ◌++◌, if◌then◌else◌, ℤ, pos, negsuc, String, ◌==◌,
  eq_iff, codes, has_prefix, nat_eq, nat_eq_iff, suc, Bool-cases, String-cases, arith, not-eq-false,
}
use vire.Gateway.Registry.{Url, Parse}
use vire.Command.{Config, not_positive, is_loopback, is_web_origin, validate}

abbrev IsPrefixOf : String → String → Type 0
IsPrefixOf prefix s = (rest : List ℕ) × (codes s ≡ codes prefix ++ rest)

-- An HTTP or HTTPS origin, without anything after the host.
pub record IsWebOrigin (u : Url) : Type 0 where
  pub scheme : (u.scheme ≡ "http") ⊎ (u.scheme ≡ "https")
  pub host : u.host ≢ ""
  pub user : u.user ≡ false
  pub path : u.path ≡ ""
  pub raw_query : u.raw_query ≡ ""
  pub fragment : u.fragment ≡ ""

-- Accounts or the insecure mode, not both; room for a request; insecure cookies on a loopback
-- address only; an origin of the portal that is one, if there is one.
pub record IsConfig (parse : Parse) (cfg : Config) : Type 0 where
  pub one :
      ((cfg.database_url ≢ "") × (cfg.insecure_dev ≡ false))
      ⊎ ((cfg.database_url ≡ "") × (cfg.insecure_dev ≡ true))
  pub room : (n : ℕ) × (cfg.max_inflight ≡ pos (suc n))
  pub loopback :
      cfg.insecure_cookies ≡ true
      → IsPrefixOf "127.0.0.1:" cfg.addr
        ⊎ (IsPrefixOf "localhost:" cfg.addr ⊎ IsPrefixOf "[::1]:" cfg.addr)
  pub origin :
      cfg.portal_origin ≢ "" → (u : Url) × (parse cfg.portal_origin ≡ some u) × IsWebOrigin u

and-eq-true : (a b : Bool) → (a && b) ≡ true → (a ≡ true) × (b ≡ true)
and-eq-true true b h = (refl, h)
and-eq-true false b h = cc

has_prefix_iff : (s p : List ℕ) → (has_prefix s p ≡ true) ↔ ((rest : List ℕ) × (s ≡ p ++ rest))
has_prefix_iff s [] = (λ h. (s, refl), λ h. refl)
has_prefix_iff [] (y ∷ p) = (λ h. cc, λ (rest, e). cc)
has_prefix_iff (x ∷ s) (y ∷ p) = (
  λ h.
      let (same, more) = and-eq-true (nat_eq x y) (has_prefix s p) h in
      let (rest, e) = (has_prefix_iff s p).0 more in
      (rest, ap₂ (λ a b. a ∷ b) ((nat_eq_iff x y).0 same) e),
  λ (rest, e).
      let same : x ≡ y = cc in
      let more : s ≡ p ++ rest = cc in
      rw ((nat_eq_iff x y).1 same) ((has_prefix_iff s p).1 (rest, more)),
)

one_iff :
    (d : String) (b : Bool)
    → ((d == "" && not b || not (d == "") && b) ≡ false)
      ↔ (((d ≢ "") × (b ≡ false)) ⊎ ((d ≡ "") × (b ≡ true)))
one_iff d b = elim (Bool-cases (d == "")) [
  | inl e ↦ grind (arith, eq_iff d "")
  | inr e ↦ grind (arith, eq_iff d "")
]

room_iff : (z : ℤ) → (not_positive z ≡ false) ↔ ((n : ℕ) × (z ≡ pos (suc n)))
room_iff (pos zero) = (λ h. cc, λ (n, e). cc)
room_iff (pos (suc n)) = (λ h. (n, refl), λ h. ground arith)
room_iff (negsuc n) = (λ h. cc, λ (m, e). cc)

web_iff : (u : Url) → (is_web_origin (some u) ≡ true) ↔ IsWebOrigin u
web_iff u = (
  λ h. record {
    scheme = grind (arith, eq_iff u.scheme "http", eq_iff u.scheme "https");
    host = grind (arith, eq_iff u.host "");
    user = grind (arith);
    path = grind (arith, eq_iff u.path "");
    raw_query = grind (arith, eq_iff u.raw_query "");
    fragment = grind (arith, eq_iff u.fragment "");
  },
  λ w.
      let scheme = w.scheme in
      let host = w.host in
      let user = w.user in
      let path = w.path in
      let raw_query = w.raw_query in
      let fragment = w.fragment in
      grind (
        arith,
        eq_iff u.scheme "http",
        eq_iff u.scheme "https",
        eq_iff u.host "",
        eq_iff u.path "",
        eq_iff u.raw_query "",
        eq_iff u.fragment "",
      ),
)

or_cases : (a b c : Bool) → (a || b || c) ≡ true → (a ≡ true) ⊎ ((b ≡ true) ⊎ (c ≡ true))
or_cases true b c h = inl refl
or_cases false true c h = inr (inl refl)
or_cases false false c h = inr (inr h)

or-true : (a : Bool) → (a || true) ≡ true
or-true true = refl
or-true false = refl

abbrev Prefixes : String → Type 0
Prefixes addr =
    IsPrefixOf "127.0.0.1:" addr ⊎ (IsPrefixOf "localhost:" addr ⊎ IsPrefixOf "[::1]:" addr)

is_loopback-Prefixes : (addr : String) → is_loopback addr ≡ true → Prefixes addr
is_loopback-Prefixes addr h = elim (or_cases _ _ _ h) [
  | inl a ↦ inl ((has_prefix_iff (codes addr) (codes "127.0.0.1:")).0 a)
  | inr more ↦ elim more [
    | inl b ↦ inr (inl ((has_prefix_iff (codes addr) (codes "localhost:")).0 b))
    | inr c ↦ inr (inr ((has_prefix_iff (codes addr) (codes "[::1]:")).0 c))
  ]
]

Prefixes-is_loopback : (addr : String) → Prefixes addr → is_loopback addr ≡ true
Prefixes-is_loopback addr (inl a) = rw ((has_prefix_iff (codes addr) (codes "127.0.0.1:")).1 a)
Prefixes-is_loopback addr (inr (inl b)) =
    let e : has_prefix (codes addr) (codes "localhost:") ≡ true =
      (has_prefix_iff _ (codes "localhost:")).1 b in
    ap
      (λ t.
        has_prefix (codes addr) (codes "127.0.0.1:")
        || t
        || has_prefix (codes addr) (codes "[::1]:"))
      e
    ∙ ap (λ t. t || has_prefix (codes addr) (codes "[::1]:")) (or-true _)
Prefixes-is_loopback addr (inr (inr c)) =
    let e : has_prefix (codes addr) (codes "[::1]:") ≡ true =
      (has_prefix_iff _ (codes "[::1]:")).1 c in
    ap
      (λ t.
        has_prefix (codes addr) (codes "127.0.0.1:")
        || has_prefix (codes addr) (codes "localhost:")
        || t)
      e
    ∙ or-true _

loopback_iff :
    (b : Bool) (addr : String)
    → ((b && not (is_loopback addr)) ≡ false) ↔ (
        b ≡ true
        → IsPrefixOf "127.0.0.1:" addr ⊎ (IsPrefixOf "localhost:" addr ⊎ IsPrefixOf "[::1]:" addr))
loopback_iff true addr = (
  λ h _. is_loopback-Prefixes addr (not-eq-false _ h),
  λ f. rw (Prefixes-is_loopback addr (f refl)),
)
loopback_iff false addr = (λ h e. cc, λ f. refl)

differs : (s : String) → (s == "") ≡ false → s ≢ ""
differs s e h = let t = (eq_iff s "").1 h in cc

some-eq : {A : Type 0} {a b : A} → some a ≡ some b → a ≡ b
some-eq h = cc

origin_iff :
    (origin : String) (o : Option Url)
    → ((not (origin == "") && not (is_web_origin o)) ≡ false)
      ↔ (origin ≢ "" → (u : Url) × (o ≡ some u) × IsWebOrigin u)
origin_iff origin none = elim (String-cases origin "") [
  | inl e ↦ (λ h n. absurd (n e), λ f. rw e)
  | inr e ↦ (
    λ h n. let g : true ≡ false = ap (λ b. not b && true) (sym e) ∙ h in cc,
    λ f. let (u, at, _) = f (differs origin e) in cc,
  )
]
origin_iff origin (some u) = elim (String-cases origin "") [
  | inl e ↦ (λ h n. absurd (n e), λ f. rw e)
  | inr e ↦ (
    λ h n. (
      u,
      refl,
      (web_iff u).0 (not-eq-false _ (ap (λ b. not b && not (is_web_origin (some u))) (sym e) ∙ h)),
    ),
    λ f.
        let (v, at, w) = f (differs origin e) in
        let t = (web_iff u).1 (subst IsWebOrigin (sym (some-eq at)) w) in rw (e, t),
  )
]

guard-eq-none :
    {E : Type 0} (c : Bool) (e : E) (r : Option E)
    → ((if c then some e else r) ≡ none) ↔ ((c ≡ false) × (r ≡ none))
guard-eq-none true e r = (λ h. cc, λ h. let f = h.0 in cc)
guard-eq-none false e r = (λ h. (refl, h), λ h. h.1)

-- The flags are accepted exactly when one of a database and the insecure mode is chosen, the limit
-- of requests is positive, insecure cookies come with a loopback address, and the origin of the
-- portal, if there is one, is an HTTP origin without a path.
pub validate-IsConfig :
    (parse : Parse) (cfg : Config) → (validate parse cfg ≡ none) ↔ IsConfig parse cfg
unfolding validate
validate-IsConfig parse cfg = (
  λ h.
      let (one, h1) = (guard-eq-none _ _ _).0 h in
      let (room, h2) = (guard-eq-none (not_positive cfg.max_inflight) _ _).0 h1 in
      let (loopback, h3) =
        (guard-eq-none (cfg.insecure_cookies && not (is_loopback cfg.addr)) _ _).0 h2 in
      let (origin, _) =
        (guard-eq-none
            (not (cfg.portal_origin == "") && not (is_web_origin (parse cfg.portal_origin))) _ _).0
          h3 in
      record {
        one = (one_iff cfg.database_url cfg.insecure_dev).0 one;
        room = (room_iff cfg.max_inflight).0 room;
        loopback = (loopback_iff cfg.insecure_cookies cfg.addr).0 loopback;
        origin = (origin_iff cfg.portal_origin (parse cfg.portal_origin)).0 origin;
      },
  λ v.
      let one = (one_iff cfg.database_url cfg.insecure_dev).1 v.one in
      let room = (room_iff cfg.max_inflight).1 v.room in
      let loopback = (loopback_iff cfg.insecure_cookies cfg.addr).1 v.loopback in
      let origin = (origin_iff cfg.portal_origin (parse cfg.portal_origin)).1 v.origin in
      rw (one, room, loopback, origin),
)

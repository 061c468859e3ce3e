-- ===== src/Gateway/Registry/Origin.antt =====
-- The checks of `loadModels` of gateway/server.go on a URL, and what they ask of it.
use mathlib.Core.List.{Memᴰ}
use vire.Base.{
  nat_eq, ◌∙◌, ◌≢◌, ◌||◌, codes, String, Bool-cases, ap, ℕ, ◌≡◌, refl, sym, ◌⊎◌, inl, inr, Bool,
  true, false, List, [], ◌∷◌, nat_eq_iff, eq_iff, arith,
}
use vire.Gateway.Registry.{has_hash, Url, is_absolute, is_origin}

-- An HTTP or HTTPS URL with a host and no more than an origin; a slash may follow.
pub record IsOrigin (text : String) (u : Url) : Type 0 where
  pub scheme : (u.scheme ≡ "http") ⊎ (u.scheme ≡ "https")
  pub hosted : u.hostname ≢ ""
  pub no_user : u.user ≡ false
  pub no_path : (u.path ≡ "") ⊎ (u.path ≡ "/")
  pub no_query : u.raw_query ≡ ""
  pub no_mark : u.force_query ≡ false
  pub no_fragment : u.fragment ≡ ""
  pub no_hash : Memᴰ 35 (codes text) → ⊥

has_hash-Mem : (cs : List ℕ) → Memᴰ 35 cs → has_hash cs ≡ true
has_hash-Mem [] m = elim m [ ]
has_hash-Mem (c ∷ cs) (Memᴰ.head e) = rw (sym e)
has_hash-Mem (c ∷ cs) (Memᴰ.tail m) =
    ap (λ b. nat_eq c 35 || b) (has_hash-Mem cs m) ∙ or-true (nat_eq c 35)
  where
    or-true : (b : Bool) → (b || true) ≡ true
    or-true true = refl
    or-true false = refl

Mem-has_hash : (cs : List ℕ) → has_hash cs ≡ true → Memᴰ 35 cs
Mem-has_hash [] h = cc
Mem-has_hash (c ∷ cs) h = elim (Bool-cases (nat_eq c 35)) [
  | inl here ↦ Memᴰ.head (sym ((nat_eq_iff c 35).0 here))
  | inr other ↦ Memᴰ.tail (Mem-has_hash cs (rw other at h))
]

no_hash-has_hash : (cs : List ℕ) → (Memᴰ 35 cs → ⊥) → has_hash cs ≡ false
no_hash-has_hash cs h = elim (Bool-cases (has_hash cs)) [
  | inl yes_it ↦ absurd (h (Mem-has_hash cs yes_it))
  | inr no_it ↦ no_it
]

pub checked-IsOrigin :
    (text : String) (u : Url) → is_absolute u ≡ true → is_origin text u ≡ true → IsOrigin text u
checked-IsOrigin text u a o = record {
  scheme = grind (arith, eq_iff u.scheme "http", eq_iff u.scheme "https");
  hosted = grind (arith, eq_iff u.hostname "");
  no_user = grind (arith);
  no_path = grind (arith, eq_iff u.path "", eq_iff u.path "/");
  no_query = grind (arith, eq_iff u.raw_query "");
  no_mark = grind (arith);
  no_fragment = grind (arith, eq_iff u.fragment "");
  no_hash = λ m. let h = has_hash-Mem (codes text) m in grind (arith);
}

pub IsOrigin-is_absolute : (text : String) (u : Url) → IsOrigin text u → is_absolute u ≡ true
IsOrigin-is_absolute text u v =
    let hosted = v.hosted in
    let scheme = v.scheme in
    grind (arith, eq_iff u.scheme "http", eq_iff u.scheme "https", eq_iff u.hostname "")

pub IsOrigin-is_origin : (text : String) (u : Url) → IsOrigin text u → is_origin text u ≡ true
IsOrigin-is_origin text u v =
    let none_in = no_hash-has_hash (codes text) v.no_hash in
    let user = v.no_user in
    let path = v.no_path in
    let query = v.no_query in
    let mark = v.no_mark in
    let fragment = v.no_fragment in
    grind (arith, eq_iff u.path "", eq_iff u.path "/", eq_iff u.raw_query "", eq_iff u.fragment "")

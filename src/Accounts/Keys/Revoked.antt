-- ===== src/Accounts/Keys/Revoked.antt =====
-- A key that was revoked authenticates no token.
use vire.Base.{
  ℕ, ◌≡◌, ◌≢◌, refl, sym, ap, ◌∙◌, inl, inr, Bool, true, false, ◌&&◌, ◌||◌, not, Option, none, some,
  List, [], ◌∷◌, if◌then◌else◌, String, ◌==◌, eq_refl, bytes_eq, arith, Bool-cases, subst,
}
use vire.Accounts.Tables.{ApiKey, Db, ok, err, invalid_key}
use vire.Accounts.Results.{guard-eq-ok, ok-eq-ok}
use vire.Accounts.Ledger.{find}
use vire.Accounts.Daily.{is_present}
use vire.Accounts.Keys.{
  KeyIdentity, revoke_rows, revoke_key, is_active, parse_token, same_digest, look_up, authenticate,
}

-- No active row has an id.
abbrev inactive : String → ApiKey → Bool
inactive id k = not (k.id == id) || is_present k.revoked_at

every : (ApiKey → Bool) → List ApiKey → Bool
every test [] = true
every test (k ∷ ks) = test k && every test ks

revoke_rows-inactive :
    (now : ℕ) (id : String) (ks : List ApiKey)
    → every (inactive id) (revoke_rows now id ks).0 ≡ true
unfolding every revoke_rows
revoke_rows-inactive now id [] = refl
revoke_rows-inactive now id (k ∷ ks) = ground (arith, revoke_rows-inactive now id ks)

some-eq : {a b : ApiKey} → some a ≡ some b → a ≡ b
some-eq {a} h = ap (λ o. of o) h
  where
    of : Option ApiKey → ApiKey
    of none = a
    of (some k) = k

find-every :
    (test p : ApiKey → Bool) (ks : List ApiKey) {k : ApiKey}
    → every p ks ≡ true
    → find test ks ≡ some k
    → (test k ≡ true) × (p k ≡ true)
unfolding every find
find-every test p [] all h = cc
find-every test p (x ∷ ks) {k} all h = elim (Bool-cases (test x)) [
  | inl hit ↦
      let same : x ≡ k = some-eq (rw hit at h) in
      subst (λ (y : ApiKey). (test y ≡ true) × (p y ≡ true)) same (hit, ground arith)
  | inr miss ↦ find-every test p ks (ground arith) (rw miss at h)
]

same_digest-ok :
    (sha256 : List ℕ → List ℕ) (token : List ℕ) (o : Option ApiKey) {who : KeyIdentity}
    → same_digest sha256 token o ≡ ok who
    → (k : ApiKey) × (o ≡ some k) × (who.key_id ≡ k.id)
same_digest-ok sha256 token none h = cc
same_digest-ok sha256 token (some k) {who} h =
    (k, refl, go (bytes_eq (sha256 token) k.token_hash) h)
  where
    go :
        (b : Bool)
        → (if b then ok (record { account_id = k.account_id; key_id = k.id }) else err invalid_key)
          ≡ ok who
        → who.key_id ≡ k.id
    go true e = sym (ok-eq-ok (λ (i : KeyIdentity). i.key_id) e)
    go false e = cc

look_up-ok :
    (sha256 : List ℕ → List ℕ) (db : Db) (token : List ℕ) (o : Option (List ℕ)) {who : KeyIdentity}
    → look_up sha256 db token o ≡ ok who
    → (id : List ℕ) × (k : ApiKey) × (find (is_active id) db.api_keys ≡ some k)
      × (who.key_id ≡ k.id)
look_up-ok sha256 db token none h = cc
look_up-ok sha256 db token (some id) h =
    let (k, found, named) = same_digest-ok sha256 token (find (is_active id) db.api_keys) h in
    (id, k, found, named)

active_other :
    (id : List ℕ) (key_id : String) (k : ApiKey)
    → is_active id k ≡ true
    → inactive key_id k ≡ true
    → k.id ≢ key_id
active_other id key_id k active gone same =
    let found : (k.id == key_id) ≡ true = ap (λ i. i == key_id) same ∙ eq_refl key_id in
    ground arith

-- On the tables that a successful RevokeKey of a key left, no token authenticates as that key.
pub authenticate-revoke_key :
    (sha256 : List ℕ → List ℕ) (decode : List ℕ → Option (List ℕ)) (now : ℕ) (key_id : String)
    (db : Db) (token : List ℕ) {db' : Db} {who : KeyIdentity}
    → revoke_key now key_id db ≡ ok db'
    → authenticate sha256 decode db' token ≡ ok who
    → who.key_id ≢ key_id
unfolding revoke_key authenticate
authenticate-revoke_key sha256 decode now key_id db token {db'} {who} revoked h same =
    let (_, e) = guard-eq-ok _ _ _ revoked in
    let none_left : every (inactive key_id) db'.api_keys ≡ true =
      ap (λ ks. every (inactive key_id) ks) (sym (ok-eq-ok (λ (d : Db). d.api_keys) e))
      ∙ revoke_rows-inactive now key_id db.api_keys in
    let (id, k, found, named) = look_up-ok sha256 db' token (parse_token decode token) h in
    let (active, gone) = find-every (is_active id) (inactive key_id) db'.api_keys none_left found in
    active_other id key_id k active gone (sym named ∙ same)

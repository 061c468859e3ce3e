-- ===== src/Accounts/Keys/Issued.antt =====
-- A key that was issued authenticates as its account.
use vire.Base.{
  ℕ, ◌≡◌, ◌≤◌, refl, sym, ap, ◌∙◌, inl, inr, Bool, true, false, ◌&&◌, not, Option, none, some, List,
  [], ◌∷◌, ◌++◌, nat_eq, if◌then◌else◌, length, String, trim, codes, bytes_eq, bytes_eq_refl, arith,
  Bool-cases, le→ltb_false, nat_eq_refl,
}
use vire.Accounts.Tables.{ApiKey, Db, ok, err, invalid_key}
use vire.Accounts.Results.{>>=-ok, guard-eq-ok, ok-eq-ok}
use vire.Accounts.Ledger.{find}
use vire.Accounts.Daily.{is_present}
use vire.Accounts.Keys.{
  new_key, issue_for, look_up, create_api_key, find_account_owner, Cut, cut, token_of, issue_key,
  is_active, is_secret, is_nil, parse_token, same_digest, authenticate,
}

abbrev parts : List ℕ → List ℕ → Cut
parts before after = record { before = before; after = after; found = true }

-- A cut at the first separator.
cut-append :
    (sep : ℕ) (xs rest : List ℕ)
    → (cut sep xs).found ≡ false
    → cut sep (xs ++ sep ∷ rest) ≡ parts xs rest
unfolding cut
cut-append sep [] rest h = rw (nat_eq_refl sep) refl
cut-append sep (x ∷ xs) rest h = elim (Bool-cases (nat_eq x sep)) [
  | inl same ↦ cc (rw same at h)
  | inr other ↦ rw other (
      ap (λ (p : Cut). record p { before = x ∷ p.before }) (cut-append sep xs rest (rw other at h)))
]

module _ (decode : List ℕ → Option (List ℕ)) where
  -- The token of a key id parses to the id.
  parse_token-token_of :
      (key_id : String) (text : List ℕ)
      → (cut 95 (codes key_id)).found ≡ false
      → is_nil (codes key_id) ≡ false
      → is_secret (decode text) ≡ true
      → length (token_of key_id text) ≤ 128
      → parse_token decode (token_of key_id text) ≡ some (codes key_id)
  unfolding parse_token
  parse_token-token_of key_id text plain nonempty secret short =
      rw
        (
          le→ltb_false 128 (length (token_of key_id text)) short,
          cut-append 95 (codes key_id) text plain,
          nonempty,
          secret,
        )
        refl

pub create_api_key-ok :
    (key : ApiKey) (db : Db) {d : Db}
    → create_api_key key db ≡ ok d
    → d.api_keys ≡ key ∷ db.api_keys
unfolding create_api_key
create_api_key-ok key db h = ground arith

-- What is stored for the owner that was found.
issue_for-ok :
    (db : Db) (row : String → ApiKey) (token : List ℕ) (o : Option String) {db' : Db}
    {token' : List ℕ}
    → issue_for db row token o ≡ ok (db', token')
    → (owner : String) × (db'.api_keys ≡ row owner ∷ db.api_keys) × (token' ≡ token)
issue_for-ok db row token none h = cc
issue_for-ok db row token (some owner) h =
    let (d, created, e) = >>=-ok (create_api_key (row owner) db) _ h in
    let same_keys = ok-eq-ok (λ (r : Db × List ℕ). r.0.api_keys) e in
    (
      owner,
      sym same_keys ∙ create_api_key-ok (row owner) db created,
      sym (ok-eq-ok (λ (r : Db × List ℕ). r.1) e),
    )

-- What `IssueKey` stores.
issue_key-ok :
    (text_lt : String → String → Bool) (sha256 encode : List ℕ → List ℕ) (now : ℕ) (key_id : String)
    (secret : List ℕ) (db : Db) (account name : String) {db' : Db} {token : List ℕ}
    → issue_key text_lt sha256 encode now key_id secret db account name ≡ ok (db', token)
    → (owner : String) × (db'.api_keys
        ≡ new_key now key_id account (trim name) (sha256 (token_of key_id (encode secret))) owner
          ∷ db.api_keys)
      × (token ≡ token_of key_id (encode secret))
unfolding issue_key
issue_key-ok text_lt sha256 encode now key_id secret db account name h =
    let (_, named) = guard-eq-ok _ _ _ h in
    issue_for-ok db
      (new_key now key_id account (trim name) (sha256 (token_of key_id (encode secret))))
      (token_of key_id (encode secret)) (find_account_owner text_lt account db.members) named

find-front :
    (test : ApiKey → Bool) (k : ApiKey) (ks : List ApiKey)
    → test k ≡ true
    → find test (k ∷ ks) ≡ some k
unfolding find
find-front test k ks h = rw h refl

active_key :
    (k : ApiKey) (key_id : String)
    → k.id ≡ key_id
    → k.revoked_at ≡ none
    → is_active (codes key_id) k ≡ true
active_key k key_id id active =
    ap (λ i. bytes_eq (codes i) (codes key_id) && not (is_present k.revoked_at)) id
    ∙ ap (λ b. b && not (is_present k.revoked_at)) (bytes_eq_refl (codes key_id))
    ∙ ap (λ r. not (is_present r)) active

-- The token of the key in front authenticates.
pub authenticate-front :
    (sha256 encode : List ℕ → List ℕ) (decode : List ℕ → Option (List ℕ)) (now : ℕ)
    (key_id : String) (secret : List ℕ) (db : Db) (account name owner : String) (ks : List ApiKey)
    {token : List ℕ}
    → decode (encode secret) ≡ some secret
    → length secret ≡ 32
    → length (token_of key_id (encode secret)) ≤ 128
    → (cut 95 (codes key_id)).found ≡ false
    → is_nil (codes key_id) ≡ false
    → db.api_keys
      ≡ new_key now key_id account name (sha256 (token_of key_id (encode secret))) owner ∷ ks
    → token ≡ token_of key_id (encode secret)
    → authenticate sha256 decode db token ≡ ok (record { account_id = account; key_id = key_id })
unfolding authenticate
authenticate-front sha256 encode decode now key_id secret db account name owner ks {token} decoded
      size short plain nonempty stored same =
    let k = new_key now key_id account name (sha256 (token_of key_id (encode secret))) owner in
    let parsed : parse_token decode token ≡ some (codes key_id) =
      ap (λ t. parse_token decode t) same
      ∙ parse_token-token_of decode key_id (encode secret) plain nonempty
          (ap (λ o. is_secret o) decoded ∙ secret_size size) short in
    ap (λ o. look_up sha256 db token o) parsed
    ∙ ap (λ xs. same_digest sha256 token (find (is_active (codes key_id)) xs)) stored
    ∙ ap (λ o. same_digest sha256 token o)
        (find-front (is_active (codes key_id)) k ks (active_key k key_id refl refl))
    ∙ ap (λ b. if b then ok (record { account_id = account; key_id = key_id }) else err invalid_key)
        (ap (λ t. bytes_eq (sha256 t) k.token_hash) same ∙ bytes_eq_refl k.token_hash)
  where
    secret_size : length secret ≡ 32 → nat_eq (length secret) 32 ≡ true
    secret_size e = ground arith

-- A token that IssueKey returned authenticates, on the tables that it left, as its account and key,
-- if its secret has 32 bytes and is decoded from its encoding, its id is not empty and has no
-- underscore, and it has at most 128 bytes.
pub authenticate-issue_key :
    (text_lt : String → String → Bool) (sha256 encode : List ℕ → List ℕ)
    (decode : List ℕ → Option (List ℕ)) (now : ℕ) (key_id : String) (secret : List ℕ) (db : Db)
    (account name : String) {db' : Db} {token : List ℕ}
    → decode (encode secret) ≡ some secret
    → length secret ≡ 32
    → length (token_of key_id (encode secret)) ≤ 128
    → (cut 95 (codes key_id)).found ≡ false
    → is_nil (codes key_id) ≡ false
    → issue_key text_lt sha256 encode now key_id secret db account name ≡ ok (db', token)
    → authenticate sha256 decode db' token ≡ ok (record { account_id = account; key_id = key_id })
authenticate-issue_key text_lt sha256 encode decode now key_id secret db account name {db'} {token}
      decoded size short plain nonempty h =
    let (owner, stored, same) =
      issue_key-ok text_lt sha256 encode now key_id secret db account name h in
    authenticate-front sha256 encode decode now key_id secret db' account (trim name) owner
      db.api_keys decoded size short plain nonempty stored same

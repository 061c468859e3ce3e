-- ===== src/Accounts/Sessions/Signed.antt =====
-- What `Signup` of internal/accountdb/store.go hands out works.
use vire.Base.{
  ℕ, ◌≡◌, ◌≤◌, refl, sym, ◌∙◌, subst, Bool, true, false, not, ◌||◌, ◌==◌, ◌+◌, some, List, ◌∷◌,
  if◌then◌else◌, length, String, trim, codes, arith,
}
use vire.Accounts.Tables.{ApiKey, PortalSession, Db, Error, Result, ok, err, ◌>>=◌, invalid_signup}
use vire.Accounts.Keys.{cut, token_of, new_key, create_api_key, is_nil, authenticate}
use vire.Accounts.Keys.Issued.{create_api_key-ok, authenticate-front}
use vire.Accounts.Sessions.{
  Packages, Drawn, SignupResult, insert_session, signup, hash_password, create_user,
  insert_password, create_account, add_account_owner, has_at,
}
use vire.Accounts.Rollup.{week}

insert_session-keys :
    (s : PortalSession) (db : Db) {d : Db} → insert_session s db ≡ ok d → d.api_keys ≡ db.api_keys
unfolding insert_session
insert_session-keys s db h = ground arith

-- A property of what succeeds.
abbrev Holds {ℓ} : (Db × SignupResult → Type ℓ) → Result (Db × SignupResult) → Type ℓ
Holds P (ok x) = P x
Holds P (err x) = Unit

bind-Holds {ℓ} :
    {V : Type 0} (P : Db × SignupResult → Type ℓ) (m : Result V)
    (rest : V → Result (Db × SignupResult))
    → ((v : V) → m ≡ ok v → Holds P (rest v))
    → Holds P (m >>= rest)
bind-Holds P (ok v) rest h = h v refl
bind-Holds P (err x) rest h = tt

guard-Holds {ℓ} :
    (P : Db × SignupResult → Type ℓ) (c : Bool) (x : Error) (m : Result (Db × SignupResult))
    → Holds P m
    → Holds P (if c then err x else m)
guard-Holds P true x m h = tt
guard-Holds P false x m h = h

-- The key that `Signup` stores and the token that it returns.
abbrev Signed : Packages → ℕ → Drawn → Db × SignupResult → Type 0
Signed p now drawn x =
    (ks : List ApiKey) × (x.0.api_keys
      ≡ new_key now drawn.key_id drawn.account_id "Default"
          (p.sha256 (token_of drawn.key_id (p.encode drawn.secret))) drawn.user_id
        ∷ ks)
    × (x.1.api_key ≡ token_of drawn.key_id (p.encode drawn.secret))
    × (x.1.account_id ≡ drawn.account_id)
    × (x.1.key_id ≡ drawn.key_id)

signup-Signed :
    (p : Packages) (now : ℕ) (drawn : Drawn) (db : Db) (email name password : String)
    → Holds (Signed p now drawn) (signup p now drawn db email name password)
unfolding signup
signup-Signed p now drawn db email name password =
    let P = Signed p now drawn in
    let address = p.lower (trim email) in
    let digest = p.sha256 (token_of drawn.key_id (p.encode drawn.secret)) in
    let key = new_key now drawn.key_id drawn.account_id "Default" digest drawn.user_id in
    let session : PortalSession = record {
      token_hash = p.sha256 (p.encode drawn.session_secret);
      user_id = drawn.user_id;
      account_id = drawn.account_id;
      expires_at = now + week;
    } in
    guard-Holds P (address == "" || not (has_at (codes address)) || trim name == "") invalid_signup
      _
      (bind-Holds P (hash_password p password) _ (λ hash e0.
        bind-Holds P
          (create_user (record { id = drawn.user_id; email = address; created_at = now }) db) _
          (λ db1 e1.
            bind-Holds P
              (insert_password (record { user_id = drawn.user_id; password_hash = hash }) db1) _
              (λ db2 e2.
                bind-Holds P
                  (create_account
                    (record { id = drawn.account_id; name = trim name; created_at = now }) db2)
                  _
                  (λ db3 e3.
                    bind-Holds P (add_account_owner drawn.account_id drawn.user_id db3) _ (λ db4 e4.
                      bind-Holds P (create_api_key key db4) _ (λ db5 e5.
                        bind-Holds P (insert_session session db5) _ (λ db6 e6. (
                          db4.api_keys,
                          insert_session-keys session db5 e6 ∙ create_api_key-ok key db4 e5,
                          refl,
                          refl,
                          refl,
                        )))))))))

-- The API key that a successful Signup returned authenticates, on the tables that it left, as the
-- account and key that Signup returned, if its secret has 32 bytes and is decoded from its
-- encoding, its id is not empty and has no underscore, and it has at most 128 bytes.
pub authenticate-signup :
    (p : Packages) (now : ℕ) (drawn : Drawn) (db : Db) (email name password : String) {db' : Db}
    {r : SignupResult}
    → p.decode (p.encode drawn.secret) ≡ some drawn.secret
    → length drawn.secret ≡ 32
    → length (token_of drawn.key_id (p.encode drawn.secret)) ≤ 128
    → (cut 95 (codes drawn.key_id)).found ≡ false
    → is_nil (codes drawn.key_id) ≡ false
    → signup p now drawn db email name password ≡ ok (db', r)
    → authenticate p.sha256 p.decode db' r.api_key
      ≡ ok (record { account_id = r.account_id; key_id = r.key_id })
authenticate-signup p now drawn db email name password {db'} {r} decoded size short plain nonempty
      h =
    let signed : Holds (Signed p now drawn) (ok (db', r)) =
      subst (λ x. Holds (Signed p now drawn) x) h
        (signup-Signed p now drawn db email name password) in
    let (ks, stored, token, account, id) = signed in
    authenticate-front p.sha256 p.encode p.decode now drawn.key_id drawn.secret db' drawn.account_id
      "Default" drawn.user_id ks decoded size short plain nonempty stored token
    ∙ (λ i. ok (record { account_id = sym account i; key_id = sym id i }))

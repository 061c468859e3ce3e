-- ===== src/Accounts/Sessions.antt =====
-- Accounts and browser sessions: `Signup` of internal/accountdb/store.go and the sessions of
-- internal/accountdb/portal.go. The arguments stand for packages that are not of this repository,
-- or for chance: `sha256` and `base64` are `sha256.Sum256` and the two directions of
-- `base64.RawURLEncoding`; `create_hash` and `compare` are argon2id's; `lower` is
-- `strings.ToLower`; ids, secrets and tokens are random. A password is a text, so it is valid UTF-8.
pub mod Signed
use vire.Base.{
  ℕ, ◌+◌, Bool, false, ◌&&◌, ◌||◌, not, Option, none, some, List, [], ◌∷◌, ltb, nat_eq,
  if◌then◌else◌, length, String, ◌==◌, trim, codes, bytes_eq,
}
use vire.Accounts.Tables.{
  User, Account, AccountMember, UserPassword, PortalSession, Db, Result, ok, err, ◌>>=◌,
  unique_violation, foreign_key_violation, invalid_signup, invalid_password, email_taken,
}
use vire.Accounts.Ledger.{find, is_some}
use vire.Accounts.Rollup.{week}
use vire.Accounts.Keys.{new_key, create_api_key, token_of, is_secret}

-- What an operation of the store takes from other packages.
pub record Packages : Type 0 where
  pub sha256 : List ℕ → List ℕ
  pub encode : List ℕ → List ℕ
  pub decode : List ℕ → Option (List ℕ)
  pub lower : String → String
  pub create_hash : String → Result String
  pub compare : String → String → Bool

-- The number of bytes of a text in UTF-8.
abbrev pub width : ℕ → ℕ
width c = if ltb c 0x80 then 1 else if ltb c 0x800 then 2 else if ltb c 0x10000 then 3 else 4

abbrev pub utf8_length : List ℕ → ℕ
utf8_length [] = 0
utf8_length (c ∷ cs) = width c + utf8_length cs

-- `hashPassword`
unfoldable pub hash_password : Packages → String → Result String
hash_password p password =
    if ltb (length (codes password)) 10 || ltb 256 (utf8_length (codes password))
    then err invalid_password
    else p.create_hash password

-- `sessionDigest`
unfoldable pub session_digest : Packages → List ℕ → Option (List ℕ)
session_digest p token =
    if not (nat_eq (length token) 43) || not (is_secret (p.decode token))
    then none
    else some (p.sha256 token)

-- The insertion into `portal_sessions`, with its keys.
unfoldable pub insert_session : PortalSession → Db → Result Db
insert_session s db =
    if is_some (find (λ (x : PortalSession). bytes_eq x.token_hash s.token_hash) db.portal_sessions)
    then err unique_violation
    else if not (is_some (find (λ (u : User). u.id == s.user_id) db.users))
        || not (is_some (find (λ (a : Account). a.id == s.account_id) db.accounts))
    then err foreign_key_violation
    else ok (record db { portal_sessions = s ∷ db.portal_sessions })

-- `CreateUser`; an email that is taken has an error of its own.
unfoldable pub create_user : User → Db → Result Db
create_user u db =
    if is_some (find (λ (x : User). x.id == u.id) db.users)
    then err unique_violation
    else if is_some (find (λ (x : User). x.email == u.email) db.users)
    then err email_taken
    else ok (record db { users = u ∷ db.users })

unfoldable pub insert_password : UserPassword → Db → Result Db
insert_password w db =
    if is_some (find (λ (x : UserPassword). x.user_id == w.user_id) db.user_passwords)
    then err unique_violation
    else if not (is_some (find (λ (u : User). u.id == w.user_id) db.users))
    then err foreign_key_violation
    else ok (record db { user_passwords = w ∷ db.user_passwords })

-- `CreateAccount`
unfoldable pub create_account : Account → Db → Result Db
create_account a db =
    if is_some (find (λ (x : Account). x.id == a.id) db.accounts)
    then err unique_violation
    else ok (record db { accounts = a ∷ db.accounts })

-- `AddAccountOwner`
unfoldable pub add_account_owner : String → String → Db → Result Db
add_account_owner account user db =
    if is_some
      (find (λ (m : AccountMember). m.account_id == account && m.user_id == user) db.members)
    then err unique_violation
    else if not (is_some (find (λ (a : Account). a.id == account) db.accounts))
        || not (is_some (find (λ (u : User). u.id == user) db.users))
    then err foreign_key_violation
    else ok (record db {
      members = record { account_id = account; user_id = user; role = "owner" } ∷ db.members;
    })

-- What `Signup` draws at random.
pub record Drawn : Type 0 where
  pub user_id : String
  pub account_id : String
  pub key_id : String
  pub secret : List ℕ
  pub session_secret : List ℕ

-- `SignupResult` of gateway/portal.go.
pub record SignupResult : Type 0 where
  pub account_id : String
  pub key_id : String
  pub api_key : List ℕ
  pub session_token : List ℕ

-- A text with the character `@`.
abbrev pub has_at : List ℕ → Bool
has_at [] = false
has_at (c ∷ cs) = nat_eq c 64 || has_at cs

-- `Signup`: one transaction, which an error rolls back.
unfoldable pub signup :
    Packages → ℕ → Drawn → Db → String → String → String → Result (Db × SignupResult)
signup p now drawn db email name password =
    let address = p.lower (trim email) in
    let token = token_of drawn.key_id (p.encode drawn.secret) in
    let session_token = p.encode drawn.session_secret in
    if address == "" || not (has_at (codes address)) || trim name == ""
    then err invalid_signup
    else do
      hash ← hash_password p password
      db1 ← create_user (record { id = drawn.user_id; email = address; created_at = now }) db
      db2 ← insert_password (record { user_id = drawn.user_id; password_hash = hash }) db1
      db3 ←
          create_account (record { id = drawn.account_id; name = trim name; created_at = now }) db2
      db4 ← add_account_owner drawn.account_id drawn.user_id db3
      db5 ←
          create_api_key
            (new_key now drawn.key_id drawn.account_id "Default" (p.sha256 token) drawn.user_id) db4
      db6 ←
          insert_session
            (record {
              token_hash = p.sha256 session_token;
              user_id = drawn.user_id;
              account_id = drawn.account_id;
              expires_at = now + week;
            })
            db5
      ok (
        db6,
        record {
          account_id = drawn.account_id;
          key_id = drawn.key_id;
          api_key = token;
          session_token = session_token;
        },
      )

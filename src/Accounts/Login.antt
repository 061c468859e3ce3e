-- ===== src/Accounts/Login.antt =====
-- `Login`, `Session`, `ChatKeyID` and `Logout` of internal/accountdb/portal.go. A join that the code
-- limits to one row takes the first one as the rows are stored.
mod Tests
pub mod Limited
pub mod Open
pub mod Found
pub mod Accepted
use vire.Base.{
  ℕ, zero, suc, ◌+◌, ◌≡◌, Bool, true, false, ◌&&◌, ◌||◌, not, Option, none, some, List, [], ◌∷◌,
  ltb, nat_eq, if◌then◌else◌, String, ◌==◌, trim, bytes_eq,
}
use vire.Accounts.Tables.{
  User, Account, AccountMember, ApiKey, UserPassword, PortalSession, LoginAttempt, Db, Error,
  Result, ok, err, login_limited, invalid_credentials, invalid_session,
}
use vire.Accounts.Ledger.{find, is_some}
use vire.Accounts.Daily.{is_present}
use vire.Accounts.Rollup.{filter, week, quarter}
use vire.Accounts.Sessions.{Packages, session_digest, insert_session}

-- `PortalAccount` of gateway/portal.go.
pub record PortalAccount : Type 0 where
  pub account_id : String
  pub name : String
  pub email : String

-- The upsert of `Login`, on the row of the email.
abbrev pub count_attempt : ℕ → LoginAttempt → LoginAttempt
count_attempt now a =
    if ltb (a.window_started + quarter) now
    then record a { attempts = 1; window_started = now }
    else record a { attempts = a.attempts + 1 }

-- The upsert, and the number of attempts that it returns.
unfoldable pub record_attempt : ℕ → String → List LoginAttempt → List LoginAttempt × ℕ
record_attempt now email [] = (record { email = email; attempts = 1; window_started = now } ∷ [], 1)
record_attempt now email (a ∷ attempts) =
    let rest = record_attempt now email attempts in
    if a.email == email
    then (count_attempt now a ∷ attempts, (count_attempt now a).attempts)
    else (a ∷ rest.0, rest.1)

-- A row of the join of `Login`.
pub record Candidate : Type 0 where
  pub user_id : String
  pub account : PortalAccount
  pub password_hash : String

abbrev pub join_account : User → UserPassword → Option Account → Option Candidate
join_account u w none = none
join_account u w (some a) = some (record {
  user_id = u.id;
  account = record { account_id = a.id; name = a.name; email = u.email };
  password_hash = w.password_hash;
})

-- The first account that the user owns.
unfoldable pub owned : String → List Account → List AccountMember → Option Account
owned user accounts [] = none
owned user accounts (m ∷ members) =
    let rest = owned user accounts members in
    if m.user_id == user && m.role == "owner"
    then elim (find (λ (a : Account). a.id == m.account_id) accounts) [
      | some a ↦ some a
      | none ↦ rest
    ]
    else rest

abbrev pub join_password : Db → User → Option UserPassword → Option Candidate
join_password db u none = none
join_password db u (some w) = join_account u w (owned u.id db.accounts db.members)

abbrev pub join_user : Db → Option User → Option Candidate
join_user db none = none
join_user db (some u) =
    join_password db u (find (λ (w : UserPassword). w.user_id == u.id) db.user_passwords)

abbrev pub candidate : Db → String → Option Candidate
candidate db email = join_user db (find (λ (u : User). u.email == email) db.users)

-- The insertion of the session, and the deletion of the attempts after it.
abbrev pub opened :
    String → List ℕ → PortalAccount → Db → Result Db → Db × Result (List ℕ × PortalAccount)
opened email token account db (err x) = (db, err x)
opened email token account db (ok db') = (
  record db' {
    login_attempts = filter (λ (a : LoginAttempt). not (a.email == email)) db'.login_attempts;
  },
  ok (token, account),
)

-- The check of the password, and what follows it.
abbrev pub check_password :
    Packages
    → ℕ
    → List ℕ
    → String
    → String
    → Db
    → Option Candidate
    → Db × Result (List ℕ × PortalAccount)
check_password p now secret email password db none = (db, err invalid_credentials)
check_password p now secret email password db (some c) =
    if p.compare password c.password_hash
    then opened email (p.encode secret) c.account db (
        insert_session
          (record {
            token_hash = p.sha256 (p.encode secret);
            user_id = c.user_id;
            account_id = c.account.account_id;
            expires_at = now + week;
          })
          db)
    else (db, err invalid_credentials)

-- `Login`: the tables that it leaves, and its result. The attempt is counted whatever follows.
unfoldable pub login :
    Packages → ℕ → List ℕ → Db → String → String → Db × Result (List ℕ × PortalAccount)
login p now secret db email password =
    let address = p.lower (trim email) in
    let counted = record_attempt now address db.login_attempts in
    let db1 = record db { login_attempts = counted.0 } in
    if ltb 5 counted.1
    then (db1, err login_limited)
    else check_password p now secret address password db1 (candidate db1 address)

-- The join of `Session`.
abbrev pub session_account : Option User → Option Account → Result PortalAccount
session_account (some u) (some a) =
    ok (record { account_id = a.id; name = a.name; email = u.email })
session_account _ _ = err invalid_session

abbrev pub session_of : Db → Option PortalSession → Result PortalAccount
session_of db none = err invalid_session
session_of db (some s) =
    session_account (find (λ (u : User). u.id == s.user_id) db.users)
      (find (λ (a : Account). a.id == s.account_id) db.accounts)

abbrev pub is_live : ℕ → List ℕ → PortalSession → Bool
is_live now digest s = bytes_eq s.token_hash digest && ltb now s.expires_at

abbrev pub session_by : ℕ → Db → Option (List ℕ) → Result PortalAccount
session_by now db none = err invalid_session
session_by now db (some digest) = session_of db (find (is_live now digest) db.portal_sessions)

-- `Session`
unfoldable pub session : Packages → ℕ → Db → List ℕ → Result PortalAccount
session p now db token = session_by now db (session_digest p token)

-- `ORDER BY created_at, id LIMIT 1`
abbrev pub first_key : (String → String → Bool) → ApiKey → Option ApiKey → Option ApiKey
first_key text_lt k none = some k
first_key text_lt k (some best) =
    if ltb best.created_at k.created_at
      || nat_eq best.created_at k.created_at && text_lt best.id k.id
    then some best
    else some k

unfoldable pub oldest_key : (String → String → Bool) → String → List ApiKey → Option ApiKey
oldest_key text_lt account [] = none
oldest_key text_lt account (k ∷ keys) =
    let rest = oldest_key text_lt account keys in
    if k.account_id == account && not (is_present k.revoked_at)
    then first_key text_lt k rest
    else rest

abbrev pub id_or_empty : Option ApiKey → String
id_or_empty none = ""
id_or_empty (some k) = k.id

-- `ChatKeyID`
unfoldable pub chat_key_id : (String → String → Bool) → Db → String → String
chat_key_id text_lt db account = id_or_empty (oldest_key text_lt account db.api_keys)

abbrev pub delete_session : Db → Option (List ℕ) → Result Db
delete_session db none = err invalid_session
delete_session db (some digest) = ok (record db {
  portal_sessions =
      filter (λ (s : PortalSession). not (bytes_eq s.token_hash digest)) db.portal_sessions;
})

-- `Logout`
unfoldable pub logout : Packages → Db → List ℕ → Result Db
logout p db token = delete_session db (session_digest p token)

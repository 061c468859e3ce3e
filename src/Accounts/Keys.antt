-- ===== src/Accounts/Keys.antt =====
-- API keys: `IssueKey`, `RevokeKey` and `Authenticate` of internal/accountdb/store.go and their
-- statements in internal/accountdb/db/queries.sql.go. A token is a list of bytes. The arguments
-- `sha256`, `encode` and `decode` are `sha256.Sum256` and `base64.RawURLEncoding`; the ids and the
-- secret of a new key are arguments, since they are random. Ids are ASCII, so that their bytes are
-- the codes of their characters.
pub mod Issued
pub mod Revoked
use vire.Base.{
  ℕ, zero, suc, ◌+◌, ◌≡◌, Bool, true, false, ◌&&◌, ◌||◌, not, Option, none, some, List, [], ◌∷◌,
  ◌++◌, ltb, nat_eq, if◌then◌else◌, length, drop, String, ◌==◌, trim, codes, bytes_eq, has_prefix,
}
use vire.Accounts.Tables.{
  User, Account, AccountMember, ApiKey, Db, Error, Result, ok, err, ◌>>=◌, unique_violation,
  foreign_key_violation, name_required, owner_not_found, active_key_not_found, invalid_key,
}
use vire.Accounts.Ledger.{find, is_some}
use vire.Accounts.Daily.{is_present}

-- `KeyIdentity` of gateway/accounts.go.
pub record KeyIdentity : Type 0 where
  pub account_id : String
  pub key_id : String

-- `CreateAPIKey`
unfoldable pub create_api_key : ApiKey → Db → Result Db
create_api_key key db =
    if is_some (find (λ (k : ApiKey). k.id == key.id) db.api_keys)
    then err unique_violation
    else if not (is_some (find (λ (a : Account). a.id == key.account_id) db.accounts))
        || not (is_some (find (λ (u : User). u.id == key.created_by_user_id) db.users))
    then err foreign_key_violation
    else ok (record db { api_keys = key ∷ db.api_keys })

-- The least of some user ids: `ORDER BY user_id LIMIT 1`.
abbrev pub least : (String → String → Bool) → String → Option String → Option String
least text_lt id none = some id
least text_lt id (some best) = if text_lt best id then some best else some id

-- `FindAccountOwner`
unfoldable pub find_account_owner :
    (String → String → Bool) → String → List AccountMember → Option String
find_account_owner text_lt account [] = none
find_account_owner text_lt account (m ∷ members) =
    let rest = find_account_owner text_lt account members in
    if m.account_id == account && m.role == "owner" then least text_lt m.user_id rest else rest

-- `strings.Cut`
pub record Cut : Type 0 where
  pub before : List ℕ
  pub after : List ℕ
  pub found : Bool

unfoldable pub cut : ℕ → List ℕ → Cut
cut sep [] = record { before = []; after = []; found = false }
cut sep (c ∷ cs) =
    let rest = cut sep cs in
    if nat_eq c sep
    then record { before = []; after = cs; found = true }
    else record rest { before = c ∷ rest.before }

-- `"vire_" + keyID + "_" + secret`
abbrev pub token_of : String → List ℕ → List ℕ
token_of key_id text = codes "vire_" ++ (codes key_id ++ 95 ∷ text)

-- The row of a new key.
abbrev pub new_key : ℕ → String → String → String → List ℕ → String → ApiKey
new_key now key_id account name digest owner = record {
  id = key_id;
  account_id = account;
  created_by_user_id = owner;
  name = name;
  token_hash = digest;
  created_at = now;
  revoked_at = none;
}

-- The part of `IssueKey` after `FindAccountOwner`.
abbrev pub issue_for : Db → (String → ApiKey) → List ℕ → Option String → Result (Db × List ℕ)
issue_for db row token none = err owner_not_found
issue_for db row token (some owner) = create_api_key (row owner) db >>= λ db'. ok (db', token)

-- `IssueKey`: the tables and the token.
unfoldable pub issue_key :
    (String → String → Bool)
    → (List ℕ → List ℕ)
    → (List ℕ → List ℕ)
    → ℕ
    → String
    → List ℕ
    → Db
    → String
    → String
    → Result (Db × List ℕ)
issue_key text_lt sha256 encode now key_id secret db account name =
    let token = token_of key_id (encode secret) in
    if trim name == ""
    then err name_required
    else issue_for db (new_key now key_id account (trim name) (sha256 token)) token
        (find_account_owner text_lt account db.members)

-- `RevokeAPIKey`: the rows and how many were revoked.
unfoldable pub revoke_rows : ℕ → String → List ApiKey → List ApiKey × ℕ
revoke_rows now id [] = ([], 0)
revoke_rows now id (k ∷ keys) =
    let rest = revoke_rows now id keys in
    if k.id == id && not (is_present k.revoked_at)
    then (record k { revoked_at = some now } ∷ rest.0, suc rest.1)
    else (k ∷ rest.0, rest.1)

-- `RevokeKey`
unfoldable pub revoke_key : ℕ → String → Db → Result Db
revoke_key now id db =
    let revoked = revoke_rows now id db.api_keys in
    if nat_eq revoked.1 0 then err active_key_not_found else ok (record db { api_keys = revoked.0 })

-- `GetActiveAPIKey`
abbrev pub is_active : List ℕ → ApiKey → Bool
is_active id k = bytes_eq (codes k.id) id && not (is_present k.revoked_at)

-- The secret's length is checked.
abbrev pub is_secret : Option (List ℕ) → Bool
is_secret none = false
is_secret (some decoded) = nat_eq (length decoded) 32

abbrev pub is_nil : List ℕ → Bool
is_nil [] = true
is_nil (c ∷ cs) = false

-- The checks of `Authenticate` on the token, and the key id in it.
unfoldable pub parse_token : (List ℕ → Option (List ℕ)) → List ℕ → Option (List ℕ)
parse_token decode token =
    if ltb 128 (length token) || not (has_prefix token (codes "vire_"))
    then none
    else let parts = cut 95 (drop 5 token) in
      if not parts.found || is_nil parts.before || not (is_secret (decode parts.after))
      then none
      else some parts.before

abbrev pub same_digest : (List ℕ → List ℕ) → List ℕ → Option ApiKey → Result KeyIdentity
same_digest sha256 token none = err invalid_key
same_digest sha256 token (some k) =
    if bytes_eq (sha256 token) k.token_hash
    then ok (record { account_id = k.account_id; key_id = k.id })
    else err invalid_key

-- The part of `Authenticate` after the checks on the token.
abbrev pub look_up : (List ℕ → List ℕ) → Db → List ℕ → Option (List ℕ) → Result KeyIdentity
look_up sha256 db token none = err invalid_key
look_up sha256 db token (some id) = same_digest sha256 token (find (is_active id) db.api_keys)

-- `Authenticate`
unfoldable pub authenticate :
    (List ℕ → List ℕ) → (List ℕ → Option (List ℕ)) → Db → List ℕ → Result KeyIdentity
authenticate sha256 decode db token = look_up sha256 db token (parse_token decode token)

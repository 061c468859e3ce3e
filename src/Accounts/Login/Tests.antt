-- ===== src/Accounts/Login/Tests.antt =====
-- Runs of the keys and sessions of internal/accountdb on small tables, and their theorems at them.
use vire.Base.{
  ℕ, ◌≡◌, ◌≢◌, refl, ap, Bool, false, none, some, Option, List, [], ◌∷◌, ◌++◌, arith, String, ◌==◌,
  trim, if◌then◌else◌, codes, bytes_eq,
}
use vire.Accounts.Tables.{ApiKey, LoginAttempt, Db, ok, err, login_limited, invalid_session}
use vire.Accounts.Ledger.{find}
use vire.Accounts.Rollup.{filter}
use vire.Accounts.Keys.{
  token_of, cut, find_account_owner, create_api_key, issue_key, revoke_rows, revoke_key,
  parse_token, authenticate,
}
use vire.Accounts.Keys.Issued.{authenticate-issue_key}
use vire.Accounts.Keys.Revoked.{authenticate-revoke_key}
use vire.Accounts.Sessions.{
  Packages, Drawn, hash_password, session_digest, insert_session, create_user, insert_password,
  create_account, add_account_owner, signup,
}
use vire.Accounts.Sessions.Signed.{authenticate-signup}
use vire.Accounts.Login.{PortalAccount, owned, record_attempt, login, session, logout}
use vire.Accounts.Login.Limited.{login_limited_after}
use vire.Accounts.Login.Open.{IsLogin, login_ok, session-logout}

abbrev text_lt : String → String → Bool
text_lt a b = false

-- A secret of 32 bytes, and a code of 43 characters for it.
abbrev secret : List ℕ
secret = codes "abcdefghijklmnopqrstuvwxyz012345"

abbrev encode : List ℕ → List ℕ
encode s = s ++ codes "00000000000"

abbrev decode : List ℕ → Option (List ℕ)
decode s = if bytes_eq s (encode secret) then some secret else none

abbrev sha256 : List ℕ → List ℕ
sha256 s = 7 ∷ s

abbrev packages : Packages
packages = record {
  sha256 = sha256;
  encode = encode;
  decode = decode;
  lower = λ s. s;
  create_hash = λ s. ok s;
  compare = λ s t. s == t;
}

abbrev empty : Db
empty = record {
  users = [];
  accounts = [];
  members = [];
  api_keys = [];
  model_prices = [];
  usage_events = [];
  usage_daily = [];
  user_passwords = [];
  portal_sessions = [];
  login_attempts = [];
}

abbrev drawn : Drawn
drawn = record {
  user_id = "u";
  account_id = "a";
  key_id = "k";
  secret = secret;
  session_secret = secret;
}

abbrev default_key : ApiKey
default_key = record {
  id = "k";
  account_id = "a";
  created_by_user_id = "u";
  name = "Default";
  token_hash = sha256 (token_of "k" (encode secret));
  created_at = 5;
  revoked_at = none;
}

abbrev signed_up : Db
signed_up = record empty {
  users = record { id = "u"; email = "me@x"; created_at = 5 } ∷ [];
  accounts = record { id = "a"; name = "Me"; created_at = 5 } ∷ [];
  members = record { account_id = "a"; user_id = "u"; role = "owner" } ∷ [];
  api_keys = default_key ∷ [];
  user_passwords = record { user_id = "u"; password_hash = "long enough" } ∷ [];
  portal_sessions =
      record {
        token_hash = sha256 (encode secret);
        user_id = "u";
        account_id = "a";
        expires_at = 604800000005;
      }
      ∷ [];
}

signs_up :
    signup packages 5 drawn empty " me@x" "Me " "long enough"
    ≡ ok (
      signed_up,
      record {
        account_id = "a";
        key_id = "k";
        api_key = token_of "k" (encode secret);
        session_token = encode secret;
      },
    )
unfolding signup hash_password create_user insert_password create_account add_account_owner
    create_api_key insert_session find trim
signs_up = refl

plain_first : (cut 95 (codes drawn.key_id)).found ≡ false
unfolding cut
plain_first = refl

authenticate-signup_example :
    authenticate sha256 decode signed_up (token_of "k" (encode secret))
    ≡ ok (record { account_id = "a"; key_id = "k" })
authenticate-signup_example =
    authenticate-signup packages 5 drawn empty " me@x" "Me " "long enough" refl refl (omega arith)
      plain_first refl signs_up

abbrev second_key : ApiKey
second_key = record default_key {
  id = "k2";
  name = "mine";
  token_hash = sha256 (token_of "k2" (encode secret));
  created_at = 9;
}

abbrev issued : Db
issued = record signed_up { api_keys = second_key ∷ default_key ∷ [] }

issues :
    issue_key text_lt sha256 encode 9 "k2" secret signed_up "a" "mine"
    ≡ ok (issued, token_of "k2" (encode secret))
unfolding issue_key create_api_key find_account_owner find trim
issues = refl

plain : (cut 95 (codes "k2")).found ≡ false
unfolding cut
plain = refl

authenticate-issue_key_example :
    authenticate sha256 decode issued (token_of "k2" (encode secret))
    ≡ ok (record { account_id = "a"; key_id = "k2" })
authenticate-issue_key_example =
    authenticate-issue_key text_lt sha256 encode decode 9 "k2" secret signed_up "a" "mine" refl refl
      (omega arith) plain refl issues

abbrev revoked : Db
revoked = record issued { api_keys = record second_key { revoked_at = some 12 } ∷ default_key ∷ [] }

revokes : revoke_key 12 "k2" issued ≡ ok revoked
unfolding revoke_key revoke_rows
revokes = refl

still :
    authenticate sha256 decode revoked (token_of "k" (encode secret))
    ≡ ok (record { account_id = "a"; key_id = "k" })
unfolding authenticate parse_token cut find
still = refl

authenticate-revoke_key_example : ◌≢◌ {A = String} "k" "k2"
authenticate-revoke_key_example =
    authenticate-revoke_key sha256 decode 12 "k2" issued (token_of "k" (encode secret)) revokes
      still

abbrev tried : ℕ → Db
tried n = record signed_up {
  login_attempts = record { email = "me@x"; attempts = n; window_started = 10 } ∷ [];
  portal_sessions = [];
}

found_attempts :
    (n : ℕ)
    → find (λ (x : LoginAttempt). x.email == packages.lower (trim "me@x")) (tried n).login_attempts
      ≡ some (record { email = "me@x"; attempts = n; window_started = 10 })
unfolding find trim
found_attempts n = refl

login_limited_after_example :
    ((login packages 20 secret (tried 5) "me@x" "long enough").1 ≡ err login_limited)
    × (find
          (λ (x : LoginAttempt). x.email == packages.lower (trim "me@x"))
          (login packages 20 secret (tried 5) "me@x" "long enough").0.login_attempts
        ≡ some (record { email = "me@x"; attempts = 6; window_started = 10 }))
login_limited_after_example =
    login_limited_after packages 20 secret (tried 5) "me@x" "long enough" (found_attempts 5)
      (omega arith) (omega arith)

abbrev me : PortalAccount
me = record { account_id = "a"; name = "Me"; email = "me@x" }

abbrev opened_session : List ℕ × PortalAccount
opened_session = (encode secret, me)

logs_in : (login packages 20 secret (tried 4) "me@x" "long enough").1 ≡ ok opened_session
unfolding login record_attempt insert_session owned find filter trim
logs_in = refl

login_ok_example :
    IsLogin packages 20 secret
      (tried 4)
      "me@x"
      "long enough"
      (login packages 20 secret (tried 4) "me@x" "long enough").0
      opened_session
login_ok_example =
    login_ok packages 20 secret (tried 4)
      (login packages 20 secret (tried 4) "me@x" "long enough").0 "me@x" "long enough"
      opened_session
      (ap (λ r. ((login packages 20 secret (tried 4) "me@x" "long enough").0, r)) logs_in)

logs_out :
    logout packages signed_up (encode secret) ≡ ok (record signed_up { portal_sessions = [] })
unfolding logout session_digest filter
logs_out = refl

was_open : session packages 6 signed_up (encode secret) ≡ ok me
unfolding session session_digest find
was_open = refl

session-logout_example :
    session packages 6 (record signed_up { portal_sessions = [] }) (encode secret)
    ≡ err invalid_session
session-logout_example = session-logout packages 6 signed_up (encode secret) logs_out

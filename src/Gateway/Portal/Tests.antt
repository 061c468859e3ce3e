-- ===== src/Gateway/Portal/Tests.antt =====
-- A login of gateway/portal.go over small tables, requests of other sites, and the theorems at them.
use mathlib.Core.List.{Memᴰ}
use vire.Base.{
  ℕ, ◌+◌, ◌<◌, ◌≡◌, ◌≢◌, ◌⊎◌, refl, sym, ◌∙◌, Bool, true, false, none, some, List, [], ◌∷◌, ◌++◌,
  arith, lookup, set, if◌then◌else◌, String, ◌==◌, codes, bytes_eq, trim,
}
use vire.Accounts.Tables.{User, Db, UsageDaily, ok}
use vire.Accounts.Ledger.{find}
use vire.Accounts.Rollup.{filter, week}
use vire.Accounts.Sessions.{Packages, Drawn, session_digest, insert_session}
use vire.Accounts.Login.{PortalAccount, login, session, record_attempt, owned}
use vire.Accounts.Login.Found.{HasUniqueIds}
use vire.Gateway.Registry.{Model, Url}
use vire.Gateway.Membership.{add_models, model_catalog, sort, insert_text}
use vire.Gateway.Portal.Models.{portal_models, by_name, public_models}
use vire.Gateway.Portal.{
  Cookie, signed_in, account_is, PortalStore, Request, Body, decoded, undecodable, LoginInput,
  Portal, browser_post, session_cookie_of, valid_signup, valid_password,
}
use vire.Gateway.Portal.Handlers.{
  signup_handler, login_handler, logout_handler, account_handler, portal_chat_handler, plain,
  serves,
}
use vire.Gateway.Portal.Stored.{account_store}
use vire.Gateway.Portal.SameSite.{IsSameSite, handlers-IsSameSite}
use vire.Gateway.Portal.Cookies.{account_handler-login}

-- A secret of 32 bytes, and a code of 43 characters for it.
abbrev secret : List ℕ
secret = codes "abcdefghijklmnopqrstuvwxyz012345"

abbrev encode : List ℕ → List ℕ
encode s = s ++ codes "00000000000"

abbrev packages : Packages
packages = record {
  sha256 = λ s. 7 ∷ s;
  encode = encode;
  decode = λ s. if bytes_eq s (encode secret) then some secret else none;
  lower = λ s. s;
  create_hash = λ s. ok s;
  compare = λ s t. s == t;
}

abbrev user : User
user = record { id = "u"; email = "me@x"; created_at = 5 }

abbrev db : Db
db = record {
  users = user ∷ [];
  accounts = record { id = "a"; name = "Me"; created_at = 5 } ∷ [];
  members = record { account_id = "a"; user_id = "u"; role = "owner" } ∷ [];
  api_keys = [];
  model_prices = [];
  usage_events = [];
  usage_daily = [];
  user_passwords = record { user_id = "u"; password_hash = "long enough" } ∷ [];
  portal_sessions = [];
  login_attempts = [];
}

abbrev drawn : Drawn
drawn = record {
  user_id = "v";
  account_id = "b";
  key_id = "k";
  secret = secret;
  session_secret = secret;
}

abbrev origin : Url
origin = record {
  scheme = "https";
  host = "vire";
  hostname = "vire";
  user = false;
  path = "";
  raw_query = "";
  force_query = false;
  fragment = "";
  printed = "https://vire";
}

abbrev portal : Portal
portal = record {
  portal_origin = "";
  insecure_cookies = false;
  parse = λ s. if s == "https://vire" then some origin else some (record origin { host = "other" });
  parse_address = λ s. some s;
  lower = λ s. s;
}

abbrev own : Request
own = record {
  content_type = "application/json";
  origin = "https://vire";
  host = "vire";
  tls = true;
  session_cookie = none;
}

abbrev foreign : Request
foreign = record own { origin = "https://other" }

abbrev text_lt : String → String → Bool
text_lt a b = false

abbrev store : ℕ → PortalStore Db UsageDaily
store now = account_store packages (λ t. t) text_lt now drawn secret

abbrev body : Body LoginInput
body = decoded (record { email = " me@x"; password = "long enough" })

abbrev cookie : Cookie
cookie = session_cookie_of portal (encode secret)

logs_in : (login_handler portal (some (store 9)) db own body).1.cookie ≡ some cookie
unfolding login_handler browser_post login trim record_attempt find owned insert_session filter
logs_in = refl

other_site : (login_handler portal (some (store 9)) db foreign body).1.status ≡ 403
unfolding login_handler browser_post
other_site = refl

weak : valid_password "too short" ≡ false
unfolding valid_password
weak = refl

valid : valid_signup (λ s. some s) "me@x" "Me" ≡ true
unfolding valid_signup
valid = refl

unique : HasUniqueIds db.users
unique u v (Memᴰ.head e) (Memᴰ.head f) same = e ∙ sym f
unique u v (Memᴰ.tail e) f same = elim e [ ]
unique u v (Memᴰ.head e) (Memᴰ.tail f) same = elim f [ ]

soon : 10 < 9 + week
soon = omega arith

account_handler-login_example :
    (account : PortalAccount) × ((login_handler portal (some (store 9)) db own body).1.content
      ≡ signed_in account)
    × (account_handler portal
          (some (store 10))
          (login_handler portal (some (store 9)) db own body).0
          (record own { session_cookie = some (encode secret) })
        ≡ plain 200 (account_is account))
account_handler-login_example =
    account_handler-login portal packages (λ t. t) text_lt 9 10 drawn drawn secret secret db own
      (record own { session_cookie = some (encode secret) }) body cookie unique (refl, refl) soon
      logs_in refl

accepted :
    session packages 10 (login packages 9 secret db "me@x" "long enough").0 (encode secret)
    ≡ ok (record { account_id = "a"; name = "Me"; email = "me@x" })
unfolding session session_digest login trim record_attempt find owned insert_session filter
accepted = refl

handlers-IsSameSite_example :
    (((signup_handler portal (some (store 9)) db foreign undecodable).0 ≡ db)
      × ((login_handler portal (some (store 9)) db foreign body).0 ≡ db)
      × ((logout_handler portal (some (store 9)) db foreign).0 ≡ db)
      × (portal_chat_handler portal true (some (store 9)) db foreign
          ≢ serves (record { account_id = "a"; key_id = "k" })))
    ⊎ IsSameSite portal foreign
handlers-IsSameSite_example =
    handlers-IsSameSite portal (some (store 9)) db foreign undecodable body true
      (record { account_id = "a"; key_id = "k" })

abbrev entry : String → String → Model
entry name display_name = record {
  name = name;
  url = "https://vire";
  display_name = display_name;
  pricing = none;
}

-- One item for each name, in the order of the names; a model without a display name shows its name.
listed :
    portal_models (entry "n" "" ∷ entry "m" "M" ∷ entry "m" "M" ∷ [])
    ≡ record { id = "m"; display_name = "M"; pricing = none }
      ∷ record { id = "n"; display_name = "n"; pricing = none }
      ∷ []
unfolding portal_models by_name sort insert_text lookup set
listed = refl

listed_names :
    public_models (model_catalog (entry "n" "" ∷ entry "m" "M" ∷ entry "m" "M" ∷ []))
    ≡ record { id = "m"; object = "model" } ∷ record { id = "n"; object = "model" } ∷ []
unfolding public_models add_models sort insert_text set
listed_names = refl

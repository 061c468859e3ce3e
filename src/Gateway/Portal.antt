-- ===== src/Gateway/Portal.antt =====
-- gateway/portal.go: what the handlers of the portal check, and how they answer. A request is given
-- by what net/http reads of it; the decoding of its JSON body is a value of `Body`. `url.Parse`,
-- `mail.ParseAddress` and `strings.ToLower` are arguments. A text is valid UTF-8.
pub mod Handlers
pub mod Stored
pub mod SameSite
pub mod Cookies
pub mod Models
mod Tests
use vire.Base.{
  ℕ, Bool, true, false, not, ◌&&◌, ◌||◌, Option, none, some, List, [], ◌∷◌, ltb, nat_eq,
  if◌then◌else◌, length, ℤ, pos, negsuc, String, ◌==◌, codes,
}
use vire.Accounts.Tables.{Result}
use vire.Accounts.Sessions.{SignupResult, utf8_length}
use vire.Accounts.Login.{PortalAccount}
use vire.Gateway.Registry.{Url, Parse}

-- The cookie `vire_session`: its path is `/api`, it is HttpOnly, and its SameSite mode is strict.
pub record Cookie : Type 0 where
  pub value : List ℕ
  pub max_age : ℤ
  pub secure : Bool

-- What a reply holds. `R` is a row of a usage report.
pub data Content (R : Type 0) : Type 0 where
  message : String → Content R
  signed_up : SignupResult → Content R
  signed_in : PortalAccount → Content R
  account_is : PortalAccount → Content R
  usage_is : List R → Content R
  no_content : Content R

pub record Reply (R : Type 0) : Type 0 where
  pub status : ℕ
  pub cookie : Option Cookie
  pub retry_after : String
  pub content : Content R

-- A `PortalStore` over states `S`, with rows `R` in its usage reports.
pub record PortalStore (S R : Type 0) : Type 0 where
  pub signup : S → String → String → String → S × Result SignupResult
  pub login : S → String → String → S × Result (List ℕ × PortalAccount)
  pub session : S → List ℕ → Result PortalAccount
  pub logout : S → List ℕ → S × Result (Unit {0})
  pub usage : S → String → Result (List R)
  pub chat_key_id : S → String → Result String

-- The headers and the cookie `vire_session` of a request.
pub record Request : Type 0 where
  pub content_type : String
  pub origin : String
  pub host : String
  pub tls : Bool
  pub session_cookie : Option (List ℕ)

-- What `readPortalJSON` meets.
pub data Body (A : Type 0) : Type 0 where
  undecodable extra_value : Body A
  decoded : A → Body A

pub record SignupInput : Type 0 where
  pub email : String
  pub name : String
  pub password : String

pub record LoginInput : Type 0 where
  pub email : String
  pub password : String

-- The fields of `Server` that the handlers read, and the functions of other packages.
pub record Portal : Type 0 where
  pub portal_origin : String
  pub insecure_cookies : Bool
  pub parse : Parse
  pub parse_address : String → Option String
  pub lower : String → String

-- `writeAPIError`
abbrev pub api_error : {R : Type 0} → ℕ → String → Reply R
api_error status text = record {
  status = status;
  cookie = none;
  retry_after = "";
  content = message text;
}

-- `strings.ContainsAny(name, "\r\n")`
abbrev pub has_line_break : List ℕ → Bool
has_line_break [] = false
has_line_break (c ∷ cs) = nat_eq c 13 || nat_eq c 10 || has_line_break cs

abbrev pub is_address : Option String → String → Bool
is_address none email = false
is_address (some address) email = address == email

-- `validSignup`
unfoldable pub valid_signup : (String → Option String) → String → String → Bool
valid_signup parse_address email name =
    if email == ""
      || ltb 254 (utf8_length (codes email))
      || name == ""
      || ltb 100 (utf8_length (codes name))
    then false
    else is_address (parse_address email) email && not (has_line_break (codes name))

-- `validPassword`
unfoldable pub valid_password : String → Bool
valid_password password =
    not (ltb (length (codes password)) 10) && not (ltb 256 (utf8_length (codes password)))

abbrev pub is_foreign : Portal → Request → Url → Bool
is_foreign portal request u =
    not (u.host == request.host) && not (request.origin == portal.portal_origin)
    || u.user
    || not (u.path == "")
    || not (u.raw_query == "")
    || not (u.fragment == "")
    || not (u.scheme == "https") && not (u.scheme == "http")

-- The refusal of an origin, from its parsed form on.
abbrev pub refuse_origin : {R : Type 0} → Portal → Request → Option Url → Option (Reply R)
refuse_origin portal request none = some (api_error 403 "cross-origin request denied")
refuse_origin portal request (some u) =
    if is_foreign portal request u
    then some (api_error 403 "cross-origin request denied")
    else if request.tls && not (u.scheme == "https")
    then some (api_error 403 "cross-origin request denied")
    else none

-- `browserPost`: the reply to a request that it refuses.
unfoldable pub browser_post : {R : Type 0} → Portal → Request → Option (Reply R)
browser_post portal request =
    if not (request.content_type == "application/json")
    then some (api_error 415 "JSON is required")
    else if request.origin == ""
    then none
    else refuse_origin portal request (portal.parse request.origin)

-- `readPortalJSON`
abbrev pub read_portal_json : {A : Type 0} → Body A → Option A
read_portal_json (decoded input) = some input
read_portal_json _ = none

-- `setSession`
abbrev pub session_cookie_of : Portal → List ℕ → Cookie
session_cookie_of portal token = record {
  value = token;
  max_age = pos 604800;
  secure = not portal.insecure_cookies;
}

-- The cookie that `logoutHandler` sets, to delete the session's.
abbrev pub expired_cookie : Portal → Cookie
expired_cookie portal = record {
  value = [];
  max_age = negsuc 0;
  secure = not portal.insecure_cookies;
}

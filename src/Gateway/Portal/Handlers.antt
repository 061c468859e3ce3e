-- ===== src/Gateway/Portal/Handlers.antt =====
-- The handlers of gateway/portal.go, and `portalChatHandler` of gateway/proxy.go, over a portal store
-- that may be missing. Each returns the state that it leaves and its reply.
use vire.Base.{
  ℕ, Bool, not, ◌||◌, Option, none, some, List, ltb, if◌then◌else◌, String, ◌==◌, codes, trim,
}
use vire.Accounts.Tables.{
  Result, ok, err, email_taken, login_limited, invalid_credentials, invalid_session,
}
use vire.Accounts.Sessions.{SignupResult, utf8_length}
use vire.Accounts.Login.{PortalAccount}
use vire.Accounts.Keys.{KeyIdentity}
use vire.Gateway.Portal.{
  Reply, Content, message, signed_up, signed_in, account_is, usage_is, no_content, PortalStore,
  Request, Body, SignupInput, LoginInput, Portal, api_error, valid_signup, valid_password,
  browser_post, read_portal_json, session_cookie_of, expired_cookie,
}

-- The account and the token of a session, or the reply of a refusal.
pub data Session (S R : Type 0) : Type 0 where
  refused : Reply R → Session S R
  session_is : PortalStore S R → PortalAccount → List ℕ → Session S R

-- `portalChatHandler`: a refusal, or the identity under which `serveCompletions` goes on.
pub data Chat (R : Type 0) : Type 0 where
  denied : Reply R → Chat R
  serves : KeyIdentity → Chat R

module _ {R : Type 0} where
  abbrev pub plain : ℕ → Content R → Reply R
  plain status content = record {
    status = status;
    cookie = none;
    retry_after = "";
    content = content;
  }

  abbrev pub limited : Reply R
  limited = record {
    status = 429;
    cookie = none;
    retry_after = "900";
    content = message "too many attempts; try again later";
  }

  abbrev pub answer_usage : Result (List R) → Reply R
  answer_usage (ok rows) = plain 200 (usage_is rows)
  answer_usage (err _) = api_error 503 "usage is unavailable"

  abbrev pub chat_key : String → Result String → Chat R
  chat_key account (err _) = denied (api_error 503 "chat is unavailable")
  chat_key account (ok key) =
      if key == ""
      then denied (api_error 403 "an active API key is required for chat")
      else serves (record { account_id = account; key_id = key })

  -- A reply that sets the session's cookie.
  abbrev pub with_session : Portal → ℕ → List ℕ → Content R → Reply R
  with_session portal status token content = record {
    status = status;
    cookie = some (session_cookie_of portal token);
    retry_after = "";
    content = content;
  }

  abbrev pub unless_denied : Chat R → Option (Reply R) → Chat R
  unless_denied rest (some refusal) = denied refusal
  unless_denied rest none = rest

-- `if !s.browserPost(w, r) { return }`, and the rest.
abbrev pub unless_refused : {S R : Type 0} → S → S × Reply R → Option (Reply R) → S × Reply R
unless_refused s rest (some refusal) = (s, refusal)
unless_refused s rest none = rest

abbrev pub show_account : {S R : Type 0} → Session S R → Reply R
show_account (refused reply) = reply
show_account (session_is store account token) = plain 200 (account_is account)

abbrev pub show_usage : {S R : Type 0} → S → Session S R → Reply R
show_usage s (refused reply) = reply
show_usage s (session_is store account token) = answer_usage (store.usage s account.account_id)

-- The inputs that `loginHandler` refuses before the store.
abbrev pub is_no_login : String → String → Bool
is_no_login email password =
    ltb 254 (utf8_length (codes email))
    || ltb 256 (utf8_length (codes password))
    || email == ""
    || password == ""

module _ {S R : Type 0} (portal : Portal) where
  abbrev pub answer_signup : S × Result SignupResult → S × Reply R
  answer_signup (s, ok result) =
      (s, with_session portal 201 result.session_token (signed_up result))
  answer_signup (s, err email_taken) = (s, api_error 409 "email is already registered")
  answer_signup (s, err _) = (s, api_error 503 "account signup is unavailable")

  abbrev pub signup_input : PortalStore S R → S → Option SignupInput → S × Reply R
  signup_input store s none = (s, api_error 400 "invalid request")
  signup_input store s (some input) =
      let email = portal.lower (trim input.email) in
      let name = trim input.name in
      if not (valid_signup portal.parse_address email name) || not (valid_password input.password)
      then (
        s,
        api_error 400
            "valid email, account name, and password of at least 10 characters are required",
      )
      else answer_signup (store.signup s email name input.password)

  abbrev pub if_browser : Request → S → S × Reply R → S × Reply R
  if_browser request s rest = unless_refused s rest (browser_post portal request)

  -- `signupHandler`
  unfoldable pub signup_handler :
      Option (PortalStore S R) → S → Request → Body SignupInput → S × Reply R
  signup_handler none s request body = (s, api_error 503 "account signup is unavailable")
  signup_handler (some store) s request body =
      if_browser request s (signup_input store s (read_portal_json body))

  abbrev pub answer_login : S × Result (List ℕ × PortalAccount) → S × Reply R
  answer_login (s, ok (token, account)) = (s, with_session portal 200 token (signed_in account))
  answer_login (s, err login_limited) = (s, limited)
  answer_login (s, err invalid_credentials) = (s, api_error 401 "invalid email or password")
  answer_login (s, err _) = (s, api_error 503 "account login is unavailable")

  abbrev pub login_input : PortalStore S R → S → Option LoginInput → S × Reply R
  login_input store s none = (s, api_error 400 "invalid request")
  login_input store s (some input) =
      let email = portal.lower (trim input.email) in
      if is_no_login email input.password
      then (s, api_error 401 "invalid email or password")
      else answer_login (store.login s email input.password)

  -- `loginHandler`
  unfoldable pub login_handler :
      Option (PortalStore S R) → S → Request → Body LoginInput → S × Reply R
  login_handler none s request body = (s, api_error 503 "account login is unavailable")
  login_handler (some store) s request body =
      if_browser request s (login_input store s (read_portal_json body))

  abbrev pub session_result : PortalStore S R → List ℕ → Result PortalAccount → Session S R
  session_result store token (ok account) = session_is store account token
  session_result store token (err invalid_session) = refused (api_error 401 "sign in required")
  session_result store token (err _) = refused (api_error 503 "account portal is unavailable")

  abbrev pub session_cookie : PortalStore S R → S → Option (List ℕ) → Session S R
  session_cookie store s none = refused (api_error 401 "sign in required")
  session_cookie store s (some token) = session_result store token (store.session s token)

  -- `sessionAccount`
  unfoldable pub session_account : Option (PortalStore S R) → S → Request → Session S R
  session_account none s request = refused (api_error 503 "account portal is unavailable")
  session_account (some store) s request = session_cookie store s request.session_cookie

  -- `accountHandler`
  unfoldable pub account_handler : Option (PortalStore S R) → S → Request → Reply R
  account_handler store s request = show_account (session_account store s request)

  -- `usageHandler`
  unfoldable pub usage_handler : Option (PortalStore S R) → S → Request → Reply R
  usage_handler store s request = show_usage s (session_account store s request)

  abbrev pub answer_logout : S × Result (Unit {0}) → S × Reply R
  answer_logout (s, err _) = (s, api_error 503 "logout is unavailable")
  answer_logout (s, ok _) = (
    s,
    record {
      status = 204;
      cookie = some (expired_cookie portal);
      retry_after = "";
      content = no_content;
    },
  )

  abbrev pub logout_session : S → Session S R → S × Reply R
  logout_session s (refused reply) = (s, reply)
  logout_session s (session_is store account token) = answer_logout (store.logout s token)

  -- `logoutHandler`
  unfoldable pub logout_handler : Option (PortalStore S R) → S → Request → S × Reply R
  logout_handler store s request =
      if_browser request s (logout_session s (session_account store s request))

  abbrev pub chat_session : Bool → S → Session S R → Chat R
  chat_session has_accounts s (refused reply) = denied reply
  chat_session has_accounts s (session_is store account token) =
      if not has_accounts
      then denied (api_error 503 "chat is unavailable")
      else chat_key account.account_id (store.chat_key_id s account.account_id)

  -- `has_accounts` tells whether there is an account store.
  unfoldable pub portal_chat_handler : Bool → Option (PortalStore S R) → S → Request → Chat R
  portal_chat_handler has_accounts store s request =
      unless_denied (chat_session has_accounts s (session_account store s request))
        (browser_post portal request)

-- ===== src/Gateway/Portal/Cookies.antt =====
-- The cookie that `loginHandler` of gateway/portal.go sets opens the portal.
use vire.Base.{
  ℕ, ◌+◌, ◌≡◌, ◌<◌, refl, sym, ap, subst, ◌&&◌, ◌∙◌, inl, inr, Bool, not, Option, none, some, List,
  String, ◌==◌, trim, if◌then◌else◌, if_cases, Bool-cases, Option-cases,
}
use vire.Accounts.Tables.{Db, Result, ok, err, login_limited, invalid_credentials}
use vire.Accounts.Rollup.{week}
use vire.Accounts.Sessions.{Packages, Drawn}
use vire.Accounts.Login.{PortalAccount}
use vire.Accounts.Login.Found.{HasUniqueIds}
use vire.Accounts.Login.Accepted.{IsToken, session-login}
use vire.Gateway.Registry.{Url}
use vire.Gateway.Portal.{
  Cookie, Reply, signed_in, account_is, PortalStore, Request, Body, LoginInput, Portal,
  browser_post, read_portal_json, api_error, refuse_origin, is_foreign,
}
use vire.Gateway.Portal.Handlers.{
  is_no_login, plain, show_account, session_cookie, session_result, unless_refused, answer_login,
  login_input, login_handler, account_handler, session_account,
}
use vire.Gateway.Portal.Stored.{account_store}

-- A reply with a cookie came from a Login that succeeded.
record Signed {S R : Type 0} (portal : Portal) (store : PortalStore S R) (s : S) (r : S × Reply R)
    (cookie : Cookie) : Type 0 where
  email : String
  password : String
  account : PortalAccount
  login : store.login s email password ≡ (r.0, ok (cookie.value, account))
  content : r.1.content ≡ signed_in account

some-eq : {A : Type 0} {a b : A} → some a ≡ some b → a ≡ b
some-eq h = cc

-- A refusal sets no cookie.
module _ {R : Type 0} (portal : Portal) (request : Request) where
  error_no_cookie :
      (status : ℕ) (text : String) (r : Reply R)
      → some (api_error status text) ≡ some r
      → r.cookie ≡ none
  error_no_cookie status text r h = ap (λ (x : Reply R). x.cookie) (sym (some-eq h))

  refuse_origin-no_cookie :
      (o : Option Url) (r : Reply R) → refuse_origin portal request o ≡ some r → r.cookie ≡ none
  refuse_origin-no_cookie none r h = error_no_cookie 403 "cross-origin request denied" r h
  refuse_origin-no_cookie (some u) r h = elim (if_cases (is_foreign portal request u) h) [
    | inl e ↦ error_no_cookie 403 "cross-origin request denied" r e
    | inr g ↦ elim (if_cases (request.tls && not (u.scheme == "https")) g) [
      | inl e ↦ error_no_cookie 403 "cross-origin request denied" r e
      | inr e ↦ cc
    ]
  ]

  browser_post-no_cookie : (r : Reply R) → browser_post portal request ≡ some r → r.cookie ≡ none
  unfolding browser_post
  browser_post-no_cookie r h =
      elim (if_cases (not (request.content_type == "application/json")) h) [
        | inl e ↦ error_no_cookie 415 "JSON is required" r e
        | inr g ↦ elim (if_cases (request.origin == "") g) [
          | inl e ↦ cc
          | inr e ↦ refuse_origin-no_cookie (portal.parse request.origin) r e
        ]
      ]

module _ {S R : Type 0} (portal : Portal) (store : PortalStore S R) (s : S) (cookie : Cookie) where
  answered-Signed :
      (email password : String) (a : S × Result (List ℕ × PortalAccount))
      → store.login s email password ≡ a
      → (answer_login {R = R} portal a).1.cookie ≡ some cookie
      → Signed portal store s (answer_login portal a) cookie
  answered-Signed email password (s', ok (token, account)) e h = record {
    email = email;
    password = password;
    account = account;
    login = e ∙ ap (λ (c : Cookie). (s', ok (c.value, account))) (some-eq h);
    content = refl;
  }
  answered-Signed email password (s', err login_limited) e h = cc
  answered-Signed email password (s', err invalid_credentials) e h = cc
  answered-Signed email password (s', err _) e h = cc

  input-Signed :
      (o : Option LoginInput)
      → (login_input {R = R} portal store s o).1.cookie ≡ some cookie
      → Signed portal store s (login_input portal store s o) cookie
  input-Signed none h = cc
  input-Signed (some input) h =
      let email = portal.lower (trim input.email) in
      let answered = answer_login {R = R} portal (store.login s email input.password) in
      let refused : S × Reply R = (s, api_error 401 "invalid email or password") in
      elim (Bool-cases (is_no_login email input.password)) [
        | inl bad ↦
            let set_it = ap (λ b. (if b then refused else answered).1.cookie) (sym bad) ∙ h in cc
        | inr good ↦
            let set_it = ap (λ b. (if b then refused else answered).1.cookie) (sym good) ∙ h in
            subst (λ b. Signed portal store s (if b then refused else answered) cookie) (sym good)
              (answered-Signed email input.password _ refl set_it)
      ]

  login_handler-Signed :
      (request : Request) (body : Body LoginInput)
      → (login_handler portal (some store) s request body).1.cookie ≡ some cookie
      → Signed portal store s (login_handler portal (some store) s request body) cookie
  unfolding login_handler
  login_handler-Signed request body h = elim (Option-cases (browser_post {R = R} portal request)) [
    | inr (refusal, e) ↦
        let none_set = browser_post-no_cookie portal request refusal e in
        let set_it : refusal.cookie ≡ some cookie =
          ap
            (λ o.
              (unless_refused s (login_input portal store s (read_portal_json body)) o).1.cookie)
            (sym e)
          ∙ h in
        absurd (clash none_set set_it)
    | inl e ↦
        let h1 =
          ap
            (λ o.
              (unless_refused s (login_input portal store s (read_portal_json body)) o).1.cookie)
            (sym e)
          ∙ h in
        subst
          (λ o.
            Signed portal store s
              (unless_refused s (login_input portal store s (read_portal_json body)) o) cookie)
          (sym e) (input-Signed (read_portal_json body) h1)
  ]
    where
      clash : {o : Option Cookie} → o ≡ none → o ≡ some cookie → ⊥
      clash f g = cc

account_handler-session :
    {S R : Type 0} (portal : Portal) (store : PortalStore S R) (s : S) (next : Request)
    (token : List ℕ) (account : PortalAccount)
    → next.session_cookie ≡ some token
    → store.session s token ≡ ok account
    → account_handler portal (some store) s next ≡ plain 200 (account_is account)
unfolding account_handler session_account
account_handler-session portal store s next token account sent e =
    ap (λ c. show_account (session_cookie portal store s c)) sent
    ∙ ap (λ r. show_account (session_result portal store token r)) e

-- If the ids of users are unique and a token has 43 characters and decodes to a secret, then the
-- cookie that the login handler sets, over the account store and sent back within a week on the
-- tables that the login left, makes the account handler show the account that the login reported.
pub account_handler-login :
    (portal : Portal) (p : Packages) (day_of : ℕ → ℕ) (text_lt : String → String → Bool)
    (now later : ℕ) (drawn drawn' : Drawn) (secret secret' : List ℕ) (db : Db)
    (request next : Request) (body : Body LoginInput) (cookie : Cookie)
    → HasUniqueIds db.users
    → IsToken p (p.encode secret)
    → later < now + week
    → let r =
        login_handler portal
          (some (account_store p day_of text_lt now drawn secret))
          db
          request
          body in
      r.1.cookie ≡ some cookie
      → next.session_cookie ≡ some cookie.value
      → (account : PortalAccount) × (r.1.content ≡ signed_in account)
        × (account_handler portal
              (some (account_store p day_of text_lt later drawn' secret'))
              r.0
              next
            ≡ plain 200 (account_is account))
account_handler-login portal p day_of text_lt now later drawn drawn' secret secret' db request next
      body cookie unique t live h sent =
    let g =
      login_handler-Signed portal (account_store p day_of text_lt now drawn secret) db cookie
        request body h in
    let e =
      session-login p now later secret db _ g.email g.password cookie.value g.account unique t live
        g.login in
    (
      g.account,
      g.content,
      account_handler-session portal (account_store p day_of text_lt later drawn' secret') _ next
          cookie.value g.account sent e,
    )

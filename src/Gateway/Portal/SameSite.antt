-- ===== src/Gateway/Portal/SameSite.antt =====
-- Which requests of a browser can change the store: `browserPost` of gateway/portal.go.
use vire.Base.{
  ◌≡◌, ◌≢◌, refl, sym, ap, ◌∙◌, ◌⊎◌, inl, inr, Bool, true, false, not, ◌&&◌, Option, none, some,
  ◌==◌, eq_iff, if◌then◌else◌, Option-cases, String-cases, not-eq-false, arith,
}
use vire.Gateway.Registry.{Url}
use vire.Accounts.Keys.{KeyIdentity}
use vire.Gateway.Portal.{
  Reply, Request, Portal, PortalStore, Body, SignupInput, LoginInput, is_foreign, refuse_origin,
  browser_post,
}
use vire.Gateway.Portal.Handlers.{
  unless_refused, unless_denied, chat_session, session_account, if_browser, signup_handler,
  login_handler, logout_handler, portal_chat_handler, Chat, serves,
}

-- The origin that a request names is the host that it goes to, or the one that is configured; it has
-- no path, and over TLS it is an HTTPS origin.
pub record IsOwnOrigin (portal : Portal) (request : Request) (u : Url) : Type 0 where
  pub parsed : portal.parse request.origin ≡ some u
  pub own : (u.host ≡ request.host) ⊎ (request.origin ≡ portal.portal_origin)
  pub path : u.path ≡ ""
  pub scheme : (u.scheme ≡ "https") ⊎ (u.scheme ≡ "http")
  pub secure : request.tls ≡ true → u.scheme ≡ "https"

-- A JSON request without an origin, or with its own one.
pub record IsSameSite (portal : Portal) (request : Request) : Type 0 where
  pub json : request.content_type ≡ "application/json"
  pub origin : (request.origin ≡ "") ⊎ ((u : Url) × IsOwnOrigin portal request u)

guard-eq-none :
    {E : Type 0} (c : Bool) (e : E) (r : Option E)
    → (if c then some e else r) ≡ none
    → (c ≡ false) × (r ≡ none)
guard-eq-none true e r h = cc
guard-eq-none false e r h = (refl, h)

module _ {R : Type 0} (portal : Portal) (request : Request) where
  refuse_origin-own :
      (o : Option Url)
      → portal.parse request.origin ≡ o
      → refuse_origin {R = R} portal request o ≡ none
      → (u : Url) × IsOwnOrigin portal request u
  refuse_origin-own none e h = cc
  refuse_origin-own (some u) e h =
      let (own, h1) = guard-eq-none (is_foreign portal request u) _ _ h in
      let (plain, _) = guard-eq-none (request.tls && not (u.scheme == "https")) _ _ h1 in
      (
        u,
        record {
          parsed = e;
          own =
              grind (arith, eq_iff u.host request.host, eq_iff request.origin portal.portal_origin);
          path = grind (arith, eq_iff u.path "");
          scheme = grind (arith, eq_iff u.scheme "https", eq_iff u.scheme "http");
          secure = λ t. grind (arith, eq_iff u.scheme "https");
        },
      )

  browser_post-IsSameSite : browser_post {R = R} portal request ≡ none → IsSameSite portal request
  unfolding browser_post
  browser_post-IsSameSite h =
      let (json, h1) = guard-eq-none (not (request.content_type == "application/json")) _ _ h in
      record {
        json = (eq_iff _ _).0 (not-eq-false _ json);
        origin = elim (String-cases request.origin "") [
          | inl e ↦ inl e
          | inr e ↦ inr (
              refuse_origin-own _ refl (
                ap
                  (λ b.
                    if b then none else refuse_origin portal request (portal.parse request.origin))
                  (sym e)
                ∙ h1))
        ];
      }

module _ {S R : Type 0} (portal : Portal) (store : Option (PortalStore S R)) (s : S)
    (request : Request) where
  if_browser-IsSameSite :
      (rest : S × Reply R) → ((if_browser portal request s rest).0 ≡ s) ⊎ IsSameSite portal request
  if_browser-IsSameSite rest = elim (Option-cases (browser_post {R = R} portal request)) [
    | inl e ↦ inr (browser_post-IsSameSite portal request e)
    | inr (refusal, e) ↦ inl (ap (λ o. (unless_refused s rest o).0) e)
  ]

  signup_handler-IsSameSite :
      (o : Option (PortalStore S R)) (body : Body SignupInput)
      → ((signup_handler portal o s request body).0 ≡ s) ⊎ IsSameSite portal request
  unfolding signup_handler
  signup_handler-IsSameSite none body = inl refl
  signup_handler-IsSameSite (some _) body = if_browser-IsSameSite _

  login_handler-IsSameSite :
      (o : Option (PortalStore S R)) (body : Body LoginInput)
      → ((login_handler portal o s request body).0 ≡ s) ⊎ IsSameSite portal request
  unfolding login_handler
  login_handler-IsSameSite none body = inl refl
  login_handler-IsSameSite (some _) body = if_browser-IsSameSite _

  portal_chat_handler-IsSameSite :
      (has_accounts : Bool) (identity : KeyIdentity)
      → (portal_chat_handler portal has_accounts store s request ≢ serves identity)
        ⊎ IsSameSite portal request
  unfolding portal_chat_handler
  portal_chat_handler-IsSameSite has_accounts identity =
      let rest : Chat R =
        chat_session portal has_accounts s (session_account portal store s request) in
      elim (Option-cases (browser_post {R = R} portal request)) [
        | inl e ↦ inr (browser_post-IsSameSite portal request e)
        | inr (refusal, e) ↦ inl (λ h. let g = ap (unless_denied rest) (sym e) ∙ h in cc)
      ]

-- Only a JSON request with no Origin, or with an Origin that is the host of the request or the
-- configured one and is HTTPS if the request came over TLS, can change the store through signup,
-- login or logout, or go on to a chat completion.
pub handlers-IsSameSite :
    {S R : Type 0} (portal : Portal) (store : Option (PortalStore S R)) (s : S) (request : Request)
    (signup_body : Body SignupInput) (login_body : Body LoginInput) (has_accounts : Bool)
    (identity : KeyIdentity)
    → (((signup_handler portal store s request signup_body).0 ≡ s)
        × ((login_handler portal store s request login_body).0 ≡ s)
        × ((logout_handler portal store s request).0 ≡ s)
        × (portal_chat_handler portal has_accounts store s request ≢ serves identity))
      ⊎ IsSameSite portal request
unfolding logout_handler
handlers-IsSameSite portal store s request signup_body login_body has_accounts identity =
    elim (signup_handler-IsSameSite portal store s request store signup_body) [
      | inr own ↦ inr own
      | inl signup_is ↦ elim (login_handler-IsSameSite portal store s request store login_body) [
        | inr own ↦ inr own
        | inl login_is ↦ elim (if_browser-IsSameSite portal store s request _) [
          | inr own ↦ inr own
          | inl logout_is ↦
              elim (portal_chat_handler-IsSameSite portal store s request has_accounts identity) [
                | inr own ↦ inr own
                | inl chat_is ↦ inl (signup_is, login_is, logout_is, chat_is)
              ]
        ]
      ]
    ]

-- ===== src/Accounts/Login/Accepted.antt =====
-- Session of internal/accountdb/portal.go accepts what Login opened.
use mathlib.Core.List.{Memᴰ}
use vire.Base.{
  subst, ◌≢◌, Bool-cases, eq_refl, Bool, [], ℕ, ◌+◌, ◌≡◌, ◌<◌, refl, sym, ap, ap₂, ◌∙◌, if_cases,
  inl, inr, true, not, ◌||◌, Option, none, some, List, ◌∷◌, ltb, lt→ltb, String, ◌==◌, trim,
  bytes_eq, bytes_eq_refl, length, nat_eq_iff,
}
use vire.Accounts.Tables.{
  LoginAttempt, User, Account, PortalSession, Db, Result, ok, err, unique_violation,
  foreign_key_violation,
}
use vire.Accounts.Results.{guard-eq-ok, ok-eq-ok}
use vire.Accounts.Ledger.{find, is_some}
use vire.Accounts.Keys.{is_secret}
use vire.Accounts.Rollup.{week, filter}
use vire.Accounts.Sessions.{Packages, session_digest, insert_session}
use vire.Accounts.Login.{
  PortalAccount, Candidate, candidate, record_attempt, opened, check_password, login, is_live,
  session_by, session_of, session,
}
use vire.Accounts.Login.Found.{HasUniqueIds, find-user, candidate-Joined}

-- `base64.RawURLEncoding` on the 32 bytes of a secret: 43 characters, which decode.
abbrev pub IsToken : Packages → List ℕ → Type 0
IsToken p token = (length token ≡ 43) × (is_secret (p.decode token) ≡ true)

session_digest-IsToken :
    (p : Packages) (token : List ℕ)
    → IsToken p token
    → session_digest p token ≡ some (p.sha256 token)
unfolding session_digest
session_digest-IsToken p token (size, secret) = rw ((nat_eq_iff (length token) 43).1 size, secret)

-- The session in front of the others is found by its token.
session-first :
    (p : Packages) (later : ℕ) (db : Db) (token : List ℕ) (s : PortalSession)
    (rest : List PortalSession) (u : User) (a : Account)
    → IsToken p token
    → later < s.expires_at
    → db.portal_sessions ≡ s ∷ rest
    → s.token_hash ≡ p.sha256 token
    → find (λ (v : User). v.id == s.user_id) db.users ≡ some u
    → find (λ (x : Account). x.id == s.account_id) db.accounts ≡ some a
    → session p later db token ≡ ok (record { account_id = a.id; name = a.name; email = u.email })
unfolding session find
session-first p later db token s rest u a t live front hash user account =
    ap (session_by later db) (session_digest-IsToken p token t)
    ∙ ap (λ rows. session_of db (find (is_live later (p.sha256 token)) rows)) front
    ∙ rw (hash, bytes_eq_refl (p.sha256 token), lt→ltb later s.expires_at live, user, account)

abbrev LoginResult : Type 0
LoginResult = Db × Result (List ℕ × PortalAccount)

-- What a Login that succeeded has done.
pub record Entered (p : Packages) (now : ℕ) (secret : List ℕ) (email : String) (db : Db)
    (c : Candidate) (db' : Db) (s : List ℕ × PortalAccount) : Type 0 where
  pub sessions :
      db'.portal_sessions
      ≡ record {
        token_hash = p.sha256 (p.encode secret);
        user_id = c.user_id;
        account_id = c.account.account_id;
        expires_at = now + week;
      }
        ∷ db.portal_sessions
  pub users : db'.users ≡ db.users
  pub accounts : db'.accounts ≡ db.accounts
  pub token : s.0 ≡ p.encode secret
  pub account : s.1 ≡ c.account
  pub forgotten : (a : LoginAttempt) → Memᴰ a db'.login_attempts → a.email ≢ email

insert_session-ok :
    (s : PortalSession) (db : Db) {d : Db}
    → insert_session s db ≡ ok d
    → d ≡ record db { portal_sessions = s ∷ db.portal_sessions }
unfolding insert_session
insert_session-ok s db h =
    let known =
      is_some
        (find (λ (x : PortalSession). bytes_eq x.token_hash s.token_hash) db.portal_sessions) in
    let orphan =
      not (is_some (find (λ (u : User). u.id == s.user_id) db.users))
      || not (is_some (find (λ (a : Account). a.id == s.account_id) db.accounts)) in
    let (_, h1) = guard-eq-ok known _ unique_violation h in
    let (_, h2) = guard-eq-ok orphan _ foreign_key_violation h1 in sym (ok-eq-ok (λ (x : Db). x) h2)

filter-Mem :
    {A : Type 0} (test : A → Bool) (xs : List A) (x : A) → Memᴰ x (filter test xs) → test x ≡ true
unfolding filter
filter-Mem test [] x m = elim m [ ]
filter-Mem test (y ∷ xs) x m = elim (Bool-cases (test y)) [
  | inl kept ↦ go kept (λ m'. filter-Mem test xs x m') (rw kept at m)
  | inr dropped ↦ filter-Mem test xs x (rw dropped at m)
]
  where
    go :
        test y ≡ true
        → (Memᴰ x (filter test xs) → test x ≡ true)
        → Memᴰ x (y ∷ filter test xs)
        → test x ≡ true
    go kept later (Memᴰ.head e) = ap test e ∙ kept
    go kept later (Memᴰ.tail m') = later m'

other_email : (a : LoginAttempt) (email : String) → not (a.email == email) ≡ true → a.email ≢ email
other_email a email h e = let same = ap (λ n. n == email) e ∙ eq_refl email in cc

opened-Entered :
    (p : Packages) (now : ℕ) (secret : List ℕ) (email : String) (db : Db) (c : Candidate)
    (row : PortalSession) (r : Result Db) {db' : Db} {s : List ℕ × PortalAccount}
    → row ≡ record {
      token_hash = p.sha256 (p.encode secret);
      user_id = c.user_id;
      account_id = c.account.account_id;
      expires_at = now + week;
    }
    → insert_session row db ≡ r
    → opened email (p.encode secret) c.account db r ≡ (db', ok s)
    → Entered p now secret email db c db' s
opened-Entered p now secret email db c row (err x) same e h = cc
opened-Entered p now secret email db c row (ok d) {db'} {s} same e h =
    let inserted = insert_session-ok row db e in
    let tables = ap (λ (x : LoginResult). x.0) (sym h) in
    let result = ap (λ (x : LoginResult). x.1) h in
    record {
      sessions =
          ap (λ (x : Db). x.portal_sessions) tables
          ∙ ap (λ (x : Db). x.portal_sessions) inserted
          ∙ ap (λ (x : PortalSession). x ∷ db.portal_sessions) same;
      users = ap (λ (x : Db). x.users) tables ∙ ap (λ (x : Db). x.users) inserted;
      accounts = ap (λ (x : Db). x.accounts) tables ∙ ap (λ (x : Db). x.accounts) inserted;
      token = sym (ok-eq-ok (λ (x : List ℕ × PortalAccount). x.0) result);
      account = sym (ok-eq-ok (λ (x : List ℕ × PortalAccount). x.1) result);
      forgotten = λ a m. other_email a email (
          filter-Mem (λ (x : LoginAttempt). not (x.email == email)) d.login_attempts a
            (subst (λ (x : Db). Memᴰ a x.login_attempts) tables m));
    }

pub check_password-Entered :
    (p : Packages) (now : ℕ) (secret : List ℕ) (email password : String) (db : Db)
    (o : Option Candidate) {db' : Db} {s : List ℕ × PortalAccount}
    → check_password p now secret email password db o ≡ (db', ok s)
    → (c : Candidate) × (o ≡ some c)
      × (p.compare password c.password_hash ≡ true)
      × Entered p now secret email db c db' s
check_password-Entered p now secret email password db none h = cc
check_password-Entered p now secret email password db (some c) h =
    elim (Bool-cases (p.compare password c.password_hash)) [
      | inl right ↦
          (c, refl, right, opened-Entered p now secret email db c _ _ refl refl (rw right at h))
      | inr wrong ↦ absurd (cc (rw wrong at h))
    ]

-- A token of a Login that succeeded opens its account for a week.
pub session-login :
    (p : Packages) (now later : ℕ) (secret : List ℕ) (db db' : Db) (email password : String)
    (token : List ℕ) (account : PortalAccount)
    → HasUniqueIds db.users
    → IsToken p (p.encode secret)
    → later < now + week
    → login p now secret db email password ≡ (db', ok (token, account))
    → session p later db' token ≡ ok account
unfolding login
session-login p now later secret db db' email password token account unique t live h =
    let address = p.lower (trim email) in
    let db1 = record db { login_attempts = (record_attempt now address db.login_attempts).0 } in
    elim (if_cases (ltb 5 (record_attempt now address db.login_attempts).1) h) [
      | inl limited ↦ cc
      | inr allowed ↦
          let (c, found, _, e) =
            check_password-Entered p now secret address password db1 (candidate db1 address)
              allowed in
          let j = candidate-Joined db1 address c found in
          ap (session p later db') e.token
          ∙ session-first p later db' (p.encode secret) _ db.portal_sessions j.user j.account t live
              e.sessions refl
              (ap₂ (λ us n. find (λ (v : User). v.id == n) us) e.users j.user_id
                ∙ find-user db.users j.user unique j.member)
              (ap₂ (λ xs n. find (λ (x : Account). x.id == n) xs) e.accounts
                  (ap (λ (x : PortalAccount). x.account_id) j.account_is)
                ∙ j.found)
          ∙ ap ok (sym (e.account ∙ j.account_is))
    ]

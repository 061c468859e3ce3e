-- ===== src/Accounts/Login/Open.antt =====
-- Who gets a session, and that it can be closed (internal/accountdb/portal.go).
use mathlib.Core.List.{Memᴰ}
use vire.Accounts.Login.Found.{find-Mem, candidate-Joined}
use vire.Accounts.Login.Accepted.{check_password-Entered}
use vire.Base.{
  ◌+◌, ◌≢◌, ap₂, ◌==◌, ℕ, ◌≡◌, ◌≤◌, refl, sym, ap, ◌∙◌, inl, inr, true, not, Option, none, some,
  List, [], ◌∷◌, ltb, String, trim, arith, Bool-cases, bytes_eq,
}
use vire.Accounts.Tables.{
  User, UserPassword, AccountMember, Account, LoginAttempt, PortalSession, Db, ok, err,
  invalid_session,
}
use vire.Accounts.Results.{ok-eq-ok}
use vire.Accounts.Ledger.{find}
use vire.Accounts.Rollup.{filter, week}
use vire.Accounts.Sessions.{Packages, session_digest}
use vire.Accounts.Login.{
  PortalAccount, candidate, record_attempt, login, is_live, session_by, session_of, session,
  delete_session, logout,
}

-- Who gets a session, in terms of the tables: a user of the email, a password of the user that
-- matches, and an account that the user owns; and what Login leaves.
pub record IsLogin (p : Packages) (now : ℕ) (secret : List ℕ) (db : Db) (email password : String)
    (db' : Db) (s : List ℕ × PortalAccount) : Type 0 where
  pub user : User
  pub has_user : Memᴰ user db.users
  pub email_is : user.email ≡ p.lower (trim email)
  pub stored : UserPassword
  pub has_password : Memᴰ stored db.user_passwords
  pub password_of : stored.user_id ≡ user.id
  pub matches : p.compare password stored.password_hash ≡ true
  pub membership : AccountMember
  pub is_member : Memᴰ membership db.members
  pub of_user : membership.user_id ≡ user.id
  pub is_owner : membership.role ≡ "owner"
  pub account : Account
  pub has_account : Memᴰ account db.accounts
  pub of_account : membership.account_id ≡ account.id
  pub shown : s.1 ≡ record { account_id = account.id; name = account.name; email = user.email }
  pub token : s.0 ≡ p.encode secret
  pub sessions :
      db'.portal_sessions
      ≡ record {
        token_hash = p.sha256 (p.encode secret);
        user_id = user.id;
        account_id = account.id;
        expires_at = now + week;
      }
        ∷ db.portal_sessions
  pub forgotten : (a : LoginAttempt) → Memᴰ a db'.login_attempts → a.email ≢ p.lower (trim email)
  pub few : (record_attempt now (p.lower (trim email)) db.login_attempts).1 ≤ 5

-- A Login that succeeds was for a user of the email whose stored hash the password matches, at most
-- the fifth attempt of its window, and for an account that the user owns by a membership; it
-- returns that account and the new token, stores one more session, of this user and account for a
-- week, and leaves no attempt of the email.
pub login_ok :
    (p : Packages) (now : ℕ) (secret : List ℕ) (db db' : Db) (email password : String)
    (s : List ℕ × PortalAccount)
    → login p now secret db email password ≡ (db', ok s)
    → IsLogin p now secret db email password db' s
unfolding login
login_ok p now secret db db' email password s h =
    let address = p.lower (trim email) in
    let counted = record_attempt now address db.login_attempts in
    let db1 = record db { login_attempts = counted.0 } in
    elim (Bool-cases (ltb 5 counted.1)) [
      | inl limited ↦ absurd (cc (rw limited at h))
      | inr allowed ↦
          let (c, found, right, e) =
            check_password-Entered p now secret address password db1 (candidate db1 address)
              (rw allowed at h) in
          let j = candidate-Joined db1 address c found in
          record {
            user = j.user;
            has_user = j.member;
            email_is = j.email_is;
            stored = j.password;
            has_password = j.has_password;
            password_of = j.password_of;
            matches = ap (p.compare password) (sym j.hash_is) ∙ right;
            membership = j.membership;
            is_member = j.is_member;
            of_user = j.of_user;
            is_owner = j.is_owner;
            account = j.account;
            has_account = (find-Mem (λ (x : Account). x.id == j.account.id) db.accounts j.found).0;
            of_account = j.of_account;
            shown = e.account ∙ j.account_is;
            token = e.token;
            sessions =
                e.sessions
                ∙ ap₂
                    (λ u a.
                      record {
                        token_hash = p.sha256 (p.encode secret);
                        user_id = u;
                        account_id = a;
                        expires_at = now + week;
                      }
                      ∷ db.portal_sessions)
                    j.user_id (ap (λ (x : PortalAccount). x.account_id) j.account_is);
            forgotten = e.forgotten;
            few = ground arith;
          }
    ]

-- No row of a digest is left after the deletion of its rows.
find-deleted :
    (now : ℕ) (digest : List ℕ) (rows : List PortalSession)
    → find
        (is_live now digest)
        (filter (λ (s : PortalSession). not (bytes_eq s.token_hash digest)) rows)
      ≡ none
unfolding find filter
find-deleted now digest [] = refl
find-deleted now digest (s ∷ rows) = elim (Bool-cases (bytes_eq s.token_hash digest)) [
  | inl same ↦ rw same (find-deleted now digest rows)
  | inr other ↦ rw (other, other) (find-deleted now digest rows)
]

closed :
    (db : Db) (now : ℕ) (o : Option (List ℕ)) {db' : Db}
    → delete_session db o ≡ ok db'
    → session_by now db' o ≡ err invalid_session
closed db now none h = refl
closed db now (some digest) {db'} h =
    ap (λ rows. session_of db' (find (is_live now digest) rows))
      (sym (ok-eq-ok (λ (d : Db). d.portal_sessions) h))
    ∙ ap (λ o. session_of db' o) (find-deleted now digest db.portal_sessions)

-- On the tables that a successful Logout of a token left, Session refuses the token, at any time.
pub session-logout :
    (p : Packages) (now : ℕ) (db : Db) (token : List ℕ) {db' : Db}
    → logout p db token ≡ ok db'
    → session p now db' token ≡ err invalid_session
unfolding logout session
session-logout p now db token h = closed db now (session_digest p token) h

-- ===== src/Accounts/Login/Limited.antt =====
-- The limit of logins for an email (internal/accountdb/portal.go).
use vire.Base.{
  ℕ, ◌+◌, ◌≡◌, ◌≤◌, refl, ap, ◌∙◌, inl, inr, true, false, Option, none, some, List, [], ◌∷◌, ltb,
  String, ◌==◌, trim, arith, Bool-cases, lt→ltb,
}
use vire.Accounts.Tables.{LoginAttempt, Db, err, login_limited}
use vire.Accounts.Ledger.{find}
use vire.Accounts.Rollup.{quarter}
use vire.Accounts.Sessions.{Packages}
use vire.Accounts.Login.{count_attempt, record_attempt, login}

some-eq : {a b : LoginAttempt} → some a ≡ some b → a ≡ b
some-eq {a} h = ap (λ o. of o) h
  where
    of : Option LoginAttempt → LoginAttempt
    of none = a
    of (some x) = x

count_attempt-email : (now : ℕ) (a : LoginAttempt) → (count_attempt now a).email ≡ a.email
count_attempt-email now a = elim (Bool-cases (ltb (a.window_started + quarter) now)) [
  | inl over ↦ rw over refl
  | inr running ↦ rw running refl
]

-- The row of an email, found and counted up.
record_attempt-find :
    (now : ℕ) (email : String) (attempts : List LoginAttempt) {a : LoginAttempt}
    → find (λ (x : LoginAttempt). x.email == email) attempts ≡ some a
    → (record_attempt now email attempts).1 ≡ (count_attempt now a).attempts
      × (find (λ (x : LoginAttempt). x.email == email) (record_attempt now email attempts).0
          ≡ some (count_attempt now a))
unfolding record_attempt find
record_attempt-find now email [] h = cc
record_attempt-find now email (x ∷ attempts) {a} h = elim (Bool-cases (x.email == email)) [
  | inl same ↦
      let e : x ≡ a = some-eq (rw same at h) in
      let counted : ((count_attempt now x).email == email) ≡ true =
        ap (λ m. m == email) (count_attempt-email now x) ∙ same in
      rw (same, counted)
        (
          ap (λ (y : LoginAttempt). (count_attempt now y).attempts) e,
          ap (λ (y : LoginAttempt). some (count_attempt now y)) e,
        )
  | inr other ↦ rw (other, other) (record_attempt-find now email attempts (rw other at h))
]

-- Once five attempts are stored for an email, Login refuses every password as limited until fifteen
-- minutes after the start of their window, and counts the attempt.
pub login_limited_after :
    (p : Packages) (now : ℕ) (secret : List ℕ) (db : Db) (email password : String)
    {a : LoginAttempt}
    → find (λ (x : LoginAttempt). x.email == p.lower (trim email)) db.login_attempts ≡ some a
    → 5 ≤ a.attempts
    → now ≤ a.window_started + quarter
    → ((login p now secret db email password).1 ≡ err login_limited)
      × (find
            (λ (x : LoginAttempt). x.email == p.lower (trim email))
            (login p now secret db email password).0.login_attempts
          ≡ some (record a { attempts = a.attempts + 1 }))
unfolding login
login_limited_after p now secret db email password {a} there many soon =
    let address = p.lower (trim email) in
    let (number, row) = record_attempt-find now address db.login_attempts there in
    let running : ltb (a.window_started + quarter) now ≡ false = ground arith in
    let counted : count_attempt now a ≡ record a { attempts = a.attempts + 1 } = rw running refl in
    let too_many : ltb 5 (record_attempt now address db.login_attempts).1 ≡ true =
      lt→ltb 5 _ (omega (arith, number, ap (λ (x : LoginAttempt). x.attempts) counted, many)) in
    rw too_many (refl, row ∙ ap (λ (x : LoginAttempt). some x) counted)

-- ===== src/Accounts/Login/Found.antt =====
-- What Login of internal/accountdb/portal.go joins for an email.
use mathlib.Core.List.{Memᴰ}
use vire.Base.{
  ◌≡◌, refl, sym, ap, ◌∙◌, ◌⊎◌, inl, inr, Bool, true, false, ◌&&◌, Option, none, some, List, [],
  ◌∷◌, String, ◌==◌, eq_iff, eq_refl, Bool-cases, if◌then◌else◌,
}
use vire.Accounts.Tables.{User, Account, AccountMember, UserPassword, Db}
use vire.Accounts.Ledger.{find}
use vire.Accounts.Login.{Candidate, candidate, join_user, join_password, join_account, owned}

module _ {A : Type 0} where
  pub find-Mem :
      (p : A → Bool) (xs : List A) {x : A} → find p xs ≡ some x → Memᴰ x xs × (p x ≡ true)
  unfolding find
  find-Mem p [] h = cc
  find-Mem p (y ∷ xs) {x} h = elim (Bool-cases (p y)) [
    | inl hit ↦
        let e : y ≡ x = some-eq (ap (λ b. if b then some y else find p xs) (sym hit) ∙ h) in
        (Memᴰ.head (sym e), ap p (sym e) ∙ hit)
    | inr miss ↦
        let (member, t) =
          find-Mem p xs (ap (λ b. if b then some y else find p xs) (sym miss) ∙ h) in
        (Memᴰ.tail member, t)
  ]
    where
      some-eq : {a b : A} → some a ≡ some b → a ≡ b
      some-eq e = cc

  find-some :
      (p : A → Bool) (xs : List A) (x : A) → Memᴰ x xs → p x ≡ true → (y : A) × (find p xs ≡ some y)
  unfolding find
  find-some p [] x h t = elim h [ ]
  find-some p (y ∷ xs) x h t = elim (Bool-cases (p y)) [
    | inl hit ↦ (y, rw hit)
    | inr miss ↦ let (z, e) = find-some p xs x (later miss h) t in (z, rw miss e)
  ]
    where
      later : p y ≡ false → Memᴰ x (y ∷ xs) → Memᴰ x xs
      later miss (Memᴰ.head e) = let g = ap p e in absurd (cc)
      later miss (Memᴰ.tail g) = g

-- The primary key of `users`.
abbrev pub HasUniqueIds : List User → Type 0
HasUniqueIds users = (u v : User) → Memᴰ u users → Memᴰ v users → u.id ≡ v.id → u ≡ v

-- A user with a key is the one that the key finds.
pub find-user :
    (users : List User) (u : User)
    → HasUniqueIds users
    → Memᴰ u users
    → find (λ (v : User). v.id == u.id) users ≡ some u
find-user users u unique member =
    let (v, e) = find-some (λ (v : User). v.id == u.id) users u member (eq_refl u.id) in
    let (there, same) = find-Mem (λ (v : User). v.id == u.id) users e in
    e ∙ ap some (unique v u there member ((eq_iff v.id u.id).0 same))

find-account :
    (accounts : List Account) (k : String) (a : Account)
    → find (λ (x : Account). x.id == k) accounts ≡ some a
    → find (λ (x : Account). x.id == a.id) accounts ≡ some a
find-account accounts k a h =
    let (_, same) = find-Mem (λ (x : Account). x.id == k) accounts h in
    ap (λ n. find (λ (x : Account). x.id == n) accounts) ((eq_iff a.id k).0 same) ∙ h

-- What a candidate of Login was joined from.
pub record Joined (db : Db) (email : String) (c : Candidate) : Type 0 where
  pub user : User
  pub account : Account
  pub member : Memᴰ user db.users
  pub email_is : user.email ≡ email
  pub found : find (λ (x : Account). x.id == account.id) db.accounts ≡ some account
  pub membership : AccountMember
  pub is_member : Memᴰ membership db.members
  pub of_user : membership.user_id ≡ user.id
  pub of_account : membership.account_id ≡ account.id
  pub is_owner : membership.role ≡ "owner"
  pub password : UserPassword
  pub has_password : Memᴰ password db.user_passwords
  pub password_of : password.user_id ≡ user.id
  pub hash_is : c.password_hash ≡ password.password_hash
  pub user_id : c.user_id ≡ user.id
  pub account_is :
      c.account ≡ record { account_id = account.id; name = account.name; email = user.email }

found_or :
    (o rest : Option Account) {a : Account}
    → (elim o [ some b ↦ some b | none ↦ rest ]) ≡ some a
    → (o ≡ some a) ⊎ (rest ≡ some a)
found_or none rest h = inr h
found_or (some b) rest h = inl h

-- The row of `account_members` by which a user owns an account.
record Owns (user : String) (accounts : List Account) (members : List AccountMember) (a : Account)
    : Type 0 where
  row : AccountMember
  is_member : Memᴰ row members
  of_user : row.user_id ≡ user
  is_owner : row.role ≡ "owner"
  found : find (λ (x : Account). x.id == row.account_id) accounts ≡ some a

Owns-later :
    (user : String) (accounts : List Account) (m : AccountMember) (members : List AccountMember)
    (a : Account)
    → Owns user accounts members a
    → Owns user accounts (m ∷ members) a
Owns-later user accounts m members a o = record {
  row = o.row;
  is_member = Memᴰ.tail o.is_member;
  of_user = o.of_user;
  is_owner = o.is_owner;
  found = o.found;
}

owned-Owns :
    (user : String) (accounts : List Account) (members : List AccountMember) (a : Account)
    → owned user accounts members ≡ some a
    → Owns user accounts members a
unfolding owned
owned-Owns user accounts [] a h = cc
owned-Owns user accounts (m ∷ members) a h =
    elim (Bool-cases (m.user_id == user && m.role == "owner")) [
      | inr other ↦
          Owns-later user accounts m members a (owned-Owns user accounts members a (rw other at h))
      | inl its ↦
          let (of_user, is_owner) = and-eq-true (m.user_id == user) (m.role == "owner") its in
          elim (found_or (find (λ (x : Account). x.id == m.account_id) accounts) _ (rw its at h)) [
            | inl e ↦ record {
              row = m;
              is_member = Memᴰ.head refl;
              of_user = (eq_iff m.user_id user).0 of_user;
              is_owner = (eq_iff m.role "owner").0 is_owner;
              found = e;
            }
            | inr rest ↦
                Owns-later user accounts m members a (owned-Owns user accounts members a rest)
          ]
    ]
  where
    and-eq-true : (a b : Bool) → (a && b) ≡ true → (a ≡ true) × (b ≡ true)
    and-eq-true true b h = (refl, h)
    and-eq-true false b h = cc

join_user-some :
    (db : Db) (o : Option User) {c : Candidate}
    → join_user db o ≡ some c
    → (u : User) × (o ≡ some u)
      × (join_password db u (find (λ (w : UserPassword). w.user_id == u.id) db.user_passwords)
          ≡ some c)
join_user-some db none h = cc
join_user-some db (some u) h = (u, refl, h)

join_password-some :
    (db : Db) (u : User) (o : Option UserPassword) {c : Candidate}
    → join_password db u o ≡ some c
    → (w : UserPassword) × (o ≡ some w)
      × (join_account u w (owned u.id db.accounts db.members) ≡ some c)
join_password-some db u none h = cc
join_password-some db u (some w) h = (w, refl, h)

pub some-eq : {A : Type 0} {a b : A} → some a ≡ some b → a ≡ b
some-eq h = cc

join_account-some :
    (u : User) (w : UserPassword) (o : Option Account) {c : Candidate}
    → join_account u w o ≡ some c
    → (a : Account) × (o ≡ some a)
      × (c.user_id ≡ u.id)
      × (c.account ≡ record { account_id = a.id; name = a.name; email = u.email })
      × (c.password_hash ≡ w.password_hash)
join_account-some u w none h = cc
join_account-some u w (some a) h =
    let e = sym (some-eq h) in
    (
      a,
      refl,
      ap (λ (x : Candidate). x.user_id) e,
      ap (λ (x : Candidate). x.account) e,
      ap (λ (x : Candidate). x.password_hash) e,
    )

pub candidate-Joined :
    (db : Db) (email : String) (c : Candidate) → candidate db email ≡ some c → Joined db email c
candidate-Joined db email c h =
    let (u, found, h1) = join_user-some db (find (λ (u : User). u.email == email) db.users) h in
    let (w, found_w, h2) = join_password-some db u _ h1 in
    let (a, is_owned, user_id, account_is, hash_is) = join_account-some u w _ h2 in
    let o = owned-Owns u.id db.accounts db.members a is_owned in
    let (member, email_is) = find-Mem (λ (v : User). v.email == email) db.users found in
    let (has_password, password_of) =
      find-Mem (λ (w : UserPassword). w.user_id == u.id) db.user_passwords found_w in
    let (_, same_id) = find-Mem (λ (x : Account). x.id == o.row.account_id) db.accounts o.found in
    record {
      user = u;
      account = a;
      member = member;
      email_is = (eq_iff u.email email).0 email_is;
      found = find-account db.accounts o.row.account_id a o.found;
      membership = o.row;
      is_member = o.is_member;
      of_user = o.of_user;
      of_account = sym ((eq_iff a.id o.row.account_id).0 same_id);
      is_owner = o.is_owner;
      password = w;
      has_password = has_password;
      password_of = (eq_iff w.user_id u.id).0 password_of;
      hash_is = hash_is;
      user_id = user_id;
      account_is = account_is;
    }

-- ===== src/Gateway/Portal/Stored.antt =====
-- The portal store of the gateway: the operations of internal/accountdb, as the interface
-- `PortalStore` of gateway/portal.go. `drawn` and `secret` are what Signup and Login draw at random.
use vire.Base.{ℕ, ◌-◌, Bool, List, String}
use vire.Accounts.Tables.{Db, UsageDaily, Result, ok, err}
use vire.Accounts.Sessions.{Packages, Drawn, signup}
use vire.Accounts.Login.{login, session, logout, chat_key_id}
use vire.Accounts.Report.{usage}
use vire.Gateway.Portal.{PortalStore}

-- A transaction that failed leaves the tables.
abbrev pub committed : {V : Type 0} → Db → Result (Db × V) → Db × Result V
committed db (err failure) = (db, err failure)
committed db (ok (db', v)) = (db', ok v)

abbrev pub executed : Db → Result Db → Db × Result (Unit {0})
executed db (err failure) = (db, err failure)
executed db (ok db') = (db', ok tt)

-- The usage is that of the last 30 days.
abbrev pub account_store :
    Packages → (ℕ → ℕ) → (String → String → Bool) → ℕ → Drawn → List ℕ → PortalStore Db UsageDaily
account_store p day_of text_lt now drawn secret = record {
  signup = λ db email name password. committed db (signup p now drawn db email name password);
  login = λ db email password. login p now secret db email password;
  session = λ db token. session p now db token;
  logout = λ db token. executed db (logout p db token);
  usage = λ db account. usage day_of text_lt account (day_of now - 29) db;
  chat_key_id = λ db account. ok (chat_key_id text_lt db account);
}

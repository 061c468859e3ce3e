-- ===== src/Accounts/Ledger/Charged.antt =====
-- The price that a request is charged at.
use vire.Base.{
  ℕ, ◌≡◌, refl, sym, ap, ◌⊎◌, inl, inr, Bool, true, false, ◌&&◌, not, Option, none, some, List, [],
  ◌∷◌, arith, String, ◌==◌, eq_iff, eq_refl, Bool-cases, if_cases, subst, ℤ,
}
use vire.Accounts.Tables.{ModelPrice, Db, ok}
use vire.Accounts.Results.{>>=-ok, guard-eq-ok, ok-eq-ok}
use vire.Accounts.Ledger.{
  UsageStart, find, is_some, pick_latest, new_row, begin_usage, price_of, price_id_of, latest_price,
  set_price, rate,
}

abbrev with_id : String → List ModelPrice → Option ModelPrice
with_id id prices = find (λ (p : ModelPrice). p.id == id) prices

-- The primary key of `model_prices`: no two rows have the same id.
unfoldable pub distinct : List ModelPrice → Bool
distinct [] = true
distinct (p ∷ prices) = not (is_some (with_id p.id prices)) && distinct prices

-- The tables after some calls of `SetPrice`, at any times and with any ids.
pub data PricesSet (db : Db) : Db → Type 0 where
  start : PricesSet db db
  then_set :
      {db1 db2 : Db} (now : ℕ) (id model : String) (input output : ℤ)
      → PricesSet db db1
      → set_price now id db1 model input output ≡ ok db2
      → PricesSet db db2

-- A new row in front hides no other one.
with_id-cons :
    (x : ModelPrice) (prices : List ModelPrice) (id : String) {p : ModelPrice}
    → is_some (with_id x.id prices) ≡ false
    → with_id id prices ≡ some p
    → with_id id (x ∷ prices) ≡ some p
unfolding find
with_id-cons x prices id {p} fresh there = elim (Bool-cases (x.id == id)) [
  | inr other ↦ rw (other, there)
  | inl same ↦
      let e : x.id ≡ id = (eq_iff x.id id).0 same in
      let missing : is_some (with_id id prices) ≡ false =
        subst (λ i. is_some (with_id i prices) ≡ false) e fresh in
      let found : is_some (with_id id prices) ≡ true = ap (λ o. is_some o) there in absurd (cc)
]

with_id-front : (p : ModelPrice) (prices : List ModelPrice) → with_id p.id (p ∷ prices) ≡ some p
unfolding find
with_id-front p prices = rw (eq_refl p.id)

pub pick_latest-cases :
    (text_lt : String → String → Bool) (p : ModelPrice) (rest : Option ModelPrice) {q : ModelPrice}
    → pick_latest text_lt p rest ≡ some q
    → (q ≡ p) ⊎ (rest ≡ some q)
pick_latest-cases text_lt p none h = ground arith
pick_latest-cases text_lt p (some best) h = ground arith

-- The latest price is the row of its id.
latest_price-with_id :
    (text_lt : String → String → Bool) (model : String) (prices : List ModelPrice) {q : ModelPrice}
    → distinct prices ≡ true
    → latest_price text_lt model prices ≡ some q
    → with_id q.id prices ≡ some q
unfolding latest_price distinct
latest_price-with_id text_lt model [] d h = cc
latest_price-with_id text_lt model (p ∷ prices) {q} d h =
    let tail_distinct : distinct prices ≡ true = ground arith in
    let fresh : is_some (with_id p.id prices) ≡ false = ground arith in
    let in_front = λ (x : ModelPrice) (e : x ≡ p).
      subst (λ (y : ModelPrice). with_id y.id (p ∷ prices) ≡ some y) (sym e)
        (with_id-front p prices) in
    let behind = λ (there : latest_price text_lt model prices ≡ some q).
      with_id-cons p prices q.id fresh
        (latest_price-with_id text_lt model prices tail_distinct there) in
    elim (if_cases (p.model == model) h) [
      | inr there ↦ behind there
      | inl picked ↦ elim (pick_latest-cases text_lt p (latest_price text_lt model prices) picked) [
        | inl e ↦ in_front q e
        | inr there ↦ behind there
      ]
    ]

set_price-ok :
    (now : ℕ) (id : String) (db : Db) (model : String) (input output : ℤ) {db' : Db}
    → set_price now id db model input output ≡ ok db'
    → (p : ModelPrice) × (is_some (with_id p.id db.model_prices) ≡ false)
      × (db'.model_prices ≡ p ∷ db.model_prices)
unfolding set_price
set_price-ok now id db model input output h =
    let (_, set) = guard-eq-ok _ _ _ h in
    let (i, _, then_output) = >>=-ok (rate input) _ set in
    let (o, _, then_insert) = >>=-ok (rate output) _ then_output in
    let (fresh, e) = guard-eq-ok _ _ _ then_insert in
    (_, fresh, sym (ok-eq-ok (λ (d : Db). d.model_prices) e))

PricesSet-with_id :
    {db db' : Db} (id : String) {p : ModelPrice}
    → PricesSet db db'
    → with_id id db.model_prices ≡ some p
    → with_id id db'.model_prices ≡ some p
PricesSet-with_id id start there = there
PricesSet-with_id id (then_set {db1} now new model input output before h) there =
    let (x, fresh, e) = set_price-ok now new db1 model input output h in
    rw e (with_id-cons x db1.model_prices id fresh (PricesSet-with_id id before there))

module _ (text_lt : String → String → Bool) (now : ℕ) (db db1 db2 : Db) (start : UsageStart) where
  begin_usage-prices :
      begin_usage text_lt now db start ≡ ok db1 → db1.model_prices ≡ db.model_prices
  unfolding begin_usage
  begin_usage-prices h = ground arith

  -- While the ids of prices are unique, a row that BeginUsage inserted has, after any calls of
  -- SetPrice that succeeded, the price of its model that was the latest one when it began, or no
  -- price if there was none then.
  pub price_of-begun :
      distinct db.model_prices ≡ true
      → begin_usage text_lt now db start ≡ ok db1
      → PricesSet db1 db2
      → price_of db2 (new_row text_lt now db start)
        ≡ latest_price text_lt start.model db.model_prices
  unfolding price_of new_row
  price_of-begun d h later = go (latest_price text_lt start.model db.model_prices) refl
    where
      go :
          (o : Option ModelPrice)
          → latest_price text_lt start.model db.model_prices ≡ o
          → elim (price_id_of o) [ none ↦ none | some id ↦ with_id id db2.model_prices ] ≡ o
      go none e = refl
      go (some p) e =
          PricesSet-with_id p.id later (
            rw (begin_usage-prices h)
              (latest_price-with_id text_lt start.model db.model_prices d e))

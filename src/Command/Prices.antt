-- ===== src/Command/Prices.antt =====
-- The prices that the gateway has after its start: the loop of cmd/gateway/main.go over the models of
-- `PricedModels`, with `SetPrice`.
use mathlib.Core.List.{Memᴰ}
use vire.Base.{
  ℕ, ◌+◌, ◌≤◌, ◌<◌, ◌≡◌, ◌≢◌, refl, sym, ap, subst, ◌∙◌, inl, inr, Bool, Option, none, some, List,
  [], ◌∷◌, if◌then◌else◌, lt→ltb, ℤ, pos, negsuc, String, eq_iff, eq_false, trim, set, String-cases,
  arith,
}
use vire.Accounts.Tables.{ModelPrice, Db, ok, ◌>>=◌}
use vire.Accounts.Results.{>>=-ok, guard-eq-ok, ok-eq-ok}
use vire.Accounts.Ledger.{set_price, rate, latest_price, pick_latest}
use vire.Accounts.Ledger.Charged.{pick_latest-cases}
use vire.Gateway.Registry.{ModelPricing, Model}
use vire.Command.{price_model, price_loop}

-- The row has the rates of the registry.
abbrev pub IsPriceOf : ModelPricing → ModelPrice → Type 0
IsPriceOf p x =
    (p.input_rate_micro_per_million ≡ pos x.input_rate_micro_per_million)
    × (p.output_rate_micro_per_million ≡ pos x.output_rate_micro_per_million)

rate-ok : (z : ℤ) {n : ℕ} → rate z ≡ ok n → z ≡ pos n
rate-ok (pos m) h = ap pos (ok-eq-ok (λ n. n) h)
rate-ok (negsuc m) h = cc

-- The row that a `SetPrice` puts in front.
record Row (now : ℕ) (db : Db) (model : String) (input output : ℤ) (db' : Db) : Type 0 where
  row : ModelPrice
  prices : db'.model_prices ≡ row ∷ db.model_prices
  model_is : row.model ≡ trim model
  created : row.created_at ≡ now
  input_is : input ≡ pos row.input_rate_micro_per_million
  output_is : output ≡ pos row.output_rate_micro_per_million

set_price-Row :
    (now : ℕ) (id : String) (db : Db) (model : String) (input output : ℤ) {db' : Db}
    → set_price now id db model input output ≡ ok db'
    → Row now db model input output db'
unfolding set_price
set_price-Row now id db model input output h =
    let (_, set) = guard-eq-ok _ _ _ h in
    let (i, input_ok, then_output) = >>=-ok (rate input) _ set in
    let (o, output_ok, then_insert) = >>=-ok (rate output) _ then_output in
    let (fresh, e) = guard-eq-ok _ _ _ then_insert in
    record {
      row = record {
        id = id;
        model = trim model;
        input_rate_micro_per_million = i;
        output_rate_micro_per_million = o;
        created_at = now;
      };
      prices = sym (ok-eq-ok (λ (d : Db). d.model_prices) e);
      model_is = refl;
      created = refl;
      input_is = rate-ok input input_ok;
      output_is = rate-ok output output_ok;
    }

module _ (text_lt : String → String → Bool) where
  latest_price-other :
      (n : String) (x : ModelPrice) (xs : List ModelPrice)
      → x.model ≢ n
      → latest_price text_lt n (x ∷ xs) ≡ latest_price text_lt n xs
  unfolding latest_price
  latest_price-other n x xs h = rw (eq_false x.model n h)

  -- What is picked is one of the two.
  pick_latest-newer :
      (x : ModelPrice) (o : Option ModelPrice)
      → ((best : ModelPrice) → o ≡ some best → best.created_at < x.created_at)
      → pick_latest text_lt x o ≡ some x
  pick_latest-newer x none h = refl
  pick_latest-newer x (some best) h = rw (lt→ltb best.created_at x.created_at (h best refl))

  latest_price-Mem :
      (n : String) (xs : List ModelPrice) {best : ModelPrice}
      → latest_price text_lt n xs ≡ some best
      → Memᴰ best xs × (best.model ≡ n)
  unfolding latest_price
  latest_price-Mem n [] h = cc
  latest_price-Mem n (x ∷ xs) {best} h = elim (String-cases x.model n) [
    | inr away ↦
        let (member, name) = latest_price-Mem n xs (
          ap
            (λ b.
              if b
              then pick_latest text_lt x (latest_price text_lt n xs)
              else latest_price text_lt n xs)
            (sym away)
          ∙ h) in
        (Memᴰ.tail member, name)
    | inl here ↦
        elim (pick_latest-cases text_lt x (latest_price text_lt n xs) (
          ap
            (λ b.
              if b
              then pick_latest text_lt x (latest_price text_lt n xs)
              else latest_price text_lt n xs)
            (sym ((eq_iff x.model n).1 here))
          ∙ h)) [
            | inl e ↦ (Memᴰ.head e, ap (λ (y : ModelPrice). y.model) e ∙ here)
            | inr rest ↦ let (member, name) = latest_price-Mem n xs rest in (Memᴰ.tail member, name)
          ]
  ]

  latest_price-first :
      (n : String) (x : ModelPrice) (xs : List ModelPrice)
      → x.model ≡ n
      → ((y : ModelPrice) → Memᴰ y xs → y.model ≡ n → y.created_at < x.created_at)
      → latest_price text_lt n (x ∷ xs) ≡ some x
  unfolding latest_price
  latest_price-first n x xs here older = rw ((eq_iff x.model n).1 here) (
      pick_latest-newer x (latest_price text_lt n xs)
        (λ best e. let (member, name) = latest_price-Mem n xs e in older best member name))

pub some-eq : {A : Type 0} {a b : A} → some a ≡ some b → a ≡ b
some-eq h = cc

-- No model of the list has the name.
abbrev pub Lacks : String → List Model → Type 0
Lacks n ms = (m : Model) → Memᴰ m ms → m.name ≢ n

-- Each name once, written without spaces around it, and with a pricing.
abbrev pub Once : List Model → Type 0
Once [] = Unit {0}
Once (m ∷ ms) =
    (trim m.name ≡ m.name) × ((p : ModelPricing) × (m.pricing ≡ some p)) × Lacks m.name ms × Once ms

module _ (text_lt : String → String → Bool) (now : ℕ → ℕ) (id : ℕ → String) where
  -- The first round of the loop, and the rest of it.
  record Rounds (i : ℕ) (db : Db) (m : Model) (ms : List Model) (p : ModelPricing) (db' : Db)
      : Type 0 where
    between : Db
    first :
        Row (now i) db m.name p.input_rate_micro_per_million p.output_rate_micro_per_million between
    others : price_loop now id (i + 1) between ms ≡ ok db'

  price_loop-Rounds :
      (i : ℕ) (db : Db) (m : Model) (ms : List Model) (p : ModelPricing) {db' : Db}
      → m.pricing ≡ some p
      → price_loop now id i db (m ∷ ms) ≡ ok db'
      → Rounds i db m ms p db'
  unfolding price_loop
  price_loop-Rounds i db m ms p {db'} priced h =
      let g =
        ap (λ o. price_model (now i) (id i) db m o >>= λ d. price_loop now id (i + 1) d ms)
          (sym priced)
        ∙ h in
      let (between, e, others) =
        >>=-ok
          (set_price (now i) (id i) db m.name p.input_rate_micro_per_million
            p.output_rate_micro_per_million)
          _ g in
      record {
        between = between;
        first = set_price-Row (now i) (id i) db m.name _ _ e;
        others = others;
      }

  price_loop_nil : (i : ℕ) (db : Db) → price_loop now id i db [] ≡ ok db
  unfolding price_loop
  price_loop_nil i db = refl

  -- The loop leaves the price of a name that it does not set.
  price_loop-other :
      (i : ℕ) (db : Db) (ms : List Model) {db' : Db} (n : String)
      → Once ms
      → Lacks n ms
      → price_loop now id i db ms ≡ ok db'
      → latest_price text_lt n db'.model_prices ≡ latest_price text_lt n db.model_prices
  price_loop-other i db [] n o l h =
      ap (latest_price text_lt n)
        (sym (ok-eq-ok (λ (d : Db). d.model_prices) (sym (price_loop_nil i db) ∙ h)))
  price_loop-other i db (m ∷ ms) n (clean, (p, priced), lone, o) l h =
      let r = price_loop-Rounds i db m ms p priced h in
      let rest =
        price_loop-other (i + 1) r.between ms n o (λ k member. l k (Memᴰ.tail member)) r.others in
      rest
      ∙ ap (latest_price text_lt n) r.first.prices
      ∙ latest_price-other text_lt n r.first.row db.model_prices
          (λ e. l m (Memᴰ.head refl) (sym clean ∙ sym r.first.model_is ∙ e))

  -- Every model of the list gets its rates, where the prices of their names are older.
  pub price_loop-latest :
      (since : ℕ) (i : ℕ) (db : Db) (ms : List Model) {db' : Db}
      → ((j : ℕ) → since ≤ now j)
      → Once ms
      → ((m : Model) (x : ModelPrice)
          → Memᴰ m ms
          → Memᴰ x db.model_prices
          → x.model ≡ m.name
          → x.created_at < since)
      → price_loop now id i db ms ≡ ok db'
      → (m : Model) (p : ModelPricing) → Memᴰ m ms
      → m.pricing ≡ some p
      → (x : ModelPrice) × (latest_price text_lt m.name db'.model_prices ≡ some x) × IsPriceOf p x
  price_loop-latest since i db [] late o old h m p member priced = elim member [ ]
  price_loop-latest since i db (k ∷ ms) {db'} late (clean, (q, known), lone, o) old h m p
        (Memᴰ.head e) priced =
      let r = price_loop-Rounds i db k ms q known h in
      let named : r.first.row.model ≡ k.name = r.first.model_is ∙ clean in
      let newest : latest_price text_lt k.name (r.first.row ∷ db.model_prices) ≡ some r.first.row =
        latest_price-first text_lt k.name r.first.row db.model_prices named (λ y there name.
          let before = old k y (Memᴰ.head refl) there name in
          let created = r.first.created in let at_least = late i in omega arith) in
      let left : latest_price text_lt k.name db'.model_prices ≡ some r.first.row =
        price_loop-other (i + 1) r.between ms k.name o lone r.others
        ∙ ap (latest_price text_lt k.name) r.first.prices
        ∙ newest in
      let same : q ≡ p = some-eq (sym known ∙ ap (λ (x : Model). x.pricing) (sym e) ∙ priced) in
      (
        r.first.row,
        ap (λ (x : Model). latest_price text_lt x.name db'.model_prices) e ∙ left,
        (
          ap (λ (x : ModelPricing). x.input_rate_micro_per_million) (sym same) ∙ r.first.input_is,
          ap (λ (x : ModelPricing). x.output_rate_micro_per_million) (sym same) ∙ r.first.output_is,
        ),
      )
  price_loop-latest since i db (k ∷ ms) late (clean, (q, known), lone, o) old h m p
        (Memᴰ.tail member) priced =
      let r = price_loop-Rounds i db k ms q known h in
      price_loop-latest since (i + 1) r.between ms late o
        (λ j x there in_prices name.
          older r.first.row db.model_prices j x (r.first.model_is ∙ clean) (lone j there)
            (λ y old_price e. old j y (Memᴰ.tail there) old_price e)
            (subst (Memᴰ x) r.first.prices in_prices) name)
        r.others m p member priced
    where
      older :
          (row : ModelPrice) (prices : List ModelPrice) (j : Model) (x : ModelPrice)
          → row.model ≡ k.name
          → j.name ≢ k.name
          → ((y : ModelPrice) → Memᴰ y prices → y.model ≡ j.name → y.created_at < since)
          → Memᴰ x (row ∷ prices)
          → x.model ≡ j.name
          → x.created_at < since
      older row prices j x named apart rest (Memᴰ.head e) name =
          absurd (apart (sym name ∙ ap (λ (y : ModelPrice). y.model) e ∙ named))
      older row prices j x named apart rest (Memᴰ.tail there) name = rest x there name

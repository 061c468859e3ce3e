-- ===== src/Accounts/Results.antt =====
-- Results that are not errors, for the statements and operations of internal/accountdb.
use vire.Base.{◌≡◌, refl, ap, Bool, true, false, if◌then◌else◌}
use vire.Accounts.Tables.{Error, Result, ok, err, ◌>>=◌}

-- An operation that got past its first part.
pub >>=-ok :
    {V W : Type 0} (first : Result V) (rest : V → Result W) {w : W}
    → (first >>= rest) ≡ ok w
    → (v : V) × (first ≡ ok v) × (rest v ≡ ok w)
>>=-ok (err failure) rest h = cc
>>=-ok (ok v) rest h = (v, refl, h)

-- A guard that did not refuse.
pub guard-eq-ok :
    {A : Type 0} (c : Bool) (m : Result A) (x : Error) {a : A}
    → (if c then err x else m) ≡ ok a
    → (c ≡ false) × (m ≡ ok a)
guard-eq-ok true m x h = cc
guard-eq-ok false m x h = (refl, h)

-- What a function of the value gives.
pub ok-eq-ok : {A B : Type 0} (f : A → B) {a b : A} → ok a ≡ ok b → f a ≡ f b
ok-eq-ok {A} {B} f {a} h = ap (λ r. of r) h
  where
    of : Result A → B
    of (ok x) = f x
    of (err e) = f a

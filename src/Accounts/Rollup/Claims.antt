-- ===== src/Accounts/Rollup/Claims.antt =====
-- Which rows a batch of internal/accountdb/db/queries.sql.go takes.
use mathlib.Core.List.{Memᴰ}
use vire.Base.{
  ℕ, zero, suc, ◌+◌, ◌≡◌, refl, sym, ap, ◌∙◌, inl, inr, Bool, true, ◌&&◌, not, List, [], ◌∷◌, take,
  if◌then◌else◌, String, ◌==◌, eq_iff, eq_refl, Bool-cases, arith, subst, ltb,
}
use vire.Accounts.Tables.{UsageEvent}
use vire.Accounts.Rollup.{
  filter, insert_by_start, by_start, has_id, eligible, picked, in_rows, old_rows, week,
}
use vire.Accounts.Daily.{is_present}

-- The primary key of `usage_events`.
unfoldable pub keyed : List UsageEvent → Bool
keyed [] = true
keyed (e ∷ events) = not (has_id e.request_id events) && keyed events

has_id-take :
    (id : String) (n : ℕ) (xs : List UsageEvent)
    → has_id id (take n xs) ≡ true
    → has_id id xs ≡ true
unfolding has_id
has_id-take id zero xs h = cc
has_id-take id (suc n) [] h = cc
has_id-take id (suc n) (x ∷ xs) h = ground (arith, has_id-take id n xs)

has_id-insert_by_start :
    (id : String) (e : UsageEvent) (xs : List UsageEvent)
    → has_id id (insert_by_start e xs) ≡ has_id id (e ∷ xs)
unfolding insert_by_start has_id
has_id-insert_by_start id e [] = refl
has_id-insert_by_start id e (x ∷ xs) = ground (arith, has_id-insert_by_start id e xs)

pub has_id-by_start : (id : String) (xs : List UsageEvent) → has_id id (by_start xs) ≡ has_id id xs
unfolding by_start has_id
has_id-by_start id [] = refl
has_id-by_start id (x ∷ xs) =
    has_id-insert_by_start id x (by_start xs)
    ∙ ap (λ b. if x.request_id == id then true else b) (has_id-by_start id xs)

pub has_id-filter :
    (p : UsageEvent → Bool) (id : String) (xs : List UsageEvent)
    → has_id id (filter p xs) ≡ true
    → has_id id xs ≡ true
unfolding filter has_id
has_id-filter p id [] h = h
has_id-filter p id (x ∷ xs) h = ground (arith, has_id-filter p id xs)

has_id-mem : {e : UsageEvent} {xs : List UsageEvent} → Memᴰ e xs → has_id e.request_id xs ≡ true
unfolding has_id
has_id-mem {e} {xs = []} m = elim m [ ]
has_id-mem {e} {xs = x ∷ xs} (Memᴰ.head same) =
    rw (ap (λ (y : UsageEvent). y.request_id) same, eq_refl x.request_id)
has_id-mem {e} {xs = x ∷ xs} (Memᴰ.tail m) = ground (arith, has_id-mem m)

-- Under the primary key, a stored row that has the id of a filtered row passed the filter.
filtered :
    (p : UsageEvent → Bool) {e : UsageEvent} (xs : List UsageEvent)
    → keyed xs ≡ true
    → Memᴰ e xs
    → has_id e.request_id (filter p xs) ≡ true
    → p e ≡ true
unfolding filter has_id keyed
filtered p [] k m h = elim m [ ]
filtered p (x ∷ xs) k (Memᴰ.head same) h =
    subst (λ (y : UsageEvent). p y ≡ true) (sym same)
      (elim (Bool-cases (p x)) [
        | inl passed ↦ passed
        | inr dropped ↦
            let h' : has_id x.request_id (filter p xs) ≡ true =
              subst (λ (y : UsageEvent). has_id y.request_id (filter p xs) ≡ true) same
                (rw dropped at h) in
            ground (arith, has_id-filter p x.request_id xs h')
      ])
filtered p {e} (x ∷ xs) k (Memᴰ.tail m) h =
    let stored : has_id e.request_id xs ≡ true = has_id-mem m in
    elim (Bool-cases (x.request_id == e.request_id)) [
      | inl same ↦
          let twice : has_id x.request_id xs ≡ true =
            subst (λ id. has_id id xs ≡ true) (sym ((eq_iff x.request_id e.request_id).0 same))
              stored in
          ground arith
      | inr other ↦ filtered p xs (ground arith) m (ground arith)
    ]

-- `RollupUsageBatch` claims only rows that are terminal, not rolled up and not locked.
pub claimed :
    (locked : String → Bool) (limit : ℕ) {e : UsageEvent} (events : List UsageEvent)
    → keyed events ≡ true
    → Memᴰ e events
    → in_rows (picked locked limit events) e ≡ true
    → (eligible e && not (locked e.request_id)) ≡ true
claimed locked limit {e} events k m h =
    filtered _ events k m
      (sym (has_id-by_start e.request_id _) ∙ has_id-take e.request_id limit _ h)

pub deleted :
    (now limit : ℕ) {e : UsageEvent} (events : List UsageEvent)
    → keyed events ≡ true
    → Memᴰ e events
    → in_rows (old_rows now limit events) e ≡ true
    → (is_present e.rolled_up_at && ltb (e.started_at + week) now) ≡ true
deleted now limit {e} events k m h =
    filtered _ events k m
      (sym (has_id-by_start e.request_id _) ∙ has_id-take e.request_id limit _ h)

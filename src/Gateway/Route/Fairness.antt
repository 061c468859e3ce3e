-- ===== src/Gateway/Route/Fairness.antt =====
-- The round robin of `selectBackend` in gateway/proxy.go.
use native.Mathlib.Nat.{
  mod-lt, mod-eq_of_lt, mod-eq-sub-mod, mod-add-mod, add-mod-mod, add-mod_right,
}
use vire.Base.{
  ℕ, zero, suc, ◌+◌, ◌-◌, ◌%◌, ◌^◌, ◌≤◌, ◌<◌, ◌≡◌, sym, ap, ◌∙◌, false, Option, some, length,
  get_elem?, arith, inl, inr, le-cases, nat_eq,
}
use vire.Gateway.Route.{ModelRoute, add_one, select_backend}
use vire.Gateway.Route.Choice.{
  IsIn, IsRoute, lt_of_get_elem?, backends-select_backend, sub_one-add_one,
}

-- The route after `k` requests without a conversation.
unfoldable pub after : ℕ → ModelRoute → ModelRoute
after zero route = route
after (suc k) route = after k (select_backend route "").1

-- The backend that is selected by the next such request but `k`.
abbrev pub pick : ModelRoute → ℕ → Option ℕ
pick route k = (select_backend (after k route) "").0

module _ (route : ModelRoute) (many : 2 ≤ length route.backends) where
  select-eq-next :
      route.next < 2 ^ 64
      → (select_backend route "").0 ≡ get_elem? route.backends (route.next % length route.backends)
  unfolding select_backend
  select-eq-next h =
      let one : nat_eq (length route.backends) 1 ≡ false = ground arith in
      rw (one, sub_one-add_one route.next h)

  next-select : (select_backend route "").1.next ≡ add_one route.next
  unfolding select_backend
  next-select = let one : nat_eq (length route.backends) 1 ≡ false = ground arith in rw one

pick-eq :
    (k : ℕ) (route : ModelRoute)
    → 2 ≤ length route.backends
    → route.next + k < 2 ^ 64
    → pick route k ≡ get_elem? route.backends ((route.next + k) % length route.backends)
unfolding after
pick-eq zero route many h =
    let z : route.next ≡ route.next + 0 = omega arith in
    select-eq-next route many (omega arith)
    ∙ ap (λ j. get_elem? route.backends (j % length route.backends)) z
pick-eq (suc k) route many h =
    let same = (backends-select_backend route "").0 in
    let step : (select_backend route "").1.next ≡ route.next + 1 =
      omega (arith, next-select route many) in
    let z : route.next + 1 + k ≡ route.next + suc k = omega arith in
    pick-eq k (select_backend route "").1 (rw same many) (omega arith) ∙ rw (same, step, z)

-- A number that brings `a` to a given remainder.
abbrev shift : ℕ → ℕ → ℕ → ℕ
shift n a j = (j + n - a % n) % n

shift_lem : (n a j : ℕ) → j < n → (a + shift n a j) % n ≡ j
shift_lem n a j h =
    let z : a % n + (j + n - a % n) ≡ j + n = omega (arith, mod-lt a {m = n} (omega arith)) in
    add-mod-mod a (j + n - a % n) n
    ∙ sym (mod-add-mod a n (j + n - a % n))
    ∙ ap (λ i. i % n) z
    ∙ add-mod_right j n
    ∙ mod-eq_of_lt h

-- Two distances below `n` that lead to the same remainder are the same.
no_gap : (n r d : ℕ) → r < n → d < n → (r + d) % n ≡ r → d ≡ 0
no_gap n r d hr hd e = elim (le-cases n (r + d)) [
  | inl far ↦
      let f : (r + d) % n ≡ r + d - n =
        mod-eq-sub-mod {n = r + d} {m = n} far
        ∙ mod-eq_of_lt {n = r + d - n} {m = n} (omega arith) in
      absurd (omega arith)
  | inr near ↦ let f : (r + d) % n ≡ r + d = mod-eq_of_lt near in omega arith
]

same_distance : (n a k k' : ℕ) → k' < n → k ≤ k' → (a + k) % n ≡ (a + k') % n → k ≡ k'
same_distance n a k k' h le e =
    let z : a + k + (k' - k) ≡ a + k' = omega arith in
    let f : ((a + k) % n + (k' - k)) % n ≡ (a + k) % n =
      mod-add-mod (a + k) n (k' - k) ∙ ap (λ i. i % n) z ∙ sym e in
    let d : k' - k ≡ 0 = no_gap n ((a + k) % n) (k' - k) (mod-lt _ (omega arith)) (omega arith) f in
    omega arith

module _ (route : ModelRoute) (v : IsRoute route) (many : 2 ≤ length route.backends)
    (room : route.next + length route.backends < 2 ^ 64) where
  abbrev n : ℕ
  n = length route.backends

  -- Of as many consecutive requests without a conversation as a well-formed route of two or more
  -- backends has backends, one selects each backend, unless the counter of 64 bits wraps meanwhile.
  pub round_robin_all :
      (b : ℕ) → IsIn b route.backends → (k : ℕ) × (k < n) × (pick route k ≡ some b)
  round_robin_all b (j, e) =
      let hj : j < n = lt_of_get_elem? route.backends j e in
      let k : ℕ = shift n route.next j in
      let hk : k < n = mod-lt _ (omega arith) in
      (
        k,
        hk,
        pick-eq k route many (omega arith)
            ∙ ap (get_elem? route.backends) (shift_lem n route.next j hj)
            ∙ e,
      )

  ordered : (b k k' : ℕ) → k' < n → k ≤ k' → pick route k ≡ some b → pick route k' ≡ some b → k ≡ k'
  ordered b k k' h le e e' = same_distance n route.next k k' h le (
      v.distinct b ((route.next + k) % n) ((route.next + k') % n)
        (sym (pick-eq k route many (omega arith)) ∙ e)
        (sym (pick-eq k' route many (omega arith)) ∙ e'))

  -- Of as many consecutive requests without a conversation as a well-formed route of two or more
  -- backends has backends, no two select the same backend, unless the counter of 64 bits wraps
  -- meanwhile.
  round_robin_once :
      (b k k' : ℕ) → k < n → k' < n → pick route k ≡ some b → pick route k' ≡ some b → k ≡ k'
  round_robin_once b k k' h h' e e' = elim (le-cases k k') [
    | inl le ↦ ordered b k k' h' le e e'
    | inr lt ↦ sym (ordered b k' k h (omega arith) e' e)
  ]

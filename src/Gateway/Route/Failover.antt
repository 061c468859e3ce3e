-- ===== src/Gateway/Route/Failover.antt =====
-- `selectHealthyBackend` of gateway/proxy.go: what it returns, whatever the health of the backends.
use native.Mathlib.Nat.{mod-lt, mod-eq_of_lt, mod-eq-sub-mod}
use vire.Base.{
  ℕ, zero, suc, ◌+◌, ◌-◌, ◌%◌, ◌<◌, ◌≡◌, refl, sym, ap, ◌∙◌, ◌⊎◌, inl, inr, true, false, none, List,
  [], ◌∷◌, nat_eq, if◌then◌else◌, length, String, ◌==◌, arith, Bool-cases, le-cases, subst,
}
use vire.Gateway.Route.{
  ModelRoute, Health, Selection, chosen, none_healthy, panicked, search_closest, start_index,
  search_around, select_other,
}
use vire.Gateway.Route.Choice.{IsAt, IsIn, IsRoute, get_elem?_lt, lt_of_get_elem?}

-- What a search may return: a backend that some load found healthy, or none when every candidate
-- of `Candidate` was found unhealthy by some load.
abbrev pub IsFair : Health → (ℕ → Type 0) → Selection → Type 0
IsFair healthy Candidate (chosen b failover) =
    Candidate b × (failover ≡ true) × (t : ℕ) × (healthy t b ≡ true)
IsFair healthy Candidate none_healthy = (b : ℕ) → Candidate b → (t : ℕ) × (healthy t b ≡ false)
IsFair healthy Candidate panicked = ⊥

module _ (healthy : Health) where
  abbrev Failed : ℕ → Type 0
  Failed b = (t : ℕ) × (healthy t b ≡ false)

  -- A search over more candidates, the others having failed.
  IsFair-widen :
      {P Q : ℕ → Type 0} (found : Selection)
      → ((b : ℕ) → Q b → P b)
      → ((b : ℕ) → P b → Q b ⊎ Failed b)
      → IsFair healthy Q found
      → IsFair healthy P found
  IsFair-widen (chosen b failover) up down (q, e, t, h) = (up b q, e, t, h)
  IsFair-widen none_healthy up down fair =
      λ b p. elim (down b p) [ inl q ↦ fair b q | inr failed ↦ failed ]
  IsFair-widen panicked up down fair = fair

  -- One more candidate is tried before the rest.
  IsFair-try :
      {P Q : ℕ → Type 0} (i b : ℕ) (rest : Selection)
      → P b
      → ((x : ℕ) → Q x → P x)
      → ((x : ℕ) → P x → (x ≡ b) ⊎ Q x)
      → IsFair healthy Q rest
      → IsFair healthy P (if healthy i b then chosen b true else rest)
  IsFair-try {P} {Q} i b rest pb up split fair = elim (Bool-cases (healthy i b)) [
    | inl well ↦ rw well (pb, refl, i, well)
    | inr ill ↦ rw ill (IsFair-widen rest up (failed_or ill) fair)
  ]
    where
      failed_or : healthy i b ≡ false → (x : ℕ) → P x → Q x ⊎ Failed x
      failed_or ill x p = elim (split x p) [ inl e ↦ inr (i, rw e ill) | inr q ↦ inl q ]

  nothing_in : (b : ℕ) → IsIn b [] → ⊥
  nothing_in b (i, e) = cc e

  IsIn-split : (b x : ℕ) (bs : List ℕ) → IsIn x (b ∷ bs) → (x ≡ b) ⊎ IsIn x bs
  IsIn-split b x bs (zero, e) = inl (ground arith)
  IsIn-split b x bs (suc i, e) = inr (i, e)

  pub search_closest-IsFair :
      (i : ℕ) (bs : List ℕ) → IsFair healthy (λ b. IsIn b bs) (search_closest healthy i bs)
  unfolding search_closest
  search_closest-IsFair i [] = λ b p. absurd (nothing_in b p)
  search_closest-IsFair i (b ∷ bs) =
      IsFair-try i b (search_closest healthy (i + 1) bs) (0, refl) (λ x p. (suc p.0, p.1))
        (λ x p. IsIn-split b x bs p) (search_closest-IsFair (i + 1) bs)

  module _ (bs : List ℕ) (start : ℕ) where
    -- The backends that the loop has still to try, with `rounds` left from distance `i` on.
    abbrev Ahead : ℕ → ℕ → ℕ → Type 0
    Ahead i rounds b = (k : ℕ) × (k < rounds) × IsAt b bs ((start + (i + k)) % length bs)

    Ahead-split :
        (i rounds b x : ℕ)
        → IsAt b bs ((start + i) % length bs)
        → Ahead i (suc rounds) x
        → (x ≡ b) ⊎ Ahead (i + 1) rounds x
    Ahead-split i rounds b x e (zero, h, f) =
        let z : i + 0 ≡ i = omega arith in
        inl (cc (subst (λ j. IsAt x bs ((start + j) % length bs)) z f, e))
    Ahead-split i rounds b x e (suc k, h, f) =
        let z : i + suc k ≡ i + 1 + k = omega arith in
        inr (k, omega arith, subst (λ j. IsAt x bs ((start + j) % length bs)) z f)

    Ahead-suc : (i rounds x : ℕ) → Ahead (i + 1) rounds x → Ahead i (suc rounds) x
    Ahead-suc i rounds x (k, h, f) =
        let z : i + 1 + k ≡ i + suc k = omega arith in
        (suc k, omega arith, subst (λ j. IsAt x bs ((start + j) % length bs)) z f)

    pub search_around-IsFair :
        (i rounds : ℕ)
        → 0 < length bs
        → IsFair healthy (Ahead i rounds) (search_around healthy bs start i rounds)
    unfolding search_around
    search_around-IsFair i zero h = λ b p. absurd (omega (arith, p.1))
    search_around-IsFair i (suc rounds) h =
        let (b, e) = get_elem?_lt bs ((start + i) % length bs) (mod-lt _ h) in
        let z : i + 0 ≡ i = omega arith in
        rw e (
          IsFair-try i b (search_around healthy bs start (i + 1) rounds)
            (0, omega arith, subst (λ j. IsAt b bs ((start + j) % length bs)) (sym z) e)
            (λ x p. Ahead-suc i rounds x p) (λ x p. Ahead-split i rounds b x e p)
            (search_around-IsFair (i + 1) rounds h))

start_index-IsAt :
    (p i k : ℕ) (bs : List ℕ) → IsAt p bs k → (j : ℕ) × (start_index p i bs ≡ i + j) × IsAt p bs j
unfolding start_index
start_index-IsAt p i k [] e = cc
start_index-IsAt p i zero (b ∷ bs) e =
    let same : nat_eq b p ≡ true = ground arith in (0, rw same (omega arith), e)
start_index-IsAt p i (suc k) (b ∷ bs) e = elim (Bool-cases (nat_eq b p)) [
  | inl same ↦ (0, rw same (omega arith), ground arith)
  | inr other ↦
      let (j, g, h) = start_index-IsAt p (i + 1) k bs e in (suc j, rw other (omega arith), h)
]

module _ (healthy : Health) (bs : List ℕ) where
  -- Every index is the start, or ahead of it within one round.
  around_all :
      (start i b : ℕ)
      → start < length bs
      → i < length bs
      → IsAt b bs i
      → (start ≡ i) ⊎ Ahead healthy bs start 1 (length bs - 1) b
  around_all start i b hs hi e = elim (le-cases i start) [
    | inl before ↦ elim (le-cases start i) [
      | inl after ↦ inl (omega arith)
      | inr strictly ↦
          let k : ℕ = i + length bs - start - 1 in
          let z : start + (1 + k) ≡ i + length bs = omega arith in
          let w : (start + (1 + k)) % length bs ≡ i =
            ap (λ n. n % length bs) z
            ∙ mod-eq-sub-mod {n = i + length bs} {m = length bs} (omega arith)
            ∙ ap (λ n. n % length bs) (add-sub i (length bs))
            ∙ mod-eq_of_lt hi in
          inr (k, omega arith, subst (IsAt b bs) (sym w) e)
    ]
    | inr later ↦
        let k : ℕ = i - start - 1 in
        let z : start + (1 + k) ≡ i = omega arith in
        let w : (start + (1 + k)) % length bs ≡ i = ap (λ n. n % length bs) z ∙ mod-eq_of_lt hi in
        inr (k, omega arith, subst (IsAt b bs) (sym w) e)
  ]
    where
      add-sub : (a c : ℕ) → a + c - c ≡ a
      add-sub a c = omega arith

  around-IsFair :
      (p : ℕ)
      → IsIn p bs
      → healthy 0 p ≡ false
      → IsFair healthy
          (λ b. IsIn b bs)
          (search_around healthy bs (start_index p 0 bs) 1 (length bs - 1))
  around-IsFair p (i, e) ill =
      let (j, g, at_start) = start_index-IsAt p 0 i bs e in
      let s : ℕ = start_index p 0 bs in
      let z : j ≡ s = omega arith in
      let e' : IsAt p bs s = subst (IsAt p bs) z at_start in
      let hs : s < length bs = lt_of_get_elem? bs s e' in
      IsFair-widen healthy (search_around healthy bs s 1 (length bs - 1)) (λ b q. (_, q.2))
        (λ b q. elim (around_all s q.0 b hs (lt_of_get_elem? bs q.0 q.1) q.1) [
          | inl same ↦ inr (0, same_backend p b s q.0 same e' q.1 ill)
          | inr ahead ↦ inl ahead
        ])
        (search_around-IsFair healthy bs s 1 (length bs - 1) (omega arith))
    where
      same_backend :
          (a b k l : ℕ)
          → k ≡ l
          → IsAt a bs k
          → IsAt b bs l
          → healthy 0 a ≡ false
          → healthy 0 b ≡ false
      same_backend a b k l h x y z =
          let q : a ≡ b = cc (sym (subst (IsAt a bs) h x) ∙ y) in rw (← q) z

module _ (healthy : Health) (route : ModelRoute) (v : IsRoute route)
    (conversation_id : String) where
  abbrev bs : List ℕ
  bs = route.backends

  pub other-IsFair :
      (p : ℕ)
      → IsIn p bs
      → healthy 0 p ≡ false
      → IsFair healthy
          (λ b. IsIn b bs)
          (select_other healthy route
            (if conversation_id == "" then none else route.ring)
            conversation_id
            p)
  other-IsFair p is_in ill = elim (Bool-cases (conversation_id == "")) [
    | inl no_id ↦ rw no_id (around-IsFair healthy bs p is_in ill)
    | inr id ↦ elim (le-cases 2 (length bs)) [
      | inl many ↦
          let (ring, e, r) = v.ringed many in
          rw (id, e)
            (IsFair-widen healthy
              (search_closest healthy 1 (ring.get_closest_n conversation_id (length bs)))
              (λ b q. r.closest_in conversation_id b q)
              (λ b q. inl (r.closest_all conversation_id b q))
              (search_closest-IsFair healthy 1 (ring.get_closest_n conversation_id (length bs))))
      | inr one ↦ rw (id, v.alone one) (around-IsFair healthy bs p is_in ill)
    ]
  ]

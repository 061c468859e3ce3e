-- ===== src/Gateway/Route/Tests.antt =====
-- Selections of gateway/proxy.go among three backends, and its theorems at them.
use vire.Base.{
  ℕ, zero, suc, ◌≡◌, ◌<◌, refl, Bool, true, false, none, some, List, [], ◌∷◌, arith, nat_eq,
}
use vire.Gateway.Route.{
  Ring, ModelRoute, build_ring, select_backend, chosen, none_healthy, search_closest, start_index,
  search_around, select_healthy_backend,
}
use vire.Gateway.Route.Choice.{IsAt, IsIn, IsRingOf, IsRoute}
use vire.Gateway.Route.Healthy.{select_healthy_backend_finds}
use vire.Gateway.Route.Fairness.{after, pick, round_robin_all}

-- A ring that gives every key to the first member, and lists the members in their order.
abbrev first_member : List ℕ → Ring
first_member members = record { locate_key = λ _. 7; get_closest_n = λ _ _. members }

abbrev members : List ℕ
members = 7 ∷ 8 ∷ 9 ∷ []

abbrev route : ModelRoute
route = record { backends = members; ring = some (first_member members); next = 4; model = "m" }

built :
    build_ring first_member (record { backends = members; ring = none; next = 4; model = "m" })
    ≡ route
unfolding build_ring
built = refl

first_member-IsRingOf : IsRingOf (first_member members) members
first_member-IsRingOf = record {
  owned = λ _. (0, refl);
  closest_in = λ _ b h. h;
  closest_all = λ _ b h. h;
}

distinct_members : (b i j : ℕ) → IsAt b members i → IsAt b members j → i ≡ j
distinct_members b zero zero e f = refl
distinct_members b zero (suc zero) e f = ground arith
distinct_members b zero (suc (suc zero)) e f = ground arith
distinct_members b zero (suc (suc (suc j))) e f = cc
distinct_members b (suc zero) zero e f = ground arith
distinct_members b (suc zero) (suc zero) e f = refl
distinct_members b (suc zero) (suc (suc zero)) e f = ground arith
distinct_members b (suc zero) (suc (suc (suc j))) e f = cc
distinct_members b (suc (suc zero)) zero e f = ground arith
distinct_members b (suc (suc zero)) (suc zero) e f = ground arith
distinct_members b (suc (suc zero)) (suc (suc zero)) e f = refl
distinct_members b (suc (suc zero)) (suc (suc (suc j))) e f = cc
distinct_members b (suc (suc (suc i))) j e f = cc

route-IsRoute : IsRoute route
route-IsRoute = record {
  inhabited = omega arith;
  distinct = distinct_members;
  counter = omega arith;
  ringed = λ _. (first_member members, refl, first_member-IsRingOf);
  alone = λ h. absurd (omega arith);
}

-- Only backend 9 is healthy.
abbrev only_nine : ℕ → Bool
only_nine b = nat_eq b 9

fails_over : (select_healthy_backend (λ _. only_nine) route "c").0 ≡ chosen 9 true
unfolding select_healthy_backend select_backend search_closest
fails_over = refl

goes_round : (select_healthy_backend (λ _. only_nine) route "").0 ≡ chosen 9 true
unfolding select_healthy_backend select_backend search_around start_index
goes_round = refl

all_down : (select_healthy_backend (λ _ _. false) route "").0 ≡ none_healthy
unfolding select_healthy_backend select_backend search_around start_index
all_down = refl

select_healthy_backend_finds_example :
    (c : ℕ) × (failover : Bool) × ((select_healthy_backend (λ _. only_nine) route "c").0
      ≡ chosen c failover)
    × IsIn c members
    × (only_nine c ≡ true)
select_healthy_backend_finds_example =
    select_healthy_backend_finds only_nine route "c" 9 route-IsRoute (2, refl) refl

picks : (pick route 0 ≡ some 8) × (pick route 1 ≡ some 9) × (pick route 2 ≡ some 7)
unfolding after select_backend
picks = (refl, refl, refl)

round_robin_all_example : (k : ℕ) × (k < 3) × (pick route k ≡ some 7)
round_robin_all_example =
    round_robin_all route route-IsRoute (omega arith) (omega arith) 7 (0, refl)

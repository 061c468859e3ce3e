-- ===== src/Gateway/Route/Choice.antt =====
-- Which backends a model's route can choose: gateway/proxy.go.
use native.Mathlib.Nat.{mod-lt}
use vire.Base.{
  ℕ, zero, suc, ◌%◌, ◌^◌, ◌≤◌, ◌<◌, ◌≡◌, refl, none, some, List, [], ◌∷◌, nat_eq, length, get_elem?,
  String, ◌==◌, arith, Bool-cases, inl, inr,
}
use vire.Gateway.Route.{Ring, ModelRoute, add_one, sub_one, select_backend}

abbrev pub IsAt : ℕ → List ℕ → ℕ → Type 0
IsAt b bs i = get_elem? bs i ≡ some b

abbrev pub IsIn : ℕ → List ℕ → Type 0
IsIn b bs = (i : ℕ) × IsAt b bs i

-- What `consistent` documents of a ring of members: a key is owned by a member, and the closest
-- members, as many as there are, are all of them.
pub record IsRingOf (ring : Ring) (members : List ℕ) : Type 0 where
  pub owned : (key : String) → IsIn (ring.locate_key key) members
  pub closest_in :
      (key : String) (b : ℕ) → IsIn b (ring.get_closest_n key (length members)) → IsIn b members
  pub closest_all :
      (key : String) (b : ℕ) → IsIn b members → IsIn b (ring.get_closest_n key (length members))

-- A route as `buildRouting` builds it: it has a backend, no backend twice, a counter that is a
-- `uint64`, and a ring of its backends if there are two or more.
pub record IsRoute (route : ModelRoute) : Type 0 where
  pub inhabited : 0 < length route.backends
  pub distinct : (b i j : ℕ) → IsAt b route.backends i → IsAt b route.backends j → i ≡ j
  pub counter : route.next < 2 ^ 64
  pub ringed :
      2 ≤ length route.backends
      → (ring : Ring) × (route.ring ≡ some ring) × IsRingOf ring route.backends
  pub alone : length route.backends < 2 → route.ring ≡ none

pub get_elem?_lt : (bs : List ℕ) (i : ℕ) → i < length bs → (b : ℕ) × IsAt b bs i
get_elem?_lt [] i h = absurd (omega arith)
get_elem?_lt (b ∷ bs) zero h = (b, refl)
get_elem?_lt (b ∷ bs) (suc i) h = get_elem?_lt bs i (omega arith)

pub lt_of_get_elem? : (bs : List ℕ) (i : ℕ) {b : ℕ} → IsAt b bs i → i < length bs
lt_of_get_elem? [] i h = cc
lt_of_get_elem? (b ∷ bs) zero h = omega arith
lt_of_get_elem? (b ∷ bs) (suc i) h = omega (arith, lt_of_get_elem? bs i h)

-- The counter that a selection uses is the one that it found.
pub sub_one-add_one : (n : ℕ) → n < 2 ^ 64 → sub_one (add_one n) ≡ n
sub_one-add_one n h = omega arith

-- The primary of a request is a backend of the route.
pub record HasPrimary (route : ModelRoute) (conversation_id : String) : Type 0 where
  pub backend : ℕ
  pub selected : (select_backend route conversation_id).0 ≡ some backend
  pub is_in : IsIn backend route.backends

pub select_backend-HasPrimary :
    (route : ModelRoute) (conversation_id : String)
    → IsRoute route
    → HasPrimary route conversation_id
unfolding select_backend
select_backend-HasPrimary route conversation_id v =
    elim (Bool-cases (nat_eq (length route.backends) 1)) [
      | inl one ↦
          let (b, e) = get_elem?_lt route.backends 0 v.inhabited in
          record { backend = b; selected = rw one e; is_in = (0, e) }
      | inr more ↦ elim (Bool-cases (conversation_id == "")) [
        | inl no_id ↦
            let at : ℕ = sub_one (add_one route.next) % length route.backends in
            let (b, e) = get_elem?_lt route.backends at (mod-lt _ v.inhabited) in
            record { backend = b; selected = rw (more, no_id) e; is_in = (at, e) }
        | inr id ↦
            let (ring, e, r) = v.ringed (grind arith) in
            record {
              backend = ring.locate_key conversation_id;
              selected = rw (more, id, e);
              is_in = r.owned conversation_id;
            }
      ]
    ]

-- Selecting changes nothing but the counter.
pub backends-select_backend :
    (route : ModelRoute) (conversation_id : String)
    → ((select_backend route conversation_id).1.backends ≡ route.backends)
      × ((select_backend route conversation_id).1.ring ≡ route.ring)
unfolding select_backend
backends-select_backend route conversation_id = ground arith

next-select_backend :
    (route : ModelRoute) (conversation_id : String)
    → route.next < 2 ^ 64
    → (select_backend route conversation_id).1.next < 2 ^ 64
unfolding select_backend
next-select_backend route conversation_id h = ground arith

-- A route stays as `buildRouting` built it.
pub select_backend-IsRoute :
    (route : ModelRoute) (conversation_id : String)
    → IsRoute route
    → IsRoute (select_backend route conversation_id).1
select_backend-IsRoute route conversation_id v =
    let (same_backends, same_ring) = backends-select_backend route conversation_id in
    record {
      inhabited = rw same_backends v.inhabited;
      distinct = rw same_backends v.distinct;
      counter = next-select_backend route conversation_id v.counter;
      ringed = rw (same_backends, same_ring) v.ringed;
      alone = rw (same_backends, same_ring) v.alone;
    }

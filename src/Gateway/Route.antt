-- ===== src/Gateway/Route.antt =====
-- gateway/proxy.go: the backends of a model, and the choice of one for a request. A backend is
-- the number of its object, so that `==` compares pointers. The package `consistent` is not part of the repository:
-- a ring is a value with its two lookups, and `consistent.New` is an argument.
pub mod Choice
pub mod Failover
pub mod Healthy
pub mod Fairness
mod Tests
use vire.Base.{
  ℕ, zero, suc, ◌+◌, ◌-◌, ◌%◌, ◌^◌, Bool, true, false, not, Option, none, some, List, [], ◌∷◌, ltb,
  nat_eq, if◌then◌else◌, length, get_elem?, String, ◌==◌,
}

-- `*consistent.Consistent`: `LocateKey`, and `GetClosestN` with the list empty on its error.
pub record Ring : Type 0 where
  pub locate_key : String → ℕ
  pub get_closest_n : String → ℕ → List ℕ

-- `modelRoute`; `ring` is `none` while the pointer is nil.
pub record ModelRoute : Type 0 where
  pub backends : List ℕ
  pub ring : Option Ring
  pub next : ℕ
  pub model : String

-- `buildRing`
unfoldable pub build_ring : (List ℕ → Ring) → ModelRoute → ModelRoute
build_ring new_ring route =
    if ltb (length route.backends) 2
    then route
    else record route { ring = some (new_ring route.backends) }

-- `route.next.Add(1) - 1`, on a `uint64`: the counter's new value, and the value that is used.
abbrev pub add_one : ℕ → ℕ
add_one n = (n + 1) % 2 ^ 64

abbrev pub sub_one : ℕ → ℕ
sub_one n = (n + 2 ^ 64 - 1) % 2 ^ 64

-- `route.ring.LocateKey(…)`; a nil ring panics.
abbrev pub locate : Option Ring → String → Option ℕ
locate none key = none
locate (some ring) key = some (ring.locate_key key)

-- `selectBackend`: the backend and the route with its new counter; `none` is a panic, from the nil
-- ring or from an empty list of backends.
unfoldable pub select_backend : ModelRoute → String → Option ℕ × ModelRoute
select_backend route conversation_id =
    if nat_eq (length route.backends) 1
    then (get_elem? route.backends 0, route)
    else if not (conversation_id == "")
    then (locate route.ring conversation_id, route)
    else (let counter = add_one route.next in
        (
          get_elem? route.backends (sub_one counter % length route.backends),
          record route { next = counter },
        ))

-- What each load of an atomic `healthy` returns: the loads of one request are numbered, since the
-- prober may change a backend between two of them.
abbrev pub Health : Type 0
Health = ℕ → ℕ → Bool

pub data Selection : Type 0 where
  chosen : ℕ → Bool → Selection
  none_healthy : Selection
  panicked : Selection

-- The loop over the members closest to the key, from load `i` on.
pub search_closest : Health → ℕ → List ℕ → Selection
search_closest healthy i [] = none_healthy
search_closest healthy i (backend ∷ members) =
    let rest = search_closest healthy (i + 1) members in
    if healthy i backend then chosen backend true else rest

-- The index of the primary, 0 if it is not found.
pub start_index : ℕ → ℕ → List ℕ → ℕ
start_index primary i [] = 0
start_index primary i (backend ∷ backends) =
    let rest = start_index primary (i + 1) backends in if nat_eq backend primary then i else rest

-- One round of the loop below: an index out of range panics.
abbrev pub try_backend : Health → ℕ → Option ℕ → Selection → Selection
try_backend healthy i none rest = panicked
try_backend healthy i (some backend) rest = if healthy i backend then chosen backend true else rest

-- The loop over the other backends in order, `rounds` of them left, the next at distance `i`.
unfoldable pub search_around : Health → List ℕ → ℕ → ℕ → ℕ → Selection
search_around healthy backends start i zero = none_healthy
search_around healthy backends start i (suc rounds) =
    let rest = search_around healthy backends start (i + 1) rounds in
    try_backend healthy i (get_elem? backends ((start + i) % length backends)) rest

-- The part of `selectHealthyBackend` after the primary was found unhealthy.
abbrev pub select_other : Health → ModelRoute → Option Ring → String → ℕ → Selection
select_other healthy route (some ring) conversation_id primary =
    search_closest healthy 1 (ring.get_closest_n conversation_id (length route.backends))
select_other healthy route none conversation_id primary =
    search_around healthy route.backends (start_index primary 0 route.backends) 1
      (length route.backends - 1)

-- `selectHealthyBackend` from its primary on.
abbrev pub select_from : Health → ModelRoute → String → Option ℕ → Selection
select_from healthy route conversation_id none = panicked
select_from healthy route conversation_id (some primary) =
    if healthy 0 primary
    then chosen primary false
    else select_other healthy route (if conversation_id == "" then none else route.ring)
        conversation_id primary

-- `selectHealthyBackend`
unfoldable pub select_healthy_backend : Health → ModelRoute → String → Selection × ModelRoute
select_healthy_backend healthy route conversation_id =
    let (primary, route') = select_backend route conversation_id in
    (select_from healthy route' conversation_id primary, route')

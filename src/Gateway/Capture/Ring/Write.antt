-- ===== src/Gateway/Capture/Ring/Write.antt =====
-- What the two copies of `observe` do to the storage of the ring, by list equations.
use mathlib.Core.List.{append-nil}
use vire.Base.{
  ℕ, ◌+◌, ◌-◌, ◌≤◌, ◌<◌, ◌≡◌, ap, ◌∙◌, List, [], ◌++◌, arith, length, take, drop, copy, copy_at,
  min, length-take, length-drop, take_all, drop_all, drop-append, drop-drop, copy_lem, copy_at_lem,
  length-copy_at, take_nil,
}
use vire.Gateway.Capture.{write_ring}

copy_none : (dst : List ℕ) → copy dst [] ≡ dst
copy_none dst = copy_lem dst [] ∙ ap (λ r. r ++ dst) (take_nil (length dst))

copy_into :
    (buf : List ℕ) (next : ℕ) (p : List ℕ)
    → copy_at buf next p
      ≡ take next buf ++ (take (length buf - next) p ++ drop (next + length p) buf)
copy_into buf next p =
    copy_at_lem buf next p ∙ ap (λ r. take next buf ++ r) (rw (copy_lem, length-drop, drop-drop))

-- A write that fits before the end of the storage.
pub write_ring_fits :
    (buf : List ℕ) (next : ℕ) (p : List ℕ)
    → next + length p ≤ length buf
    → write_ring buf next p ≡ take next buf ++ (p ++ drop (next + length p) buf)
write_ring_fits buf next p h =
    let m : min (length buf - next) (length p) ≡ length p = omega arith in
    rw (
      m,
      drop_all (length p) p (omega arith),
      copy_none,
      copy_into,
      take_all (length buf - next) p (omega arith),
    )

-- A write that goes round the end: the rest lands at the start of the storage.
pub write_ring_wraps :
    (buf : List ℕ) (next : ℕ) (p : List ℕ)
    → next ≤ length buf
    → length p ≤ length buf
    → length buf < next + length p
    → write_ring buf next p
      ≡ drop (length buf - next) p
        ++ (drop (length p - (length buf - next)) (take next buf) ++ take (length buf - next) p)
write_ring_wraps buf next p hn hp hw =
    let m : min (length buf - next) (length p) ≡ length buf - next = omega arith in
    let k : ℕ = length buf - next in
    let fits : length (drop k p) ≤ length buf = omega (arith, length-drop k p) in
    let back : length p - k - length (take next buf) ≡ 0 = omega (arith, length-take next buf) in
    rw (
      m,
      copy_lem,
      length-copy_at,
      copy_into,
      take_all (length buf) (drop k p) fits,
      length-drop,
      drop-append,
      back,
      drop_all (next + length p) buf (omega arith),
      append-nil,
    )

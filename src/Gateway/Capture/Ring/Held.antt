-- ===== src/Gateway/Capture/Ring/Held.antt =====
-- The bytes that the storage of the ring holds before and after a write, oldest first.
use mathlib.Core.List.{append_assoc, append-nil}
use native.Mathlib.Nat.{mod-eq_of_lt, mod-eq-sub-mod}
use vire.Base.{
  ℕ, zero, suc, ◌+◌, ◌-◌, ◌%◌, ◌≤◌, ◌<◌, ◌≡◌, refl, sym, ◌∙◌, List, ◌++◌, arith, ltb, if◌then◌else◌,
  length, take, drop, copy, copy_at, take_last, lt→ltb, le→ltb_false, copy_lem, copy_at_lem,
  length-copy, length-copy_at, take_all, drop_all, length-take, length-drop, inl, inr, le-cases,
  length-append, take_exact, drop_exact, drop-append_le, drop-append_ge, take_last_all,
  take_last-drop, drop-drop, take-append-drop, min,
}
use vire.Gateway.Capture.{write_ring}
use vire.Gateway.Capture.Ring.Write.{write_ring_fits, write_ring_wraps}

-- The bytes that a ring of `n` bytes with storage `buf` holds, oldest first.
abbrev pub held : ℕ → List ℕ → ℕ → ℕ → List ℕ
held n buf next size = if ltb size n then take size buf else drop next buf ++ take next buf

pub length-write_ring :
    (buf : List ℕ) (next : ℕ) (p : List ℕ) → length (write_ring buf next p) ≡ length buf
length-write_ring buf next p = length-copy _ _ ∙ length-copy_at buf next p

-- Where the write ends, with `room` bytes before the end of the storage.
module _ (n : ℕ) (buf p : List ℕ) (next : ℕ) (hb : length buf ≡ n) (hn : next < n)
    (hp : length p < n) where
  -- The older part of a full ring, and the newer part, which is all of one that is not full.
  abbrev old : List ℕ
  old = drop next buf

  abbrev new : List ℕ
  new = take next buf

  abbrev written : List ℕ
  written = write_ring buf next p

  new-length : length new ≡ next
  new-length = omega (arith, length-take next buf)

  old-length : length old ≡ n - next
  old-length = omega (arith, length-drop next buf)

  -- A ring that is not full keeps all its bytes, if the write does not reach the end.
  partial_fits : next + length p < n → take (next + length p) written ≡ new ++ p
  partial_fits room =
      rw (write_ring_fits buf next p (omega arith), ← append_assoc)
        (take_exact (next + length p) (new ++ p) _ (omega (arith, length-append new p, new-length)))

  -- A full ring loses its oldest bytes, if the write does not reach the end.
  full_fits :
      next + length p < n
      → drop (next + length p) written ++ take (next + length p) written
        ≡ drop (length p) (old ++ new ++ p)
  full_fits room =
      let e : next + length p ≡ length (new ++ p) =
        omega (arith, length-append new p, new-length) in
      rw
        (
          write_ring_fits buf next p (omega arith),
          ← append_assoc,
          take_exact (next + length p) (new ++ p) (drop (next + length p) buf) e,
          drop_exact (next + length p) (new ++ p) (drop (next + length p) buf) e,
        )
        (rw (
          append_assoc old new p,
          drop-append_le (length p) old (new ++ p) (omega (arith, old-length)),
          drop-drop,
        ))

  -- A write that ends with the storage.
  ends : n ≡ next + length p → drop 0 written ++ take 0 written ≡ drop 0 (new ++ p)
  ends e = rw (
    append-nil,
    write_ring_fits buf next p (omega arith),
    drop_all (next + length p) buf (omega arith),
    append-nil,
  )

  -- A write that goes round the end: `k` bytes land at the start.
  goes_round :
      (k : ℕ)
      → k + n ≡ next + length p
      → n < next + length p
      → drop k written ++ take k written ≡ drop k (new ++ p)
  goes_round k e more =
      let j : length buf - next ≡ length p - k = omega arith in
      let rest : length p - (length p - k) ≡ k = omega arith in
      let first : List ℕ = take (length p - k) p in
      let second : List ℕ = drop (length p - k) p in
      let front : k ≡ length second = omega (arith, length-drop (length p - k) p) in
      rw (
        write_ring_wraps buf next p (omega arith) (omega arith) (omega arith),
        j,
        rest,
        take_exact k second (drop k new ++ first) front,
        drop_exact k second (drop k new ++ first) front,
        append_assoc,
        take-append-drop,
        drop-append_le k new p (omega (arith, new-length)),
      )

  past : (k : ℕ) → k + n ≡ next + length p → drop k written ++ take k written ≡ drop k (new ++ p)
  past zero e = ends (omega arith)
  past (suc k) e = goes_round (suc k) e (omega arith)

  length-all : length (old ++ new ++ p) ≡ length p + n
  length-all =
      omega (arith, length-append (old ++ new) p, length-append old new, old-length, new-length)

  full_past :
      (k : ℕ) → k + n ≡ next + length p → drop (length p) (old ++ new ++ p) ≡ drop k (new ++ p)
  full_past k e =
      let j : length p - length old ≡ k = omega (arith, old-length) in
      rw (
        append_assoc old new p,
        drop-append_ge (length p) old (new ++ p) (omega (arith, old-length)),
        j,
      )

  -- What a ring of `size` bytes holds: the newer part, and the older part when it is full.
  held_partial : next < n → held n buf next next ≡ new
  held_partial h = rw (lt→ltb next n h)

  held_full : held n buf next n ≡ old ++ new
  held_full = rw (le→ltb_false n n (omega arith))

  -- The four cases: the ring was full or not, and the write reached the end or not.
  partial_below :
      next + length p < n
      → held n written (next + length p) (next + length p) ≡ take_last n (held n buf next next ++ p)
  partial_below room =
      rw (held_partial hn, lt→ltb (next + length p) n room, partial_fits room)
        (sym (take_last_all n (new ++ p) (omega (arith, length-append new p, new-length))))

  partial_past :
      (k : ℕ)
      → k + n ≡ next + length p
      → held n written k n ≡ take_last n (held n buf next next ++ p)
  partial_past k e =
      rw (held_partial hn, le→ltb_false n n (omega arith), past k e)
        (sym (take_last-drop n k (new ++ p) (omega (arith, length-append new p, new-length))))

  full_below :
      next + length p < n
      → held n written (next + length p) n ≡ take_last n (held n buf next n ++ p)
  full_below room =
      rw (held_full, le→ltb_false n n (omega arith), full_fits room)
        (sym (take_last-drop n (length p) (old ++ new ++ p) length-all))

  full_beyond :
      (k : ℕ) → k + n ≡ next + length p → held n written k n ≡ take_last n (held n buf next n ++ p)
  full_beyond k e =
      rw (held_full, le→ltb_false n n (omega arith), past k e, ← full_past k e)
        (sym (take_last-drop n (length p) (old ++ new ++ p) length-all))

  next_below : next + length p < n → (next + length p) % n ≡ next + length p
  next_below room = mod-eq_of_lt room

  next_past : n ≤ next + length p → (next + length p) % n ≡ next + length p - n
  next_past far =
      mod-eq-sub-mod {n = next + length p} {m = n} (omega arith)
      ∙ mod-eq_of_lt {n = next + length p - n} {m = n} (omega arith)

  -- Whatever the write, the ring then holds the last bytes of what it held and the new ones.
  pub held-write_ring :
      (size : ℕ)
      → size ≤ n
      → (size < n → next ≡ size)
      → held n written ((next + length p) % n) (min n (size + length p))
        ≡ take_last n (held n buf next size ++ p)
  held-write_ring size hs start = elim (le-cases n size) [
    | inl full ↦
        let s : size ≡ n = omega arith in
        let m : min n (n + length p) ≡ n = omega arith in
        elim (le-cases n (next + length p)) [
          | inl far ↦ rw (next_past far, s, m) (full_beyond (next + length p - n) (omega arith))
          | inr room ↦ rw (next_below room, s, m) (full_below room)
        ]
    | inr partial ↦
        let s : size ≡ next = sym (start partial) in
        elim (le-cases n (next + length p)) [
          | inl far ↦
              let m : min n (next + length p) ≡ n = omega arith in
              rw (next_past far, s, m) (partial_past (next + length p - n) (omega arith))
          | inr room ↦
              let m : min n (next + length p) ≡ next + length p = omega arith in
              rw (next_below room, s, m) (partial_below room)
        ]
  ]

-- A read of at least `n` bytes fills the ring from its start.
pub held_fill :
    (n : ℕ) (buf sent p : List ℕ)
    → length buf ≡ n
    → n ≤ length p
    → held n (copy buf (drop (length p - n) p)) 0 n ≡ take_last n (sent ++ p)
held_fill n buf sent p hb hp =
    let q : List ℕ = drop (length p - n) p in
    let hq : length q ≡ n = omega (arith, length-drop (length p - n) p) in
    let j : length (sent ++ p) - n - length sent ≡ length p - n =
      omega (arith, length-append sent p) in
    let far : length sent ≤ length (sent ++ p) - n = omega (arith, length-append sent p) in
    rw (
      le→ltb_false n n (omega arith),
      append-nil,
      copy_lem,
      take_all (length buf) q (omega arith),
      drop_all (length q) buf (omega arith),
      append-nil,
      drop-append_ge (length (sent ++ p) - n) sent p far,
      j,
    )

-- The two copies of `tail` put the older part before the newer one.
tail_copies :
    (n : ℕ) (buf fresh : List ℕ) (next : ℕ)
    → length buf ≡ n
    → length fresh ≡ n
    → next < n
    → copy_at (copy fresh (drop next buf)) (min n (length buf - next)) (take next buf)
      ≡ drop next buf ++ take next buf
tail_copies n buf fresh next hb hf hn =
    let old : List ℕ = drop next buf in
    let new : List ℕ = take next buf in
    let ho : length old ≡ n - next = omega (arith, length-drop next buf) in
    let m : min n (length buf - next) ≡ length old = omega arith in
    let rest : List ℕ = drop (length old) fresh in
    let hr : length rest ≡ length new =
      omega (arith, length-drop (length old) fresh, length-take next buf) in
    rw (
      m,
      copy_lem,
      take_all (length fresh) old (omega arith),
      copy_at_lem,
      take_exact (length old) old rest refl,
      drop_exact (length old) old rest refl,
      copy_lem,
      take_all (length rest) new (omega arith),
      drop_all (length new) rest (omega arith),
      append-nil,
    )

-- `tail` on an allocated ring.
pub tail-some :
    (n : ℕ) (buf fresh : List ℕ) (next size : ℕ)
    → length buf ≡ n
    → length fresh ≡ n
    → next < n
    → (if ltb size n
        then take size buf
        else copy_at (copy fresh (drop next buf)) (min n (length buf - next)) (take next buf))
      ≡ held n buf next size
tail-some n buf fresh next size hb hf hn = rw (tail_copies n buf fresh next hb hf hn)

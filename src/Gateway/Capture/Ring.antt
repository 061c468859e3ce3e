-- ===== src/Gateway/Capture/Ring.antt =====
-- The ring of gateway/usage_capture.go against the stream that it has seen.
mod Write
mod Held
use Held.{held, tail-some, held_fill, held-write_ring, length-write_ring}
use mathlib.Core.List.{append_assoc, append-nil}
use native.Mathlib.Nat.{mod-eq_of_lt}
use vire.Base.{
  ℕ, zero, suc, ◌+◌, ◌-◌, ◌%◌, ◌≤◌, ◌<◌, ◌≡◌, refl, sym, ap, ◌∙◌, Bool, true, false, ◌||◌, Option,
  none, some, List, [], ◌∷◌, ◌++◌, arith, ltb, leb, if◌then◌else◌, length, take, drop, concat, copy,
  copy_at, take_last, replicate, lt→ltb, le→ltb_false, le→leb, lt→leb_false, copy_lem, length-copy,
  length-copy_at, take_all, drop_all, length-replicate, length-take, length-drop, inl, inr,
  le-cases, length-append, drop-append, take-append, take_exact, drop_exact, drop-append_le,
  drop-append_ge, take_last_all, take_last-drop, take_last-take_last, drop-drop, take_nil, drop_nil,
  take-append-drop, min, Bool-cases,
}
use vire.Gateway.Capture.{
  Limits, UsageCapture, new_capture, modify_response, bytes, observe_stream, observe_json, observe,
  observe_all, tail, write_ring, ring_body,
}

module _ (l : Limits) where
  open l use {max_tail}

  abbrev pub window : UsageCapture → List ℕ
  window c = held max_tail (ring_body l c) c.tail_next c.tail_size

  -- The storage has the size of the ring, the next index lies in it, a ring that is not full
  -- begins at index 0, and one that has not been allocated is empty.
  pub record IsRing (c : UsageCapture) : Type 0 where
    pub storage : length (ring_body l c) ≡ max_tail
    pub next_in : c.tail_next < max_tail
    pub size_in : c.tail_size ≤ max_tail
    pub starts : c.tail_size < max_tail → c.tail_next ≡ c.tail_size
    pub unallocated : c.body ≡ none → c.tail_size ≡ 0

  -- A ring that has seen the bytes `sent`.
  pub record HasSeen (c : UsageCapture) (sent : List ℕ) : Type 0 where
    pub ring : IsRing c
    pub streams : c.stream ≡ true
    pub complete : c.overflow ≡ false
    pub last : window c ≡ take_last max_tail sent
    pub size : c.tail_size ≡ min max_tail (length sent)
    pub cut : c.tail_truncated ≡ ltb max_tail (length sent)

  -- A capture of a stream before its first read.
  pub modify_response-HasSeen :
      (asked : Bool) (status : ℕ) (event_stream : Bool)
      → 0 < max_tail
      → asked || event_stream ≡ true
      → HasSeen (modify_response (new_capture asked) status event_stream) []
  modify_response-HasSeen asked status event_stream h streams = record {
    ring = record {
      storage = length-replicate max_tail 0;
      next_in = h;
      size_in = omega arith;
      starts = λ _. refl;
      unallocated = λ _. refl;
    };
    streams = streams;
    complete = refl;
    last = rw (lt→ltb 0 max_tail h) (sym (drop_nil (0 - max_tail)));
    size = omega arith;
    cut = ground arith;
  }

  -- The end of the body does not touch the ring.
  pub eof-HasSeen :
      (c : UsageCapture) (sent : List ℕ) (b : Bool)
      → HasSeen c sent
      → HasSeen (record c { eof = b }) sent
  eof-HasSeen c sent b s = record {
    ring = record {
      storage = s.ring.storage;
      next_in = s.ring.next_in;
      size_in = s.ring.size_in;
      starts = s.ring.starts;
      unallocated = s.ring.unallocated;
    };
    streams = s.streams;
    complete = s.complete;
    last = s.last;
    size = s.size;
    cut = s.cut;
  }

  module _ (c : UsageCapture) (sent p : List ℕ) (seen : HasSeen c sent) where
    open seen use {ring, streams, complete, last, size, cut}

    fill-HasSeen : max_tail ≤ length p → HasSeen (observe_stream l c p) (sent ++ p)
    unfolding observe_stream
    fill-HasSeen h = rw (le→leb max_tail (length p) h) (record {
      ring = record {
        storage = length-copy (ring_body l c) _ ∙ ring.storage;
        next_in = omega (arith, ring.next_in);
        size_in = omega arith;
        starts = λ q. absurd (omega arith);
        unallocated = λ q. cc;
      };
      streams = streams;
      complete = complete;
      last = held_fill max_tail (ring_body l c) sent p ring.storage h;
      size = omega (arith, length-append sent p);
      cut = ground (arith, size, cut, length-append sent p);
    })

    write-HasSeen : length p < max_tail → HasSeen (observe_stream l c p) (sent ++ p)
    unfolding observe_stream
    write-HasSeen h = rw (lt→leb_false max_tail (length p) h) (record {
      ring = record {
        storage = length-write_ring _ _ p ∙ ring.storage;
        next_in = omega arith;
        size_in = omega arith;
        starts = λ q.
            mod-eq_of_lt {n = c.tail_next + length p} {m = max_tail}
              (omega (arith, ring.starts (omega arith)))
            ∙ omega (arith, ring.starts (omega arith));
        unallocated = λ q. cc;
      };
      streams = streams;
      complete = complete;
      last =
          held-write_ring max_tail (ring_body l c) p c.tail_next ring.storage ring.next_in h
            c.tail_size ring.size_in ring.starts
          ∙ ap (λ s. take_last max_tail (s ++ p)) last
          ∙ take_last-take_last max_tail sent p;
      size = omega (arith, length-append sent p);
      cut = ground (arith, size, cut, length-append sent p);
    })

    observe-eq-observe_stream : observe l c p ≡ observe_stream l c p
    unfolding observe
    observe-eq-observe_stream =
        ap (λ b. if b then observe_stream l c p else observe_json l c p) streams

    observe-HasSeen : HasSeen (observe l c p) (sent ++ p)
    observe-HasSeen = rw observe-eq-observe_stream (elim (le-cases max_tail (length p)) [
      | inl full ↦ fill-HasSeen full
      | inr less ↦ write-HasSeen less
    ])

  pub observe_all-HasSeen :
      (ps : List (List ℕ)) (c : UsageCapture) (sent : List ℕ)
      → HasSeen c sent
      → HasSeen (observe_all l c ps) (sent ++ concat ps)
  unfolding observe_all
  observe_all-HasSeen [] c sent seen = rw append-nil seen
  observe_all-HasSeen (p ∷ ps) c sent seen =
      rw (← append_assoc)
        (observe_all-HasSeen ps (observe l c p) (sent ++ p) (observe-HasSeen c sent p seen))

  tail-of_body :
      (c : UsageCapture) (o : Option (List ℕ)) → c.body ≡ o → IsRing c → tail l c ≡ window c
  unfolding tail
  tail-of_body c none e r =
      let s : c.tail_size ≡ 0 = r.unallocated e in
      let room : 0 < max_tail = omega arith in rw (s, lt→ltb 0 max_tail room)
  tail-of_body c (some b) e r =
      let h : length b ≡ max_tail = rw (← r.storage, e) in
      rw e (
        tail-some max_tail b (replicate max_tail 0) c.tail_next c.tail_size h
          (length-replicate max_tail 0) r.next_in)

  pub tail-eq-window : (c : UsageCapture) → IsRing c → tail l c ≡ window c
  tail-eq-window c r = tail-of_body c c.body refl r

  pub tail-HasSeen :
      (c : UsageCapture) (sent : List ℕ)
      → HasSeen c sent
      → (tail l c ≡ take_last max_tail sent) × (c.tail_truncated ≡ ltb max_tail (length sent))
  tail-HasSeen c sent seen = (tail-eq-window c seen.ring ∙ seen.last, seen.cut)

-- After any reads of a stream into a ring of positive size, tail returns the last bytes of the
-- stream, as many as the ring holds, and tail_truncated is set exactly when the stream was longer.
pub tail-observe_all :
    (l : Limits) (ps : List (List ℕ))
    → 0 < l.max_tail
    → (tail l (observe_all l (new_capture true) ps) ≡ take_last l.max_tail (concat ps))
      × ((observe_all l (new_capture true) ps).tail_truncated ≡ ltb l.max_tail (length (concat ps)))
tail-observe_all l ps h =
    tail-HasSeen l _ (concat ps) (
      observe_all-HasSeen l ps (new_capture true) []
        (modify_response-HasSeen l true 0 false h refl))

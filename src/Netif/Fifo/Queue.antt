-- ===== src/Netif/Fifo/Queue.antt =====
-- The sections of fifo.c in any order keep the ring and answer as the queue does.
use scion_lwip_contrib.Base.{
  ℕ, ◌+◌, ◌≤◌, ◌<◌, ◌⊎◌, inl, inr, true, false, List, [], ◌∷◌, ◌++◌, some, length, length-append,
  ◌==◌, ==_iff, ne→==_false, if◌then◌else◌, ◌≡◌, refl, sym, subst, ap, ◌∙◌, arith, le→ltb_false,
  Bool-cases,
}
use scion_lwip_contrib.Netif.Fifo.{
  Fifo, fifo_init, wrap, read_into, take_byte, fifo_get_non_block, fifo_get, fifo_get_woken,
  put_room, put_bytes, put_checked, put_finish, fifo_put,
}
use scion_lwip_contrib.Netif.Fifo.Slots.{
  advance, Holds, advance_lem, advance-straight, advance-add, Holds-keeps, Holds-append,
  Holds-read_into,
}
use scion_lwip_contrib.Netif.Fifo.Runs.{
  FifoOp, get_non_block, get, woken, put, fifo_step, fifo_run, queue_get, queue_step, queue_run,
  Allowed, AreAllowed, IsRing,
}

taken : (f : Fifo) (b : ℕ) (q : List ℕ) → IsRing f (b ∷ q) → IsRing (take_byte f) q
unfolding take_byte wrap
taken f b q r = record {
  in_slots = (let i = r.in_slots in ground arith);
  holds = r.holds.1;
  end_ok = r.end_ok;
  len_ok = (let l = r.len_ok in omega arith);
  free = (let l = r.free in omega arith);
}

-- The slots are equal only where the queue is empty.
not_empty : (f : Fifo) (b : ℕ) (q : List ℕ) → IsRing f (b ∷ q) → (f.dataslot == f.emptyslot) ≡ false
not_empty f b q r =
    let free = r.free in
    let e = r.end_ok in
    let a = advance_lem (length (b ∷ q)) f.dataslot r.in_slots (omega arith) in
    ne→==_false f.dataslot f.emptyslot (λ s. ground arith)

is_empty : (f : Fifo) → IsRing f [] → (f.dataslot == f.emptyslot) ≡ true
is_empty f r = (==_iff f.dataslot f.emptyslot).1 (sym r.end_ok)

put_finish-IsRing :
    (f : Fifo) (q : List ℕ)
    → f.dataslot < 2048
    → Holds f.slots f.dataslot q
    → advance (length q) f.dataslot ≡ (if f.emptyslot == 2048 then 0 else f.emptyslot)
    → f.len ≡ length q
    → length q < 2048
    → IsRing (put_finish f) q
unfolding put_finish
put_finish-IsRing f q inside h e l free = elim (Bool-cases (f.emptyslot == 2048)) [
  | inl end ↦ rw end record {
    in_slots = inside;
    holds = h;
    end_ok =
        sym (subst (λ b. advance (length q) f.dataslot ≡ (if b then 0 else f.emptyslot)) end e);
    len_ok = l;
    free = free;
  }
  | inr more ↦
      (let e' : f.emptyslot ≡ advance (length q) f.dataslot =
          sym
            (subst (λ b. advance (length q) f.dataslot ≡ (if b then 0 else f.emptyslot)) more e) in
        elim (Bool-cases f.get_waiting) [
          | inl w ↦
              rw more rw w
                record { in_slots = inside; holds = h; end_ok = e'; len_ok = l; free = free }
          | inr w ↦
              rw more rw w
                record { in_slots = inside; holds = h; end_ok = e'; len_ok = l; free = free }
        ])
]

-- Where the bytes go: before the end of the slots, and not over the ones in use.
pub put_fits :
    (f : Fifo) (q bytes : List ℕ)
    → IsRing f q
    → length bytes ≤ put_room f
    → (f.emptyslot < 2048)
      × (f.emptyslot + length bytes ≤ 2048)
      × ((f.dataslot + length q ≤ f.emptyslot)
          ⊎ ((f.emptyslot + length bytes ≤ f.dataslot)
              × (f.dataslot + length q ≤ f.emptyslot + 2048)))
unfolding put_room
put_fits f q bytes r room =
    let e = r.end_ok in
    let free = r.free in
    let inside = r.in_slots in
    let a = advance_lem (length q) f.dataslot r.in_slots (omega arith) in
    (ground arith, ground arith, ground arith)

fifo_put-IsRing :
    (f : Fifo) (q bytes : List ℕ)
    → IsRing f q
    → Allowed f q (put bytes)
    → IsRing (fifo_put f bytes) (q ++ bytes)
unfolding fifo_put put_checked put_bytes
fifo_put-IsRing f q bytes r ok =
    let fits = put_fits f q bytes r ok.0 in
    let len = length-append q bytes in
    let l = r.len_ok in
    let d = read_into f.emptyslot bytes f.slots in
    rw (le→ltb_false 2048 (f.len + length bytes) (omega (arith, l, ok.1))) (
      put_finish-IsRing (put_bytes f bytes) (q ++ bytes) r.in_slots
        (Holds-append d q bytes f.dataslot
          (Holds-keeps bytes q f.emptyslot f.dataslot f.slots r.in_slots fits.1 fits.2 r.holds)
          (subst (λ i. Holds d i bytes) r.end_ok
            (Holds-read_into bytes f.emptyslot f.slots fits.1)))
        (ap (λ n. advance n f.dataslot) len
          ∙ advance-add (length q) (length bytes) f.dataslot
          ∙ ap (advance (length bytes)) (sym r.end_ok)
          ∙ advance-straight (length bytes) f.emptyslot fits.0 fits.1)
        (omega arith) (omega arith))

-- A get of either kind.
fifo_get_non_block-IsRing :
    (f : Fifo) (q : List ℕ)
    → IsRing f q
    → ((fifo_get_non_block f).0 ≡ (queue_get q).0) × IsRing (fifo_get_non_block f).1 (queue_get q).1
unfolding fifo_get_non_block
fifo_get_non_block-IsRing f [] r = rw (is_empty f r) (refl, r)
fifo_get_non_block-IsRing f (b ∷ q) r = rw (not_empty f b q r) (ap some r.holds.0, taken f b q r)

fifo_get-IsRing :
    (f : Fifo) (q : List ℕ)
    → IsRing f q
    → ((fifo_get f).0 ≡ (queue_get q).0) × IsRing (fifo_get f).1 (queue_get q).1
unfolding fifo_get
fifo_get-IsRing f [] r = rw (is_empty f r) (
  refl,
  record { in_slots = r.in_slots; holds = tt; end_ok = r.end_ok; len_ok = r.len_ok; free = r.free },
)
fifo_get-IsRing f (b ∷ q) r = rw (not_empty f b q r) (ap some r.holds.0, taken f b q r)

fifo_step-IsRing :
    (f : Fifo) (q : List ℕ) (op : FifoOp)
    → IsRing f q
    → Allowed f q op
    → ((fifo_step f op).0 ≡ (queue_step q op).0) × IsRing (fifo_step f op).1 (queue_step q op).1
unfolding fifo_step fifo_get_woken
fifo_step-IsRing f q get_non_block r ok = fifo_get_non_block-IsRing f q r
fifo_step-IsRing f q get r ok = fifo_get-IsRing f q r
fifo_step-IsRing f [] woken r ok = absurd (omega arith)
fifo_step-IsRing f (b ∷ q) woken r ok = (ap some r.holds.0, taken f b q r)
fifo_step-IsRing f q (put bytes) r ok = (refl, fifo_put-IsRing f q bytes r ok)

run_ring :
    (f : Fifo) (q : List ℕ) (ops : List FifoOp)
    → IsRing f q
    → AreAllowed f q ops
    → fifo_run f ops ≡ queue_run q ops
unfolding fifo_run
run_ring f q [] r ok = refl
run_ring f q (op ∷ ops) r ok =
    let s = fifo_step-IsRing f q op r ok.0 in
    rw s.0 rw (run_ring (fifo_step f op).1 (queue_step q op).1 ops s.1 ok.1) refl

pub fifo_init-IsRing : (slots : ℕ → ℕ) → IsRing (fifo_init slots) []
fifo_init-IsRing slots = record {
  in_slots = (omega arith);
  holds = tt;
  end_ok = refl;
  len_ok = refl;
  free = (omega arith);
}

-- The sections of fifoPut, fifoGet and fifoGetNonBlock, in any order from fifoInit on, answer as a first-in
-- first-out queue of bytes does, across the wrap of the slots; each `read` gives at most what it is asked for and
-- leaves at least one of the 2048 slots free, and a reader that has waited is woken only when there is a byte.
pub fifo_run-queue_run :
    (slots : ℕ → ℕ) (ops : List FifoOp)
    → AreAllowed (fifo_init slots) [] ops
    → fifo_run (fifo_init slots) ops ≡ queue_run [] ops
fifo_run-queue_run slots ops ok = run_ring (fifo_init slots) [] ops (fifo_init-IsRing slots) ok

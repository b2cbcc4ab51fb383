-- ===== src/Netif/Fifo/Full.antt =====
-- The full queue of fifo.c.
use scion_lwip_contrib.Base.{
  ℕ, ◌+◌, ◌≤◌, true, List, none, length, ◌==◌, ==_iff, Bool-cases, inl, inr, le→ltb_false,
  if◌then◌else◌, ◌≡◌, refl, sym, subst, ap, ◌∙◌, arith,
}
use scion_lwip_contrib.Netif.Fifo.{
  Fifo, fifo_get_non_block, put_room, put_bytes, put_checked, put_finish, fifo_put,
}
use scion_lwip_contrib.Netif.Fifo.Slots.{advance, advance_lem, advance-straight, advance-add}
use scion_lwip_contrib.Netif.Fifo.Queue.{put_fits}
use scion_lwip_contrib.Netif.Fifo.Runs.{IsRing}

finish_slots :
    (f : Fifo)
    → ((put_finish f).dataslot ≡ f.dataslot)
      × ((put_finish f).emptyslot ≡ (if f.emptyslot == 2048 then 0 else f.emptyslot))
unfolding put_finish
finish_slots f = elim (Bool-cases (f.emptyslot == 2048)) [
  | inl end ↦ rw end (refl, refl)
  | inr more ↦ elim (Bool-cases f.get_waiting) [
    | inl w ↦ rw more rw w (refl, refl)
    | inr w ↦ rw more rw w (refl, refl)
  ]
]

-- 2048 slots on is the same slot.
around : (i : ℕ) → i + 1 ≤ 2048 → advance 2048 i ≡ i
around i lt = let a = advance_lem 2048 i (omega arith) (omega arith) in ground arith

-- Where what `read` gives takes the last free slot of a queue in order, fifoGetNonBlock answers -1 next,
-- as it does on an empty queue.
pub fifo_put-full :
    (f : Fifo) (q bytes : List ℕ)
    → IsRing f q
    → length bytes ≤ put_room f
    → length q + length bytes ≡ 2048
    → fifo_get_non_block (fifo_put f bytes) ≡ (none, fifo_put f bytes)
unfolding fifo_get_non_block fifo_put put_checked put_bytes
fifo_put-full f q bytes r room full =
    let fits = put_fits f q bytes r room in
    let l = r.len_ok in
    let i = r.in_slots in
    let g = put_bytes f bytes in
    let checked : put_checked g ≡ g =
      rw (le→ltb_false 2048 (f.len + length bytes) (omega arith)) refl in
    let s = finish_slots g in
    let e = advance-straight (length bytes) f.emptyslot fits.0 fits.1 in
    let on : advance (length bytes) f.emptyslot ≡ f.dataslot =
      ap (advance (length bytes)) r.end_ok
      ∙ sym (advance-add (length q) (length bytes) f.dataslot)
      ∙ ap (λ n. advance n f.dataslot) full
      ∙ around f.dataslot (omega arith) in
    let same : ((put_finish (put_checked g)).dataslot == (put_finish (put_checked g)).emptyslot)
        ≡ true =
      subst (λ h. ((put_finish h).dataslot == (put_finish h).emptyslot) ≡ true) (sym checked)
        ((==_iff _ _).1 (s.0 ∙ sym on ∙ e ∙ sym s.1)) in
    rw same refl

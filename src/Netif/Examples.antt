-- ===== src/Netif/Examples.antt =====
-- Runs of the lists of ports/unix/netif/list.c.
use scion_lwip_contrib.Base.{
  ℕ, ◌+◌, ◌<◌, List, [], ◌∷◌, none, some, ne→==_false, ◌≡◌, refl, ◌≢◌, ◌⊎◌, inr, arith,
}
use scion_lwip_contrib.Netif.List.{Heap, load, list_new, list_push, list_pop, list_remove}
use scion_lwip_contrib.Netif.Queue.{
  ListOp, push, pop, remove, list_run, queue_push, queue_remove, queue_run,
}
use scion_lwip_contrib.Netif.Refine.{IsMalloc, RanOut, list_run-queue_run}

-- An allocator that never reuses an address: one above all the log's.
unfoldable above : Heap → ℕ
above [] = 0
above (w ∷ h) = w.0 + above h

abbrev next_address : Heap → ℕ
next_address h = above h + 1

load-above : (h : Heap) (p : ℕ) → above h < p → load h p ≡ none
unfolding load above
load-above [] p lt = refl
load-above (w ∷ h) p lt = rw (ne→==_false p w.0 (omega arith)) (load-above h p (omega arith))

next_address-IsMalloc : IsMalloc next_address
next_address-IsMalloc h = inr (load-above h (above h + 1) (omega arith))

next_address_not_null : (h : Heap) → next_address h ≢ 0
next_address_not_null h e = omega (arith, e)

-- A queue of two values; the third push is refused, the middle and the last node are removed.
abbrev calls : List ListOp
calls = push 7 ∷ push 8 ∷ push 9 ∷ remove 8 ∷ push 5 ∷ remove 6 ∷ pop ∷ pop ∷ pop ∷ push 4 ∷ []

abbrev answers : List ℕ
answers = 1 ∷ 1 ∷ 0 ∷ 1 ∷ 1 ∷ 0 ∷ 7 ∷ 5 ∷ 0 ∷ 1 ∷ []

queue_answers : queue_run 2 [] calls ≡ answers
unfolding queue_run queue_push queue_remove
queue_answers = refl

list_answers : list_run next_address [] (list_new 2) calls ≡ some answers
unfolding list_run above list_push load list_remove list_pop
list_answers = refl

list_run-queue_run_example :
    (list_run next_address [] (list_new 2) calls ≡ some (queue_run 2 [] calls))
    ⊎ RanOut next_address (list_run next_address [] (list_new 2) calls)
list_run-queue_run_example = list_run-queue_run next_address [] 2 calls next_address-IsMalloc

-- ===== src/Netif/Queue.antt =====
-- The queue that the lists of ports/unix/netif/list.c are to be, and the operations on either.
use scion_lwip_contrib.Base.{ℕ, List, [], ◌∷◌, ◌++◌, Option, some, length, ◌==◌, ltb, if◌then◌else◌}
use scion_lwip_contrib.Lwip.{◌>>=◌}
use scion_lwip_contrib.Netif.List.{Heap, LwipList, list_push, list_pop, list_remove}

pub data ListOp : Type 0 where
  push : ℕ → ListOp
  pop : ListOp
  remove : ℕ → ListOp

-- A call of the code: its answer, the list and the heap.
unfoldable pub list_step : (Heap → ℕ) → Heap → LwipList → ListOp → Option (ℕ × LwipList × Heap)
list_step malloc h l (push v) = list_push malloc h l v
list_step malloc h l pop = list_pop h l
list_step malloc h l (remove v) = list_remove h l v

-- The answers to calls in turn.
unfoldable pub list_run : (Heap → ℕ) → Heap → LwipList → List ListOp → Option (List ℕ)
unfolding list_step
list_run malloc h l [] = some []
list_run malloc h l (op ∷ ops) = do
  r ← list_step malloc h l op
  answers ← list_run malloc r.2 r.1 ops
  some (r.0 ∷ answers)

-- A bounded queue of values.
unfoldable pub queue_push : ℕ → List ℕ → ℕ → ℕ × List ℕ
queue_push size q v = if ltb (length q) size then (1, q ++ v ∷ []) else (0, q)

abbrev pub queue_pop : List ℕ → ℕ × List ℕ
queue_pop [] = (0, [])
queue_pop (v ∷ q) = (v, q)

-- The first of the equal values is removed.
unfoldable pub queue_remove : List ℕ → ℕ → ℕ × List ℕ
queue_remove [] v = (0, [])
queue_remove (w ∷ q) v =
    let rest = queue_remove q v in if w == v then (1, q) else (rest.0, w ∷ rest.1)

abbrev pub queue_step : ℕ → List ℕ → ListOp → ℕ × List ℕ
queue_step size q (push v) = queue_push size q v
queue_step size q pop = queue_pop q
queue_step size q (remove v) = queue_remove q v

unfoldable pub queue_run : ℕ → List ℕ → List ListOp → List ℕ
queue_run size q [] = []
queue_run size q (op ∷ ops) = let r = queue_step size q op in r.0 ∷ queue_run size r.1 ops

-- ===== src/Netif/Fifo/Runs.antt =====
-- The sections of fifo.c, the runs of them, and the queue that they are to be.
use scion_lwip_contrib.Base.{ℕ, ◌+◌, ◌≤◌, ◌<◌, List, [], ◌∷◌, ◌++◌, Option, none, some, length, ◌≡◌}
use scion_lwip_contrib.Netif.Fifo.{
  Fifo, fifo_get_non_block, fifo_get, fifo_get_woken, put_room, fifo_put,
}
use scion_lwip_contrib.Netif.Fifo.Slots.{advance, Holds}

-- The sections: `woken` is the rest of a `fifoGet` that has waited, `put` carries what `read` gives.
pub data FifoOp : Type 0 where
  get_non_block : FifoOp
  get : FifoOp
  woken : FifoOp
  put : List ℕ → FifoOp

-- Its answer is the byte of a get.
unfoldable pub fifo_step : Fifo → FifoOp → Option ℕ × Fifo
fifo_step f get_non_block = fifo_get_non_block f
fifo_step f get = fifo_get f
fifo_step f woken = fifo_get_woken f
fifo_step f (put bytes) = (none, fifo_put f bytes)

unfoldable pub fifo_run : Fifo → List FifoOp → List (Option ℕ)
unfolding fifo_step
fifo_run f [] = []
fifo_run f (op ∷ ops) = (fifo_step f op).0 ∷ fifo_run (fifo_step f op).1 ops

abbrev pub queue_get : List ℕ → Option ℕ × List ℕ
queue_get [] = (none, [])
queue_get (b ∷ q) = (some b, q)

abbrev pub queue_step : List ℕ → FifoOp → Option ℕ × List ℕ
queue_step q get_non_block = queue_get q
queue_step q get = queue_get q
queue_step q woken = queue_get q
queue_step q (put bytes) = (none, q ++ bytes)

abbrev pub queue_run : List ℕ → List FifoOp → List (Option ℕ)
queue_run q [] = []
queue_run q (op ∷ ops) = (queue_step q op).0 ∷ queue_run (queue_step q op).1 ops

-- What is assumed of a section: `read` gives at most what it is asked for and leaves a slot of the queue free, and
-- a reader is woken to find a byte.
abbrev pub Allowed : Fifo → List ℕ → FifoOp → Type 0
Allowed f q get_non_block = Unit {0}
Allowed f q get = Unit {0}
Allowed f q woken = 0 < length q
Allowed f q (put bytes) = (length bytes ≤ put_room f) × (length q + length bytes < 2048)

abbrev pub AreAllowed : Fifo → List ℕ → List FifoOp → Type 0
AreAllowed f q [] = Unit {0}
AreAllowed f q (op ∷ ops) = Allowed f q op × AreAllowed (fifo_step f op).1 (queue_step q op).1 ops

-- The ring of slots holds the queue.
pub record IsRing (f : Fifo) (q : List ℕ) : Type 0 where
  pub in_slots : f.dataslot < 2048
  pub holds : Holds f.slots f.dataslot q
  pub end_ok : f.emptyslot ≡ advance (length q) f.dataslot
  pub len_ok : f.len ≡ length q
  pub free : length q < 2048

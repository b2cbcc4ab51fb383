-- ===== src/Netif/Fifo/Examples.antt =====
-- Runs of fifo.c.
use scion_lwip_contrib.Base.{
  ℕ, ◌≤◌, List, [], ◌∷◌, Option, none, some, length, replicate, ◌≡◌, refl, arith,
}
use scion_lwip_contrib.Netif.Fifo.{
  fifo_init, fifo_get, fifo_get_woken, fifo_get_non_block, put_room, fifo_put,
}
use scion_lwip_contrib.Netif.Fifo.Queue.{fifo_init-IsRing, fifo_run-queue_run}
use scion_lwip_contrib.Netif.Fifo.Runs.{
  FifoOp, get_non_block, get, woken, put, fifo_step, fifo_run, queue_run, AreAllowed,
}
use scion_lwip_contrib.Netif.Fifo.Full.{fifo_put-full}

abbrev zeros : ℕ → ℕ
zeros k = 0

-- A reader waits, is woken by the first bytes, and the rest is read after more have come.
abbrev sections : List FifoOp
sections =
    get_non_block ∷ get ∷ put (5 ∷ 6 ∷ []) ∷ woken ∷ put (7 ∷ []) ∷ get ∷ get_non_block ∷ get ∷ []

abbrev bytes_read : List (Option ℕ)
bytes_read = none ∷ none ∷ none ∷ some 5 ∷ none ∷ some 6 ∷ some 7 ∷ none ∷ []

sections_allowed : AreAllowed (fifo_init zeros) [] sections
unfolding fifo_step fifo_get fifo_get_non_block fifo_get_woken fifo_put put_room
sections_allowed = (
  tt,
  (
    tt,
    ((omega arith, omega arith), (omega arith, ((omega arith, omega arith), (tt, (tt, (tt, tt)))))),
  ),
)

sections_read : queue_run [] sections ≡ bytes_read
sections_read = refl

fifo_run-queue_run_example : fifo_run (fifo_init zeros) sections ≡ queue_run [] sections
fifo_run-queue_run_example = fifo_run-queue_run zeros sections sections_allowed

abbrev many : List ℕ
many = replicate 2048 7

room_for_many : length many ≤ put_room (fifo_init zeros)
unfolding put_room
room_for_many = omega arith

fifo_put-full_example :
    fifo_get_non_block (fifo_put (fifo_init zeros) many) ≡ (none, fifo_put (fifo_init zeros) many)
fifo_put-full_example =
    fifo_put-full (fifo_init zeros) [] many (fifo_init-IsRing zeros) room_for_many (omega arith)

-- ===== src/Netif/Fifo.antt =====
-- ports/unix/netif/fifo.c: the bytes between the serial line's signal handler and its reader. The functions are
-- their critical sections between the waits for and the signals of `sem`.
pub mod Slots
pub mod Runs
pub mod Queue
pub mod Full
mod Examples
use scion_lwip_contrib.Base.{
  ℕ, ◌+◌, ◌-◌, Bool, true, false, List, [], ◌∷◌, Option, none, some, length, ◌==◌, ltb,
  if◌then◌else◌,
}

-- `FIFOSIZE`
abbrev pub fifo_size : ℕ
fifo_size = 2048

-- `fifo_t`, with the count of `getSem`
pub record Fifo : Type 0 where
  pub slots : ℕ → ℕ
  pub dataslot : ℕ
  pub emptyslot : ℕ
  pub len : ℕ
  pub get_sem : ℕ
  pub get_waiting : Bool

-- What `read` stores from slot `i` on.
unfoldable pub read_into : ℕ → List ℕ → (ℕ → ℕ) → ℕ → ℕ
read_into i [] d k = d k
read_into i (b ∷ bs) d k = if k == i then b else read_into (i + 1) bs d k

-- `fifoInit`
abbrev pub fifo_init : (ℕ → ℕ) → Fifo
fifo_init slots = record {
  slots = slots;
  dataslot = 0;
  emptyslot = 0;
  len = 0;
  get_sem = 0;
  get_waiting = false;
}

-- `if (fifo->dataslot == FIFOSIZE) fifo->dataslot = 0;`
unfoldable pub wrap : ℕ → ℕ
wrap slot = if slot == fifo_size then 0 else slot

-- The byte that `fifoGet` and `fifoGetNonBlock` take.
unfoldable pub take_byte : Fifo → Fifo
unfolding wrap
take_byte f = record f { dataslot = wrap (f.dataslot + 1); len = f.len - 1 }

-- `fifoGetNonBlock`; `none` is -1.
unfoldable pub fifo_get_non_block : Fifo → Option ℕ × Fifo
unfolding take_byte
fifo_get_non_block f =
    if f.dataslot == f.emptyslot then (none, f) else (some (f.slots f.dataslot), take_byte f)

-- `fifoGet` up to its end or its wait for `getSem`, where the answer is `none`.
unfoldable pub fifo_get : Fifo → Option ℕ × Fifo
unfolding take_byte
fifo_get f =
    if f.dataslot == f.emptyslot
    then (none, record f { get_waiting = true })
    else (some (f.slots f.dataslot), take_byte f)

-- `fifoGet` after its wait: it takes a byte without a look.
unfoldable pub fifo_get_woken : Fifo → Option ℕ × Fifo
unfolding take_byte
fifo_get_woken f = (some (f.slots f.dataslot), take_byte f)

-- How many bytes `fifoPut` asks `read` for.
unfoldable pub put_room : Fifo → ℕ
put_room f =
    if ltb f.emptyslot f.dataslot then f.dataslot - f.emptyslot else fifo_size - f.emptyslot

-- The bytes that `read` has given, with their count; a `read` that fails is not modelled.
unfoldable pub put_bytes : Fifo → List ℕ → Fifo
unfolding read_into
put_bytes f bytes = record f {
  slots = read_into f.emptyslot bytes f.slots;
  emptyslot = f.emptyslot + length bytes;
  len = f.len + length bytes;
}

-- An overrun flushes the queue.
unfoldable pub put_checked : Fifo → Fifo
put_checked f = if ltb fifo_size f.len then record f { dataslot = 0; emptyslot = 0; len = 0 } else f

-- Behind the end of the slots `fifoPut` leaves the section to call itself; else a waiting reader is woken.
unfoldable pub put_finish : Fifo → Fifo
put_finish f =
    if f.emptyslot == fifo_size
    then record f { emptyslot = 0 }
    else if f.get_waiting
    then record f { get_waiting = false; get_sem = f.get_sem + 1 }
    else f

-- One section of `fifoPut`, where `read` gives `bytes`; its call of itself is a further one.
unfoldable pub fifo_put : Fifo → List ℕ → Fifo
unfolding put_bytes put_checked put_finish
fifo_put f bytes = put_finish (put_checked (put_bytes f bytes))

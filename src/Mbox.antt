-- ===== src/Mbox.antt =====
-- ports/unix/sys_arch.c: semaphores, mailboxes, the time and the protection lock of the Unix port. A
-- mailbox's operations are the critical sections its mutex guards, so that a thread which has to wait
-- leaves the section and enters it again.
pub mod Fifo
pub mod Time
pub mod Protect
mod Examples
use scion_lwip_contrib.Base.{
  ℕ, ◌+◌, ◌-◌, ◌*◌, ◌/◌, ◌%◌, ◌^◌, Bool, true, false, not, Option, none, some, List, [], ◌∷◌, leb,
  ltb, ◌==◌, if◌then◌else◌, ◌||◌,
}
use scion_lwip_contrib.Lwip.{Err, ◌>>=◌}

-- `struct sys_sem`: its count.
pub record Sem : Type 0 where
  pub c : ℕ

pub sys_sem_new : ℕ → Sem
sys_sem_new count = record { c = count % 256 }

-- One look of `sys_arch_sem_wait` at the count: `none` while it has to wait.
pub sys_arch_sem_wait : Sem → Option Sem
sys_arch_sem_wait sem = if leb sem.c 0 then none else some (record { c = sem.c - 1 })

pub sys_sem_signal : Sem → Sem
sys_sem_signal sem = let c = sem.c + 1 in record { c = if ltb 1 c then 1 else c }

abbrev pub mbox_size : ℕ
mbox_size = 128

-- `struct sys_mbox`, but for its mutex. `first` and `last` are of type int and are never set back.
pub record Mbox {ℓ} (A : Type ℓ) : Type ℓ where
  pub first : ℕ
  pub last : ℕ
  pub msgs : ℕ → A
  pub not_empty : Sem
  pub not_full : Sem
  pub wait_send : ℕ

module _ {ℓ} {A : Type ℓ} where
  -- The mailbox that `sys_mbox_new` makes; `junk` is what `malloc` leaves in the slots.
  pub empty_mbox : (ℕ → A) → Mbox A
  unfolding sys_sem_new
  empty_mbox junk = record {
    first = 0;
    last = 0;
    msgs = junk;
    not_empty = sys_sem_new 0;
    not_full = sys_sem_new 0;
    wait_send = 0;
  }

  pub sys_mbox_new : Bool → (ℕ → A) → Option (Mbox A) × Err
  unfolding empty_mbox
  sys_mbox_new has_memory junk =
      if has_memory then (some (empty_mbox junk), Err.ok) else (none, Err.mem)

  is_full : Mbox A → Bool
  is_full mbox = leb (mbox.first + mbox_size) (mbox.last + 1)

  set_slot : ℕ → A → (ℕ → A) → ℕ → A
  set_slot i msg msgs j = if i == j then msg else msgs j

  -- The common end of `sys_mbox_trypost` and `sys_mbox_post`: the message is stored.
  enqueue : A → Mbox A → Mbox A
  unfolding set_slot sys_sem_signal
  enqueue msg mbox = record mbox {
    msgs = set_slot (mbox.last % mbox_size) msg mbox.msgs;
    last = mbox.last + 1;
    not_empty = if mbox.last == mbox.first then sys_sem_signal mbox.not_empty else mbox.not_empty;
  }

  pub sys_mbox_trypost : A → Mbox A → Mbox A × Err
  unfolding is_full enqueue
  sys_mbox_trypost msg mbox = if is_full mbox then (mbox, Err.mem) else (enqueue msg mbox, Err.ok)

  -- A look of `sys_mbox_post`'s loop: the message is stored, or (`false`) the thread has to wait on `not_full`.
  post_look : A → Mbox A → Mbox A × Bool
  unfolding is_full enqueue
  post_look msg mbox =
      if is_full mbox
      then (record mbox { wait_send = mbox.wait_send + 1 }, false)
      else (enqueue msg mbox, true)

  pub sys_mbox_post : A → Mbox A → Mbox A × Bool
  unfolding post_look
  sys_mbox_post msg mbox = post_look msg mbox

  -- The look after the wait.
  pub post_look_again : A → Mbox A → Mbox A × Bool
  unfolding post_look
  post_look_again msg mbox = post_look msg (record mbox { wait_send = mbox.wait_send - 1 })

  -- The common end of the two fetches.
  dequeue : Mbox A → Mbox A
  unfolding sys_sem_signal
  dequeue mbox = record mbox {
    first = mbox.first + 1;
    not_full = if ltb 0 mbox.wait_send then sys_sem_signal mbox.not_full else mbox.not_full;
  }

  head_of : Mbox A → A
  head_of mbox = mbox.msgs (mbox.first % mbox_size)

  -- `sys_arch_mbox_tryfetch`: `none` is SYS_MBOX_EMPTY. It is also each look of `sys_arch_mbox_fetch`,
  -- which waits on `not_empty` instead of giving up.
  pub sys_arch_mbox_tryfetch : Mbox A → Mbox A × Option A
  unfolding dequeue head_of
  sys_arch_mbox_tryfetch mbox =
      if mbox.first == mbox.last then (mbox, none) else (dequeue mbox, some (head_of mbox))

-- What the threads do to a mailbox, as the order of their critical sections.
pub data Op {ℓ} (A : Type ℓ) : Type ℓ where
  trypost : A → Op A
  post : A → Op A
  post_again : A → Op A
  fetch : Op A

pub data Answer {ℓ} (A : Type ℓ) : Type ℓ where
  tried : Err → Answer A
  posted : Bool → Answer A
  fetched : Option A → Answer A

module _ {ℓ} {A : Type ℓ} where
  -- `mbox->first + SYS_MBOX_SIZE` and `mbox->last + 1` of a post are beyond an int.
  overflows : Mbox A → Bool
  overflows mbox = leb (2 ^ 31) (mbox.first + mbox_size) || leb (2 ^ 31) (mbox.last + 1)

  guarded : Mbox A → Mbox A × Answer A → Option (Mbox A × Answer A)
  unfolding overflows
  guarded mbox r = if overflows mbox then none else some r

  -- `none` is the overflow of a counter, which C leaves undefined. A fetch counts `first` up to `last` at most.
  pub step : Op A → Mbox A → Option (Mbox A × Answer A)
  unfolding sys_mbox_trypost sys_mbox_post post_look_again sys_arch_mbox_tryfetch guarded
  step (Op.trypost msg) m = let r = sys_mbox_trypost msg m in guarded m (r.0, tried r.1)
  step (Op.post msg) m = let r = sys_mbox_post msg m in guarded m (r.0, posted r.1)
  step (Op.post_again msg) m = let r = post_look_again msg m in guarded m (r.0, posted r.1)
  step Op.fetch m = let r = sys_arch_mbox_tryfetch m in some (r.0, fetched r.1)

  pub run : List (Op A) → Mbox A → Option (List (Answer A))
  unfolding step
  run [] m = some []
  run (op ∷ ops) m = do r ← step op m; answers ← run ops r.0; some (r.1 ∷ answers)

-- `sys_now`, of the time of day and of the start time in seconds and microseconds.
pub sys_now : (now start : ℕ × ℕ) → ℕ
sys_now now start =
    let sec = (now.0 + (2 ^ 32 - start.0 % 2 ^ 32)) % 2 ^ 32 in
    let usec = (now.1 + (2 ^ 32 - start.1 % 2 ^ 32)) % 2 ^ 32 in (sec * 1000 + usec / 1000) % 2 ^ 32

-- `lwprot_thread` (`none` is 0xDEAD), `lwprot_count`, and whether `lwprot_mutex` is held. The count is an int; its
-- overflow, after 2^31 nested calls of one thread, is left out.
pub record Lwprot : Type 0 where
  pub thread : Option ℕ
  pub count : ℕ
  pub held : Bool

is_thread : ℕ → Option ℕ → Bool
is_thread self none = false
is_thread self (some t) = t == self

-- `sys_arch_protect` by thread `self`: `none` while it has to wait for the mutex.
pub sys_arch_protect : ℕ → Lwprot → Option Lwprot
unfolding is_thread
sys_arch_protect self l =
    if is_thread self l.thread
    then some (record l { count = l.count + 1 })
    else if l.held
    then none
    else some (record { thread = some self; count = 1; held = true })

pub sys_arch_unprotect : ℕ → Lwprot → Lwprot
unfolding is_thread
sys_arch_unprotect self l =
    let left : Lwprot = record l { count = l.count - 1 } in
    let freed : Lwprot = record { thread = none; count = 0; held = false } in
    if is_thread self l.thread then if l.count == 1 then freed else left else l

-- ===== src/Mbox/Examples.antt =====
-- Runs of the Unix port's mailboxes, clock and protection lock.
use scion_lwip_contrib.Base.{ℕ, ◌≤◌, ◌<◌, true, List, [], ◌∷◌, none, some, ◌≡◌, ◌≢◌, arith}
use scion_lwip_contrib.Mbox.{
  Op, posted, fetched, empty_mbox, run, sys_now, is_thread, sys_arch_protect, sys_arch_unprotect,
}
use scion_lwip_contrib.Mbox.Fifo.{mailbox_is_fifo}
use scion_lwip_contrib.Mbox.Time.{sys_now_leaps}
use scion_lwip_contrib.Mbox.Protect.{
  LockOp, protect, unprotect, lock_run, no_threads, protect_excludes,
}

abbrev two_messages : List (Op ℕ)
two_messages = Op.post 7 ∷ Op.post 8 ∷ Op.fetch ∷ Op.fetch ∷ Op.fetch ∷ []

mailbox_is_fifo_example :
    run two_messages (empty_mbox (λ i. 0))
    ≡ some (posted true ∷ posted true ∷ fetched (some 7) ∷ fetched (some 8) ∷ fetched none ∷ [])
mailbox_is_fifo_example = mailbox_is_fifo (λ i. 0) two_messages (omega arith)

sys_now_leaps_example : 4293600 ≤ sys_now (11, 100000) (10, 500000)
sys_now_leaps_example =
    sys_now_leaps 11 100000 10 500000 (omega arith) (omega arith) (omega arith) (omega arith)
      (omega arith)

-- Thread 1 enters twice and leaves once while thread 2 tries to enter.
abbrev contention : List LockOp
contention = protect 1 ∷ protect 2 ∷ protect 1 ∷ unprotect 1 ∷ protect 2 ∷ []

inside : 0 < (lock_run contention no_threads).depth 1
unfolding sys_arch_protect sys_arch_unprotect is_thread
inside = omega arith

differ : ◌≢◌ {A = ℕ} 1 2
differ e = omega (arith, e)

protect_excludes_example : (lock_run contention no_threads).depth 2 ≡ 0
protect_excludes_example = protect_excludes contention 1 2 differ inside

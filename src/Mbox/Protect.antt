-- ===== src/Mbox/Protect.antt =====
-- The protection lock of ports/unix/sys_arch.c under any interleaving of its threads.
use scion_lwip_contrib.Base.{
  ℕ, ◌+◌, ◌-◌, ◌<◌, Bool, true, false, List, [], ◌∷◌, Option, none, some, ◌==◌, ==_iff, ne→==_false,
  Bool-cases, inl, inr, if◌then◌else◌, ◌≡◌, ◌≢◌, ◌⊎◌, refl, ap, sym, ◌∙◌, arith,
}
use scion_lwip_contrib.Mbox.{Lwprot, is_thread, sys_arch_protect, sys_arch_unprotect}

pub data LockOp : Type 0 where
  protect : ℕ → LockOp
  unprotect : ℕ → LockOp

-- The lock, and of each thread how many of its calls to `sys_arch_protect` have returned and have had no
-- `sys_arch_unprotect` yet.
pub record Threads : Type 0 where
  pub lock : Lwprot
  pub depth : ℕ → ℕ

abbrev pub set_depth : ℕ → ℕ → (ℕ → ℕ) → ℕ → ℕ
set_depth t n depth u = if u == t then n else depth u

-- A thread that has to wait has not returned.
abbrev pub entered : ℕ → Threads → Option Lwprot → Threads
entered t s none = s
entered t s (some l) = record { lock = l; depth = set_depth t (s.depth t + 1) s.depth }

abbrev pub lock_step : LockOp → Threads → Threads
lock_step (protect t) s = entered t s (sys_arch_protect t s.lock)
lock_step (unprotect t) s = record {
  lock = sys_arch_unprotect t s.lock;
  depth = set_depth t (s.depth t - 1) s.depth;
}

abbrev pub lock_run : List LockOp → Threads → Threads
lock_run [] s = s
lock_run (op ∷ ops) s = lock_run ops (lock_step op s)

abbrev pub no_threads : Threads
no_threads = record { lock = record { thread = none; count = 0; held = false }; depth = λ t. 0 }

abbrev HeldBy : Option ℕ → ℕ → Bool → (ℕ → ℕ) → Type 0
HeldBy none count held depth = (held ≡ false) × ((u : ℕ) → depth u ≡ 0)
HeldBy (some t) count held depth =
    (held ≡ true) × (0 < count) × (depth t ≡ count) × ((u : ℕ) → u ≢ t → depth u ≡ 0)

abbrev Inv : Threads → Type 0
Inv s = HeldBy s.lock.thread s.lock.count s.lock.held s.depth

==_cases : (a b : ℕ) → ((a ≡ b) × ((a == b) ≡ true)) ⊎ ((a ≢ b) × ((a == b) ≡ false))
==_cases a b = elim (Bool-cases (a == b)) [
  | inl e ↦ inl ((==_iff a b).0 e, e)
  | inr e ↦ inr ((λ h. cc ((==_iff a b).1 h)), e)
]

set_depth_at : (t n : ℕ) (depth : ℕ → ℕ) (u : ℕ) → u ≡ t → set_depth t n depth u ≡ n
set_depth_at t n depth u e = rw ((==_iff u t).1 e) refl

set_depth_other : (t n : ℕ) (depth : ℕ → ℕ) (u : ℕ) → u ≢ t → set_depth t n depth u ≡ depth u
set_depth_other t n depth u ne = rw (ne→==_false u t ne) refl

-- An unprotect by a thread that is not inside changes no depth.
set_depth_none :
    (t : ℕ) (depth : ℕ → ℕ) (u : ℕ)
    → depth t ≡ 0
    → depth u ≡ 0
    → set_depth t (depth t - 1) depth u ≡ 0
set_depth_none t depth u out zero_u = elim (==_cases u t) [
  | inl e ↦ set_depth_at t _ depth u e.0 ∙ omega (arith, out)
  | inr e ↦ set_depth_other t _ depth u e.0 ∙ zero_u
]

several : (n : ℕ) → 0 < n → (n == 1) ≡ false → 0 < n - 1
several n pos more = ground arith

protect-Inv : (t : ℕ) (s : Threads) → Inv s → Inv (lock_step (protect t) s)
unfolding sys_arch_protect is_thread
protect-Inv t s inv = by_thread s.lock.thread s.lock.held inv
  where
    state : Option ℕ → Bool → Threads
    state x held = record s { lock = record { thread = x; count = s.lock.count; held = held } }

    by_thread :
        (x : Option ℕ) (held : Bool)
        → HeldBy x s.lock.count held s.depth
        → Inv (lock_step (protect t) (state x held))
    by_thread none true (free, zeros) = cc
    by_thread none false (free, zeros) = (
      refl,
      omega arith,
      set_depth_at t _ s.depth t refl ∙ omega (arith, zeros t),
      λ u ne. set_depth_other t _ s.depth u ne ∙ zeros u,
    )
    by_thread (some o) false (is_held, pos, own, others) = cc
    by_thread (some o) true (is_held, pos, own, others) = elim (==_cases o t) [
      | inl e ↦ rw e.1 (
        refl,
        omega arith,
        set_depth_at t _ s.depth o e.0 ∙ omega (arith, own, ap s.depth e.0),
        λ u ne. set_depth_other t _ s.depth u (λ h. ne (h ∙ sym e.0)) ∙ others u ne,
      )
      | inr e ↦ rw e.1 (refl, pos, own, others)
    ]

unprotect-Inv : (t : ℕ) (s : Threads) → Inv s → Inv (lock_step (unprotect t) s)
unfolding sys_arch_unprotect is_thread
unprotect-Inv t s inv = by_thread s.lock.thread inv
  where
    by_thread :
        (x : Option ℕ)
        → HeldBy x s.lock.count s.lock.held s.depth
        → Inv (lock_step (unprotect t) (record s { lock = record s.lock { thread = x } }))
    by_thread none (free, zeros) = (free, λ u. set_depth_none t s.depth u (zeros t) (zeros u))
    by_thread (some o) (is_held, pos, own, others) = elim (==_cases o t) [
      | inl e ↦ elim (Bool-cases (s.lock.count == 1)) [
        | inl one ↦
            rw (e.1, one)
              (
                refl,
                λ u. elim (==_cases u t) [
                  | inl h ↦
                      set_depth_at t _ s.depth u h.0
                      ∙ omega (arith, own, ap s.depth e.0, (==_iff s.lock.count 1).0 one)
                  | inr h ↦ set_depth_other t _ s.depth u h.0 ∙ others u (λ k. h.0 (k ∙ e.0))
                ],
              )
        | inr more ↦
            rw (e.1, more)
              (
                is_held,
                several s.lock.count pos more,
                set_depth_at t _ s.depth o e.0 ∙ omega (arith, own, ap s.depth e.0),
                λ u ne. set_depth_other t _ s.depth u (λ h. ne (h ∙ sym e.0)) ∙ others u ne,
              )
      ]
      | inr e ↦ rw e.1 (
        is_held,
        pos,
        set_depth_other t _ s.depth o e.0 ∙ own,
        λ u ne. set_depth_none t s.depth u (others t (λ h. e.0 (sym h))) (others u ne),
      )
    ]

lock_run-Inv : (ops : List LockOp) (s : Threads) → Inv s → Inv (lock_run ops s)
lock_run-Inv [] s inv = inv
lock_run-Inv (protect t ∷ ops) s inv =
    lock_run-Inv ops (lock_step (protect t) s) (protect-Inv t s inv)
lock_run-Inv (unprotect t ∷ ops) s inv =
    lock_run-Inv ops (lock_step (unprotect t) s) (unprotect-Inv t s inv)

-- After any interleaving of protects and unprotects from a free lock, where a thread has returned from a protect
-- that it has not undone, no other thread has.
pub protect_excludes :
    (ops : List LockOp) (t u : ℕ)
    → t ≢ u
    → 0 < (lock_run ops no_threads).depth t
    → (lock_run ops no_threads).depth u ≡ 0
protect_excludes ops t u ne inside =
    by_thread (lock_run ops no_threads).lock.thread (lock_run-Inv ops no_threads (refl, λ v. refl))
  where
    s : Threads
    s = lock_run ops no_threads

    by_thread : (x : Option ℕ) → HeldBy x s.lock.count s.lock.held s.depth → s.depth u ≡ 0
    by_thread none (free, zeros) = zeros u
    by_thread (some o) (is_held, pos, own, others) = elim (==_cases u o) [
      | inl e ↦ absurd (omega (arith, inside, others t (λ h. ne (h ∙ sym e.0))))
      | inr e ↦ others u e.0
    ]

-- ===== src/Sntp/Running.antt =====
-- apps/sntp/sntp.c: the timers and the retry delay of the running client, and what stopping it leaves.
use scion_lwip_contrib.Base.{
  ℕ, ◌+◌, ◌-◌, ◌≤◌, ◌<◌, Bool, true, false, List, [], ◌∷◌, some, ltb, ltb→lt, lt→ltb, Bool-cases,
  inl, inr, if◌then◌else◌, ◌≡◌, ◌≢◌, refl, subst, sym, arith,
}
use mathlib.Core.Option.{some-injective}
use scion_lwip_contrib.Lwip.{PbufReaders}
use scion_lwip_contrib.Sntp.{
  Handler, Timers, TimersLaws, Sntp, Answer, Verdict, answer, kiss_of_death, invalid, classify,
  next_retry_timeout, sntp_retry, sntp_send_request, sntp_request, sntp_process, finish_recv,
  sntp_recv, sntp_init, sntp_stop, unused, Event, packet, expires, call, step, run,
}

request≢retry : Handler.request ≢ Handler.retry
request≢retry e = cc

retry≢request : Handler.retry ≢ Handler.request
retry≢request e = cc

next_retry_timeout-within :
    (d : ℕ) → 3000 ≤ d → d ≤ 30000 → (3000 ≤ next_retry_timeout d) × (next_retry_timeout d ≤ 30000)
unfolding next_retry_timeout
next_retry_timeout-within d low high = ground arith

if_true : {A : Type 0} (x y : A) (b : Bool) → b ≡ true → (if b then x else y) ≡ x
if_true x y b e = rw e refl

module _ {T : Type 0} (ops : Timers T) (laws : TimersLaws ops) where
  abbrev pub total : T → ℕ
  total t = ops.pending t Handler.request + ops.pending t Handler.retry

  abbrev pub Runs : Sntp T → Type 0
  Runs s =
      (s.pcb ≡ true) × (total s.timers ≡ 1) × (3000 ≤ s.retry_timeout) × (s.retry_timeout ≤ 30000)

  -- A running client's variables between the removal of its timer and the next.
  abbrev Ready : Sntp T → Type 0
  Ready s =
      (s.pcb ≡ true) × (total s.timers ≡ 0) × (3000 ≤ s.retry_timeout) × (s.retry_timeout ≤ 30000)

  total-sys_timeout : (d : ℕ) (h : Handler) (t : T) → total (ops.sys_timeout d h t) ≡ total t + 1
  total-sys_timeout d Handler.request t = omega (
    arith,
    laws.timeout_self d Handler.request t,
    laws.timeout_ne d Handler.request Handler.retry t retry≢request,
  )
  total-sys_timeout d Handler.retry t = omega (
    arith,
    laws.timeout_self d Handler.retry t,
    laws.timeout_ne d Handler.retry Handler.request t request≢retry,
  )

  total-sys_untimeout :
      (h : Handler) (t : T) → 0 < ops.pending t h → total (ops.sys_untimeout h t) ≡ total t - 1
  total-sys_untimeout Handler.request t some_left = omega (
    arith,
    some_left,
    laws.untimeout_self Handler.request t,
    laws.untimeout_ne Handler.request Handler.retry t retry≢request,
  )
  total-sys_untimeout Handler.retry t some_left = omega (
    arith,
    some_left,
    laws.untimeout_self Handler.retry t,
    laws.untimeout_ne Handler.retry Handler.request t request≢retry,
  )

  -- `sntp_recv` takes off the one timer there is, whichever it is.
  total-both :
      (t : T)
      → total t ≡ 1
      → total (ops.sys_untimeout Handler.request (ops.sys_untimeout Handler.retry t)) ≡ 0
  total-both t one =
      let u = ops.sys_untimeout Handler.retry t in
      omega (
        arith,
        one,
        laws.untimeout_self Handler.retry t,
        laws.untimeout_ne Handler.retry Handler.request t request≢retry,
        laws.untimeout_self Handler.request u,
        laws.untimeout_ne Handler.request Handler.retry u retry≢request,
      )

  sntp_retry-Runs : (s : Sntp T) → Ready s → Runs (sntp_retry ops s)
  unfolding sntp_retry
  sntp_retry-Runs s (open_pcb, zero_timers, low, high) =
      let d = next_retry_timeout-within s.retry_timeout low high in
      (
        open_pcb,
        omega (arith, zero_timers, total-sys_timeout s.retry_timeout Handler.request s.timers),
        d.0,
        d.1,
      )

  sntp_request-Runs : (a : Answer) (s : Sntp T) → Ready s → Runs (sntp_request ops a s)
  unfolding sntp_request sntp_send_request
  sntp_request-Runs a s (open_pcb, zero_timers, low, high) = go a.is_address a.has_memory
    where
      by_timer : (h : Handler) → total (ops.sys_timeout 3000 h s.timers) ≡ 1
      by_timer h = omega (arith, zero_timers, total-sys_timeout 3000 h s.timers)

      go : (x y : Bool) → Runs (sntp_request ops (record { is_address = x; has_memory = y }) s)
      go true true = (open_pcb, by_timer Handler.retry, low, high)
      go true false = (open_pcb, by_timer Handler.request, low, high)
      go false y = (open_pcb, by_timer Handler.retry, low, high)

  finish_recv-Runs : (v : Verdict) (s : Sntp T) → Ready s → Runs (finish_recv ops v s)
  unfolding finish_recv sntp_process
  finish_recv-Runs (answer t) s (open_pcb, zero_timers, low, high) = (
    open_pcb,
    omega (arith, zero_timers, total-sys_timeout 3600000 Handler.request s.timers),
    omega arith,
    omega arith,
  )
  finish_recv-Runs kiss_of_death s ready = sntp_retry-Runs s ready
  finish_recv-Runs invalid s ready = sntp_retry-Runs s ready

  step-Runs : (pb : PbufReaders) (ev : Event) (s : Sntp T) → Runs s → Runs (step ops pb ev s)
  unfolding step sntp_recv call
  step-Runs pb (packet p) s (open_pcb, one, low, high) =
      subst Runs (sym (if_true _ _ s.pcb open_pcb)) (
        finish_recv-Runs (classify pb p)
          (record s {
            timers = ops.sys_untimeout Handler.request (ops.sys_untimeout Handler.retry s.timers);
          })
          (open_pcb, total-both s.timers one, low, high))
  step-Runs pb (expires h a) s (open_pcb, one, low, high) =
      elim (Bool-cases (ltb 0 (ops.pending s.timers h))) [
        | inl due ↦
            rw due
              (called h (total-sys_untimeout h s.timers (ltb→lt 0 (ops.pending s.timers h) due)))
        | inr none_due ↦ rw none_due (open_pcb, one, low, high)
      ]
    where
      called :
          (g : Handler)
          → total (ops.sys_untimeout g s.timers) ≡ total s.timers - 1
          → Runs (call ops g a (record s { timers = ops.sys_untimeout g s.timers }))
      called Handler.request e =
          sntp_request-Runs a (record s { timers = ops.sys_untimeout Handler.request s.timers })
            (open_pcb, omega (arith, e, one), low, high)
      called Handler.retry e =
          sntp_retry-Runs (record s { timers = ops.sys_untimeout Handler.retry s.timers })
            (open_pcb, omega (arith, e, one), low, high)

  run-Runs : (pb : PbufReaders) (evs : List Event) (s : Sntp T) → Runs s → Runs (run ops pb evs s)
  unfolding run
  run-Runs pb [] s runs = runs
  run-Runs pb (ev ∷ evs) s runs = run-Runs pb evs (step ops pb ev s) (step-Runs pb ev s runs)

  -- With timers that keep what lwIP documents, from a successful `sntp_init` with no timer pending on, and after any packets and expired timers, exactly one of the
  -- client's timers is pending, so that it neither stops asking nor asks twice at a time; the retry delay is
  -- between 3 and 30 seconds, and the pcb is open.
  pub sntp_one_timer :
      (pb : PbufReaders) (a : Answer) (idle : T) (evs : List Event) (s : Sntp T)
      → total idle ≡ 0
      → sntp_init ops true a (unused idle) ≡ some s
      → Runs (run ops pb evs s)
  unfolding sntp_init unused
  sntp_one_timer pb a idle evs s zero_timers started = run-Runs pb evs s (
      rw (sym (some-injective _ _ started)) (
        sntp_request-Runs a (record (unused idle) { retry_timeout = 3000; pcb = true })
          (refl, zero_timers, omega arith, omega arith)))

  -- With such timers, if the client is stopped while it waits for a response, with the timer of `sntp_retry` pending, that
  -- timer stays: when it and the request it sets have expired, a request is sent with a pcb that is NULL.
  pub sntp_stop_leaves_timer :
      (pb : PbufReaders) (a b : Answer) (s : Sntp T)
      → s.pcb ≡ true
      → ops.pending s.timers Handler.retry ≡ 1
      → b.is_address ≡ true
      → b.has_memory ≡ true
      → (run ops pb
          (expires Handler.retry a ∷ expires Handler.request b ∷ [])
          (sntp_stop ops s)).sent
        ≡ false ∷ s.sent
  unfolding sntp_stop run step call sntp_request sntp_send_request sntp_retry
  sntp_stop_leaves_timer pb a b s is_open waits is_address has_memory =
      let u = ops.sys_untimeout Handler.request s.timers in
      let v = ops.sys_untimeout Handler.retry u in
      let left : 0 < ops.pending u Handler.retry =
        omega
          (arith, waits, laws.untimeout_ne Handler.request Handler.retry s.timers retry≢request) in
      let set : 0
          < ops.pending (ops.sys_timeout s.retry_timeout Handler.request v) Handler.request =
        omega (arith, laws.timeout_self s.retry_timeout Handler.request v) in
      rw
        (
          is_open,
          lt→ltb 0 (ops.pending u Handler.retry) left,
          lt→ltb 0 (ops.pending (ops.sys_timeout s.retry_timeout Handler.request v) Handler.request)
              set,
          is_address,
          has_memory,
        )
        refl

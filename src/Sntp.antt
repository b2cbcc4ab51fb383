-- ===== src/Sntp.antt =====
-- apps/sntp/sntp.c in its default configuration: one server given by its address, no check of the
-- response's origin, and a retry delay that doubles. lwIP's timers are the parameter `Timers`.
pub mod Running
mod Examples
use scion_lwip_contrib.Base.{
  ℕ, zero, suc, ◌+◌, ◌-◌, ◌*◌, ◌%◌, ◌^◌, Bool, true, false, ◌&&◌, ◌||◌, List, [], ◌∷◌, Option, none,
  some, Bytes, length, get_or, leb, ltb, ◌==◌, if◌then◌else◌, ◌≡◌, ◌≢◌,
}
use scion_lwip_contrib.Lwip.{Err, PbufReaders}

-- The functions that are given to `sys_timeout`; `sntp_try_next_server` is `sntp_retry`.
pub data Handler : Type 0 where
  request retry : Handler

-- lwIP's `sys_timeout` and `sys_untimeout`; `pending` counts a handler's timers.
pub record Timers (T : Type 0) : Type 0 where
  pub sys_timeout : ℕ → Handler → T → T
  pub sys_untimeout : Handler → T → T
  pub pending : T → Handler → ℕ

-- `sys_timeout` adds a timer, and `sys_untimeout` removes one, if there is one.
pub record TimersLaws {T : Type 0} (ops : Timers T) : Type 0 where
  pub timeout_self :
      (d : ℕ) (h : Handler) (t : T) → ops.pending (ops.sys_timeout d h t) h ≡ ops.pending t h + 1
  pub timeout_ne :
      (d : ℕ) (h g : Handler) (t : T)
      → g ≢ h
      → ops.pending (ops.sys_timeout d h t) g ≡ ops.pending t g
  pub untimeout_self :
      (h : Handler) (t : T) → ops.pending (ops.sys_untimeout h t) h ≡ ops.pending t h - 1
  pub untimeout_ne :
      (h g : Handler) (t : T) → g ≢ h → ops.pending (ops.sys_untimeout h t) g ≡ ops.pending t g

abbrev pub sntp_recv_timeout : ℕ
sntp_recv_timeout = 3000

abbrev pub sntp_retry_timeout_max : ℕ
sntp_retry_timeout_max = 30000

abbrev pub sntp_update_delay : ℕ
sntp_update_delay = 3600000

-- The module's variables, and what it did: of each `udp_sendto`, whether `sntp_pcb` was not NULL, and the
-- time last given to SNTP_SET_SYSTEM_TIME.
pub record Sntp (T : Type 0) : Type 0 where
  pub pcb : Bool
  pub retry_timeout : ℕ
  pub timers : T
  pub sent : List Bool
  pub system_time : Option ℕ

-- What the outside answers to one `sntp_request`: whether `ipaddr_aton` reads the address, and whether
-- `pbuf_alloc` returns memory.
pub record Answer : Type 0 where
  pub is_address : Bool
  pub has_memory : Bool

-- `ntohl` of the four bytes of the timestamp's seconds.
ntohl : Bytes → ℕ
ntohl b = ((get_or b 0 0 * 256 + get_or b 1 0) * 256 + get_or b 2 0) * 256 + get_or b 3 0

-- From 1900 to 1970, in a 64-bit `time_t`, negative times as their two's complement.
unix_time : ℕ → ℕ
unix_time seconds = (seconds + 2 ^ 64 - 2208988800) % 2 ^ 64

-- How `sntp_recv` takes a packet: `err`, and the receive timestamp with ERR_OK.
pub data Verdict : Type 0 where
  answer : ℕ → Verdict
  kiss_of_death : Verdict
  invalid : Verdict

pub classify : PbufReaders → Bytes → Verdict
unfolding ntohl
classify pb p =
    let mode = get_or (pb.copy_partial p 1 0) 0 0 % 8 in
    let stratum = get_or (pb.copy_partial p 1 1) 0 0 in
    if length p == 48
    then if (mode == 4) || (mode == 5)
      then if stratum == 0 then kiss_of_death else answer (ntohl (pb.copy_partial p 4 32))
      else invalid
    else invalid

-- The delay of the next retry.
pub next_retry_timeout : ℕ → ℕ
next_retry_timeout old =
    let new = old * 2 % 2 ^ 32 in if leb new sntp_retry_timeout_max && ltb old new then new else old

module _ {T : Type 0} (ops : Timers T) where
  sntp_retry : Sntp T → Sntp T
  unfolding next_retry_timeout
  sntp_retry s = record s {
    timers = ops.sys_timeout s.retry_timeout Handler.request s.timers;
    retry_timeout = next_retry_timeout s.retry_timeout;
  }

  sntp_send_request : Bool → Sntp T → Sntp T
  sntp_send_request has_memory s =
      if has_memory
      then record s {
        sent = s.pcb ∷ s.sent;
        timers = ops.sys_timeout sntp_recv_timeout Handler.retry s.timers;
      }
      else record s { timers = ops.sys_timeout sntp_recv_timeout Handler.request s.timers }

  sntp_request : Answer → Sntp T → Sntp T
  unfolding sntp_send_request
  sntp_request a s =
      if a.is_address
      then sntp_send_request a.has_memory s
      else record s { timers = ops.sys_timeout sntp_recv_timeout Handler.retry s.timers }

  sntp_process : ℕ → Sntp T → Sntp T
  unfolding unix_time
  sntp_process receive_timestamp s = record s { system_time = some (unix_time receive_timestamp) }

  finish_recv : Verdict → Sntp T → Sntp T
  unfolding sntp_retry sntp_process
  finish_recv (answer timestamp) s =
      let reset : Sntp T = record s { retry_timeout = sntp_recv_timeout } in
      let now = sntp_process timestamp reset in
      record now { timers = ops.sys_timeout sntp_update_delay Handler.request now.timers }
  finish_recv kiss_of_death s = sntp_retry s
  finish_recv invalid s = sntp_retry s

  sntp_recv : PbufReaders → Bytes → Sntp T → Sntp T
  unfolding classify finish_recv
  sntp_recv pb p s =
      let timers = ops.sys_untimeout Handler.request (ops.sys_untimeout Handler.retry s.timers) in
      finish_recv (classify pb p) (record s { timers = timers })

  -- `sntp_init`; the first flag tells whether `udp_new` returns a pcb, and LWIP_ASSERT stops the program.
  pub sntp_init : Bool → Answer → Sntp T → Option (Sntp T)
  unfolding sntp_request
  sntp_init has_pcb a s =
      let started = sntp_request a (record s { retry_timeout = sntp_recv_timeout; pcb = true }) in
      if s.pcb then some s else if has_pcb then some started else none

  pub sntp_stop : Sntp T → Sntp T
  sntp_stop s =
      if s.pcb
      then record s { timers = ops.sys_untimeout Handler.request s.timers; pcb = false }
      else s

-- The module's variables before it is first used.
pub unused : {T : Type 0} → T → Sntp T
unused t = record { pcb = false; retry_timeout = 0; timers = t; sent = []; system_time = none }

-- What calls the module while it runs: a packet arrives, or a timer of a handler expires.
pub data Event : Type 0 where
  packet : Bytes → Event
  expires : Handler → Answer → Event

module _ {T : Type 0} (ops : Timers T) where
  call : Handler → Answer → Sntp T → Sntp T
  unfolding sntp_request sntp_retry
  call Handler.request a s = sntp_request ops a s
  call Handler.retry a s = sntp_retry ops s

  -- lwIP takes an expired timer off its list before it calls the handler; no packet arrives without a pcb.
  step : PbufReaders → Event → Sntp T → Sntp T
  unfolding sntp_recv call
  step pb (packet p) s = if s.pcb then sntp_recv ops pb p s else s
  step pb (expires h a) s =
      let rest : Sntp T = record s { timers = ops.sys_untimeout h s.timers } in
      if ltb 0 (ops.pending s.timers h) then call h a rest else s

  pub run : PbufReaders → List Event → Sntp T → Sntp T
  unfolding step
  run pb [] s = s
  run pb (ev ∷ evs) s = run pb evs (step pb ev s)

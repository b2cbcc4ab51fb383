-- ===== src/Mbox/Time.antt =====
-- The clock of ports/unix/sys_arch.c.
use scion_lwip_contrib.Base.{ℕ, ◌+◌, ◌-◌, ◌*◌, ◌/◌, ◌^◌, ◌≤◌, ◌<◌, ◌≡◌, arith}
use scion_lwip_contrib.Mbox.{sys_now}

-- For a start and a time of day in seconds and microseconds, less than 4,294,000 seconds apart and with
-- microseconds not below the start's, `sys_now` is the elapsed milliseconds.
pub sys_now_lem :
    (sec usec start_sec start_usec : ℕ)
    → start_sec ≤ sec
    → sec < 2 ^ 32
    → sec < start_sec + 4294000
    → start_usec ≤ usec
    → usec < 1000000
    → sys_now (sec, usec) (start_sec, start_usec)
      ≡ (sec - start_sec) * 1000 + (usec - start_usec) / 1000
unfolding sys_now
sys_now_lem sec usec ss su a b c d e = omega arith

-- With microseconds below the start's, `sys_now` is at least 4,293 seconds ahead of the elapsed
-- milliseconds, up to 1,000 seconds after the start.
pub sys_now_leaps :
    (sec usec start_sec start_usec : ℕ)
    → start_sec < sec
    → sec < 2 ^ 32
    → sec < start_sec + 1000
    → usec < start_usec
    → start_usec < 1000000
    → (sec - start_sec) * 1000 - (start_usec - usec) / 1000 + 4293000
      ≤ sys_now (sec, usec) (start_sec, start_usec)
unfolding sys_now
sys_now_leaps sec usec ss su a b c d e = omega arith

-- ===== src/Httpd/Write.antt =====
-- apps/httpserver_raw/httpd.c: `http_write`, and what the server sees of TCP.
pub mod Prefix
use scion_lwip_contrib.Base.{
  ℕ, zero, suc, ◌+◌, ◌/◌, Bool, true, false, ◌&&◌, ◌||◌, Option, Bytes, take, ◌++◌, ◌==◌, ltb,
  if◌then◌else◌,
}
use scion_lwip_contrib.Lwip.{Err}

-- What lwIP answers during one callback, where k counts the calls of `tcp_write` on the connection so far:
-- to the next write, of n bytes, to `tcp_sndbuf`, to `tcp_sndqueuelen(pcb) >= TCP_SND_QUEUELEN`,
-- to `tcp_mss` and to `tcp_close`.
pub record Tcp : Type 0 where
  pub write : ℕ → ℕ → Err
  pub sndbuf : ℕ → ℕ
  pub queue_full : ℕ → Bool
  pub mss : ℕ
  pub close : Err

-- The bytes that `tcp_write` has accepted on a connection, and how often it was called.
pub record Pcb : Type 0 where
  pub sent : Bytes
  pub writes : ℕ

-- `err == ERR_MEM`
abbrev pub is_mem : Err → Bool
is_mem Err.mem = true
is_mem _ = false

-- What `http_write` returns, with the `*length` that it leaves.
pub record Written : Type 0 where
  pub err : Err
  pub len : ℕ
  pub pcb : Pcb

-- One `tcp_write` with its result, and the length for the next one.
unfoldable pub finish_write : Tcp → Pcb → Bytes → ℕ → Err → Written
finish_write tcp pcb ptr len Err.ok = record {
  err = Err.ok;
  len = len;
  pcb = record { sent = pcb.sent ++ take len ptr; writes = pcb.writes + 1 };
}
finish_write tcp pcb ptr len Err.mem = record {
  err = Err.mem;
  len = if tcp.sndbuf (pcb.writes + 1) == 0 || tcp.queue_full (pcb.writes + 1) then 1 else len / 2;
  pcb = record pcb { writes = pcb.writes + 1 };
}
finish_write tcp pcb ptr len err = record {
  err = err;
  len = len;
  pcb = record pcb { writes = pcb.writes + 1 };
}

unfoldable pub write_once : Tcp → Pcb → Bytes → ℕ → Written
unfolding finish_write
write_once tcp pcb ptr len = finish_write tcp pcb ptr len (tcp.write pcb.writes len)

-- The do-while loop, with fuel.
unfoldable pub write_loop : ℕ → Tcp → Pcb → Bytes → ℕ → Written
write_loop zero tcp pcb ptr len = write_once tcp pcb ptr len
write_loop (suc fuel) tcp pcb ptr len =
    let tried = write_once tcp pcb ptr len in
    let again = write_loop fuel tcp tried.pcb ptr tried.len in
    if is_mem tried.err && ltb 1 tried.len then again else tried

-- `http_write(pcb, ptr, &len, ...)`
unfoldable pub http_write : Tcp → Pcb → Bytes → ℕ → Written
unfolding write_loop write_once
http_write tcp pcb ptr len =
    if len == 0 then record { err = Err.ok; len = 0; pcb = pcb } else write_loop len tcp pcb ptr len

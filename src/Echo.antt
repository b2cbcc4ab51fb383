-- ===== src/Echo.antt =====
-- apps/tcpecho_raw/echo.c: the TCP echo server on the raw API. A pbuf chain is the list of its pbufs'
-- payloads, so the empty list is NULL; `pbuf_ref` and `pbuf_free` only keep its memory.
pub mod Loop
pub mod Inv
pub mod Order
mod Examples
use scion_lwip_contrib.Base.{
  ℕ, ◌+◌, Bool, true, false, List, [], ◌∷◌, ◌++◌, Option, none, some, Bytes, length, leb,
  if◌then◌else◌,
}
use scion_lwip_contrib.Lwip.{Err, is_ok}

-- `enum echo_states`
pub data EchoStates : Type 0 where
  es_none accepted received closing : EchoStates

-- `struct echo_state`, but for `pcb`.
pub record EchoState : Type 0 where
  pub state : EchoStates
  pub retries : ℕ
  pub p : List Bytes

-- A connection: `es` is the pcb's argument; `echoed` all bytes that `tcp_write` took; `window` the sum
-- of the lengths given to `tcp_recved`; `is_closed` whether `tcp_close` was called, `is_aborted`
-- whether `tcp_abort` was.
pub record Conn : Type 0 where
  pub es : Option EchoState
  pub echoed : Bytes
  pub window : ℕ
  pub is_closed : Bool
  pub is_aborted : Bool

-- What lwIP answers in one round of `echo_send`: to `tcp_sndbuf` and to `tcp_write`.
pub record Answer : Type 0 where
  pub sndbuf : ℕ
  pub write : Err

pub record Sent : Type 0 where
  pub left : List Bytes
  pub conn : Conn

-- The loop of `echo_send`, from round `i` on.
pub send_loop : (ℕ → Answer) → ℕ → List Bytes → Conn → Sent
send_loop ans i [] c = record { left = []; conn = c }
send_loop ans i (b ∷ rest) c =
    let stop : Sent = record { left = b ∷ rest; conn = c } in
    let more =
      send_loop ans (i + 1) rest
        (record c { echoed = c.echoed ++ b; window = c.window + length b }) in
    if leb (length b) (ans i).sndbuf then if is_ok (ans i).write then more else stop else stop

pub echo_send : (ℕ → Answer) → EchoState → Conn → Conn
unfolding send_loop
echo_send ans es c =
    let w = send_loop ans 0 es.p c in record w.conn { es = some (record es { p = w.left }) }

-- `echo_close`: the callbacks and the argument are taken off, and the state is freed.
pub echo_close : Conn → Conn
echo_close c = record c { es = none; is_closed = true }

-- `echo_accept`; the flag tells whether `mem_malloc` returns memory.
pub echo_accept : Bool → Conn × Err
echo_accept has_memory =
    let idle : Conn = record {
      es = none;
      echoed = [];
      window = 0;
      is_closed = false;
      is_aborted = false;
    } in
    if has_memory
    then (
      record idle { es = some (record { state = EchoStates.accepted; retries = 0; p = [] }) },
      Err.ok,
    )
    else (idle, Err.mem)

chain_len : List Bytes → ℕ
chain_len [] = 0
chain_len (b ∷ bs) = length b + chain_len bs

-- Data that is thrown away: `tcp_recved`, `es->p = NULL`, `pbuf_free`.
trash : List Bytes → EchoState → Conn → Conn
unfolding chain_len
trash p es c = record c { es = some (record es { p = [] }); window = c.window + chain_len p }

-- `echo_recv` on data, by the state.
pub recv_data : EchoStates → (ℕ → Answer) → List Bytes → EchoState → Conn → Conn
unfolding echo_send trash
recv_data EchoStates.accepted ans p es c =
    echo_send ans (record es { state = EchoStates.received; p = p }) c
recv_data EchoStates.received ans p es c = elim es.p [
  | [] ↦ echo_send ans (record es { p = p }) c
  | b ∷ bs ↦ record c { es = some (record es { p = (b ∷ bs) ++ p }) }
]
recv_data EchoStates.closing ans p es c = trash p es c
recv_data EchoStates.es_none ans p es c = trash p es c

-- `echo_recv` with the connection's state; the empty `p` is NULL.
unfoldable pub echo_recv : (ℕ → Answer) → List Bytes → Err → EchoState → Conn → Conn × Err
unfolding echo_close echo_send recv_data
echo_recv ans [] err es c =
    let es' = record es { state = EchoStates.closing } in
    (elim es.p [ [] ↦ echo_close c | b ∷ bs ↦ echo_send ans es' c ], Err.ok)
echo_recv ans (q ∷ p) err es c =
    if is_ok err
    then (recv_data es.state ans (q ∷ p) es c, Err.ok)
    else (record c { es = some (record es { p = [] }) }, err)

-- `echo_error`: the pcb is gone, and the state is freed.
unfoldable pub echo_error : Conn → Conn
echo_error c = record c { es = none }

-- Nothing is left to send: the connection is closed if the peer has closed.
close_if_done : EchoStates → EchoState → Conn → Conn
unfolding echo_close
close_if_done EchoStates.closing es c = echo_close c
close_if_done _ es c = record c { es = some es }

pub send_or_close : (ℕ → Answer) → EchoState → Conn → Conn
unfolding echo_send close_if_done
send_or_close ans es c = elim es.p [
  | [] ↦ close_if_done es.state es c
  | b ∷ bs ↦ echo_send ans es c
]

unfoldable pub echo_poll : (ℕ → Answer) → Option EchoState → Conn → Conn × Err
unfolding send_or_close
echo_poll ans none c = (record c { is_aborted = true }, Err.abrt)
echo_poll ans (some es) c = (send_or_close ans es c, Err.ok)

unfoldable pub echo_sent : (ℕ → Answer) → EchoState → Conn → Conn × Err
unfolding send_or_close
echo_sent ans es c = (send_or_close ans (record es { retries = 0 }) c, Err.ok)

-- The callbacks of one connection. `incoming` is data received with ERR_OK, `fin` the end of the
-- peer's data. An `echo_recv` with another error and `echo_error`, which free the pending chain, are left out.
pub data Event : Type 0 where
  incoming : (ℕ → Answer) → Bytes → List Bytes → Event
  fin : (ℕ → Answer) → Event
  acked : (ℕ → Answer) → Event
  polled : (ℕ → Answer) → Event

-- A callback on a connection whose state is freed finds no callback installed.
pub step : Event → Conn → Conn
step ev c = elim c.es [
  | none ↦ c
  | some es ↦ elim ev [
    | incoming ans q p ↦ (echo_recv ans (q ∷ p) Err.ok es c).0
    | fin ans ↦ (echo_recv ans [] Err.ok es c).0
    | acked ans ↦ (echo_sent ans es c).0
    | polled ans ↦ (echo_poll ans (some es) c).0
  ]
]

pub run : List Event → Conn → Conn
run [] c = c
run (ev ∷ evs) c = run evs (step ev c)

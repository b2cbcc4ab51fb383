-- ===== src/Smtp/Types.antt =====
-- apps/smtp/smtp.c, smtp.h: the state of a mail session, of its connection and of the settings.
use scion_lwip_contrib.Base.{ℕ, ◌%◌, Bool, List, Option, Bytes}
use scion_lwip_contrib.Lwip.{Err}

-- `enum smtp_session_state`
pub data SessionState : Type 0 where
  null helo auth_plain auth_login_uname auth_login_pass auth_login : SessionState
  mail rcpt dat body quit closed : SessionState

-- The number of a state, by which the code compares two states.
abbrev pub state_num : SessionState → ℕ
state_num null = 0
state_num helo = 1
state_num auth_plain = 2
state_num auth_login_uname = 3
state_num auth_login_pass = 4
state_num auth_login = 5
state_num mail = 6
state_num rcpt = 7
state_num dat = 8
state_num body = 9
state_num quit = 10
state_num closed = 11

-- The values `SMTP_RESULT_*` that the callback is given.
pub data MailResult : Type 0 where
  ok err_unknown err_connect err_hostname err_closed err_timeout err_svr_resp : MailResult

-- The poll counts `SMTP_TIMEOUT_DATABLOCK`, `SMTP_TIMEOUT_DATATERM` and `SMTP_TIMEOUT`, with
-- `SMTP_POLL_INTERVAL` 4.
abbrev pub timeout_datablock : ℕ
timeout_datablock = 360

abbrev pub timeout_dataterm : ℕ
timeout_dataterm = 1200

abbrev pub smtp_timeout : ℕ
smtp_timeout = 240

abbrev pub tx_buf_len_max : ℕ
tx_buf_len_max = 255

abbrev pub max_servername_len : ℕ
max_servername_len = 256

abbrev pub max_username_len : ℕ
max_username_len = 32

abbrev pub max_pass_len : ℕ
max_pass_len = 32

-- `struct smtp_session`. A C string with its length field is a list of bytes. `username` and `pass`
-- are indices into `auth_plain`; `p` is the received data, `none` for the null pointer; `callback`
-- tells whether `callback_fn` is set.
pub record Session : Type 0 where
  pub state : SessionState
  pub timer : ℕ
  pub tx_buf : Bytes
  pub p : Option Bytes
  pub sender : Bytes
  pub to : Bytes
  pub subject : Bytes
  pub text : Bytes
  pub body_sent : ℕ
  pub callback : Bool
  pub username : ℕ
  pub pass : ℕ
  pub auth_plain : Bytes
  pub auth_plain_len : ℕ

-- A call of `callback_fn`.
pub record Outcome : Type 0 where
  pub result : MailResult
  pub srv_err : ℕ
  pub err : Err

-- The connection as the callbacks see it: `session` is the pcb's argument (`none` for NULL), `sent`
-- all bytes that `tcp_write` took, `outcomes` the calls of the user's callback, `is_closed` whether
-- `tcp_close` succeeded.
pub record Client : Type 0 where
  pub session : Option Session
  pub sent : Bytes
  pub outcomes : List Outcome
  pub is_closed : Bool

-- What lwIP answers during one callback: to `tcp_write` of a command, of a part of the body and of
-- the end of the body, to `tcp_sndbuf`, `tcp_close`, `tcp_connect`, and `ip_ntoa` of the local address.
pub record Replies : Type 0 where
  pub write_command : Err
  pub write_body : Err
  pub write_end : Err
  pub sndbuf : ℕ
  pub close : Err
  pub connect : Err
  pub local_ip : Bytes

-- The conversion to `u16_t`.
abbrev pub u16 : ℕ → ℕ
u16 n = n % 65536

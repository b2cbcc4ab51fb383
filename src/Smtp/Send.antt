-- ===== src/Smtp/Send.antt =====
-- apps/smtp/smtp.c: the settings, and the start of a mail. `none` is a fault: a null pointer that is
-- read, a write outside an array, or a failed assertion.
pub mod Login
pub mod Copied
pub mod Start
use scion_lwip_contrib.Base.{
  ℕ, ◌+◌, ◌-◌, ◌%◌, ◌^◌, Bool, true, false, not, ◌&&◌, List, [], ◌∷◌, ◌++◌, Option, none, some,
  Bytes, codes, copy_to, length, take, drop, replicate, ltb, leb, min, if◌then◌else◌,
}
use scion_lwip_contrib.Lwip.{Err, is_ok, ◌>>=◌, ◌>>◌, lwip_assert}
use scion_lwip_contrib.Smtp.Types.{
  SessionState, MailResult, smtp_timeout, max_servername_len, max_username_len, max_pass_len,
  Session, Outcome,
}
use scion_lwip_contrib.Smtp.Verify.{smtp_verify}

-- The static variables. `username` and `pass` are indices into `auth_plain`, `none` for NULL.
pub record Settings : Type 0 where
  pub server : Bytes
  pub server_port : ℕ
  pub username : Option ℕ
  pub pass : Option ℕ
  pub auth_plain : Bytes
  pub auth_plain_len : ℕ

-- Static variables start at zero; the port at `SMTP_DEFAULT_PORT`.
abbrev pub initial_settings : Settings
initial_settings = record {
  server = replicate 257 0;
  server_port = 25;
  username = none;
  pass = none;
  auth_plain = replicate 67 0;
  auth_plain_len = 0;
}

-- A C string; `none` is NULL.
abbrev pub CString : Type 0
CString = Option Bytes

-- `smtp_set_server_addr`: `memcpy` of the name without its terminator.
unfoldable pub smtp_set_server_addr : CString → Settings → Option Settings
smtp_set_server_addr none g = some g
smtp_set_server_addr (some name) g = do
  server ← copy_to g.server 0 (take (min (length name) max_servername_len) name)
  some (record g { server = server })

unfoldable pub smtp_set_server_port : ℕ → Settings → Settings
smtp_set_server_port port g = record g { server_port = port }

-- `strlen`, with 0 for NULL.
abbrev pub len_or_zero : CString → ℕ
len_or_zero none = 0
len_or_zero (some s) = length s

-- `strcpy(&buf[i], s)`, which faults on NULL.
unfoldable pub strcpy : Bytes → ℕ → CString → Option Bytes
strcpy buf i none = none
strcpy buf i (some s) = copy_to buf i (s ++ 0 ∷ [])

-- `smtp_set_auth`, behind its `memset` and its checks.
unfoldable pub store_auth : CString → CString → Settings → Option (Settings × Err)
unfolding strcpy
store_auth username pass g = do
  a₀ ← copy_to g.auth_plain 0 (0 ∷ [])
  a₁ ← strcpy a₀ 1 username
  a₂ ← strcpy a₁ (len_or_zero username + 2) pass
  some (
    record g {
      username = some 1;
      pass = some (len_or_zero username + 2);
      auth_plain = a₂;
      auth_plain_len = len_or_zero username + len_or_zero pass + 2;
    },
    Err.ok,
  )

unfoldable pub smtp_set_auth : CString → CString → Settings → Option (Settings × Err)
unfolding store_auth
smtp_set_auth username pass g = do
  cleared ← copy_to g.auth_plain 0 (replicate 64 0xfa)
  let g' = record g { auth_plain = cleared }
  if ltb max_username_len (len_or_zero username)
      then some (g', Err.arg)
      else if ltb max_pass_len (len_or_zero pass)
      then some (g', Err.arg)
      else store_auth username pass g'

-- What lwIP answers while a mail is started: whether `tcp_new` and `mem_malloc` return memory, and the
-- results of `dns_gethostbyname` and `tcp_connect`.
pub record StartReplies : Type 0 where
  pub has_memory : Bool
  pub has_pcb : Bool
  pub dns : Err
  pub connect : Err

-- How a start ends: its result; the session, where the connection goes on with it; whether `mem_free` was
-- called for the session's memory.
pub record Started : Type 0 where
  pub err : Err
  pub session : Option Session
  pub freed : Bool

-- `n` bytes of an array from `i` on; `none` is a read past its end.
unfoldable pub read_bytes : Bytes → ℕ → ℕ → Option Bytes
read_bytes buf i n = if leb (i + n) (length buf) then some (take n (drop i buf)) else none

-- `smtp_auth_plain_len - 1` as a `size_t` of 64 bits.
abbrev pub auth_copied : Settings → ℕ
auth_copied g = (g.auth_plain_len + (2 ^ 64 - 1)) % 2 ^ 64

-- `memcpy(s->auth_plain + 1, smtp_auth_plain + 1, smtp_auth_plain_len - 1)`, and the indices.
unfoldable pub copy_auth : Settings → Session → Option Session
unfolding read_bytes
copy_auth g s = do
  data_bytes ← read_bytes g.auth_plain 1 (auth_copied g)
  bytes ← copy_to s.auth_plain 1 data_bytes
  some (record s {
    auth_plain = bytes;
    auth_plain_len = g.auth_plain_len;
    username = elim g.username [ none ↦ 0 | some i ↦ i ];
    pass = elim g.pass [ none ↦ 0 | some i ↦ i ];
  })

-- The checks of `SMTP_CHECK_DATA`, in the source's order.
unfoldable pub checks_pass : Session → Bool
checks_pass s =
    if is_ok (smtp_verify s.to false)
    then if is_ok (smtp_verify s.sender false)
      then if is_ok (smtp_verify s.subject false) then is_ok (smtp_verify s.text false) else false
      else false
    else false

-- Before the session's memory is there, and behind the label `leave`, where it is freed.
abbrev not_started : Err → Started
not_started e = record { err = e; session = none; freed = false }

abbrev failed_start : Err → Started
failed_start e = record { err = e; session = none; freed = true }

-- The name lookup of a session that is set up, and the connection where the address is known at once.
unfoldable pub connect_or_wait : StartReplies → Session → Started
connect_or_wait r live =
    let going : Started = record { err = Err.ok; session = some live; freed = false } in
    elim r.dns [
      | Err.ok ↦ if is_ok r.connect then going else failed_start r.connect
      | Err.inprogress ↦ going
      | _ ↦ failed_start r.dns
    ]

unfoldable pub smtp_send_mail_alloced : StartReplies → Settings → Session → Option Started
unfolding copy_auth checks_pass connect_or_wait
smtp_send_mail_alloced r g s =
    if not (checks_pass s)
    then some (record { err = Err.arg; session = none; freed = false })
    else if not r.has_pcb
    then some (failed_start Err.mem)
    else (do
      s' ← copy_auth g s
      some (connect_or_wait r (record s' { state = SessionState.null; timer = smtp_timeout })))

-- `memset(s, 0, sizeof(struct smtp_session))`, with pointers to the four texts.
abbrev pub new_session : Bytes → Bytes → Bytes → Bytes → Bool → Session
new_session sender to subject text callback = record {
  state = SessionState.null;
  timer = 0;
  tx_buf = replicate 256 0;
  p = none;
  sender = sender;
  to = to;
  subject = subject;
  text = text;
  body_sent = 0;
  callback = callback;
  username = 0;
  pass = 0;
  auth_plain = replicate 67 0;
  auth_plain_len = 0;
}

-- `struct smtp_send_request`; the strings are not NULL.
pub record Request : Type 0 where
  pub sender : Bytes
  pub to : Bytes
  pub subject : Bytes
  pub text : Bytes
  pub callback : Bool
  pub static_data : Bool

-- The `len` bytes that a pointer to offset `i` of a block of memory stands for.
abbrev pub text_at : Bytes → ℕ → ℕ → Bytes
text_at block i len = take len (drop i block)

-- The memory behind the struct, where `smtp_send_mail` puts the four strings with their NULs, and the session whose
-- pointers lead there.
unfoldable pub copied_session : ℕ → Request → Option Session
copied_session session_size q = do
  let sender = session_size
  let to = sender + length q.sender + 1
  let subject = to + length q.to + 1
  let text = subject + length q.subject + 1
  let zeroed = replicate (text + length q.text + 1) 0
  with_sender ← copy_to zeroed sender (q.sender ++ 0 ∷ [])
  with_to ← copy_to with_sender to (q.to ++ 0 ∷ [])
  with_subject ← copy_to with_to subject (q.subject ++ 0 ∷ [])
  block ← copy_to with_subject text (q.text ++ 0 ∷ [])
  some (
      new_session (text_at block sender (length q.sender)) (text_at block to (length q.to))
        (text_at block subject (length q.subject)) (text_at block text (length q.text)) q.callback)

-- `smtp_send_mail`. `session_size` is `sizeof(struct smtp_session)`, which depends on the machine.
unfoldable pub smtp_send_mail : ℕ → StartReplies → Settings → Request → Option Started
unfolding smtp_send_mail_alloced copied_session
smtp_send_mail session_size r g q =
    let mem_len =
      session_size + (length q.sender + length q.to + length q.subject + length q.text + 4) in
    if ltb 0xffff mem_len
    then some (not_started Err.mem)
    else if not r.has_memory
    then some (not_started Err.mem)
    else (do s ← copied_session session_size q; smtp_send_mail_alloced r g s)

-- `smtp_send_mail_static`
unfoldable pub smtp_send_mail_static : StartReplies → Settings → Request → Option Started
unfolding smtp_send_mail_alloced
smtp_send_mail_static r g q = if not r.has_memory then some (not_started Err.mem) else (do
  lwip_assert (leb (length q.sender) 0xffff)
  lwip_assert (leb (length q.to) 0xffff)
  lwip_assert (leb (length q.subject) 0xffff)
  lwip_assert (leb (length q.text) 0xffff)
  smtp_send_mail_alloced r g (new_session q.sender q.to q.subject q.text q.callback))

-- `smtp_send_mail_int`: the start of the mail, with the calls of the user's callback.
unfoldable pub smtp_send_mail_int :
    ℕ → StartReplies → Settings → Request → Option (Started × List Outcome)
unfolding smtp_send_mail smtp_send_mail_static
smtp_send_mail_int session_size r g q = do
  started ← if q.static_data then smtp_send_mail_static r g q else smtp_send_mail session_size r g q
  if not (is_ok started.err) && q.callback
      then some
          (started, record { result = MailResult.err_unknown; srv_err = 0; err = started.err } ∷ [])
      else some (started, [])

-- ===== src/Smtp/Prepare.antt =====
-- apps/smtp/smtp.c: the functions `smtp_prepare_*`, which write the next command to `tx_buf` and
-- return its length with the next state. `none` is a failed `LWIP_ASSERT` or a write outside `tx_buf`.
pub mod Commands
pub mod Keeps
pub mod Header
use scion_lwip_contrib.Base.{
  ℕ, zero, suc, ◌+◌, ◌-◌, Bool, not, ◌&&◌, true, false, [], ◌∷◌, ◌++◌, Option, none, some, Bytes,
  codes, c_string, contains, copy_to, length, drop, ◌==◌, leb, ltb, if◌then◌else◌,
}
use scion_lwip_contrib.Lwip.{PbufReaders, not_found, ◌>>=◌, ◌>>◌, lwip_assert}
use scion_lwip_contrib.Smtp.Types.{Session, SessionState, tx_buf_len_max, u16}
use scion_lwip_contrib.Smtp.Base64.{smtp_base64_encode}

-- A session whose command is ready, the command's length and the next state.
pub record Prepared : Type 0 where
  pub session : Session
  pub tx_len : ℕ
  pub next_state : SessionState

-- `memcpy(&s->tx_buf[i], bytes, n)`
unfoldable pub put : Session → ℕ → Bytes → Option Session
put s i bytes = do buf ← copy_to s.tx_buf i bytes; some (record s { tx_buf = buf })

unfoldable pub smtp_prepare_helo : Bytes → Session → Option Prepared
unfolding put
smtp_prepare_helo ipa s = do
  lwip_assert (leb (length ipa) 0xffff)
  let tx_len = u16 (6 + length ipa + 3)
  lwip_assert (leb tx_len tx_buf_len_max)
  s₁ ← put s 0 (codes "EHLO [")
  s₂ ← put s₁ 6 ipa
  s₃ ← put s₂ (6 + length ipa) (codes "]\r\n")
  some (record { session = s₃; tx_len = tx_len; next_state = SessionState.helo })

unfoldable pub smtp_prepare_mail : Session → Option Prepared
unfolding put
smtp_prepare_mail s = do
  let tx_len = u16 (12 + 3 + length s.sender)
  lwip_assert (leb tx_len tx_buf_len_max)
  s₀ ← put s tx_len (0 ∷ [])
  s₁ ← put s₀ 0 (codes "MAIL FROM: <")
  s₂ ← put s₁ 12 s.sender
  s₃ ← put s₂ (12 + length s.sender) (codes ">\r\n")
  some (record { session = s₃; tx_len = tx_len; next_state = SessionState.mail })

unfoldable pub smtp_prepare_rcpt : Session → Option Prepared
unfolding put
smtp_prepare_rcpt s = do
  let tx_len = u16 (10 + 3 + length s.to)
  lwip_assert (leb tx_len tx_buf_len_max)
  s₀ ← put s tx_len (0 ∷ [])
  s₁ ← put s₀ 0 (codes "RCPT TO: <")
  s₂ ← put s₁ 10 s.to
  s₃ ← put s₂ (10 + length s.to) (codes ">\r\n")
  some (record { session = s₃; tx_len = tx_len; next_state = SessionState.rcpt })

unfoldable pub smtp_prepare_header : Session → Option Prepared
unfolding put
smtp_prepare_header s = do
  let tx_len = u16 (7 + 8 + 12 + 4 + length s.sender + length s.to + length s.subject)
  lwip_assert (leb tx_len tx_buf_len_max)
  s₀ ← put s tx_len (0 ∷ [])
  s₁ ← put s₀ 0 (codes "From: <")
  s₂ ← put s₁ 7 s.sender
  s₃ ← put s₂ (7 + length s.sender) (codes ">\r\nTo: <")
  s₄ ← put s₃ (15 + length s.sender) s.to
  s₅ ← put s₄ (15 + length s.sender + length s.to) (codes ">\r\nSubject: ")
  s₆ ← put s₅ (27 + length s.sender + length s.to) s.subject
  s₇ ← put s₆ (27 + length s.sender + length s.to + length s.subject) (codes "\r\n\r\n")
  some (record { session = s₇; tx_len = tx_len; next_state = SessionState.body })

-- The `case(SMTP_RCPT)` of `smtp_process` writes its command itself.
unfoldable pub prepare_data : Session → Option Prepared
unfolding put
prepare_data s = do
  s₁ ← put s 0 (codes "DATA\r\n")
  some (record { session = s₁; tx_len = 6; next_state = SessionState.dat })

unfoldable pub smtp_prepare_quit : Session → Option Prepared
unfolding put
smtp_prepare_quit s = do
  s₀ ← put s 6 (0 ∷ [])
  s₁ ← put s₀ 0 (codes "QUIT\r\n")
  lwip_assert (leb 6 tx_buf_len_max)
  some (record { session = s₁; tx_len = 6; next_state = SessionState.closed })

-- The common body of `smtp_prepare_auth_login_uname` and `smtp_prepare_auth_login_pass`.
unfoldable pub prepare_login : Bytes → SessionState → Session → Option Prepared
unfolding put
prepare_login secret next s = do
  encoded ← smtp_base64_encode tx_buf_len_max secret
  s₁ ← put s 0 encoded
  lwip_assert (leb (length encoded) 0xffff)
  lwip_assert (leb (length encoded + 2) tx_buf_len_max)
  let tx_len = u16 (u16 (length encoded) + 2)
  s₂ ← put s₁ (length encoded) (codes "\r\n")
  s₃ ← put s₂ tx_len (0 ∷ [])
  some (record { session = s₃; tx_len = tx_len; next_state = next })

unfoldable pub smtp_prepare_auth_login_uname : Session → Option Prepared
unfolding prepare_login c_string
smtp_prepare_auth_login_uname s =
    prepare_login (c_string (drop s.username s.auth_plain)) SessionState.auth_login_pass s

unfoldable pub smtp_prepare_auth_login_pass : Session → Option Prepared
unfolding prepare_login c_string
smtp_prepare_auth_login_pass s =
    prepare_login (c_string (drop s.pass s.auth_plain)) SessionState.auth_login s

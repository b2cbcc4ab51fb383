-- ===== src/Smtp/Auth.antt =====
-- apps/smtp/smtp.c: `smtp_prepare_auth_or_mail`, which chooses the login by the server's EHLO reply.
pub mod Overflow
pub mod Keeps
use scion_lwip_contrib.Base.{
  ℕ, zero, ◌+◌, ◌-◌, Bool, not, ◌&&◌, [], ◌∷◌, Option, none, some, Bytes, c_string, contains, codes,
  length, take, drop, ◌==◌, leb, ltb, if◌then◌else◌,
}
use scion_lwip_contrib.Lwip.{PbufReaders, not_found, ◌>>=◌, ◌>>◌, lwip_assert}
use scion_lwip_contrib.Smtp.Types.{Session, SessionState, tx_buf_len_max, u16}
use scion_lwip_contrib.Smtp.Base64.{smtp_base64_encode}
use scion_lwip_contrib.Smtp.Prepare.{Prepared, put, smtp_prepare_mail}

-- The branch that sends "AUTH PLAIN" with the encoded "\0username\0password".
pub prepare_auth_plain : Session → Option Prepared
unfolding put
prepare_auth_plain s = do
  s₁ ← put s 0 (codes "AUTH PLAIN ")
  encoded ← smtp_base64_encode (tx_buf_len_max - 11) (take s.auth_plain_len s.auth_plain)
  s₂ ← put s₁ 11 encoded
  lwip_assert (leb (length encoded) 0xffff)
  let tx_len = u16 (11 + 2 + length encoded)
  lwip_assert (leb tx_len tx_buf_len_max)
  s₃ ← put s₂ (11 + length encoded) (codes "\r\n")
  some (record { session = s₃; tx_len = tx_len; next_state = SessionState.auth_plain })

-- The branch that sends "AUTH LOGIN".
pub prepare_auth_login : Session → Option Prepared
unfolding put
prepare_auth_login s = do
  s₁ ← put s 0 (codes "AUTH LOGIN\r\n")
  some (record { session = s₁; tx_len = 12; next_state = SessionState.auth_login_uname })

-- The choice by the parameters behind the keyword, which stand in `tx_buf` from index 5 on.
pub prepare_by_method : Session → Option Prepared
unfolding prepare_auth_plain prepare_auth_login c_string contains
prepare_by_method s =
    let sep = c_string (drop 5 s.tx_buf) in
    if contains (codes "PLAIN") sep
    then prepare_auth_plain s
    else if contains (codes "LOGIN") sep
    then prepare_auth_login s
    else smtp_prepare_mail s

module _ (pb : PbufReaders) where
  -- The index of the keyword: "AUTH ", or else "AUTH=".
  unfoldable pub find_auth : Bytes → ℕ
  find_auth p =
      let auth = pb.strstr p (codes "AUTH ") in
      if auth == not_found then pb.strstr p (codes "AUTH=") else auth

  -- With the keyword at `auth` and its line's end at `crlf`: the line is copied to `tx_buf`.
  unfoldable pub copy_auth_line : Bytes → ℕ → ℕ → Session → Option Prepared
  unfolding put prepare_by_method
  copy_auth_line p auth crlf s = do
    let line = pb.copy_partial p (crlf - auth) auth
    s₁ ← put s 0 line
    if length line == 0
        then smtp_prepare_mail s₁
        else (do s₂ ← put s₁ (length line) (0 ∷ []); prepare_by_method s₂)

  unfoldable pub auth_or_mail : Bytes → Session → Option Prepared
  unfolding find_auth copy_auth_line
  auth_or_mail p s =
      let auth = find_auth p in
      let crlf = pb.memfind p (codes "\r\n") auth in
      if not (auth == not_found)
      then if not (crlf == not_found) && ltb auth crlf
        then copy_auth_line p auth crlf s
        else smtp_prepare_mail s
      else smtp_prepare_mail s

  -- A null `s->p` has no keyword.
  unfoldable pub smtp_prepare_auth_or_mail : Session → Option Prepared
  unfolding auth_or_mail
  smtp_prepare_auth_or_mail s = elim s.p [ none ↦ smtp_prepare_mail s | some p ↦ auth_or_mail p s ]

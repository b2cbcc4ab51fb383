-- ===== src/Smtp/Prepare/Keeps.antt =====
-- The functions `smtp_prepare_*` change nothing of the session but `tx_buf`, and keep its size.
use scion_lwip_contrib.Base.{
  ℕ, ◌+◌, [], ◌∷◌, some, Bytes, codes, copy_to, overwrite, length-overwrite, length, ◌≡◌, arith,
}
use scion_lwip_contrib.Lwip.{bind-eq-some}
use scion_lwip_contrib.Smtp.Types.{Session, SessionState, u16, tx_buf_len_max}
use scion_lwip_contrib.Smtp.Base64.{smtp_base64_encode}
use scion_lwip_contrib.Smtp.Prepare.{
  Prepared, put, smtp_prepare_helo, smtp_prepare_mail, smtp_prepare_rcpt, prepare_login,
  smtp_prepare_auth_login_uname, smtp_prepare_auth_login_pass,
}

pub record Kept (s t : Session) : Type 0 where
  pub same : t ≡ record s { tx_buf = t.tx_buf }
  pub size : length t.tx_buf ≡ length s.tx_buf

-- The session is kept, and the next state is this one.
pub record Ready (s : Session) (next : SessionState) (r : Prepared) : Type 0 where
  pub kept : Kept s r.session
  pub next_is : r.next_state ≡ next

module _ (s : Session) {t : Session} (k : Kept s t) where
  pub put-Kept : (i : ℕ) (ys : Bytes) {u : Session} → put t i ys ≡ some u → Kept s u
  unfolding put copy_to
  put-Kept i ys e = ground (arith, length-overwrite i ys t.tx_buf)

pub helo-Ready :
    (ipa : Bytes) (s : Session) {r : Prepared}
    → smtp_prepare_helo ipa s ≡ some r
    → Ready s SessionState.helo r
unfolding smtp_prepare_helo copy_to
helo-Ready ipa s e = ground (
  arith,
  length-overwrite 0 (codes "EHLO [") s.tx_buf,
  length-overwrite 6 ipa (overwrite 0 (codes "EHLO [") s.tx_buf),
  length-overwrite (6 + length ipa) (codes "]\r\n")
      (overwrite 6 ipa (overwrite 0 (codes "EHLO [") s.tx_buf)),
)

pub mail-Ready :
    (s : Session) {r : Prepared} → smtp_prepare_mail s ≡ some r → Ready s SessionState.mail r
unfolding smtp_prepare_mail copy_to
mail-Ready s e =
    let b0 = overwrite (u16 (12 + 3 + length s.sender)) (0 ∷ []) s.tx_buf in
    let b1 = overwrite 0 (codes "MAIL FROM: <") b0 in
    let b2 = overwrite 12 s.sender b1 in
    ground (
      arith,
      length-overwrite (u16 (12 + 3 + length s.sender)) (0 ∷ []) s.tx_buf,
      length-overwrite 0 (codes "MAIL FROM: <") b0,
      length-overwrite 12 s.sender b1,
      length-overwrite (12 + length s.sender) (codes ">\r\n") b2,
    )

pub rcpt-Ready :
    (s : Session) {r : Prepared} → smtp_prepare_rcpt s ≡ some r → Ready s SessionState.rcpt r
unfolding smtp_prepare_rcpt copy_to
rcpt-Ready s e =
    let b0 = overwrite (u16 (10 + 3 + length s.to)) (0 ∷ []) s.tx_buf in
    let b1 = overwrite 0 (codes "RCPT TO: <") b0 in
    let b2 = overwrite 10 s.to b1 in
    ground (
      arith,
      length-overwrite (u16 (10 + 3 + length s.to)) (0 ∷ []) s.tx_buf,
      length-overwrite 0 (codes "RCPT TO: <") b0,
      length-overwrite 10 s.to b1,
      length-overwrite (10 + length s.to) (codes ">\r\n") b2,
    )

pub prepare_login-Ready :
    (secret : Bytes) (next : SessionState) (s : Session) {r : Prepared}
    → prepare_login secret next s ≡ some r
    → Ready s next r
unfolding prepare_login copy_to
prepare_login-Ready secret next s e =
    let (encoded, coded, rest) = bind-eq-some (smtp_base64_encode tx_buf_len_max secret) _ e in
    let b₀ = overwrite 0 encoded s.tx_buf in
    let b₁ = overwrite (length encoded) (codes "\r\n") b₀ in
    ground (
      arith,
      rest,
      length-overwrite 0 encoded s.tx_buf,
      length-overwrite (length encoded) (codes "\r\n") b₀,
      length-overwrite (u16 (u16 (length encoded) + 2)) (0 ∷ []) b₁,
    )

pub uname-Ready :
    (s : Session) {r : Prepared}
    → smtp_prepare_auth_login_uname s ≡ some r
    → Ready s SessionState.auth_login_pass r
uname-Ready s e =
    unfold smtp_prepare_auth_login_uname in prepare_login-Ready _ SessionState.auth_login_pass s e

pub pass-Ready :
    (s : Session) {r : Prepared}
    → smtp_prepare_auth_login_pass s ≡ some r
    → Ready s SessionState.auth_login r
pass-Ready s e =
    unfold smtp_prepare_auth_login_pass in prepare_login-Ready _ SessionState.auth_login s e

-- ===== src/Smtp/Prepare/Header.antt =====
-- A header, DATA or QUIT that is prepared is exactly that command, and the session is kept.
use scion_lwip_contrib.Base.{
  ◌+◌, ◌≤◌, [], ◌∷◌, Option, some, Bytes, codes, copy_to, overwrite, length-overwrite, length, take,
  ◌≡◌, refl, subst, arith,
}
use scion_lwip_contrib.Smtp.Types.{Session, SessionState, u16}
use scion_lwip_contrib.Smtp.Prepare.{Prepared, prepare_data, smtp_prepare_header, smtp_prepare_quit}
use scion_lwip_contrib.Smtp.Prepare.Keeps.{Ready}
use scion_lwip_contrib.Smtp.Prepare.Commands.{
  Sends, header_lines, header_fits, data_fits, quit_fits,
}

-- What is prepared is the command that is sent.
pub record ReadyToSend (s : Session) (command : Bytes) (next : SessionState) (r : Prepared)
    : Type 0 where
  pub ready : Ready s next r
  pub is_command : take r.tx_len r.session.tx_buf ≡ command

Sends-ReadyToSend :
    (s : Session) (command : Bytes) (next : SessionState) {o : Option Prepared} {r : Prepared}
    → Sends s command next o
    → o ≡ some r
    → ReadyToSend s command next r
Sends-ReadyToSend s command next {r} (buf, made, bytes, size) e =
    let same : record {
      session = record s { tx_buf = buf };
      tx_len = length command;
      next_state = next;
    }
        ≡ r =
      cc in
    subst (λ q. ReadyToSend s command next q) same
      (record {
        ready = record { kept = record { same = refl; size = size }; next_is = refl };
        is_command = bytes;
      })

-- A header that is prepared fits.
header-le :
    (s : Session) {r : Prepared}
    → length s.tx_buf ≡ 256
    → smtp_prepare_header s ≡ some r
    → length s.sender + length s.to + length s.subject ≤ 224
unfolding smtp_prepare_header copy_to
header-le s size e =
    let n = length s.sender in
    let m = length s.to in
    let k = length s.subject in
    let b₀ = overwrite (u16 (7 + 8 + 12 + 4 + n + m + k)) (0 ∷ []) s.tx_buf in
    let b₁ = overwrite 0 (codes "From: <") b₀ in
    let b₂ = overwrite 7 s.sender b₁ in
    let b₃ = overwrite (7 + n) (codes ">\r\nTo: <") b₂ in
    let b₄ = overwrite (15 + n) s.to b₃ in
    let b₅ = overwrite (15 + n + m) (codes ">\r\nSubject: ") b₄ in
    let b₆ = overwrite (27 + n + m) s.subject b₅ in
    ground (
      arith,
      length-overwrite (u16 (7 + 8 + 12 + 4 + n + m + k)) (0 ∷ []) s.tx_buf,
      length-overwrite 0 (codes "From: <") b₀,
      length-overwrite 7 s.sender b₁,
      length-overwrite (7 + n) (codes ">\r\nTo: <") b₂,
      length-overwrite (15 + n) s.to b₃,
      length-overwrite (15 + n + m) (codes ">\r\nSubject: ") b₄,
      length-overwrite (27 + n + m) s.subject b₅,
    )

module _ (s : Session) {r : Prepared} (size : length s.tx_buf ≡ 256) where
  pub header-Ready :
      smtp_prepare_header s ≡ some r → ReadyToSend s (header_lines s) SessionState.body r
  header-Ready e = Sends-ReadyToSend s _ _ (header_fits s size (header-le s size e)) e

  pub data-Ready : prepare_data s ≡ some r → ReadyToSend s (codes "DATA\r\n") SessionState.dat r
  data-Ready e = Sends-ReadyToSend s _ _ (data_fits s size) e

  pub quit-Ready :
      smtp_prepare_quit s ≡ some r → ReadyToSend s (codes "QUIT\r\n") SessionState.closed r
  quit-Ready e = Sends-ReadyToSend s _ _ (quit_fits s size) e

-- ===== src/Smtp/Auth/Overflow.antt =====
-- A server's AUTH line that does not fit `tx_buf`.
use scion_lwip_contrib.Base.{
  ◌+◌, ◌-◌, ◌<◌, ◌≢◌, none, some, Bytes, codes, length, copy_to-eq-none, ◌≡◌, arith,
}
use scion_lwip_contrib.Lwip.{PbufReaders, PbufLaws, not_found}
use scion_lwip_contrib.Smtp.Types.{Session}
use scion_lwip_contrib.Smtp.Prepare.{put}
use scion_lwip_contrib.Smtp.Auth.{
  find_auth, auth_or_mail, copy_auth_line, smtp_prepare_auth_or_mail,
}

module _ (pb : PbufReaders) (laws : PbufLaws pb) where
  -- With readers that keep what lwIP documents, a reply of the server with the keyword AUTH and more bytes from there to the end of that line
  -- than `tx_buf` has makes the client write outside `tx_buf`.
  pub smtp_prepare_auth_or_mail_overflow :
      (s : Session) (p : Bytes)
      → s.p ≡ some p
      → find_auth pb p ≢ not_found
      → pb.memfind p (codes "\r\n") (find_auth pb p) ≢ not_found
      → find_auth pb p + length s.tx_buf < pb.memfind p (codes "\r\n") (find_auth pb p)
      → smtp_prepare_auth_or_mail pb s ≡ none
  unfolding smtp_prepare_auth_or_mail auth_or_mail copy_auth_line put
  smtp_prepare_auth_or_mail_overflow s p e a c long =
      let auth = find_auth pb p in
      let crlf = pb.memfind p (codes "\r\n") auth in
      let line = pb.copy_partial p (crlf - auth) auth in
      ground (
        arith,
        copy_to-eq-none s.tx_buf 0 line,
        laws.length-copy_partial p (crlf - auth) auth,
        laws.memfind_from p (codes "\r\n") auth,
      )

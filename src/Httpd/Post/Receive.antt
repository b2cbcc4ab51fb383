-- ===== src/Httpd/Post/Receive.antt =====
-- apps/httpserver_raw/httpd.c: `http_recv` and the closing of a connection with POST.
use scion_lwip_contrib.Base.{
  ℕ, Bool, false, List, [], ◌∷◌, ◌++◌, Option, none, some, Bytes, ◌==◌, ltb, if◌then◌else◌,
}
use scion_lwip_contrib.Lwip.{Err, is_ok, ◌>>=◌}
use scion_lwip_contrib.Httpd.Write.{Tcp, Pcb}
use scion_lwip_contrib.Httpd.State.{FsFile, HttpState, Conn, http_close_conn}
use scion_lwip_contrib.Httpd.Ssi.Insert.{SsiHandler}
use scion_lwip_contrib.Httpd.Send.{http_send}
use scion_lwip_contrib.Httpd.Files.{FsdataFile, Cgi}
use scion_lwip_contrib.Httpd.Request.{Parsed, parsed, in_progress, bad_request, in_use, aborted}
use scion_lwip_contrib.Httpd.Post.Handle.{
  App, PostCall, finished, Posting, http_post_rxpbuf, parse_posted,
}

pub record PostConn : Type 0 where
  pub conn : Conn
  pub left : ℕ
  pub calls : List PostCall

-- A connection that stays open.
abbrev pub keeps : Pcb → Posting → PostConn
keeps pcb s = record {
  conn = record { pcb = pcb; hs = some s.hs; closed = false };
  left = s.left;
  calls = s.calls;
}

-- `http_close_or_abort_conn` tells the application of a connection that is closed within a POST: what a
-- callback leaves of a connection with the state `hs`.
unfoldable pub closing : ℕ → List PostCall → Conn → PostConn
closing left calls c = record {
  conn = c;
  left = left;
  calls = elim c.hs [
    | none ↦ if left == 0 then calls else calls ++ finished ∷ []
    | some hs ↦ calls
  ];
}

-- `http_send` on a connection's state.
unfoldable pub send_posted : Tcp → Option SsiHandler → Pcb → Posting → Option PostConn
unfolding closing
send_posted tcp handler pcb s = do
  r ← http_send tcp handler s.hs pcb
  some (closing s.left s.calls r.0)

module _ (files : List FsdataFile) (cgis : List Cgi) (ssi_allocated : Bool) (app : App) where
  -- `http_recv` while data of a POST is missing.
  unfoldable pub recv_posting :
      Tcp → Option SsiHandler → Pcb → Posting → List Bytes → Option PostConn
  unfolding http_post_rxpbuf send_posted
  recv_posting tcp handler pcb s p =
      let s' =
        http_post_rxpbuf files cgis ssi_allocated app
          (record s { hs = record s.hs { retries = 0 } }) p in
      if s'.left == 0 then send_posted tcp handler pcb s' else some (keeps pcb s')

  -- `http_recv` with the result of the parser.
  unfoldable pub after_post_parse :
      Tcp → Option SsiHandler → Pcb → Parsed × Posting → Option PostConn
  unfolding send_posted closing
  after_post_parse tcp handler pcb (in_progress, s) = some (keeps pcb s)
  after_post_parse tcp handler pcb (parsed, s) =
      let s' = record s { hs = record s.hs { req = [] } } in
      if s'.left == 0 then send_posted tcp handler pcb s' else some (keeps pcb s')
  after_post_parse tcp handler pcb (bad_request, s) =
      some (closing s.left s.calls (http_close_conn tcp pcb))
  after_post_parse tcp handler pcb (in_use, s) =
      some (keeps pcb (record s { hs = record s.hs { req = [] } }))
  after_post_parse tcp handler pcb (aborted, s) =
      some (keeps pcb (record s { hs = record s.hs { req = [] } }))

  unfoldable pub recv_parsed :
      Tcp → Option SsiHandler → Pcb → Option FsFile → Posting → List Bytes → Option PostConn
  unfolding after_post_parse parse_posted
  recv_parsed tcp handler pcb none s p =
      after_post_parse tcp handler pcb (parse_posted files cgis ssi_allocated app s.hs.handle s p)
  recv_parsed tcp handler pcb (some f) s p = after_post_parse tcp handler pcb (aborted, s)

  -- `http_recv` on the argument `hs`; the chain is empty where `p` is NULL.
  unfoldable pub recv_post_to :
      Tcp → Option SsiHandler → List Bytes → Err → PostConn → Option HttpState → Option PostConn
  unfolding recv_posting recv_parsed closing
  recv_post_to tcp handler p err c none = some (record c { conn = http_close_conn tcp c.conn.pcb })
  recv_post_to tcp handler [] err c (some hs) =
      some (closing c.left c.calls (http_close_conn tcp c.conn.pcb))
  recv_post_to tcp handler (q ∷ qs) err c (some hs) =
      let s : Posting = record { hs = hs; left = c.left; calls = c.calls } in
      if is_ok err
      then if ltb 0 c.left
        then recv_posting tcp handler c.conn.pcb s (q ∷ qs)
        else recv_parsed tcp handler c.conn.pcb hs.handle s (q ∷ qs)
      else some (closing c.left c.calls (http_close_conn tcp c.conn.pcb))

  unfoldable pub recv_post : Tcp → Option SsiHandler → List Bytes → Err → PostConn → Option PostConn
  unfolding recv_post_to
  recv_post tcp handler p err c = recv_post_to tcp handler p err c c.conn.hs

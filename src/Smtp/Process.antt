-- ===== src/Smtp/Process.antt =====
-- apps/smtp/smtp.c: `smtp_send_body`, `smtp_free`, `smtp_close`, `smtp_process`. `none` is a fault: a
-- failed assertion, or a write outside `tx_buf`.
use Prim.Native.String.{String}
use scion_lwip_contrib.Base.{
  ℕ, ◌+◌, ◌-◌, Bool, true, false, not, ◌&&◌, ◌||◌, [], ◌∷◌, ◌++◌, Option, none, some, Bytes, codes,
  length, take, drop, ◌==◌, ltb, if◌then◌else◌,
}
use scion_lwip_contrib.Lwip.{Err, is_ok, PbufReaders, not_found, ◌>>=◌}
use scion_lwip_contrib.Smtp.Types.{
  SessionState, state_num, MailResult, timeout_datablock, timeout_dataterm, smtp_timeout, Session,
  Client, Replies, u16,
}
use scion_lwip_contrib.Smtp.Response.{smtp_is_response, smtp_is_response_finished}
use scion_lwip_contrib.Smtp.Prepare.{
  Prepared, smtp_prepare_helo, smtp_prepare_mail, smtp_prepare_rcpt, smtp_prepare_header,
  prepare_data, smtp_prepare_quit, smtp_prepare_auth_login_uname, smtp_prepare_auth_login_pass,
}
use scion_lwip_contrib.Smtp.Auth.{smtp_prepare_auth_or_mail}

-- `smtp_free`: the session is gone, and the user's callback, if set, is called.
unfoldable pub smtp_free : Session → MailResult → ℕ → Err → Client → Client
smtp_free s result srv_err err c = record c {
  session = none;
  outcomes =
      if s.callback
      then c.outcomes ++ record { result = result; srv_err = srv_err; err = err } ∷ []
      else c.outcomes;
}

-- `smtp_close` with the session of the connection, which may be NULL. Where `tcp_close` fails the
-- session stays the connection's argument.
unfoldable pub smtp_close : Option Session → Replies → MailResult → ℕ → Err → Client → Client
unfolding smtp_free
smtp_close session r result srv_err err c =
    if is_ok r.close
    then elim session [
      | none ↦ record c { session = none; is_closed = true }
      | some s ↦ smtp_free s result srv_err err (record c { is_closed = true })
    ]
    else record c { session = session }

-- A session beside the bytes written so far.
pub record Sending : Type 0 where
  pub session : Session
  pub sent : Bytes

-- `u16_t send_len`, after the limit to `tcp_sndbuf`.
unfoldable pub send_len : ℕ → Session → ℕ
send_len sndbuf s =
    let left = u16 (length s.text + 65536 - s.body_sent) in if ltb sndbuf left then sndbuf else left

-- The write of more body data.
unfoldable pub send_part : Replies → Session → Bytes → Sending
unfolding send_len
send_part r s sent =
    let n = send_len r.sndbuf s in
    if ltb 0 n
    then if is_ok r.write_body
      then record {
        session = record s { timer = timeout_datablock; body_sent = u16 (s.body_sent + n) };
        sent = sent ++ take n (drop s.body_sent s.text);
      }
      else record { session = s; sent = sent }
    else record { session = s; sent = sent }

-- The write of the end of the body.
unfoldable pub send_end : Replies → Sending → Sending
send_end r w =
    if w.session.body_sent == length w.session.text
    then if is_ok r.write_end
      then record {
        session = record w.session { timer = timeout_dataterm; state = SessionState.quit };
        sent = w.sent ++ codes "\r\n.\r\n";
      }
      else w
    else w

-- `smtp_send_body`
unfoldable pub smtp_send_body : Replies → Session → Bytes → Sending
unfolding send_part send_end
smtp_send_body r s sent =
    if state_num s.state == 9
    then send_end r (send_part r s sent)
    else record { session = s; sent = sent }

unfoldable pub unchanged : Session → Prepared
unchanged s = record { session = s; tx_len = 0; next_state = s.state }

module _ (pb : PbufReaders) where
  -- `pbuf_strstr(s->p, word) != 0xFFFF`
  unfoldable pub has_word : String → Session → Bool
  has_word word s = elim s.p [ none ↦ false | some p ↦ not (pb.strstr p (codes word) == not_found) ]

  -- The `switch(s->state)` for a response code: the command that it prepares, with the next state.
  -- Where nothing is prepared the next state is the state.
  unfoldable pub dispatch : SessionState → Replies → ℕ → Session → Option Prepared
  unfolding has_word unchanged
  dispatch SessionState.null r code s =
      if code == 220 then smtp_prepare_helo r.local_ip s else some (unchanged s)
  dispatch SessionState.helo r code s =
      if code == 250 then smtp_prepare_auth_or_mail pb s else some (unchanged s)
  dispatch SessionState.auth_login r code s =
      if code == 235 then smtp_prepare_mail s else some (unchanged s)
  dispatch SessionState.auth_plain r code s =
      if code == 235 then smtp_prepare_mail s else some (unchanged s)
  dispatch SessionState.auth_login_uname r code s =
      if code == 334 && has_word "VXNlcm5hbWU6" s
      then smtp_prepare_auth_login_uname s
      else some (unchanged s)
  dispatch SessionState.auth_login_pass r code s =
      if code == 334 && has_word "UGFzc3dvcmQ6" s
      then smtp_prepare_auth_login_pass s
      else some (unchanged s)
  dispatch SessionState.mail r code s =
      if code == 250 then smtp_prepare_rcpt s else some (unchanged s)
  dispatch SessionState.rcpt r code s = if code == 250 then prepare_data s else some (unchanged s)
  dispatch SessionState.dat r code s =
      if code == 354 then smtp_prepare_header s else some (unchanged s)
  dispatch SessionState.body r code s = some (unchanged s)
  dispatch SessionState.quit r code s =
      if code == 250 then smtp_prepare_quit s else some (unchanged s)
  dispatch SessionState.closed r code s = some (unchanged s)

-- Behind a successful write of the command.
unfoldable pub after_write : Replies → SessionState → Session → Client → Client
after_write r next s c =
    if state_num next == 9
    then (let w = smtp_send_body r s c.sent in record c { session = some w.session; sent = w.sent })
    else if state_num next == 11
    then smtp_free s MailResult.ok 0 Err.ok c
    else record c { session = some s }

-- The end of `smtp_process`, from `if (s->state == next_state)` on.
unfoldable pub finish_step : Replies → ℕ → SessionState → Prepared → Client → Client
unfolding after_write
finish_step r code old ready c =
    let s = ready.session in
    if state_num old == state_num ready.next_state
    then smtp_close (some s) r MailResult.err_svr_resp code Err.ok c
    else if ltb 0 ready.tx_len
    then if is_ok r.write_command
      then after_write r ready.next_state
          (record s { timer = smtp_timeout; p = none; state = ready.next_state })
          (record c { sent = c.sent ++ take ready.tx_len s.tx_buf })
      else record c { session = some s }
    else record c { session = some s }

module _ (pb : PbufReaders) where
  -- `smtp_process` from `smtp_is_response` on.
  unfoldable pub respond : Replies → Session → Client → Option Client
  unfolding dispatch finish_step
  respond r s c =
      let code = smtp_is_response pb s.p in
      if code == 0 then some (record c { session = some (record s { p = none }) }) else (do
        finished ← smtp_is_response_finished pb s.p
        if not finished || state_num s.state == 11
            then some (record c { session = some s })
            else (do
              ready ← dispatch pb s.state r code s
              some (finish_step r code s.state ready c)))

  -- `smtp_process` with a session, on received data.
  unfoldable pub process_received : Replies → Bytes → Session → Client → Option Client
  unfolding respond
  process_received r p s c = elim s.p [
    | none ↦ respond r (record s { p = some p }) c
    | some old ↦ respond r (record s { p = some (old ++ p) }) c
  ]

  -- `smtp_process` with a session and no data: called from the poll and sent callbacks.
  unfoldable pub process_idle : Replies → Session → Client → Option Client
  unfolding respond
  process_idle r s c =
      if s.timer == 0
      then some (smtp_close (some s) r MailResult.err_timeout 0 Err.timeout c)
      else if state_num s.state == 9
      then (let w = smtp_send_body r s c.sent in
          some (record c { session = some w.session; sent = w.sent }))
      else respond r s c

  -- `smtp_process` on the connection's session; `p` is `none` for the null pointer.
  unfoldable pub smtp_process : Replies → Option Bytes → Client → Option Client
  unfolding process_received process_idle
  smtp_process r p c = elim c.session [
    | none ↦ some c
    | some s ↦ elim p [ none ↦ process_idle r s c | some q ↦ process_received r q s c ]
  ]

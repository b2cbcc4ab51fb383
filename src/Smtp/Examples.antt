-- ===== src/Smtp/Examples.antt =====
-- Runs of the SMTP client.
mod Texts
use scion_lwip_contrib.Base.{
  ℕ, ◌+◌, ◌-◌, ◌≤◌, ◌<◌, ◌≢◌, inl, true, false, List, [], ◌∷◌, ◌++◌, Option, none, some, Bytes,
  codes, overwrite, copy_to, all_lt-AllLt, length, take, replicate, ◌≡◌, refl, arith,
}
use scion_lwip_contrib.Lwip.{Err, not_found}
use scion_lwip_contrib.Readers.{readers, readers-laws}
use scion_lwip_contrib.Smtp.Types.{SessionState, MailResult, Session, Outcome, Client, Replies}
use scion_lwip_contrib.Smtp.Response.{
  digits, strtol, smtp_is_response, finished_loop, smtp_is_response_finished,
}
use scion_lwip_contrib.Smtp.Prepare.{
  Prepared, put, smtp_prepare_helo, smtp_prepare_mail, smtp_prepare_rcpt, smtp_prepare_header,
  prepare_data, smtp_prepare_quit,
}
use scion_lwip_contrib.Smtp.Auth.{find_auth, auth_or_mail, smtp_prepare_auth_or_mail}
use scion_lwip_contrib.Smtp.Process.{
  smtp_free, smtp_close, send_len, send_part, send_end, smtp_send_body, unchanged, dispatch,
  after_write, finish_step, respond, process_received, process_idle, smtp_process,
}
use scion_lwip_contrib.Smtp.Callbacks.{
  smtp_tcp_poll, smtp_tcp_sent, smtp_tcp_recv, smtp_tcp_connected, Event, poll, acked, received,
  connected, step, run,
}
use scion_lwip_contrib.Smtp.Callbacks.Delivery.{Delivered}
use scion_lwip_contrib.Smtp.Callbacks.Delivery.Run.{
  fresh_client, IsNew, callback_once, success_delivers,
}
use scion_lwip_contrib.Smtp.Callbacks.Protocol.{Moves, dispatch-Moves}
use scion_lwip_contrib.Smtp.Send.{new_session}

-- A mail whose text goes out in two parts.
abbrev pub mail : Session
mail = new_session (codes "a@b") (codes "c@d") (codes "s") (codes "hello") true

abbrev pub fine : Replies
fine = record {
  write_command = Err.ok;
  write_body = Err.ok;
  write_end = Err.ok;
  sndbuf = 3;
  close = Err.ok;
  connect = Err.ok;
  local_ip = codes "1.2.3.4";
}

abbrev delivery : List Event
delivery =
    connected fine Err.ok
    ∷ received fine (codes "220 x\r\n")
    ∷ received fine (codes "250-x\r\n250 y\r\n")
    ∷ received fine (codes "250 ok\r\n")
    ∷ received fine (codes "250 ok\r\n")
    ∷ received fine (codes "354 go\r\n")
    ∷ acked fine
    ∷ received fine (codes "250 ok\r\n")
    ∷ []

abbrev told : List Outcome
told = record { result = MailResult.ok; srv_err = 0; err = Err.ok } ∷ []

delivered : (d : Client) × (run readers delivery (fresh_client mail) ≡ some d) × (d.outcomes ≡ told)
unfolding run step smtp_tcp_recv smtp_tcp_sent smtp_tcp_connected smtp_process process_received
    process_idle respond smtp_is_response strtol digits smtp_is_response_finished finished_loop
    dispatch unchanged smtp_prepare_helo smtp_prepare_mail smtp_prepare_rcpt smtp_prepare_header
    prepare_data smtp_prepare_quit smtp_prepare_auth_or_mail auth_or_mail find_auth put copy_to
    overwrite finish_step after_write smtp_send_body send_part send_end send_len smtp_free
    smtp_close
delivered = (_, refl, refl)

mail-IsNew : IsNew mail
mail-IsNew = record { at_start = refl; nothing_sent = refl; buffer = refl; short = omega arith }

callback_once_example : length delivered.0.outcomes ≤ 1
callback_once_example = callback_once mail mail-IsNew readers delivery delivered.0 delivered.1

success_delivers_example : Delivered mail delivered.0.sent
success_delivers_example =
    success_delivers mail mail-IsNew readers delivery delivered.0 delivered.1
      (record { result = MailResult.ok; srv_err = 0; err = Err.ok }) delivered.2 refl

greeted : (ready : Prepared) × (dispatch readers SessionState.null fine 220 mail ≡ some ready)
unfolding dispatch smtp_prepare_helo put copy_to overwrite
greeted = (_, refl)

dispatch-Moves_example : Moves 220 mail greeted.0
dispatch-Moves_example = dispatch-Moves readers fine 220 mail refl SessionState.null refl greeted.1

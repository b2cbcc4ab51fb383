-- ===== src/Smtp/Callbacks.antt =====
-- apps/smtp/smtp.c: the callbacks that lwIP's TCP and DNS make, as steps of the connection's state.
pub mod Protocol
pub mod Delivery
use scion_lwip_contrib.Base.{
  ℕ, ◌-◌, Bool, true, false, List, [], ◌∷◌, Option, none, some, Bytes, ◌==◌, if◌then◌else◌,
}
use scion_lwip_contrib.Lwip.{Err, is_ok, PbufReaders, ◌>>=◌}
use scion_lwip_contrib.Smtp.Types.{MailResult, Session, Client, Replies}
use scion_lwip_contrib.Smtp.Process.{smtp_free, smtp_close, smtp_process}

-- The connection was reset: the pcb is gone already.
unfoldable pub smtp_tcp_err : Err → Client → Client
unfolding smtp_free
smtp_tcp_err err c = elim c.session [
  | none ↦ c
  | some s ↦ smtp_free s MailResult.err_closed 0 err c
]

-- `if (s->timer != 0) s->timer--`
abbrev pub tick : Session → Session
tick s = if s.timer == 0 then s else record s { timer = s.timer - 1 }

module _ (pb : PbufReaders) where
  unfoldable pub smtp_tcp_poll : Replies → Client → Option Client
  unfolding smtp_process
  smtp_tcp_poll r c = elim c.session [
    | none ↦ smtp_process pb r none c
    | some s ↦ smtp_process pb r none (record c { session = some (tick s) })
  ]

  unfoldable pub smtp_tcp_sent : Replies → Client → Option Client
  unfolding smtp_process
  smtp_tcp_sent r c = smtp_process pb r none c

  -- A null `p` is the end of the server's data.
  unfoldable pub smtp_tcp_recv : Replies → Option Bytes → Err → Client → Option Client
  unfolding smtp_process smtp_close
  smtp_tcp_recv r p err c = elim p [
    | some q ↦ smtp_process pb r (some q) c
    | none ↦ some (smtp_close c.session r MailResult.err_closed 0 err c)
  ]

unfoldable pub smtp_tcp_connected : Replies → Err → Client → Client
unfolding smtp_close
smtp_tcp_connected r err c =
    if is_ok err then c else smtp_close c.session r MailResult.err_connect 0 err c

-- `found` tells whether `ipaddr` is not NULL.
unfoldable pub smtp_dns_found : Replies → Bool → Client → Client
unfolding smtp_close
smtp_dns_found r found c =
    if found
    then if is_ok r.connect then c else smtp_close c.session r MailResult.err_connect 0 r.connect c
    else smtp_close c.session r MailResult.err_hostname 0 Err.arg c

-- What can happen to a connection, each with lwIP's answers during that callback.
pub data Event : Type 0 where
  poll : Replies → Event
  acked : Replies → Event
  received : Replies → Bytes → Event
  remote_closed : Replies → Err → Event
  connected : Replies → Err → Event
  resolved : Replies → Bool → Event
  reset : Err → Event

module _ (pb : PbufReaders) where
  unfoldable pub step : Event → Client → Option Client
  step (poll r) c = smtp_tcp_poll pb r c
  step (acked r) c = smtp_tcp_sent pb r c
  step (received r p) c = smtp_tcp_recv pb r (some p) Err.ok c
  step (remote_closed r e) c = smtp_tcp_recv pb r none e c
  step (connected r e) c = some (smtp_tcp_connected r e c)
  step (resolved r found) c = some (smtp_dns_found r found c)
  step (reset e) c = some (smtp_tcp_err e c)

  -- Events in their order; `none` once one of them faults.
  unfoldable pub run : List Event → Client → Option Client
  run [] c = some c
  run (e ∷ es) c = do c' ← step e c; run es c'

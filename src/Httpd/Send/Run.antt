-- ===== src/Httpd/Send/Run.antt =====
-- A response over the calls of `http_sent`, `http_poll` and `http_err` that lwIP makes.
pub mod Timeout
use scion_lwip_contrib.Base.{
  ℕ, zero, suc, ◌+◌, ◌-◌, ◌%◌, ◌≤◌, ◌<◌, ◌⊎◌, inl, inr, Bool, true, false, List, [], ◌∷◌, ◌++◌,
  append-nil, Option, none, some, Bytes, length, ◌==◌, ltb, if◌then◌else◌, ◌≡◌, refl, sym, subst,
  ap, ◌∙◌, Bool-cases, arith,
}
use scion_lwip_contrib.Lwip.{◌>>=◌}
use scion_lwip_contrib.Httpd.Write.{Tcp, Pcb}
use scion_lwip_contrib.Httpd.State.{FsFile, HttpState, Conn, http_close_conn}
use scion_lwip_contrib.Httpd.Ssi.Insert.{SsiHandler, Fits}
use scion_lwip_contrib.Httpd.Send.{
  http_send, http_sent, http_poll, http_err, sent_to, poll_to, poll_send, httpd_max_retries,
}
use scion_lwip_contrib.Httpd.Send.Delivery.{http_send-Delivered}
use scion_lwip_contrib.Httpd.Send.Data.{pending, IsServing, Goes, Delivered}

-- A call of one of the three callbacks, with what lwIP answers during it.
pub data Event : Type 0 where
  sent_acked : Tcp → Event
  polled : Tcp → Event
  failed : Event

unfoldable pub handle_event : Option SsiHandler → Event → Conn → Option Conn
unfolding http_sent http_poll http_err
handle_event handler (sent_acked tcp) c = http_sent tcp handler c
handle_event handler (polled tcp) c = http_poll tcp handler c
handle_event handler failed c = some (http_err c)

unfoldable pub run : Option SsiHandler → List Event → Conn → Option Conn
unfolding handle_event
run handler [] c = some c
run handler (e ∷ es) c = do c' ← handle_event handler e c; run handler es c'

-- What was sent is a beginning of the response, and with a state still held the rest is what the state has
-- still to send.
abbrev pub OnTheWay : Option SsiHandler → Bytes → Bytes → Option HttpState → Type 0
OnTheWay handler all sent none = (rest : Bytes) × (sent ++ rest ≡ all)
OnTheWay handler all sent (some hs) = IsServing hs × (sent ++ pending handler hs ≡ all)

abbrev pub IsOnTheWay : Option SsiHandler → Bytes → Option Conn → Type 0
IsOnTheWay handler all none = ⊥
IsOnTheWay handler all (some c) = OnTheWay handler all c.pcb.sent c.hs

Goes-OnTheWay :
    (handler : Option SsiHandler) (all : Bytes) (c : Conn) (hs : Option HttpState)
    → Goes handler all c hs
    → OnTheWay handler all c.pcb.sent hs
Goes-OnTheWay handler all c none g = ([], append-nil c.pcb.sent ∙ g)
Goes-OnTheWay handler all c (some hs) g = g

Delivered-OnTheWay :
    (handler : Option SsiHandler) (all : Bytes) (r : Option (Conn × Bool))
    → Delivered handler all r
    → IsOnTheWay handler all (do x ← r; some x.0)
Delivered-OnTheWay handler all none d = d
Delivered-OnTheWay handler all (some (c, b)) d = Goes-OnTheWay handler all c c.hs d

-- The retries are no part of the response.
retries_kept : (hs : HttpState) (r : ℕ) → IsServing hs → IsServing (record hs { retries = r })
retries_kept hs r v = record { headers_ok = v.headers_ok; body_ok = v.body_ok }

send_OnTheWay :
    (tcp : Tcp) (handler : Option SsiHandler) (all : Bytes) (hs : HttpState) (pcb : Pcb) (r : ℕ)
    → Fits handler
    → IsServing hs × (pcb.sent ++ pending handler hs ≡ all)
    → IsOnTheWay handler all
        (do x ← http_send tcp handler (record hs { retries = r }) pcb; some x.0)
send_OnTheWay tcp handler all hs pcb r fits h =
    Delivered-OnTheWay handler all (http_send tcp handler (record hs { retries = r }) pcb) (
      subst
        (λ (t : Bytes). Delivered handler t (http_send tcp handler (record hs { retries = r }) pcb))
        h.1
        (http_send-Delivered tcp handler (record hs { retries = r }) pcb fits
          (retries_kept hs r h.0)))

poll_OnTheWay :
    (tcp : Tcp) (handler : Option SsiHandler) (all : Bytes) (file : Option FsFile) (hs : HttpState)
    (pcb : Pcb) (r : ℕ)
    → Fits handler
    → IsServing hs × (pcb.sent ++ pending handler hs ≡ all)
    → IsOnTheWay handler all (poll_send tcp handler file (record hs { retries = r }) pcb)
unfolding poll_send
poll_OnTheWay tcp handler all none hs pcb r fits h = (retries_kept hs r h.0, h.1)
poll_OnTheWay tcp handler all (some f) hs pcb r fits h =
    send_OnTheWay tcp handler all hs pcb r fits h

sent_to-OnTheWay :
    (tcp : Tcp) (handler : Option SsiHandler) (all : Bytes) (c : Conn) (hs : Option HttpState)
    → Fits handler
    → c.hs ≡ hs
    → OnTheWay handler all c.pcb.sent hs
    → IsOnTheWay handler all (sent_to tcp handler c hs)
unfolding sent_to
sent_to-OnTheWay tcp handler all c none fits e h = subst (OnTheWay handler all c.pcb.sent) (sym e) h
sent_to-OnTheWay tcp handler all c (some hs) fits e h =
    send_OnTheWay tcp handler all hs c.pcb 0 fits h

poll_to-OnTheWay :
    (tcp : Tcp) (handler : Option SsiHandler) (all : Bytes) (pcb : Pcb) (hs : Option HttpState)
    → Fits handler
    → OnTheWay handler all pcb.sent hs
    → IsOnTheWay handler all (poll_to tcp handler pcb hs)
unfolding poll_to http_close_conn
poll_to-OnTheWay tcp handler all pcb none fits h = h
poll_to-OnTheWay tcp handler all pcb (some hs) fits h =
    elim (Bool-cases ((hs.retries + 1) % 256 == httpd_max_retries)) [
      | inl late ↦ rw late (pending handler hs, h.1)
      | inr early ↦
          rw early (poll_OnTheWay tcp handler all hs.handle hs pcb ((hs.retries + 1) % 256) fits h)
    ]

given_up :
    (handler : Option SsiHandler) (all sent : Bytes) (hs : Option HttpState)
    → OnTheWay handler all sent hs
    → OnTheWay handler all sent none
given_up handler all sent none h = h
given_up handler all sent (some hs) h = (pending handler hs, h.1)

pub handle_event-OnTheWay :
    (handler : Option SsiHandler) (all : Bytes) (e : Event) (c : Conn)
    → Fits handler
    → OnTheWay handler all c.pcb.sent c.hs
    → IsOnTheWay handler all (handle_event handler e c)
unfolding handle_event http_err
handle_event-OnTheWay handler all (sent_acked tcp) c fits h =
    sent_to-OnTheWay tcp handler all c c.hs fits refl h
handle_event-OnTheWay handler all (polled tcp) c fits h =
    poll_to-OnTheWay tcp handler all c.pcb c.hs fits h
handle_event-OnTheWay handler all failed c fits h = given_up handler all c.pcb.sent c.hs h

-- From a valid state, after any sequence of calls of `http_sent`, `http_poll` and `http_err`, none of which fails an
-- assertion, the bytes sent are a beginning of the response; while the state is held, it is valid and the rest is what it has still to send.
pub run-OnTheWay :
    (handler : Option SsiHandler) (all : Bytes) (es : List Event) (c : Conn)
    → Fits handler
    → OnTheWay handler all c.pcb.sent c.hs
    → IsOnTheWay handler all (run handler es c)
unfolding run
run-OnTheWay handler all [] c fits h = h
run-OnTheWay handler all (e ∷ es) c fits h =
    go (handle_event handler e c) (handle_event-OnTheWay handler all e c fits h)
      (run-OnTheWay handler all es)
  where
    go :
        (r : Option Conn)
        → IsOnTheWay handler all r
        → ((d : Conn)
            → Fits handler
            → OnTheWay handler all d.pcb.sent d.hs
            → IsOnTheWay handler all (run handler es d))
        → IsOnTheWay handler all (do d ← r; run handler es d)
    go none i f = i
    go (some d) i f = f d fits i

-- Calls of `http_poll` alone.
abbrev pub polls : List Tcp → List Event
polls [] = []
polls (tcp ∷ tcps) = polled tcp ∷ polls tcps

abbrev pub retries_of : Option HttpState → ℕ
retries_of none = 0
retries_of (some hs) = hs.retries

-- Calls of `http_sent` alone.
abbrev pub acks : List Tcp → List Event
acks [] = []
acks (tcp ∷ tcps) = sent_acked tcp ∷ acks tcps

abbrev pub IsGoing : Option SsiHandler → Bytes → Option Conn → Type 0
IsGoing handler all none = ⊥
IsGoing handler all (some c) = Goes handler all c c.hs

sent_to-IsGoing :
    (tcp : Tcp) (handler : Option SsiHandler) (all : Bytes) (c : Conn) (hs : Option HttpState)
    → Fits handler
    → c.hs ≡ hs
    → Goes handler all c hs
    → IsGoing handler all (sent_to tcp handler c hs)
unfolding sent_to
sent_to-IsGoing tcp handler all c none fits e g = subst (Goes handler all c) (sym e) g
sent_to-IsGoing tcp handler all c (some hs) fits e g =
    going (http_send tcp handler (record hs { retries = 0 }) c.pcb) (
      subst
        (λ (t : Bytes).
          Delivered handler t (http_send tcp handler (record hs { retries = 0 }) c.pcb))
        g.1
        (http_send-Delivered tcp handler (record hs { retries = 0 }) c.pcb fits
          (retries_kept hs 0 g.0)))
  where
    going :
        (r : Option (Conn × Bool))
        → Delivered handler all r
        → IsGoing handler all (do x ← r; some x.0)
    going none d = d
    going (some (c, b)) d = d

sent_first :
    (tcp : Tcp) (handler : Option SsiHandler) (all : Bytes) (c : Conn)
    → Fits handler
    → Goes handler all c c.hs
    → IsGoing handler all (http_sent tcp handler c)
unfolding http_sent
sent_first tcp handler all c fits g = sent_to-IsGoing tcp handler all c c.hs fits refl g

pub run-IsGoing :
    (handler : Option SsiHandler) (all : Bytes) (tcps : List Tcp) (c : Conn)
    → Fits handler
    → Goes handler all c c.hs
    → IsGoing handler all (run handler (acks tcps) c)
unfolding run handle_event
run-IsGoing handler all [] c fits g = g
run-IsGoing handler all (tcp ∷ tcps) c fits g =
    go (http_sent tcp handler c) (sent_first tcp handler all c fits g)
      (run-IsGoing handler all tcps)
  where
    go :
        (r : Option Conn)
        → IsGoing handler all r
        → ((d : Conn)
            → Fits handler
            → Goes handler all d d.hs
            → IsGoing handler all (run handler (acks tcps) d))
        → IsGoing handler all (do d ← r; run handler (acks tcps) d)
    go none i f = i
    go (some d) i f = f d fits i

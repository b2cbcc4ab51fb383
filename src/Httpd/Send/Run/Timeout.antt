-- ===== src/Httpd/Send/Run/Timeout.antt =====
-- A connection on which nothing is acknowledged is given up by `http_poll`.
use scion_lwip_contrib.Base.{
  ℕ, suc, ◌+◌, ◌%◌, ◌≤◌, ◌<◌, ◌⊎◌, inl, inr, Bool, ◌&&◌, List, [], ◌∷◌, Option, none, some, Bytes,
  length, ◌==◌, ltb, ◌≡◌, refl, subst, ap, Bool-cases, arith,
}
use scion_lwip_contrib.Lwip.{◌>>=◌}
use scion_lwip_contrib.Httpd.Write.{Tcp, Pcb}
use scion_lwip_contrib.Httpd.State.{
  FsFile, fs_bytes_left, HttpState, Conn, http_close_conn, num_file_hdr_strings,
}
use scion_lwip_contrib.Httpd.Ssi.Insert.{SsiHandler, Fits}
use scion_lwip_contrib.Httpd.Ssi.Scan.{SsiState}
use scion_lwip_contrib.Httpd.Headers.{DataToSend, HeaderLoop, http_send_headers, headers_result}
use scion_lwip_contrib.Httpd.Send.{
  SentData, send_data, after_data, send_body, after_headers, with_headers, http_send, poll_to,
  poll_send, http_poll, httpd_max_retries,
}
use scion_lwip_contrib.Httpd.Send.Run.{
  polled, handle_event, run, polls, retries_of, OnTheWay, IsOnTheWay, handle_event-OnTheWay,
}

abbrev SameRetries : ℕ → Option HttpState → Type 0
SameRetries r none = Unit {0}
SameRetries r (some hs) = hs.retries ≡ r

abbrev KeepsRetries : ℕ → Option (Conn × Bool) → Type 0
KeepsRetries r none = Unit {0}
KeepsRetries r (some x) = SameRetries r x.0.hs

send_data-retries :
    (tcp : Tcp) (handler : Option SsiHandler) (contents : Bytes) (ssi : Option SsiState)
    (hs : HttpState) (pcb : Pcb)
    → (send_data tcp handler contents ssi hs pcb).hs.retries ≡ hs.retries
unfolding send_data
send_data-retries tcp handler contents none hs pcb = refl
send_data-retries tcp handler contents (some ssi) hs pcb = refl

after_data-retries :
    (tcp : Tcp) (f : FsFile) (d : SentData) → KeepsRetries d.hs.retries (after_data tcp f d)
unfolding after_data http_close_conn
after_data-retries tcp f d = elim (Bool-cases (d.hs.left == 0 && fs_bytes_left f == 0)) [
  | inl e ↦ rw e tt
  | inr e ↦ rw e refl
]

send_body-retries :
    (tcp : Tcp) (handler : Option SsiHandler) (file : Option FsFile) (hs : HttpState) (pcb : Pcb)
    → KeepsRetries hs.retries (send_body tcp handler file hs pcb)
unfolding send_body http_close_conn
send_body-retries tcp handler none hs pcb = elim (Bool-cases (hs.left == 0)) [
  | inl e ↦ rw e tt
  | inr e ↦ rw e tt
]
send_body-retries tcp handler (some f) hs pcb = elim (Bool-cases (hs.left == 0)) [
  | inl e ↦ elim (Bool-cases (fs_bytes_left f == 0)) [ inl b ↦ rw (e, b) tt | inr b ↦ rw (e, b) tt ]
  | inr e ↦ rw e (
      subst
        (λ (r : ℕ).
          KeepsRetries r (after_data tcp f (send_data tcp handler f.contents hs.ssi hs pcb)))
        (send_data-retries tcp handler f.contents hs.ssi hs pcb)
        (after_data-retries tcp f (send_data tcp handler f.contents hs.ssi hs pcb)))
]

after_headers-retries :
    (tcp : Tcp) (handler : Option SsiHandler) (hs : HttpState) (l : HeaderLoop) (d : DataToSend)
    → KeepsRetries hs.retries (after_headers tcp handler hs l d)
unfolding after_headers with_headers
after_headers-retries tcp handler hs l DataToSend.no_data_to_send = refl
after_headers-retries tcp handler hs l DataToSend.data_to_send_break = refl
after_headers-retries tcp handler hs l DataToSend.data_to_send_continue =
    send_body-retries tcp handler hs.handle (with_headers hs l) l.pcb

http_send-retries :
    (tcp : Tcp) (handler : Option SsiHandler) (hs : HttpState) (pcb : Pcb)
    → KeepsRetries hs.retries (http_send tcp handler hs pcb)
unfolding http_send
http_send-retries tcp handler hs pcb = elim (Bool-cases (ltb hs.hdr_index num_file_hdr_strings)) [
  | inl e ↦ rw e (
      after_headers-retries tcp handler hs (http_send_headers tcp pcb hs)
        (headers_result hs (http_send_headers tcp pcb hs)))
  | inr e ↦ rw e (send_body-retries tcp handler hs.handle hs pcb)
]

-- After a poll the connection has no state any more, or has counted one more try.
abbrev Counted : ℕ → Option HttpState → Type 0
Counted r none = Unit {0}
Counted r (some hs) = (hs.retries ≡ r + 1) × (r + 1 < httpd_max_retries)

abbrev IsCounted : ℕ → Option Conn → Type 0
IsCounted r none = Unit {0}
IsCounted r (some c) = Counted r c.hs

kept-Counted :
    (r : ℕ) (hs : Option HttpState)
    → r + 1 < httpd_max_retries
    → SameRetries (r + 1) hs
    → Counted r hs
kept-Counted r none lt e = tt
kept-Counted r (some hs) lt e = (e, lt)

sent-Counted :
    (r : ℕ) (x : Option (Conn × Bool))
    → r + 1 < httpd_max_retries
    → KeepsRetries (r + 1) x
    → IsCounted r (do y ← x; some y.0)
sent-Counted r none lt e = tt
sent-Counted r (some (c, b)) lt e = kept-Counted r c.hs lt e

poll_send-Counted :
    (tcp : Tcp) (handler : Option SsiHandler) (file : Option FsFile) (hs : HttpState) (pcb : Pcb)
    (r : ℕ)
    → hs.retries ≡ r + 1
    → r + 1 < httpd_max_retries
    → IsCounted r (poll_send tcp handler file hs pcb)
unfolding poll_send
poll_send-Counted tcp handler none hs pcb r e lt = (e, lt)
poll_send-Counted tcp handler (some f) hs pcb r e lt =
    sent-Counted r (http_send tcp handler hs pcb) lt (
      subst (λ (k : ℕ). KeepsRetries k (http_send tcp handler hs pcb)) e
        (http_send-retries tcp handler hs pcb))

poll_to-Counted :
    (tcp : Tcp) (handler : Option SsiHandler) (pcb : Pcb) (hs : Option HttpState)
    → retries_of hs < httpd_max_retries
    → IsCounted (retries_of hs) (poll_to tcp handler pcb hs)
unfolding poll_to http_close_conn
poll_to-Counted tcp handler pcb none lt = tt
poll_to-Counted tcp handler pcb (some hs) lt =
    elim (Bool-cases ((hs.retries + 1) % 256 == httpd_max_retries)) [
      | inl late ↦ rw late tt
      | inr early ↦
          let small : (hs.retries + 1) % 256 ≡ hs.retries + 1 = omega (arith, lt) in
          let more : hs.retries + 1 < httpd_max_retries = ground (arith, lt, early) in
          rw early (
            poll_send-Counted tcp handler hs.handle (record hs { retries = (hs.retries + 1) % 256 })
              pcb hs.retries small more)
    ]

-- The connection's state is given up.
abbrev pub HasEnded : Option Conn → Type 0
HasEnded none = ⊥
HasEnded (some c) = c.hs ≡ none

ended_poll :
    (tcp : Tcp) (handler : Option SsiHandler) (c : Conn)
    → c.hs ≡ none
    → handle_event handler (polled tcp) c ≡ some (http_close_conn tcp c.pcb)
unfolding handle_event poll_to http_poll
ended_poll tcp handler c e = ap (poll_to tcp handler c.pcb) e

run_ended :
    (handler : Option SsiHandler) (tcps : List Tcp) (c : Conn)
    → c.hs ≡ none
    → HasEnded (run handler (polls tcps) c)
unfolding run http_close_conn
run_ended handler [] c e = e
run_ended handler (tcp ∷ tcps) c e =
    rw (ended_poll tcp handler c e) (run_ended handler tcps (http_close_conn tcp c.pcb) refl)

handle_event-Counted :
    (tcp : Tcp) (handler : Option SsiHandler) (c : Conn)
    → retries_of c.hs < httpd_max_retries
    → IsCounted (retries_of c.hs) (handle_event handler (polled tcp) c)
unfolding handle_event http_poll
handle_event-Counted tcp handler c lt = poll_to-Counted tcp handler c.pcb c.hs lt

Counted-cases :
    (r n : ℕ) (hs : Option HttpState)
    → Counted r hs
    → httpd_max_retries ≤ r + suc n
    → (hs ≡ none) ⊎ (retries_of hs < httpd_max_retries) × (httpd_max_retries ≤ retries_of hs + n)
Counted-cases r n none k enough = inl refl
Counted-cases r n (some hs) k enough = inr (omega (arith, k.0, k.1), omega (arith, k.0, enough))

-- From a valid state with fewer than 4 retries counted, calls of `http_poll` alone, as many as are missing to 4
-- or more, whatever TCP answers to them, make the server give the connection up.
pub run-HasEnded :
    (handler : Option SsiHandler) (all : Bytes) (tcps : List Tcp) (c : Conn)
    → Fits handler
    → OnTheWay handler all c.pcb.sent c.hs
    → retries_of c.hs < httpd_max_retries
    → httpd_max_retries ≤ retries_of c.hs + length tcps
    → HasEnded (run handler (polls tcps) c)
unfolding run
run-HasEnded handler all [] c fits way lt enough = absurd (omega (arith, lt, enough))
run-HasEnded handler all (tcp ∷ tcps) c fits way lt enough =
    go (handle_event handler (polled tcp) c)
      (handle_event-OnTheWay handler all (polled tcp) c fits way)
      (handle_event-Counted tcp handler c lt) (run-HasEnded handler all tcps)
  where
    go :
        (r : Option Conn)
        → IsOnTheWay handler all r
        → IsCounted (retries_of c.hs) r
        → ((d : Conn)
            → Fits handler
            → OnTheWay handler all d.pcb.sent d.hs
            → retries_of d.hs < httpd_max_retries
            → httpd_max_retries ≤ retries_of d.hs + length tcps
            → HasEnded (run handler (polls tcps) d))
        → HasEnded (do d ← r; run handler (polls tcps) d)
    go none way k f = absurd way
    go (some d) way k f =
        elim (Counted-cases (retries_of c.hs) (length tcps) d.hs k (omega (arith, enough))) [
          | inl e ↦ run_ended handler tcps d e
          | inr h ↦ f d fits way h.0 h.1
        ]

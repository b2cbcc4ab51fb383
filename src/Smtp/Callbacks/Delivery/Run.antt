-- ===== src/Smtp/Callbacks/Delivery/Run.antt =====
-- Each callback keeps the invariant of `Delivery`, and so does every sequence of them.
use scion_lwip_contrib.Base.{
  ◌≤◌, Bool, true, false, not, ◌||◌, List, [], ◌∷◌, ◌++◌, Option, none, some, Bytes, length,
  Bool-cases, inl, inr, ◌==◌, ◌≡◌, refl, ap, ◌∙◌, subst, arith,
}
use scion_lwip_contrib.Lwip.{PbufReaders, Err, is_ok, bind-eq-some}
use scion_lwip_contrib.Smtp.Types.{
  SessionState, Session, Outcome, Client, MailResult, Replies, state_num,
}
use scion_lwip_contrib.Smtp.Response.{smtp_is_response, smtp_is_response_finished}
use scion_lwip_contrib.Smtp.Process.{
  smtp_free, dispatch, respond, process_received, process_idle, smtp_process,
}
use scion_lwip_contrib.Smtp.Callbacks.{
  Event, poll, acked, received, remote_closed, connected, resolved, reset, tick, smtp_tcp_err,
  smtp_tcp_poll, smtp_tcp_sent, smtp_tcp_recv, smtp_tcp_connected, smtp_dns_found, step, run,
}
use scion_lwip_contrib.Smtp.Callbacks.Delivery.{
  Alive, Delivered, InvOf, Inv, smtp_free-Inv, smtp_close-Inv,
}
use scion_lwip_contrib.Smtp.Callbacks.Delivery.Body.{smtp_send_body-Alive}
use scion_lwip_contrib.Smtp.Callbacks.Delivery.Step.{finish_step-Inv}

-- A result that a connection already has keeps the invariant.
some-Inv : (m : Session) (c d : Client) → some c ≡ some d → Inv m c → Inv m d
some-Inv m c d e h = let same : c ≡ d = cc in subst (Inv m) same h

module _ (m : Session) (short : length m.text ≤ 65535) (pb : PbufReaders) where
  respond-Inv :
      (r : Replies) (s : Session) (c d : Client)
      → Alive m s c.sent
      → c.outcomes ≡ []
      → respond pb r s c ≡ some d
      → Inv m d
  unfolding respond
  respond-Inv r s c d a fresh e = elim (Bool-cases (smtp_is_response pb s.p == 0)) [
    | inl unknown ↦ some-Inv m _ d (rw unknown at e) (a, fresh)
    | inr known ↦
        let (finished, found, rest) =
          bind-eq-some (smtp_is_response_finished pb s.p) _ (rw known at e) in
        elim (Bool-cases (not finished || state_num s.state == 11)) [
          | inl wait ↦ some-Inv m _ d (rw wait at rest) (a, fresh)
          | inr go ↦
              let (ready, made, end) =
                bind-eq-some (dispatch pb s.state r (smtp_is_response pb s.p) s) _
                  (rw go at rest) in
              some-Inv m _ d end (
                finish_step-Inv m short pb r (smtp_is_response pb s.p) s ready c.sent a made c refl
                  fresh)
        ]
  ]

  process_received-Inv :
      (r : Replies) (q : Bytes) (s : Session) (c d : Client)
      → Alive m s c.sent
      → c.outcomes ≡ []
      → process_received pb r q s c ≡ some d
      → Inv m d
  unfolding process_received
  process_received-Inv r q s c d a fresh e = go s.p e
    where
      go :
          (o : Option Bytes)
          → elim o [
            | none ↦ respond pb r (record s { p = some q }) c
            | some old ↦ respond pb r (record s { p = some (old ++ q) }) c
          ]
            ≡ some d
          → Inv m d
      go none h = respond-Inv r (record s { p = some q }) c d a fresh h
      go (some old) h = respond-Inv r (record s { p = some (old ++ q) }) c d a fresh h

  process_idle-Inv :
      (r : Replies) (s : Session) (c d : Client)
      → Alive m s c.sent
      → c.outcomes ≡ []
      → process_idle pb r s c ≡ some d
      → Inv m d
  unfolding process_idle
  process_idle-Inv r s c d a fresh e = elim (Bool-cases (s.timer == 0)) [
    | inl late ↦
        some-Inv m _ d (rw late at e)
          (smtp_close-Inv m (some s) r MailResult.err_timeout 0 Err.timeout c (λ k. cc) (a, fresh))
    | inr early ↦ elim (Bool-cases (state_num s.state == 9)) [
      | inl sending ↦
          some-Inv m _ d (rw (early, sending) at e)
            (smtp_send_body-Alive m short r s c.sent a, fresh)
      | inr waiting ↦ respond-Inv r s c d a fresh (rw (early, waiting) at e)
    ]
  ]

  smtp_process-Inv :
      (r : Replies) (p : Option Bytes) (o : Option Session) (c d : Client)
      → InvOf m o c.sent c.outcomes
      → smtp_process pb r p (record c { session = o }) ≡ some d
      → Inv m d
  unfolding smtp_process
  smtp_process-Inv r p none c d inv e = some-Inv m _ d e inv
  smtp_process-Inv r none (some s) c d inv e =
      process_idle-Inv r s (record c { session = some s }) d inv.0 inv.1 e
  smtp_process-Inv r (some q) (some s) c d inv e =
      process_received-Inv r q s (record c { session = some s }) d inv.0 inv.1 e

  tick-Alive : (s : Session) (sent : Bytes) → Alive m s sent → Alive m (tick s) sent
  tick-Alive s sent a = elim (Bool-cases (s.timer == 0)) [ inl z ↦ rw z a | inr z ↦ rw z a ]

  poll-Inv : (r : Replies) (c d : Client) → Inv m c → smtp_tcp_poll pb r c ≡ some d → Inv m d
  unfolding smtp_tcp_poll
  poll-Inv r c d inv e = go c.session inv e
    where
      go :
          (o : Option Session)
          → InvOf m o c.sent c.outcomes
          → elim o [
            | none ↦ smtp_process pb r none c
            | some s ↦ smtp_process pb r none (record c { session = some (tick s) })
          ]
            ≡ some d
          → Inv m d
      go none h k = smtp_process-Inv r none c.session c d inv k
      go (some s) h k = smtp_process-Inv r none (some (tick s)) c d (tick-Alive s c.sent h.0, h.1) k

  connected-Inv :
      (r : Replies) (err : Err) (c : Client) → Inv m c → Inv m (smtp_tcp_connected r err c)
  unfolding smtp_tcp_connected
  connected-Inv r err c inv = elim (Bool-cases (is_ok err)) [
    | inl fine ↦ rw fine inv
    | inr failed ↦
        rw failed (smtp_close-Inv m c.session r MailResult.err_connect 0 err c (λ k. cc) inv)
  ]

  resolved-Inv :
      (r : Replies) (found : Bool) (c : Client) → Inv m c → Inv m (smtp_dns_found r found c)
  unfolding smtp_dns_found
  resolved-Inv r false c inv =
      smtp_close-Inv m c.session r MailResult.err_hostname 0 Err.arg c (λ k. cc) inv
  resolved-Inv r true c inv = elim (Bool-cases (is_ok r.connect)) [
    | inl fine ↦ rw fine inv
    | inr failed ↦
        rw failed (smtp_close-Inv m c.session r MailResult.err_connect 0 r.connect c (λ k. cc) inv)
  ]

  reset-Inv : (err : Err) (c : Client) → Inv m c → Inv m (smtp_tcp_err err c)
  unfolding smtp_tcp_err
  reset-Inv err c inv = go c.session inv
    where
      go :
          (o : Option Session)
          → InvOf m o c.sent c.outcomes
          → Inv m (elim o [ none ↦ c | some s ↦ smtp_free s MailResult.err_closed 0 err c ])
      go none h = inv
      go (some s) h = smtp_free-Inv m s MailResult.err_closed 0 err c h.1 (λ k. cc)

  -- Every callback keeps the invariant.
  pub step-Inv : (e : Event) (c d : Client) → Inv m c → step pb e c ≡ some d → Inv m d
  unfolding step smtp_tcp_sent smtp_tcp_recv
  step-Inv (poll r) c d inv e = poll-Inv r c d inv e
  step-Inv (acked r) c d inv e = smtp_process-Inv r none c.session c d inv e
  step-Inv (received r q) c d inv e = smtp_process-Inv r (some q) c.session c d inv e
  step-Inv (remote_closed r err) c d inv e =
      some-Inv m _ d e (smtp_close-Inv m c.session r MailResult.err_closed 0 err c (λ k. cc) inv)
  step-Inv (connected r err) c d inv e = some-Inv m _ d e (connected-Inv r err c inv)
  step-Inv (resolved r found) c d inv e = some-Inv m _ d e (resolved-Inv r found c inv)
  step-Inv (reset err) c d inv e = some-Inv m _ d e (reset-Inv err c inv)

  pub run-Inv : (es : List Event) (c d : Client) → Inv m c → run pb es c ≡ some d → Inv m d
  unfolding run
  run-Inv [] c d inv e = some-Inv m c d e inv
  run-Inv (ev ∷ es) c d inv e =
      let (c', stepped, rest) = bind-eq-some (step pb ev c) _ e in
      run-Inv es c' d (step-Inv ev c c' inv stepped) rest

-- The connection of a new session.
abbrev pub fresh_client : Session → Client
fresh_client m = record { session = some m; sent = []; outcomes = []; is_closed = false }

-- A session as `smtp_send_mail_alloced` leaves it.
pub record IsNew (m : Session) : Type 0 where
  pub at_start : m.state ≡ SessionState.null
  pub nothing_sent : m.body_sent ≡ 0
  pub buffer : length m.tx_buf ≡ 256
  pub short : length m.text ≤ 65535

fresh-Inv : (m : Session) → IsNew m → Inv m (fresh_client m)
fresh-Inv m new = ((refl, refl, refl, refl, new.buffer, rw new.at_start new.nothing_sent), refl)

once_of_InvOf :
    (m : Session) (o : Option Session) (sent : Bytes) (outcomes : List Outcome)
    → InvOf m o sent outcomes
    → length outcomes ≤ 1
once_of_InvOf m (some s) sent outcomes h = rw h.1 (omega arith)
once_of_InvOf m none sent outcomes (inl e) = rw e (omega arith)
once_of_InvOf m none sent outcomes (inr (o, e, told)) = rw e (omega arith)

told_of_InvOf :
    (m : Session) (p : Option Session) (sent : Bytes) (outcomes : List Outcome) (o : Outcome)
    → InvOf m p sent outcomes
    → outcomes ≡ o ∷ []
    → o.result ≡ MailResult.ok
    → Delivered m sent
told_of_InvOf m (some s) sent outcomes o h e good = cc h.1
told_of_InvOf m none sent outcomes o (inl e') e good = cc
told_of_InvOf m none sent outcomes o (inr (o', e', told)) e good =
    let same : o' ≡ o = cc in told (ap (λ (x : Outcome). x.result) same ∙ good)

module _ (m : Session) (new : IsNew m) (pb : PbufReaders) (es : List Event) (d : Client)
    (ran : run pb es (fresh_client m) ≡ some d) where
  -- After any callbacks of lwIP in any order that do not fault, from a new session on, the user's callback was
  -- called once at most.
  pub callback_once : length d.outcomes ≤ 1
  callback_once =
      once_of_InvOf m d.session d.sent d.outcomes
        (run-Inv m new.short pb es (fresh_client m) d (fresh-Inv m new) ran)

  -- If after such callbacks the user's callback was called with success, the bytes written to the connection
  -- end with the mail's header lines, its whole text in order, the end mark and QUIT.
  pub success_delivers :
      (o : Outcome) → d.outcomes ≡ o ∷ [] → o.result ≡ MailResult.ok → Delivered m d.sent
  success_delivers o told good =
      told_of_InvOf m d.session d.sent d.outcomes o
        (run-Inv m new.short pb es (fresh_client m) d (fresh-Inv m new) ran) told good

-- ===== src/Smtp/Callbacks/Delivery/Step.antt =====
-- A command that `smtp_process` writes keeps the invariant of `Delivery`.
use Prim.Native.Nat.{zero-le}
use scion_lwip_contrib.Base.{
  ℕ, ◌≤◌, Bool, true, false, [], ◌++◌, append-nil, append_assoc, inl, inr, none, some, Bytes, codes,
  length, take, ltb, Bool-cases, ◌==◌, ==_iff, if◌then◌else◌, ◌≡◌, refl, ap, ◌∙◌, sym, subst,
}
use scion_lwip_contrib.Lwip.{PbufReaders, Err, is_ok}
use scion_lwip_contrib.Smtp.Types.{
  SessionState, Session, Client, MailResult, Replies, state_num, smtp_timeout,
}
use scion_lwip_contrib.Smtp.Prepare.{Prepared}
use scion_lwip_contrib.Smtp.Prepare.Commands.{header_lines}
use scion_lwip_contrib.Smtp.Prepare.Keeps.{Kept}
use scion_lwip_contrib.Smtp.Prepare.Header.{header-Ready, quit-Ready}
use scion_lwip_contrib.Smtp.Process.{unchanged, dispatch, after_write, finish_step}
use scion_lwip_contrib.Smtp.Callbacks.Protocol.{Edge, Moves, chosen, dispatch-Moves}
use scion_lwip_contrib.Smtp.Callbacks.Delivery.{
  mail_bytes, EndsWith, Progress, Alive, Delivered, Inv, smtp_free-Inv, smtp_close-Inv,
}
use scion_lwip_contrib.Smtp.Callbacks.Delivery.Body.{smtp_send_body-Alive}

-- What a written command must establish: the progress of the next state, or the whole mail.
abbrev Post : SessionState → Session → ℕ → Bytes → Type 0
Post SessionState.closed m n sent = Delivered m sent
Post SessionState.body m n sent = Progress SessionState.body m n sent
Post st m n sent = Progress st m n sent

-- The session's part of `Alive` that does not depend on the state.
abbrev Carries : Session → Session → Type 0
Carries m s =
    (s.sender ≡ m.sender)
    × (s.to ≡ m.to)
    × (s.subject ≡ m.subject)
    × (s.text ≡ m.text)
    × (length s.tx_buf ≡ 256)

Kept-Alive : (m s t : Session) (sent : Bytes) → Kept s t → Alive m s sent → Alive m t sent
Kept-Alive m s t sent k a =
    subst (λ u. Alive m u sent) (sym k.same) (a.0, a.1, a.2, a.3, k.size ∙ a.4, a.5)

module _ (m : Session) (short : length m.text ≤ 65535) where
  after_write-Inv :
      (next : SessionState) (r : Replies) (s : Session) (c : Client)
      → Carries m s
      → Post next m s.body_sent c.sent
      → c.outcomes ≡ []
      → Inv m (after_write r next (record s { state = next }) c)
  unfolding after_write
  after_write-Inv SessionState.body r s c a p fresh = (
    smtp_send_body-Alive m short r (record s { state = SessionState.body }) c.sent
        (a.0, a.1, a.2, a.3, a.4, p),
    fresh,
  )
  after_write-Inv SessionState.closed r s c a p fresh =
      smtp_free-Inv m _ MailResult.ok 0 Err.ok c fresh (λ _. p)
  after_write-Inv SessionState.null r s c a p fresh = ((a.0, a.1, a.2, a.3, a.4, p), fresh)
  after_write-Inv _ r s c a p fresh = ((a.0, a.1, a.2, a.3, a.4, p), fresh)

  header_after :
      (s : Session) (bytes sent : Bytes) (n : ℕ)
      → Alive m s sent
      → n ≡ 0
      → bytes ≡ header_lines s
      → Progress SessionState.body m n (sent ++ bytes)
  header_after s bytes sent n a z h =
      rw (z, h, a.0, a.1, a.2)
        (zero-le, (sent, ap (λ u. sent ++ u) (sym (append-nil (header_lines m)))))

  quit_after :
      (bytes sent : Bytes)
      → EndsWith sent (mail_bytes m)
      → bytes ≡ codes "QUIT\r\n"
      → Delivered m (sent ++ bytes)
  quit_after bytes sent (before, e) h =
      (before, rw (e, h) (append_assoc before (mail_bytes m) (codes "QUIT\r\n")))

  -- What was sent, at a state that is known.
  Progress-at :
      (s : Session) (sent : Bytes) (st : SessionState)
      → s.state ≡ st
      → Alive m s sent
      → Progress st m s.body_sent sent
  Progress-at s sent st e a = subst (λ x. Progress x m s.body_sent sent) e a.5

  module _ (pb : PbufReaders) (r : Replies) (code : ℕ) (s : Session) (ready : Prepared)
      (sent : Bytes) (a : Alive m s sent) (made : dispatch pb s.state r code s ≡ some ready) where
    moves : Moves code s ready
    moves = dispatch-Moves pb r code s a.4 s.state refl made

    body_sent_kept : ready.session.body_sent ≡ s.body_sent
    body_sent_kept = ap (λ (u : Session). u.body_sent) moves.kept.same

    abbrev bytes : Bytes
    bytes = take ready.tx_len ready.session.tx_buf

    dispatch_at : (st : SessionState) → s.state ≡ st → dispatch pb st r code s ≡ some ready
    dispatch_at st e = subst (λ x. dispatch pb x r code s ≡ some ready) e made

    header_bytes :
        s.state ≡ SessionState.dat → ready.next_state ≡ SessionState.body → bytes ≡ header_lines s
    unfolding dispatch unchanged
    header_bytes e n = elim (chosen (code == 354) (dispatch_at SessionState.dat e)) [
      | inl (c, prepared) ↦ (header-Ready s a.4 prepared).is_command
      | inr same ↦ cc
    ]

    quit_bytes :
        s.state ≡ SessionState.quit
        → ready.next_state ≡ SessionState.closed
        → bytes ≡ codes "QUIT\r\n"
    unfolding dispatch unchanged
    quit_bytes e n = elim (chosen (code == 250) (dispatch_at SessionState.quit e)) [
      | inl (c, prepared) ↦ (quit-Ready s a.4 prepared).is_command
      | inr same ↦ cc
    ]

    -- Nothing of the text was sent before, nor is it by this step.
    untouched :
        (st : SessionState)
        → s.state ≡ st
        → (Progress st m s.body_sent sent → s.body_sent ≡ 0)
        → ready.session.body_sent ≡ 0
    untouched st e zero_at = body_sent_kept ∙ zero_at (Progress-at s sent st e a)

    written :
        (x y : SessionState)
        → Edge code x y
        → s.state ≡ x
        → ready.next_state ≡ y
        → (state_num x == state_num y) ≡ false
        → Post y m ready.session.body_sent (sent ++ bytes)
    written x y (Edge.stay e) hx hy d =
        absurd (cc ((==_iff (state_num x) (state_num y)).1 (ap state_num e)))
    written x y (Edge.greeting c) hx hy d = untouched x hx (λ p. p)
    written x y (Edge.login_plain c) hx hy d = untouched x hx (λ p. p)
    written x y (Edge.login_name c) hx hy d = untouched x hx (λ p. p)
    written x y (Edge.no_login c) hx hy d = untouched x hx (λ p. p)
    written x y (Edge.name_asked c) hx hy d = untouched x hx (λ p. p)
    written x y (Edge.pass_asked c) hx hy d = untouched x hx (λ p. p)
    written x y (Edge.logged_in c) hx hy d = untouched x hx (λ p. p)
    written x y (Edge.logged_in_plain c) hx hy d = untouched x hx (λ p. p)
    written x y (Edge.sender_taken c) hx hy d = untouched x hx (λ p. p)
    written x y (Edge.receiver_taken c) hx hy d = untouched x hx (λ p. p)
    written x y (Edge.text_asked c) hx hy d =
        header_after s bytes sent _ a (untouched x hx (λ p. p)) (header_bytes hx hy)
    written x y (Edge.text_taken c) hx hy d =
        quit_after bytes sent (Progress-at s sent x hx a) (quit_bytes hx hy)

    pub finish_step-Inv :
        (c : Client) → c.sent ≡ sent → c.outcomes ≡ [] → Inv m (finish_step r code s.state ready c)
    unfolding finish_step
    finish_step-Inv c same_sent fresh =
        elim (Bool-cases (state_num s.state == state_num ready.next_state)) [
          | inl stays ↦ rw stays (
              smtp_close-Inv m (some ready.session) r MailResult.err_svr_resp code Err.ok c
                (λ e. cc) (kept, fresh))
          | inr goes ↦ rw goes (on_write goes (ltb 0 ready.tx_len) (is_ok r.write_command))
        ]
      where
        kept : Alive m ready.session c.sent
        kept = rw same_sent (Kept-Alive m s ready.session sent moves.kept a)

        next : Session
        next = record ready.session { timer = smtp_timeout; p = none; state = ready.next_state }

        taken : Client
        taken = record c { sent = c.sent ++ bytes }

        on_write :
            (state_num s.state == state_num ready.next_state) ≡ false
            → (b d : Bool)
            → Inv m (
                if b
                then if d
                  then after_write r ready.next_state next taken
                  else record c { session = some ready.session }
                else record c { session = some ready.session })
        on_write goes true true =
            after_write-Inv ready.next_state r next taken (kept.0, kept.1, kept.2, kept.3, kept.4)
              (rw same_sent (written s.state ready.next_state moves.edge refl refl goes)) fresh
        on_write goes true false = (kept, fresh)
        on_write goes false _ = (kept, fresh)

-- ===== src/Smtp/Callbacks/Delivery/Body.antt =====
-- `smtp_send_body` sends the text in order, each byte once, whatever `tcp_write` and `tcp_sndbuf` answer.
use scion_lwip_contrib.Base.{
  ℕ, ◌+◌, ◌≤◌, Bool, true, false, ◌++◌, append_assoc, Bytes, codes, length, take, drop,
  take-take-drop, take-all, Bool-cases, inl, inr, ltb, ◌==◌, ==_iff, subst, if◌then◌else◌, ◌≡◌,
  refl, ap, sym, arith,
}
use scion_lwip_contrib.Lwip.{is_ok}
use scion_lwip_contrib.Smtp.Types.{
  SessionState, Session, Replies, u16, timeout_datablock, timeout_dataterm, state_num,
}
use scion_lwip_contrib.Smtp.Prepare.Commands.{header_lines}
use scion_lwip_contrib.Smtp.Process.{Sending, send_len, send_part, send_end, smtp_send_body}
use scion_lwip_contrib.Smtp.Callbacks.Delivery.{mail_bytes, EndsWith, Progress, Alive}

module _ (m : Session) (short : length m.text ≤ 65535) where
  -- A write of `n` more bytes of the text.
  more_sent :
      (n k : ℕ) (sent : Bytes)
      → EndsWith sent (header_lines m ++ take n m.text)
      → EndsWith (sent ++ take k (drop n m.text)) (header_lines m ++ take (n + k) m.text)
  more_sent n k sent (before, e) = (before, rw e (simp (append_assoc, take-take-drop n k m.text)))

  send_len-le :
      (sndbuf : ℕ) (s : Session)
      → s.text ≡ m.text
      → s.body_sent ≤ length m.text
      → s.body_sent + send_len sndbuf s ≤ length m.text
  unfolding send_len
  send_len-le sndbuf s e h = ground (arith, ap length e)

  -- What is left when the text is being sent.
  at_body :
      (s : Session) {sent : Bytes}
      → s.state ≡ SessionState.body
      → Alive m s sent
      → Progress SessionState.body m s.body_sent sent
  at_body s {sent} st (_, _, _, _, _, p) = subst (λ x. Progress x m s.body_sent sent) st p

  Progress-ap :
      (st : SessionState) (n k : ℕ) (sent : Bytes)
      → st ≡ SessionState.body
      → n ≡ k
      → Progress SessionState.body m k sent
      → Progress st m n sent
  Progress-ap st n k sent e d p = rw (e, d) p

  send_part-Alive :
      (r : Replies) (s : Session) (sent : Bytes)
      → s.state ≡ SessionState.body
      → Alive m s sent
      → (Alive m (send_part r s sent).session (send_part r s sent).sent)
        × ((send_part r s sent).session.state ≡ SessionState.body)
  unfolding send_part
  send_part-Alive r s sent st a = go (ltb 0 (send_len r.sndbuf s)) (is_ok r.write_body)
    where
      n : ℕ
      n = send_len r.sndbuf s

      room : s.body_sent + n ≤ length m.text
      room = send_len-le r.sndbuf s a.3 (at_body s st a).0

      ends :
          EndsWith
            (sent ++ take n (drop s.body_sent s.text))
            (header_lines m ++ take (s.body_sent + n) m.text)
      ends =
          subst
            (λ t.
              EndsWith (sent ++ take n (drop s.body_sent t))
                (header_lines m ++ take (s.body_sent + n) m.text))
            (sym a.3) (more_sent s.body_sent n sent (at_body s st a).1)

      full : Sending
      full = record {
        session = record s { timer = timeout_datablock; body_sent = u16 (s.body_sent + n) };
        sent = sent ++ take n (drop s.body_sent s.text);
      }

      same : Sending
      same = record { session = s; sent = sent }

      go :
          (b d : Bool)
          → (let w = if b then if d then full else same else same in
              Alive m w.session w.sent × (w.session.state ≡ SessionState.body))
      go true true = (
        (
          a.0,
          a.1,
          a.2,
          a.3,
          a.4,
          Progress-ap s.state (u16 (s.body_sent + n)) (s.body_sent + n) _ st (omega (arith, room))
              (room, ends),
        ),
        st,
      )
      go true false = (a, st)
      go false _ = (a, st)

  send_end-Alive :
      (r : Replies) (w : Sending)
      → w.session.state ≡ SessionState.body
      → Alive m w.session w.sent
      → Alive m (send_end r w).session (send_end r w).sent
  unfolding send_end
  send_end-Alive r w st a = elim (Bool-cases (w.session.body_sent == length w.session.text)) [
    | inl done ↦ rw done (finished (is_ok r.write_end) ((==_iff _ _).0 done))
    | inr more ↦ rw more a
  ]
    where
      closing : Sending
      closing = record {
        session = record w.session { timer = timeout_dataterm; state = SessionState.quit };
        sent = w.sent ++ codes "\r\n.\r\n";
      }

      ended :
          w.session.body_sent ≡ length w.session.text
          → EndsWith (w.sent ++ codes "\r\n.\r\n") (mail_bytes m)
      ended done =
          let (before, e) = (at_body w.session st a).1 in
          (
            before,
            rw (e, done, a.3, take-all (length m.text) m.text (omega arith)) (simp append_assoc),
          )

      finished :
          (b : Bool)
          → w.session.body_sent ≡ length w.session.text
          → (let v = if b then closing else w in Alive m v.session v.sent)
      finished true done = (a.0, a.1, a.2, a.3, a.4, ended done)
      finished false done = a

  -- Sending more of the text keeps the order and loses nothing.
  pub smtp_send_body-Alive :
      (r : Replies) (s : Session) (sent : Bytes)
      → Alive m s sent
      → Alive m (smtp_send_body r s sent).session (smtp_send_body r s sent).sent
  unfolding smtp_send_body
  smtp_send_body-Alive r s sent a = elim (Bool-cases (state_num s.state == 9)) [
    | inl yes_body ↦ rw yes_body (
        let (b, st) = send_part-Alive r s sent (is_body s.state yes_body) a in
        send_end-Alive r (send_part r s sent) st b)
    | inr other ↦ rw other a
  ]
    where
      is_body : (st : SessionState) → (state_num st == 9) ≡ true → st ≡ SessionState.body
      is_body SessionState.body e = refl
      is_body SessionState.null e = cc
      is_body _ e = cc

-- ===== src/Smtp/Send/Start.antt =====
-- The start of a mail: what `smtp_send_mail` hands to the connection, and its error paths.
use scion_lwip_contrib.Base.{
  ◌↔◌, Bool, leb, lt→leb_false, ◌%◌, ◌^◌, ℕ, ◌+◌, ◌-◌, ◌≤◌, true, false, not, none, some,
  Bool-cases, inl, inr, length, copy_to, ltb, ◌≡◌, refl, ap, sym, subst, ◌∙◌, arith,
}
use scion_lwip_contrib.Lwip.{Err, is_ok, bind-eq-some}
use scion_lwip_contrib.Smtp.Types.{SessionState, Session}
use scion_lwip_contrib.Smtp.Verify.{smtp_verify}
use scion_lwip_contrib.Smtp.Callbacks.Delivery.Run.{IsNew}
use scion_lwip_contrib.Smtp.Send.Copied.{copied_session-new_session}
use scion_lwip_contrib.Smtp.Send.{
  Settings, StartReplies, Started, Request, read_bytes, auth_copied, copy_auth, checks_pass,
  connect_or_wait, new_session, smtp_send_mail_alloced, smtp_send_mail,
}

-- `smtp_verify` accepts the mail's four texts.
pub record IsVerified (s : Session) : Type 0 where
  pub to : smtp_verify s.to false ≡ Err.ok
  pub sender : smtp_verify s.sender false ≡ Err.ok
  pub subject : smtp_verify s.subject false ≡ Err.ok
  pub text : smtp_verify s.text false ≡ Err.ok

-- A mail that passes the checks, with a connection at hand, faults where `smtp_set_auth` has not
-- succeeded before: the length of the login data is still 0, one less is the largest `size_t`, and `memcpy` reads
-- past the end of `smtp_auth_plain`, an array of 67 bytes.
pub smtp_send_mail_alloced_without_auth :
    (r : StartReplies) (g : Settings) (s : Session)
    → IsVerified s
    → r.has_pcb ≡ true
    → length g.auth_plain ≡ 67
    → g.auth_plain_len ≡ 0
    → smtp_send_mail_alloced r g s ≡ none
unfolding smtp_send_mail_alloced copy_auth checks_pass read_bytes
smtp_send_mail_alloced_without_auth r g s v h size z =
    let long : leb (1 + auth_copied g) (length g.auth_plain) ≡ false = rw z (
      lt→leb_false (1 + (0 + (2 ^ 64 - 1)) % 2 ^ 64) (length g.auth_plain) (omega (arith, size))) in
    rw (v.to, v.sender, v.subject, v.text, h, long) refl

is_ok_lem : (e : Err) → is_ok e ≡ true → e ≡ Err.ok
unfolding is_ok
is_ok_lem e h = ground arith

IsVerified-checks_pass : (s : Session) → IsVerified s → checks_pass s ≡ true
unfolding checks_pass
IsVerified-checks_pass s v = rw (v.to, v.sender, v.subject, v.text) refl

checks_pass-IsVerified : (s : Session) → checks_pass s ≡ true → IsVerified s
unfolding checks_pass
checks_pass-IsVerified s h = record {
  to = is_ok_lem (smtp_verify s.to false) (ground arith);
  sender = is_ok_lem (smtp_verify s.sender false) (ground arith);
  subject = is_ok_lem (smtp_verify s.subject false) (ground arith);
  text = is_ok_lem (smtp_verify s.text false) (ground arith);
}

-- Behind the checks, what is not in use is freed.
connect_or_wait-freed :
    (r : StartReplies) (t : Session)
    → (connect_or_wait r t).session ≡ none
    → (connect_or_wait r t).freed ≡ true
unfolding connect_or_wait
connect_or_wait-freed r t h = ground arith

checked-freed :
    (r : StartReplies) (g : Settings) (s : Session) (st : Started)
    → checks_pass s ≡ true
    → smtp_send_mail_alloced r g s ≡ some st
    → st.session ≡ none
    → st.freed ≡ true
unfolding smtp_send_mail_alloced
checked-freed r g s st good e lost = elim (Bool-cases (not r.has_pcb)) [
  | inl no_pcb ↦
      let same : some (record { err = Err.mem; session = none; freed = true }) ≡ some st =
        rw (good, no_pcb) at e in
      cc
  | inr pcb ↦
      let (t, copied, rest) = bind-eq-some (copy_auth g s) _ (rw (good, pcb) at e) in
      let same : connect_or_wait r (record t { state = SessionState.null; timer = 240 }) ≡ st =
        cc in
      subst (λ (x : Started). x.session ≡ none → x.freed ≡ true) same
        (connect_or_wait-freed r (record t { state = SessionState.null; timer = 240 })) lost
]

-- A start that does not fault loses the session's memory, which is then neither freed nor in use by the connection,
-- exactly where `smtp_verify` refuses one of the mail's texts.
pub smtp_send_mail_alloced_leaks :
    (r : StartReplies) (g : Settings) (s : Session) (st : Started)
    → smtp_send_mail_alloced r g s ≡ some st
    → ((st.session ≡ none) × (st.freed ≡ false)) ↔ (¬ IsVerified s)
unfolding smtp_send_mail_alloced
smtp_send_mail_alloced_leaks r g s st e = elim (Bool-cases (checks_pass s)) [
  | inl good ↦ (
    λ lost. absurd (clash (checked-freed r g s st good e lost.0) lost.1),
    λ bad. absurd (bad (checks_pass-IsVerified s good)),
  )
  | inr bad ↦
      let same : some (record { err = Err.arg; session = none; freed = false }) ≡ some st =
        rw bad at e in
      (λ lost v. clash (IsVerified-checks_pass s v) bad, λ refused. (cc, cc))
]
  where
    clash : {b : Bool} → b ≡ true → b ≡ false → ⊥
    clash t f = cc

-- The start sets state and timer and copies the login data, and nothing else of the session changes.
pub record Follows (s live : Session) : Type 0 where
  pub state : live.state ≡ SessionState.null
  pub timer : live.timer ≡ 240
  pub tx_buf : live.tx_buf ≡ s.tx_buf
  pub sender : live.sender ≡ s.sender
  pub to : live.to ≡ s.to
  pub subject : live.subject ≡ s.subject
  pub text : live.text ≡ s.text
  pub body_sent : live.body_sent ≡ s.body_sent
  pub callback : live.callback ≡ s.callback

copy_auth-Follows :
    (g : Settings) (s t : Session)
    → copy_auth g s ≡ some t
    → Follows s (record t { state = SessionState.null; timer = 240 })
unfolding copy_auth
copy_auth-Follows g s t e =
    let (data_bytes, read, more) = bind-eq-some (read_bytes g.auth_plain 1 (auth_copied g)) _ e in
    let (bytes, copied, rest) = bind-eq-some (copy_to s.auth_plain 1 data_bytes) _ more in
    ground (arith, rest)

connect_or_wait-live :
    (r : StartReplies) (t : Session) {live : Session}
    → (connect_or_wait r t).session ≡ some live
    → (t ≡ live) × ((connect_or_wait r t).err ≡ Err.ok) × ((connect_or_wait r t).freed ≡ false)
unfolding connect_or_wait
connect_or_wait-live r t l = ground arith

-- A start that leaves a session has gone on to the connection.
pub alloced-Follows :
    (r : StartReplies) (g : Settings) (s : Session) {st : Started} {live : Session}
    → smtp_send_mail_alloced r g s ≡ some st
    → st.session ≡ some live
    → Follows s live × (st.err ≡ Err.ok) × (st.freed ≡ false)
unfolding smtp_send_mail_alloced
alloced-Follows r g s {st} {live} e l = elim (Bool-cases (not (checks_pass s))) [
  | inl bad ↦
      absurd
        (no_session (record { err = Err.arg; session = none; freed = false }) (rw bad at e) refl)
  | inr good ↦ elim (Bool-cases (not r.has_pcb)) [
    | inl no_pcb ↦ absurd (
        no_session (record { err = Err.mem; session = none; freed = true }) (rw (good, no_pcb) at e)
          refl)
    | inr pcb ↦
        let (t, copied, rest) = bind-eq-some (copy_auth g s) _ (rw (good, pcb) at e) in
        connected t copied rest
  ]
]
  where
    no_session : (x : Started) → some x ≡ some st → x.session ≡ none → ⊥
    no_session x h n = cc

    connected :
        (t : Session)
        → copy_auth g s ≡ some t
        → some (connect_or_wait r (record t { state = SessionState.null; timer = 240 })) ≡ some st
        → Follows s live × (st.err ≡ Err.ok) × (st.freed ≡ false)
    connected t copied h =
        let started : connect_or_wait r (record t { state = SessionState.null; timer = 240 }) ≡ st =
          cc in
        let (same, fine, kept) =
          connect_or_wait-live r _ (ap (λ (x : Started). x.session) started ∙ l) in
        (
          subst (Follows s) same (copy_auth-Follows g s t copied),
          sym (ap (λ (x : Started). x.err) started) ∙ fine,
          sym (ap (λ (x : Started). x.freed) started) ∙ kept,
        )

-- A session that `smtp_send_mail` hands to the connection is new and carries the request's four texts;
-- the call returns ERR_OK.
pub smtp_send_mail-IsNew :
    (session_size : ℕ) (r : StartReplies) (g : Settings) (q : Request) {st : Started}
    {live : Session}
    → smtp_send_mail session_size r g q ≡ some st
    → st.session ≡ some live
    → IsNew live
      × (st.err ≡ Err.ok)
      × (live.sender ≡ q.sender)
      × (live.to ≡ q.to)
      × (live.subject ≡ q.subject)
      × (live.text ≡ q.text)
      × (live.callback ≡ q.callback)
unfolding smtp_send_mail
smtp_send_mail-IsNew session_size r g q {st} {live} e l =
    let mem_len =
      session_size + (length q.sender + length q.to + length q.subject + length q.text + 4) in
    elim (Bool-cases (ltb 0xffff mem_len)) [
      | inl long ↦
          absurd (
            no_session (record { err = Err.mem; session = none; freed = false }) (rw long at e)
              refl)
      | inr fits ↦ elim (Bool-cases (not r.has_memory)) [
        | inl no_memory ↦ absurd (
            no_session (record { err = Err.mem; session = none; freed = false })
              (rw (fits, no_memory) at e) refl)
        | inr memory ↦
            let (f, fine, kept) =
              alloced-Follows r g (new_session q.sender q.to q.subject q.text q.callback)
                (rw (fits, memory, copied_session-new_session session_size q) at e) l in
            (
              record {
                at_start = f.state;
                nothing_sent = f.body_sent;
                buffer = ap length f.tx_buf;
                short = rw f.text (short fits);
              },
              fine,
              f.sender,
              f.to,
              f.subject,
              f.text,
              f.callback,
            )
      ]
    ]
  where
    no_session : (x : Started) → some x ≡ some st → x.session ≡ none → ⊥
    no_session x h n = cc

    short :
        ltb 0xffff
            (session_size + (length q.sender + length q.to + length q.subject + length q.text + 4))
          ≡ false
        → length q.text ≤ 65535
    short h = ground arith

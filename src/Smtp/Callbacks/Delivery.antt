-- ===== src/Smtp/Callbacks/Delivery.antt =====
-- apps/smtp/smtp.c: the invariant of a delivery, on what has been sent in each state and on the calls of the
-- user's callback.
pub mod Body
pub mod Step
pub mod Run
use scion_lwip_contrib.Base.{
  ℕ, ◌≤◌, Bool, true, false, List, [], ◌∷◌, ◌++◌, ◌⊎◌, inl, inr, Option, none, some, Bytes, codes,
  length, take, ◌≡◌, ◌≢◌, refl, if◌then◌else◌,
}
use scion_lwip_contrib.Lwip.{Err, is_ok}
use scion_lwip_contrib.Smtp.Types.{SessionState, Session, Outcome, Client, MailResult, Replies}
use scion_lwip_contrib.Smtp.Prepare.Commands.{header_lines}
use scion_lwip_contrib.Smtp.Process.{smtp_free, smtp_close}

-- The bytes that a mail's header, text and end make.
abbrev pub mail_bytes : Session → Bytes
mail_bytes m = header_lines m ++ (m.text ++ codes "\r\n.\r\n")

-- All that was sent ends with these bytes.
abbrev pub EndsWith : Bytes → Bytes → Type 0
EndsWith sent tail = (before : Bytes) × (sent ≡ before ++ tail)

-- How far the mail `m` is sent, by the session's state and its `body_sent`.
abbrev pub Progress : SessionState → Session → ℕ → Bytes → Type 0
Progress SessionState.body m n sent =
    (n ≤ length m.text) × EndsWith sent (header_lines m ++ take n m.text)
Progress SessionState.quit m n sent = EndsWith sent (mail_bytes m)
Progress SessionState.closed m n sent = ⊥
Progress _ m n sent = n ≡ 0

-- A session that carries the mail `m`.
abbrev pub Alive : Session → Session → Bytes → Type 0
Alive m s sent =
    (s.sender ≡ m.sender)
    × (s.to ≡ m.to)
    × (s.subject ≡ m.subject)
    × (s.text ≡ m.text)
    × (length s.tx_buf ≡ 256)
    × Progress s.state m s.body_sent sent

abbrev pub Delivered : Session → Bytes → Type 0
Delivered m sent = EndsWith sent (mail_bytes m ++ codes "QUIT\r\n")

-- While the session lives the callback has not been called. Afterwards it has been called once at
-- most, and `SMTP_RESULT_OK` was reported only for a mail that was sent whole.
abbrev pub InvOf : Session → Option Session → Bytes → List Outcome → Type 0
InvOf m (some s) sent outcomes = Alive m s sent × (outcomes ≡ [])
InvOf m none sent outcomes =
    (outcomes ≡ [])
    ⊎ ((o : Outcome) × (outcomes ≡ o ∷ []) × (o.result ≡ MailResult.ok → Delivered m sent))

abbrev pub Inv : Session → Client → Type 0
Inv m c = InvOf m c.session c.sent c.outcomes

pub smtp_free-Inv :
    (m s : Session) (result : MailResult) (srv_err : ℕ) (err : Err) (c : Client)
    → c.outcomes ≡ []
    → (result ≡ MailResult.ok → Delivered m c.sent)
    → Inv m (smtp_free s result srv_err err c)
unfolding smtp_free
smtp_free-Inv m s result srv_err err c fresh told = go s.callback
  where
    outcome : Outcome
    outcome = record { result = result; srv_err = srv_err; err = err }

    go : (b : Bool) → InvOf m none c.sent (if b then c.outcomes ++ outcome ∷ [] else c.outcomes)
    go true = inr (outcome, rw fresh, told)
    go false = inl fresh

-- Closing for any other reason than success.
pub smtp_close-Inv :
    (m : Session) (session : Option Session) (r : Replies) (result : MailResult) (srv_err : ℕ)
    (err : Err) (c : Client)
    → result ≢ MailResult.ok
    → InvOf m session c.sent c.outcomes
    → Inv m (smtp_close session r result srv_err err c)
unfolding smtp_close
smtp_close-Inv m session r result srv_err err c bad inv = go (is_ok r.close) session inv
  where
    go :
        (b : Bool) (o : Option Session)
        → InvOf m o c.sent c.outcomes
        → Inv m (
            if b
            then elim o [
              | none ↦ record c { session = none; is_closed = true }
              | some s ↦ smtp_free s result srv_err err (record c { is_closed = true })
            ]
            else record c { session = o })
    go true none h = h
    go true (some s) h =
        smtp_free-Inv m s result srv_err err (record c { is_closed = true }) h.1
          (λ e. absurd (bad e))
    go false none h = h
    go false (some s) h = h

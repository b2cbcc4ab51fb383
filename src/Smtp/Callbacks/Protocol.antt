-- ===== src/Smtp/Callbacks/Protocol.antt =====
-- The order of the protocol: which response code leads from which state to which.
use scion_lwip_contrib.Base.{
  ℕ, Bool, true, false, ◌&&◌, ◌⊎◌, inl, inr, Option, some, length, ◌==◌, ==_iff, if◌then◌else◌, ◌≡◌,
  refl, subst, arith,
}
use scion_lwip_contrib.Lwip.{PbufReaders}
use scion_lwip_contrib.Smtp.Types.{SessionState, Session, Replies}
use scion_lwip_contrib.Smtp.Prepare.{Prepared}
use scion_lwip_contrib.Smtp.Prepare.Keeps.{
  Kept, Ready, helo-Ready, mail-Ready, rcpt-Ready, uname-Ready, pass-Ready,
}
use scion_lwip_contrib.Smtp.Prepare.Header.{header-Ready, data-Ready, quit-Ready}
use scion_lwip_contrib.Smtp.Auth.Keeps.{LoginReady, auth_or_mail-LoginReady}
use scion_lwip_contrib.Smtp.Process.{unchanged, has_word, dispatch}

-- SMTP's steps with the response code that each wants; `stay` is an unexpected code.
pub data Edge (code : ℕ) : SessionState → SessionState → Type 0 where
  stay : {a b : SessionState} → a ≡ b → Edge code a b
  greeting : code ≡ 220 → Edge code SessionState.null SessionState.helo
  login_plain : code ≡ 250 → Edge code SessionState.helo SessionState.auth_plain
  login_name : code ≡ 250 → Edge code SessionState.helo SessionState.auth_login_uname
  no_login : code ≡ 250 → Edge code SessionState.helo SessionState.mail
  name_asked : code ≡ 334 → Edge code SessionState.auth_login_uname SessionState.auth_login_pass
  pass_asked : code ≡ 334 → Edge code SessionState.auth_login_pass SessionState.auth_login
  logged_in : code ≡ 235 → Edge code SessionState.auth_login SessionState.mail
  logged_in_plain : code ≡ 235 → Edge code SessionState.auth_plain SessionState.mail
  sender_taken : code ≡ 250 → Edge code SessionState.mail SessionState.rcpt
  receiver_taken : code ≡ 250 → Edge code SessionState.rcpt SessionState.dat
  text_asked : code ≡ 354 → Edge code SessionState.dat SessionState.body
  text_taken : code ≡ 250 → Edge code SessionState.quit SessionState.closed

-- A prepared step keeps the session but for `tx_buf`, and follows an edge.
pub record Moves (code : ℕ) (s : Session) (r : Prepared) : Type 0 where
  pub kept : Kept s r.session
  pub edge : Edge code s.state r.next_state

-- The prepared command of a conditional, or nothing prepared.
pub chosen :
    (b : Bool) {o : Option Prepared} {u r : Prepared}
    → (if b then o else some u) ≡ some r
    → ((b ≡ true) × (o ≡ some r)) ⊎ (u ≡ r)
chosen true e = inl (refl, e)
chosen false e = inr cc

Moves-stay : (code : ℕ) (s : Session) {r : Prepared} → unchanged s ≡ r → Moves code s r
unfolding unchanged
Moves-stay code s {r} e =
    subst (Moves code s) e
      (record { kept = record { same = refl; size = refl }; edge = Edge.stay refl })

Moves-Ready :
    (code : ℕ) (s : Session) {r : Prepared} {next : SessionState}
    → Ready s next r
    → Edge code s.state next
    → Moves code s r
Moves-Ready code s k e = record { kept = k.kept; edge = rw k.next_is e }

LoginReady-Moves :
    (code : ℕ) (s : Session) {r : Prepared}
    → s.state ≡ SessionState.helo
    → code ≡ 250
    → LoginReady s r
    → Moves code s r
LoginReady-Moves code s st c k = record {
  kept = k.kept;
  edge = rw st (elim k.next_is [
    | inl e ↦ rw e (Edge.login_plain c)
    | inr (inl e) ↦ rw e (Edge.login_name c)
    | inr (inr e) ↦ rw e (Edge.no_login c)
  ]);
}

first_of_and : (a b : Bool) → (a && b) ≡ true → a ≡ true
first_of_and a b h = ground arith

code_is : (code n : ℕ) → (code == n) ≡ true → code ≡ n
code_is code n h = (==_iff code n).0 h

module _ (pb : PbufReaders) (r : Replies) (code : ℕ) (s : Session) {ready : Prepared}
    (size : length s.tx_buf ≡ 256) where
  -- With a `tx_buf` of 256 bytes, whatever response code arrives in whatever state, what `smtp_process`
  -- prepares without a fault follows an edge of the protocol and keeps the mail's texts.
  pub dispatch-Moves :
      (st : SessionState) → s.state ≡ st → dispatch pb st r code s ≡ some ready → Moves code s ready
  unfolding dispatch
  dispatch-Moves SessionState.null st e = elim (chosen (code == 220) e) [
    | inl (c, made) ↦
        Moves-Ready code s (helo-Ready r.local_ip s made)
          (rw st (Edge.greeting (code_is code 220 c)))
    | inr same ↦ Moves-stay code s same
  ]
  dispatch-Moves SessionState.helo st e = elim (chosen (code == 250) e) [
    | inl (c, made) ↦
        LoginReady-Moves code s st (code_is code 250 c) (auth_or_mail-LoginReady pb s made)
    | inr same ↦ Moves-stay code s same
  ]
  dispatch-Moves SessionState.auth_login st e = elim (chosen (code == 235) e) [
    | inl (c, made) ↦
        Moves-Ready code s (mail-Ready s made) (rw st (Edge.logged_in (code_is code 235 c)))
    | inr same ↦ Moves-stay code s same
  ]
  dispatch-Moves SessionState.auth_plain st e = elim (chosen (code == 235) e) [
    | inl (c, made) ↦
        Moves-Ready code s (mail-Ready s made) (rw st (Edge.logged_in_plain (code_is code 235 c)))
    | inr same ↦ Moves-stay code s same
  ]
  dispatch-Moves SessionState.auth_login_uname st e =
      elim (chosen (code == 334 && has_word pb "VXNlcm5hbWU6" s) e) [
        | inl (c, made) ↦
            Moves-Ready code s (uname-Ready s made)
              (rw st (Edge.name_asked (code_is code 334 (first_of_and _ _ c))))
        | inr same ↦ Moves-stay code s same
      ]
  dispatch-Moves SessionState.auth_login_pass st e =
      elim (chosen (code == 334 && has_word pb "UGFzc3dvcmQ6" s) e) [
        | inl (c, made) ↦
            Moves-Ready code s (pass-Ready s made)
              (rw st (Edge.pass_asked (code_is code 334 (first_of_and _ _ c))))
        | inr same ↦ Moves-stay code s same
      ]
  dispatch-Moves SessionState.mail st e = elim (chosen (code == 250) e) [
    | inl (c, made) ↦
        Moves-Ready code s (rcpt-Ready s made) (rw st (Edge.sender_taken (code_is code 250 c)))
    | inr same ↦ Moves-stay code s same
  ]
  dispatch-Moves SessionState.rcpt st e = elim (chosen (code == 250) e) [
    | inl (c, made) ↦
        Moves-Ready code s (data-Ready s size made).ready
          (rw st (Edge.receiver_taken (code_is code 250 c)))
    | inr same ↦ Moves-stay code s same
  ]
  dispatch-Moves SessionState.dat st e = elim (chosen (code == 354) e) [
    | inl (c, made) ↦
        Moves-Ready code s (header-Ready s size made).ready
          (rw st (Edge.text_asked (code_is code 354 c)))
    | inr same ↦ Moves-stay code s same
  ]
  dispatch-Moves SessionState.quit st e = elim (chosen (code == 250) e) [
    | inl (c, made) ↦
        Moves-Ready code s (quit-Ready s size made).ready
          (rw st (Edge.text_taken (code_is code 250 c)))
    | inr same ↦ Moves-stay code s same
  ]
  dispatch-Moves SessionState.body st e = Moves-stay code s cc
  dispatch-Moves SessionState.closed st e = Moves-stay code s cc

-- ===== src/Smtp/Auth/Keeps.antt =====
-- `smtp_prepare_auth_or_mail` changes nothing of the session but `tx_buf`, and goes on with a login or
-- with the MAIL command.
use scion_lwip_contrib.Base.{
  ℕ, ◌+◌, ◌-◌, [], ◌∷◌, ◌⊎◌, inl, inr, Option, none, some, Bytes, c_string, contains, Bool-cases,
  codes, copy_to, length-overwrite, length, take, drop, not, ◌&&◌, ltb, ◌==◌, ◌≡◌, refl, ap, ◌∙◌,
  arith,
}
use scion_lwip_contrib.Lwip.{PbufReaders, not_found, bind-eq-some}
use scion_lwip_contrib.Smtp.Types.{Session, SessionState, tx_buf_len_max}
use scion_lwip_contrib.Smtp.Base64.{smtp_base64_encode}
use scion_lwip_contrib.Smtp.Prepare.{Prepared, put, smtp_prepare_mail}
use scion_lwip_contrib.Smtp.Prepare.Keeps.{Kept, put-Kept, mail-Ready}
use scion_lwip_contrib.Smtp.Auth.{
  prepare_auth_plain, prepare_auth_login, prepare_by_method, find_auth, copy_auth_line,
  auth_or_mail, smtp_prepare_auth_or_mail,
}

-- The session is kept, and the next state is one of a login, or that of MAIL.
pub record LoginReady (s : Session) (r : Prepared) : Type 0 where
  pub kept : Kept s r.session
  pub next_is :
      (r.next_state ≡ SessionState.auth_plain)
      ⊎ (r.next_state ≡ SessionState.auth_login_uname)
      ⊎ (r.next_state ≡ SessionState.mail)

Kept-trans : {s t u : Session} → Kept s t → Kept t u → Kept s u
Kept-trans {s} {t} {u} k l = record {
  same = l.same ∙ ap (λ (v : Session). record v { tx_buf = u.tx_buf }) k.same;
  size = l.size ∙ k.size;
}

LoginReady-after : {s t : Session} {r : Prepared} → Kept s t → LoginReady t r → LoginReady s r
LoginReady-after k l = record { kept = Kept-trans k l.kept; next_is = l.next_is }

prepare_auth_plain-Kept :
    (s : Session) {r : Prepared}
    → prepare_auth_plain s ≡ some r
    → Kept s r.session × (r.next_state ≡ SessionState.auth_plain)
unfolding prepare_auth_plain
prepare_auth_plain-Kept s e =
    let (s₁, e₁, rest₁) = bind-eq-some (put s 0 (codes "AUTH PLAIN ")) _ e in
    let (encoded, coded, rest₂) =
      bind-eq-some (smtp_base64_encode (tx_buf_len_max - 11) (take s.auth_plain_len s.auth_plain)) _
        rest₁ in
    let (s₂, e₂, rest₃) = bind-eq-some (put s₁ 11 encoded) _ rest₂ in
    let k₂ = put-Kept s (put-Kept s (record { same = refl; size = refl }) 0 _ e₁) 11 encoded e₂ in
    unfold put copy_to in
    ground (
      arith,
      rest₃,
      k₂.same,
      k₂.size,
      length-overwrite (11 + length encoded) (codes "\r\n") s₂.tx_buf,
    )

prepare_auth_login-Kept :
    (s : Session) {r : Prepared}
    → prepare_auth_login s ≡ some r
    → Kept s r.session × (r.next_state ≡ SessionState.auth_login_uname)
unfolding prepare_auth_login put copy_to
prepare_auth_login-Kept s e = ground (arith, length-overwrite 0 (codes "AUTH LOGIN\r\n") s.tx_buf)

plain-LoginReady : (s : Session) {r : Prepared} → prepare_auth_plain s ≡ some r → LoginReady s r
plain-LoginReady s e =
    let (k, n) = prepare_auth_plain-Kept s e in record { kept = k; next_is = inl n }

login-LoginReady : (s : Session) {r : Prepared} → prepare_auth_login s ≡ some r → LoginReady s r
login-LoginReady s e =
    let (k, n) = prepare_auth_login-Kept s e in record { kept = k; next_is = inr (inl n) }

mail-LoginReady : (s : Session) {r : Prepared} → smtp_prepare_mail s ≡ some r → LoginReady s r
mail-LoginReady s e =
    let k = mail-Ready s e in record { kept = k.kept; next_is = inr (inr k.next_is) }

by_method-LoginReady : (s : Session) {r : Prepared} → prepare_by_method s ≡ some r → LoginReady s r
unfolding prepare_by_method
by_method-LoginReady s e =
    elim (Bool-cases (contains (codes "PLAIN") (c_string (drop 5 s.tx_buf)))) [
      | inl plain ↦ plain-LoginReady s (rw plain at e)
      | inr other ↦ elim (Bool-cases (contains (codes "LOGIN") (c_string (drop 5 s.tx_buf)))) [
        | inl login ↦ login-LoginReady s (rw (other, login) at e)
        | inr none_of_them ↦ mail-LoginReady s (rw (other, none_of_them) at e)
      ]
    ]

module _ (pb : PbufReaders) where
  copy_auth_line-LoginReady :
      (p : Bytes) (auth crlf : ℕ) (s : Session) {r : Prepared}
      → copy_auth_line pb p auth crlf s ≡ some r
      → LoginReady s r
  unfolding copy_auth_line
  copy_auth_line-LoginReady p auth crlf s e =
      let line = pb.copy_partial p (crlf - auth) auth in
      let (s₁, e₁, rest₁) = bind-eq-some (put s 0 line) _ e in
      let k₁ = put-Kept s (record { same = refl; size = refl }) 0 line e₁ in
      elim (Bool-cases (length line == 0)) [
        | inl empty ↦ LoginReady-after k₁ (mail-LoginReady s₁ (rw empty at rest₁))
        | inr some_bytes ↦
            let (s₂, e₂, rest₂) =
              bind-eq-some (put s₁ (length line) (0 ∷ [])) _ (rw some_bytes at rest₁) in
            LoginReady-after (put-Kept s k₁ (length line) _ e₂) (by_method-LoginReady s₂ rest₂)
      ]

  found-LoginReady :
      (q : Bytes) (s : Session) {r : Prepared} → auth_or_mail pb q s ≡ some r → LoginReady s r
  unfolding auth_or_mail
  found-LoginReady q s e =
      let auth = find_auth pb q in
      let crlf = pb.memfind q (codes "\r\n") auth in
      elim (Bool-cases (not (auth == not_found))) [
        | inl found ↦ elim (Bool-cases (not (crlf == not_found) && ltb auth crlf)) [
          | inl whole ↦ copy_auth_line-LoginReady q auth crlf s (rw (found, whole) at e)
          | inr cut ↦ mail-LoginReady s (rw (found, cut) at e)
        ]
        | inr missing ↦ mail-LoginReady s (rw missing at e)
      ]

  pub auth_or_mail-LoginReady :
      (s : Session) {r : Prepared} → smtp_prepare_auth_or_mail pb s ≡ some r → LoginReady s r
  unfolding smtp_prepare_auth_or_mail
  auth_or_mail-LoginReady s {r} e = go s.p e
    where
      go :
          (p : Option Bytes)
          → elim p [ none ↦ smtp_prepare_mail s | some q ↦ auth_or_mail pb q s ] ≡ some r
          → LoginReady s r
      go none h = mail-LoginReady s h
      go (some q) h = found-LoginReady q s h

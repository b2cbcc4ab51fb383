-- ===== src/Smtp/Prepare/Commands.antt =====
-- What the functions `smtp_prepare_*` send, and for which lengths they stay inside `tx_buf`.
use native.Mathlib.Nat.{le_trans, le-add_right}
use scion_lwip_contrib.Base.{
  ℕ, ◌+◌, ◌≤◌, ◌<◌, [], ◌∷◌, ◌++◌, append_assoc, Option, none, some, Bytes, codes, copy_to, length,
  take, le→leb, overwrite, length-overwrite, copy_to_fits, length-append, ◌≡◌, refl, sym, ◌∙◌,
  arith,
}
use scion_lwip_contrib.Smtp.Types.{Session, SessionState, u16}
use scion_lwip_contrib.Smtp.Prepare.{
  Prepared, smtp_prepare_mail, smtp_prepare_rcpt, smtp_prepare_header, prepare_data,
  smtp_prepare_quit,
}

-- The step succeeds, changes nothing but `tx_buf`, and has exactly the bytes `command` to send
-- before the next state.
abbrev pub Sends : Session → Bytes → SessionState → Option Prepared → Type 0
Sends s command next o =
    (buf : Bytes) × (o
      ≡ some (record {
        session = record s { tx_buf = buf };
        tx_len = length command;
        next_state = next;
      }))
    × (take (length command) buf ≡ command)
    × (length buf ≡ length s.tx_buf)

-- A known beginning of a buffer, by another length and another spelling of its bytes.
take_as :
    (n m : ℕ) (buf done command : Bytes)
    → take n buf ≡ done
    → m ≡ n
    → done ≡ command
    → take m buf ≡ command
take_as n m buf done command t e d = rw e (t ∙ d)

abbrev pub mail_command : Session → Bytes
mail_command s = codes "MAIL FROM: <" ++ (s.sender ++ codes ">\r\n")

abbrev pub rcpt_command : Session → Bytes
rcpt_command s = codes "RCPT TO: <" ++ (s.to ++ codes ">\r\n")

abbrev pub header_lines : Session → Bytes
header_lines s =
    codes "From: <"
    ++ (s.sender
        ++ (codes ">\r\nTo: <"
            ++ (s.to ++ (codes ">\r\nSubject: " ++ (s.subject ++ codes "\r\n\r\n")))))

length-header_lines :
    (s : Session) → length (header_lines s) ≡ 31 + length s.sender + length s.to + length s.subject
length-header_lines s = omega (
  arith,
  length-append s.sender
      (codes ">\r\nTo: <" ++ (s.to ++ (codes ">\r\nSubject: " ++ (s.subject ++ codes "\r\n\r\n")))),
  length-append s.to (codes ">\r\nSubject: " ++ (s.subject ++ codes "\r\n\r\n")),
  length-append s.subject (codes "\r\n\r\n"),
)

-- A copy into a buffer of known size, from what is known of its beginning.
copy_sized :
    (buf ys done : Bytes) (i j size : ℕ)
    → length buf ≡ size
    → take i buf ≡ done
    → j ≡ i + length ys
    → j ≤ size
    → (buf' : Bytes) × (copy_to buf i ys ≡ some buf')
      × (take j buf' ≡ done ++ ys)
      × (length buf' ≡ size)
copy_sized buf ys done i j size l t e h =
    let (buf', c, t', l') = copy_to_fits buf i ys done t (omega arith) in (buf', c, rw e t', l' ∙ l)

-- The header's steps, once each copy is known to fit.
header_steps :
    (s : Session) (len : ℕ) (b₀ b₁ b₂ b₃ b₄ b₅ b₆ b₇ : Bytes)
    → u16 (7 + 8 + 12 + 4 + length s.sender + length s.to + length s.subject) ≡ len
    → len ≤ 255
    → copy_to s.tx_buf
        (u16 (7 + 8 + 12 + 4 + length s.sender + length s.to + length s.subject))
        (0 ∷ [])
      ≡ some b₀
    → copy_to b₀ 0 (codes "From: <") ≡ some b₁
    → copy_to b₁ 7 s.sender ≡ some b₂
    → copy_to b₂ (7 + length s.sender) (codes ">\r\nTo: <") ≡ some b₃
    → copy_to b₃ (15 + length s.sender) s.to ≡ some b₄
    → copy_to b₄ (15 + length s.sender + length s.to) (codes ">\r\nSubject: ") ≡ some b₅
    → copy_to b₅ (27 + length s.sender + length s.to) s.subject ≡ some b₆
    → copy_to b₆ (27 + length s.sender + length s.to + length s.subject) (codes "\r\n\r\n")
      ≡ some b₇
    → smtp_prepare_header s
      ≡ some (record {
        session = record s { tx_buf = b₇ };
        tx_len = len;
        next_state = SessionState.body;
      })
unfolding smtp_prepare_header
header_steps s len b₀ b₁ b₂ b₃ b₄ b₅ b₆ b₇ el small e₀ e₁ e₂ e₃ e₄ e₅ e₆ e₇ =
    rw (e₀, el, le→leb len 255 small, e₁, e₂, e₃, e₄, e₅, e₆, e₇)

module _ (s : Session) (size : length s.tx_buf ≡ 256) where
  -- With a `tx_buf` of 256 bytes, the MAIL command holds the whole sender if that has at most 240 bytes.
  pub mail_fits :
      length s.sender ≤ 240 → Sends s (mail_command s) SessionState.mail (smtp_prepare_mail s)
  unfolding smtp_prepare_mail
  mail_fits h =
      let n = length s.sender in
      let (b₀, e₀, t₀, l₀) =
        copy_to_fits s.tx_buf (u16 (12 + 3 + n)) (0 ∷ []) _ refl (omega arith) in
      let (b₁, e₁, t₁, l₁) = copy_to_fits b₀ 0 (codes "MAIL FROM: <") [] refl (omega arith) in
      let (b₂, e₂, t₂, l₂) = copy_to_fits b₁ 12 s.sender _ t₁ (omega arith) in
      let (b₃, e₃, t₃, l₃) = copy_to_fits b₂ (12 + n) (codes ">\r\n") _ t₂ (omega arith) in
      let len : length (mail_command s) ≡ 12 + n + 3 =
        omega (arith, length-append s.sender (codes ">\r\n")) in
      (b₃, ground arith, take_as _ _ b₃ _ _ t₃ len refl, omega arith)

  -- With a `tx_buf` of 256 bytes, the RCPT command holds the whole receiver if that has at most 242 bytes.
  pub rcpt_fits :
      length s.to ≤ 242 → Sends s (rcpt_command s) SessionState.rcpt (smtp_prepare_rcpt s)
  unfolding smtp_prepare_rcpt
  rcpt_fits h =
      let n = length s.to in
      let (b₀, e₀, t₀, l₀) =
        copy_to_fits s.tx_buf (u16 (10 + 3 + n)) (0 ∷ []) _ refl (omega arith) in
      let (b₁, e₁, t₁, l₁) = copy_to_fits b₀ 0 (codes "RCPT TO: <") [] refl (omega arith) in
      let (b₂, e₂, t₂, l₂) = copy_to_fits b₁ 10 s.to _ t₁ (omega arith) in
      let (b₃, e₃, t₃, l₃) = copy_to_fits b₂ (10 + n) (codes ">\r\n") _ t₂ (omega arith) in
      let len : length (rcpt_command s) ≡ 10 + n + 3 =
        omega (arith, length-append s.to (codes ">\r\n")) in
      (b₃, ground arith, take_as _ _ b₃ _ _ t₃ len refl, omega arith)

  -- With a `tx_buf` of 256 bytes, a sender of 241 to 65535 bytes makes the preparation of MAIL fault.
  pub mail_too_long : length s.sender ≤ 65535 → 240 < length s.sender → smtp_prepare_mail s ≡ none
  unfolding smtp_prepare_mail copy_to
  mail_too_long small h =
      let b₀ = overwrite (u16 (12 + 3 + length s.sender)) (0 ∷ []) s.tx_buf in
      ground (
        arith,
        length-overwrite (u16 (12 + 3 + length s.sender)) (0 ∷ []) s.tx_buf,
        length-overwrite 0 (codes "MAIL FROM: <") b₀,
      )

  -- With a `tx_buf` of 256 bytes, a receiver of 243 to 65535 bytes makes the preparation of RCPT fault.
  pub rcpt_too_long : length s.to ≤ 65535 → 242 < length s.to → smtp_prepare_rcpt s ≡ none
  unfolding smtp_prepare_rcpt copy_to
  rcpt_too_long small h =
      let b₀ = overwrite (u16 (10 + 3 + length s.to)) (0 ∷ []) s.tx_buf in
      ground (
        arith,
        length-overwrite (u16 (10 + 3 + length s.to)) (0 ∷ []) s.tx_buf,
        length-overwrite 0 (codes "RCPT TO: <") b₀,
      )

  -- With a `tx_buf` of 256 bytes, the header lines hold sender, receiver and subject if these have at most 224 bytes together.
  pub header_fits :
      length s.sender + length s.to + length s.subject ≤ 224
      → Sends s (header_lines s) SessionState.body (smtp_prepare_header s)
  unfolding smtp_prepare_header
  header_fits h =
      let n = length s.sender in
      let m = length s.to in
      let k = length s.subject in
      let e : u16 (7 + 8 + 12 + 4 + n + m + k) ≡ length (header_lines s) =
        omega (arith, length-header_lines s) in
      let small : length (header_lines s) ≤ 255 = omega (arith, length-header_lines s) in
      let f₇ : length (header_lines s) ≡ 27 + n + m + k + 4 =
        omega (arith, length-header_lines s) in
      let f₀ : u16 (7 + 8 + 12 + 4 + n + m + k) + 1 ≤ 256 = omega (arith, length-header_lines s) in
      let f₃ : 15 + n ≡ 7 + n + 8 = omega arith in
      let f₅ : 27 + n + m ≡ 15 + n + m + 12 = omega arith in
      let g₂ : 7 + n ≤ 256 = omega arith in
      let g₃ : 15 + n ≤ 256 = omega arith in
      let g₄ : 15 + n + m ≤ 256 = omega arith in
      let g₅ : 27 + n + m ≤ 256 = omega arith in
      let g₆ : 27 + n + m + k ≤ 256 = omega arith in
      let g₇ : length (header_lines s) ≤ 256 = omega (arith, length-header_lines s) in
      let (b₀, e₀, t₀, l₀) = copy_sized s.tx_buf (0 ∷ []) _ _ _ 256 size refl refl f₀ in
      let (b₁, e₁, t₁, l₁) =
        copy_sized b₀ (codes "From: <") [] 0 7 256 l₀ refl refl (le_trans (le-add_right 7 n) g₂) in
      let (b₂, e₂, t₂, l₂) = copy_sized b₁ s.sender _ 7 (7 + n) 256 l₁ t₁ refl g₂ in
      let (b₃, e₃, t₃, l₃) =
        copy_sized b₂ (codes ">\r\nTo: <") _ (7 + n) (15 + n) 256 l₂ t₂ f₃ g₃ in
      let (b₄, e₄, t₄, l₄) = copy_sized b₃ s.to _ (15 + n) (15 + n + m) 256 l₃ t₃ refl g₄ in
      let (b₅, e₅, t₅, l₅) =
        copy_sized b₄ (codes ">\r\nSubject: ") _ (15 + n + m) (27 + n + m) 256 l₄ t₄ f₅ g₅ in
      let (b₆, e₆, t₆, l₆) =
        copy_sized b₅ s.subject _ (27 + n + m) (27 + n + m + k) 256 l₅ t₅ refl g₆ in
      let (b₇, e₇, t₇, l₇) =
        copy_sized b₆ (codes "\r\n\r\n") _ (27 + n + m + k) (length (header_lines s)) 256 l₆ t₆ f₇
          g₇ in
      (
        b₇,
        header_steps s _ b₀ b₁ b₂ b₃ b₄ b₅ b₆ b₇ e small e₀ e₁ e₂ e₃ e₄ e₅ e₆ e₇,
        t₇ ∙ simp append_assoc,
        l₇ ∙ sym size,
      )

  pub data_fits : Sends s (codes "DATA\r\n") SessionState.dat (prepare_data s)
  unfolding prepare_data
  data_fits =
      let (b₁, e₁, t₁, l₁) = copy_to_fits s.tx_buf 0 (codes "DATA\r\n") [] refl (omega arith) in
      (b₁, ground arith, t₁, l₁)

  pub quit_fits : Sends s (codes "QUIT\r\n") SessionState.closed (smtp_prepare_quit s)
  unfolding smtp_prepare_quit
  quit_fits =
      let (b₀, e₀, t₀, l₀) = copy_to_fits s.tx_buf 6 (0 ∷ []) _ refl (omega arith) in
      let (b₁, e₁, t₁, l₁) = copy_to_fits b₀ 0 (codes "QUIT\r\n") [] refl (omega arith) in
      (b₁, ground arith, t₁, omega arith)

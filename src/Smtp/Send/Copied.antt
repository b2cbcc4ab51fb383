-- ===== src/Smtp/Send/Copied.antt =====
-- The block of memory of `smtp_send_mail` holds the mail's four strings where the session's pointers lead.
use scion_lwip_contrib.Base.{
  ℕ, ◌+◌, ◌-◌, ◌≤◌, append-nil, length-take, Option, [], ◌∷◌, ◌++◌, append_assoc, some, Bytes,
  copy_to, copy_to_fits, length, length-append, take, take-all, take-append, drop, drop-append_ge,
  replicate, length-replicate, ◌≡◌, refl, sym, ap, ◌∙◌, arith,
}
use scion_lwip_contrib.Lwip.{◌>>=◌}
use scion_lwip_contrib.Smtp.Types.{Session}
use scion_lwip_contrib.Smtp.Send.{Request, new_session, text_at, copied_session}

text_at-append :
    (before text after : Bytes) (i : ℕ)
    → length before ≡ i
    → text_at (before ++ (text ++ after)) i (length text) ≡ text
text_at-append before text after i e =
    ap (take (length text)) (
      drop-append_ge i before (text ++ after) (omega (arith, e))
      ∙ ap (λ (k : ℕ). drop k (text ++ after))
          (let z : i - length before ≡ 0 = omega (arith, e) in z))
    ∙ take-append (length text) text after refl

-- A string with its NUL, behind what was put before it.
holds :
    (block before text after : Bytes) (i : ℕ)
    → block ≡ (before ++ (text ++ 0 ∷ [])) ++ after
    → length before ≡ i
    → text_at block i (length text) ≡ text
holds block before text after i e l =
    ap (λ (b : Bytes). text_at b i (length text))
      (e
        ∙ append_assoc before (text ++ 0 ∷ []) after
        ∙ ap (◌++◌ before) (append_assoc text (0 ∷ []) after))
    ∙ text_at-append before text ((0 ∷ []) ++ after) i l

-- A string is put behind the beginning of a block.
put_string :
    (block done text : Bytes) (i : ℕ)
    → take i block ≡ done
    → i + length text + 1 ≤ length block
    → (block' : Bytes) × (copy_to block i (text ++ 0 ∷ []) ≡ some block')
      × (take (i + length text + 1) block' ≡ done ++ (text ++ 0 ∷ []))
      × (length block' ≡ length block)
put_string block done text i e fits =
    let l = length-append text (0 ∷ []) in
    let (b, eb, tb, lb) = copy_to_fits block i (text ++ 0 ∷ []) done e (omega (arith, l, fits)) in
    (
      b,
      eb,
      ap (λ (k : ℕ). take k b)
            (let e : i + length text + 1 ≡ i + length (text ++ 0 ∷ []) = omega (arith, l) in e)
          ∙ tb,
      lb,
    )

module _ (n : ℕ) (q : Request) where
  abbrev to_at : ℕ
  to_at = n + length q.sender + 1

  abbrev subject_at : ℕ
  subject_at = to_at + length q.to + 1

  abbrev text_offset : ℕ
  text_offset = subject_at + length q.subject + 1

  abbrev size : ℕ
  size = text_offset + length q.text + 1

  abbrev made : Bytes → Session
  made block =
      new_session (text_at block n (length q.sender)) (text_at block to_at (length q.to))
        (text_at block subject_at (length q.subject)) (text_at block text_offset (length q.text))
        q.callback

  abbrev string : Bytes → Bytes
  string text = text ++ 0 ∷ []

  abbrev whole : Bytes → Bytes
  whole z = (((z ++ string q.sender) ++ string q.to) ++ string q.subject) ++ string q.text

  read_back :
      (z block : Bytes)
      → length z ≡ n
      → block ≡ whole z
      → made block ≡ new_session q.sender q.to q.subject q.text q.callback
  read_back z block l e =
      let s = string q.sender in
      let t = string q.to in
      let u = string q.subject in
      let x = string q.text in
      let ls = length-append z s ∙ ap (λ (k : ℕ). length z + k) (length-append q.sender (0 ∷ [])) in
      let lt =
        length-append (z ++ s) t
        ∙ ap (λ (k : ℕ). length (z ++ s) + k) (length-append q.to (0 ∷ [])) in
      let lu =
        length-append ((z ++ s) ++ t) u
        ∙ ap (λ (k : ℕ). length ((z ++ s) ++ t) + k) (length-append q.subject (0 ∷ [])) in
      rw
        (
          holds block z q.sender (t ++ (u ++ x)) n
              (e ∙ append_assoc ((z ++ s) ++ t) u x ∙ append_assoc (z ++ s) t (u ++ x)) l,
          holds block (z ++ s) q.to (u ++ x) to_at (e ∙ append_assoc ((z ++ s) ++ t) u x)
              (omega (arith, l, ls)),
          holds block ((z ++ s) ++ t) q.subject x subject_at e (omega (arith, l, ls, lt)),
          holds block (((z ++ s) ++ t) ++ u) q.text [] text_offset (e ∙ sym (append-nil (whole z)))
              (omega (arith, l, ls, lt, lu)),
        )
        refl

  abbrev new : Option Session
  new = some (new_session q.sender q.to q.subject q.text q.callback)

  put_text :
      (z block : Bytes)
      → length z ≡ n
      → length block ≡ size
      → take text_offset block ≡ ((z ++ string q.sender) ++ string q.to) ++ string q.subject
      → (do block' ← copy_to block text_offset (string q.text); some (made block')) ≡ new
  put_text z block l len e =
      let (b, eb, tb, lb) = put_string block _ q.text text_offset e (omega (arith, len)) in
      rw eb (
        ap (λ (x : Session). some x)
          (read_back z b l (sym (take-all size b (omega (arith, lb, len))) ∙ tb)))

  put_subject :
      (z block : Bytes)
      → length z ≡ n
      → length block ≡ size
      → take subject_at block ≡ (z ++ string q.sender) ++ string q.to
      → (do
        c ← copy_to block subject_at (string q.subject)
        d ← copy_to c text_offset (string q.text)
        some (made d))
        ≡ new
  put_subject z block l len e =
      let (b, eb, tb, lb) = put_string block _ q.subject subject_at e (omega (arith, len)) in
      rw eb (put_text z b l (lb ∙ len) tb)

  put_to :
      (z block : Bytes)
      → length z ≡ n
      → length block ≡ size
      → take to_at block ≡ z ++ string q.sender
      → (do
        b ← copy_to block to_at (string q.to)
        c ← copy_to b subject_at (string q.subject)
        d ← copy_to c text_offset (string q.text)
        some (made d))
        ≡ new
  put_to z block l len e =
      let (b, eb, tb, lb) = put_string block _ q.to to_at e (omega (arith, len)) in
      rw eb (put_subject z b l (lb ∙ len) tb)

  pub copied_session-new_session : copied_session n q ≡ new
  unfolding copied_session
  copied_session-new_session =
      let zeroed : Bytes = replicate size 0 in
      let len : length zeroed ≡ size = length-replicate size 0 in
      let (b, eb, tb, lb) =
        put_string zeroed (take n zeroed) q.sender n refl (omega (arith, len)) in
      rw eb (put_to (take n zeroed) b (length-take n zeroed ∙ omega (arith, len)) (lb ∙ len) tb)

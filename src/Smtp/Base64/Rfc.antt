-- ===== src/Smtp/Base64/Rfc.antt =====
-- `smtp_base64_encode` against the Base64 of RFC 4648, section 4.
use scion_lwip_contrib.Base.{
  ℕ, zero, suc, ◌+◌, ◌*◌, ◌/◌, ◌%◌, ◌≤◌, ◌<◌, [], ◌∷◌, ◌++◌, append_assoc, none, some, Bytes, codes,
  length, set, replicate, AllLt, length-append, ◌==◌, if◌then◌else◌, le→leb, ◌≡◌, refl, ap, ◌∙◌,
  arith,
}
use scion_lwip_contrib.Smtp.Base64.{
  Encoder, table_at, encode_loop, pad_loop, longer_of, encoded_len, smtp_base64_encode,
}
use scion_lwip_contrib.Smtp.Base64.Bits.{group, byte_step-group}

-- Three bytes make four characters; a rest of one or two bytes is padded with '='.
pub rfc4648 : Bytes → Bytes
rfc4648 [] = []
rfc4648 (a ∷ []) = table_at (a / 4) ∷ table_at (a % 4 * 16) ∷ b'=' ∷ b'=' ∷ []
rfc4648 (a ∷ b ∷ []) =
    table_at (a / 4) ∷ table_at (a % 4 * 16 + b / 16) ∷ table_at (b % 16 * 4) ∷ b'=' ∷ []
rfc4648 (a ∷ b ∷ c ∷ rest) =
    table_at (a / 4)
    ∷ table_at (a % 4 * 16 + b / 16)
    ∷ table_at (b % 16 * 4 + c / 64)
    ∷ table_at (c % 64)
    ∷ rfc4648 rest

-- The group that the code adds behind a source with no rest.
abbrev pub surplus : ℕ → Bytes
surplus n = if n % 3 == 0 then codes "A===" else []

set-append : (t g : Bytes) (j i v : ℕ) → i ≡ length t + j → set (t ++ g) i v ≡ t ++ set g j v
set-append [] g j i v e = ap (λ k. set g k v) (omega arith)
set-append (x ∷ t) g j zero v e = absurd (omega arith)
set-append (x ∷ t) g j (suc i) v e = ap (◌∷◌ x) (set-append t g j i v (omega arith))

pad_loop-append :
    (k : ℕ) (t g : Bytes) (j i : ℕ) → i ≡ length t + j → pad_loop k i (t ++ g) ≡ t ++ pad_loop k j g
unfolding pad_loop
pad_loop-append zero t g j i e = refl
pad_loop-append (suc k) t g j i e =
    ap (pad_loop k (i + 1)) (set-append t g j i b'=' e)
    ∙ pad_loop-append k t (set g j b'=') (j + 1) (i + 1) (omega arith)

abbrev at : Bytes → Encoder
at t = record { x = 5; current = 0; target = t }

-- The two loops from a group's start, behind what is already written.
encode_from :
    (src t : Bytes) (k i : ℕ)
    → k ≡ longer_of (length src)
    → i + k ≡ length t + encoded_len (length src)
    → AllLt 256 src
    → pad_loop k i (encode_loop (src ++ replicate k 0) (at t)).target
      ≡ t ++ (rfc4648 src ++ surplus (length src))
unfolding encode_loop rfc4648
encode_from [] t k i ek ei h = rw ek (
    rw (byte_step-group 0 0 0 t (omega arith) (omega arith) (omega arith)) (
      pad_loop-append 3 t (group 0 0 0) 1 i (omega arith)
      ∙ ap (λ u. t ++ u) (unfold pad_loop table_at in refl)))
encode_from (a ∷ []) t k i ek ei h = rw ek (
    rw (byte_step-group a 0 0 t h.0 (omega arith) (omega arith)) (
      pad_loop-append 2 t (group a 0 0) 2 i (omega arith)
      ∙ ap (λ u. t ++ u) (unfold pad_loop in ground arith)))
encode_from (a ∷ b ∷ []) t k i ek ei h = rw ek (
    rw (byte_step-group a b 0 t h.0 h.1.0 (omega arith)) (
      pad_loop-append 1 t (group a b 0) 3 i (omega arith)
      ∙ ap (λ u. t ++ u) (unfold pad_loop in ground arith)))
encode_from (a ∷ b ∷ c ∷ rest) t k i ek ei h =
    ap (λ e. pad_loop k i (encode_loop (rest ++ replicate k 0) e).target)
      (byte_step-group a b c t h.0 h.1.0 h.1.1.0)
    ∙ (encode_from rest (t ++ group a b c) k i (omega arith)
          (omega (arith, length-append t (group a b c))) h.1.1.1
        ∙ append_assoc t (group a b c) _
        ∙ ap (λ u. t ++ (group a b c ++ (rfc4648 rest ++ (if u == 0 then codes "A===" else []))))
            (let e : length rest % 3 ≡ (suc (suc (suc (length rest)))) % 3 = omega arith in e))

-- Given room for the result, the encoder returns the RFC 4648 encoding of any source whose length
-- is no multiple of three. Where the length is a multiple of three, the group "A===" stands behind
-- the encoding.
pub smtp_base64_encode-rfc4648 :
    (target_len : ℕ) (source : Bytes)
    → AllLt 256 source
    → encoded_len (length source) ≤ target_len
    → smtp_base64_encode target_len source ≡ some (rfc4648 source ++ surplus (length source))
unfolding smtp_base64_encode
smtp_base64_encode-rfc4648 target_len source h room =
    rw (le→leb _ _ room) (ap some (encode_from source [] _ _ refl (omega arith) h))

-- The assertion on `target_len` fails exactly where the room is too small.
pub smtp_base64_encode-eq-none :
    (target_len : ℕ) (source : Bytes)
    → target_len < encoded_len (length source)
    → smtp_base64_encode target_len source ≡ none
unfolding smtp_base64_encode
smtp_base64_encode-eq-none target_len source h = ground arith

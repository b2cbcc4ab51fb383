-- ===== src/Smtp/Send/Login.antt =====
-- The stored login data and server name.
use scion_lwip_contrib.Base.{
  ◌+◌, ◌≤◌, ◌<◌, min, [], ◌∷◌, ◌++◌, append_assoc, some, Bytes, copy_to, overwrite, overwrite_start,
  copy_to_fits, length, take, drop, replicate, length-append, le→leb, le→ltb_false, take_shorter,
  take-all, lt→ltb, Bool-cases, if◌then◌else◌, ◌⊎◌, inl, inr, ltb, ◌≡◌, refl, ap, ◌∙◌, arith,
}
use scion_lwip_contrib.Lwip.{Err}
use scion_lwip_contrib.Smtp.Send.{Settings, store_auth, strcpy, smtp_set_auth, smtp_set_server_addr}

-- Given an array of 67 bytes, a user name and a password of at most 32 bytes each are stored as
-- "\0name\0password", which is all that `smtp_auth_plain_len` covers, with their indices.
pub smtp_set_auth_lem :
    (username pass : Bytes) (g : Settings)
    → length g.auth_plain ≡ 67
    → length username ≤ 32
    → length pass ≤ 32
    → (h : Settings) × (smtp_set_auth (some username) (some pass) g ≡ some (h, Err.ok))
      × (take h.auth_plain_len h.auth_plain ≡ 0 ∷ (username ++ 0 ∷ pass))
      × (h.username ≡ some 1)
      × (h.pass ≡ some (length username + 2))
unfolding smtp_set_auth store_auth strcpy
smtp_set_auth_lem username pass g size hu hp =
    let n = length username in
    let k = length pass in
    let (c, ec, tc, lc) = copy_to_fits g.auth_plain 0 (replicate 64 0xfa) [] refl (omega arith) in
    let (a₀, e₀, t₀, l₀) = copy_to_fits c 0 (0 ∷ []) [] refl (omega arith) in
    let (a₁, e₁, t₁, l₁) =
      copy_to_fits a₀ 1 (username ++ 0 ∷ []) _ t₀
        (omega (arith, length-append username (0 ∷ []))) in
    let f : take (n + 2) a₁ ≡ 0 ∷ (username ++ 0 ∷ []) =
      ap (λ i. take i a₁) (omega (arith, length-append username (0 ∷ []))) ∙ t₁ in
    let (a₂, e₂, t₂, l₂) =
      copy_to_fits a₁ (n + 2) (pass ++ 0 ∷ []) _ f (omega (arith, length-append pass (0 ∷ []))) in
    (
      record g {
        username = some 1;
        pass = some (n + 2);
        auth_plain = a₂;
        auth_plain_len = n + k + 2;
      },
      rw (ec, le→ltb_false 32 n hu, le→ltb_false 32 k hp, e₀, e₁, e₂),
      take_shorter (n + k + 2) (n + 2 + length (pass ++ 0 ∷ [])) a₂ (0 ∷ (username ++ 0 ∷ pass))
          (0 ∷ []) (t₂ ∙ simp append_assoc) (omega (arith, length-append pass (0 ∷ [])))
          (omega (arith, length-append username (0 ∷ pass))),
      refl,
      refl,
    )

-- A user name or a password of more than 32 bytes is refused, and the login data stored before is
-- overwritten all the same, while its indices and its length stay.
pub smtp_set_auth_refused :
    (username pass : Bytes) (g : Settings)
    → length g.auth_plain ≡ 67
    → (32 < length username) ⊎ (32 < length pass)
    → (h : Settings) × (smtp_set_auth (some username) (some pass) g ≡ some (h, Err.arg))
      × (take 64 h.auth_plain ≡ replicate 64 0xfa)
      × (h.auth_plain_len ≡ g.auth_plain_len)
      × (h.username ≡ g.username)
      × (h.pass ≡ g.pass)
unfolding smtp_set_auth
smtp_set_auth_refused username pass g size long =
    let (c, ec, tc, lc) = copy_to_fits g.auth_plain 0 (replicate 64 0xfa) [] refl (omega arith) in
    (record g { auth_plain = c }, rw ec (refused c long), tc, refl, refl, refl)
  where
    refused :
        (c : Bytes)
        → (32 < length username) ⊎ (32 < length pass)
        → (if ltb 32 (length username)
            then some (record g { auth_plain = c }, Err.arg)
            else if ltb 32 (length pass)
            then some (record g { auth_plain = c }, Err.arg)
            else store_auth (some username) (some pass) (record g { auth_plain = c }))
          ≡ some (record g { auth_plain = c }, Err.arg)
    refused c (inl h) = rw (lt→ltb 32 (length username) h)
    refused c (inr h) = elim (Bool-cases (ltb 32 (length username))) [
      | inl first ↦ rw first
      | inr other ↦ rw (other, lt→ltb 32 (length pass) h)
    ]

-- A server name of at most 256 bytes is put over the beginning of the name stored before, whose rest
-- stays behind it.
pub smtp_set_server_addr_lem :
    (name : Bytes) (g : Settings)
    → length g.server ≡ 257
    → length name ≤ 256
    → (h : Settings) × (smtp_set_server_addr (some name) g ≡ some h)
      × (h.server ≡ name ++ drop (length name) g.server)
unfolding smtp_set_server_addr copy_to
smtp_set_server_addr_lem name g size short =
    let whole : take (min (length name) 256) name ≡ name = take-all _ name (omega arith) in
    (
      record g { server = overwrite 0 name g.server },
      rw (whole, le→leb (0 + length name) (length g.server) (omega arith)),
      overwrite_start name g.server (omega arith),
    )

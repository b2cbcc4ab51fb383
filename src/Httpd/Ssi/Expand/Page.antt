-- ===== src/Httpd/Ssi/Expand/Page.antt =====
-- Pages written as text and tags, against `expand`.
use scion_lwip_contrib.Base.{
  ℕ, ◌+◌, ◌≤◌, ◌<◌, ◌≢◌, false, Bytes, [], ◌∷◌, ◌++◌, append_assoc, append-nil, List, length,
  length-append, ne→==_false, lt→ltb, ◌≡◌, refl, sym, ap, ◌∙◌, arith,
}
use scion_lwip_contrib.Httpd.Params.RoundTrip.{Without}
use scion_lwip_contrib.Httpd.Ssi.Scan.{tag_lead_in, tag_lead_out, max_tag_name_len, is_space}
use scion_lwip_contrib.Httpd.Ssi.Expand.{Scanner, next, resume, inserted, expand}

-- A piece of a page: text, or a tag of a name.
pub data Piece : Type 0 where
  plain : Bytes → Piece
  tag : Bytes → Piece

abbrev pub print_piece : Piece → Bytes
print_piece (plain t) = t
print_piece (tag n) = tag_lead_in ++ (n ++ tag_lead_out)

-- The page as it stands in the file.
abbrev pub print_page : List Piece → Bytes
print_page [] = []
print_page (p ∷ ps) = print_piece p ++ print_page ps

-- The insert of a tag that something follows.
abbrev pub shown : Bytes → Bytes → Bytes
shown insert [] = []
shown insert (c ∷ cs) = insert

-- The page as it should be sent: each tag with its insert behind it.
abbrev pub render : (Bytes → Bytes) → List Piece → Bytes
render insert [] = []
render insert (plain t ∷ ps) = t ++ render insert ps
render insert (tag n ∷ ps) =
    (tag_lead_in ++ (n ++ tag_lead_out)) ++ (shown (insert n) (print_page ps) ++ render insert ps)

-- Text has no '<'; a name has one to eight characters, none of them '-' or white space.
abbrev pub NameOk : Bytes → Type 0
NameOk [] = Unit {0}
NameOk (c ∷ cs) = (is_space c ≡ false) × (c ≢ b'-') × NameOk cs

abbrev pub PageOk : List Piece → Type 0
PageOk [] = Unit {0}
PageOk (plain t ∷ ps) = Without b'<' t × PageOk ps
PageOk (tag n ∷ ps) = NameOk n × (0 < length n) × (length n ≤ max_tag_name_len) × PageOk ps

abbrev InTag : Scanner → Type 0
InTag (Scanner.complete n) = ⊥
InTag _ = Unit {0}

inserted-InTag :
    (insert : Bytes → Bytes) (s : Scanner) (cs : Bytes) → InTag s → inserted insert s cs ≡ []
unfolding inserted
inserted-InTag insert s [] h = refl
inserted-InTag insert Scanner.text (c ∷ cs) h = refl
inserted-InTag insert (Scanner.lead_in k) (c ∷ cs) h = refl
inserted-InTag insert (Scanner.name n) (c ∷ cs) h = refl
inserted-InTag insert (Scanner.lead_out k n) (c ∷ cs) h = refl
inserted-InTag insert (Scanner.complete n) (c ∷ cs) h = absurd h

resume-InTag : (s : Scanner) → InTag s → resume s ≡ s
unfolding resume
resume-InTag Scanner.text h = refl
resume-InTag (Scanner.lead_in k) h = refl
resume-InTag (Scanner.name n) h = refl
resume-InTag (Scanner.lead_out k n) h = refl
resume-InTag (Scanner.complete n) h = absurd h

-- A character that does not end a tag.
expand-char :
    (insert : Bytes → Bytes) (s s' : Scanner) (c : ℕ) (cs : Bytes)
    → next s c ≡ s'
    → InTag s'
    → expand insert s (c ∷ cs) ≡ c ∷ expand insert s' cs
unfolding expand
expand-char insert s s' c cs e h =
    ap (λ (t : Scanner). c ∷ (inserted insert t cs ++ expand insert (resume t) cs)) e
    ∙ ap (λ (t : Bytes). c ∷ (t ++ expand insert (resume s') cs)) (inserted-InTag insert s' cs h)
    ∙ ap (λ (t : Scanner). c ∷ expand insert t cs) (resume-InTag s' h)

next-text : (c : ℕ) → c ≢ b'<' → next Scanner.text c ≡ Scanner.text
unfolding next
next-text c h = rw (ne→==_false c b'<' h) refl

expand-text :
    (insert : Bytes → Bytes) (t rest : Bytes)
    → Without b'<' t
    → expand insert Scanner.text (t ++ rest) ≡ t ++ expand insert Scanner.text rest
expand-text insert [] rest h = refl
expand-text insert (c ∷ t) rest h =
    expand-char insert Scanner.text Scanner.text c (t ++ rest) (next-text c h.0) tt
    ∙ ap (◌∷◌ c) (expand-text insert t rest h.1)

expand-lead_in :
    (insert : Bytes → Bytes) (rest : Bytes)
    → expand insert Scanner.text (tag_lead_in ++ rest)
      ≡ tag_lead_in ++ expand insert (Scanner.name []) rest
unfolding expand next
expand-lead_in insert rest =
    ap (λ (t : Bytes). tag_lead_in ++ (t ++ expand insert (Scanner.name []) rest))
      (inserted-InTag insert (Scanner.name []) rest tt)

-- A character of a name.
next-name :
    (m : Bytes) (c : ℕ)
    → is_space c ≡ false
    → c ≢ b'-'
    → length m < max_tag_name_len
    → next (Scanner.name m) c ≡ Scanner.name (m ++ c ∷ [])
unfolding next
next-name m c a b lt = rw (a, ne→==_false c b'-' b, lt→ltb _ _ lt) refl

expand-name :
    (insert : Bytes → Bytes) (m n rest : Bytes)
    → NameOk n
    → length m + length n ≤ max_tag_name_len
    → expand insert (Scanner.name m) (n ++ rest) ≡ n ++ expand insert (Scanner.name (m ++ n)) rest
expand-name insert m [] rest h le =
    ap (λ (t : Bytes). expand insert (Scanner.name t) rest) (sym (append-nil m))
expand-name insert m (c ∷ n) rest h le =
    expand-char insert (Scanner.name m) (Scanner.name (m ++ c ∷ [])) c (n ++ rest)
      (next-name m c h.0 h.1 (omega (arith, le))) tt
    ∙ ap (◌∷◌ c) (
        expand-name insert (m ++ c ∷ []) n rest h.2 (omega (arith, le, length-append m (c ∷ [])))
        ∙ ap (λ (t : Bytes). n ++ expand insert (Scanner.name t) rest) (append_assoc m (c ∷ []) n))

-- The end of a tag with a name.
next-end : (n : Bytes) → 0 < length n → next (Scanner.name n) b'-' ≡ Scanner.lead_out 1 n
unfolding next
next-end n pos = rw (ne→==_false (length n) 0 (λ e. omega (arith, e, pos))) refl

inserted-shown :
    (insert : Bytes → Bytes) (n rest : Bytes)
    → inserted insert (Scanner.complete n) rest ≡ shown (insert n) rest
unfolding inserted
inserted-shown insert n [] = refl
inserted-shown insert n (c ∷ cs) = refl

expand-close :
    (insert : Bytes → Bytes) (n rest : Bytes)
    → expand insert (Scanner.lead_out 2 n) (b'>' ∷ rest)
      ≡ b'>' ∷ (shown (insert n) rest ++ expand insert Scanner.text rest)
unfolding expand next
expand-close insert n rest =
    ap (λ (t : Bytes). b'>' ∷ (t ++ expand insert Scanner.text rest)) (inserted-shown insert n rest)

next-dash : (n : Bytes) → next (Scanner.lead_out 1 n) b'-' ≡ Scanner.lead_out 2 n
unfolding next
next-dash n = refl

expand-lead_out :
    (insert : Bytes → Bytes) (n rest : Bytes)
    → 0 < length n
    → expand insert (Scanner.name n) (tag_lead_out ++ rest)
      ≡ tag_lead_out ++ (shown (insert n) rest ++ expand insert Scanner.text rest)
expand-lead_out insert n rest pos =
    expand-char insert (Scanner.name n) (Scanner.lead_out 1 n) b'-' (b'-' ∷ b'>' ∷ rest)
      (next-end n pos) tt
    ∙ ap (◌∷◌ b'-') (
        expand-char insert (Scanner.lead_out 1 n) (Scanner.lead_out 2 n) b'-' (b'>' ∷ rest)
          (next-dash n) tt)
    ∙ ap (λ (t : Bytes). b'-' ∷ b'-' ∷ t) (expand-close insert n rest)

expand-tag :
    (insert : Bytes → Bytes) (n rest : Bytes)
    → NameOk n
    → 0 < length n
    → length n ≤ max_tag_name_len
    → expand insert Scanner.text ((tag_lead_in ++ (n ++ tag_lead_out)) ++ rest)
      ≡ (tag_lead_in ++ (n ++ tag_lead_out))
        ++ (shown (insert n) rest ++ expand insert Scanner.text rest)
expand-tag insert n rest ok pos le =
    let after = shown (insert n) rest ++ expand insert Scanner.text rest in
    ap (expand insert Scanner.text) (ap (◌++◌ tag_lead_in) (append_assoc n tag_lead_out rest))
    ∙ expand-lead_in insert (n ++ (tag_lead_out ++ rest))
    ∙ ap (◌++◌ tag_lead_in) (
        expand-name insert [] n (tag_lead_out ++ rest) ok (omega (arith, le))
        ∙ ap (◌++◌ n) (expand-lead_out insert n rest pos)
        ∙ sym (append_assoc n tag_lead_out after))

-- A page of text without '<' and of tags with well-formed names is sent as it is rendered.
pub expand-print_page :
    (insert : Bytes → Bytes) (ps : List Piece)
    → PageOk ps
    → expand insert Scanner.text (print_page ps) ≡ render insert ps
unfolding expand
expand-print_page insert [] ok = refl
expand-print_page insert (plain t ∷ ps) ok =
    expand-text insert t (print_page ps) ok.0 ∙ ap (◌++◌ t) (expand-print_page insert ps ok.1)
expand-print_page insert (tag n ∷ ps) ok =
    expand-tag insert n (print_page ps) ok.0 ok.1 ok.2
    ∙ ap
        (λ (t : Bytes).
          (tag_lead_in ++ (n ++ tag_lead_out)) ++ (shown (insert n) (print_page ps) ++ t))
        (expand-print_page insert ps ok.3)

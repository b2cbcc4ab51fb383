-- ===== src/Httpd/Ssi/Insert.antt =====
-- apps/httpserver_raw/httpd.c: `get_tag_insert`.
use scion_lwip_contrib.Base.{
  ℕ, ◌+◌, ◌-◌, ◌≤◌, min, List, [], ◌∷◌, ◌++◌, Option, none, some, Bytes, codes, c_string, same,
  length, length-append, length-take, take, if◌then◌else◌, Bool-cases, inl, inr, arith,
}

-- `LWIP_HTTPD_MAX_TAG_INSERT_LEN`
abbrev pub max_tag_insert_len : ℕ
max_tag_insert_len = 192

-- `g_ppcTags` and `g_pfnSSIHandler`: the application's handler gives the text for the tag of an index.
pub record SsiHandler : Type 0 where
  pub tags : List Bytes
  pub insert : ℕ → Bytes

abbrev pub unknown_tag1_text : Bytes
unknown_tag1_text = codes "<b>***UNKNOWN TAG "

abbrev pub unknown_tag2_text : Bytes
unknown_tag2_text = codes "***</b>"

-- The text that echoes an unknown tag.
pub unknown_tag : Bytes → Bytes
unknown_tag name =
    unknown_tag1_text
    ++ take (min (length (c_string name)) (max_tag_insert_len - (18 + 7))) (c_string name)
    ++ unknown_tag2_text

-- The loop over the tags, from `loop` on.
pub find_tag : SsiHandler → Bytes → ℕ → List Bytes → Bytes
unfolding unknown_tag
find_tag h name loop [] = unknown_tag name
find_tag h name loop (tag ∷ tags) =
    let rest = find_tag h name (loop + 1) tags in
    if same (c_string name) tag then h.insert loop else rest

-- `get_tag_insert`: the insert for a tag's name; `none` is a handler that was not set.
pub get_tag_insert : Option SsiHandler → Bytes → Bytes
unfolding find_tag
get_tag_insert none name = unknown_tag name
get_tag_insert (some h) name = find_tag h name 0 h.tags

-- The handler keeps to the length that it is given.
abbrev pub Fits : Option SsiHandler → Type 0
Fits none = Unit {0}
Fits (some h) = (loop : ℕ) → length (h.insert loop) ≤ max_tag_insert_len

length-unknown_tag : (name : Bytes) → length (unknown_tag name) ≤ max_tag_insert_len
unfolding unknown_tag
length-unknown_tag name =
    let cut = take (min (length (c_string name)) (max_tag_insert_len - (18 + 7))) (c_string name) in
    omega (
      arith,
      length-append cut unknown_tag2_text,
      length-take (min (length (c_string name)) (max_tag_insert_len - (18 + 7))) (c_string name),
    )

length-find_tag :
    (h : SsiHandler) (name : Bytes) (loop : ℕ) (tags : List Bytes)
    → Fits (some h)
    → length (find_tag h name loop tags) ≤ max_tag_insert_len
unfolding find_tag
length-find_tag h name loop [] fits = length-unknown_tag name
length-find_tag h name loop (tag ∷ tags) fits = elim (Bool-cases (same (c_string name) tag)) [
  | inl e ↦ rw e (fits loop)
  | inr e ↦ rw e (length-find_tag h name (loop + 1) tags fits)
]

pub length-get_tag_insert :
    (h : Option SsiHandler) (name : Bytes)
    → Fits h
    → length (get_tag_insert h name) ≤ max_tag_insert_len
unfolding get_tag_insert
length-get_tag_insert none name fits = length-unknown_tag name
length-get_tag_insert (some h) name fits = length-find_tag h name 0 h.tags fits

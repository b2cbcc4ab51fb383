-- ===== src/Httpd/Post/Line.antt =====
-- apps/httpserver_raw/httpd.c: the request line with the method POST, and the header "Content-Length: ".
use scion_lwip_contrib.Base.{
  ℕ, ◌+◌, ◌-◌, ◌*◌, Bool, ◌&&◌, ◌||◌, [], ◌∷◌, ◌++◌, Option, none, some, Bytes, codes, length, take,
  drop, set, starts_with, ◌==◌, leb, if◌then◌else◌,
}
use scion_lwip_contrib.Httpd.Files.{strnstr, crlf}
use scion_lwip_contrib.Httpd.Request.{RequestLine, min_req_len, parse_get}

-- `atoi` where the number is positive, and 0 where it is not.
abbrev is_digit : ℕ → Bool
is_digit c = leb b'0' c && leb c b'9'

unfoldable pub digits : ℕ → Bytes → ℕ
digits n [] = n
digits n (c ∷ cs) = let rest = digits (n * 10 + (c - b'0')) cs in if is_digit c then rest else n

unfoldable pub atoi : Bytes → ℕ
unfolding digits
atoi [] = 0
atoi (c ∷ cs) =
    let rest = atoi cs in
    if c == b' ' || leb 9 c && leb c 13
    then rest
    else if c == b'-'
    then 0
    else if c == b'+'
    then digits 0 cs
    else digits 0 (c ∷ cs)

-- The value of the header "Content-Length: " before the end of the header at `k`. `atoi` reads up to the NUL that
-- is written over the end of the line, which is `terminate` below.
unfoldable pub number_at : Bytes → Option ℕ
unfolding atoi strnstr
number_at text = elim (strnstr text crlf 10) [ none ↦ none | some e ↦ some (atoi (take e text)) ]

unfoldable pub value_at : Bytes → Option ℕ → Option ℕ
unfolding number_at
value_at fields none = none
value_at fields (some j) = number_at (drop (j + 16) fields)

unfoldable pub content_length : Bytes → ℕ → Option ℕ
unfolding value_at
content_length fields k = value_at fields (strnstr fields (codes "Content-Length: ") k)

-- `scontent_len_end`: where the line of the number ends.
unfoldable pub number_end : Bytes → Option ℕ → Option ℕ
unfolding strnstr
number_end fields none = none
number_end fields (some j) = elim (strnstr (drop (j + 16) fields) crlf 10) [
  | none ↦ none
  | some e ↦ some (j + 16 + e)
]

unfoldable pub scontent_len_end : Bytes → ℕ → Option ℕ
unfolding number_end
scontent_len_end fields k = number_end fields (strnstr fields (codes "Content-Length: ") k)

-- `*scontent_len_end = 0`, which stays in the buffer.
unfoldable pub terminate : Bytes → Option ℕ → Bytes
terminate fields none = fields
terminate fields (some e) = set fields e 0

-- What the request line says, with POST: the URI and what stands behind it.
pub data PostLine : Type 0 where
  line : RequestLine → PostLine
  bad : PostLine
  post : Bytes → Bytes → PostLine

unfoldable pub parse_post : Bytes → Bytes → Option ℕ → PostLine
parse_post request after none = bad
parse_post request after (some uri_len) = elim (strnstr request (crlf ++ crlf) (length request)) [
  | none ↦ line RequestLine.incomplete
  | some end ↦ post (take uri_len after) (drop (uri_len + 1) after)
]

unfoldable pub parse_post_method : Bytes → PostLine
unfolding parse_post
parse_post_method request =
    if starts_with (codes "GET ") request
    then line (
        parse_get request (drop 4 request)
          (strnstr (drop 4 request) (codes " ") (length (drop 4 request))))
    else if starts_with (codes "POST ") request
    then parse_post request (drop 5 request)
        (strnstr (drop 5 request) (codes " ") (length (drop 5 request)))
    else line RequestLine.not_implemented

unfoldable pub parse_post_line : Bytes → PostLine
unfolding parse_post_method
parse_post_line request =
    if leb min_req_len (length request)
    then elim (strnstr request crlf (length request)) [
      | none ↦ line RequestLine.incomplete
      | some end ↦ parse_post_method request
    ]
    else line RequestLine.incomplete

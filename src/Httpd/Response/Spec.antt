-- ===== src/Httpd/Response/Spec.antt =====
-- The headers that a name asks for, described apart from the code: the status by the names that have one of their own,
-- the extension behind the last '.', and the content type by groups of extensions.
use scion_lwip_contrib.Base.{
  inl, inr, Bool, Bool-cases, true, false, ◌||◌, List, [], ◌∷◌, ◌++◌, Option, none, some, Bytes,
  codes, contains, same, ◌==◌, if◌then◌else◌, ◌≡◌, refl, ap, ◌∙◌,
}
use scion_lwip_contrib.Httpd.Response.{status_line, find_type, type_headers, find_extension}

abbrev line : Bytes → Bytes
line text = text ++ (13 ∷ 10 ∷ [])

abbrev statuses : List (Bytes × Bytes)
statuses =
    (codes "404", codes "404 File not found")
    ∷ (codes "400", codes "400 Bad Request")
    ∷ (codes "501", codes "501 Not Implemented")
    ∷ []

abbrev status_in : List (Bytes × Bytes) → Bytes → Bytes
status_in [] name = codes "200 OK"
status_in (s ∷ ss) name = if contains s.0 name then s.1 else status_in ss name

abbrev pub status_for : Bytes → Bytes
status_for name = line (codes "HTTP/1.0 " ++ status_in statuses name)

abbrev pub server_line : Bytes
server_line = line (codes "Server: lwIP/1.3.1 (http://savannah.nongnu.org/projects/lwip)")

-- The text behind the last '.'.
unfoldable pub extension_of : Bytes → Option Bytes
extension_of [] = none
extension_of (c ∷ cs) = elim (extension_of cs) [
  | some e ↦ some e
  | none ↦ if c == b'.' then some cs else none
]

-- A media type, or that of pages that are not to be cached, with the extensions that have it.
abbrev plain_type : Bytes → Bytes
plain_type media = line (line (codes "Content-type: " ++ media))

abbrev uncached_type : Bytes → Bytes
uncached_type media =
    line (codes "Content-type: " ++ media)
    ++ (line (codes "Expires: Fri, 10 Apr 2008 14:00:00 GMT")
        ++ line (line (codes "Pragma: no-cache")))

abbrev media_types : List (List Bytes × Bytes)
media_types =
    (codes "html" ∷ codes "htm" ∷ [], plain_type (codes "text/html"))
    ∷ (codes "shtml" ∷ codes "shtm" ∷ codes "ssi" ∷ [], uncached_type (codes "text/html"))
    ∷ (codes "gif" ∷ [], plain_type (codes "image/gif"))
    ∷ (codes "png" ∷ [], plain_type (codes "image/png"))
    ∷ (codes "jpg" ∷ [], plain_type (codes "image/jpeg"))
    ∷ (codes "bmp" ∷ [], plain_type (codes "image/bmp"))
    ∷ (codes "ico" ∷ [], plain_type (codes "image/x-icon"))
    ∷ (codes "class" ∷ codes "cls" ∷ [], plain_type (codes "application/octet-stream"))
    ∷ (codes "js" ∷ codes "ram" ∷ [], plain_type (codes "application/x-javascript"))
    ∷ (codes "css" ∷ [], plain_type (codes "text/css"))
    ∷ (codes "swf" ∷ [], plain_type (codes "application/x-shockwave-flash"))
    ∷ (codes "xml" ∷ codes "xsl" ∷ [], plain_type (codes "text/xml"))
    ∷ []

abbrev is_one_of : List Bytes → Bytes → Bool
is_one_of [] ext = false
is_one_of (e ∷ es) ext = same e ext || is_one_of es ext

abbrev type_in : List (List Bytes × Bytes) → Bytes → Bytes
type_in [] ext = plain_type (codes "text/plain")
type_in (g ∷ gs) ext = if is_one_of g.0 ext then g.1 else type_in gs ext

abbrev pub type_of : Bytes → Bytes
type_of ext = type_in media_types ext

abbrev pub not_found_line : Bytes
not_found_line = line (codes "HTTP/1.0 404 File not found")

abbrev pub not_found_page : Bytes
not_found_page =
    line []
    ++ line (codes "<html><body><h2>404: The requested file cannot be found.</h2></body></html>")

-- The code's choice of each.
pub status_line-status_for : (name : Bytes) → status_line name ≡ status_for name
unfolding status_line
status_line-status_for name = elim (Bool-cases (contains (codes "404") name)) [
  | inl t ↦ rw t refl
  | inr f ↦ elim (Bool-cases (contains (codes "400") name)) [
    | inl t ↦ rw f rw t refl
    | inr g ↦ elim (Bool-cases (contains (codes "501") name)) [
      | inl t ↦ rw f rw g rw t refl
      | inr h ↦ rw f rw g rw h refl
    ]
  ]
]

abbrev or_else : Option Bytes → Option Bytes → Option Bytes
or_else none o = o
or_else (some e) o = some e

later :
    (c : Bool) (cs : Bytes) (x o : Option Bytes)
    → or_else x (if c then some cs else o)
      ≡ or_else (elim x [ some e ↦ some e | none ↦ if c then some cs else none ]) o
later true cs none o = refl
later false cs none o = refl
later c cs (some e) o = refl

find_extension-or_else :
    (o : Option Bytes) (cs : Bytes) → find_extension o cs ≡ or_else (extension_of cs) o
unfolding find_extension extension_of
find_extension-or_else o [] = refl
find_extension-or_else o (c ∷ cs) =
    find_extension-or_else (if c == b'.' then some cs else o) cs
    ∙ later (c == b'.') cs (extension_of cs) o

or_else-none : (x : Option Bytes) → or_else x none ≡ x
or_else-none none = refl
or_else-none (some e) = refl

pub find_extension-extension_of : (cs : Bytes) → find_extension none cs ≡ extension_of cs
find_extension-extension_of cs = find_extension-or_else none cs ∙ or_else-none (extension_of cs)

abbrev each : Bytes → List Bytes → List (Bytes × Bytes) → List (Bytes × Bytes)
each header [] rest = rest
each header (e ∷ es) rest = (e, header) ∷ each header es rest

abbrev flatten : List (List Bytes × Bytes) → List (Bytes × Bytes)
flatten [] = []
flatten (g ∷ gs) = each g.1 g.0 (flatten gs)

find_type-each :
    (header : Bytes) (es : List Bytes) (rest : List (Bytes × Bytes)) (ext : Bytes)
    → find_type (each header es rest) ext
      ≡ (if is_one_of es ext then header else find_type rest ext)
unfolding find_type
find_type-each header [] rest ext = refl
find_type-each header (e ∷ es) rest ext = elim (Bool-cases (same e ext)) [
  | inl t ↦ rw t refl
  | inr f ↦ rw f (find_type-each header es rest ext)
]

find_type-flatten :
    (gs : List (List Bytes × Bytes)) (ext : Bytes) → find_type (flatten gs) ext ≡ type_in gs ext
unfolding find_type
find_type-flatten [] ext = refl
find_type-flatten (g ∷ gs) ext =
    find_type-each g.1 g.0 (flatten gs) ext
    ∙ ap (λ (t : Bytes). if is_one_of g.0 ext then g.1 else t) (find_type-flatten gs ext)

pub find_type-type_of : (ext : Bytes) → find_type type_headers ext ≡ type_of ext
find_type-type_of ext = find_type-flatten media_types ext

-- ===== src/Httpd/Response.antt =====
-- apps/httpserver_raw/httpd.c and httpd_structs.h: the response's headers and the state that is set up
-- for sending it.
pub mod Spec
pub mod Setup
pub mod Serving
pub mod SsiPage
use scion_lwip_contrib.Base.{
  ℕ, zero, suc, ◌+◌, ◌-◌, Bool, true, false, not, ◌&&◌, ◌||◌, List, [], ◌∷◌, ◌++◌, Option, none,
  some, Bytes, codes, length, get_or, drop, same, contains, break_at, ◌==◌, if◌then◌else◌,
}
use scion_lwip_contrib.Httpd.State.{FsFile, HttpState, num_file_hdr_strings}
use scion_lwip_contrib.Httpd.Ssi.Scan.{SsiState, TagCheckState}
use scion_lwip_contrib.Httpd.Files.{
  FsdataFile, Found, Cgi, open_default, open_uri, check_tags, call_cgi, strnstr, crlf,
}

-- The strings of `g_psHTTPHeaderStrings` that are sent.
abbrev pub hdr_ok : Bytes
hdr_ok = codes "HTTP/1.0 200 OK" ++ crlf

abbrev pub hdr_not_found : Bytes
hdr_not_found = codes "HTTP/1.0 404 File not found" ++ crlf

abbrev pub hdr_bad_request : Bytes
hdr_bad_request = codes "HTTP/1.0 400 Bad Request" ++ crlf

abbrev pub hdr_not_impl : Bytes
hdr_not_impl = codes "HTTP/1.0 501 Not Implemented" ++ crlf

abbrev pub hdr_server : Bytes
hdr_server = codes "Server: lwIP/1.3.1 (http://savannah.nongnu.org/projects/lwip)" ++ crlf

abbrev pub default_404_html : Bytes
default_404_html =
    crlf
    ++ (codes "<html><body><h2>404: The requested file cannot be found.</h2></body></html>" ++ crlf)

abbrev content_type : Bytes → Bytes
content_type t = codes "Content-type: " ++ (t ++ (crlf ++ crlf))

abbrev ssi_type : Bytes
ssi_type =
    codes "Content-type: text/html"
    ++ (crlf
        ++ (codes "Expires: Fri, 10 Apr 2008 14:00:00 GMT"
            ++ (crlf ++ (codes "Pragma: no-cache" ++ (crlf ++ crlf)))))

-- `g_psHTTPHeaders`: the extensions with their headers.
abbrev pub type_headers : List (Bytes × Bytes)
type_headers =
    (codes "html", content_type (codes "text/html"))
    ∷ (codes "htm", content_type (codes "text/html"))
    ∷ (codes "shtml", ssi_type)
    ∷ (codes "shtm", ssi_type)
    ∷ (codes "ssi", ssi_type)
    ∷ (codes "gif", content_type (codes "image/gif"))
    ∷ (codes "png", content_type (codes "image/png"))
    ∷ (codes "jpg", content_type (codes "image/jpeg"))
    ∷ (codes "bmp", content_type (codes "image/bmp"))
    ∷ (codes "ico", content_type (codes "image/x-icon"))
    ∷ (codes "class", content_type (codes "application/octet-stream"))
    ∷ (codes "cls", content_type (codes "application/octet-stream"))
    ∷ (codes "js", content_type (codes "application/x-javascript"))
    ∷ (codes "ram", content_type (codes "application/x-javascript"))
    ∷ (codes "css", content_type (codes "text/css"))
    ∷ (codes "swf", content_type (codes "application/x-shockwave-flash"))
    ∷ (codes "xml", content_type (codes "text/xml"))
    ∷ (codes "xsl", content_type (codes "text/xml"))
    ∷ []

abbrev pub default_type : Bytes
default_type = content_type (codes "text/plain")

-- The loop over the extensions.
unfoldable pub find_type : List (Bytes × Bytes) → Bytes → Bytes
find_type [] ext = default_type
find_type ((e, header) ∷ es) ext =
    let rest = find_type es ext in if same e ext then header else rest

-- The text behind the last '.'.
unfoldable pub find_extension : Option Bytes → Bytes → Option Bytes
find_extension ext [] = ext
find_extension ext (c ∷ cs) = find_extension (if c == b'.' then some cs else ext) cs

-- The status line that a file's name asks for.
unfoldable pub status_line : Bytes → Bytes
status_line uri =
    if contains (codes "404") uri
    then hdr_not_found
    else if contains (codes "400") uri
    then hdr_bad_request
    else if contains (codes "501") uri
    then hdr_not_impl
    else hdr_ok

-- The headers with the extension that was found.
unfoldable pub headers_for : HttpState → Bytes → Option Bytes → HttpState
unfolding status_line find_type
headers_for hs uri none = record hs {
  hdrs = status_line uri ∷ hdr_server ∷ get_or hs.hdrs 2 [] ∷ [];
  hdr_index = num_file_hdr_strings;
}
headers_for hs uri (some ext) = record hs {
  hdrs = status_line uri ∷ hdr_server ∷ find_type type_headers ext ∷ [];
  hdr_index = 0;
  hdr_pos = 0;
}

-- `get_http_headers`; the URI is `none` where it is NULL.
unfoldable pub get_http_headers : HttpState → Option Bytes → HttpState
unfolding headers_for find_extension
get_http_headers hs none = record hs {
  hdrs = hdr_not_found ∷ hdr_server ∷ default_404_html ∷ [];
  hdr_index = 0;
  hdr_pos = 0;
}
get_http_headers hs (some uri) = headers_for hs uri (find_extension none (break_at b'?' uri).0)

-- The new state of the tag processor.
abbrev pub new_ssi : FsFile → SsiState
new_ssi file = record {
  parsed = 0;
  tag_end = 0;
  parse_left = length file.contents;
  tag_index = 0;
  tag_name = [];
  tag_insert = [];
  tag_state = TagCheckState.tag_none;
}

-- HTTP/0.9: the headers that a file includes are skipped.
abbrev pub skip_headers : HttpState → Option ℕ → HttpState
skip_headers hs none = hs
skip_headers hs (some k) = record hs { file = hs.file + (k + 4); left = hs.left - (k + 4) }

unfoldable pub init_found : HttpState → Found → Bool → Bool → HttpState
unfolding get_http_headers strnstr
init_found hs found is_09 ssi_allocated =
    let opened = record hs {
      handle = some found.file;
      file = 0;
      left = length found.file.contents;
      retries = 0;
      ssi = if found.tag_check && ssi_allocated then some (new_ssi found.file) else hs.ssi;
    } in
    if found.file.http_header_included
    then if is_09
      then skip_headers opened
          (strnstr found.file.contents (crlf ++ crlf) (length found.file.contents))
      else opened
    else get_http_headers opened (some found.uri)

-- `http_init_file`; `ssi_allocated` is the success of `http_ssi_state_alloc`.
unfoldable pub http_init_file : HttpState → Option Found → Bool → Bool → HttpState
unfolding init_found get_http_headers
http_init_file hs none is_09 ssi_allocated =
    get_http_headers (record hs { handle = none; file = 0; left = 0; retries = 0 }) none
http_init_file hs (some found) is_09 ssi_allocated = init_found hs found is_09 ssi_allocated

-- The file for a URI.
unfoldable pub find_file : List FsdataFile → List Cgi → Bytes → Option Found
unfolding open_default open_uri check_tags call_cgi
find_file files cgis uri =
    if same uri (codes "/")
    then open_default files
    else check_tags (open_uri files (call_cgi cgis 0 (break_at b'?' uri).0 (break_at b'?' uri).1))

-- `http_find_file`
unfoldable pub http_find_file :
    List FsdataFile → List Cgi → HttpState → Bytes → Bool → Bool → HttpState
unfolding find_file http_init_file
http_find_file files cgis hs uri is_09 ssi_allocated =
    http_init_file hs (find_file files cgis uri) is_09 ssi_allocated

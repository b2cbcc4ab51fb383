-- ===== src/Httpd/Response/Serving.antt =====
-- What `http_find_file` sets up to be sent, and a page with includes from there to the last write.
use scion_lwip_contrib.Base.{
  inl, inr, Bool, true, false, ◌&&◌, List, [], ◌∷◌, ◌++◌, append-nil, Option, none, some, Bytes,
  length, break_at, same, codes, if◌then◌else◌, ◌≡◌, refl, ap, ◌∙◌, Bool-cases,
}
use scion_lwip_contrib.Httpd.State.{FsFile, HttpState}
use scion_lwip_contrib.Httpd.Ssi.Insert.{SsiHandler}
use scion_lwip_contrib.Httpd.Send.Data.{pending, body_pending, IsServing, BodyOk}
use scion_lwip_contrib.Httpd.Files.{
  FsdataFile, Found, Cgi, fs_open, open_first, default_filenames, http_get_404_file,
  not_found_names, check_tags, call_cgi,
}
use scion_lwip_contrib.Httpd.Response.{
  hdr_not_found, hdr_server, default_404_html, find_extension, new_ssi, get_http_headers,
  init_found, http_init_file, find_file, http_find_file,
}
use scion_lwip_contrib.Httpd.Response.Spec.{find_extension-extension_of}
use scion_lwip_contrib.Httpd.Response.Setup.{
  type_line, header_text, body_text, response, IsIdle, opened-FileOk, opened-pending,
  headers_for-Serves, not_found-Serves, included-Serves,
}

-- The file that was found is read to its end.
abbrev IndexOk : Option Found → Type 0
IndexOk none = Unit {0}
IndexOk (some f) = f.file.index ≡ length f.file.contents

abbrev FileIndexOk : Option FsFile → Type 0
FileIndexOk none = Unit {0}
FileIndexOk (some f) = f.index ≡ length f.contents

fs_open-FileIndexOk : (files : List FsdataFile) (name : Bytes) → FileIndexOk (fs_open files name)
unfolding fs_open
fs_open-FileIndexOk [] name = tt
fs_open-FileIndexOk (f ∷ fs) name = elim (Bool-cases (same name f.name)) [
  | inl e ↦ rw e refl
  | inr e ↦ rw e (fs_open-FileIndexOk fs name)
]

open_first-IndexOk :
    (files : List FsdataFile) (names : List (Bytes × Bool)) → IndexOk (open_first files names)
unfolding open_first
open_first-IndexOk files [] = tt
open_first-IndexOk files ((uri, shtml) ∷ names) =
    go (fs_open files uri) (fs_open-FileIndexOk files uri) (open_first-IndexOk files names)
  where
    go :
        (o : Option FsFile)
        → FileIndexOk o
        → IndexOk (open_first files names)
        → IndexOk (elim o [
          | some f ↦ some (record { file = f; uri = uri; tag_check = shtml })
          | none ↦ open_first files names
        ])
    go none i r = r
    go (some f) i r = i

http_get_404_file-IndexOk : (files : List FsdataFile) → IndexOk (http_get_404_file files)
unfolding http_get_404_file
http_get_404_file-IndexOk files = open_first-IndexOk files not_found_names

find_file-IndexOk :
    (files : List FsdataFile) (cgis : List Cgi) (uri : Bytes) → IndexOk (find_file files cgis uri)
unfolding find_file
find_file-IndexOk files cgis uri = elim (Bool-cases (same uri (codes "/"))) [
  | inl e ↦
      rw e
        (default (open_first files default_filenames) (open_first-IndexOk files default_filenames))
  | inr e ↦ rw e (specific (fs_open files target) (fs_open-FileIndexOk files target))
]
  where
    target : Bytes
    target = call_cgi cgis 0 (break_at b'?' uri).0 (break_at b'?' uri).1

    default :
        (o : Option Found)
        → IndexOk o
        → IndexOk (elim o [ some f ↦ some f | none ↦ http_get_404_file files ])
    default none i = http_get_404_file-IndexOk files
    default (some f) i = i

    checked : (o : Option Found) → IndexOk o → IndexOk (check_tags o)
    checked none i = i
    checked (some f) i = i

    specific :
        (o : Option FsFile)
        → FileIndexOk o
        → IndexOk (
            check_tags (elim o [
              | some f ↦ some (record { file = f; uri = target; tag_check = false })
              | none ↦ http_get_404_file files
            ]))
    specific none i = checked (http_get_404_file files) (http_get_404_file-IndexOk files)
    specific (some f) i = i

init_found-Serves :
    (handler : Option SsiHandler) (hs : HttpState) (found : Found) (ssi_allocated : Bool)
    → IsIdle hs
    → found.file.index ≡ length found.file.contents
    → IsServing (init_found hs found false ssi_allocated)
      × (pending handler (init_found hs found false ssi_allocated)
          ≡ response handler ssi_allocated (some found))
unfolding init_found get_http_headers
init_found-Serves handler hs found ssi_allocated idle at_end = go found.file.http_header_included
  where
    tags : Bool
    tags = found.tag_check && ssi_allocated

    opened : HttpState
    opened = record hs {
      handle = some found.file;
      file = 0;
      left = length found.file.contents;
      retries = 0;
      ssi = if tags then some (new_ssi found.file) else hs.ssi;
    }

    body : BodyOk opened.handle opened.ssi opened.file opened.left
    body = (at_end, opened-FileOk found.file tags hs.ssi idle.no_ssi)

    text :
        body_pending handler opened.handle opened.ssi opened.file
        ≡ body_text handler tags found.file.contents
    text = opened-pending handler found.file tags hs.ssi idle.no_ssi

    go :
        (included : Bool)
        → IsServing (if included then opened else get_http_headers opened (some found.uri))
          × (pending handler (if included then opened else get_http_headers opened (some found.uri))
              ≡ header_text included found.uri ++ body_text handler tags found.file.contents)
    go true =
        let s =
          included-Serves handler opened body idle.no_headers idle.headers_sent idle.at_start in
        (s.0, s.1 ∙ text)
    go false =
        let h = header_text false found.uri in
        let s =
          headers_for-Serves handler opened body found.uri
            (find_extension none (break_at b'?' found.uri).0) idle.at_start in
        (
          s.0,
          s.1
              ∙ ap
                  (λ (o : Option Bytes).
                    type_line found.uri o
                    ++ body_pending handler opened.handle opened.ssi opened.file)
                  (find_extension-extension_of (break_at b'?' found.uri).0)
              ∙ ap (◌++◌ h) text,
        )

-- For a request that is not HTTP/0.9, on a connection that has not begun a response, `http_find_file` leaves a
-- valid state in which exactly the response is to be sent. Of a file that was found, this is: the status line, the server line and the content
-- type that Spec lists for its name, unless the file includes its headers or the name has no extension, and then the file, which is expanded if it is checked for tags
-- and the tag processor was allocated. Without a file it is the default page for 404.
pub http_find_file-response :
    (handler : Option SsiHandler) (files : List FsdataFile) (cgis : List Cgi) (hs : HttpState)
    (uri : Bytes) (ssi_allocated : Bool)
    → IsIdle hs
    → IsServing (http_find_file files cgis hs uri false ssi_allocated)
      × (pending handler (http_find_file files cgis hs uri false ssi_allocated)
          ≡ response handler ssi_allocated (find_file files cgis uri))
unfolding http_find_file
http_find_file-response handler files cgis hs uri ssi_allocated idle =
    go (find_file files cgis uri) (find_file-IndexOk files cgis uri)
  where
    go :
        (f : Option Found)
        → IndexOk f
        → IsServing (http_init_file hs f false ssi_allocated)
          × (pending handler (http_init_file hs f false ssi_allocated)
              ≡ response handler ssi_allocated f)
    go none i =
        let s =
          not_found-Serves handler (record hs { handle = none; file = 0; left = 0; retries = 0 })
            refl in
        (s.0, s.1 ∙ append-nil (hdr_not_found ++ (hdr_server ++ (default_404_html ++ []))))
    go (some f) i = init_found-Serves handler hs f ssi_allocated idle i

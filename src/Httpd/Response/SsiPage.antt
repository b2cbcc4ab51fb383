-- ===== src/Httpd/Response/SsiPage.antt =====
-- A page with includes, from the request for it to the last write.
use scion_lwip_contrib.Base.{Bool, true, false, ◌&&◌, List, ◌++◌, Option, some, Bytes, ◌≡◌, ap, ◌∙◌}
use scion_lwip_contrib.Httpd.Write.{Tcp, Pcb}
use scion_lwip_contrib.Httpd.State.{HttpState, Conn}
use scion_lwip_contrib.Httpd.Ssi.Insert.{SsiHandler, Fits, get_tag_insert}
use scion_lwip_contrib.Httpd.Ssi.Expand.{Scanner, expand}
use scion_lwip_contrib.Httpd.Ssi.Expand.Page.{Piece, print_page, render, PageOk, expand-print_page}
use scion_lwip_contrib.Httpd.Send.Run.{run, acks, IsGoing, run-IsGoing}
use scion_lwip_contrib.Httpd.Files.{FsdataFile, Found, Cgi}
use scion_lwip_contrib.Httpd.Response.{find_file, http_find_file}
use scion_lwip_contrib.Httpd.Response.Serving.{http_find_file-response}
use scion_lwip_contrib.Httpd.Response.Setup.{IsIdle, header_text, body_text, response}

-- The connection as a request leaves it.
abbrev pub requested : List FsdataFile → List Cgi → HttpState → Bytes → Pcb → Conn
requested files cgis hs uri pcb = record {
  pcb = pcb;
  hs = some (http_find_file files cgis hs uri false true);
  closed = false;
}

body_text-page :
    (handler : Option SsiHandler) (tags : Bool) (contents : Bytes) (ps : List Piece)
    → tags ≡ true
    → contents ≡ print_page ps
    → PageOk ps
    → body_text handler (tags && true) contents ≡ render (get_tag_insert handler) ps
body_text-page handler false contents ps t e ok = cc
body_text-page handler true contents ps t e ok =
    ap (expand (get_tag_insert handler) Scanner.text) e
    ∙ expand-print_page (get_tag_insert handler) ps ok

-- Let the file found for a URI be checked for tags, and consist of text without '<' and of tags
-- `<!--#name-->` with names of one to eight characters without '-' and white space. After the request on an idle
-- connection, and any number of calls of `http_sent`, the connection is open with the rest still to be sent, or it is closed and
-- what was sent is: the headers, and the page with each tag followed by the insert for it, other than a tag at
-- the end of the file. The handler keeps to its length, and the tag processor was allocated.
pub run-page :
    (handler : Option SsiHandler) (files : List FsdataFile) (cgis : List Cgi) (hs : HttpState)
    (uri : Bytes) (pcb : Pcb) (tcps : List Tcp) (found : Found) (ps : List Piece)
    → Fits handler
    → IsIdle hs
    → find_file files cgis uri ≡ some found
    → found.tag_check ≡ true
    → found.file.contents ≡ print_page ps
    → PageOk ps
    → IsGoing handler
        (pcb.sent
          ++ (header_text found.file.http_header_included found.uri
              ++ render (get_tag_insert handler) ps))
        (run handler (acks tcps) (requested files cgis hs uri pcb))
run-page handler files cgis hs uri pcb tcps found ps fits idle is_found tags contents ok =
    let r = http_find_file-response handler files cgis hs uri true idle in
    let h = header_text found.file.http_header_included found.uri in
    run-IsGoing handler (pcb.sent ++ (h ++ render (get_tag_insert handler) ps)) tcps
      (requested files cgis hs uri pcb) fits
      (
        r.0,
        ap (◌++◌ pcb.sent) (
            r.1
            ∙ ap (response handler true) is_found
            ∙ ap (◌++◌ h)
                (body_text-page handler found.tag_check found.file.contents ps tags contents ok)),
      )

-- ===== src/Httpd/Response/Setup.antt =====
-- The response to a request, and the states that are set up for it.
use scion_lwip_contrib.Base.{
  ◌∙◌, ◌+◌, inl, inr, Bool, true, false, ◌&&◌, [], ◌++◌, Option, none, some, Bytes, length,
  break_at, if◌then◌else◌, ◌≡◌, refl, sym, subst, ap, arith,
}
use scion_lwip_contrib.Httpd.State.{FsFile, HttpState, num_file_hdr_strings}
use scion_lwip_contrib.Httpd.Ssi.Scan.{SsiState}
use scion_lwip_contrib.Httpd.Ssi.Insert.{SsiHandler, get_tag_insert}
use scion_lwip_contrib.Httpd.Ssi.Expand.{Scanner, expand}
use scion_lwip_contrib.Httpd.Ssi.Expand.Slices.{ssi_pending-scanning}
use scion_lwip_contrib.Httpd.Headers.Sent.{headers_pending-end, HeadersOk}
use scion_lwip_contrib.Httpd.Send.Data.{
  pending, body_pending, IsServing, file_pending, BodyOk, FileOk,
}
use scion_lwip_contrib.Httpd.Files.{Found}
use scion_lwip_contrib.Httpd.Response.Spec.{
  status_for, server_line, type_of, extension_of, not_found_line, not_found_page,
  status_line-status_for, find_type-type_of,
}
use scion_lwip_contrib.Httpd.Response.{
  hdr_not_found, hdr_server, default_404_html, find_type, type_headers, new_ssi, headers_for,
  get_http_headers,
}

-- The response to a request: the headers of Spec that the name asks for, unless the file includes them or the name has
-- no extension, and the file, expanded where it is checked for tags.
abbrev pub type_line : Bytes → Option Bytes → Bytes
type_line uri none = []
type_line uri (some ext) = status_for uri ++ (server_line ++ (type_of ext ++ []))

abbrev pub header_text : Bool → Bytes → Bytes
header_text true uri = []
header_text false uri = type_line uri (extension_of (break_at b'?' uri).0)

abbrev pub body_text : Option SsiHandler → Bool → Bytes → Bytes
body_text handler true contents = expand (get_tag_insert handler) Scanner.text contents
body_text handler false contents = contents

abbrev pub response : Option SsiHandler → Bool → Option Found → Bytes
response handler ssi_allocated none = not_found_line ++ (server_line ++ (not_found_page ++ []))
response handler ssi_allocated (some f) =
    header_text f.file.http_header_included f.uri
    ++ body_text handler (f.tag_check && ssi_allocated) f.file.contents

-- The state of a connection that has not begun a response.
pub record IsIdle (hs : HttpState) : Type 0 where
  pub no_ssi : hs.ssi ≡ none
  pub no_headers : hs.hdrs ≡ []
  pub headers_sent : hs.hdr_index ≡ num_file_hdr_strings
  pub at_start : hs.hdr_pos ≡ 0

-- The body of a file that was opened.
pub opened-FileOk :
    (file : FsFile) (tags : Bool) (old : Option SsiState)
    → old ≡ none
    → FileOk file.contents (if tags then some (new_ssi file) else old) 0 (length file.contents)
opened-FileOk file true old e = record {
  file_left = omega arith;
  parsed_left = omega arith;
  sent_parsed = omega arith;
  state_ok = tt;
  end_ok = tt;
  insert_ok = omega arith;
}
opened-FileOk file false old e =
    subst (λ (o : Option SsiState). FileOk file.contents o 0 (length file.contents)) (sym e)
      (let size : 0 + length file.contents ≡ length file.contents = omega arith in size)

pub opened-pending :
    (handler : Option SsiHandler) (file : FsFile) (tags : Bool) (old : Option SsiState)
    → old ≡ none
    → file_pending handler file.contents (if tags then some (new_ssi file) else old) 0
      ≡ body_text handler tags file.contents
opened-pending handler file true old e =
    ssi_pending-scanning (get_tag_insert handler) file.contents 0 (new_ssi file) tt
opened-pending handler file false old e =
    ap (λ (o : Option SsiState). file_pending handler file.contents o 0) e

-- The headers, put before a body that is ready.
module _ (handler : Option SsiHandler) (hs : HttpState)
    (body : BodyOk hs.handle hs.ssi hs.file hs.left) where
  abbrev rest : Bytes
  rest = body_pending handler hs.handle hs.ssi hs.file

  abbrev Serves : Bytes → HttpState → Type 0
  Serves text hs' = IsServing hs' × (pending handler hs' ≡ text ++ rest)

  pub headers_for-Serves :
      (uri : Bytes) (ext : Option Bytes)
      → hs.hdr_pos ≡ 0
      → Serves (type_line uri ext) (headers_for hs uri ext)
  unfolding headers_for
  headers_for-Serves uri none e = (
    record {
      headers_ok = record {
        three = inl refl;
        at_most = omega arith;
        index_ok = omega arith;
        pos_ok = omega (arith, e);
      };
      body_ok = body;
    },
    refl,
  )
  headers_for-Serves uri (some ext) e = (
    record {
      headers_ok = record {
        three = inl refl;
        at_most = omega arith;
        index_ok = omega arith;
        pos_ok = omega arith;
      };
      body_ok = body;
    },
    ap (λ (t : Bytes). t ++ rest)
        (ap (λ (t : Bytes). t ++ (hdr_server ++ (find_type type_headers ext ++ [])))
            (status_line-status_for uri)
          ∙ ap (λ (t : Bytes). status_for uri ++ (server_line ++ (t ++ [])))
              (find_type-type_of ext)),
  )

  pub not_found-Serves :
      Serves (hdr_not_found ++ (hdr_server ++ (default_404_html ++ []))) (get_http_headers hs none)
  unfolding get_http_headers
  not_found-Serves = (
    record {
      headers_ok = record {
        three = inl refl;
        at_most = omega arith;
        index_ok = omega arith;
        pos_ok = omega arith;
      };
      body_ok = body;
    },
    refl,
  )

  pub included-Serves :
      hs.hdrs ≡ [] → hs.hdr_index ≡ num_file_hdr_strings → hs.hdr_pos ≡ 0 → Serves [] hs
  included-Serves none_set e z =
      let ok : HeadersOk hs.hdrs hs.hdr_index hs.hdr_pos = record {
        three = inr e;
        at_most = omega (arith, ap length none_set);
        index_ok = omega (arith, e);
        pos_ok = omega (arith, z);
      } in
      (
        record { headers_ok = ok; body_ok = body },
        ap (λ (t : Bytes). t ++ rest) (headers_pending-end hs.hdrs hs.hdr_index hs.hdr_pos ok e),
      )

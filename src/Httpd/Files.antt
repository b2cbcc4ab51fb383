-- ===== src/Httpd/Files.antt =====
-- apps/httpserver_raw/fs.c, httpd.c and httpd_structs.h: from a URI to the file and the headers that
-- are sent. The files that makefsdata generates are a parameter, a list.
use scion_lwip_contrib.Base.{
  ℕ, ◌+◌, ◌-◌, Bool, true, false, not, ◌||◌, List, [], ◌∷◌, Option, none, some, Bytes, codes,
  length, same, contains, starts_with, ◌==◌, leb, if◌then◌else◌,
}
use scion_lwip_contrib.Httpd.State.{FsFile}
use scion_lwip_contrib.Httpd.Params.{Param, extract_uri_parameters}

-- `struct fsdata_file`
pub record FsdataFile : Type 0 where
  pub name : Bytes
  pub contents : Bytes
  pub http_header_included : Bool

-- `fs_open` over the list from `FS_ROOT` on; `none` is ERR_VAL.
unfoldable pub fs_open : List FsdataFile → Bytes → Option FsFile
fs_open [] name = none
fs_open (f ∷ fs) name =
    let rest = fs_open fs name in
    if same name f.name
    then some (record {
      contents = f.contents;
      index = length f.contents;
      http_header_included = f.http_header_included;
    })
    else rest

-- A file that was found, with the URI that names it.
pub record Found : Type 0 where
  pub file : FsFile
  pub uri : Bytes
  pub tag_check : Bool

-- The names tried in order, each with its flag.
unfoldable pub open_first : List FsdataFile → List (Bytes × Bool) → Option Found
unfolding fs_open
open_first files [] = none
open_first files ((uri, shtml) ∷ names) =
    let rest = open_first files names in
    elim (fs_open files uri) [
      | some f ↦ some (record { file = f; uri = uri; tag_check = shtml })
      | none ↦ rest
    ]

-- `g_psDefaultFilenames`
abbrev pub default_filenames : List (Bytes × Bool)
default_filenames =
    (codes "/index.shtml", true)
    ∷ (codes "/index.ssi", true)
    ∷ (codes "/index.shtm", true)
    ∷ (codes "/index.html", false)
    ∷ (codes "/index.htm", false)
    ∷ []

abbrev pub not_found_names : List (Bytes × Bool)
not_found_names =
    (codes "/404.html", false) ∷ (codes "/404.htm", false) ∷ (codes "/404.shtml", false) ∷ []

-- `http_get_404_file`; without a file the URI is NULL.
unfoldable pub http_get_404_file : List FsdataFile → Option Found
unfolding open_first
http_get_404_file files = open_first files not_found_names

-- `g_pcSSIExtensions`, and the loop over them
abbrev pub ssi_extensions : List Bytes
ssi_extensions = codes ".shtml" ∷ codes ".shtm" ∷ codes ".ssi" ∷ codes ".xml" ∷ []

unfoldable pub has_ssi_extension : List Bytes → Bytes → Bool
has_ssi_extension [] uri = false
has_ssi_extension (e ∷ es) uri = contains e uri || has_ssi_extension es uri

unfoldable pub check_tags : Option Found → Option Found
unfolding has_ssi_extension
check_tags none = none
check_tags (some f) = some (record f { tag_check = has_ssi_extension ssi_extensions f.uri })

-- `tCGI`: the handler's arguments are the index and the parameters; it returns the URI to open.
pub record Cgi : Type 0 where
  pub name : Bytes
  pub handler : ℕ → List Param → Bytes

unfoldable pub call_cgi : List Cgi → ℕ → Bytes → Option Bytes → Bytes
call_cgi [] i uri params = uri
call_cgi (cgi ∷ cgis) i uri params =
    let rest = call_cgi cgis (i + 1) uri params in
    if same uri cgi.name then cgi.handler i (extract_uri_parameters params) else rest

-- The name of a specific file, or the page for its absence.
unfoldable pub open_uri : List FsdataFile → Bytes → Option Found
unfolding http_get_404_file
open_uri files uri = elim (fs_open files uri) [
  | some f ↦ some (record { file = f; uri = uri; tag_check = false })
  | none ↦ http_get_404_file files
]

unfoldable pub open_default : List FsdataFile → Option Found
unfolding open_first http_get_404_file
open_default files = elim (open_first files default_filenames) [
  | some f ↦ some f
  | none ↦ http_get_404_file files
]

-- `strnstr`: the index of the token within the first n bytes, before a NUL.
unfoldable pub strnstr : Bytes → Bytes → ℕ → Option ℕ
strnstr [] token n = none
strnstr (c ∷ cs) token n =
    let rest = strnstr cs token (n - 1) in
    if c == 0 || not (leb (length token) n)
    then none
    else if starts_with token (c ∷ cs)
    then some 0
    else elim rest [ none ↦ none | some k ↦ some (k + 1) ]

abbrev pub crlf : Bytes
crlf = 13 ∷ 10 ∷ []

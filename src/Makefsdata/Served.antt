-- ===== src/Makefsdata/Served.antt =====
-- A generated file next to the headers that the web server makes by itself, and the size of a block's text.
use scion_lwip_contrib.Base.{
  ℕ, zero, suc, ◌+◌, ◌-◌, ◌*◌, ◌/◌, ◌%◌, ◌≤◌, ◌<◌, inl, inr, Bool, Bool-cases, true, false, [], ◌∷◌,
  ◌++◌, append_assoc, Option, none, some, Bytes, codes, length, contains, starts_with, ◌==◌, ==_iff,
  if◌then◌else◌, ◌≡◌, refl, sym, ap, ◌∙◌, arith,
}
use scion_lwip_contrib.Httpd.Params.RoundTrip.{Without, break_at-none}
use scion_lwip_contrib.Httpd.Ssi.Insert.{SsiHandler}
use scion_lwip_contrib.Httpd.Files.{Found}
use scion_lwip_contrib.Httpd.Response.{
  status_line, find_extension, find_type, type_headers, hdr_server,
}
use scion_lwip_contrib.Httpd.Response.Spec.{
  status_for, extension_of, status_line-status_for, find_type-type_of, find_extension-extension_of,
}
use scion_lwip_contrib.Httpd.Response.Setup.{header_text, type_line, response}
use scion_lwip_contrib.Makefsdata.{
  hex_byte, hex_bytes_per_line, copy_bufsize, file_buffer_c_size, put_loop, response_type, type_for,
  file_ext, file_type, qualified_name,
}
use scion_lwip_contrib.Makefsdata.RoundTrip.{static_header}

-- A name's extension does not depend on what stands before it.
find_extension-some :
    (o : Option Bytes) (ys ext : Bytes)
    → find_extension none ys ≡ some ext
    → find_extension o ys ≡ some ext
unfolding find_extension
find_extension-some o [] ext e = cc
find_extension-some o (c ∷ ys) ext e = elim (Bool-cases (c == b'.')) [
  | inl t ↦ rw t (rw t at e)
  | inr f ↦ rw f (find_extension-some o ys ext (rw f at e))
]

find_extension-append :
    (o : Option Bytes) (xs ys ext : Bytes)
    → find_extension none ys ≡ some ext
    → find_extension o (xs ++ ys) ≡ find_extension none ys
unfolding find_extension
find_extension-append o [] ys ext e = find_extension-some o ys ext e ∙ sym e
find_extension-append o (x ∷ xs) ys ext e =
    find_extension-append (if x == b'.' then some (xs ++ ys) else o) xs ys ext e

-- The three names with a status of their own stand at the start of the file's name, where they occur in the URI.
abbrev pub StatusAtStart : Bytes → Bytes → Type 0
StatusAtStart subdir filename =
    (contains (codes "404") (qualified_name subdir filename) ≡ starts_with (codes "404") filename)
    × (contains (codes "400") (qualified_name subdir filename) ≡ starts_with (codes "400") filename)
    × (contains (codes "501") (qualified_name subdir filename) ≡ starts_with (codes "501") filename)

status_same :
    (subdir filename : Bytes)
    → StatusAtStart subdir filename
    → response_type filename ≡ status_line (qualified_name subdir filename)
unfolding response_type status_line
status_same subdir filename s = rw (s.0, s.1, s.2) refl

type_same :
    (filename ext : Bytes) (c : ℕ)
    → find_extension none filename ≡ some (c ∷ ext)
    → file_type filename ≡ find_type type_headers (c ∷ ext)
unfolding file_type type_for
type_same filename ext c e = ap (λ (o : Option Bytes). type_for filename (file_ext filename o)) e

static_header-header_text :
    (subdir filename ext : Bytes) (c : ℕ)
    → Without b'?' (qualified_name subdir filename)
    → find_extension none filename ≡ some (c ∷ ext)
    → StatusAtStart subdir filename
    → static_header filename ≡ header_text false (qualified_name subdir filename)
static_header-header_text subdir filename ext c w e s =
    let uri = qualified_name subdir filename in
    let found : find_extension none uri ≡ some (c ∷ ext) =
      ap (find_extension none) (sym (append_assoc subdir (b'/' ∷ []) filename))
      ∙ find_extension-append none (subdir ++ b'/' ∷ []) filename (c ∷ ext) e
      ∙ e in
    ap (λ (t : Bytes). t ++ (hdr_server ++ (file_type filename ++ [])))
      (status_same subdir filename s ∙ status_line-status_for uri)
    ∙ ap (λ (t : Bytes). status_for uri ++ (hdr_server ++ (t ++ [])))
        (type_same filename ext c e ∙ find_type-type_of (c ∷ ext))
    ∙ sym (
        ap (λ (cut : Bytes × Option Bytes). type_line uri (extension_of cut.0))
          (break_at-none b'?' uri w)
        ∙ ap (type_line uri) (sym (find_extension-extension_of uri) ∙ found))

-- A file of the file system, found for its name and not checked for tags.
abbrev pub found_file : Bytes → Bytes → Bool → Found
found_file uri contents http_header_included = record {
  file = record {
    contents = contents;
    index = length contents;
    http_header_included = http_header_included;
  };
  uri = uri;
  tag_check = false;
}

-- The web server's response is the same with the header that `file_write_http_header` puts before a file's data and with
-- the one that the server makes for the file without it. The name has no '?' and an extension that is not
-- empty, the names with a status of their own occur only at its start, and the file is not checked for tags.
pub response-static_header :
    (handler : Option SsiHandler) (ssi_allocated : Bool) (subdir filename ext contents : Bytes)
    (c : ℕ)
    → Without b'?' (qualified_name subdir filename)
    → find_extension none filename ≡ some (c ∷ ext)
    → StatusAtStart subdir filename
    → response handler ssi_allocated (
        some
          (found_file (qualified_name subdir filename) (static_header filename ++ contents) true))
      ≡ response handler ssi_allocated
          (some (found_file (qualified_name subdir filename) contents false))
response-static_header handler ssi_allocated subdir filename ext contents c w e s =
    ap (λ (t : Bytes). t ++ contents) (static_header-header_text subdir filename ext c w e s)

positive : (n : ℕ) → (n == 0) ≡ false → 0 < n
positive zero f = cc
positive (suc n) f = omega arith

length-put_loop :
    (i : ℕ) (cs : Bytes)
    → length (put_loop i cs) ≡ length cs * 5 + ((i + length cs) / 16 - i / 16) * 2
unfolding put_loop hex_byte
length-put_loop i [] = omega arith
length-put_loop i (c ∷ cs) = elim (Bool-cases ((i + 1) % hex_bytes_per_line == 0)) [
  | inl t ↦
      let wraps = (==_iff ((i + 1) % hex_bytes_per_line) 0).0 t in
      rw t (omega (arith, wraps, length-put_loop (i + 1) cs))
  | inr f ↦
      rw f (omega (arith, length-put_loop (i + 1) cs, positive ((i + 1) % hex_bytes_per_line) f))
]

-- The text of a block of up to COPY_BUFSIZE bytes fits into `file_buffer_c` with its terminator, wherever in a line it begins.
pub put_loop-fits :
    (src_off : ℕ) (block : Bytes)
    → length block ≤ copy_bufsize
    → length (put_loop src_off block) < file_buffer_c_size
put_loop-fits src_off block le = omega (arith, le, length-put_loop src_off block)

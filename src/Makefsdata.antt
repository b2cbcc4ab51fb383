-- ===== src/Makefsdata.antt =====
-- apps/httpserver_raw/makefsdata/makefsdata.c, the generator of fsdata.c: one file of the web server's file
-- system, as the bytes between the braces of its C array. Configuration: the program's default switches
-- (includeHttpHeader, HTTP/1.0, no checksums) on WIN32, where NEWLINE is "\r\n".
pub mod Reading
pub mod Text
pub mod RoundTrip
pub mod Served
mod Examples
use scion_lwip_contrib.Base.{
  ℕ, zero, suc, ◌+◌, ◌-◌, ◌*◌, ◌/◌, ◌%◌, Bool, true, false, List, [], ◌∷◌, ◌++◌, Option, none, some,
  Bytes, codes, length, starts_with, same, ◌==◌, ltb, if◌then◌else◌,
}
use scion_lwip_contrib.Httpd.Files.{crlf}
use scion_lwip_contrib.Httpd.Response.{
  hdr_ok, hdr_not_found, hdr_bad_request, hdr_not_impl, hdr_server, type_headers, default_type,
  find_type, find_extension,
}

-- `HEX_BYTES_PER_LINE`, `PAYLOAD_ALIGNMENT`, `COPY_BUFSIZE` and the size of `file_buffer_c`
abbrev pub hex_bytes_per_line : ℕ
hex_bytes_per_line = 16

-- `MAX_PATH_LEN`
abbrev pub max_path_len : ℕ
max_path_len = 256

abbrev pub payload_alignment : ℕ
payload_alignment = 4

abbrev pub copy_bufsize : ℕ
copy_bufsize = 10240

abbrev pub file_buffer_c_size : ℕ
file_buffer_c_size = copy_bufsize * 5 + copy_bufsize / hex_bytes_per_line * 3

-- A digit of "%02.2x", and the text of "0x%02.2x,".
unfoldable pub hex_digit : ℕ → ℕ
hex_digit d = if ltb d 10 then b'0' + d else b'a' + (d - 10)

unfoldable pub hex_byte : ℕ → Bytes
unfolding hex_digit
hex_byte c = b'0' ∷ b'x' ∷ hex_digit (c / 16) ∷ hex_digit (c % 16) ∷ b',' ∷ []

-- The loop of `file_put_ascii` and of `process_file_data`, where `i` bytes have been written before.
unfoldable pub put_loop : ℕ → Bytes → Bytes
unfolding hex_byte
put_loop i [] = []
put_loop i (c ∷ cs) =
    hex_byte c ++ ((if (i + 1) % hex_bytes_per_line == 0 then crlf else []) ++ put_loop (i + 1) cs)

-- `file_put_ascii(file, string, strlen(string), &i)`
unfoldable pub file_put_ascii : Bytes → ℕ → Bytes
unfolding put_loop
file_put_ascii ascii_string i = put_loop i ascii_string

-- The padding loop, with the number of bytes written: it ends at the next multiple.
unfoldable pub pad : ℕ → ℕ → Bytes × ℕ
unfolding hex_byte
pad zero i = ([], i)
pad (suc fuel) i =
    let rest = pad fuel (i + 1) in
    if i % payload_alignment == 0 then ([], i) else (hex_byte 0 ++ rest.0, rest.1)

-- "%d"
unfoldable pub decimal_loop : ℕ → ℕ → Bytes → Bytes
decimal_loop zero n digits = digits
decimal_loop (suc fuel) n digits =
    let digits' = (b'0' + n % 10) ∷ digits in
    let rest = decimal_loop fuel (n / 10) digits' in if ltb n 10 then digits' else rest

unfoldable pub decimal : ℕ → Bytes
unfolding decimal_loop
decimal n = decimal_loop (n + 1) n []

-- A comment.
abbrev pub comment : Bytes → Bytes
comment text = codes "/*" ++ (text ++ codes "*/")

-- The loop of `process_file_data` over the blocks that `fread` returns, each at most COPY_BUFSIZE long.
unfoldable pub process_file_data : ℕ → List Bytes → Bytes
unfolding put_loop
process_file_data src_off [] = []
process_file_data src_off (block ∷ blocks) =
    put_loop src_off block ++ process_file_data (src_off + length block) blocks

-- The strings of the header that `file_write_http_header` chooses.
unfoldable pub response_type : Bytes → Bytes
response_type filename =
    if starts_with (codes "404") filename
    then hdr_not_found
    else if starts_with (codes "400") filename
    then hdr_bad_request
    else if starts_with (codes "501") filename
    then hdr_not_impl
    else hdr_ok

-- The type for the text behind the last '.', which is the whole name without one.
unfoldable pub type_for : Bytes → Bytes → Bytes
unfolding find_type
type_for filename [] = default_type
type_for filename (c ∷ cs) = find_type type_headers (c ∷ cs)

abbrev file_ext : Bytes → Option Bytes → Bytes
file_ext filename none = filename
file_ext filename (some ext) = ext

unfoldable pub file_type : Bytes → Bytes
unfolding type_for find_extension
file_type filename = type_for filename (file_ext filename (find_extension none filename))

-- A string of the header: a comment with it, and its bytes.
unfoldable pub put_header : Bytes → Bytes
unfolding file_put_ascii decimal
put_header cur_string =
    crlf
    ++ (comment (
          codes " \""
          ++ (cur_string ++ (codes "\" (" ++ (decimal (length cur_string) ++ codes " bytes) "))))
        ++ (crlf ++ file_put_ascii cur_string 0))

-- `file_write_http_header`
unfoldable pub file_write_http_header : Bytes → Bytes
unfolding put_header response_type file_type
file_write_http_header filename =
    crlf
    ++ (comment (codes " HTTP header ")
        ++ (put_header (response_type filename)
            ++ (put_header hdr_server ++ put_header (file_type filename))))

-- What `process_file` writes: the elements of the array, and the offset of the file's data in it, which is what the struct's
-- `data_... + i` and `sizeof(data_...) - i` refer to.
pub record Processed : Type 0 where
  pub elements : Bytes
  pub offset : ℕ

abbrev pub qualified_name : Bytes → Bytes → Bytes
qualified_name subdir filename = subdir ++ b'/' ∷ filename

-- The writes of `process_file`.
unfoldable pub write_file : Bytes → Bytes → List Bytes → ℕ → Processed
unfolding file_put_ascii pad decimal file_write_http_header process_file_data
write_file subdir filename blocks file_size =
    let name = qualified_name subdir filename in
    let padding = pad payload_alignment (length name + 1) in
    record {
      elements =
          comment
            (codes " " ++ (name ++ (codes " (" ++ (decimal (length name + 1) ++ codes " chars) "))))
          ++ (crlf
              ++ (file_put_ascii (name ++ 0 ∷ []) 0
                  ++ (padding.0
                      ++ (crlf
                          ++ (file_write_http_header filename
                              ++ (crlf
                                  ++ (comment (
                                        codes " raw file data ("
                                        ++ (decimal file_size ++ codes " bytes) "))
                                      ++ (crlf ++ process_file_data 0 blocks))))))));
      offset = padding.1;
    }

-- `process_file`: `sprintf` and `strcpy` put the name with its NUL into `qualifiedName`, `varname` and
-- `lastFileVar` without a test, which is a fault where it is too long for them.
unfoldable pub process_file : Bytes → Bytes → List Bytes → ℕ → Option Processed
unfolding write_file
process_file subdir filename blocks file_size =
    if ltb (length (qualified_name subdir filename)) max_path_len
    then some (write_file subdir filename blocks file_size)
    else none

-- ===== src/Makefsdata/Examples.antt =====
-- A generated file, and the theorems of the generator at concrete inputs.
use scion_lwip_contrib.Base.{
  true, false, ◌++◌, ◌∷◌, [], List, Bytes, none, some, codes, length, contains, starts_with, ◌<◌,
  ◌≡◌, refl, arith,
}
use scion_lwip_contrib.Httpd.Headers.Sent.{concat}
use scion_lwip_contrib.Httpd.Response.{find_extension}
use scion_lwip_contrib.Httpd.Response.Setup.{response}
use scion_lwip_contrib.Makefsdata.{
  hex_byte, put_loop, hex_digit, qualified_name, Processed, process_file, file_buffer_c_size,
}
use scion_lwip_contrib.Makefsdata.RoundTrip.{IsFile, static_header, process_file-IsFile}
use scion_lwip_contrib.Makefsdata.Served.{found_file, response-static_header, put_loop-fits}

hex_text : put_loop 15 (10 ∷ 255 ∷ []) ≡ codes "0x0a," ++ (13 ∷ 10 ∷ codes "0xff,")
unfolding put_loop hex_byte hex_digit
hex_text = refl

abbrev blocks : List Bytes
blocks = codes "<p>" ∷ codes "hi" ∷ []

process_file-IsFile_example :
    (p : Processed) × (process_file (codes "/img") (codes "404.html") blocks 5 ≡ some p)
    × IsFile p
        (qualified_name (codes "/img") (codes "404.html"))
        (static_header (codes "404.html") ++ concat blocks)
process_file-IsFile_example =
    process_file-IsFile (codes "/img") (codes "404.html") blocks 5 (omega arith) (grind arith)
      (grind arith) (grind arith) (grind arith)

page_status :
    (contains (codes "404") (codes "/404.html") ≡ starts_with (codes "404") (codes "404.html"))
    × (contains (codes "400") (codes "/404.html") ≡ starts_with (codes "400") (codes "404.html"))
    × (contains (codes "501") (codes "/404.html") ≡ starts_with (codes "501") (codes "404.html"))
unfolding contains starts_with
page_status = (refl, refl, refl)

page_extension : find_extension none (codes "404.html") ≡ some (codes "html")
unfolding find_extension
page_extension = refl

response-static_header_example :
    response none true (
      some (
        found_file
          (qualified_name [] (codes "404.html"))
          (static_header (codes "404.html") ++ codes "<p>")
          true))
    ≡ response none true
        (some (found_file (qualified_name [] (codes "404.html")) (codes "<p>") false))
response-static_header_example =
    response-static_header none true [] (codes "404.html") (codes "tml") (codes "<p>") b'h'
      (grind arith) page_extension page_status

put_loop-fits_example : length (put_loop 15 (codes "<p>")) < file_buffer_c_size
put_loop-fits_example = put_loop-fits 15 (codes "<p>") (omega arith)

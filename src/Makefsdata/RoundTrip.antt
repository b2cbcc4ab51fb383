-- ===== src/Makefsdata/RoundTrip.antt =====
-- A generated array gives back the file's name, its header and its data.
use scion_lwip_contrib.Base.{
  lt→ltb, ◌<◌, ℕ, zero, suc, ◌+◌, ◌-◌, ◌%◌, ◌≤◌, ◌⊎◌, inl, inr, Bool-cases, List, [], ◌∷◌, ◌++◌,
  append_assoc, append-nil, some, Bytes, codes, length, length-append, drop, drop-append_ge,
  c_string, ◌==◌, ==_iff, ne→==_false, ltb, ltb→lt, ltb_false→le, ◌≡◌, refl, sym, subst, ap, ◌∙◌,
  arith,
}
use scion_lwip_contrib.Httpd.Params.RoundTrip.{Without}
use scion_lwip_contrib.Httpd.Headers.Sent.{concat}
use scion_lwip_contrib.Httpd.Files.{crlf}
use scion_lwip_contrib.Httpd.Response.{hdr_server}
use scion_lwip_contrib.Makefsdata.{
  hex_byte, put_loop, file_put_ascii, pad, payload_alignment, decimal, comment, process_file_data,
  response_type, file_type, put_header, file_write_http_header, Processed, qualified_name,
  process_file, write_file,
}
use scion_lwip_contrib.Makefsdata.Reading.{
  between, read_array, Reads, Reads-nil, Reads-append, Reads-crlf, Reads-comment, Reads-hex_byte,
  AreBytes, Reads-put_loop,
}
use scion_lwip_contrib.Makefsdata.Text.{
  plain, plain-IsPlain, response_type-IsPlain, file_type-IsPlain, counted, put_header-Reads,
  AreBytes-split,
}

-- The header that is put before the file's data.
abbrev pub static_header : Bytes → Bytes
static_header filename = response_type filename ++ (hdr_server ++ (file_type filename ++ []))

header-Reads : (filename : Bytes) → Reads (file_write_http_header filename) (static_header filename)
unfolding file_write_http_header plain
header-Reads filename =
    let status = put_header (response_type filename) in
    let server = put_header hdr_server in
    let type = put_header (file_type filename) in
    let title = comment (codes " HTTP header ") in
    Reads-append crlf (title ++ (status ++ (server ++ type))) [] (static_header filename) Reads-crlf
      (Reads-append title (status ++ (server ++ type)) [] (static_header filename)
        (Reads-comment (codes " HTTP header ") (plain-IsPlain (codes " HTTP header ") refl).0)
        (Reads-append status (server ++ type) (response_type filename)
          (hdr_server ++ (file_type filename ++ []))
          (put_header-Reads (response_type filename) (response_type-IsPlain filename))
          (Reads-append server type hdr_server (file_type filename ++ [])
            (put_header-Reads hdr_server (plain-IsPlain hdr_server refl))
            (subst (Reads type) (sym (append-nil (file_type filename)))
              (put_header-Reads (file_type filename) (file_type-IsPlain filename))))))

-- The padding gives zeros, up to a multiple of the alignment.
abbrev pub zeros : ℕ → Bytes
zeros zero = []
zeros (suc n) = 0 ∷ zeros n

pad-Reads : (fuel i : ℕ) → (n : ℕ) × ((pad fuel i).1 ≡ i + n) × Reads (pad fuel i).0 (zeros n)
unfolding pad
pad-Reads zero i = (0, omega arith, Reads-nil)
pad-Reads (suc fuel) i = elim (Bool-cases (i % payload_alignment == 0)) [
  | inl t ↦ rw t (0, omega arith, Reads-nil)
  | inr f ↦
      let r = pad-Reads fuel (i + 1) in
      rw f (
        suc r.0,
        omega (arith, r.1),
        Reads-append (hex_byte 0) (pad fuel (i + 1)).0 (0 ∷ []) (zeros r.0)
            (Reads-hex_byte 0 (omega arith)) r.2,
      )
]

-- Some round of the padding ends it.
abbrev Ends : ℕ → ℕ → Type 0
Ends fuel i = (i % payload_alignment ≡ 0) ⊎ (payload_alignment ≤ fuel + i % payload_alignment)

one_more : (fuel i : ℕ) → payload_alignment ≤ suc fuel + i % payload_alignment → Ends fuel (i + 1)
one_more fuel i le = elim (Bool-cases (ltb 0 ((i + 1) % payload_alignment))) [
  | inl t ↦ inr (omega (arith, le, ltb→lt 0 ((i + 1) % payload_alignment) t))
  | inr f ↦ inl (omega (arith, ltb_false→le 0 ((i + 1) % payload_alignment) f))
]

pad-aligned : (fuel i : ℕ) → Ends fuel i → (pad fuel i).1 % payload_alignment ≡ 0
unfolding pad
pad-aligned zero i (inl e) = e
pad-aligned zero i (inr le) = absurd (omega (arith, le))
pad-aligned (suc fuel) i (inl e) = rw ((==_iff (i % payload_alignment) 0).1 e) e
pad-aligned (suc fuel) i (inr le) = elim (Bool-cases (i % payload_alignment == 0)) [
  | inl t ↦ rw t ((==_iff (i % payload_alignment) 0).0 t)
  | inr f ↦ rw f (pad-aligned fuel (i + 1) (one_more fuel i le))
]

AreBytes-append : (xs ys : Bytes) → AreBytes xs → AreBytes ys → AreBytes (xs ++ ys)
AreBytes-append [] ys h k = k
AreBytes-append (x ∷ xs) ys h k = (h.0, AreBytes-append xs ys h.1 k)

-- The blocks of a file are read as its data.
process_file_data-Reads :
    (src_off : ℕ) (blocks : List Bytes)
    → AreBytes (concat blocks)
    → Reads (process_file_data src_off blocks) (concat blocks)
unfolding process_file_data
process_file_data-Reads src_off [] h = Reads-nil
process_file_data-Reads src_off (b ∷ bs) h =
    let r = AreBytes-split b (concat bs) h in
    Reads-append (put_loop src_off b) (process_file_data (src_off + length b) bs) b (concat bs)
      (Reads-put_loop src_off b r.0) (process_file_data-Reads (src_off + length b) bs r.1)

c_string-Without : (text rest : Bytes) → Without 0 text → c_string (text ++ 0 ∷ rest) ≡ text
unfolding c_string
c_string-Without [] rest w = refl
c_string-Without (c ∷ text) rest w =
    rw (ne→==_false c 0 w.0) (ap (◌∷◌ c) (c_string-Without text rest w.1))

length-zeros : (n : ℕ) → length (zeros n) ≡ n
length-zeros zero = refl
length-zeros (suc n) = omega (arith, length-zeros n)

-- What a file of the file system is, in the array that its struct points into: the name as a C string at the
-- start, and at the aligned offset the data.
abbrev pub IsFile : Processed → Bytes → Bytes → Type 0
IsFile p name contents =
    (array : Bytes) × (read_array between p.elements ≡ some array)
    × (c_string array ≡ name)
    × (drop p.offset array ≡ contents)
    × (p.offset % payload_alignment ≡ 0)

module _ (subdir filename : Bytes) (blocks : List Bytes) (file_size : ℕ) where
  abbrev name : Bytes
  name = qualified_name subdir filename

  abbrev data_text : Bytes
  data_text =
      crlf
      ++ (file_write_http_header filename
          ++ (crlf
              ++ (comment (codes " raw file data (" ++ (decimal file_size ++ codes " bytes) "))
                  ++ (crlf ++ process_file_data 0 blocks))))

  data-Reads : AreBytes (concat blocks) → Reads data_text (static_header filename ++ concat blocks)
  unfolding plain
  data-Reads b =
      let header = file_write_http_header filename in
      let note = comment (codes " raw file data (" ++ (decimal file_size ++ codes " bytes) ")) in
      let text = process_file_data 0 blocks in
      let all = static_header filename ++ concat blocks in
      Reads-append crlf (header ++ (crlf ++ (note ++ (crlf ++ text)))) [] all Reads-crlf (
        Reads-append header (crlf ++ (note ++ (crlf ++ text))) (static_header filename)
          (concat blocks) (header-Reads filename)
          (Reads-append crlf (note ++ (crlf ++ text)) [] (concat blocks) Reads-crlf (
            Reads-append note (crlf ++ text) [] (concat blocks)
              (counted (codes " raw file data (") [] [] file_size (codes " bytes) ") refl tt refl
                refl)
              (Reads-append crlf text [] (concat blocks) Reads-crlf
                (process_file_data-Reads 0 blocks b)))))

  abbrev padding : Bytes × ℕ
  padding = pad payload_alignment (length name + 1)

  abbrev array_of : ℕ → Bytes
  array_of n = (name ++ 0 ∷ []) ++ (zeros n ++ (static_header filename ++ concat blocks))

  elements-Reads :
      (n : ℕ)
      → Reads padding.0 (zeros n)
      → Without b'*' name
      → AreBytes name
      → AreBytes (concat blocks)
      → Reads (write_file subdir filename blocks file_size).elements (array_of n)
  unfolding write_file file_put_ascii plain
  elements-Reads n pads w a b =
      let note =
        comment (
          codes " " ++ (name ++ (codes " (" ++ (decimal (length name + 1) ++ codes " chars) ")))) in
      let put = put_loop 0 (name ++ 0 ∷ []) in
      let served = static_header filename ++ concat blocks in
      Reads-append note (crlf ++ (put ++ (padding.0 ++ data_text))) [] (array_of n)
        (counted (codes " ") name (codes " (") (length name + 1) (codes " chars) ") refl w refl
          refl)
        (Reads-append crlf (put ++ (padding.0 ++ data_text)) [] (array_of n) Reads-crlf (
          Reads-append put (padding.0 ++ data_text) (name ++ 0 ∷ []) (zeros n ++ served)
            (Reads-put_loop 0 (name ++ 0 ∷ []) (AreBytes-append name (0 ∷ []) a (omega arith, tt)))
            (Reads-append padding.0 data_text (zeros n) served pads (data-Reads b))))

  write_file-IsFile :
      Without b'*' name
      → Without 0 name
      → AreBytes name
      → AreBytes (concat blocks)
      → IsFile
          (write_file subdir filename blocks file_size)
          name
          (static_header filename ++ concat blocks)
  unfolding write_file read_array
  write_file-IsFile w z a b =
      let r = pad-Reads payload_alignment (length name + 1) in
      let served = static_header filename ++ concat blocks in
      let start = (name ++ 0 ∷ []) ++ zeros r.0 in
      let size : length start ≡ length name + 1 + r.0 = omega (
        arith,
        length-append (name ++ 0 ∷ []) (zeros r.0),
        length-append name (0 ∷ []),
        length-zeros r.0,
      ) in
      (
        array_of r.0,
        (ap (read_array between)
              (sym (append-nil (write_file subdir filename blocks file_size).elements))
            ∙ elements-Reads r.0 r.2 w a b []
            ∙ ap (λ (t : Bytes). some t) (append-nil (array_of r.0))),
        (ap c_string (append_assoc name (0 ∷ []) (zeros r.0 ++ served))
            ∙ c_string-Without name (zeros r.0 ++ served) z),
        (ap (drop padding.1) (sym (append_assoc (name ++ 0 ∷ []) (zeros r.0) served))
            ∙ drop-append_ge padding.1 start served (omega (arith, size, r.1))
            ∙ ap (λ (k : ℕ). drop k served)
                (let e : padding.1 - length start ≡ 0 = omega (arith, size, r.1) in e)),
        pad-aligned payload_alignment (length name + 1) (
            inr (
              let le : payload_alignment
                  ≤ payload_alignment + (length name + 1) % payload_alignment =
                omega arith in
              le)),
      )

  -- A C compiler reads the array that `process_file` writes for a file, of any bytes in any blocks, as bytes that begin with the
  -- qualified name, terminated, and hold at an offset that is a multiple of 4, the one in the
  -- struct, the header for the name and behind it the file's data. The name has bytes without '*' and NUL, and at most 255 of
  -- them.
  pub process_file-IsFile :
      length name < 256
      → Without b'*' name
      → Without 0 name
      → AreBytes name
      → AreBytes (concat blocks)
      → (p : Processed) × (process_file subdir filename blocks file_size ≡ some p)
        × IsFile p name (static_header filename ++ concat blocks)
  unfolding process_file
  process_file-IsFile short w z a b = (
    write_file subdir filename blocks file_size,
    rw (lt→ltb (length name) 256 short) refl,
    write_file-IsFile w z a b,
  )

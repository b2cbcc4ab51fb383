-- ===== src/Httpd/Post/Examples.antt =====
-- Tests of the POST requests, and their theorems at concrete inputs.
use scion_lwip_contrib.Base.{
  [], ◌∷◌, ◌++◌, false, true, none, some, Bytes, codes, length, ◌≡◌, refl, arith, starts_with,
}
use scion_lwip_contrib.Lwip.{Err}
use scion_lwip_contrib.Httpd.Write.{Tcp, Pcb}
use scion_lwip_contrib.Httpd.State.{http_state_init}
use scion_lwip_contrib.Httpd.Files.{strnstr, crlf}
use scion_lwip_contrib.Httpd.Request.Pieces.{Arrival}
use scion_lwip_contrib.Httpd.Post.Line.{
  content_length, scontent_len_end, number_end, value_at, number_at, atoi, digits,
}
use scion_lwip_contrib.Httpd.Post.Handle.{App, began}
use scion_lwip_contrib.Httpd.Post.Receive.{keeps}
use scion_lwip_contrib.Httpd.Post.Delivery.{HasPosted, recv_posts}
use scion_lwip_contrib.Httpd.Post.RequestLine.{header_of}
use scion_lwip_contrib.Httpd.Post.Answered.{recv_posts-answered}
use scion_lwip_contrib.Httpd.Post.Refused.{IsStuck, refused_calls, recv_posts-refused}

abbrev tcp : Tcp
tcp = record {
  write = λ k n. Err.ok;
  sndbuf = λ k. 100;
  queue_full = λ k. false;
  mss = 536;
  close = Err.ok;
}

abbrev pcb : Pcb
pcb = record { sent = []; writes = 0 }

abbrev arrival : Bytes → Arrival
arrival text = record { tcp = tcp; first = text; rest = [] }

-- An application that accepts everything, and one that refuses the data.
abbrev accepting : App
accepting = record {
  httpd_post_begin = λ uri h n. (Err.ok, []);
  httpd_post_receive_data = λ calls p. Err.ok;
  httpd_post_finished = λ calls. codes "/done.html";
}

abbrev refusing : App
refusing = record accepting { httpd_post_receive_data = λ calls p. Err.mem }

abbrev fields : Bytes
fields = codes "HTTP/1.0" ++ (crlf ++ codes "Content-Length: 5")

length_read : content_length (header_of fields) (length fields) ≡ some 5
unfolding content_length value_at number_at atoi digits strnstr starts_with
length_read = refl

line_ends : scontent_len_end (header_of fields) (length fields) ≡ some 27
unfolding scontent_len_end number_end strnstr starts_with
line_ends = refl

-- Of a number of nine digits the end is not found.
long_number_unread : number_at (codes "123456789" ++ crlf) ≡ none
unfolding number_at strnstr starts_with
long_number_unread = refl

header_ends :
    strnstr (header_of fields) (crlf ++ crlf) (length (header_of fields)) ≡ some (length fields)
unfolding strnstr starts_with
header_ends = refl

abbrev request_chain : Bytes
request_chain = codes "POST /form " ++ (header_of fields ++ codes "ab")

recv_posts-answered_example :
    HasPosted [] [] true accepting none []
      (began
        (codes "/form")
        (codes "HTTP/1.0" ++ (crlf ++ (codes "Content-Length: 5" ++ (0 ∷ 10 ∷ crlf))))
        5)
      (codes "ab" ++ (codes "cd" ++ (codes "e!" ++ [])))
      (recv_posts [] [] true accepting none
        (arrival request_chain ∷ arrival (codes "cd") ∷ arrival (codes "e!") ∷ [])
        (keeps pcb (record { hs = http_state_init; left = 0; calls = [] })))
recv_posts-answered_example =
    recv_posts-answered [] [] true accepting none (arrival request_chain)
      (arrival (codes "cd") ∷ arrival (codes "e!") ∷ []) pcb http_state_init (codes "/form") fields
      (codes "ab") [] 4 27 tt (λ calls p. refl) refl
      (record { no_ssi = refl; no_headers = refl; headers_sent = refl; at_start = refl }) refl
      (grind arith) (grind arith) (grind arith) header_ends length_read line_ends refl (omega arith)
      (omega arith, (omega arith, refl))

recv_posts-refused_example :
    IsStuck pcb ([] ++ refused_calls (arrival (codes "ab") ∷ arrival (codes "cd") ∷ [])) (
      recv_posts [] [] true refusing none
        (arrival (codes "ab") ∷ arrival (codes "cd") ∷ [])
        (keeps pcb (record { hs = http_state_init; left = 5; calls = [] })))
recv_posts-refused_example =
    recv_posts-refused [] [] true refusing none (λ calls p. refl) pcb
      (arrival (codes "ab") ∷ arrival (codes "cd") ∷ [])
      (record { hs = http_state_init; left = 5; calls = [] }) (omega arith)

-- ===== src/Httpd/Examples.antt =====
-- Tests of the HTTP server, and its theorems at concrete inputs.
use scion_lwip_contrib.Base.{
  ◌⊎◌, inr, true, false, List, [], ◌∷◌, ◌++◌, Option, none, some, Bytes, codes, same, contains,
  starts_with, break_at, ltb, if◌then◌else◌, ◌≡◌, refl, arith,
}
use scion_lwip_contrib.Lwip.{Err, is_ok}
use scion_lwip_contrib.Httpd.Params.{Param, extract_uri_parameters}
use scion_lwip_contrib.Httpd.Params.RoundTrip.{print_params, extract_uri_parameters-print_params}
use scion_lwip_contrib.Httpd.Write.{Tcp, Pcb, http_write}
use scion_lwip_contrib.Httpd.Write.Prefix.{Outcome, http_write_lem}
use scion_lwip_contrib.Httpd.State.{FsFile, HttpState, Conn, http_state_init}
use scion_lwip_contrib.Httpd.Ssi.Scan.{SsiState, TagCheckState, scan_none, scan_leadin}
use scion_lwip_contrib.Httpd.Ssi.Insert.{SsiHandler, Fits, get_tag_insert}
use scion_lwip_contrib.Httpd.Ssi.Loop.{Sending, ssi_loop, ssi_fuel, ssi_switch}
use scion_lwip_contrib.Httpd.Ssi.Expand.{SsiIsValid}
use scion_lwip_contrib.Httpd.Ssi.Expand.Page.{Piece, print_page, render}
use scion_lwip_contrib.Httpd.Ssi.Delivery.Whole.{ssi_loop-ends}
use scion_lwip_contrib.Httpd.Send.{http_send}
use scion_lwip_contrib.Httpd.Send.Delivery.{http_send-Delivered}
use scion_lwip_contrib.Httpd.Send.Data.{pending, IsServing, Delivered}
use scion_lwip_contrib.Httpd.Send.Run.{
  sent_acked, polled, failed, run, polls, acks, IsOnTheWay, run-OnTheWay, IsGoing,
}
use scion_lwip_contrib.Httpd.Send.Run.Timeout.{HasEnded, run-HasEnded}
use scion_lwip_contrib.Httpd.Files.{FsdataFile, Found, fs_open, strnstr}
use scion_lwip_contrib.Httpd.Response.{find_file, http_find_file}
use scion_lwip_contrib.Httpd.Response.Serving.{http_find_file-response}
use scion_lwip_contrib.Httpd.Response.Setup.{IsIdle, header_text, response}
use scion_lwip_contrib.Httpd.Response.SsiPage.{requested, run-page}
use scion_lwip_contrib.Httpd.Request.Pieces.{Arrival, recv_all, recv_all-IsGoing}
use scion_lwip_contrib.Httpd.Request.Waiting.{Unended}
use scion_lwip_contrib.Httpd.Request.Served.{waiting}

-- A TCP that takes up to three bytes at a time, and one that takes a hundred.
abbrev narrow_tcp : Tcp
narrow_tcp = record {
  write = λ k n. if ltb 3 n then Err.mem else Err.ok;
  sndbuf = λ k. 100;
  queue_full = λ k. false;
  mss = 536;
  close = Err.ok;
}

abbrev wide_tcp : Tcp
wide_tcp = record narrow_tcp { write = λ k n. Err.ok }

abbrev fresh_pcb : Pcb
fresh_pcb = record { sent = []; writes = 0 }

http_write_halves : (http_write narrow_tcp fresh_pcb (codes "hello") 5).pcb.sent ≡ codes "he"
unfolding http_write
http_write_halves = refl

http_write_lem_example :
    Outcome fresh_pcb (codes "hello") 5 (http_write narrow_tcp fresh_pcb (codes "hello") 5)
http_write_lem_example = http_write_lem narrow_tcp fresh_pcb (codes "hello") 5 (omega arith)

abbrev two_params : List Param
two_params =
    record { name = codes "led"; value = some (codes "1") }
    ∷ record { name = codes "x"; value = none }
    ∷ []

extract_uri_parameters-print_params_example :
    extract_uri_parameters (some (print_params two_params)) ≡ two_params
extract_uri_parameters-print_params_example =
    extract_uri_parameters-print_params two_params (grind arith) (omega arith)

-- A file of five bytes that is to be sent.
abbrev hello_file : FsFile
hello_file = record { contents = codes "hello"; index = 5; http_header_included = true }

abbrev hello_state : HttpState
hello_state = record http_state_init { handle = some hello_file; left = 5 }

hello_state-IsServing : IsServing hello_state
hello_state-IsServing = record {
  headers_ok = record {
    three = inr refl;
    at_most = omega arith;
    index_ok = omega arith;
    pos_ok = omega arith;
  };
  body_ok = (refl, omega arith);
}

http_send-Delivered_example :
    Delivered none
      ([] ++ pending none hello_state)
      (http_send narrow_tcp none hello_state fresh_pcb)
http_send-Delivered_example =
    http_send-Delivered narrow_tcp none hello_state fresh_pcb tt hello_state-IsServing

abbrev hello_conn : Conn
hello_conn = record { pcb = fresh_pcb; hs = some hello_state; closed = false }

run-OnTheWay_example :
    IsOnTheWay none
      (codes "hello")
      (run none (sent_acked narrow_tcp ∷ polled narrow_tcp ∷ failed ∷ []) hello_conn)
run-OnTheWay_example =
    run-OnTheWay none (codes "hello") (sent_acked narrow_tcp ∷ polled narrow_tcp ∷ failed ∷ [])
      hello_conn tt (hello_state-IsServing, refl)

abbrev four_tcps : List Tcp
four_tcps = narrow_tcp ∷ narrow_tcp ∷ narrow_tcp ∷ narrow_tcp ∷ []

run-HasEnded_example : HasEnded (run none (polls four_tcps) hello_conn)
run-HasEnded_example =
    run-HasEnded none (codes "hello") four_tcps hello_conn tt (hello_state-IsServing, refl)
      (omega arith) (omega arith)

-- A page with a tag, and its handler.
abbrev time_handler : Option SsiHandler
time_handler = some (record { tags = codes "time" ∷ []; insert = λ k. codes "12:00" })

time_handler-Fits : Fits time_handler
time_handler-Fits loop = omega arith

abbrev time_page : List Piece
time_page = Piece.plain (codes "Now: ") ∷ Piece.tag (codes "time") ∷ Piece.plain (codes ".") ∷ []

abbrev site : List FsdataFile
site =
    record {
      name = codes "/time.shtml";
      contents = print_page time_page;
      http_header_included = false;
    }
    ∷ []

abbrev time_found : Found
time_found = record {
  file = record { contents = print_page time_page; index = 18; http_header_included = false };
  uri = codes "/time.shtml";
  tag_check = true;
}

find_time : find_file site [] (codes "/time.shtml") ≡ some time_found
unfolding find_file fs_open same contains starts_with break_at
find_time = refl

idle : IsIdle http_state_init
idle = record { no_ssi = refl; no_headers = refl; headers_sent = refl; at_start = refl }

http_find_file-response_example :
    IsServing (http_find_file site [] http_state_init (codes "/time.shtml") false true)
    × (pending time_handler
          (http_find_file site [] http_state_init (codes "/time.shtml") false true)
        ≡ response time_handler true (find_file site [] (codes "/time.shtml")))
http_find_file-response_example =
    http_find_file-response time_handler site [] http_state_init (codes "/time.shtml") true idle

run-page_example :
    IsGoing time_handler
      ([]
        ++ (header_text false (codes "/time.shtml")
            ++ render (get_tag_insert time_handler) time_page))
      (run time_handler
        (acks four_tcps)
        (requested site [] http_state_init (codes "/time.shtml") fresh_pcb))
run-page_example =
    run-page time_handler site [] http_state_init (codes "/time.shtml") fresh_pcb four_tcps
      time_found time_page time_handler-Fits idle find_time refl refl (grind arith)

-- The request, in two buffers.
abbrev first_part : Bytes
first_part = codes "GET /ti"

abbrev second_part : Bytes
second_part = codes "me.shtml HTTP/1.0" ++ (13 ∷ 10 ∷ 13 ∷ 10 ∷ [])

first_part-Unended : Unended first_part
unfolding strnstr starts_with
first_part-Unended = refl

abbrev arrival : Bytes → Arrival
arrival text = record { tcp = wide_tcp; first = text; rest = [] }

recv_all-IsGoing_example :
    IsGoing time_handler
      ([] ++ response time_handler true (find_file site [] (codes "/time.shtml")))
      (recv_all site [] true time_handler
        (arrival first_part ∷ [])
        (arrival second_part)
        (waiting fresh_pcb http_state_init))
recv_all-IsGoing_example =
    recv_all-IsGoing site [] true time_handler fresh_pcb (arrival first_part ∷ [])
      (arrival second_part) http_state_init (codes "/time.shtml") (codes "HTTP/1.0") []
      time_handler-Fits
      (record { no_ssi = refl; no_headers = refl; headers_sent = refl; at_start = refl }) refl
      (grind arith) (grind arith) (grind arith) refl (omega arith) first_part-Unended (omega arith)

-- The loop over two characters.
abbrev tag_ssi : SsiState
tag_ssi = record {
  parsed = 0;
  tag_end = 0;
  parse_left = 2;
  tag_index = 0;
  tag_name = [];
  tag_insert = [];
  tag_state = TagCheckState.tag_none;
}

abbrev tag_start : Sending
tag_start = record {
  pcb = fresh_pcb;
  file = 0;
  left = 2;
  len = 100;
  err = Err.ok;
  data_to_send = false;
}

tag_ssi-SsiIsValid : SsiIsValid (codes "<b") 0 2 tag_ssi
tag_ssi-SsiIsValid = record {
  file_left = omega arith;
  parsed_left = omega arith;
  sent_parsed = omega arith;
  state_ok = tt;
  end_ok = tt;
  insert_ok = omega arith;
}

loop_goes_on :
    (ssi_loop (ssi_fuel tag_ssi tag_start) wide_tcp time_handler (codes "<b") tag_ssi tag_start).0
    ≡ true
unfolding ssi_loop ssi_fuel ssi_switch scan_none scan_leadin
loop_goes_on = refl

ssi_loop-ends_example :
    ((ssi_loop
        (ssi_fuel tag_ssi tag_start)
        wide_tcp
        time_handler
        (codes "<b")
        tag_ssi
        tag_start).1.parse_left
      ≡ 0)
    ⊎ (is_ok
          (ssi_loop
            (ssi_fuel tag_ssi tag_start)
            wide_tcp
            time_handler
            (codes "<b")
            tag_ssi
            tag_start).2.err
        ≡ false)
ssi_loop-ends_example =
    ssi_loop-ends wide_tcp time_handler (codes "<b") tag_ssi tag_start time_handler-Fits
      tag_ssi-SsiIsValid loop_goes_on

-- ===== src/Httpd/Send/Data.antt =====
-- What is still to be sent of a response, and the data of a file that is sent in one call.
use scion_lwip_contrib.Base.{
  ℕ, ◌+◌, ◌-◌, ◌≤◌, Bool, [], ◌++◌, Option, none, some, Bytes, length, drop-all, take-all,
  length-drop, drop, ◌≡◌, refl, sym, ap, ◌∙◌, arith,
}
use scion_lwip_contrib.Httpd.Write.{Tcp, Pcb}
use scion_lwip_contrib.Httpd.State.{FsFile, HttpState, Conn}
use scion_lwip_contrib.Httpd.Ssi.Scan.{SsiState}
use scion_lwip_contrib.Httpd.Ssi.Insert.{SsiHandler, Fits, get_tag_insert}
use scion_lwip_contrib.Httpd.Ssi.Expand.{slice, ssi_pending, SsiIsValid}
use scion_lwip_contrib.Httpd.Headers.Sent.{headers_pending, HeadersOk}
use scion_lwip_contrib.Httpd.Ssi.Loop.{Sending, send_file, send_len}
use scion_lwip_contrib.Httpd.Ssi.Loop.FileSent.{
  send_file-FileSent, FileSent-slice, FileSent-position,
}
use scion_lwip_contrib.Httpd.Ssi.Delivery.Whole.{
  send_len-le, http_send_data_ssi-Delivers, ssi_pending-end,
}
use scion_lwip_contrib.Httpd.Send.{SentData, send_data, start_sending, http_send_data_nonssi}

-- What is still to be sent of a file: its rest, or the rest of the expanded page.
abbrev pub file_pending : Option SsiHandler → Bytes → Option SsiState → ℕ → Bytes
file_pending handler file_data none file = drop file file_data
file_pending handler file_data (some ssi) file =
    ssi_pending (get_tag_insert handler) file_data file ssi

abbrev pub body_pending : Option SsiHandler → Option FsFile → Option SsiState → ℕ → Bytes
body_pending handler none ssi file = []
body_pending handler (some f) ssi file = file_pending handler f.contents ssi file

-- What is still to be sent of the response.
abbrev pub pending : Option SsiHandler → HttpState → Bytes
pending handler hs =
    headers_pending hs.hdrs hs.hdr_index hs.hdr_pos ++ body_pending handler hs.handle hs.ssi hs.file

abbrev pub FileOk : Bytes → Option SsiState → ℕ → ℕ → Type 0
FileOk file_data none file left = file + left ≡ length file_data
FileOk file_data (some ssi) file left = SsiIsValid file_data file left ssi

abbrev pub BodyOk : Option FsFile → Option SsiState → ℕ → ℕ → Type 0
BodyOk none ssi file left = left ≡ 0
BodyOk (some f) ssi file left = (f.index ≡ length f.contents) × FileOk f.contents ssi file left

-- A state in which the server may be asked to send.
pub record IsServing (hs : HttpState) : Type 0 where
  pub headers_ok : HeadersOk hs.hdrs hs.hdr_index hs.hdr_pos
  pub body_ok : BodyOk hs.handle hs.ssi hs.file hs.left

-- A connection stays open with the rest still to be sent, or it has been closed with all of it sent.
abbrev pub Goes : Option SsiHandler → Bytes → Conn → Option HttpState → Type 0
Goes handler all c none = c.pcb.sent ≡ all
Goes handler all c (some hs) = IsServing hs × (c.pcb.sent ++ pending handler hs ≡ all)

abbrev pub Delivered : Option SsiHandler → Bytes → Option (Conn × Bool) → Type 0
Delivered handler all none = ⊥
Delivered handler all (some (c, r)) = Goes handler all c c.hs

-- Where nothing of the file is left, nothing of the response's body is.
pub file_pending-end :
    (handler : Option SsiHandler) (file_data : Bytes) (ssi : Option SsiState) (file left : ℕ)
    → FileOk file_data ssi file left
    → left ≡ 0
    → file_pending handler file_data ssi file ≡ []
file_pending-end handler file_data none file left ok e =
    drop-all file file_data (omega (arith, ok, e))
file_pending-end handler file_data (some ssi) file left ok e =
    ssi_pending-end (get_tag_insert handler) file_data file left ssi ok e

-- The rest of a file is the piece up to its end.
slice-end :
    (file_data : Bytes) (file : ℕ) → slice file_data file (length file_data) ≡ drop file file_data
slice-end file_data file =
    take-all (length file_data - file) (drop file file_data)
      (omega (arith, length-drop file file_data))

-- `http_send_data_nonssi` keeps the positions in order, and the bytes sent with those still to be sent.
http_send_data_nonssi_lem :
    (tcp : Tcp) (file_data : Bytes) (s : Sending)
    → s.file + s.left ≡ length file_data
    → ((http_send_data_nonssi tcp file_data s).file + (http_send_data_nonssi tcp file_data s).left
        ≡ length file_data)
      × ((http_send_data_nonssi tcp file_data s).pcb.sent
            ++ drop (http_send_data_nonssi tcp file_data s).file file_data
          ≡ s.pcb.sent ++ drop s.file file_data)
unfolding http_send_data_nonssi
http_send_data_nonssi_lem tcp file_data s ok =
    let n = send_len tcp s.pcb s.left in
    let s' = send_file tcp file_data n s in
    let sent = send_file-FileSent tcp file_data n s in
    let before : n ≤ length file_data - s.file = omega (arith, send_len-le tcp s.pcb s.left, ok) in
    (
      (FileSent-position file_data n (length file_data) s s' sent before (omega (arith, ok))
            (omega (arith, ok))).0
          ∙ ok,
      ap (◌++◌ s'.pcb.sent) (sym (slice-end file_data s'.file))
          ∙ FileSent-slice file_data n (length file_data) s s' sent before
          ∙ ap (◌++◌ s.pcb.sent) (slice-end file_data s.file),
    )

-- What the choice between the two senders keeps.
pub record DataKept (handler : Option SsiHandler) (file_data : Bytes) (ssi : Option SsiState)
    (hs : HttpState) (pcb : Pcb) (d : SentData) : Type 0 where
  pub valid : FileOk file_data d.hs.ssi d.hs.file d.hs.left
  pub total :
      d.pcb.sent ++ file_pending handler file_data d.hs.ssi d.hs.file
      ≡ pcb.sent ++ file_pending handler file_data ssi hs.file
  pub same_handle : d.hs.handle ≡ hs.handle
  pub same_hdrs : d.hs.hdrs ≡ hs.hdrs
  pub same_index : d.hs.hdr_index ≡ hs.hdr_index
  pub same_pos : d.hs.hdr_pos ≡ hs.hdr_pos

pub send_data-DataKept :
    (tcp : Tcp) (handler : Option SsiHandler) (file_data : Bytes) (ssi : Option SsiState)
    (hs : HttpState) (pcb : Pcb)
    → Fits handler
    → FileOk file_data ssi hs.file hs.left
    → DataKept handler file_data ssi hs pcb (send_data tcp handler file_data ssi hs pcb)
unfolding send_data
send_data-DataKept tcp handler file_data none hs pcb fits ok =
    let p = http_send_data_nonssi_lem tcp file_data (start_sending pcb hs) ok in
    record {
      valid = p.0;
      total = p.1;
      same_handle = refl;
      same_hdrs = refl;
      same_index = refl;
      same_pos = refl;
    }
send_data-DataKept tcp handler file_data (some ssi) hs pcb fits ok =
    let p = http_send_data_ssi-Delivers tcp handler file_data ssi (start_sending pcb hs) fits ok in
    record {
      valid = p.valid;
      total = p.total;
      same_handle = refl;
      same_hdrs = refl;
      same_index = refl;
      same_pos = refl;
    }

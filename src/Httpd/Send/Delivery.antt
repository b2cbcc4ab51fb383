-- ===== src/Httpd/Send/Delivery.antt =====
-- `http_send` delivers the response.
use scion_lwip_contrib.Base.{
  ◌≤◌, inl, inr, true, ◌&&◌, ◌++◌, append_assoc, append-nil, Option, none, some, Bytes, length,
  ◌==◌, ==_iff, ltb, ltb_false→le, ◌≡◌, refl, sym, ap, subst, ◌∙◌, Bool-cases, arith,
}
use scion_lwip_contrib.Httpd.Write.{Tcp, Pcb}
use scion_lwip_contrib.Httpd.State.{
  FsFile, fs_bytes_left, HttpState, num_file_hdr_strings, http_close_conn,
}
use scion_lwip_contrib.Httpd.Ssi.Insert.{SsiHandler, Fits}
use scion_lwip_contrib.Httpd.Headers.Sent.{
  headers_pending, HeadersOk, HeadersSent, headers_pending-end, http_send_headers-HeadersSent,
}
use scion_lwip_contrib.Httpd.Headers.{
  DataToSend, HeaderLoop, http_send_headers, headers_result, start_headers,
}
use scion_lwip_contrib.Httpd.Send.{
  http_send, SentData, send_data, send_body, after_data, after_headers, ends, with_headers,
}
use scion_lwip_contrib.Httpd.Send.Data.{
  file_pending, body_pending, pending, BodyOk, IsServing, Delivered, file_pending-end, DataKept,
  send_data-DataKept,
}

closes :
    (tcp : Tcp) (handler : Option SsiHandler) (all : Bytes) (pcb : Pcb)
    → pcb.sent ≡ all
    → Delivered handler all (ends tcp pcb)
unfolding http_close_conn
closes tcp handler all pcb e = e

-- The body with the headers sent.
pending-body :
    (handler : Option SsiHandler) (hs : HttpState)
    → HeadersOk hs.hdrs hs.hdr_index hs.hdr_pos
    → hs.hdr_index ≡ num_file_hdr_strings
    → pending handler hs ≡ body_pending handler hs.handle hs.ssi hs.file
pending-body handler hs ok e =
    ap (λ (t : Bytes). t ++ body_pending handler hs.handle hs.ssi hs.file)
      (headers_pending-end hs.hdrs hs.hdr_index hs.hdr_pos ok e)

-- The state behind the senders, with the headers sent before.
DataKept-IsServing :
    (handler : Option SsiHandler) (f : FsFile) (hs : HttpState) (pcb : Pcb) (d : SentData)
    → HeadersOk hs.hdrs hs.hdr_index hs.hdr_pos
    → hs.hdr_index ≡ num_file_hdr_strings
    → hs.handle ≡ some f
    → f.index ≡ length f.contents
    → DataKept handler f.contents hs.ssi hs pcb d
    → IsServing d.hs
      × (d.pcb.sent ++ pending handler d.hs
          ≡ pcb.sent ++ file_pending handler f.contents hs.ssi hs.file)
DataKept-IsServing handler f hs pcb d ok e is_f at_end k =
    let handle : d.hs.handle ≡ some f = k.same_handle ∙ is_f in
    let headers : HeadersOk d.hs.hdrs d.hs.hdr_index d.hs.hdr_pos =
      rw (k.same_hdrs, k.same_index, k.same_pos) ok in
    (
      record {
        headers_ok = headers;
        body_ok =
            subst (λ (h : Option FsFile). BodyOk h d.hs.ssi d.hs.file d.hs.left) (sym handle)
              (at_end, k.valid);
      },
      ap (◌++◌ d.pcb.sent) (pending-body handler d.hs headers (k.same_index ∙ e))
          ∙ ap (λ (h : Option FsFile). d.pcb.sent ++ body_pending handler h d.hs.ssi d.hs.file)
              handle
          ∙ k.total,
    )

bytes_left : (f : FsFile) → f.index ≡ length f.contents → (fs_bytes_left f == 0) ≡ true
unfolding fs_bytes_left
bytes_left f e = ground (arith, e)

after_data-Delivered :
    (tcp : Tcp) (handler : Option SsiHandler) (f : FsFile) (hs : HttpState) (pcb : Pcb)
    (d : SentData)
    → HeadersOk hs.hdrs hs.hdr_index hs.hdr_pos
    → hs.hdr_index ≡ num_file_hdr_strings
    → hs.handle ≡ some f
    → f.index ≡ length f.contents
    → DataKept handler f.contents hs.ssi hs pcb d
    → Delivered handler
        (pcb.sent ++ file_pending handler f.contents hs.ssi hs.file)
        (after_data tcp f d)
unfolding after_data
after_data-Delivered tcp handler f hs pcb d ok e is_f at_end k =
    elim (Bool-cases (d.hs.left == 0 && fs_bytes_left f == 0)) [
      | inl done ↦
          let none_left : d.hs.left ≡ 0 = ground (arith, done) in
          rw done (
            closes tcp handler _ d.pcb (
              sym (append-nil d.pcb.sent)
              ∙ ap (◌++◌ d.pcb.sent) (
                  sym (
                    file_pending-end handler f.contents d.hs.ssi d.hs.file d.hs.left k.valid
                      none_left))
              ∙ k.total))
      | inr more ↦ rw more (DataKept-IsServing handler f hs pcb d ok e is_f at_end k)
    ]

pub send_body-Delivered :
    (tcp : Tcp) (handler : Option SsiHandler) (file : Option FsFile) (hs : HttpState) (pcb : Pcb)
    → Fits handler
    → HeadersOk hs.hdrs hs.hdr_index hs.hdr_pos
    → hs.hdr_index ≡ num_file_hdr_strings
    → hs.handle ≡ file
    → BodyOk file hs.ssi hs.file hs.left
    → Delivered handler
        (pcb.sent ++ body_pending handler file hs.ssi hs.file)
        (send_body tcp handler file hs pcb)
unfolding send_body
send_body-Delivered tcp handler none hs pcb fits ok e is_f body =
    rw (let z : (hs.left == 0) ≡ true = ground (arith, body) in z)
      (closes tcp handler _ pcb (sym (append-nil pcb.sent)))
send_body-Delivered tcp handler (some f) hs pcb fits ok e is_f body =
    elim (Bool-cases (hs.left == 0)) [
      | inl done ↦
          rw (done, bytes_left f body.0)
            (closes tcp handler _ pcb (
              sym (append-nil pcb.sent)
              ∙ ap (◌++◌ pcb.sent) (
                  sym (
                    file_pending-end handler f.contents hs.ssi hs.file hs.left body.1
                      ((==_iff _ _).0 done)))))
      | inr more ↦ rw more (
          after_data-Delivered tcp handler f hs pcb (send_data tcp handler f.contents hs.ssi hs pcb)
            ok e is_f body.0 (send_data-DataKept tcp handler f.contents hs.ssi hs pcb fits body.1))
    ]

headers_result-continue :
    (hs : HttpState) (l : HeaderLoop)
    → headers_result hs l ≡ DataToSend.data_to_send_continue
    → num_file_hdr_strings ≤ l.hdr_index
unfolding headers_result
headers_result-continue hs l e = elim (Bool-cases (ltb l.hdr_index num_file_hdr_strings)) [
  | inl more ↦ cc (rw more at e)
  | inr done ↦ ltb_false→le _ _ done
]

headers_stay :
    (handler : Option SsiHandler) (hs : HttpState) (sent : Bytes) (l : HeaderLoop)
    → IsServing hs
    → HeadersOk hs.hdrs l.hdr_index l.hdr_pos
    → l.pcb.sent ++ headers_pending hs.hdrs l.hdr_index l.hdr_pos
      ≡ sent ++ headers_pending hs.hdrs hs.hdr_index hs.hdr_pos
    → IsServing (record hs { hdr_pos = l.hdr_pos; hdr_index = l.hdr_index })
      × (l.pcb.sent ++ pending handler (record hs { hdr_pos = l.hdr_pos; hdr_index = l.hdr_index })
          ≡ sent ++ pending handler hs)
headers_stay handler hs sent l v ok total =
    let body = body_pending handler hs.handle hs.ssi hs.file in
    (
      record { headers_ok = ok; body_ok = v.body_ok },
      sym (append_assoc l.pcb.sent (headers_pending hs.hdrs l.hdr_index l.hdr_pos) body)
          ∙ ap (λ (t : Bytes). t ++ body) total
          ∙ append_assoc sent (headers_pending hs.hdrs hs.hdr_index hs.hdr_pos) body,
    )

-- The headers that went out, and what follows them.
after_headers-Delivered :
    (tcp : Tcp) (handler : Option SsiHandler) (hs : HttpState) (pcb : Pcb) (l : HeaderLoop)
    (d : DataToSend)
    → Fits handler
    → IsServing hs
    → HeadersSent hs.hdrs (start_headers tcp pcb hs) l
    → headers_result hs l ≡ d
    → Delivered handler (pcb.sent ++ pending handler hs) (after_headers tcp handler hs l d)
unfolding after_headers start_headers with_headers
after_headers-Delivered tcp handler hs pcb l DataToSend.no_data_to_send fits v sent e =
    headers_stay handler hs pcb.sent l v sent.valid sent.total
after_headers-Delivered tcp handler hs pcb l DataToSend.data_to_send_break fits v sent e =
    headers_stay handler hs pcb.sent l v sent.valid sent.total
after_headers-Delivered tcp handler hs pcb l DataToSend.data_to_send_continue fits v sent e =
    let done : l.hdr_index ≡ num_file_hdr_strings =
      omega (arith, headers_result-continue hs l e, sent.valid.index_ok) in
    let hs' = record hs { hdr_pos = l.hdr_pos; hdr_index = l.hdr_index } in
    subst (λ (t : Bytes). Delivered handler t (send_body tcp handler hs.handle hs' l.pcb))
      (ap (◌++◌ l.pcb.sent) (sym (pending-body handler hs' sent.valid done))
        ∙ (headers_stay handler hs pcb.sent l v sent.valid sent.total).1)
      (send_body-Delivered tcp handler hs.handle hs' l.pcb fits sent.valid done refl v.body_ok)

-- Where the positions are valid, the file has been read to its end and the SSI handler keeps to its length,
-- `http_send` ends without a failed assertion. The connection then stays open, with valid positions, and the bytes
-- sent followed by those still to be sent are the same as before the call, or it is closed, and all of
-- them have been sent. This holds whatever TCP accepts, for plain files and for pages with includes.
pub http_send-Delivered :
    (tcp : Tcp) (handler : Option SsiHandler) (hs : HttpState) (pcb : Pcb)
    → Fits handler
    → IsServing hs
    → Delivered handler (pcb.sent ++ pending handler hs) (http_send tcp handler hs pcb)
unfolding http_send
http_send-Delivered tcp handler hs pcb fits v =
    elim (Bool-cases (ltb hs.hdr_index num_file_hdr_strings)) [
      | inl more ↦ rw more (
          after_headers-Delivered tcp handler hs pcb (http_send_headers tcp pcb hs)
            (headers_result hs (http_send_headers tcp pcb hs)) fits v
            (http_send_headers-HeadersSent tcp pcb hs v.headers_ok) refl)
      | inr done ↦
          let e : hs.hdr_index ≡ num_file_hdr_strings =
            omega (arith, ltb_false→le _ _ done, v.headers_ok.index_ok) in
          rw done (
            subst (λ (t : Bytes). Delivered handler t (send_body tcp handler hs.handle hs pcb))
              (ap (◌++◌ pcb.sent) (sym (pending-body handler hs v.headers_ok e)))
              (send_body-Delivered tcp handler hs.handle hs pcb fits v.headers_ok e refl v.body_ok))
    ]

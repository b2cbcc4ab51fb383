-- ===== src/Httpd/Ssi/Delivery/Sends.antt =====
-- The rounds that send: the file's text up to a tag's end, and the insert.
use scion_lwip_contrib.Base.{
  ℕ, ◌+◌, ◌-◌, ◌≤◌, ◌<◌, inl, inr, Bool, true, false, Bytes, [], ◌++◌, append_assoc, take, drop,
  length, min, ltb, ltb→lt, ltb_false→le, ne→==_false, if◌then◌else◌, ◌≡◌, refl, sym, ap, ◌∙◌,
  Bool-cases, drop-all, drop-drop, take-append-drop, arith,
}
use scion_lwip_contrib.Lwip.{is_ok}
use scion_lwip_contrib.Httpd.Write.{Tcp, Written, http_write}
use scion_lwip_contrib.Httpd.Write.Prefix.{Wrote, http_write-Wrote}
use scion_lwip_contrib.Httpd.Ssi.Scan.{tag_none, tag_sending, SsiState}
use scion_lwip_contrib.Httpd.Ssi.Loop.{Sending, send_file, tag_send, send_insert}
use scion_lwip_contrib.Httpd.Ssi.Loop.FileSent.{send_file-FileSent}
use scion_lwip_contrib.Httpd.Ssi.Expand.{
  Scanner, ssi_pending, insert_pending, SsiIsValid, slice, expand,
}
use scion_lwip_contrib.Httpd.Ssi.Expand.Slices.{slice-same, ssi_pending-scanning}
use scion_lwip_contrib.Httpd.Ssi.Delivery.{Progress, work}
use scion_lwip_contrib.Httpd.Ssi.Delivery.Tags.{in_state}
use scion_lwip_contrib.Httpd.Ssi.Delivery.TagText.{FileSent-Progress}

-- What is to come behind the tag's end.
pending-insert :
    (insert : Bytes → Bytes) (file_data : Bytes) (file : ℕ) (ssi : SsiState)
    → 0 < ssi.parse_left
    → file ≡ ssi.tag_end
    → ssi_pending insert file_data file (in_state ssi tag_sending)
      ≡ drop ssi.tag_index ssi.tag_insert ++ expand insert Scanner.text (drop ssi.parsed file_data)
unfolding ssi_pending insert_pending
pending-insert insert file_data file ssi here at_end =
    let rest = expand insert Scanner.text (drop ssi.parsed file_data) in
    ap
      (λ (b : Bool).
        slice file_data file ssi.tag_end
        ++ ((if b then [] else drop ssi.tag_index ssi.tag_insert) ++ rest))
      (ne→==_false ssi.parse_left 0 (λ e. omega (arith, e, here)))
    ∙ ap (λ (t : Bytes). t ++ (drop ssi.tag_index ssi.tag_insert ++ rest))
        (ap (λ (k : ℕ). slice file_data k ssi.tag_end) at_end ∙ slice-same file_data ssi.tag_end)

-- A write of a part of the insert.
insert_sent-Progress :
    (insert : Bytes → Bytes) (file_data : Bytes) (ssi : SsiState) (s s' : Sending) (k : ℕ)
    → SsiIsValid file_data s.file s.left (in_state ssi tag_sending)
    → 0 < ssi.parse_left
    → s.file ≡ ssi.tag_end
    → s'.file ≡ s.file
    → s'.left ≡ s.left
    → s'.pcb.sent ≡ s.pcb.sent ++ take k (drop ssi.tag_index ssi.tag_insert)
    → 0 < k
    → k ≤ length ssi.tag_insert - ssi.tag_index
    → Progress insert file_data
        (in_state ssi tag_sending)
        s
        (record ssi { tag_index = ssi.tag_index + k; tag_state = tag_sending })
        s'
unfolding work
insert_sent-Progress insert file_data ssi s s' k valid here at_end same_file same_left sent pos le =
    let page = expand insert Scanner.text (drop ssi.parsed file_data) in
    let now = drop ssi.tag_index ssi.tag_insert in
    let after = record ssi { tag_index = ssi.tag_index + k } in
    record {
      valid =
          rw (same_file, same_left)
            (record {
              file_left = valid.file_left;
              parsed_left = valid.parsed_left;
              sent_parsed = valid.sent_parsed;
              state_ok = tt;
              end_ok = valid.end_ok;
              insert_ok = valid.insert_ok;
            });
      total =
          ap (◌++◌ s'.pcb.sent)
            (pending-insert insert file_data s'.file after here (same_file ∙ at_end))
          ∙ ap (λ (t : Bytes). t ++ (drop (ssi.tag_index + k) ssi.tag_insert ++ page)) sent
          ∙ append_assoc s.pcb.sent (take k now) (drop (ssi.tag_index + k) ssi.tag_insert ++ page)
          ∙ ap (◌++◌ s.pcb.sent) (
              sym (append_assoc (take k now) (drop (ssi.tag_index + k) ssi.tag_insert) page)
              ∙ ap (λ (t : Bytes). (take k now ++ t) ++ page)
                  (sym (drop-drop ssi.tag_index k ssi.tag_insert))
              ∙ ap (λ (t : Bytes). t ++ page) (take-append-drop k now)
              ∙ sym (pending-insert insert file_data s.file ssi here at_end));
      less = λ ok. omega (arith, same_left, pos, le);
    }

-- A failed write.
refused-Progress :
    (insert : Bytes → Bytes) (file_data : Bytes) (ssi : SsiState) (s s' : Sending)
    → SsiIsValid file_data s.file s.left ssi
    → s'.file ≡ s.file
    → s'.left ≡ s.left
    → s'.pcb.sent ≡ s.pcb.sent
    → is_ok s'.err ≡ false
    → Progress insert file_data ssi s ssi s'
refused-Progress insert file_data ssi s s' valid same_file same_left sent failed = record {
  valid = rw (same_file, same_left) valid;
  total =
      ap (λ (t : Bytes). t ++ ssi_pending insert file_data s'.file ssi) sent
      ∙ ap (λ (k : ℕ). s.pcb.sent ++ ssi_pending insert file_data k ssi) same_file;
  less = λ ok. cc;
}

-- The insert is sent; the parser goes on behind the tag.
insert_done-Progress :
    (insert : Bytes → Bytes) (file_data : Bytes) (ssi : SsiState) (s : Sending)
    → SsiIsValid file_data s.file s.left (in_state ssi tag_sending)
    → 0 < ssi.parse_left
    → s.file ≡ ssi.tag_end
    → length ssi.tag_insert ≤ ssi.tag_index
    → Progress insert file_data
        (in_state ssi tag_sending)
        s
        (record ssi { tag_index = 0; tag_state = tag_none })
        s
unfolding work
insert_done-Progress insert file_data ssi s valid here at_end le =
    let page = expand insert Scanner.text (drop ssi.parsed file_data) in
    let parsed : ssi.tag_end ≡ ssi.parsed = valid.end_ok in
    record {
      valid = record {
        file_left = valid.file_left;
        parsed_left = valid.parsed_left;
        sent_parsed = valid.sent_parsed;
        state_ok = tt;
        end_ok = tt;
        insert_ok = valid.insert_ok;
      };
      total = ap (◌++◌ s.pcb.sent) (
          ssi_pending-scanning insert file_data s.file
            (record ssi { tag_index = 0; tag_state = tag_none }) tt
          ∙ ap (λ (t : Bytes). t ++ page)
              (ap (λ (k : ℕ). slice file_data k ssi.parsed) (at_end ∙ parsed)
                ∙ slice-same file_data ssi.parsed)
          ∙ ap (λ (t : Bytes). t ++ page) (sym (drop-all ssi.tag_index ssi.tag_insert le))
          ∙ sym (pending-insert insert file_data s.file ssi here at_end));
      less = λ ok. omega arith;
    }

send_insert-Progress :
    (tcp : Tcp) (insert : Bytes → Bytes) (file_data : Bytes) (ssi : SsiState) (s : Sending)
    → SsiIsValid file_data s.file s.left (in_state ssi tag_sending)
    → 0 < ssi.parse_left
    → s.file ≡ ssi.tag_end
    → 0 < s.len
    → ssi.tag_index < length ssi.tag_insert
    → Progress insert file_data
        (in_state ssi tag_sending)
        s
        (send_insert tcp (in_state ssi tag_sending) s).0
        (send_insert tcp (in_state ssi tag_sending) s).1
unfolding send_insert
send_insert-Progress tcp insert file_data ssi s valid here at_end pos more =
    outcome (http_write-Wrote tcp s.pcb (drop ssi.tag_index ssi.tag_insert) n)
  where
    n : ℕ
    n = min s.len (length ssi.tag_insert - ssi.tag_index)

    w : Written
    w = http_write tcp s.pcb (drop ssi.tag_index ssi.tag_insert) n

    outcome :
        Wrote s.pcb (drop ssi.tag_index ssi.tag_insert) n w
        → Progress insert file_data
            (in_state ssi tag_sending)
            s
            (send_insert tcp (in_state ssi tag_sending) s).0
            (send_insert tcp (in_state ssi tag_sending) s).1
    outcome (inl h) = rw h.0 (
        insert_sent-Progress insert file_data ssi s
          (record s { pcb = w.pcb; len = w.len; err = w.err; data_to_send = true }) w.len valid here
          at_end refl refl h.2 (h.3 (omega arith)) (omega (arith, h.1)))
    outcome (inr h) = rw h.0 (
        refused-Progress insert file_data (in_state ssi tag_sending) s
          (record s { pcb = w.pcb; len = w.len; err = w.err }) valid refl refl h.1 h.0)

-- The case TAG_SENDING.
pub tag_send-Progress :
    (tcp : Tcp) (insert : Bytes → Bytes) (file_data : Bytes) (ssi : SsiState) (s : Sending)
    → SsiIsValid file_data s.file s.left (in_state ssi tag_sending)
    → 0 < ssi.parse_left
    → 0 < s.len
    → Progress insert file_data
        (in_state ssi tag_sending)
        s
        (tag_send tcp file_data (in_state ssi tag_sending) s).0
        (tag_send tcp file_data (in_state ssi tag_sending) s).1
unfolding tag_send
tag_send-Progress tcp insert file_data ssi s valid here pos =
    let n = min s.len (ssi.tag_end - s.file) in
    let parsed : ssi.tag_end ≡ ssi.parsed = valid.end_ok in
    elim (Bool-cases (ltb s.file ssi.tag_end)) [
      | inl more ↦ rw more (
          FileSent-Progress insert file_data ssi s (send_file tcp file_data n s) n valid
            (send_file-FileSent tcp file_data n s) (omega arith) (omega (arith, ltb→lt _ _ more)))
      | inr none_left ↦
          let at_end : s.file ≡ ssi.tag_end =
            omega (arith, ltb_false→le _ _ none_left, valid.sent_parsed, parsed) in
          rw none_left (elim (Bool-cases (ltb ssi.tag_index (length ssi.tag_insert))) [
            | inl text ↦ rw text (
                send_insert-Progress tcp insert file_data ssi s valid here at_end pos
                  (ltb→lt _ _ text))
            | inr done ↦ rw done (
                insert_done-Progress insert file_data ssi s valid here at_end
                  (ltb_false→le _ _ done))
          ])
    ]

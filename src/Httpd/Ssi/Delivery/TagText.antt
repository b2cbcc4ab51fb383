-- ===== src/Httpd/Ssi/Delivery/TagText.antt =====
-- The rounds that send the file's text up to a tag's end.
use scion_lwip_contrib.Base.{
  ℕ, ◌+◌, ◌-◌, ◌≤◌, ◌<◌, inl, inr, true, Option, Bytes, ◌++◌, append_assoc, get_or, drop, min, ltb,
  ltb→lt, ◌≡◌, sym, ap, ◌∙◌, Bool-cases, arith,
}
use scion_lwip_contrib.Lwip.{is_ok}
use scion_lwip_contrib.Httpd.Write.{Tcp}
use scion_lwip_contrib.Httpd.Ssi.Scan.{tag_leadout, tag_sending, SsiState, completes}
use scion_lwip_contrib.Httpd.Ssi.Insert.{SsiHandler, Fits, get_tag_insert, length-get_tag_insert}
use scion_lwip_contrib.Httpd.Ssi.Loop.{Sending, send_file, tag_complete}
use scion_lwip_contrib.Httpd.Ssi.Loop.FileSent.{
  FileSent, send_file-FileSent, FileSent-slice, FileSent-position,
}
use scion_lwip_contrib.Httpd.Ssi.Expand.{
  Scanner, ssi_pending, insert_pending, SsiIsValid, slice, expand,
}
use scion_lwip_contrib.Httpd.Ssi.Delivery.{Progress, work}
use scion_lwip_contrib.Httpd.Ssi.Delivery.Tags.{
  in_state, tag_ended, tag_ended-pending, tag_ended-SsiIsValid, tag_ended-work,
}

module _ (insert : Bytes → Bytes) (file_data : Bytes) (ssi : SsiState) where
  -- A write of the file's text before the tag's end.
  module _ (s s' : Sending) (n : ℕ)
      (valid : SsiIsValid file_data s.file s.left (in_state ssi tag_sending))
      (sent : FileSent file_data n s s') (before : n ≤ ssi.tag_end - s.file) where
    within : (s.file ≤ ssi.tag_end) × (ssi.tag_end ≤ s.file + s.left)
    within =
        let at_end : ssi.tag_end ≡ ssi.parsed = valid.end_ok in
        (
          omega (arith, at_end, valid.sent_parsed),
          omega (arith, at_end, valid.file_left, valid.parsed_left),
        )

    FileSent-valid : SsiIsValid file_data s'.file s'.left (in_state ssi tag_sending)
    FileSent-valid =
        let at_end : ssi.tag_end ≡ ssi.parsed = valid.end_ok in
        let p = FileSent-position file_data n ssi.tag_end s s' sent before within.0 within.1 in
        record {
          file_left = p.0 ∙ valid.file_left;
          parsed_left = valid.parsed_left;
          sent_parsed = omega (arith, p.1);
          state_ok = tt;
          end_ok = valid.end_ok;
          insert_ok = valid.insert_ok;
        }

    FileSent-total :
        s'.pcb.sent ++ ssi_pending insert file_data s'.file (in_state ssi tag_sending)
        ≡ s.pcb.sent ++ ssi_pending insert file_data s.file (in_state ssi tag_sending)
    unfolding ssi_pending
    FileSent-total =
        let rest =
          insert_pending (in_state ssi tag_sending)
          ++ expand insert Scanner.text (drop ssi.parsed file_data) in
        sym (append_assoc s'.pcb.sent (slice file_data s'.file ssi.tag_end) rest)
        ∙ ap (λ (t : Bytes). t ++ rest) (FileSent-slice file_data n ssi.tag_end s s' sent before)
        ∙ append_assoc s.pcb.sent (slice file_data s.file ssi.tag_end) rest

    FileSent-left : is_ok s'.err ≡ true → 0 < n → s'.left < s.left
    FileSent-left ok pos =
        (FileSent-position file_data n ssi.tag_end s s' sent before within.0 within.1).2 ok pos

    pub FileSent-Progress :
        0 < n → Progress insert file_data (in_state ssi tag_sending) s (in_state ssi tag_sending) s'
    unfolding work
    FileSent-Progress pos = record {
      valid = FileSent-valid;
      total = FileSent-total;
      less = λ ok. omega (arith, FileSent-left ok pos);
    }

-- The end of a tag.
pub tag_complete-Progress :
    (tcp : Tcp) (handler : Option SsiHandler) (file_data : Bytes) (ssi : SsiState) (s : Sending)
    → Fits handler
    → SsiIsValid file_data s.file s.left (in_state ssi tag_leadout)
    → 0 < ssi.parse_left
    → 0 < s.len
    → completes (get_or file_data ssi.parsed 0) ssi ≡ true
    → Progress
        (get_tag_insert handler)
        file_data
        (in_state ssi tag_leadout)
        s
        (tag_complete tcp handler file_data (in_state ssi tag_leadout) s).0
        (tag_complete tcp handler file_data (in_state ssi tag_leadout) s).1
unfolding tag_complete
tag_complete-Progress tcp handler file_data ssi s fits valid here room done =
    let insert = get_tag_insert handler in
    let ended = tag_ended insert ssi in
    let short = λ (n : Bytes). length-get_tag_insert handler n fits in
    let ok = tag_ended-SsiIsValid insert file_data ssi s valid here done short in
    let page = tag_ended-pending insert file_data ssi s valid here done in
    elim (Bool-cases (ltb s.file (ssi.parsed + 1))) [
      | inl more ↦
          let s' = send_file tcp file_data (min s.len (ssi.parsed + 1 - s.file)) s in
          let sent = send_file-FileSent tcp file_data (min s.len (ssi.parsed + 1 - s.file)) s in
          let p =
            FileSent-Progress insert file_data ended s s' (min s.len (ssi.parsed + 1 - s.file)) ok
              sent (omega arith) (omega (arith, ltb→lt _ _ more)) in
          rw more (record {
            valid = p.valid;
            total = p.total ∙ ap (◌++◌ s.pcb.sent) page;
            less = λ e. omega (
              arith,
              p.less e,
              tag_ended-work insert file_data ssi s valid here done s.left short (omega arith),
            );
          })
      | inr none_left ↦ rw none_left (record {
        valid = ok;
        total = ap (◌++◌ s.pcb.sent) page;
        less =
            λ e. tag_ended-work insert file_data ssi s valid here done s.left short (omega arith);
      })
    ]

-- ===== src/Httpd/Ssi/Delivery/Scans.antt =====
-- The rounds that only parse.
use scion_lwip_contrib.Base.{
  ℕ, ◌+◌, ◌≤◌, ◌<◌, Bytes, [], ◌∷◌, ◌++◌, append_assoc, get_or, drop, ◌≡◌, sym, ap, ◌∙◌, arith,
}
use scion_lwip_contrib.Httpd.Ssi.Scan.{
  TagCheckState, tag_none, tag_leadin, tag_found, tag_leadout, tag_sending, SsiState,
}
use scion_lwip_contrib.Httpd.Ssi.Loop.{Sending}
use scion_lwip_contrib.Httpd.Ssi.Expand.{ssi_pending, SsiIsValid, EndOk, slice, expand, scanner}
use scion_lwip_contrib.Httpd.Ssi.Expand.Steps.{IsScanning, Scanned}
use scion_lwip_contrib.Httpd.Ssi.Expand.Slices.{
  drop-get_or, slice-more, expand-moves, ssi_pending-scanning,
}
use scion_lwip_contrib.Httpd.Ssi.Delivery.{Progress, work, weight}

EndOk-scanning : (st : TagCheckState) (tag_end parsed : ℕ) → IsScanning st → EndOk st tag_end parsed
EndOk-scanning tag_none tag_end parsed h = tt
EndOk-scanning tag_leadin tag_end parsed h = tt
EndOk-scanning tag_found tag_end parsed h = tt
EndOk-scanning tag_leadout tag_end parsed h = tt
EndOk-scanning tag_sending tag_end parsed h = absurd h

weight-scanning :
    (st : TagCheckState) (k : ℕ) (insert : Bytes) → IsScanning st → weight st k insert ≤ 1
weight-scanning tag_none k insert h = omega arith
weight-scanning tag_leadin k insert h = ground arith
weight-scanning tag_found k insert h = omega arith
weight-scanning tag_leadout k insert h = omega arith
weight-scanning tag_sending k insert h = absurd h

module _ (insert : Bytes → Bytes) (file_data : Bytes) (ssi : SsiState) (s : Sending)
    (valid : SsiIsValid file_data s.file s.left ssi) (here : 0 < ssi.parse_left)
    (scanning : IsScanning ssi.tag_state) where
  pub pending-char :
      ssi_pending insert file_data s.file ssi
      ≡ slice file_data s.file ssi.parsed
        ++ expand insert
            (scanner ssi)
            (get_or file_data ssi.parsed 0 ∷ drop (ssi.parsed + 1) file_data)
  pending-char =
      ssi_pending-scanning insert file_data s.file ssi scanning
      ∙ ap (λ (t : Bytes). slice file_data s.file ssi.parsed ++ expand insert (scanner ssi) t)
          (drop-get_or ssi.parsed file_data (omega (arith, valid.parsed_left)))

  pub slice-char :
      slice file_data s.file (ssi.parsed + 1)
      ≡ slice file_data s.file ssi.parsed ++ get_or file_data ssi.parsed 0 ∷ []
  slice-char =
      slice-more file_data s.file ssi.parsed valid.sent_parsed (omega (arith, valid.parsed_left))

  Scanned-pending :
      (ssi' : SsiState)
      → Scanned (get_or file_data ssi.parsed 0) ssi ssi'
      → ssi_pending insert file_data s.file ssi' ≡ ssi_pending insert file_data s.file ssi
  Scanned-pending ssi' step =
      let before = slice file_data s.file ssi.parsed in
      let c = get_or file_data ssi.parsed 0 in
      let rest = drop (ssi.parsed + 1) file_data in
      ssi_pending-scanning insert file_data s.file ssi' step.is_scanning
      ∙ ap (λ (k : ℕ). slice file_data s.file k ++ expand insert (scanner ssi') (drop k file_data))
          step.parsed_next
      ∙ ap (λ (t : Bytes). t ++ expand insert (scanner ssi') rest) slice-char
      ∙ append_assoc before (c ∷ []) (expand insert (scanner ssi') rest)
      ∙ ap (◌++◌ before) (sym (expand-moves insert (scanner ssi) ssi' c rest step.moves))
      ∙ sym pending-char

  Scanned-valid :
      (ssi' : SsiState)
      → Scanned (get_or file_data ssi.parsed 0) ssi ssi'
      → SsiIsValid file_data s.file s.left ssi'
  Scanned-valid ssi' step = record {
    file_left = valid.file_left;
    parsed_left = omega (arith, step.parsed_next, step.left_next, valid.parsed_left, here);
    sent_parsed = omega (arith, step.parsed_next, valid.sent_parsed);
    state_ok = step.state_ok;
    end_ok = EndOk-scanning ssi'.tag_state ssi'.tag_end ssi'.parsed step.is_scanning;
    insert_ok = rw step.insert_kept valid.insert_ok;
  }

  -- A character that the scanner passes on.
  pub Scanned-Progress :
      (ssi' : SsiState)
      → Scanned (get_or file_data ssi.parsed 0) ssi ssi'
      → Progress insert file_data ssi s ssi' s
  unfolding work
  Scanned-Progress ssi' step = record {
    valid = Scanned-valid ssi' step;
    total = ap (◌++◌ s.pcb.sent) (Scanned-pending ssi' step);
    less = λ ok. omega (
      arith,
      step.left_next,
      here,
      weight-scanning ssi'.tag_state ssi'.tag_index ssi'.tag_insert step.is_scanning,
    );
  }

-- ===== src/Httpd/Ssi/Delivery.antt =====
-- The tag processor sends the page that `expand` describes: its rounds.
pub mod Scans
pub mod Tags
pub mod TagText
pub mod Sends
pub mod Rounds
pub mod Whole
use scion_lwip_contrib.Base.{
  ℕ, zero, suc, ◌+◌, ◌-◌, ◌*◌, ◌≤◌, ◌<◌, ◌⊎◌, inl, inr, Bool, true, false, not, ◌&&◌, Option, Bytes,
  [], ◌∷◌, ◌++◌, get_or, take, drop, length, ◌==◌, ltb, if◌then◌else◌, ◌≡◌, refl, sym, ap, ◌∙◌,
  Bool-cases, arith,
}
use scion_lwip_contrib.Lwip.{Err, is_ok}
use scion_lwip_contrib.Httpd.Write.{Tcp, Pcb}
use scion_lwip_contrib.Httpd.Ssi.Scan.{
  TagCheckState, tag_none, tag_leadin, tag_found, tag_leadout, tag_sending, SsiState,
}
use scion_lwip_contrib.Httpd.Ssi.Insert.{SsiHandler, max_tag_insert_len}
use scion_lwip_contrib.Httpd.Ssi.Loop.{Sending}
use scion_lwip_contrib.Httpd.Ssi.Expand.{ssi_pending, SsiIsValid}

-- What a state adds to the work ahead.
abbrev pub weight : TagCheckState → ℕ → Bytes → ℕ
weight tag_leadin k insert = if k == 5 then 1 else 0
weight tag_sending k insert = length insert - k + 1
weight _ k insert = 0

-- The work ahead: every character may end a tag, whose insert is up to 192 bytes long.
unfoldable pub work : SsiState → ℕ → ℕ
work ssi left =
    ssi.parse_left * (max_tag_insert_len + 4)
    + left
    + weight ssi.tag_state ssi.tag_index ssi.tag_insert

-- A round keeps the state valid and what was sent with what is to come the same, and takes from the work
-- ahead unless its write failed.
pub record Progress (insert : Bytes → Bytes) (file_data : Bytes) (ssi : SsiState) (s : Sending)
    (ssi' : SsiState) (s' : Sending) : Type 0 where
  pub valid : SsiIsValid file_data s'.file s'.left ssi'
  pub total :
      s'.pcb.sent ++ ssi_pending insert file_data s'.file ssi'
      ≡ s.pcb.sent ++ ssi_pending insert file_data s.file ssi
  pub less : is_ok s'.err ≡ true → work ssi' s'.left < work ssi s.left

-- The fuel of the loop covers it.
pub work-lt :
    (st : TagCheckState) (ssi : SsiState) (left : ℕ)
    → ssi.parse_left * (max_tag_insert_len + 4) + left + weight st ssi.tag_index ssi.tag_insert
      < ssi.parse_left * (max_tag_insert_len + 4) + left + length ssi.tag_insert + 4
work-lt tag_none ssi left = omega arith
work-lt tag_leadin ssi left = ground arith
work-lt tag_found ssi left = omega arith
work-lt tag_leadout ssi left = omega arith
work-lt tag_sending ssi left = omega arith

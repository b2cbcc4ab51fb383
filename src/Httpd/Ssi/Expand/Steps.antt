-- ===== src/Httpd/Ssi/Expand/Steps.antt =====
-- The tag processor's steps are the scanner's.
use scion_lwip_contrib.Base.{
  ℕ, ◌+◌, ◌-◌, ◌≤◌, false, [], ◌∷◌, ◌++◌, take, length, length-take, length-append, ◌==◌, ◌≡◌,
  take-all, arith,
}
use scion_lwip_contrib.Httpd.Ssi.Scan.{
  TagCheckState, tag_none, tag_leadin, tag_found, tag_leadout, tag_sending, SsiState, scan_none,
  scan_leadin, scan_found, scan_leadout, completes,
}
use scion_lwip_contrib.Httpd.Ssi.Expand.{next, scanner, StateOk}

abbrev pub IsScanning : TagCheckState → Type 0
IsScanning tag_sending = ⊥
IsScanning _ = Unit {0}

-- One character was consumed, as the scanner does it.
pub record Scanned (c : ℕ) (ssi ssi' : SsiState) : Type 0 where
  pub moves : scanner ssi' ≡ next (scanner ssi) c
  pub parsed_next : ssi'.parsed ≡ ssi.parsed + 1
  pub left_next : ssi'.parse_left ≡ ssi.parse_left - 1
  pub insert_kept : ssi'.tag_insert ≡ ssi.tag_insert
  pub state_ok : StateOk ssi'.tag_state ssi'.tag_index ssi'.tag_name
  pub is_scanning : IsScanning ssi'.tag_state

pub scan_none-Scanned :
    (c : ℕ) (ssi : SsiState)
    → Scanned c
        (record ssi { tag_state = tag_none })
        (scan_none c (record ssi { tag_state = tag_none }))
unfolding scan_none next
scan_none-Scanned c ssi = ground arith

pub scan_leadin-Scanned :
    (c : ℕ) (ssi : SsiState)
    → (ssi.tag_index == 5) ≡ false
    → ssi.tag_index ≤ 5
    → Scanned c
        (record ssi { tag_state = tag_leadin })
        (scan_leadin c (record ssi { tag_state = tag_leadin }))
unfolding scan_leadin next
scan_leadin-Scanned c ssi e le = ground arith

pub scan_leadout-Scanned :
    (c : ℕ) (ssi : SsiState)
    → ssi.tag_index ≤ 2
    → completes c ssi ≡ false
    → Scanned c
        (record ssi { tag_state = tag_leadout })
        (scan_leadout c (record ssi { tag_state = tag_leadout }))
unfolding scan_leadout next completes
scan_leadout-Scanned c ssi le e = ground arith

pub scan_found-Scanned :
    (c : ℕ) (ssi : SsiState)
    → ssi.tag_index ≤ length ssi.tag_name
    → Scanned c
        (record ssi { tag_state = tag_found })
        (scan_found c (record ssi { tag_state = tag_found }))
unfolding scan_found next
scan_found-Scanned c ssi le =
    let n = take ssi.tag_index ssi.tag_name in
    let size : length n ≡ ssi.tag_index = omega (arith, length-take ssi.tag_index ssi.tag_name) in
    let size' : length (n ++ c ∷ []) ≡ ssi.tag_index + 1 =
      omega (arith, length-append n (c ∷ [])) in
    ground (arith, take-all (ssi.tag_index + 1) (n ++ c ∷ []) (omega (arith, size')))

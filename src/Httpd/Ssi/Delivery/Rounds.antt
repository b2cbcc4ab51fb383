-- ===== src/Httpd/Ssi/Delivery/Rounds.antt =====
-- The loop of the tag processor and `http_send_data_ssi`.
use scion_lwip_contrib.Base.{
  ℕ, zero, suc, ◌<◌, ◌⊎◌, inl, inr, Bool, true, false, Option, Bytes, ◌++◌, get_or, ◌==◌, ==_iff,
  ◌≡◌, refl, ◌∙◌, Bool-cases, arith,
}
use scion_lwip_contrib.Lwip.{is_ok}
use scion_lwip_contrib.Httpd.Write.{Tcp}
use scion_lwip_contrib.Httpd.Ssi.Scan.{
  TagCheckState, tag_none, tag_leadin, tag_found, tag_leadout, tag_sending, SsiState, completes,
}
use scion_lwip_contrib.Httpd.Ssi.Insert.{SsiHandler, Fits, get_tag_insert}
use scion_lwip_contrib.Httpd.Ssi.Loop.{Sending, ssi_switch, ssi_loop}
use scion_lwip_contrib.Httpd.Ssi.Expand.{ssi_pending, SsiIsValid}
use scion_lwip_contrib.Httpd.Ssi.Expand.Steps.{
  scan_none-Scanned, scan_leadin-Scanned, scan_found-Scanned, scan_leadout-Scanned,
}
use scion_lwip_contrib.Httpd.Ssi.Delivery.{Progress, work}
use scion_lwip_contrib.Httpd.Ssi.Delivery.Scans.{Scanned-Progress}
use scion_lwip_contrib.Httpd.Ssi.Delivery.Tags.{in_state, leadin_end-Progress}
use scion_lwip_contrib.Httpd.Ssi.Delivery.Sends.{tag_send-Progress}
use scion_lwip_contrib.Httpd.Ssi.Delivery.TagText.{tag_complete-Progress}

-- A state that is valid, and the same bytes in all.
pub record Delivers (insert : Bytes → Bytes) (file_data : Bytes) (ssi : SsiState) (s : Sending)
    (ssi' : SsiState) (s' : Sending) : Type 0 where
  pub valid : SsiIsValid file_data s'.file s'.left ssi'
  pub total :
      s'.pcb.sent ++ ssi_pending insert file_data s'.file ssi'
      ≡ s.pcb.sent ++ ssi_pending insert file_data s.file ssi

completes-in_state :
    (c : ℕ) (ssi : SsiState) (st : TagCheckState) → completes c ssi ≡ completes c (in_state ssi st)
unfolding completes
completes-in_state c ssi st = refl

module _ (tcp : Tcp) (handler : Option SsiHandler) (file_data : Bytes) (fits : Fits handler) where
  abbrev Advances : SsiState → Sending → SsiState × Sending → Type 0
  Advances ssi s next = Progress (get_tag_insert handler) file_data ssi s next.0 next.1

  switch_on :
      (st : TagCheckState) (ssi : SsiState) (s : Sending)
      → SsiIsValid file_data s.file s.left (in_state ssi st)
      → 0 < ssi.parse_left
      → 0 < s.len
      → Advances
          (in_state ssi st)
          s
          (ssi_switch st (get_or file_data ssi.parsed 0) tcp handler file_data (in_state ssi st) s)
  unfolding ssi_switch
  switch_on tag_none ssi s valid here pos =
      Scanned-Progress (get_tag_insert handler) file_data (in_state ssi tag_none) s valid here tt _
        (scan_none-Scanned _ ssi)
  switch_on tag_leadin ssi s valid here pos = elim (Bool-cases (ssi.tag_index == 5)) [
    | inl e ↦ leadin_end-Progress (get_tag_insert handler) file_data ssi s _ valid e
    | inr e ↦
        Scanned-Progress (get_tag_insert handler) file_data (in_state ssi tag_leadin) s valid here
          tt _ (scan_leadin-Scanned _ ssi e valid.state_ok)
  ]
  switch_on tag_found ssi s valid here pos =
      Scanned-Progress (get_tag_insert handler) file_data (in_state ssi tag_found) s valid here tt _
        (scan_found-Scanned _ ssi valid.state_ok)
  switch_on tag_leadout ssi s valid here pos =
      let c = get_or file_data ssi.parsed 0 in
      elim (Bool-cases (completes c (in_state ssi tag_leadout))) [
        | inl e ↦ rw e (
            tag_complete-Progress tcp handler file_data ssi s fits valid here pos
              (completes-in_state c ssi tag_leadout ∙ e))
        | inr e ↦ rw e (
            Scanned-Progress (get_tag_insert handler) file_data (in_state ssi tag_leadout) s valid
              here tt _
              (scan_leadout-Scanned c ssi valid.state_ok
                (completes-in_state c ssi tag_leadout ∙ e)))
      ]
  switch_on tag_sending ssi s valid here pos =
      tag_send-Progress tcp (get_tag_insert handler) file_data ssi s valid here pos

  round-Progress :
      (ssi : SsiState) (s : Sending)
      → SsiIsValid file_data s.file s.left ssi
      → 0 < ssi.parse_left
      → 0 < s.len
      → Advances ssi s
          (ssi_switch ssi.tag_state (get_or file_data ssi.parsed 0) tcp handler file_data ssi s)
  round-Progress ssi s = switch_on ssi.tag_state ssi s

  abbrev pub Result : SsiState → Sending → SsiState × Sending → Type 0
  Result ssi s r = Delivers (get_tag_insert handler) file_data ssi s r.0 r.1

  unchanged :
      (ssi : SsiState) (s : Sending)
      → SsiIsValid file_data s.file s.left ssi
      → Result ssi s (ssi, s)
  unchanged ssi s valid = record { valid = valid; total = refl }

  then_Result :
      (ssi : SsiState) (s : Sending) (next end : SsiState × Sending)
      → Advances ssi s next
      → Result next.0 next.1 end
      → Result ssi s end
  then_Result ssi s next end p d = record { valid = d.valid; total = d.total ∙ p.total }

  -- Left by its test: nothing more to parse, or a write that failed.
  abbrev pub Ended : Bool × SsiState × Sending → Type 0
  Ended r = r.0 ≡ true → (r.1.parse_left ≡ 0) ⊎ (is_ok r.2.err ≡ false)

  abbrev pub Looped : SsiState → Sending → Bool × SsiState × Sending → Type 0
  Looped ssi s r = Result ssi s (r.1, r.2) × Ended r

  -- A write that failed ends the loop.
  failed_loop :
      (fuel : ℕ) (ssi : SsiState) (s : Sending)
      → is_ok s.err ≡ false
      → ssi_loop fuel tcp handler file_data ssi s ≡ (true, ssi, s)
  unfolding ssi_loop
  failed_loop zero ssi s e = refl
  failed_loop (suc fuel) ssi s e = elim (Bool-cases (ssi.parse_left == 0)) [
    | inl done ↦ rw done refl
    | inr more ↦ rw (more, e) refl
  ]

  after_round :
      (fuel : ℕ) (ssi : SsiState) (s : Sending) (next : SsiState × Sending)
      → Advances ssi s next
      → (work next.0 next.1.left < fuel
          → Looped next.0 next.1 (ssi_loop fuel tcp handler file_data next.0 next.1))
      → work ssi s.left < suc fuel
      → Looped ssi s (ssi_loop fuel tcp handler file_data next.0 next.1)
  after_round fuel ssi s next p loop enough = elim (Bool-cases (is_ok next.1.err)) [
    | inl fine ↦
        let l = loop (omega (arith, p.less fine)) in
        let r = ssi_loop fuel tcp handler file_data next.0 next.1 in
        (then_Result ssi s next (r.1, r.2) p l.0, l.1)
    | inr failed ↦
        rw (failed_loop fuel next.0 next.1 failed)
          (then_Result ssi s next next p (unchanged next.0 next.1 p.valid), λ e. inr failed)
  ]

  pub ssi_loop-Delivers :
      (fuel : ℕ) (ssi : SsiState) (s : Sending)
      → SsiIsValid file_data s.file s.left ssi
      → work ssi s.left < fuel
      → Looped ssi s (ssi_loop fuel tcp handler file_data ssi s)
  unfolding ssi_loop
  ssi_loop-Delivers zero ssi s valid enough = absurd (omega (arith, enough))
  ssi_loop-Delivers (suc fuel) ssi s valid enough = elim (Bool-cases (ssi.parse_left == 0)) [
    | inl done ↦ rw done (unchanged ssi s valid, λ e. inl ((==_iff ssi.parse_left 0).0 done))
    | inr more ↦ elim (Bool-cases (is_ok s.err)) [
      | inr failed ↦ rw (more, failed) (unchanged ssi s valid, λ e. inr failed)
      | inl fine ↦ elim (Bool-cases (s.len == 0)) [
        | inl full ↦ rw (more, fine, full) (unchanged ssi s valid, λ e. cc)
        | inr room ↦
            let next =
              ssi_switch ssi.tag_state (get_or file_data ssi.parsed 0) tcp handler file_data ssi
                s in
            let p = round-Progress ssi s valid (ground (arith, more)) (ground (arith, room)) in
            rw (more, fine, room)
              (after_round fuel ssi s next p
                (λ small. ssi_loop-Delivers fuel next.0 next.1 p.valid small) enough)
      ]
    ]
  ]

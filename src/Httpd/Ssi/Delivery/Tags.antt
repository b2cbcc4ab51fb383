-- ===== src/Httpd/Ssi/Delivery/Tags.antt =====
-- The rounds that end a tag's lead-in, end a tag, and send its insert.
use scion_lwip_contrib.Base.{
  ℕ, suc, ◌+◌, ◌-◌, ◌≤◌, ◌<◌, Bool, true, Bytes, [], ◌∷◌, ◌++◌, append_assoc, get_or, drop, length,
  ◌==◌, ne→==_false, if◌then◌else◌, ◌≡◌, refl, sym, ap, ◌∙◌, arith,
}
use scion_lwip_contrib.Httpd.Ssi.Scan.{
  TagCheckState, tag_leadin, tag_leadout, tag_sending, SsiState, scan_leadin, completes,
}
use scion_lwip_contrib.Httpd.Ssi.Insert.{max_tag_insert_len}
use scion_lwip_contrib.Httpd.Ssi.Loop.{Sending}
use scion_lwip_contrib.Httpd.Ssi.Expand.{
  Scanner, ssi_pending, insert_pending, SsiIsValid, slice, expand, inserted, resume, next,
}
use scion_lwip_contrib.Httpd.Ssi.Expand.Slices.{length-drop_at}
use scion_lwip_contrib.Httpd.Ssi.Delivery.{Progress, work}
use scion_lwip_contrib.Httpd.Ssi.Delivery.Scans.{pending-char, slice-char}

abbrev pub in_state : SsiState → TagCheckState → SsiState
in_state ssi st = record ssi { tag_state = st }

-- The lead-in is complete; the character is not consumed.
pub leadin_end-Progress :
    (insert : Bytes → Bytes) (file_data : Bytes) (ssi : SsiState) (s : Sending) (c : ℕ)
    → SsiIsValid file_data s.file s.left (in_state ssi tag_leadin)
    → (ssi.tag_index == 5) ≡ true
    → Progress insert file_data
        (in_state ssi tag_leadin)
        s
        (scan_leadin c (in_state ssi tag_leadin))
        s
unfolding ssi_pending work scan_leadin
leadin_end-Progress insert file_data ssi s c valid e = rw e (record {
  valid = record {
    file_left = valid.file_left;
    parsed_left = valid.parsed_left;
    sent_parsed = valid.sent_parsed;
    state_ok = omega arith;
    end_ok = tt;
    insert_ok = valid.insert_ok;
  };
  total =
      ap
        (λ (b : Bool).
          s.pcb.sent
          ++ (slice file_data s.file ssi.parsed
              ++ expand insert (if b then Scanner.name [] else Scanner.lead_in ssi.tag_index)
                  (drop ssi.parsed file_data)))
        (sym e);
  less = λ ok. ground (arith, e);
})

next-completes :
    (c : ℕ) (ssi : SsiState)
    → completes c ssi ≡ true
    → next (Scanner.lead_out ssi.tag_index ssi.tag_name) c ≡ Scanner.complete ssi.tag_name
unfolding next completes
next-completes c ssi e = ground arith

inserted-complete :
    (insert : Bytes → Bytes) (n cs : Bytes)
    → inserted insert (Scanner.complete n) cs ≡ (if length cs == 0 then [] else insert n)
unfolding inserted
inserted-complete insert n [] = refl
inserted-complete insert n (c ∷ cs) = sym (
    ap (λ (b : Bool). if b then [] else insert n)
      (ne→==_false (suc (length cs)) 0 (λ e. omega (arith, e))))

-- The file's text behind a tag is to come after the insert.
expand_complete :
    (insert : Bytes → Bytes) (c : ℕ) (ssi : SsiState) (cs : Bytes)
    → completes c ssi ≡ true
    → expand insert (Scanner.lead_out ssi.tag_index ssi.tag_name) (c ∷ cs)
      ≡ c ∷ ((if length cs == 0 then [] else insert ssi.tag_name) ++ expand insert Scanner.text cs)
unfolding expand
expand_complete insert c ssi cs e =
    ap (λ (s : Scanner). c ∷ (inserted insert s cs ++ expand insert (resume s) cs))
      (next-completes c ssi e)
    ∙ ap (λ (t : Bytes). c ∷ (t ++ expand insert Scanner.text cs))
        (inserted-complete insert ssi.tag_name cs)

-- The state at the end of a tag, before the write.
abbrev pub tag_ended : (Bytes → Bytes) → SsiState → SsiState
tag_ended insert ssi = record ssi {
  parsed = ssi.parsed + 1;
  parse_left = ssi.parse_left - 1;
  tag_insert = insert ssi.tag_name;
  tag_index = 0;
  tag_state = tag_sending;
  tag_end = ssi.parsed + 1;
}

module _ (insert : Bytes → Bytes) (file_data : Bytes) (ssi : SsiState) (s : Sending)
    (valid : SsiIsValid file_data s.file s.left (in_state ssi tag_leadout))
    (here : 0 < ssi.parse_left) (done : completes (get_or file_data ssi.parsed 0) ssi ≡ true) where
  pub tag_ended-pending :
      ssi_pending insert file_data s.file (tag_ended insert ssi)
      ≡ ssi_pending insert file_data s.file (in_state ssi tag_leadout)
  unfolding ssi_pending insert_pending
  tag_ended-pending =
      let c = get_or file_data ssi.parsed 0 in
      let rest = drop (ssi.parsed + 1) file_data in
      let before = slice file_data s.file ssi.parsed in
      let size : length rest ≡ ssi.parse_left - 1 = omega (
        arith,
        length-drop_at (ssi.parsed + 1) file_data (omega (arith, valid.parsed_left)),
        valid.parsed_left,
      ) in
      let page = λ (k : ℕ).
        (if k == 0 then [] else insert ssi.tag_name) ++ expand insert Scanner.text rest in
      ap (λ (k : ℕ). slice file_data s.file (ssi.parsed + 1) ++ page k) (sym size)
      ∙ ap (λ (t : Bytes). t ++ page (length rest))
          (slice-char insert file_data (in_state ssi tag_leadout) s valid here tt)
      ∙ append_assoc before (c ∷ []) (page (length rest))
      ∙ ap (◌++◌ before) (sym (expand_complete insert c ssi rest done))
      ∙ sym (pending-char insert file_data (in_state ssi tag_leadout) s valid here tt)

  pub tag_ended-SsiIsValid :
      ((n : Bytes) → length (insert n) ≤ max_tag_insert_len)
      → SsiIsValid file_data s.file s.left (tag_ended insert ssi)
  tag_ended-SsiIsValid fits = record {
    file_left = valid.file_left;
    parsed_left = omega (arith, valid.parsed_left, here);
    sent_parsed = omega (arith, valid.sent_parsed);
    state_ok = tt;
    end_ok = refl;
    insert_ok = fits ssi.tag_name;
  }

  pub tag_ended-work :
      (left : ℕ)
      → ((n : Bytes) → length (insert n) ≤ max_tag_insert_len)
      → left ≤ s.left
      → work (tag_ended insert ssi) left < work (in_state ssi tag_leadout) s.left
  unfolding work
  tag_ended-work left fits le = omega (arith, fits ssi.tag_name, here, le)

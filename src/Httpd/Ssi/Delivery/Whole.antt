-- ===== src/Httpd/Ssi/Delivery/Whole.antt =====
-- `http_send_data_ssi` around the loop.
use scion_lwip_contrib.Base.{
  ℕ, ◌-◌, ◌≤◌, ◌<◌, ◌⊎◌, inl, inr, Bool, true, false, not, ◌&&◌, Option, Bytes, [], ◌++◌,
  append_assoc, drop, length, drop-all, ◌==◌, ltb, if◌then◌else◌, ◌≡◌, refl, sym, ap, ◌∙◌,
  Bool-cases, arith,
}
use scion_lwip_contrib.Lwip.{is_ok}
use scion_lwip_contrib.Httpd.Write.{Tcp, Pcb}
use scion_lwip_contrib.Httpd.Ssi.Scan.{
  TagCheckState, tag_none, tag_leadin, tag_found, tag_leadout, tag_sending, SsiState,
}
use scion_lwip_contrib.Httpd.Ssi.Insert.{SsiHandler, Fits, get_tag_insert}
use scion_lwip_contrib.Httpd.Ssi.Loop.{
  Sending, send_file, send_len, ssi_loop, ssi_fuel, send_parsed, after_loop, is_sending,
  parse_and_send, http_send_data_ssi,
}
use scion_lwip_contrib.Httpd.Ssi.Loop.FileSent.{
  FileSent, send_file-FileSent, FileSent-slice, FileSent-position,
}
use scion_lwip_contrib.Httpd.Ssi.Expand.{
  ssi_pending, insert_pending, EndOk, Scanner, SsiIsValid, slice, expand, scanner,
}
use scion_lwip_contrib.Httpd.Ssi.Expand.Slices.{ssi_pending-scanning, slice-same}
use scion_lwip_contrib.Httpd.Ssi.Delivery.{work, work-lt}
use scion_lwip_contrib.Httpd.Ssi.Delivery.Rounds.{Delivers, ssi_loop-Delivers}
use scion_lwip_contrib.Httpd.Ssi.Delivery.Tags.{in_state}

-- What is to come behind the parsed text.
abbrev behind_in : TagCheckState → (Bytes → Bytes) → Bytes → SsiState → Bytes
behind_in tag_sending insert file_data ssi =
    insert_pending ssi ++ expand insert Scanner.text (drop ssi.parsed file_data)
behind_in _ insert file_data ssi = expand insert (scanner ssi) (drop ssi.parsed file_data)

abbrev behind : (Bytes → Bytes) → Bytes → SsiState → Bytes
behind insert file_data ssi = behind_in ssi.tag_state insert file_data ssi

sending_behind :
    (insert : Bytes → Bytes) (file_data : Bytes) (file : ℕ) (ssi : SsiState)
    → ssi.tag_end ≡ ssi.parsed
    → ssi_pending insert file_data file (in_state ssi tag_sending)
      ≡ slice file_data file ssi.parsed ++ behind insert file_data (in_state ssi tag_sending)
unfolding ssi_pending
sending_behind insert file_data file ssi e =
    ap (λ (k : ℕ). slice file_data file k ++ behind insert file_data (in_state ssi tag_sending)) e

pending-behind :
    (insert : Bytes → Bytes) (file_data : Bytes) (file : ℕ) (ssi : SsiState)
    → EndOk ssi.tag_state ssi.tag_end ssi.parsed
    → ssi_pending insert file_data file ssi
      ≡ slice file_data file ssi.parsed ++ behind insert file_data ssi
pending-behind insert file_data file ssi end_ok = by_state ssi.tag_state end_ok
  where
    by_state :
        (st : TagCheckState)
        → EndOk st ssi.tag_end ssi.parsed
        → ssi_pending insert file_data file (in_state ssi st)
          ≡ slice file_data file ssi.parsed ++ behind insert file_data (in_state ssi st)
    by_state tag_none e = ssi_pending-scanning insert file_data file (in_state ssi tag_none) tt
    by_state tag_leadin e = ssi_pending-scanning insert file_data file (in_state ssi tag_leadin) tt
    by_state tag_found e = ssi_pending-scanning insert file_data file (in_state ssi tag_found) tt
    by_state tag_leadout e =
        ssi_pending-scanning insert file_data file (in_state ssi tag_leadout) tt
    by_state tag_sending e = sending_behind insert file_data file ssi e

-- A write of parsed text.
parsed_sent-Delivers :
    (insert : Bytes → Bytes) (file_data : Bytes) (ssi : SsiState) (s s' : Sending) (n : ℕ)
    → SsiIsValid file_data s.file s.left ssi
    → FileSent file_data n s s'
    → n ≤ ssi.parsed - s.file
    → Delivers insert file_data ssi s ssi s'
parsed_sent-Delivers insert file_data ssi s s' n valid sent before =
    let rest = behind insert file_data ssi in
    let p =
      FileSent-position file_data n ssi.parsed s s' sent before valid.sent_parsed
        (omega (arith, valid.file_left, valid.parsed_left)) in
    record {
      valid = record {
        file_left = p.0 ∙ valid.file_left;
        parsed_left = valid.parsed_left;
        sent_parsed = p.1;
        state_ok = valid.state_ok;
        end_ok = valid.end_ok;
        insert_ok = valid.insert_ok;
      };
      total =
          ap (◌++◌ s'.pcb.sent) (pending-behind insert file_data s'.file ssi valid.end_ok)
          ∙ sym (append_assoc s'.pcb.sent (slice file_data s'.file ssi.parsed) rest)
          ∙ ap (λ (t : Bytes). t ++ rest) (FileSent-slice file_data n ssi.parsed s s' sent before)
          ∙ append_assoc s.pcb.sent (slice file_data s.file ssi.parsed) rest
          ∙ ap (◌++◌ s.pcb.sent) (sym (pending-behind insert file_data s.file ssi valid.end_ok));
    }

pub send_len-le : (tcp : Tcp) (pcb : Pcb) (n : ℕ) → send_len tcp pcb n ≤ n
unfolding send_len
send_len-le tcp pcb n = ground arith

send_parsed-Delivers :
    (tcp : Tcp) (insert : Bytes → Bytes) (file_data : Bytes) (ssi : SsiState) (s : Sending)
    → SsiIsValid file_data s.file s.left ssi
    → Delivers insert file_data ssi s ssi (send_parsed tcp file_data ssi s)
unfolding send_parsed
send_parsed-Delivers tcp insert file_data ssi s valid =
    let n = send_len tcp s.pcb (ssi.parsed - s.file) in
    parsed_sent-Delivers insert file_data ssi s (send_file tcp file_data n s) n valid
      (send_file-FileSent tcp file_data n s) (send_len-le tcp s.pcb (ssi.parsed - s.file))

Delivers-refl :
    (insert : Bytes → Bytes) (file_data : Bytes) (ssi : SsiState) (s : Sending)
    → SsiIsValid file_data s.file s.left ssi
    → Delivers insert file_data ssi s ssi s
Delivers-refl insert file_data ssi s valid = record { valid = valid; total = refl }

Delivers-trans :
    (insert : Bytes → Bytes) (file_data : Bytes) (a b c : SsiState) (s t u : Sending)
    → Delivers insert file_data a s b t
    → Delivers insert file_data b t c u
    → Delivers insert file_data a s c u
Delivers-trans insert file_data a b c s t u p q = record {
  valid = q.valid;
  total = q.total ∙ p.total;
}

work-lt-ssi_fuel : (ssi : SsiState) (s : Sending) → work ssi s.left < ssi_fuel ssi s
unfolding ssi_fuel work
work-lt-ssi_fuel ssi s = work-lt ssi.tag_state ssi s.left

-- From a valid state and with a handler that keeps to its length, the loop of the tag processor ends within the
-- fuel that it is given: it is left by its `return`, with no more room to send, or by its condition,
-- with nothing more to parse or after a write that failed.
pub ssi_loop-ends :
    (tcp : Tcp) (handler : Option SsiHandler) (file_data : Bytes) (ssi : SsiState) (s : Sending)
    → Fits handler
    → SsiIsValid file_data s.file s.left ssi
    → (ssi_loop (ssi_fuel ssi s) tcp handler file_data ssi s).0 ≡ true
    → ((ssi_loop (ssi_fuel ssi s) tcp handler file_data ssi s).1.parse_left ≡ 0)
      ⊎ (is_ok (ssi_loop (ssi_fuel ssi s) tcp handler file_data ssi s).2.err ≡ false)
ssi_loop-ends tcp handler file_data ssi s fits valid =
    (ssi_loop-Delivers tcp handler file_data fits (ssi_fuel ssi s) ssi s valid
      (work-lt-ssi_fuel ssi s)).1

after_loop-Delivers :
    (tcp : Tcp) (insert : Bytes → Bytes) (file_data : Bytes) (go_on : Bool) (ssi : SsiState)
    (s : Sending)
    → SsiIsValid file_data s.file s.left ssi
    → Delivers insert file_data ssi s
        (after_loop tcp file_data (go_on, ssi, s)).0
        (after_loop tcp file_data (go_on, ssi, s)).1
unfolding after_loop
after_loop-Delivers tcp insert file_data false ssi s valid =
    Delivers-refl insert file_data ssi s valid
after_loop-Delivers tcp insert file_data true ssi s valid =
    elim (Bool-cases (not (is_sending ssi.tag_state) && ltb s.file ssi.parsed)) [
      | inl e ↦ rw e (send_parsed-Delivers tcp insert file_data ssi s valid)
      | inr e ↦ rw e (Delivers-refl insert file_data ssi s valid)
    ]

parse_and_send-Delivers :
    (tcp : Tcp) (handler : Option SsiHandler) (file_data : Bytes) (ssi : SsiState) (s : Sending)
    → Fits handler
    → SsiIsValid file_data s.file s.left ssi
    → Delivers
        (get_tag_insert handler)
        file_data
        ssi
        s
        (parse_and_send tcp handler file_data ssi s).0
        (parse_and_send tcp handler file_data ssi s).1
unfolding parse_and_send
parse_and_send-Delivers tcp handler file_data ssi s fits valid =
    let r = ssi_loop (ssi_fuel ssi s) tcp handler file_data ssi s in
    let l =
      (ssi_loop-Delivers tcp handler file_data fits (ssi_fuel ssi s) ssi s valid
        (work-lt-ssi_fuel ssi s)).0 in
    let e = after_loop tcp file_data (r.0, r.1, r.2) in
    Delivers-trans (get_tag_insert handler) file_data ssi r.1 e.0 s r.2 e.1 l
      (after_loop-Delivers tcp (get_tag_insert handler) file_data r.0 r.1 r.2 l.valid)

-- The length that a routine starts with is nothing that is sent.
Delivers-len :
    (insert : Bytes → Bytes) (file_data : Bytes) (ssi ssi' : SsiState) (s s' : Sending) (len : ℕ)
    → Delivers insert file_data ssi (record s { len = len }) ssi' s'
    → Delivers insert file_data ssi s ssi' s'
Delivers-len insert file_data ssi ssi' s s' len d = record { valid = d.valid; total = d.total }

pub http_send_data_ssi-Delivers :
    (tcp : Tcp) (handler : Option SsiHandler) (file_data : Bytes) (ssi : SsiState) (s : Sending)
    → Fits handler
    → SsiIsValid file_data s.file s.left ssi
    → Delivers
        (get_tag_insert handler)
        file_data
        ssi
        s
        (http_send_data_ssi tcp handler file_data ssi s).0
        (http_send_data_ssi tcp handler file_data ssi s).1
unfolding http_send_data_ssi
http_send_data_ssi-Delivers tcp handler file_data ssi s fits valid =
    let insert = get_tag_insert handler in
    elim (Bool-cases (ltb s.file ssi.parsed)) [
      | inl more ↦
          let s' = send_parsed tcp file_data ssi s in
          let first = send_parsed-Delivers tcp insert file_data ssi s valid in
          rw more (elim (Bool-cases (tcp.sndbuf s'.pcb.writes == 0)) [
            | inl full ↦ rw full first
            | inr room ↦
                let r = parse_and_send tcp handler file_data ssi s' in
                rw room (
                  Delivers-trans insert file_data ssi ssi r.0 s s' r.1 first
                    (parse_and_send-Delivers tcp handler file_data ssi s' fits first.valid))
          ])
      | inr none_left ↦
          let s' = record s { len = tcp.sndbuf s.pcb.writes } in
          let r = parse_and_send tcp handler file_data ssi s' in
          rw none_left (
            Delivers-len insert file_data ssi r.0 s r.1 s'.len
              (parse_and_send-Delivers tcp handler file_data ssi s' fits valid))
    ]

behind-end :
    (insert : Bytes → Bytes) (file_data : Bytes) (st : TagCheckState) (ssi : SsiState)
    → ssi.parse_left ≡ 0
    → drop ssi.parsed file_data ≡ []
    → behind insert file_data (in_state ssi st) ≡ []
unfolding expand insert_pending
behind-end insert file_data tag_none ssi z e = rw e refl
behind-end insert file_data tag_leadin ssi z e = rw e refl
behind-end insert file_data tag_found ssi z e = rw e refl
behind-end insert file_data tag_leadout ssi z e = rw e refl
behind-end insert file_data tag_sending ssi z e =
    rw e (ap (λ (k : ℕ). (if k == 0 then [] else drop ssi.tag_index ssi.tag_insert) ++ []) z)

-- When the file is sent up to its end, nothing is to come.
pub ssi_pending-end :
    (insert : Bytes → Bytes) (file_data : Bytes) (file left : ℕ) (ssi : SsiState)
    → SsiIsValid file_data file left ssi
    → left ≡ 0
    → ssi_pending insert file_data file ssi ≡ []
ssi_pending-end insert file_data file left ssi valid e =
    let nothing : ssi.parse_left ≡ 0 =
      omega (arith, e, valid.file_left, valid.parsed_left, valid.sent_parsed) in
    let all : ssi.parsed ≡ length file_data = omega (arith, nothing, valid.parsed_left) in
    let same : file ≡ ssi.parsed = omega (arith, all, e, valid.file_left) in
    pending-behind insert file_data file ssi valid.end_ok
    ∙ ap (λ (t : Bytes). t ++ behind insert file_data ssi)
        (ap (λ (k : ℕ). slice file_data k ssi.parsed) same ∙ slice-same file_data ssi.parsed)
    ∙ behind-end insert file_data ssi.tag_state ssi nothing
        (drop-all ssi.parsed file_data (omega (arith, all)))

-- ===== src/Httpd/Headers/Sent.antt =====
-- The headers go out in order, whatever the lengths that TCP accepts.
use native.Mathlib.Numerals.{unary_clauses}
use scion_lwip_contrib.Base.{
  ℕ, zero, suc, ◌+◌, ◌-◌, ◌≤◌, ◌<◌, ◌⊎◌, inl, inr, true, List, [], ◌∷◌, ◌++◌, append_assoc,
  append-nil, Bytes, length, get_or, take, drop, take-append-drop, drop-all, drop-drop, ◌==◌,
  ==_iff, if◌then◌else◌, ◌≡◌, refl, sym, ap, ◌∙◌, Bool-cases, arith,
}
use scion_lwip_contrib.Httpd.Write.{Tcp, Pcb, Written, http_write}
use scion_lwip_contrib.Httpd.Write.Prefix.{Wrote, http_write-Wrote}
use scion_lwip_contrib.Httpd.State.{HttpState, num_file_hdr_strings}
use scion_lwip_contrib.Httpd.Headers.{
  DataToSend, HeaderLoop, current, header_len, move_on, after_header, header_round, header_goes_on,
  header_loop, start_headers, http_send_headers,
}

abbrev pub concat : List Bytes → Bytes
concat [] = []
concat (h ∷ hs) = h ++ concat hs

-- The bytes of the headers from a position in the first of them on.
abbrev pub from_header : ℕ → List Bytes → Bytes
from_header pos [] = []
from_header pos (h ∷ hs) = drop pos h ++ concat hs

-- What is still to be sent of the headers.
abbrev pub headers_pending : List Bytes → ℕ → ℕ → Bytes
headers_pending hdrs hdr_index hdr_pos = from_header hdr_pos (drop hdr_index hdrs)

-- The positions are within the headers.
pub record HeadersOk (hdrs : List Bytes) (hdr_index hdr_pos : ℕ) : Type 0 where
  pub three : (length hdrs ≡ num_file_hdr_strings) ⊎ (hdr_index ≡ num_file_hdr_strings)
  pub at_most : length hdrs ≤ num_file_hdr_strings
  pub index_ok : hdr_index ≤ num_file_hdr_strings
  pub pos_ok : hdr_pos ≤ length (get_or hdrs hdr_index [])

drop-cons : (k : ℕ) (hs : List Bytes) → k < length hs → drop k hs ≡ get_or hs k [] ∷ drop (k + 1) hs
drop-cons k [] h = absurd (omega (arith, h))
drop-cons zero (x ∷ hs) h = refl
drop-cons (suc k) (x ∷ hs) h =
    simp unary_clauses (simp unary_clauses at (drop-cons k hs (omega (arith, h))))

from_start : (hs : List Bytes) → from_header 0 hs ≡ concat hs
from_start [] = refl
from_start (h ∷ hs) = refl

-- A part of the current header is sent: to its end, and on to the next one, or not.
module _ (hdrs : List Bytes) (l : HeaderLoop) (n : ℕ) (ok : HeadersOk hdrs l.hdr_index l.hdr_pos)
    (more : l.hdr_index < num_file_hdr_strings)
    (fits : n ≤ length (current hdrs l) - l.hdr_pos) where
  abbrev rest : Bytes
  rest = concat (drop (l.hdr_index + 1) hdrs)

  abbrev unsent : Bytes
  unsent = drop l.hdr_pos (current hdrs l)

  at_position : (pos : ℕ) → headers_pending hdrs l.hdr_index pos ≡ drop pos (current hdrs l) ++ rest
  at_position pos = ap (from_header pos) (drop-cons l.hdr_index hdrs (enough ok.three))
    where
      enough :
          (length hdrs ≡ num_file_hdr_strings) ⊎ (l.hdr_index ≡ num_file_hdr_strings)
          → l.hdr_index < length hdrs
      enough (inl e) = omega arith
      enough (inr e) = absurd (omega arith)

  sent_part : take n unsent ++ drop (l.hdr_pos + n) (current hdrs l) ≡ unsent
  sent_part =
      ap (◌++◌ (take n unsent)) (sym (drop-drop l.hdr_pos n (current hdrs l)))
      ∙ take-append-drop n unsent

  sent_all : (l.hdr_pos + n == length (current hdrs l)) ≡ true → take n unsent ≡ unsent
  sent_all e =
      sym (append-nil (take n unsent))
      ∙ ap (◌++◌ (take n unsent))
          (sym (drop-all (l.hdr_pos + n) (current hdrs l) (omega (arith, (==_iff _ _).0 e))))
      ∙ sent_part

  pub move_on-pending :
      take n unsent ++ headers_pending hdrs (move_on hdrs l n).hdr_index (move_on hdrs l n).hdr_pos
      ≡ headers_pending hdrs l.hdr_index l.hdr_pos
  unfolding move_on
  move_on-pending = elim (Bool-cases (l.hdr_pos + n == length (current hdrs l))) [
    | inl e ↦ rw e (
        ap (◌++◌ (take n unsent)) (from_start (drop (l.hdr_index + 1) hdrs))
        ∙ ap (λ (t : Bytes). t ++ rest) (sent_all e)
        ∙ sym (at_position l.hdr_pos))
    | inr e ↦ rw e (
        ap (◌++◌ (take n unsent)) (at_position (l.hdr_pos + n))
        ∙ sym (append_assoc (take n unsent) (drop (l.hdr_pos + n) (current hdrs l)) rest)
        ∙ ap (λ (t : Bytes). t ++ rest) sent_part
        ∙ sym (at_position l.hdr_pos))
  ]

  pub move_on-HeadersOk : HeadersOk hdrs (move_on hdrs l n).hdr_index (move_on hdrs l n).hdr_pos
  unfolding move_on
  move_on-HeadersOk = elim (Bool-cases (l.hdr_pos + n == length (current hdrs l))) [
    | inl e ↦ rw e (record {
      three = three;
      at_most = ok.at_most;
      index_ok = omega (arith, more);
      pos_ok = omega arith;
    })
    | inr e ↦ rw e (record {
      three = ok.three;
      at_most = ok.at_most;
      index_ok = ok.index_ok;
      pos_ok = omega (arith, fits, ok.pos_ok);
    })
  ]
    where
      three : (length hdrs ≡ num_file_hdr_strings) ⊎ (l.hdr_index + 1 ≡ num_file_hdr_strings)
      three = elim ok.three [ inl e ↦ inl e | inr e ↦ absurd (omega (arith, e, more)) ]

-- What a stretch of the loop keeps: the bytes sent with those still to be sent.
pub record HeadersSent (hdrs : List Bytes) (l l' : HeaderLoop) : Type 0 where
  pub valid : HeadersOk hdrs l'.hdr_index l'.hdr_pos
  pub total :
      l'.pcb.sent ++ headers_pending hdrs l'.hdr_index l'.hdr_pos
      ≡ l.pcb.sent ++ headers_pending hdrs l.hdr_index l.hdr_pos

after_header-HeadersSent :
    (hdrs : List Bytes) (l : HeaderLoop) (n : ℕ) (w : Written)
    → HeadersOk hdrs l.hdr_index l.hdr_pos
    → l.hdr_index < num_file_hdr_strings
    → n ≤ length (current hdrs l) - l.hdr_pos
    → Wrote l.pcb (drop l.hdr_pos (current hdrs l)) n w
    → HeadersSent hdrs l (after_header hdrs l n w)
unfolding after_header move_on
after_header-HeadersSent hdrs l n w ok more fits (inl h) =
    let l' = record l {
      pcb = w.pcb;
      data_to_send = if w.len == n then l.data_to_send else DataToSend.data_to_send_continue;
    } in
    rw h.0 (record {
      valid = move_on-HeadersOk hdrs l' w.len ok more (omega (arith, h.1, fits));
      total =
          ap
            (λ (t : Bytes).
              t
              ++ headers_pending hdrs (move_on hdrs l' w.len).hdr_index
                  (move_on hdrs l' w.len).hdr_pos)
            h.2
          ∙ append_assoc l.pcb.sent (take w.len (drop l.hdr_pos (current hdrs l))) (
              headers_pending hdrs (move_on hdrs l' w.len).hdr_index
                (move_on hdrs l' w.len).hdr_pos)
          ∙ ap (◌++◌ l.pcb.sent) (move_on-pending hdrs l' w.len ok more (omega (arith, h.1, fits)));
    })
after_header-HeadersSent hdrs l n w ok more fits (inr h) =
    let l' = record l { pcb = w.pcb } in
    rw h.0 (record {
      valid = move_on-HeadersOk hdrs l' 0 ok more (omega arith);
      total =
          ap
            (λ (t : Bytes).
              t ++ headers_pending hdrs (move_on hdrs l' 0).hdr_index (move_on hdrs l' 0).hdr_pos)
            h.1
          ∙ ap (◌++◌ l.pcb.sent) (move_on-pending hdrs l' 0 ok more (omega arith));
    })

header_len-le :
    (hdrs : List Bytes) (l : HeaderLoop) → header_len hdrs l ≤ length (current hdrs l) - l.hdr_pos
unfolding header_len
header_len-le hdrs l = ground arith

header_round-HeadersSent :
    (tcp : Tcp) (hdrs : List Bytes) (l : HeaderLoop)
    → HeadersOk hdrs l.hdr_index l.hdr_pos
    → l.hdr_index < num_file_hdr_strings
    → HeadersSent hdrs l (header_round tcp hdrs l)
unfolding header_round
header_round-HeadersSent tcp hdrs l ok more =
    after_header-HeadersSent hdrs l (header_len hdrs l)
      (http_write tcp l.pcb (drop l.hdr_pos (current hdrs l)) (header_len hdrs l)) ok more
      (header_len-le hdrs l)
      (http_write-Wrote tcp l.pcb (drop l.hdr_pos (current hdrs l)) (header_len hdrs l))

goes_on-index : (l : HeaderLoop) → header_goes_on l ≡ true → l.hdr_index < num_file_hdr_strings
unfolding header_goes_on
goes_on-index l e = ground arith

header_loop-HeadersSent :
    (fuel : ℕ) (tcp : Tcp) (hdrs : List Bytes) (l : HeaderLoop)
    → HeadersOk hdrs l.hdr_index l.hdr_pos
    → HeadersSent hdrs l (header_loop fuel tcp hdrs l)
unfolding header_loop
header_loop-HeadersSent zero tcp hdrs l ok = record { valid = ok; total = refl }
header_loop-HeadersSent (suc fuel) tcp hdrs l ok = elim (Bool-cases (header_goes_on l)) [
  | inl more ↦
      let now = header_round-HeadersSent tcp hdrs l ok (goes_on-index l more) in
      let later = header_loop-HeadersSent fuel tcp hdrs (header_round tcp hdrs l) now.valid in
      rw more (record { valid = later.valid; total = later.total ∙ now.total })
  | inr done ↦ rw done (record { valid = ok; total = refl })
]

pub http_send_headers-HeadersSent :
    (tcp : Tcp) (pcb : Pcb) (hs : HttpState)
    → HeadersOk hs.hdrs hs.hdr_index hs.hdr_pos
    → HeadersSent hs.hdrs (start_headers tcp pcb hs) (http_send_headers tcp pcb hs)
unfolding http_send_headers
http_send_headers-HeadersSent tcp pcb hs ok =
    header_loop-HeadersSent (tcp.sndbuf pcb.writes + 1) tcp hs.hdrs (start_headers tcp pcb hs) ok

-- Behind the last header, nothing of them is to come.
pub headers_pending-end :
    (hdrs : List Bytes) (hdr_index hdr_pos : ℕ)
    → HeadersOk hdrs hdr_index hdr_pos
    → hdr_index ≡ num_file_hdr_strings
    → headers_pending hdrs hdr_index hdr_pos ≡ []
headers_pending-end hdrs hdr_index hdr_pos ok e =
    ap (from_header hdr_pos) (drop-all hdr_index hdrs (omega (arith, ok.at_most, e)))

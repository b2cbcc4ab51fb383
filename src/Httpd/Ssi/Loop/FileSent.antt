-- ===== src/Httpd/Ssi/Loop/FileSent.antt =====
-- What one write of file data does to the position in the file and to the connection.
use scion_lwip_contrib.Base.{
  ℕ, ◌+◌, ◌-◌, ◌≤◌, ◌<◌, ◌⊎◌, inl, inr, true, false, Bytes, ◌++◌, append_assoc, take, drop, ◌≡◌,
  refl, ap, ◌∙◌, arith,
}
use scion_lwip_contrib.Lwip.{is_ok}
use scion_lwip_contrib.Httpd.Write.{Tcp, Written, http_write}
use scion_lwip_contrib.Httpd.Write.Prefix.{Wrote, http_write-Wrote}
use scion_lwip_contrib.Httpd.Ssi.Loop.{Sending, after_write, send_file}
use scion_lwip_contrib.Httpd.Ssi.Expand.{slice}
use scion_lwip_contrib.Httpd.Ssi.Expand.Slices.{slice-sent}

abbrev pub FileSent : Bytes → ℕ → Sending → Sending → Type 0
FileSent file_data n s s' =
    (is_ok s'.err ≡ true)
      × (s'.len ≤ n)
      × (s'.file ≡ s.file + s'.len)
      × (s'.left ≡ s.left - s'.len)
      × (s'.pcb.sent ≡ s.pcb.sent ++ take s'.len (drop s.file file_data))
      × (0 < n → 0 < s'.len)
    ⊎ (is_ok s'.err ≡ false) × (s'.file ≡ s.file) × (s'.left ≡ s.left) × (s'.pcb.sent ≡ s.pcb.sent)

after_write-FileSent :
    (file_data : Bytes) (n : ℕ) (s : Sending) (w : Written)
    → Wrote s.pcb (drop s.file file_data) n w
    → FileSent file_data n s (after_write s w)
unfolding after_write
after_write-FileSent file_data n s w (inl h) = rw h.0 (inl (h.0, h.1, refl, refl, h.2, h.3))
after_write-FileSent file_data n s w (inr h) = rw h.0 (inr (h.0, refl, refl, h.1))

pub send_file-FileSent :
    (tcp : Tcp) (file_data : Bytes) (n : ℕ) (s : Sending)
    → FileSent file_data n s (send_file tcp file_data n s)
unfolding send_file
send_file-FileSent tcp file_data n s =
    after_write-FileSent file_data n s (http_write tcp s.pcb (drop s.file file_data) n)
      (http_write-Wrote tcp s.pcb (drop s.file file_data) n)

-- Up to any position that the write does not pass, what was sent with what is left stays the same.
pub FileSent-slice :
    (file_data : Bytes) (n b : ℕ) (s s' : Sending)
    → FileSent file_data n s s'
    → n ≤ b - s.file
    → s'.pcb.sent ++ slice file_data s'.file b ≡ s.pcb.sent ++ slice file_data s.file b
FileSent-slice file_data n b s s' (inl h) le =
    ap (λ (t : Bytes). t ++ slice file_data s'.file b) h.4
    ∙ append_assoc s.pcb.sent (take s'.len (drop s.file file_data)) (slice file_data s'.file b)
    ∙ ap (λ (k : ℕ). s.pcb.sent ++ (take s'.len (drop s.file file_data) ++ slice file_data k b)) h.2
    ∙ ap (◌++◌ s.pcb.sent) (slice-sent file_data s.file s'.len b (omega (arith, h.1)))
FileSent-slice file_data n b s s' (inr h) le =
    ap (λ (t : Bytes). t ++ slice file_data s'.file b) h.3
    ∙ ap (λ (k : ℕ). s.pcb.sent ++ slice file_data k b) h.1

-- The positions that follow.
pub FileSent-position :
    (file_data : Bytes) (n b : ℕ) (s s' : Sending)
    → FileSent file_data n s s'
    → n ≤ b - s.file
    → s.file ≤ b
    → b ≤ s.file + s.left
    → (s'.file + s'.left ≡ s.file + s.left)
      × (s'.file ≤ b)
      × (is_ok s'.err ≡ true → 0 < n → s'.left < s.left)
FileSent-position file_data n b s s' (inl h) le here more = (
  omega (arith, h.1, h.2, h.3),
  omega (arith, h.1, h.2),
  λ ok pos. omega (arith, h.1, h.3, h.5 pos),
)
FileSent-position file_data n b s s' (inr h) le here more =
    (omega (arith, h.1, h.2), omega (arith, h.1), λ ok pos. cc)

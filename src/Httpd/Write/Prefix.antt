-- ===== src/Httpd/Write/Prefix.antt =====
-- What `http_write` puts on the connection.
use scion_lwip_contrib.Base.{
  ℕ, zero, suc, ◌+◌, ◌≤◌, ◌<◌, true, false, ◌||◌, ◌⊎◌, inl, inr, ◌≢◌, Bytes, take, ◌++◌, ◌==◌, ltb,
  ltb→lt, Bool-cases, ◌≡◌, refl, ◌∙◌, ap, ltb_false→le, ne→==_false, append-nil, sym, arith,
}
use scion_lwip_contrib.Lwip.{Err, is_ok}
use scion_lwip_contrib.Httpd.Write.{
  Tcp, Pcb, Written, is_mem, finish_write, write_once, write_loop, http_write,
}

-- The write was accepted, of between one and `len` bytes from the front of the data, or it failed,
-- nothing was sent, and no smaller length is left to try.
abbrev pub Outcome : Pcb → Bytes → ℕ → Written → Type 0
Outcome pcb ptr len w =
    (w.err ≡ Err.ok) × (0 < w.len) × (w.len ≤ len) × (w.pcb.sent ≡ pcb.sent ++ take w.len ptr)
    ⊎ (w.err ≢ Err.ok)
      × (w.len ≤ len)
      × (w.pcb.sent ≡ pcb.sent)
      × ((is_mem w.err ≡ true) → w.len ≤ 1)

-- One try, whose failure for want of memory gives a smaller length.
abbrev Try : Pcb → Bytes → ℕ → Written → Type 0
Try pcb ptr len w =
    (w.err ≡ Err.ok) × (w.len ≡ len) × (w.pcb.sent ≡ pcb.sent ++ take w.len ptr)
    ⊎ (w.err ≢ Err.ok)
      × (w.len ≤ len)
      × (w.pcb.sent ≡ pcb.sent)
      × ((is_mem w.err ≡ true) → w.len ≤ 1 ⊎ w.len < len)

finish_write-Try :
    (tcp : Tcp) (pcb : Pcb) (ptr : Bytes) (len : ℕ) (err : Err)
    → 0 < len
    → Try pcb ptr len (finish_write tcp pcb ptr len err)
unfolding finish_write
finish_write-Try tcp pcb ptr len Err.ok pos = inl (refl, refl, refl)
finish_write-Try tcp pcb ptr len Err.mem pos =
    elim (Bool-cases (tcp.sndbuf (pcb.writes + 1) == 0 || tcp.queue_full (pcb.writes + 1))) [
      | inl full ↦ rw full (inr (cc, pos, refl, λ e. inl (omega arith)))
      | inr room ↦ rw room (inr (cc, omega arith, refl, λ e. inr (omega arith)))
    ]
finish_write-Try tcp pcb ptr len Err.arg pos = inr (cc, omega arith, refl, λ e. cc)
finish_write-Try tcp pcb ptr len Err.val pos = inr (cc, omega arith, refl, λ e. cc)
finish_write-Try tcp pcb ptr len Err.inprogress pos = inr (cc, omega arith, refl, λ e. cc)
finish_write-Try tcp pcb ptr len Err.timeout pos = inr (cc, omega arith, refl, λ e. cc)
finish_write-Try tcp pcb ptr len Err.abrt pos = inr (cc, omega arith, refl, λ e. cc)
finish_write-Try tcp pcb ptr len (Err.other n) pos = inr (cc, omega arith, refl, λ e. cc)

write_once-Try :
    (tcp : Tcp) (pcb : Pcb) (ptr : Bytes) (len : ℕ)
    → 0 < len
    → Try pcb ptr len (write_once tcp pcb ptr len)
unfolding write_once
write_once-Try tcp pcb ptr len pos = finish_write-Try tcp pcb ptr len (tcp.write pcb.writes len) pos

-- A try that is not repeated is the outcome.
Try-Outcome :
    (pcb : Pcb) (ptr : Bytes) (len : ℕ) (w : Written)
    → 0 < len
    → Try pcb ptr len w
    → ((is_mem w.err ≡ true) → w.len ≤ 1)
    → Outcome pcb ptr len w
Try-Outcome pcb ptr len w pos (inl h) last = inl (h.0, omega (arith, h.1), omega (arith, h.1), h.2)
Try-Outcome pcb ptr len w pos (inr h) last = inr (h.0, h.1, h.2, last)

-- What the tries after a failed one come to.
Outcome-again :
    (pcb : Pcb) (ptr : Bytes) (len : ℕ) (w v : Written)
    → w.len ≤ len
    → w.pcb.sent ≡ pcb.sent
    → Outcome w.pcb ptr w.len v
    → Outcome pcb ptr len v
Outcome-again pcb ptr len w v le same (inl h) =
    inl (h.0, h.1, omega (arith, h.2), h.3 ∙ ap (λ (t : Bytes). t ++ take v.len ptr) same)
Outcome-again pcb ptr len w v le same (inr h) = inr (h.0, omega (arith, h.1), h.2 ∙ same, h.3)

is_mem-ne_ok : {e : Err} → is_mem e ≡ true → e ≢ Err.ok
is_mem-ne_ok h e = cc (rw e at h)

Try-refused :
    (pcb : Pcb) (ptr : Bytes) (len : ℕ) (w : Written)
    → Try pcb ptr len w
    → is_mem w.err ≡ true
    → (w.len ≤ len) × (w.pcb.sent ≡ pcb.sent) × (w.len ≤ 1 ⊎ w.len < len)
Try-refused pcb ptr len w (inl h) m = absurd (is_mem-ne_ok m h.0)
Try-refused pcb ptr len w (inr h) m = (h.1, h.2, h.3 m)

write_loop-Outcome :
    (fuel : ℕ) (tcp : Tcp) (pcb : Pcb) (ptr : Bytes) (len : ℕ)
    → 0 < len
    → len ≤ fuel + 1
    → Outcome pcb ptr len (write_loop fuel tcp pcb ptr len)
unfolding write_loop
write_loop-Outcome zero tcp pcb ptr len pos enough =
    let t = write_once-Try tcp pcb ptr len pos in
    Try-Outcome pcb ptr len (write_once tcp pcb ptr len) pos t
      (λ m. omega (arith, (Try-refused pcb ptr len (write_once tcp pcb ptr len) t m).0))
write_loop-Outcome (suc fuel) tcp pcb ptr len pos enough =
    let w = write_once tcp pcb ptr len in
    let t : Try pcb ptr len w = write_once-Try tcp pcb ptr len pos in
    elim (Bool-cases (is_mem w.err)) [
      | inl m ↦ elim (Bool-cases (ltb 1 w.len)) [
        | inl more ↦
            let r = Try-refused pcb ptr len w t m in
            rw (m, more)
              (Outcome-again pcb ptr len w (write_loop fuel tcp w.pcb ptr w.len) r.0 r.1 (
                write_loop-Outcome fuel tcp w.pcb ptr w.len (omega (arith, ltb→lt 1 w.len more))
                  (omega (arith, r.2, ltb→lt 1 w.len more))))
        | inr done ↦ rw (m, done) (Try-Outcome pcb ptr len w pos t (λ e. ltb_false→le 1 w.len done))
      ]
      | inr n ↦ rw n (Try-Outcome pcb ptr len w pos t (λ e. cc (rw n at e)))
    ]

-- A write of one byte or more either is accepted, and has then put between one and `len` bytes from the
-- front of the data on the connection and reports their number, or it fails: then nothing is sent, and if
-- it failed for want of memory the length has come down to at most 1.
pub http_write_lem :
    (tcp : Tcp) (pcb : Pcb) (ptr : Bytes) (len : ℕ)
    → 0 < len
    → Outcome pcb ptr len (http_write tcp pcb ptr len)
unfolding http_write
http_write_lem tcp pcb ptr zero pos = absurd (omega (arith, pos))
http_write_lem tcp pcb ptr (suc len) pos =
    rw (ne→==_false (suc len) 0 (λ e. omega (arith, e)))
      (write_loop-Outcome (suc len) tcp pcb ptr (suc len) pos (omega arith))

-- The same for a length that may be zero, in the form in which the senders use it.
abbrev pub Wrote : Pcb → Bytes → ℕ → Written → Type 0
Wrote pcb ptr len w =
    (is_ok w.err ≡ true)
      × (w.len ≤ len)
      × (w.pcb.sent ≡ pcb.sent ++ take w.len ptr)
      × (0 < len → 0 < w.len)
    ⊎ (is_ok w.err ≡ false) × (w.pcb.sent ≡ pcb.sent)

ne_ok-is_ok : (e : Err) → e ≢ Err.ok → is_ok e ≡ false
ne_ok-is_ok Err.ok h = absurd (h refl)
ne_ok-is_ok Err.mem h = refl
ne_ok-is_ok Err.arg h = refl
ne_ok-is_ok Err.val h = refl
ne_ok-is_ok Err.inprogress h = refl
ne_ok-is_ok Err.timeout h = refl
ne_ok-is_ok Err.abrt h = refl
ne_ok-is_ok (Err.other n) h = refl

Outcome-Wrote :
    (pcb : Pcb) (ptr : Bytes) (len : ℕ) (w : Written) → Outcome pcb ptr len w → Wrote pcb ptr len w
Outcome-Wrote pcb ptr len w (inl h) = inl (ap is_ok h.0, h.2, h.3, λ pos. h.1)
Outcome-Wrote pcb ptr len w (inr h) = inr (ne_ok-is_ok w.err h.0, h.2)

pub http_write-Wrote :
    (tcp : Tcp) (pcb : Pcb) (ptr : Bytes) (len : ℕ) → Wrote pcb ptr len (http_write tcp pcb ptr len)
unfolding http_write
http_write-Wrote tcp pcb ptr zero = inl (refl, omega arith, sym (append-nil pcb.sent), λ pos. pos)
http_write-Wrote tcp pcb ptr (suc len) =
    Outcome-Wrote pcb ptr (suc len) (http_write tcp pcb ptr (suc len))
      (http_write_lem tcp pcb ptr (suc len) (omega arith))

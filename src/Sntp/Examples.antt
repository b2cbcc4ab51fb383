-- ===== src/Sntp/Examples.antt =====
-- Runs of the SNTP client, with timers that are only counted.
use scion_lwip_contrib.Base.{
  ℕ, ◌+◌, ◌-◌, true, false, List, [], ◌∷◌, none, some, replicate, ◌≡◌, ◌≢◌, refl,
}
use scion_lwip_contrib.Readers.{readers}
use scion_lwip_contrib.Sntp.{
  Handler, Timers, TimersLaws, Sntp, Answer, sntp_init, sntp_request, sntp_send_request, sntp_stop,
  unused, Event, packet, expires, run,
}
use scion_lwip_contrib.Sntp.Running.{Runs, sntp_one_timer, sntp_stop_leaves_timer}

abbrev timeout : ℕ → Handler → ℕ × ℕ → ℕ × ℕ
timeout d Handler.request t = (t.0 + 1, t.1)
timeout d Handler.retry t = (t.0, t.1 + 1)

abbrev untimeout : Handler → ℕ × ℕ → ℕ × ℕ
untimeout Handler.request t = (t.0 - 1, t.1)
untimeout Handler.retry t = (t.0, t.1 - 1)

abbrev count : ℕ × ℕ → Handler → ℕ
count t Handler.request = t.0
count t Handler.retry = t.1

abbrev counters : Timers (ℕ × ℕ)
counters = record { sys_timeout = timeout; sys_untimeout = untimeout; pending = count }

timeout_self : (d : ℕ) (h : Handler) (t : ℕ × ℕ) → count (timeout d h t) h ≡ count t h + 1
timeout_self d Handler.request t = refl
timeout_self d Handler.retry t = refl

timeout_ne : (d : ℕ) (h g : Handler) (t : ℕ × ℕ) → g ≢ h → count (timeout d h t) g ≡ count t g
timeout_ne d Handler.request Handler.request t ne = absurd (ne refl)
timeout_ne d Handler.request Handler.retry t ne = refl
timeout_ne d Handler.retry Handler.request t ne = refl
timeout_ne d Handler.retry Handler.retry t ne = absurd (ne refl)

untimeout_self : (h : Handler) (t : ℕ × ℕ) → count (untimeout h t) h ≡ count t h - 1
untimeout_self Handler.request t = refl
untimeout_self Handler.retry t = refl

untimeout_ne : (h g : Handler) (t : ℕ × ℕ) → g ≢ h → count (untimeout h t) g ≡ count t g
untimeout_ne Handler.request Handler.request t ne = absurd (ne refl)
untimeout_ne Handler.request Handler.retry t ne = refl
untimeout_ne Handler.retry Handler.request t ne = refl
untimeout_ne Handler.retry Handler.retry t ne = absurd (ne refl)

counters-laws : TimersLaws counters
counters-laws = record {
  timeout_self = timeout_self;
  timeout_ne = timeout_ne;
  untimeout_self = untimeout_self;
  untimeout_ne = untimeout_ne;
}

abbrev fine : Answer
fine = record { is_address = true; has_memory = true }

-- The client after its first request.
abbrev asking : Sntp (ℕ × ℕ)
asking = record {
  pcb = true;
  retry_timeout = 3000;
  timers = (0, 1);
  sent = true ∷ [];
  system_time = none;
}

starts : sntp_init counters true fine (unused (0, 0)) ≡ some asking
unfolding sntp_init sntp_request sntp_send_request unused
starts = refl

-- A response of 48 bytes from a server, then an expired timer.
abbrev talk : List Event
talk = packet (4 ∷ 1 ∷ replicate 46 200) ∷ expires Handler.request fine ∷ []

sntp_one_timer_example : Runs counters counters-laws (run counters readers talk asking)
sntp_one_timer_example =
    sntp_one_timer counters counters-laws readers fine (0, 0) talk asking refl starts

sntp_stop_leaves_timer_example :
    (run counters readers
      (expires Handler.retry fine ∷ expires Handler.request fine ∷ [])
      (sntp_stop counters asking)).sent
    ≡ false ∷ true ∷ []
sntp_stop_leaves_timer_example =
    sntp_stop_leaves_timer counters counters-laws readers fine fine asking refl refl refl refl

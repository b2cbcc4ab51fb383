-- ===== src/Echo/Examples.antt =====
-- Runs of the echo server.
use scion_lwip_contrib.Base.{
  ℕ, true, false, List, [], ◌∷◌, ◌++◌, none, codes, ltb, if◌then◌else◌, ◌≡◌, refl,
}
use scion_lwip_contrib.Lwip.{Err}
use scion_lwip_contrib.Echo.{
  Conn, Answer, send_loop, echo_send, echo_close, echo_accept, recv_data, echo_recv, close_if_done,
  send_or_close, echo_poll, echo_sent, Event, incoming, fin, acked, polled, step, run,
}
use scion_lwip_contrib.Echo.Order.{pending, echoes_in_order, closes_after_all_echoed}

-- Room for three bytes in the first round only.
abbrev narrow : ℕ → Answer
narrow i = record { sndbuf = if ltb i 1 then 3 else 0; write = Err.ok }

abbrev wide : ℕ → Answer
wide i = record { sndbuf = 100; write = Err.ok }

-- The peer sends two pbufs and closes; the second pbuf waits for the acknowledgment of the first.
abbrev talk : List Event
talk = incoming narrow (codes "abc") (codes "de" ∷ []) ∷ fin narrow ∷ acked wide ∷ []

echoes_in_order_example :
    (run talk (echo_accept true).0).echoed ++ pending (run talk (echo_accept true).0).es
    ≡ codes "abcde"
echoes_in_order_example = echoes_in_order talk (refl, (tt, (tt, tt)))

abbrev whole_talk : List Event
whole_talk =
    incoming narrow (codes "abc") (codes "de" ∷ []) ∷ fin narrow ∷ acked wide ∷ polled wide ∷ []

whole_talk_closes : (run whole_talk (echo_accept true).0).is_closed ≡ true
unfolding run step echo_accept echo_recv recv_data echo_send send_loop echo_close echo_sent
    echo_poll send_or_close close_if_done
whole_talk_closes = refl

closes_after_all_echoed_example : (run whole_talk (echo_accept true).0).echoed ≡ codes "abcde"
closes_after_all_echoed_example =
    closes_after_all_echoed whole_talk (refl, (tt, (tt, (tt, tt)))) whole_talk_closes

abbrev idle : Conn
idle = record { es = none; echoed = []; window = 0; is_closed = false; is_aborted = false }

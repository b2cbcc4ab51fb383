-- ===== src/Echo/Order.antt =====
-- What the echo server of apps/tcpecho_raw/echo.c has echoed after its callbacks, and when it closes.
use scion_lwip_contrib.Base.{
  Bool, true, false, List, [], ◌∷◌, ◌++◌, append_assoc, append-nil, Option, none, some, Bytes, ◌≡◌,
  refl, sym, ◌∙◌, subst,
}
use scion_lwip_contrib.Lwip.{is_ok}
use scion_lwip_contrib.Echo.{
  EchoState, Conn, echo_accept, echo_recv, echo_poll, echo_sent, Event, incoming, fin, acked,
  polled, step, run,
}
use scion_lwip_contrib.Echo.Loop.{concat}
use scion_lwip_contrib.Echo.Inv.{InvOf, Inv, send_or_close-Inv, recv_data-Inv, recv_fin-Inv}

-- The data and the end of the data that a callback brings.
abbrev bytes_of : Event → Bytes
bytes_of (incoming ans q p) = concat (q ∷ p)
bytes_of (fin ans) = []
bytes_of (acked ans) = []
bytes_of (polled ans) = []

abbrev fin_after : Bool → Event → Bool
fin_after f (incoming ans q p) = f
fin_after f (fin ans) = true
fin_after f (acked ans) = f
fin_after f (polled ans) = f

-- TCP brings no data after the end of the data.
abbrev MayCome : Bool → Event → Type 0
MayCome f (incoming ans q p) = f ≡ false
MayCome f (fin ans) = Unit
MayCome f (acked ans) = Unit
MayCome f (polled ans) = Unit

abbrev pub Stream : Bool → List Event → Type 0
Stream f [] = Unit
Stream f (ev ∷ evs) = MayCome f ev × Stream (fin_after f ev) evs

abbrev pub received_by : List Event → Bytes
received_by [] = []
received_by (ev ∷ evs) = bytes_of ev ++ received_by evs

step-Inv :
    (f : Bool) (got : Bytes) (ev : Event) (c : Conn)
    → MayCome f ev
    → Inv f got c
    → Inv (fin_after f ev) (got ++ bytes_of ev) (step ev c)
unfolding step echo_recv echo_sent echo_poll is_ok
step-Inv f got ev c may inv = by_es c.es inv ev may
  where
    by_es :
        (x : Option EchoState)
        → InvOf f got x c.echoed c.is_closed
        → (ev' : Event) → MayCome f ev'
        → Inv (fin_after f ev') (got ++ bytes_of ev') (step ev' (record c { es = x }))
    by_es none (e, closed_is) (incoming ans q p) m = cc
    by_es none (e, closed_is) (fin ans) m = (append-nil got ∙ e, refl)
    by_es none (e, closed_is) (acked ans) m = (append-nil got ∙ e, closed_is)
    by_es none (e, closed_is) (polled ans) m = (append-nil got ∙ e, closed_is)
    by_es (some es) (e, o, ok) (incoming ans q p) m =
        recv_data-Inv f got ans q p es (record c { es = some es }) m e o ok
    by_es (some es) (e, o, ok) (fin ans) m =
        recv_fin-Inv f (got ++ []) ans es (record c { es = some es }) (append-nil got ∙ e) o
    by_es (some es) (e, o, ok) (acked ans) m =
        send_or_close-Inv f (got ++ []) ans (record es { retries = 0 }) (record c { es = some es })
          (append-nil got ∙ e) o ok
    by_es (some es) (e, o, ok) (polled ans) m =
        send_or_close-Inv f (got ++ []) ans es (record c { es = some es }) (append-nil got ∙ e) o ok

abbrev pub pending : Option EchoState → Bytes
pending none = []
pending (some es) = concat es.p

run-Inv :
    (f : Bool) (got : Bytes) (evs : List Event) (c : Conn)
    → Stream f evs
    → Inv f got c
    → (g : Bool) × Inv g (got ++ received_by evs) (run evs c)
unfolding run
run-Inv f got [] c str inv =
    (f, subst (λ x. InvOf f x c.es c.echoed c.is_closed) (sym (append-nil got)) inv)
run-Inv f got (ev ∷ evs) c str inv =
    let r =
      run-Inv (fin_after f ev) (got ++ bytes_of ev) evs (step ev c) str.1
        (step-Inv f got ev c str.0 inv) in
    (
      r.0,
      subst (λ x. Inv r.0 x (run evs (step ev c)))
          (append_assoc got (bytes_of ev) (received_by evs)) r.1,
    )

accepted-Inv : Inv false [] (echo_accept true).0
unfolding echo_accept
accepted-Inv = (refl, refl, refl)

-- A connection that `echo_accept` has taken has, after any calls of `echo_recv` with ERR_OK, `echo_sent` and
-- `echo_poll` among which no data follows the end of the peer's data, echoed exactly a first part of the bytes
-- received, in their order, and the rest of them is the pending chain.
pub echoes_in_order :
    (evs : List Event)
    → Stream false evs
    → (run evs (echo_accept true).0).echoed ++ pending (run evs (echo_accept true).0).es
      ≡ received_by evs
echoes_in_order evs str =
    let r = run-Inv false [] evs (echo_accept true).0 str accepted-Inv in go r.0 c'.es r.1
  where
    c' : Conn
    c' = run evs (echo_accept true).0

    go :
        (g : Bool) (x : Option EchoState)
        → InvOf g (received_by evs) x c'.echoed c'.is_closed
        → c'.echoed ++ pending x ≡ received_by evs
    go g none i = append-nil c'.echoed ∙ sym i.0
    go g (some es) i = sym i.0

-- If such a connection is closed after such calls, all the bytes received have been echoed.
pub closes_after_all_echoed :
    (evs : List Event)
    → Stream false evs
    → (run evs (echo_accept true).0).is_closed ≡ true
    → (run evs (echo_accept true).0).echoed ≡ received_by evs
closes_after_all_echoed evs str is_closed =
    let r = run-Inv false [] evs (echo_accept true).0 str accepted-Inv in go r.0 c'.es r.1 is_closed
  where
    c' : Conn
    c' = run evs (echo_accept true).0

    go :
        (g : Bool) (x : Option EchoState)
        → InvOf g (received_by evs) x c'.echoed c'.is_closed
        → c'.is_closed ≡ true
        → c'.echoed ≡ received_by evs
    go g none i e = sym i.0
    go g (some es) (got_is, open_still, ok) e = cc

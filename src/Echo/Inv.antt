-- ===== src/Echo/Inv.antt =====
-- What is known in each state of apps/tcpecho_raw/echo.c of the bytes received and echoed, and the callbacks
-- that keep it.
use scion_lwip_contrib.Base.{
  ℕ, Bool, true, false, List, [], ◌∷◌, ◌++◌, append_assoc, append-nil, Option, none, some, Bytes,
  ◌≡◌, refl, ap, sym, ◌∙◌,
}
use scion_lwip_contrib.Lwip.{Err}
use scion_lwip_contrib.Echo.{
  EchoStates, EchoState, Conn, Answer, send_loop, echo_send, echo_close, recv_data, trash,
  echo_recv, close_if_done, send_or_close,
}
use scion_lwip_contrib.Echo.Loop.{concat, concat-append, send_loop-Conserves}

-- What each state knows of the chain, and whether the peer has closed.
abbrev pub StateOk : Bool → EchoStates → List Bytes → Type 0
StateOk f EchoStates.accepted p = p ≡ []
StateOk f EchoStates.received p = Unit
StateOk f EchoStates.closing p = f ≡ true
StateOk f EchoStates.es_none p = ⊥

-- `got` has been received, and `f` tells whether the peer has closed.
abbrev pub InvOf : Bool → Bytes → Option EchoState → Bytes → Bool → Type 0
InvOf f got (some es) echoed is_closed =
    (got ≡ echoed ++ concat es.p) × (is_closed ≡ false) × StateOk f es.state es.p
InvOf f got none echoed is_closed = (got ≡ echoed) × (f ≡ true)

abbrev pub Inv : Bool → Bytes → Conn → Type 0
Inv f got c = InvOf f got c.es c.echoed c.is_closed

-- An empty chain stays empty.
send_loop-nil :
    (ans : ℕ → Answer) (p : List Bytes) (c : Conn) → p ≡ [] → (send_loop ans 0 p c).left ≡ []
unfolding send_loop
send_loop-nil ans [] c e = refl
send_loop-nil ans (b ∷ p) c e = cc

pub echo_send-Inv :
    (f : Bool) (got : Bytes) (ans : ℕ → Answer) (es : EchoState) (c : Conn)
    → got ≡ c.echoed ++ concat es.p
    → c.is_closed ≡ false
    → StateOk f es.state es.p
    → Inv f got (echo_send ans es c)
unfolding echo_send
echo_send-Inv f got ans es c e open_still ok =
    let k = send_loop-Conserves ans 0 es.p c in
    (e ∙ sym k.bytes, k.is_closed ∙ open_still, keep es.state ok)
  where
    keep : (st : EchoStates) → StateOk f st es.p → StateOk f st (send_loop ans 0 es.p c).left
    keep EchoStates.accepted h = send_loop-nil ans es.p c h
    keep EchoStates.received h = tt
    keep EchoStates.closing h = h
    keep EchoStates.es_none h = h

pub send_or_close-Inv :
    (f : Bool) (got : Bytes) (ans : ℕ → Answer) (es : EchoState) (c : Conn)
    → got ≡ c.echoed ++ concat es.p
    → c.is_closed ≡ false
    → StateOk f es.state es.p
    → Inv f got (send_or_close ans es c)
unfolding send_or_close close_if_done echo_close
send_or_close-Inv f got ans es c e open_still ok =
    go es.p es.state e ok (echo_send-Inv f got ans es c e open_still ok)
  where
    done :
        (st : EchoStates)
        → got ≡ c.echoed ++ []
        → StateOk f st []
        → Inv f got (close_if_done st (record es { state = st; p = [] }) c)
    done EchoStates.accepted h ok' = (h, open_still, refl)
    done EchoStates.received h ok' = (h, open_still, tt)
    done EchoStates.closing h ok' = (h ∙ append-nil c.echoed, ok')
    done EchoStates.es_none h ok' = (h, open_still, ok')

    go :
        (p : List Bytes) (st : EchoStates)
        → got ≡ c.echoed ++ concat p
        → StateOk f st p
        → Inv f got (echo_send ans (record es { state = st; p = p }) c)
        → Inv f got (send_or_close ans (record es { state = st; p = p }) c)
    go [] st h ok' sent = done st h ok'
    go (b ∷ bs) st h ok' sent = sent

pub recv_data-Inv :
    (f : Bool) (got : Bytes) (ans : ℕ → Answer) (q : Bytes) (p : List Bytes) (es : EchoState)
    (c : Conn)
    → f ≡ false
    → got ≡ c.echoed ++ concat es.p
    → c.is_closed ≡ false
    → StateOk f es.state es.p
    → Inv f (got ++ concat (q ∷ p)) (recv_data es.state ans (q ∷ p) es c)
unfolding recv_data trash
recv_data-Inv f got ans q p es c is_open e open_still ok = by_state es.state es.p e ok
  where
    more : Bytes
    more = concat (q ∷ p)

    by_chain :
        (old : List Bytes)
        → got ≡ c.echoed ++ concat old
        → Inv f (got ++ more) (
            recv_data EchoStates.received ans
              (q ∷ p)
              (record es { state = EchoStates.received; p = old })
              c)
    by_chain [] h =
        echo_send-Inv f (got ++ more) ans (record es { state = EchoStates.received; p = q ∷ p }) c
          (ap (λ x. x ++ more) (h ∙ append-nil c.echoed)) open_still tt
    by_chain (b ∷ bs) h = (
      ap (λ x. x ++ more) h
          ∙ append_assoc c.echoed (concat (b ∷ bs)) more
          ∙ sym (ap (λ x. c.echoed ++ x) (concat-append (b ∷ bs) (q ∷ p))),
      open_still,
      tt,
    )

    by_state :
        (st : EchoStates) (old : List Bytes)
        → got ≡ c.echoed ++ concat old
        → StateOk f st old
        → Inv f (got ++ more) (recv_data st ans (q ∷ p) (record es { state = st; p = old }) c)
    by_state EchoStates.accepted old h ok' =
        echo_send-Inv f (got ++ more) ans (record es { state = EchoStates.received; p = q ∷ p }) c
          (ap (λ x. x ++ more) (h ∙ ap (λ x. c.echoed ++ concat x) ok' ∙ append-nil c.echoed))
          open_still tt
    by_state EchoStates.received old h ok' = by_chain old h
    by_state EchoStates.closing old h ok' = cc
    by_state EchoStates.es_none old h ok' = absurd ok'

pub recv_fin-Inv :
    (f : Bool) (got : Bytes) (ans : ℕ → Answer) (es : EchoState) (c : Conn)
    → got ≡ c.echoed ++ concat es.p
    → c.is_closed ≡ false
    → Inv true got (echo_recv ans [] Err.ok es c).0
unfolding echo_recv echo_close
recv_fin-Inv f got ans es c e open_still = by_chain es.p e
  where
    by_chain :
        (old : List Bytes)
        → got ≡ c.echoed ++ concat old
        → Inv true got (echo_recv ans [] Err.ok (record es { p = old }) c).0
    by_chain [] h = (h ∙ append-nil c.echoed, refl)
    by_chain (b ∷ bs) h =
        echo_send-Inv true got ans (record es { state = EchoStates.closing; p = b ∷ bs }) c h
          open_still refl

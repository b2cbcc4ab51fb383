-- ===== src/Httpd/Post/Delivery.antt =====
-- The data of a POST on its way to the application, and the response that follows it.
use scion_lwip_contrib.Base.{
  ℕ, ◌-◌, ◌≤◌, ◌<◌, inl, inr, Bool, Bool-cases, false, List, [], ◌∷◌, ◌++◌, append_assoc,
  append-nil, Option, none, some, Bytes, length, ◌==◌, ltb, ltb→lt, ltb_false→le, le→ltb_false,
  lt→ltb, ne→==_false, if◌then◌else◌, ◌≡◌, refl, sym, subst, ap, ◌∙◌, arith,
}
use scion_lwip_contrib.Lwip.{Err, ◌>>=◌}
use scion_lwip_contrib.Httpd.Write.{Tcp, Pcb}
use scion_lwip_contrib.Httpd.State.{HttpState, Conn}
use scion_lwip_contrib.Httpd.Ssi.Insert.{SsiHandler, Fits}
use scion_lwip_contrib.Httpd.Headers.Sent.{concat}
use scion_lwip_contrib.Httpd.Send.{http_send}
use scion_lwip_contrib.Httpd.Send.Delivery.{http_send-Delivered}
use scion_lwip_contrib.Httpd.Send.Data.{pending, IsServing, Delivered, Goes}
use scion_lwip_contrib.Httpd.Files.{FsdataFile, Cgi}
use scion_lwip_contrib.Httpd.Response.{find_file, http_find_file}
use scion_lwip_contrib.Httpd.Response.Serving.{http_find_file-response}
use scion_lwip_contrib.Httpd.Response.Setup.{IsIdle, response}
use scion_lwip_contrib.Httpd.Request.Pieces.{Arrival, buffers}
use scion_lwip_contrib.Httpd.Post.Handle.{
  App, PostCall, received, finished, Posting, http_post_rxpbuf, http_handle_post_finished,
}
use scion_lwip_contrib.Httpd.Post.Receive.{
  PostConn, keeps, closing, send_posted, recv_posting, recv_post_to, recv_post,
}

-- The application accepts all data.
abbrev pub Accepts : App → Type 0
Accepts app =
    (calls : List PostCall) (p : List Bytes) → app.httpd_post_receive_data calls p ≡ Err.ok

-- The calls for the chains `ps`, and the bytes in them.
abbrev pub made : List (List Bytes) → List PostCall
made [] = []
made (p ∷ ps) = received p ∷ made ps

abbrev pub bytes : List (List Bytes) → Bytes
bytes [] = []
bytes (p ∷ ps) = concat p ++ bytes ps

pub made-append :
    (ps : List (List Bytes)) (p : List Bytes) → made (ps ++ p ∷ []) ≡ made ps ++ received p ∷ []
made-append [] p = refl
made-append (q ∷ ps) p = ap (◌∷◌ (received q)) (made-append ps p)

pub bytes-append :
    (ps : List (List Bytes)) (p : List Bytes) → bytes (ps ++ p ∷ []) ≡ bytes ps ++ concat p
bytes-append [] p = append-nil (concat p)
bytes-append (q ∷ ps) p =
    ap (◌++◌ (concat q)) (bytes-append ps p) ∙ sym (append_assoc (concat q) (bytes ps) (concat p))

-- The chains fill what is left of the body, the last one of them and no earlier one.
abbrev pub Fills : ℕ → List Arrival → Type 0
Fills left [] = left ≡ 0
Fills left (a ∷ as') = (0 < left) × Fills (left - length (concat (buffers a))) as'

abbrev pub data_of : List Arrival → Bytes
data_of [] = []
data_of (a ∷ as') = concat (buffers a) ++ data_of as'

-- The calls of `http_recv` in their order.
module _ (files : List FsdataFile) (cgis : List Cgi) (ssi_allocated : Bool) (app : App)
    (handler : Option SsiHandler) where
  unfoldable pub recv_posts : List Arrival → PostConn → Option PostConn
  unfolding recv_post
  recv_posts [] c = some c
  recv_posts (a ∷ as') c = do
    d ← recv_post files cgis ssi_allocated app a.tcp handler (buffers a) Err.ok c
    recv_posts as' d

  -- The response that the application asks for after the calls.
  abbrev pub answer : List PostCall → Bytes
  answer calls =
      response handler ssi_allocated (find_file files cgis (app.httpd_post_finished calls))

  -- The POST is over: the application was given `body` in chains after the call `call`, and then told of the
  -- end once, and the response that it asked for is sent behind `sent`.
  abbrev pub HasPosted : Bytes → PostCall → Bytes → Option PostConn → Type 0
  HasPosted sent call body none = ⊥
  HasPosted sent call body (some c) =
      (ps : List (List Bytes)) × (bytes ps ≡ body)
      × (c.calls ≡ (call ∷ made ps) ++ finished ∷ [])
      × Goes handler (sent ++ answer (call ∷ made ps)) c.conn c.conn.hs

  closing-done : (calls : List PostCall) (c : Conn) → (closing 0 calls c).calls ≡ calls
  unfolding closing
  closing-done calls c = go c.hs
    where
      go :
          (hs : Option HttpState)
          → elim hs [ none ↦ if 0 == 0 then calls else calls ++ finished ∷ [] | some s ↦ calls ]
            ≡ calls
      go none = refl
      go (some s) = refl

  module _ (fits : Fits handler) (sent body : Bytes) (call : PostCall) (ps : List (List Bytes))
      (whole : bytes ps ≡ body) where
    ended :
        (r : Option (Conn × Bool))
        → Delivered handler (sent ++ answer (call ∷ made ps)) r
        → HasPosted sent call body
            (do x ← r; some (closing 0 ((call ∷ made ps) ++ finished ∷ []) x.0))
    unfolding closing
    ended none d = d
    ended (some (c, b)) d = (ps, whole, closing-done ((call ∷ made ps) ++ finished ∷ []) c, d)

    -- `http_send` of the response to a POST.
    pub answered :
        (tcp : Tcp) (pcb : Pcb) (hs : HttpState)
        → pcb.sent ≡ sent
        → IsServing hs
        → pending handler hs ≡ answer (call ∷ made ps)
        → HasPosted sent call body (
            send_posted tcp handler pcb
              (record { hs = hs; left = 0; calls = (call ∷ made ps) ++ finished ∷ [] }))
    unfolding send_posted
    answered tcp pcb hs same v e = ended (http_send tcp handler hs pcb) (
        subst (λ (t : Bytes). Delivered handler t (http_send tcp handler hs pcb))
          (ap (λ (t : Bytes). t ++ pending handler hs) same ∙ ap (◌++◌ sent) e)
          (http_send-Delivered tcp handler hs pcb fits v))

  module _ (accepts : Accepts app) (s : Posting) (p : List Bytes) where
    pub rxpbuf-waits :
        length (concat p) < s.left
        → http_post_rxpbuf files cgis ssi_allocated app s p
          ≡ record s { left = s.left - length (concat p); calls = s.calls ++ received p ∷ [] }
    unfolding http_post_rxpbuf
    rxpbuf-waits lt =
        rw
          (
            le→ltb_false s.left (length (concat p)) (omega (arith, lt)),
            accepts s.calls p,
            ne→==_false (s.left - length (concat p)) 0 (λ e. omega (arith, e, lt)),
          )
          refl

    pub rxpbuf-ends :
        s.left ≤ length (concat p)
        → http_post_rxpbuf files cgis ssi_allocated app s p
          ≡ http_handle_post_finished files cgis ssi_allocated app
              (record s { left = 0; calls = s.calls ++ received p ∷ [] })
    unfolding http_post_rxpbuf
    rxpbuf-ends le = elim (Bool-cases (ltb s.left (length (concat p)))) [
      | inl t ↦ rw (t, accepts s.calls p) refl
      | inr f ↦
          let none_left : s.left - length (concat p) ≡ 0 = omega (arith, le) in
          rw (f, accepts s.calls p, none_left) refl
    ]

  module _ (fits : Fits handler) (accepts : Accepts app) (sent body : Bytes) (call : PostCall) where
    -- The data is complete: the answer is found and sent.
    pub finished_answered :
        (tcp : Tcp) (pcb : Pcb) (hs : HttpState) (ps : List (List Bytes))
        → IsIdle hs
        → pcb.sent ≡ sent
        → bytes ps ≡ body
        → HasPosted sent call body (
            send_posted tcp handler pcb (
              http_handle_post_finished files cgis ssi_allocated app
                (record { hs = hs; left = 0; calls = call ∷ made ps })))
    unfolding http_handle_post_finished
    finished_answered tcp pcb hs ps idle same whole =
        let name = app.httpd_post_finished (call ∷ made ps) in
        let r = http_find_file-response handler files cgis hs name ssi_allocated idle in
        answered fits sent body call ps whole tcp pcb
          (http_find_file files cgis hs name false ssi_allocated) same r.0 r.1

    -- `http_recv` behind `http_post_rxpbuf`.
    abbrev pub go_on : Tcp → Pcb → Posting → Option PostConn
    go_on tcp pcb s = if s.left == 0 then send_posted tcp handler pcb s else some (keeps pcb s)

    -- One more chain, where the data is not complete without it.
    module _ (tcp : Tcp) (pcb : Pcb) (hs : HttpState) (left : ℕ) (ps : List (List Bytes))
        (p : List Bytes) (idle : IsIdle hs) where
      abbrev state : Posting
      state = record { hs = hs; left = left; calls = call ∷ made ps }

      pub chain-waits :
          length (concat p) < left
          → go_on tcp pcb (http_post_rxpbuf files cgis ssi_allocated app state p)
            ≡ some (
                keeps pcb (record {
                  hs = hs;
                  left = left - length (concat p);
                  calls = call ∷ made (ps ++ p ∷ []);
                }))
      chain-waits lt =
          ap (go_on tcp pcb) (rxpbuf-waits accepts state p lt)
          ∙ rw
              (
                ne→==_false (left - length (concat p)) 0 (λ e. omega (arith, e, lt)),
                made-append ps p,
              )
              refl

      pub chain-ends :
          left ≤ length (concat p)
          → pcb.sent ≡ sent
          → bytes ps ++ concat p ≡ body
          → HasPosted sent call body
              (go_on tcp pcb (http_post_rxpbuf files cgis ssi_allocated app state p))
      unfolding http_handle_post_finished
      chain-ends le same whole =
          subst (HasPosted sent call body)
            (ap
                (λ (c : List PostCall). go_on tcp pcb (
                  http_handle_post_finished files cgis ssi_allocated app
                    (record { hs = hs; left = 0; calls = call ∷ c })))
                (made-append ps p)
              ∙ sym (ap (go_on tcp pcb) (rxpbuf-ends accepts state p le)))
            (finished_answered tcp pcb hs (ps ++ p ∷ []) idle same (bytes-append ps p ∙ whole))

    pub unchanged :
        (r : Option PostConn)
        → HasPosted sent call body r
        → HasPosted sent call body (do d ← r; some d)
    unchanged none h = h
    unchanged (some c) h = h

    -- The chains behind the header are handed on.
    pub recv_posts-HasPosted :
        (as' : List Arrival) (pcb : Pcb) (hs : HttpState) (left : ℕ) (ps : List (List Bytes))
        → IsIdle hs
        → pcb.sent ≡ sent
        → 0 < left
        → Fills left as'
        → bytes ps ++ data_of as' ≡ body
        → HasPosted sent call body
            (recv_posts as' (keeps pcb (record { hs = hs; left = left; calls = call ∷ made ps })))
    unfolding recv_posts recv_post recv_post_to recv_posting
    recv_posts-HasPosted [] pcb hs left ps idle same pos fills whole =
        absurd (omega (arith, pos, fills))
    recv_posts-HasPosted (a ∷ as') pcb hs left ps idle same pos fills whole =
        let hs' = record hs { retries = 0 } in
        let idle' : IsIdle hs' = record {
          no_ssi = idle.no_ssi;
          no_headers = idle.no_headers;
          headers_sent = idle.headers_sent;
          at_start = idle.at_start;
        } in
        let p = buffers a in
        rw (lt→ltb 0 left pos) (elim (Bool-cases (ltb (length (concat p)) left)) [
          | inl t ↦
              let lt = ltb→lt (length (concat p)) left t in
              rw (chain-waits a.tcp pcb hs' left ps p idle' lt) (
                recv_posts-HasPosted as' pcb hs' (left - length (concat p)) (ps ++ p ∷ []) idle'
                  same (omega (arith, lt)) fills.1
                  (ap (λ (b : Bytes). b ++ data_of as') (bytes-append ps p)
                    ∙ append_assoc (bytes ps) (concat p) (data_of as')
                    ∙ whole))
          | inr f ↦
              last as'
                (go_on a.tcp pcb (
                  http_post_rxpbuf files cgis ssi_allocated app
                    (record { hs = hs'; left = left; calls = call ∷ made ps }) p))
                (left - length (concat p)) (omega (arith, ltb_false→le (length (concat p)) left f))
                fills.1
                (chain-ends a.tcp pcb hs' left ps p idle' (ltb_false→le (length (concat p)) left f)
                  same)
                whole
        ])
      where
        last :
            (bs : List Arrival) (r : Option PostConn) (n : ℕ)
            → n ≡ 0
            → Fills n bs
            → (bytes ps ++ concat (buffers a) ≡ body → HasPosted sent call body r)
            → bytes ps ++ (concat (buffers a) ++ data_of bs) ≡ body
            → HasPosted sent call body (do d ← r; recv_posts bs d)
        last [] r n e fs h w =
            unchanged r (h (ap (◌++◌ (bytes ps)) (sym (append-nil (concat (buffers a)))) ∙ w))
        last (b ∷ bs) r n e fs h w = absurd (omega (arith, e, fs.0))

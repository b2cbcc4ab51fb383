-- ===== src/Httpd/Post/Refused.antt =====
-- A POST whose data the application refuses.
use scion_lwip_contrib.Base.{
  ◌-◌, ◌<◌, Bool, false, List, [], ◌∷◌, ◌++◌, append_assoc, Option, none, some, Bytes, length,
  length-append, subst, append-nil, le→ltb_false, lt→ltb, ne→==_false, ◌≡◌, refl, sym, ◌∙◌, arith,
}
use scion_lwip_contrib.Lwip.{is_ok}
use scion_lwip_contrib.Httpd.Write.{Pcb}
use scion_lwip_contrib.Httpd.Ssi.Insert.{SsiHandler}
use scion_lwip_contrib.Httpd.Headers.Sent.{concat}
use scion_lwip_contrib.Httpd.Files.{FsdataFile, Cgi}
use scion_lwip_contrib.Httpd.Request.Pieces.{Arrival, buffers}
use scion_lwip_contrib.Httpd.Post.Handle.{
  App, PostCall, received, finished, Posting, http_post_rxpbuf, http_handle_post_finished,
}
use scion_lwip_contrib.Httpd.Post.Receive.{PostConn, keeps, recv_posting, recv_post_to, recv_post}
use scion_lwip_contrib.Httpd.Post.Delivery.{recv_posts, data_of}

-- The application refuses all data.
abbrev pub Refuses : App → Type 0
Refuses app =
    (calls : List PostCall) (p : List Bytes) → is_ok (app.httpd_post_receive_data calls p) ≡ false

-- A call with the data and a call for the end, for each chain.
abbrev pub refused_calls : List Arrival → List PostCall
refused_calls [] = []
refused_calls (a ∷ as') = received (buffers a) ∷ finished ∷ refused_calls as'

-- The connection stays open, and nothing was sent on it.
abbrev pub IsStuck : Pcb → List PostCall → Option PostConn → Type 0
IsStuck pcb calls none = ⊥
IsStuck pcb calls (some c) =
    (c.conn.pcb ≡ pcb) × (c.conn.closed ≡ false) × (c.calls ≡ calls) × (0 < c.left)

module _ (files : List FsdataFile) (cgis : List Cgi) (ssi_allocated : Bool) (app : App)
    (handler : Option SsiHandler) (refuses : Refuses app) (pcb : Pcb) where
  refused :
      (s : Posting) (p : List Bytes)
      → length (concat p) < s.left
      → http_post_rxpbuf files cgis ssi_allocated app s p
        ≡ http_handle_post_finished files cgis ssi_allocated app
            (record s { left = s.left - length (concat p); calls = s.calls ++ received p ∷ [] })
  unfolding http_post_rxpbuf
  refused s p lt =
      rw (le→ltb_false s.left (length (concat p)) (omega (arith, lt)), refuses s.calls p) refl

  -- If the application refuses the data of a POST, then each chain that leaves a part of the body missing is
  -- handed to it all the same and followed by one more call of `httpd_post_finished`, and no response is
  -- sent.
  pub recv_posts-refused :
      (as' : List Arrival) (s : Posting)
      → length (data_of as') < s.left
      → IsStuck pcb
          (s.calls ++ refused_calls as')
          (recv_posts files cgis ssi_allocated app handler as' (keeps pcb s))
  unfolding recv_posts recv_post recv_post_to recv_posting http_handle_post_finished
  recv_posts-refused [] s lt = (refl, refl, sym (append-nil s.calls), omega (arith, lt))
  recv_posts-refused (a ∷ as') s lt =
      let p = buffers a in
      let size = length-append (concat p) (data_of as') in
      let next = record s {
        hs = record s.hs { retries = 0 };
        left = s.left - length (concat p);
        calls = s.calls ++ received p ∷ [];
      } in
      let calls =
        append_assoc (s.calls ++ received p ∷ []) (finished ∷ []) (refused_calls as')
        ∙ append_assoc s.calls (received p ∷ []) (finished ∷ refused_calls as') in
      let step =
        refused (record s { hs = record s.hs { retries = 0 } }) p (omega (arith, lt, size)) in
      rw
        (
          lt→ltb 0 s.left (omega (arith, lt)),
          step,
          ne→==_false (s.left - length (concat p)) 0 (λ e. omega (arith, e, lt, size)),
        )
        (subst
          (λ (c : List PostCall). IsStuck pcb c (
            recv_posts files cgis ssi_allocated app handler as'
              (keeps pcb (http_handle_post_finished files cgis ssi_allocated app next))))
          calls
          (recv_posts-refused as' (http_handle_post_finished files cgis ssi_allocated app next)
            (omega (arith, lt, size))))

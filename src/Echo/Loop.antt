-- ===== src/Echo/Loop.antt =====
-- The loop of `echo_send` in apps/tcpecho_raw/echo.c.
use scion_lwip_contrib.Base.{
  ℕ, ◌+◌, Bool, true, false, List, [], ◌∷◌, ◌++◌, append_assoc, Bytes, length, length-append, leb,
  if◌then◌else◌, ◌≡◌, refl, sym, ◌∙◌, arith,
}
use scion_lwip_contrib.Lwip.{is_ok}
use scion_lwip_contrib.Echo.{Conn, Answer, Sent, send_loop}

-- The bytes of a chain.
abbrev pub concat : List Bytes → Bytes
concat [] = []
concat (b ∷ bs) = b ++ concat bs

pub concat-append : (xs ys : List Bytes) → concat (xs ++ ys) ≡ concat xs ++ concat ys
concat-append [] ys = refl
concat-append (b ∷ bs) ys = rw (concat-append bs ys) (sym (append_assoc b (concat bs) (concat ys)))

-- What the loop echoes and what it leaves are what there was, in this order; each byte echoed opens the
-- receive window by one; nothing else changes.
pub record Conserves (p : List Bytes) (c : Conn) (w : Sent) : Type 0 where
  pub bytes : w.conn.echoed ++ concat w.left ≡ c.echoed ++ concat p
  pub window : w.conn.window + length c.echoed ≡ c.window + length w.conn.echoed
  pub es : w.conn.es ≡ c.es
  pub is_closed : w.conn.is_closed ≡ c.is_closed

-- The loop of `echo_send` neither loses, repeats nor reorders a byte: what was echoed and what the chain holds
-- stay the same bytes in the same order, and the receive window opens by one for each byte echoed.
pub send_loop-Conserves :
    (ans : ℕ → Answer) (i : ℕ) (p : List Bytes) (c : Conn) → Conserves p c (send_loop ans i p c)
unfolding send_loop
send_loop-Conserves ans i [] c = record { bytes = refl; window = refl; es = refl; is_closed = refl }
send_loop-Conserves ans i (b ∷ rest) c =
    go (leb (length b) (ans i).sndbuf) (is_ok (ans i).write)
      (send_loop-Conserves ans (i + 1) rest next)
  where
    next : Conn
    next = record c { echoed = c.echoed ++ b; window = c.window + length b }

    stop : Sent
    stop = record { left = b ∷ rest; conn = c }

    go :
        (x y : Bool)
        → Conserves rest next (send_loop ans (i + 1) rest next)
        → Conserves
            (b ∷ rest)
            c
            (if x then if y then send_loop ans (i + 1) rest next else stop else stop)
    go true true later = record {
      bytes = later.bytes ∙ append_assoc c.echoed b (concat rest);
      window = omega (arith, later.window, length-append c.echoed b);
      es = later.es;
      is_closed = later.is_closed;
    }
    go true false later = record { bytes = refl; window = refl; es = refl; is_closed = refl }
    go false _ later = record { bytes = refl; window = refl; es = refl; is_closed = refl }

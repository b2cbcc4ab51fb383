-- ===== src/Netif/Remove.antt =====
-- `list_remove` takes the first node of the value out of the chain.
use scion_lwip_contrib.Base.{
  ℕ, zero, suc, ◌+◌, ◌-◌, ◌<◌, Bool, true, false, List, [], ◌∷◌, ◌++◌, Option, none, some,
  append-nil, append_assoc, length, length-append, ◌==◌, ==_iff, ne→==_false, if◌then◌else◌, ◌≡◌,
  refl, sym, subst, ap, ◌∙◌, arith,
}
use scion_lwip_contrib.Netif.List.{elem, Heap, relink, LwipList, unlink, remove_loop, list_remove}
use scion_lwip_contrib.Netif.Queue.{queue_remove}
use scion_lwip_contrib.Netif.Cells.{
  Cell, head_of, last_from, values, AreCells, AreCells-write, NotIn-last, last_ne_0, relinked,
  cells_right, Apart-tail, Apart-[], NotIn-rest,
}

-- The list's fields and its nodes agree.
pub record IsList (h : Heap) (l : LwipList) (cs : List Cell) : Type 0 where
  pub cells : AreCells h cs
  pub first_ok : l.first ≡ head_of cs
  pub last_ok : l.last ≡ last_from 0 cs
  pub elems_ok : l.elems ≡ length cs

-- An operation answers and leaves a list of the values.
abbrev pub Gives : Option (ℕ × LwipList × Heap) → ℕ → ℕ × List ℕ → Type 0
Gives r size q =
    (l' : LwipList) × (h' : Heap) × (cs' : List Cell) × (r ≡ some (q.0, l', h'))
    × (values cs' ≡ q.1)
    × (l'.size ≡ size)
    × IsList h' l' cs'

pub last_from-append :
    (p : ℕ) (pre : List Cell) (c : Cell) (post : List Cell)
    → last_from p (pre ++ c ∷ post) ≡ last_from c.0 post
last_from-append p [] c post = refl
last_from-append p (d ∷ pre) c post = last_from-append d.0 pre c post

pub values-append : (xs ys : List Cell) → values (xs ++ ys) ≡ values xs ++ values ys
values-append [] ys = refl
values-append (x ∷ xs) ys = ap (λ v. x.1 ∷ v) (values-append xs ys)

-- The chain around a node is linked past it, at the end of the list too.
bypassed :
    (h : Heap) (last : ℕ) (pre : List Cell) (c : Cell) (post : List Cell)
    → AreCells h (pre ++ c ∷ post)
    → last ≡ last_from c.0 post
    → (h' h'' : Heap) × (relink h (last_from 0 pre) (head_of post) ≡ some h')
      × ((if last == c.0 then relink h' (last_from 0 pre) 0 else some h') ≡ some h'')
      × AreCells h'' (pre ++ post)
      × ((if last == c.0 then last_from 0 pre else last) ≡ last_from 0 (pre ++ post))
bypassed h last pre c [] a e =
    let one = relinked h pre (c ∷ []) [] (Apart-[] pre) a tt in
    let two = relinked one.0 pre [] [] (Apart-[] pre) one.2 tt in
    let at_c = (==_iff last c.0).1 e in
    (one.0, two.0, one.1, rw at_c two.1, two.2, rw at_c rw (append-nil pre) refl)
bypassed h last pre c (d ∷ post) a e =
    let right = cells_right h pre (c ∷ d ∷ post) a in
    let one =
      relinked h pre (c ∷ d ∷ post) (d ∷ post) (Apart-tail h pre c (d ∷ post) a) a right.3 in
    let not_c = ne→==_false last c.0 (λ q. NotIn-last c.0 d post right.2 (sym q ∙ e)) in
    (one.0, one.0, one.1, rw not_c refl, one.2, rw not_c (e ∙ sym (last_from-append 0 pre d post)))

length-around :
    (pre : List Cell) (c : Cell) (post : List Cell)
    → length (pre ++ c ∷ post) - 1 ≡ length (pre ++ post)
length-around pre c post =
    rw (length-append pre (c ∷ post)) rw (length-append pre post) (omega arith)

first_around :
    (h : Heap) (first : ℕ) (pre : List Cell) (c : Cell) (post : List Cell)
    → AreCells h (pre ++ c ∷ post)
    → first ≡ head_of (pre ++ c ∷ post)
    → (if last_from 0 pre == 0 then head_of post else first) ≡ head_of (pre ++ post)
first_around h first [] c post a e = refl
first_around h first (d ∷ pre) c post a e =
    rw (ne→==_false (last_from d.0 pre) 0 (last_ne_0 h d pre (c ∷ post) a)) e

unlinked :
    (h : Heap) (l : LwipList) (pre : List Cell) (c : Cell) (post : List Cell)
    → IsList h l (pre ++ c ∷ post)
    → Gives
        (unlink h l (last_from 0 pre) c.0 (elem (head_of post) c.1))
        l.size
        (1, values pre ++ values post)
unfolding unlink
unlinked h l pre c post w =
    let around = bypassed h l.last pre c post w.cells (w.last_ok ∙ last_from-append 0 pre c post) in
    (
      _,
      _,
      pre ++ post,
      rw around.2 rw around.3 refl,
      values-append pre post,
      refl,
      record {
        cells =
            AreCells-write around.1 c.0 none (pre ++ post) (NotIn-rest h pre c post w.cells)
              around.4;
        first_ok = first_around h l.first pre c post w.cells w.first_ok;
        last_ok = around.5;
        elems_ok = ap (λ n. n - 1) w.elems_ok ∙ length-around pre c post;
      },
    )

-- A node passed by the loop stands with those before it.
passed :
    (fuel : ℕ) (h : Heap) (l : LwipList) (pre : List Cell) (c : Cell) (post : List Cell) (v n : ℕ)
    → (q : List ℕ)
    → Gives
        (remove_loop fuel h l (last_from 0 (pre ++ c ∷ [])) (head_of post) v)
        l.size
        (n, values (pre ++ c ∷ []) ++ q)
    → Gives (remove_loop fuel h l c.0 (head_of post) v) l.size (n, values pre ++ c.1 ∷ q)
passed fuel h l pre c post v n q g =
    let at_c =
      subst
        (λ p.
          Gives (remove_loop fuel h l p (head_of post) v) l.size (n, values (pre ++ c ∷ []) ++ q))
        (last_from-append 0 pre c []) g in
    subst (λ r. Gives (remove_loop fuel h l c.0 (head_of post) v) l.size (n, r))
      (ap (λ vs. vs ++ q) (values-append pre (c ∷ [])) ∙ append_assoc (values pre) (c.1 ∷ []) q)
      at_c

-- The loop from a node on, the ones before it being of other values.
remove_loop_lem :
    (fuel : ℕ) (h : Heap) (l : LwipList) (pre post : List Cell) (v : ℕ)
    → IsList h l (pre ++ post)
    → length post < fuel
    → Gives
        (remove_loop fuel h l (last_from 0 pre) (head_of post) v)
        l.size
        ((queue_remove (values post) v).0, values pre ++ (queue_remove (values post) v).1)
unfolding remove_loop queue_remove
remove_loop_lem zero h l pre post v w lt = absurd (omega arith)
remove_loop_lem (suc fuel) h l pre [] v w lt =
    (l, h, pre ++ [], refl, values-append pre [], refl, w)
remove_loop_lem (suc fuel) h l pre (c ∷ post) v w lt =
    let right = cells_right h pre (c ∷ post) w.cells in
    let later =
      remove_loop_lem fuel h l (pre ++ c ∷ []) post v
        (subst (IsList h l) (sym (append_assoc pre (c ∷ []) post)) w) (omega arith) in
    rw (ne→==_false c.0 0 right.0) rw right.1 (decide later (c.1 == v) refl)
  where
    decide :
        Gives (remove_loop fuel h l (last_from 0 (pre ++ c ∷ [])) (head_of post) v) l.size (
          (queue_remove (values post) v).0,
          values (pre ++ c ∷ []) ++ (queue_remove (values post) v).1,
        )
        → (b : Bool) → (c.1 == v) ≡ b
        → Gives
            (if c.1 == v
              then unlink h l (last_from 0 pre) c.0 (elem (head_of post) c.1)
              else remove_loop fuel h l c.0 (head_of post) v)
            l.size
            (
              (queue_remove (values (c ∷ post)) v).0,
              values pre ++ (queue_remove (values (c ∷ post)) v).1,
            )
    decide later true e = rw e (unlinked h l pre c post w)
    decide later false e = rw e (passed fuel h l pre c post v _ _ later)

pub list_remove_lem :
    (h : Heap) (l : LwipList) (cs : List Cell) (v : ℕ)
    → IsList h l cs
    → Gives (list_remove h l v) l.size (queue_remove (values cs) v)
unfolding list_remove
list_remove_lem h l cs v w =
    subst (λ p. Gives (remove_loop (l.elems + 1) h l 0 p v) l.size (queue_remove (values cs) v))
      (sym w.first_ok) (remove_loop_lem (l.elems + 1) h l [] cs v w (omega arith))

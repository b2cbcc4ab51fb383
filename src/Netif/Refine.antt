-- ===== src/Netif/Refine.antt =====
-- The calls of list.c in any order answer as a bounded queue does.
use scion_lwip_contrib.Base.{
  Option, ◌⊎◌, inl, inr, Bool-cases, ==_iff, ℕ, suc, ◌+◌, ◌-◌, ◌≢◌, Bool, true, false, List, [],
  ◌∷◌, ◌++◌, none, some, append-nil, length, length-append, ◌==◌, ne→==_false, ltb, if◌then◌else◌,
  lt→ltb, ◌≡◌, refl, sym, subst, ap, ◌∙◌, arith,
}
use scion_lwip_contrib.Netif.List.{
  elem, Heap, load, write, LwipList, list_new, push_linked, push_elem, list_push, pop_elem,
  list_pop,
}
use scion_lwip_contrib.Netif.Queue.{
  ListOp, push, pop, remove, list_step, list_run, queue_push, queue_pop, queue_step, queue_run,
}
use scion_lwip_contrib.Netif.Cells.{
  Cell, head_of, last_from, values, NotIn, AreCells, write-same, AreCells-write, NotIn-last,
  relinked, fresh_NotIn, NotIn-Apart,
}
use scion_lwip_contrib.Netif.Remove.{
  IsList, Gives, last_from-append, values-append, list_remove_lem,
}

-- What `malloc` promises: NULL, or an address that no node of the heap has.
abbrev pub IsMalloc : (Heap → ℕ) → Type 0
IsMalloc malloc = (h : Heap) → (malloc h ≡ 0) ⊎ (load h (malloc h) ≡ none)

-- The fault of a push for which there is no memory.
abbrev pub RanOut : {R : Type 0} → (Heap → ℕ) → Option R → Type 0
RanOut malloc r = (r ≡ none) × (h : Heap) × (malloc h ≡ 0)

length-values : (cs : List Cell) → length (values cs) ≡ length cs
length-values [] = refl
length-values (c ∷ cs) = ap suc (length-values cs)

push_first :
    (h : Heap) (first fresh value : ℕ) (cs : List Cell)
    → AreCells h cs
    → first ≡ head_of cs
    → (if first == 0 then fresh else first) ≡ head_of (cs ++ (fresh, value) ∷ [])
push_first h first fresh value [] a e = rw e refl
push_first h first fresh value (c ∷ cs) a e = rw e rw (ne→==_false c.0 0 a.0) refl

pushed :
    (fresh : ℕ) (h : Heap) (l : LwipList) (cs : List Cell) (v : ℕ)
    → fresh ≢ 0
    → load h fresh ≡ none
    → IsList h l cs
    → Gives (push_linked fresh h l v) l.size (1, values cs ++ v ∷ [])
unfolding push_linked
pushed fresh h l cs v nz free w =
    let new = (fresh, v) ∷ [] in
    let h1 = write h fresh (some (elem 0 v)) in
    let out = fresh_NotIn h fresh cs free w.cells in
    let kept = AreCells-write h fresh (some (elem 0 v)) cs out w.cells in
    let linked =
      relinked h1 cs [] new (NotIn-Apart fresh v cs out)
        (subst (AreCells h1) (sym (append-nil cs)) kept)
        (nz, write-same h fresh (some (elem 0 v)), tt, tt) in
    (
      _,
      _,
      cs ++ new,
      rw w.last_ok rw linked.1 refl,
      values-append cs new,
      refl,
      record {
        cells = linked.2;
        first_ok = push_first h l.first fresh v cs w.cells w.first_ok;
        last_ok = sym (last_from-append 0 cs (fresh, v) []);
        elems_ok = ap (λ n. n + 1) w.elems_ok ∙ sym (length-append cs new);
      },
    )

allocated :
    (malloc : Heap → ℕ) (h : Heap) (l : LwipList) (cs : List Cell) (v : ℕ)
    → IsMalloc malloc
    → IsList h l cs
    → Gives (push_elem (malloc h) h l v) l.size (1, values cs ++ v ∷ [])
      ⊎ RanOut malloc (push_elem (malloc h) h l v)
unfolding push_elem
allocated malloc h l cs v m w = elim (Bool-cases (malloc h == 0)) [
  | inl e ↦ inr (rw e refl, h, (==_iff (malloc h) 0).0 e)
  | inr e ↦ inl (rw e (pushed (malloc h) h l cs v (not_null e) (free e (m h)) w))
]
  where
    not_null : (malloc h == 0) ≡ false → malloc h ≢ 0
    not_null e z = cc (rw z at e)

    free :
        (malloc h == 0) ≡ false
        → ((malloc h ≡ 0) ⊎ (load h (malloc h) ≡ none))
        → load h (malloc h) ≡ none
    free e (inl z) = absurd (not_null e z)
    free e (inr f) = f

list_push_lem :
    (malloc : Heap → ℕ) (h : Heap) (l : LwipList) (cs : List Cell) (v : ℕ)
    → IsMalloc malloc
    → IsList h l cs
    → Gives (list_push malloc h l v) l.size (queue_push l.size (values cs) v)
      ⊎ RanOut malloc (list_push malloc h l v)
unfolding list_push queue_push
list_push_lem malloc h l cs v m w =
    rw (length-values cs) rw (sym w.elems_ok) (decide (ltb l.elems l.size) refl)
  where
    decide :
        (b : Bool)
        → ltb l.elems l.size ≡ b
        → Gives
            (if ltb l.elems l.size then push_elem (malloc h) h l v else some (0, l, h))
            l.size
            (if ltb l.elems l.size then (1, values cs ++ v ∷ []) else (0, values cs))
          ⊎ RanOut malloc
              (if ltb l.elems l.size then push_elem (malloc h) h l v else some (0, l, h))
    decide true e = rw e (allocated malloc h l cs v m w)
    decide false e = rw e (inl (l, h, cs, refl, refl, refl, w))

popped_last :
    (h : Heap) (first last : ℕ) (c : Cell) (cs : List Cell)
    → NotIn c.0 cs
    → first ≡ c.0
    → last ≡ last_from c.0 cs
    → (if first == last then head_of cs else last) ≡ last_from 0 cs
popped_last h first last c [] n e f = rw ((==_iff first last).1 (e ∙ sym f)) refl
popped_last h first last c (d ∷ cs) n e f =
    rw (ne→==_false first last (λ q. NotIn-last c.0 d cs n (sym e ∙ q ∙ f))) f

popped :
    (h : Heap) (l : LwipList) (c : Cell) (cs : List Cell)
    → IsList h l (c ∷ cs)
    → Gives (pop_elem h l) l.size (c.1, values cs)
unfolding pop_elem
popped h l c cs w =
    let e = w.first_ok in
    (
      record l {
        first = head_of cs;
        last = if l.first == l.last then head_of cs else l.last;
        elems = l.elems - 1;
      },
      write h l.first none,
      cs,
      rw (ap (λ p. load h p) e ∙ w.cells.1) refl,
      refl,
      refl,
      record {
        cells = rw e (AreCells-write h c.0 none cs w.cells.2 w.cells.3);
        first_ok = refl;
        last_ok = popped_last h l.first l.last c cs w.cells.2 e w.last_ok;
        elems_ok = (omega arith);
      },
    )

list_pop_lem :
    (h : Heap) (l : LwipList) (cs : List Cell)
    → IsList h l cs
    → Gives (list_pop h l) l.size (queue_pop (values cs))
unfolding list_pop
list_pop_lem h l [] w = rw (ap (λ n. ltb 0 n) w.elems_ok) (l, h, [], refl, refl, refl, w)
list_pop_lem h l (c ∷ cs) w = rw (lt→ltb 0 l.elems (omega arith)) (popped h l c cs w)

list_step_lem :
    (malloc : Heap → ℕ) (h : Heap) (l : LwipList) (cs : List Cell) (op : ListOp)
    → IsMalloc malloc
    → IsList h l cs
    → Gives (list_step malloc h l op) l.size (queue_step l.size (values cs) op)
      ⊎ RanOut malloc (list_step malloc h l op)
unfolding list_step
list_step_lem malloc h l cs (push v) m w = list_push_lem malloc h l cs v m w
list_step_lem malloc h l cs pop m w = inl (list_pop_lem h l cs w)
list_step_lem malloc h l cs (remove v) m w = inl (list_remove_lem h l cs v w)

list_run_lem :
    (malloc : Heap → ℕ) (h : Heap) (l : LwipList) (cs : List Cell) (ops : List ListOp)
    → IsMalloc malloc
    → IsList h l cs
    → (list_run malloc h l ops ≡ some (queue_run l.size (values cs) ops))
      ⊎ RanOut malloc (list_run malloc h l ops)
unfolding list_run queue_run
list_run_lem malloc h l cs [] m w = inl refl
list_run_lem malloc h l cs (op ∷ ops) m w = elim (list_step_lem malloc h l cs op m w) [
  | inr out ↦ inr (rw out.0 refl, out.1, out.2)
  | inl s ↦ elim (list_run_lem malloc s.1 s.0 s.2 ops m s.6) [
    | inl rest ↦ inl (rw s.3 rw rest rw s.4 rw s.5 refl)
    | inr out ↦ inr (rw s.3 rw out.0 refl, out.1, out.2)
  ]
]

-- The calls of `list_push`, `list_pop` and `list_remove`, in any order from a new list, answer as a queue
-- of at most `size` values does, unless `malloc` returns NULL for a heap; then a push may fault, and nothing else
-- does. `list_push` appends where there is room and answers 1, else 0; `list_pop` answers the oldest value and
-- takes it out, or NULL; `list_remove` takes the oldest of the equal values out and answers 1, else 0. `malloc`
-- gives NULL or an address that is not in use.
pub list_run-queue_run :
    (malloc : Heap → ℕ) (h : Heap) (size : ℕ) (ops : List ListOp)
    → IsMalloc malloc
    → (list_run malloc h (list_new size) ops ≡ some (queue_run size [] ops))
      ⊎ RanOut malloc (list_run malloc h (list_new size) ops)
list_run-queue_run malloc h size ops m =
    list_run_lem malloc h (list_new size) [] ops m
      (record { cells = tt; first_ok = refl; last_ok = refl; elems_ok = refl })

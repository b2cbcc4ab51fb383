-- ===== src/Netif/Cells.antt =====
-- What the nodes of a heap hold, and what the relinking of list.c makes of it.
use scion_lwip_contrib.Base.{
  ℕ, ◌≢◌, List, [], ◌∷◌, ◌++◌, Option, none, some, ==_iff, ne→==_false, ◌≡◌, refl, sym, ap, ◌∙◌,
}
use mathlib.Core.Option.{none-ne-some}
use scion_lwip_contrib.Netif.List.{Elem, elem, Heap, load, write, set_next, relink}

-- The nodes of a list, each with its address and value.
abbrev pub Cell : Type 0
Cell = ℕ × ℕ

abbrev pub head_of : List Cell → ℕ
head_of [] = 0
head_of (c ∷ cs) = c.0

abbrev pub last_from : ℕ → List Cell → ℕ
last_from p [] = p
last_from p (c ∷ cs) = last_from c.0 cs

abbrev pub last_value : ℕ → List Cell → ℕ
last_value v [] = v
last_value v (c ∷ cs) = last_value c.1 cs

abbrev pub values : List Cell → List ℕ
values [] = []
values (c ∷ cs) = c.1 ∷ values cs

abbrev pub NotIn : ℕ → List Cell → Type 0
NotIn p [] = Unit {0}
NotIn p (c ∷ cs) = (p ≢ c.0) × NotIn p cs

abbrev pub Apart : List Cell → List Cell → Type 0
Apart [] ys = Unit {0}
Apart (c ∷ cs) ys = NotIn c.0 ys × Apart cs ys

-- The heap holds the nodes, linked in order, at different addresses.
abbrev pub AreCells : Heap → List Cell → Type 0
AreCells h [] = Unit {0}
AreCells h (c ∷ cs) =
    (c.0 ≢ 0) × (load h c.0 ≡ some (elem (head_of cs) c.1)) × NotIn c.0 cs × AreCells h cs

pub write-same : (h : Heap) (p : ℕ) (c : Option Elem) → load (write h p c) p ≡ c
unfolding load
write-same h p c = rw ((==_iff p p).1 refl) refl

pub write-other : (h : Heap) (p a : ℕ) (c : Option Elem) → a ≢ p → load (write h p c) a ≡ load h a
unfolding load
write-other h p a c ne = rw (ne→==_false a p ne) refl

-- A write at another address keeps the nodes.
pub AreCells-write :
    (h : Heap) (p : ℕ) (c : Option Elem) (cs : List Cell)
    → NotIn p cs
    → AreCells h cs
    → AreCells (write h p c) cs
AreCells-write h p c [] n a = tt
AreCells-write h p c (d ∷ cs) n a =
    (a.0, write-other h p d.0 c (λ e. n.0 (sym e)) ∙ a.1, a.2, AreCells-write h p c cs n.1 a.3)

pub NotIn-append : (p : ℕ) (xs ys : List Cell) → NotIn p xs → NotIn p ys → NotIn p (xs ++ ys)
NotIn-append p [] ys n m = m
NotIn-append p (x ∷ xs) ys n m = (n.0, NotIn-append p xs ys n.1 m)

pub NotIn-left : (p : ℕ) (xs ys : List Cell) → NotIn p (xs ++ ys) → NotIn p xs
NotIn-left p [] ys n = tt
NotIn-left p (x ∷ xs) ys n = (n.0, NotIn-left p xs ys n.1)

pub NotIn-right : (p : ℕ) (xs ys : List Cell) → NotIn p (xs ++ ys) → NotIn p ys
NotIn-right p [] ys n = n
NotIn-right p (x ∷ xs) ys n = NotIn-right p xs ys n.1

pub NotIn-last : (p : ℕ) (c : Cell) (cs : List Cell) → NotIn p (c ∷ cs) → p ≢ last_from c.0 cs
NotIn-last p c [] n = n.0
NotIn-last p c (d ∷ cs) n = NotIn-last p d cs n.1

-- The last of some nodes holds the head of the rest and its value.
pub last_holds :
    (h : Heap) (c : Cell) (cs ys : List Cell)
    → AreCells h (c ∷ cs ++ ys)
    → load h (last_from c.0 cs) ≡ some (elem (head_of ys) (last_value c.1 cs))
last_holds h c [] ys a = a.1
last_holds h c (d ∷ cs) ys a = last_holds h d cs ys a.3

pub last_ne_0 :
    (h : Heap) (c : Cell) (cs ys : List Cell) → AreCells h (c ∷ cs ++ ys) → last_from c.0 cs ≢ 0
last_ne_0 h c [] ys a = a.0
last_ne_0 h c (d ∷ cs) ys a = last_ne_0 h d cs ys a.3

-- The last of some nodes is linked to others in place of the rest.
retail :
    (h : Heap) (c : Cell) (cs xs ys : List Cell)
    → Apart (c ∷ cs) ys
    → AreCells h (c ∷ cs ++ xs)
    → AreCells h ys
    → AreCells
        (write h (last_from c.0 cs) (some (elem (head_of ys) (last_value c.1 cs))))
        (c ∷ cs ++ ys)
retail h c [] xs ys n a b =
    (a.0, write-same h c.0 (some (elem (head_of ys) c.1)), n.0, AreCells-write h c.0 _ ys n.0 b)
retail h c (d ∷ cs) xs ys n a b = (
  a.0,
  write-other h (last_from d.0 cs) c.0 _ (NotIn-last c.0 d cs (NotIn-left c.0 (d ∷ cs) xs a.2))
      ∙ a.1,
  NotIn-append c.0 (d ∷ cs) ys (NotIn-left c.0 (d ∷ cs) xs a.2) n.0,
  retail h d cs xs ys n.1 a.3 b,
)

pub relinked :
    (h : Heap) (pre xs ys : List Cell)
    → Apart pre ys
    → AreCells h (pre ++ xs)
    → AreCells h ys
    → (h' : Heap) × (relink h (last_from 0 pre) (head_of ys) ≡ some h') × AreCells h' (pre ++ ys)
unfolding relink set_next
relinked h [] xs ys n a b = (h, refl, b)
relinked h (c ∷ cs) xs ys n a b = (
  write h (last_from c.0 cs) (some (elem (head_of ys) (last_value c.1 cs))),
  rw (ne→==_false (last_from c.0 cs) 0 (last_ne_0 h c cs xs a)) rw (last_holds h c cs xs a) refl,
  retail h c cs xs ys n a b,
)

-- The parts of a chain.
pub cells_right : (h : Heap) (xs ys : List Cell) → AreCells h (xs ++ ys) → AreCells h ys
cells_right h [] ys a = a
cells_right h (x ∷ xs) ys a = cells_right h xs ys a.3

pub Apart-tail :
    (h : Heap) (xs : List Cell) (c : Cell) (ys : List Cell)
    → AreCells h (xs ++ c ∷ ys)
    → Apart xs ys
Apart-tail h [] c ys a = tt
Apart-tail h (x ∷ xs) c ys a = ((NotIn-right x.0 xs (c ∷ ys) a.2).1, Apart-tail h xs c ys a.3)

pub Apart-[] : (xs : List Cell) → Apart xs []
Apart-[] [] = tt
Apart-[] (x ∷ xs) = (tt, Apart-[] xs)

-- The nodes beside one are at other addresses.
pub NotIn-rest :
    (h : Heap) (xs : List Cell) (c : Cell) (ys : List Cell)
    → AreCells h (xs ++ c ∷ ys)
    → NotIn c.0 (xs ++ ys)
NotIn-rest h [] c ys a = a.2
NotIn-rest h (x ∷ xs) c ys a =
    (λ e. (NotIn-right x.0 xs (c ∷ ys) a.2).0 (sym e), NotIn-rest h xs c ys a.3)

-- A new node is at another address than those in the heap.
pub fresh_NotIn : (h : Heap) (p : ℕ) (cs : List Cell) → load h p ≡ none → AreCells h cs → NotIn p cs
fresh_NotIn h p [] n a = tt
fresh_NotIn h p (c ∷ cs) n a =
    (λ e. none-ne-some _ (sym n ∙ ap (load h) e ∙ a.1), fresh_NotIn h p cs n a.3)

pub NotIn-Apart : (p v : ℕ) (cs : List Cell) → NotIn p cs → Apart cs ((p, v) ∷ [])
NotIn-Apart p v [] n = tt
NotIn-Apart p v (c ∷ cs) n = ((λ e. n.0 (sym e), tt), NotIn-Apart p v cs n.1)

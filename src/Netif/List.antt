-- ===== src/Netif/List.antt =====
-- ports/unix/netif/list.c: the elements are nodes of a heap, NULL is 0, and `none` is a fault: a NULL or freed
-- node is read or written.
use scion_lwip_contrib.Base.{
  ℕ, zero, suc, ◌+◌, ◌-◌, List, [], ◌∷◌, Option, none, some, ◌==◌, ltb, if◌then◌else◌,
}
use scion_lwip_contrib.Lwip.{◌>>=◌}

-- `struct elem`
pub record Elem : Type 0 where
  pub next : ℕ
  pub value : ℕ

abbrev pub elem : ℕ → ℕ → Elem
elem next value = record { next = next; value = value }

-- The heap is the log of its writes; a freed node is a write of `none`.
abbrev pub Heap : Type 0
Heap = List (ℕ × Option Elem)

unfoldable pub load : Heap → ℕ → Option Elem
load [] a = none
load (w ∷ h) a = if a == w.0 then w.1 else load h a

abbrev pub write : Heap → ℕ → Option Elem → Heap
write h p c = (p, c) ∷ h

-- `p->next = q`
unfoldable pub set_next : Heap → ℕ → ℕ → Option Heap
set_next h p q = do e ← load h p; some (write h p (some (record e { next = q })))

-- `struct list`. A negative `size` lets nothing in, as 0 does.
pub record LwipList : Type 0 where
  pub first : ℕ
  pub last : ℕ
  pub size : ℕ
  pub elems : ℕ

abbrev pub list_new : ℕ → LwipList
list_new size = record { first = 0; last = 0; size = size; elems = 0 }

-- `if (p != NULL) p->next = q;`
unfoldable pub relink : Heap → ℕ → ℕ → Option Heap
unfolding set_next
relink h p q = if p == 0 then some h else set_next h p q

-- `list_push` behind the allocation, with the element at `fresh`.
unfoldable pub push_linked : ℕ → Heap → LwipList → ℕ → Option (ℕ × LwipList × Heap)
unfolding relink
push_linked fresh h l value = do
  h' ← relink (write h fresh (some (elem 0 value))) l.last fresh
  some (
    1,
    record l { first = if l.first == 0 then fresh else l.first; last = fresh; elems = l.elems + 1 },
    h',
  )

-- `list_push` behind its guard: the fields of the element are written without a test for NULL.
unfoldable pub push_elem : ℕ → Heap → LwipList → ℕ → Option (ℕ × LwipList × Heap)
unfolding push_linked
push_elem fresh h l value = if fresh == 0 then none else push_linked fresh h l value

-- `list_push`; `malloc` is the allocator's choice of an address, or 0 for NULL.
unfoldable pub list_push : (Heap → ℕ) → Heap → LwipList → ℕ → Option (ℕ × LwipList × Heap)
unfolding push_elem
list_push malloc h l value =
    if ltb l.elems l.size then push_elem (malloc h) h l value else some (0, l, h)

-- `list_pop` behind its guard.
unfoldable pub pop_elem : Heap → LwipList → Option (ℕ × LwipList × Heap)
unfolding load
pop_elem h l = do
  e ← load h l.first
  some (
    e.value,
    record l {
      first = e.next;
      last = if l.first == l.last then e.next else l.last;
      elems = l.elems - 1;
    },
    write h l.first none,
  )

-- `list_pop`
unfoldable pub list_pop : Heap → LwipList → Option (ℕ × LwipList × Heap)
unfolding pop_elem
list_pop h l = if ltb 0 l.elems then pop_elem h l else some (0, l, h)

-- The unlinking of the element at `e` in `list_remove`, with the one before it at `p`.
unfoldable pub unlink : Heap → LwipList → ℕ → ℕ → Elem → Option (ℕ × LwipList × Heap)
unfolding relink
unlink h l p e n = do
  h' ← relink h p n.next
  h'' ← if l.last == e then relink h' p 0 else some h'
  some (
    1,
    record l {
      first = if p == 0 then n.next else l.first;
      last = if l.last == e then p else l.last;
      elems = l.elems - 1;
    },
    write h'' e none,
  )

-- The loop of `list_remove`, with fuel; `none` also where it runs out.
unfoldable pub remove_loop : ℕ → Heap → LwipList → ℕ → ℕ → ℕ → Option (ℕ × LwipList × Heap)
unfolding unlink load
remove_loop zero h l p e value = none
remove_loop (suc fuel) h l p e value = if e == 0 then some (0, l, h) else do
  n ← load h e
  if n.value == value then unlink h l p e n else remove_loop fuel h l e n.next value

-- `list_remove`
unfoldable pub list_remove : Heap → LwipList → ℕ → Option (ℕ × LwipList × Heap)
unfolding remove_loop
list_remove h l value = remove_loop (l.elems + 1) h l 0 l.first value

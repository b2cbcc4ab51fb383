-- ===== src/Netif/Fifo/Slots.antt =====
-- The slots of fifo.c as a ring.
use scion_lwip_contrib.Base.{
  ℕ, zero, suc, ◌+◌, ◌≤◌, ◌<◌, ◌⊎◌, inl, inr, List, [], ◌∷◌, ◌++◌, length, ◌==◌, ==_iff,
  ne→==_false, if◌then◌else◌, ◌≡◌, refl, sym, subst, ap, ◌∙◌, arith,
}
use scion_lwip_contrib.Netif.Fifo.{read_into, wrap}

-- The slot `n` behind slot `i`.
abbrev pub advance : ℕ → ℕ → ℕ
advance zero i = i
advance (suc n) i = advance n (wrap (i + 1))

-- The slots from `i` on hold the bytes.
abbrev pub Holds : (ℕ → ℕ) → ℕ → List ℕ → Type 0
Holds d i [] = Unit {0}
Holds d i (b ∷ bs) = (d i ≡ b) × Holds d (wrap (i + 1)) bs

-- The slot behind one, and the wrap at the end.
wrap-cases :
    (i : ℕ)
    → i < 2048
    → ((wrap (i + 1) ≡ i + 1) × (i + 1 < 2048)) ⊎ ((wrap (i + 1) ≡ 0) × (i + 1 ≡ 2048))
unfolding wrap
wrap-cases i lt = ground arith

wrap-below : (i : ℕ) → i < 2048 → wrap (i + 1) < 2048
unfolding wrap
wrap-below i lt = ground arith

-- The end of fewer than 2048 slots, before or behind the wrap.
pub advance_lem :
    (n i : ℕ)
    → i < 2048
    → n ≤ 2048
    → (advance n i < 2048) × ((i + n ≡ advance n i) ⊎ (i + n ≡ advance n i + 2048))
advance_lem zero i lt le = (lt, inl (omega arith))
advance_lem (suc n) i lt le =
    let below = wrap-below i lt in
    let rest = advance_lem n (wrap (i + 1)) below (omega arith) in
    (rest.0, elim (wrap-cases i lt) [ inl a ↦ ground arith | inr b ↦ ground arith ])

-- A run of slots that ends at the array's end or before it.
pub advance-straight :
    (n i : ℕ) → i < 2048 → i + n ≤ 2048 → advance n i ≡ (if i + n == 2048 then 0 else i + n)
advance-straight n i lt le = let r = advance_lem n i lt (omega arith) in ground arith

pub advance-add : (m n i : ℕ) → advance (m + n) i ≡ advance n (advance m i)
advance-add zero n i = ap (λ k. advance k i) (let e : 0 + n ≡ n = omega arith in e)
advance-add (suc m) n i =
    let e : suc m + n ≡ suc (m + n) = omega arith in
    ap (λ k. advance k i) e ∙ advance-add m n (wrap (i + 1))

-- The slots outside the ones that are written.
pub read_into-keeps :
    (bs : List ℕ) (a k : ℕ) (d : ℕ → ℕ) → (k < a) ⊎ (a + length bs ≤ k) → read_into a bs d k ≡ d k
unfolding read_into
read_into-keeps [] a k d out = refl
read_into-keeps (b ∷ bs) a k d out =
    rw (ne→==_false k a (λ e. ground arith)) (read_into-keeps bs (a + 1) k d (ground arith))

-- The bytes in use stay, if they end before the ones that are written.
pub Holds-keeps :
    (bs q : List ℕ) (a i : ℕ) (d : ℕ → ℕ)
    → i < 2048
    → a + length bs ≤ 2048
    → ((i + length q ≤ a) ⊎ ((a + length bs ≤ i) × (i + length q ≤ a + 2048)))
    → Holds d i q
    → Holds (read_into a bs d) i q
Holds-keeps bs [] a i d lt fits out h = tt
Holds-keeps bs (x ∷ q) a i d lt fits out h = (
  read_into-keeps bs a i d (ground arith) ∙ h.0,
  Holds-keeps bs q a (wrap (i + 1)) d (wrap-below i lt) fits
      (elim (wrap-cases i lt) [ inl e ↦ ground arith | inr e ↦ ground arith ]) h.1,
)

pub Holds-append :
    (d : ℕ → ℕ) (q bs : List ℕ) (i : ℕ)
    → Holds d i q
    → Holds d (advance (length q) i) bs
    → Holds d i (q ++ bs)
Holds-append d [] bs i h g = g
Holds-append d (x ∷ q) bs i h g = (h.0, Holds-append d q bs (wrap (i + 1)) h.1 g)

straight : (i : ℕ) → i + 1 < 2048 → wrap (i + 1) ≡ i + 1
unfolding wrap
straight i lt = ground arith

-- A byte before the ones in use may be another.
Holds-behind :
    (d : ℕ → ℕ) (a b : ℕ) (bs : List ℕ) (i : ℕ)
    → a < i
    → i + length bs ≤ 2048
    → Holds d i bs
    → Holds (λ k. if k == a then b else d k) i bs
Holds-behind d a b [] i lt fits h = tt
Holds-behind d a b (x ∷ []) i lt fits h = (rw (ne→==_false i a (λ e. omega arith)) h.0, tt)
Holds-behind d a b (x ∷ y ∷ bs) i lt fits h =
    let e = straight i (omega arith) in
    (
      rw (ne→==_false i a (λ e. omega arith)) h.0,
      subst (λ j. Holds (λ k. if k == a then b else d k) j (y ∷ bs)) (sym e)
          (Holds-behind d a b (y ∷ bs) (i + 1) (omega arith) (omega arith)
            (subst (λ j. Holds d j (y ∷ bs)) e h.1)),
    )

-- The written slots hold the bytes.
pub Holds-read_into :
    (bs : List ℕ) (a : ℕ) (d : ℕ → ℕ) → a + length bs ≤ 2048 → Holds (read_into a bs d) a bs
unfolding read_into
Holds-read_into [] a d fits = tt
Holds-read_into (b ∷ []) a d fits = (rw ((==_iff a a).1 refl) refl, tt)
Holds-read_into (b ∷ c ∷ bs) a d fits = (
  rw ((==_iff a a).1 refl) refl,
  subst (λ j. Holds (read_into a (b ∷ c ∷ bs) d) j (c ∷ bs)) (sym (straight a (omega arith)))
      (Holds-behind (read_into (a + 1) (c ∷ bs) d) a b (c ∷ bs) (a + 1) (omega arith) (omega arith)
        (Holds-read_into (c ∷ bs) (a + 1) d (omega arith))),
)

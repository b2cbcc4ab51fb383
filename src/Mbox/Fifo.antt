-- ===== src/Mbox/Fifo.antt =====
-- The mailboxes of ports/unix/sys_arch.c against a bounded first-in first-out queue.
use scion_lwip_contrib.Base.{
  ℕ, zero, suc, ◌+◌, ◌-◌, ◌%◌, ◌≤◌, ◌<◌, Bool, true, false, List, [], ◌∷◌, ◌++◌, Option, none, some,
  length, ltb, ◌==◌, Bool-cases, ne→==_false, lt→ltb, lt→leb_false, ◌^◌, le→ltb_false, leb→le,
  leb_false→lt, ==_iff, inl, inr, if◌then◌else◌, ◌≡◌, refl, ap, ◌∙◌, arith,
}
use scion_lwip_contrib.Lwip.{Err}
use scion_lwip_contrib.Mbox.{
  Mbox, is_full, set_slot, enqueue, dequeue, head_of, sys_mbox_trypost, sys_mbox_post, post_look,
  post_look_again, sys_arch_mbox_tryfetch, empty_mbox, overflows, guarded, Op, Answer, tried,
  posted, fetched, step, run,
}

ne→lt : (a b : ℕ) → a ≤ b → (a == b) ≡ false → a < b
ne→lt a b le e = ground arith

module _ {ℓ} {A : Type ℓ} where
  -- The `n` messages from index `i` on.
  abbrev pub items : (ℕ → A) → ℕ → ℕ → List A
  items msgs i zero = []
  items msgs i (suc n) = msgs (i % 128) ∷ items msgs (i + 1) n

  abbrev pub contents : Mbox A → List A
  contents m = items m.msgs m.first (m.last - m.first)

  -- The slots are enough for what lies between the two counters.
  abbrev pub IsValid : Mbox A → Type 0
  IsValid m = (m.first ≤ m.last) × (m.last < m.first + 128)

  -- The queue that the mailbox stands for.
  abbrev pub queue_post : A → List A → List A × Bool
  queue_post msg q = if ltb (length q) 127 then (q ++ (msg ∷ []), true) else (q, false)

  abbrev pub queue_trypost : A → List A → List A × Err
  queue_trypost msg q = if ltb (length q) 127 then (q ++ (msg ∷ []), Err.ok) else (q, Err.mem)

  abbrev pub queue_fetch : List A → List A × Option A
  queue_fetch [] = ([], none)
  queue_fetch (x ∷ q) = (q, some x)

  length-items : (msgs : ℕ → A) (i n : ℕ) → length (items msgs i n) ≡ n
  length-items msgs i zero = refl
  length-items msgs i (suc n) = omega (arith, length-items msgs (i + 1) n)

  items-suc :
      (msgs : ℕ → A) (i n : ℕ)
      → items msgs i (suc n) ≡ items msgs i n ++ (msgs ((i + n) % 128) ∷ [])
  items-suc msgs i zero = ap (λ j. msgs (j % 128) ∷ []) (omega arith)
  items-suc msgs i (suc n) =
      ap (λ q. msgs (i % 128) ∷ q)
        (items-suc msgs (i + 1) n
          ∙ ap (λ j. items msgs (i + 1) n ++ (msgs (j % 128) ∷ [])) (omega arith))

  items-set_slot :
      (msgs : ℕ → A) (msg : A) (last i n : ℕ)
      → i + n ≡ last
      → n < 128
      → items (set_slot (last % 128) msg msgs) i n ≡ items msgs i n
  unfolding set_slot
  items-set_slot msgs msg last i zero e small = refl
  items-set_slot msgs msg last i (suc n) e small =
      rw
        (
          ne→==_false (last % 128) (i % 128) (λ h. omega (arith, h, e, small)),
          items-set_slot msgs msg last (i + 1) n (omega (arith, e)) (omega (arith, small)),
        )
        refl

  items_at : (msgs : ℕ → A) (i n k : ℕ) → n ≡ k → items msgs i n ≡ items msgs i k
  items_at msgs i n k e = ap (items msgs i) e

  set_slot-same : (msgs : ℕ → A) (msg : A) (i : ℕ) → set_slot i msg msgs i ≡ msg
  unfolding set_slot
  set_slot-same msgs msg i = rw ((==_iff i i).1 refl) refl

  enqueue-contents :
      (msg : A) (m : Mbox A)
      → m.first ≤ m.last
      → m.last + 1 < m.first + 128
      → contents (enqueue msg m) ≡ contents m ++ (msg ∷ [])
  unfolding enqueue
  enqueue-contents msg m ordered room =
      let msgs = set_slot (m.last % 128) msg m.msgs in
      let n = m.last - m.first in
      let more : m.last + 1 - m.first ≡ suc n = omega (arith, ordered) in
      let at : m.first + n ≡ m.last = omega (arith, ordered) in
      let small : n < 128 = omega (arith, ordered, room) in
      items_at msgs m.first (m.last + 1 - m.first) (suc n) more
      ∙ items-suc msgs m.first n
      ∙ (rw
          (
            items-set_slot m.msgs msg m.last m.first n at small,
            at,
            set_slot-same m.msgs msg (m.last % 128),
          )
          refl)

  dequeue-contents : (m : Mbox A) → m.first < m.last → contents m ≡ head_of m ∷ contents (dequeue m)
  unfolding dequeue head_of
  dequeue-contents m left =
      items_at m.msgs m.first (m.last - m.first) (suc (m.last - (m.first + 1)))
        (omega (arith, left))

  enqueue-IsValid :
      (msg : A) (m : Mbox A) → IsValid m → m.last + 1 < m.first + 128 → IsValid (enqueue msg m)
  unfolding enqueue
  enqueue-IsValid msg m ok room = (omega (arith, ok.0), room)

  dequeue-IsValid : (m : Mbox A) → IsValid m → m.first < m.last → IsValid (dequeue m)
  unfolding dequeue
  dequeue-IsValid m ok left = (omega (arith, left), omega (arith, ok.1))

  length-contents : (m : Mbox A) → length (contents m) ≡ m.last - m.first
  length-contents m = length-items m.msgs m.first (m.last - m.first)

  is_full-le : (m : Mbox A) → is_full m ≡ true → m.first + 128 ≤ m.last + 1
  unfolding is_full
  is_full-le m e = leb→le (m.first + 128) (m.last + 1) e

  not_full-lt : (m : Mbox A) → is_full m ≡ false → m.last + 1 < m.first + 128
  unfolding is_full
  not_full-lt m e = leb_false→lt (m.first + 128) (m.last + 1) e

  -- The queue a mailbox stands for, and what a call gave.
  abbrev Is : {R : Type 0} → Mbox A × R → List A × R → Type ℓ
  Is r spec = IsValid r.0 × (contents r.0 ≡ spec.0) × (r.1 ≡ spec.1)

  trypost-Is :
      (msg : A) (m : Mbox A)
      → IsValid m
      → Is (sys_mbox_trypost msg m) (queue_trypost msg (contents m))
  unfolding sys_mbox_trypost
  trypost-Is msg m ok = elim (Bool-cases (is_full m)) [
    | inl full ↦
        rw
          (
            full,
            length-contents m,
            le→ltb_false (m.last - m.first) 127 (omega (arith, is_full-le m full)),
          )
          (ok, refl, refl)
    | inr room ↦
        rw
          (
            room,
            length-contents m,
            lt→ltb (m.last - m.first) 127 (omega (arith, ok.0, not_full-lt m room)),
          )
          (
            enqueue-IsValid msg m ok (not_full-lt m room),
            enqueue-contents msg m ok.0 (not_full-lt m room),
            refl,
          )
  ]

  post-Is :
      (msg : A) (m : Mbox A) → IsValid m → Is (sys_mbox_post msg m) (queue_post msg (contents m))
  unfolding sys_mbox_post post_look
  post-Is msg m ok = elim (Bool-cases (is_full m)) [
    | inl full ↦
        rw
          (
            full,
            length-contents m,
            le→ltb_false (m.last - m.first) 127 (omega (arith, is_full-le m full)),
          )
          (ok, refl, refl)
    | inr room ↦
        rw
          (
            room,
            length-contents m,
            lt→ltb (m.last - m.first) 127 (omega (arith, ok.0, not_full-lt m room)),
          )
          (
            enqueue-IsValid msg m ok (not_full-lt m room),
            enqueue-contents msg m ok.0 (not_full-lt m room),
            refl,
          )
  ]

  post_again-Is :
      (msg : A) (m : Mbox A) → IsValid m → Is (post_look_again msg m) (queue_post msg (contents m))
  unfolding post_look_again sys_mbox_post
  post_again-Is msg m ok = post-Is msg (record m { wait_send = m.wait_send - 1 }) ok

  fetch-Is :
      (m : Mbox A)
      → IsValid m
      → IsValid (sys_arch_mbox_tryfetch m).0
        × (contents (sys_arch_mbox_tryfetch m).0 ≡ (queue_fetch (contents m)).0)
        × ((sys_arch_mbox_tryfetch m).1 ≡ (queue_fetch (contents m)).1)
  unfolding sys_arch_mbox_tryfetch
  fetch-Is m ok = elim (Bool-cases (m.first == m.last)) [
    | inl e ↦
        rw
          (
            e,
            items_at m.msgs m.first (m.last - m.first) zero
                (omega (arith, (==_iff m.first m.last).0 e)),
          )
          (ok, refl, refl)
    | inr e ↦
        rw (e, dequeue-contents m (ne→lt m.first m.last ok.0 e))
          (dequeue-IsValid m ok (ne→lt m.first m.last ok.0 e), refl, refl)
  ]

  abbrev pub queue_run : List (Op A) → List A → List (Answer A)
  queue_run [] q = []
  queue_run (Op.trypost msg ∷ ops) q =
      tried (queue_trypost msg q).1 ∷ queue_run ops (queue_trypost msg q).0
  queue_run (Op.post msg ∷ ops) q = posted (queue_post msg q).1 ∷ queue_run ops (queue_post msg q).0
  queue_run (Op.post_again msg ∷ ops) q =
      posted (queue_post msg q).1 ∷ queue_run ops (queue_post msg q).0
  queue_run (Op.fetch ∷ ops) q = fetched (queue_fetch q).1 ∷ queue_run ops (queue_fetch q).0

  -- Far from the end of an int nothing overflows.
  guarded-small :
      (m : Mbox A) (r : Mbox A × Answer A)
      → m.first ≤ m.last
      → m.last + 128 < 2 ^ 31
      → guarded m r ≡ some r
  unfolding guarded overflows
  guarded-small m r ordered small =
      rw
        (
          lt→leb_false (2 ^ 31) (m.first + 128) (omega (arith, ordered, small)),
          lt→leb_false (2 ^ 31) (m.last + 1) (omega (arith, small)),
        )
        refl

  -- A section counts `last` up by one at most.
  post-last : (msg : A) (m : Mbox A) → (post_look msg m).0.last ≤ m.last + 1
  unfolding post_look enqueue
  post-last msg m = elim (Bool-cases (is_full m)) [
    | inl e ↦ rw e (omega arith)
    | inr e ↦ rw e (omega arith)
  ]

  trypost-last : (msg : A) (m : Mbox A) → (sys_mbox_trypost msg m).0.last ≤ m.last + 1
  unfolding sys_mbox_trypost enqueue
  trypost-last msg m = elim (Bool-cases (is_full m)) [
    | inl e ↦ rw e (omega arith)
    | inr e ↦ rw e (omega arith)
  ]

  fetch-last : (m : Mbox A) → (sys_arch_mbox_tryfetch m).0.last ≡ m.last
  unfolding sys_arch_mbox_tryfetch dequeue
  fetch-last m = elim (Bool-cases (m.first == m.last)) [ inl e ↦ rw e refl | inr e ↦ rw e refl ]

  run-queue_run :
      (ops : List (Op A)) (m : Mbox A)
      → IsValid m
      → m.last + length ops + 128 < 2 ^ 31
      → run ops m ≡ some (queue_run ops (contents m))
  unfolding run step sys_mbox_post post_look_again
  run-queue_run [] m ok small = refl
  run-queue_run (Op.trypost msg ∷ ops) m ok small =
      let (v, q, a) = trypost-Is msg m ok in
      let m' = (sys_mbox_trypost msg m).0 in
      let rest = run-queue_run ops m' v (omega (arith, small, trypost-last msg m)) in
      rw
        (
          guarded-small m (m', tried (sys_mbox_trypost msg m).1) ok.0 (omega (arith, small)),
          rest,
          q,
          a,
        )
        refl
  run-queue_run (Op.post msg ∷ ops) m ok small =
      let (v, q, a) = post-Is msg m ok in
      let m' = (sys_mbox_post msg m).0 in
      let rest = run-queue_run ops m' v (omega (arith, small, post-last msg m)) in
      rw
        (
          guarded-small m (m', posted (sys_mbox_post msg m).1) ok.0 (omega (arith, small)),
          rest,
          q,
          a,
        )
        refl
  run-queue_run (Op.post_again msg ∷ ops) m ok small =
      let (v, q, a) = post_again-Is msg m ok in
      let m' = (post_look_again msg m).0 in
      let rest =
        run-queue_run ops m' v
          (omega (arith, small, post-last msg (record m { wait_send = m.wait_send - 1 }))) in
      rw
        (
          guarded-small m (m', posted (post_look_again msg m).1) ok.0 (omega (arith, small)),
          rest,
          q,
          a,
        )
        refl
  run-queue_run (Op.fetch ∷ ops) m ok small =
      let (v, q, a) = fetch-Is m ok in
      let m' = (sys_arch_mbox_tryfetch m).0 in
      let rest = run-queue_run ops m' v (omega (arith, small, fetch-last m)) in rw (rest, q, a) refl

  -- Whatever the slots of a new mailbox hold, every order of fewer than 2^31 - 128 of the threads' critical
  -- sections gets from it the answers of a first-in first-out queue of at most 127 messages, and no counter
  -- overflows.
  pub mailbox_is_fifo :
      (junk : ℕ → A) (ops : List (Op A))
      → length ops + 128 < 2 ^ 31
      → run ops (empty_mbox junk) ≡ some (queue_run ops [])
  unfolding empty_mbox
  mailbox_is_fifo junk ops small =
      run-queue_run ops (empty_mbox junk) (omega arith, omega arith) (omega (arith, small))

-- ===== src/Lwip.antt =====
-- What the applications use of lwIP, whose sources are not in this repository: `err_t`, and the
-- functions that read a packet buffer. A `struct pbuf` chain is the list of its bytes; its readers
-- are a parameter, `PbufReaders`, and what lwIP documents of them is `PbufLaws`.
use scion_lwip_contrib.Base.{
  ℕ, ◌+◌, ◌-◌, ◌≤◌, ◌≢◌, ◌≡◌, refl, Bool, true, false, Option, none, some, Bytes, length, min,
}

-- The codes of `err_t` that the sources name; `other` is any further one.
pub data Err : Type 0 where
  ok mem arg val inprogress timeout abrt : Err
  other : ℕ → Err

-- `err == ERR_OK`
abbrev pub is_ok : Err → Bool
is_ok Err.ok = true
is_ok _ = false

-- The index that `pbuf_memfind` and `pbuf_strstr` return for "not found".
abbrev pub not_found : ℕ
not_found = 0xFFFF

pub record PbufReaders : Type 0 where
  -- `pbuf_memfind(p, mem, mem_len, start_offset)`
  pub memfind : Bytes → Bytes → ℕ → ℕ
  -- `pbuf_strstr(p, substr)`
  pub strstr : Bytes → Bytes → ℕ
  -- `pbuf_get_at(p, offset)`
  pub get_at : Bytes → ℕ → ℕ
  -- The bytes that `pbuf_copy_partial(p, dataptr, len, offset)` copies; it returns their number.
  pub copy_partial : Bytes → ℕ → ℕ → Bytes

-- `pbuf_memfind` finds the bytes inside the buffer at or behind the start, or returns 0xFFFF;
-- `pbuf_copy_partial` copies what there is, up to the length asked for.
pub record PbufLaws (pb : PbufReaders) : Type 0 where
  pub memfind_from :
      (p mem : Bytes) (start : ℕ)
      → pb.memfind p mem start ≢ not_found
      → (start ≤ pb.memfind p mem start) × (pb.memfind p mem start + length mem ≤ length p)
  pub length-copy_partial :
      (p : Bytes) (n offset : ℕ) → length (pb.copy_partial p n offset) ≡ min n (length p - offset)

-- Chains of steps that may fault.
infixl 5 ◌>>=◌ ◌>>◌
abbrev pub ◌>>=◌ {ℓ κ} : {A : Type ℓ} {B : Type κ} → Option A → (A → Option B) → Option B
none >>= f = none
some a >>= f = f a

abbrev pub ◌>>◌ {ℓ} : {B : Type ℓ} → Option (Unit {0}) → Option B → Option B
m >> k = m >>= λ _. k

-- `LWIP_ASSERT`: the program stops where the condition is false.
abbrev pub lwip_assert : Bool → Option (Unit {0})
lwip_assert true = some tt
lwip_assert false = none

-- A chain succeeds only if its first step does.
pub bind-eq-some {ℓ κ} :
    {A : Type ℓ} {B : Type κ} (m : Option A) (f : A → Option B) {b : B}
    → m >>= f ≡ some b
    → (a : A) × (m ≡ some a) × (f a ≡ some b)
bind-eq-some (some a) f h = (a, refl, h)
bind-eq-some none f h = cc

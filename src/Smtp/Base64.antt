-- ===== src/Smtp/Base64.antt =====
-- apps/smtp/smtp.c: `base64_table` and `smtp_base64_encode`, bit by bit as the source does it.
-- Bytes are read as `u8_t` (below 256); the characters written to `target` are a list.
mod Bits
pub mod Rfc
use Prim.Native.Nat.{bit_and, bit_or}
use scion_lwip_contrib.Base.{
  ℕ, zero, suc, ◌+◌, ◌-◌, ◌*◌, ◌/◌, ◌%◌, ◌^◌, List, [], ◌∷◌, ◌++◌, Option, none, some, Bytes, codes,
  length, get_or, set, replicate, ◌==◌, leb, if◌then◌else◌,
}

abbrev pub base64_table : Bytes
base64_table = codes "ABCDEFGHIJKLMNOPQRSTUVWXYZabcdefghijklmnopqrstuvwxyz0123456789+/"

-- `base64_table[current]`
pub table_at : ℕ → ℕ
table_at i = get_or base64_table i 0

-- The loop's variables: the bit position `x`, the six bits collected so far, and the characters
-- written; `target_idx` is the length of `target`.
pub record Encoder : Type 0 where
  pub x : ℕ
  pub current : ℕ
  pub target : Bytes

abbrev pub u8_dec : ℕ → ℕ
u8_dec x = (x + 255) % 256

-- The body of the inner loop for bit `j` of `b`, with its `x--`.
pub bit_step : ℕ → ℕ → Encoder → Encoder
unfolding table_at
bit_step b j e =
    let shift = if bit_and b (2 ^ j) == 0 then 0 else 1 in
    let current = bit_or e.current (shift * 2 ^ e.x) % 256 in
    if e.x == 0
    then record { x = u8_dec 6; current = 0; target = e.target ++ table_at current ∷ [] }
    else record { x = u8_dec e.x; current = current; target = e.target }

-- The inner loop, `for (j = 7; j >= 0; j--, x--)`.
pub byte_step : ℕ → Encoder → Encoder
byte_step b e = bit_step b 0 (
    bit_step b 1
      (bit_step b 2 (bit_step b 3 (bit_step b 4 (bit_step b 5 (bit_step b 6 (bit_step b 7 e)))))))

-- The outer loop over the source and the zeros behind it.
pub encode_loop : Bytes → Encoder → Encoder
encode_loop [] e = e
encode_loop (b ∷ bs) e = encode_loop bs (byte_step b e)

-- `for (i = len - longer; i < len; i++) target[i] = '='`: `n` rounds from index `i` on.
pub pad_loop : ℕ → ℕ → Bytes → Bytes
pad_loop zero i target = target
pad_loop (suc n) i target = pad_loop n (i + 1) (set target i b'=')

abbrev pub longer_of : ℕ → ℕ
longer_of source_len = 3 - source_len % 3

abbrev pub encoded_len : ℕ → ℕ
encoded_len source_len = (source_len + longer_of source_len) * 4 / 3

abbrev pub start_encoder : Encoder
start_encoder = record { x = 5; current = 0; target = [] }

-- What `smtp_base64_encode` writes to `target`; the length that it returns is the length of that.
-- `none` is the failed assertion "target_len is too short".
unfoldable pub smtp_base64_encode : ℕ → Bytes → Option Bytes
unfolding bit_step byte_step encode_loop pad_loop
smtp_base64_encode target_len source =
    let longer = longer_of (length source) in
    let len = encoded_len (length source) in
    if leb len target_len
    then some (
        pad_loop longer (len - longer)
          (encode_loop (source ++ replicate longer 0) start_encoder).target)
    else none

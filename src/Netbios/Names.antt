-- ===== src/Netbios/Names.antt =====
-- apps/netbios/netbios.c against RFC 1001's first-level encoding of names.
use scion_lwip_contrib.Base.{
  ℕ, ◌+◌, ◌/◌, ◌%◌, ◌≤◌, ◌<◌, true, false, [], ◌∷◌, ◌++◌, append_assoc, some, Bytes, AllLt, length,
  length-append, set, drop, ◌==◌, ==_iff, ne→==_false, lt→ltb, holds_under, holds_under-at,
  if◌then◌else◌, ◌≡◌, ◌≢◌, refl, ap, sym, arith, ◌∙◌, ◌⊎◌, inl, inr, Bool-cases, false, Option,
  take, suc,
}
use scion_lwip_contrib.Netbios.{
  is_end, is_letter, pair, blank, store, next_index, decoding_loop, netbios_name_decoding, Query,
  is_name_query, same_string, Resp, response, netbios_recv,
}

-- RFC 1001, section 14.1: each byte is two letters, the high half first.
abbrev pub encode : Bytes → Bytes
encode [] = []
encode (c ∷ cs) = (65 + c / 16) ∷ (65 + c % 16) ∷ encode cs

abbrev pub blank_all : Bytes → Bytes
blank_all [] = []
blank_all (c ∷ cs) = (if c == 32 then 0 else c) ∷ blank_all cs

is_end-letter : (n : ℕ) → is_end (65 + n) ≡ false
unfolding is_end
is_end-letter n = ground arith

is_letter-letter : (n : ℕ) → n < 26 → is_letter (65 + n) ≡ true
unfolding is_letter
is_letter-letter n small = ground arith

pair-halves : (c : ℕ) → c < 256 → pair (65 + c / 16) (65 + c % 16) ≡ c
unfolding pair holds_under
pair-halves c small =
    (==_iff (pair (65 + c / 16) (65 + c % 16)) c).0
      (holds_under-at (λ x. pair (65 + x / 16) (65 + x % 16) == x) 256 c small refl)

set-next :
    (done : Bytes) (j : ℕ) (js : Bytes) (v : ℕ)
    → set (done ++ (j ∷ js)) (length done) v ≡ (done ++ (v ∷ [])) ++ js
set-next [] j js v = refl
set-next (x ∷ xs) j js v = ap (λ t. x ∷ t) (set-next xs j js v)

store-next :
    (done : Bytes) (j : ℕ) (js : Bytes) (c : ℕ)
    → length done < 16
    → store (length done) c (done ++ (j ∷ js)) ≡ (done ++ ((if c == 32 then 0 else c) ∷ [])) ++ js
unfolding store blank
store-next done j js c room = rw (lt→ltb (length done) 16 room) (set-next done j js _)

next_index-next : (i : ℕ) → i < 16 → next_index i ≡ i + 1
unfolding next_index
next_index-next i room = rw (lt→ltb i 16 room) refl

-- What was decoded before stays, the rest of the buffer is not touched, and the loop goes on behind the name.
decoding_loop-encode :
    (name done junk rest : Bytes)
    → AllLt 256 name
    → length done + length name ≤ 16
    → length name ≤ length junk
    → decoding_loop (encode name ++ rest) (done ++ junk) (length done)
      ≡ decoding_loop rest
          (done ++ (blank_all name ++ drop (length name) junk))
          (length done + length name)
unfolding decoding_loop
decoding_loop-encode [] done junk rest codes room enough =
    ap (decoding_loop rest (done ++ junk))
      (let e : length done ≡ length done + 0 = omega arith in e)
decoding_loop-encode (c ∷ name) done [] rest codes room enough = absurd (omega (arith, enough))
decoding_loop-encode (c ∷ name) done (j ∷ junk) rest codes room enough =
    let hi : c / 16 < 26 = omega (arith, codes.0) in
    let lo : c % 16 < 26 = omega arith in
    let v : ℕ = if c == 32 then 0 else c in
    let len : length (done ++ (v ∷ [])) ≡ length done + 1 = length-append done (v ∷ []) in
    let more =
      decoding_loop-encode name (done ++ (v ∷ [])) junk rest codes.1 (omega (arith, room, len))
        (omega (arith, enough)) in
    let at : length (done ++ (v ∷ [])) + length name ≡ length done + suc (length name) =
      omega (arith, len) in
    rw
      (
        is_end-letter (c / 16),
        is_letter-letter (c / 16) hi,
        is_end-letter (c % 16),
        is_letter-letter (c % 16) lo,
        pair-halves c codes.0,
        store-next done j junk c (omega (arith, room)),
        next_index-next (length done) (omega (arith, room)),
        sym len,
        more,
        at,
        append_assoc done (v ∷ []) (blank_all name ++ drop (length name) junk),
      )
      refl

decoding_loop-end :
    (rest dec : Bytes) (index : ℕ) → decoding_loop (0 ∷ rest) dec index ≡ some (true, dec)
unfolding decoding_loop
decoding_loop-end [] dec index = refl
decoding_loop-end (r ∷ rest) dec index = refl

-- A pair that is no encoded byte: its first character is neither a letter nor an end, or the second no letter.
abbrev pub IsBadPair : ℕ → ℕ → Type 0
IsBadPair c d =
    (is_end c ≡ false) × ((is_letter c ≡ false) ⊎ ((is_end d ≡ true) ⊎ (is_letter d ≡ false)))

decoding_loop-bad :
    (c d : ℕ) (rest dec : Bytes) (index : ℕ)
    → IsBadPair c d
    → decoding_loop (c ∷ d ∷ rest) dec index ≡ some (false, dec)
unfolding decoding_loop
decoding_loop-bad c d rest dec index (go_on, inl first) = rw (go_on, first) refl
decoding_loop-bad c d rest dec index (go_on, inr second) = elim (Bool-cases (is_letter c)) [
  | inr f ↦ rw (go_on, f) refl
  | inl t ↦ rw (go_on, t) (by_second second)
]
  where
    by_second :
        ((is_end d ≡ true) ⊎ (is_letter d ≡ false))
        → (if is_end d
            then some (false, dec)
            else if is_letter d
            then decoding_loop rest (store index (pair c d) dec) (next_index index)
            else some (false, dec))
          ≡ some (false, dec)
    by_second (inl e) = rw e refl
    by_second (inr f) =
        rw f (elim (Bool-cases (is_end d)) [ inl e ↦ rw e refl | inr e ↦ rw e refl ])

-- A name of at most 16 bytes, in the first-level encoding and terminated, is decoded into the front of a
-- buffer which has room for it, with each space turned into 0, and the rest of the buffer stays.
pub netbios_name_decoding_lem :
    (name junk rest : Bytes)
    → AllLt 256 name
    → length name ≤ 16
    → length name ≤ length junk
    → netbios_name_decoding (encode name ++ (0 ∷ rest)) junk
      ≡ some (true, blank_all name ++ drop (length name) junk)
unfolding netbios_name_decoding
netbios_name_decoding_lem name junk rest codes short enough =
    decoding_loop-encode name [] junk (0 ∷ rest) codes (omega (arith, short)) enough
    ∙ decoding_loop-end rest (blank_all name ++ drop (length name) junk) (0 + length name)

-- The bytes of the device's name: neither 0 nor a space.
abbrev pub IsPlain : Bytes → Type 0
IsPlain [] = Unit
IsPlain (c ∷ cs) = (c ≢ 0) × (c ≢ 32) × IsPlain cs

same_string-plain :
    (name tail junk : Bytes)
    → IsPlain name
    → same_string (blank_all (name ++ (32 ∷ tail)) ++ junk) name ≡ some true
unfolding same_string
same_string-plain [] tail junk plain = refl
same_string-plain (c ∷ cs) tail junk plain =
    rw (ne→==_false c 32 plain.1, (==_iff c c).1 refl) (same_string-plain cs tail junk plain.2)

-- The answer to a query: its transaction number, its name and question, and one record with the address.
abbrev pub Answers : ℕ → Query → Option (Option Resp) → Type 0
Answers ip q r =
    r
    ≡ some (
        some (record {
          trans_id = q.trans_id;
          flags = 0x8500;
          questions = 0;
          answer_rrs = 1;
          authority_rrs = 0;
          additional_rrs = 0;
          nametype = q.nametype;
          encname = take 33 q.encname;
          type = q.type;
          cls = q.cls;
          ttl = 300000;
          datalen = 6;
          name_flags = 0;
          addr = ip;
        }))

-- A name query for the device's own name of at most 15 bytes, padded with a space and whatever `tail`
-- follows to at most 16 bytes, is answered through the default interface with its address, under the query's
-- transaction number, if there is memory for the answer.
pub netbios_recv_own_name :
    (ip : ℕ) (name tail junk rest : Bytes) (q : Query)
    → IsPlain name
    → AllLt 256 (name ++ (32 ∷ tail))
    → length (name ++ (32 ∷ tail)) ≤ 16
    → length junk ≡ 17
    → is_name_query q ≡ true
    → q.encname ≡ encode (name ++ (32 ∷ tail)) ++ (0 ∷ rest)
    → Answers ip q (netbios_recv (some ip) name true junk q)
unfolding netbios_recv response
netbios_recv_own_name ip name tail junk rest q plain codes short len query enc =
    let full = name ++ (32 ∷ tail) in
    rw
      (
        query,
        enc,
        netbios_name_decoding_lem full junk rest codes short (omega (arith, short, len)),
        same_string-plain name tail (drop (length full) junk) plain,
      )
      refl

-- A name query whose encoded name goes wrong behind an encoding of at most 16 bytes `done`, at a pair of characters
-- that no byte is encoded as, is not decoded: `netbios_name_decoding` returns -1. It is answered all the same, if
-- the bytes decoded so far and what the buffer held behind them read as the device's name.
pub netbios_recv_not_decoded :
    (ip : ℕ) (name done junk rest : Bytes) (q : Query) (c d : ℕ)
    → AllLt 256 done
    → length done ≤ 16
    → length done ≤ length junk
    → IsBadPair c d
    → q.encname ≡ encode done ++ (c ∷ d ∷ rest)
    → is_name_query q ≡ true
    → same_string (blank_all done ++ drop (length done) junk) name ≡ some true
    → (netbios_name_decoding q.encname junk
        ≡ some (false, blank_all done ++ drop (length done) junk))
      × Answers ip q (netbios_recv (some ip) name true junk q)
unfolding netbios_recv netbios_name_decoding response
netbios_recv_not_decoded ip name done junk rest q c d codes short enough bad enc query held =
    let decoded : decoding_loop (encode done ++ (c ∷ d ∷ rest)) junk 0
        ≡ some (false, blank_all done ++ drop (length done) junk) =
      decoding_loop-encode done [] junk (c ∷ d ∷ rest) codes (omega (arith, short)) enough
      ∙ decoding_loop-bad c d rest (blank_all done ++ drop (length done) junk) (0 + length done)
          bad in
    (rw (enc, decoded) refl, rw (query, enc, decoded, held) refl)

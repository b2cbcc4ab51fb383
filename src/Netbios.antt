-- ===== src/Netbios.antt =====
-- apps/netbios/netbios.c: the NetBIOS name service responder. The 16-bit fields of a message are in host order
-- here. Reading or comparing past the end of a buffer gives `none`.
pub mod Names
mod Examples
use scion_lwip_contrib.Base.{
  ℕ, ◌+◌, ◌-◌, ◌*◌, ◌/◌, ◌%◌, ◌^◌, Bool, true, false, ◌&&◌, ◌||◌, List, [], ◌∷◌, Option, none, some,
  Bytes, length, take, set, leb, ltb, ◌==◌, if◌then◌else◌,
}
use scion_lwip_contrib.Lwip.{◌>>=◌, ◌>>◌}

abbrev pub netbios_name_len : ℕ
netbios_name_len = 16

pub is_end : ℕ → Bool
is_end c = (c == 0) || (c == 46)

pub is_letter : ℕ → Bool
is_letter c = leb 65 c && leb c 90

-- `cname << 4` in a `char`, then `|=` the low letter, whose bit 4 may be set too.
pair : ℕ → ℕ → ℕ
pair high low =
    let h = (high - 65) * 16 % 256 in
    let l = low - 65 in if ltb l 16 then h + l else if h % 32 == 0 then h + l else h + l - 16

blank : ℕ → ℕ
blank c = if c == 32 then 0 else c

-- The character is stored when there is room.
store : ℕ → ℕ → Bytes → Bytes
unfolding blank
store index c dec = if ltb index netbios_name_len then set dec index (blank c) else dec

next_index : ℕ → ℕ
next_index index = if ltb index netbios_name_len then index + 1 else index

-- The loop of `netbios_name_decoding`; the flag is false where it returns -1.
decoding_loop : Bytes → Bytes → ℕ → Option (Bool × Bytes)
unfolding is_end is_letter pair store next_index
decoding_loop [] dec index = none
decoding_loop (c ∷ []) dec index =
    if is_end c then some (true, dec) else if is_letter c then none else some (false, dec)
decoding_loop (c ∷ d ∷ rest) dec index =
    let more = decoding_loop rest (store index (pair c d) dec) (next_index index) in
    let bad : Option (Bool × Bytes) = some (false, dec) in
    if is_end c
    then some (true, dec)
    else if is_letter c
    then if is_end d then bad else if is_letter d then more else bad
    else bad

pub netbios_name_decoding : Bytes → Bytes → Option (Bool × Bytes)
unfolding decoding_loop
netbios_name_decoding name_enc name_dec = decoding_loop name_enc name_dec 0

-- `struct netbios_hdr` and the first fields of `struct netbios_name_hdr` of a question; `encname` is all the
-- memory from that field on.
pub record Query : Type 0 where
  pub trans_id : ℕ
  pub flags : ℕ
  pub questions : ℕ
  pub nametype : ℕ
  pub encname : Bytes
  pub type : ℕ
  pub cls : ℕ

-- `struct netbios_resp`
pub record Resp : Type 0 where
  pub trans_id : ℕ
  pub flags : ℕ
  pub questions : ℕ
  pub answer_rrs : ℕ
  pub authority_rrs : ℕ
  pub additional_rrs : ℕ
  pub nametype : ℕ
  pub encname : Bytes
  pub type : ℕ
  pub cls : ℕ
  pub ttl : ℕ
  pub datalen : ℕ
  pub name_flags : ℕ
  pub addr : ℕ

pub is_name_query : Query → Bool
is_name_query q =
    (q.flags / 2 ^ 11 % 16 == 0) && ((q.flags / 2 ^ 15 % 2 == 0) && (q.questions == 1))

-- `strcmp` with the device's name: the string ends at the first 0.
pub same_string : Bytes → Bytes → Option Bool
same_string [] name = none
same_string (c ∷ cs) [] = some (c == 0)
same_string (c ∷ cs) (d ∷ ds) = let more = same_string cs ds in if c == d then more else some false

pub response : ℕ → Query → Resp
response ip q = record {
  trans_id = q.trans_id;
  flags = 34048;
  questions = 0;
  answer_rrs = 1;
  authority_rrs = 0;
  additional_rrs = 0;
  nametype = q.nametype;
  encname = take 33 q.encname;
  type = q.type;
  cls = q.cls;
  ttl = 300000;
  datalen = 6;
  name_flags = 0;
  addr = ip;
}

-- `netbios_recv` on a packet: what it sends. `netif` is the address of the default interface, `junk` what
-- stands in `netbios_name` before it is decoded.
pub netbios_recv :
    (netif : Option ℕ) (name : Bytes) (has_memory : Bool) (junk : Bytes)
    → Query
    → Option (Option Resp)
unfolding is_name_query netbios_name_decoding same_string response
netbios_recv none name has_memory junk q = some none
netbios_recv (some ip) name has_memory junk q =
    let answer : Option Resp = if has_memory then some (response ip q) else none in
    let handled : Option (Option Resp) = netbios_name_decoding q.encname junk >>= λ d.
    same_string d.1 name >>= λ same. some (if same then answer else none) in
    if is_name_query q then handled else some none

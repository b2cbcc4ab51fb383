-- ===== src/Netbios/Examples.antt =====
-- Queries to a device named LWIP.
use scion_lwip_contrib.Base.{
  true, false, inl, [], ◌∷◌, ◌++◌, some, Bytes, codes, AllLt, all_lt-AllLt, replicate, ◌≡◌, refl,
  arith,
}
use scion_lwip_contrib.Netbios.{
  Query, is_name_query, is_end, is_letter, same_string, netbios_name_decoding, netbios_recv,
}
use scion_lwip_contrib.Netbios.Names.{
  Answers, IsBadPair, encode, IsPlain, netbios_name_decoding_lem, netbios_recv_own_name,
  netbios_recv_not_decoded,
}

abbrev junk : Bytes
junk = replicate 17 88

abbrev padding : Bytes
padding = replicate 11 32

abbrev query : Bytes → Query
query enc = record {
  trans_id = 5;
  flags = 0;
  questions = 1;
  nametype = 32;
  encname = enc;
  type = 32;
  cls = 1;
}

own_codes : AllLt 256 (codes "LWIP" ++ (32 ∷ padding))
own_codes = all_lt-AllLt 256 (codes "LWIP" ++ (32 ∷ padding)) refl

own_IsPlain : IsPlain (codes "LWIP")
own_IsPlain = (
  λ e. omega (arith, e),
  λ e. omega (arith, e),
  (
    λ e. omega (arith, e),
    λ e. omega (arith, e),
    (
      λ e. omega (arith, e),
      λ e. omega (arith, e),
      (λ e. omega (arith, e), λ e. omega (arith, e), tt),
    ),
  ),
)

netbios_name_decoding_lem_example :
    netbios_name_decoding (encode (codes "LWIP" ++ (32 ∷ padding)) ++ (0 ∷ [])) junk
    ≡ some (true, codes "LWIP" ++ (replicate 12 0 ++ (88 ∷ [])))
netbios_name_decoding_lem_example =
    netbios_name_decoding_lem (codes "LWIP" ++ (32 ∷ padding)) junk [] own_codes (omega arith)
      (omega arith)

is_query : (enc : Bytes) → is_name_query (query enc) ≡ true
unfolding is_name_query
is_query enc = refl

abbrev own_query : Query
own_query = query (encode (codes "LWIP" ++ (32 ∷ padding)) ++ (0 ∷ []))

netbios_recv_own_name_example :
    Answers 99 own_query (netbios_recv (some 99) (codes "LWIP") true junk own_query)
netbios_recv_own_name_example =
    netbios_recv_own_name 99 (codes "LWIP") padding junk [] own_query own_IsPlain own_codes
      (omega arith) refl (is_query own_query.encname) refl

-- Two letters of the name, and then a character that encodes nothing; the rest stands in the buffer.
abbrev bad_query : Query
bad_query = query (encode (codes "LW") ++ codes "1A")

abbrev held_name : Bytes
held_name = codes "..IP" ++ replicate 13 0

bad_pair : IsBadPair 49 65
unfolding is_end is_letter
bad_pair = (refl, inl refl)

held : same_string (codes "LW" ++ (codes "IP" ++ replicate 13 0)) (codes "LWIP") ≡ some true
unfolding same_string
held = refl

netbios_recv_not_decoded_example :
    (netbios_name_decoding bad_query.encname held_name
      ≡ some (false, codes "LW" ++ (codes "IP" ++ replicate 13 0)))
    × Answers 99 bad_query (netbios_recv (some 99) (codes "LWIP") true held_name bad_query)
netbios_recv_not_decoded_example =
    netbios_recv_not_decoded 99 (codes "LWIP") (codes "LW") held_name [] bad_query 49 65
      (all_lt-AllLt 256 (codes "LW") refl) (omega arith) (omega arith) bad_pair refl
      (is_query bad_query.encname) held

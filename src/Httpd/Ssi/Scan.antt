-- ===== src/Httpd/Ssi/Scan.antt =====
-- apps/httpserver_raw/httpd.c: the states of the tag processor that consume the file's characters.
use scion_lwip_contrib.Base.{
  ℕ, ◌+◌, ◌-◌, Bool, ◌&&◌, ◌||◌, Bytes, codes, get_or, take, ◌++◌, ◌∷◌, [], ◌==◌, ltb,
  if◌then◌else◌,
}

-- `enum tag_check_state`
pub data TagCheckState : Type 0 where
  tag_none tag_leadin tag_found tag_leadout tag_sending : TagCheckState

-- `struct http_ssi_state`
pub record SsiState : Type 0 where
  pub parsed : ℕ
  pub tag_end : ℕ
  pub parse_left : ℕ
  pub tag_index : ℕ
  pub tag_name : Bytes
  pub tag_insert : Bytes
  pub tag_state : TagCheckState

-- `g_pcTagLeadIn`, `g_pcTagLeadOut` and their lengths
abbrev pub tag_lead_in : Bytes
tag_lead_in = codes "<!--#"

abbrev pub tag_lead_out : Bytes
tag_lead_out = codes "-->"

abbrev pub len_tag_lead_in : ℕ
len_tag_lead_in = 5

abbrev pub len_tag_lead_out : ℕ
len_tag_lead_out = 3

-- `LWIP_HTTPD_MAX_TAG_NAME_LEN`
abbrev pub max_tag_name_len : ℕ
max_tag_name_len = 8

-- `*ssi->parsed == ' ' || '\t' || '\n' || '\r'`
abbrev pub is_space : ℕ → Bool
is_space c = c == b' ' || c == 9 || c == 10 || c == 13

-- `ssi->parse_left--; ssi->parsed++;`
abbrev pub advance : SsiState → SsiState
advance ssi = record ssi { parsed = ssi.parsed + 1; parse_left = ssi.parse_left - 1 }

-- The case TAG_NONE of the switch, at the character `c`.
unfoldable pub scan_none : ℕ → SsiState → SsiState
scan_none c ssi = advance (
    if c == get_or tag_lead_in 0 0
    then record ssi { tag_state = tag_leadin; tag_index = 1 }
    else ssi)

-- The case TAG_LEADIN.
unfoldable pub scan_leadin : ℕ → SsiState → SsiState
scan_leadin c ssi =
    if ssi.tag_index == len_tag_lead_in
    then record ssi { tag_index = 0; tag_state = tag_found }
    else advance (
        if c == get_or tag_lead_in ssi.tag_index 0
        then record ssi { tag_index = ssi.tag_index + 1 }
        else record ssi { tag_state = tag_none })

-- The case TAG_FOUND.
unfoldable pub scan_found : ℕ → SsiState → SsiState
scan_found c ssi =
    if ssi.tag_index == 0 && is_space c
    then advance ssi
    else advance (
        if c == get_or tag_lead_out 0 0 || is_space c
        then if ssi.tag_index == 0 then record ssi { tag_state = tag_none } else record ssi {
          tag_state = tag_leadout;
          tag_name = take ssi.tag_index ssi.tag_name;
          tag_index = if c == get_or tag_lead_out 0 0 then 1 else 0;
        }
        else if ltb ssi.tag_index max_tag_name_len
        then record ssi {
          tag_name = take ssi.tag_index ssi.tag_name ++ c ∷ [];
          tag_index = ssi.tag_index + 1;
        }
        else record ssi { tag_state = tag_none })

-- The case TAG_LEADOUT, up to the end of the tag: `completes` says that this character ends it.
unfoldable pub completes : ℕ → SsiState → Bool
completes c ssi = c == get_or tag_lead_out ssi.tag_index 0 && ssi.tag_index == len_tag_lead_out - 1

unfoldable pub scan_leadout : ℕ → SsiState → SsiState
scan_leadout c ssi =
    if ssi.tag_index == 0 && is_space c
    then advance ssi
    else advance (
        if c == get_or tag_lead_out ssi.tag_index 0
        then record ssi { tag_index = ssi.tag_index + 1 }
        else record ssi { tag_state = tag_none })

-- ===== src/Httpd/Ssi/Expand.antt =====
-- A page with server-side includes as the browser gets it: a scanner that reads a page once, and
-- what the tag processor's state stands for in it.
pub mod Steps
pub mod Slices
pub mod Page
use scion_lwip_contrib.Base.{
  ℕ, zero, suc, ◌+◌, ◌-◌, ◌≤◌, ◌<◌, Bool, ◌&&◌, ◌||◌, Bytes, [], ◌∷◌, ◌++◌, List, Option, none,
  some, get_or, take, drop, length, ◌==◌, ltb, if◌then◌else◌, ◌≡◌, refl,
}
use scion_lwip_contrib.Httpd.Ssi.Scan.{
  TagCheckState, tag_none, tag_leadin, tag_found, tag_leadout, tag_sending, SsiState, tag_lead_in,
  tag_lead_out, max_tag_name_len, is_space,
}
use scion_lwip_contrib.Httpd.Ssi.Insert.{max_tag_insert_len}

-- Where the scanner stands: in text, behind k characters of "<!--#", in a tag's name, or behind the
-- name and k characters of "-->".
pub data Scanner : Type 0 where
  text : Scanner
  lead_in : ℕ → Scanner
  name : Bytes → Scanner
  lead_out : ℕ → Bytes → Scanner
  -- The character ends the tag of this name.
  complete : Bytes → Scanner

unfoldable pub next : Scanner → ℕ → Scanner
next Scanner.text c = if c == b'<' then Scanner.lead_in 1 else Scanner.text
next (Scanner.lead_in k) c =
    if c == get_or tag_lead_in k 0
    then if k == 4 then Scanner.name [] else Scanner.lead_in (k + 1)
    else Scanner.text
next (Scanner.name n) c =
    if is_space c
    then if length n == 0 then Scanner.name n else Scanner.lead_out 0 n
    else if c == b'-'
    then if length n == 0 then Scanner.text else Scanner.lead_out 1 n
    else if ltb (length n) max_tag_name_len
    then Scanner.name (n ++ c ∷ [])
    else Scanner.text
next (Scanner.lead_out k n) c =
    if k == 0 && is_space c
    then Scanner.lead_out 0 n
    else if c == get_or tag_lead_out k 0
    then if k == 2 then Scanner.complete n else Scanner.lead_out (k + 1) n
    else Scanner.text
next (Scanner.complete n) c = Scanner.text

-- The scanner goes on as in text behind a tag.
unfoldable pub resume : Scanner → Scanner
resume (Scanner.complete n) = Scanner.text
resume Scanner.text = Scanner.text
resume (Scanner.lead_in k) = Scanner.lead_in k
resume (Scanner.name n) = Scanner.name n
resume (Scanner.lead_out k n) = Scanner.lead_out k n

-- The insert that stands between a character and what follows it; a tag at the end of the file has none.
unfoldable pub inserted : (Bytes → Bytes) → Scanner → Bytes → Bytes
inserted insert at_state [] = []
inserted insert (Scanner.complete n) (c ∷ cs) = insert n
inserted insert Scanner.text (c ∷ cs) = []
inserted insert (Scanner.lead_in k) (c ∷ cs) = []
inserted insert (Scanner.name n) (c ∷ cs) = []
inserted insert (Scanner.lead_out k n) (c ∷ cs) = []

-- The page with each tag followed by its insert, from a scanner's state on.
unfoldable pub expand : (Bytes → Bytes) → Scanner → Bytes → Bytes
unfolding resume inserted
expand insert at_state [] = []
expand insert at_state (c ∷ cs) =
    c ∷ (inserted insert (next at_state c) cs ++ expand insert (resume (next at_state c)) cs)

-- What the tag processor's state stands for.
abbrev pub scanner_of : TagCheckState → ℕ → Bytes → Scanner
scanner_of tag_none k n = Scanner.text
scanner_of tag_leadin k n = if k == 5 then Scanner.name [] else Scanner.lead_in k
scanner_of tag_found k n = Scanner.name (take k n)
scanner_of tag_leadout k n = Scanner.lead_out k n
scanner_of tag_sending k n = Scanner.text

abbrev pub scanner : SsiState → Scanner
scanner ssi = scanner_of ssi.tag_state ssi.tag_index ssi.tag_name

-- The part of the file from an offset up to another.
abbrev pub slice : Bytes → ℕ → ℕ → Bytes
slice file_data a b = take (b - a) (drop a file_data)

-- What of the insert and of the page behind it is still to come, where the tag is not at the end.
unfoldable pub insert_pending : SsiState → Bytes
insert_pending ssi = if ssi.parse_left == 0 then [] else drop ssi.tag_index ssi.tag_insert

-- What is still to be sent of a page, when the file is sent up to `file`.
unfoldable pub pending_in : TagCheckState → (Bytes → Bytes) → Bytes → ℕ → SsiState → Bytes
pending_in tag_sending insert file_data file ssi =
    slice file_data file ssi.tag_end
    ++ (insert_pending ssi ++ expand insert Scanner.text (drop ssi.parsed file_data))
pending_in _ insert file_data file ssi =
    slice file_data file ssi.parsed ++ expand insert (scanner ssi) (drop ssi.parsed file_data)

unfoldable pub ssi_pending : (Bytes → Bytes) → Bytes → ℕ → SsiState → Bytes
unfolding pending_in
ssi_pending insert file_data file ssi = pending_in ssi.tag_state insert file_data file ssi

-- The positions are in order, and the counters within their tables.
abbrev pub StateOk : TagCheckState → ℕ → Bytes → Type 0
StateOk tag_none k n = Unit {0}
StateOk tag_leadin k n = k ≤ 5
StateOk tag_found k n = k ≤ length n
StateOk tag_leadout k n = k ≤ 2
StateOk tag_sending k n = Unit {0}

abbrev pub EndOk : TagCheckState → ℕ → ℕ → Type 0
EndOk tag_sending tag_end parsed = tag_end ≡ parsed
EndOk _ tag_end parsed = Unit {0}

pub record SsiIsValid (file_data : Bytes) (file left : ℕ) (ssi : SsiState) : Type 0 where
  pub file_left : file + left ≡ length file_data
  pub parsed_left : ssi.parsed + ssi.parse_left ≡ length file_data
  pub sent_parsed : file ≤ ssi.parsed
  pub state_ok : StateOk ssi.tag_state ssi.tag_index ssi.tag_name
  pub end_ok : EndOk ssi.tag_state ssi.tag_end ssi.parsed
  pub insert_ok : length ssi.tag_insert ≤ max_tag_insert_len

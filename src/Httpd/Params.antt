-- ===== src/Httpd/Params.antt =====
-- apps/httpserver_raw/httpd.c: the parameters of a CGI request.
pub mod RoundTrip
use scion_lwip_contrib.Base.{ℕ, zero, suc, List, [], ◌∷◌, Option, none, some, Bytes, break_at}

-- `LWIP_HTTPD_MAX_CGI_PARAMETERS`
abbrev pub max_cgi_parameters : ℕ
max_cgi_parameters = 16

-- A slot of `hs->params` and `hs->param_vals`: the strings behind the two pointers once all is split;
-- `none` is NULL.
pub record Param : Type 0 where
  pub name : Bytes
  pub value : Option Bytes

-- The split of a pair at its '='.
pub split_pair : Bytes → Param
split_pair pair = let cut = break_at b'=' pair in record { name = cut.0; value = cut.1 }

-- The loop of `extract_uri_parameters` with so many slots left.
pub extract_loop : ℕ → Bytes → List Param
unfolding split_pair
extract_loop zero pair = []
extract_loop (suc slots) pair = elim (break_at b'&' pair).1 [
  | some next ↦ split_pair (break_at b'&' pair).0 ∷ extract_loop slots next
  | none ↦ split_pair (break_at b' ' pair).0 ∷ []
]

-- `extract_uri_parameters`; `none` is NULL, and the count returned is the list's length.
pub extract_uri_parameters : Option Bytes → List Param
unfolding extract_loop
extract_uri_parameters none = []
extract_uri_parameters (some []) = []
extract_uri_parameters (some (c ∷ params)) = extract_loop max_cgi_parameters (c ∷ params)

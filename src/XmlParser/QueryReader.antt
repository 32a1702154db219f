-- ===== src/XmlParser/QueryReader.antt =====
-- src/mws/xmlparser/readMwsQuery.cpp and src/mws/types/Query.hpp: the reader of a query as a state
-- machine over SAX events. `strtol` gives the 64 bits of its result; `int` counters are exact.
-- A value that the constructors leave uninitialised is an argument, or `none`.
pub mod Reading
pub mod Elements
pub mod Whole
pub mod Handlers
pub mod Safety
use mws.Prelude.{
  ℕ, ◌+◌, ◌-◌, ◌%◌, ◌^◌, ◌&&◌, Bool, true, false, Option, none, some, List, [], ◌∷◌, ◌++◌, ◌==◌,
  ltb, not, if◌then◌else◌, foldl,
}
use mws.Prelude.Bits.{u32_mod, u64_mod}
use mws.Prelude.Bytes.{Bytes, codes, bytes_eq}
use mws.Common.Text.{BoolType, bool_default, bool_yes, bool_no, get_bool_type}
use mws.Types.CmmlToken.{CmmlToken, Attributes, append_text_content}
use mws.XmlParser.{
  Event, start_element, end_element, characters, warning, error, end_document, OpenToken,
  start_token, to_parent, update_at,
}

-- The objects that `responseFormatter` points to.
pub data ResponseFormatter : Type 0 where
  mws_xml mws_json mws_ids schema_xml schema_json : ResponseFormatter

pub record Query : Type 0 where
  pub warnings : ℕ
  pub tokens : List CmmlToken
  pub result_max_size : ℕ
  pub result_limit_min : ℕ
  pub result_total_req : Bool
  pub result_total_req_nr : ℕ
  pub response_formatter : ResponseFormatter
  pub include_hits : Bool
  pub include_mws_ids : Bool
  pub restricted : Bool
  pub max_depth : ℕ
  pub cutoff_mode : Option ℕ

-- The constructor, and the formatter and warnings that the user data set.
abbrev pub new_query : ResponseFormatter → Query
new_query formatter = record {
  warnings = 0;
  tokens = [];
  result_max_size = 30;
  result_limit_min = 0;
  result_total_req = true;
  result_total_req_nr = 100000;
  response_formatter = formatter;
  include_hits = true;
  include_mws_ids = true;
  restricted = false;
  max_depth = 3;
  cutoff_mode = none;
}

abbrev pub warn : Query → Query
warn q = record q { warnings = q.warnings + 1 }

-- The limits of config/config.h.in.
unfoldable pub apply_restrictions : Query → Query
apply_restrictions q =
    let q1 =
      if ltb 100 q.result_max_size
      then record q { restricted = true; result_max_size = 100 }
      else q in
    let q2 =
      if ltb 12000 q1.result_limit_min
      then record q1 { restricted = true; result_limit_min = 12000 }
      else q1 in
    if ltb 12000 q2.result_total_req_nr
    then record q2 { restricted = true; result_total_req_nr = 12000 }
    else q2

-- A `long` made an `int` and then a `size_t`: the sign is kept.
unfoldable pub int_to_size : ℕ → ℕ
int_to_size l =
    if ltb (l % u32_mod) (2 ^ 31) then l % u32_mod else l % u32_mod + (u64_mod - u32_mod)

-- A BoolType made a `bool`: its first constructor is 0.
unfoldable pub to_bool : BoolType → Bool
to_bool bool_default = false
to_bool bool_yes = true
to_bool bool_no = true

-- `v[0]` of a C string.
abbrev pub first_byte : Bytes → ℕ
first_byte [] = 0
first_byte (c ∷ rest) = c

-- `strncmp(name, "xmlns:", 6) == 0`
unfoldable pub is_prefix : Bytes → Bytes → Bool
is_prefix [] str = true
is_prefix (p ∷ prefix) [] = false
is_prefix (p ∷ prefix) (c ∷ str) = (p == c) && is_prefix prefix str

-- xmlparser::QueryMode
pub data QueryMode : Type 0 where
  query_mws query_schema : QueryMode

unfoldable pub set_output : QueryMode → Bytes → Query → Query
set_output mode value q =
    if bytes_eq value (codes "xml")
    then record q {
      response_formatter = elim mode [ query_schema ↦ schema_xml | query_mws ↦ mws_xml ];
    }
    else if bytes_eq value (codes "json")
    then record q {
      response_formatter = elim mode [ query_schema ↦ schema_json | query_mws ↦ mws_json ];
    }
    else if bytes_eq value (codes "mws-ids")
    then record q { response_formatter = mws_ids; include_hits = false; include_mws_ids = true }
    else q

unfoldable pub read_attribute : (Bytes → ℕ) → QueryMode → Bytes → Bytes → Query → Query
unfolding int_to_size is_prefix to_bool set_output
read_attribute strtol mode name value q =
    if is_prefix (codes "xmlns:") name
    then q
    else if bytes_eq name (codes "answsize")
    then record q { result_max_size = int_to_size (strtol value) }
    else if bytes_eq name (codes "limitmin")
    then record q { result_limit_min = int_to_size (strtol value) }
    else if bytes_eq name (codes "totalreq")
    then record q { result_total_req = to_bool (get_bool_type value) }
    else if bytes_eq name (codes "schema_depth")
    then record q { max_depth = strtol value % 256 }
    else if bytes_eq name (codes "cutoff_mode")
    then record q { cutoff_mode = some (first_byte value) }
    else if bytes_eq name (codes "output")
    then set_output mode value q
    else warn q

-- The loop over the attributes of the main element.
unfoldable pub read_attributes : (Bytes → ℕ) → QueryMode → Attributes → Query → Query
unfolding read_attribute
read_attributes strtol mode [] q = q
read_attributes strtol mode ((name, value) ∷ rest) q =
    read_attributes strtol mode rest (read_attribute strtol mode name value q)

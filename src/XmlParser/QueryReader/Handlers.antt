-- ===== src/XmlParser/QueryReader/Handlers.antt =====
-- src/mws/xmlparser/readMwsQuery.cpp: the SAX callbacks and the function that runs them. The end of
-- the document is the last event; a handler behind it that finds a null result, which the source
-- would read through, leaves it here.
use mws.Prelude.{
  ℕ, zero, suc, ◌+◌, ◌-◌, Bool, true, false, Option, none, some, List, [], ◌∷◌, ◌++◌, ◌==◌,
  if◌then◌else◌,
}
use mws.Prelude.Bytes.{Bytes, codes, bytes_eq}
use mws.Types.CmmlToken.{Attributes, append_text_content}
use mws.XmlParser.{
  Event, start_element, end_element, characters, warning, error, end_document, OpenToken,
  start_token, to_parent, update_at,
}
use mws.XmlParser.QueryReader.{
  Query, new_query, warn, QueryMode, query_mws, query_schema, mws_xml, schema_json, read_attributes,
}

-- MwsQueryState
pub data MwsQueryState : Type 0 where
  default in_mws_query in_mws_expr unknown : MwsQueryState

-- MwsQuery_SaxUserData; a result of `none` is a null pointer.
pub record SaxUserData : Type 0 where
  pub unknown_depth : ℕ
  pub current : Option OpenToken
  pub state : MwsQueryState
  pub prev_state : MwsQueryState
  pub error_detected : Bool
  pub result : Option Query
  pub q_mode : QueryMode

-- The constructor, with what `readMwsQuery` sets by mode; the first two arguments are
-- uninitialised.
abbrev pub new_user_data : ℕ → MwsQueryState → QueryMode → SaxUserData
new_user_data unknown_depth prev_state mode = record {
  unknown_depth = unknown_depth;
  current = none;
  state = default;
  prev_state = prev_state;
  error_detected = false;
  result = some (new_query (elim mode [ query_mws ↦ mws_xml | query_schema ↦ schema_json ]));
  q_mode = mode;
}

abbrev pub on_result : (Query → Query) → SaxUserData → SaxUserData
on_result f s = record s { result = elim s.result [ none ↦ none | some q ↦ some (f q) ] }

-- An element that the state does not expect.
abbrev pub enter_unknown : SaxUserData → SaxUserData
enter_unknown s = record (on_result warn s) {
  prev_state = s.state;
  state = unknown;
  unknown_depth = 1;
}

unfoldable pub my_start_element :
    (ℕ → Bytes) → (Bytes → ℕ) → Bytes → Attributes → SaxUserData → SaxUserData
my_start_element digits strtol name attrs s = elim s.state [
  | default ↦
      if bytes_eq name (codes "mws:query")
      then on_result (read_attributes strtol s.q_mode attrs) (record s { state = in_mws_query })
      else enter_unknown s
  | in_mws_query ↦
      if bytes_eq name (codes "mws:expr") then record s { state = in_mws_expr } else enter_unknown s
  | in_mws_expr ↦ record s { current = some (start_token digits name attrs s.current) }
  | unknown ↦ record s { unknown_depth = s.unknown_depth + 1 }
]

unfoldable pub my_end_element : SaxUserData → SaxUserData
my_end_element s = elim s.state [
  | default ↦ s
  | in_mws_query ↦ record s { state = default }
  | in_mws_expr ↦ elim s.current [
    | none ↦ record s { state = in_mws_query }
    | some o ↦ elim o.depth [
      | zero ↦ record (on_result (λ q. record q { tokens = q.tokens ++ o.root ∷ [] }) s) {
        current = none;
      }
      | suc d ↦ record s { current = some (to_parent o) }
    ]
  ]
  | unknown ↦
      let depth = s.unknown_depth - 1 in
      if depth == 0
      then record s { unknown_depth = depth; state = s.prev_state }
      else record s { unknown_depth = depth }
]

unfoldable pub my_characters : Bytes → SaxUserData → SaxUserData
my_characters text s = elim s.state [
  | in_mws_expr ↦ elim s.current [
    | none ↦ s
    | some o ↦ record s {
      current =
          some (record o { root = update_at o.depth (λ t. append_text_content t text) o.root });
    }
  ]
  | _ ↦ s
]

abbrev pub my_warning : SaxUserData → SaxUserData
my_warning s = on_result warn s

abbrev pub my_error : SaxUserData → SaxUserData
my_error s = record s { error_detected = true; current = none }

abbrev pub my_end_document : SaxUserData → SaxUserData
my_end_document s = if s.error_detected then record s { result = none } else s

-- The registration of the callbacks.
unfoldable pub handle : (ℕ → Bytes) → (Bytes → ℕ) → SaxUserData → Event → SaxUserData
unfolding my_start_element my_end_element my_characters
handle digits strtol s (start_element name attrs) = my_start_element digits strtol name attrs s
handle digits strtol s end_element = my_end_element s
handle digits strtol s (characters text) = my_characters text s
handle digits strtol s warning = my_warning s
handle digits strtol s error = my_error s
handle digits strtol s end_document = my_end_document s

-- `xmlParseDocument` calls the handlers on the events of the file.
unfoldable pub parse_document : (ℕ → Bytes) → (Bytes → ℕ) → List Event → SaxUserData → SaxUserData
unfolding handle
parse_document digits strtol [] s = s
parse_document digits strtol (e ∷ es) s = parse_document digits strtol es (handle digits strtol s e)

-- `readMwsQuery`; the events are `none` if the parser's context cannot be made. The first two
-- arguments after the library functions are the uninitialised members.
unfoldable pub read_mws_query :
    (ℕ → Bytes)
    → (Bytes → ℕ)
    → ℕ
    → MwsQueryState
    → Option (Option (List Event))
    → QueryMode
    → Option Query
unfolding parse_document
read_mws_query digits strtol u p none mode = none
read_mws_query digits strtol u p (some none) mode = none
read_mws_query digits strtol u p (some (some es)) mode =
    (parse_document digits strtol es (new_user_data u p mode)).result

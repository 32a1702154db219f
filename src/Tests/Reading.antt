-- ===== src/Tests/Reading.antt =====
-- A query and a harvest of small documents, and broken ones.
use mws.Prelude.{ℕ, ◌≡◌, ◌↔◌, ◌⊎◌, ◌+◌, ◌-◌, refl, [], ◌∷◌, ◌++◌, some, none, List, true, nat_eq}
use mws.Prelude.Tests.{list_eq}
use mws.Prelude.Bytes.{Bytes, codes}
use mws.XmlParser.{Event, start_element, end_element, characters, error, end_document}
use mws.XmlParser.Document.{Nodes, empty, follow, element, text_node, events}
use mws.XmlParser.QueryReader.{query_mws, new_query, mws_xml, apply_restrictions}
use mws.XmlParser.QueryReader.Handlers.{
  default, unknown, read_mws_query, parse_document, new_user_data,
}
use mws.XmlParser.QueryReader.Reading.{read_main}
use mws.XmlParser.QueryReader.Whole.{read_mws_query-eq-read_main}
use mws.XmlParser.QueryReader.Safety.{
  IsConsistent, IsRestricted, any_event, is_error, is_end, parse_document-IsConsistent,
  read_mws_query-none, apply_restrictions-IsRestricted,
}

-- `std::to_string` and `strtol` of one digit.
abbrev pub digits : ℕ → Bytes
digits n = (48 + n) ∷ []

abbrev strtol : Bytes → ℕ
strtol [] = 0
strtol (c ∷ rest) = c - 48

-- An expression that applies x to y, and an element that no reader knows.
abbrev pub expressions : Nodes
expressions =
    follow
      (element (codes "mws:expr") ((codes "url", codes "u") ∷ []) (
        follow
          (element (codes "apply") [] (
            follow (element (codes "ci") [] (follow (text_node (codes "x")) empty))
              (follow (element (codes "mws:qvar") ((codes "name", codes "y") ∷ []) empty) empty)))
          empty))
      (follow (element (codes "note") [] (follow (element (codes "b") [] empty) empty)) empty)

abbrev attributes : List (Bytes × Bytes)
attributes = (codes "answsize", codes "5") ∷ (codes "size", codes "9") ∷ []

read_mws_query-eq-read_main_example :
    read_mws_query digits strtol 0 default
      (some (
        some (
          events (follow (element (codes "mws:query") attributes expressions) empty)
          ++ end_document ∷ [])))
      query_mws
    ≡ some (read_main digits strtol query_mws (codes "mws:query") attributes expressions)
read_mws_query-eq-read_main_example =
    read_mws_query-eq-read_main digits strtol 0 default query_mws (codes "mws:query") attributes
      expressions

-- An error stands inside an expression.
abbrev broken : List Event
broken =
    start_element (codes "mws:query") []
    ∷ start_element (codes "mws:expr") []
    ∷ start_element (codes "ci") []
    ∷ error
    ∷ end_element
    ∷ end_element
    ∷ []

parse_document-IsConsistent_example :
    IsConsistent (parse_document digits strtol broken (new_user_data 7 unknown query_mws))
parse_document-IsConsistent_example =
    parse_document-IsConsistent digits strtol broken 7 unknown query_mws

read_mws_query-none_example :
    (read_mws_query digits strtol 0 default (some (some (broken ++ end_document ∷ []))) query_mws
      ≡ none)
    ↔ (any_event is_error broken ≡ true)
unfolding any_event is_end
read_mws_query-none_example = read_mws_query-none digits strtol 0 default broken query_mws refl

abbrev greedy : mws.XmlParser.QueryReader.Query
greedy = record (new_query mws_xml) { result_max_size = 500 }

apply_restrictions-IsRestricted_example :
    IsRestricted (apply_restrictions greedy)
    × (((apply_restrictions greedy).restricted ≡ true) ⊎ (apply_restrictions greedy ≡ greedy))
apply_restrictions-IsRestricted_example = apply_restrictions-IsRestricted greedy

-- ===== src/XmlParser/QueryReader/Safety.antt =====
-- What holds of the reader of queries over every sequence of SAX events, well-formed or not.
use mws.Prelude.{
  ℕ, ◌≡◌, ◌≢◌, ◌≤◌, ◌<◌, ◌⊎◌, refl, Bool, true, false, Option, none, some, List, [], ◌∷◌, ◌++◌,
  ◌||◌, ◌↔◌, arith,
}
use mws.Prelude.Bytes.{Bytes}
use mws.Types.CmmlToken.{Attributes}
use mws.XmlParser.{Event, start_element, end_element, characters, warning, error, end_document}
use mws.XmlParser.QueryReader.{Query, QueryMode, apply_restrictions}
use mws.XmlParser.QueryReader.Handlers.{
  MwsQueryState, default, in_mws_query, in_mws_expr, unknown, SaxUserData, new_user_data,
  parse_document, handle, my_start_element, my_end_element, my_characters, read_mws_query,
}

-- A token is open only inside an expression, and an unknown element has a depth and a state to go
-- back to, which is one without tokens.
pub record IsConsistent (s : SaxUserData) : Type 0 where
  pub no_token : s.state ≢ in_mws_expr → s.current ≡ none
  pub is_inside : s.state ≡ unknown → 0 < s.unknown_depth
  pub goes_back : s.state ≡ unknown → (s.prev_state ≡ default) ⊎ (s.prev_state ≡ in_mws_query)

start-IsConsistent :
    (digits : ℕ → Bytes) (strtol : Bytes → ℕ) (name : Bytes) (attrs : Attributes) (s : SaxUserData)
    → IsConsistent s
    → IsConsistent (my_start_element digits strtol name attrs s)
unfolding my_start_element
start-IsConsistent digits strtol name attrs s h = ground arith

end-IsConsistent : (s : SaxUserData) → IsConsistent s → IsConsistent (my_end_element s)
unfolding my_end_element
end-IsConsistent s h = ground arith

handle-IsConsistent :
    (digits : ℕ → Bytes) (strtol : Bytes → ℕ) (e : Event) (s : SaxUserData)
    → IsConsistent s
    → IsConsistent (handle digits strtol s e)
unfolding handle my_characters
handle-IsConsistent digits strtol (start_element name attrs) s h =
    start-IsConsistent digits strtol name attrs s h
handle-IsConsistent digits strtol end_element s h = end-IsConsistent s h
handle-IsConsistent digits strtol (characters text) s h = ground arith
handle-IsConsistent digits strtol warning s h = ground arith
handle-IsConsistent digits strtol error s h = ground arith
handle-IsConsistent digits strtol end_document s h = ground arith

parse-IsConsistent :
    (digits : ℕ → Bytes) (strtol : Bytes → ℕ) (es : List Event) (s : SaxUserData)
    → IsConsistent s
    → IsConsistent (parse_document digits strtol es s)
unfolding parse_document
parse-IsConsistent digits strtol [] s h = h
parse-IsConsistent digits strtol (e ∷ es) s h =
    parse-IsConsistent digits strtol es (handle digits strtol s e)
      (handle-IsConsistent digits strtol e s h)

-- After any list of events, from the initial user data with any values in the uninitialised
-- members, a token is open only in the state IN_MWS_EXPR, and in the state UNKNOWN the depth is
-- above 0 and the state to return to is DEFAULT or IN_MWS_QUERY.
pub parse_document-IsConsistent :
    (digits : ℕ → Bytes) (strtol : Bytes → ℕ) (es : List Event) (u : ℕ) (p : MwsQueryState)
    (mode : QueryMode)
    → IsConsistent (parse_document digits strtol es (new_user_data u p mode))
parse_document-IsConsistent digits strtol es u p mode =
    parse-IsConsistent digits strtol es (new_user_data u p mode)
      (record { no_token = λ h. refl; is_inside = λ h. cc; goes_back = λ h. cc })

-- Equal but for members that were not written yet.
record Agree (s t : SaxUserData) : Type 0 where
  state : s.state ≡ t.state
  current : s.current ≡ t.current
  error : s.error_detected ≡ t.error_detected
  result : s.result ≡ t.result
  q_mode : s.q_mode ≡ t.q_mode
  depth : s.state ≡ unknown → s.unknown_depth ≡ t.unknown_depth
  prev : s.state ≡ unknown → s.prev_state ≡ t.prev_state

handle-Agree :
    (digits : ℕ → Bytes) (strtol : Bytes → ℕ) (e : Event) (s t : SaxUserData)
    → Agree s t
    → Agree (handle digits strtol s e) (handle digits strtol t e)
unfolding handle my_characters my_start_element my_end_element
handle-Agree digits strtol (start_element name attrs) s t h = ground arith
handle-Agree digits strtol end_element s t h = ground arith
handle-Agree digits strtol (characters text) s t h = ground arith
handle-Agree digits strtol warning s t h = ground arith
handle-Agree digits strtol error s t h = ground arith
handle-Agree digits strtol end_document s t h = ground arith

parse-Agree :
    (digits : ℕ → Bytes) (strtol : Bytes → ℕ) (es : List Event) (s t : SaxUserData)
    → Agree s t
    → (parse_document digits strtol es s).result ≡ (parse_document digits strtol es t).result
unfolding parse_document
parse-Agree digits strtol [] s t h = h.result
parse-Agree digits strtol (e ∷ es) s t h =
    parse-Agree digits strtol es (handle digits strtol s e) (handle digits strtol t e)
      (handle-Agree digits strtol e s t h)

-- What readMwsQuery returns does not depend on the values that unknownDepth and prevState have
-- before they are written, whatever the file, the events and the mode are.
pub read_mws_query-initial :
    (digits : ℕ → Bytes) (strtol : Bytes → ℕ) (u u' : ℕ) (p p' : MwsQueryState)
    (file : Option (Option (List Event))) (mode : QueryMode)
    → read_mws_query digits strtol u p file mode ≡ read_mws_query digits strtol u' p' file mode
unfolding read_mws_query
read_mws_query-initial digits strtol u u' p p' none mode = refl
read_mws_query-initial digits strtol u u' p p' (some none) mode = refl
read_mws_query-initial digits strtol u u' p p' (some (some es)) mode =
    parse-Agree digits strtol es (new_user_data u p mode) (new_user_data u' p' mode) (record {
      state = refl;
      current = refl;
      error = refl;
      result = refl;
      q_mode = refl;
      depth = λ h. cc;
      prev = λ h. cc;
    })

unfoldable pub is_error : Event → Bool
is_error e = elim e [ error ↦ true | _ ↦ false ]

unfoldable pub is_end : Event → Bool
is_end e = elim e [ end_document ↦ true | _ ↦ false ]

-- Whether an event in the list passes a test.
unfoldable pub any_event : (Event → Bool) → List Event → Bool
any_event test [] = false
any_event test (e ∷ es) = test e || any_event test es

handle_result :
    (digits : ℕ → Bytes) (strtol : Bytes → ℕ) (e : Event) (s : SaxUserData)
    → is_end e ≡ false
    → s.result ≢ none
    → ((handle digits strtol s e).result ≢ none)
      × ((handle digits strtol s e).error_detected ≡ (s.error_detected || is_error e))
unfolding handle my_characters my_start_element my_end_element is_error is_end
handle_result digits strtol (start_element name attrs) s g h = ground arith
handle_result digits strtol end_element s g h = ground arith
handle_result digits strtol (characters text) s g h = ground arith
handle_result digits strtol warning s g h = ground arith
handle_result digits strtol error s g h = ground arith
handle_result digits strtol end_document s g h = cc

parse_result :
    (digits : ℕ → Bytes) (strtol : Bytes → ℕ) (es : List Event) (s : SaxUserData)
    → any_event is_end es ≡ false
    → s.result ≢ none
    → ((parse_document digits strtol (es ++ end_document ∷ []) s).result ≡ none)
      ↔ ((s.error_detected || any_event is_error es) ≡ true)
unfolding parse_document handle any_event
parse_result digits strtol [] s g h = (λ k. ground arith, λ k. ground arith)
parse_result digits strtol (e ∷ es) s g h =
    let kept = handle_result digits strtol e s (ground arith) h in
    let below = parse_result digits strtol es (handle digits strtol s e) (ground arith) kept.0 in
    (λ k. ground (arith, below.0 k), λ k. below.1 (ground (arith, kept.1)))

-- For a list of events without an end of the document, followed by one, readMwsQuery returns the
-- null pointer exactly if the list has an error.
pub read_mws_query-none :
    (digits : ℕ → Bytes) (strtol : Bytes → ℕ) (u : ℕ) (p : MwsQueryState) (es : List Event)
    (mode : QueryMode)
    → any_event is_end es ≡ false
    → (read_mws_query digits strtol u p (some (some (es ++ end_document ∷ []))) mode ≡ none)
      ↔ (any_event is_error es ≡ true)
unfolding read_mws_query
read_mws_query-none digits strtol u p es mode g =
    parse_result digits strtol es (new_user_data u p mode) g (λ h. cc)

pub record IsRestricted (q : Query) : Type 0 where
  pub max_size : q.result_max_size ≤ 100
  pub limit_min : q.result_limit_min ≤ 12000
  pub total_req_nr : q.result_total_req_nr ≤ 12000

pub apply_restrictions-IsRestricted :
    (q : Query)
    → IsRestricted (apply_restrictions q)
      × (((apply_restrictions q).restricted ≡ true) ⊎ (apply_restrictions q ≡ q))
unfolding apply_restrictions
apply_restrictions-IsRestricted q = (ground arith, ground arith)

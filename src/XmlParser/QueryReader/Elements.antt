-- ===== src/XmlParser/QueryReader/Elements.antt =====
-- What the SAX callbacks of readMwsQuery.cpp make of the events of a whole element.
use mws.Prelude.{
  ℕ, suc, ◌≡◌, refl, ap, ◌∙◌, sym, false, Option, none, some, List, [], ◌∷◌, ◌++◌, arith,
  append_assoc, append-nil,
}
use mws.Prelude.Bytes.{Bytes}
use mws.Types.CmmlToken.{CmmlToken, Attributes, new_root, append_text_content, new_child_node}
use mws.XmlParser.{Event, end_element, OpenToken, start_token, update_at, decorate}
use mws.XmlParser.Document.{Nodes, empty, follow, element, text_node, events, fill}
use mws.XmlParser.Building.{update_child, update_at_compose, update_at_id}
use mws.XmlParser.QueryReader.{Query, QueryMode}
use mws.XmlParser.QueryReader.Handlers.{
  MwsQueryState, in_mws_expr, unknown, SaxUserData, parse_document, handle, my_start_element,
  my_end_element, my_characters,
}
use mws.XmlParser.QueryReader.Reading.{read_expressions, add_tokens}

abbrev pub user_data :
    ℕ → MwsQueryState → MwsQueryState → Option OpenToken → Option Query → QueryMode → SaxUserData
user_data u st p current q mode = record {
  unknown_depth = u;
  current = current;
  state = st;
  prev_state = p;
  error_detected = false;
  result = q;
  q_mode = mode;
}

pub parse-append :
    (digits : ℕ → Bytes) (strtol : Bytes → ℕ) (es fs : List Event) (s : SaxUserData)
    → parse_document digits strtol (es ++ fs) s
      ≡ parse_document digits strtol fs (parse_document digits strtol es s)
unfolding parse_document
parse-append digits strtol [] fs s = refl
parse-append digits strtol (e ∷ es) fs s =
    parse-append digits strtol es fs (handle digits strtol s e)

pub parse-element :
    (digits : ℕ → Bytes) (strtol : Bytes → ℕ) (name : Bytes) (attrs : Attributes)
    (inside rest : Nodes) (s : SaxUserData)
    → parse_document digits strtol (events (follow (element name attrs inside) rest)) s
      ≡ parse_document digits strtol (events rest) (
          my_end_element (
            parse_document digits strtol
              (events inside)
              (my_start_element digits strtol name attrs s)))
unfolding parse_document handle events
parse-element digits strtol name attrs inside rest s =
    parse-append digits strtol (events inside) (end_element ∷ events rest)
      (my_start_element digits strtol name attrs s)

module _ (digits : ℕ → Bytes) (strtol : Bytes → ℕ) (p : MwsQueryState) (mode : QueryMode) where
  leave_nested :
      (u : ℕ) (o : Option OpenToken) (q : Option Query)
      → my_end_element (user_data (suc (suc u)) unknown p o q mode)
        ≡ user_data (suc u) unknown p o q mode
  unfolding my_end_element
  leave_nested u o q = ground arith

  enter_nested :
      (name : Bytes) (attrs : Attributes) (u : ℕ) (o : Option OpenToken) (q : Option Query)
      → my_start_element digits strtol name attrs (user_data (suc u) unknown p o q mode)
        ≡ user_data (suc (suc u)) unknown p o q mode
  unfolding my_start_element
  enter_nested name attrs u o q = ap (λ n. user_data n unknown p o q mode) (omega arith)

  -- Events in an unknown element leave the state as it was.
  pub skip :
      (inside : Nodes) (u : ℕ) (o : Option OpenToken) (q : Option Query)
      → parse_document digits strtol (events inside) (user_data (suc u) unknown p o q mode)
        ≡ user_data (suc u) unknown p o q mode
  unfolding parse_document handle my_start_element my_end_element my_characters events
  skip empty u o q = refl
  skip (follow (text_node s) rest) u o q = skip rest u o q
  skip (follow (element name attrs inside) rest) u o q =
      parse-element digits strtol name attrs inside rest (user_data (suc u) unknown p o q mode)
      ∙ ap
          (λ z.
            parse_document digits strtol (events rest)
              (my_end_element (parse_document digits strtol (events inside) z)))
          (enter_nested name attrs u o q)
      ∙ ap (λ z. parse_document digits strtol (events rest) (my_end_element z))
          (skip inside (suc u) o q)
      ∙ ap (parse_document digits strtol (events rest)) (leave_nested u o q)
      ∙ skip rest u o q

  abbrev in_token : ℕ → CmmlToken → ℕ → Option Query → SaxUserData
  in_token u root d q = user_data u in_mws_expr p (some (record { root = root; depth = d })) q mode

  leave_token :
      (u : ℕ) (root : CmmlToken) (d : ℕ) (q : Option Query)
      → my_end_element (in_token u root (suc d) q) ≡ in_token u root d q
  unfolding my_end_element
  leave_token u root d q = ap (λ n. in_token u root n q) (omega arith)

  -- Events inside a token's element write to the current token.
  grow :
      (u : ℕ) (inside : Nodes) (root : CmmlToken) (d : ℕ) (q : Option Query)
      → parse_document digits strtol (events inside) (in_token u root d q)
        ≡ in_token u (update_at d (λ t. fill digits t inside) root) d q
  unfolding parse_document handle my_start_element my_end_element my_characters events fill
      start_token
  grow u empty root d q = ap (λ z. in_token u z d q) (sym (update_at_id d root))
  grow u (follow (text_node s) rest) root d q =
      grow u rest (update_at d (λ t. append_text_content t s) root) d q
      ∙ ap (λ z. in_token u z d q)
          (update_at_compose d (λ t. fill digits t rest) (λ t. append_text_content t s) root)
  grow u (follow (element name attrs inside) rest) root d q =
      let made =
        update_at (suc d) (decorate name attrs)
          (update_at d (λ t. (new_child_node digits t).0) root) in
      parse-element digits strtol name attrs inside rest (in_token u root d q)
      ∙ ap (λ z. parse_document digits strtol (events rest) (my_end_element z))
          (grow u inside made (suc d) q)
      ∙ ap (parse_document digits strtol (events rest))
          (leave_token u (update_at (suc d) (λ t. fill digits t inside) made) d q)
      ∙ grow u rest (update_at (suc d) (λ t. fill digits t inside) made) d q
      ∙ ap (λ z. in_token u z d q)
          (update_child digits d (λ t. fill digits t inside) (decorate name attrs)
            (λ t. fill digits t rest) root)

  -- Events inside an element mws:expr add its tokens.
  pub read-expressions :
      (u : ℕ) (inside : Nodes) (q : Query)
      → parse_document digits strtol (events inside) (user_data u in_mws_expr p none (some q) mode)
        ≡ user_data u in_mws_expr p none (some (add_tokens (read_expressions digits inside) q)) mode
  unfolding parse_document handle my_start_element my_end_element my_characters events start_token
      read_expressions update_at
  read-expressions u empty q =
      ap (λ z. user_data u in_mws_expr p none (some (record q { tokens = z })) mode)
        (sym (append-nil q.tokens))
  read-expressions u (follow (text_node s) rest) q = read-expressions u rest q
  read-expressions u (follow (element name attrs inside) rest) q =
      let made = decorate name attrs new_root in
      parse-element digits strtol name attrs inside rest
        (user_data u in_mws_expr p none (some q) mode)
      ∙ ap (λ z. parse_document digits strtol (events rest) (my_end_element z))
          (grow u inside made 0 (some q))
      ∙ read-expressions u rest (add_tokens (fill digits made inside ∷ []) q)
      ∙ ap (λ z. user_data u in_mws_expr p none (some (record q { tokens = z })) mode)
          (append_assoc q.tokens (fill digits made inside ∷ []) (read_expressions digits rest))

-- ===== src/XmlParser/Document.antt =====
-- An XML document as a tree, the events that libxml2 reports of it, and the token that an element
-- stands for.
use mws.Prelude.{ℕ, List, [], ◌∷◌, ◌++◌}
use mws.Prelude.Bytes.{Bytes}
use mws.Types.CmmlToken.{
  CmmlToken, token, Attributes, new_child_node, append_text_content, push_back,
}
use mws.XmlParser.{Event, start_element, end_element, characters, decorate}

mutual
  pub data Node : Type 0 where
    element : Bytes → Attributes → Nodes → Node
    text_node : Bytes → Node

  pub data Nodes : Type 0 where
    empty : Nodes
    follow : Node → Nodes → Nodes

unfoldable pub events : Nodes → List Event
events empty = []
events (follow (text_node s) rest) = characters s ∷ events rest
events (follow (element name attrs inside) rest) =
    start_element name attrs ∷ (events inside ++ end_element ∷ events rest)

abbrev pub add_child : CmmlToken → CmmlToken → CmmlToken
add_child (token tag attrs text xpath children) child =
    token tag attrs text xpath (push_back children child)

-- The token with what stands inside its element.
unfoldable pub fill : (ℕ → Bytes) → CmmlToken → Nodes → CmmlToken
fill digits t empty = t
fill digits t (follow (text_node s) rest) = fill digits (append_text_content t s) rest
fill digits t (follow (element name attrs inside) rest) =
    let child = fill digits (decorate name attrs (new_child_node digits t).1) inside in
    fill digits (add_child t child) rest

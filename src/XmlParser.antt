-- ===== src/XmlParser.antt =====
-- src/mws/xmlparser: what the two SAX readers share. libxml2 is the list of the events it reports;
-- a handler is a function from the user data and an event to the user data.
pub mod Document
pub mod Building
pub mod QueryReader
pub mod HarvestReader
use mws.Prelude.{ℕ, zero, suc, ◌-◌, Option, none, some, List, [], ◌∷◌}
use mws.Prelude.Bytes.{Bytes}
use mws.Types.CmmlToken.{
  CmmlToken, Tokens, token, nil, cons, Attributes, new_root, new_child_node, set_tag, add_attribute,
}

-- The callbacks that are registered, with their arguments that the readers use.
pub data Event : Type 0 where
  start_element : Bytes → Attributes → Event
  end_element : Event
  characters : Bytes → Event
  warning error end_document : Event

-- `currentTokenRoot` and `currentToken`, which are set and cleared together: the root, and the
-- number of steps to a last child that lead from it to the current token.
pub record OpenToken : Type 0 where
  pub root : CmmlToken
  pub depth : ℕ

-- A write through `currentToken`.
unfoldable mutual
  pub update_at : ℕ → (CmmlToken → CmmlToken) → CmmlToken → CmmlToken
  update_at zero f t = f t
  update_at (suc d) f (token tag attrs text xpath children) =
      token tag attrs text xpath (update_last d f children)

  pub update_last : ℕ → (CmmlToken → CmmlToken) → Tokens → Tokens
  update_last d f nil = nil
  update_last d f (cons t nil) = cons (update_at d f t) nil
  update_last d f (cons t (cons u ts)) = cons t (update_last d f (cons u ts))

-- The loop over the attributes of a token.
unfoldable pub add_attributes : Attributes → CmmlToken → CmmlToken
add_attributes [] t = t
add_attributes ((name, value) ∷ rest) t = add_attributes rest (add_attribute t name value)

unfoldable pub decorate : Bytes → Attributes → CmmlToken → CmmlToken
unfolding add_attributes
decorate name attrs t = add_attributes attrs (set_tag t name)

-- A start of an element inside an expression; `digits` is `std::to_string`.
unfoldable pub start_token : (ℕ → Bytes) → Bytes → Attributes → Option OpenToken → OpenToken
unfolding decorate update_at
start_token digits name attrs none = record { root = decorate name attrs new_root; depth = 0 }
start_token digits name attrs (some o) =
    let grown = update_at o.depth (λ t. (new_child_node digits t).0) o.root in
    record { root = update_at (suc o.depth) (decorate name attrs) grown; depth = suc o.depth }

-- `getParentNode`, of a token that is not the root.
abbrev pub to_parent : OpenToken → OpenToken
to_parent o = record o { depth = o.depth - 1 }

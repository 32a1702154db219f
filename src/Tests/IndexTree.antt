-- ===== src/Tests/IndexTree.antt =====
-- An index with one formula, and a second one put in.
use mws.Prelude.{◌≡◌, [], ◌∷◌}
use mws.Index.EncodedToken.{EncodedFormula}
use mws.Index.TmpIndex.{TmpIndexNode, new_node, insert_from}
use mws.Index.TmpIndex.Ordered.{IsOrdered}
use mws.Index.TmpIndex.Insert.{leaf_at, leaf_at-insert_from, insert_from-IsOrdered}
use mws.Tests.Vector.{x_token, y_token, plus_token}

abbrev x_plus_y : EncodedFormula
x_plus_y = x_token ∷ y_token ∷ []

one_formula : TmpIndexNode
one_formula = (insert_from plus_token x_plus_y new_node 0).node

one_formula-IsOrdered : IsOrdered one_formula
unfolding one_formula
one_formula-IsOrdered = insert_from-IsOrdered plus_token x_plus_y new_node 0 (tt, tt)

leaf_at-insert_from_example :
    leaf_at (plus_token ∷ x_plus_y) (insert_from y_token [] one_formula 1).node
    ≡ leaf_at (plus_token ∷ x_plus_y) one_formula
leaf_at-insert_from_example =
    leaf_at-insert_from y_token [] (plus_token ∷ x_plus_y) one_formula 1 one_formula-IsOrdered
      (λ h. cc)

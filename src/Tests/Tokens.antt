-- ===== src/Tests/Tokens.antt =====
-- The expression x + 1 as a tree of tokens.
use mws.Prelude.{◌≡◌, [], none, some, true}
use mws.Prelude.Bytes.{codes}
use mws.Types.CmmlToken.{CmmlToken, token, nil, cons}
use mws.Types.CmmlToken.Traverse.{
  Located, foreach_subexpression, preorder, foreach_subexpression-eq-preorder,
}

abbrev pub x_plus_one : CmmlToken
x_plus_one = token (codes "apply") [] [] (codes "/*[1]") (
    cons (token (codes "plus") [] [] (codes "/*[1]/*[1]") nil) (
      cons (token (codes "ci") [] (codes "x") (codes "/*[1]/*[2]") nil)
        (cons (token (codes "cn") [] (codes "1") (codes "/*[1]/*[3]") nil) nil)))

abbrev pub located_sum : Located
located_sum = record { node = x_plus_one; parent_tag = none; is_front = true }

foreach_subexpression-eq-preorder_example :
    foreach_subexpression located_sum ≡ some (preorder located_sum)
foreach_subexpression-eq-preorder_example = foreach_subexpression-eq-preorder located_sum

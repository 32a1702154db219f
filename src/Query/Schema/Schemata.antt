-- ===== src/Query/Schema/Schemata.antt =====
-- `getSchemata` of src/mws/query/SchemaEngine.cpp: formulas grouped by the hash of what is left of
-- them at a depth, the largest groups first. The groups are listed in the order of their first
-- formulas, and groups of one size keep it; the source leaves both orders to its library. The
-- percentage of a depth, which is computed in doubles, is a parameter. `none` is as for the parts.
use mws.Prelude.{
  ℕ, ◌+◌, ◌%◌, ◌&&◌, not, Option, none, some, List, [], ◌∷◌, ◌++◌, length, take, ltb, ◌==◌,
  if◌then◌else◌,
}
use mws.Prelude.Bits.{u32_mod}
use mws.Prelude.Bytes.{Bytes, bytes_eq}
use mws.Types.CmmlToken.{CmmlToken, get_expr_depth}
use mws.Index.EncodedToken.{EncodedFormula}
use mws.Query.Schema.{reduce_formula, hash_expr, unhash_expr}
use mws.Query.Schema.Decode.{decode_formula}

-- SchemaEngine::Config
pub data CutoffHeuristic : Type 0 where
  absolute relative : CutoffHeuristic

-- ExprSchema
pub record ExprSchema : Type 0 where
  pub root : CmmlToken
  pub coverage : ℕ
  pub formulae : List ℕ
  pub subst_ : List Bytes

-- SchemaAnswset
pub record SchemaAnswset : Type 0 where
  pub schemata : List ExprSchema
  pub total : ℕ

-- `schemaGroup`
abbrev pub Groups : Type 0
Groups = List (Bytes × List ℕ)

-- The index of a formula goes to the group of its hash.
unfoldable pub add_to_group : Bytes → ℕ → Groups → Groups
add_to_group hash i [] = (hash, i ∷ []) ∷ []
add_to_group hash i ((h, formulae) ∷ rest) =
    let below = add_to_group hash i rest in
    if bytes_eq h hash then (h, formulae ++ i ∷ []) ∷ rest else (h, formulae) ∷ below

-- `cutoffs[hash] = cutoff`, and the read.
unfoldable pub set_cutoff : Bytes → ℕ → List (Bytes × ℕ) → List (Bytes × ℕ)
set_cutoff hash cutoff [] = (hash, cutoff) ∷ []
set_cutoff hash cutoff ((h, c) ∷ rest) =
    let below = set_cutoff hash cutoff rest in
    if bytes_eq h hash then (h, cutoff) ∷ rest else (h, c) ∷ below

-- A missing key is made, with 0.
unfoldable pub cutoff_of : Bytes → List (Bytes × ℕ) → ℕ
cutoff_of hash [] = 0
cutoff_of hash ((h, c) ∷ rest) = if bytes_eq h hash then c else cutoff_of hash rest

-- The cutoff for a formula; `percent d n` is the `uint8_t` of 0.01 * d * n. A relative one reads the
-- expression of the formula.
abbrev pub cutoff_for : (ℕ → ℕ → ℕ) → CutoffHeuristic → ℕ → Option CmmlToken → Option ℕ
cutoff_for percent absolute depth expression = some depth
cutoff_for percent relative depth none = none
cutoff_for percent relative depth (some expression) =
    some (percent depth (get_expr_depth expression))

-- The expression of the next formula, and those behind it.
abbrev pub next_of : List CmmlToken → Option CmmlToken × List CmmlToken
next_of [] = (none, [])
next_of (t ∷ rest) = (some t, rest)

-- The cutoff and the hash of a formula.
unfoldable pub hash_of :
    (ℕ → ℕ → ℕ)
    → CutoffHeuristic
    → List Bytes
    → ℕ
    → EncodedFormula
    → Option CmmlToken
    → Option (ℕ × Bytes)
unfolding reduce_formula hash_expr
hash_of percent heuristic table depth expr expression =
    elim (cutoff_for percent heuristic depth expression) [
      | none ↦ none
      | some cutoff ↦ elim (reduce_formula table expr cutoff) [
        | none ↦ none
        | some reduced ↦ some (cutoff, hash_expr reduced)
      ]
    ]

-- The loop over the formulas, from the index `i` on.
unfoldable pub group_formulae :
    (ℕ → ℕ → ℕ)
    → CutoffHeuristic
    → List Bytes
    → ℕ
    → ℕ
    → List EncodedFormula
    → List CmmlToken
    → Groups
    → List (Bytes × ℕ)
    → Option (Groups × List (Bytes × ℕ))
unfolding hash_of add_to_group set_cutoff
group_formulae percent heuristic table depth i [] tokens groups cutoffs = some (groups, cutoffs)
group_formulae percent heuristic table depth i (expr ∷ formulae) tokens groups cutoffs =
    let next = next_of tokens in
    elim (hash_of percent heuristic table depth expr next.0) [
      | none ↦ none
      | some (cutoff, hash) ↦
          group_formulae percent heuristic table depth (i + 1) formulae next.1
            (add_to_group hash (i % u32_mod) groups) (set_cutoff hash cutoff cutoffs)
    ]

-- The sort by the size of a group, the largest first.
unfoldable pub insert_group : Bytes × List ℕ → Groups → Groups
insert_group g [] = g ∷ []
insert_group g (h ∷ rest) =
    let below = insert_group g rest in
    if ltb (length g.1) (length h.1) then h ∷ below else g ∷ h ∷ rest

unfoldable pub sort_groups : Groups → Groups
unfolding insert_group
sort_groups [] = []
sort_groups (g ∷ rest) = insert_group g (sort_groups rest)

-- `resize`, for a number of schemata that is not 0.
abbrev pub cut_groups : ℕ → Groups → Groups
cut_groups max_total groups =
    if ltb max_total (length groups) && not (max_total == 0) then take max_total groups else groups

-- The loop over the groups that are left.
unfoldable pub make_schemata : List Bytes → List (Bytes × ℕ) → Groups → Option (List ExprSchema)
unfolding unhash_expr decode_formula cutoff_of
make_schemata table cutoffs [] = some []
make_schemata table cutoffs ((hash, formulae) ∷ rest) = elim (unhash_expr hash) [
  | none ↦ none
  | some expr ↦ elim (decode_formula table expr (cutoff_of hash cutoffs)) [
    | none ↦ none
    | some root ↦ elim (make_schemata table cutoffs rest) [
      | none ↦ none
      | some schemata ↦ some (
          record { root = root; coverage = length formulae; formulae = formulae; subst_ = [] }
          ∷ schemata)
    ]
  ]
]

unfoldable pub get_schemata :
    (ℕ → ℕ → ℕ)
    → CutoffHeuristic
    → List Bytes
    → List EncodedFormula
    → List CmmlToken
    → ℕ
    → ℕ
    → Option SchemaAnswset
unfolding group_formulae sort_groups make_schemata
get_schemata percent heuristic table formulae tokens max_total depth =
    elim (group_formulae percent heuristic table depth 0 formulae tokens [] []) [
      | none ↦ none
      | some (groups, cutoffs) ↦
          elim (make_schemata table cutoffs (cut_groups max_total (sort_groups groups))) [
            | none ↦ none
            | some schemata ↦ some (record { schemata = schemata; total = length groups })
          ]
    ]

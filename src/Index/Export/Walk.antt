-- ===== src/Index/Export/Walk.antt =====
-- A formula that is followed in the exported file and in the index.
use mws.Prelude.{
  ℕ, zero, suc, ◌+◌, ◌%◌, ◌^◌, ◌<◌, ◌≡◌, refl, ap, sym, ◌∙◌, subst, Option, none, some, List, [],
  ◌∷◌, append-nil, arith, Option-cases, inl, inr, get_elem?,
}
use mws.Types.VectorMap.{find, find_index, find_loop}
use mws.Index.EncodedToken.{EncodedToken, EncodedFormula, token_comparator}
use mws.Index.TmpIndex.{TmpIndexNode, inner, leaf, Children, nil, cons, to_vector, walk, get_child}
use mws.Index.Iterator.Traversal.{IsShaped, moves}
use mws.Index.Memsector.{
  Piece, MemsectorFile, memsector_create, memsector_save, total_size, header_size,
  memsector_off2addr,
}
use mws.Index.Memsector.Accessor
use mws.Index.Memsector.Accessor.{get_formula_id, get_hits_count}
use mws.Index.Memsector.Written.{child_address}
use mws.Index.Export.{export_to_memsector}
use mws.Index.Export.Postorder.{write_node, export_to_memsector-write_node}
use mws.Index.Export.Represents.{Represents, AllRepresent}
use mws.Index.Export.Refinement.{node_written}

-- The address at the end of a token sequence; `some none` is the null pointer.
unfoldable pub walk_file : EncodedFormula → List Piece → ℕ → Option (Option ℕ)
walk_file [] memory node = some (some node)
walk_file (t ∷ rest) memory node = elim (Accessor.get_child memory node t) [
  | none ↦ none
  | some found ↦ elim found [ none ↦ some none | some child ↦ walk_file rest memory child ]
]

-- The child with an index has the offset with that index.
child_Represents :
    (file : List Piece) (offsets : List ℕ) (c : Children) (i : ℕ) {e : EncodedToken × TmpIndexNode}
    → AllRepresent file offsets c
    → get_elem? (to_vector c) i ≡ some e
    → (off : ℕ) × (get_elem? offsets i ≡ some off) × Represents file off e.1
child_Represents file offsets nil i r h = absurd (cc)
child_Represents file [] (cons t n rest) i r h = absurd r
child_Represents file (off ∷ offsets) (cons t n rest) zero {e} r h =
    let same : n ≡ e.1 = ground arith in (off, refl, subst (Represents file off) same r.0)
child_Represents file (off ∷ offsets) (cons t n rest) (suc i) r h =
    child_Represents file offsets rest i r.1 h

find_nil : (t : EncodedToken) → get_child (leaf 0 0 nil) t ≡ none
unfolding get_child find find_index find_loop
find_nil t = refl

-- What a file shows of a leaf, with nothing behind it.
leaf_shown :
    (file : List Piece) (off id solutions : ℕ) (c : Children)
    → Represents file off (leaf id solutions c)
    → (get_formula_id file (memsector_off2addr off) ≡ some id)
      × (get_hits_count file (memsector_off2addr off) ≡ some (solutions % 2 ^ 30))
leaf_shown file off id solutions (cons t n rest) r = absurd r
leaf_shown file off id solutions nil r =
    subst
      (λ z.
        (get_formula_id z (memsector_off2addr off) ≡ some id)
        × (get_hits_count z (memsector_off2addr off) ≡ some (solutions % 2 ^ 30)))
      (append-nil file) (r [])

Represents-walk :
    (formula : EncodedFormula) (file : List Piece) (off : ℕ) (n : TmpIndexNode) {m : TmpIndexNode}
    → Represents file off n
    → walk formula n ≡ some m
    → (off' : ℕ) × (walk_file formula file (memsector_off2addr off)
        ≡ some (some (memsector_off2addr off')))
      × Represents file off' m
unfolding walk walk_file get_child find
Represents-walk [] file off n {m} r h =
    let same : n ≡ m = ground arith in (off, refl, subst (Represents file off) same r)
Represents-walk (t ∷ formula) file off (leaf id solutions (cons u k rest)) r h = absurd r
Represents-walk (t ∷ formula) file off (leaf id solutions nil) r h =
    absurd (ground (arith, find_nil t))
Represents-walk (t ∷ formula) file off (inner c) r h =
    elim (Option-cases (find_index (to_vector c) t)) [
      | inl missing ↦ absurd (ground arith)
      | inr (i, index) ↦ elim (Option-cases (get_elem? (to_vector c) i)) [
        | inl missing ↦ absurd (ground arith)
        | inr (e, there) ↦
            let (child, at_index, shown) = child_Represents file r.0 c i r.2 there in
            let (off', walked, shows) =
              Represents-walk formula file child e.1 shown (ground arith) in
            let reads : Accessor.get_child file (memsector_off2addr off) t
                ≡ some (some (memsector_off2addr child)) =
              ap (λ z. Accessor.get_child z (memsector_off2addr off) t) (sym (append-nil file))
              ∙ r.1 [] t
              ∙ rw (index, child_address, at_index) refl in
            (off', rw (walk_file, reads) walked, shows)
      ]
    ]

-- For an index whose root has the shape that complete formulas build, exported by a new writer
-- with a fuel of at least the number of its leaves, to a file below 16 GiB: if following a
-- formula in the index reaches a leaf, then following it with getChild of IndexAccessor from the
-- root of the exported file reaches an address, whose formula id is the leaf's and whose count of
-- hits is the leaf's, modulo 2^30.
pub export_to_memsector-walk :
    (crc32 : ℕ → List Piece → ℕ) (fuel : ℕ) (root : TmpIndexNode) (formula : EncodedFormula)
    {f : MemsectorFile} {id solutions : ℕ} {c : Children}
    → IsShaped 1 root
    → export_to_memsector crc32 (moves root + suc fuel) root memsector_create ≡ some f
    → header_size + total_size f.contents < 2 ^ 34
    → walk formula root ≡ some (leaf id solutions c)
    → (addr : ℕ) × (walk_file formula f.contents (memsector_off2addr f.header.root_off)
        ≡ some (some addr))
      × (get_formula_id f.contents addr ≡ some id)
      × (get_hits_count f.contents addr ≡ some (solutions % 2 ^ 30))
unfolding memsector_save
export_to_memsector-walk crc32 fuel root formula {f} {id} {solutions} {c} shaped exported small
      walked =
    let written = export_to_memsector-write_node crc32 fuel root memsector_create shaped in
    elim (Option-cases (write_node crc32 root memsector_create)) [
      | inl fails ↦ absurd (ground arith)
      | inr (r, stored) ↦
          let same : f ≡ memsector_save crc32 r.0 r.1 = ground arith in
          let contents : f.contents ≡ r.0.file = ap (λ z. z.contents) same in
          let root_off : f.header.root_off ≡ r.1 = ap (λ z. z.header.root_off) same in
          let below = subst (λ z. header_size + total_size z < 2 ^ 34) contents small in
          let node = node_written crc32 1 root memsector_create r.0 r.1 shaped refl below stored in
          let (off, reached, shown) = Represents-walk formula r.0.file r.1 root node.shows walked in
          let (formula_id, hits) = leaf_shown r.0.file off id solutions c shown in
          (
            memsector_off2addr off,
            ap (λ z. walk_file formula z (memsector_off2addr f.header.root_off)) contents
                ∙ ap (λ z. walk_file formula r.0.file (memsector_off2addr z)) root_off
                ∙ reached,
            ap (λ z. get_formula_id z (memsector_off2addr off)) contents ∙ formula_id,
            ap (λ z. get_hits_count z (memsector_off2addr off)) contents ∙ hits,
          )
    ]

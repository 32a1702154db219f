-- ===== src/Index/Export/Represents.antt =====
-- What it is for a file to hold a node of the index, as IndexAccessor reads it.
use mws.Prelude.{
  ℕ, ◌%◌, ◌^◌, ◌≡◌, ap, sym, ◌∙◌, subst, none, some, List, [], ◌∷◌, ◌++◌, append_assoc,
}
use mws.Types.VectorMap.{find_index}
use mws.Index.EncodedToken.{EncodedToken, token_comparator}
use mws.Index.TmpIndex.{TmpIndexNode, inner, leaf, Children, nil, cons, to_vector}
use mws.Index.Memsector.{Piece, memsector_off2addr}
use mws.Index.Memsector.Accessor
use mws.Index.Memsector.Accessor.{get_formula_id, get_hits_count, write_children_offsets}
use mws.Index.Memsector.Written.{child_address}

-- A file has a node at an offset, whatever is written behind it.
abbrev mutual
  pub Represents : List Piece → ℕ → TmpIndexNode → Type 0
  Represents file off (leaf id solutions (cons t n rest)) = ⊥
  Represents file off (leaf id solutions nil) =
      (later : List Piece)
      → (get_formula_id (file ++ later) (memsector_off2addr off) ≡ some id)
        × (get_hits_count (file ++ later) (memsector_off2addr off) ≡ some (solutions % 2 ^ 30))
  Represents file off (inner c) =
      (offsets : List ℕ) × ((later : List Piece) (token : EncodedToken)
        → Accessor.get_child (file ++ later) (memsector_off2addr off) token
          ≡ elim (find_index (to_vector c) token) [
            | none ↦ none
            | some i ↦ some (child_address offsets i)
          ])
      × AllRepresent file offsets c

  pub AllRepresent : List Piece → List ℕ → Children → Type 0
  AllRepresent file offsets nil = Unit
  AllRepresent file [] (cons t n rest) = ⊥
  AllRepresent file (off ∷ offsets) (cons t n rest) =
      Represents file off n × AllRepresent file offsets rest

mutual
  pub extend :
      (file x : List Piece) (off : ℕ) (n : TmpIndexNode)
      → Represents file off n
      → Represents (file ++ x) off n
  extend file x off (leaf id solutions (cons t n rest)) r = absurd r
  extend file x off (leaf id solutions nil) r = λ later.
      subst
        (λ z.
          (get_formula_id z (memsector_off2addr off) ≡ some id)
          × (get_hits_count z (memsector_off2addr off) ≡ some (solutions % 2 ^ 30)))
        (sym (append_assoc file x later)) (r (x ++ later))
  extend file x off (inner c) r = (
    r.0,
    λ later token.
        ap (λ z. Accessor.get_child z (memsector_off2addr off) token) (append_assoc file x later)
        ∙ r.1 (x ++ later) token,
    extend_all file x r.0 c r.2,
  )

  pub extend_all :
      (file x : List Piece) (offsets : List ℕ) (c : Children)
      → AllRepresent file offsets c
      → AllRepresent (file ++ x) offsets c
  extend_all file x offsets nil r = tt
  extend_all file x [] (cons t n rest) r = absurd r
  extend_all file x (off ∷ offsets) (cons t n rest) r =
      (extend file x off n r.0, extend_all file x offsets rest r.1)

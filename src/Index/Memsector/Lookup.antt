-- ===== src/Index/Memsector/Lookup.antt =====
-- The search in a node of a memory sector is the search in the vector of its entries.
use mws.Prelude.{
  ℕ, zero, suc, ◌+◌, ◌-◌, ◌%◌, ◌<◌, ◌≤◌, ◌≡◌, refl, ap, sym, ◌∙◌, Option, none, some, List, [], ◌∷◌,
  ◌++◌, arith, length, get_elem?, Bool-cases, Option-cases, inl, inr, ltb, ltb→lt, get_elem?-lt,
}
use mws.Prelude.Bits.{u32_mod, u64_mod}
use mws.Types.VectorMap.{VectorMap, find_index, find_loop, center}
use mws.Types.VectorMap.Find.{find_index_total}
use mws.Index.EncodedToken.{EncodedToken, token_comparator}
use mws.Index.Memsector.{Piece, entry}
use mws.Index.Memsector.Inode.{get_child_loop, inode_get_child, inode_data}

-- The entries of a node with short offsets.
abbrev pub pieces : VectorMap EncodedToken ℕ → List Piece
pieces [] = []
pieces ((token, off) ∷ rest) = entry token off ∷ pieces rest

inode_data-pieces :
    (v : VectorMap EncodedToken ℕ) (tail : List Piece) (i : ℕ) {e : EncodedToken × ℕ}
    → get_elem? v i ≡ some e
    → inode_data (pieces v ++ tail) i ≡ some e
unfolding inode_data
inode_data-pieces [] tail i h = cc
inode_data-pieces ((token, off) ∷ v) tail zero h = h
inode_data-pieces ((token, off) ∷ v) tail (suc i) h = inode_data-pieces v tail i h

-- What the vector's search comes to, read as an offset.
abbrev pub found : VectorMap EncodedToken ℕ → Option ℕ → Option ℕ
found v index = elim index [
  | none ↦ none
  | some i ↦ elim (get_elem? v i) [ none ↦ some 0 | some e ↦ some e.1 ]
]

get_elem?-length {ℓ} : {A : Type ℓ} (xs : List A) → get_elem? xs (length xs) ≡ none
get_elem?-length [] = refl
get_elem?-length (x ∷ xs) = get_elem?-length xs

get_child_loop-found :
    (fuel : ℕ) (v : VectorMap EncodedToken ℕ) (tail : List Piece) (token : EncodedToken)
    (left right_end : ℕ) {i : ℕ}
    → find_loop fuel v token left right_end ≡ some i
    → get_child_loop fuel (inode_data (pieces v ++ tail)) token left right_end ≡ found v (some i)
unfolding get_child_loop find_loop token_comparator
get_child_loop-found zero v tail token left right_end h = absurd (cc)
get_child_loop-found (suc fuel) v tail token left right_end {i} h =
    elim (Bool-cases (ltb left right_end)) [
      | inr done ↦ ground (arith, get_elem?-length v)
      | inl more ↦ elim (Option-cases (get_elem? v (center left right_end))) [
        | inl missing ↦ absurd (ground arith)
        | inr (e, there) ↦
            let there' = inode_data-pieces v tail (center left right_end) there in
            let low = get_child_loop-found fuel v tail token left (center left right_end) {i = i} in
            let high =
              get_child_loop-found fuel v tail token (center left right_end + 1) right_end
                {i = i} in
            ground (arith, there, there', low, high)
      ]
    ]

-- A search for a token in a node is the search in the vector of its entries; 0 is the null offset.
pub inode_get_child-find_index :
    (v : VectorMap EncodedToken ℕ) (tail : List Piece) (token : EncodedToken)
    → inode_get_child (length v) (pieces v ++ tail) token ≡ found v (find_index v token)
unfolding inode_get_child find_index
inode_get_child-find_index v tail token =
    let (i, searched, inside) = find_index_total v token in
    get_child_loop-found (suc (length v)) v tail token 0 (length v) searched
    ∙ ap (found v) (sym searched)

-- The entries that the offsets of the children come to in a node at an offset.
abbrev pub targets {ℓ} :
    {V : Type ℓ} → ℕ → VectorMap EncodedToken V → List ℕ → VectorMap EncodedToken ℕ
targets curr_off [] offsets = []
targets curr_off ((token, node) ∷ rest) [] = []
targets curr_off ((token, node) ∷ rest) (off ∷ offsets) =
    (token, (curr_off + (u64_mod - off)) % u64_mod % u32_mod) ∷ targets curr_off rest offsets

module _ {ℓ} {V : Type ℓ} where
  pub length-targets :
      (curr_off : ℕ) (children : VectorMap EncodedToken V) (offsets : List ℕ)
      → length children ≡ length offsets
      → length (targets curr_off children offsets) ≡ length children
  length-targets curr_off [] offsets same = refl
  length-targets curr_off ((token, node) ∷ rest) [] same = absurd (omega arith)
  length-targets curr_off ((token, node) ∷ rest) (off ∷ offsets) same =
      ap suc (length-targets curr_off rest offsets (omega arith))

  -- An entry of the node has the token of the child with its index, and the distance to it.
  pub get_elem?-targets :
      (curr_off : ℕ) (children : VectorMap EncodedToken V) (offsets : List ℕ) (i : ℕ)
      {e : EncodedToken × V}
      → length children ≡ length offsets
      → get_elem? children i ≡ some e
      → (off : ℕ) × (get_elem? offsets i ≡ some off)
        × (get_elem? (targets curr_off children offsets) i
            ≡ some (e.0, (curr_off + (u64_mod - off)) % u64_mod % u32_mod))
  get_elem?-targets curr_off [] offsets i same there = absurd (cc)
  get_elem?-targets curr_off ((token, node) ∷ rest) [] i same there = absurd (omega arith)
  get_elem?-targets curr_off ((token, node) ∷ rest) (off ∷ offsets) zero same there =
      (off, refl, cc)
  get_elem?-targets curr_off ((token, node) ∷ rest) (off ∷ offsets) (suc i) same there =
      get_elem?-targets curr_off rest offsets i (omega arith) there

  pub find_loop-targets :
      (fuel curr_off : ℕ) (children : VectorMap EncodedToken V) (offsets : List ℕ)
      (token : EncodedToken) (left right_end : ℕ)
      → length children ≡ length offsets
      → right_end ≤ length children
      → find_loop fuel (targets curr_off children offsets) token left right_end
        ≡ find_loop fuel children token left right_end
  unfolding find_loop token_comparator
  find_loop-targets zero curr_off children offsets token left right_end same inside = refl
  find_loop-targets (suc fuel) curr_off children offsets token left right_end same inside =
      elim (Bool-cases (ltb left right_end)) [
        | inr done ↦ rw done (ap some (length-targets curr_off children offsets same))
        | inl more ↦
            let less : left < right_end = ltb→lt left right_end more in
            let (e, there) = get_elem?-lt children (center left right_end) (omega arith) in
            let (off, at, there') =
              get_elem?-targets curr_off children offsets (center left right_end) same there in
            let low =
              find_loop-targets fuel curr_off children offsets token left (center left right_end)
                same (omega arith) in
            let high =
              find_loop-targets fuel curr_off children offsets token (center left right_end + 1)
                right_end same inside in
            ground (arith, there, there', low, high)
      ]

  -- The search in the node finds the index that the search in the children finds.
  pub inode_get_child-targets :
      (curr_off : ℕ) (children : VectorMap EncodedToken V) (offsets : List ℕ) (tail : List Piece)
      (token : EncodedToken)
      → length children ≡ length offsets
      → inode_get_child (length children) (pieces (targets curr_off children offsets) ++ tail) token
        ≡ found (targets curr_off children offsets) (find_index children token)
  unfolding find_index
  inode_get_child-targets curr_off children offsets tail token same =
      let v = targets curr_off children offsets in
      let size = length-targets curr_off children offsets same in
      ap (λ n. inode_get_child n (pieces v ++ tail) token) (sym size)
      ∙ inode_get_child-find_index v tail token
      ∙ ap (λ n. found v (find_loop (suc n) v token 0 n)) size
      ∙ ap (found v) (
          find_loop-targets (suc (length children)) curr_off children offsets token 0
            (length children) same (omega arith))

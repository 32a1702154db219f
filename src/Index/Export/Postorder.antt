-- ===== src/Index/Export/Postorder.antt =====
-- The export writes the nodes in postorder, each behind its children.
use mws.Prelude.{
  ℕ, zero, suc, ◌+◌, ◌%◌, ◌≡◌, refl, ap, sym, ◌∙◌, Option, none, some, List, [], ◌∷◌, ◌++◌, length,
  ltb, true, arith,
}
use mws.Prelude.Bits.{u64_mod}
use mws.Index.EncodedToken.{EncodedToken}
use mws.Index.TmpIndex.{TmpIndexNode, inner, leaf, Children, nil, cons, to_vector, children}
use mws.Index.Iterator.{ContainerIterator}
use mws.Index.Iterator.Callback.{iterate}
use mws.Index.Iterator.Traversal.{
  IsShaped, AllShaped, moves, visit, visit_all, iterate-visit, andthen, andthen_assoc, andthen_ext,
}
use mws.Index.Memsector.{Piece, MemsectorWriter, MemsectorFile, memsector_save}
use mws.Index.Memsector.Inode.{memsector_inode_size, memsector_write_leaf}
use mws.Index.Memsector.Accessor.{write_children_offsets}
use mws.Index.Export.{
  node_size, size_callbacks, compute_memsector_size, ExportState, export_push, export_pop,
  put_offset, export_callbacks, finish_export, export_to_memsector,
}

-- The sizes of the nodes below a node, without its own.
unfoldable mutual
  pub size_below : TmpIndexNode → ℕ
  size_below (inner c) = size_all c
  size_below (leaf id solutions c) = size_all c

  pub size_all : Children → ℕ
  size_all nil = 0
  size_all (cons t n rest) = size_below n + node_size n + size_all rest

add_size : (size more : ℕ) → (size % u64_mod + more) % u64_mod ≡ (size + more) % u64_mod
add_size size more = omega arith

mutual
  unfolding visit size_below

  visit-size :
      (n : TmpIndexNode) (size : ℕ)
      → visit size_callbacks n (size % u64_mod) ≡ some ((size + size_below n) % u64_mod)
  visit-size (inner c) size = visit_all-size c size
  visit-size (leaf id solutions c) size = visit_all-size c size

  visit_all-size :
      (c : Children) (size : ℕ)
      → visit_all size_callbacks c (size % u64_mod) ≡ some ((size + size_all c) % u64_mod)
  visit_all-size nil size = ap some (omega arith)
  visit_all-size (cons t n rest) size = rw (visit-size n size) (
      ap (visit_all size_callbacks rest) (add_size (size + size_below n) (node_size n))
      ∙ visit_all-size rest (size + size_below n + node_size n)
      ∙ ap some (omega arith))

-- For a root of the shape that complete formulas build, and a fuel of at least the number of its
-- leaves, computeMemsectorSize returns, modulo 2^64, the sum of the sizes of all nodes below the
-- root and of a node with the root's children.
pub compute_memsector_size-size_below :
    (fuel : ℕ) (root : TmpIndexNode)
    → IsShaped 1 root
    → compute_memsector_size (moves root + suc fuel) root
      ≡ some ((size_below root + memsector_inode_size (length (children root))) % u64_mod)
unfolding compute_memsector_size
compute_memsector_size-size_below fuel root shaped =
    let run : iterate size_callbacks (moves root + suc fuel) root 0
        ≡ some ((0 + size_below root) % u64_mod) =
      iterate-visit size_callbacks fuel root 0 shaped ∙ visit-size root 0 in
    rw (run, compute_memsector_size) (ap some (omega arith))

module _ (crc32 : ℕ → List Piece → ℕ) where
  -- A node behind its children, and the offset of it; the children with the offsets before them.
  unfoldable mutual
    pub write_node : TmpIndexNode → MemsectorWriter → Option (MemsectorWriter × ℕ)
    write_node (leaf id solutions c) w = memsector_write_leaf crc32 w solutions id
    write_node (inner c) w =
        andthen (write_list c w []) (λ r. write_children_offsets crc32 r.0 (to_vector c) r.1)

    pub write_list : Children → MemsectorWriter → List ℕ → Option (MemsectorWriter × List ℕ)
    write_list nil w offsets = some (w, offsets)
    write_list (cons t n rest) w offsets =
        andthen (write_node n w) (λ r. write_list rest r.0 (offsets ++ r.1 ∷ []))

  abbrev pub at_stack : List (List ℕ) → MemsectorWriter × List ℕ → Option ExportState
  at_stack stack r = some (record { writer = r.0; dfs_stack = r.1 ∷ stack })

  -- One child: the push, what is below it, and the pop.
  abbrev one_child : ContainerIterator → TmpIndexNode → ExportState → Option ExportState
  one_child c n s =
      andthen (export_push c s)
        (λ s1. andthen (visit (export_callbacks crc32) n s1) (export_pop crc32 c))

  push_inner :
      (t u : EncodedToken) (m : TmpIndexNode) (r : Children) (v : ContainerIterator)
      (s : ExportState)
      → export_push ((t, inner (cons u m r)) ∷ v) s
        ≡ some (record s { dfs_stack = [] ∷ s.dfs_stack })
  unfolding export_push
  push_inner t u m r v s = ground arith

  pop_inner :
      (t u : EncodedToken) (m : TmpIndexNode) (r : Children) (v : ContainerIterator)
      (w : MemsectorWriter) (top : List ℕ) (stack : List (List ℕ))
      → export_pop crc32
          ((t, inner (cons u m r)) ∷ v)
          (record { writer = w; dfs_stack = top ∷ stack })
        ≡ put_offset (write_children_offsets crc32 w (to_vector (cons u m r)) top) stack
  unfolding export_pop
  pop_inner t u m r v w top stack =
      let some_child : ltb 0 (length (to_vector (cons u m r))) ≡ true = ground arith in
      rw (some_child, export_pop) refl

  mutual
    unfolding visit write_node export_push export_pop

    child-write :
        (k : ℕ) (t : EncodedToken) (n : TmpIndexNode) (rest : Children) (w : MemsectorWriter)
        (offsets : List ℕ) (stack : List (List ℕ))
        → IsShaped k n
        → one_child
            (to_vector (cons t n rest))
            n
            (record { writer = w; dfs_stack = offsets ∷ stack })
          ≡ put_offset (write_node n w) (offsets ∷ stack)
    child-write zero t (leaf id solutions nil) rest w offsets stack shaped = refl
    child-write zero t (leaf id solutions (cons u m r)) rest w offsets stack shaped = absurd shaped
    child-write zero t (inner c) rest w offsets stack shaped = absurd shaped
    child-write (suc k) t (leaf id solutions c) rest w offsets stack shaped = absurd shaped
    child-write (suc k) t (inner nil) rest w offsets stack shaped = absurd shaped
    child-write (suc k) t (inner (cons u m r)) rest w offsets stack shaped =
        let c = to_vector (cons t (inner (cons u m r)) rest) in
        let s : ExportState = record { writer = w; dfs_stack = offsets ∷ stack } in
        let pop = export_pop crc32 c in
        ap
          (λ z.
            andthen z (λ s1. andthen (visit (export_callbacks crc32) (inner (cons u m r)) s1) pop))
          (push_inner t u m r (to_vector rest) s)
        ∙ ap (λ z. andthen z pop) (list-write k (cons u m r) w [] (offsets ∷ stack) shaped)
        ∙ andthen_assoc (write_list (cons u m r) w []) (at_stack (offsets ∷ stack)) pop
        ∙ andthen_ext (write_list (cons u m r) w []) _ _
            (λ q. pop_inner t u m r (to_vector rest) q.0 q.1 (offsets ∷ stack))
        ∙ sym (
            andthen_assoc (write_list (cons u m r) w [])
              (λ q. write_children_offsets crc32 q.0 (to_vector (cons u m r)) q.1)
              (λ q. put_offset (some q) (offsets ∷ stack)))

    list-write :
        (k : ℕ) (c : Children) (w : MemsectorWriter) (offsets : List ℕ) (stack : List (List ℕ))
        → AllShaped k c
        → visit_all (export_callbacks crc32) c (record { writer = w; dfs_stack = offsets ∷ stack })
          ≡ andthen (write_list c w offsets) (at_stack stack)
    list-write k nil w offsets stack shaped = refl
    list-write k (cons t n rest) w offsets stack shaped =
        let c = to_vector (cons t n rest) in
        let s : ExportState = record { writer = w; dfs_stack = offsets ∷ stack } in
        let below = visit_all (export_callbacks crc32) rest in
        sym (
          andthen_assoc (export_push c s)
            (λ s1. andthen (visit (export_callbacks crc32) n s1) (export_pop crc32 c)) below
          ∙ andthen_ext (export_push c s) _ _ (λ s1.
            andthen_assoc (visit (export_callbacks crc32) n s1) (export_pop crc32 c) below))
        ∙ ap (λ z. andthen z below) (child-write (k + t.arity) t n rest w offsets stack shaped.0)
        ∙ andthen_assoc (write_node n w) (λ q. put_offset (some q) (offsets ∷ stack)) below
        ∙ andthen_ext (write_node n w) _ _
            (λ q. list-write k rest q.0 (offsets ++ q.1 ∷ []) stack shaped.1)
        ∙ sym (
            andthen_assoc (write_node n w) (λ q. write_list rest q.0 (offsets ++ q.1 ∷ []))
              (at_stack stack))

  -- For an index whose root has the shape that complete formulas build, and a fuel of at least
  -- the number of its leaves, exportToMemsector does what writing the nodes in postorder does:
  -- each node is written behind its children, with their offsets in order, the root last, and
  -- the sector is saved with the root's offset; it fails exactly if that writing fails.
  pub export_to_memsector-write_node :
      (fuel : ℕ) (root : TmpIndexNode) (w : MemsectorWriter)
      → IsShaped 1 root
      → export_to_memsector crc32 (moves root + suc fuel) root w
        ≡ elim (write_node root w) [ none ↦ none | some r ↦ some (memsector_save crc32 r.0 r.1) ]
  unfolding export_to_memsector finish_export write_node visit
  export_to_memsector-write_node fuel (leaf id solutions c) w shaped = absurd shaped
  export_to_memsector-write_node fuel (inner nil) w shaped = absurd shaped
  export_to_memsector-write_node fuel (inner (cons t n rest)) w shaped =
      let root = inner (cons t n rest) in
      let listed = write_list (cons t n rest) w [] in
      let save : MemsectorWriter × ℕ → Option MemsectorFile =
        λ r. some (memsector_save crc32 r.0 r.1) in
      ap (λ z. andthen z (finish_export crc32 root))
        (iterate-visit (export_callbacks crc32) fuel root
            (record { writer = w; dfs_stack = [] ∷ [] }) shaped
          ∙ list-write 0 (cons t n rest) w [] [] shaped)
      ∙ andthen_assoc listed (at_stack []) (finish_export crc32 root)
      ∙ sym (
          andthen_assoc listed
            (λ r. write_children_offsets crc32 r.0 (to_vector (cons t n rest)) r.1) save)

-- ===== src/Index/Export.antt =====
-- src/mws/index/TmpIndex.cpp: the export of the index to a memory sector, and the size it will
-- have, as callbacks of the iterator over the index. A function is `none` where an assertion fails,
-- a stack is empty, or a node without children that is no leaf is read as one.
pub mod Postorder
pub mod Growth
pub mod Represents
pub mod Refinement
pub mod Walk
pub mod Size
use mws.Prelude.{ℕ, ◌+◌, ◌%◌, Option, none, some, List, [], ◌∷◌, ◌++◌, length, ltb, if◌then◌else◌}
use mws.Prelude.Bits.{u64_mod}
use mws.Index.TmpIndex.{TmpIndexNode, inner, leaf, children}
use mws.Index.Iterator.{ContainerIterator, get_node}
use mws.Index.Iterator.Callback.{Callbacks, iterate}
use mws.Index.Memsector.{Piece, MemsectorWriter, MemsectorFile, memsector_save}
use mws.Index.Memsector.Inode.{memsector_inode_size, memsector_leaf_size, memsector_write_leaf}
use mws.Index.Memsector.Accessor.{write_children_offsets}

-- What a node adds to the size.
unfoldable pub node_size : TmpIndexNode → ℕ
node_size n =
    if ltb 0 (length (children n))
    then memsector_inode_size (length (children n))
    else memsector_leaf_size

abbrev pub size_callbacks : Callbacks ℕ
size_callbacks = record {
  on_push = λ iterator size. some size;
  on_pop = λ iterator size. elim (get_node iterator) [
    | none ↦ none
    | some n ↦ some ((size + node_size n) % u64_mod)
  ];
}

-- `computeMemsectorSize`, on fuel for the loop.
unfoldable pub compute_memsector_size : ℕ → TmpIndexNode → Option ℕ
compute_memsector_size fuel root = elim (iterate size_callbacks fuel root 0) [
  | none ↦ none
  | some size ↦ some ((size + memsector_inode_size (length (children root))) % u64_mod)
]

-- The writer and `dfsStack`, its top in front.
pub record ExportState : Type 0 where
  pub writer : MemsectorWriter
  pub dfs_stack : List (List ℕ)

-- `dfsStack.top().push_back(offset)`
abbrev pub push_back : List (List ℕ) → ℕ → Option (List (List ℕ))
push_back [] offset = none
push_back (top ∷ stack) offset = some ((top ++ offset ∷ []) ∷ stack)

unfoldable pub export_push : ContainerIterator → ExportState → Option ExportState
export_push iterator s = elim (get_node iterator) [
  | none ↦ none
  | some n ↦
      some (if ltb 0 (length (children n)) then record s { dfs_stack = [] ∷ s.dfs_stack } else s)
]

-- An offset that was written, on top of the stack below.
abbrev pub put_offset : Option (MemsectorWriter × ℕ) → List (List ℕ) → Option ExportState
put_offset written stack = elim written [
  | none ↦ none
  | some r ↦ elim (push_back stack r.1) [
    | none ↦ none
    | some stack' ↦ some (record { writer = r.0; dfs_stack = stack' })
  ]
]

module _ (crc32 : ℕ → List Piece → ℕ) where
  abbrev pub write_as_leaf : TmpIndexNode → MemsectorWriter → Option (MemsectorWriter × ℕ)
  write_as_leaf (inner c) w = none
  write_as_leaf (leaf id solutions c) w = memsector_write_leaf crc32 w solutions id

  unfoldable pub export_pop : ContainerIterator → ExportState → Option ExportState
  export_pop iterator s = elim (get_node iterator) [
    | none ↦ none
    | some n ↦
        if ltb 0 (length (children n))
        then elim s.dfs_stack [
          | [] ↦ none
          | top ∷ stack ↦ put_offset (write_children_offsets crc32 s.writer (children n) top) stack
        ]
        else put_offset (write_as_leaf n s.writer) s.dfs_stack
  ]

  abbrev pub export_callbacks : Callbacks ExportState
  export_callbacks = record { on_push = export_push; on_pop = export_pop }

  -- The root is written behind the loop, and the sector saved.
  unfoldable pub finish_export : TmpIndexNode → ExportState → Option MemsectorFile
  finish_export root s = elim s.dfs_stack [
    | [] ↦ none
    | top ∷ [] ↦ elim (write_children_offsets crc32 s.writer (children root) top) [
      | none ↦ none
      | some r ↦ some (memsector_save crc32 r.0 r.1)
    ]
    | top ∷ next ∷ stack ↦ none
  ]

  -- `exportToMemsector`, on fuel for the loop.
  unfoldable pub export_to_memsector : ℕ → TmpIndexNode → MemsectorWriter → Option MemsectorFile
  unfolding export_push export_pop finish_export
  export_to_memsector fuel root w =
      elim (iterate export_callbacks fuel root (record { writer = w; dfs_stack = [] ∷ [] })) [
        | none ↦ none
        | some s ↦ finish_export root s
      ]

-- ===== src/Tests/Engine.antt =====
-- The query engine on the exported index of two formulas, with a callback that keeps formula ids.
use mws.Prelude.{
  ℕ, suc, ◌+◌, ◌≡◌, refl, none, some, true, false, [], ◌∷◌, List, length, arith, replicate,
}
use mws.Prelude.Bytes.{memcmp}
use mws.Index.EncodedToken.{token_comparator, token_bytes, encoded_token_is_var, var_id_max}
use mws.Index.Iterator.Callback.{iterate, complete, advance, drain}
use mws.Index.Memsector.{
  memsector_write, memsector_save, memsector_off2addr, memsector_get_current_offset, read_at,
}
use mws.Index.Memsector.Inode.{
  memsector_write_inode_begin, memsector_write_inode_encoded_token_entry, memsector_write_inode_end,
  memsector_write_leaf, get_child_loop, inode_get_child, inode_long_get_child, inode_data,
  inode_long_data,
}
use mws.Index.Memsector.Accessor.{write_entries, write_children_offsets, child_off, get_child}
use mws.Index.Export.{export_to_memsector, finish_export, export_push, export_pop}
use mws.Query.Engine.{
  QueryCtxt, ResultCbReturn, query_continue, process_token, inode_get_max_var, max_var_loop,
  read_leaf, token_stack_push,
}
use mws.Query.Engine.Process.{process_query_token, process_regular, revert_child, hvar_loop}
use mws.Query.Engine.Match.{call, query_engine_run}
use mws.Query.Engine.Undo.{SamePlace}
use mws.Query.Engine.Backtracking.{call-SamePlace}
use mws.Query.Engine.Constants.{has_no_vars, visible, report, query_engine_run-report}
use mws.Tests.Exporting.{exported, formula}

abbrev keep_id : List ℕ → ℕ → ℕ → List ℕ × ResultCbReturn
keep_id ids num_hits formula_id = (formula_id ∷ ids, query_continue)

abbrev root : ℕ
root = memsector_off2addr exported.header.root_off

no_vars : has_no_vars formula exported.contents root ≡ true
unfolding has_no_vars inode_get_max_var max_var_loop get_child child_off read_at inode_get_child
    inode_long_get_child get_child_loop inode_data inode_long_data memcmp token_bytes
    export_to_memsector finish_export export_push export_pop iterate complete advance drain
    write_children_offsets write_entries memsector_write_inode_begin
    memsector_write_inode_encoded_token_entry memsector_write_inode_end memsector_write_leaf
    memsector_write memsector_get_current_offset memsector_save
no_vars = refl

query_engine_run-report_example :
    visible (query_engine_run exported.contents keep_id (length formula + suc 0) root formula [])
    ≡ report exported.contents keep_id formula root []
unfolding encoded_token_is_var
query_engine_run-report_example =
    query_engine_run-report exported.contents keep_id formula 0 root [] (omega arith)
      (refl, (refl, (refl, tt))) no_vars

abbrev begun : QueryCtxt (List ℕ)
begun = record {
  query_stack = formula;
  curr_index_inode = root;
  index_stack = [];
  vars = replicate var_id_max (record { solved = false; tokens = none });
  solving_var_id = 0;
  handle = [];
}

abbrev ended : QueryCtxt (List ℕ)
ended = record begun { handle = 2 ∷ [] }

engine_continues :
    call exported.contents keep_id 4 process_token begun ≡ some (ended, query_continue)
unfolding call process_query_token process_regular revert_child hvar_loop read_leaf token_stack_push
    inode_get_max_var max_var_loop child_off read_at inode_get_child encoded_token_is_var
    inode_long_get_child get_child_loop inode_data inode_long_data memcmp token_bytes
    export_to_memsector finish_export export_push export_pop iterate complete advance drain
    write_children_offsets write_entries memsector_write_inode_begin
    memsector_write_inode_encoded_token_entry memsector_write_inode_end memsector_write_leaf
    memsector_write memsector_get_current_offset memsector_save
engine_continues = refl

call-SamePlace_example : SamePlace begun ended
call-SamePlace_example =
    call-SamePlace exported.contents keep_id 4 process_token begun ended engine_continues

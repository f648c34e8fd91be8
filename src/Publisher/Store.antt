-- ===== src/Publisher/Store.antt =====
-- `StateStore` of tools/md-publisher/src/state.ts, over the calls of the file system.
use utm_curs_i_orar.Prelude.{Option, none, some}
use utm_curs_i_orar.Text.{Text}
use utm_curs_i_orar.Worker.Types.{Json}
use utm_curs_i_orar.Worker.Platform.{Platform}
use utm_curs_i_orar.Publisher.Calls.{
  Act, done, call, ◌>>=◌, read_file, writing, removing, last_run_file, operation_file, page_file,
  run_dir, cache_dir,
}
use utm_curs_i_orar.Publisher.Types.{LastRunState, OperationState}
use utm_curs_i_orar.Publisher.Records.{
  last_run_json, last_run_text, operation_json, operation_text, resumable,
}

abbrev pub clear_last_run : Act (Unit {0})
clear_last_run = removing last_run_file

abbrev pub discard_run : Act (Unit {0})
discard_run = removing run_dir

abbrev pub clear_cache : Act (Unit {0})
clear_cache = removing cache_dir

module _ (p : Platform) where
  unfoldable pub read_last_run : Act (Option LastRunState)
  unfolding ◌>>=◌ last_run_text
  read_last_run = do t ← call (read_file last_run_file); done (last_run_text p t)

  unfoldable pub read_page_of : Option OperationState → Act (Option (OperationState × Text))
  unfolding ◌>>=◌ resumable
  read_page_of none = done none
  read_page_of (some s) = do bytes ← call (read_file page_file); done (resumable p s bytes)

  unfoldable pub read_resumable_operation : Act (Option (OperationState × Text))
  unfolding ◌>>=◌ operation_text read_page_of
  read_resumable_operation = do
    t ← call (read_file operation_file)
    read_page_of (operation_text p t)

module _ (stringify : Json → Text) where
  unfoldable pub write_last_run : LastRunState → Act (Unit {0})
  unfolding last_run_json
  write_last_run s = writing last_run_file (stringify (last_run_json s))

  unfoldable pub update_operation : OperationState → Act (Unit {0})
  unfolding operation_json
  update_operation s = writing operation_file (stringify (operation_json s))

  unfoldable pub start_operation : OperationState → Text → Act (Unit {0})
  unfolding ◌>>=◌ update_operation
  start_operation s bytes = do u ← discard_run; v ← writing page_file bytes; update_operation s

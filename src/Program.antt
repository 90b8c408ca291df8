-- ===== src/Program.antt =====
-- cmd/ingest/main.go: from the configuration to the exit code.
use ingest.Prelude.{GoString, List, Option, [], nat_key, none, some, text_key, ℕ, ◌⊎◌}
use ingest.GoText.{GoText}
use ingest.Config.{Config}
use ingest.Config.File.{Loaded, Stat, invalid, load, loaded, unreadable, unresolved}
use ingest.App.{Event, Outside}
use ingest.App.Infra.{Ended, no_grpc_server, run_app, start_failed, stopped}

-- what `run` returns: nil is `none` of it, and `Load`'s error is what it loaded instead
pub data RunError : Type 0 where
  load_failed : Loaded → RunError
  app_failed : RunError
  server_failed : Option GoString → RunError

unfoldable pub run_error : Ended → Option RunError
run_error start_failed = some app_failed
run_error no_grpc_server = some (server_failed none)
run_error (stopped none) = none
run_error (stopped (some e)) = some (server_failed (some e))

-- `stat`, `read` and `getwd` as for `Load`; `none` is fuel of `Load` that ran out
module _ (o : Outside) (text : GoText) (stat : GoString → Stat)
    (read : GoString → Config ⊎ GoString) (getwd : Option GoString) where
  unfoldable pub run_loaded : Loaded → List Event × Option RunError
  unfolding run_error
  run_loaded (loaded cfg) = let (trace, ended) = run_app o text cfg in (trace, run_error ended)
  run_loaded (unresolved r) = ([], some (load_failed (unresolved r)))
  run_loaded (unreadable e) = ([], some (load_failed (unreadable e)))
  run_loaded (invalid e) = ([], some (load_failed (invalid e)))

  -- `run`
  unfoldable pub run : Option (List Event × Option RunError)
  unfolding run_loaded
  run = elim (load stat read getwd none) [ none ↦ none | some l ↦ some (run_loaded l) ]

  -- `main`: the trace, and the exit code
  unfoldable pub main : Option (List Event × ℕ)
  unfolding run
  main = elim run [
    | none ↦ none
    | some (trace, none) ↦ some (trace, 0)
    | some (trace, some e) ↦ some (trace, 1)
  ]

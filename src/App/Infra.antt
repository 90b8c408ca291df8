-- ===== src/App/Infra.antt =====
-- `newInfra` and `Infra.Close` (internal/app/infra.go), the opening of the databases
-- (internal/infra/database), and `New` and `Start` (internal/app/app.go).
use ingest.Prelude.{
  Bool, GoString, List, Option, [], false, if◌then◌else◌, map, nat_key, none, not, some, text_key,
  true, ℕ, ◌++◌, ◌/◌, ◌∷◌,
}
use ingest.Prelude.Int.{ℤ}
use ingest.GoText.{GoText}
use ingest.Config.{Config, or_default}
use ingest.App.{
  Event, GroupError, Outside, canceled, click_house_handle, closed, consumer_handle, mysql_handle,
  opened, other_error, producer_handle, server_closed,
}
use ingest.App.Ingest.{
  Built, IngestBundle, build_ingest, built, consumer_failed, each, ensure_failed, producer_failed,
}

-- `Open`: a connection that does not answer a ping is closed again
unfoldable pub open_db : Outside → List Event → List Event × Bool
open_db o trace = elim o.mysql_connector [
  | some e ↦ (trace, false)
  | none ↦ elim o.mysql_ping [
    | some e ↦ (trace ++ (opened mysql_handle ∷ closed mysql_handle ∷ []), false)
    | none ↦ (trace ++ opened mysql_handle ∷ [], true)
  ]
]

-- `openMySQL`
unfoldable pub open_mysql : Outside → List Event → List Event × Bool
unfolding open_db
open_mysql o trace = elim o.driver_config [ some e ↦ (trace, false) | none ↦ open_db o trace ]

-- `OpenClickHouseConn`
unfoldable pub open_click_house_conn : Outside → List Event → List Event × Bool
open_click_house_conn o trace = elim o.click_house_open [
  | some e ↦ (trace, false)
  | none ↦ elim o.click_house_ping [
    | some e ↦ (trace ++ (opened click_house_handle ∷ closed click_house_handle ∷ []), false)
    | none ↦ (trace ++ opened click_house_handle ∷ [], true)
  ]
]

-- `openClickHouse`
unfoldable pub open_click_house : Outside → List Event → List Event × Bool
unfolding open_click_house_conn
open_click_house o trace = open_click_house_conn o trace

-- the connections that `Open` allows: `maxOpen` and `maxIdle`, with their defaults
unfoldable pub pool_limits : ℤ → ℤ → ℕ × ℕ
unfolding or_default
pool_limits max_open max_idle =
    let open_conns = or_default max_open 50 in (open_conns, or_default max_idle (open_conns / 2))

-- the end of `newInfra`: on an error of `buildIngest` the deferred closes run, in the reverse order
unfoldable pub finish_infra : List Event × Built → List Event × Option IngestBundle
finish_infra (t, built bundle) = (t, some bundle)
finish_infra (t, ensure_failed) =
    (t ++ (closed click_house_handle ∷ closed mysql_handle ∷ []), none)
finish_infra (t, producer_failed e) =
    (t ++ (closed click_house_handle ∷ closed mysql_handle ∷ []), none)
finish_infra (t, consumer_failed s e) =
    (t ++ (closed click_house_handle ∷ closed mysql_handle ∷ []), none)

-- `newInfra`
unfoldable pub new_infra : Outside → GoText → Config → List Event × Option IngestBundle
new_infra o text c =
    let (t1, db) = open_mysql o [] in
    if not db
    then (t1, none)
    else (let (t2, ch) = open_click_house o t1 in
        if not ch
        then (t2 ++ closed mysql_handle ∷ [], none)
        else finish_infra (build_ingest o text c t2))

-- `Infra.Close`
unfoldable pub close_infra : IngestBundle → List Event
close_infra b = each closed (
    map consumer_handle b.consumer_topics
    ++ (b.closers ++ producer_handle ∷ click_house_handle ∷ mysql_handle ∷ []))

pub data Ended : Type 0 where
  start_failed : Ended
  no_grpc_server : Ended
  -- the servers ran until the group of actors ended, with the error that is left
  stopped : Option GoString → Ended

-- `normalizeRunError`
unfoldable pub normalize_run_error : Option GroupError → Option GoString
normalize_run_error none = none
normalize_run_error (some canceled) = none
normalize_run_error (some server_closed) = none
normalize_run_error (some (other_error e)) = some e

-- `addGRPCServerActor`, up to the actor: there must be a port, and it must be possible to listen
unfoldable pub add_grpc_server : Outside → GoString → Bool
add_grpc_server o [] = false
add_grpc_server o (d ∷ port) = elim (o.grpc_listen (58 ∷ d ∷ port)) [ some e ↦ false | none ↦ true ]

-- `Start` on what `newInfra` gives: the group runs until an actor returns, and `Close` follows
unfoldable pub serve : Outside → Config → List Event × Option IngestBundle → List Event × Ended
unfolding normalize_run_error
serve o c (trace, none) = (trace, start_failed)
serve o c (trace, some b) =
    if add_grpc_server o c.otlp.grpc_port
    then (trace ++ close_infra b, stopped (normalize_run_error o.group))
    else (trace, no_grpc_server)

-- `New` and `Start`
unfoldable pub run_app : Outside → GoText → Config → List Event × Ended
run_app o text c = serve o c (new_infra o text c)

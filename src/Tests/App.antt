-- ===== src/Tests/App.antt =====
-- internal/app on concrete inputs.
use ingest.Prelude.{
  [], if◌then◌else◌, inl, inr, lit, nat_key, refl, some, text_beq, text_key, ◌==◌, ◌≡◌,
}
use ingest.App.{Outside, handle_beq, mysql_handle, publisher_handle}
use ingest.App.Ingest.{
  add_signal, build_ingest, build_signals, client_config, close_on_err, wire_signal,
}
use ingest.App.Infra.{
  add_grpc_server, finish_infra, new_infra, no_grpc_server, open_click_house, open_click_house_conn,
  open_db, open_mysql, run_app, serve, start_failed,
}
use ingest.App.Counts.{closes, opens}
use ingest.App.Lifecycle.{Balanced, run_app-Balanced}
use ingest.App.Used.{Covered, build_ingest-Covered}
use ingest.GoStrings.{split_byte, trim_space}
use ingest.Tests.Samples.{all_well, sample_config, text}
use ingest.Config.{kafka_brokers, named_brokers}
use ingest.Kafka.Topics.{ingest_topic}
use ingest.Kafka.Client.{new_consumer_client, new_producer_client}
use ingest.App.Topics.{ingest_topic_specs, wirings_of}

-- No client can consume the logs, which are wired after the spans.
abbrev no_logs : Outside
no_logs = record all_well {
  consumer_client = λ options. if options.consumer_group == lit "logs" then inr [] else inl tt;
}

-- The gRPC port is taken.
abbrev port_taken : Outside
port_taken = record all_well { grpc_listen = λ addr. some [] }

run_app-Balanced_example : Balanced mysql_handle (run_app all_well text sample_config)
run_app-Balanced_example = run_app-Balanced mysql_handle all_well text sample_config

build_ingest-Covered_example : Covered all_well [] (build_ingest all_well text sample_config [])
build_ingest-Covered_example = build_ingest-Covered all_well text sample_config []

-- The publisher of scores is left open when the consumer of the logs cannot be made.
publisher_left :
    let (trace, ended) = run_app no_logs text sample_config in
    (ended ≡ start_failed)
    × (opens publisher_handle trace ≡ 1)
    × (closes publisher_handle trace ≡ 0)
unfolding run_app new_infra open_mysql open_db open_click_house open_click_house_conn build_ingest
    new_producer_client new_consumer_client build_signals add_signal wire_signal close_on_err
    finish_infra serve add_grpc_server client_config kafka_brokers named_brokers split_byte
    trim_space wirings_of lit text_beq ingest_topic_specs ingest_topic handle_beq
publisher_left = (refl, refl, refl)

-- The databases are left open when the port is taken.
databases_left :
    let (trace, ended) = run_app port_taken text sample_config in
    (ended ≡ no_grpc_server) × (opens mysql_handle trace ≡ 1) × (closes mysql_handle trace ≡ 0)
unfolding run_app new_infra open_mysql open_db open_click_house open_click_house_conn build_ingest
    new_producer_client new_consumer_client build_signals add_signal wire_signal close_on_err
    finish_infra serve add_grpc_server client_config kafka_brokers named_brokers split_byte
    trim_space wirings_of lit text_beq ingest_topic_specs ingest_topic handle_beq
databases_left = (refl, refl, refl)

-- ===== src/Tests/Config.antt =====
-- internal/config on concrete inputs.
use ingest.Prelude.{
  GoString, [], false, if◌then◌else◌, inl, lit, nat_key, refl, some, text_beq, text_key, ◌==◌, ◌∷◌,
  ◌≡◌, ◌⊎◌,
}
use ingest.Prelude.Int.{pos, wrap_int, ◌*ℤ◌}
use ingest.GoStrings.{cut_any, split_byte, trim_space}
use ingest.GoStrings.Split.{join_byte}
use ingest.Config.{Config, kafka_brokers, seconds}
use ingest.Config.Brokers.{AreBrokers, kafka_brokers-join_byte, with_broker_list}
use ingest.Config.Path.{clean_element, dir_of, is_abs, join_path}
use ingest.Config.File.{Resolved, Stat, not_exist, regular, resolve_config_file_path, resolved}
use ingest.Config.File.Found.{Search, resolve_config_file_path-Search}
use ingest.Tests.Samples.{sample_config}

two_brokers-AreBrokers : AreBrokers (lit "a:9092" ∷ lit "b:9092" ∷ [])
unfolding lit cut_any
two_brokers-AreBrokers = (((λ e. cc), refl, (refl, refl)), (((λ e. cc), refl, (refl, refl)), tt))

kafka_brokers-join_byte_example :
    kafka_brokers (with_broker_list sample_config (join_byte 44 (lit "a:9092" ∷ lit "b:9092" ∷ [])))
    ≡ lit "a:9092" ∷ lit "b:9092" ∷ []
kafka_brokers-join_byte_example =
    kafka_brokers-join_byte sample_config (lit "a:9092" ∷ lit "b:9092" ∷ []) two_brokers-AreBrokers

blank_parts :
    kafka_brokers (with_broker_list sample_config (lit " a:9092,, b:9092 , "))
    ≡ lit "a:9092" ∷ lit "b:9092" ∷ []
unfolding kafka_brokers split_byte trim_space lit
blank_parts = refl

-- A file system with one file, in a directory above the working directory.
abbrev stat : GoString → Stat
stat path = if path == lit "/etc/config.yml" then regular else not_exist

parent_directory : dir_of (lit "/etc/optikk") ≡ lit "/etc"
unfolding dir_of lit text_beq clean_element
parent_directory = refl

cleaned : join_path (lit "/etc/optikk") (lit "../x//./config.yml") ≡ lit "/etc/x/config.yml"
unfolding join_path lit text_beq clean_element
cleaned = refl

file_above :
    resolve_config_file_path stat (some (lit "/etc/optikk")) (lit "config.yml")
    ≡ some (resolved (lit "/etc/config.yml"))
unfolding resolve_config_file_path dir_of join_path lit text_beq clean_element
file_above = refl

relative : is_abs (lit "config.yml") ≡ false
unfolding is_abs lit
relative = refl

resolve_config_file_path-Search_example :
    (r : Resolved) × (resolve_config_file_path stat
        (some (47 ∷ lit "etc/optikk"))
        (lit "config.yml")
      ≡ some r)
    × Search stat (lit "config.yml") (47 ∷ lit "etc/optikk") r
resolve_config_file_path-Search_example =
    resolve_config_file_path-Search stat (lit "config.yml") (lit "etc/optikk") relative

abbrev read : GoString → Config ⊎ GoString
read path = inl sample_config

-- Seconds are kept in nanoseconds.
ten_seconds : seconds (pos 10) ≡ pos 10000000000
unfolding seconds wrap_int ◌*ℤ◌
ten_seconds = refl

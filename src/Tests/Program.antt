-- ===== src/Tests/Program.antt =====
-- internal/config/config.go: loading a configuration, on concrete inputs.
use ingest.Prelude.{
  GoString, if◌then◌else◌, inl, lit, nat_key, none, some, text_key, ◌==◌, ◌∷◌, ◌≡◌, ◌⊎◌,
}
use ingest.Config.{Config}
use ingest.Config.File.{Loaded, Stat, load, not_exist, regular}
use ingest.Config.File.Outcome.{Outcome, load-Outcome}
use ingest.Tests.Samples.{sample_config}

-- The file stands in the working directory.
abbrev stat : GoString → Stat
stat path = if path == lit "/srv/config.yml" then regular else not_exist

abbrev read : GoString → Config ⊎ GoString
read path = inl sample_config

load-Outcome_example :
    (result : Loaded) × (load stat read (some (47 ∷ lit "srv")) none ≡ some result)
    × Outcome stat read result
load-Outcome_example = load-Outcome stat read (lit "srv") none

-- ===== src/Config/File.antt =====
-- `resolveConfigFilePath` and `Load` of internal/config/config.go.
pub mod Found
pub mod Outcome
use ingest.Prelude.{
  GoString, Option, [], if◌then◌else◌, inl, inr, length, lit, nat_key, none, some, suc, text_key,
  zero, ℕ, ◌==◌, ◌∷◌, ◌⊎◌,
}
use ingest.Config.{Config, ConfigError, validate}
use ingest.Config.Path.{dir_of, is_abs, join_path}

-- What `os.Stat` says of a path.
pub data Stat : Type 0 where
  regular : Stat
  directory : Stat
  not_exist : Stat
  stat_error : GoString → Stat

pub data Resolved : Type 0 where
  resolved : GoString → Resolved
  -- an absolute path of which `os.Stat` gives an error
  no_file : GoString → Resolved
  no_working_directory : Resolved
  -- a candidate of which `os.Stat` gives an error other than that it does not exist
  bad_candidate : GoString → Resolved
  not_found : Resolved

-- `stat` is the file system, `getwd` the working directory, where `none` is an error.
module _ (stat : GoString → Stat) where
  -- the loop from a directory upward; `none` is fuel that ran out
  unfoldable pub search_upward : ℕ → GoString → GoString → Option Resolved
  search_upward zero p dir = none
  search_upward (suc fuel) p dir =
      let candidate = join_path dir p in
      let parent = dir_of dir in
      let further = search_upward fuel p parent in
      let onward = if parent == dir then some not_found else further in
      elim (stat candidate) [
        | regular ↦ some (resolved candidate)
        | stat_error e ↦ some (bad_candidate candidate)
        | directory ↦ onward
        | not_exist ↦ onward
      ]

  unfoldable pub resolve_absolute : GoString → Resolved
  resolve_absolute p = elim (stat p) [
    | regular ↦ resolved p
    | directory ↦ resolved p
    | not_exist ↦ no_file p
    | stat_error e ↦ no_file p
  ]

  -- `resolveConfigFilePath`. A directory is left for a shorter one, so that the length of the
  -- working directory is enough fuel.
  unfoldable pub resolve_config_file_path : Option GoString → GoString → Option Resolved
  unfolding search_upward resolve_absolute is_abs
  resolve_config_file_path getwd p = if is_abs p then some (resolve_absolute p) else elim getwd [
    | none ↦ some no_working_directory
    | some wd ↦ search_upward (length wd) p wd
  ]

pub data Loaded : Type 0 where
  loaded : Config → Loaded
  unresolved : Resolved → Loaded
  unreadable : GoString → Loaded
  invalid : ConfigError → Loaded

-- `p := "config.yml"`, unless there is a path that is not empty
unfoldable pub config_path : Option GoString → GoString
config_path none = lit "config.yml"
config_path (some []) = lit "config.yml"
config_path (some (c ∷ p)) = c ∷ p

-- `read` stands for viper: it reads and decodes the file over the defaults and the environment.
module _ (stat : GoString → Stat) (read : GoString → Config ⊎ GoString) where
  unfoldable pub read_valid : GoString → Loaded
  unfolding validate
  read_valid path = elim (read path) [
    | inr e ↦ unreadable e
    | inl cfg ↦ elim (validate cfg) [ none ↦ loaded cfg | some e ↦ invalid e ]
  ]

  -- `Load`
  unfoldable pub load : Option GoString → Option GoString → Option Loaded
  unfolding resolve_config_file_path read_valid config_path
  load getwd path = elim (resolve_config_file_path stat getwd (config_path path)) [
    | none ↦ none
    | some (resolved file) ↦ some (read_valid file)
    | some (no_file q) ↦ some (unresolved (no_file q))
    | some no_working_directory ↦ some (unresolved no_working_directory)
    | some (bad_candidate q) ↦ some (unresolved (bad_candidate q))
    | some not_found ↦ some (unresolved not_found)
  ]

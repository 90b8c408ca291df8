-- ===== src/Config/File/Outcome.antt =====
-- What `Load` gives.
use ingest.Prelude.{
  GoString, List-cases, Option, Sum-cases, [], arith, inl, inr, nat_key, none, refl, some, text_key,
  ◌∷◌, ◌≡◌, ◌≢◌, ◌⊎◌,
}
use ingest.Config.{
  Config, ConfigError, click_house_password_empty, kafka_brokers, mysql_password_empty, no_broker,
  validate,
}
use ingest.Config.Brokers.{AreBrokers, kafka_brokers-AreBrokers}
use ingest.Config.File.{
  Loaded, Resolved, Stat, bad_candidate, config_path, invalid, load, loaded, no_file,
  no_working_directory, not_found, read_valid, resolve_config_file_path, resolved, unreadable,
  unresolved,
}
use ingest.Config.File.Found.{
  Exists, resolve_config_file_path-Exists, resolve_config_file_path_total,
}

validate-cases :
    (c : Config)
    → ((validate c ≡ none)
        × (c.my_sql.password ≢ [])
        × (c.click_house.password ≢ [])
        × (kafka_brokers c ≢ []))
      ⊎ ((e : ConfigError) × (validate c ≡ some e)
          × ((c.my_sql.password ≡ []) ⊎ (c.click_house.password ≡ []) ⊎ (kafka_brokers c ≡ [])))
unfolding validate
validate-cases c = elim (List-cases c.my_sql.password) [
  | inl e ↦ inr (mysql_password_empty, ground arith, inl e)
  | inr (a, as_, e) ↦ elim (List-cases c.click_house.password) [
    | inl f ↦ inr (click_house_password_empty, ground arith, inr (inl f))
    | inr (b, bs, f) ↦ elim (List-cases (kafka_brokers c)) [
      | inl g ↦ inr (no_broker, ground arith, inr (inr g))
      | inr (d, ds, g) ↦ inl (ground arith, (λ x. cc), (λ x. cc), λ x. cc)
    ]
  ]
]

-- What a loaded configuration is known to be: it was read from a file that exists, has passwords
-- for both databases, and names at least one broker, all of them well formed.
pub record IsLoaded (stat : GoString → Stat) (read : GoString → Config ⊎ GoString) (cfg : Config)
    (file : GoString) : Type 0 where
  pub exists : Exists stat file
  pub source : read file ≡ inl cfg
  pub my_sql : cfg.my_sql.password ≢ []
  pub click_house : cfg.click_house.password ≢ []
  pub reachable : kafka_brokers cfg ≢ []
  pub brokers : AreBrokers (kafka_brokers cfg)

abbrev pub Outcome : (GoString → Stat) → (GoString → Config ⊎ GoString) → Loaded → Type 0
Outcome stat read (loaded cfg) = (file : GoString) × IsLoaded stat read cfg file
Outcome stat read (unresolved r) = (file : GoString) → r ≢ resolved file
Outcome stat read (unreadable e) = (file : GoString) × Exists stat file × (read file ≡ inr e)
Outcome stat read (invalid e) =
    (file : GoString) × (cfg : Config) × Exists stat file
    × (read file ≡ inl cfg)
    × ((cfg.my_sql.password ≡ []) ⊎ (cfg.click_house.password ≡ []) ⊎ (kafka_brokers cfg ≡ []))

module _ (stat : GoString → Stat) (read : GoString → Config ⊎ GoString) where
  read_valid-Outcome :
      (file : GoString) → Exists stat file → Outcome stat read (read_valid stat read file)
  unfolding read_valid
  read_valid-Outcome file h = elim (Sum-cases (read file)) [
    | inr (e, bad) ↦ rw (read_valid, bad) (file, h, bad)
    | inl (cfg, ok) ↦ elim (validate-cases cfg) [
      | inl (good, my, ch, named) ↦
          rw (read_valid, ok, good)
            (
              file,
              record {
                exists = h;
                source = ok;
                my_sql = my;
                click_house = ch;
                reachable = named;
                brokers = kafka_brokers-AreBrokers cfg;
              },
            )
      | inr (e, bad, lacks) ↦ rw (read_valid, ok, bad) (file, cfg, h, ok, lacks)
    ]
  ]

  load_of :
      (r : Resolved) (getwd path : Option GoString)
      → resolve_config_file_path stat getwd (config_path path) ≡ some r
      → ((file : GoString) → r ≡ resolved file → Exists stat file)
      → (result : Loaded) × (load stat read getwd path ≡ some result) × Outcome stat read result
  unfolding load
  load_of (resolved file) getwd path e h =
      rw (load, e) (read_valid stat read file, refl, read_valid-Outcome file (h file refl))
  load_of (no_file q) getwd path e h = rw (load, e) (unresolved (no_file q), refl, λ f x. cc)
  load_of no_working_directory getwd path e h =
      rw (load, e) (unresolved no_working_directory, refl, λ f x. cc)
  load_of (bad_candidate q) getwd path e h =
      rw (load, e) (unresolved (bad_candidate q), refl, λ f x. cc)
  load_of not_found getwd path e h = rw (load, e) (unresolved not_found, refl, λ f x. cc)

  -- `Load` always gives an answer, from a working directory that is rooted. A configuration that it
  -- returns is the one that was read from an existing file, has a password for MySQL and one for
  -- ClickHouse, and names at least one broker, each of which is not blank, holds no comma and has
  -- no white space at its ends. An error of reading or of the validation comes of an existing
  -- file, and one of the validation of a file that lacks one of the three.
  pub load-Outcome :
      (s : GoString) (path : Option GoString)
      → (result : Loaded) × (load stat read (some (47 ∷ s)) path ≡ some result)
        × Outcome stat read result
  load-Outcome s path =
      let (r, e) = resolve_config_file_path_total stat (config_path path) s in
      load_of r (some (47 ∷ s)) path e
        (λ file same. resolve_config_file_path-Exists stat (config_path path) s file r e same)

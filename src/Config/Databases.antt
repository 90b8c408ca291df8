-- ===== src/Config/Databases.antt =====
-- The options of the two databases (clickhouse.go and mysql.go of internal/config).
use ingest.Prelude.{
  Bool, GoString, List, Option, [], elem, if◌then◌else◌, inl, inr, lit, nat_key, none, some,
  text_key, true, ℕ, ◌++◌, ◌∷◌, ◌⊎◌,
}
use ingest.Config.{Config, or_default}

-- `ClickHouseMaxOpenConns`, `ClickHouseMaxIdleConns`
unfoldable pub click_house_max_open_conns : Config → ℕ
unfolding or_default
click_house_max_open_conns c = or_default c.click_house.max_open_conns 5

unfoldable pub click_house_max_idle_conns : Config → ℕ
unfolding or_default
click_house_max_idle_conns c = or_default c.click_house.max_idle_conns 3

-- `net.JoinHostPort`: a host with a colon is put into brackets
unfoldable pub join_host_port : GoString → GoString → GoString
join_host_port host port =
    if elem 58 host then 91 ∷ (host ++ (93 ∷ 58 ∷ port)) else host ++ (58 ∷ port)

-- `clickhouse.Options`, as far as `ClickHouseOptions` sets them
pub record ClickHouseOptions : Type 0 where
  pub addr : List GoString
  pub database : GoString
  pub username : GoString
  pub password : GoString
  pub max_open_conns : ℕ
  pub max_idle_conns : ℕ
  pub tls : Bool

unfoldable pub click_house_options : Config → ClickHouseOptions
unfolding join_host_port click_house_max_open_conns click_house_max_idle_conns
click_house_options c = record {
  addr = join_host_port c.click_house.host c.click_house.port ∷ [];
  database = c.click_house.database;
  username = c.click_house.user;
  password = c.click_house.password;
  max_open_conns = click_house_max_open_conns c;
  max_idle_conns = click_house_max_idle_conns c;
  tls = c.click_house.secure;
}

-- `mysql.Config`, as far as `MySQLDriverConfig` sets it; the times are in seconds
pub record MySqlDriverConfig : Type 0 where
  pub user : GoString
  pub passwd : GoString
  pub net : GoString
  pub addr : GoString
  pub db_name : GoString
  pub parse_time : Bool
  pub timeout : ℕ
  pub read_timeout : ℕ
  pub write_timeout : ℕ

-- `MySQLDriverConfig`; `apply` stands for the option with the character set, an error or none
unfoldable pub mysql_driver_config :
    (GoString → MySqlDriverConfig → MySqlDriverConfig × Option GoString)
    → Config
    → MySqlDriverConfig ⊎ GoString
unfolding join_host_port
mysql_driver_config apply c =
    let (cfg, err) = apply (lit "utf8mb4") (record {
      user = c.my_sql.user;
      passwd = c.my_sql.password;
      net = lit "tcp";
      addr = join_host_port c.my_sql.host c.my_sql.port;
      db_name = c.my_sql.database;
      parse_time = true;
      timeout = 5;
      read_timeout = 30;
      write_timeout = 30;
    }) in
    elim err [ none ↦ inl cfg | some e ↦ inr e ]

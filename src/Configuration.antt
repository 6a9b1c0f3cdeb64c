-- ===== src/Configuration.antt =====
-- proxima-scheduler/util/config.go: the configuration that is read from the environment, which maps
-- the names of variables to their values. `time.ParseDuration` is an argument.
use Prim.Native.Char.{Char}
use proxima_scheduler.Prelude.{
  String, Bool, true, false, ◌||◌, ◌≡◌, ◌≢◌, refl, Option, none, some, List, [], ◌∷◌, All, ◌==◌,
  string_eq, beq_ne, if◌then◌else◌,
}
use proxima_scheduler.Prelude.Int.{ℤ, pos}
use proxima_scheduler.Map.{Map}
use proxima_scheduler.Map
use proxima_scheduler.Strings.{split, join, IsFree, split-join}

pub record Config : Type 0 where
  pub influx_db_address : String
  pub influx_db_token : String
  pub db_name : String
  pub database_enabled : Bool
  pub ping_interval : ℤ
  pub scoring_interval : ℤ
  pub included_namespaces : List String
  pub scheduler_name : String
  pub node_ip : String
  pub consul_url : String
  pub admission_crt_path : String
  pub admission_key_path : String
  pub cluster_name : String
  pub consul_cert_path : String
  pub edge_proxies : List String
  pub kube_configs_path : String
  pub kind_network_ip : String

unfoldable pub get_env : Map String String → String → String → String
get_env env key default_value = elim (Map.lookup key env) [
  | none ↦ default_value
  | some value ↦ value
]

-- `strconv.ParseBool`
unfoldable pub parse_bool : String → Option Bool
parse_bool s =
    if s == "1" || s == "t" || s == "T" || s == "TRUE" || s == "true" || s == "True"
    then some true
    else if s == "0" || s == "f" || s == "F" || s == "FALSE" || s == "false" || s == "False"
    then some false
    else none

abbrev pub or_default : {A : Type 0} → Option A → A → A
or_default none default_value = default_value
or_default (some value) default_value = value

unfoldable pub get_env_as_bool : Map String String → String → Bool → Bool
get_env_as_bool env name default_value =
    let s = get_env env name "" in
    if s == "" then default_value else or_default (parse_bool s) default_value

unfoldable pub get_env_as_duration : (String → Option ℤ) → Map String String → String → ℤ → ℤ
get_env_as_duration parse_duration env name default_value =
    let s = get_env env name "" in
    if s == "" then default_value else or_default (parse_duration s) default_value

abbrev pub comma : Char
comma = ","

unfoldable pub parse_comma_separated_array : Map String String → String → List String → List String
parse_comma_separated_array env name default_value =
    let s = get_env env name "" in if s == "" then default_value else split comma s

unfoldable pub load_config : (String → Option ℤ) → Map String String → Config
load_config parse_duration env = record {
  influx_db_address = get_env env "INFLUXDB_ADDRESS" "http://localhost:8086";
  influx_db_token = get_env env "INFLUXDB_TOKEN" "";
  db_name = get_env env "INFLUXDB_DB_NAME" "proxima_scheduler";
  database_enabled = get_env_as_bool env "DATABASE_ENABLED" true;
  ping_interval = get_env_as_duration parse_duration env "PING_INTERVAL" (pos 10_000_000_000);
  scoring_interval = get_env_as_duration parse_duration env "SCORING_INTERVAL" (pos 30_000_000_000);
  included_namespaces = parse_comma_separated_array env "INCLUDED_NAMESPACES" ("default" ∷ []);
  scheduler_name = get_env env "SCHEDULER_NAME" "proxima-scheduler";
  node_ip = get_env env "NODE_IP" "";
  consul_url = get_env env "CONSUL_URL" "";
  admission_crt_path = get_env env "ADMISSION_CRT_PATH" "";
  admission_key_path = get_env env "ADMISSION_KEY_PATH" "";
  cluster_name = get_env env "CLUSTER_NAME" "";
  consul_cert_path = get_env env "CONSUL_CERT_PATH" "";
  edge_proxies = parse_comma_separated_array env "EDGE_PROXIES" ("default" ∷ []);
  kube_configs_path = get_env env "KUBECONFIGS_PATH" "/etc/kubeconfigs";
  kind_network_ip = get_env env "KIND_NETWORK_IP" "";
}

unfoldable pub home_dir : Map String String → String
home_dir env = let h = get_env env "HOME" "" in if h == "" then get_env env "USERPROFILE" "" else h

-- A list that is written with commas between parts that have none is read as those parts, for the edge
-- proxies and for the namespaces, unless all that is written is the empty text, which leaves the default.
pub load_config-join :
    (parse_duration : String → Option ℤ) (env : Map String String) (edge namespace : String)
    (edges namespaces : List String)
    → Map.lookup "EDGE_PROXIES" env ≡ some (join comma (edge ∷ edges))
    → Map.lookup "INCLUDED_NAMESPACES" env ≡ some (join comma (namespace ∷ namespaces))
    → All (IsFree comma) (edge ∷ edges)
    → All (IsFree comma) (namespace ∷ namespaces)
    → join comma (edge ∷ edges) ≢ ""
    → join comma (namespace ∷ namespaces) ≢ ""
    → ((load_config parse_duration env).edge_proxies ≡ edge ∷ edges)
      × ((load_config parse_duration env).included_namespaces ≡ namespace ∷ namespaces)
unfolding load_config parse_comma_separated_array get_env
load_config-join parse_duration env edge namespace edges namespaces e n free free' filled filled' =
    (
      parsed "EDGE_PROXIES" edge edges e free filled,
      parsed "INCLUDED_NAMESPACES" namespace namespaces n free' filled',
    )
  where
    parsed :
        (name part : String) (parts : List String)
        → Map.lookup name env ≡ some (join comma (part ∷ parts))
        → All (IsFree comma) (part ∷ parts)
        → join comma (part ∷ parts) ≢ ""
        → parse_comma_separated_array env name ("default" ∷ []) ≡ part ∷ parts
    parsed name part parts given free filled =
        rw
          (
            parse_comma_separated_array,
            get_env,
            given,
            (beq_ne (join comma (part ∷ parts)) "").1 filled,
          )
          (split-join comma part parts refl free.0 free.1)

-- ===== src/Config.antt =====
-- internal/config/config.go: the configuration and its defaults. A string is its list of bytes,
-- an `int` an integer. `DefaultTrafficGB` is a float that neither `normalize` nor `Validate`
-- touches, and is left out; so is the file's path.
pub mod Ports
pub mod Normalize
pub mod Validate
mod Tests
use ssh_vpn.Common.{ℤ, pos, Bytes, codes, Bool, true, false, List, [], ◌∷◌, Option, none, some}

pub record ServerConfig : Type 0 where
  pub host : Bytes

pub record SshConfig : Type 0 where
  pub ports : List ℤ
  pub config_path : Bytes
  pub sshd_path : Bytes
  pub max_auth_tries : ℤ
  pub password_auth : Bool
  pub tuning : Bool
  pub compression : Bool
  pub client_alive_interval : ℤ
  pub client_alive_count_max : ℤ
  pub max_startups : Bytes
  pub login_grace_time : ℤ
  pub banner : Bytes

pub record UdpgwConfig : Type 0 where
  pub enabled : Bool
  pub mode : Bytes
  pub listen : Bytes
  pub ports : List ℤ
  pub max_clients : ℤ
  pub max_connections_per_client : ℤ
  pub flow_idle_secs : ℤ
  pub dns : Bytes

pub record BadvpnConfig : Type 0 where
  pub binary_path : Bytes

pub record GatewayConfig : Type 0 where
  pub enabled : Bool
  pub listen : Bytes
  pub ports : List ℤ
  pub tls_cert : Bytes
  pub tls_key : Bytes
  pub max_connections : ℤ
  pub handshake_timeout_secs : ℤ

pub record LimiterConfig : Type 0 where
  pub enabled : Bool
  pub policy : Bytes
  pub interval_secs : ℤ

-- `none` is a nil map.
pub record NetworkConfig : Type 0 where
  pub auto_optimize : Bool
  pub congestion_control : Bytes
  pub custom_sysctls : Option (List (Bytes × Bytes))

pub record FirewallConfig : Type 0 where
  pub enabled : Bool
  pub block_local : Bool
  pub block_smtp : Bool
  pub allow_local_ports : List ℤ

pub record UserDefaultsConfig : Type 0 where
  pub default_expiration_days : ℤ
  pub default_max_connections : ℤ
  pub shell : Bytes
  pub group : Bytes

pub record MonitorConfig : Type 0 where
  pub refresh_interval_secs : ℤ
  pub auth_log_path : Bytes

pub record Config : Type 0 where
  pub data_dir : Bytes
  pub log_dir : Bytes
  pub server : ServerConfig
  pub ssh : SshConfig
  pub udpgw : UdpgwConfig
  pub badvpn : BadvpnConfig
  pub gateway : GatewayConfig
  pub limiter : LimiterConfig
  pub network : NetworkConfig
  pub firewall : FirewallConfig
  pub user_defaults : UserDefaultsConfig
  pub monitor : MonitorConfig

-- `Defaults`.
unfoldable pub defaults : Config
defaults = record {
  data_dir = codes "/var/lib/sshfortress";
  log_dir = codes "/var/log/sshfortress";
  server = record { host = [] };
  ssh = record {
    ports = pos 22 ∷ [];
    config_path = codes "/etc/ssh/sshd_config";
    sshd_path = [];
    max_auth_tries = pos 4;
    password_auth = false;
    tuning = true;
    compression = false;
    client_alive_interval = pos 20;
    client_alive_count_max = pos 3;
    max_startups = codes "100:30:1000";
    login_grace_time = pos 30;
    banner = [];
  };
  udpgw = record {
    enabled = true;
    mode = codes "builtin";
    listen = codes "127.0.0.1";
    ports = pos 7100 ∷ pos 7200 ∷ pos 7300 ∷ [];
    max_clients = pos 2048;
    max_connections_per_client = pos 512;
    flow_idle_secs = pos 120;
    dns = [];
  };
  badvpn = record { binary_path = codes "/usr/local/bin/badvpn-udpgw" };
  gateway = record {
    enabled = false;
    listen = [];
    ports = [];
    tls_cert = [];
    tls_key = [];
    max_connections = pos 4096;
    handshake_timeout_secs = pos 15;
  };
  limiter = record { enabled = true; policy = codes "oldest"; interval_secs = pos 5 };
  network = record {
    auto_optimize = true;
    congestion_control = codes "bbr";
    custom_sysctls = some [];
  };
  firewall = record {
    enabled = true;
    block_local = true;
    block_smtp = true;
    allow_local_ports = [];
  };
  user_defaults = record {
    default_expiration_days = pos 30;
    default_max_connections = pos 2;
    shell = codes "/bin/false";
    group = codes "sshvpn";
  };
  monitor = record { refresh_interval_secs = pos 2; auth_log_path = codes "/var/log/auth.log" };
}

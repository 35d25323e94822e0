-- ===== src/Config/Normalize.antt =====
-- `Config.normalize` of internal/config/config.go. `strings.TrimSpace` and `strings.ToLower` are
-- those on ASCII text.
mod Words
pub mod Idempotent
use ssh_vpn.Common.{
  ℕ, ◌+◌, ◌==◌, leb, ℤ, pos, Bytes, codes, Bool, true, false, ◌&&◌, ◌||◌, List, [], ◌∷◌, map,
  Option, none, some, leb_ℤ, if◌then◌else◌,
}
use ssh_vpn.Config.{
  Config, ServerConfig, SshConfig, UdpgwConfig, BadvpnConfig, GatewayConfig, LimiterConfig,
  NetworkConfig, FirewallConfig, UserDefaultsConfig, MonitorConfig, defaults,
}
use ssh_vpn.Config.Ports.{uniq_sorted}
use ssh_vpn.Common.Text.{is_space, lower, trim_left, keep, trim_right}

-- `if s == "" { s = d }`
unfoldable pub or_default : Bytes → Bytes → Bytes
or_default [] d = d
or_default (b ∷ bs) d = b ∷ bs

-- `if n <= 0 { n = d }`
unfoldable pub or_positive : ℤ → ℤ → ℤ
or_positive n d = if leb_ℤ n (pos 0) then d else n

-- `if len(ports) == 0 { ports = d }`
unfoldable pub or_ports : List ℤ → List ℤ → List ℤ
or_ports [] d = d
or_ports (p ∷ ps) d = p ∷ ps

-- `if m == nil { m = map[string]string{} }`
unfoldable pub or_empty_map : Option (List (Bytes × Bytes)) → Option (List (Bytes × Bytes))
or_empty_map none = some []
or_empty_map (some m) = some m

-- `strings.ToLower(strings.TrimSpace(s))`
unfoldable pub word : Bytes → Bytes
unfolding trim_left trim_right lower
word s = map lower (trim_right (trim_left s))

unfoldable pub normalize_ssh : SshConfig → SshConfig → SshConfig
unfolding or_default or_positive or_ports uniq_sorted
normalize_ssh c d = record {
  ports = uniq_sorted (or_ports (c.ports) (d.ports));
  config_path = or_default (c.config_path) (d.config_path);
  sshd_path = c.sshd_path;
  max_auth_tries = or_positive (c.max_auth_tries) (d.max_auth_tries);
  password_auth = c.password_auth;
  tuning = c.tuning;
  compression = c.compression;
  client_alive_interval = or_positive (c.client_alive_interval) (d.client_alive_interval);
  client_alive_count_max = or_positive (c.client_alive_count_max) (d.client_alive_count_max);
  max_startups = or_default (c.max_startups) (d.max_startups);
  login_grace_time = or_positive (c.login_grace_time) (d.login_grace_time);
  banner = c.banner;
}

unfoldable pub normalize_udpgw : UdpgwConfig → UdpgwConfig → UdpgwConfig
unfolding or_default or_positive or_ports uniq_sorted word
normalize_udpgw c d = record {
  enabled = c.enabled;
  mode = or_default (word (c.mode)) (d.mode);
  listen = or_default (c.listen) (d.listen);
  ports = uniq_sorted (or_ports (c.ports) (d.ports));
  max_clients = or_positive (c.max_clients) (d.max_clients);
  max_connections_per_client =
      or_positive (c.max_connections_per_client) (d.max_connections_per_client);
  flow_idle_secs = or_positive (c.flow_idle_secs) (d.flow_idle_secs);
  dns = c.dns;
}

unfoldable pub normalize_badvpn : BadvpnConfig → BadvpnConfig → BadvpnConfig
unfolding or_default
normalize_badvpn c d = record { binary_path = or_default (c.binary_path) (d.binary_path) }

unfoldable pub normalize_gateway : GatewayConfig → GatewayConfig → GatewayConfig
unfolding or_positive uniq_sorted
normalize_gateway c d = record {
  enabled = c.enabled;
  listen = c.listen;
  ports = uniq_sorted (c.ports);
  tls_cert = c.tls_cert;
  tls_key = c.tls_key;
  max_connections = or_positive (c.max_connections) (d.max_connections);
  handshake_timeout_secs = or_positive (c.handshake_timeout_secs) (d.handshake_timeout_secs);
}

unfoldable pub normalize_limiter : LimiterConfig → LimiterConfig → LimiterConfig
unfolding or_default or_positive word
normalize_limiter c d = record {
  enabled = c.enabled;
  policy = or_default (word (c.policy)) (d.policy);
  interval_secs = or_positive (c.interval_secs) (d.interval_secs);
}

unfoldable pub normalize_network : NetworkConfig → NetworkConfig → NetworkConfig
unfolding or_default or_empty_map
normalize_network c d = record {
  auto_optimize = c.auto_optimize;
  congestion_control = or_default (c.congestion_control) (d.congestion_control);
  custom_sysctls = or_empty_map (c.custom_sysctls);
}

unfoldable pub normalize_user_defaults :
    UserDefaultsConfig → UserDefaultsConfig → UserDefaultsConfig
unfolding or_default or_positive
normalize_user_defaults c d = record {
  default_expiration_days = or_positive (c.default_expiration_days) (d.default_expiration_days);
  default_max_connections = or_positive (c.default_max_connections) (d.default_max_connections);
  shell = or_default (c.shell) (d.shell);
  group = or_default (c.group) (d.group);
}

unfoldable pub normalize_monitor : MonitorConfig → MonitorConfig → MonitorConfig
unfolding or_positive
normalize_monitor c d = record {
  refresh_interval_secs = or_positive (c.refresh_interval_secs) (d.refresh_interval_secs);
  auth_log_path = c.auth_log_path;
}

unfoldable pub normalize : Config → Config
unfolding defaults or_default normalize_ssh normalize_udpgw normalize_badvpn normalize_gateway
    normalize_limiter normalize_network normalize_user_defaults normalize_monitor
normalize c = record {
  data_dir = or_default (c.data_dir) (defaults.data_dir);
  log_dir = or_default (c.log_dir) (defaults.log_dir);
  server = c.server;
  ssh = normalize_ssh (c.ssh) (defaults.ssh);
  udpgw = normalize_udpgw (c.udpgw) (defaults.udpgw);
  badvpn = normalize_badvpn (c.badvpn) (defaults.badvpn);
  gateway = normalize_gateway (c.gateway) (defaults.gateway);
  limiter = normalize_limiter (c.limiter) (defaults.limiter);
  network = normalize_network (c.network) (defaults.network);
  firewall = c.firewall;
  user_defaults = normalize_user_defaults (c.user_defaults) (defaults.user_defaults);
  monitor = normalize_monitor (c.monitor) (defaults.monitor);
}

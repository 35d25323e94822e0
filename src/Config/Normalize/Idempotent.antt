-- ===== src/Config/Normalize/Idempotent.antt =====
-- `normalize` leaves a normalized configuration as it is.
use ssh_vpn.Common.{
  ℤ, pos, Bytes, Bool, true, false, ◌||◌, List, [], ◌∷◌, Option, none, some, leb_ℤ, eqb_ℤ, ◌≡◌,
  refl, sym, ap, ◌∙◌, subst, arith, Bool-cases, if-both, inl, inr,
}
use ssh_vpn.Config.{
  Config, SshConfig, UdpgwConfig, BadvpnConfig, GatewayConfig, LimiterConfig, NetworkConfig,
  UserDefaultsConfig, MonitorConfig, defaults,
}
use ssh_vpn.Common.Text.{trim_left, trim_right, lower, is_space}
use ssh_vpn.Config.Ports.{contains, uniq, insert, sort, uniq_sorted}
use ssh_vpn.Config.Ports.Laws.{
  AllAbove, Ascending, uniq_sorted-Ascending, contains-uniq_sorted, eqb_ℤ-eq, eqb_ℤ_refl,
}
use ssh_vpn.Config.Normalize.{
  or_default, or_positive, or_ports, or_empty_map, word, normalize, normalize_ssh, normalize_udpgw,
  normalize_badvpn, normalize_gateway, normalize_limiter, normalize_network,
  normalize_user_defaults, normalize_monitor,
}
use ssh_vpn.Config.Normalize.Words.{or_default-word_twice}

or_default_twice : (s d : Bytes) → or_default (or_default s d) d ≡ or_default s d
unfolding or_default
or_default_twice [] [] = refl
or_default_twice [] (x ∷ xs) = refl
or_default_twice (x ∷ xs) d = refl

or_positive_twice : (n d : ℤ) → or_positive (or_positive n d) d ≡ or_positive n d
unfolding or_positive
or_positive_twice n d =
    if-both (λ m. or_positive m d ≡ m) (leb_ℤ n (pos 0)) d n
      (λ _. if-both (λ m. m ≡ d) (leb_ℤ d (pos 0)) d d (λ _. refl) (λ _. refl))
      (λ e. rw (e, or_positive) refl)

or_empty_map_twice :
    (m : Option (List (Bytes × Bytes))) → or_empty_map (or_empty_map m) ≡ or_empty_map m
unfolding or_empty_map
or_empty_map_twice none = refl
or_empty_map_twice (some m) = refl

insert-AllAbove : (p : ℤ) (ps : List ℤ) → AllAbove p ps → insert p ps ≡ p ∷ ps
unfolding insert
insert-AllAbove p [] h = refl
insert-AllAbove p (q ∷ qs) h = ground (arith, insert-AllAbove p qs)

sort-of_Ascending : (ps : List ℤ) → Ascending ps → sort ps ≡ ps
unfolding sort
sort-of_Ascending [] h = refl
sort-of_Ascending (p ∷ ps) h = rw (sort-of_Ascending ps h.1) (insert-AllAbove p ps h.0)

uniq-of_Ascending :
    (seen ps : List ℤ)
    → ((q : ℤ) → contains seen q ≡ true → AllAbove q ps)
    → Ascending ps
    → uniq seen ps ≡ ps
unfolding uniq contains
uniq-of_Ascending seen [] h k = refl
uniq-of_Ascending seen (p ∷ ps) h k = elim (Bool-cases (contains seen p)) [
  | inl old ↦ absurd (let above = h p old in omega (arith, above.0))
  | inr new ↦
      rw new
        (ap (◌∷◌ p) (uniq-of_Ascending (p ∷ seen) ps (λ q e. below q (eqb_ℤ p q) refl e) (k.1)))
]
  where
    below : (q : ℤ) (b : Bool) → eqb_ℤ p q ≡ b → (b || contains seen q) ≡ true → AllAbove q ps
    below q true e f = subst (λ x. AllAbove x ps) (eqb_ℤ-eq p q e) k.0
    below q false e f = (h q f).1

uniq_sorted-of_Ascending : (ps : List ℤ) → Ascending ps → uniq_sorted ps ≡ ps
unfolding uniq_sorted contains
uniq_sorted-of_Ascending ps h =
    ap sort (uniq-of_Ascending [] ps (λ q e. absurd (cc)) h) ∙ sort-of_Ascending ps h

uniq_sorted_twice : (ps : List ℤ) → uniq_sorted (uniq_sorted ps) ≡ uniq_sorted ps
uniq_sorted_twice ps = uniq_sorted-of_Ascending (uniq_sorted ps) (uniq_sorted-Ascending ps)

or_ports_twice :
    (ps d : List ℤ)
    → uniq_sorted (or_ports (uniq_sorted (or_ports ps d)) d) ≡ uniq_sorted (or_ports ps d)
unfolding or_ports contains
or_ports_twice [] d = by_default (uniq_sorted d) refl
  where
    by_default : (u : List ℤ) → uniq_sorted d ≡ u → uniq_sorted (or_ports u d) ≡ u
    by_default [] e = e
    by_default (q ∷ qs) e = subst (λ u. uniq_sorted u ≡ u) e (uniq_sorted_twice d)
or_ports_twice (p ∷ ps) d = by_ports (uniq_sorted (p ∷ ps)) refl
  where
    member : contains (p ∷ ps) p ≡ true
    member = rw (eqb_ℤ_refl p) refl

    by_ports : (u : List ℤ) → uniq_sorted (p ∷ ps) ≡ u → uniq_sorted (or_ports u d) ≡ u
    by_ports [] e =
        absurd (
          let out = sym (ap (λ u. contains u p) e) ∙ contains-uniq_sorted p (p ∷ ps) ∙ member in cc)
    by_ports (q ∷ qs) e = subst (λ u. uniq_sorted u ≡ u) e (uniq_sorted_twice (p ∷ ps))

normalize_ssh_twice : (c d : SshConfig) → normalize_ssh (normalize_ssh c d) d ≡ normalize_ssh c d
unfolding normalize_ssh
normalize_ssh_twice c d = λ i. record {
  ports = or_ports_twice (c.ports) (d.ports) i;
  config_path = or_default_twice (c.config_path) (d.config_path) i;
  sshd_path = c.sshd_path;
  max_auth_tries = or_positive_twice (c.max_auth_tries) (d.max_auth_tries) i;
  password_auth = c.password_auth;
  tuning = c.tuning;
  compression = c.compression;
  client_alive_interval = or_positive_twice (c.client_alive_interval) (d.client_alive_interval) i;
  client_alive_count_max =
      or_positive_twice (c.client_alive_count_max) (d.client_alive_count_max) i;
  max_startups = or_default_twice (c.max_startups) (d.max_startups) i;
  login_grace_time = or_positive_twice (c.login_grace_time) (d.login_grace_time) i;
  banner = c.banner;
}

normalize_udpgw_twice :
    (c d : UdpgwConfig)
    → word (d.mode) ≡ d.mode
    → normalize_udpgw (normalize_udpgw c d) d ≡ normalize_udpgw c d
unfolding normalize_udpgw
normalize_udpgw_twice c d h = λ i. record {
  enabled = c.enabled;
  mode = or_default-word_twice (c.mode) (d.mode) h i;
  listen = or_default_twice (c.listen) (d.listen) i;
  ports = or_ports_twice (c.ports) (d.ports) i;
  max_clients = or_positive_twice (c.max_clients) (d.max_clients) i;
  max_connections_per_client =
      or_positive_twice (c.max_connections_per_client) (d.max_connections_per_client) i;
  flow_idle_secs = or_positive_twice (c.flow_idle_secs) (d.flow_idle_secs) i;
  dns = c.dns;
}

normalize_badvpn_twice :
    (c d : BadvpnConfig) → normalize_badvpn (normalize_badvpn c d) d ≡ normalize_badvpn c d
unfolding normalize_badvpn
normalize_badvpn_twice c d =
    λ i. record { binary_path = or_default_twice (c.binary_path) (d.binary_path) i }

normalize_gateway_twice :
    (c d : GatewayConfig) → normalize_gateway (normalize_gateway c d) d ≡ normalize_gateway c d
unfolding normalize_gateway
normalize_gateway_twice c d = λ i. record {
  enabled = c.enabled;
  listen = c.listen;
  ports = uniq_sorted_twice (c.ports) i;
  tls_cert = c.tls_cert;
  tls_key = c.tls_key;
  max_connections = or_positive_twice (c.max_connections) (d.max_connections) i;
  handshake_timeout_secs =
      or_positive_twice (c.handshake_timeout_secs) (d.handshake_timeout_secs) i;
}

normalize_limiter_twice :
    (c d : LimiterConfig)
    → word (d.policy) ≡ d.policy
    → normalize_limiter (normalize_limiter c d) d ≡ normalize_limiter c d
unfolding normalize_limiter
normalize_limiter_twice c d h = λ i. record {
  enabled = c.enabled;
  policy = or_default-word_twice (c.policy) (d.policy) h i;
  interval_secs = or_positive_twice (c.interval_secs) (d.interval_secs) i;
}

normalize_network_twice :
    (c d : NetworkConfig) → normalize_network (normalize_network c d) d ≡ normalize_network c d
unfolding normalize_network
normalize_network_twice c d = λ i. record {
  auto_optimize = c.auto_optimize;
  congestion_control = or_default_twice (c.congestion_control) (d.congestion_control) i;
  custom_sysctls = or_empty_map_twice (c.custom_sysctls) i;
}

normalize_user_defaults_twice :
    (c d : UserDefaultsConfig)
    → normalize_user_defaults (normalize_user_defaults c d) d ≡ normalize_user_defaults c d
unfolding normalize_user_defaults
normalize_user_defaults_twice c d = λ i. record {
  default_expiration_days =
      or_positive_twice (c.default_expiration_days) (d.default_expiration_days) i;
  default_max_connections =
      or_positive_twice (c.default_max_connections) (d.default_max_connections) i;
  shell = or_default_twice (c.shell) (d.shell) i;
  group = or_default_twice (c.group) (d.group) i;
}

normalize_monitor_twice :
    (c d : MonitorConfig) → normalize_monitor (normalize_monitor c d) d ≡ normalize_monitor c d
unfolding normalize_monitor
normalize_monitor_twice c d = λ i. record {
  refresh_interval_secs = or_positive_twice (c.refresh_interval_secs) (d.refresh_interval_secs) i;
  auth_log_path = c.auth_log_path;
}

-- Normalizing twice is normalizing once: a configuration that was loaded, and so filled,
-- folded to lower case, sorted and rid of repeated ports, is left as it is.
pub normalize_twice : (c : Config) → normalize (normalize c) ≡ normalize c
unfolding normalize defaults word trim_left trim_right lower is_space
normalize_twice c = λ i. record {
  data_dir = or_default_twice (c.data_dir) (defaults.data_dir) i;
  log_dir = or_default_twice (c.log_dir) (defaults.log_dir) i;
  server = c.server;
  ssh = normalize_ssh_twice (c.ssh) (defaults.ssh) i;
  udpgw = normalize_udpgw_twice (c.udpgw) (defaults.udpgw) refl i;
  badvpn = normalize_badvpn_twice (c.badvpn) (defaults.badvpn) i;
  gateway = normalize_gateway_twice (c.gateway) (defaults.gateway) i;
  limiter = normalize_limiter_twice (c.limiter) (defaults.limiter) refl i;
  network = normalize_network_twice (c.network) (defaults.network) i;
  firewall = c.firewall;
  user_defaults = normalize_user_defaults_twice (c.user_defaults) (defaults.user_defaults) i;
  monitor = normalize_monitor_twice (c.monitor) (defaults.monitor) i;
}

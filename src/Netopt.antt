-- ===== src/Netopt.antt =====
-- internal/netopt/netopt.go: the recommended kernel settings, and how `Apply` sets them. The kernel
-- is a parameter: a state with what it answers to a read, a write and the loading of a module.
pub mod Counts
use ssh_vpn.Common.{
  ℕ, ◌+◌, ◌*◌, ◌^◌, Bytes, codes, bytes_eq, has_prefix, leb, if◌then◌else◌, Bool, true, false, not,
  ◌&&◌, ◌||◌, any, List, [], ◌∷◌, ◌++◌, map, Option, none, some,
}
use ssh_vpn.Common.Text.{decimal, fields, join}

-- `Param`, as the profile has it.
pub record Param : Type 0 where
  pub key : Bytes
  pub value : Bytes
  pub desc : Bytes

abbrev param : Bytes → Bytes → Bytes → Param
param k v d = record { key = k; value = v; desc = d }

-- `bufferMax`, by the memory in bytes.
unfoldable pub buffer_max : ℕ → ℕ
buffer_max ram =
    if leb (4 * 2 ^ 30) ram
    then 64 * 2 ^ 20
    else if leb (2 ^ 30) ram
    then 32 * 2 ^ 20
    else 16 * 2 ^ 20

-- The fixed part of `Profile`.
abbrev pub fixed_params : Bytes → Bytes → List Param
fixed_params bmax cc =
    param (codes "net.core.default_qdisc") (codes "fq") (codes "Fair-queue pacing (pairs with BBR)")
    ∷ param (codes "net.ipv4.tcp_congestion_control") cc (codes "Congestion control")
    ∷ param (codes "net.ipv4.tcp_notsent_lowat") (codes "16384")
        (codes "Short send queue " ++ (0xE2 ∷ 0x86 ∷ 0x92 ∷ []) ++ codes " low latency for calls")
    ∷ param (codes "net.ipv4.tcp_slow_start_after_idle") (codes "0")
        (codes "Keep tunnel speed after pauses")
    ∷ param (codes "net.ipv4.tcp_mtu_probing") (codes "1") (codes "Recover from broken path MTU")
    ∷ param (codes "net.ipv4.tcp_fastopen") (codes "3") (codes "TCP Fast Open (client + server)")
    ∷ param (codes "net.ipv4.tcp_window_scaling") (codes "1") (codes "Large TCP windows")
    ∷ param (codes "net.ipv4.tcp_sack") (codes "1") (codes "Selective ACKs")
    ∷ param (codes "net.ipv4.tcp_timestamps") (codes "1") (codes "RTT measurement")
    ∷ param (codes "net.ipv4.tcp_no_metrics_save") (codes "1")
        (codes "Don't reuse stale path metrics")
    ∷ param (codes "net.core.rmem_max") bmax (codes "Max receive buffer")
    ∷ param (codes "net.core.wmem_max") bmax (codes "Max send buffer")
    ∷ param (codes "net.core.rmem_default") (codes "262144")
        (codes "Default receive buffer (UDP flows)")
    ∷ param (codes "net.core.wmem_default") (codes "262144")
        (codes "Default send buffer (UDP flows)")
    ∷ param (codes "net.ipv4.tcp_rmem") (codes "4096 131072 " ++ bmax)
        (codes "TCP receive buffer min/default/max")
    ∷ param (codes "net.ipv4.tcp_wmem") (codes "4096 65536 " ++ bmax)
        (codes "TCP send buffer min/default/max")
    ∷ param (codes "net.ipv4.udp_rmem_min") (codes "16384") (codes "UDP receive buffer floor")
    ∷ param (codes "net.ipv4.udp_wmem_min") (codes "16384") (codes "UDP send buffer floor")
    ∷ param (codes "net.core.netdev_max_backlog") (codes "16384") (codes "Packet backlog per CPU")
    ∷ param (codes "net.core.somaxconn") (codes "8192") (codes "Listen backlog")
    ∷ param (codes "net.ipv4.tcp_max_syn_backlog") (codes "8192") (codes "SYN backlog")
    ∷ param (codes "net.ipv4.ip_local_port_range") (codes "10240 65535")
        (codes "Ephemeral ports for tunnels/UDP flows")
    ∷ param (codes "net.ipv4.tcp_tw_reuse") (codes "1") (codes "Reuse TIME_WAIT sockets")
    ∷ param (codes "net.ipv4.tcp_fin_timeout") (codes "15") (codes "FIN timeout (s)")
    ∷ param (codes "net.ipv4.tcp_keepalive_time") (codes "60") (codes "Keepalive start (s)")
    ∷ param (codes "net.ipv4.tcp_keepalive_intvl") (codes "10") (codes "Keepalive interval (s)")
    ∷ param (codes "net.ipv4.tcp_keepalive_probes") (codes "6") (codes "Keepalive probes")
    ∷ param (codes "net.ipv4.tcp_retries2") (codes "8")
        (codes "Give up on dead peers in ~100s, not 15 min")
    ∷ param (codes "net.ipv4.tcp_rfc1337") (codes "1") (codes "TIME_WAIT assassination protection")
    ∷ param (codes "fs.file-max") (codes "2097152") (codes "System-wide open files")
    ∷ param (codes "vm.swappiness") (codes "10") (codes "Prefer RAM over swap")
    ∷ param (codes "net.netfilter.nf_conntrack_max") (codes "262144")
        (codes "Connection tracking table")
    ∷ []

abbrev pub or_bbr : Bytes → Bytes
or_bbr [] = codes "bbr"
or_bbr (c ∷ cc) = c ∷ cc

-- `<` on Go strings.
unfoldable pub less : Bytes → Bytes → Bool
less [] [] = false
less [] (y ∷ ys) = true
less (x ∷ xs) [] = false
less (x ∷ xs) (y ∷ ys) = let rest = less xs ys in if leb y x then leb x y && rest else true

abbrev pub put_sorted : Bytes × Bytes → List (Bytes × Bytes) → List (Bytes × Bytes)
put_sorted p [] = p ∷ []
put_sorted p (q ∷ qs) = if less q.0 p.0 then q ∷ put_sorted p qs else p ∷ q ∷ qs

-- `sort.Strings` on the keys of the map.
unfoldable pub sorted : List (Bytes × Bytes) → List (Bytes × Bytes)
unfolding less
sorted [] = []
sorted (p ∷ ps) = put_sorted p (sorted ps)

-- `Profile`, by the memory, the congestion control and the settings of the configuration.
unfoldable pub profile : ℕ → Bytes → List (Bytes × Bytes) → List Param
unfolding buffer_max sorted
profile ram cc custom =
    fixed_params (decimal (buffer_max ram)) (or_bbr cc)
    ++ map (λ p. param p.0 p.1 (codes "Custom")) (sorted custom)

-- `norm`
unfoldable pub norm : Bytes → Bytes
norm s = join b' ' (fields s)

-- The kernel's settings, and `modprobe`; `write` answers `none` for an error.
pub record Kernel (S : Type 0) : Type 0 where
  pub raw : S → Bytes → Option Bytes
  pub write : S → Bytes → Bytes → Option S
  pub modprobe : Bytes → S → S

abbrev pub congestion_key : Bytes
congestion_key = codes "net.ipv4.tcp_congestion_control"

abbrev pub qdisc_key : Bytes
qdisc_key = codes "net.core.default_qdisc"

-- What `Status` adds to a setting, and `Score`.
pub record Checked : Type 0 where
  pub supported : Bool
  pub applied : Bool

unfoldable pub score : List Checked → ℕ × ℕ
score [] = (0, 0)
score (c ∷ cs) =
    let (a, t) = score cs in
    if c.supported then ((if c.applied then a + 1 else a), t + 1) else (a, t)

pub record Result : Type 0 where
  pub applied : ℕ
  pub total : ℕ
  pub skipped : List Bytes
  pub warnings : List Bytes  -- the key of the setting
  pub lines : List Bytes

module _ {S : Type 0} (k : Kernel S) where
  -- `Read`
  unfoldable pub read : S → Bytes → Option Bytes
  unfolding norm
  read s key = elim (k.raw s key) [ none ↦ none | some v ↦ some (norm v) ]

  abbrev pub check_value : Option Bytes → Bytes → Checked
  check_value none v = record { supported = false; applied = false }
  check_value (some cur) v = record { supported = true; applied = bytes_eq (norm cur) (norm v) }

  -- `Status`
  unfoldable pub status : S → List Param → List Checked
  unfolding read
  status s [] = []
  status s (p ∷ ps) = check_value (read s (p.key)) (p.value) ∷ status s ps

  abbrev pub listed : Bytes → Option Bytes → Bool
  listed cc none = false
  listed cc (some v) = any (λ a. bytes_eq a cc) (fields v)

  -- `ccAvailable`
  unfoldable pub cc_available : S → Bytes → Bool
  unfolding read
  cc_available s cc = listed cc (read s (codes "net.ipv4.tcp_available_congestion_control"))

  -- The first loop of `Apply`: a setting of the congestion control that the kernel does not have,
  -- even with its module, becomes cubic.
  abbrev pub choose : S → Param → Param × S
  choose s p =
      let t = if cc_available s (p.value) then s else k.modprobe (codes "tcp_" ++ p.value) s in
      (if cc_available t (p.value) then p else record p { value = codes "cubic" }, t)

  unfoldable pub choose_cc : S → List Param → List Param × S
  unfolding cc_available
  choose_cc s [] = ([], s)
  choose_cc s (p ∷ ps) =
      let (q, t) = if bytes_eq (p.key) congestion_key then choose s p else (p, s) in
      let (qs, u) = choose_cc t ps in (q ∷ qs, u)

  -- A write, with a second one behind `modprobe` for the queueing discipline.
  abbrev pub retry : Param → S → Option S → Option S × S
  retry p s (some t) = (some t, t)
  retry p s none =
      if bytes_eq (p.key) qdisc_key
      then (let t = k.modprobe (codes "sch_" ++ p.value) s in (k.write t (p.key) (p.value), t))
      else (none, s)

  -- The result after a setting was read, written or not.
  abbrev pub seen : Param → Result → Result
  seen p r = record r {
    total = r.total + 1;
    lines = r.lines ++ ((codes "# " ++ p.desc) ∷ (p.key ++ (codes " = " ++ p.value)) ∷ []);
  }

  abbrev pub after_write : Param → Result → Option S × S → Result × S
  after_write p r (none, s) = (record r { warnings = r.warnings ++ (p.key ∷ []) }, s)
  after_write p r (some t, s) = (record r { applied = r.applied + 1 }, t)

  abbrev pub with_current : Param → Result → S → Option Bytes → Result × S
  with_current p r s none = (record r { skipped = r.skipped ++ (p.key ∷ []) }, s)
  with_current p r s (some cur) =
      if bytes_eq (norm cur) (norm (p.value))
      then (record (seen p r) { applied = r.applied + 1 }, s)
      else after_write p (seen p r) (retry p s (k.write s (p.key) (p.value)))

  -- The second loop of `Apply`.
  unfoldable pub set_all : List Param → Result → S → Result × S
  unfolding read norm
  set_all [] r s = (r, s)
  set_all (p ∷ ps) r s = let (q, t) = with_current p r s (read s (p.key)) in set_all ps q t

  abbrev pub new_result : Result
  new_result = record {
    applied = 0;
    total = 0;
    skipped = [];
    warnings = [];
    lines =
        (codes "# SSH-VPN network profile "
          ++ ((0xE2 ∷ 0x80 ∷ 0x94 ∷ []) ++ codes " generated by `sshfortress optimize`."))
        ∷ codes "# Remove with `sshfortress optimize reset`."
        ∷ []
        ∷ [];
  }

  -- `Apply`, without the files it writes.
  unfoldable pub apply : List Param → S → Result × S
  unfolding choose_cc set_all
  apply ps s = let (qs, t) = choose_cc s ps in set_all qs new_result t

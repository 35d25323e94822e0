-- ===== src/Lib.antt =====
-- A model of the core of SSH-VPN, a Go program that runs sshd-based VPN accounts, with the
-- theorems that hold of it. Paths are those of the repository.
--
-- The parts of the program and how they interact. The daemon (internal/daemon) reads the
-- configuration (internal/config), serves UDP over TCP (internal/udpgw) and the gateway in front
-- of sshd (internal/gateway), and at each tick locks accounts and disconnects sessions through
-- the manager (internal/user) on the database (internal/store) and the sessions that a scan finds
-- (internal/session) from what internal/procfs reads. The manager checks names and passwords with
-- internal/security. The gateway hands each connection to an sshd of its own and tells the scan
-- whose it is; internal/sshd writes the settings of sshd, internal/firewall the rules for the
-- traffic of the users, internal/netopt the settings of the kernel.
--
-- Files and what they model:
-- - Common: native numbers, lists, bytes, bits, signed integers, maps and the
--   functions on text that all parts share.
-- - Udpgw/Proto: internal/udpgw/proto.go, the wire format; `ParsePacket` is `parse_packet`,
--   `AppendFrame` is `append_frame`. Udpgw/Reader: `client.reader` on a stream of bytes.
-- - Udpgw/Flow, Udpgw/Client, Udpgw/Server: internal/udpgw/server.go. The state is the map of
--   clients, each with its map of flows and the flow objects it has made, and the atomic
--   counters. `handle`, `reapFlows`, `closeFlow`, `close` and `flowReader` are functions on a client;
--   `startClient`, `reaper`, `removeClient` and `Close` are cut into their locked sections, and
--   Udpgw/Server/Reach has the steps that the goroutines take.
-- - Gateway/Sniff: `classify` and `isWSFrameStart` of internal/gateway/sniff.go; Gateway/Peek: the
--   loops `peekClassify` and `classifyReader`; Gateway/Request: `headerEnd`, `parseHeader`,
--   `readHeaderExact`, `readHeaderBuffered`, `clientIP`, and `upgradeResponse` of
--   internal/gateway/ws.go. Gateway/Ws: `wsConn` of that file, with what the socket delivers as a
--   list of bytes, and how many bytes it still takes.
-- - Gateway/Front, Gateway/Handle, Gateway/System: internal/gateway/gateway.go. The state is the
--   fields of `Gateway`; `handle` with `handlePlainHTTP`, `handleTLS`, `handoff`, `pump` and
--   `spawn` is a machine whose steps end at each operation on that state, and `acceptLoop` and the
--   goroutine that waits for a child are machines too. A schedule is a list of events.
-- - Config: internal/config/config.go, its structs and `Defaults`; Config/Normalize is
--   `normalize`, Config/Validate is `Validate`, Config/Ports is `uniqSorted`.
-- - User/Account, User/Bucket: the record and the transactions of internal/store/store.go over an
--   interface for the bucket of the database. User/Manager: the operations of
--   internal/user/manager.go, with the commands they run recorded in order. User/Create and
--   User/Remove: `Create`, `Delete` and `SetPassword`; User/Lifetime: sequences of `Create`, `Delete`
--   and the operations of User/Manager. User/Session and User/Scan: `ByUser`, `Scan`, `attachSockets`
--   and `Kill` of internal/session/session.go. User/Accounting: the traffic half of
--   `tick` of internal/daemon/daemon.go; User/Enforce: its other half, and `kill`.
-- - Firewall: internal/firewall/firewall.go. `Rules` is `rules`, a rule as data with its words;
--   `Apply` and `Remove` give the commands that they run. Firewall/Policy reads these words as
--   iptables documents them.
-- - Sshd: internal/sshd/sshd.go. `stripBlocks`, `withInlineBlocks`, `commentPorts` and
--   `uncommentPorts` on bytes; Sshd/Render is `render`; Sshd/Apply is the loop of `Apply` over the
--   levels, on the two files that it writes.
-- - Netopt: internal/netopt/netopt.go, the profile and the loops of `Apply` on a kernel that is a
--   parameter. Daemon: the events, the warnings, `startUDPGW` and `watchdog` of
--   internal/daemon/daemon.go, and `Fresh` of internal/state/state.go.
-- - Procfs: the parsers of internal/procfs/procfs.go, and the arithmetic of start times.
-- - Security: `ValidateUsername`, `ValidatePassword` and `GenerateRandomPassword` of
--   internal/security.
--
-- Conventions. Strings and byte slices are lists of numbers below 256; `int` is a signed integer
-- of Common/Int; times are nanoseconds. Counters wrap at 2 ^ 64, and traffic is an `int64`. A
-- code section under a mutex is one function, and goroutines interleave such sections; a call that
-- takes flows out of a client's map and then closes their sockets is one step too. The gauges of
-- the gateway are signed integers without a bound: no count here comes near the ends of an `int64`.
--
-- Bounds and fuel. The loop of `client.reader` and that of `wsConn.Read` run on fuel, with `none`
-- for fuel that ran out. Each turn of the reader takes at least two bytes of the stream, so one
-- turn more than the stream has bytes is enough; a turn of the other takes a frame header.
-- The peeking loops of the gateway run on the list of what their turns see, with `none` for a list
-- that ends too early; `decimal` has a round for each unit of its number, which is more than digits.
--
-- What is a parameter: the answers of the kernel (a new socket, a failed write, how much a
-- socket takes, what a failed rollback leaves), how iptables reads a list of ports, the bucket of
-- bbolt with its laws, the commands of the system and whether they succeed, the calendar of the
-- time zone, and the source of random numbers.
--
-- Not modelled: the terminal interface (tui), the command line (cmd/sshfortress, main.go), the
-- parts that run commands or only read and write files (internal/system, internal/sysx,
-- internal/doctor, internal/setup, internal/badvpn), TLS certificates, backups, sockets, and the
-- texts of internal/card.
pub mod Common
pub mod Config
pub mod Daemon
pub mod Firewall
pub mod Gateway
pub mod Netopt
pub mod Procfs
pub mod Security
pub mod Sshd
pub mod Udpgw
pub mod User

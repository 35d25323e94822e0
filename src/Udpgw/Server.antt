-- ===== src/Udpgw/Server.antt =====
-- The server half of internal/udpgw/server.go: configuration, the set of clients and the gauge
-- of flows. A `*client` is a key of `clients`; a client that `removeClient` has removed holds no
-- flow and ignores all packets, so it is forgotten. What stands under one lock of the server is one
-- operation, and so is one call on a client's flows.
mod Clients
pub mod Invariant
pub mod Steps
pub mod Reach
use ssh_vpn.Common.{
  ℕ, ◌+◌, ◌-◌, Bool, true, false, not, ◌&&◌, List, [], ◌∷◌, Option, none, some, ℤ, pos, pos_part,
  leb_ℤ, ltb, ltb_ℤ, if◌then◌else◌, length, drop, Bytes,
}
use ssh_vpn.Common.Assoc.{lookup, erase, insert}
use ssh_vpn.Udpgw.Proto.{AddrPort, Packet}
use ssh_vpn.Udpgw.Flow.{Counters, u64}
use ssh_vpn.Udpgw.Client.{Client, handle, reap_flows, close_client, flow_broken, flow_reply}

-- Durations are in nanoseconds. `DNS` and `Logf` are functions and are left to the caller.
pub record Config : Type 0 where
  pub max_clients : ℤ
  pub max_flows : ℤ
  pub flow_idle : ℤ
  pub client_idle : ℤ
  pub queue_len : ℤ

abbrev is_unset : ℤ → Bool
is_unset n = leb_ℤ n (pos 0)

-- `Config.defaults`.
unfoldable pub defaults : Config → Config
defaults c = record {
  max_clients = if is_unset c.max_clients then pos 2048 else c.max_clients;
  max_flows = if is_unset c.max_flows then pos 512 else c.max_flows;
  flow_idle = if is_unset c.flow_idle then pos 120000000000 else c.flow_idle;
  client_idle = if ltb_ℤ c.client_idle (pos 0) then pos 0 else c.client_idle;
  queue_len = if is_unset c.queue_len then pos 512 else c.queue_len;
}

pub record Server : Type 0 where
  pub cfg : Config
  pub clients : List (ℕ × Client)
  pub closed : Bool
  pub total_conns : ℕ
  pub counters : Counters

abbrev pub no_counters : Counters
no_counters = record {
  flows = 0;
  packets_up = 0;
  packets_down = 0;
  bytes_up = 0;
  bytes_down = 0;
  dropped = 0;
}

-- `NewServer`.
unfoldable pub new_server : Config → Server
new_server cfg = record {
  cfg = defaults cfg;
  clients = [];
  closed = false;
  total_conns = 0;
  counters = no_counters;
}

abbrev pub new_client : ℕ → ℕ → ℕ → Client
new_client now remote_port local_port = record {
  remote_port = remote_port;
  local_port = local_port;
  since = now;
  last_recv = now;
  bytes_up = 0;
  bytes_down = 0;
  out = [];
  flows = [];
  objs = [];
  closed = false;
}

-- The oldest client, in the order of the `range`.
unfoldable pub oldest : Option (ℕ × ℕ) → List (ℕ × Client) → Option (ℕ × ℕ)
oldest best [] = best
oldest none ((id, c) ∷ m) = oldest (some (id, c.since)) m
oldest (some (b, t)) ((id, c) ∷ m) =
    oldest (if ltb c.since t then some (id, c.since) else some (b, t)) m

victim : Option (ℕ × ℕ) → List ℕ
victim none = []
victim (some (id, t)) = id ∷ []

-- The locked section of `startClient`, for a connection that gets the new pointer `id`: the state,
-- and the client that is closed behind the unlock, if any.
unfoldable pub admit_client : ℕ → ℕ → ℕ → ℕ → Server → Server × List ℕ
unfolding victim
admit_client id now remote_port local_port s =
    if s.closed
    then (s, [])
    else (let full = leb_ℤ s.cfg.max_clients (pos (length s.clients)) in
        let evict = if full then oldest none s.clients else none in
        let c = new_client now remote_port local_port in
        (record s { clients = insert id c s.clients }, victim evict))

-- `s.totalConns.Add(1)`
unfoldable pub count_conn : Server → Server
count_conn s = record s { total_conns = u64 (s.total_conns + 1) }

with_client : Option Client → (Client → Counters → Client × Counters) → ℕ → Server → Server
with_client none op id s = s
with_client (some c) op id s =
    let (c', n') = op c s.counters in record s { clients = insert id c' s.clients; counters = n' }

-- An operation of one registered client on the shared counters.
unfoldable pub on_client : ℕ → (Client → Counters → Client × Counters) → Server → Server
unfolding with_client
on_client id op s = with_client (lookup id s.clients) op id s

-- The reader of client `id` hands a packet over.
unfoldable pub receive : ℕ → Option ℕ → Bool → ℕ → Option AddrPort → Packet → Server → Server
receive id sock written now dns p s =
    on_client id
      (λ c n. handle s.cfg.max_flows sock written now dns p (record c { last_recv = now }) n) s

-- The reader has read a frame that it then skips.
unfoldable pub heard : ℕ → ℕ → Server → Server
heard id now s = on_client id (λ c n. (record c { last_recv = now }, n)) s

-- The `writer` takes the first `k` frames of the queue.
unfoldable pub dequeue : ℕ → ℕ → Server → Server
dequeue id k s = on_client id (λ c n. (record c { out = drop k c.out }, n)) s

-- `client.close` before its last line, for a client that is still registered.
unfoldable pub shut : ℕ → Server → Server
shut id s = on_client id close_client s

-- `removeClient`
unfoldable pub remove_client : ℕ → Server → Server
remove_client id s = record s { clients = erase id s.clients }

reap_found : ℕ → ℕ → Option Client → Server → Server
reap_found now id none s = s
reap_found now id (some c) s =
    if ltb_ℤ (pos 0) s.cfg.client_idle && ltb_ℤ s.cfg.client_idle (pos (now - c.last_recv))
    then shut id s
    else on_client id (reap_flows (now - pos_part s.cfg.flow_idle)) s

-- The turn of the `reaper` at one client of its snapshot.
unfoldable pub reap_client : ℕ → ℕ → Server → Server
unfolding reap_found
reap_client now id s = reap_found now id (lookup id s.clients) s

-- The locked section of `Server.Close`.
unfoldable pub begin_close : Server → Server
begin_close s = record s { closed = true }

-- ===== src/Udpgw/Tests.antt =====
-- Runs of the models of internal/udpgw.
use ssh_vpn.Common.{
  ℕ, length, map, true, false, List, [], ◌∷◌, ◌++◌, ◌+◌, drop, Bytes, none, some, pos, ◌≡◌, refl,
  arith,
}
use ssh_vpn.Common.Assoc.{lookup, insert, erase}
use ssh_vpn.Udpgw.Proto.{v4, AddrPort, Packet, ok, parse_packet, append_frame, append_keepalive}
use ssh_vpn.Udpgw.Proto.RoundTrip.{IsSendable, sent_packet, parse_packet-append_frame}
use ssh_vpn.Udpgw.Reader.{Received, reader}
use ssh_vpn.Udpgw.Reader.Stream.{
  ping, datagram, append_messages, seen, reader-append_messages, reader_total,
}
use ssh_vpn.Udpgw.Flow.{Flow, Counters, close_flows, last_use_at}
use ssh_vpn.Udpgw.Client.{Client, lru, handle, close_client}
use ssh_vpn.Udpgw.Client.Owned.{count_open}
use ssh_vpn.Udpgw.Client.Lru.{NoneOlder, lru-NoneOlder}
use ssh_vpn.Udpgw.Client.Invariant.{Holds}
use ssh_vpn.Udpgw.Client.Traffic.{handle-Holds}
use ssh_vpn.Udpgw.Client.Teardown.{close_client-Holds}
use ssh_vpn.Udpgw.Server.{
  Config, defaults, no_counters, new_client, new_server, oldest, admit_client, receive, on_client,
  shut, remove_client,
}
use ssh_vpn.Udpgw.Server.Reach.{
  Serving, at_start, Reach, here, next, accept, evicted, packet, hang_up, removed, IsConsistent,
  Reach-IsConsistent,
}

abbrev resolver : AddrPort
resolver = record { addr = v4 (8 ∷ 8 ∷ 8 ∷ 8 ∷ []); port = 53 }

abbrev query : Packet
query = record { flags = 0; con_id = 7; addr = resolver; payload = 1 ∷ 2 ∷ 3 ∷ [] }

sendable : IsSendable 2 7 resolver (1 ∷ 2 ∷ 3 ∷ [])
sendable = record {
  flags_byte = omega arith;
  conid_u16 = omega arith;
  port_u16 = omega arith;
  addr_whole = refl;
  fits = omega arith;
}

parse_packet-append_frame_example :
    (f : Bytes) × (append_frame (9 ∷ []) 2 7 resolver (1 ∷ 2 ∷ 3 ∷ []) ≡ ok ((9 ∷ []) ++ f))
    × (parse_packet (drop 2 f) ≡ ok (sent_packet 2 7 resolver (1 ∷ 2 ∷ 3 ∷ [])))
parse_packet-append_frame_example =
    parse_packet-append_frame (9 ∷ []) 2 7 resolver (1 ∷ 2 ∷ 3 ∷ []) sendable refl

abbrev sent : Bytes
sent = 3 ∷ 0 ∷ 1 ∷ 0 ∷ 0 ∷ 12 ∷ 0 ∷ 2 ∷ 7 ∷ 0 ∷ 8 ∷ 8 ∷ 8 ∷ 8 ∷ 0 ∷ 53 ∷ 1 ∷ 2 ∷ 3 ∷ []

sent_lem : append_messages [] (ping ∷ datagram 2 7 resolver (1 ∷ 2 ∷ 3 ∷ []) ∷ []) ≡ ok sent
unfolding append_keepalive append_frame
sent_lem = refl

reader-append_messages_example :
    reader (length sent + 1) sent
    ≡ some (map seen (ping ∷ datagram 2 7 resolver (1 ∷ 2 ∷ 3 ∷ []) ∷ []))
reader-append_messages_example =
    reader-append_messages (ping ∷ datagram 2 7 resolver (1 ∷ 2 ∷ 3 ∷ []) ∷ [])
      (tt, ((sendable, refl), tt)) sent_lem

reader_total_example : (rs : List Received) × (reader 6 (3 ∷ 0 ∷ 1 ∷ 0 ∷ 0 ∷ []) ≡ some rs)
reader_total_example = reader_total 6 (3 ∷ 0 ∷ 1 ∷ 0 ∷ 0 ∷ []) (omega arith)

abbrev flow_used : ℕ → ℕ → Flow
flow_used conid t = record {
  conid = conid;
  orig = resolver;
  target = resolver;
  pc = conid;
  last_use = t;
  closed = false;
}

abbrev three_flows : List Flow
three_flows = flow_used 4 90 ∷ flow_used 5 30 ∷ flow_used 6 60 ∷ []

abbrev three_entries : List (ℕ × ℕ)
three_entries = (4, 0) ∷ (5, 1) ∷ (6, 2) ∷ []

three_lru : lru three_flows none three_entries ≡ some 1
unfolding lru last_use_at
three_lru = refl

lru-NoneOlder_example : NoneOlder three_flows (last_use_at three_flows 1) three_entries
lru-NoneOlder_example = lru-NoneOlder three_flows three_entries three_lru

abbrev fresh_client : Client
fresh_client = new_client 100 4000 7300

fresh-Holds : Holds (pos 2) 0 fresh_client no_counters
fresh-Holds = record {
  sound = record {
    opens = tt;
    distinct = tt;
    no_leak = refl;
    within = omega arith;
    closed_empty = λ down. refl;
  };
  tracks = refl;
}

abbrev busy : Client × Counters
busy = handle (pos 2) (some 9) true 101 none query fresh_client no_counters

close_client-Holds_example :
    let r = close_client busy.0 busy.1 in
    Holds (pos 2) 0 r.0 r.1 × (count_open r.0.objs ≡ 0) × (r.0.flows ≡ [])
close_client-Holds_example = close_client-Holds (pos 2) 0 busy.0 busy.1 (
    handle-Holds (pos 2) 0 (some 9) true 101 none query fresh_client no_counters (omega arith)
      fresh-Holds)

abbrev tiny : Config
tiny = record {
  max_clients = pos 1;
  max_flows = pos 1;
  flow_idle = pos 50;
  client_idle = pos 0;
  queue_len = pos 4;
}

-- A server of one client, with one goroutine that accepts: a second client is let in, and the first
-- is closed and removed for it.
abbrev first_in : Serving
first_in = record {
  server = (admit_client 1 100 4000 7300 (new_server tiny)).0;
  evicting = (admit_client 1 100 4000 7300 (new_server tiny)).1 ++ [];
}

abbrev second_in : Serving
second_in = record {
  server = (admit_client 2 200 4001 7300 first_in.server).0;
  evicting = (admit_client 2 200 4001 7300 first_in.server).1 ++ first_in.evicting;
}

abbrev asked : Serving
asked = record second_in { server = receive 2 (some 9) true 210 none query second_in.server }

abbrev first_shut : Serving
first_shut = record asked { server = shut 1 asked.server }

second_reached : Reach 1 (at_start tiny) first_shut
unfolding admit_client new_server defaults lookup insert oldest
second_reached =
    next
      (next
        (next (next here (accept 1 100 4000 7300 (omega arith) refl))
          (accept 2 200 4001 7300 (omega arith) refl))
        (packet 2 (some 9) true 210 none query))
      (hang_up 1)

Reach-IsConsistent_example : IsConsistent 1 first_shut
Reach-IsConsistent_example = Reach-IsConsistent 1 tiny second_reached

-- With two goroutines that accept, both close the first client for theirs, and one too many stays.
abbrev third_in : Serving
third_in = record {
  server = (admit_client 3 300 4002 7300 second_in.server).0;
  evicting = (admit_client 3 300 4002 7300 second_in.server).1 ++ second_in.evicting;
}

abbrev third_shut : Serving
third_shut = record third_in { server = shut 1 third_in.server }

abbrev both_evicted : Serving
both_evicted = record { server = remove_client 1 third_shut.server; evicting = [] }

limit_passed : Reach 2 (at_start tiny) both_evicted × (length both_evicted.server.clients ≡ 2)
unfolding admit_client new_server defaults lookup insert erase oldest shut remove_client on_client
    close_client close_flows
limit_passed = (
  next
      (next
        (next
          (next
            (next
              (next (next here (accept 1 100 4000 7300 (omega arith) refl))
                (accept 2 200 4001 7300 (omega arith) refl))
              (accept 3 300 4002 7300 (omega arith) refl))
            (hang_up 1))
          (removed 1 _ refl refl))
        (evicted [] (1 ∷ []) 1 refl refl))
      (evicted [] [] 1 refl refl),
  refl,
)

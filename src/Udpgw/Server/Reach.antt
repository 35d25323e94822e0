-- ===== src/Udpgw/Server/Reach.antt =====
-- The server as a transition system. Its goroutines interleave in any order: the `Serve` goroutines,
-- of which there are `serves`, the readers, writers and flow readers of the clients, and the reaper.
-- A step is one section under the lock of the server, or one call on the flows of one client.
use ssh_vpn.Common.{
  ℕ, ◌+◌, ◌-◌, ◌≤◌, ◌<◌, Bytes, Bool, true, List, [], ◌∷◌, ◌++◌, Option, none, some, drop, length,
  length-append, if-both, pos, pos_part, ◌≤ℤ◌, ◌≡◌, refl, sym, ap, subst, arith,
}
use ssh_vpn.Common.Assoc.{lookup, erase, length-erase_mem}
use ssh_vpn.Udpgw.Flow.{Counters}
use ssh_vpn.Udpgw.Proto.{AddrPort, Packet}
use ssh_vpn.Udpgw.Client.{Client, flow_broken, flow_reply}
use ssh_vpn.Udpgw.Client.Invariant.{Holds, keep_flows-Holds}
use ssh_vpn.Udpgw.Client.Traffic.{flow_reply-Holds, handle-Holds}
use ssh_vpn.Udpgw.Client.Teardown.{close_client-Holds, flow_broken-Holds, reap_flows-Holds}
use ssh_vpn.Udpgw.Server.{
  Config, Server, defaults, new_server, shut, remove_client, admit_client, count_conn, on_client,
  receive, heard, dequeue, reap_client, reap_found, begin_close,
}
use ssh_vpn.Udpgw.Server.Clients.{Clients}
use ssh_vpn.Udpgw.Server.Invariant.{
  IsCoherent, is_some, on_client-IsCoherent, on_client-cfg, on_client-length, lookup-on_client,
  remove_client-IsCoherent,
}
use ssh_vpn.Udpgw.Server.Steps.{
  registered, extra, Admitted, admit_client-Admitted, admit_client-IsCoherent,
}

-- The server, and the clients that `Serve` goroutines are closing as the oldest ones.
pub record Serving : Type 0 where
  pub server : Server
  pub evicting : List ℕ

abbrev pub at_start : Config → Serving
at_start cfg = record { server = new_server cfg; evicting = [] }

abbrev on_server : Serving → Server → Serving
on_server y s = record y { server = s }

pub data Step (serves : ℕ) (y : Serving) : Serving → Type 0 where
  -- a `Serve` goroutine that evicts no client accepts a connection, under a pointer that no client
  -- has
  accept :
      (id now remote_port local_port : ℕ)
      → length y.evicting < serves
      → lookup id y.server.clients ≡ none
      → Step serves y (record {
        server = (admit_client id now remote_port local_port y.server).0;
        evicting = (admit_client id now remote_port local_port y.server).1 ++ y.evicting;
      })
  -- `evict.close()` returns, which it does once the client is removed, whoever closed it
  evicted :
      (before behind : List ℕ) (v : ℕ)
      → y.evicting ≡ before ++ (v ∷ behind)
      → lookup v y.server.clients ≡ none
      → Step serves y (record y { evicting = before ++ behind })
  count : Step serves y (record y { server = count_conn y.server })
  -- `reader` handles a packet
  packet :
      (id : ℕ) (sock : Option ℕ) (written : Bool) (now : ℕ) (dns : Option AddrPort) (p : Packet)
      → Step serves y (record y { server = receive id sock written now dns p y.server })
  -- `reader` skips a frame, `writer` takes frames off the queue
  skip : (id now : ℕ) → Step serves y (record y { server = heard id now y.server })
  take_frames : (id k : ℕ) → Step serves y (record y { server = dequeue id k y.server })
  -- `flowReader` gets a datagram, or an error
  reply :
      (id : ℕ) (leave : Bool) (now i : ℕ) (b : Bytes)
      → Step serves y (record y {
        server = on_client id (flow_reply y.server.cfg.queue_len leave now i b) y.server;
      })
  broken : (id i : ℕ) → Step serves y (record y { server = on_client id (flow_broken i) y.server })
  -- a client is closed, for its reader, its writer, an eviction or `Close`, and then removed
  hang_up : (id : ℕ) → Step serves y (record y { server = shut id y.server })
  removed :
      (id : ℕ) (c : Client)
      → lookup id y.server.clients ≡ some c
      → c.closed ≡ true
      → Step serves y (record y { server = remove_client id y.server })
  -- the reaper comes to a client
  tick : (now id : ℕ) → Step serves y (record y { server = reap_client now id y.server })
  stop : Step serves y (record y { server = begin_close y.server })

pub data Reach (serves : ℕ) (y : Serving) : Serving → Type 0 where
  here : Reach serves y y
  next : {t u : Serving} → Reach serves y t → Step serves t u → Reach serves y u

pub record IsConsistent (serves : ℕ) (y : Serving) : Type 0 where
  pub coherent : IsCoherent y.server
  pub some_client : pos 1 ≤ℤ y.server.cfg.max_clients
  pub one_each : length y.evicting ≤ serves
  pub within :
      serves ≡ 1
      → length y.server.clients
        ≤ pos_part y.server.cfg.max_clients + extra y.evicting y.server.clients

extra_same :
    (vs : List ℕ) (m m' : Clients)
    → ((j : ℕ) → is_some (lookup j m') ≡ is_some (lookup j m))
    → extra vs m' ≡ extra vs m
extra_same [] m m' h = refl
extra_same (v ∷ vs) m m' h = rw (h v, extra_same vs m m' h) refl

extra-append : (vs ws : List ℕ) (m : Clients) → extra (vs ++ ws) m ≡ extra vs m + extra ws m
extra-append [] ws m = omega arith
extra-append (v ∷ vs) ws m = omega (arith, extra-append vs ws m)

-- A step on one client, which neither adds nor removes any.
on_client-IsConsistent :
    (serves id : ℕ) (op : Client → Counters → Client × Counters) (y : Serving)
    → ((others : ℕ) (c : Client) (n : Counters)
        → Holds y.server.cfg.max_flows others c n
        → Holds y.server.cfg.max_flows others (op c n).0 (op c n).1)
    → IsConsistent serves y
    → IsConsistent serves (record y { server = on_client id op y.server })
on_client-IsConsistent serves id op y keeps k =
    let s = y.server in
    let same = on_client-cfg id op s in
    record {
      coherent = on_client-IsCoherent id op s keeps k.coherent;
      some_client = subst (λ (c : Config). pos 1 ≤ℤ c.max_clients) (sym same) k.some_client;
      one_each = k.one_each;
      within = λ one. omega (
        arith,
        k.within one,
        on_client-length id op s,
        ap (λ (c : Config). pos_part c.max_clients) same,
        extra_same y.evicting s.clients (on_client id op s).clients
            (λ j. lookup-on_client id j op s),
      );
    }

shut-IsConsistent :
    (serves id : ℕ) (y : Serving)
    → IsConsistent serves y
    → IsConsistent serves (record y { server = shut id y.server })
unfolding shut
shut-IsConsistent serves id y k =
    on_client-IsConsistent serves id _ y
      (λ others c n h. (close_client-Holds y.server.cfg.max_flows others c n h).0) k

-- Removing a client takes at most one off on both sides.
extra-erase :
    (id : ℕ) (vs : List ℕ) (m : Clients) → length vs ≤ 1 → extra vs m ≤ extra vs (erase id m) + 1
extra-erase id [] m h = omega arith
extra-erase id (v ∷ []) m h = ground arith
extra-erase id (v ∷ w ∷ vs) m h = absurd (omega arith)

admit-within :
    (serves : ℕ) (y : Serving) (r : Server × List ℕ)
    → IsConsistent serves y
    → length y.evicting < serves
    → (length y.server.clients ≤ pos_part y.server.cfg.max_clients → Admitted y.server r)
    → serves ≡ 1
    → length r.0.clients ≤ pos_part r.0.cfg.max_clients + extra (r.1 ++ y.evicting) r.0.clients
unfolding Admitted
admit-within serves y r k idle admitted one =
    let none_evicted = empty y.evicting (omega arith) in
    let room : length y.server.clients ≤ pos_part y.server.cfg.max_clients =
      omega (arith, k.within one, ap (λ vs. extra vs y.server.clients) none_evicted) in
    let (_, same, _, bound) = admitted room in
    omega (
      arith,
      bound,
      ap (λ (c : Config). pos_part c.max_clients) same,
      extra-append r.1 y.evicting r.0.clients,
    )
  where
    empty : (vs : List ℕ) → length vs < 1 → vs ≡ []
    empty [] h = refl
    empty (v ∷ vs) h = absurd (omega arith)

Step-IsConsistent :
    {serves : ℕ} {y z : Serving} → Step serves y z → IsConsistent serves y → IsConsistent serves z
unfolding heard dequeue receive count_conn begin_close reap_client
Step-IsConsistent {serves} {y} (accept id now remote_port local_port idle new) k =
    let s = y.server in
    let r = admit_client id now remote_port local_port s in
    let (coherent, same, few) =
      admit_client-IsCoherent id now remote_port local_port s new k.coherent in
    record {
      coherent = coherent;
      some_client = subst (λ (c : Config). pos 1 ≤ℤ c.max_clients) (sym same) k.some_client;
      one_each = omega (arith, few, idle, length-append r.1 y.evicting);
      within =
          admit-within serves y r k idle
            (admit_client-Admitted id now remote_port local_port s new k.coherent k.some_client);
    }
Step-IsConsistent {serves} {y} (evicted before behind v e gone) k =
    let m = y.server.clients in
    record {
      coherent = k.coherent;
      some_client = k.some_client;
      one_each = omega (
        arith,
        k.one_each,
        ap (length {A = ℕ}) e,
        length-append before (v ∷ behind),
        length-append before behind,
      );
      within = λ one.
          let no_one : registered v m ≡ 0 = rw gone refl in
          omega (
            arith,
            k.within one,
            ap (λ vs. extra vs m) e,
            extra-append before (v ∷ behind) m,
            extra-append before behind m,
            no_one,
          );
    }
Step-IsConsistent {serves} {y} count k = record {
  coherent = record {
    some_flow = k.coherent.some_flow;
    sound = k.coherent.sound;
    distinct = k.coherent.distinct;
    gauge = k.coherent.gauge;
  };
  some_client = k.some_client;
  one_each = k.one_each;
  within = k.within;
}
Step-IsConsistent {serves} {y} (packet id sock written now dns p) k =
    let limit = y.server.cfg.max_flows in
    on_client-IsConsistent serves id _ y
      (λ others c n h.
        handle-Holds limit others sock written now dns p (record c { last_recv = now }) n
          k.coherent.some_flow
          (keep_flows-Holds limit others c (record c { last_recv = now }) n n refl refl
            h.sound.opens refl refl h))
      k
Step-IsConsistent {serves} {y} (skip id now) k =
    on_client-IsConsistent serves id _ y
      (λ others c n h.
        keep_flows-Holds y.server.cfg.max_flows others c (record c { last_recv = now }) n n refl
          refl h.sound.opens refl refl h)
      k
Step-IsConsistent {serves} {y} (take_frames id m) k =
    on_client-IsConsistent serves id _ y
      (λ others c n h.
        keep_flows-Holds y.server.cfg.max_flows others c (record c { out = drop m c.out }) n n refl
          refl h.sound.opens refl refl h)
      k
Step-IsConsistent {serves} {y} (reply id leave now i b) k =
    let s = y.server in
    on_client-IsConsistent serves id _ y
      (λ others c n h. flow_reply-Holds s.cfg.max_flows others s.cfg.queue_len leave now i b c n h)
      k
Step-IsConsistent {serves} {y} (broken id i) k =
    on_client-IsConsistent serves id _ y
      (λ others c n h. flow_broken-Holds y.server.cfg.max_flows others i c n h) k
Step-IsConsistent {serves} {y} (hang_up id) k = shut-IsConsistent serves id y k
Step-IsConsistent {serves} {y} (removed id c e down) k = record {
  coherent = remove_client-IsCoherent id c y.server e down k.coherent;
  some_client = unfold remove_client in k.some_client;
  one_each = k.one_each;
  within = λ one.
      unfold remove_client in
      omega (
        arith,
        k.within one,
        k.one_each,
        length-erase_mem id c y.server.clients e,
        extra-erase id y.evicting y.server.clients (omega (arith, k.one_each, one)),
      );
}
Step-IsConsistent {serves} {y} (tick now id) k = by_found (lookup id y.server.clients)
  where
    by_found :
        (o : Option Client)
        → IsConsistent serves (record y { server = reap_found now id o y.server })
    by_found none = k
    by_found (some c) =
        if-both (λ (s : Server). IsConsistent serves (record y { server = s })) _ _ _
          (λ silent. shut-IsConsistent serves id y k)
          (λ heard_of.
            on_client-IsConsistent serves id _ y
              (λ others d n h.
                reap_flows-Holds y.server.cfg.max_flows others
                  (now - pos_part y.server.cfg.flow_idle) d n h)
              k)
Step-IsConsistent {serves} {y} stop k = record {
  coherent = record {
    some_flow = k.coherent.some_flow;
    sound = k.coherent.sound;
    distinct = k.coherent.distinct;
    gauge = k.coherent.gauge;
  };
  some_client = k.some_client;
  one_each = k.one_each;
  within = k.within;
}

at_start-IsConsistent : (serves : ℕ) (cfg : Config) → IsConsistent serves (at_start cfg)
unfolding new_server defaults
at_start-IsConsistent serves cfg = record {
  coherent = record { some_flow = ground arith; sound = tt; distinct = tt; gauge = refl };
  some_client = ground arith;
  one_each = omega arith;
  within = λ one. omega arith;
}

-- In every state that a new server reaches, under any configuration and any interleaving of the
-- steps of its goroutines, where a call of `handle`, `reapFlows`, `flowReader`'s error path or
-- `client.close` on a client's flows is one step: each client has each connection id once, at most
-- `MaxFlows` flows and no open socket outside its map, and the gauge of flows is the number of open
-- sockets modulo 2 ^ 64. With one `Serve` goroutine there are at most `MaxClients` clients, and one
-- more while the client that it evicts is still registered.
pub Reach-IsConsistent :
    (serves : ℕ) (cfg : Config) {y : Serving}
    → Reach serves (at_start cfg) y
    → IsConsistent serves y
Reach-IsConsistent serves cfg here = at_start-IsConsistent serves cfg
Reach-IsConsistent serves cfg (next r st) = Step-IsConsistent st (Reach-IsConsistent serves cfg r)

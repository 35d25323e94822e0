-- ===== src/Udpgw/Client/Traffic.antt =====
-- Datagrams in both directions keep the invariant of a client.
use ssh_vpn.Common.{
  ℕ, Bytes, Bool, true, false, ◌&&◌, ◌||◌, [], Option, none, some, ℤ, pos, ◌≤ℤ◌, leb_ℤ, length,
  get_elem?, refl, inl, inr, Bool-cases,
}
use ssh_vpn.Udpgw.Proto.{AddrPort, Packet, Result, ok, err, append_frame}
use ssh_vpn.Udpgw.Flow.{Flow, Counters, touch}
use ssh_vpn.Udpgw.Client.{Client, enqueue, reply_from, admit, send, handle, flow_reply}
use ssh_vpn.Udpgw.Client.Owned.{Opens-touch, count_open-touch}
use ssh_vpn.Udpgw.Client.Invariant.{Holds, admit-Holds, keep_flows-Holds}

module _ (limit : ℤ) (others : ℕ) where
  send-Holds :
      (written : Bool) (now : ℕ) (p : Packet) (c : Client) (n : Counters) (o : Option ℕ)
      → Holds limit others c n
      → let r = send written now p c n o in Holds limit others r.0 r.1
  unfolding send
  send-Holds written now p c n none h = h
  send-Holds true now p c n (some i) h =
      keep_flows-Holds limit others c _ n _ refl refl
        (Opens-touch c.objs i now c.flows h.sound.opens) (count_open-touch c.objs i now) refl h
  send-Holds false now p c n (some i) h =
      keep_flows-Holds limit others c _ n _ refl refl
        (Opens-touch c.objs i now c.flows h.sound.opens) (count_open-touch c.objs i now) refl h

  -- `handle` keeps the invariant, whatever packet comes in and however the kernel answers.
  pub handle-Holds :
      (sock : Option ℕ) (written : Bool) (now : ℕ) (dns : Option AddrPort) (p : Packet) (c : Client)
      (n : Counters)
      → pos 1 ≤ℤ limit
      → Holds limit others c n
      → let r = handle limit sock written now dns p c n in Holds limit others r.0 r.1
  unfolding handle
  handle-Holds sock written now dns p c n some_room h =
      let r = admit limit sock now dns p c n in
      send-Holds written now p r.0 r.1 r.2 (admit-Holds limit others sock now dns p c n some_room h)

  enqueue-Holds :
      (queue_len : ℤ) (leave : Bool) (r : Result Bytes) (size : ℕ) (c : Client) (n : Counters)
      → Holds limit others c n
      → let q = enqueue queue_len leave r size c n in Holds limit others q.0 q.1
  unfolding flow_reply
  enqueue-Holds queue_len leave (err e) size c n h =
      keep_flows-Holds limit others c c n _ refl refl h.sound.opens refl refl h
  enqueue-Holds queue_len leave (ok frame) size c n h =
      elim (Bool-cases (c.closed && (leave || leb_ℤ queue_len (pos (length c.out))))) [
        | inl gone ↦ simp gone h
        | inr stays ↦ simp stays (elim (Bool-cases (leb_ℤ queue_len (pos (length c.out)))) [
          | inl full ↦
              simp full (keep_flows-Holds limit others c c n _ refl refl h.sound.opens refl refl h)
          | inr room ↦
              simp room (keep_flows-Holds limit others c _ n _ refl refl h.sound.opens refl refl h)
        ])
      ]

  -- A datagram from the internet keeps the invariant, whether it is queued or dropped.
  pub flow_reply-Holds :
      (queue_len : ℤ) (leave : Bool) (now i : ℕ) (reply : Bytes) (c : Client) (n : Counters)
      → Holds limit others c n
      → let q = flow_reply queue_len leave now i reply c n in Holds limit others q.0 q.1
  unfolding flow_reply
  flow_reply-Holds queue_len leave now i reply c n h = by_flow (get_elem? c.objs i)
    where
      touched : Holds limit others (record c { objs = touch i now c.objs }) n
      touched =
          keep_flows-Holds limit others c _ n n refl refl
            (Opens-touch c.objs i now c.flows h.sound.opens) (count_open-touch c.objs i now) refl h

      by_flow :
          (o : Option Flow)
          → let q = reply_from o queue_len leave now i reply c n in Holds limit others q.0 q.1
      by_flow none = h
      by_flow (some f) =
          enqueue-Holds queue_len leave (append_frame [] 0 f.conid f.orig reply) (length reply)
            (record c { objs = touch i now c.objs }) n touched

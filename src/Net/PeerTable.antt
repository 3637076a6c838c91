-- ===== src/Net/PeerTable.antt =====
-- The table `comm->conn_info.peer` of source/read_thread.cpp.
use aim_to_v.Base.{
  ℕ, ◌≤◌, ◌≡◌, ◌⊎◌, refl, false, ◌==◌, some, List, [], ◌∷◌, length, Option-cases, Bool-cases, inl,
  inr, arith,
}
use aim_to_v.Base.Map.{find, find-insert}
use aim_to_v.Base.Outcome.{done}
use aim_to_v.Net.Peers.{Ipport, PeerInfo, PeerMap, ipport_less, find_peer, put_peer, received}
use aim_to_v.Net.Thread.{Thread, PipeRead, Round, add_connection, count_bytes, rounds, thread_start}
use aim_to_v.Net.Rounds.{Kept, rounds-Kept}
use aim_to_v.Net.Connections.{
  close_connection-ports, flush_queue-ports, read_chunk-ports, count_bytes-ports,
}

-- All connections share one address, and the table of peers has at most the one entry.
record Shared (tIpPort : Ipport) (t : Thread) : Type 0 where
  addresses : (fd : ℕ) (a : Ipport) → find fd t.ports ≡ some a → a ≡ tIpPort
  peers : (t.peer ≡ []) ⊎ ((info : PeerInfo) × (t.peer ≡ (tIpPort, info) ∷ []))

module _ (tIpPort : Ipport) where
  ipport_less_irrefl : ipport_less tIpPort tIpPort ≡ false
  unfolding ipport_less
  ipport_less_irrefl = ground arith

  put_peer-Shared :
      (info : PeerInfo) (m : PeerMap)
      → (m ≡ []) ⊎ ((old : PeerInfo) × (m ≡ (tIpPort, old) ∷ []))
      → put_peer tIpPort info m ≡ (tIpPort, info) ∷ []
  unfolding put_peer
  put_peer-Shared info m (inl e) = ground (arith, e)
  put_peer-Shared info m (inr (old, e)) = ground (arith, e, ipport_less_irrefl)

  same-Shared :
      (t t' : Thread) → t'.ports ≡ t.ports → t'.peer ≡ t.peer → Shared tIpPort t → Shared tIpPort t'
  same-Shared t t' e e1 s = record {
    addresses = λ fd a h. s.addresses fd a (ground (arith, e, h));
    peers = rw e1 s.peers;
  }

  add_connection-Shared :
      (fd : ℕ) (r : PipeRead) (t : Thread)
      → Shared tIpPort t
      → Shared tIpPort (add_connection tIpPort fd r t)
  unfolding add_connection
  add_connection-Shared fd r t s = elim (Bool-cases r.added) [
    | inl e ↦ record {
      addresses = λ conn a h. elim (Bool-cases (conn == fd)) [
        | inl same ↦ ground (arith, find-insert conn fd tIpPort t.ports)
        | inr differs ↦ s.addresses conn a (ground (arith, find-insert conn fd tIpPort t.ports))
      ];
      peers =
          let info : PeerInfo = record {
            fd = fd;
            contime = r.now;
            rcvtime = 0;
            rcvbyte = 0;
            sndtime = 0;
            sndbyte = 0;
          } in
          inr (info, ground (arith, put_peer-Shared info t.peer s.peers));
    }
    | inr e ↦ same-Shared t (add_connection tIpPort fd r t) (ground arith) (ground arith) s
  ]

  count_bytes-Shared :
      (fd now nread : ℕ) (t : Thread)
      → Shared tIpPort t
      → Shared tIpPort (count_bytes fd now nread t)
  unfolding count_bytes
  count_bytes-Shared fd now nread t s = elim (Option-cases (find fd t.ports)) [
    | inl e ↦ same-Shared t (count_bytes fd now nread t) (ground arith) (ground arith) s
    | inr (address, e) ↦ elim (Option-cases (find_peer address t.peer)) [
      | inl e1 ↦ same-Shared t (count_bytes fd now nread t) (ground arith) (ground arith) s
      | inr (info, e1) ↦
          let new : PeerInfo = received now nread info in
          let same : address ≡ tIpPort = s.addresses fd address e in
          let put : (count_bytes fd now nread t).peer ≡ (tIpPort, new) ∷ [] =
            ground (arith, same, put_peer-Shared new t.peer s.peers) in
          record {
            addresses =
                λ conn a h. s.addresses conn a (ground (arith, count_bytes-ports fd now nread t));
            peers = inr (new, put);
          }
    ]
  ]

  Shared-Kept : Kept tIpPort (Shared tIpPort)
  Shared-Kept = record {
    added = add_connection-Shared;
    shut =
        λ conn t t' h s. let (p, q) = close_connection-ports conn t t' h in same-Shared t t' p q s;
    read = λ host conn chunk now t t' h s.
        let (p, q) = read_chunk-ports host conn chunk now t t' h in
        let t1 = count_bytes conn now (length chunk) t in
        same-Shared t1 t' (ground (arith, p, count_bytes-ports conn now (length chunk) t)) q
          (count_bytes-Shared conn now (length chunk) t s);
    flushed = λ fuel now t t' h s.
        let (p, q) = flush_queue-ports fuel now t t' h in same-Shared t t' p q s;
  }

thread_start-Shared : (tIpPort : Ipport) → Shared tIpPort thread_start
unfolding thread_start find
thread_start-Shared tIpPort = record {
  addresses = λ fd a h. absurd (ground arith);
  peers = inl refl;
}

-- From its start on, the thread has after any number of rounds with a defined result at most one
-- entry in its table of peers.
pub rounds_one_peer :
    (tIpPort : Ipport) (rs : List Round) (t : Thread)
    → rounds tIpPort rs thread_start ≡ done t
    → length t.peer ≤ 1
rounds_one_peer tIpPort rs t h =
    let s =
      rounds-Kept tIpPort (Shared tIpPort) (Shared-Kept tIpPort) rs thread_start t h
        (thread_start-Shared tIpPort) in
    ground (arith, s.peers)

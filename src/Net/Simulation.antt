-- ===== src/Net/Simulation.antt =====
-- The thread of source/read_thread.cpp goes only through states that the steps of Run reach.
use aim_to_v.Base.{
  ℕ, zero, suc, ◌≡◌, Bool, true, false, ◌==◌, ltb, some, List, length, drop, leb, ◌+◌, ◌%◌, ◌^◌,
  Option-cases, List-cases, Bool-cases, inl, inr, arith,
}
use aim_to_v.Base.Map.{find}
use aim_to_v.Base.Outcome.{done, Outcome-cases}
use aim_to_v.Wire.Bytes.{Bytes}
use aim_to_v.Wire.Package.{head_length, fill_head}
use aim_to_v.Wire.MsgInfo.{MsgInfo, msg_type_user, msg_type_group, msg_type_all}
use aim_to_v.User.{UserInfo}
use aim_to_v.Net.{NetInfo, func_close}
use aim_to_v.Net.Accounts.{Host}
use aim_to_v.Net.Dispatch.{parse_msg}
use aim_to_v.Net.Receive.{Input, Scan, take_packet, scan_round, scan, settle, started, receive}
use aim_to_v.Net.Deliver.{deliver_group, deliver_all, deliver, deliver_queue}
use aim_to_v.Net.Run.{packet, close, delivery, Reachable, start, next, Reachable-private_never_ends}
use aim_to_v.Net.Peers.{Ipport, find_peer}
use aim_to_v.Net.Thread.{
  Thread, PipeRead, Round, close_connection, add_connection, count_bytes, read_chunk, flush_queue,
  rounds, thread_start,
}
use aim_to_v.Net.Rounds.{Kept, rounds-Kept}

-- Packets.
take_packet-Reachable :
    (host : Host) (fd : ℕ) (s s' : Scan) (more : Bool)
    → take_packet host fd s ≡ some (s', more)
    → Reachable s.input.net
    → Reachable s'.input.net
unfolding take_packet
take_packet-Reachable host fd s s' more h r =
    elim (Option-cases
      (parse_msg host (drop s.read_index s.input.buf) fd s.input.head s.input.net)) [
        | inl e ↦ absurd (ground arith)
        | inr ((n, index), e) ↦
            let there : Reachable n =
              next r (packet host _ fd s.input.head s.input.net n index e) in
            let same : s'.input.net ≡ n = ground arith in rw same there
      ]

scan_round-Reachable :
    (host : Host) (fd : ℕ) (s s' : Scan) (more : Bool)
    → scan_round host fd s ≡ some (s', more)
    → Reachable s.input.net
    → Reachable s'.input.net
unfolding scan_round
scan_round-Reachable host fd s s' more h r =
    let head = (fill_head (some s.input.buf) s.nread s.input.head).0 in
    let s1 : Scan = record s { input = record s.input { head = head } } in
    elim (Bool-cases (leb ((head.sub_pkg_data_length + head_length) % 2 ^ 32) s.nread)) [
      | inl whole ↦ take_packet-Reachable host fd s1 s' more (ground (arith, whole)) r
      | inr part ↦ let same : s'.input.net ≡ s.input.net = ground arith in rw same r
    ]

scan-Reachable :
    (fuel : ℕ) (host : Host) (fd : ℕ) (s s' : Scan)
    → scan fuel host fd s ≡ done s'
    → Reachable s.input.net
    → Reachable s'.input.net
unfolding scan
scan-Reachable zero host fd s s' h r =
    let same : s'.input.net ≡ s.input.net = ground arith in rw same r
scan-Reachable (suc fuel) host fd s s' h r = elim (Bool-cases (ltb head_length s.nread)) [
  | inr short ↦ let same : s'.input.net ≡ s.input.net = ground arith in rw same r
  | inl long ↦ elim (Option-cases (scan_round host fd s)) [
    | inl e ↦ absurd (ground arith)
    | inr ((s1, true), e) ↦
        scan-Reachable fuel host fd s1 s' (ground arith)
          (scan_round-Reachable host fd s s1 true e r)
    | inr ((s1, false), e) ↦
        let same : s'.input.net ≡ s1.input.net = ground arith in
        rw same (scan_round-Reachable host fd s s1 false e r)
  ]
]

receive-Reachable :
    (host : Host) (fd : ℕ) (chunk : Bytes) (input input' : Input)
    → receive host fd chunk input ≡ done input'
    → Reachable input.net
    → Reachable input'.net
unfolding receive settle
receive-Reachable host fd chunk input input' h r =
    elim (Outcome-cases (scan (length chunk) host fd (started chunk input))) [
      | inl (s, e) ↦
          let same : input'.net ≡ s.input.net = ground arith in
          rw same (scan-Reachable (length chunk) host fd (started chunk input) s e r)
      | inr fails ↦ absurd (ground arith)
    ]

-- The queue.
deliver_unpopped :
    (now : ℕ) (msg : MsgInfo) (n n' : NetInfo)
    → deliver now msg n ≡ some (n', false)
    → (msg.msg_type ≡ msg_type_user) × ((u : UserInfo) × (find msg.recv_guid n.users_map ≡ some u))
unfolding deliver
deliver_unpopped now msg n n' h = elim (Bool-cases (msg.msg_type == msg_type_group)) [
  | inl group ↦ elim (Option-cases (deliver_group now msg n)) [
    | inl e ↦ absurd (ground arith)
    | inr (n1, e) ↦ absurd (ground arith)
  ]
  | inr away ↦ elim (Bool-cases (msg.msg_type == msg_type_user)) [
    | inl private ↦ elim (Option-cases (find msg.recv_guid n.users_map)) [
      | inl e ↦ absurd (ground arith)
      | inr (u, e) ↦ (ground (arith, private), (u, e))
    ]
    | inr public ↦ elim (Bool-cases (msg.msg_type == msg_type_all)) [
      | inl everybody ↦ elim (Option-cases (deliver_all msg n.user_conn_map n)) [
        | inl e ↦ absurd (ground arith)
        | inr (n1, e) ↦ absurd (ground arith)
      ]
      | inr unknown ↦ absurd (ground arith)
    ]
  ]
]

deliver_queue-Reachable :
    (fuel now : ℕ) (n n' : NetInfo)
    → deliver_queue fuel now n ≡ done n'
    → Reachable n
    → Reachable n'
unfolding deliver_queue
deliver_queue-Reachable zero now n n' h r = elim (List-cases n.msg_list) [
  | inl e ↦ let same : n' ≡ n = ground arith in rw same r
  | inr (msg, queue, e) ↦ absurd (ground arith)
]
deliver_queue-Reachable (suc fuel) now n n' h r = elim (List-cases n.msg_list) [
  | inl e ↦ let same : n' ≡ n = ground arith in rw same r
  | inr (msg, queue, e) ↦ elim (Option-cases (deliver now msg (record n { msg_list = queue }))) [
    | inl undefined_there ↦ absurd (ground arith)
    | inr ((n1, true), d) ↦
        deliver_queue-Reachable fuel now n1 n' (ground arith)
          (next r (delivery now msg queue n n1 e d))
    | inr ((n1, false), d) ↦
        let (t, (user, u)) = deliver_unpopped now msg (record n { msg_list = queue }) n1 d in
        let stuck = Reachable-private_never_ends n msg queue user (suc fuel) now r e t u in
        absurd (grind (arith, stuck))
  ]
]

flush_queue-Reachable :
    (fuel now : ℕ) (t t' : Thread)
    → flush_queue fuel now t ≡ done t'
    → Reachable t.input.net
    → Reachable t'.input.net
unfolding flush_queue
flush_queue-Reachable fuel now t t' h r =
    elim (Outcome-cases (deliver_queue fuel now t.input.net)) [
      | inl (n, e) ↦
          let same : t'.input.net ≡ n = ground arith in
          rw same (deliver_queue-Reachable fuel now t.input.net n e r)
      | inr fails ↦ absurd (ground arith)
    ]

-- Connections and the pipe.
close_connection-Reachable :
    (fd : ℕ) (t t' : Thread)
    → close_connection fd t ≡ some t'
    → Reachable t.input.net
    → Reachable t'.input.net
unfolding close_connection
close_connection-Reachable fd t t' h r = elim (Option-cases (find fd t.ports)) [
  | inl e ↦
      let same : t'.input.net ≡ func_close fd t.input.net = ground arith in
      rw same (next r (close fd t.input.net))
  | inr (a, e) ↦ absurd (ground arith)
]

add_connection-net :
    (tIpPort : Ipport) (fd : ℕ) (r : PipeRead) (t : Thread)
    → (add_connection tIpPort fd r t).input.net ≡ t.input.net
unfolding add_connection
add_connection-net tIpPort fd r t = ground arith

count_bytes-input : (fd now nread : ℕ) (t : Thread) → (count_bytes fd now nread t).input ≡ t.input
unfolding count_bytes
count_bytes-input fd now nread t = elim (Option-cases (find fd t.ports)) [
  | inl e ↦ ground arith
  | inr (address, e) ↦ elim (Option-cases (find_peer address t.peer)) [
    | inl e1 ↦ ground arith
    | inr (info, e1) ↦ ground arith
  ]
]

read_chunk-Reachable :
    (host : Host) (fd : ℕ) (chunk : Bytes) (now : ℕ) (t t' : Thread)
    → read_chunk host fd chunk now t ≡ done t'
    → Reachable t.input.net
    → Reachable t'.input.net
unfolding read_chunk
read_chunk-Reachable host fd chunk now t t' h r =
    let t1 = count_bytes fd now (length chunk) t in
    let same : t1.input ≡ t.input = count_bytes-input fd now (length chunk) t in
    elim (Outcome-cases (receive host fd chunk t1.input)) [
      | inl (input, e) ↦
          let there : t'.input ≡ input = ground arith in
          let first : Reachable t1.input.net = rw same r in
          rw there (receive-Reachable host fd chunk t1.input input e first)
      | inr fails ↦ absurd (ground arith)
    ]

pub Reachable-Kept : (tIpPort : Ipport) → Kept tIpPort (λ t. Reachable t.input.net)
Reachable-Kept tIpPort = record {
  added = λ fd r t i. rw (add_connection-net tIpPort fd r t) i;
  shut = close_connection-Reachable;
  read = read_chunk-Reachable;
  flushed = flush_queue-Reachable;
}

-- From its start on, the thread has after any number of rounds with a defined result a state
-- that packets, closed connections and delivered messages lead to.
pub rounds-Reachable :
    (tIpPort : Ipport) (rs : List Round) (t : Thread)
    → rounds tIpPort rs thread_start ≡ done t
    → Reachable t.input.net
unfolding thread_start
rounds-Reachable tIpPort rs t h =
    rounds-Kept tIpPort (λ t. Reachable t.input.net) (Reachable-Kept tIpPort) rs thread_start t h
      start

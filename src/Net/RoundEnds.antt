-- ===== src/Net/RoundEnds.antt =====
-- No round of the thread of source/read_thread.cpp goes on without end before the queue.
use aim_to_v.Base.{
  ℕ, zero, suc, ◌+◌, ◌%◌, ◌^◌, ◌<◌, ◌≤◌, ◌≡◌, ◌≢◌, ◌⊎◌, refl, true, false, leb, ltb, ◌==◌, ◌||◌,
  none, some, List, [], ◌∷◌, length, drop, Option, Option-cases, Bool-cases, inl, inr, arith,
}
use aim_to_v.Base.Outcome.{Outcome, done, undefined, out_of_fuel, Outcome-cases}
use aim_to_v.Wire.Bytes.{Bytes}
use aim_to_v.Wire.Package.{head_length, fill_head}
use aim_to_v.Net.Accounts.{Host}
use aim_to_v.Net.Dispatch.{parse_msg}
use aim_to_v.Net.Receive.{Scan, take_packet, scan_round, scan, started, receive}
use aim_to_v.Net.Queue.{AllPublic, deliver_queue_ends}
use aim_to_v.Net.Peers.{Ipport}
use aim_to_v.Net.Thread.{
  Thread, ReadResult, ConnEvent, Round, close_connection, pipe_messages, count_bytes, read_chunk,
  read_connection, conn_event, conn_events, flush_queue, before_queue, round, rounds, thread_start,
  got, failed, outcome, and_then, eagain, eintr,
}
use aim_to_v.Base.Map.{find}
use aim_to_v.Wire.MsgInfo.{MsgInfo, msg_type_user}
use aim_to_v.User.{UserInfo}
use aim_to_v.Net.Run.{Reachable, Reachable-private_never_ends}
use aim_to_v.Net.Simulation.{Reachable-Kept, rounds-Reachable}
use aim_to_v.Net.Rounds.{before_queue-Kept}

-- Each packet takes bytes off what has been read.
take_packet_shrinks :
    (host : Host) (fd : ℕ) (s s' : Scan)
    → 0 < s.nread
    → take_packet host fd s ≡ some (s', true)
    → s'.nread < s.nread
unfolding take_packet
take_packet_shrinks host fd s s' p h =
    elim (Option-cases
      (parse_msg host (drop s.read_index s.input.buf) fd s.input.head s.input.net)) [
        | inl e ↦ absurd (ground arith)
        | inr ((n, index), e) ↦ ground arith
      ]

scan_round_shrinks :
    (host : Host) (fd : ℕ) (s s' : Scan)
    → 0 < s.nread
    → scan_round host fd s ≡ some (s', true)
    → s'.nread < s.nread
unfolding scan_round
scan_round_shrinks host fd s s' p h =
    let head = (fill_head (some s.input.buf) s.nread s.input.head).0 in
    let s1 : Scan = record s { input = record s.input { head = head } } in
    elim (Bool-cases (leb ((head.sub_pkg_data_length + head_length) % 2 ^ 32) s.nread)) [
      | inl whole ↦ take_packet_shrinks host fd s1 s' p (ground (arith, whole))
      | inr part ↦ ground arith
    ]

scan_ends :
    (fuel : ℕ) (host : Host) (fd : ℕ) (s : Scan)
    → s.nread ≤ fuel
    → scan fuel host fd s ≢ out_of_fuel
unfolding scan
scan_ends zero host fd s h e = absurd (ground arith)
scan_ends (suc fuel) host fd s h e = elim (Bool-cases (ltb head_length s.nread)) [
  | inr short ↦ absurd (ground arith)
  | inl long ↦ elim (Option-cases (scan_round host fd s)) [
    | inl e1 ↦ absurd (ground arith)
    | inr ((s1, true), e1) ↦
        let less = scan_round_shrinks host fd s s1 (ground arith) e1 in
        scan_ends fuel host fd s1 (omega (arith, less)) (ground arith)
    | inr ((s1, false), e1) ↦ absurd (ground arith)
  ]
]

read_chunk_ends :
    (host : Host) (fd : ℕ) (chunk : Bytes) (now : ℕ) (t : Thread)
    → read_chunk host fd chunk now t ≢ out_of_fuel
unfolding read_chunk receive
read_chunk_ends host fd chunk now t e =
    let t1 = count_bytes fd now (length chunk) t in
    elim (Outcome-cases (scan (length chunk) host fd (started chunk t1.input))) [
      | inl (s, e1) ↦ absurd (ground arith)
      | inr (inl e1) ↦ absurd (ground arith)
      | inr (inr e1) ↦ scan_ends (length chunk) host fd (started chunk t1.input) (omega arith) e1
    ]

outcome_ends : (o : Option Thread) → outcome o ≢ out_of_fuel
outcome_ends none e = absurd (ground arith)
outcome_ends (some t) e = absurd (ground arith)

and_then_ends :
    (o : Outcome Thread) (k : Thread → Outcome Thread)
    → o ≢ out_of_fuel
    → ((t : Thread) → k t ≢ out_of_fuel)
    → and_then o k ≢ out_of_fuel
and_then_ends (done t) k a b e = b t e
and_then_ends undefined k a b e = absurd (ground arith)
and_then_ends out_of_fuel k a b e = a refl

read_connection_ends :
    (host : Host) (fd : ℕ) (rs : List ReadResult) (t : Thread)
    → read_connection host fd rs t ≢ out_of_fuel
unfolding read_connection
read_connection_ends host fd [] t e = absurd (ground arith)
read_connection_ends host fd (got chunk now ∷ rs) t e = elim (Bool-cases (length chunk == 0)) [
  | inl over ↦ outcome_ends (close_connection fd t) (ground (arith, e))
  | inr more ↦
      and_then_ends (read_chunk host fd chunk now t) (read_connection host fd rs)
        (read_chunk_ends host fd chunk now t) (read_connection_ends host fd rs) (ground (arith, e))
]
read_connection_ends host fd (failed errno ∷ rs) t e = elim (Bool-cases (errno == eagain)) [
  | inl nothing_left ↦ absurd (ground arith)
  | inr e1 ↦ elim (Bool-cases (errno == eintr)) [
    | inl interrupted ↦ read_connection_ends host fd rs t (ground (arith, e))
    | inr e2 ↦ outcome_ends (close_connection fd t) (ground (arith, e))
  ]
]

conn_event_ends : (host : Host) (ev : ConnEvent) (t : Thread) → conn_event host ev t ≢ out_of_fuel
unfolding conn_event
conn_event_ends host ev t e = elim (Bool-cases ev.epollin) [
  | inl reads ↦ read_connection_ends host ev.fd ev.reads t (ground (arith, e))
  | inr e1 ↦ elim (Bool-cases ev.epollout) [
    | inl writes ↦ absurd (ground arith)
    | inr e2 ↦ elim (Bool-cases (ev.epollerr || ev.epollhup)) [
      | inl hangs ↦ outcome_ends (close_connection ev.fd t) (ground (arith, e))
      | inr e3 ↦ absurd (ground arith)
    ]
  ]
]

conn_events_ends :
    (host : Host) (es : List ConnEvent) (t : Thread) → conn_events host es t ≢ out_of_fuel
unfolding conn_events
conn_events_ends host [] t e = absurd (ground arith)
conn_events_ends host (ev ∷ es) t e =
    and_then_ends (conn_event host ev t) (conn_events host es) (conn_event_ends host ev t)
      (conn_events_ends host es) e

before_queue_ends :
    (tIpPort : Ipport) (r : Round) (t : Thread) → before_queue tIpPort r t ≢ out_of_fuel
unfolding before_queue
before_queue_ends tIpPort r t =
    and_then_ends (outcome (pipe_messages tIpPort r.pipe t)) (conn_events r.host r.events)
      (outcome_ends (pipe_messages tIpPort r.pipe t)) (conn_events_ends r.host r.events)

flush_queue_ends :
    (fuel now : ℕ) (t : Thread)
    → AllPublic t.input.net.msg_list
    → length t.input.net.msg_list ≤ fuel
    → (flush_queue fuel now t ≡ undefined)
      ⊎ ((t' : Thread) × (flush_queue fuel now t ≡ done t') × (t'.input.net.msg_list ≡ []))
unfolding flush_queue
flush_queue_ends fuel now t p h = elim (deliver_queue_ends fuel now t.input.net p h) [
  | inl e ↦ inl (ground (arith, e))
  | inr (n, e, q) ↦ inr (record t { input = record t.input { net = n } }, ground (arith, e), q)
]

-- A round of the thread in any state ends with an empty queue, or is undefined, where the queue
-- that the messages of the pipe and the events leave has no private message and no more messages
-- than the bound on its loop.
pub round_ends :
    (tIpPort : Ipport) (r : Round) (t : Thread)
    → ((t1 : Thread)
        → before_queue tIpPort r t ≡ done t1
        → AllPublic t1.input.net.msg_list × (length t1.input.net.msg_list ≤ r.fuel))
    → (round tIpPort r t ≡ undefined)
      ⊎ ((t' : Thread) × (round tIpPort r t ≡ done t') × (t'.input.net.msg_list ≡ []))
unfolding round before_queue
round_ends tIpPort r t public = elim (Outcome-cases (before_queue tIpPort r t)) [
  | inl (t1, e) ↦
      let (p, h) = public t1 e in
      elim (flush_queue_ends r.fuel r.now t1 p h) [
        | inl fails ↦ inl (ground (arith, e, fails))
        | inr (t', e1, q) ↦ inr (t', ground (arith, e, e1), q)
      ]
  | inr (inl e) ↦ inl (ground (arith, e))
  | inr (inr e) ↦ absurd (before_queue_ends tIpPort r t e)
]

-- After any number of rounds from the start with a defined result, a round in which the pipe and
-- the events leave a private message to a user who exists at the front of the queue does not
-- end, whatever the bound on the loop over the queue.
pub round_never_ends :
    (tIpPort : Ipport) (rs : List Round) (r : Round) (t t1 : Thread) (msg : MsgInfo)
    (queue : List MsgInfo) (user : UserInfo)
    → rounds tIpPort rs thread_start ≡ done t
    → before_queue tIpPort r t ≡ done t1
    → t1.input.net.msg_list ≡ msg ∷ queue
    → msg.msg_type ≡ msg_type_user
    → find msg.recv_guid t1.input.net.users_map ≡ some user
    → round tIpPort r t ≡ out_of_fuel
unfolding round flush_queue
round_never_ends tIpPort rs r t t1 msg queue user h h1 q p u =
    let reached =
      before_queue-Kept tIpPort (λ (t2 : Thread). Reachable t2.input.net) (Reachable-Kept tIpPort) r
        t t1 h1 (rounds-Reachable tIpPort rs t h) in
    let stuck =
      Reachable-private_never_ends t1.input.net msg queue user r.fuel r.now reached q p u in
    ground (arith, h1, stuck)

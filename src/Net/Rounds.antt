-- ===== src/Net/Rounds.antt =====
-- What holds in all rounds of the thread of source/read_thread.cpp, when its four kinds of change
-- keep it.
use aim_to_v.Base.{
  ℕ, ◌≡◌, refl, Option, ◌==◌, ◌&&◌, ◌||◌, not, ltb, ◌^◌, none, some, List, [], ◌∷◌, length,
  Option-cases, Bool-cases, inl, inr, arith,
}
use aim_to_v.Base.Outcome.{Outcome, done, undefined, out_of_fuel}
use aim_to_v.Wire.Bytes.{Bytes}
use aim_to_v.Pipe.{from_pipe}
use aim_to_v.Net.Accounts.{Host}
use aim_to_v.Net.Peers.{Ipport}
use aim_to_v.Net.Thread.{
  Thread, PipeRead, ReadResult, ConnEvent, Round, close_connection, add_connection, pipe_message,
  pipe_messages, read_chunk, read_connection, conn_event, conn_events, flush_queue, before_queue,
  round, rounds, got, failed, outcome, and_then, eagain, eintr,
}

-- A property of the thread's state that each change keeps.
pub record Kept (tIpPort : Ipport) (I : Thread → Type 0) : Type 0 where
  pub added : (fd : ℕ) (r : PipeRead) (t : Thread) → I t → I (add_connection tIpPort fd r t)
  pub shut : (fd : ℕ) (t t' : Thread) → close_connection fd t ≡ some t' → I t → I t'
  pub read :
      (host : Host) (fd : ℕ) (chunk : Bytes) (now : ℕ) (t t' : Thread)
      → read_chunk host fd chunk now t ≡ done t'
      → I t
      → I t'
  pub flushed : (fuel now : ℕ) (t t' : Thread) → flush_queue fuel now t ≡ done t' → I t → I t'

pub and_then-done :
    (o : Outcome Thread) (k : Thread → Outcome Thread) (t : Thread)
    → and_then o k ≡ done t
    → (t1 : Thread) × ((o ≡ done t1) × (k t1 ≡ done t))
and_then-done (done t1) k t h = (t1, (refl, h))
and_then-done undefined k t h = absurd (ground arith)
and_then-done out_of_fuel k t h = absurd (ground arith)

outcome-done : (o : Option Thread) (t : Thread) → outcome o ≡ done t → o ≡ some t
outcome-done none t h = absurd (ground arith)
outcome-done (some s) t h = ground (arith, h)

module _ (tIpPort : Ipport) (I : Thread → Type 0) (kept : Kept tIpPort I) where
  pipe_message-Kept :
      (r : PipeRead) (t t' : Thread) → pipe_message tIpPort r t ≡ some t' → I t → I t'
  unfolding pipe_message
  pipe_message-Kept r t t' h i =
      let msg = from_pipe r.bytes in
      elim (Bool-cases (length r.bytes == 14 && (not (msg.fd == 0) && ltb msg.fd (2 ^ 31)))) [
        | inl whole ↦ elim (Bool-cases (msg.op == 1)) [
          | inl connects ↦
              let same : t' ≡ add_connection tIpPort msg.fd r t = ground arith in
              rw same (kept.added msg.fd r t i)
          | inr e ↦ elim (Bool-cases (msg.op == 2)) [
            | inl leaves ↦ kept.shut msg.fd t t' (ground arith) i
            | inr e2 ↦ let same : t' ≡ t = ground arith in rw same i
          ]
        ]
        | inr part ↦ let same : t' ≡ t = ground arith in rw same i
      ]

  pipe_messages-Kept :
      (rs : List PipeRead) (t t' : Thread) → pipe_messages tIpPort rs t ≡ some t' → I t → I t'
  unfolding pipe_messages
  pipe_messages-Kept [] t t' h i = let same : t' ≡ t = ground arith in rw same i
  pipe_messages-Kept (r ∷ rs) t t' h i = elim (Bool-cases (length r.bytes == 0)) [
    | inl e ↦ let same : t' ≡ t = ground arith in rw same i
    | inr e ↦ elim (Option-cases (pipe_message tIpPort r t)) [
      | inl fails ↦ absurd (ground arith)
      | inr (t1, e1) ↦ pipe_messages-Kept rs t1 t' (ground arith) (pipe_message-Kept r t t1 e1 i)
    ]
  ]

  read_connection-Kept :
      (host : Host) (fd : ℕ) (rs : List ReadResult) (t t' : Thread)
      → read_connection host fd rs t ≡ done t'
      → I t
      → I t'
  unfolding read_connection
  read_connection-Kept host fd [] t t' h i = let same : t' ≡ t = ground arith in rw same i
  read_connection-Kept host fd (got chunk now ∷ rs) t t' h i =
      elim (Bool-cases (length chunk == 0)) [
        | inl e ↦ kept.shut fd t t' (outcome-done (close_connection fd t) t' (ground arith)) i
        | inr e ↦
            let (t1, (h1, h2)) =
              and_then-done (read_chunk host fd chunk now t) (read_connection host fd rs) t'
                (ground arith) in
            read_connection-Kept host fd rs t1 t' h2 (kept.read host fd chunk now t t1 h1 i)
      ]
  read_connection-Kept host fd (failed errno ∷ rs) t t' h i = elim (Bool-cases (errno == eagain)) [
    | inl e ↦ let same : t' ≡ t = ground arith in rw same i
    | inr e ↦ elim (Bool-cases (errno == eintr)) [
      | inl e1 ↦ read_connection-Kept host fd rs t t' (ground arith) i
      | inr e1 ↦ kept.shut fd t t' (outcome-done (close_connection fd t) t' (ground arith)) i
    ]
  ]

  conn_event-Kept :
      (host : Host) (e : ConnEvent) (t t' : Thread) → conn_event host e t ≡ done t' → I t → I t'
  unfolding conn_event
  conn_event-Kept host e t t' h i = elim (Bool-cases e.epollin) [
    | inl reads ↦ read_connection-Kept host e.fd e.reads t t' (ground arith) i
    | inr e1 ↦ elim (Bool-cases e.epollout) [
      | inl writes ↦ let same : t' ≡ t = ground arith in rw same i
      | inr e2 ↦ elim (Bool-cases (e.epollerr || e.epollhup)) [
        | inl hangs ↦
            kept.shut e.fd t t' (outcome-done (close_connection e.fd t) t' (ground arith)) i
        | inr e3 ↦ let same : t' ≡ t = ground arith in rw same i
      ]
    ]
  ]

  conn_events-Kept :
      (host : Host) (es : List ConnEvent) (t t' : Thread)
      → conn_events host es t ≡ done t'
      → I t
      → I t'
  unfolding conn_events
  conn_events-Kept host [] t t' h i = let same : t' ≡ t = ground arith in rw same i
  conn_events-Kept host (e ∷ es) t t' h i =
      let (t1, (h1, h2)) = and_then-done (conn_event host e t) (conn_events host es) t' h in
      conn_events-Kept host es t1 t' h2 (conn_event-Kept host e t t1 h1 i)

  pub before_queue-Kept :
      (r : Round) (t t' : Thread) → before_queue tIpPort r t ≡ done t' → I t → I t'
  unfolding before_queue
  before_queue-Kept r t t' h i =
      let (t1, (h1, h2)) =
        and_then-done (outcome (pipe_messages tIpPort r.pipe t)) (conn_events r.host r.events) t'
          h in
      conn_events-Kept r.host r.events t1 t' h2
        (pipe_messages-Kept r.pipe t t1 (outcome-done (pipe_messages tIpPort r.pipe t) t1 h1) i)

  pub round-Kept : (r : Round) (t t' : Thread) → round tIpPort r t ≡ done t' → I t → I t'
  unfolding round
  round-Kept r t t' h i =
      let (t1, (h1, h2)) =
        and_then-done (before_queue tIpPort r t) (flush_queue r.fuel r.now) t' h in
      kept.flushed r.fuel r.now t1 t' h2 (before_queue-Kept r t t1 h1 i)

  pub rounds-Kept : (rs : List Round) (t t' : Thread) → rounds tIpPort rs t ≡ done t' → I t → I t'
  unfolding rounds
  rounds-Kept [] t t' h i = let same : t' ≡ t = ground arith in rw same i
  rounds-Kept (r ∷ rs) t t' h i =
      let (t1, (h1, h2)) = and_then-done (round tIpPort r t) (rounds tIpPort rs) t' h in
      rounds-Kept rs t1 t' h2 (round-Kept r t t1 h1 i)

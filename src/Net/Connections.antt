-- ===== src/Net/Connections.antt =====
-- The tables of connections of the thread of source/read_thread.cpp: `mIpPort` and
-- `comm->conn_info.peer`.
use aim_to_v.Base.{
  ℕ, ◌^◌, ◌<◌, ◌≡◌, Bool, true, false, ◌||◌, ◌==◌, some, List, [], ◌∷◌, length, Option-cases,
  Bool-cases, inl, inr, if◌then◌else◌, arith,
}
use aim_to_v.Base.Map.{Map, find, find-insert}
use aim_to_v.Base.Outcome.{done, undefined, Outcome-cases}
use aim_to_v.Wire.Bytes.{Bytes}
use aim_to_v.Pipe.{PipeFits, to_pipe, from_pipe-to_pipe, length-to_pipe}
use aim_to_v.Accept.{message}
use aim_to_v.Net.Accounts.{Host}
use aim_to_v.Net.Receive.{receive}
use aim_to_v.Net.Deliver.{deliver_queue}
use aim_to_v.Net.Peers.{Ipport, find_peer}
use aim_to_v.Net.Thread.{
  Thread, PipeRead, ReadResult, got, ConnEvent, Round, close_connection, add_connection,
  pipe_message, count_bytes, read_chunk, conn_event, read_connection, flush_queue, rounds,
  close_ports,
}
use aim_to_v.Net.Rounds.{Kept, rounds-Kept}

-- Only new connections and bytes that have come change the tables.
pub close_connection-ports :
    (fd : ℕ) (t t' : Thread)
    → close_connection fd t ≡ some t'
    → (t'.ports ≡ t.ports) × (t'.peer ≡ t.peer)
unfolding close_connection
close_connection-ports fd t t' h = elim (Option-cases (find fd t.ports)) [
  | inl e ↦ (ground arith, ground arith)
  | inr (a, e) ↦ absurd (ground arith)
]

pub flush_queue-ports :
    (fuel now : ℕ) (t t' : Thread)
    → flush_queue fuel now t ≡ done t'
    → (t'.ports ≡ t.ports) × (t'.peer ≡ t.peer)
unfolding flush_queue
flush_queue-ports fuel now t t' h = elim (Outcome-cases (deliver_queue fuel now t.input.net)) [
  | inl (n, e) ↦ (ground arith, ground arith)
  | inr fails ↦ absurd (ground arith)
]

pub count_bytes-ports :
    (fd now nread : ℕ) (t : Thread) → (count_bytes fd now nread t).ports ≡ t.ports
unfolding count_bytes
count_bytes-ports fd now nread t = elim (Option-cases (find fd t.ports)) [
  | inl e ↦ ground arith
  | inr (address, e) ↦ elim (Option-cases (find_peer address t.peer)) [
    | inl e1 ↦ ground arith
    | inr (info, e1) ↦ ground arith
  ]
]

pub read_chunk-ports :
    (host : Host) (fd : ℕ) (chunk : Bytes) (now : ℕ) (t t' : Thread)
    → read_chunk host fd chunk now t ≡ done t'
    → (t'.ports ≡ t.ports) × (t'.peer ≡ (count_bytes fd now (length chunk) t).peer)
unfolding read_chunk
read_chunk-ports host fd chunk now t t' h =
    let t1 = count_bytes fd now (length chunk) t in
    elim (Outcome-cases (receive host fd chunk t1.input)) [
      | inl (input, e) ↦ (ground (arith, count_bytes-ports fd now (length chunk) t), ground arith)
      | inr fails ↦ absurd (ground arith)
    ]

-- A connection that is in the table stays there.
abbrev pub IsOpen : ℕ → Thread → Type 0
IsOpen fd t = (address : Ipport) × (find fd t.ports ≡ some address)

add_connection-IsOpen :
    (tIpPort : Ipport) (fd conn : ℕ) (r : PipeRead) (t : Thread)
    → IsOpen fd t
    → IsOpen fd (add_connection tIpPort conn r t)
unfolding add_connection
add_connection-IsOpen tIpPort fd conn r t (a, o) = elim (Bool-cases r.added) [
  | inl e ↦ elim (Bool-cases (fd == conn)) [
    | inl same ↦ (tIpPort, ground (arith, find-insert fd conn tIpPort t.ports))
    | inr differs ↦ (a, ground (arith, find-insert fd conn tIpPort t.ports))
  ]
  | inr e ↦ (a, ground arith)
]

IsOpen-Kept : (tIpPort : Ipport) (fd : ℕ) → Kept tIpPort (IsOpen fd)
IsOpen-Kept tIpPort fd = record {
  added = λ conn r t i. add_connection-IsOpen tIpPort fd conn r t i;
  shut = λ conn t t' h (a, o). (a, rw (close_connection-ports conn t t' h).0 o);
  read = λ host conn chunk now t t' h (a, o).
      (a, rw (read_chunk-ports host conn chunk now t t' h).0 o);
  flushed = λ fuel now t t' h (a, o). (a, rw (flush_queue-ports fuel now t t' h).0 o);
}

abbrev pub is_in : ℕ → List ℕ → Bool
is_in fd [] = false
is_in fd (x ∷ fds) = fd == x || is_in fd fds

close_ports_keeps :
    (fd : ℕ) (ports : Map Ipport) (fds : List ℕ)
    → is_in fd fds ≡ true
    → is_in fd (close_ports ports fds) ≡ true
unfolding close_ports
close_ports_keeps fd [] fds h = h
close_ports_keeps fd ((conn, a) ∷ ports) fds h =
    close_ports_keeps fd ports (if conn == 0 then fds else conn ∷ fds) (ground (arith, h))

close_ports-is_in :
    (fd : ℕ) (ports : Map Ipport) (fds : List ℕ) (a : Ipport)
    → 0 < fd
    → find fd ports ≡ some a
    → is_in fd (close_ports ports fds) ≡ true
unfolding close_ports find
close_ports-is_in fd [] fds a p h = absurd (ground arith)
close_ports-is_in fd ((conn, b) ∷ ports) fds a p h = elim (Bool-cases (fd == conn)) [
  | inl same ↦ close_ports_keeps fd ports (if conn == 0 then fds else conn ∷ fds) (ground arith)
  | inr differs ↦
      close_ports-is_in fd ports (if conn == 0 then fds else conn ∷ fds) a p (ground arith)
]

module _ (tIpPort : Ipport) (r : PipeRead) (fd ip port : ℕ) (t t1 : Thread)
    (announced : r.bytes ≡ to_pipe (message fd ip port)) (fits : PipeFits (message fd ip port))
    (positive : 0 < fd) (signed : fd < 2 ^ 31) (registered : r.added ≡ true)
    (taken : pipe_message tIpPort r t ≡ some t1) where
  announced_opens : IsOpen fd t1
  unfolding pipe_message add_connection
  announced_opens =
      let msg = from_pipe-to_pipe (message fd ip port) fits in
      let size = length-to_pipe (message fd ip port) in
      (tIpPort, ground (arith, msg, size, find-insert fd fd tIpPort t.ports))

  announced_stays-IsOpen :
      (rs : List Round) (t2 : Thread) → rounds tIpPort rs t1 ≡ done t2 → IsOpen fd t2
  announced_stays-IsOpen rs t2 h =
      rounds-Kept tIpPort (IsOpen fd) (IsOpen-Kept tIpPort fd) rs t1 t2 h announced_opens

  -- A connection with a descriptor above 0 and below 2 ^ 31 that comes through the pipe in the
  -- message that the accepting thread writes for it, and that epoll takes, is among the
  -- descriptors closed when the thread ends, however many rounds with a defined result come
  -- between.
  pub announced_is_closed_at_end :
      (rs : List Round) (t2 : Thread)
      → rounds tIpPort rs t1 ≡ done t2
      → is_in fd (close_ports t2.ports t2.closed) ≡ true
  announced_is_closed_at_end rs t2 h =
      let (a, o) = announced_stays-IsOpen rs t2 h in
      close_ports-is_in fd t2.ports t2.closed a positive o

  -- For a connection with a descriptor above 0 and below 2 ^ 31 that has come through the pipe
  -- in the message of the accepting thread and that epoll has taken, the read that finds its end
  -- has no defined result, however many rounds with a defined result come between.
  pub announced_end_undefined :
      (rs : List Round) (t2 : Thread) (host : Host) (e : ConnEvent) (now : ℕ)
      (more : List ReadResult)
      → rounds tIpPort rs t1 ≡ done t2
      → e.fd ≡ fd
      → e.epollin ≡ true
      → e.reads ≡ got [] now ∷ more
      → conn_event host e t2 ≡ undefined
  unfolding conn_event read_connection close_connection
  announced_end_undefined rs t2 host e now more h same_fd readable ended =
      let (a, o) = announced_stays-IsOpen rs t2 h in ground (arith, o, same_fd, readable, ended)

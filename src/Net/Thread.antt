-- ===== src/Net/Thread.antt =====
-- `common::read_thread` as a whole (source/read_thread.cpp): the messages of the pipe, the events of
-- the connections and the queue, round after round.
use aim_to_v.Base.{
  ℕ, ◌^◌, Bool, not, ◌&&◌, ◌||◌, ltb, ◌==◌, if◌then◌else◌, Option, none, some, List, [], ◌∷◌,
  length, replicate,
}
use aim_to_v.Base.Map.{Map, find, insert}
use aim_to_v.Base.Outcome.{Outcome, done, undefined, out_of_fuel}
use aim_to_v.Wire.Bytes.{Bytes}
use aim_to_v.Pipe.{from_pipe}
use aim_to_v.Wire.Package.{new_pkg}
use aim_to_v.Net.{max_buf_size, net_init, func_close}
use aim_to_v.Net.Accounts.{Host}
use aim_to_v.Net.Receive.{Input, receive}
use aim_to_v.Net.Deliver.{deliver_queue}
use aim_to_v.Net.Peers.{Ipport, PeerMap, find_peer, put_peer, received}

-- The locals of the thread, `comm->conn_info.peer`, and the descriptors that it has closed, the last
-- one first.
pub record Thread : Type 0 where
  pub input : Input
  pub ports : Map Ipport
  pub peer : PeerMap
  pub closed : List ℕ

-- `func_close`. After `mIpPort.erase(itIpPort)` the source reads `itIpPort->second`: `none`.
unfoldable pub close_connection : ℕ → Thread → Option Thread
close_connection fd t = elim (find fd t.ports) [
  | some address ↦ none
  | none ↦ some (record t {
    input = record t.input { net = func_close fd t.input.net };
    closed = fd ∷ t.closed;
  })
]

-- What one `read` of the pipe gives, whether `epoll_ctl` adds the descriptor, and the time. Where
-- `setnonblocking` fails it ends the process.
pub record PipeRead : Type 0 where
  pub bytes : Bytes
  pub added : Bool
  pub now : ℕ

-- A new connection. `tIpPort` is the thread's local, which nothing sets.
unfoldable pub add_connection : Ipport → ℕ → PipeRead → Thread → Thread
add_connection tIpPort fd r t =
    if r.added
    then record t {
      ports = insert fd tIpPort t.ports;
      peer =
          put_peer tIpPort
            (record {
              fd = fd;
              contime = r.now;
              rcvtime = 0;
              rcvbyte = 0;
              sndtime = 0;
              sndbyte = 0;
            })
            t.peer;
    }
    else record t { closed = fd ∷ t.closed }

unfoldable pub pipe_message : Ipport → PipeRead → Thread → Option Thread
pipe_message tIpPort r t =
    let msg = from_pipe r.bytes in
    if length r.bytes == 14 && (not (msg.fd == 0) && ltb msg.fd (2 ^ 31))
    then if msg.op == 1
      then some (add_connection tIpPort msg.fd r t)
      else if msg.op == 2
      then close_connection msg.fd t
      else some t
    else some t

-- The loop over the pipe: a read without a byte ends it. The list ends where `comm->running` goes
-- off.
unfoldable pub pipe_messages : Ipport → List PipeRead → Thread → Option Thread
pipe_messages tIpPort [] t = some t
pipe_messages tIpPort (r ∷ rs) t =
    if length r.bytes == 0
    then some t
    else elim (pipe_message tIpPort r t) [ none ↦ none | some t' ↦ pipe_messages tIpPort rs t' ]

-- One `read` of a connection: the bytes, of which none are the end of the connection, or a failure
-- with its `errno`; and the time.
pub data ReadResult : Type 0 where
  got : Bytes → ℕ → ReadResult
  failed : ℕ → ReadResult

abbrev pub eagain : ℕ
eagain = 11

abbrev pub eintr : ℕ
eintr = 4

unfoldable pub count_bytes : ℕ → ℕ → ℕ → Thread → Thread
count_bytes fd now nread t = elim (find fd t.ports) [
  | none ↦ t
  | some address ↦ elim (find_peer address t.peer) [
    | none ↦ t
    | some info ↦ record t { peer = put_peer address (received now nread info) t.peer }
  ]
]

abbrev pub outcome {ℓ} : {S : Type ℓ} → Option S → Outcome S
outcome none = undefined
outcome (some s) = done s

abbrev pub and_then : Outcome Thread → (Thread → Outcome Thread) → Outcome Thread
and_then (done t) k = k t
and_then undefined k = undefined
and_then out_of_fuel k = out_of_fuel

-- Bytes that have come.
unfoldable pub read_chunk : Host → ℕ → Bytes → ℕ → Thread → Outcome Thread
read_chunk host fd chunk now t =
    let t' = count_bytes fd now (length chunk) t in
    elim (receive host fd chunk t'.input) [
      | done input ↦ done (record t' { input = input })
      | undefined ↦ undefined
      | out_of_fuel ↦ out_of_fuel
    ]

-- The loop over one readable connection. The list ends where `comm->running` goes off.
unfoldable pub read_connection : Host → ℕ → List ReadResult → Thread → Outcome Thread
read_connection host fd [] t = done t
read_connection host fd (got chunk now ∷ rs) t =
    if length chunk == 0
    then outcome (close_connection fd t)
    else and_then (read_chunk host fd chunk now t) (read_connection host fd rs)
read_connection host fd (failed errno ∷ rs) t =
    if errno == eagain
    then done t
    else if errno == eintr
    then read_connection host fd rs t
    else outcome (close_connection fd t)

-- An event of `epoll_wait`, with what the reads of it give.
pub record ConnEvent : Type 0 where
  pub fd : ℕ
  pub epollin : Bool
  pub epollout : Bool
  pub epollerr : Bool
  pub epollhup : Bool
  pub reads : List ReadResult

-- A writable connection is only registered again.
unfoldable pub conn_event : Host → ConnEvent → Thread → Outcome Thread
conn_event host e t =
    if e.epollin
    then read_connection host e.fd e.reads t
    else if e.epollout
    then done t
    else if e.epollerr || e.epollhup
    then outcome (close_connection e.fd t)
    else done t

unfoldable pub conn_events : Host → List ConnEvent → Thread → Outcome Thread
conn_events host [] t = done t
conn_events host (e ∷ es) t = and_then (conn_event host e t) (conn_events host es)

-- What the system gives the thread in one round, and how long the loop over the queue may take.
pub record Round : Type 0 where
  pub host : Host
  pub pipe : List PipeRead
  pub events : List ConnEvent
  pub now : ℕ
  pub fuel : ℕ

unfoldable pub flush_queue : ℕ → ℕ → Thread → Outcome Thread
flush_queue fuel now t = elim (deliver_queue fuel now t.input.net) [
  | done net ↦ done (record t { input = record t.input { net = net } })
  | undefined ↦ undefined
  | out_of_fuel ↦ out_of_fuel
]

-- A round up to the queue.
unfoldable pub before_queue : Ipport → Round → Thread → Outcome Thread
before_queue tIpPort r t =
    and_then (outcome (pipe_messages tIpPort r.pipe t)) (conn_events r.host r.events)

unfoldable pub round : Ipport → Round → Thread → Outcome Thread
round tIpPort r t = and_then (before_queue tIpPort r t) (flush_queue r.fuel r.now)

-- `while (comm->running)`
unfoldable pub rounds : Ipport → List Round → Thread → Outcome Thread
rounds tIpPort [] t = done t
rounds tIpPort (r ∷ rs) t = and_then (round tIpPort r t) (rounds tIpPort rs)

-- What the thread starts with: the buffer is zeros.
unfoldable pub thread_start : Thread
thread_start = record {
  input = record {
    buf = replicate max_buf_size 0;
    buf_index = 0;
    head = new_pkg 0 20092;
    net = net_init;
  };
  ports = [];
  peer = [];
  closed = [];
}

-- `for (itIpPort = mIpPort.begin(); ...) if (itIpPort->first > 0) close(itIpPort->first);`
unfoldable pub close_ports : Map Ipport → List ℕ → List ℕ
close_ports [] fds = fds
close_ports ((fd, address) ∷ rest) fds = close_ports rest (if fd == 0 then fds else fd ∷ fds)

-- The thread from its argument and its `epoll_create` on, which may each be missing: the connections
-- that it has closed in the end.
unfoldable pub read_thread : Bool → Bool → Ipport → List Round → Outcome (List ℕ)
read_thread has_arg has_epoll tIpPort rs =
    if not has_arg || not has_epoll then done [] else elim (rounds tIpPort rs thread_start) [
      | done t ↦ done (close_ports t.ports t.closed)
      | undefined ↦ undefined
      | out_of_fuel ↦ out_of_fuel
    ]

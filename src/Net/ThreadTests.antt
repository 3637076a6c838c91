-- ===== src/Net/ThreadTests.antt =====
-- Rounds of the thread of source/read_thread.cpp: a connection comes through the pipe, and then there
-- is nothing to read on it.
use aim_to_v.Base.{◌⊎◌, ◌≡◌, ◌≤◌, refl, true, false, [], ◌∷◌, length, some, arith}
use aim_to_v.Base.Outcome.{done, undefined}
use aim_to_v.Wire.Bytes.{Bytes}
use aim_to_v.Pipe.{PipeFits, to_pipe}
use aim_to_v.Accept.{message}
use aim_to_v.Net.Accounts.{Host}
use aim_to_v.Net.Peers.{Ipport}
use aim_to_v.Net.Thread.{
  before_queue, round, Thread, PipeRead, ConnEvent, Round, failed, got, add_connection,
  pipe_message, round, rounds, thread_start, close_ports, conn_event,
}
use aim_to_v.Net.Connections.{is_in, announced_is_closed_at_end, announced_end_undefined}
use aim_to_v.Net.PeerTable.{rounds_one_peer}
use aim_to_v.Net.Queue.{AllPublic}
use aim_to_v.Net.RoundEnds.{round_ends}

abbrev host : Host
host = record { hash = λ bs. 0; beyond = []; now = 7 }

abbrev address : Ipport
address = record { ip = 0; port = 0 }

abbrev arrival : PipeRead
arrival = record { bytes = to_pipe (message 5 1 2); added = true; now = 7 }

abbrev quiet : ConnEvent
quiet = record {
  fd = 5;
  epollin = true;
  epollout = false;
  epollerr = false;
  epollhup = false;
  reads = failed 11 ∷ [];
}

abbrev leaving : ConnEvent
leaving = record quiet { reads = got [] 8 ∷ [] }

abbrev connecting : Round
connecting = record { host = host; pipe = arrival ∷ []; events = []; now = 7; fuel = 1 }

abbrev waiting : Round
waiting = record { host = host; pipe = []; events = quiet ∷ []; now = 8; fuel = 1 }

abbrev connected : Thread
connected = add_connection address 5 arrival thread_start

rounds_end : rounds address (connecting ∷ waiting ∷ []) thread_start ≡ done connected
unfolding rounds aim_to_v.Net.Thread.round aim_to_v.Net.Thread.before_queue
    aim_to_v.Net.Thread.pipe_messages to_pipe aim_to_v.Wire.Bytes.le_bytes pipe_message
    aim_to_v.Pipe.from_pipe aim_to_v.Pipe.pipe_read aim_to_v.Wire.Bytes.get_num
    aim_to_v.Wire.Bytes.le_value aim_to_v.Net.Thread.conn_events aim_to_v.Net.Thread.flush_queue
    aim_to_v.Net.Deliver.deliver_queue add_connection thread_start aim_to_v.Net.net_init conn_event
    aim_to_v.Net.Thread.read_connection
rounds_end = refl

waiting_ends : rounds address (waiting ∷ []) connected ≡ done connected
unfolding rounds aim_to_v.Net.Thread.round aim_to_v.Net.Thread.before_queue
    aim_to_v.Net.Thread.pipe_messages aim_to_v.Net.Thread.conn_events conn_event
    aim_to_v.Net.Thread.read_connection aim_to_v.Net.Thread.flush_queue
    aim_to_v.Net.Deliver.deliver_queue add_connection thread_start aim_to_v.Net.net_init
waiting_ends = refl

arrival_taken : pipe_message address arrival thread_start ≡ some connected
unfolding pipe_message to_pipe aim_to_v.Wire.Bytes.le_bytes aim_to_v.Pipe.from_pipe
    aim_to_v.Pipe.pipe_read aim_to_v.Wire.Bytes.get_num aim_to_v.Wire.Bytes.le_value
arrival_taken = refl

message-PipeFits : PipeFits (message 5 1 2)
message-PipeFits = record {
  op = omega arith;
  fd = omega arith;
  ip = omega arith;
  port = omega arith;
}

rounds_one_peer_example : length connected.peer ≤ 1
rounds_one_peer_example = rounds_one_peer address (connecting ∷ waiting ∷ []) connected rounds_end

announced_is_closed_at_end_example : is_in 5 (close_ports connected.ports connected.closed) ≡ true
announced_is_closed_at_end_example =
    announced_is_closed_at_end address arrival 5 1 2 thread_start connected refl message-PipeFits
      (omega arith) (omega arith) refl arrival_taken (waiting ∷ []) connected waiting_ends

announced_end_undefined_example : conn_event host leaving connected ≡ undefined
announced_end_undefined_example =
    announced_end_undefined address arrival 5 1 2 thread_start connected refl message-PipeFits
      (omega arith) (omega arith) refl arrival_taken (waiting ∷ []) connected host leaving 8 []
      waiting_ends refl refl refl

connecting_ends : before_queue address connecting thread_start ≡ done connected
unfolding before_queue aim_to_v.Net.Thread.pipe_messages pipe_message to_pipe
    aim_to_v.Wire.Bytes.le_bytes aim_to_v.Pipe.from_pipe aim_to_v.Pipe.pipe_read
    aim_to_v.Wire.Bytes.get_num aim_to_v.Wire.Bytes.le_value aim_to_v.Net.Thread.conn_events
connecting_ends = refl

connecting_public :
    (t : Thread)
    → before_queue address connecting thread_start ≡ done t
    → AllPublic t.input.net.msg_list × (length t.input.net.msg_list ≤ 1)
unfolding add_connection thread_start aim_to_v.Net.net_init
connecting_public t e =
    let same : t ≡ connected = ground (arith, e, connecting_ends) in rw same (tt, omega arith)

round_ends_example :
    (round address connecting thread_start ≡ undefined)
    ⊎ ((t : Thread) × (round address connecting thread_start ≡ done t)
        × (t.input.net.msg_list ≡ []))
round_ends_example = round_ends address connecting thread_start connecting_public

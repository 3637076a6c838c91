-- ===== src/Net/StuckTests.antt =====
-- A session with the thread of source/read_thread.cpp that ends in a private message: a client
-- connects, registers and is refused at a login, and then writes to the user it has made.
use aim_to_v.Base.{
  ℕ, ◌≡◌, refl, Bool, true, false, List, [], ◌∷◌, ◌++◌, length, replicate, none, some, arith,
}
use aim_to_v.Base.Map.{find}
use aim_to_v.Base.Outcome.{Outcome, done, undefined, out_of_fuel}
use aim_to_v.Wire.Bytes.{Bytes, le_bytes}
use aim_to_v.Wire.MsgInfo.{MsgInfo, msg_info_init}
use aim_to_v.Pipe.{to_pipe}
use aim_to_v.User.{UserInfo, empty_user}
use aim_to_v.Accept.{message}
use aim_to_v.Net.Accounts.{Host}
use aim_to_v.Net.Peers.{Ipport}
use aim_to_v.Net.Thread.{
  before_queue, round, Thread, PipeRead, ReadResult, ConnEvent, Round, failed, got, rounds,
  thread_start,
}
use aim_to_v.Net.RoundEnds.{round_never_ends}

-- A stand-in for `std::hash`: the first byte.
abbrev first : Bytes → ℕ
first [] = 0
first (b ∷ bs) = b

abbrev host : Host
host = record { hash = first; beyond = []; now = 100 }

abbrev address : Ipport
address = record { ip = 0; port = 0 }

abbrev packet_of : ℕ → ℕ → Bytes → Bytes
packet_of type size body = le_bytes 4 0 ++ le_bytes 2 type ++ le_bytes 4 size ++ body

abbrev registration : Bytes
registration =
    packet_of 0 260
      (le_bytes 4 0 ++ (replicate 52 0 ++ (7 ∷ replicate 127 0) ++ (8 ∷ replicate 75 0)))

abbrev wrong_login : Bytes
wrong_login = packet_of 3 80 ((7 ∷ replicate 15 0) ++ (9 ∷ replicate 63 0))

abbrev private_text : Bytes
private_text = packet_of 90 19 (le_bytes 4 0 ++ le_bytes 4 2 ++ replicate 10 0 ++ (2 ∷ []))

abbrev reading : List ReadResult → ConnEvent
reading rs = record {
  fd = 3;
  epollin = true;
  epollout = false;
  epollerr = false;
  epollhup = false;
  reads = rs;
}

abbrev opening : Round
opening = record {
  host = host;
  pipe = record { bytes = to_pipe (message 3 1 2); added = true; now = 100 } ∷ [];
  events = reading (got registration 100 ∷ got wrong_login 100 ∷ failed 11 ∷ []) ∷ [];
  now = 100;
  fuel = 1;
}

abbrev writing : Round
writing = record {
  host = host;
  pipe = [];
  events = reading (got private_text 100 ∷ failed 11 ∷ []) ∷ [];
  now = 100;
  fuel = 7;
}

abbrev state_of : Outcome Thread → Thread
state_of (done t) = t
state_of undefined = thread_start
state_of out_of_fuel = thread_start

abbrev opened : Thread
opened = state_of (rounds address (opening ∷ []) thread_start)

abbrev written : Thread
written = state_of (before_queue address writing opened)

abbrev private_msg : MsgInfo
private_msg = record msg_info_init { recv_guid = 2; msg_type = 2 }

abbrev user : UserInfo
user = elim (find 2 written.input.net.users_map) [ none ↦ empty_user | some u ↦ u ]

round_never_ends_example : round address writing opened ≡ out_of_fuel
unfolding aim_to_v.Custom.from_data aim_to_v.Common.tokens aim_to_v.User.Store.destroy
    aim_to_v.Net.Dispatch.parse_msg find aim_to_v.Net.Dispatch.handle
    aim_to_v.Net.Accounts.on_acount_add aim_to_v.User.from_data aim_to_v.User.user_length
    aim_to_v.User.empty_user aim_to_v.Custom.empty_custom aim_to_v.User.user_read
    aim_to_v.Wire.Bytes.get_num aim_to_v.Wire.Bytes.le_value aim_to_v.Wire.Bytes.get_bytes le_bytes
    aim_to_v.Common.split_str aim_to_v.Custom.store_items aim_to_v.Custom.size
    aim_to_v.Net.Logins.on_phone_unique aim_to_v.Base.Map.contains aim_to_v.Net.net_init
    aim_to_v.Net.Accounts.drop_user aim_to_v.Net.Accounts.open_acount
    aim_to_v.Net.Accounts.enter_user aim_to_v.Net.Dispatch.parsed aim_to_v.Base.Map.insert
    aim_to_v.Net.Logins.on_acount_login aim_to_v.Net.Logins.on_login aim_to_v.Net.Logins.log_in
    aim_to_v.Net.Logins.bind_conn aim_to_v.Net.Queries.on_msg_send aim_to_v.Net.send_msg
    aim_to_v.Net.Accounts.send_add_ack aim_to_v.Net.Accounts.notify_members aim_to_v.Group.Walk.walk
    aim_to_v.Group.Walk.if_defined aim_to_v.Net.Accounts.notify aim_to_v.Net.Accounts.join_public
    aim_to_v.Group.on_add_member aim_to_v.Group.append_manager aim_to_v.Group.empty_group
    aim_to_v.Group.traverse_all_members aim_to_v.Group.traverse_managers
    aim_to_v.Group.traverse_normal_members aim_to_v.Group.traverse
    aim_to_v.Wire.MsgInfo.msg_info_from_data aim_to_v.Wire.MsgInfo.msg_info_read
    aim_to_v.Wire.Codec.from_data aim_to_v.Wire.Codec.guarded_read
    aim_to_v.Wire.Account.acount_login_read aim_to_v.User.on_set_online_status aim_to_v.Net.packet
    aim_to_v.Wire.Package.set_sub_pkg_data_length aim_to_v.Wire.Package.to_head
    aim_to_v.Wire.Package.make_pkg aim_to_v.Wire.Codec.to_data aim_to_v.Group.Stream.to_data
    aim_to_v.Group.Stream.group_length aim_to_v.Group.Stream.write_members rounds round before_queue
    thread_start to_pipe aim_to_v.Pipe.from_pipe aim_to_v.Pipe.pipe_read
    aim_to_v.Net.Thread.pipe_messages aim_to_v.Net.Thread.pipe_message
    aim_to_v.Net.Thread.add_connection aim_to_v.Net.Thread.conn_events
    aim_to_v.Net.Thread.conn_event aim_to_v.Net.Thread.read_connection
    aim_to_v.Net.Thread.read_chunk aim_to_v.Net.Thread.count_bytes aim_to_v.Net.Peers.find_peer
    aim_to_v.Net.Peers.put_peer aim_to_v.Net.Peers.ipport_less aim_to_v.Net.Receive.receive
    aim_to_v.Net.Receive.scan aim_to_v.Net.Receive.scan_round aim_to_v.Net.Receive.take_packet
    aim_to_v.Net.Receive.settle aim_to_v.Wire.Package.fill_head aim_to_v.Wire.Package.head_read
    aim_to_v.Net.Thread.flush_queue aim_to_v.Net.Deliver.deliver_queue
round_never_ends_example =
    round_never_ends address (opening ∷ []) writing opened written private_msg [] user refl refl
      refl refl refl

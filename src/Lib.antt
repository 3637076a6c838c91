-- ===== src/Lib.antt =====
-- The chat server aim_to_v: its data, its wire format and the rules of its groups and users.
--
-- The program is a server on plain sockets. A client sends packets, each a head of ten bytes
-- (`RecvMsgPkg`) and a body; the server's `NetInfo` decodes the body by the packet's type and calls
-- methods of `GroupInfo`, `UserInfo` and, inside a user, `CustomData`; these keep who is in which group
-- with which rights, the last messages, the friends, and free key-value data. All of them are written to
-- and read from bytes by `to_data` and `from_data`. `main` makes a pipe and two threads: one accepts
-- connections and writes each to the pipe, the other takes them from there, reads their packets and
-- delivers the chat messages of a queue. All of them write to the log, a singleton.
--
-- The files, and what they model (paths from the repository's root):
--   Base      names, Boolean tests, lists and `std::map` with numeric keys, for all the others.
--   Wire      include/struct_def.h, and `memcpy_u` of include/common.h. `Wire.Bytes` has bytes and
--             the cursor; `Wire.Codec` the interface of a message class and the shape of those of
--             fixed size; `Wire.Member`, `Account`, `Query`, `GroupRequest` and `Ack` those classes;
--             `Wire.MsgInfo` the chat message; `Wire.MsgList` the list of messages, with its proofs
--             in `MsgListRestore`; `Wire.Package` the head and the framing.
--   Group     include/group_info.h, source/group_info.cpp. `Group` has the methods, `Group.Stream`
--             from_data, to_data and length (`group_length`). `Links`, `Messages`, `Calls`, `Roles`,
--             `Load` and `Restore` hold the proofs; `Spec` has an abstract view of the roles, and
--             `Refinement` the proof that the calls implement it.
--   Common    split_str, custom_get_str, custom_get_num and get_exe_dir of source/common.cpp;
--             `Common.Times` string2time_t, time_t2string and time_t2string_m_ms, with the proof in
--             `TimeText`.
--   Custom    include/custom_data.h, source/custom_data.cpp; the two overloads of add_custom are
--             `add_custom_str` and `add_custom_num`. Proofs in `Length`, `Output`, `Access`.
--   User      include/user_info.h, source/user_info.cpp; `User.Store` has the destructor, the
--             setters and what walks over a log. Proofs in `Log`, `Ties`, `Restore`.
--   Net       include/read_thread.h, include/error_def.h and source/read_thread.cpp. `Net` has the
--             state, what sends a packet, and `func_close`; `Net.Logins`, `Net.Groups` and
--             `Net.Queries` the handlers for logins, for groups, and for questions and messages;
--             `Net.Accounts` those that make, change and delete accounts; `Net.Create` on_group_add;
--             `Net.History` on_msg_list_req; `Net.Dispatch` parse_msg; `Net.Receive` what the
--             reading thread does with the bytes of one read; `Net.Deliver` its queue of messages.
--             Proofs: `Sessions`, `Defined`, `Modify`, `Delete`, `Register`, `Changes` and `Dangling` on single
--             handlers; `Users`, `Plain` and `Run` on what holds of every reachable state; `Index`,
--             `Loop`, `Packets` and `Login` on a read; `Queue` and `Copies` on the delivery.
--             `Net.Handled` has the packets that a read hands to parse_msg, one after the other.
--             `Net.Thread` has the whole of read_thread, round after round, with `ipport` and
--             `peerinfo` of include/struct_def.h in `Net.Peers`. `Rounds` carries a property of its
--             state through the rounds; `Simulation` uses it for the states of `Run`, `Connections`
--             and `PeerTable` for the tables; `RoundEnds` has when a round ends.
--   Pipe      `pipemsg` of include/struct_def.h and its 14 bytes on the pipe.
--   Sys       the system calls of the threads and programs below; setnonblocking and setreuseaddr of
--             source/common.cpp. `Sys.Hoare` has the rules for what holds after a piece of code.
--   Accept    accept_thread of source/recv_thread.cpp. `Descriptors` reads off the calls which
--             descriptors the thread owns; proofs in `Closes` and `Thread`.
--   Main      main and sig_pro of source/main.cpp, and init in `Main.Init`; proofs in `Steady`
--             and `Orderly`.
--   Singleton include/instance.h; proofs in `Exclusion` and `References`.
--   Log       include/log.h and the LogSystem of source/common.cpp; proofs in `Files` and `Lines`.
--   Http      source/http_server.cpp; proofs in `Reading`.
--   Config    include/read_config.h, source/read_config.cpp. Proofs in `Lines`.
-- A file whose name ends in `Tests` applies the theorems of its component to concrete data.
--
-- How the code is modelled: an object is a record, and a method a function from its arguments and
-- the object to the new object and the result. Unsigned integers are natural numbers with their
-- wrap written out (`inc32`, `add32`, `% 2 ^ 16`); on fields, `Fits` says that they hold what their
-- C++ types can. A pointer argument that the code tests is an `Option`; the memory behind it is a
-- list of bytes, with whatever follows the packet as a further list. Undefined behaviour is `none`.
-- The list of a group's members is a list of numbered nodes, and an iterator the number of its
-- node, so a dangling iterator is a number that the list no longer has, and what goes through one is
-- undefined (`Group.Walk`); `Group.Alive` has the groups on which every walk is defined.
-- A method of `Group` whose node is gone leaves the list alone; the handlers call it through `on_node`
-- of `Group.Walk`, which is undefined there. Loops are recursions
-- on the list or the count that they go over, but for two of the reading thread: the loop over the
-- packets of a read and the loop over the queue run on fuel, and their result is an `Outcome`,
-- which tells a loop that ended from one that is undefined and one that ran out of fuel. For the
-- first the number of bytes read is enough; for the second the number of messages is, where none of
-- them is private. `std::hash`, the time of day and the memory behind a text are parameters.
--
-- The code that is little more than system calls is written in a monad, `Sys`: what the system answers
-- is a list given from outside, each call takes the next answer and is put on a trace with it, and a
-- call whose result the code ignores is put there without one. A piece of code returns, ends the
-- process, waits for an answer that is not there, is undefined, or uses up its bound. Each loop takes
-- an answer in every round, so a bound above the number of the answers is enough. Of the reading
-- thread, what the pipe, epoll_wait and the reads give in a round is an argument of the round; a loop
-- with the test of `comm->running` ends where the list does. The threads of the singleton take steps
-- in any order, where each test and store of `instance_`, the `new` and the `delete` are steps of
-- their own.
--
-- Not modelled: a big-endian host, str_sha256 and getFilename, which nothing uses, `uninit` of
-- source/main.cpp, which is `release` of the singleton, the calls of sigaction there, and the calls
-- of the log in the other parts. What `vsnprintf` makes of a message of the log, localtime, mktime
-- and fopen come from outside. The lists `users` and `groups` of `NetInfo` are kept in the maps
-- that lead into them; a file descriptor is a natural number, and `send` takes every packet. A
-- buffer that is larger than the packet is read as if bytes followed it; what a handler reads
-- behind the bytes of a packet is whatever the buffer holds there.
pub mod Base
pub mod Wire
pub mod Group
pub mod Common
pub mod Custom
pub mod User
pub mod Net
pub mod Config
pub mod Sys
pub mod Pipe
pub mod Accept
pub mod Main
pub mod Singleton
pub mod Log
pub mod Http

-- ===== src/Net/FlowTests.antt =====
-- The theorems about whole runs at concrete states.
use aim_to_v.Base.{
  List, ℕ, ◌+◌, ◌≤◌, ◌<◌, ◌⊎◌, arith, length, ◌==◌, ◌≡◌, ◌≢◌, refl, if◌then◌else◌, Option, none,
  some, Option-cases, inl, inr, [], ◌∷◌, ◌++◌, replicate,
}
use aim_to_v.Base.Map.{find, contains}
use aim_to_v.Base.Outcome.{Outcome, done, undefined, out_of_fuel}
use aim_to_v.Wire.Bytes.{Bytes, le_bytes}
use aim_to_v.Wire.Package.{RecvMsgPkg, head_length}
use aim_to_v.Wire.MsgInfo.{MsgInfo, msg_info_init}
use aim_to_v.Net.{NetInfo, net_init, max_buf_size, error_ok}
use aim_to_v.Net.Logins.{on_login, logged_in}
use aim_to_v.Wire.Account.{AcountLogin}
use aim_to_v.Net.Login.{login_head, login_body, received_login}
use aim_to_v.Net.Receive.{Input, scan, scan_round, filled, receive}
use aim_to_v.Net.Handled.{Ends}
use aim_to_v.Net.Loop.{receive-Ends}
use aim_to_v.Net.Index.{parse_msg-index}
use aim_to_v.Net.Packets.{whole, receive_one, receive_incomplete}
use aim_to_v.Net.Accounts.{
  Host, parsed_user, registered, quit_group, on_acount_add, on_acount_modify,
}
use aim_to_v.Net.Register.{register_then_login}
use aim_to_v.Net.Create.{on_group_add}
use aim_to_v.Net.Dangling.{created_group_message}
use aim_to_v.Net.Changes.{on_acount_modify_lem}
use aim_to_v.Net.Copies.{look, copies, both, post_group-sent}
use aim_to_v.Wire.Member.{member_init}
use aim_to_v.Group.{GroupInfo, empty_group}
use aim_to_v.Net.Dispatch.{parse_msg}
use aim_to_v.Net.Deliver.{deliver_group, post_group, msg_packet}
use aim_to_v.Net.Users.{UsersPlain}
use aim_to_v.User.{UserInfo, empty_user}
use aim_to_v.Net.Run.{packet, Reachable, start, next, Reachable-UsersPlain}

-- A stand-in for `std::hash`: the first byte.
abbrev first : Bytes → ℕ
first [] = 0
first (b ∷ bs) = b

abbrev host : Host
host = record { hash = first; beyond = []; now = 100 }

-- An account: a guid, zeros, a phone that begins with 7 and a password that begins with 8.
abbrev account : ℕ → Bytes
account guid = le_bytes 4 guid ++ (replicate 52 0 ++ (7 ∷ replicate 127 0) ++ (8 ∷ replicate 75 0))

abbrev state_of : NetInfo → Option (NetInfo × ℕ) → NetInfo
state_of n none = n
state_of n (some (n', index)) = n'

abbrev head : ℕ → ℕ → RecvMsgPkg
head type size = record { pkg_sender_guid = 0; pkg_type = type; sub_pkg_data_length = size }

abbrev packet_bytes : Bytes → Bytes
packet_bytes body = replicate 10 0 ++ body

abbrev with_user : NetInfo
with_user = state_of net_init (parse_msg host (packet_bytes (account 0)) 3 (head 0 260) net_init)

abbrev with_login : NetInfo
with_login = state_of with_user (
    parse_msg host (packet_bytes ((7 ∷ replicate 15 0) ++ (9 ∷ replicate 63 0))) 3 (head 3 80)
      with_user)

-- A private message from 0 to 2, of no text.
abbrev private_text : Bytes
private_text = le_bytes 4 0 ++ le_bytes 4 2 ++ replicate 10 0 ++ (2 ∷ [])

abbrev waiting : NetInfo
waiting = state_of with_login (parse_msg host (packet_bytes private_text) 3 (head 90 19) with_login)

-- A packet leads to a reachable state, also where its handler has no defined result and nothing is
-- taken from it.
reach_packet :
    (data_ptr : Bytes) (fd : ℕ) (msg : RecvMsgPkg) (n : NetInfo)
    → Reachable n
    → Reachable (state_of n (parse_msg host data_ptr fd msg n))
reach_packet data_ptr fd msg n r = elim (Option-cases (parse_msg host data_ptr fd msg n)) [
  | inl e ↦ rw e r
  | inr ((n', index), e) ↦ rw e (next r (packet host data_ptr fd msg n n' index e))
]

waiting-Reachable : Reachable waiting
waiting-Reachable = reach_packet (packet_bytes private_text) 3 (head 90 19) with_login (
    reach_packet (packet_bytes ((7 ∷ replicate 15 0) ++ (9 ∷ replicate 63 0))) 3 (head 3 80)
      with_user (reach_packet (packet_bytes (account 0)) 3 (head 0 260) net_init start))

Reachable-UsersPlain_example : UsersPlain waiting
Reachable-UsersPlain_example = Reachable-UsersPlain waiting-Reachable

-- A request for a phone.
abbrev phone : Bytes
phone = 7 ∷ replicate 15 0

abbrev asked : NetInfo
asked = state_of net_init (parse_msg host (packet_bytes phone) 3 (head 5 16) net_init)

parse_msg-index_example : (26 ≤ 16 + head_length) × ((◌≡◌ {A = ℕ} 26 0) ⊎ (head_length < 26))
unfolding parse_msg find aim_to_v.Net.Dispatch.handle aim_to_v.Net.Dispatch.parsed net_init
    aim_to_v.Net.Logins.on_acount_can_reg aim_to_v.Wire.Codec.from_data
    aim_to_v.Wire.Codec.guarded_read aim_to_v.Wire.Account.acount_can_reg_read
    aim_to_v.Wire.Bytes.get_bytes aim_to_v.Wire.Bytes.get_num aim_to_v.Wire.Bytes.le_value le_bytes
    aim_to_v.Wire.Package.to_head aim_to_v.Wire.Codec.guarded_write
parse_msg-index_example =
    parse_msg-index host (packet_bytes phone) 3 (head 5 16) net_init asked 26 (omega arith) refl

abbrev idle : Input
idle = record { buf = replicate 8192 0; buf_index = 0; head = head 0 0; net = net_init }

abbrev chunk : Bytes
chunk = packet_bytes (1 ∷ 2 ∷ [])

abbrev framed : Bytes
framed = whole (head 5 16) phone

receive_one_example :
    (input' : Input) × (receive host 3 framed idle ≡ done input')
    × (input'.net ≡ state_of net_init (parse_msg host (filled framed idle) 3 (head 5 16) net_init))
    × (input'.head ≡ head 5 16)
    × (input'.buf_index ≡ 0)
unfolding parse_msg find aim_to_v.Net.Dispatch.handle aim_to_v.Net.Dispatch.parsed net_init
    aim_to_v.Net.Logins.on_acount_can_reg aim_to_v.Wire.Codec.from_data
    aim_to_v.Wire.Codec.guarded_read aim_to_v.Wire.Account.acount_can_reg_read
    aim_to_v.Wire.Bytes.get_bytes aim_to_v.Wire.Bytes.get_num aim_to_v.Wire.Bytes.le_value le_bytes
    aim_to_v.Wire.Package.to_head aim_to_v.Wire.Codec.guarded_write
receive_one_example =
    receive_one host 3 (head 5 16) phone idle
      (state_of net_init (parse_msg host (filled framed idle) 3 (head 5 16) net_init))
      (record {
        pkg_sender_guid = omega arith;
        pkg_type = omega arith;
        sub_pkg_data_length = omega arith;
      })
      refl (omega arith) (omega arith) refl refl

-- The state of the thread after a read that ends.
abbrev input_of : Input → Outcome Input → Input
input_of input (done input') = input'
input_of input undefined = input
input_of input out_of_fuel = input

receive-Ends_example :
    Ends host 3 (filled framed idle) 26 net_init (input_of idle (receive host 3 framed idle)).net
unfolding receive scan scan_round aim_to_v.Wire.Package.head_read aim_to_v.Wire.Bytes.get_num
    aim_to_v.Wire.Bytes.le_value aim_to_v.Wire.Package.to_head le_bytes
    aim_to_v.Wire.Package.fill_head aim_to_v.Net.Receive.take_packet parse_msg find
    aim_to_v.Net.Dispatch.handle aim_to_v.Net.Dispatch.parsed aim_to_v.Net.Logins.on_acount_can_reg
    aim_to_v.Wire.Codec.from_data aim_to_v.Wire.Codec.guarded_read
    aim_to_v.Wire.Account.acount_can_reg_read aim_to_v.Wire.Bytes.get_bytes
receive-Ends_example =
    receive-Ends host 3 framed idle (input_of idle (receive host 3 framed idle)) (omega arith) refl

-- The first eleven bytes of a packet of the public group.
abbrev part : Bytes
part = le_bytes 4 1 ++ le_bytes 2 90 ++ le_bytes 4 19 ++ (0 ∷ [])

receive_incomplete_example :
    (input' : Input) × (receive host 3 part idle ≡ done input')
    × (input'.net ≡ net_init)
    × (input'.buf ≡ filled part idle)
    × (input'.buf_index ≡ (if 0 + length part == max_buf_size then 0 else 0 + length part))
unfolding aim_to_v.Wire.Package.head_read aim_to_v.Wire.Bytes.get_num aim_to_v.Wire.Bytes.le_value
    le_bytes contains find net_init
receive_incomplete_example = receive_incomplete host 3 part idle (omega arith) (omega arith) refl

-- A new account.
register_then_login_example :
    let user = (parsed_user host (account 0) 260 net_init).0 in
    let n' = state_of net_init (on_acount_add host (account 0) 260 3 net_init) in
    (find user.user_guid n'.users_map ≡ some (registered 100 user))
    × (on_login first user.phone user.sha256 n' ≡ error_ok)
    × ((key : ℕ)
        → key ≢ first user.phone
        → find key n'.phone_hash_map ≡ find key net_init.phone_hash_map)
    × ((guid : ℕ) → guid ≢ user.user_guid → find guid n'.users_map ≡ find guid net_init.users_map)
unfolding aim_to_v.Custom.from_data aim_to_v.Common.tokens aim_to_v.User.Store.destroy find
    aim_to_v.User.from_data aim_to_v.User.user_length empty_user aim_to_v.Custom.empty_custom
    aim_to_v.User.user_read aim_to_v.Wire.Bytes.get_num aim_to_v.Wire.Bytes.le_value
    aim_to_v.Wire.Bytes.get_bytes le_bytes aim_to_v.Common.split_str aim_to_v.Custom.store_items
    aim_to_v.Custom.size contains net_init on_acount_add aim_to_v.Net.Logins.on_phone_unique
    aim_to_v.Net.Accounts.drop_user aim_to_v.Net.Accounts.open_acount
    aim_to_v.Net.Accounts.enter_user aim_to_v.Net.Accounts.notify_members aim_to_v.Net.packet
    aim_to_v.Wire.Package.set_sub_pkg_data_length aim_to_v.Group.Stream.to_data
    aim_to_v.Group.Stream.group_length aim_to_v.Net.Accounts.join_public
    aim_to_v.Group.on_add_member aim_to_v.Base.Map.insert empty_group aim_to_v.Group.append_manager
    aim_to_v.Group.Stream.write_members aim_to_v.Wire.Codec.to_data
    aim_to_v.Wire.Codec.guarded_write aim_to_v.Wire.Package.to_head aim_to_v.Group.Walk.walk
    aim_to_v.Group.traverse_all_members aim_to_v.Group.traverse_managers
    aim_to_v.Group.Walk.if_defined aim_to_v.Group.append_member aim_to_v.Group.traverse
    aim_to_v.Group.traverse_normal_members aim_to_v.Net.Accounts.notify
    aim_to_v.Net.Accounts.send_add_ack aim_to_v.Net.send_msg
register_then_login_example =
    register_then_login host (account 0) 260 3 net_init
      (state_of net_init (on_acount_add host (account 0) 260 3 net_init)) 260 refl (λ e. cc) refl

-- One user, 5.
abbrev member_five : NetInfo
member_five = record net_init {
  users_map = (5, record empty_user { user_guid = 5; passwd = 8 }) ∷ [];
  global_user_guid = 9;
}

-- A group without members whose leader is 5.
abbrev founding : Bytes
founding = le_bytes 4 0 ++ le_bytes 4 0 ++ le_bytes 4 5

created_group_message_example :
    deliver_group 200
      (record msg_info_init { recv_guid = 2; msg_type = 1 })
      (on_group_add 100 founding 12 3 member_five).0
    ≡ none
unfolding find net_init empty_user aim_to_v.User.can_create_group aim_to_v.Group.Stream.from_data
    aim_to_v.Group.Stream.group_read aim_to_v.Group.Stream.group_length
    aim_to_v.Group.Stream.read_members empty_group aim_to_v.Wire.Bytes.get_num
    aim_to_v.Wire.Bytes.le_value le_bytes
created_group_message_example =
    created_group_message 100 200 founding 12 3 member_five
      (record empty_user { user_guid = 5; passwd = 8 })
      (record msg_info_init { recv_guid = 2; msg_type = 1 }) (λ e. cc) refl refl refl

member_five-UsersPlain : UsersPlain member_five
unfolding find empty_user
member_five-UsersPlain = record { plain = λ guid u h. ground arith }

on_acount_modify_lem_example :
    let (user, index) = parsed_user host (account 5) 260 member_five in
    (find user.user_guid member_five.users_map ≡ none
      → on_acount_modify host (account 5) 260 3 member_five ≡ none)
    × ((old : UserInfo)
        → find user.user_guid member_five.users_map ≡ some old
        → (n' : NetInfo) × (on_acount_modify host (account 5) 260 3 member_five ≡ some (n', index))
          × (find user.user_guid n'.users_map ≡ some user)
          × (user.join_groups ≡ [])
          × (n'.groups_map ≡ member_five.groups_map))
unfolding aim_to_v.Custom.from_data aim_to_v.Common.tokens aim_to_v.User.Store.destroy find
    aim_to_v.User.from_data aim_to_v.User.user_length empty_user aim_to_v.Custom.empty_custom
    aim_to_v.User.user_read aim_to_v.Wire.Bytes.get_num aim_to_v.Wire.Bytes.le_value
    aim_to_v.Wire.Bytes.get_bytes le_bytes aim_to_v.Common.split_str aim_to_v.Custom.store_items
    aim_to_v.Custom.size contains net_init
on_acount_modify_lem_example =
    on_acount_modify_lem host (account 5) 260 3 member_five member_five-UsersPlain (λ e. cc)
      (λ e. cc)

-- A member with a connection.
abbrev joined : GroupInfo
joined = record empty_group {
  group_guid = 70;
  members_list = (0, record member_init { user_guid = 5 }) ∷ [];
  members_map = (5, 0) ∷ [];
  next_node = 1;
}

abbrev online : NetInfo
online = record member_five { user_conn_map = (5, 3) ∷ [] }

abbrev news : MsgInfo
news = record msg_info_init { recv_guid = 70; msg_num = 4; msg_type = 1 }

abbrev bytes_of : Option Bytes → Bytes
bytes_of none = []
bytes_of (some bytes) = bytes

post_group-sent_example :
    let planned =
      both
        (copies (look joined online) (bytes_of (msg_packet news)) [])
        (copies (look joined online) (bytes_of (msg_packet news)) ((5, 0) ∷ [])) in
    (planned ≡ none → post_group 200 news joined online ≡ none)
    × ((copied : List (ℕ × Bytes))
        → planned ≡ some copied
        → (n' : NetInfo) × (post_group 200 news joined online ≡ some n') × (n'.sent ≡ [] ++ copied))
unfolding empty_group net_init msg_packet aim_to_v.Group.on_add_msg aim_to_v.Group.push_msg
    aim_to_v.Wire.MsgInfo.msg_info_to_data aim_to_v.Wire.Package.to_head
    aim_to_v.Wire.Package.set_sub_pkg_data_length aim_to_v.Wire.Codec.guarded_write le_bytes
post_group-sent_example =
    post_group-sent 200 news joined online (bytes_of (msg_packet news)) refl refl

-- The login of 5.
abbrev five_login : AcountLogin
five_login = record { phone = 7 ∷ replicate 15 0; sha256 = 8 ∷ replicate 63 0 }

abbrev registered_five : NetInfo
registered_five = record member_five { phone_hash_map = (7, 5) ∷ [] }

abbrev five : UserInfo
five = record empty_user { user_guid = 5; passwd = 8 }

received_login_example :
    let input : Input = record idle { net = registered_five } in
    (input' : Input) × (receive host 3 (whole (login_head 0) (login_body five_login)) input
      ≡ done input')
    × (find 3 input'.net.conn_user_map ≡ some 5)
    × (find 5 input'.net.user_conn_map ≡ some 3)
    × (find 5 input'.net.users_map ≡ some (logged_in 100 five))
    × (input'.buf_index ≡ 0)
unfolding find empty_user
received_login_example =
    received_login host 0 3 5 five_login five registered_five
      (record { phone = refl; sha256 = refl }) refl refl refl refl
      (record idle { net = registered_five }) (omega arith) refl refl

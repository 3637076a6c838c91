-- ===== src/Net.antt =====
-- `class NetInfo` of include/read_thread.h and source/read_thread.cpp: its state, what sends a packet,
-- and the closing of a connection. A handler, in the modules below, takes the body of a packet and its connection, and returns the new state and the index.
-- `users` and `groups` are kept in the maps that lead to them; `sent` gathers what `send_msg` is
-- given, each packet with its connection. The global `global_user_guid` is a field of the state.
pub mod Logins
pub mod Groups
pub mod Queries
pub mod Sessions
pub mod Defined
pub mod Modify
pub mod Delete
pub mod Accounts
pub mod Create
pub mod History
pub mod Dispatch
pub mod Handled
pub mod Deliver
pub mod Receive
pub mod Users
pub mod Plain
pub mod Index
pub mod Loop
pub mod Packets
pub mod Queue
pub mod Run
pub mod Peers
pub mod Thread
pub mod Rounds
pub mod Simulation
pub mod Connections
pub mod PeerTable
pub mod RoundEnds
pub mod Register
pub mod Login
pub mod Copies
pub mod Changes
pub mod Dangling
mod Tests
mod FlowTests
mod ThreadTests
mod StuckTests
use aim_to_v.Base.{
  ℕ, ◌+◌, ◌-◌, Bool, true, false, not, ◌&&◌, ◌||◌, ltb, ◌==◌, if◌then◌else◌, Option, none, some,
  List, [], ◌∷◌, ◌++◌, length, take,
}
use aim_to_v.Base.Map.{Map, find, contains, insert, erase}
use aim_to_v.Wire.Bytes.{Bytes}
use aim_to_v.Wire.Codec.{codec}
use aim_to_v.Wire.Codec
use aim_to_v.Wire.Account.{
  acount_login, acount_login_init, acount_logout, acount_logout_init, acount_can_reg,
  acount_can_reg_init,
}
use aim_to_v.Wire.Query.{user_info_req, user_info_req_init, group_info_req, group_info_req_init}
use aim_to_v.Wire.GroupRequest.{
  GroupModify, group_delete, group_delete_init, group_modify, group_modify_init, member_add,
  member_delete, member_set_permission, manager_add, manager_delete, modify_type_max,
}
use aim_to_v.Wire.Ack.{client_ack, client_acount_login_ack, brief_user_info}
use aim_to_v.Wire.Package.{new_pkg, head_length, make_pkg, set_sub_pkg_data_length, to_head}
use aim_to_v.Wire.MsgInfo.{MsgInfo, msg_info_init, msg_info_from_data}
use aim_to_v.Group.{
  GroupInfo, empty_group, on_add_member, on_delete_member, on_add_manager, on_delete_manager,
  on_change_permissions, traverse_all_members,
}
use aim_to_v.Group.Stream
use aim_to_v.User.{
  UserInfo, on_set_online_status, on_join_group, on_leave_group, on_delete_group, make_brief_data,
}
use aim_to_v.User

pub record NetInfo : Type 0 where
  pub conn_user_map : Map ℕ
  pub user_conn_map : Map ℕ
  pub msg_list : List MsgInfo
  pub groups_map : Map GroupInfo
  pub users_map : Map UserInfo
  pub phone_hash_map : Map ℕ
  pub sent : List (ℕ × Bytes)
  pub global_user_guid : ℕ

-- The constructor makes the public group, of guid 1.
unfoldable pub net_init : NetInfo
net_init = record {
  conn_user_map = [];
  user_conn_map = [];
  msg_list = [];
  groups_map = (1, record empty_group { group_guid = 1 }) ∷ [];
  users_map = [];
  phone_hash_map = [];
  sent = [];
  global_user_guid = 1;
}

abbrev pub max_buf_size : ℕ
max_buf_size = 8192

-- `enum ErrorDef`, what these handlers use of it.
abbrev pub error_ok : ℕ
error_ok = 0

abbrev pub error_phone_exist : ℕ
error_phone_exist = 11

abbrev pub error_passwd : ℕ
error_passwd = 42

abbrev pub error_user_isnot_exist : ℕ
error_user_isnot_exist = 43

abbrev pub error_phone_map : ℕ
error_phone_map = 44

abbrev pub error_cant_logout_other : ℕ
error_cant_logout_other = 51

abbrev pub error_group_modify_type : ℕ
error_group_modify_type = 71

abbrev pub error_group_not_exist : ℕ
error_group_not_exist = 72

abbrev pub error_group_operator_not_exist : ℕ
error_group_operator_not_exist = 74

abbrev pub error_group_target_not_exist : ℕ
error_group_target_not_exist = 75

abbrev pub error_group_not_leader : ℕ
error_group_not_leader = 81

abbrev pub error_user_not_exist_or_send_guid : ℕ
error_user_not_exist_or_send_guid = 111

-- `m[k]` on a `std::map`, which makes an entry of 0 where there is none.
abbrev pub subscript : ℕ → Map ℕ → Map ℕ × ℕ
subscript k m = elim (find k m) [ some v ↦ (m, v) | none ↦ (insert k 0 m, 0) ]

unfoldable pub send_msg : ℕ → Bytes → NetInfo → NetInfo
send_msg fd bytes n =
    if length bytes == 0 then n else record n { sent = n.sent ++ (fd, bytes) ∷ [] }

-- `ack.make_pkg(send_buf, MAXBUFSIZE)` of a `ClientAck`, as it is sent.
unfoldable pub ack_packet : ℕ → ℕ → Bytes
ack_packet msg_type ack_type =
    (make_pkg (codec client_ack) max_buf_size (new_pkg 0 msg_type) (record { err_no = ack_type })).2

unfoldable pub send_client_ack : ℕ → ℕ → ℕ → NetInfo → NetInfo
send_client_ack msg_type ack_type fd n = send_msg fd (ack_packet msg_type ack_type) n

-- A packet from a body that `to_data` left behind the head with the index it returned; `none` where
-- the length or the head is refused.
unfoldable pub packet : ℕ → ℕ → Bytes → Option Bytes
packet msg_type index bytes =
    let (h, counted) = set_sub_pkg_data_length index (new_pkg 0 msg_type) in
    let head = to_head true max_buf_size h in
    if counted && not (length head == 0)
    then some (take (index + head_length) (head ++ bytes))
    else none

unfoldable pub send_packet : ℕ → Option Bytes → NetInfo → NetInfo
send_packet fd none n = n
send_packet fd (some bytes) n = send_msg fd bytes n

abbrev pub put_group : ℕ → GroupInfo → NetInfo → NetInfo
put_group guid g n = record n { groups_map = insert guid g n.groups_map }

abbrev pub put_user : ℕ → UserInfo → NetInfo → NetInfo
put_user guid u n = record n { users_map = insert guid u n.users_map }

-- The effect of `func_close` on the maps and the user.
unfoldable pub func_close : ℕ → NetInfo → NetInfo
func_close fd n =
    let (conn_users, user_guid) = subscript fd n.conn_user_map in
    record n {
      users_map = elim (find user_guid n.users_map) [
        | none ↦ n.users_map
        | some user ↦ insert user_guid (on_set_online_status 1 user).0 n.users_map
      ];
      user_conn_map = erase user_guid n.user_conn_map;
      conn_user_map = erase fd conn_users;
    }

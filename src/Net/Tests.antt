-- ===== src/Net/Tests.antt =====
-- Each theorem about the handlers at a concrete state.
use aim_to_v.Base.{
  ℕ, ◌≡◌, ◌≢◌, ◌⊎◌, ◌↔◌, refl, arith, ◌==◌, if◌then◌else◌, none, some, [], ◌∷◌, ◌++◌, replicate,
  true,
}
use aim_to_v.Base.Map.{find, contains}
use aim_to_v.Wire.Bytes.{Bytes, le_bytes, le_value, get_num, get_bytes}
use aim_to_v.Wire.Codec.{guarded_read}
use aim_to_v.Wire.Codec
use aim_to_v.Wire.Account.{acount_login_read, acount_logout_read}
use aim_to_v.Wire.GroupRequest.{group_modify, group_modify_init, group_delete_read}
use aim_to_v.Wire.Member.{member_init}
use aim_to_v.Wire.MsgInfo.{msg_info_init, msg_info_from_data, msg_info_read}
use aim_to_v.User.{UserInfo, empty_user}
use aim_to_v.Net.{NetInfo}
use aim_to_v.Net.Logins.{on_login, logged_in, logged_out, on_acount_login, on_acount_logout}
use aim_to_v.Net.Groups.{on_group_modify, on_group_delete}
use aim_to_v.Net.Queries.{on_msg_send}
use aim_to_v.Net.Sessions.{refused_login_binds_zero, login_then_logout}
use aim_to_v.Group.{GroupInfo, empty_group}
use aim_to_v.Group.Alive.{IsAlive}
use aim_to_v.Net.Delete.{on_group_delete_lem}
use aim_to_v.Net.Modify.{Within, on_group_modify-Within}

-- A stand-in for `std::hash`: the first byte.
abbrev first : Bytes → ℕ
first [] = 0
first (b ∷ bs) = b

abbrev ann : UserInfo
ann = record empty_user { user_guid = 5; passwd = 8 }

-- One user, 5, whose phone begins with 7 and whose password with 8.
abbrev server : NetInfo
server = record {
  conn_user_map = [];
  user_conn_map = [];
  msg_list = [];
  groups_map = [];
  users_map = (5, ann) ∷ [];
  phone_hash_map = (7, 5) ∷ [];
  sent = [];
  global_user_guid = 9;
}

abbrev right : Bytes
right = (7 ∷ replicate 15 0) ++ (8 ∷ replicate 63 0)

abbrev wrong : Bytes
wrong = (7 ∷ replicate 15 0) ++ (9 ∷ replicate 63 0)

-- An empty text from 0 to 0.
abbrev text : Bytes
text = replicate 19 0

refused_login_binds_zero_example :
    let n' = (on_acount_login first 100 wrong 80 3 server).0 in
    let (msg, read) = msg_info_from_data (some text) 19 msg_info_init in
    (n'.users_map ≡ server.users_map)
    × (find 3 n'.conn_user_map ≡ some 0)
    × ((on_msg_send 0 text 19 3 n').0.msg_list
        ≡ (if 0 == 0 then server.msg_list ++ msg ∷ [] else server.msg_list))
unfolding Codec.from_data guarded_read acount_login_read get_bytes get_num le_value on_login find
    msg_info_from_data msg_info_read empty_user
refused_login_binds_zero_example =
    refused_login_binds_zero first 100 wrong 80 3 server 0 text 19 (λ e. cc) (λ e. cc) (λ e. cc)

login_then_logout_example :
    let n' = (on_acount_login first 100 right 80 3 server).0 in
    let n'' = (on_acount_logout 200 (le_bytes 4 5) 4 3 n').0 in
    (find 5 n'.users_map ≡ some (logged_in 100 ann))
    × (ann.passwd ≢ 5 → find 8 n'.users_map ≡ find 8 server.users_map)
    × (find 3 n'.conn_user_map ≡ some 5)
    × (find 5 n'.user_conn_map ≡ some 3)
    × (ann.passwd ≢ 3 → find 8 n'.conn_user_map ≡ find 8 server.conn_user_map)
    × (find 3 n''.conn_user_map ≡ none)
    × (find 5 n''.user_conn_map ≡ none)
    × (find 5 n''.users_map ≡ some (logged_out 200 (logged_in 100 ann)))
unfolding Codec.from_data guarded_read acount_login_read acount_logout_read get_bytes get_num
    le_value le_bytes on_login find empty_user
login_then_logout_example =
    login_then_logout first 100 200 right (le_bytes 4 5) 80 4 3 5 8 ann server (λ e. cc) refl refl
      refl refl (λ e. cc) refl

-- Group 70 with its leader, 5.
abbrev lobby : GroupInfo
lobby = record empty_group {
  group_guid = 70;
  learder_guid = 5;
  member_count = 1;
  members_list = (0, record member_init { user_guid = 5; job = 1 }) ∷ [];
  managers_map = (5, 0) ∷ [];
  next_node = 1;
}

abbrev hosting : NetInfo
hosting = record server { groups_map = (70, lobby) ∷ [] }

-- The request of 5 to make manager 5 of group 70 a member.
abbrev request : Bytes
request = le_bytes 4 70 ++ le_bytes 4 5 ++ le_bytes 4 5 ++ (4 ∷ 0 ∷ [])

hosting-IsAlive : (g : GroupInfo) → find 70 hosting.groups_map ≡ some g → IsAlive g
unfolding find contains empty_group
hosting-IsAlive g h =
    let same : g ≡ lobby = ground arith in rw same (record { managers = (refl, tt); members = tt })

on_group_modify-Within_example :
    (n' : NetInfo) × (on_group_modify 100 request 14 3 hosting ≡ some (n', 14))
    × Within 70 5 hosting n'
unfolding Codec.from_data guarded_read aim_to_v.Wire.GroupRequest.group_modify_read get_num le_value
    le_bytes
on_group_modify-Within_example = on_group_modify-Within 100 request 14 3 hosting hosting-IsAlive

-- The request of 5 to delete group 70.
abbrev deletion : Bytes
deletion = le_bytes 4 70 ++ le_bytes 4 5

on_group_delete_lem_example :
    (n' : NetInfo) × (on_group_delete deletion 8 3 hosting ≡ some (n', 8))
    × ((find 70 n'.groups_map ≡ none)
        ↔ ((lobby.learder_guid ≡ lobby.learder_guid) × (contains 5 hosting.users_map ≡ true)))
    × ((find 70 n'.groups_map ≡ none) ⊎ (find 70 n'.groups_map ≡ some lobby))
    × (lobby.learder_guid ≢ 70 → find 5 n'.groups_map ≡ find 5 hosting.groups_map)
    × (n'.conn_user_map ≡ hosting.conn_user_map)
    × (n'.user_conn_map ≡ hosting.user_conn_map)
unfolding Codec.from_data guarded_read group_delete_read get_num le_value le_bytes find empty_group
    empty_user
on_group_delete_lem_example =
    on_group_delete_lem deletion 8 3 5 lobby hosting (λ e. cc) refl (hosting-IsAlive lobby refl)

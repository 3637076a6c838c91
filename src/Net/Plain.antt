-- ===== src/Net/Plain.antt =====
-- Whatever packet arrives, `parse_msg` keeps every user plain.
pub mod Requests
pub mod Steps
pub mod Handlers
use aim_to_v.Base.{ℕ, ◌≡◌, refl, some, [], ◌∷◌, Option-cases, inl, inr, arith, length, drop}
use aim_to_v.Base.Map.{Map, find, erase, update}
use aim_to_v.Wire.Bytes.{Bytes}
use aim_to_v.Wire.Package.{RecvMsgPkg, head_length}
use aim_to_v.Wire.Codec
use aim_to_v.Wire.Account.{acount_delete as delete_body, acount_delete_init}
use aim_to_v.Wire.GroupRequest.{GroupModify}
use aim_to_v.Group.{
  GroupInfo, get_member_by_guid, traverse_all_members, on_add_member, on_delete_member,
  on_change_permissions, on_add_manager, on_delete_manager,
}
use aim_to_v.Group.Walk.{traverse_all_members-keeps}
use aim_to_v.User.{
  UserInfo, empty_user, on_set_online_status, on_join_group, on_leave_group, on_create_group,
  on_delete_group,
}
use aim_to_v.User.Store.{destroy}
use aim_to_v.Net.{NetInfo, subscript, send_msg, send_client_ack, send_packet, put_user, put_group}
use aim_to_v.Net.Logins.{
  on_phone_unique, log_in, logged_in, logged_out, log_out, bind_conn, on_acount_login,
  on_acount_logout, on_acount_can_reg,
}
use aim_to_v.Net.Groups.{
  tell_members, modify_group, switch_modify, on_group_modify, leave_member, dissolve,
  on_group_delete,
}
use aim_to_v.Net.Queries.{on_user_info_req, on_group_info_req, on_user_brief_info_req, on_msg_send}
use aim_to_v.Net.Modify.{tell_members-SameState}
use aim_to_v.Net.Users.{
  IsPlain, UsersPlain, same-UsersPlain, put_user-UsersPlain, erase-UsersPlain,
  on_join_group-IsPlain, on_leave_group-IsPlain, on_create_group-IsPlain, on_delete_group-IsPlain,
  logged_in-IsPlain, logged_out-IsPlain, from_data-plain,
}
use aim_to_v.Net.Accounts.{
  Host, drop_user, parsed_user, send_add_ack, registered, enter_user, notify, notify_members,
  open_acount, join_public, on_acount_add, refreshed, refresh_groups, replace_user,
  on_acount_modify, quit_group, quit_groups, quit_friends, close_acount, leave_public,
  delete_acount, on_acount_delete,
}
use aim_to_v.Net.Create.{set_up_member, copy_group, create_group, on_group_add}
use aim_to_v.Net.History.{send_list, on_msg_list_req}
use aim_to_v.Net.Dispatch.{
  Request, request_of, handle, parsed, parse_msg, acount_add, acount_modify, acount_delete,
  acount_login, acount_logout, acount_can_reg, group_add, group_modify, group_delete, user_info_req,
  group_info_req, user_info_brief_req, msg_send, msg_list_req,
}
use aim_to_v.Net.Plain.Requests.{
  send_client_ack-UsersPlain, bind_conn-UsersPlain, log_in-UsersPlain, on_acount_login-UsersPlain,
  log_out-UsersPlain, on_acount_logout-UsersPlain, tell_members-UsersPlain, put_group-UsersPlain,
  modify_group-UsersPlain, on_group_modify-UsersPlain, on_group_delete-UsersPlain,
  queries-UsersPlain,
}
use aim_to_v.Net.Plain.Steps.{
  drop_user-UsersPlain, enter_user-UsersPlain, open_acount-UsersPlain, refresh_groups-UsersPlain,
  replace_user-UsersPlain, close_acount-UsersPlain, leave_public-UsersPlain,
  delete_acount-UsersPlain,
}
use aim_to_v.Net.Plain.Handlers.{
  set_up_member-UsersPlain, create_group-UsersPlain, on_group_add-UsersPlain,
  on_msg_list_req-UsersPlain, send_add_ack-UsersPlain, on_acount_add-UsersPlain,
  on_acount_modify-UsersPlain, on_acount_delete-UsersPlain,
}

handle-UsersPlain :
    (host : Host) (r : Request) (msg : RecvMsgPkg) (body : Bytes) (fd : ℕ) (n n' : NetInfo)
    (index : ℕ)
    → UsersPlain n
    → handle host r msg body fd n ≡ some (n', index)
    → UsersPlain n'
unfolding handle
handle-UsersPlain host acount_add msg body fd n n' i p h =
    on_acount_add-UsersPlain host body msg.sub_pkg_data_length fd n p n' i h
handle-UsersPlain host acount_modify msg body fd n n' i p h =
    on_acount_modify-UsersPlain host body msg.sub_pkg_data_length fd n p n' i h
handle-UsersPlain host acount_delete msg body fd n n' i p h =
    on_acount_delete-UsersPlain host body msg.sub_pkg_data_length fd n p n' i h
handle-UsersPlain host acount_login msg body fd n n' i p h =
    ground
      (arith, on_acount_login-UsersPlain host.hash host.now body msg.sub_pkg_data_length fd n p)
handle-UsersPlain host acount_logout msg body fd n n' i p h =
    ground (arith, on_acount_logout-UsersPlain host.now body msg.sub_pkg_data_length fd n p)
handle-UsersPlain host group_add msg body fd n n' i p h =
    ground (arith, on_group_add-UsersPlain host.now body msg.sub_pkg_data_length fd n p)
handle-UsersPlain host group_modify msg body fd n n' i p h =
    on_group_modify-UsersPlain host.now body msg.sub_pkg_data_length fd n n' i p h
handle-UsersPlain host group_delete msg body fd n n' i p h =
    on_group_delete-UsersPlain body msg.sub_pkg_data_length fd n n' i p h
handle-UsersPlain host msg_list_req msg body fd n n' i p h =
    on_msg_list_req-UsersPlain msg.pkg_sender_guid body msg.sub_pkg_data_length fd n n' i p h
handle-UsersPlain host acount_can_reg msg body fd n n' i p h =
    ground
      (arith, queries-UsersPlain host.hash msg.pkg_sender_guid body msg.sub_pkg_data_length fd n p)
handle-UsersPlain host user_info_req msg body fd n n' i p h =
    ground
      (arith, queries-UsersPlain host.hash msg.pkg_sender_guid body msg.sub_pkg_data_length fd n p)
handle-UsersPlain host group_info_req msg body fd n n' i p h =
    ground
      (arith, queries-UsersPlain host.hash msg.pkg_sender_guid body msg.sub_pkg_data_length fd n p)
handle-UsersPlain host user_info_brief_req msg body fd n n' i p h =
    ground
      (arith, queries-UsersPlain host.hash msg.pkg_sender_guid body msg.sub_pkg_data_length fd n p)
handle-UsersPlain host msg_send msg body fd n n' i p h =
    ground
      (arith, queries-UsersPlain host.hash msg.pkg_sender_guid body msg.sub_pkg_data_length fd n p)

-- Whatever packet arrives: if no user has a friend or a log and every user is kept under the user's
-- own guid, the same holds after `parse_msg`, where it has a defined result.
pub parse_msg-UsersPlain :
    (host : Host) (data_ptr : Bytes) (fd : ℕ) (msg : RecvMsgPkg) (n n' : NetInfo) (index : ℕ)
    → UsersPlain n
    → parse_msg host data_ptr fd msg n ≡ some (n', index)
    → UsersPlain n'
unfolding parse_msg parsed
parse_msg-UsersPlain host data_ptr fd msg n n' index p h =
    elim (Option-cases (request_of msg.pkg_type)) [
      | inl e ↦ ground (arith, p, send_client_ack-UsersPlain 20091 3 fd n p)
      | inr (r, e) ↦ elim (Option-cases (handle host r msg (drop head_length data_ptr) fd n)) [
        | inl e' ↦ ground (arith, p)
        | inr ((n1, i), e') ↦
            let q : UsersPlain n1 =
              handle-UsersPlain host r msg (drop head_length data_ptr) fd n n1 i p e' in
            ground (arith, p, q, send_client_ack-UsersPlain 20091 3 fd n1 q)
      ]
    ]

-- ===== src/Net/Index.antt =====
-- The index that a handler returns is within the length it was given: the offsets that `from_data`
-- of each request reaches, and what `parse_msg` makes of them.
use aim_to_v.Base.{
  ℕ, zero, suc, ◌+◌, ◌-◌, ◌^◌, ◌≤◌, ◌<◌, ◌≡◌, ◌⊎◌, refl, some, drop, Option-cases, inl, inr, arith,
}
use aim_to_v.Wire.Bytes.{Bytes, at, get_num, get_bytes}
use aim_to_v.Wire.Codec.{Layout, guarded_read}
use aim_to_v.Wire.Codec
use aim_to_v.Wire.Account.{
  acount_login, acount_login_init, acount_login_read, acount_logout, acount_logout_init,
  acount_logout_read, acount_can_reg, acount_can_reg_init, acount_can_reg_read, acount_delete_init,
  acount_delete_read,
}
use aim_to_v.Wire.Account.{acount_delete as delete_body}
use aim_to_v.Wire.Query.{
  user_info_req_init, user_info_req_read, group_info_req_init, group_info_req_read,
  msg_list_req_init, msg_list_req_read,
}
use aim_to_v.Wire.Query.{
  user_info_req as user_query, group_info_req as group_query, msg_list_req as list_query,
}
use aim_to_v.Wire.GroupRequest.{
  group_delete_init, group_delete_read, group_modify_init, group_modify_read,
}
use aim_to_v.Wire.GroupRequest.{group_delete as group_deletion, group_modify as group_change}
use aim_to_v.Wire.Member.{member, member_init, member_length, member_read}
use aim_to_v.Wire.MsgInfo.{msg_info_init, msg_info_from_data, msg_info_read}
use aim_to_v.Wire.Package.{RecvMsgPkg, head_length}
use aim_to_v.Group.{GroupInfo, empty_group}
use aim_to_v.Group.Stream
use aim_to_v.Group.Stream.{group_read, group_length, read_members, store_member}
use aim_to_v.User.{UserInfo, empty_user}
use aim_to_v.User
use aim_to_v.Net.{NetInfo}
use aim_to_v.Net.Logins.{on_acount_login, on_acount_logout, on_acount_can_reg}
use aim_to_v.Net.Groups.{on_group_modify, on_group_delete}
use aim_to_v.Net.Queries.{on_user_info_req, on_group_info_req, on_user_brief_info_req, on_msg_send}
use aim_to_v.Net.Accounts.{Host, on_acount_add, on_acount_modify, on_acount_delete}
use aim_to_v.Net.Create.{global_group_guid, on_group_add}
use aim_to_v.Net.History.{on_msg_list_req}
use aim_to_v.Net.Dispatch.{
  Request, request_of, handle, parsed, parse_msg, acount_add, acount_modify, acount_delete,
  acount_login as login_request, acount_logout as logout_request, acount_can_reg as can_reg_request,
  group_add, group_modify, group_delete, user_info_req, group_info_req, user_info_brief_req,
  msg_send, msg_list_req,
}

-- A class of fixed size whose reader moves by its length.
layout-index :
    {T : Type 0} (l : Layout T) (src : Bytes) (len : ℕ) (old : T)
    → (l.read (at 0 src)).1.index ≡ l.length
    → (Codec.from_data l (some src) len old).1 ≤ len
unfolding Codec.from_data guarded_read
layout-index l src len old h = ground arith

module _ (src : Bytes) (len : ℕ) where
  login-index : (Codec.from_data acount_login (some src) len acount_login_init).1 ≤ len
  unfolding acount_login_read get_num get_bytes
  login-index = layout-index acount_login src len acount_login_init refl

  logout-index : (Codec.from_data acount_logout (some src) len acount_logout_init).1 ≤ len
  unfolding acount_logout_read get_num get_bytes
  logout-index = layout-index acount_logout src len acount_logout_init refl

  can_reg-index : (Codec.from_data acount_can_reg (some src) len acount_can_reg_init).1 ≤ len
  unfolding acount_can_reg_read get_num get_bytes
  can_reg-index = layout-index acount_can_reg src len acount_can_reg_init refl

  delete-index : (Codec.from_data delete_body (some src) len acount_delete_init).1 ≤ len
  unfolding acount_delete_read get_num get_bytes
  delete-index = layout-index delete_body src len acount_delete_init refl

  user_query-index : (Codec.from_data user_query (some src) len user_info_req_init).1 ≤ len
  unfolding user_info_req_read get_num get_bytes
  user_query-index = layout-index user_query src len user_info_req_init refl

  group_query-index : (Codec.from_data group_query (some src) len group_info_req_init).1 ≤ len
  unfolding group_info_req_read get_num get_bytes
  group_query-index = layout-index group_query src len group_info_req_init refl

  list_query-index : (Codec.from_data list_query (some src) len msg_list_req_init).1 ≤ len
  unfolding msg_list_req_read get_num get_bytes
  list_query-index = layout-index list_query src len msg_list_req_init refl

  group_deletion-index : (Codec.from_data group_deletion (some src) len group_delete_init).1 ≤ len
  unfolding group_delete_read get_num get_bytes
  group_deletion-index = layout-index group_deletion src len group_delete_init refl

  group_change-index : (Codec.from_data group_change (some src) len group_modify_init).1 ≤ len
  unfolding group_modify_read get_num get_bytes
  group_change-index = layout-index group_change src len group_modify_init refl

  member-index : (Codec.from_data member (some src) len member_init).1 ≤ len
  unfolding member_read get_num get_bytes
  member-index = layout-index member src len member_init refl

  msg_info-index : (msg_info_from_data (some src) len msg_info_init).1 ≤ len
  unfolding msg_info_from_data msg_info_read get_num get_bytes
  msg_info-index = ground arith

  user-index :
      (hash : Bytes → ℕ) (beyond : Bytes) (now global : ℕ) (u : UserInfo)
      → (User.from_data hash beyond now global src len u).1 ≤ len
  unfolding User.from_data
  user-index hash beyond now global u = ground arith

read_members-index :
    (n : ℕ) (src : Bytes) (left index : ℕ) (g : GroupInfo)
    → (read_members n src left index g).1 ≤ index + left
unfolding read_members Codec.from_data guarded_read
read_members-index zero src left index g = omega arith
read_members-index (suc n) src left index g = ground (
  arith,
  read_members-index n src left index g,
  read_members-index n (drop member_length src) (left - member_length) (index + member_length)
      (store_member ((Codec.from_data member (some src) left member_init).0) g),
)

-- Where `len` is at least the 12 bytes of the fixed part, the members stay within the rest.
group-index :
    (src : Bytes) (len : ℕ) → (Stream.from_data global_group_guid src len empty_group).1 ≤ len
unfolding Stream.from_data group_read get_num empty_group group_length
group-index src len =
    let (g, c) = group_read global_group_guid empty_group (at 0 src) in
    ground (arith, read_members-index g.member_count c.rest (len - 12) 12 g)

module _ (src : Bytes) (len fd : ℕ) (n : NetInfo) where
  on_acount_login-index :
      (hash : Bytes → ℕ) (now : ℕ) → (on_acount_login hash now src len fd n).1 ≤ len
  unfolding on_acount_login
  on_acount_login-index hash now = ground (arith, login-index src len)

  on_acount_logout-index : (now : ℕ) → (on_acount_logout now src len fd n).1 ≤ len
  unfolding on_acount_logout
  on_acount_logout-index now = ground (arith, logout-index src len)

  on_acount_can_reg-index : (hash : Bytes → ℕ) → (on_acount_can_reg hash src len fd n).1 ≤ len
  unfolding on_acount_can_reg
  on_acount_can_reg-index hash = ground (arith, can_reg-index src len)

  on_group_modify-index :
      (now : ℕ) (n' : NetInfo) (index : ℕ)
      → on_group_modify now src len fd n ≡ some (n', index)
      → index ≤ len
  unfolding on_group_modify
  on_group_modify-index now n' index h = ground (arith, group_change-index src len)

  on_group_delete-index :
      (n' : NetInfo) (index : ℕ) → on_group_delete src len fd n ≡ some (n', index) → index ≤ len
  unfolding on_group_delete
  on_group_delete-index n' index h = ground (arith, group_deletion-index src len)

  on_group_add-index : (now : ℕ) → (on_group_add now src len fd n).1 ≤ len
  unfolding on_group_add
  on_group_add-index now = ground (arith, group-index src len)

  on_user_info_req-index : (on_user_info_req src len fd n).1 ≤ len
  unfolding on_user_info_req
  on_user_info_req-index = ground (arith, user_query-index src len)

  on_group_info_req-index : (on_group_info_req src len fd n).1 ≤ len
  unfolding on_group_info_req
  on_group_info_req-index = ground (arith, group_query-index src len)

  on_user_brief_info_req-index : (on_user_brief_info_req src len fd n).1 ≤ len
  unfolding on_user_brief_info_req
  on_user_brief_info_req-index = ground (arith, user_query-index src len)

  on_msg_send-index : (guid : ℕ) → (on_msg_send guid src len fd n).1 ≤ len
  unfolding on_msg_send
  on_msg_send-index guid = ground (arith, msg_info-index src len)

module _ (src : Bytes) (len fd : ℕ) (n n' : NetInfo) (index : ℕ) where
  on_msg_list_req-index :
      (guid : ℕ) → on_msg_list_req guid src len fd n ≡ some (n', index) → index ≤ len
  unfolding on_msg_list_req
  on_msg_list_req-index guid h = ground (arith, list_query-index src len)

  on_acount_delete-index :
      (host : Host) → on_acount_delete host src len fd n ≡ some (n', index) → index ≤ len
  unfolding on_acount_delete
  on_acount_delete-index host h = ground (arith, delete-index src len)

  on_acount_add-index :
      (host : Host) → on_acount_add host src len fd n ≡ some (n', index) → index ≤ len
  unfolding on_acount_add
  on_acount_add-index host h =
      ground
        (arith, user-index src len host.hash host.beyond host.now n.global_user_guid empty_user)

  on_acount_modify-index :
      (host : Host) → on_acount_modify host src len fd n ≡ some (n', index) → index ≤ len
  unfolding on_acount_modify
  on_acount_modify-index host h =
      ground
        (arith, user-index src len host.hash host.beyond host.now n.global_user_guid empty_user)

module _ (host : Host) (msg : RecvMsgPkg) (body : Bytes) (fd : ℕ) (n n' : NetInfo) (index : ℕ) where
  -- Every handler stays within the length of the packet's head.
  handle-index :
      (r : Request)
      → handle host r msg body fd n ≡ some (n', index)
      → index ≤ msg.sub_pkg_data_length
  unfolding handle
  handle-index acount_add h = on_acount_add-index body msg.sub_pkg_data_length fd n n' index host h
  handle-index acount_modify h =
      on_acount_modify-index body msg.sub_pkg_data_length fd n n' index host h
  handle-index acount_delete h =
      on_acount_delete-index body msg.sub_pkg_data_length fd n n' index host h
  handle-index login_request h =
      ground (arith, on_acount_login-index body msg.sub_pkg_data_length fd n host.hash host.now)
  handle-index logout_request h =
      ground (arith, on_acount_logout-index body msg.sub_pkg_data_length fd n host.now)
  handle-index can_reg_request h =
      ground (arith, on_acount_can_reg-index body msg.sub_pkg_data_length fd n host.hash)
  handle-index group_add h =
      ground (arith, on_group_add-index body msg.sub_pkg_data_length fd n host.now)
  handle-index group_modify h =
      on_group_modify-index body msg.sub_pkg_data_length fd n host.now n' index h
  handle-index group_delete h = on_group_delete-index body msg.sub_pkg_data_length fd n n' index h
  handle-index user_info_req h =
      ground (arith, on_user_info_req-index body msg.sub_pkg_data_length fd n)
  handle-index group_info_req h =
      ground (arith, on_group_info_req-index body msg.sub_pkg_data_length fd n)
  handle-index user_info_brief_req h =
      ground (arith, on_user_brief_info_req-index body msg.sub_pkg_data_length fd n)
  handle-index msg_send h =
      ground (arith, on_msg_send-index body msg.sub_pkg_data_length fd n msg.pkg_sender_guid)
  handle-index msg_list_req h =
      on_msg_list_req-index body msg.sub_pkg_data_length fd n n' index msg.pkg_sender_guid h

-- For a head whose length and the head itself are together below 2 ^ 32, an index that
-- parse_msg returns for any packet and state is at most that sum, and is 0 or more than the
-- length of the head.
pub parse_msg-index :
    (host : Host) (data_ptr : Bytes) (fd : ℕ) (msg : RecvMsgPkg) (n n' : NetInfo) (index : ℕ)
    → msg.sub_pkg_data_length + head_length < 2 ^ 32
    → parse_msg host data_ptr fd msg n ≡ some (n', index)
    → (index ≤ msg.sub_pkg_data_length + head_length) × ((index ≡ 0) ⊎ (head_length < index))
unfolding parse_msg parsed
parse_msg-index host data_ptr fd msg n n' index b h =
    elim (Option-cases (request_of msg.pkg_type)) [
      | inl e ↦ ground arith
      | inr (r, e) ↦ elim (Option-cases (handle host r msg (drop head_length data_ptr) fd n)) [
        | inl e' ↦ ground arith
        | inr ((n1, i), e') ↦
            ground (arith, handle-index host msg (drop head_length data_ptr) fd n n1 i r e')
      ]
    ]

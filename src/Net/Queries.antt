-- ===== src/Net/Queries.antt =====
-- The handlers of source/read_thread.cpp for questions and for messages.
use aim_to_v.Base.{ℕ, ◌-◌, true, not, ◌==◌, if◌then◌else◌, none, some, [], ◌∷◌, ◌++◌, length}
use aim_to_v.Base.Map.{find}
use aim_to_v.Wire.Bytes.{Bytes}
use aim_to_v.Wire.Codec.{codec}
use aim_to_v.Wire.Codec
use aim_to_v.Wire.Query.{user_info_req, user_info_req_init, group_info_req, group_info_req_init}
use aim_to_v.Wire.Ack.{brief_user_info}
use aim_to_v.Wire.Package.{head_length}
use aim_to_v.Wire.MsgInfo.{msg_info_init, msg_info_from_data}
use aim_to_v.Group.Stream
use aim_to_v.User.{
  UserInfo, on_set_online_status, on_join_group, on_leave_group, on_delete_group, make_brief_data,
}
use aim_to_v.User
use aim_to_v.Net.{
  NetInfo, error_user_not_exist_or_send_guid, max_buf_size, packet, send_client_ack, send_packet,
}

unfoldable pub on_user_info_req : Bytes → ℕ → ℕ → NetInfo → NetInfo × ℕ
on_user_info_req data_ptr len fd n =
    let (req, index) = Codec.from_data user_info_req (some data_ptr) len user_info_req_init in
    if index == 0 then (n, 0) else elim (find req.user_guid n.users_map) [
      | none ↦ (n, index)
      | some user ↦
          let (k, body) = User.to_data true (max_buf_size - head_length) user in
          (send_packet fd (packet 10060 k body) n, index)
    ]

unfoldable pub on_group_info_req : Bytes → ℕ → ℕ → NetInfo → NetInfo × ℕ
on_group_info_req data_ptr len fd n =
    let (req, index) = Codec.from_data group_info_req (some data_ptr) len group_info_req_init in
    if index == 0 then (n, 0) else elim (find req.group_guid n.groups_map) [
      | none ↦ (n, index)
      | some g ↦
          let (k, body) = Stream.to_data true (max_buf_size - head_length) g in
          (send_packet fd (packet 10061 k body) n, index)
    ]

unfoldable pub on_user_brief_info_req : Bytes → ℕ → ℕ → NetInfo → NetInfo × ℕ
on_user_brief_info_req data_ptr len fd n =
    let (req, index) = Codec.from_data user_info_req (some data_ptr) len user_info_req_init in
    if index == 0 then (n, 0) else elim (find req.user_guid n.users_map) [
      | none ↦ (n, index)
      | some user ↦
          let body =
            Codec.to_data brief_user_info true (max_buf_size - head_length)
              (make_brief_data user) in
          (send_packet fd (packet 10062 (length body) body) n, index)
    ]

unfoldable pub on_msg_send : ℕ → Bytes → ℕ → ℕ → NetInfo → NetInfo × ℕ
on_msg_send guid data_ptr len fd n =
    let (msg, index) = msg_info_from_data (some data_ptr) len msg_info_init in
    if index == 0 then (n, 0) else elim (find fd n.conn_user_map) [
      | none ↦ (send_client_ack 10090 error_user_not_exist_or_send_guid fd n, index)
      | some user ↦
          if not (user == guid)
          then (send_client_ack 10090 error_user_not_exist_or_send_guid fd n, index)
          else (record n { msg_list = n.msg_list ++ msg ∷ [] }, index)
    ]

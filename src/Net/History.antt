-- ===== src/Net/History.antt =====
-- `on_msg_list_req` of source/read_thread.cpp.
use aim_to_v.Base.{
  ℕ, ◌+◌, ◌-◌, Bool, true, ltb, ◌==◌, if◌then◌else◌, Option, none, some, ◌++◌, length,
}
use aim_to_v.Base.Map.{find}
use aim_to_v.Wire.Bytes.{Bytes}
use aim_to_v.Wire.Codec
use aim_to_v.Wire.Query.{msg_list_req, msg_list_req_init}
use aim_to_v.Wire.MsgInfo.{MsgInfo}
use aim_to_v.Wire.MsgList.{
  ClientMsgListAck, client_msg_list_ack_init, append_msg, client_msg_list_ack_length,
  client_msg_list_ack_to_data,
}
use aim_to_v.Wire.Package.{new_pkg, head_length, to_head}
use aim_to_v.Group.{traverse_msgs}
use aim_to_v.User.Store.{traverse_list}
use aim_to_v.Net.{NetInfo, max_buf_size, send_msg, send_client_ack}

abbrev pub error_msg_list_req : ℕ
error_msg_list_req = 120

-- `make_pkg` of the list and what it leaves to send; `none` is undefined behaviour in `to_data`, or a
-- list so long that `make_pkg` refuses it and the old content of the buffer would be sent.
unfoldable pub list_packet : ClientMsgListAck → Option Bytes
list_packet a =
    if ltb max_buf_size (head_length + client_msg_list_ack_length a)
    then none
    else elim (client_msg_list_ack_to_data true (max_buf_size - head_length) a) [
      | none ↦ none
      | some (a', body) ↦ some (
          to_head true max_buf_size (record (new_pkg 0 10091) { sub_pkg_data_length = length body })
          ++ body)
    ]

-- The callback of both walks.
abbrev pub append_all : Option (MsgInfo → ClientMsgListAck → ClientMsgListAck × Bool)
append_all = some λ info ack. (append_msg info ack, true)

unfoldable pub send_list : ℕ → ClientMsgListAck → NetInfo → Option NetInfo
send_list fd ack n = elim (list_packet ack) [
  | none ↦ none
  | some bytes ↦ some (send_msg fd bytes n)
]

unfoldable pub on_msg_list_req : ℕ → Bytes → ℕ → ℕ → NetInfo → Option (NetInfo × ℕ)
on_msg_list_req guid data_ptr len fd n =
    let (mlr, index) = Codec.from_data msg_list_req (some data_ptr) len msg_list_req_init in
    let failed = send_client_ack 20091 error_msg_list_req fd n in
    let answer : Option NetInfo =
      if mlr.reg_type == 1
      then elim (find mlr.reg_guid n.groups_map) [
        | none ↦ some failed
        | some g ↦ send_list fd (traverse_msgs append_all g.msg_list client_msg_list_ack_init) n
      ]
      else (if mlr.reg_type == 2
          then elim (find guid n.users_map) [
            | none ↦ some failed
            | some user ↦
                send_list fd (traverse_list mlr.reg_guid append_all user client_msg_list_ack_init).0
                  n
          ]
          else some n) in
    if index == 0 then some (n, 0) else elim answer [ none ↦ none | some n' ↦ some (n', index) ]

-- ===== src/Net/Dispatch.antt =====
-- `parse_msg` of source/read_thread.cpp: a packet goes to the handler of its type.
use aim_to_v.Base.{
  ℕ, ◌+◌, ltb, ◌==◌, if◌then◌else◌, Option, none, some, List, [], ◌∷◌, drop, ◌%◌, ◌^◌,
}
use aim_to_v.Base.Map.{find}
use aim_to_v.Wire.Bytes.{Bytes}
use aim_to_v.Wire.Package.{RecvMsgPkg, head_length}
use aim_to_v.Net.{NetInfo, send_client_ack}
use aim_to_v.Net.Logins.{on_acount_login, on_acount_logout, on_acount_can_reg}
use aim_to_v.Net.Groups.{on_group_modify, on_group_delete}
use aim_to_v.Net.Queries.{on_user_info_req, on_group_info_req, on_user_brief_info_req, on_msg_send}
use aim_to_v.Net.Accounts.{Host, on_acount_add, on_acount_modify, on_acount_delete}
use aim_to_v.Net.Create.{on_group_add}
use aim_to_v.Net.History.{on_msg_list_req}

abbrev pub server_msg_type_max : ℕ
server_msg_type_max = 9999

abbrev pub error_parse_msg : ℕ
error_parse_msg = 3

-- `enum msg_type`, the requests.
pub data Request : Type 0 where
  acount_add acount_modify acount_delete acount_login acount_logout acount_can_reg : Request
  group_add group_modify group_delete : Request
  user_info_req group_info_req user_info_brief_req : Request
  msg_send msg_list_req : Request

-- Their numbers.
abbrev pub requests : List (ℕ × Request)
requests =
    (0, acount_add)
    ∷ (1, acount_modify)
    ∷ (2, acount_delete)
    ∷ (3, acount_login)
    ∷ (4, acount_logout)
    ∷ (5, acount_can_reg)
    ∷ (30, group_add)
    ∷ (31, group_modify)
    ∷ (32, group_delete)
    ∷ (60, user_info_req)
    ∷ (61, group_info_req)
    ∷ (62, user_info_brief_req)
    ∷ (90, msg_send)
    ∷ (91, msg_list_req)
    ∷ []

-- The cases of the switch; `none` is the default.
abbrev pub request_of : ℕ → Option Request
request_of type = find type requests

-- A case of the switch: the packet's body, its length and sender by the head, its connection.
unfoldable pub handle : Host → Request → RecvMsgPkg → Bytes → ℕ → NetInfo → Option (NetInfo × ℕ)
handle host acount_add msg body fd n = on_acount_add host body msg.sub_pkg_data_length fd n
handle host acount_modify msg body fd n = on_acount_modify host body msg.sub_pkg_data_length fd n
handle host acount_delete msg body fd n = on_acount_delete host body msg.sub_pkg_data_length fd n
handle host acount_login msg body fd n =
    some (on_acount_login host.hash host.now body msg.sub_pkg_data_length fd n)
handle host acount_logout msg body fd n =
    some (on_acount_logout host.now body msg.sub_pkg_data_length fd n)
handle host acount_can_reg msg body fd n =
    some (on_acount_can_reg host.hash body msg.sub_pkg_data_length fd n)
handle host group_add msg body fd n = some (on_group_add host.now body msg.sub_pkg_data_length fd n)
handle host group_modify msg body fd n = on_group_modify host.now body msg.sub_pkg_data_length fd n
handle host group_delete msg body fd n = on_group_delete body msg.sub_pkg_data_length fd n
handle host user_info_req msg body fd n = some (on_user_info_req body msg.sub_pkg_data_length fd n)
handle host group_info_req msg body fd n =
    some (on_group_info_req body msg.sub_pkg_data_length fd n)
handle host user_info_brief_req msg body fd n =
    some (on_user_brief_info_req body msg.sub_pkg_data_length fd n)
handle host msg_send msg body fd n =
    some (on_msg_send msg.pkg_sender_guid body msg.sub_pkg_data_length fd n)
handle host msg_list_req msg body fd n =
    on_msg_list_req msg.pkg_sender_guid body msg.sub_pkg_data_length fd n

-- The answer to an index of 0, and the head added to any other.
unfoldable pub parsed : ℕ → NetInfo × ℕ → NetInfo × ℕ
parsed fd (n, index) =
    if index == 0
    then (send_client_ack 20091 error_parse_msg fd n, 0)
    else (n, (index + head_length) % 2 ^ 32)

unfoldable pub parse_msg : Host → Bytes → ℕ → RecvMsgPkg → NetInfo → Option (NetInfo × ℕ)
parse_msg host data_ptr fd msg n =
    if ltb server_msg_type_max msg.pkg_type then some (n, 0) else elim (request_of msg.pkg_type) [
      | none ↦ some (parsed fd (n, 0))
      | some request ↦ elim (handle host request msg (drop head_length data_ptr) fd n) [
        | none ↦ none
        | some result ↦ some (parsed fd result)
      ]
    ]

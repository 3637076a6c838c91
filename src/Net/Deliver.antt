-- ===== src/Net/Deliver.antt =====
-- The loop over the queue of chat messages at the end of a round of `common::read_thread`.
use aim_to_v.Base.{
  ℕ, zero, suc, ◌+◌, ◌-◌, ◌%◌, ◌^◌, Bool, true, false, not, ◌&&◌, ◌||◌, ltb, ◌==◌, if◌then◌else◌,
  Option, none, some, [], ◌∷◌, ◌++◌, length,
}
use aim_to_v.Base.Map.{Map, find, update}
use aim_to_v.Base.Outcome.{Outcome, done, out_of_fuel, continue}
use aim_to_v.Wire.Bytes.{Bytes}
use aim_to_v.Wire.Member.{Member, send_msg_count_limit_50, send_msg_count_limit_10, cant_send_msg}
use aim_to_v.Wire.Member
use aim_to_v.Wire.MsgInfo.{MsgInfo, msg_type_all, msg_type_group, msg_type_user, msg_info_to_data}
use aim_to_v.Wire.Package.{new_pkg, head_length, to_head, set_sub_pkg_data_length}
use aim_to_v.Group.{GroupInfo, get_member_by_guid}
use aim_to_v.Group.Walk.{walk}
use aim_to_v.Group
use aim_to_v.User.{UserInfo, on_update_group_active, on_update_friend_active}
use aim_to_v.User
use aim_to_v.Net.{NetInfo, max_buf_size, subscript, send_msg, send_client_ack, put_group, put_user}

abbrev pub error_group_msg_limit : ℕ
error_group_msg_limit = 112

-- The packet that carries a message; `none` is a failure of one of the two calls that make it.
unfoldable pub msg_packet : MsgInfo → Option Bytes
msg_packet msg =
    let body = msg_info_to_data true (max_buf_size - head_length) msg in
    let (h, counted) = set_sub_pkg_data_length (length body) (new_pkg msg.send_guid 20090) in
    let head = to_head true max_buf_size h in
    if counted && not (length head == 0) then some (head ++ body) else none

-- `sender->permissions > SEND_MSG` and the three cases under it.
unfoldable pub is_limited : Member → Bool
is_limited sender =
    ltb Member.send_msg sender.permissions
    && ((sender.permissions == send_msg_count_limit_50 && ltb 50 sender.msg_count)
        || ((sender.permissions == send_msg_count_limit_10 && ltb 10 sender.msg_count)
            || sender.permissions == cant_send_msg))

abbrev pub counted : Member → Member
counted m = record m { msg_count = (m.msg_count + 1) % 2 ^ 16 }

-- The walk over the members: the user's entry of the group gets the time, and a connected member the
-- packet; the sender's count goes up. A node that is gone is undefined.
unfoldable pub hand_out :
    ℕ → MsgInfo → Bytes → ℕ → GroupInfo × NetInfo → Option ((GroupInfo × NetInfo) × Bool)
hand_out now msg bytes node (g, n) = elim (find node g.members_list) [
  | none ↦ none
  | some info ↦ elim (find info.user_guid n.users_map) [
    | none ↦ some ((g, n), false)
    | some user ↦
        let n' = put_user info.user_guid (on_update_group_active now msg.recv_guid user).0 n in
        elim (find info.user_guid n'.user_conn_map) [
          | none ↦ some ((g, n'), true)
          | some conn ↦ some (
            (
              if info.user_guid == msg.send_guid
                  then record g { members_list = update node counted g.members_list }
                  else g,
              send_msg conn bytes n',
            ),
            true,
          )
        ]
  ]
]

-- `on_add_msg`, the packet, and the walk.
unfoldable pub post_group : ℕ → MsgInfo → GroupInfo → NetInfo → Option NetInfo
post_group now msg g n =
    let (g1, msg', _) = Group.on_add_msg msg g in
    elim (msg_packet msg') [
      | none ↦ some (put_group msg.recv_guid g1 n)
      | some bytes ↦ elim (walk (hand_out now msg' bytes) g1 (g1, n)) [
        | none ↦ none
        | some (g2, n2) ↦ some (put_group msg.recv_guid g2 n2)
      ]
    ]

-- The acknowledgement for a sender who may not send goes to `user_conn_map[send_guid]`.
unfoldable pub refuse_sender : MsgInfo → NetInfo → NetInfo
refuse_sender msg n =
    let (conns, conn) = subscript msg.send_guid n.user_conn_map in
    send_client_ack 10090 error_group_msg_limit conn (record n { user_conn_map = conns })

-- A message to a group. A sender who is no member is a null pointer: `none`.
unfoldable pub deliver_group : ℕ → MsgInfo → NetInfo → Option NetInfo
deliver_group now msg n = elim (find msg.recv_guid n.groups_map) [
  | none ↦ some n
  | some g ↦ elim (get_member_by_guid msg.send_guid g) [
    | none ↦ none
    | some node ↦ elim (find node g.members_list) [
      | none ↦ none
      | some sender ↦
          if is_limited sender then some (refuse_sender msg n) else post_group now msg g n
    ]
  ]
]

-- `send_msg` to the connection of a user, if there is one.
unfoldable pub send_to_user : ℕ → Bytes → NetInfo → NetInfo
send_to_user guid bytes n = elim (find guid n.user_conn_map) [
  | none ↦ n
  | some conn ↦ send_msg conn bytes n
]

-- The packet to the receiver, and to the sender if that is somebody else.
unfoldable pub post_user : MsgInfo → NetInfo → NetInfo
post_user msg n = elim (msg_packet msg) [
  | none ↦ n
  | some bytes ↦
      let n' = send_to_user msg.recv_guid bytes n in
      if msg.send_guid == msg.recv_guid then n' else send_to_user msg.send_guid bytes n'
]

-- The sender's own log.
unfoldable pub log_sender : ℕ → MsgInfo → UserInfo → NetInfo → Option (NetInfo × MsgInfo)
log_sender now msg sender n =
    let (sender', friendly) = on_update_friend_active now msg.recv_guid sender in
    if not friendly then some (n, msg) else elim (User.on_add_msg msg sender') [
      | none ↦ none
      | some (sender'', msg', _) ↦ some (put_user msg.send_guid sender'' n, msg')
    ]

-- A private message once the receiver has the sender for a friend.
unfoldable pub deliver_friend : ℕ → MsgInfo → UserInfo → NetInfo → Option NetInfo
deliver_friend now msg user n = elim (User.on_add_msg msg user) [
  | none ↦ none
  | some (user', msg', _) ↦
      let n' = put_user msg.recv_guid user' n in
      elim (find msg.send_guid n'.users_map) [
        | none ↦ some n'
        | some sender ↦ elim (log_sender now msg' sender n') [
          | none ↦ none
          | some (n'', msg'') ↦ some (post_user msg'' n'')
        ]
      ]
]

-- `msg_list.pop_front()`; on an empty list it is undefined.
abbrev pub pop_next : NetInfo → Option NetInfo
pop_next n = elim n.msg_list [ [] ↦ none | _ ∷ queue ↦ some (record n { msg_list = queue }) ]

-- The loop over `user_conn_map` for a message to everybody. At the sender's own entry, and where the
-- packet cannot be made, it pops the queue while it goes on to use the message: with another entry
-- to come that is `none`, and at the last one a second message is popped after it.
unfoldable pub deliver_all : MsgInfo → Map ℕ → NetInfo → Option NetInfo
deliver_all msg [] n = some n
deliver_all msg ((guid, conn) ∷ conns) n =
    let rest : Option NetInfo = elim (msg_packet msg) [
      | none ↦ none
      | some bytes ↦ deliver_all msg conns (send_msg conn bytes n)
    ] in
    let broken = guid == msg.send_guid || elim (msg_packet msg) [ none ↦ true | some _ ↦ false ] in
    if broken then elim conns [ [] ↦ pop_next n | _ ∷ _ ↦ none ] else rest

-- One round for the message at the front of the queue; in `n` it has been popped. `false` is the
-- `continue` that leaves it at the front.
unfoldable pub deliver : ℕ → MsgInfo → NetInfo → Option (NetInfo × Bool)
deliver now msg n =
    if msg.msg_type == msg_type_group
    then elim (deliver_group now msg n) [ none ↦ none | some n' ↦ some (n', true) ]
    else (if msg.msg_type == msg_type_user
        then elim (find msg.recv_guid n.users_map) [
          | none ↦ some (n, true)
          | some user ↦
              let (user', friendly) = on_update_friend_active now msg.send_guid user in
              if not friendly
              then some (n, false)
              else elim (deliver_friend now msg user' n) [ none ↦ none | some n' ↦ some (n', true) ]
        ]
        else (if msg.msg_type == msg_type_all
            then elim (deliver_all msg n.user_conn_map n) [
              | none ↦ none
              | some n' ↦ some (n', true)
            ]
            else some (n, true)))

-- `while (!msg_list.empty())`
unfoldable pub deliver_queue : ℕ → ℕ → NetInfo → Outcome NetInfo
deliver_queue zero now n = elim n.msg_list [ [] ↦ done n | _ ∷ _ ↦ out_of_fuel ]
deliver_queue (suc fuel) now n = elim n.msg_list [
  | [] ↦ done n
  | msg ∷ queue ↦ continue (deliver now msg (record n { msg_list = queue })) λ (n', popped).
      deliver_queue fuel now
        (elim popped [ true ↦ n' | false ↦ record n' { msg_list = msg ∷ n'.msg_list } ])
]

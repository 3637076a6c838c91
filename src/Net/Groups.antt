-- ===== src/Net/Groups.antt =====
-- `on_group_modify` and `on_group_delete` of source/read_thread.cpp. `none` is undefined behaviour.
use aim_to_v.Base.{
  ℕ, ◌-◌, Bool, true, false, not, ◌&&◌, ◌||◌, ltb, ◌==◌, if◌then◌else◌, Option, none, some,
}
use aim_to_v.Base.Map.{find, contains, insert, erase}
use aim_to_v.Wire.Bytes.{Bytes}
use aim_to_v.Wire.Codec.{codec}
use aim_to_v.Wire.Codec
use aim_to_v.Wire.GroupRequest.{
  GroupModify, group_delete, group_delete_init, group_modify, group_modify_init, member_add,
  member_delete, member_set_permission, manager_add, manager_delete, modify_type_max,
}
use aim_to_v.Wire.Package.{head_length}
use aim_to_v.Group.{
  GroupInfo, on_add_member, on_delete_member, on_add_manager, on_delete_manager,
  on_change_permissions,
}
use aim_to_v.Group.Walk.{walk, on_node, on_operator_node}
use aim_to_v.Group.Stream
use aim_to_v.User.{UserInfo, on_join_group, on_leave_group, on_delete_group}
use aim_to_v.Net.{
  NetInfo, error_group_modify_type, error_group_not_exist, error_group_not_leader,
  error_group_operator_not_exist, error_group_target_not_exist, error_ok, max_buf_size, packet,
  put_group, put_user, send_client_ack, send_msg,
}

-- A member of the group gets the packet, on the connection of the request, if the member is
-- connected; a member who is no user ends the walk, and a node that is gone is undefined.
unfoldable pub tell : GroupInfo → ℕ → Bytes → ℕ → NetInfo → Option (NetInfo × Bool)
tell g fd bytes node n = elim (find node g.members_list) [
  | none ↦ none
  | some info ↦
      if not (contains info.user_guid n.users_map)
      then some (n, false)
      else (if contains info.user_guid n.user_conn_map
          then some (send_msg fd bytes n, true)
          else some (n, true))
]

unfoldable pub tell_members : GroupInfo → ℕ → NetInfo → Option NetInfo
tell_members g fd n =
    let (index, body) = Stream.to_data true (max_buf_size - head_length) g in
    elim (packet 10061 index body) [ none ↦ some n | some bytes ↦ walk (tell g fd bytes) g n ]

-- The group after a call on it, and the user after a call that has done its work.
unfoldable pub changed :
    GroupModify → (NetInfo → NetInfo) → Option (GroupInfo × Bool) → NetInfo → Option NetInfo
changed gm then_user result n = elim result [
  | none ↦ none
  | some (g, true) ↦ some (then_user (put_group gm.group_guid g n))
  | some (g, false) ↦ some (put_group gm.group_guid g n)
]

unfoldable pub modify_add : ℕ → GroupModify → ℕ → GroupInfo → UserInfo → NetInfo → Option NetInfo
modify_add now gm fd g user n =
    let (g1, added) =
      on_add_member gm.operate_guid gm.target_guid user.icon_guid (some user.name) g in
    let n1 = put_group gm.group_guid g1 n in
    if added
    then tell_members g1 fd (put_user gm.target_guid (on_join_group now gm.group_guid user).0 n1)
    else some n1

-- The cases of the switch, for a group, a target user and guids that are not 0.
unfoldable pub modify_group : ℕ → GroupModify → ℕ → GroupInfo → UserInfo → NetInfo → Option NetInfo
modify_group now gm fd g user n =
    let operator = gm.operate_guid in
    let target = gm.target_guid in
    let gone = put_user target (on_leave_group gm.group_guid user).0 in
    let same = λ (n' : NetInfo). n' in
    if gm.opreadte_type == member_add
    then modify_add now gm fd g user n
    else (if gm.opreadte_type == member_delete
        then changed gm gone (on_node target g (on_delete_member operator target g)) n
        else (if gm.opreadte_type == member_set_permission
            then changed gm same
                (on_operator_node operator g
                  (on_node target g (on_change_permissions operator target gm.permission g)))
                n
            else (if gm.opreadte_type == manager_add
                then changed gm same (on_node target g (on_add_manager operator target g)) n
                else (if gm.opreadte_type == manager_delete
                    then changed gm same (on_node target g (on_delete_manager operator target g)) n
                    else some n))))

-- With a guid of 0 every case breaks off at once; and a target that is not 0 is a user by then.
unfoldable pub switch_modify : ℕ → GroupModify → ℕ → GroupInfo → NetInfo → Option NetInfo
switch_modify now gm fd g n =
    if gm.operate_guid == 0 || gm.target_guid == 0
    then some n
    else elim (find gm.target_guid n.users_map) [
      | none ↦ some n
      | some user ↦ modify_group now gm fd g user n
    ]

unfoldable pub on_group_modify : ℕ → Bytes → ℕ → ℕ → NetInfo → Option (NetInfo × ℕ)
on_group_modify now data_ptr len fd n =
    let (gm, index) = Codec.from_data group_modify (some data_ptr) len group_modify_init in
    let refused : ℕ → Option (NetInfo × ℕ) =
      λ err_no. some (send_client_ack 10031 err_no fd n, index) in
    if index == 0
    then some (n, 0)
    else (if ltb modify_type_max gm.opreadte_type
        then refused error_group_modify_type
        else elim (find gm.group_guid n.groups_map) [
          | none ↦ refused error_group_not_exist
          | some g ↦
              if not (gm.operate_guid == 0) && not (contains gm.operate_guid n.users_map)
              then refused error_group_operator_not_exist
              else (if not (gm.target_guid == 0) && not (contains gm.target_guid n.users_map)
                  then refused error_group_target_not_exist
                  else elim (switch_modify now gm fd g n) [
                    | none ↦ none
                    | some n' ↦ some (send_client_ack 10031 error_ok fd n', index)
                  ])
        ])

-- The callback of the walk in `on_group_delete`: the member's user leaves the group.
unfoldable pub leave_member : GroupInfo → ℕ → ℕ → NetInfo → Option (NetInfo × Bool)
leave_member g group_guid node n = elim (find node g.members_list) [
  | none ↦ none
  | some info ↦ elim (find info.user_guid n.users_map) [
    | none ↦ some (n, false)
    | some user ↦ some (put_user info.user_guid (on_leave_group group_guid user).0 n, true)
  ]
]

unfoldable pub dissolve : ℕ → ℕ → GroupInfo → NetInfo → Option NetInfo
dissolve group_guid operate_guid g n = elim (walk (leave_member g group_guid) g n) [
  | none ↦ none
  | some n' ↦ some (record n' {
    groups_map = erase group_guid n'.groups_map;
    users_map = elim (find operate_guid n'.users_map) [
      | none ↦ n'.users_map
      | some user ↦ insert operate_guid (on_delete_group user).0 n'.users_map
    ];
  })
]

unfoldable pub on_group_delete : Bytes → ℕ → ℕ → NetInfo → Option (NetInfo × ℕ)
on_group_delete data_ptr len fd n =
    let (gd, index) = Codec.from_data group_delete (some data_ptr) len group_delete_init in
    let refused : ℕ → Option (NetInfo × ℕ) =
      λ err_no. some (send_client_ack 10032 err_no fd n, index) in
    if index == 0 then some (n, 0) else elim (find gd.group_guid n.groups_map) [
      | none ↦ refused error_group_not_exist
      | some g ↦
          if not (gd.operate_guid == g.learder_guid)
          then refused error_group_not_leader
          else (if not (contains gd.operate_guid n.users_map)
              then refused error_group_operator_not_exist
              else elim (dissolve gd.group_guid gd.operate_guid g n) [
                | none ↦ none
                | some n' ↦ some (send_client_ack 10032 error_ok fd n', index)
              ])
    ]

-- ===== src/Net/Defined.antt =====
-- `on_group_modify` is defined for a group whose maps lead only to nodes that are there.
use aim_to_v.Base.{
  ℕ, ◌-◌, ◌≡◌, ◌≢◌, ◌∙◌, Bool, true, Bool-cases, Option, none, some, Option-cases, inl, inr, arith,
}
use aim_to_v.Base.Map.{find, contains}
use aim_to_v.Wire.Bytes.{Bytes}
use aim_to_v.Wire.Codec
use aim_to_v.Wire.GroupRequest.{GroupModify, group_modify, group_modify_init}
use aim_to_v.Wire.Package.{head_length}
use aim_to_v.Group.{
  GroupInfo, on_add_member, on_delete_member, on_add_manager, on_delete_manager,
  on_change_permissions,
}
use aim_to_v.Group.Stream
use aim_to_v.Group.Alive.{
  IsAlive, walk_defined, on_node_defined, on_operator_node_defined, on_add_member-IsAlive,
}
use aim_to_v.Group.Walk.{on_node, on_operator_node}
use aim_to_v.User.{UserInfo, on_join_group, on_leave_group}
use aim_to_v.Net.{NetInfo, max_buf_size, packet, put_group, put_user}
use aim_to_v.Net.Groups.{
  tell, tell_members, changed, modify_add, modify_group, switch_modify, on_group_modify,
}

-- What the members are told.
abbrev pub announcement : GroupInfo → Option Bytes
announcement g =
    let (index, body) = Stream.to_data true (max_buf_size - head_length) g in
    packet 10061 index body

tell_members_defined :
    (g : GroupInfo) (fd : ℕ) (n : NetInfo) → IsAlive g → tell_members g fd n ≢ none
unfolding tell_members tell contains
tell_members_defined g fd n a h = elim (Option-cases (announcement g)) [
  | inl e ↦ ground arith
  | inr (bytes, e) ↦
      let walked = walk_defined (tell g fd bytes) g n a (λ node m there none_there. ground arith) in
      ground (arith, walked.1)
]

changed_defined :
    (gm : GroupModify) (then_user : NetInfo → NetInfo) (result : Option (GroupInfo × Bool))
    (r : GroupInfo × Bool) (n : NetInfo)
    → result ≡ some r
    → changed gm then_user result n ≢ none
unfolding changed
changed_defined gm then_user result r n e h = elim (Bool-cases r.1) [
  | inl d ↦ ground arith
  | inr d ↦ ground arith
]

module _ (now : ℕ) (gm : GroupModify) (fd : ℕ) (g : GroupInfo) (user : UserInfo) (n : NetInfo)
    (a : IsAlive g) where
  modify_add_defined : modify_add now gm fd g user n ≢ none
  unfolding modify_add
  modify_add_defined h =
      let (g1, added) =
        on_add_member gm.operate_guid gm.target_guid user.icon_guid (some user.name) g in
      let alive =
        on_add_member-IsAlive gm.operate_guid gm.target_guid user.icon_guid (some user.name) g a in
      let n1 : NetInfo =
        put_user gm.target_guid (on_join_group now gm.group_guid user).0
          (put_group gm.group_guid g1 n) in
      ground (arith, tell_members_defined g1 fd n1 alive)

  modify_group_defined : modify_group now gm fd g user n ≢ none
  unfolding modify_group
  modify_group_defined h =
      let operator = gm.operate_guid in
      let target = gm.target_guid in
      let gone : NetInfo → NetInfo = put_user target (on_leave_group gm.group_guid user).0 in
      let same : NetInfo → NetInfo = λ m. m in
      let works : (r : GroupInfo × Bool) → on_node target g r ≡ some r =
        λ r. on_node_defined target g r a in
      let deleted = on_delete_member operator target g in
      let granted = on_change_permissions operator target gm.permission g in
      let made = on_add_manager operator target g in
      let unmade = on_delete_manager operator target g in
      ground (
        arith,
        modify_add_defined,
        changed_defined gm gone (on_node target g deleted) deleted n (works deleted),
        changed_defined gm same (on_operator_node operator g (on_node target g granted)) granted n
            (on_operator_node_defined operator g (on_node target g granted) a ∙ works granted),
        changed_defined gm same (on_node target g made) made n (works made),
        changed_defined gm same (on_node target g unmade) unmade n (works unmade),
      )

switch_modify_defined :
    (now : ℕ) (gm : GroupModify) (fd : ℕ) (g : GroupInfo) (n : NetInfo)
    → IsAlive g
    → switch_modify now gm fd g n ≢ none
unfolding switch_modify
switch_modify_defined now gm fd g n a h = elim (Option-cases (find gm.target_guid n.users_map)) [
  | inl e ↦ ground arith
  | inr (user, e) ↦ ground (arith, modify_group_defined now gm fd g user n a)
]

pub on_group_modify_defined :
    (now : ℕ) (data_ptr : Bytes) (len fd : ℕ) (n : NetInfo)
    → let (gm, index) = Codec.from_data group_modify (some data_ptr) len group_modify_init in
      ((g : GroupInfo) → find gm.group_guid n.groups_map ≡ some g → IsAlive g)
      → (n' : NetInfo) × (on_group_modify now data_ptr len fd n ≡ some (n', index))
unfolding on_group_modify
on_group_modify_defined now data_ptr len fd n alive =
    let (gm, index) = Codec.from_data group_modify (some data_ptr) len group_modify_init in
    elim (Option-cases (on_group_modify now data_ptr len fd n)) [
      | inr ((n', i), h) ↦ (n', ground arith)
      | inl h ↦ elim (Option-cases (find gm.group_guid n.groups_map)) [
        | inl e ↦ absurd (ground arith)
        | inr (g, e) ↦ absurd (ground (arith, switch_modify_defined now gm fd g n (alive g e)))
      ]
    ]

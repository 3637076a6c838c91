-- ===== src/Net/Modify.antt =====
-- What a request to modify a group may change.
use aim_to_v.Base.{
  ℕ, ◌≡◌, ◌≢◌, refl, sym, ◌∙◌, Bool, Bool-cases, Option, some, Option-cases, inl, inr, arith,
}
use aim_to_v.Base.Map.{find, find-insert}
use aim_to_v.Wire.Bytes.{Bytes}
use aim_to_v.Wire.Codec
use aim_to_v.Wire.GroupRequest.{GroupModify, group_modify, group_modify_init}
use aim_to_v.Group.{
  GroupInfo, on_delete_member, on_add_manager, on_delete_manager, on_change_permissions,
}
use aim_to_v.Group.Alive.{IsAlive}
use aim_to_v.Group.Walk.{walk-keeps, on_node, on_operator_node}
use aim_to_v.Group.Calls.{
  Call, IsValid, apply, apply-IsValid, add_member, delete_member, add_manager, delete_manager,
  change_permissions,
}
use aim_to_v.User.{UserInfo, on_join_group, on_leave_group}
use aim_to_v.Net.{NetInfo, ack_packet, send_msg, send_client_ack, put_group, put_user}
use aim_to_v.Net.Defined.{announcement, on_group_modify_defined}
use aim_to_v.Net.Groups.{
  tell, tell_members, changed, modify_add, modify_group, switch_modify, on_group_modify,
}

-- All but what has been sent.
pub record SameState (n n' : NetInfo) : Type 0 where
  pub conn_user_map : n'.conn_user_map ≡ n.conn_user_map
  pub user_conn_map : n'.user_conn_map ≡ n.user_conn_map
  pub msg_list : n'.msg_list ≡ n.msg_list
  pub groups_map : n'.groups_map ≡ n.groups_map
  pub users_map : n'.users_map ≡ n.users_map
  pub phone_hash_map : n'.phone_hash_map ≡ n.phone_hash_map
  pub global_user_guid : n'.global_user_guid ≡ n.global_user_guid

send_msg-SameState : (fd : ℕ) (bytes : Bytes) (n : NetInfo) → SameState n (send_msg fd bytes n)
unfolding send_msg
send_msg-SameState fd bytes n = ground arith

SameState-refl : (n : NetInfo) → SameState n n
SameState-refl n = record {
  conn_user_map = refl;
  user_conn_map = refl;
  msg_list = refl;
  groups_map = refl;
  users_map = refl;
  phone_hash_map = refl;
  global_user_guid = refl;
}

SameState-trans : (n n' n'' : NetInfo) → SameState n n' → SameState n' n'' → SameState n n''
SameState-trans n n' n'' s t = ground arith

tell-SameState :
    (g : GroupInfo) (fd : ℕ) (bytes : Bytes) (n0 : NetInfo) (node : ℕ) (n n' : NetInfo)
    (more : Bool)
    → SameState n0 n
    → tell g fd bytes node n ≡ some (n', more)
    → SameState n0 n'
unfolding tell send_msg
tell-SameState g fd bytes n0 node n n' more s h = SameState-trans n0 n n' s (ground arith)

pub tell_members-SameState :
    (g : GroupInfo) (fd : ℕ) (n n' : NetInfo) → tell_members g fd n ≡ some n' → SameState n n'
unfolding tell_members
tell_members-SameState g fd n n' h = elim (Option-cases (announcement g)) [
  | inl e ↦ ground (arith, SameState-refl n)
  | inr (bytes, e) ↦
      walk-keeps (SameState n) (tell g fd bytes) (tell-SameState g fd bytes n) g n n'
        (SameState-refl n) (ground arith)
]

-- Every group that a guid leads to is valid.
pub record AllValid (n : NetInfo) : Type 0 where
  pub valid : (guid : ℕ) (g : GroupInfo) → find guid n.groups_map ≡ some g → IsValid g

-- Only one group and one user may differ, and a valid group stays valid.
pub record Within (guid user : ℕ) (n n' : NetInfo) : Type 0 where
  pub conn_user_map : n'.conn_user_map ≡ n.conn_user_map
  pub user_conn_map : n'.user_conn_map ≡ n.user_conn_map
  pub msg_list : n'.msg_list ≡ n.msg_list
  pub phone_hash_map : n'.phone_hash_map ≡ n.phone_hash_map
  pub global_user_guid : n'.global_user_guid ≡ n.global_user_guid
  pub groups : (j : ℕ) → j ≢ guid → find j n'.groups_map ≡ find j n.groups_map
  pub users : (j : ℕ) → j ≢ user → find j n'.users_map ≡ find j n.users_map
  pub valid : AllValid n → AllValid n'

SameState-Within : (guid user : ℕ) (n n' : NetInfo) → SameState n n' → Within guid user n n'
SameState-Within guid user n n' s = record {
  conn_user_map = s.conn_user_map;
  user_conn_map = s.user_conn_map;
  msg_list = s.msg_list;
  phone_hash_map = s.phone_hash_map;
  global_user_guid = s.global_user_guid;
  groups = λ j ne. rw s.groups_map;
  users = λ j ne. rw s.users_map;
  valid = λ v. record { valid = λ j g h. v.valid j g (rw (sym s.groups_map) h) };
}

Within-trans :
    (guid user : ℕ) (n n' n'' : NetInfo)
    → Within guid user n n'
    → Within guid user n' n''
    → Within guid user n n''
Within-trans guid user n n' n'' s t = record {
  conn_user_map = t.conn_user_map ∙ s.conn_user_map;
  user_conn_map = t.user_conn_map ∙ s.user_conn_map;
  msg_list = t.msg_list ∙ s.msg_list;
  phone_hash_map = t.phone_hash_map ∙ s.phone_hash_map;
  global_user_guid = t.global_user_guid ∙ s.global_user_guid;
  groups = λ j ne. t.groups j ne ∙ s.groups j ne;
  users = λ j ne. t.users j ne ∙ s.users j ne;
  valid = λ v. t.valid (s.valid v);
}

put_group-Within :
    (guid user : ℕ) (g g' : GroupInfo) (n : NetInfo)
    → find guid n.groups_map ≡ some g
    → (IsValid g → IsValid g')
    → Within guid user n (put_group guid g' n)
put_group-Within guid user g g' n e v = record {
  conn_user_map = refl;
  user_conn_map = refl;
  msg_list = refl;
  phone_hash_map = refl;
  global_user_guid = refl;
  groups = λ j ne. ground (arith, find-insert j guid g' n.groups_map);
  users = λ j ne. refl;
  valid = λ all. record {
    valid = λ j h k.
        ground (arith, find-insert j guid g' n.groups_map, all.valid j h, all.valid guid g e, v);
  };
}

put_user-Within :
    (guid user : ℕ) (u : UserInfo) (n : NetInfo) → Within guid user n (put_user user u n)
put_user-Within guid user u n = record {
  conn_user_map = refl;
  user_conn_map = refl;
  msg_list = refl;
  phone_hash_map = refl;
  global_user_guid = refl;
  groups = λ j ne. refl;
  users = λ j ne. ground (arith, find-insert j user u n.users_map);
  valid = λ all. record { valid = all.valid };
}

-- The group of a call that has a defined result.
on_node-same :
    (guid : ℕ) (g : GroupInfo) (r : GroupInfo × Bool) (g' : GroupInfo) (done : Bool)
    → on_node guid g r ≡ some (g', done)
    → g' ≡ r.0
unfolding on_node
on_node-same guid g r g' done h = ground arith

on_operator_node-same :
    (operator guid : ℕ) (g : GroupInfo) (r : GroupInfo × Bool) (g' : GroupInfo) (done : Bool)
    → on_operator_node operator g (on_node guid g r) ≡ some (g', done)
    → g' ≡ r.0
unfolding on_operator_node
on_operator_node-same operator guid g r g' done h = ground (arith, on_node-same guid g r g' done)

module _ (now : ℕ) (gm : GroupModify) (fd : ℕ) (g : GroupInfo) (user : UserInfo) (n : NetInfo) where
  stored :
      (c : Call)
      → find gm.group_guid n.groups_map ≡ some g
      → Within gm.group_guid gm.target_guid n (put_group gm.group_guid (apply c g).0 n)
  stored c e = put_group-Within gm.group_guid gm.target_guid g (apply c g).0 n e (apply-IsValid c g)

  stored_with_user :
      (c : Call) (u : UserInfo)
      → find gm.group_guid n.groups_map ≡ some g
      → Within gm.group_guid gm.target_guid n
          (put_user gm.target_guid u (put_group gm.group_guid (apply c g).0 n))
  stored_with_user c u e =
      let n' : NetInfo = put_group gm.group_guid (apply c g).0 n in
      Within-trans gm.group_guid gm.target_guid n n' (put_user gm.target_guid u n') (stored c e)
        (put_user-Within gm.group_guid gm.target_guid u n')

  changed-Within :
      (c : Call) (result : Option (GroupInfo × Bool)) (then_user : NetInfo → NetInfo) (n' : NetInfo)
      → find gm.group_guid n.groups_map ≡ some g
      → ((g' : GroupInfo) (done : Bool) → result ≡ some (g', done) → g' ≡ (apply c g).0)
      → ((m : NetInfo) → Within gm.group_guid gm.target_guid m (then_user m))
      → changed gm then_user result n ≡ some n'
      → Within gm.group_guid gm.target_guid n n'
  unfolding changed
  changed-Within c result then_user n' e same user_only h = elim (Option-cases result) [
    | inl r ↦ absurd (ground arith)
    | inr ((g', done), r) ↦
        let put : Within gm.group_guid gm.target_guid n (put_group gm.group_guid g' n) =
          rw (same g' done r) (stored c e) in
        let both =
          Within-trans gm.group_guid gm.target_guid n (put_group gm.group_guid g' n)
            (then_user (put_group gm.group_guid g' n)) put
            (user_only (put_group gm.group_guid g' n)) in
        elim (Bool-cases done) [ inl d ↦ ground (arith, both) | inr d ↦ ground (arith, put) ]
  ]

  modify_add-Within :
      (n' : NetInfo)
      → find gm.group_guid n.groups_map ≡ some g
      → modify_add now gm fd g user n ≡ some n'
      → Within gm.group_guid gm.target_guid n n'
  unfolding modify_add apply
  modify_add-Within n' e h =
      let add = add_member gm.operate_guid gm.target_guid user.icon_guid (some user.name) in
      let g1 : GroupInfo = (apply add g).0 in
      let n1 : NetInfo =
        put_user gm.target_guid (on_join_group now gm.group_guid user).0
          (put_group gm.group_guid g1 n) in
      let told = λ (t : tell_members g1 fd n1 ≡ some n').
        Within-trans gm.group_guid gm.target_guid n n1 n'
          (stored_with_user add (on_join_group now gm.group_guid user).0 e)
          (SameState-Within gm.group_guid gm.target_guid n1 n'
            (tell_members-SameState g1 fd n1 n' t)) in
      elim (Bool-cases (apply add g).1) [
        | inl added ↦ told (ground arith)
        | inr refused ↦ ground (arith, stored add e)
      ]

  same_user : (m : NetInfo) → Within gm.group_guid gm.target_guid m m
  same_user m = SameState-Within gm.group_guid gm.target_guid m m (SameState-refl m)

  modify_group-Within :
      (n' : NetInfo)
      → find gm.group_guid n.groups_map ≡ some g
      → modify_group now gm fd g user n ≡ some n'
      → Within gm.group_guid gm.target_guid n n'
  unfolding modify_group apply
  modify_group-Within n' e h =
      let operator = gm.operate_guid in
      let target = gm.target_guid in
      let gone : NetInfo → NetInfo = put_user target (on_leave_group gm.group_guid user).0 in
      let same : NetInfo → NetInfo = λ m. m in
      let leaves = put_user-Within gm.group_guid target (on_leave_group gm.group_guid user).0 in
      let grant = change_permissions operator target gm.permission in
      ground (
        arith,
        same_user n,
        modify_add-Within n' e,
        changed-Within (delete_member operator target)
            (on_node target g (on_delete_member operator target g)) gone n' e
            (on_node-same target g (on_delete_member operator target g)) leaves,
        changed-Within grant
            (on_operator_node operator g
              (on_node target g (on_change_permissions operator target gm.permission g)))
            same n' e
            (on_operator_node-same operator target g
              (on_change_permissions operator target gm.permission g))
            same_user,
        changed-Within (add_manager operator target)
            (on_node target g (on_add_manager operator target g)) same n' e
            (on_node-same target g (on_add_manager operator target g)) same_user,
        changed-Within (delete_manager operator target)
            (on_node target g (on_delete_manager operator target g)) same n' e
            (on_node-same target g (on_delete_manager operator target g)) same_user,
      )

switch_modify-Within :
    (now : ℕ) (gm : GroupModify) (fd : ℕ) (g : GroupInfo) (n n' : NetInfo)
    → find gm.group_guid n.groups_map ≡ some g
    → switch_modify now gm fd g n ≡ some n'
    → Within gm.group_guid gm.target_guid n n'
unfolding switch_modify
switch_modify-Within now gm fd g n n' e h =
    let same = SameState-Within gm.group_guid gm.target_guid n n (SameState-refl n) in
    elim (Option-cases (find gm.target_guid n.users_map)) [
      | inl none_there ↦ ground (arith, same)
      | inr (user, there) ↦ ground (arith, same, modify_group-Within now gm fd g user n n' e)
    ]

acknowledged :
    (guid user msg_type err_no fd : ℕ) (n n' : NetInfo)
    → Within guid user n n'
    → Within guid user n (send_client_ack msg_type err_no fd n')
unfolding send_client_ack
acknowledged guid user msg_type err_no fd n n' w =
    Within-trans guid user n n' (send_msg fd (ack_packet msg_type err_no) n') w (
      SameState-Within guid user n' (send_msg fd (ack_packet msg_type err_no) n')
        (send_msg-SameState fd (ack_packet msg_type err_no) n'))

-- What a defined result is.
on_group_modify_result :
    (now : ℕ) (data_ptr : Bytes) (len fd : ℕ) (n n' : NetInfo) (index : ℕ)
    → on_group_modify now data_ptr len fd n ≡ some (n', index)
    → let gm = (Codec.from_data group_modify (some data_ptr) len group_modify_init).0 in
      Within gm.group_guid gm.target_guid n n'
unfolding on_group_modify
on_group_modify_result now data_ptr len fd n n' index h =
    let (gm, _) = Codec.from_data group_modify (some data_ptr) len group_modify_init in
    let same = SameState-Within gm.group_guid gm.target_guid n n (SameState-refl n) in
    let refusal =
      λ (err_no : ℕ). acknowledged gm.group_guid gm.target_guid 10031 err_no fd n n same in
    elim (Option-cases (find gm.group_guid n.groups_map)) [
      | inl e ↦ ground (arith, same, refusal 71, refusal 72)
      | inr (g, e) ↦ elim (Option-cases (switch_modify now gm fd g n)) [
        | inl e' ↦ ground (arith, same, refusal 71, refusal 74, refusal 75)
        | inr (n1, e') ↦
            let done = switch_modify-Within now gm fd g n n1 e e' in
            ground (
              arith,
              same,
              refusal 71,
              refusal 74,
              refusal 75,
              acknowledged gm.group_guid gm.target_guid 10031 0 fd n n1 done,
            )
      ]
    ]

-- Whatever request arrives: where the two maps of the group that it names, if there is one, lead
-- only to nodes of its list, on_group_modify has a defined result with the index of the request,
-- which changes at most that group, the target user that the request names and what has been
-- sent; and if every group was valid every group still is.
pub on_group_modify-Within :
    (now : ℕ) (data_ptr : Bytes) (len fd : ℕ) (n : NetInfo)
    → let (gm, index) = Codec.from_data group_modify (some data_ptr) len group_modify_init in
      ((g : GroupInfo) → find gm.group_guid n.groups_map ≡ some g → IsAlive g)
      → (n' : NetInfo) × (on_group_modify now data_ptr len fd n ≡ some (n', index))
        × Within gm.group_guid gm.target_guid n n'
on_group_modify-Within now data_ptr len fd n alive =
    let (gm, index) = Codec.from_data group_modify (some data_ptr) len group_modify_init in
    let (n', h) = on_group_modify_defined now data_ptr len fd n alive in
    (n', h, on_group_modify_result now data_ptr len fd n n' index h)

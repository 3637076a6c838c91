-- ===== src/Net/Plain/Requests.antt =====
-- The handlers of sessions, groups and queries keep every user plain.
use aim_to_v.Base.{ℕ, ◌≡◌, refl, Bool, Bool-cases, Option, some, Option-cases, inl, inr, arith}
use aim_to_v.Base.Map.{Map, find}
use aim_to_v.Wire.Bytes.{Bytes}
use aim_to_v.Wire.Codec
use aim_to_v.Wire.GroupRequest.{
  GroupModify, group_delete, group_delete_init, group_modify, group_modify_init,
}
use aim_to_v.Group.{
  GroupInfo, on_add_member, on_delete_member, on_change_permissions, on_add_manager,
  on_delete_manager,
}
use aim_to_v.Group.Walk.{walk, walk-keeps, on_node, on_operator_node}
use aim_to_v.User.{UserInfo, on_join_group, on_leave_group, on_delete_group}
use aim_to_v.Net.{NetInfo, send_msg, send_client_ack, send_packet, put_user, put_group}
use aim_to_v.Net.Logins.{
  log_in, logged_in, logged_out, log_out, bind_conn, on_acount_login, on_acount_logout,
  on_acount_can_reg,
}
use aim_to_v.Net.Groups.{
  tell_members, changed, modify_add, modify_group, switch_modify, on_group_modify, leave_member,
  dissolve, on_group_delete,
}
use aim_to_v.Net.Queries.{on_user_info_req, on_group_info_req, on_user_brief_info_req, on_msg_send}
use aim_to_v.Net.Modify.{tell_members-SameState}
use aim_to_v.Net.Users.{
  UsersPlain, same-UsersPlain, put_user-UsersPlain, on_join_group-IsPlain, on_leave_group-IsPlain,
  on_delete_group-IsPlain, logged_in-IsPlain, logged_out-IsPlain,
}

pub send_client_ack-UsersPlain :
    (t e fd : ℕ) (n : NetInfo) → UsersPlain n → UsersPlain (send_client_ack t e fd n)
unfolding send_client_ack send_msg
send_client_ack-UsersPlain t e fd n p = same-UsersPlain n _ (ground arith) p

pub bind_conn-UsersPlain :
    (u e fd : ℕ) (n : NetInfo) → UsersPlain n → UsersPlain (bind_conn u e fd n)
unfolding bind_conn send_msg
bind_conn-UsersPlain u e fd n p = same-UsersPlain n _ (ground arith) p

pub log_in-UsersPlain : (now key : ℕ) (n : NetInfo) → UsersPlain n → UsersPlain (log_in now key n).0
unfolding log_in
log_in-UsersPlain now key n p = elim (Option-cases (find key n.users_map)) [
  | inl e ↦ rw (e, log_in) p
  | inr (u, e) ↦
      rw (e, log_in)
        (put_user-UsersPlain key (logged_in now u) n p
          (logged_in-IsPlain key u (p.plain key u e) now))
]

pub on_acount_login-UsersPlain :
    (hash : Bytes → ℕ) (now : ℕ) (src : Bytes) (len fd : ℕ) (n : NetInfo)
    → UsersPlain n
    → UsersPlain (on_acount_login hash now src len fd n).0
unfolding on_acount_login
on_acount_login-UsersPlain hash now src len fd n p =
    grind (arith, log_in-UsersPlain, bind_conn-UsersPlain)

pub log_out-UsersPlain :
    (now guid fd : ℕ) (n : NetInfo) → UsersPlain n → UsersPlain (log_out now guid fd n)
unfolding log_out send_client_ack send_msg
log_out-UsersPlain now guid fd n p = elim (Option-cases (find guid n.users_map)) [
  | inl e ↦ same-UsersPlain n _ (ground arith) p
  | inr (u, e) ↦ same-UsersPlain (put_user guid (logged_out now u) n) _ (ground arith) (
      put_user-UsersPlain guid (logged_out now u) n p
        (logged_out-IsPlain guid u (p.plain guid u e) now))
]

pub on_acount_logout-UsersPlain :
    (now : ℕ) (src : Bytes) (len fd : ℕ) (n : NetInfo)
    → UsersPlain n
    → UsersPlain (on_acount_logout now src len fd n).0
unfolding on_acount_logout
on_acount_logout-UsersPlain now src len fd n p =
    grind (arith, log_out-UsersPlain, send_client_ack-UsersPlain, bound)
  where
    bound : (m : Map ℕ) → UsersPlain (record n { conn_user_map = m })
    bound m = same-UsersPlain n (record n { conn_user_map = m }) refl p

pub tell_members-UsersPlain :
    (g : GroupInfo) (fd : ℕ) (n n' : NetInfo)
    → UsersPlain n
    → tell_members g fd n ≡ some n'
    → UsersPlain n'
tell_members-UsersPlain g fd n n' p h =
    same-UsersPlain n n' (tell_members-SameState g fd n n' h).users_map p

pub put_group-UsersPlain :
    (guid : ℕ) (g : GroupInfo) (n : NetInfo) → UsersPlain n → UsersPlain (put_group guid g n)
put_group-UsersPlain guid g n p = same-UsersPlain n (put_group guid g n) refl p

changed-UsersPlain :
    (gm : GroupModify) (then_user : NetInfo → NetInfo) (result : Option (GroupInfo × Bool))
    (n n' : NetInfo)
    → UsersPlain n
    → ((m : NetInfo) → UsersPlain m → m.users_map ≡ n.users_map → UsersPlain (then_user m))
    → changed gm then_user result n ≡ some n'
    → UsersPlain n'
unfolding changed
changed-UsersPlain gm then_user result n n' p user_plain h = elim (Option-cases result) [
  | inl r ↦ absurd (ground arith)
  | inr ((g, done), r) ↦
      let m : NetInfo = put_group gm.group_guid g n in
      let put : UsersPlain m = put_group-UsersPlain gm.group_guid g n p in
      elim (Bool-cases done) [
        | inl d ↦ ground (arith, user_plain m put refl)
        | inr d ↦ ground (arith, put)
      ]
]

module _ (now : ℕ) (gm : GroupModify) (fd : ℕ) (g : GroupInfo) (user : UserInfo) (n n' : NetInfo)
    (p : UsersPlain n) (e : find gm.target_guid n.users_map ≡ some user) where
  modify_add-UsersPlain : modify_add now gm fd g user n ≡ some n' → UsersPlain n'
  unfolding modify_add
  modify_add-UsersPlain h =
      let (g1, added) =
        on_add_member gm.operate_guid gm.target_guid user.icon_guid (some user.name) g in
      let n1 : NetInfo = put_group gm.group_guid g1 n in
      let u : UserInfo = (on_join_group now gm.group_guid user).0 in
      let put : UsersPlain n1 = put_group-UsersPlain gm.group_guid g1 n p in
      let joined =
        on_join_group-IsPlain gm.target_guid user (p.plain gm.target_guid user e) now
          gm.group_guid in
      elim (Bool-cases added) [
        | inl a ↦
            tell_members-UsersPlain g1 fd (put_user gm.target_guid u n1) n'
              (put_user-UsersPlain gm.target_guid u n1 put joined) (ground arith)
        | inr a ↦ ground (arith, put)
      ]

  pub modify_group-UsersPlain : modify_group now gm fd g user n ≡ some n' → UsersPlain n'
  unfolding modify_group
  modify_group-UsersPlain h =
      let operator = gm.operate_guid in
      let target = gm.target_guid in
      let u : UserInfo = (on_leave_group gm.group_guid user).0 in
      let gone : NetInfo → NetInfo = put_user target u in
      let same : NetInfo → NetInfo = λ m. m in
      let left = on_leave_group-IsPlain target user (p.plain target user e) gm.group_guid in
      let leaves : (m : NetInfo) → UsersPlain m → m.users_map ≡ n.users_map → UsersPlain (gone m) =
        λ m q _. put_user-UsersPlain target u m q left in
      let kept : (m : NetInfo) → UsersPlain m → m.users_map ≡ n.users_map → UsersPlain (same m) =
        λ m q _. q in
      ground (
        arith,
        p,
        modify_add-UsersPlain,
        changed-UsersPlain gm gone (on_node target g (on_delete_member operator target g)) n n' p
            leaves,
        changed-UsersPlain gm same
            (on_operator_node operator g
              (on_node target g (on_change_permissions operator target gm.permission g)))
            n n' p kept,
        changed-UsersPlain gm same (on_node target g (on_add_manager operator target g)) n n' p
            kept,
        changed-UsersPlain gm same (on_node target g (on_delete_manager operator target g)) n n' p
            kept,
      )

switch_modify-UsersPlain :
    (now : ℕ) (gm : GroupModify) (fd : ℕ) (g : GroupInfo) (n n' : NetInfo)
    → UsersPlain n
    → switch_modify now gm fd g n ≡ some n'
    → UsersPlain n'
unfolding switch_modify
switch_modify-UsersPlain now gm fd g n n' p h =
    elim (Option-cases (find gm.target_guid n.users_map)) [
      | inl e ↦ ground (arith, p)
      | inr (user, e) ↦ ground (arith, p, modify_group-UsersPlain now gm fd g user n n' p e)
    ]

pub on_group_modify-UsersPlain :
    (now : ℕ) (src : Bytes) (len fd : ℕ) (n n' : NetInfo) (index : ℕ)
    → UsersPlain n
    → on_group_modify now src len fd n ≡ some (n', index)
    → UsersPlain n'
unfolding on_group_modify
on_group_modify-UsersPlain now src len fd n n' index p h =
    let (gm, _) = Codec.from_data group_modify (some src) len group_modify_init in
    let refusal = λ (err_no : ℕ). send_client_ack-UsersPlain 10031 err_no fd n p in
    elim (Option-cases (find gm.group_guid n.groups_map)) [
      | inl e ↦ ground (arith, p, refusal 71, refusal 72)
      | inr (g, e) ↦ elim (Option-cases (switch_modify now gm fd g n)) [
        | inl e' ↦ ground (arith, p, refusal 71, refusal 74, refusal 75)
        | inr (n1, e') ↦
            let q = switch_modify-UsersPlain now gm fd g n n1 p e' in
            ground (
              arith,
              p,
              refusal 71,
              refusal 74,
              refusal 75,
              send_client_ack-UsersPlain 10031 0 fd n1 q,
            )
      ]
    ]

leave_member-UsersPlain :
    (g : GroupInfo) (guid node : ℕ) (n n' : NetInfo) (more : Bool)
    → UsersPlain n
    → leave_member g guid node n ≡ some (n', more)
    → UsersPlain n'
unfolding leave_member
leave_member-UsersPlain g guid node n n' more p h =
    grind
      (arith, put_user-UsersPlain, on_leave_group-IsPlain, λ (k : ℕ) (u : UserInfo). p.plain k u)

dissolve-UsersPlain :
    (guid operate : ℕ) (g : GroupInfo) (n n' : NetInfo)
    → UsersPlain n
    → dissolve guid operate g n ≡ some n'
    → UsersPlain n'
unfolding dissolve
dissolve-UsersPlain guid operate g n n' p h = elim (Option-cases (walk (leave_member g guid) g n)) [
  | inl w ↦ absurd (ground arith)
  | inr (n1, w) ↦
      let q : UsersPlain n1 =
        walk-keeps UsersPlain (leave_member g guid) (leave_member-UsersPlain g guid) g n n1 p w in
      elim (Option-cases (find operate n1.users_map)) [
        | inl e ↦ same-UsersPlain n1 n' (ground arith) q
        | inr (u, e) ↦
            same-UsersPlain (put_user operate (on_delete_group u).0 n1) n' (ground arith) (
              put_user-UsersPlain operate (on_delete_group u).0 n1 q
                (on_delete_group-IsPlain operate u (q.plain operate u e)))
      ]
]

pub on_group_delete-UsersPlain :
    (src : Bytes) (len fd : ℕ) (n n' : NetInfo) (index : ℕ)
    → UsersPlain n
    → on_group_delete src len fd n ≡ some (n', index)
    → UsersPlain n'
unfolding on_group_delete
on_group_delete-UsersPlain src len fd n n' index p h =
    let (gd, _) = Codec.from_data group_delete (some src) len group_delete_init in
    let refusal = λ (err_no : ℕ). send_client_ack-UsersPlain 10032 err_no fd n p in
    elim (Option-cases (find gd.group_guid n.groups_map)) [
      | inl e ↦ ground (arith, p, refusal 72)
      | inr (g, e) ↦ elim (Option-cases (dissolve gd.group_guid gd.operate_guid g n)) [
        | inl e' ↦ grind (arith, p, send_client_ack-UsersPlain)
        | inr (n1, e') ↦
            let q = dissolve-UsersPlain gd.group_guid gd.operate_guid g n n1 p e' in
            grind (arith, p, q, send_client_ack-UsersPlain)
      ]
    ]

pub queries-UsersPlain :
    (hash : Bytes → ℕ) (guid : ℕ) (src : Bytes) (len fd : ℕ) (n : NetInfo)
    → UsersPlain n
    → UsersPlain (on_acount_can_reg hash src len fd n).0
      × UsersPlain (on_user_info_req src len fd n).0
      × UsersPlain (on_group_info_req src len fd n).0
      × UsersPlain (on_user_brief_info_req src len fd n).0
      × UsersPlain (on_msg_send guid src len fd n).0
unfolding on_acount_can_reg on_user_info_req on_group_info_req on_user_brief_info_req on_msg_send
    send_packet send_client_ack send_msg
queries-UsersPlain hash guid src len fd n p = (
  same-UsersPlain n _ (ground arith) p,
  same-UsersPlain n _ (ground arith) p,
  same-UsersPlain n _ (ground arith) p,
  same-UsersPlain n _ (ground arith) p,
  same-UsersPlain n _ (ground arith) p,
)

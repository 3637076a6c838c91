-- ===== src/Net/Plain/Handlers.antt =====
-- `on_group_add`, `on_msg_list_req` and the handlers of accounts keep every user plain.
use aim_to_v.Base.{ℕ, ◌≡◌, refl, some, [], Option-cases, inl, inr, arith}
use aim_to_v.Base.Map.{find}
use aim_to_v.Wire.Bytes.{Bytes}
use aim_to_v.Wire.Codec
use aim_to_v.Wire.Account.{acount_delete as delete_body, acount_delete_init}
use aim_to_v.Group.{GroupInfo, traverse_all_members}
use aim_to_v.Group.Walk.{traverse_all_members-keeps}
use aim_to_v.User.{empty_user, on_join_group, on_create_group}
use aim_to_v.Net.{NetInfo, subscript, send_msg, send_client_ack, put_group}
use aim_to_v.Net.Logins.{on_phone_unique}
use aim_to_v.Net.Users.{
  IsPlain, UsersPlain, same-UsersPlain, put_user-UsersPlain, on_join_group-IsPlain,
  on_create_group-IsPlain, from_data-plain,
}
use aim_to_v.Net.Accounts.{
  Host, drop_user, parsed_user, send_add_ack, open_acount, on_acount_add, refresh_groups,
  replace_user, on_acount_modify, delete_acount, on_acount_delete,
}
use aim_to_v.Net.Create.{set_up_member, copy_group, create_group, on_group_add}
use aim_to_v.Net.History.{send_list, on_msg_list_req}
use aim_to_v.Net.Plain.Requests.{send_client_ack-UsersPlain, put_group-UsersPlain}
use aim_to_v.Net.Plain.Steps.{
  drop_user-UsersPlain, open_acount-UsersPlain, refresh_groups-UsersPlain, replace_user-UsersPlain,
  delete_acount-UsersPlain,
}

pub set_up_member-UsersPlain :
    (now node : ℕ) (s : GroupInfo × NetInfo)
    → UsersPlain s.1
    → UsersPlain (set_up_member now node s).0.1
unfolding set_up_member
set_up_member-UsersPlain now node (info, n) p = elim (Option-cases (find node info.members_list)) [
  | inl e ↦ rw (e, set_up_member) p
  | inr (m, e) ↦ elim (Option-cases (find m.user_guid n.users_map)) [
    | inl e' ↦ ground (arith, p)
    | inr (u, e') ↦ ground (
      arith,
      put_user-UsersPlain m.user_guid (on_join_group now info.group_guid u).0 n p
          (on_join_group-IsPlain m.user_guid u (p.plain m.user_guid u e') now info.group_guid),
    )
  ]
]

pub create_group-UsersPlain :
    (now : ℕ) (info : GroupInfo) (n : NetInfo) → UsersPlain n → UsersPlain (create_group now info n)
unfolding create_group
create_group-UsersPlain now info n p =
    let (info', n1) = (traverse_all_members (some (set_up_member now)) info (info, n)).0 in
    let n2 : NetInfo = put_group info'.group_guid (copy_group info') n1 in
    let q : UsersPlain n2 = put_group-UsersPlain info'.group_guid (copy_group info') n1 (
      traverse_all_members-keeps (λ s. UsersPlain s.1) (set_up_member now)
        (set_up_member-UsersPlain now) info (info, n) p) in
    elim (Option-cases (find info.learder_guid n2.users_map)) [
      | inl e ↦ ground (arith, q)
      | inr (u, e) ↦ ground (
        arith,
        put_user-UsersPlain info.learder_guid (on_create_group u).0 n2 q
            (on_create_group-IsPlain info.learder_guid u (q.plain info.learder_guid u e)),
      )
    ]

pub on_group_add-UsersPlain :
    (now : ℕ) (src : Bytes) (len fd : ℕ) (n : NetInfo)
    → UsersPlain n
    → UsersPlain (on_group_add now src len fd n).0
unfolding on_group_add
on_group_add-UsersPlain now src len fd n p =
    grind (arith, create_group-UsersPlain, send_client_ack-UsersPlain)

pub on_msg_list_req-UsersPlain :
    (guid : ℕ) (src : Bytes) (len fd : ℕ) (n n' : NetInfo) (index : ℕ)
    → UsersPlain n
    → on_msg_list_req guid src len fd n ≡ some (n', index)
    → UsersPlain n'
unfolding on_msg_list_req send_list send_client_ack send_msg
on_msg_list_req-UsersPlain guid src len fd n n' index p h = same-UsersPlain n n' (ground arith) p

pub send_add_ack-UsersPlain :
    (guid e fd : ℕ) (n : NetInfo) → UsersPlain n → UsersPlain (send_add_ack guid e fd n)
unfolding send_add_ack send_msg
send_add_ack-UsersPlain guid e fd n p = same-UsersPlain n _ (ground arith) p

module _ (host : Host) (src : Bytes) (len fd : ℕ) (n : NetInfo) (p : UsersPlain n) where
  pub on_acount_add-UsersPlain :
      (n' : NetInfo) (index : ℕ)
      → on_acount_add host src len fd n ≡ some (n', index)
      → UsersPlain n'
  unfolding on_acount_add
  on_acount_add-UsersPlain n' index h =
      let (user, i) = parsed_user host src len n in
      let made =
        from_data-plain host.hash host.beyond host.now n.global_user_guid src len empty_user in
      let f : user.friends ≡ [] = unfold empty_user in made.0 in
      let m : user.msg_map ≡ [] = unfold empty_user in made.1 in
      let failed = send_add_ack-UsersPlain 0 (on_phone_unique host.hash user.phone n) fd n p in
      elim (Option-cases (drop_user user.user_guid n)) [
        | inl e ↦ ground (arith, failed)
        | inr (n1, e) ↦ elim (Option-cases (open_acount host user fd n1)) [
          | inl e' ↦ ground (arith, failed)
          | inr (n2, e') ↦ ground (
            arith,
            failed,
            p,
            open_acount-UsersPlain host user fd n1 n2 (drop_user-UsersPlain user.user_guid n n1 p e)
                f m e',
          )
        ]
      ]

  pub on_acount_modify-UsersPlain :
      (n' : NetInfo) (index : ℕ)
      → on_acount_modify host src len fd n ≡ some (n', index)
      → UsersPlain n'
  unfolding on_acount_modify
  on_acount_modify-UsersPlain n' index h =
      let (user, i) = parsed_user host src len n in
      let made =
        from_data-plain host.hash host.beyond host.now n.global_user_guid src len empty_user in
      let r : IsPlain user.user_guid user = record {
        friends = unfold empty_user in made.0;
        msg_map = unfold empty_user in made.1;
        user_guid = refl;
      } in
      elim (Option-cases (find user.user_guid n.users_map)) [
        | inl e ↦ ground (arith, p)
        | inr (old, e) ↦ elim (Option-cases (refresh_groups user user.join_groups n)) [
          | inl e' ↦ ground (arith, p)
          | inr (n1, e') ↦ elim (Option-cases (replace_user host user old n1)) [
            | inl e'' ↦ ground (arith, p)
            | inr (n2, e'') ↦ ground (
              arith,
              p,
              send_client_ack-UsersPlain 10001 0 fd n2 (
                  replace_user-UsersPlain host user old n1 n2
                    (refresh_groups-UsersPlain user user.join_groups n n1 p e') r e''),
            )
          ]
        ]
      ]

  pub on_acount_delete-UsersPlain :
      (n' : NetInfo) (index : ℕ)
      → on_acount_delete host src len fd n ≡ some (n', index)
      → UsersPlain n'
  unfolding on_acount_delete
  on_acount_delete-UsersPlain n' index h =
      let (ad, i) = Codec.from_data delete_body (some src) len acount_delete_init in
      let n1 : NetInfo = record n { conn_user_map = (subscript fd n.conn_user_map).0 } in
      let q : UsersPlain n1 = same-UsersPlain n n1 refl p in
      let refused = send_client_ack-UsersPlain 10002 31 fd n1 q in
      elim (Option-cases (delete_acount host ad.user_guid fd n1)) [
        | inl e ↦ ground (arith, p, refused)
        | inr (n2, e) ↦
            ground (arith, p, refused, delete_acount-UsersPlain host ad.user_guid fd n1 n2 q e)
      ]

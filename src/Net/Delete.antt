-- ===== src/Net/Delete.antt =====
-- Who may delete a group, and what it changes.
use aim_to_v.Base.{
  ℕ, ◌≡◌, ◌≢◌, ◌⊎◌, ◌↔◌, refl, Bool, true, Option-cases, inl, inr, none, some, arith, ◌∙◌,
}
use aim_to_v.Base.Map.{find, contains, erase, find-erase}
use aim_to_v.Wire.Bytes.{Bytes}
use aim_to_v.Wire.Codec
use aim_to_v.Wire.GroupRequest.{group_delete, group_delete_init}
use aim_to_v.Group.{GroupInfo}
use aim_to_v.Group.Alive.{IsAlive, walk_defined}
use aim_to_v.Group.Walk.{walk, walk-keeps}
use aim_to_v.Net.{NetInfo, send_msg, send_client_ack}
use aim_to_v.Net.Groups.{leave_member, dissolve, on_group_delete}

-- The state but for the users and what has been sent.
pub record SameGroups (n n' : NetInfo) : Type 0 where
  pub conn_user_map : n'.conn_user_map ≡ n.conn_user_map
  pub user_conn_map : n'.user_conn_map ≡ n.user_conn_map
  pub groups_map : n'.groups_map ≡ n.groups_map

SameGroups-trans : (n n' n'' : NetInfo) → SameGroups n n' → SameGroups n' n'' → SameGroups n n''
SameGroups-trans n n' n'' s t = record {
  conn_user_map = t.conn_user_map ∙ s.conn_user_map;
  user_conn_map = t.user_conn_map ∙ s.user_conn_map;
  groups_map = t.groups_map ∙ s.groups_map;
}

leave_member-SameGroups :
    (g : GroupInfo) (guid : ℕ) (n0 : NetInfo) (node : ℕ) (n n' : NetInfo) (more : Bool)
    → SameGroups n0 n
    → leave_member g guid node n ≡ some (n', more)
    → SameGroups n0 n'
unfolding leave_member
leave_member-SameGroups g guid n0 node n n' more s h = SameGroups-trans n0 n n' s (ground arith)

dissolved :
    (guid operate : ℕ) (g : GroupInfo) (n n' : NetInfo)
    → dissolve guid operate g n ≡ some n'
    → (n'.conn_user_map ≡ n.conn_user_map)
      × (n'.user_conn_map ≡ n.user_conn_map)
      × (n'.groups_map ≡ erase guid n.groups_map)
unfolding dissolve
dissolved guid operate g n n' h = elim (Option-cases (walk (leave_member g guid) g n)) [
  | inl e ↦ absurd (ground arith)
  | inr (n1, e) ↦
      let start : SameGroups n n = record {
        conn_user_map = refl;
        user_conn_map = refl;
        groups_map = refl;
      } in
      let same =
        walk-keeps (SameGroups n) (leave_member g guid) (leave_member-SameGroups g guid n) g n n1
          start e in
      (ground (arith, same), ground (arith, same), ground (arith, same))
]

-- What a defined result is.
on_group_delete_result :
    (data_ptr : Bytes) (len fd other index : ℕ) (g : GroupInfo) (n n' : NetInfo)
    → let gd = (Codec.from_data group_delete (some data_ptr) len group_delete_init).0 in
      on_group_delete data_ptr len fd n ≡ some (n', index)
      → index ≢ 0
      → find gd.group_guid n.groups_map ≡ some g
      → ((find gd.group_guid n'.groups_map ≡ none)
          ↔ ((gd.operate_guid ≡ g.learder_guid) × (contains gd.operate_guid n.users_map ≡ true)))
        × ((find gd.group_guid n'.groups_map ≡ none) ⊎ (find gd.group_guid n'.groups_map ≡ some g))
        × (other ≢ gd.group_guid → find other n'.groups_map ≡ find other n.groups_map)
        × (n'.conn_user_map ≡ n.conn_user_map)
        × (n'.user_conn_map ≡ n.user_conn_map)
unfolding on_group_delete send_client_ack send_msg
on_group_delete_result data_ptr len fd other index g n n' h i e =
    let (gd, _) = Codec.from_data group_delete (some data_ptr) len group_delete_init in
    elim (Option-cases (dissolve gd.group_guid gd.operate_guid g n)) [
      | inl d ↦ (
        (λ k. ground arith, λ k. ground arith),
        ground arith,
        λ ne. ground arith,
        ground arith,
        ground arith,
      )
      | inr (n1, d) ↦
          let done = dissolved gd.group_guid gd.operate_guid g n n1 d in
          let gone = find-erase gd.group_guid gd.group_guid n.groups_map in
          let others = find-erase other gd.group_guid n.groups_map in
          (
            (λ k. ground (arith, done, gone), λ k. ground (arith, done, gone)),
            ground (arith, done, gone),
            λ ne. ground (arith, done, others),
            ground (arith, done),
            ground (arith, done),
          )
    ]

leave_member_defined :
    (g : GroupInfo) (guid node : ℕ) (n : NetInfo)
    → contains node g.members_list ≡ true
    → leave_member g guid node n ≢ none
unfolding leave_member contains
leave_member_defined g guid node n h e = ground arith

dissolve_defined :
    (guid operate : ℕ) (g : GroupInfo) (n : NetInfo) → IsAlive g → dissolve guid operate g n ≢ none
unfolding dissolve
dissolve_defined guid operate g n a h =
    let walked = walk_defined (leave_member g guid) g n a (leave_member_defined g guid) in
    ground (arith, walked.1)

on_group_delete_defined :
    (data_ptr : Bytes) (len fd : ℕ) (g : GroupInfo) (n : NetInfo)
    → let (gd, index) = Codec.from_data group_delete (some data_ptr) len group_delete_init in
      find gd.group_guid n.groups_map ≡ some g
      → IsAlive g
      → (n' : NetInfo) × (on_group_delete data_ptr len fd n ≡ some (n', index))
unfolding on_group_delete
on_group_delete_defined data_ptr len fd g n e a =
    let (gd, index) = Codec.from_data group_delete (some data_ptr) len group_delete_init in
    let defined = dissolve_defined gd.group_guid gd.operate_guid g n a in
    elim (Option-cases (on_group_delete data_ptr len fd n)) [
      | inl h ↦ absurd (ground (arith, defined))
      | inr ((n', i), h) ↦ (n', ground arith)
    ]

-- For a readable request that names an existing group whose two maps lead only to nodes of its
-- list, on_group_delete has a defined result with the index of the request: the group is deleted
-- exactly where the operator is the group's leader and a user, and otherwise it is as it was; no
-- other group and no connection changes.
pub on_group_delete_lem :
    (data_ptr : Bytes) (len fd other : ℕ) (g : GroupInfo) (n : NetInfo)
    → let (gd, index) = Codec.from_data group_delete (some data_ptr) len group_delete_init in
      index ≢ 0
      → find gd.group_guid n.groups_map ≡ some g
      → IsAlive g
      → (n' : NetInfo) × (on_group_delete data_ptr len fd n ≡ some (n', index))
        × ((find gd.group_guid n'.groups_map ≡ none)
            ↔ ((gd.operate_guid ≡ g.learder_guid) × (contains gd.operate_guid n.users_map ≡ true)))
        × ((find gd.group_guid n'.groups_map ≡ none) ⊎ (find gd.group_guid n'.groups_map ≡ some g))
        × (other ≢ gd.group_guid → find other n'.groups_map ≡ find other n.groups_map)
        × (n'.conn_user_map ≡ n.conn_user_map)
        × (n'.user_conn_map ≡ n.user_conn_map)
on_group_delete_lem data_ptr len fd other g n i e a =
    let (gd, index) = Codec.from_data group_delete (some data_ptr) len group_delete_init in
    let (n', h) = on_group_delete_defined data_ptr len fd g n e a in
    let (gone, kept, others, conns, users) =
      on_group_delete_result data_ptr len fd other index g n n' h i e in
    (n', h, gone, kept, others, conns, users)

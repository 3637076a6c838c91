-- ===== src/Net/Create.antt =====
-- `on_group_add` of source/read_thread.cpp.
use aim_to_v.Base.{
  ℕ, suc, ◌+◌, Bool, true, false, not, ◌==◌, if◌then◌else◌, none, some, List, [], ◌∷◌, length, take,
}
use aim_to_v.Base.Map.{find, update}
use aim_to_v.Wire.Bytes.{Bytes}
use aim_to_v.Wire.Member.{Member, group_job_leader, group_job_member, send_to_group}
use aim_to_v.Group.{GroupInfo, empty_group, traverse_all_members}
use aim_to_v.Group.Stream
use aim_to_v.User.{UserInfo, can_create_group, on_create_group, on_join_group}
use aim_to_v.Net.{
  NetInfo, error_ok, error_group_operator_not_exist, send_client_ack, put_group, put_user,
}

abbrev pub error_create_group_max : ℕ
error_create_group_max = 62

-- The global is never changed.
abbrev pub global_group_guid : ℕ
global_group_guid = 1

-- What the walk does with a member who is a user.
abbrev pub set_up : GroupInfo → UserInfo → Member → Member
set_up info user m = record m {
  group_guid = info.group_guid;
  icon_guid = user.icon_guid;
  msg_count = 0;
  permissions = send_to_group;
  name = take 32 user.name;
  job = if info.learder_guid == m.user_guid then group_job_leader else group_job_member;
}

unfoldable pub set_up_member : ℕ → ℕ → GroupInfo × NetInfo → (GroupInfo × NetInfo) × Bool
set_up_member now node (info, n) = elim (find node info.members_list) [
  | none ↦ ((info, n), false)
  | some m ↦ elim (find m.user_guid n.users_map) [
    | none ↦ ((info, n), false)
    | some user ↦ (
      (
        record info { members_list = update node (set_up info user) info.members_list },
        put_user m.user_guid (on_join_group now info.group_guid user).0 n,
      ),
      true,
    )
  ]
]

-- The members under new numbers from `next` on.
unfoldable pub renumber : ℕ → List (ℕ × Member) → List (ℕ × Member)
renumber next [] = []
renumber next ((node, m) ∷ ms) = (next, m) ∷ renumber (suc next) ms

-- `groups.emplace_back(info)`: the copy has a list with nodes of its own, while its maps hold the
-- iterators of the original, whose list is destroyed when the handler returns.
unfoldable pub copy_group : GroupInfo → GroupInfo
copy_group info = record info {
  members_list = renumber info.next_node info.members_list;
  next_node = info.next_node + length info.members_list;
}

unfoldable pub create_group : ℕ → GroupInfo → NetInfo → NetInfo
create_group now info n =
    let (info', n1) = (traverse_all_members (some (set_up_member now)) info (info, n)).0 in
    let n2 = put_group info'.group_guid (copy_group info') n1 in
    elim (find info.learder_guid n2.users_map) [
      | none ↦ n2
      | some user ↦ put_user info.learder_guid (on_create_group user).0 n2
    ]

unfoldable pub on_group_add : ℕ → Bytes → ℕ → ℕ → NetInfo → NetInfo × ℕ
on_group_add now data_ptr len fd n =
    let (info, index) = Stream.from_data global_group_guid data_ptr len empty_group in
    if index == 0 then (n, 0) else elim (find info.learder_guid n.users_map) [
      | none ↦ (send_client_ack 10030 error_group_operator_not_exist fd n, index)
      | some user ↦
          if not (can_create_group user)
          then (send_client_ack 10030 error_create_group_max fd n, index)
          else (send_client_ack 10030 error_ok fd (create_group now info n), index)
    ]

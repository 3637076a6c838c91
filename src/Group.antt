-- ===== src/Group.antt =====
-- `class GroupInfo`: include/group_info.h and source/group_info.cpp. A method returns the new
-- object and its result. `members_list` is a list of numbered nodes, and an iterator into it, as
-- the two maps hold them, is the number of its node; `next_node` is the number of the next node.
pub mod Links
pub mod Messages
pub mod Calls
pub mod Roles
pub mod Stream
pub mod Load
pub mod Restore
pub mod Walk
pub mod Alive
pub mod Spec
pub mod Refinement
mod Tests
use aim_to_v.Base.{
  ℕ, suc, ◌+◌, ◌-◌, ◌%◌, ◌^◌, Bool, true, false, not, ◌&&◌, ltb, ◌==◌, if◌then◌else◌, Option, none,
  some, List, [], ◌∷◌, ◌++◌, take, drop, get_last?,
}
use aim_to_v.Base.Map.{Map, find, contains, insert, erase, update}
use aim_to_v.Wire.Bytes.{Bytes}
use aim_to_v.Wire.Member.{
  Member, group_job_leader, group_job_manager, group_job_member, send_to_group,
}
use aim_to_v.Wire.MsgInfo.{MsgInfo, msg_type_group}

pub record GroupInfo : Type 0 where
  pub group_guid : ℕ
  pub member_count : ℕ
  pub learder_guid : ℕ
  pub members_list : List (ℕ × Member)
  pub managers_map : Map ℕ
  pub members_map : Map ℕ
  pub msg_list : List MsgInfo
  pub msg_limit : ℕ
  pub next_node : ℕ

-- The default constructor.
unfoldable pub empty_group : GroupInfo
empty_group = record {
  group_guid = 0;
  member_count = 0;
  learder_guid = 0;
  members_list = [];
  managers_map = [];
  members_map = [];
  msg_list = [];
  msg_limit = 0;
  next_node = 0;
}

abbrev pub group_msgs_max_len : ℕ
group_msgs_max_len = 100

-- `++n` and `--n` on a `uint32_t`.
abbrev pub inc32 : ℕ → ℕ
inc32 n = (n + 1) % 2 ^ 32

abbrev pub dec32 : ℕ → ℕ
dec32 n = (n + 2 ^ 32 - 1) % 2 ^ 32

-- The node of a member, by `members_map` first.
unfoldable pub get_member_by_guid : ℕ → GroupInfo → Option ℕ
get_member_by_guid guid g = elim (find guid g.members_map) [
  | some node ↦ some node
  | none ↦ find guid g.managers_map
]

-- The object that `on_add_member` makes: of the name it copies 32 bytes.
abbrev pub new_member : ℕ → ℕ → ℕ → Bytes → ℕ → Member
new_member group_guid user_guid icon_guid user_name job = record {
  group_guid = group_guid;
  user_guid = user_guid;
  icon_guid = icon_guid;
  msg_count = 0;
  permissions = send_to_group;
  job = job;
  name = take 32 user_name;
}

-- `members_list.emplace_back(info)`, an entry for its node in one of the maps, `++member_count`.
unfoldable pub append_manager : Member → GroupInfo → GroupInfo
append_manager info g = record g {
  members_list = g.members_list ++ (g.next_node, info) ∷ [];
  managers_map = insert info.user_guid g.next_node g.managers_map;
  member_count = inc32 g.member_count;
  next_node = suc g.next_node;
}

unfoldable pub append_member : Member → GroupInfo → GroupInfo
append_member info g = record g {
  members_list = g.members_list ++ (g.next_node, info) ∷ [];
  members_map = insert info.user_guid g.next_node g.members_map;
  member_count = inc32 g.member_count;
  next_node = suc g.next_node;
}

unfoldable pub on_add_member : ℕ → ℕ → ℕ → Option Bytes → GroupInfo → GroupInfo × Bool
on_add_member operator_guid user_guid icon_guid none g = (g, false)
on_add_member operator_guid user_guid icon_guid (some user_name) g =
    if not (contains operator_guid g.managers_map) && not (operator_guid == 0)
    then (g, false)
    else (if contains user_guid g.members_map
        then (g, false)
        else (if operator_guid == 0 && user_guid == g.learder_guid
            then (
              append_manager
                  (new_member g.group_guid user_guid icon_guid user_name group_job_leader) g,
              true,
            )
            else (
              append_member (new_member g.group_guid user_guid icon_guid user_name group_job_member)
                  g,
              true,
            )))

-- `members_list.erase(node)`, the entry erased from its map, `--member_count`.
unfoldable pub remove_manager : ℕ → ℕ → GroupInfo → GroupInfo
remove_manager user_guid node g = record g {
  members_list = erase node g.members_list;
  managers_map = erase user_guid g.managers_map;
  member_count = dec32 g.member_count;
}

unfoldable pub remove_member : ℕ → ℕ → GroupInfo → GroupInfo
remove_member user_guid node g = record g {
  members_list = erase node g.members_list;
  members_map = erase user_guid g.members_map;
  member_count = dec32 g.member_count;
}

unfoldable pub on_delete_member : ℕ → ℕ → GroupInfo → GroupInfo × Bool
on_delete_member operator_guid user_guid g = elim (find user_guid g.managers_map) [
  | some node ↦
      if not (operator_guid == g.learder_guid)
      then (g, false)
      else (remove_manager user_guid node g, true)
  | none ↦
      if not (contains operator_guid g.managers_map)
      then (g, false)
      else elim (find user_guid g.members_map) [
        | none ↦ (g, false)
        | some node ↦ (remove_member user_guid node g, true)
      ]
]

-- `info->job = job` through a node.
abbrev pub set_job : ℕ → Member → Member
set_job job m = record m { job = job }

unfoldable pub promote : ℕ → ℕ → GroupInfo → GroupInfo
promote user_guid node g = record g {
  members_list = update node (set_job group_job_manager) g.members_list;
  managers_map = insert user_guid node g.managers_map;
  members_map = erase user_guid g.members_map;
}

unfoldable pub demote : ℕ → ℕ → GroupInfo → GroupInfo
demote user_guid node g = record g {
  members_list = update node (set_job group_job_member) g.members_list;
  managers_map = erase user_guid g.managers_map;
  members_map = insert user_guid node g.members_map;
}

unfoldable pub on_add_manager : ℕ → ℕ → GroupInfo → GroupInfo × Bool
on_add_manager operator_guid user_guid g =
    if not (operator_guid == g.learder_guid)
    then (g, false)
    else (if contains user_guid g.managers_map
        then (g, false)
        else elim (find user_guid g.members_map) [
          | none ↦ (g, false)
          | some node ↦ (promote user_guid node g, true)
        ])

unfoldable pub on_delete_manager : ℕ → ℕ → GroupInfo → GroupInfo × Bool
on_delete_manager operator_guid user_guid g =
    if not (operator_guid == g.learder_guid)
    then (g, false)
    else elim (find user_guid g.managers_map) [
      | none ↦ (g, false)
      | some node ↦
          if contains user_guid g.members_map then (g, false) else (demote user_guid node g, true)
    ]

abbrev pub set_permissions : ℕ → Member → Member
set_permissions permissions m = record m { permissions = permissions }

-- `operator_permission > permissions`, where the operator's node holds a member.
abbrev pub outranks : Option Member → ℕ → Bool
outranks none permissions = false
outranks (some operator_member) permissions = ltb permissions operator_member.permissions

unfoldable pub grant : ℕ → ℕ → GroupInfo → GroupInfo
grant node permissions g = record g {
  members_list = update node (set_permissions permissions) g.members_list;
}

unfoldable pub on_change_permissions : ℕ → ℕ → ℕ → GroupInfo → GroupInfo × Bool
on_change_permissions operator_guid user_guid permissions g =
    elim (find operator_guid g.managers_map) [
      | none ↦ (g, false)
      | some operator_node ↦
          if outranks (find operator_node g.members_list) permissions
          then (g, false)
          else elim (find user_guid g.managers_map) [
            | some node ↦
                if not (operator_guid == g.learder_guid)
                then (g, false)
                else (grant node permissions g, true)
            | none ↦ elim (find user_guid g.members_map) [
              | some node ↦ (grant node permissions g, true)
              | none ↦ (g, false)
            ]
          ]
    ]

-- `while (begin != end) { if (!func || !func(*(begin->second))) break; ++begin; }` over one of the
-- maps, for a callback on a state of any kind; `none` is the empty `std::function`.
unfoldable pub traverse : {S : Type 0} → Option (ℕ → S → S × Bool) → Map ℕ → S → S
traverse none nodes s = s
traverse (some func) [] s = s
traverse (some func) ((guid, node) ∷ nodes) s =
    let (s', more) = func node s in elim more [ true ↦ traverse (some func) nodes s' | false ↦ s' ]

unfoldable pub traverse_managers :
    {S : Type 0} → Option (ℕ → S → S × Bool) → GroupInfo → S → S × Bool
traverse_managers func g s = (traverse func g.managers_map s, true)

unfoldable pub traverse_normal_members :
    {S : Type 0} → Option (ℕ → S → S × Bool) → GroupInfo → S → S × Bool
traverse_normal_members func g s = (traverse func g.members_map s, true)

unfoldable pub traverse_all_members :
    {S : Type 0} → Option (ℕ → S → S × Bool) → GroupInfo → S → S × Bool
traverse_all_members func g s =
    let (s', go_on) = traverse_managers func g s in
    if go_on then traverse_normal_members func g s' else (s', false)

-- `(*msg_list.rbegin())->msg_num + 1`, or 1 where the list is empty, in a `uint16_t`.
unfoldable pub next_num : List MsgInfo → ℕ
next_num msgs = elim (get_last? msgs) [ none ↦ 1 | some last ↦ (last.msg_num + 1) % 2 ^ 16 ]

-- The number is given to the caller's own object.
abbrev pub numbered : MsgInfo → List MsgInfo → MsgInfo
numbered msg msgs = if msg.msg_num == 0 then record msg { msg_num = next_num msgs } else msg

-- `push_back`, `++msg_limit`, and `pop_front` with `--msg_limit` where the limit is passed.
unfoldable pub push_msg : MsgInfo → GroupInfo → GroupInfo
push_msg msg g =
    let msgs = g.msg_list ++ msg ∷ [] in
    let limit = inc32 g.msg_limit in
    if ltb group_msgs_max_len limit
    then record g { msg_list = drop 1 msgs; msg_limit = dec32 limit }
    else record g { msg_list = msgs; msg_limit = limit }

unfoldable pub on_add_msg : MsgInfo → GroupInfo → GroupInfo × MsgInfo × Bool
on_add_msg msg g =
    if not (msg.msg_type == msg_type_group)
    then (g, msg, false)
    else (if not (g.group_guid == msg.recv_guid)
        then (g, msg, false)
        else (let msg' = numbered msg g.msg_list in (push_msg msg' g, msg', true)))

-- The scan from the back: the list without the last message of that number, `none` if there is none.
unfoldable pub erase_last : ℕ → List MsgInfo → Option (List MsgInfo)
erase_last num [] = none
erase_last num (m ∷ ms) = elim (erase_last num ms) [
  | some rest ↦ some (m ∷ rest)
  | none ↦ if m.msg_num == num then some ms else none
]

unfoldable pub on_delete_msg : ℕ → ℕ → GroupInfo → GroupInfo × Bool
on_delete_msg operator_guid msg_num g =
    if not (contains operator_guid g.managers_map)
    then (g, false)
    else elim (erase_last msg_num g.msg_list) [
      | some rest ↦ (record g { msg_list = rest; msg_limit = dec32 g.msg_limit }, true)
      | none ↦ (g, true)
    ]

unfoldable pub clear_msg : ℕ → GroupInfo → GroupInfo × Bool
clear_msg operator_guid g =
    if not (contains operator_guid g.managers_map)
    then (g, false)
    else (record g { msg_list = []; msg_limit = 0 }, true)

unfoldable pub traverse_msgs : {S : Type 0} → Option (MsgInfo → S → S × Bool) → List MsgInfo → S → S
traverse_msgs none msgs s = s
traverse_msgs (some func) [] s = s
traverse_msgs (some func) (msg ∷ msgs) s =
    let (s', more) = func msg s in
    elim more [ true ↦ traverse_msgs (some func) msgs s' | false ↦ s' ]

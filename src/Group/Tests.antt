-- ===== src/Group/Tests.antt =====
-- Each theorem about groups at a concrete group.
use aim_to_v.Base.{
  ◌+◌, ◌-◌, ◌*◌, ◌≡◌, refl, true, ◌==◌, if◌then◌else◌, some, List, [], ◌∷◌, ◌++◌, length, drop,
  get_last?, replicate, arith,
}
use aim_to_v.Base.Map.{find, contains, insert, erase, update}
use aim_to_v.Wire.Bytes.{Bytes, le_bytes, get_num, le_value}
use aim_to_v.Wire.Member.{member_length}
use aim_to_v.Wire.MsgInfo.{MsgInfo}
use aim_to_v.Group.{
  GroupInfo, empty_group, group_msgs_max_len, on_add_member, on_delete_member, on_add_manager,
  append_manager, append_member, promote, next_num, on_add_msg,
}
use aim_to_v.Group.Links.{IsLinked}
use aim_to_v.Group.Spec.{Roles, Refines, Simulates}
use aim_to_v.Group.Refinement.{apply-Simulates}
use aim_to_v.Group.Messages.{on_add_msg_lem}
use aim_to_v.Group.Calls.{
  Call, set_group_guid, set_learder_guid, add_member, add_manager, change_permissions,
  delete_member, apply, run, IsValid, apply-IsValid, run-empty_group-IsValid,
}
use aim_to_v.Group.Stream.{group_length, group_read, read_members, from_data, to_data}
use aim_to_v.Group.Load.{from_data-IsLinked}
use aim_to_v.Group.Restore.{GroupFits, records, group_restored}

abbrev some_name : Bytes
some_name = replicate 32 97

-- Leader 7, manager 8 and normal member 9.
abbrev calls : List Call
calls =
    set_group_guid 70
    ∷ set_learder_guid 7
    ∷ add_member 0 7 1 (some some_name)
    ∷ add_member 7 8 1 (some some_name)
    ∷ add_member 7 9 1 (some some_name)
    ∷ add_manager 7 8
    ∷ []

abbrev three : GroupInfo
three = run calls empty_group

abbrev hello : MsgInfo
hello = record {
  send_guid = 9;
  recv_guid = 70;
  time_sec = 5;
  msg_length = 2;
  msg_num = 0;
  msg_type = 1;
  msg = b'h' ∷ b'i' ∷ [];
}

apply-IsValid_example : IsValid (apply (change_permissions 7 9 5) three).0
apply-IsValid_example =
    apply-IsValid (change_permissions 7 9 5) three (run-empty_group-IsValid calls)

on_add_msg_lem_example :
    let (g', msg', taken) = on_add_msg hello three in
    (taken ≡ true)
    × (msg'.msg_num ≡ (if hello.msg_num == 0 then next_num three.msg_list else hello.msg_num))
    × (g'.msg_list
        ≡ drop (length three.msg_list + 1 - group_msgs_max_len) (three.msg_list ++ msg' ∷ []))
    × (get_last? g'.msg_list ≡ some msg')
    × (g' ≡ record three { msg_list = g'.msg_list; msg_limit = length g'.msg_list })
unfolding run apply empty_group on_add_member on_add_manager append_manager append_member promote
    find contains insert erase update
on_add_msg_lem_example =
    on_add_msg_lem hello three (run-empty_group-IsValid calls).bounded refl refl

-- A group of nobody on the wire: guid 70, no members, leader 7.
abbrev nobody : Bytes
nobody = le_bytes 4 70 ++ le_bytes 4 0 ++ le_bytes 4 7

from_data-IsLinked_example : IsLinked (from_data 0 nobody 12 empty_group).0
unfolding from_data empty_group group_length group_read read_members get_num le_bytes le_value
from_data-IsLinked_example = from_data-IsLinked 0 nobody 12 (λ e. cc) (omega arith)

three-Fits : GroupFits three
unfolding run apply empty_group on_add_member on_add_manager append_manager append_member promote
    find contains insert erase update on_delete_member
three-Fits = record {
  group_guid = omega arith;
  some_guid = omega arith;
  learder_guid = omega arith;
  counted = refl;
  small = omega arith;
  members = (
    record {
      group_guid = omega arith;
      user_guid = omega arith;
      icon_guid = omega arith;
      msg_count = omega arith;
      permissions = omega arith;
      job = omega arith;
      name = refl;
    },
    (
      record {
        group_guid = omega arith;
        user_guid = omega arith;
        icon_guid = omega arith;
        msg_count = omega arith;
        permissions = omega arith;
        job = omega arith;
        name = refl;
      },
      (
        record {
          group_guid = omega arith;
          user_guid = omega arith;
          icon_guid = omega arith;
          msg_count = omega arith;
          permissions = omega arith;
          job = omega arith;
          name = refl;
        },
        tt,
      ),
    ),
  );
}

group_restored_example :
    let (n, bytes) = to_data true 200 three in
    let (g', index) = from_data 0 (bytes ++ []) 200 empty_group in
    (n ≡ 12 + three.member_count * member_length)
    × (index ≡ n)
    × (g'.group_guid ≡ three.group_guid)
    × (g'.member_count ≡ three.member_count)
    × (g'.learder_guid ≡ three.learder_guid)
    × (records g'.members_list ≡ records three.members_list)
    × IsLinked g'
unfolding run apply empty_group on_add_member on_add_manager append_manager append_member promote
    find contains insert erase update
group_restored_example = group_restored three 0 200 200 [] three-Fits (omega arith) (omega arith)

-- The roles that a group has.
abbrev roles_of : GroupInfo → Roles
roles_of g = record {
  leader = g.learder_guid;
  managers = λ k. contains k g.managers_map;
  normals = λ k. contains k g.members_map;
}

roles_of-Refines : (g : GroupInfo) → Refines g (roles_of g)
roles_of-Refines g = record { leader = refl; managers = λ k. refl; normals = λ k. refl }

apply-Simulates_example : Simulates (delete_member 7 8) three (roles_of three)
apply-Simulates_example =
    apply-Simulates three (roles_of three) (roles_of-Refines three) (delete_member 7 8)

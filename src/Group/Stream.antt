-- ===== src/Group/Stream.antt =====
-- `GroupInfo::from_data`, `to_data` and `length` of source/group_info.cpp.
use aim_to_v.Base.{
  ℕ, zero, suc, ◌+◌, ◌-◌, ◌*◌, ◌%◌, ◌^◌, Bool, true, not, ◌||◌, ltb, ◌==◌, if◌then◌else◌, some,
  List, [], ◌∷◌, ◌++◌, length, drop,
}
use aim_to_v.Base.Map.{insert}
use aim_to_v.Wire.Bytes.{Bytes, Reader, ◌>>=◌, pure, at, get_num, le_bytes, written}
use aim_to_v.Wire.Codec
use aim_to_v.Wire.Member.{
  Member, member, member_init, member_length, group_job_leader, group_job_manager,
}
use aim_to_v.Group.{GroupInfo, inc32}

-- `member_count * info.length()` on `uint32_t`.
abbrev pub members_bytes : ℕ → ℕ
members_bytes member_count = (member_count * member_length) % 2 ^ 32

unfoldable pub group_length : GroupInfo → ℕ
group_length g = (4 + 4 + 4 + members_bytes g.member_count) % 2 ^ 32

-- `group_guid`, `member_count` and `learder_guid`; a guid of 0 becomes `++global_guid`.
unfoldable pub group_read : ℕ → GroupInfo → Reader GroupInfo
group_read global_guid g = do
  group_guid ← get_num 4
  member_count ← get_num 4
  learder_guid ← get_num 4
  pure (record g {
    group_guid = if group_guid == 0 then inc32 global_guid else group_guid;
    member_count = member_count;
    learder_guid = learder_guid;
  })

-- A member that was read goes to the end of the list, and by its job into one of the maps.
unfoldable pub store_member : Member → GroupInfo → GroupInfo
store_member m g =
    if m.job == group_job_leader || m.job == group_job_manager
    then record g {
      members_list = g.members_list ++ (g.next_node, m) ∷ [];
      managers_map = insert m.user_guid g.next_node g.managers_map;
      next_node = suc g.next_node;
    }
    else record g {
      members_list = g.members_list ++ (g.next_node, m) ∷ [];
      members_map = insert m.user_guid g.next_node g.members_map;
      next_node = suc g.next_node;
    }

-- The loop over `member_count`: `src` is `data + index`, `left` is `data_len - index`. Where a
-- member cannot be read the loop goes on at the same place.
unfoldable pub read_members : ℕ → Bytes → ℕ → ℕ → GroupInfo → GroupInfo × ℕ
read_members zero src left index g = (g, index)
read_members (suc n) src left index g =
    let (m, temp_index) = Codec.from_data member (some src) left member_init in
    let skipped = read_members n src left index g in
    let stored =
      read_members n (drop member_length src) (left - member_length) (index + member_length)
        (store_member m g) in
    if temp_index == 0 then skipped else stored

unfoldable pub from_data : ℕ → Bytes → ℕ → GroupInfo → GroupInfo × ℕ
from_data global_guid data_ptr data_len g =
    if ltb data_len (group_length g)
    then (g, 0)
    else (let (g', c) = group_read global_guid g (at 0 data_ptr) in
        if ltb (data_len - c.index) (members_bytes g'.member_count)
        then (g', 0)
        else read_members g'.member_count c.rest (data_len - c.index) c.index g')

abbrev pub group_fields : GroupInfo → List Bytes
group_fields g =
    le_bytes 4 g.group_guid ∷ le_bytes 4 g.member_count ∷ le_bytes 4 g.learder_guid ∷ []

-- The loop over `members_list`.
unfoldable pub write_members : List (ℕ × Member) → ℕ → Bytes
write_members [] room = []
write_members ((node, m) ∷ ms) room =
    let bytes = Codec.to_data member true room m in bytes ++ write_members ms (room - length bytes)

-- The index that is returned, and what was written all the same.
unfoldable pub to_data : Bool → ℕ → GroupInfo → ℕ × Bytes
to_data dst data_len g =
    if not dst || ltb data_len (group_length g)
    then (0, [])
    else (let head = written (group_fields g) [] in
        if ltb (data_len - length head) (members_bytes g.member_count)
        then (0, head)
        else (let bytes = head ++ write_members g.members_list (data_len - length head) in
            if not (length g.members_list == g.member_count)
            then (0, bytes)
            else (length bytes, bytes)))

-- ===== src/Group/Restore.antt =====
-- A group that is written and read again.
use aim_to_v.Base.{
  ℕ, zero, suc, ◌+◌, ◌-◌, ◌*◌, ◌^◌, ◌≤◌, ◌<◌, ◌≡◌, refl, true, ltb-false, ==_true, List, [], ◌∷◌,
  ◌++◌, length, length-append, drop-append, arith, ap, sym, ◌∙◌, map, append-nil, append_assoc,
}
use mathlib.Core.List.{map-append}
use aim_to_v.Wire.Bytes.{Bytes, written, length-le_bytes}
use aim_to_v.Wire.Codec
use aim_to_v.Wire.Member.{Member, MemberFits, member, member_init, member_length}
use aim_to_v.Group.{GroupInfo, empty_group}
use aim_to_v.Group.Links.{IsLinked}
use aim_to_v.Group.Load.{
  read_members_all, read_members-SameHead, read_members-counted, from_data_headed, headed,
  headed-IsLinked,
}
use aim_to_v.Group.Stream.{
  members_bytes, group_length, store_member, read_members, from_data, group_fields, write_members,
  to_data,
}

abbrev pub AllFit : List (ℕ × Member) → Type 0
AllFit [] = Unit {0}
AllFit ((node, m) ∷ ms) = MemberFits m × AllFit ms

-- The records of a group's members, in the order of the list.
abbrev pub records : List (ℕ × Member) → List Member
records = map λ entry. entry.1

records-store_member :
    (m : Member) (g : GroupInfo)
    → records (store_member m g).members_list ≡ records g.members_list ++ m ∷ []
unfolding store_member
records-store_member m g =
    ground
      (arith, map-append (λ (entry : ℕ × Member). entry.1) g.members_list ((g.next_node, m) ∷ []))

-- The loop of `from_data` over what the loop of `to_data` wrote.
read_members-write_members :
    (ms : List (ℕ × Member)) (n room left i : ℕ) (rest : Bytes) (g : GroupInfo)
    → n ≡ length ms
    → AllFit ms
    → n * member_length ≤ room
    → n * member_length ≤ left
    → records (read_members n (write_members ms room ++ rest) left i g).0.members_list
      ≡ records g.members_list ++ records ms
unfolding read_members write_members
read_members-write_members [] zero room left i rest g e f hr hl = rw append-nil
read_members-write_members [] (suc n) room left i rest g e f hr hl = absurd (omega arith)
read_members-write_members (entry ∷ ms) zero room left i rest g e f hr hl = absurd (omega arith)
read_members-write_members ((node, m) ∷ ms) (suc n) room left i rest g e f hr hl =
    let bytes : Bytes = Codec.to_data member true room m in
    let tail : Bytes = write_members ms (room - member_length) in
    let size : length bytes ≡ member_length =
      Codec.length-to_data member m room f.0 (omega arith) in
    rw (
      size,
      append_assoc bytes tail rest,
      Codec.from_data-to_data member m member_init room left (tail ++ rest) f.0 (omega arith)
          (omega arith),
      drop-append member_length bytes (tail ++ rest) size,
      read_members-write_members ms n (room - member_length) (left - member_length)
          (i + member_length) rest (store_member m g) (omega arith) f.1 (omega arith) (omega arith),
      records-store_member m g,
      append_assoc (records g.members_list) (m ∷ []) (records ms),
    )

length-write_members :
    (ms : List (ℕ × Member)) (room : ℕ)
    → AllFit ms
    → length ms * member_length ≤ room
    → length (write_members ms room) ≡ length ms * member_length
unfolding write_members
length-write_members [] room f h = omega arith
length-write_members ((node, m) ∷ ms) room f h =
    let bytes : Bytes = Codec.to_data member true room m in
    let size : length bytes ≡ member_length =
      Codec.length-to_data member m room f.0 (omega arith) in
    rw (size, length-append bytes (write_members ms (room - member_length)), size)
      (omega (arith, length-write_members ms (room - member_length) f.1 (omega arith)))

-- The fields of a group hold what their C++ types can, and its count is right and small enough for
-- the arithmetic of `length()`.
pub record GroupFits (g : GroupInfo) : Type 0 where
  pub group_guid : g.group_guid < 2 ^ 32
  pub some_guid : 0 < g.group_guid
  pub learder_guid : g.learder_guid < 2 ^ 32
  pub counted : g.member_count ≡ length g.members_list
  pub small : 12 + g.member_count * member_length < 2 ^ 32
  pub members : AllFit g.members_list

length-group_fields : (g : GroupInfo) → length (written (group_fields g) []) ≡ 12
length-group_fields g = simp (length-append, length-le_bytes)

to_data_written :
    (g : GroupInfo) (room : ℕ)
    → GroupFits g
    → 12 + g.member_count * member_length ≤ room
    → to_data true room g ≡ (
      12 + g.member_count * member_length,
      written (group_fields g) [] ++ write_members g.members_list (room - 12),
    )
unfolding to_data group_length
to_data_written g room f h =
    let enough : group_length g ≤ room = unfold group_length in omega (arith, f.small) in
    rw
      (
        length-group_fields g,
        ltb-false room (group_length g) enough,
        ltb-false (room - 12) (members_bytes g.member_count) (omega (arith, f.small)),
        length-append (written (group_fields g) []) (write_members g.members_list (room - 12)),
        length-group_fields g,
        length-write_members g.members_list (room - 12) f.members (omega (arith, f.counted)),
        ==_true (length g.members_list) g.member_count (omega (arith, f.counted)),
      )
      (ap
        (λ k. (
          12 + k * member_length,
          written (group_fields g) [] ++ write_members g.members_list (room - 12),
        ))
        (sym f.counted))

-- A group that is written is read back, whatever follows it in the buffer: the two indices agree,
-- the guids, the count and the records of all members in their order are the same, and the new
-- group is linked.
pub group_restored :
    (g : GroupInfo) (global room len : ℕ) (rest : Bytes)
    → GroupFits g
    → 12 + g.member_count * member_length ≤ room
    → 12 + g.member_count * member_length ≤ len
    → let (n, bytes) = to_data true room g in
      let (g', index) = from_data global (bytes ++ rest) len empty_group in
      (n ≡ 12 + g.member_count * member_length)
      × (index ≡ n)
      × (g'.group_guid ≡ g.group_guid)
      × (g'.member_count ≡ g.member_count)
      × (g'.learder_guid ≡ g.learder_guid)
      × (records g'.members_list ≡ records g.members_list)
      × IsLinked g'
group_restored g global room len rest f hr hl =
    let src : Bytes = write_members g.members_list (room - 12) ++ rest in
    let g0 : GroupInfo = headed global g.group_guid g.member_count g.learder_guid empty_group in
    let same = read_members-SameHead g.member_count src (len - 12) 12 g0 in
    let enough : group_length empty_group ≤ len = unfold group_length empty_group in omega arith in
    let empty : length g0.members_list ≡ 0 = unfold empty_group in refl in
    let guid : g0.group_guid ≡ g.group_guid = ground arith in
    let whole =
      read_members-write_members g.members_list g.member_count (room - 12) (len - 12) 12 rest g0
        f.counted f.members (omega arith) (omega arith) in
    let all = read_members_all g.member_count src (len - 12) 12 g0 (omega arith) in
    rw
      (
        to_data_written g room f hr,
        append_assoc (written (group_fields g) []) (write_members g.members_list (room - 12)) rest,
        from_data_headed global g.group_guid g.member_count g.learder_guid len empty_group src
            f.group_guid (omega (arith, f.small)) f.learder_guid enough (omega (arith, f.small)),
      )
      (
        refl,
        omega (arith, all.1),
        same.0 ∙ guid,
        same.1,
        same.2,
        unfold empty_group in whole,
        read_members-counted g.member_count src (len - 12) 12 g0
            (headed-IsLinked global g.group_guid g.member_count g.learder_guid) empty refl
            (omega arith) (omega (arith, f.small)),
      )

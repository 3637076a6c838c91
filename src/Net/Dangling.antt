-- ===== src/Net/Dangling.antt =====
-- What `on_group_add` puts into `groups`: a copy whose maps still hold the iterators of the original.
use aim_to_v.Base.{
  ℕ, zero, suc, ◌+◌, ◌-◌, ◌<◌, ◌≡◌, ◌≢◌, refl, true, ◌==◌, none, some, List, [], ◌∷◌, drop,
  Option-cases, Bool-cases, inl, inr, arith,
}
use aim_to_v.Base.Map.{find, find-insert}
use aim_to_v.Wire.Bytes.{Bytes, at}
use aim_to_v.Wire.Codec
use aim_to_v.Wire.Member.{Member, member, member_init, member_length}
use aim_to_v.Wire.MsgInfo.{MsgInfo}
use aim_to_v.Group.{GroupInfo, empty_group, get_member_by_guid, traverse_all_members}
use aim_to_v.Group.Stream
use aim_to_v.Group.Stream.{group_read, read_members, store_member}
use aim_to_v.Group.Walk.{traverse_all_members-keeps}
use aim_to_v.User.{UserInfo, can_create_group}
use aim_to_v.Net.{NetInfo, send_msg, send_client_ack}
use aim_to_v.Net.Create.{
  global_group_guid, set_up_member, renumber, copy_group, create_group, on_group_add,
}
use aim_to_v.Net.Deliver.{deliver_group}

-- The two maps lead to numbers that have been given out.
record NodesBelow (g : GroupInfo) : Type 0 where
  managers : (guid node : ℕ) → find guid g.managers_map ≡ some node → node < g.next_node
  members : (guid node : ℕ) → find guid g.members_map ≡ some node → node < g.next_node

store_member-NodesBelow :
    (m : Member) (g : GroupInfo) → NodesBelow g → NodesBelow (store_member m g)
unfolding store_member
store_member-NodesBelow m g b = record {
  managers = λ guid node h.
      ground (arith, b.managers guid node, find-insert guid m.user_guid g.next_node g.managers_map);
  members = λ guid node h.
      ground (arith, b.members guid node, find-insert guid m.user_guid g.next_node g.members_map);
}

read_members-NodesBelow :
    (n : ℕ) (src : Bytes) (left index : ℕ) (g : GroupInfo)
    → NodesBelow g
    → NodesBelow (read_members n src left index g).0
unfolding read_members
read_members-NodesBelow zero src left index g b = b
read_members-NodesBelow (suc n) src left index g b =
    let (m, taken) = Codec.from_data member (some src) left member_init in
    elim (Bool-cases (taken == 0)) [
      | inl e ↦ rw e (read_members-NodesBelow n src left index g b)
      | inr e ↦ rw e (
          read_members-NodesBelow n (drop member_length src) (left - member_length)
            (index + member_length) (store_member m g) (store_member-NodesBelow m g b))
    ]

-- Another group with the same maps.
same-NodesBelow :
    (g g' : GroupInfo)
    → g'.managers_map ≡ g.managers_map
    → g'.members_map ≡ g.members_map
    → g'.next_node ≡ g.next_node
    → NodesBelow g
    → NodesBelow g'
same-NodesBelow g g' a b c n = record {
  managers = λ guid node h. ground (arith, n.managers guid node);
  members = λ guid node h. ground (arith, n.members guid node);
}

empty_group-NodesBelow : NodesBelow empty_group
unfolding empty_group find
empty_group-NodesBelow = record { managers = λ guid node h. cc; members = λ guid node h. cc }

from_data-NodesBelow :
    (global : ℕ) (src : Bytes) (len : ℕ)
    → NodesBelow (Stream.from_data global src len empty_group).0
unfolding Stream.from_data group_read
from_data-NodesBelow global src len =
    let (g, c) = group_read global empty_group (at 0 src) in
    let b : NodesBelow g = same-NodesBelow empty_group g refl refl refl empty_group-NodesBelow in
    grind (arith, empty_group-NodesBelow, b, read_members-NodesBelow)

-- A number below the first one is not in a renumbered list.
find-renumber :
    (next node : ℕ) (ms : List (ℕ × Member)) → node < next → find node (renumber next ms) ≡ none
unfolding find renumber
find-renumber next node [] h = refl
find-renumber next node ((k, m) ∷ ms) h =
    ground (arith, find-renumber (suc next) node ms (omega (arith, h)))

copy_group-dangling :
    (g : GroupInfo) (guid node : ℕ)
    → NodesBelow g
    → get_member_by_guid guid (copy_group g) ≡ some node
    → find node (copy_group g).members_list ≡ none
unfolding copy_group get_member_by_guid
copy_group-dangling g guid node b h =
    find-renumber g.next_node node g.members_list
      (ground (arith, b.managers guid node, b.members guid node))

-- The walk changes what the nodes hold, not where the maps lead.
set_up_member-keeps :
    (now guid node : ℕ) (s : GroupInfo × NetInfo)
    → NodesBelow s.0 × (s.0.group_guid ≡ guid)
    → let g' = (set_up_member now node s).0.0 in NodesBelow g' × (g'.group_guid ≡ guid)
unfolding set_up_member
set_up_member-keeps now guid node (g, n) (b, e) =
    (same-NodesBelow g _ (ground arith) (ground arith) (ground arith) b, ground arith)

-- Where the request is accepted, no lookup in the group that is stored leads to a member.
pub on_group_add_dangling :
    (now : ℕ) (src : Bytes) (len fd : ℕ) (n : NetInfo) (user : UserInfo)
    → let (info, index) = Stream.from_data global_group_guid src len empty_group in
      index ≢ 0
      → find info.learder_guid n.users_map ≡ some user
      → can_create_group user ≡ true
      → (g : GroupInfo) × (find info.group_guid (on_group_add now src len fd n).0.groups_map
          ≡ some g)
        × ((guid node : ℕ)
            → get_member_by_guid guid g ≡ some node
            → find node g.members_list ≡ none)
unfolding on_group_add send_client_ack send_msg create_group
on_group_add_dangling now src len fd n user ne leader may =
    let (info, index) = Stream.from_data global_group_guid src len empty_group in
    let walk = traverse_all_members (some (set_up_member now)) info (info, n) in
    let q =
      traverse_all_members-keeps (λ s. NodesBelow s.0 × (s.0.group_guid ≡ info.group_guid))
        (set_up_member now) (set_up_member-keeps now info.group_guid) info (info, n)
        (from_data-NodesBelow global_group_guid src len, refl) in
    let g = copy_group walk.0.0 in
    (
      g,
      ground (
        arith,
        ne,
        leader,
        may,
        q.1,
        find-insert info.group_guid info.group_guid g walk.0.1.groups_map,
      ),
      λ guid node h. copy_group-dangling walk.0.0 guid node q.0 h,
    )

-- After on_group_add has accepted a request, a message to the new group has no defined result,
-- whoever sends it.
pub created_group_message :
    (now time : ℕ) (src : Bytes) (len fd : ℕ) (n : NetInfo) (user : UserInfo) (msg : MsgInfo)
    → let (info, index) = Stream.from_data global_group_guid src len empty_group in
      index ≢ 0
      → find info.learder_guid n.users_map ≡ some user
      → can_create_group user ≡ true
      → msg.recv_guid ≡ info.group_guid
      → deliver_group time msg (on_group_add now src len fd n).0 ≡ none
unfolding deliver_group
created_group_message now time src len fd n user msg ne leader may to =
    let (g, stored, dangling) = on_group_add_dangling now src len fd n user ne leader may in
    elim (Option-cases (get_member_by_guid msg.send_guid g)) [
      | inl e ↦ ground (arith, stored, to)
      | inr (node, e) ↦ ground (arith, stored, to, dangling msg.send_guid node e)
    ]

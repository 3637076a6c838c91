-- ===== src/Net/Changes.antt =====
-- What `on_acount_modify` and `on_acount_delete` do to the groups of a user.
use aim_to_v.Base.{
  ℕ, ◌+◌, ◌%◌, ◌^◌, ◌≡◌, ◌≢◌, refl, true, false, not, ◌&&◌, none, some, [], Option-cases, inl, inr,
  arith,
}
use aim_to_v.Base.Map.{Map, find, contains, insert, erase, find-insert, find-erase}
use aim_to_v.Wire.Bytes.{Bytes}
use aim_to_v.Group.{
  GroupInfo, on_delete_member, on_delete_manager, demote, remove_manager, remove_member,
}
use aim_to_v.Group.Walk.{on_node}
use aim_to_v.User.{UserInfo, empty_user}
use aim_to_v.User.Store.{destroy}
use aim_to_v.Net.{NetInfo, send_msg, send_client_ack}
use aim_to_v.Net.Users.{UsersPlain, from_data-plain}
use aim_to_v.Net.Accounts.{
  Host, parsed_user, refresh_groups, replace_user, on_acount_modify, quit_group,
}

refresh_none :
    (user : UserInfo) (groups : Map ℕ) (n : NetInfo)
    → groups ≡ []
    → refresh_groups user groups n ≡ some n
unfolding refresh_groups
refresh_none user groups n e = rw e refl

-- An old user without logs is destroyed.
replace_plain :
    (host : Host) (user old : UserInfo) (n : NetInfo)
    → old.msg_map ≡ []
    → (n' : NetInfo) × (replace_user host user old n ≡ some n')
      × ((find user.user_guid n'.users_map ≡ some user) × (n'.groups_map ≡ n.groups_map))
unfolding replace_user destroy
replace_plain host user old n e = (
  record n {
    users_map = insert user.user_guid user n.users_map;
    phone_hash_map =
        insert (host.hash user.phone) user.user_guid (erase (host.hash old.phone) n.phone_hash_map);
  },
  rw e refl,
  (ground (arith, find-insert user.user_guid user.user_guid user n.users_map), refl),
)

send_client_ack-maps :
    (t e fd : ℕ) (n : NetInfo)
    → let n' = send_client_ack t e fd n in
      (n'.users_map ≡ n.users_map) × (n'.groups_map ≡ n.groups_map)
unfolding send_client_ack send_msg
send_client_ack-maps t e fd n = (ground arith, ground arith)

-- Where every user is plain, a readable change of an account whose guid is not the next free
-- one is undefined for a guid that no user has; for a user it is accepted, the new user is in
-- no groups, and no group changes.
pub on_acount_modify_lem :
    (host : Host) (src : Bytes) (len fd : ℕ) (n : NetInfo)
    → let (user, index) = parsed_user host src len n in
      UsersPlain n
      → index ≢ 0
      → user.user_guid ≢ (n.global_user_guid + 1) % 2 ^ 32
      → (find user.user_guid n.users_map ≡ none → on_acount_modify host src len fd n ≡ none)
        × ((old : UserInfo)
            → find user.user_guid n.users_map ≡ some old
            → (n' : NetInfo) × (on_acount_modify host src len fd n ≡ some (n', index))
              × (find user.user_guid n'.users_map ≡ some user)
              × (user.join_groups ≡ [])
              × (n'.groups_map ≡ n.groups_map))
unfolding on_acount_modify
on_acount_modify_lem host src len fd n plain ne other =
    let (user, index) = parsed_user host src len n in
    let made =
      from_data-plain host.hash host.beyond host.now n.global_user_guid src len empty_user in
    let groups : user.join_groups ≡ [] = unfold empty_user in made.2 in
    (
      λ e. ground arith,
      λ old e.
          let replaced = replace_plain host user old n (plain.plain user.user_guid old e).msg_map in
          let n1 = replaced.0 in
          let answered = send_client_ack-maps 10001 0 fd n1 in
          (
            send_client_ack 10001 0 fd n1,
            ground (arith, ne, other, e, refresh_none user user.join_groups n groups, replaced.1),
            ground (arith, answered, replaced.2),
            groups,
            ground (arith, answered, replaced.2),
          ),
    )

-- In a group whose leader is in managers_map, for a user who is not in both maps, what
-- on_acount_delete does with the group, where it is defined, takes the user out of managers_map, leaves the user in
-- members_map exactly where the user was a manager, and leaves everybody else in the maps they
-- were in.
pub quit_group_lem :
    (guid : ℕ) (g g' : GroupInfo)
    → quit_group guid g ≡ some g'
    → contains g.learder_guid g.managers_map ≡ true
    → not (contains guid g.managers_map && contains guid g.members_map) ≡ true
    → (contains guid g'.managers_map ≡ false)
      × (contains guid g'.members_map ≡ contains guid g.managers_map)
      × ((other : ℕ)
          → other ≢ guid
          → (contains other g'.managers_map ≡ contains other g.managers_map)
            × (contains other g'.members_map ≡ contains other g.members_map))
unfolding quit_group on_node on_delete_manager on_delete_member demote remove_manager remove_member
    contains
quit_group_lem guid g g' h leads one = elim (Option-cases (find guid g.managers_map)) [
  | inl e ↦ elim (Option-cases (find guid g.members_map)) [
    | inl e' ↦ (ground arith, ground arith, λ other d. (ground arith, ground arith))
    | inr (node, e') ↦ (
      ground arith,
      ground (arith, find-erase guid guid g.members_map),
      λ other d. (ground arith, ground (arith, find-erase other guid g.members_map)),
    )
  ]
  | inr (node, e) ↦ (
    ground (arith, find-erase guid guid g.managers_map),
    ground (arith, find-insert guid guid node g.members_map),
    λ other d. (
      ground (arith, find-erase other guid g.managers_map),
      ground (arith, find-insert other guid node g.members_map),
    ),
  )
]

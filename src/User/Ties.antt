-- ===== src/User/Ties.antt =====
-- The groups and friends of a user, and the number of groups that the user owns.
use aim_to_v.Base.{ℕ, ◌+◌, ◌≤◌, ◌≡◌, ◌⊎◌, ◌↔◌, true, false, some, arith}
use aim_to_v.Base.Map.{find, contains, insert, find-insert, find-erase}
use aim_to_v.User.{
  UserInfo, own_group_max, on_join_group, on_leave_group, on_update_group_active, on_add_friend,
  on_delete_friend, on_update_friend_active, on_create_group, on_delete_group, can_create_group,
}

-- A user who is not in a group and joins it is in it since that time; joining again is refused and
-- changes nothing, an update sets the new time, and after leaving every lookup is as before.
pub join_update_leave :
    (t t' guid : ℕ) (u : UserInfo)
    → contains guid u.join_groups ≡ false
    → let (joined, taken) = on_join_group t guid u in
      let (updated, seen) = on_update_group_active t' guid joined in
      let (left, gone) = on_leave_group guid updated in
      (taken ≡ true)
      × (find guid joined.join_groups ≡ some t)
      × (on_join_group t' guid joined ≡ (joined, false))
      × (seen ≡ true)
      × (find guid updated.join_groups ≡ some t')
      × (gone ≡ true)
      × ((j : ℕ) → find j left.join_groups ≡ find j u.join_groups)
unfolding on_join_group on_update_group_active on_leave_group contains
join_update_leave t t' guid u h =
    let joined = find-insert guid guid t u.join_groups in
    let updated = find-insert guid guid t' (insert guid t u.join_groups) in
    (
      ground arith,
      ground (arith, joined),
      ground (arith, joined),
      ground (arith, joined),
      ground (arith, joined, updated),
      ground (arith, joined, updated),
      λ j. ground (
        arith,
        joined,
        updated,
        find-erase j guid (insert guid t' (insert guid t u.join_groups)),
        find-insert j guid t' (insert guid t u.join_groups),
        find-insert j guid t u.join_groups,
      ),
    )

-- A friend who is added has that time; adding again is refused and changes nothing, an update sets
-- the new time, and after deleting every lookup of a friend is as before.
pub befriend_update_unfriend :
    (t t' guid : ℕ) (u : UserInfo)
    → contains guid u.friends ≡ false
    → let (added, taken) = on_add_friend t guid u in
      let (updated, seen) = on_update_friend_active t' guid added in
      let (left, gone) = on_delete_friend guid updated in
      (taken ≡ true)
      × (find guid added.friends ≡ some t)
      × (on_add_friend t' guid added ≡ (added, false))
      × (seen ≡ true)
      × (find guid updated.friends ≡ some t')
      × (gone ≡ true)
      × ((j : ℕ) → find j left.friends ≡ find j u.friends)
unfolding on_add_friend on_update_friend_active on_delete_friend contains
befriend_update_unfriend t t' guid u h =
    let added = find-insert guid guid t u.friends in
    let updated = find-insert guid guid t' (insert guid t u.friends) in
    (
      ground arith,
      ground (arith, added),
      ground (arith, added),
      ground (arith, added),
      ground (arith, added, updated),
      ground (arith, added, updated),
      λ j. ground (
        arith,
        added,
        updated,
        find-erase j guid (insert guid t' (insert guid t u.friends)),
        find-insert j guid t' (insert guid t u.friends),
        find-insert j guid t u.friends,
      ),
    )

-- `on_create_group` accepts what `can_create_group` allows, and one more: at the maximum, where
-- `can_create_group` says no, it still counts up, to one above the maximum, and stops there.
pub on_create_group_iff :
    (u : UserInfo)
    → let (u', created) = on_create_group u in
      ((created ≡ true) ↔ ((can_create_group u ≡ true) ⊎ (u.owner_groups ≡ own_group_max)))
      × (created ≡ true → u'.owner_groups ≡ u.owner_groups + 1)
      × (u.owner_groups ≤ own_group_max + 1 → u'.owner_groups ≤ own_group_max + 1)
      × (created ≡ true → on_delete_group u' ≡ (u, true))
unfolding on_create_group can_create_group on_delete_group
on_create_group_iff u = (
  (λ h. ground arith, λ h. ground arith),
  λ h. ground arith,
  λ h. ground arith,
  λ h. ground arith,
)

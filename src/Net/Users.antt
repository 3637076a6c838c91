-- ===== src/Net/Users.antt =====
-- What holds of every user of the server, whatever arrives: nobody has a friend or a log, and every
-- user is kept under the user's own guid.
use aim_to_v.Base.{ℕ, ◌≡◌, refl, some, [], arith}
use aim_to_v.Base.Map.{find, contains, erase, find-insert, find-erase}
use aim_to_v.Wire.Bytes.{Bytes}
use aim_to_v.User.{
  UserInfo, empty_user, user_read, on_set_online_status, on_join_group, on_leave_group,
  on_update_group_active, on_create_group, on_delete_group, on_delete_friend,
}
use aim_to_v.User
use aim_to_v.Net.{NetInfo, put_user}
use aim_to_v.Net.Logins.{logged_in, logged_out}

pub record IsPlain (guid : ℕ) (u : UserInfo) : Type 0 where
  pub friends : u.friends ≡ []
  pub msg_map : u.msg_map ≡ []
  pub user_guid : u.user_guid ≡ guid

pub record UsersPlain (n : NetInfo) : Type 0 where
  pub plain : (guid : ℕ) (u : UserInfo) → find guid n.users_map ≡ some u → IsPlain guid u

pub same-UsersPlain : (n n' : NetInfo) → n'.users_map ≡ n.users_map → UsersPlain n → UsersPlain n'
same-UsersPlain n n' e p = record { plain = λ guid u h. p.plain guid u (ground arith) }

pub put_user-UsersPlain :
    (guid : ℕ) (u : UserInfo) (n : NetInfo)
    → UsersPlain n
    → IsPlain guid u
    → UsersPlain (put_user guid u n)
put_user-UsersPlain guid u n p q = record {
  plain = λ k v h. ground (arith, find-insert k guid u n.users_map, p.plain k v);
}

pub erase-UsersPlain :
    (guid : ℕ) (n : NetInfo)
    → UsersPlain n
    → UsersPlain (record n { users_map = erase guid n.users_map })
erase-UsersPlain guid n p = record {
  plain = λ k v h. ground (arith, find-erase k guid n.users_map, p.plain k v);
}

-- Changes of a user that leave the three fields alone.
module _ (guid : ℕ) (u : UserInfo) (p : IsPlain guid u) where
  changed-IsPlain :
      (v : UserInfo)
      → v.friends ≡ u.friends
      → v.msg_map ≡ u.msg_map
      → v.user_guid ≡ u.user_guid
      → IsPlain guid v
  changed-IsPlain v a b c = ground (arith, p)

  pub on_join_group-IsPlain : (now k : ℕ) → IsPlain guid (on_join_group now k u).0
  unfolding on_join_group
  on_join_group-IsPlain now k = changed-IsPlain _ (ground arith) (ground arith) (ground arith)

  pub on_leave_group-IsPlain : (k : ℕ) → IsPlain guid (on_leave_group k u).0
  unfolding on_leave_group
  on_leave_group-IsPlain k = changed-IsPlain _ (ground arith) (ground arith) (ground arith)

  pub on_update_group_active-IsPlain : (now k : ℕ) → IsPlain guid (on_update_group_active now k u).0
  unfolding on_update_group_active
  on_update_group_active-IsPlain now k =
      changed-IsPlain _ (ground arith) (ground arith) (ground arith)

  pub on_create_group-IsPlain : IsPlain guid (on_create_group u).0
  unfolding on_create_group
  on_create_group-IsPlain = changed-IsPlain _ (ground arith) (ground arith) (ground arith)

  pub on_delete_group-IsPlain : IsPlain guid (on_delete_group u).0
  unfolding on_delete_group
  on_delete_group-IsPlain = changed-IsPlain _ (ground arith) (ground arith) (ground arith)

  pub on_delete_friend-IsPlain : (k : ℕ) → IsPlain guid (on_delete_friend k u).0
  unfolding on_delete_friend contains find
  on_delete_friend-IsPlain k = grind (arith, p)

  pub logged_in-IsPlain : (now : ℕ) → IsPlain guid (logged_in now u)
  unfolding on_set_online_status
  logged_in-IsPlain now = changed-IsPlain _ refl refl refl

  pub logged_out-IsPlain : (now : ℕ) → IsPlain guid (logged_out now u)
  unfolding on_set_online_status
  logged_out-IsPlain now = changed-IsPlain _ refl refl refl

  pub offline-IsPlain : IsPlain guid (on_set_online_status 1 u).0
  unfolding on_set_online_status
  offline-IsPlain = changed-IsPlain _ refl refl refl

-- What a packet makes.
pub from_data-plain :
    (hash : Bytes → ℕ) (beyond : Bytes) (now global : ℕ) (src : Bytes) (len : ℕ) (u : UserInfo)
    → let v = (User.from_data hash beyond now global src len u).0 in
      (v.friends ≡ u.friends) × (v.msg_map ≡ u.msg_map) × (v.join_groups ≡ u.join_groups)
unfolding User.from_data user_read
from_data-plain hash beyond now global src len u = (ground arith, ground arith, ground arith)

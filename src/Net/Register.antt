-- ===== src/Net/Register.antt =====
-- What a registration leads to: `on_acount_add` and the login after it.
use aim_to_v.Base.{ℕ, ◌≡◌, ◌≢◌, refl, Bool, some, length, Option-cases, inl, inr, arith}
use aim_to_v.Base.Map.{find, insert, find-insert, find-erase}
use aim_to_v.Wire.Bytes.{Bytes}
use aim_to_v.Group.{GroupInfo}
use aim_to_v.Group.Walk.{walk-keeps}
use aim_to_v.User.{UserInfo, empty_user, user_read, on_set_online_status}
use aim_to_v.User
use aim_to_v.Net.{NetInfo, error_ok, send_msg, put_group}
use aim_to_v.Net.Logins.{on_phone_unique, on_login}
use aim_to_v.Net.Accounts.{
  Host, drop_user, parsed_user, send_add_ack, registered, enter_user, notify, notify_members,
  join_public, open_acount, on_acount_add,
}

-- The accounts, as a login looks at them.
abbrev SameAccounts : NetInfo → NetInfo → Type 0
SameAccounts n n' = (n'.users_map ≡ n.users_map) × (n'.phone_hash_map ≡ n.phone_hash_map)

send_msg-SameAccounts :
    (fd : ℕ) (bytes : Bytes) (n : NetInfo) → SameAccounts n (send_msg fd bytes n)
unfolding send_msg
send_msg-SameAccounts fd bytes n = (ground arith, ground arith)

notify-SameAccounts :
    (g : GroupInfo) (bytes : Bytes) (n : NetInfo) (node : ℕ) (s s' : NetInfo) (more : Bool)
    → SameAccounts n s
    → notify g bytes node s ≡ some (s', more)
    → SameAccounts n s'
unfolding notify send_msg
notify-SameAccounts g bytes n node s s' more e h = (ground arith, ground arith)

notify_members-SameAccounts :
    (g : GroupInfo) (n n' : NetInfo) → notify_members g n ≡ some n' → SameAccounts n n'
unfolding notify_members
notify_members-SameAccounts g n n' h = grind (
  arith,
  λ (bytes : Bytes).
      walk-keeps (SameAccounts n) (notify g bytes) (notify-SameAccounts g bytes n) g n n'
        (refl, refl),
)

-- The password that a packet sets is the hash of its own text.
from_data-passwd :
    (hash : Bytes → ℕ) (beyond : Bytes) (now global : ℕ) (src : Bytes) (len : ℕ) (u : UserInfo)
    → let (v, index) = User.from_data hash beyond now global src len u in
      index ≢ 0 → v.passwd ≡ hash v.sha256
unfolding User.from_data user_read
from_data-passwd hash beyond now global src len u ne = ground arith

drop_user-phone_hash_map :
    (guid : ℕ) (n n' : NetInfo) → drop_user guid n ≡ some n' → n'.phone_hash_map ≡ n.phone_hash_map
unfolding drop_user
drop_user-phone_hash_map guid n n' h = ground arith

drop_user_others :
    (guid k : ℕ) (n n' : NetInfo)
    → drop_user guid n ≡ some n'
    → k ≢ guid
    → find k n'.users_map ≡ find k n.users_map
unfolding drop_user
drop_user_others guid k n n' h ne = ground (arith, find-erase k guid n.users_map)

-- The user is in, under the user's own guid and phone.
open_acount_lem :
    (host : Host) (user : UserInfo) (fd : ℕ) (n n' : NetInfo)
    → open_acount host user fd n ≡ some n'
    → (n'.users_map ≡ insert user.user_guid (registered host.now user) n.users_map)
      × (n'.phone_hash_map ≡ insert (host.hash user.phone) user.user_guid n.phone_hash_map)
unfolding open_acount send_add_ack send_msg enter_user
open_acount_lem host user fd n n' h =
    let n1 : NetInfo = enter_user host user n in
    elim (Option-cases (find 1 n1.groups_map)) [
      | inl e ↦ absurd (ground arith)
      | inr (g, e) ↦
          let g' : GroupInfo = join_public user (length n1.users_map) g in
          elim (Option-cases (notify_members g' (put_group 1 g' n1))) [
            | inl e' ↦ absurd (ground arith)
            | inr (n2, e') ↦
                let q = notify_members-SameAccounts g' (put_group 1 g' n1) n2 e' in
                (ground (arith, q), ground (arith, q))
          ]
    ]

login_after :
    (hash : Bytes → ℕ) (n : NetInfo) (user : UserInfo)
    → find (hash user.phone) n.phone_hash_map ≡ some user.user_guid
    → (now : ℕ) → find user.user_guid n.users_map ≡ some (registered now user)
    → user.passwd ≡ hash user.sha256
    → on_login hash user.phone user.sha256 n ≡ error_ok
unfolding on_login on_set_online_status
login_after hash n user p now u w = ground arith

-- After a registration that can be read, for a phone that is not in use, with a defined result,
-- the new user is stored under its own guid with the time of registration and online, on_login
-- accepts the phone and password of the packet, and no other phone and no other user changes.
pub register_then_login :
    (host : Host) (src : Bytes) (len fd : ℕ) (n n' : NetInfo) (index : ℕ)
    → on_acount_add host src len fd n ≡ some (n', index)
    → index ≢ 0
    → on_phone_unique host.hash (parsed_user host src len n).0.phone n ≡ error_ok
    → let user = (parsed_user host src len n).0 in
      (find user.user_guid n'.users_map ≡ some (registered host.now user))
      × (on_login host.hash user.phone user.sha256 n' ≡ error_ok)
      × ((phone : ℕ)
          → phone ≢ host.hash user.phone
          → find phone n'.phone_hash_map ≡ find phone n.phone_hash_map)
      × ((guid : ℕ) → guid ≢ user.user_guid → find guid n'.users_map ≡ find guid n.users_map)
unfolding on_acount_add
register_then_login host src len fd n n' index h ne unique =
    let (user, i) = parsed_user host src len n in
    let made =
      from_data-passwd host.hash host.beyond host.now n.global_user_guid src len empty_user in
    elim (Option-cases (drop_user user.user_guid n)) [
      | inl e ↦ absurd (ground arith)
      | inr (n1, e) ↦ elim (Option-cases (open_acount host user fd n1)) [
        | inl e' ↦ absurd (ground arith)
        | inr (n2, e') ↦
            let same : (n2 ≡ n') × (i ≡ index) = (ground arith, ground arith) in
            let q = open_acount_lem host user fd n1 n2 e' in
            let u : find user.user_guid n'.users_map ≡ some (registered host.now user) = ground (
              arith,
              same,
              q,
              find-insert user.user_guid user.user_guid (registered host.now user) n1.users_map,
            ) in
            let p : find (host.hash user.phone) n'.phone_hash_map ≡ some user.user_guid = ground (
              arith,
              same,
              q,
              find-insert (host.hash user.phone) (host.hash user.phone) user.user_guid
                  n1.phone_hash_map,
            ) in
            (
              u,
              login_after host.hash n' user p host.now u (made (ground (arith, same))),
              λ phone d. ground (
                arith,
                same,
                q,
                drop_user-phone_hash_map user.user_guid n n1 e,
                find-insert phone (host.hash user.phone) user.user_guid n1.phone_hash_map,
              ),
              λ guid d. ground (
                arith,
                same,
                q,
                drop_user_others user.user_guid guid n n1 e d,
                find-insert guid user.user_guid (registered host.now user) n1.users_map,
              ),
            )
      ]
    ]

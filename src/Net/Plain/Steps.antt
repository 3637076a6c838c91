-- ===== src/Net/Plain/Steps.antt =====
-- The steps of the handlers of accounts keep every user plain.
use aim_to_v.Base.{ℕ, ◌≡◌, refl, Bool, some, [], ◌∷◌, Option-cases, inl, inr, arith, length}
use aim_to_v.Base.Map.{Map, find, erase, update}
use aim_to_v.Wire.Bytes.{Bytes}
use aim_to_v.Group.{GroupInfo, get_member_by_guid}
use aim_to_v.Group.Walk.{walk-keeps}
use aim_to_v.User.{UserInfo, on_set_online_status}
use aim_to_v.User.Store.{destroy}
use aim_to_v.Net.{NetInfo, subscript, send_msg, put_user, put_group}
use aim_to_v.Net.Groups.{tell_members}
use aim_to_v.Net.Users.{IsPlain, UsersPlain, same-UsersPlain, put_user-UsersPlain, erase-UsersPlain}
use aim_to_v.Net.Accounts.{
  Host, drop_user, send_add_ack, registered, enter_user, notify, notify_members, open_acount,
  join_public, refreshed, refresh_groups, replace_user, quit_group, quit_groups, quit_friends,
  close_acount, leave_group_one, leave_public, delete_acount,
}
use aim_to_v.Net.Plain.Requests.{
  send_client_ack-UsersPlain, tell_members-UsersPlain, put_group-UsersPlain,
}

pub drop_user-UsersPlain :
    (guid : ℕ) (n n' : NetInfo) → UsersPlain n → drop_user guid n ≡ some n' → UsersPlain n'
unfolding drop_user
drop_user-UsersPlain guid n n' p h = grind (arith, erase-UsersPlain)

notify-UsersPlain :
    (g : GroupInfo) (bytes : Bytes) (node : ℕ) (n n' : NetInfo) (more : Bool)
    → UsersPlain n
    → notify g bytes node n ≡ some (n', more)
    → UsersPlain n'
unfolding notify send_msg
notify-UsersPlain g bytes node n n' more p h = same-UsersPlain n n' (ground arith) p

notify_members-UsersPlain :
    (g : GroupInfo) (n n' : NetInfo) → UsersPlain n → notify_members g n ≡ some n' → UsersPlain n'
unfolding notify_members
notify_members-UsersPlain g n n' p h = grind (
  arith,
  λ (bytes : Bytes). walk-keeps UsersPlain (notify g bytes) (notify-UsersPlain g bytes) g n n' p,
)

pub enter_user-UsersPlain :
    (host : Host) (user : UserInfo) (n : NetInfo)
    → UsersPlain n
    → user.friends ≡ []
    → user.msg_map ≡ []
    → UsersPlain (enter_user host user n)
unfolding enter_user on_set_online_status
enter_user-UsersPlain host user n p f m =
    same-UsersPlain (put_user user.user_guid (registered host.now user) n) _ refl (
      put_user-UsersPlain user.user_guid (registered host.now user) n p
        (record { friends = f; msg_map = m; user_guid = refl }))

pub open_acount-UsersPlain :
    (host : Host) (user : UserInfo) (fd : ℕ) (n n' : NetInfo)
    → UsersPlain n
    → user.friends ≡ []
    → user.msg_map ≡ []
    → open_acount host user fd n ≡ some n'
    → UsersPlain n'
unfolding open_acount send_add_ack send_msg
open_acount-UsersPlain host user fd n n' p f m h =
    let n1 : NetInfo = enter_user host user n in
    let q : UsersPlain n1 = enter_user-UsersPlain host user n p f m in
    elim (Option-cases (find 1 n1.groups_map)) [
      | inl e ↦ absurd (ground arith)
      | inr (g, e) ↦
          let g' : GroupInfo = join_public user (length n1.users_map) g in
          elim (Option-cases (notify_members g' (put_group 1 g' n1))) [
            | inl e' ↦ absurd (ground arith)
            | inr (n2, e') ↦ same-UsersPlain n2 n' (ground arith) (
                notify_members-UsersPlain g' (put_group 1 g' n1) n2 (put_group-UsersPlain 1 g' n1 q)
                  e')
          ]
    ]

pub refresh_groups-UsersPlain :
    (user : UserInfo) (groups : Map ℕ) (n n' : NetInfo)
    → UsersPlain n
    → refresh_groups user groups n ≡ some n'
    → UsersPlain n'
unfolding refresh_groups
refresh_groups-UsersPlain user [] n n' q h = ground (arith, q)
refresh_groups-UsersPlain user ((guid, active) ∷ groups) n n' q h =
    elim (Option-cases (find active n.groups_map)) [
      | inl e ↦ refresh_groups-UsersPlain user groups n n' q (ground arith)
      | inr (g, e) ↦ elim (Option-cases (get_member_by_guid user.user_guid g)) [
        | inl e' ↦ absurd (ground arith)
        | inr (node, e') ↦
            let g' : GroupInfo = record g {
              members_list = update node (refreshed user) g.members_list;
            } in
            refresh_groups-UsersPlain user groups (put_group active g' n) n'
              (put_group-UsersPlain active g' n q) (ground arith)
      ]
    ]

pub replace_user-UsersPlain :
    (host : Host) (user old : UserInfo) (n n' : NetInfo)
    → UsersPlain n
    → IsPlain user.user_guid user
    → replace_user host user old n ≡ some n'
    → UsersPlain n'
unfolding replace_user
replace_user-UsersPlain host user old n n' q r h = elim (Option-cases (destroy old)) [
  | inl e ↦ absurd (ground arith)
  | inr (t, e) ↦
      same-UsersPlain (put_user user.user_guid user n) n' (ground arith)
        (put_user-UsersPlain user.user_guid user n q r)
]

quit_groups-users_map :
    (guid : ℕ) (groups : Map ℕ) (n n' : NetInfo)
    → quit_groups guid groups n ≡ some n'
    → n'.users_map ≡ n.users_map
unfolding quit_groups
quit_groups-users_map guid [] n n' h = ground arith
quit_groups-users_map guid ((k, active) ∷ groups) n n' h =
    elim (Option-cases (find k n.groups_map)) [
      | inl e ↦ quit_groups-users_map guid groups n n' (ground arith)
      | inr (g, e) ↦ elim (Option-cases (quit_group guid g)) [
        | inl e' ↦ absurd (ground arith)
        | inr (g', e') ↦ quit_groups-users_map guid groups (put_group k g' n) n' (ground arith)
      ]
    ]

close_acount_plain :
    (host : Host) (guid : ℕ) (user : UserInfo) (n n1 : NetInfo)
    → quit_groups user.user_guid user.join_groups n ≡ some n1
    → user.friends ≡ []
    → user.msg_map ≡ []
    → close_acount host guid user n
      ≡ some (record n1 {
        phone_hash_map = erase (host.hash user.phone) n1.phone_hash_map;
        users_map = erase guid n1.users_map;
      })
unfolding close_acount quit_friends destroy
close_acount_plain host guid user n n1 e a b = ground (arith, e, a, b)

-- A plain user has no friends to leave and no logs to free.
pub close_acount-UsersPlain :
    (host : Host) (guid : ℕ) (user : UserInfo) (n n' : NetInfo)
    → UsersPlain n
    → IsPlain guid user
    → close_acount host guid user n ≡ some n'
    → UsersPlain n'
unfolding close_acount
close_acount-UsersPlain host guid user n n' p r h =
    elim (Option-cases (quit_groups user.user_guid user.join_groups n)) [
      | inl e ↦ absurd (ground arith)
      | inr (n1, e) ↦
          let q : UsersPlain n1 =
            same-UsersPlain n n1 (quit_groups-users_map user.user_guid user.join_groups n n1 e) p in
          let step = close_acount_plain host guid user n n1 e r.friends r.msg_map in
          same-UsersPlain (record n1 { users_map = erase guid n1.users_map }) n'
            (ground (arith, step)) (erase-UsersPlain guid n1 q)
    ]

pub leave_public-UsersPlain :
    (guid fd : ℕ) (n n' : NetInfo) → UsersPlain n → leave_public guid fd n ≡ some n' → UsersPlain n'
unfolding leave_public
leave_public-UsersPlain guid fd n n' p h =
    let (conns, conn) = subscript guid n.user_conn_map in
    let n0 : NetInfo = record n {
      conn_user_map = erase conn n.conn_user_map;
      user_conn_map = erase guid conns;
    } in
    elim (Option-cases (find 1 n.groups_map)) [
      | inl e ↦ absurd (ground arith)
      | inr (g, e) ↦ elim (Option-cases (leave_group_one guid g)) [
        | inl e' ↦ absurd (ground arith)
        | inr (g2, e') ↦ elim (Option-cases (tell_members g2 fd (put_group 1 g2 n0))) [
          | inl e'' ↦ absurd (ground arith)
          | inr (n1, e'') ↦
              let q : UsersPlain n1 =
                tell_members-UsersPlain g2 fd (put_group 1 g2 n0) n1
                  (put_group-UsersPlain 1 g2 n0 (same-UsersPlain n n0 refl p)) e'' in
              ground (arith, send_client_ack-UsersPlain 10002 0 fd n1 q)
        ]
      ]
    ]

pub delete_acount-UsersPlain :
    (host : Host) (guid fd : ℕ) (n n' : NetInfo)
    → UsersPlain n
    → delete_acount host guid fd n ≡ some n'
    → UsersPlain n'
unfolding delete_acount
delete_acount-UsersPlain host guid fd n n' p h = elim (Option-cases (find guid n.users_map)) [
  | inl e ↦ leave_public-UsersPlain guid fd n n' p (ground arith)
  | inr (user, e) ↦ elim (Option-cases (close_acount host guid user n)) [
    | inl e' ↦ absurd (ground arith)
    | inr (n1, e') ↦
        leave_public-UsersPlain guid fd n1 n'
          (close_acount-UsersPlain host guid user n n1 p (p.plain guid user e) e') (ground arith)
  ]
]

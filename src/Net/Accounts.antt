-- ===== src/Net/Accounts.antt =====
-- The handlers that make, replace and delete users: `on_acount_add`, `on_acount_modify` and
-- `on_acount_delete` of source/read_thread.cpp. `none` is undefined behaviour.
use aim_to_v.Base.{
  ℕ, ◌+◌, ◌-◌, ◌%◌, ◌^◌, Bool, true, false, not, ◌==◌, if◌then◌else◌, Option, none, some, [], ◌∷◌,
  length, take,
}
use aim_to_v.Base.Map.{Map, find, contains, insert, erase, update}
use aim_to_v.Wire.Bytes.{Bytes}
use aim_to_v.Wire.Codec.{codec}
use aim_to_v.Wire.Codec
use aim_to_v.Wire.Account.{acount_delete, acount_delete_init}
use aim_to_v.Wire.Member.{Member}
use aim_to_v.Wire.Ack.{client_acount_add_ack}
use aim_to_v.Wire.Package.{new_pkg, head_length, make_pkg}
use aim_to_v.Group.{
  GroupInfo, on_add_member, on_delete_member, on_delete_manager, get_member_by_guid,
}
use aim_to_v.Group.Walk.{walk, on_node}
use aim_to_v.Group.Stream
use aim_to_v.User.{UserInfo, empty_user, on_set_online_status, on_delete_friend}
use aim_to_v.User
use aim_to_v.User.Store.{destroy}
use aim_to_v.Net.{
  NetInfo, max_buf_size, error_ok, subscript, send_msg, send_client_ack, packet, put_group,
  put_user,
}
use aim_to_v.Net.Logins.{on_phone_unique}
use aim_to_v.Net.Groups.{tell_members}

-- What the host gives: `std::hash`, the memory behind a text, and the time of day.
pub record Host : Type 0 where
  pub hash : Bytes → ℕ
  pub beyond : Bytes
  pub now : ℕ

abbrev pub error_cant_delete_other : ℕ
error_cant_delete_other = 31

-- `users.erase(itor)` and `users_map.erase(itor)` where there is an entry.
unfoldable pub drop_user : ℕ → NetInfo → Option NetInfo
drop_user guid n = elim (find guid n.users_map) [
  | none ↦ some n
  | some user ↦ elim (destroy user) [
    | none ↦ none
    | some _ ↦ some (record n { users_map = erase guid n.users_map })
  ]
]

-- The object that the packet makes.
abbrev pub parsed_user : Host → Bytes → ℕ → NetInfo → UserInfo × ℕ
parsed_user host data_ptr len n =
    User.from_data host.hash host.beyond host.now n.global_user_guid data_ptr len empty_user

unfoldable pub send_add_ack : ℕ → ℕ → ℕ → NetInfo → NetInfo
send_add_ack user_guid err_no fd n =
    send_msg fd
      (make_pkg (codec client_acount_add_ack) max_buf_size (new_pkg 0 10000)
        (record { err_no = err_no; user_guid = user_guid })).2
      n

-- What is put into `users`.
abbrev pub registered : ℕ → UserInfo → UserInfo
registered now user = (on_set_online_status 0 (record user { reg_time = now })).0

unfoldable pub enter_user : Host → UserInfo → NetInfo → NetInfo
enter_user host user n = record n {
  users_map = insert user.user_guid (registered host.now user) n.users_map;
  global_user_guid = (n.global_user_guid + 1) % 2 ^ 32;
  phone_hash_map = insert (host.hash user.phone) user.user_guid n.phone_hash_map;
}

-- Each connected member gets the packet on the member's own connection; a node that is gone is
-- undefined.
unfoldable pub notify : GroupInfo → Bytes → ℕ → NetInfo → Option (NetInfo × Bool)
notify g bytes node n = elim (find node g.members_list) [
  | none ↦ none
  | some info ↦
      if not (contains info.user_guid n.users_map)
      then some (n, false)
      else elim (find info.user_guid n.user_conn_map) [
        | none ↦ some (n, true)
        | some conn ↦ some (send_msg conn bytes n, true)
      ]
]

unfoldable pub notify_members : GroupInfo → NetInfo → Option NetInfo
notify_members g n =
    let (index, body) = Stream.to_data true (max_buf_size - head_length) g in
    elim (packet 10061 index body) [ none ↦ some n | some bytes ↦ walk (notify g bytes) g n ]

-- The public group with a new user in it: the first user of all becomes its leader.
unfoldable pub join_public : UserInfo → ℕ → GroupInfo → GroupInfo
join_public user users g =
    let g' = if users == 1 then record g { learder_guid = user.user_guid } else g in
    (on_add_member 0 user.user_guid user.icon_guid (some user.name) g').0

unfoldable pub open_acount : Host → UserInfo → ℕ → NetInfo → Option NetInfo
open_acount host user fd n =
    let n' = enter_user host user n in
    elim (find 1 n'.groups_map) [
      | none ↦ none
      | some g ↦
          let g' = join_public user (length n'.users_map) g in
          elim (notify_members g' (put_group 1 g' n')) [
            | none ↦ none
            | some n'' ↦ some (send_add_ack user.user_guid error_ok fd n'')
          ]
    ]

unfoldable pub on_acount_add : Host → Bytes → ℕ → ℕ → NetInfo → Option (NetInfo × ℕ)
on_acount_add host data_ptr len fd n =
    let (user, index) = parsed_user host data_ptr len n in
    let err_no = on_phone_unique host.hash user.phone n in
    if index == 0
    then some (n, 0)
    else (if not (err_no == error_ok)
        then some (send_add_ack 0 err_no fd n, index)
        else elim (drop_user user.user_guid n) [
          | none ↦ none
          | some n1 ↦ elim (open_acount host user fd n1) [
            | none ↦ none
            | some n2 ↦ some (n2, index)
          ]
        ])

-- `member->icon_guid = ...; memcpy(member->name, ...)`
abbrev pub refreshed : UserInfo → Member → Member
refreshed user m = record m { icon_guid = user.icon_guid; name = take 32 user.name }

-- The loop over `user.get_join_groups()`: it looks for the group under the time of the entry, and
-- uses the member that is found without a test: `none` is a null pointer or a node that is gone.
unfoldable pub refresh_groups : UserInfo → Map ℕ → NetInfo → Option NetInfo
refresh_groups user [] n = some n
refresh_groups user ((guid, active) ∷ groups) n = elim (find active n.groups_map) [
  | none ↦ refresh_groups user groups n
  | some g ↦ elim (get_member_by_guid user.user_guid g) [
    | none ↦ none
    | some node ↦
        let rest = refresh_groups user groups (
          put_group active (record g { members_list = update node (refreshed user) g.members_list })
            n) in
        if contains node g.members_list then rest else none
  ]
]

-- The old user goes, with the entry of the old phone, and the new one comes.
unfoldable pub replace_user : Host → UserInfo → UserInfo → NetInfo → Option NetInfo
replace_user host user old n = elim (destroy old) [
  | none ↦ none
  | some _ ↦ some (record n {
    users_map = insert user.user_guid user n.users_map;
    phone_hash_map =
        insert (host.hash user.phone) user.user_guid (erase (host.hash old.phone) n.phone_hash_map);
  })
]

-- A guid that no user has ends in `users_map[user_guid]->get_phone()` on an iterator of nothing.
unfoldable pub on_acount_modify : Host → Bytes → ℕ → ℕ → NetInfo → Option (NetInfo × ℕ)
on_acount_modify host data_ptr len fd n =
    let (user, index) = parsed_user host data_ptr len n in
    if index == 0
    then some (n, 0)
    else (if user.user_guid == (n.global_user_guid + 1) % 2 ^ 32
        then some (n, index)
        else elim (find user.user_guid n.users_map) [
          | none ↦ none
          | some old ↦ elim (refresh_groups user user.join_groups n) [
            | none ↦ none
            | some n1 ↦ elim (replace_user host user old n1) [
              | none ↦ none
              | some n2 ↦ some (send_client_ack 10001 error_ok fd n2, index)
            ]
          ]
        ])

-- A group that a deleted user was in: a manager is made a member, anybody else is taken out.
unfoldable pub quit_group : ℕ → GroupInfo → Option GroupInfo
quit_group user_guid g = elim (on_node user_guid g (on_delete_manager g.learder_guid user_guid g)) [
  | none ↦ none
  | some (g1, true) ↦ some g1
  | some (g1, false) ↦ elim (on_node user_guid g1 (on_delete_member g.learder_guid user_guid g1)) [
    | none ↦ none
    | some (g2, _) ↦ some g2
  ]
]

unfoldable pub quit_groups : ℕ → Map ℕ → NetInfo → Option NetInfo
quit_groups user_guid [] n = some n
quit_groups user_guid ((guid, active) ∷ groups) n = elim (find guid n.groups_map) [
  | none ↦ quit_groups user_guid groups n
  | some g ↦ elim (quit_group user_guid g) [
    | none ↦ none
    | some g' ↦ quit_groups user_guid groups (put_group guid g' n)
  ]
]

-- The loop over the friends; a user who is a friend of the user itself loses the entry that the loop
-- stands at.
unfoldable pub quit_friends : ℕ → Map ℕ → NetInfo → Option NetInfo
quit_friends user_guid [] n = some n
quit_friends user_guid ((guid, active) ∷ friends) n =
    if guid == user_guid then none else elim (find guid n.users_map) [
      | none ↦ quit_friends user_guid friends n
      | some friend ↦
          quit_friends user_guid friends (put_user guid (on_delete_friend user_guid friend).0 n)
    ]

-- The block for a user who is there.
unfoldable pub close_acount : Host → ℕ → UserInfo → NetInfo → Option NetInfo
close_acount host guid user n = elim (quit_groups user.user_guid user.join_groups n) [
  | none ↦ none
  | some n1 ↦ elim (quit_friends user.user_guid user.friends n1) [
    | none ↦ none
    | some n2 ↦ elim (destroy user) [
      | none ↦ none
      | some _ ↦ some (record n2 {
        phone_hash_map = erase (host.hash user.phone) n2.phone_hash_map;
        users_map = erase guid n2.users_map;
      })
    ]
  ]
]

-- What comes after it: the connection, and the public group.
-- The public group without the user.
unfoldable pub leave_group_one : ℕ → GroupInfo → Option GroupInfo
leave_group_one guid g = elim (on_node guid g (on_delete_manager g.learder_guid guid g)) [
  | none ↦ none
  | some (g1, _) ↦ elim (on_node guid g1 (on_delete_member g1.learder_guid guid g1)) [
    | none ↦ none
    | some (g2, _) ↦ some g2
  ]
]

unfoldable pub leave_public : ℕ → ℕ → NetInfo → Option NetInfo
leave_public guid fd n =
    let (conns, conn) = subscript guid n.user_conn_map in
    let n0 : NetInfo = record n {
      conn_user_map = erase conn n.conn_user_map;
      user_conn_map = erase guid conns;
    } in
    elim (find 1 n.groups_map) [
      | none ↦ none
      | some g ↦ elim (leave_group_one guid g) [
        | none ↦ none
        | some g2 ↦ elim (tell_members g2 fd (put_group 1 g2 n0)) [
          | none ↦ none
          | some n1 ↦ some (send_client_ack 10002 error_ok fd n1)
        ]
      ]
    ]

unfoldable pub delete_acount : Host → ℕ → ℕ → NetInfo → Option NetInfo
delete_acount host guid fd n =
    let closed : Option NetInfo = elim (find guid n.users_map) [
      | none ↦ some n
      | some user ↦ close_acount host guid user n
    ] in
    elim closed [ none ↦ none | some n' ↦ leave_public guid fd n' ]

unfoldable pub on_acount_delete : Host → Bytes → ℕ → ℕ → NetInfo → Option (NetInfo × ℕ)
on_acount_delete host data_ptr len fd n =
    let (ad, index) = Codec.from_data acount_delete (some data_ptr) len acount_delete_init in
    let (conn_users, user) = subscript fd n.conn_user_map in
    let n' = record n { conn_user_map = conn_users } in
    if index == 0
    then some (n, 0)
    else (if not (ad.user_guid == user)
        then some (send_client_ack 10002 error_cant_delete_other fd n', index)
        else elim (delete_acount host ad.user_guid fd n') [
          | none ↦ none
          | some n2 ↦ some (n2, index)
        ])

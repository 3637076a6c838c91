-- ===== src/Net/Logins.antt =====
-- The handlers of source/read_thread.cpp for logins and logouts, and what they ask first.
use aim_to_v.Base.{ℕ, not, ◌==◌, if◌then◌else◌, none, some}
use aim_to_v.Base.Map.{Map, find, contains, insert, erase}
use aim_to_v.Wire.Bytes.{Bytes}
use aim_to_v.Wire.Codec.{codec}
use aim_to_v.Wire.Codec
use aim_to_v.Wire.Account.{
  acount_login, acount_login_init, acount_logout, acount_logout_init, acount_can_reg,
  acount_can_reg_init,
}
use aim_to_v.Wire.Ack.{client_acount_login_ack}
use aim_to_v.Wire.Package.{new_pkg, make_pkg}
use aim_to_v.User.{UserInfo, on_set_online_status}
use aim_to_v.Net.{
  NetInfo, error_cant_logout_other, error_ok, error_passwd, error_phone_exist, error_phone_map,
  error_user_isnot_exist, max_buf_size, send_client_ack, send_msg, subscript,
}

unfoldable pub on_login : (Bytes → ℕ) → Bytes → Bytes → NetInfo → ℕ
on_login hash acount sha256 n = elim (find (hash acount) n.phone_hash_map) [
  | none ↦ error_phone_map
  | some user_guid ↦ elim (find user_guid n.users_map) [
    | none ↦ error_user_isnot_exist
    | some user ↦ if hash sha256 == user.passwd then error_ok else error_passwd
  ]
]

unfoldable pub on_phone_unique : (Bytes → ℕ) → Bytes → NetInfo → ℕ
on_phone_unique hash acount n =
    if contains (hash acount) n.phone_hash_map then error_phone_exist else error_ok

-- What a login does with the user: the two times and the status.
abbrev pub logged_in : ℕ → UserInfo → UserInfo
logged_in now user =
    (on_set_online_status 0 (record user { last_login_time = now; last_logout_time = now })).0

-- The part of `on_acount_login` for `ERROR_OK`: the state and `user_guid`.
unfoldable pub log_in : ℕ → ℕ → NetInfo → NetInfo × ℕ
log_in now key n = elim (find key n.users_map) [
  | none ↦ (n, 0)
  | some user ↦
      (record n { users_map = insert key (logged_in now user) n.users_map }, user.user_guid)
]

-- Both maps get an entry, whatever the outcome was, and the acknowledgement is sent.
unfoldable pub bind_conn : ℕ → ℕ → ℕ → NetInfo → NetInfo
bind_conn user_guid err_no fd n =
    send_msg fd
      (make_pkg (codec client_acount_login_ack) max_buf_size (new_pkg 0 10003)
        (record { err_no = err_no; user_guid = user_guid })).2
      (record n {
        user_conn_map = insert user_guid fd n.user_conn_map;
        conn_user_map = insert fd user_guid n.conn_user_map;
      })

unfoldable pub on_acount_login : (Bytes → ℕ) → ℕ → Bytes → ℕ → ℕ → NetInfo → NetInfo × ℕ
on_acount_login hash now data_ptr len fd n =
    let (login, index) = Codec.from_data acount_login (some data_ptr) len acount_login_init in
    let err_no = on_login hash login.phone login.sha256 n in
    let key = (subscript (hash login.phone) n.phone_hash_map).1 in
    let (n', user_guid) = if err_no == error_ok then log_in now key n else (n, 0) in
    if index == 0 then (n, 0) else (bind_conn user_guid err_no fd n', index)

-- The status and the time of a user who leaves.
abbrev pub logged_out : ℕ → UserInfo → UserInfo
logged_out now user = record (on_set_online_status 1 user).0 { last_logout_time = now }

unfoldable pub log_out : ℕ → ℕ → ℕ → NetInfo → NetInfo
log_out now user_guid fd n =
    let users : Map UserInfo = elim (find user_guid n.users_map) [
      | none ↦ n.users_map
      | some user ↦ insert user_guid (logged_out now user) n.users_map
    ] in
    let (conns, conn) = subscript user_guid n.user_conn_map in
    send_client_ack 10004 error_ok fd (record n {
      users_map = users;
      conn_user_map = erase conn n.conn_user_map;
      user_conn_map = erase user_guid conns;
    })

unfoldable pub on_acount_logout : ℕ → Bytes → ℕ → ℕ → NetInfo → NetInfo × ℕ
on_acount_logout now data_ptr len fd n =
    let (logout, index) = Codec.from_data acount_logout (some data_ptr) len acount_logout_init in
    let (conn_users, user) = subscript fd n.conn_user_map in
    let n' = record n { conn_user_map = conn_users } in
    if index == 0
    then (n, 0)
    else (if not (logout.user_guid == user)
        then (send_client_ack 10004 error_cant_logout_other fd n', index)
        else (log_out now logout.user_guid fd n', index))

unfoldable pub on_acount_can_reg : (Bytes → ℕ) → Bytes → ℕ → ℕ → NetInfo → NetInfo × ℕ
on_acount_can_reg hash data_ptr len fd n =
    let (reg, index) = Codec.from_data acount_can_reg (some data_ptr) len acount_can_reg_init in
    if index == 0
    then (n, 0)
    else (send_client_ack 10005 (on_phone_unique hash reg.phone n) fd n, index)

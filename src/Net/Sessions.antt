-- ===== src/Net/Sessions.antt =====
-- Logins, logouts and who may send.
use aim_to_v.Base.{
  ℕ, ◌≡◌, ◌≢◌, ◌⊎◌, ◌↔◌, inl, inr, ◌==◌, if◌then◌else◌, none, some, [], ◌∷◌, ◌++◌, Option-cases,
  arith,
}
use aim_to_v.Base.Map.{find, insert, find-insert, find-erase}
use aim_to_v.Wire.Bytes.{Bytes}
use aim_to_v.Wire.Codec
use aim_to_v.Wire.Account.{acount_login, acount_login_init, acount_logout, acount_logout_init}
use aim_to_v.Wire.MsgInfo.{msg_info_init, msg_info_from_data}
use aim_to_v.User.{UserInfo}
use aim_to_v.Net.{NetInfo, error_ok, send_msg, send_client_ack}
use aim_to_v.Net.Logins.{
  on_login, logged_in, logged_out, log_in, bind_conn, on_acount_login, on_acount_logout, log_out,
}
use aim_to_v.Net.Queries.{on_msg_send}

-- A login is granted where the hash of the phone leads to a user with the hash of the password.
pub on_login_iff :
    (hash : Bytes → ℕ) (phone sha256 : Bytes) (n : NetInfo)
    → (on_login hash phone sha256 n ≡ error_ok)
      ↔ (guid : ℕ) × (user : UserInfo) × (find (hash phone) n.phone_hash_map ≡ some guid)
        × (find guid n.users_map ≡ some user)
        × (hash sha256 ≡ user.passwd)
unfolding on_login
on_login_iff hash phone sha256 n = (
  λ h. elim (Option-cases (find (hash phone) n.phone_hash_map)) [
    | inl e ↦ absurd (ground arith)
    | inr (guid, e) ↦ elim (Option-cases (find guid n.users_map)) [
      | inl e' ↦ absurd (ground arith)
      | inr (user, e') ↦ (guid, user, e, e', ground arith)
    ]
  ],
  λ (guid, user, e, e', p). ground arith,
)

-- A packet that is refused binds its connection to user 0 all the same.
refused :
    (hash : Bytes → ℕ) (now : ℕ) (data_ptr : Bytes) (len fd : ℕ) (n : NetInfo)
    → let (login, index) = Codec.from_data acount_login (some data_ptr) len acount_login_init in
      index ≢ 0
      → on_login hash login.phone login.sha256 n ≢ error_ok
      → on_acount_login hash now data_ptr len fd n
        ≡ (bind_conn 0 (on_login hash login.phone login.sha256 n) fd n, index)
unfolding on_acount_login
refused hash now data_ptr len fd n i e = ground arith

pub bind_conn-maps :
    (user err_no fd : ℕ) (n : NetInfo)
    → ((bind_conn user err_no fd n).conn_user_map ≡ insert fd user n.conn_user_map)
      × ((bind_conn user err_no fd n).user_conn_map ≡ insert user fd n.user_conn_map)
      × ((bind_conn user err_no fd n).users_map ≡ n.users_map)
      × ((bind_conn user err_no fd n).msg_list ≡ n.msg_list)
unfolding bind_conn send_msg
bind_conn-maps user err_no fd n = (ground arith, ground arith, ground arith, ground arith)

-- A message goes into the queue exactly where it can be read and its connection is bound to the
-- guid that the head of the packet names; else the queue stays. The bindings stay in any case.
pub on_msg_send_iff :
    (guid : ℕ) (data_ptr : Bytes) (len fd : ℕ) (n : NetInfo)
    → let (msg, index) = msg_info_from_data (some data_ptr) len msg_info_init in
      let (n', taken) = on_msg_send guid data_ptr len fd n in
      (taken ≡ index)
      × (index ≢ 0 → find fd n.conn_user_map ≡ some guid → n'.msg_list ≡ n.msg_list ++ msg ∷ [])
      × ((index ≡ 0) ⊎ (find fd n.conn_user_map ≢ some guid) → n'.msg_list ≡ n.msg_list)
      × (n'.conn_user_map ≡ n.conn_user_map)
unfolding on_msg_send send_client_ack send_msg
on_msg_send_iff guid data_ptr len fd n =
    (ground arith, λ i e. ground arith, λ h. ground arith, ground arith)

-- A login that can be read but is refused leaves the users as they are, yet it binds the connection
-- to user 0, whatever it was bound to: from then on a message on that connection is taken into the
-- queue if its packet names the sender 0, and under no other guid.
pub refused_login_binds_zero :
    (hash : Bytes → ℕ) (now : ℕ) (data_ptr : Bytes) (len fd : ℕ) (n : NetInfo) (guid : ℕ)
    (text : Bytes) (room : ℕ)
    → let (login, index) = Codec.from_data acount_login (some data_ptr) len acount_login_init in
      let n' = (on_acount_login hash now data_ptr len fd n).0 in
      let (msg, read) = msg_info_from_data (some text) room msg_info_init in
      index ≢ 0
      → on_login hash login.phone login.sha256 n ≢ error_ok
      → read ≢ 0
      → (n'.users_map ≡ n.users_map)
        × (find fd n'.conn_user_map ≡ some 0)
        × ((on_msg_send guid text room fd n').0.msg_list
            ≡ (if guid == 0 then n.msg_list ++ msg ∷ [] else n.msg_list))
refused_login_binds_zero hash now data_ptr len fd n guid text room i e r =
    let (login, index) = Codec.from_data acount_login (some data_ptr) len acount_login_init in
    let err_no : ℕ = on_login hash login.phone login.sha256 n in
    let maps = bind_conn-maps 0 err_no fd n in
    let b : NetInfo = bind_conn 0 err_no fd n in
    let here : find fd b.conn_user_map ≡ some 0 =
      rw maps.0 (ground (arith, find-insert fd fd 0 n.conn_user_map)) in
    let sends = on_msg_send_iff guid text room fd b in
    rw (refused hash now data_ptr len fd n i e) (maps.2, here, ground (arith, maps, here, sends))

pub granted :
    (hash : Bytes → ℕ) (now : ℕ) (data_ptr : Bytes) (len fd key : ℕ) (user : UserInfo) (n : NetInfo)
    → let (login, index) = Codec.from_data acount_login (some data_ptr) len acount_login_init in
      index ≢ 0
      → find (hash login.phone) n.phone_hash_map ≡ some key
      → find key n.users_map ≡ some user
      → hash login.sha256 ≡ user.passwd
      → on_acount_login hash now data_ptr len fd n ≡ (
        bind_conn user.user_guid error_ok fd
            (record n { users_map = insert key (logged_in now user) n.users_map }),
        index,
      )
unfolding on_acount_login on_login log_in
granted hash now data_ptr len fd key user n i e f p = ground arith

-- A login that can be read, whose phone leads to a user and whose password is right, sets that
-- user's two times and puts the user online, leaves the other users alone, and makes the connection
-- and the user lead to each other; all other connections keep their users. The connection can then
-- log this user out, after which the user is offline and neither leads anywhere.
pub login_then_logout :
    (hash : Bytes → ℕ) (now later : ℕ) (data_ptr data_ptr' : Bytes) (len len' fd key other : ℕ)
    (user : UserInfo) (n : NetInfo)
    → let (login, index) = Codec.from_data acount_login (some data_ptr) len acount_login_init in
      let (logout, index') =
        Codec.from_data acount_logout (some data_ptr') len' acount_logout_init in
      let n' = (on_acount_login hash now data_ptr len fd n).0 in
      let n'' = (on_acount_logout later data_ptr' len' fd n').0 in
      index ≢ 0
      → find (hash login.phone) n.phone_hash_map ≡ some key
      → find key n.users_map ≡ some user
      → hash login.sha256 ≡ user.passwd
      → user.user_guid ≡ key
      → index' ≢ 0
      → logout.user_guid ≡ key
      → (find key n'.users_map ≡ some (logged_in now user))
        × (other ≢ key → find other n'.users_map ≡ find other n.users_map)
        × (find fd n'.conn_user_map ≡ some key)
        × (find key n'.user_conn_map ≡ some fd)
        × (other ≢ fd → find other n'.conn_user_map ≡ find other n.conn_user_map)
        × (find fd n''.conn_user_map ≡ none)
        × (find key n''.user_conn_map ≡ none)
        × (find key n''.users_map ≡ some (logged_out later (logged_in now user)))
login_then_logout hash now later data_ptr data_ptr' len len' fd key other user n i e f p g i' l =
    let online : NetInfo = record n { users_map = insert key (logged_in now user) n.users_map } in
    let b : NetInfo = bind_conn user.user_guid error_ok fd online in
    let maps = bind_conn-maps user.user_guid error_ok fd online in
    let conn = find-insert fd fd user.user_guid n.conn_user_map in
    let conn_other = find-insert other fd user.user_guid n.conn_user_map in
    let back = find-insert key user.user_guid fd n.user_conn_map in
    let mine = find-insert key key (logged_in now user) n.users_map in
    let others = find-insert other key (logged_in now user) n.users_map in
    let bound : find fd b.conn_user_map ≡ some key = rw maps.0 (ground (arith, conn)) in
    let bound_back : find key b.user_conn_map ≡ some fd = rw maps.1 (ground (arith, back)) in
    let mine_after : find key b.users_map ≡ some (logged_in now user) =
      rw maps.2 (ground (arith, mine)) in
    rw (granted hash now data_ptr len fd key user n i e f p) (
      mine_after,
      λ ne. rw maps.2 (ground (arith, others)),
      bound,
      bound_back,
      λ ne. rw maps.0 (ground (arith, conn_other)),
      unfold on_acount_logout log_out send_client_ack send_msg in
          ground (arith, bound, bound_back, find-erase fd fd b.conn_user_map),
      unfold on_acount_logout log_out send_client_ack send_msg in
          ground (arith, bound, bound_back, find-erase key key b.user_conn_map),
      unfold on_acount_logout log_out send_client_ack send_msg in
          ground (
            arith,
            bound,
            bound_back,
            mine_after,
            find-insert key key (logged_out later (logged_in now user)) b.users_map,
          ),
    )

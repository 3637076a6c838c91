-- ===== src/User/Log.antt =====
-- The message logs of a user: their bounds, and which messages they take.
use aim_to_v.Base.{
  ℕ, ◌+◌, ◌-◌, ◌≤◌, ◌≡◌, ◌≢◌, refl, Bool, true, false, not, ◌==◌, ltb, if◌then◌else◌, Option, none,
  some, List, [], ◌∷◌, ◌++◌, length, length-append, drop, arith, Option-cases, inl, inr, Bool-cases,
  sym,
}
use aim_to_v.Base.Map.{find, contains, insert, find-insert}
use aim_to_v.Wire.MsgInfo.{MsgInfo, msg_type_user}
use aim_to_v.Wire.Bytes.{Bytes}
use aim_to_v.User
use aim_to_v.User.Store
use aim_to_v.User.Store.{set_text, set_custom_str, set_custom_num}
use aim_to_v.User.{
  UserInfo, user_read, user_msgs_max_len, number_msg, push_msg, on_add_msg, clear_msg,
  on_join_group, on_leave_group, on_update_group_active, on_add_friend, on_delete_friend,
  on_update_friend_active, on_set_online_status, on_create_group, on_delete_group,
}

-- Every log has a counter, which is its length, and is within its limit.
pub record IsLogged (u : UserInfo) : Type 0 where
  pub log :
      (k : ℕ) (ms : List MsgInfo)
      → find k u.msg_map ≡ some ms
      → (find k u.msg_map_limit ≡ some (length ms)) × (length ms ≤ user_msgs_max_len)

length-drop_one {ℓ} : {A : Type ℓ} (xs : List A) → length (drop 1 xs) ≡ length xs - 1
length-drop_one [] = omega arith
length-drop_one (x ∷ xs) = omega arith

-- One log and its counter replaced.
insert-IsLogged :
    (sender : ℕ) (ms : List MsgInfo) (n : ℕ) (u : UserInfo)
    → IsLogged u
    → n ≡ length ms
    → n ≤ user_msgs_max_len
    → IsLogged (record u {
      msg_map = insert sender ms u.msg_map;
      msg_map_limit = insert sender n u.msg_map_limit;
    })
insert-IsLogged sender ms n u l e b = record {
  log = λ k ms' h. ground (
    arith,
    find-insert k sender ms u.msg_map,
    find-insert k sender n u.msg_map_limit,
    l.log k ms',
  );
}

push_msg_new :
    (msg : MsgInfo) (u : UserInfo)
    → find msg.send_guid u.msg_map ≡ none
    → push_msg msg u ≡ record u {
      msg_map = insert msg.send_guid (msg ∷ []) u.msg_map;
      msg_map_limit = insert msg.send_guid 1 u.msg_map_limit;
    }
unfolding push_msg
push_msg_new msg u e = ground arith

push_msg_old :
    (msg : MsgInfo) (ms : List MsgInfo) (u : UserInfo)
    → IsLogged u
    → find msg.send_guid u.msg_map ≡ some ms
    → push_msg msg u ≡ (
        if ltb (length ms) user_msgs_max_len
        then record u {
          msg_map = insert msg.send_guid (ms ++ msg ∷ []) u.msg_map;
          msg_map_limit = insert msg.send_guid (length ms + 1) u.msg_map_limit;
        }
        else record u {
          msg_map = insert msg.send_guid (drop 1 (ms ++ msg ∷ [])) u.msg_map;
          msg_map_limit = insert msg.send_guid (length ms) u.msg_map_limit;
        })
unfolding push_msg
push_msg_old msg ms u l e = let known = l.log msg.send_guid ms e in ground (arith, known)

push_msg-IsLogged : (msg : MsgInfo) (u : UserInfo) → IsLogged u → IsLogged (push_msg msg u)
push_msg-IsLogged msg u l = elim (Option-cases (find msg.send_guid u.msg_map)) [
  | inl e ↦
      rw (push_msg_new msg u e) (insert-IsLogged msg.send_guid (msg ∷ []) 1 u l refl (omega arith))
  | inr (ms, e) ↦
      let known = l.log msg.send_guid ms e in
      let n = length-append ms (msg ∷ []) in
      let d = length-drop_one (ms ++ msg ∷ []) in
      rw (push_msg_old msg ms u l e) (elim (Bool-cases (ltb (length ms) user_msgs_max_len)) [
        | inl t ↦ rw t (
            insert-IsLogged msg.send_guid (ms ++ msg ∷ []) (length ms + 1) u l (omega (arith, n))
              (ground arith))
        | inr t ↦ rw t (
            insert-IsLogged msg.send_guid (drop 1 (ms ++ msg ∷ [])) (length ms) u l
              (omega (arith, n, d)) (omega (arith, known.1)))
      ])
]

-- The calls that change a user, as data. The times are those at which they are made. `load` is
-- `from_data`, and the calls that begin with `put_` are the setters.
pub data Call : Type 0 where
  add_msg : MsgInfo → Call
  clear : ℕ → Call
  join_group : ℕ → ℕ → Call
  leave_group : ℕ → Call
  update_group_active : ℕ → ℕ → Call
  add_friend : ℕ → ℕ → Call
  delete_friend : ℕ → Call
  update_friend_active : ℕ → ℕ → Call
  set_online_status : ℕ → Call
  create_group : Call
  delete_group : Call
  delete_msg : ℕ → ℕ → Call
  load : (Bytes → ℕ) → Bytes → ℕ → ℕ → Bytes → ℕ → Call
  put_user_guid : ℕ → Call
  put_icon_guid : ℕ → Call
  put_reg_time : ℕ → Call
  put_last_login_time : ℕ → Call
  put_last_logout_time : ℕ → Call
  put_sex : ℕ → Call
  put_age : ℕ → Call
  put_name : Bytes → Call
  put_phone : Bytes → Call
  put_qq : Bytes → Call
  put_wechat : Bytes → Call
  put_eamil : Bytes → Call
  put_city : Bytes → Call
  put_sha256 : Bytes → Call
  put_custom_str : Bytes → Bytes → Call
  put_custom_num : Bytes → ℕ → Call

-- The user after a call and the call's result; `none` is undefined behaviour.
unfoldable pub apply : Call → UserInfo → Option (UserInfo × Bool)
apply (add_msg msg) u = elim (on_add_msg msg u) [
  | none ↦ none
  | some (u', _, taken) ↦ some (u', taken)
]
apply (clear recv_guid) u = some (clear_msg recv_guid u)
apply (join_group now guid) u = some (on_join_group now guid u)
apply (leave_group guid) u = some (on_leave_group guid u)
apply (update_group_active now guid) u = some (on_update_group_active now guid u)
apply (add_friend now guid) u = some (on_add_friend now guid u)
apply (delete_friend guid) u = some (on_delete_friend guid u)
apply (update_friend_active now guid) u = some (on_update_friend_active now guid u)
apply (set_online_status status) u = some (on_set_online_status status u)
apply create_group u = some (on_create_group u)
apply delete_group u = some (on_delete_group u)
apply (delete_msg recv_guid msg_num) u = Store.on_delete_msg recv_guid msg_num u
apply (load hash beyond now global src len) u =
    let (u', index) = User.from_data hash beyond now global src len u in some (u', not (index == 0))
apply (put_user_guid n) u = some (Store.set_user_guid n u, true)
apply (put_icon_guid n) u = some (Store.set_icon_guid n u, true)
apply (put_reg_time n) u = some (Store.set_reg_time n u, true)
apply (put_last_login_time n) u = some (Store.set_last_login_time n u, true)
apply (put_last_logout_time n) u = some (Store.set_last_logout_time n u, true)
apply (put_sex n) u = some (Store.set_sex n u, true)
apply (put_age n) u = some (Store.set_age n u, true)
apply (put_name s) u = some (Store.set_name s u, true)
apply (put_phone s) u = some (Store.set_phone s u, true)
apply (put_qq s) u = some (Store.set_qq s u, true)
apply (put_wechat s) u = some (Store.set_wechat s u, true)
apply (put_eamil s) u = some (Store.set_eamil s u, true)
apply (put_city s) u = some (Store.set_city s u, true)
apply (put_sha256 s) u = some (Store.set_sha256 s u, true)
apply (put_custom_str key str) u = some (set_custom_str key str u)
apply (put_custom_num key num) u = some (set_custom_num key num u)

on_add_msg-IsLogged :
    (msg msg' : MsgInfo) (u u' : UserInfo) (taken : Bool)
    → IsLogged u
    → on_add_msg msg u ≡ some (u', msg', taken)
    → IsLogged u'
unfolding on_add_msg
on_add_msg-IsLogged msg msg' u u' taken l h =
    elim (Option-cases (number_msg msg (find msg.send_guid u.msg_map))) [
      | inl e ↦ grind arith
      | inr (m, e) ↦ grind (arith, push_msg-IsLogged m u l)
    ]

clear_msg-IsLogged : (guid : ℕ) (u : UserInfo) → IsLogged u → IsLogged (clear_msg guid u).0
unfolding clear_msg
clear_msg-IsLogged guid u l = elim (Bool-cases (contains guid u.msg_map)) [
  | inl e ↦ rw e (insert-IsLogged guid [] 0 u l refl (omega arith))
  | inr e ↦ rw e l
]

same-IsLogged :
    (u u' : UserInfo)
    → u'.msg_map ≡ u.msg_map
    → u'.msg_map_limit ≡ u.msg_map_limit
    → IsLogged u
    → IsLogged u'
same-IsLogged u u' e f l = record { log = λ k ms h. rw f (l.log k ms (rw (sym e) h)) }

-- Every call on a user that has a defined result, from_data, on_delete_msg and the setters among
-- them, keeps each message log's counter equal to its length and each log within 50 messages.
pub apply-IsLogged :
    (c : Call) (u u' : UserInfo) (taken : Bool)
    → IsLogged u
    → apply c u ≡ some (u', taken)
    → IsLogged u'
unfolding apply on_join_group on_leave_group on_update_group_active on_add_friend on_delete_friend
    on_update_friend_active on_set_online_status on_create_group on_delete_group Store.on_delete_msg
    User.from_data user_read set_custom_str set_custom_num
apply-IsLogged (add_msg msg) u u' taken l h = elim (Option-cases (on_add_msg msg u)) [
  | inl e ↦ absurd (ground arith)
  | inr ((u1, m, b), e) ↦ grind (arith, on_add_msg-IsLogged msg m u u1 b l e)
]
apply-IsLogged (clear guid) u u' taken l h = grind (arith, clear_msg-IsLogged guid u l)
apply-IsLogged _ u u' taken l h = same-IsLogged u u' (ground arith) (ground arith) l

-- A message from one user to another is never logged.
pub on_add_msg_to_another :
    (msg : MsgInfo) (u : UserInfo)
    → msg.send_guid ≢ msg.recv_guid
    → on_add_msg msg u ≡ some (u, msg, false)
unfolding on_add_msg
on_add_msg_to_another msg u h = ground arith

-- After a log has been cleared, a message for it without a number has no defined result, while one
-- with a number is logged alone.
pub on_add_msg_after_clear :
    (msg : MsgInfo) (u : UserInfo)
    → msg.msg_type ≡ msg_type_user
    → msg.send_guid ≡ u.user_guid
    → msg.recv_guid ≡ u.user_guid
    → contains u.user_guid u.msg_map ≡ true
    → let (u', cleared) = clear_msg u.user_guid u in
      (cleared ≡ true)
      × (msg.msg_num ≡ 0 → on_add_msg msg u' ≡ none)
      × (msg.msg_num ≢ 0
          → on_add_msg msg u'
            ≡ some (
              record u {
                msg_map = insert u.user_guid (msg ∷ []) (insert u.user_guid [] u.msg_map);
                msg_map_limit = insert u.user_guid 1 (insert u.user_guid 0 u.msg_map_limit);
              },
              msg,
              true,
            ))
unfolding on_add_msg clear_msg number_msg push_msg
on_add_msg_after_clear msg u t s r h =
    let e = find-insert u.user_guid u.user_guid [] u.msg_map in
    let f = find-insert u.user_guid u.user_guid 0 u.msg_map_limit in
    (ground arith, λ z. ground (arith, e), λ z. ground (arith, e, f))

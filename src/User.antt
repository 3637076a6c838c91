-- ===== src/User.antt =====
-- `class UserInfo`: include/user_info.h and source/user_info.cpp. A method returns the new object
-- and its result; the time of day is an argument. The two maps of logs hold lists and counters by
-- the guid of the sender.
pub mod Log
pub mod Ties
pub mod Restore
pub mod Store
mod Tests
use aim_to_v.Base.{
  ℕ, ◌+◌, ◌-◌, ◌%◌, ◌^◌, Bool, true, false, not, ◌||◌, ltb, ◌==◌, if◌then◌else◌, Option, none, some,
  List, [], ◌∷◌, ◌++◌, length, take, drop, get_last?, replicate,
}
use aim_to_v.Base.Map.{Map, find, contains, insert, erase}
use aim_to_v.Wire.Bytes.{Bytes, Reader, ◌>>=◌, pure, at, get_num, get_bytes, le_bytes, written}
use aim_to_v.Wire.MsgInfo.{MsgInfo, msg_type_user}
use aim_to_v.Wire.Ack.{BriefUserInfo}
use aim_to_v.Custom.{CustomData, empty_custom}
use aim_to_v.Custom

pub record UserInfo : Type 0 where
  pub user_guid : ℕ
  pub icon_guid : ℕ
  pub reg_time : ℕ
  pub last_login_time : ℕ
  pub last_logout_time : ℕ
  pub age : ℕ
  pub sex : ℕ
  pub online_status : ℕ
  pub owner_groups : ℕ
  pub name : Bytes
  pub phone : Bytes
  pub qq : Bytes
  pub wechat : Bytes
  pub eamil : Bytes
  pub city : Bytes
  pub sha256 : Bytes
  pub passwd : ℕ
  pub custom_length : ℕ
  pub custom : CustomData
  pub join_groups : Map ℕ
  pub friends : Map ℕ
  pub msg_map : Map (List MsgInfo)
  pub msg_map_limit : Map ℕ

-- The default member initialisers.
unfoldable pub empty_user : UserInfo
empty_user = record {
  user_guid = 0;
  icon_guid = 0;
  reg_time = 0;
  last_login_time = 0;
  last_logout_time = 0;
  age = 0;
  sex = 0;
  online_status = 0;
  owner_groups = 0;
  name = replicate 32 0;
  phone = replicate 16 0;
  qq = replicate 16 0;
  wechat = replicate 32 0;
  eamil = replicate 32 0;
  city = replicate 32 0;
  sha256 = replicate 64 0;
  passwd = 0;
  custom_length = 0;
  custom = empty_custom;
  join_groups = [];
  friends = [];
  msg_map = [];
  msg_map_limit = [];
}

abbrev pub user_msgs_max_len : ℕ
user_msgs_max_len = 50

abbrev pub own_group_max : ℕ
own_group_max = 50

-- The sizes of all members but the custom data.
abbrev pub fixed_length : ℕ
fixed_length = 4 + 4 + 4 + 4 + 4 + 1 + 1 + 1 + 1 + 32 + 16 + 16 + 32 + 32 + 32 + 64 + 8 + 4

unfoldable pub user_length : UserInfo → ℕ
user_length u = (fixed_length + u.custom.data_len) % 2 ^ 32

-- `if (0 == field) field = value`
abbrev pub or_default : ℕ → ℕ → ℕ
or_default value field = if field == 0 then value else field

-- `from_data` up to `custom_length`. `hash` is `std::hash<std::string>`, `now` the time of day; the
-- password field of the message is skipped.
unfoldable pub user_read : (Bytes → ℕ) → ℕ → ℕ → UserInfo → Reader UserInfo
user_read hash now global_guid u = do
  user_guid ← get_num 4
  icon_guid ← get_num 4
  reg_time ← get_num 4
  last_login_time ← get_num 4
  last_logout_time ← get_num 4
  age ← get_num 1
  sex ← get_num 1
  online_status ← get_num 1
  owner_groups ← get_num 1
  name ← get_bytes 32
  phone ← get_bytes 16
  qq ← get_bytes 16
  wechat ← get_bytes 32
  eamil ← get_bytes 32
  city ← get_bytes 32
  sha256 ← get_bytes 64
  skipped ← get_bytes 8
  custom_length ← get_num 4
  pure (record u {
    user_guid = or_default ((global_guid + 1) % 2 ^ 32) user_guid;
    icon_guid = icon_guid;
    reg_time = or_default now reg_time;
    last_login_time = or_default now last_login_time;
    last_logout_time = or_default now last_logout_time;
    age = age;
    sex = sex;
    online_status = online_status;
    owner_groups = owner_groups;
    name = name;
    phone = phone;
    qq = qq;
    wechat = wechat;
    eamil = eamil;
    city = city;
    sha256 = sha256;
    passwd = hash sha256;
    custom_length = custom_length;
  })

-- `beyond` is the memory behind a text, as in `custom_get_num`.
unfoldable pub from_data : (Bytes → ℕ) → Bytes → ℕ → ℕ → Bytes → ℕ → UserInfo → UserInfo × ℕ
from_data hash beyond now global_guid src data_len u =
    if ltb data_len (user_length u)
    then (u, 0)
    else (let (u', c) = user_read hash now global_guid u (at 0 src) in
        if ltb data_len ((u'.custom_length + c.index) % 2 ^ 32)
        then (u', 0)
        else (let (custom, parsed) =
              Custom.from_data beyond (some c.rest) u'.custom_length u'.custom in
            let u'' = record u' { custom = custom } in
            if not parsed then (u'', 0) else (u'', (c.index + u'.custom_length) % 2 ^ 32)))

-- Zeros stand where the password's hash would.
abbrev pub user_fields : UserInfo → List Bytes
user_fields u =
    le_bytes 4 u.user_guid
    ∷ le_bytes 4 u.icon_guid
    ∷ le_bytes 4 u.reg_time
    ∷ le_bytes 4 u.last_login_time
    ∷ le_bytes 4 u.last_logout_time
    ∷ le_bytes 1 u.age
    ∷ le_bytes 1 u.sex
    ∷ le_bytes 1 u.online_status
    ∷ le_bytes 1 u.owner_groups
    ∷ u.name
    ∷ u.phone
    ∷ u.qq
    ∷ u.wechat
    ∷ u.eamil
    ∷ u.city
    ∷ u.sha256
    ∷ le_bytes 8 0
    ∷ le_bytes 4 u.custom_length
    ∷ []

-- The index that is returned, and what was written.
unfoldable pub to_data : Bool → ℕ → UserInfo → ℕ × Bytes
to_data dst len u =
    if not dst || ltb len (user_length u)
    then (0, [])
    else (let (index, bytes) = Custom.to_data true (len - fixed_length) u.custom in
        (fixed_length + index, written (user_fields u) bytes))

-- `none` is undefined behaviour: `(*rbegin())->msg_num` of a log that is empty.
unfoldable pub number_msg : MsgInfo → Option (List MsgInfo) → Option MsgInfo
number_msg msg none = some (if msg.msg_num == 0 then record msg { msg_num = 1 } else msg)
number_msg msg (some msgs) =
    if msg.msg_num == 0
    then elim (get_last? msgs) [
      | none ↦ none
      | some last ↦ some (record msg { msg_num = (last.msg_num + 1) % 2 ^ 16 })
    ]
    else some msg

-- `push_back` under the sender's guid, the counter up by one, and beyond the limit `pop_front` and
-- the counter down again. A sender without a log starts with none and a counter of 0.
unfoldable pub push_msg : MsgInfo → UserInfo → UserInfo
push_msg msg u =
    let sender = msg.send_guid in
    let old : List MsgInfo × ℕ = elim (find sender u.msg_map) [
      | none ↦ ([], 0)
      | some msgs ↦ (msgs, elim (find sender u.msg_map_limit) [ none ↦ 0 | some n ↦ n ])
    ] in
    let msgs = old.0 ++ msg ∷ [] in
    let limit = (old.1 + 1) % 2 ^ 32 in
    if ltb user_msgs_max_len limit
    then record u {
      msg_map = insert sender (drop 1 msgs) u.msg_map;
      msg_map_limit = insert sender ((limit + 2 ^ 32 - 1) % 2 ^ 32) u.msg_map_limit;
    }
    else record u {
      msg_map = insert sender msgs u.msg_map;
      msg_map_limit = insert sender limit u.msg_map_limit;
    }

unfoldable pub on_add_msg : MsgInfo → UserInfo → Option (UserInfo × MsgInfo × Bool)
on_add_msg msg u =
    if not (msg.msg_type == msg_type_user)
    then some (u, msg, false)
    else (if not (u.user_guid == msg.recv_guid) || not (u.user_guid == msg.send_guid)
        then some (u, msg, false)
        else elim (number_msg msg (find msg.send_guid u.msg_map)) [
          | none ↦ none
          | some msg' ↦ some (push_msg msg' u, msg', true)
        ])

unfoldable pub clear_msg : ℕ → UserInfo → UserInfo × Bool
clear_msg recv_guid u =
    if contains recv_guid u.msg_map
    then (
      record u {
        msg_map = insert recv_guid [] u.msg_map;
        msg_map_limit = insert recv_guid 0 u.msg_map_limit;
      },
      true,
    )
    else (u, false)

unfoldable pub on_join_group : ℕ → ℕ → UserInfo → UserInfo × Bool
on_join_group now guid u =
    if contains guid u.join_groups
    then (u, false)
    else (record u { join_groups = insert guid now u.join_groups }, true)

unfoldable pub on_leave_group : ℕ → UserInfo → UserInfo × Bool
on_leave_group guid u =
    if contains guid u.join_groups
    then (record u { join_groups = erase guid u.join_groups }, true)
    else (u, false)

unfoldable pub on_update_group_active : ℕ → ℕ → UserInfo → UserInfo × Bool
on_update_group_active now guid u =
    if contains guid u.join_groups
    then (record u { join_groups = insert guid now u.join_groups }, true)
    else (u, false)

unfoldable pub on_add_friend : ℕ → ℕ → UserInfo → UserInfo × Bool
on_add_friend now guid u =
    if contains guid u.friends
    then (u, false)
    else (record u { friends = insert guid now u.friends }, true)

unfoldable pub on_delete_friend : ℕ → UserInfo → UserInfo × Bool
on_delete_friend guid u =
    if contains guid u.friends
    then (record u { friends = erase guid u.friends }, true)
    else (u, false)

unfoldable pub on_update_friend_active : ℕ → ℕ → UserInfo → UserInfo × Bool
on_update_friend_active now guid u =
    if contains guid u.friends
    then (record u { friends = insert guid now u.friends }, true)
    else (u, false)

unfoldable pub on_set_online_status : ℕ → UserInfo → UserInfo × Bool
on_set_online_status status u = (record u { online_status = status }, true)

unfoldable pub on_create_group : UserInfo → UserInfo × Bool
on_create_group u =
    if ltb own_group_max u.owner_groups
    then (u, false)
    else (record u { owner_groups = (u.owner_groups + 1) % 2 ^ 8 }, true)

unfoldable pub on_delete_group : UserInfo → UserInfo × Bool
on_delete_group u =
    if u.owner_groups == 0
    then (u, false)
    else (record u { owner_groups = (u.owner_groups + 2 ^ 8 - 1) % 2 ^ 8 }, true)

unfoldable pub can_create_group : UserInfo → Bool
can_create_group u = ltb u.owner_groups own_group_max

-- `get_name()` is the whole array, so the copy into `info.name` is of its first 32 bytes.
unfoldable pub make_brief_data : UserInfo → BriefUserInfo
make_brief_data u = record {
  user_guid = u.user_guid;
  icon_guid = u.icon_guid;
  name = take 32 u.name;
  online_status = u.online_status;
}

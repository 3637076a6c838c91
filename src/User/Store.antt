-- ===== src/User/Store.antt =====
-- `~UserInfo`, `on_delete_msg`, `traverse_list` and the setters of include/user_info.h and
-- source/user_info.cpp.
use aim_to_v.Base.{
  ℕ, Bool, true, false, ltb, if◌then◌else◌, Option, none, some, [], ◌∷◌, ◌++◌, length, take, drop,
}
use aim_to_v.Base.Map.{find}
use aim_to_v.Wire.Bytes.{Bytes}
use aim_to_v.Wire.MsgInfo.{MsgInfo}
use aim_to_v.Group.{erase_last, traverse_msgs}
use aim_to_v.Custom
use aim_to_v.User.{UserInfo}

-- The destructor. Its loop never advances, so with a log there it deletes the first one and then
-- uses it again: `none`, undefined behaviour.
unfoldable pub destroy : UserInfo → Option (Unit {0})
destroy u = elim u.msg_map [ [] ↦ some tt | log ∷ logs ↦ none ]

-- The scan from the back. Where it finds the message it takes it out and then reads the sender from
-- the node that is gone: `none`.
unfoldable pub on_delete_msg : ℕ → ℕ → UserInfo → Option (UserInfo × Bool)
on_delete_msg recv_guid msg_num u = elim (find recv_guid u.msg_map) [
  | none ↦ some (u, false)
  | some msgs ↦ elim (erase_last msg_num msgs) [ none ↦ some (u, true) | some rest ↦ none ]
]

-- The loop is that of `GroupInfo::traverse_msgs`.
unfoldable pub traverse_list :
    {S : Type 0} → ℕ → Option (MsgInfo → S → S × Bool) → UserInfo → S → S × Bool
traverse_list guid func u s = elim (find guid u.msg_map) [
  | none ↦ (s, false)
  | some msgs ↦ (traverse_msgs func msgs s, true)
]

-- The setters of numbers.
abbrev pub set_user_guid : ℕ → UserInfo → UserInfo
set_user_guid n u = record u { user_guid = n }

abbrev pub set_icon_guid : ℕ → UserInfo → UserInfo
set_icon_guid n u = record u { icon_guid = n }

abbrev pub set_reg_time : ℕ → UserInfo → UserInfo
set_reg_time n u = record u { reg_time = n }

abbrev pub set_last_login_time : ℕ → UserInfo → UserInfo
set_last_login_time n u = record u { last_login_time = n }

abbrev pub set_last_logout_time : ℕ → UserInfo → UserInfo
set_last_logout_time n u = record u { last_logout_time = n }

abbrev pub set_sex : ℕ → UserInfo → UserInfo
set_sex n u = record u { sex = n }

abbrev pub set_age : ℕ → UserInfo → UserInfo
set_age n u = record u { age = n }

-- `memcpy(field, s.c_str(), min(sizeof(field), s.size()))` for a field of `w` bytes.
unfoldable pub set_text : ℕ → Bytes → Bytes → Bytes
set_text w s field = let k = if ltb w (length s) then w else length s in take k s ++ drop k field

abbrev pub set_name : Bytes → UserInfo → UserInfo
set_name s u = record u { name = set_text 32 s u.name }

abbrev pub set_phone : Bytes → UserInfo → UserInfo
set_phone s u = record u { phone = set_text 16 s u.phone }

abbrev pub set_qq : Bytes → UserInfo → UserInfo
set_qq s u = record u { qq = set_text 16 s u.qq }

abbrev pub set_wechat : Bytes → UserInfo → UserInfo
set_wechat s u = record u { wechat = set_text 32 s u.wechat }

abbrev pub set_eamil : Bytes → UserInfo → UserInfo
set_eamil s u = record u { eamil = set_text 32 s u.eamil }

abbrev pub set_city : Bytes → UserInfo → UserInfo
set_city s u = record u { city = set_text 32 s u.city }

abbrev pub set_sha256 : Bytes → UserInfo → UserInfo
set_sha256 s u = record u { sha256 = set_text 64 s u.sha256 }

-- The two overloads of `set_custom`: `custom_length` stays as it was.
unfoldable pub set_custom_str : Bytes → Bytes → UserInfo → UserInfo × Bool
set_custom_str key str u =
    let (custom, added) = Custom.add_custom_str key str u.custom in
    (record u { custom = custom }, added)

unfoldable pub set_custom_num : Bytes → ℕ → UserInfo → UserInfo × Bool
set_custom_num key num u =
    let (custom, added) = Custom.add_custom_num key num u.custom in
    (record u { custom = custom }, added)

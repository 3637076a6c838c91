-- ===== src/User/Restore.antt =====
-- What survives `UserInfo::to_data` and `from_data`.
use aim_to_v.Base.{
  ℕ, ◌+◌, ◌-◌, ◌%◌, ◌^◌, ◌≤◌, ◌<◌, ◌≡◌, ◌≢◌, refl, Bool, true, false, not, ltb-false, ==_false,
  if◌then◌else◌, some, ◌++◌, length, arith,
}
use aim_to_v.Wire.Bytes.{
  Bytes, at, le_bytes, written, written-append, get_num-le_bytes, get_bytes-append, length-le_bytes,
}
use aim_to_v.Custom
use aim_to_v.User.{UserInfo, fixed_length, user_length, user_fields, user_read, from_data, to_data}

-- The fields hold what their C++ types can.
pub record UserFits (u : UserInfo) : Type 0 where
  pub user_guid : u.user_guid < 256 ^ 4
  pub icon_guid : u.icon_guid < 256 ^ 4
  pub reg_time : u.reg_time < 256 ^ 4
  pub last_login_time : u.last_login_time < 256 ^ 4
  pub last_logout_time : u.last_logout_time < 256 ^ 4
  pub age : u.age < 256 ^ 1
  pub sex : u.sex < 256 ^ 1
  pub online_status : u.online_status < 256 ^ 1
  pub owner_groups : u.owner_groups < 256 ^ 1
  pub name : length u.name ≡ 32
  pub phone : length u.phone ≡ 16
  pub qq : length u.qq ≡ 16
  pub wechat : length u.wechat ≡ 32
  pub eamil : length u.eamil ≡ 32
  pub city : length u.city ≡ 32
  pub sha256 : length u.sha256 ≡ 64
  pub custom_length : u.custom_length < 256 ^ 4

-- The guid and the times are set, so that no default takes their place.
pub record IsRegistered (u : UserInfo) : Type 0 where
  pub user_guid : u.user_guid ≢ 0
  pub reg_time : u.reg_time ≢ 0
  pub last_login_time : u.last_login_time ≢ 0
  pub last_logout_time : u.last_logout_time ≢ 0

-- The user that the fixed part makes of an object that was there.
abbrev pub restored : (Bytes → ℕ) → UserInfo → UserInfo → UserInfo
restored hash u old = record u {
  passwd = hash u.sha256;
  custom = old.custom;
  join_groups = old.join_groups;
  friends = old.friends;
  msg_map = old.msg_map;
  msg_map_limit = old.msg_map_limit;
}

user_reads_back :
    (hash : Bytes → ℕ) (now global : ℕ) (u old : UserInfo) (rest : Bytes)
    → UserFits u
    → IsRegistered u
    → user_read hash now global old (at 0 (written (user_fields u) rest))
      ≡ (restored hash u old, at fixed_length rest)
unfolding user_read
user_reads_back hash now global u old rest f r = simp (
  get_num-le_bytes 4 u.user_guid _ _ f.user_guid,
  get_num-le_bytes 4 u.icon_guid _ _ f.icon_guid,
  get_num-le_bytes 4 u.reg_time _ _ f.reg_time,
  get_num-le_bytes 4 u.last_login_time _ _ f.last_login_time,
  get_num-le_bytes 4 u.last_logout_time _ _ f.last_logout_time,
  get_num-le_bytes 1 u.age _ _ f.age,
  get_num-le_bytes 1 u.sex _ _ f.sex,
  get_num-le_bytes 1 u.online_status _ _ f.online_status,
  get_num-le_bytes 1 u.owner_groups _ _ f.owner_groups,
  get_bytes-append 32 _ u.name _ f.name,
  get_bytes-append 16 _ u.phone _ f.phone,
  get_bytes-append 16 _ u.qq _ f.qq,
  get_bytes-append 32 _ u.wechat _ f.wechat,
  get_bytes-append 32 _ u.eamil _ f.eamil,
  get_bytes-append 32 _ u.city _ f.city,
  get_bytes-append 64 _ u.sha256 _ f.sha256,
  get_bytes-append 8 _ (le_bytes 8 0) _ (length-le_bytes 8 0),
  get_num-le_bytes 4 u.custom_length _ _ f.custom_length,
  ==_false u.user_guid 0 r.user_guid,
  ==_false u.reg_time 0 r.reg_time,
  ==_false u.last_login_time 0 r.last_login_time,
  ==_false u.last_logout_time 0 r.last_logout_time,
)

to_data_written :
    (room : ℕ) (u : UserInfo)
    → user_length u ≤ room
    → to_data true room u ≡ (
        let (n, bytes) = Custom.to_data true (room - fixed_length) u.custom in
        (fixed_length + n, written (user_fields u) bytes))
unfolding to_data
to_data_written room u h = rw (ltb-false room (user_length u) h)

abbrev pair : UserInfo → ℕ → UserInfo × ℕ
pair u n = (u, n)

either_way :
    (parsed : Bool) (u : UserInfo) (n : ℕ)
    → (if not parsed then pair u 0 else pair u n) ≡ pair u (if parsed then n else 0)
either_way true u n = refl
either_way false u n = refl

from_data_read :
    (hash : Bytes → ℕ) (beyond : Bytes) (now global len : ℕ) (u old : UserInfo) (src : Bytes)
    → UserFits u
    → IsRegistered u
    → user_length old ≤ len
    → fixed_length + u.custom_length ≤ len
    → len < 2 ^ 32
    → from_data hash beyond now global (written (user_fields u) src) len old ≡ (
        let (custom, parsed) = Custom.from_data beyond (some src) u.custom_length old.custom in
        (
          record (restored hash u old) { custom = custom },
          if parsed then fixed_length + u.custom_length else 0,
        ))
unfolding from_data
from_data_read hash beyond now global len u old src f r ho hl small =
    let (custom, parsed) = Custom.from_data beyond (some src) u.custom_length old.custom in
    let e : (fixed_length + u.custom_length) % 2 ^ 32 ≡ fixed_length + u.custom_length =
      omega arith in
    rw
      (
        user_reads_back hash now global u old src f r,
        ltb-false len (user_length old) ho,
        ltb-false len ((u.custom_length + fixed_length) % 2 ^ 32) (omega arith),
        e,
      )
      (either_way parsed (record (restored hash u old) { custom = custom })
        (fixed_length + u.custom_length))

-- A registered user that is written into a buffer large enough is read back over any object: the
-- fixed part is the same, but for the password, which is never sent and is the hash of the text
-- that stands for it; the ties and logs stay those of the object; and the custom data is what
-- `CustomData::from_data` makes of what `CustomData::to_data` wrote. The result is the whole length
-- if that was understood, and else 0.
pub user_restored :
    (hash : Bytes → ℕ) (beyond rest : Bytes) (now global room len : ℕ) (u old : UserInfo)
    → UserFits u
    → IsRegistered u
    → user_length u ≤ room
    → user_length old ≤ len
    → fixed_length + u.custom_length ≤ len
    → len < 2 ^ 32
    → let (n, bytes) = to_data true room u in
      let (custom_n, custom_bytes) = Custom.to_data true (room - fixed_length) u.custom in
      let (custom, parsed) =
        Custom.from_data beyond (some (custom_bytes ++ rest)) u.custom_length old.custom in
      (n ≡ fixed_length + custom_n)
      × (from_data hash beyond now global (bytes ++ rest) len old ≡ (
        record (restored hash u old) { custom = custom },
        if parsed then fixed_length + u.custom_length else 0,
      ))
user_restored hash beyond rest now global room len u old f r hr ho hl small =
    let custom_bytes : Bytes = (Custom.to_data true (room - fixed_length) u.custom).1 in
    rw
      (
        to_data_written room u hr,
        written-append (user_fields u) custom_bytes rest,
        from_data_read hash beyond now global len u old (custom_bytes ++ rest) f r ho hl small,
      )
      (refl, refl)

-- ===== src/User/Tests.antt =====
-- Each theorem about users at a concrete one.
use aim_to_v.Base.{ℕ, ◌+◌, ◌-◌, ◌≡◌, refl, true, if◌then◌else◌, some, [], ◌++◌, arith}
use aim_to_v.Base.Map.{find}
use aim_to_v.Wire.Bytes.{le_value}
use aim_to_v.Wire.MsgInfo.{MsgInfo}
use aim_to_v.Custom
use aim_to_v.User.{
  UserInfo, empty_user, fixed_length, user_length, from_data, to_data, push_msg, number_msg,
  on_add_msg,
}
use aim_to_v.User.Log.{IsLogged, add_msg, apply, apply-IsLogged}
use aim_to_v.User.Restore.{UserFits, IsRegistered, restored, user_restored}

abbrev ann : UserInfo
ann = record empty_user {
  user_guid = 5;
  reg_time = 100;
  last_login_time = 101;
  last_logout_time = 102;
  owner_groups = 50;
}

abbrev note : ℕ → ℕ → MsgInfo
note recv_guid num = record {
  send_guid = 5;
  recv_guid = recv_guid;
  time_sec = 1;
  msg_length = 0;
  msg_num = num;
  msg_type = 2;
  msg = [];
}

ann-IsLogged : IsLogged ann
unfolding empty_user find
ann-IsLogged = record { log = λ k ms h. cc }

apply-IsLogged_example : IsLogged (push_msg (note 5 1) ann)
unfolding apply on_add_msg number_msg empty_user find
apply-IsLogged_example =
    apply-IsLogged (add_msg (note 5 0)) ann (push_msg (note 5 1) ann) true ann-IsLogged refl

ann-Fits : UserFits ann
unfolding empty_user
ann-Fits = record {
  user_guid = omega arith;
  icon_guid = omega arith;
  reg_time = omega arith;
  last_login_time = omega arith;
  last_logout_time = omega arith;
  age = omega arith;
  sex = omega arith;
  online_status = omega arith;
  owner_groups = omega arith;
  name = refl;
  phone = refl;
  qq = refl;
  wechat = refl;
  eamil = refl;
  city = refl;
  sha256 = refl;
  custom_length = omega arith;
}

ann-IsRegistered : IsRegistered ann
unfolding empty_user
ann-IsRegistered = record {
  user_guid = λ e. omega (arith, e);
  reg_time = λ e. omega (arith, e);
  last_login_time = λ e. omega (arith, e);
  last_logout_time = λ e. omega (arith, e);
}

user_restored_example :
    let (n, bytes) = to_data true 300 ann in
    let (custom_n, custom_bytes) = Custom.to_data true (300 - fixed_length) ann.custom in
    let (custom, parsed) =
      Custom.from_data [] (some (custom_bytes ++ [])) ann.custom_length empty_user.custom in
    (n ≡ fixed_length + custom_n)
    × (from_data le_value [] 0 0 (bytes ++ []) 300 empty_user ≡ (
      record (restored le_value ann empty_user) { custom = custom },
      if parsed then fixed_length + ann.custom_length else 0,
    ))
unfolding user_length empty_user Custom.empty_custom
user_restored_example =
    user_restored le_value [] [] 0 0 300 300 ann empty_user ann-Fits ann-IsRegistered (omega arith)
      (omega arith) (omega arith) (omega arith)

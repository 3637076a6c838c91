-- ===== src/Wire/Query.antt =====
-- The requests for information: `UserInfoReq`, `GroupInfoReq` and `MsgListReq` of
-- include/struct_def.h.
use aim_to_v.Base.{ℕ, ◌+◌, ◌<◌, ◌^◌, ◌≡◌, List, [], ◌∷◌, length as size, length-append}
use aim_to_v.Wire.Bytes.{
  Bytes, Reader, ◌>>=◌, pure, at, get_num, le_bytes, written, get_num-le_bytes, length-le_bytes,
}
use aim_to_v.Wire.Codec.{Layout}

-- `UserInfoReq`.
pub record UserInfoReq : Type 0 where
  pub user_guid : ℕ

-- The fields hold what their C++ types can.
pub record UserInfoReqFits (m : UserInfoReq) : Type 0 where
  pub user_guid : m.user_guid < 256 ^ 4

-- What the constructor leaves.
abbrev pub user_info_req_init : UserInfoReq
user_info_req_init = record { user_guid = 0 }

abbrev pub user_info_req_length : ℕ
user_info_req_length = 4

unfoldable pub user_info_req_read : Reader UserInfoReq
user_info_req_read = do user_guid ← get_num 4; pure (record { user_guid = user_guid })

abbrev pub user_info_req_fields : UserInfoReq → List Bytes
user_info_req_fields m = le_bytes 4 m.user_guid ∷ []

pub user_info_req_reads_back :
    (m : UserInfoReq) (rest : Bytes)
    → UserInfoReqFits m
    → user_info_req_read (at 0 (written (user_info_req_fields m) rest))
      ≡ (m, at user_info_req_length rest)
unfolding user_info_req_read
user_info_req_reads_back m rest f = simp (get_num-le_bytes 4 m.user_guid _ _ f.user_guid)

pub user_info_req_fills :
    (m : UserInfoReq)
    → UserInfoReqFits m
    → size (written (user_info_req_fields m) []) ≡ user_info_req_length
user_info_req_fills m f = simp (length-append, length-le_bytes)

abbrev pub user_info_req : Layout UserInfoReq
user_info_req = record {
  length = user_info_req_length;
  read = user_info_req_read;
  fields = user_info_req_fields;
  Fits = UserInfoReqFits;
  reads_back = user_info_req_reads_back;
  fills = user_info_req_fills;
}

-- `GroupInfoReq`.
pub record GroupInfoReq : Type 0 where
  pub group_guid : ℕ

-- The fields hold what their C++ types can.
pub record GroupInfoReqFits (m : GroupInfoReq) : Type 0 where
  pub group_guid : m.group_guid < 256 ^ 4

-- What the constructor leaves.
abbrev pub group_info_req_init : GroupInfoReq
group_info_req_init = record { group_guid = 0 }

abbrev pub group_info_req_length : ℕ
group_info_req_length = 4

unfoldable pub group_info_req_read : Reader GroupInfoReq
group_info_req_read = do group_guid ← get_num 4; pure (record { group_guid = group_guid })

abbrev pub group_info_req_fields : GroupInfoReq → List Bytes
group_info_req_fields m = le_bytes 4 m.group_guid ∷ []

pub group_info_req_reads_back :
    (m : GroupInfoReq) (rest : Bytes)
    → GroupInfoReqFits m
    → group_info_req_read (at 0 (written (group_info_req_fields m) rest))
      ≡ (m, at group_info_req_length rest)
unfolding group_info_req_read
group_info_req_reads_back m rest f = simp (get_num-le_bytes 4 m.group_guid _ _ f.group_guid)

pub group_info_req_fills :
    (m : GroupInfoReq)
    → GroupInfoReqFits m
    → size (written (group_info_req_fields m) []) ≡ group_info_req_length
group_info_req_fills m f = simp (length-append, length-le_bytes)

abbrev pub group_info_req : Layout GroupInfoReq
group_info_req = record {
  length = group_info_req_length;
  read = group_info_req_read;
  fields = group_info_req_fields;
  Fits = GroupInfoReqFits;
  reads_back = group_info_req_reads_back;
  fills = group_info_req_fills;
}

-- `MsgListReq`.
pub record MsgListReq : Type 0 where
  pub reg_guid : ℕ
  pub reg_type : ℕ

-- The fields hold what their C++ types can.
pub record MsgListReqFits (m : MsgListReq) : Type 0 where
  pub reg_guid : m.reg_guid < 256 ^ 4
  pub reg_type : m.reg_type < 256 ^ 1

-- What the constructor leaves.
abbrev pub msg_list_req_init : MsgListReq
msg_list_req_init = record { reg_guid = 0; reg_type = 0 }

abbrev pub msg_list_req_length : ℕ
msg_list_req_length = 4 + 1

unfoldable pub msg_list_req_read : Reader MsgListReq
msg_list_req_read = do
  reg_guid ← get_num 4
  reg_type ← get_num 1
  pure (record { reg_guid = reg_guid; reg_type = reg_type })

abbrev pub msg_list_req_fields : MsgListReq → List Bytes
msg_list_req_fields m = le_bytes 4 m.reg_guid ∷ le_bytes 1 m.reg_type ∷ []

pub msg_list_req_reads_back :
    (m : MsgListReq) (rest : Bytes)
    → MsgListReqFits m
    → msg_list_req_read (at 0 (written (msg_list_req_fields m) rest))
      ≡ (m, at msg_list_req_length rest)
unfolding msg_list_req_read
msg_list_req_reads_back m rest f =
    simp
      (get_num-le_bytes 4 m.reg_guid _ _ f.reg_guid, get_num-le_bytes 1 m.reg_type _ _ f.reg_type)

pub msg_list_req_fills :
    (m : MsgListReq)
    → MsgListReqFits m
    → size (written (msg_list_req_fields m) []) ≡ msg_list_req_length
msg_list_req_fills m f = simp (length-append, length-le_bytes)

abbrev pub msg_list_req : Layout MsgListReq
msg_list_req = record {
  length = msg_list_req_length;
  read = msg_list_req_read;
  fields = msg_list_req_fields;
  Fits = MsgListReqFits;
  reads_back = msg_list_req_reads_back;
  fills = msg_list_req_fills;
}

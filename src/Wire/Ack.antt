-- ===== src/Wire/Ack.antt =====
-- The answers to clients: `ClientAck`, `BriefUserInfo`, `ClientAcountAddAck` and
-- `ClientAcountLoginAck` of include/struct_def.h.
use aim_to_v.Base.{ℕ, ◌+◌, ◌<◌, ◌^◌, ◌≡◌, List, [], ◌∷◌, length as size, length-append, replicate}
use aim_to_v.Wire.Bytes.{
  Bytes, Reader, ◌>>=◌, pure, at, get_num, get_bytes, le_bytes, written, get_num-le_bytes,
  get_bytes-append, length-le_bytes,
}
use aim_to_v.Wire.Codec.{Layout}

-- `ClientAck`.
pub record ClientAck : Type 0 where
  pub err_no : ℕ

-- The fields hold what their C++ types can.
pub record ClientAckFits (m : ClientAck) : Type 0 where
  pub err_no : m.err_no < 256 ^ 2

-- What the constructor leaves.
abbrev pub client_ack_init : ClientAck
client_ack_init = record { err_no = 0 }

abbrev pub client_ack_length : ℕ
client_ack_length = 2

unfoldable pub client_ack_read : Reader ClientAck
client_ack_read = do err_no ← get_num 2; pure (record { err_no = err_no })

abbrev pub client_ack_fields : ClientAck → List Bytes
client_ack_fields m = le_bytes 2 m.err_no ∷ []

pub client_ack_reads_back :
    (m : ClientAck) (rest : Bytes)
    → ClientAckFits m
    → client_ack_read (at 0 (written (client_ack_fields m) rest)) ≡ (m, at client_ack_length rest)
unfolding client_ack_read
client_ack_reads_back m rest f = simp (get_num-le_bytes 2 m.err_no _ _ f.err_no)

pub client_ack_fills :
    (m : ClientAck) → ClientAckFits m → size (written (client_ack_fields m) []) ≡ client_ack_length
client_ack_fills m f = simp (length-append, length-le_bytes)

abbrev pub client_ack : Layout ClientAck
client_ack = record {
  length = client_ack_length;
  read = client_ack_read;
  fields = client_ack_fields;
  Fits = ClientAckFits;
  reads_back = client_ack_reads_back;
  fills = client_ack_fills;
}

-- `BriefUserInfo`.
pub record BriefUserInfo : Type 0 where
  pub user_guid : ℕ
  pub icon_guid : ℕ
  pub name : Bytes
  pub online_status : ℕ

-- The fields hold what their C++ types can.
pub record BriefUserInfoFits (m : BriefUserInfo) : Type 0 where
  pub user_guid : m.user_guid < 256 ^ 4
  pub icon_guid : m.icon_guid < 256 ^ 4
  pub name : size m.name ≡ 32
  pub online_status : m.online_status < 256 ^ 1

-- What the constructor leaves.
abbrev pub brief_user_info_init : BriefUserInfo
brief_user_info_init = record {
  user_guid = 0;
  icon_guid = 0;
  name = replicate 32 0;
  online_status = 1;
}

abbrev pub brief_user_info_length : ℕ
brief_user_info_length = 4 + 4 + 32 + 1

unfoldable pub brief_user_info_read : Reader BriefUserInfo
brief_user_info_read = do
  user_guid ← get_num 4
  icon_guid ← get_num 4
  name ← get_bytes 32
  online_status ← get_num 1
  pure (record {
    user_guid = user_guid;
    icon_guid = icon_guid;
    name = name;
    online_status = online_status;
  })

abbrev pub brief_user_info_fields : BriefUserInfo → List Bytes
brief_user_info_fields m =
    le_bytes 4 m.user_guid ∷ le_bytes 4 m.icon_guid ∷ m.name ∷ le_bytes 1 m.online_status ∷ []

pub brief_user_info_reads_back :
    (m : BriefUserInfo) (rest : Bytes)
    → BriefUserInfoFits m
    → brief_user_info_read (at 0 (written (brief_user_info_fields m) rest))
      ≡ (m, at brief_user_info_length rest)
unfolding brief_user_info_read
brief_user_info_reads_back m rest f = simp (
  get_num-le_bytes 4 m.user_guid _ _ f.user_guid,
  get_num-le_bytes 4 m.icon_guid _ _ f.icon_guid,
  get_bytes-append 32 _ m.name _ f.name,
  get_num-le_bytes 1 m.online_status _ _ f.online_status,
)

pub brief_user_info_fills :
    (m : BriefUserInfo)
    → BriefUserInfoFits m
    → size (written (brief_user_info_fields m) []) ≡ brief_user_info_length
brief_user_info_fills m f = simp (length-append, length-le_bytes, f.name)

abbrev pub brief_user_info : Layout BriefUserInfo
brief_user_info = record {
  length = brief_user_info_length;
  read = brief_user_info_read;
  fields = brief_user_info_fields;
  Fits = BriefUserInfoFits;
  reads_back = brief_user_info_reads_back;
  fills = brief_user_info_fills;
}

-- `ClientAcountAddAck`.
pub record ClientAcountAddAck : Type 0 where
  pub err_no : ℕ
  pub user_guid : ℕ

-- The fields hold what their C++ types can.
pub record ClientAcountAddAckFits (m : ClientAcountAddAck) : Type 0 where
  pub err_no : m.err_no < 256 ^ 2
  pub user_guid : m.user_guid < 256 ^ 4

abbrev pub client_acount_add_ack_length : ℕ
client_acount_add_ack_length = 2 + 4

unfoldable pub client_acount_add_ack_read : Reader ClientAcountAddAck
client_acount_add_ack_read = do
  err_no ← get_num 2
  user_guid ← get_num 4
  pure (record { err_no = err_no; user_guid = user_guid })

abbrev pub client_acount_add_ack_fields : ClientAcountAddAck → List Bytes
client_acount_add_ack_fields m = le_bytes 2 m.err_no ∷ le_bytes 4 m.user_guid ∷ []

pub client_acount_add_ack_reads_back :
    (m : ClientAcountAddAck) (rest : Bytes)
    → ClientAcountAddAckFits m
    → client_acount_add_ack_read (at 0 (written (client_acount_add_ack_fields m) rest))
      ≡ (m, at client_acount_add_ack_length rest)
unfolding client_acount_add_ack_read
client_acount_add_ack_reads_back m rest f =
    simp (get_num-le_bytes 2 m.err_no _ _ f.err_no, get_num-le_bytes 4 m.user_guid _ _ f.user_guid)

pub client_acount_add_ack_fills :
    (m : ClientAcountAddAck)
    → ClientAcountAddAckFits m
    → size (written (client_acount_add_ack_fields m) []) ≡ client_acount_add_ack_length
client_acount_add_ack_fills m f = simp (length-append, length-le_bytes)

abbrev pub client_acount_add_ack : Layout ClientAcountAddAck
client_acount_add_ack = record {
  length = client_acount_add_ack_length;
  read = client_acount_add_ack_read;
  fields = client_acount_add_ack_fields;
  Fits = ClientAcountAddAckFits;
  reads_back = client_acount_add_ack_reads_back;
  fills = client_acount_add_ack_fills;
}

-- `ClientAcountLoginAck`.
pub record ClientAcountLoginAck : Type 0 where
  pub err_no : ℕ
  pub user_guid : ℕ

-- The fields hold what their C++ types can.
pub record ClientAcountLoginAckFits (m : ClientAcountLoginAck) : Type 0 where
  pub err_no : m.err_no < 256 ^ 2
  pub user_guid : m.user_guid < 256 ^ 4

abbrev pub client_acount_login_ack_length : ℕ
client_acount_login_ack_length = 2 + 4

unfoldable pub client_acount_login_ack_read : Reader ClientAcountLoginAck
client_acount_login_ack_read = do
  err_no ← get_num 2
  user_guid ← get_num 4
  pure (record { err_no = err_no; user_guid = user_guid })

abbrev pub client_acount_login_ack_fields : ClientAcountLoginAck → List Bytes
client_acount_login_ack_fields m = le_bytes 2 m.err_no ∷ le_bytes 4 m.user_guid ∷ []

pub client_acount_login_ack_reads_back :
    (m : ClientAcountLoginAck) (rest : Bytes)
    → ClientAcountLoginAckFits m
    → client_acount_login_ack_read (at 0 (written (client_acount_login_ack_fields m) rest))
      ≡ (m, at client_acount_login_ack_length rest)
unfolding client_acount_login_ack_read
client_acount_login_ack_reads_back m rest f =
    simp (get_num-le_bytes 2 m.err_no _ _ f.err_no, get_num-le_bytes 4 m.user_guid _ _ f.user_guid)

pub client_acount_login_ack_fills :
    (m : ClientAcountLoginAck)
    → ClientAcountLoginAckFits m
    → size (written (client_acount_login_ack_fields m) []) ≡ client_acount_login_ack_length
client_acount_login_ack_fills m f = simp (length-append, length-le_bytes)

abbrev pub client_acount_login_ack : Layout ClientAcountLoginAck
client_acount_login_ack = record {
  length = client_acount_login_ack_length;
  read = client_acount_login_ack_read;
  fields = client_acount_login_ack_fields;
  Fits = ClientAcountLoginAckFits;
  reads_back = client_acount_login_ack_reads_back;
  fills = client_acount_login_ack_fills;
}
